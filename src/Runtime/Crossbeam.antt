-- ===== src/Runtime/Crossbeam.antt =====
-- What the runtime uses of the package crossbeam: the bounded channels and the atomic cells. The
-- package is not part of the repository, so the links take this interface as a parameter. A channel or
-- a cell is a value here, and an operation gives its next value; the code shares it by `Arc`.
pub mod Queues
use route_rs.Common.{
  ℕ, ◌≡◌, List, [], ◌∷◌, ◌++◌, Bool, true, false, ◌&&◌, if◌then◌else◌, leb, ltb, length,
}

-- The answers of `try_recv`: a message, or one of the two errors.
pub data Received (A : Type 0) : Type 0 where
  message : A → Received A
  is_empty : Received A
  disconnected : Received A

-- What a channel with these contents answers; `sending` tells whether a sender is left.
abbrev pub first : {A : Type 0} → List A → Bool → Received A
first [] true = is_empty
first [] false = disconnected
first (a ∷ more) sending = message a

abbrev pub rest : {A : Type 0} → List A → List A
rest [] = []
rest (a ∷ more) = more

pub record Crossbeam : Type 1 where
  -- `AtomicCell`
  pub Cell : Type 0 → Type 0
  pub new_cell : {A : Type 0} → A → Cell A
  pub swap : {A : Type 0} → Cell A → A → A × Cell A
  pub store : {A : Type 0} → Cell A → A → Cell A
  -- `crossbeam_channel`
  pub Channel : Type 0 → Type 0
  pub bounded : {A : Type 0} → ℕ → Channel A
  pub is_full : {A : Type 0} → Channel A → Bool
  pub try_send : {A : Type 0} → Channel A → A → Bool × Channel A
  pub try_recv : {A : Type 0} → Channel A → Received A × Channel A
  pub drop_sender : {A : Type 0} → Channel A → Channel A
  -- the value of a cell, the messages in a channel and its capacity, and whether a receiver and a
  -- sender are left
  pub value : {A : Type 0} → Cell A → A
  pub contents : {A : Type 0} → Channel A → List A
  pub capacity : {A : Type 0} → Channel A → ℕ
  pub receiving : {A : Type 0} → Channel A → Bool
  pub sending : {A : Type 0} → Channel A → Bool

module _ (cb : Crossbeam) where
  open cb use {
    Cell, new_cell, swap, store, Channel, bounded, is_full, try_send, try_recv, drop_sender, value,
    contents, capacity, receiving, sending,
  }

  -- The documented behaviour: a cell holds what was put in last; a channel is a queue that refuses a
  -- message where it is full or has no receiver left, and is full at its capacity.
  pub record IsCrossbeam : Type 1 where
    pub value-new_cell : {A : Type 0} (a : A) → value (new_cell a) ≡ a
    pub swap_old : {A : Type 0} (c : Cell A) (a : A) → (swap c a).0 ≡ value c
    pub value-swap : {A : Type 0} (c : Cell A) (a : A) → value (swap c a).1 ≡ a
    pub value-store : {A : Type 0} (c : Cell A) (a : A) → value (store c a) ≡ a
    pub contents-bounded : {A : Type 0} (n : ℕ) → contents (bounded {A = A} n) ≡ []
    pub capacity-bounded : {A : Type 0} (n : ℕ) → capacity (bounded {A = A} n) ≡ n
    pub receiving-bounded : {A : Type 0} (n : ℕ) → receiving (bounded {A = A} n) ≡ true
    pub sending-bounded : {A : Type 0} (n : ℕ) → sending (bounded {A = A} n) ≡ true
    pub is_full_lem :
        {A : Type 0} (c : Channel A) → is_full c ≡ leb (capacity c) (length (contents c))
    pub sent :
        {A : Type 0} (c : Channel A) (a : A)
        → (try_send c a).0 ≡ (receiving c && ltb (length (contents c)) (capacity c))
    pub contents-try_send :
        {A : Type 0} (c : Channel A) (a : A)
        → contents (try_send c a).1
          ≡ (if (try_send c a).0 then contents c ++ a ∷ [] else contents c)
    pub capacity-try_send :
        {A : Type 0} (c : Channel A) (a : A) → capacity (try_send c a).1 ≡ capacity c
    pub receiving-try_send :
        {A : Type 0} (c : Channel A) (a : A) → receiving (try_send c a).1 ≡ receiving c
    pub sending-try_send :
        {A : Type 0} (c : Channel A) (a : A) → sending (try_send c a).1 ≡ sending c
    pub received : {A : Type 0} (c : Channel A) → (try_recv c).0 ≡ first (contents c) (sending c)
    pub contents-try_recv :
        {A : Type 0} (c : Channel A) → contents (try_recv c).1 ≡ rest (contents c)
    pub capacity-try_recv : {A : Type 0} (c : Channel A) → capacity (try_recv c).1 ≡ capacity c
    pub receiving-try_recv : {A : Type 0} (c : Channel A) → receiving (try_recv c).1 ≡ receiving c
    pub sending-try_recv : {A : Type 0} (c : Channel A) → sending (try_recv c).1 ≡ sending c
    pub contents-drop_sender : {A : Type 0} (c : Channel A) → contents (drop_sender c) ≡ contents c
    pub capacity-drop_sender : {A : Type 0} (c : Channel A) → capacity (drop_sender c) ≡ capacity c
    pub receiving-drop_sender :
        {A : Type 0} (c : Channel A) → receiving (drop_sender c) ≡ receiving c
    pub sending-drop_sender : {A : Type 0} (c : Channel A) → sending (drop_sender c) ≡ false
