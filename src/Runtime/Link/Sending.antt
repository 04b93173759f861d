-- ===== src/Runtime/Link/Sending.antt =====
-- A port that is in use: what the operations of the channel keep.
use route_rs.Common.{
  ℕ, ◌≤◌, ◌<◌, ◌≡◌, ap, ap₂, ◌∙◌, List, [], ◌∷◌, ◌++◌, true, false, Option, ok, length,
  length-append, ltb, lt→ltb, arith, ◌&&◌, if◌then◌else◌,
}
use route_rs.Runtime.Crossbeam.{Crossbeam, IsCrossbeam, message, first, rest}
use route_rs.Runtime.Link.{Port, new_port, send}

pub length-rest : {A : Type 0} (xs : List A) → length (rest xs) ≤ length xs
length-rest [] = omega arith
length-rest (a ∷ more) = omega arith

module _ (cb : Crossbeam) (law : IsCrossbeam cb) (P : Type 0) where
  open cb use {Channel, contents, capacity, receiving, sending, is_full, try_send, try_recv}

  -- A channel of capacity `n` within its bound, with both sides in place.
  pub record IsOpen (n : ℕ) (c : Channel (Option P)) : Type 0 where
    pub capacity_lem : capacity c ≡ n
    pub within : length (contents c) ≤ n
    pub receiving_lem : receiving c ≡ true
    pub sending_lem : sending c ≡ true

  pub IsOpen-new_port : (n : ℕ) → IsOpen n (new_port cb P n).channel
  IsOpen-new_port n = record {
    capacity_lem = law.capacity-bounded n;
    within = omega (arith, ap (λ t. length t) (law.contents-bounded {A = Option P} n));
    receiving_lem = law.receiving-bounded n;
    sending_lem = law.sending-bounded n;
  }

  pub room :
      {n : ℕ} {c : Channel (Option P)} → IsOpen n c → is_full c ≡ false → length (contents c) < n
  room {n} {c} o e = ground (arith, o, law.is_full_lem c)

  -- With room, a message is sent, to the end of the channel.
  pub send_lem :
      {n : ℕ} (port : Port cb P) (m : Option P)
      → IsOpen n port.channel
      → length (contents port.channel) < n
      → (port' : Port cb P) × (send cb P port m ≡ ok port')
        × IsOpen n port'.channel
        × (contents port'.channel ≡ contents port.channel ++ m ∷ [])
  send_lem {n} port m o lt = (
    record port { channel = (try_send port.channel m).1 },
    rw accepted,
    record {
      capacity_lem = law.capacity-try_send port.channel m ∙ o.capacity_lem;
      within =
          omega
            (arith, ap (λ t. length t) added, length-append (contents port.channel) (m ∷ []), lt);
      receiving_lem = law.receiving-try_send port.channel m ∙ o.receiving_lem;
      sending_lem = law.sending-try_send port.channel m ∙ o.sending_lem;
    },
    added,
  )
    where
      accepted : (try_send port.channel m).0 ≡ true
      accepted = law.sent port.channel m ∙ ap₂ ◌&&◌ o.receiving_lem fits
        where
          fits : ltb (length (contents port.channel)) (capacity port.channel) ≡ true
          fits = lt→ltb _ _ (omega (arith, o, lt))

      added : contents (try_send port.channel m).1 ≡ contents port.channel ++ m ∷ []
      added =
          law.contents-try_send port.channel m
          ∙ ap (λ b. if b then contents port.channel ++ m ∷ [] else contents port.channel) accepted

  pub IsOpen-try_recv : {n : ℕ} {c : Channel (Option P)} → IsOpen n c → IsOpen n (try_recv c).1
  IsOpen-try_recv {n} {c} o = record {
    capacity_lem = law.capacity-try_recv c ∙ o.capacity_lem;
    within =
        omega (arith, o, ap (λ t. length t) (law.contents-try_recv c), length-rest (contents c));
    receiving_lem = law.receiving-try_recv c ∙ o.receiving_lem;
    sending_lem = law.sending-try_recv c ∙ o.sending_lem;
  }

  -- A message that stands first is received, and the others stay.
  pub received_lem :
      (c : Channel (Option P)) (m : Option P) (ms : List (Option P))
      → contents c ≡ m ∷ ms
      → ((try_recv c).0 ≡ message m) × (contents (try_recv c).1 ≡ ms)
  received_lem c m ms e = (
    law.received c ∙ ap (λ t. first t (sending c)) e,
    law.contents-try_recv c ∙ ap (λ t. rest t) e,
  )
