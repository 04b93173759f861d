-- ===== src/Runtime/Crossbeam/Queues.antt =====
-- An instance of the interface: a channel is a list with a bound and two flags, a cell its value. The
-- tests run the links over it.
use route_rs.Common.{
  ℕ, refl, List, [], ◌∷◌, ◌++◌, Bool, true, false, ◌&&◌, if◌then◌else◌, leb, ltb, length,
}
use route_rs.Runtime.Crossbeam.{Crossbeam, IsCrossbeam, first, rest}

pub record ListQueue (A : Type 0) : Type 0 where
  pub messages : List A
  pub bound : ℕ
  pub has_receiver : Bool
  pub has_sender : Bool

abbrev push : {A : Type 0} → ListQueue A → A → Bool × ListQueue A
push c a =
    let room = c.has_receiver && ltb (length c.messages) c.bound in
    (room, record c { messages = if room then c.messages ++ a ∷ [] else c.messages })

abbrev pub queues : Crossbeam
queues = record {
  Cell = λ A. A;
  new_cell = λ {A} a. a;
  swap = λ {A} c a. (c, a);
  store = λ {A} c a. a;
  Channel = ListQueue;
  bounded = λ {A} n. record { messages = []; bound = n; has_receiver = true; has_sender = true };
  is_full = λ {A} c. leb c.bound (length c.messages);
  try_send = λ {A} c a. push c a;
  try_recv = λ {A} c. (first c.messages c.has_sender, record c { messages = rest c.messages });
  drop_sender = λ {A} c. record c { has_sender = false };
  value = λ {A} c. c;
  contents = λ {A} c. c.messages;
  capacity = λ {A} c. c.bound;
  receiving = λ {A} c. c.has_receiver;
  sending = λ {A} c. c.has_sender;
}

pub queues-IsCrossbeam : IsCrossbeam queues
queues-IsCrossbeam = record {
  value-new_cell = λ {A} a. refl;
  swap_old = λ {A} c a. refl;
  value-swap = λ {A} c a. refl;
  value-store = λ {A} c a. refl;
  contents-bounded = λ {A} n. refl;
  capacity-bounded = λ {A} n. refl;
  receiving-bounded = λ {A} n. refl;
  sending-bounded = λ {A} n. refl;
  is_full_lem = λ {A} c. refl;
  sent = λ {A} c a. refl;
  contents-try_send = λ {A} c a. refl;
  capacity-try_send = λ {A} c a. refl;
  receiving-try_send = λ {A} c a. refl;
  sending-try_send = λ {A} c a. refl;
  received = λ {A} c. refl;
  contents-try_recv = λ {A} c. refl;
  capacity-try_recv = λ {A} c. refl;
  receiving-try_recv = λ {A} c. refl;
  sending-try_recv = λ {A} c. refl;
  contents-drop_sender = λ {A} c. refl;
  capacity-drop_sender = λ {A} c. refl;
  receiving-drop_sender = λ {A} c. refl;
  sending-drop_sender = λ {A} c. refl;
}
