-- ===== src/Runtime/Link/Queue.antt =====
-- `QueueLink` of route-rs-runtime/src/link/primitive/queue_link.rs: its ingressor pulls packets from
-- its stream, processes them and puts them into a channel; its egressor takes them out.
pub mod Order
pub mod Progress
pub mod Run
pub mod Invariant
pub mod Delivery
pub mod Wakes
pub mod Watch
pub mod Polling
pub mod Held
pub mod Waiting
use route_rs.Common.{
  ℕ, suc, List, [], ◌∷◌, Bool, true, false, not, ◌==◌, ltb, Option, none, some, Outcome, ok, panic,
  ◌>>=◌, ◌>>◌, assert, length, is_some, some_or_panic,
}
use route_rs.Runtime.Crossbeam.{Crossbeam, message, is_empty, disconnected}
use route_rs.Runtime.TaskPark.{Waker, Memory}
use route_rs.Runtime.Link.{
  Poll, ready, pending, PacketStream, Port, new_port, send, receive, unpark, park, die,
}

-- A processor is its state and its `process`.
module _ (cb : Crossbeam) (S A B : Type 0) (process : S → A → Option B × S) where
  pub record QueueLink : Type 0 where
    pub in_stream : Option (PacketStream A)
    pub processor : Option S
    pub capacity : ℕ

  pub record QueueIngressor : Type 0 where
    pub input_stream : PacketStream A
    pub processor : S

  -- `QueueLink::new`
  abbrev pub new : QueueLink
  new = record { in_stream = none; processor = none; capacity = 10 }

  -- The second assertion repeats the first one.
  unfoldable pub queue_capacity : QueueLink → ℕ → Outcome QueueLink
  queue_capacity self n = do
    assert (ltb 0 n)
    assert (not (n == 0))
    ok (record self { capacity = n })

  unfoldable pub ingressor : QueueLink → PacketStream A → Outcome QueueLink
  ingressor self in_stream = do
    assert (not (is_some self.in_stream))
    ok (record self { in_stream = some in_stream })

  unfoldable pub ingressors : QueueLink → List (PacketStream A) → Outcome QueueLink
  unfolding ingressor
  ingressors self (in_stream ∷ []) = ingressor self in_stream
  ingressors self _ = panic

  abbrev pub processor : QueueLink → S → QueueLink
  processor self p = record self { processor = some p }

  -- The ingressor, and the port that it shares with the egressor.
  unfoldable pub build_link : QueueLink → Outcome (QueueIngressor × Port cb B)
  build_link self = do
    in_stream ← some_or_panic self.in_stream
    p ← some_or_panic self.processor
    ok (record { input_stream = in_stream; processor = p }, new_port cb B self.capacity)

  -- What a poll of the ingressor leaves.
  abbrev pub Polled : Type 0
  Polled = Outcome (Poll (Unit {0}) × QueueIngressor × Port cb B × Memory cb)

  -- The loop of `QueueIngressor::poll`, a round for each answer of the stream.
  unfoldable pub poll_loop : Waker → PacketStream A → S → Port cb B → Memory cb → Polled
  poll_loop task [] s port mem = elim (cb.is_full port.channel) [
    | true ↦
        let (port', mem') = park cb B port task mem in
        ok (pending, record { input_stream = []; processor = s }, port', mem')
    | false ↦ ok (pending, record { input_stream = []; processor = s }, port, mem)
  ]
  poll_loop task (answer ∷ stream) s port mem = elim (cb.is_full port.channel) [
    | true ↦
        let (port', mem') = park cb B port task mem in
        ok (pending, record { input_stream = answer ∷ stream; processor = s }, port', mem')
    | false ↦ elim answer [
      | pending ↦ ok (pending, record { input_stream = stream; processor = s }, port, mem)
      | ready none ↦ do
        port' ← send cb B port none
        let (dead_port, mem') = die cb B port' mem
        ok (ready tt, record { input_stream = stream; processor = s }, dead_port, mem')
      | ready (some packet) ↦
          let (output, s') = process s packet in
          elim output [
            | none ↦ poll_loop task stream s' port mem
            | some b ↦ do
              port' ← send cb B port (some b)
              let (awake_port, mem') = unpark cb B port' mem
              poll_loop task stream s' awake_port mem'
          ]
    ]
  ]

  unfoldable pub poll : Waker → QueueIngressor → Port cb B → Memory cb → Polled
  unfolding poll_loop
  poll task self port mem = poll_loop task self.input_stream self.processor port mem

-- `QueueEgressor`: the port is all its state.
module _ (cb : Crossbeam) (P : Type 0) where
  unfoldable pub poll_next : Waker → Port cb P → Memory cb → Poll (Option P) × Port cb P × Memory cb
  poll_next task port mem =
      let (answer, port') = receive cb P port in
      elim answer [
        | message (some packet) ↦
            let (port'', mem') = unpark cb P port' mem in (ready (some packet), port'', mem')
        | message none ↦ let (port'', mem') = die cb P port' mem in (ready none, port'', mem')
        | is_empty ↦ let (port'', mem') = park cb P port' task mem in (pending, port'', mem')
        | disconnected ↦ (ready none, port', mem)
      ]
