-- ===== src/Runtime/Link/Fork.antt =====
-- `ForkLink` of route-rs-runtime/src/link/primitive/fork_link.rs: its ingressor gives every packet of
-- its stream to every egressor. The egressors are those of a queue link.
pub mod Copies
use route_rs.Common.{
  ℕ, List, [], ◌∷◌, Bool, true, false, not, ◌==◌, ltb, leb, Option, none, some, Outcome, ok, panic,
  ◌>>=◌, ◌>>◌, assert, length, is_some, some_or_panic, if◌then◌else◌,
}
use route_rs.Runtime.Crossbeam.{Crossbeam}
use route_rs.Runtime.TaskPark.{Waker, Memory}
use route_rs.Runtime.Link.{Poll, ready, pending, PacketStream, Port}
use route_rs.Runtime.Link.Ports.{
  new_ports, park_at_full, send_end, die_all, deliver_all, deliver_at,
}

module _ (cb : Crossbeam) (P : Type 0) where
  pub record ForkLink : Type 0 where
    pub in_stream : Option (PacketStream P)
    pub capacity : ℕ
    pub egressor_count : Option ℕ

  pub record ForkIngressor : Type 0 where
    pub input_stream : PacketStream P
    pub ports : List (Port cb P)

  -- `ForkLink::new`
  abbrev pub new : ForkLink
  new = record { in_stream = none; capacity = 10; egressor_count = none }

  unfoldable pub queue_capacity : ForkLink → ℕ → Outcome ForkLink
  queue_capacity self n = do assert (ltb 0 n); ok (record self { capacity = n })

  unfoldable pub num_egressors : ForkLink → ℕ → Outcome ForkLink
  num_egressors self n = do assert (ltb 0 n); ok (record self { egressor_count = some n })

  unfoldable pub ingressor : ForkLink → PacketStream P → Outcome ForkLink
  ingressor self in_stream = do
    assert (not (is_some self.in_stream))
    ok (record self { in_stream = some in_stream })

  unfoldable pub ingressors : ForkLink → List (PacketStream P) → Outcome ForkLink
  unfolding ingressor
  ingressors self (in_stream ∷ []) = ingressor self in_stream
  ingressors self _ = panic

  -- The egressors' ports are those of the ingressor.
  unfoldable pub build_link : ForkLink → Outcome ForkIngressor
  unfolding new_ports
  build_link self = do
    in_stream ← some_or_panic self.in_stream
    n ← some_or_panic self.egressor_count
    ok (record { input_stream = in_stream; ports = new_ports cb P self.capacity n })

  -- What a poll of the ingressor leaves.
  abbrev pub Polled : Type 0
  Polled = Outcome (Poll (Unit {0}) × ForkIngressor × Memory cb)

  -- The loop of `ForkIngressor::poll`, a round for each answer of the stream.
  unfoldable pub poll_loop : Waker → PacketStream P → List (Port cb P) → Memory cb → Polled
  unfolding park_at_full send_end die_all deliver_all
  poll_loop task [] ports mem = elim (park_at_full cb P task ports mem) [
    | some (ports', mem') ↦ ok (pending, record { input_stream = []; ports = ports' }, mem')
    | none ↦ ok (pending, record { input_stream = []; ports = ports }, mem)
  ]
  poll_loop task (answer ∷ stream) ports mem = elim (park_at_full cb P task ports mem) [
    | some (ports', mem') ↦
        ok (pending, record { input_stream = answer ∷ stream; ports = ports' }, mem')
    | none ↦ elim answer [
      | pending ↦ ok (pending, record { input_stream = stream; ports = ports }, mem)
      | ready none ↦ do
        ports' ← send_end cb P ports
        let (dead_ports, mem') = die_all cb P ports' mem
        ok (ready tt, record { input_stream = stream; ports = dead_ports }, mem')
      | ready (some packet) ↦ do
        (ports', mem') ← deliver_all cb P packet ports mem
        poll_loop task stream ports' mem'
    ]
  ]

  unfoldable pub poll : Waker → ForkIngressor → Memory cb → Polled
  unfolding poll_loop
  poll task self mem = poll_loop task self.input_stream self.ports mem
