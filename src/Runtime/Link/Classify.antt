-- ===== src/Runtime/Link/Classify.antt =====
-- `ClassifyLink` of route-rs-runtime/src/link/primitive/classify_link.rs: its ingressor gives every
-- packet of its stream to the egressor that its class is dispatched to. The egressors are those of a
-- queue link.
pub mod Dispatch
use route_rs.Common.{
  ℕ, List, [], ◌∷◌, Bool, true, false, not, ◌==◌, ltb, leb, Option, none, some, Outcome, ok, panic,
  ◌>>=◌, ◌>>◌, assert, length, is_some, some_or_panic, if◌then◌else◌,
}
use route_rs.Runtime.Crossbeam.{Crossbeam}
use route_rs.Runtime.TaskPark.{Waker, Memory}
use route_rs.Runtime.Link.{Poll, ready, pending, PacketStream, Port}
use route_rs.Runtime.Link.Ports.{
  new_ports, park_at_full, send_end, die_all, deliver_all, deliver_at,
}

-- A classifier is its `classify`, and a dispatcher is the function in its box.
module _ (cb : Crossbeam) (P Class : Type 0) where
  pub record ClassifyLink : Type 0 where
    pub in_stream : Option (PacketStream P)
    pub classify : Option (P → Class)
    pub dispatch : Option (Class → ℕ)
    pub capacity : ℕ
    pub egressor_count : Option ℕ

  pub record ClassifyIngressor : Type 0 where
    pub input_stream : PacketStream P
    pub dispatch : Class → ℕ
    pub classify : P → Class
    pub ports : List (Port cb P)

  -- `ClassifyLink::new`
  abbrev pub new : ClassifyLink
  new = record {
    in_stream = none;
    classify = none;
    dispatch = none;
    capacity = 10;
    egressor_count = none;
  }

  abbrev pub classifier : ClassifyLink → (P → Class) → ClassifyLink
  classifier self classify = record self { classify = some classify }

  abbrev pub dispatcher : ClassifyLink → (Class → ℕ) → ClassifyLink
  dispatcher self dispatch = record self { dispatch = some dispatch }

  unfoldable pub queue_capacity : ClassifyLink → ℕ → Outcome ClassifyLink
  queue_capacity self n = do assert (ltb 0 n); ok (record self { capacity = n })

  unfoldable pub num_egressors : ClassifyLink → ℕ → Outcome ClassifyLink
  num_egressors self n = do assert (ltb 0 n); ok (record self { egressor_count = some n })

  unfoldable pub ingressor : ClassifyLink → PacketStream P → Outcome ClassifyLink
  ingressor self in_stream = do
    assert (not (is_some self.in_stream))
    ok (record self { in_stream = some in_stream })

  unfoldable pub ingressors : ClassifyLink → List (PacketStream P) → Outcome ClassifyLink
  unfolding ingressor
  ingressors self (in_stream ∷ []) = ingressor self in_stream
  ingressors self _ = panic

  -- The egressors' ports are those of the ingressor.
  unfoldable pub build_link : ClassifyLink → Outcome ClassifyIngressor
  unfolding new_ports
  build_link self = do
    in_stream ← some_or_panic self.in_stream
    classify ← some_or_panic self.classify
    dispatch ← some_or_panic self.dispatch
    n ← some_or_panic self.egressor_count
    ok (record {
      input_stream = in_stream;
      dispatch = dispatch;
      classify = classify;
      ports = new_ports cb P self.capacity n;
    })

  -- What a poll of the ingressor leaves.
  abbrev pub Polled : Type 0
  Polled = Outcome (Poll (Unit {0}) × ClassifyIngressor × Memory cb)

  -- The loop of `ClassifyIngressor::poll`, a round for each answer of the stream.
  unfoldable pub poll_loop : Waker → PacketStream P → ClassifyIngressor → Memory cb → Polled
  unfolding park_at_full send_end die_all deliver_at
  poll_loop task [] self mem = elim (park_at_full cb P task self.ports mem) [
    | some (ports', mem') ↦ ok (pending, record self { input_stream = []; ports = ports' }, mem')
    | none ↦ ok (pending, record self { input_stream = [] }, mem)
  ]
  poll_loop task (answer ∷ stream) self mem = elim (park_at_full cb P task self.ports mem) [
    | some (ports', mem') ↦
        ok (pending, record self { input_stream = answer ∷ stream; ports = ports' }, mem')
    | none ↦ elim answer [
      | pending ↦ ok (pending, record self { input_stream = stream }, mem)
      | ready none ↦ do
        ports' ← send_end cb P self.ports
        let (dead_ports, mem') = die_all cb P ports' mem
        ok (ready tt, record self { input_stream = stream; ports = dead_ports }, mem')
      | ready (some packet) ↦ do
        let port = self.dispatch (self.classify packet)
        assert (not (leb (length self.ports) port))
        (ports', mem') ← deliver_at cb P port packet self.ports mem
        poll_loop task stream (record self { ports = ports' }) mem'
    ]
  ]

  unfoldable pub poll : Waker → ClassifyIngressor → Memory cb → Polled
  unfolding poll_loop
  poll task self mem = poll_loop task self.input_stream self mem
