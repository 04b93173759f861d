-- ===== src/Runtime/Link/Join.antt =====
-- `JoinLink` of route-rs-runtime/src/link/primitive/join_link.rs: an ingressor for each of its streams,
-- with a port of its own, and an egressor that takes packets from the ports in turn.
pub mod Ingress
pub mod Counts
pub mod Branches
pub mod Pull
pub mod Places
pub mod Turns
pub mod Egress
use route_rs.Common.{
  ℕ, zero, suc, ◌+◌, ◌-◌, ◌%◌, ◌==◌, List, [], ◌∷◌, ◌++◌, Bool, true, false, not, ltb, Option, none,
  some, Outcome, ok, panic, ◌>>=◌, ◌>>◌, assert, length, some_or_panic, if◌then◌else◌, ◌||◌,
  is_some,
}
use route_rs.Runtime.Crossbeam.{Crossbeam, Received, message, is_empty, disconnected}
use route_rs.Runtime.TaskPark.{Waker, Memory, allocate, wake, indirect_park_and_wake}
use route_rs.Runtime.Link.{
  Poll, ready, pending, PacketStream, Port, new_port, send, receive, unpark, park, die,
}

-- `enumerate().cycle().skip(next).take(len)`, as the places in the list: `count` of them.
unfoldable pub rotated : ℕ → ℕ → ℕ → List ℕ
rotated len next zero = []
rotated len next (suc count) = next % len ∷ rotated len (next + 1) count

module _ (cb : Crossbeam) (P : Type 0) where
  pub record JoinLink : Type 0 where
    pub in_streams : Option (List (PacketStream P))
    pub capacity : ℕ

  -- `JoinLink::new`
  abbrev pub new : JoinLink
  new = record { in_streams = none; capacity = 10 }

  unfoldable pub queue_capacity : JoinLink → ℕ → Outcome JoinLink
  queue_capacity self n = do assert (ltb 0 n); ok (record self { capacity = n })

  unfoldable pub ingressors : JoinLink → List (PacketStream P) → Outcome JoinLink
  ingressors self in_streams = do
    assert (ltb 0 (length in_streams))
    assert (not (is_some self.in_streams))
    ok (record self { in_streams = some in_streams })

  unfoldable pub ingressor : JoinLink → PacketStream P → JoinLink
  ingressor self in_stream = elim self.in_streams [
    | none ↦ record self { in_streams = some (in_stream ∷ []) }
    | some in_streams ↦ record self { in_streams = some (in_streams ++ in_stream ∷ []) }
  ]

  -- The lists of receivers and of task parks are one list of ports, which the ingressors share.
  pub record JoinEgressor : Type 0 where
    pub ports : List (Port cb P)
    pub ingressors_alive : ℕ
    pub next_pull_ingressor : ℕ

  -- The ports of the streams.
  unfoldable pub new_ports : ℕ → List (PacketStream P) → List (Port cb P)
  new_ports capacity [] = []
  new_ports capacity (in_stream ∷ in_streams) =
      new_port cb P capacity ∷ new_ports capacity in_streams

  -- The streams of the ingressors, each with the port of its place, and the egressor.
  unfoldable pub build_link : JoinLink → Outcome (List (PacketStream P) × JoinEgressor)
  unfolding new_ports
  build_link self = do
    in_streams ← some_or_panic self.in_streams
    ok (
      in_streams,
      record {
        ports = new_ports self.capacity in_streams;
        ingressors_alive = length in_streams;
        next_pull_ingressor = 0;
      },
    )

  -- What a poll of an ingressor leaves: the answer, its stream, its port and the memory.
  abbrev pub Polled : Type 0
  Polled = Outcome (Poll (Unit {0}) × PacketStream P × Port cb P × Memory cb)

  -- The loop of `JoinIngressor::poll`, a round for each answer of the stream.
  unfoldable pub poll : Waker → PacketStream P → Port cb P → Memory cb → Polled
  poll task [] port mem = elim (cb.is_full port.channel) [
    | true ↦ let (port', mem') = park cb P port task mem in ok (pending, [], port', mem')
    | false ↦ ok (pending, [], port, mem)
  ]
  poll task (answer ∷ stream) port mem = elim (cb.is_full port.channel) [
    | true ↦
        let (port', mem') = park cb P port task mem in ok (pending, answer ∷ stream, port', mem')
    | false ↦ elim answer [
      | pending ↦ ok (pending, stream, port, mem)
      | ready none ↦ do
        port' ← send cb P port none
        let (dead_port, mem') = die cb P port' mem
        ok (ready tt, stream, dead_port, mem')
      | ready (some packet) ↦ do
        port' ← send cb P port (some packet)
        let (awake_port, mem') = unpark cb P port' mem
        poll task stream awake_port mem'
    ]
  ]

  unfoldable pub get : List (Port cb P) → ℕ → Option (Port cb P)
  get [] k = none
  get (port ∷ ports) zero = some port
  get (port ∷ ports) (suc k) = get ports k

  unfoldable pub set : List (Port cb P) → ℕ → Port cb P → List (Port cb P)
  set [] k port' = []
  set (port ∷ ports) zero port' = port' ∷ ports
  set (port ∷ ports) (suc k) port' = port ∷ set ports k port'

  unfoldable pub die_all : List (Port cb P) → Memory cb → List (Port cb P) × Memory cb
  die_all [] mem = ([], mem)
  die_all (port ∷ ports) mem =
      let (port', mem') = die cb P port mem in
      let (ports', mem'') = die_all ports mem' in (port' ∷ ports', mem'')

  -- A loop that gave an answer, or that went through all places.
  pub data Pulled : Type 0 where
    found : Option P → JoinEgressor → Memory cb → Pulled
    all_passed : JoinEgressor → Memory cb → Pulled

  -- The `for` loop of `JoinEgressor::poll_next`. The subtraction panics below 0.
  unfoldable pub pull : List ℕ → JoinEgressor → Memory cb → Outcome Pulled
  unfolding get set die_all
  pull [] self mem = ok (all_passed self mem)
  pull (k ∷ places) self mem = do
    port ← some_or_panic (get self.ports k)
    let (answer, port') = receive cb P port
    let passed = record self { ports = set self.ports k port' }
    elim answer [
      | message (some packet) ↦
          let (awake_port, mem') = unpark cb P port' mem in
          ok (
            found (some packet)
              (record self { ports = set self.ports k awake_port; next_pull_ingressor = k + 1 })
              mem')
      | message none ↦ elim self.ingressors_alive [
        | zero ↦ panic
        | suc alive ↦ elim (alive == 0) [
          | true ↦
              let (ports', mem') = die_all passed.ports mem in
              ok (found none (record self { ports = ports'; ingressors_alive = alive }) mem')
          | false ↦ pull places (record passed { ingressors_alive = alive }) mem
        ]
      ]
      | is_empty ↦ pull places passed mem
      | disconnected ↦ pull places passed mem
    ]

  -- The loop that hands the egressor's task to the ingressors.
  unfoldable pub park_at_all :
      ℕ → List (Port cb P) → Bool → Memory cb → Bool × List (Port cb P) × Memory cb
  park_at_all task [] parked mem = (parked, [], mem)
  park_at_all task (port ∷ ports) parked mem =
      let (alive, task_park, mem') = indirect_park_and_wake cb port.task_park task mem in
      let (parked', ports', mem'') = park_at_all task ports (parked || alive) mem' in
      (parked', record port { task_park = task_park } ∷ ports', mem'')

  -- The rest of `JoinEgressor::poll_next` after its loop.
  unfoldable pub finish : Waker → Pulled → Poll (Option P) × JoinEgressor × Memory cb
  unfolding park_at_all
  finish task (found m self mem) = (ready m, self, mem)
  finish task (all_passed self mem) =
      let (egressor_task, mem') = allocate cb (some task) mem in
      let (parked, ports', mem'') = park_at_all egressor_task self.ports false mem' in
      (pending, record self { ports = ports' }, if parked then mem'' else wake cb task mem'')

  unfoldable pub poll_next :
      Waker → JoinEgressor → Memory cb → Outcome (Poll (Option P) × JoinEgressor × Memory cb)
  unfolding rotated pull finish
  poll_next task self mem = do
    let len = length self.ports
    pulled ← pull (rotated len self.next_pull_ingressor len) self mem
    ok (finish task pulled)
