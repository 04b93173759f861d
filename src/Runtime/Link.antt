-- ===== src/Runtime/Link.antt =====
-- What the links of route-rs-runtime share: streams and polls (link/mod.rs), and the channel and the
-- task park between two sides of a link.
pub mod Tests
pub mod Sending
pub mod Queue
pub mod Ports
pub mod Process
pub mod Channels
pub mod Join
pub mod Fork
pub mod Classify
use route_rs.Common.{ℕ, List, Bool, Option, Outcome, ok, panic, if◌then◌else◌, [], ◌∷◌, none, some}
use route_rs.Runtime.Crossbeam.{Crossbeam, Received}
use route_rs.Runtime.TaskPark.{Waker, Park, Memory, unpark_and_wake, park_and_wake, die_and_wake}
use route_rs.Runtime.TaskPark

pub data Poll (A : Type 0) : Type 0 where
  ready : A → Poll A
  pending : Poll A

-- A `PacketStream` is the answers that its polls give, one after another. Any sequence of answers is
-- a stream; after the last of them it is pending.
abbrev pub PacketStream : Type 0 → Type 0
PacketStream A = List (Poll (Option A))

-- A stream after the first of its answers that is no packet.
unfoldable pub past_pending : {A : Type 0} → PacketStream A → PacketStream A
past_pending [] = []
past_pending (pending ∷ stream) = stream
past_pending (ready none ∷ stream) = stream
past_pending (ready (some packet) ∷ stream) = past_pending stream

module _ (cb : Crossbeam) (P : Type 0) where
  open cb use {Channel, bounded, try_send, try_recv, new_cell}

  -- The channel and the task park that an ingressor and an egressor share.
  pub record Port : Type 0 where
    pub channel : Channel (Option P)
    pub task_park : Park cb

  -- A new channel of a capacity, with an empty task park.
  abbrev pub new_port : ℕ → Port
  new_port queue_capacity = record {
    channel = bounded queue_capacity;
    task_park = new_cell TaskPark.empty;
  }

  -- `try_send(..).expect(..)`
  abbrev pub send : Port → Option P → Outcome Port
  send port m =
      let (sent, c) = try_send port.channel m in
      if sent then ok (record port { channel = c }) else panic

  -- `try_recv()`
  abbrev pub receive : Port → Received (Option P) × Port
  receive port = let (answer, c) = try_recv port.channel in (answer, record port { channel = c })

  abbrev pub unpark : Port → Memory cb → Port × Memory cb
  unpark port mem =
      let (park, mem') = unpark_and_wake cb port.task_park mem in
      (record port { task_park = park }, mem')

  abbrev pub park : Port → Waker → Memory cb → Port × Memory cb
  park port task mem =
      let (park, mem') = park_and_wake cb port.task_park task mem in
      (record port { task_park = park }, mem')

  abbrev pub die : Port → Memory cb → Port × Memory cb
  die port mem =
      let (park, mem') = die_and_wake cb port.task_park mem in
      (record port { task_park = park }, mem')
