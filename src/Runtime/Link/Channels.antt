-- ===== src/Runtime/Link/Channels.antt =====
-- `InputChannelLink` and `OutputChannelLink` of route-rs-runtime/src/link/primitive: a link that takes
-- its packets from a channel of the application, and one that puts them into such a channel.
pub mod Transport
use route_rs.Common.{
  List, [], ◌∷◌, Bool, true, false, not, Option, none, some, Outcome, ok, panic, ◌>>=◌, ◌>>◌,
  assert, is_some, some_or_panic, if◌then◌else◌,
}
use route_rs.Runtime.Crossbeam.{Crossbeam, message, is_empty, disconnected}
use route_rs.Runtime.TaskPark.{Waker, Memory, wake}
use route_rs.Runtime.Link.{Poll, ready, pending, PacketStream}

module _ (cb : Crossbeam) (P : Type 0) where
  open cb use {Channel, is_full, try_send, try_recv}

  -- The link is its channel.
  abbrev pub InputChannelLink : Type 0
  InputChannelLink = Option (Channel P)

  abbrev pub input_new : InputChannelLink
  input_new = none

  abbrev pub input_channel : InputChannelLink → Channel P → InputChannelLink
  input_channel self channel_receiver = some channel_receiver

  -- `ingressor` and `ingressors`
  abbrev pub input_ingressors :
      InputChannelLink → List (PacketStream (Unit {0})) → Outcome InputChannelLink
  input_ingressors self in_streams = panic

  unfoldable pub build_input : InputChannelLink → Outcome (Channel P)
  build_input self = some_or_panic self

  -- `StreamFromChannel::poll_next`
  unfoldable pub from_channel : Channel P → Poll (Option P) × Channel P
  from_channel channel_receiver =
      let (answer, c) = try_recv channel_receiver in
      elim answer [
        | message packet ↦ (ready (some packet), c)
        | is_empty ↦ (pending, c)
        | disconnected ↦ (ready none, c)
      ]

  pub record OutputChannelLink : Type 0 where
    pub in_stream : Option (PacketStream P)
    pub channel_sender : Option (Channel P)

  abbrev pub output_new : OutputChannelLink
  output_new = record { in_stream = none; channel_sender = none }

  abbrev pub output_channel : OutputChannelLink → Channel P → OutputChannelLink
  output_channel self channel_sender = record self { channel_sender = some channel_sender }

  unfoldable pub output_ingressor : OutputChannelLink → PacketStream P → Outcome OutputChannelLink
  output_ingressor self in_stream = do
    assert (not (is_some self.in_stream))
    ok (record self { in_stream = some in_stream })

  unfoldable pub output_ingressors :
      OutputChannelLink → List (PacketStream P) → Outcome OutputChannelLink
  unfolding output_ingressor
  output_ingressors self (in_stream ∷ []) = output_ingressor self in_stream
  output_ingressors self _ = panic

  pub record StreamToChannel : Type 0 where
    pub stream : PacketStream P
    pub channel_sender : Channel P

  unfoldable pub build_output : OutputChannelLink → Outcome StreamToChannel
  build_output self = do
    stream ← some_or_panic self.in_stream
    channel_sender ← some_or_panic self.channel_sender
    ok (record { stream = stream; channel_sender = channel_sender })

  -- The loop of `StreamToChannel::poll`, a round for each answer of the stream.
  unfoldable pub poll_loop :
      Waker
      → PacketStream P
      → Channel P
      → Memory cb
      → Outcome (Poll (Unit {0}) × StreamToChannel × Memory cb)
  poll_loop task [] c mem = elim (is_full c) [
    | true ↦ ok (pending, record { stream = []; channel_sender = c }, wake cb task mem)
    | false ↦ ok (pending, record { stream = []; channel_sender = c }, mem)
  ]
  poll_loop task (answer ∷ stream) c mem = elim (is_full c) [
    | true ↦ ok (pending, record { stream = answer ∷ stream; channel_sender = c }, wake cb task mem)
    | false ↦ elim answer [
      | pending ↦ ok (pending, record { stream = stream; channel_sender = c }, mem)
      | ready none ↦ ok (ready tt, record { stream = stream; channel_sender = c }, mem)
      | ready (some packet) ↦
          let (sent, c') = try_send c packet in
          elim sent [ true ↦ poll_loop task stream c' mem | false ↦ panic ]
    ]
  ]

  unfoldable pub poll :
      Waker → StreamToChannel → Memory cb → Outcome (Poll (Unit {0}) × StreamToChannel × Memory cb)
  unfolding poll_loop
  poll task self mem = poll_loop task self.stream self.channel_sender mem
