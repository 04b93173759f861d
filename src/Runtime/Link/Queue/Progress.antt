-- ===== src/Runtime/Link/Queue/Progress.antt =====
-- A poll of a queue link's ingressor goes on as long as it can.
use route_rs.Common.{
  ℕ, ◌≡◌, refl, ◌⊎◌, [], ◌∷◌, ◌++◌, true, Bool-cases, Option-cases, inl, inr, Option, none, some,
  ok, err, panic,
}
use route_rs.Runtime.Crossbeam.{Crossbeam, IsCrossbeam}
use route_rs.Runtime.TaskPark.{Waker, Memory}
use route_rs.Runtime.Link.{ready, pending, PacketStream, past_pending, Port, unpark}
use route_rs.Runtime.Link.Sending.{IsOpen}
use route_rs.Runtime.Link.Queue.{QueueIngressor, Polled, poll_loop, poll}
use route_rs.Runtime.Link.Queue.Order.{outputs, IsPolled, poll_loop-IsPolled}

module _ (cb : Crossbeam) (S A B : Type 0) (process : S → A → Option B × S) where
  open cb use {is_full}

  -- A pending poll left the channel full, or has read the stream past its first answer that is no
  -- packet.
  abbrev pub HasStopped : PacketStream A → Polled cb S A B process → Type 0
  HasStopped stream (ok (pending, i, port, mem)) =
      (is_full port.channel ≡ true) ⊎ (i.input_stream ≡ past_pending stream)
  HasStopped stream (ok (ready _, i, port, mem)) = Unit
  HasStopped stream (err e) = Unit
  HasStopped stream panic = Unit

  pub poll_loop-HasStopped :
      (task : Waker) (stream : PacketStream A) (s : S) (port : Port cb B) (mem : Memory cb)
      → HasStopped stream (poll_loop cb S A B process task stream s port mem)
  unfolding poll_loop past_pending
  poll_loop-HasStopped task [] s port mem = elim (Bool-cases (is_full port.channel)) [
    | inl e ↦ rw (poll_loop, e) (inl e)
    | inr e ↦ rw (poll_loop, e) (inr refl)
  ]
  poll_loop-HasStopped task (pending ∷ stream) s port mem =
      elim (Bool-cases (is_full port.channel)) [
        | inl e ↦ rw (poll_loop, e) (inl e)
        | inr e ↦ rw (poll_loop, e) (inr refl)
      ]
  poll_loop-HasStopped task (ready none ∷ stream) s port mem =
      elim (Bool-cases (is_full port.channel)) [
        | inl e ↦ rw (poll_loop, e) (inl e)
        | inr e ↦ elim (Bool-cases (cb.try_send port.channel none).0) [
          | inl sent ↦ rw (poll_loop, e, sent) tt
          | inr refused ↦ rw (poll_loop, e, refused) tt
        ]
      ]
  poll_loop-HasStopped task (ready (some a) ∷ stream) s port mem =
      elim (Bool-cases (is_full port.channel)) [
        | inl e ↦ rw (poll_loop, e) (inl e)
        | inr e ↦ elim (Option-cases (process s a).0) [
          | inl dropped ↦
              rw (poll_loop, e, dropped) (poll_loop-HasStopped task stream (process s a).1 port mem)
          | inr (b, made) ↦ elim (Bool-cases (cb.try_send port.channel (some b)).0) [
            | inr refused ↦ rw (poll_loop, e, made, refused) tt
            | inl sent ↦
                let port' = record port { channel = (cb.try_send port.channel (some b)).1 } in
                let (awake, mem') = unpark cb B port' mem in
                rw (poll_loop, e, made, sent)
                  (poll_loop-HasStopped task stream (process s a).1 awake mem')
          ]
        ]
      ]

module _ (cb : Crossbeam) (law : IsCrossbeam cb) (S A B : Type 0) (process : S → A → Option B × S)
    (n : ℕ) where
  -- Over channels that behave as documented, a poll of a queue link's ingressor whose channel is
  -- in use within its capacity never panics: the channel and what the processor has still to put
  -- out for the rest of the stream are together what they were before, a ready poll has put the
  -- end of the stream last, and a pending poll has left the channel full or has read the stream
  -- past its first answer that is no packet.
  pub queue_progress :
      (task : Waker) (self : QueueIngressor cb S A B process) (port : Port cb B) (mem : Memory cb)
      → IsOpen cb law B n port.channel
      → IsPolled cb law S A B process n
          (cb.contents port.channel ++ outputs process self.processor self.input_stream)
          (poll cb S A B process task self port mem)
        × HasStopped cb S A B process self.input_stream (poll cb S A B process task self port mem)
  unfolding poll
  queue_progress task self port mem o = (
    poll_loop-IsPolled cb law S A B process n task self.input_stream self.processor port mem o,
    poll_loop-HasStopped cb S A B process task self.input_stream self.processor port mem,
  )
