-- ===== src/Runtime/Link/Process.antt =====
-- `ProcessLink` of route-rs-runtime/src/link/primitive/process_link.rs: its egressor pulls packets from
-- its stream and processes them when it is polled.
pub mod Chain
use route_rs.Common.{
  ℕ, zero, suc, List, [], ◌∷◌, not, Option, none, some, Outcome, ok, panic, ◌>>=◌, ◌>>◌, assert,
  is_some, some_or_panic,
}
use route_rs.Runtime.Link.{Poll, ready, pending, PacketStream}

-- A processor is its state and its `process`.
module _ (S A B : Type 0) (process : S → A → Option B × S) where
  pub record ProcessLink : Type 0 where
    pub in_stream : Option (PacketStream A)
    pub processor : Option S

  pub record ProcessRunner : Type 0 where
    pub in_stream : PacketStream A
    pub processor : S

  -- `ProcessLink::new`
  abbrev pub new : ProcessLink
  new = record { in_stream = none; processor = none }

  unfoldable pub ingressor : ProcessLink → PacketStream A → Outcome ProcessLink
  ingressor self in_stream = do
    assert (not (is_some self.in_stream))
    ok (record self { in_stream = some in_stream })

  unfoldable pub ingressors : ProcessLink → List (PacketStream A) → Outcome ProcessLink
  unfolding ingressor
  ingressors self (in_stream ∷ []) = ingressor self in_stream
  ingressors self _ = panic

  abbrev pub processor : ProcessLink → S → ProcessLink
  processor self p = record self { processor = some p }

  -- The egressor; there is no ingressor.
  unfoldable pub build_link : ProcessLink → Outcome ProcessRunner
  build_link self = do
    in_stream ← some_or_panic self.in_stream
    p ← some_or_panic self.processor
    ok (record { in_stream = in_stream; processor = p })

  -- The loop of `ProcessRunner::poll_next`, a round for each answer of the stream.
  unfoldable pub poll_loop : PacketStream A → S → Poll (Option B) × ProcessRunner
  poll_loop [] s = (pending, record { in_stream = []; processor = s })
  poll_loop (pending ∷ stream) s = (pending, record { in_stream = stream; processor = s })
  poll_loop (ready none ∷ stream) s = (ready none, record { in_stream = stream; processor = s })
  poll_loop (ready (some input_packet) ∷ stream) s =
      let (output, s') = process s input_packet in
      elim output [
        | none ↦ poll_loop stream s'
        | some output_packet ↦
            (ready (some output_packet), record { in_stream = stream; processor = s' })
      ]

  unfoldable pub poll_next : ProcessRunner → Poll (Option B) × ProcessRunner
  unfolding poll_loop
  poll_next self = poll_loop self.in_stream self.processor

  -- The answers of a number of polls: the stream that the next link gets.
  unfoldable pub answers : ℕ → ProcessRunner → PacketStream B
  unfolding poll_next
  answers zero self = []
  answers (suc k) self = let (answer, self') = poll_next self in answer ∷ answers k self'
