-- ===== src/Runtime/Composite/MtransformN.antt =====
-- `MtransformNLink` of route-rs-runtime/src/link/composite/m_transform_n_link.rs: a join link, a
-- process link on its egressor, and a fork link on the egressor of the process link.
use route_rs.Common.{
  ℕ, ◌==◌, List, [], ◌∷◌, ◌++◌, not, ltb, Option, none, some, Outcome, ok, ◌>>=◌, ◌>>◌, assert,
  length, is_some, some_or_panic,
}
use route_rs.Runtime.Crossbeam.{Crossbeam}
use route_rs.Runtime.Link.{PacketStream}
use route_rs.Runtime.Link.Fork
use route_rs.Runtime.Link.Join
use route_rs.Runtime.Link.Process

module _ (cb : Crossbeam) (S A B : Type 0) (process : S → A → Option B × S) where
  pub record MtransformNLink : Type 0 where
    pub in_streams : Option (List (PacketStream A))
    pub processor_state : Option S
    pub join_capacity : ℕ
    pub fork_capacity : ℕ
    pub egressor_count : Option ℕ

  -- `MtransformNLink::new`
  abbrev pub new : MtransformNLink
  new = record {
    in_streams = none;
    processor_state = none;
    join_capacity = 10;
    fork_capacity = 10;
    egressor_count = none;
  }

  unfoldable pub join_queue_capacity : MtransformNLink → ℕ → Outcome MtransformNLink
  join_queue_capacity self n = do assert (ltb 0 n); ok (record self { join_capacity = n })

  unfoldable pub fork_queue_capacity : MtransformNLink → ℕ → Outcome MtransformNLink
  fork_queue_capacity self n = do assert (ltb 0 n); ok (record self { fork_capacity = n })

  unfoldable pub num_egressors : MtransformNLink → ℕ → Outcome MtransformNLink
  num_egressors self n = do assert (not (n == 0)); ok (record self { egressor_count = some n })

  unfoldable pub ingressors : MtransformNLink → List (PacketStream A) → Outcome MtransformNLink
  ingressors self in_streams = do
    assert (ltb 0 (length in_streams))
    assert (not (is_some self.in_streams))
    ok (record self { in_streams = some in_streams })

  unfoldable pub ingressor : MtransformNLink → PacketStream A → MtransformNLink
  ingressor self in_stream = elim self.in_streams [
    | none ↦ record self { in_streams = some (in_stream ∷ []) }
    | some existing_streams ↦ record self { in_streams = some (existing_streams ++ in_stream ∷ []) }
  ]

  abbrev pub processor : MtransformNLink → S → MtransformNLink
  processor self p = record self { processor_state = some p }

  -- The streams of the join link's ingressors, its egressor, the egressor of the process link, and the
  -- ingressor of the fork link. The two sequences are what the polls of the two egressors give.
  unfoldable pub build_link :
      MtransformNLink
      → PacketStream A
      → PacketStream B
      → Outcome (
          List (PacketStream A)
          × Join.JoinEgressor cb A
          × Process.ProcessRunner S A B process
          × Fork.ForkIngressor cb B)
  unfolding Join.ingressors Join.queue_capacity Join.build_link Process.ingressors
      Process.build_link Fork.ingressors Fork.queue_capacity Fork.num_egressors Fork.build_link
  build_link self join_answers process_answers = do
    in_streams ← some_or_panic self.in_streams
    n ← some_or_panic self.egressor_count
    p ← some_or_panic self.processor_state
    join ← Join.ingressors cb A (Join.new cb A) in_streams
    join' ← Join.queue_capacity cb A join self.join_capacity
    (streams, egressor) ← Join.build_link cb A join'
    transform ← Process.ingressors S A B process (Process.new S A B process) (join_answers ∷ [])
    runner ← Process.build_link S A B process (Process.processor S A B process transform p)
    fork ← Fork.ingressors cb B (Fork.new cb B) (process_answers ∷ [])
    fork' ← Fork.queue_capacity cb B fork self.fork_capacity
    fork'' ← Fork.num_egressors cb B fork' n
    fork_ingressor ← Fork.build_link cb B fork''
    ok (streams, egressor, runner, fork_ingressor)
