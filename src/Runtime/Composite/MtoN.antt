-- ===== src/Runtime/Composite/MtoN.antt =====
-- `MtoNLink` of route-rs-runtime/src/link/composite/mton_link.rs: a join link, and a fork link whose
-- stream is the egressor of the join link.
use route_rs.Common.{
  ℕ, List, [], ◌∷◌, ◌++◌, not, ltb, Option, none, some, Outcome, ok, ◌>>=◌, ◌>>◌, assert, length,
  is_some, some_or_panic,
}
use route_rs.Runtime.Crossbeam.{Crossbeam}
use route_rs.Runtime.Link.{PacketStream}
use route_rs.Runtime.Link.Fork
use route_rs.Runtime.Link.Join

module _ (cb : Crossbeam) (P : Type 0) where
  pub record MtoNLink : Type 0 where
    pub in_streams : Option (List (PacketStream P))
    pub join_capacity : ℕ
    pub fork_capacity : ℕ
    pub egressor_count : Option ℕ

  -- `MtoNLink::new`
  abbrev pub new : MtoNLink
  new = record { in_streams = none; join_capacity = 10; fork_capacity = 10; egressor_count = none }

  unfoldable pub join_queue_capacity : MtoNLink → ℕ → Outcome MtoNLink
  join_queue_capacity self n = do assert (ltb 0 n); ok (record self { join_capacity = n })

  unfoldable pub tee_queue_capacity : MtoNLink → ℕ → Outcome MtoNLink
  tee_queue_capacity self n = do assert (ltb 0 n); ok (record self { fork_capacity = n })

  unfoldable pub num_egressors : MtoNLink → ℕ → Outcome MtoNLink
  num_egressors self n = do assert (ltb 0 n); ok (record self { egressor_count = some n })

  unfoldable pub ingressors : MtoNLink → List (PacketStream P) → Outcome MtoNLink
  ingressors self in_streams = do
    assert (ltb 0 (length in_streams))
    assert (not (is_some self.in_streams))
    ok (record self { in_streams = some in_streams })

  unfoldable pub ingressor : MtoNLink → PacketStream P → MtoNLink
  ingressor self in_stream = elim self.in_streams [
    | none ↦ record self { in_streams = some (in_stream ∷ []) }
    | some existing_streams ↦ record self { in_streams = some (existing_streams ++ in_stream ∷ []) }
  ]

  -- The streams of the join link's ingressors, its egressor, and the ingressor of the fork link.
  -- `answers` is what the polls of that egressor give.
  unfoldable pub build_link :
      MtoNLink
      → PacketStream P
      → Outcome (List (PacketStream P) × Join.JoinEgressor cb P × Fork.ForkIngressor cb P)
  unfolding Join.ingressors Join.queue_capacity Join.build_link Fork.ingressors Fork.queue_capacity
      Fork.num_egressors Fork.build_link
  build_link self answers = do
    in_streams ← some_or_panic self.in_streams
    n ← some_or_panic self.egressor_count
    join ← Join.ingressors cb P (Join.new cb P) in_streams
    join' ← Join.queue_capacity cb P join self.join_capacity
    (streams, egressor) ← Join.build_link cb P join'
    fork ← Fork.ingressors cb P (Fork.new cb P) (answers ∷ [])
    fork' ← Fork.queue_capacity cb P fork self.fork_capacity
    fork'' ← Fork.num_egressors cb P fork' n
    fork_ingressor ← Fork.build_link cb P fork''
    ok (streams, egressor, fork_ingressor)
