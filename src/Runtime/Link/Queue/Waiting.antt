-- ===== src/Runtime/Link/Queue/Waiting.antt =====
-- In a run of a queue link the task that sleeps is in the task park.
use route_rs.Common.{
  ℕ, ◌<◌, ◌≡◌, refl, sym, ap, subst, ◌∙◌, List, [], ◌∷◌, Bool, true, false, ◌&&◌, Bool-cases,
  Option-cases, inl, inr, Option, ok, ◌>>=◌, arith,
}
use route_rs.Runtime.Crossbeam.{Crossbeam, IsCrossbeam}
use route_rs.Runtime.TaskPark.{parked, empty}
use route_rs.Runtime.TaskPark.Swaps.{IsDirect}
use route_rs.Runtime.Link.{PacketStream}
use route_rs.Runtime.Link.Sending.{IsOpen-new_port}
use route_rs.Runtime.Link.Queue.Run.{Running, Turn, ingress, egress, start}
use route_rs.Runtime.Link.Queue.Delivery.{started, start_lem}
use route_rs.Runtime.Link.Queue.Watch.{Watched, watched_run}
use route_rs.Runtime.Link.Queue.Held.{
  IsHeld, IsWatched, differs, ingress-IsWatched, egress-IsWatched,
}

module _ (cb : Crossbeam) (law : IsCrossbeam cb) (S A B : Type 0) (process : S → A → Option B × S)
    (n : ℕ) where
  open cb use {value, contents, is_full, sending}

  run-IsWatched :
      (turns : List Turn) (w : Watched cb S A B process)
      → IsWatched cb law S A B process n w
      → (w' : Watched cb S A B process) × (watched_run cb S A B process turns w ≡ ok w')
        × IsWatched cb law S A B process n w'
  unfolding watched_run
  run-IsWatched [] w h = (w, refl, h)
  run-IsWatched (ingress ∷ turns) w h =
      let (next, e, h') = ingress-IsWatched cb law S A B process n w h in
      let (w', done, h'') = run-IsWatched turns next h' in
      (w', ap (λ t. t >>= watched_run cb S A B process turns) e ∙ done, h'')
  run-IsWatched (egress ∷ turns) w h =
      let (next, e, h') = egress-IsWatched cb law S A B process n w h in
      let (w', done, h'') = run-IsWatched turns next h' in
      (w', ap (λ t. t >>= watched_run cb S A B process turns) e ∙ done, h'')

  abbrev pub watch : Running cb S A B process → Watched cb S A B process
  watch sys = record { running = sys; ingress_waits = false; egress_waits = false }

  started-IsWatched :
      (s : S) (stream : PacketStream A)
      → IsWatched cb law S A B process n (watch (started cb law S A B process n s stream))
  unfolding IsDirect
  started-IsWatched s stream = (
    IsOpen-new_port cb law B n,
    subst (λ t. IsDirect t) (sym (law.value-new_cell empty)) tt,
    λ e. cc,
    λ e. cc,
  )

  -- What the invariant says of the sleeping tasks.
  sleepers :
      (w : Watched cb S A B process)
      → IsWatched cb law S A B process n w
      → (w.ingress_waits ≡ true → value w.running.port.task_park ≡ parked 0)
        × (w.egress_waits ≡ true
            → (value w.running.port.task_park ≡ parked 1) × (contents w.running.port.channel ≡ []))
        × ((w.ingress_waits && w.egress_waits) ≡ false)
  sleepers w h = elim (Option-cases w.running.ingressor) [
    | inl gone ↦
        let (closed, a, b) =
          subst (λ t. IsHeld cb law S A B process n t w.running.port w.ingress_waits w.egress_waits)
            gone h in
        (
          λ e. absurd (differs cb law S A B process n e a),
          λ e. absurd (differs cb law S A B process n e b),
          ap (λ t. t && w.egress_waits) a,
        )
    | inr (i, runs) ↦
        let (o, d, room, held) =
          subst (λ t. IsHeld cb law S A B process n t w.running.port w.ingress_waits w.egress_waits)
            runs h in
        (
          room,
          held,
          elim (Bool-cases (w.ingress_waits && w.egress_waits)) [
            | inr e ↦ e
            | inl e ↦
                let (a, b) = both w.ingress_waits w.egress_waits e in
                absurd (apart (sym (room a) ∙ (held b).0))
          ],
        )
  ]
    where
      both : (a b : Bool) → (a && b) ≡ true → (a ≡ true) × (b ≡ true)
      both a b e = ground arith

      apart : parked 0 ≡ parked 1 → ⊥
      apart e = cc

  -- Over channels and cells that behave as documented, after any sequence of polls of the two
  -- sides of a queue link with a capacity above 0: where the ingressor sleeps because the channel
  -- is full, the task park holds its waker; where the egressor sleeps, the task park holds its
  -- waker and the channel is empty; and they never both sleep so. A side sleeps from a poll that
  -- is pending until its waker is woken.
  pub queue_sleepers :
      (s : S) (stream : PacketStream A) (turns : List Turn)
      → 0 < n
      → (w : Watched cb S A B process) × ((start cb S A B process n s stream >>= λ sys.
            watched_run cb S A B process turns (watch sys))
          ≡ ok w)
        × (w.ingress_waits ≡ true → value w.running.port.task_park ≡ parked 0)
        × (w.egress_waits ≡ true
            → (value w.running.port.task_park ≡ parked 1) × (contents w.running.port.channel ≡ []))
        × ((w.ingress_waits && w.egress_waits) ≡ false)
  queue_sleepers s stream turns lt =
      let (w, e, h) =
        run-IsWatched turns (watch (started cb law S A B process n s stream))
          (started-IsWatched s stream) in
      let (a, b, c) = sleepers w h in
      (
        w,
        ap (λ t. t >>= λ sys. watched_run cb S A B process turns (watch sys))
              (start_lem cb law S A B process n s stream lt)
            ∙ e,
        a,
        b,
        c,
      )
