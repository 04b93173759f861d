-- ===== src/Runtime/Link/Queue/Held.antt =====
-- Each turn keeps the task that sleeps in the task park.
use route_rs.Common.{
  ℕ, ◌≡◌, refl, sym, ap, subst, ◌∙◌, List, [], Bool, true, false, not, ◌&&◌, Bool-cases,
  Option-cases, inl, inr, ◌⊎◌, Option, none, some, ok, err, panic, ◌>>=◌, arith, if◌then◌else◌,
}
use route_rs.Runtime.Crossbeam.{Crossbeam, IsCrossbeam}
use route_rs.Runtime.TaskPark.{Waker, Memory, TaskParkState, parked}
use route_rs.Runtime.TaskPark.Swaps.{IsDirect, woke}
use route_rs.Runtime.Link.{Poll, ready, pending, Port}
use route_rs.Runtime.Link.Sending.{IsOpen}
use route_rs.Runtime.Link.Queue.{QueueIngressor, Polled, poll, poll_next}
use route_rs.Runtime.Link.Queue.Order.{IsPolled, poll_loop-IsPolled}
use route_rs.Runtime.Link.Queue.Run.{ingress, egress}
use route_rs.Runtime.Link.Queue.Wakes.{IsWaking, poll_loop-IsWaking}
use route_rs.Runtime.Link.Queue.Watch.{
  Watched, is_pending, forget, watch_ingress, watch_egress, watched_turn,
}
use route_rs.Runtime.Link.Queue.Polling.{poll_next-held, poll_next-closed}

module _ (cb : Crossbeam) (law : IsCrossbeam cb) (S A B : Type 0) (process : S → A → Option B × S)
    (n : ℕ) where
  open cb use {value, contents, is_full, sending}

  -- A task that sleeps is in the park.
  abbrev pub IsHeld : Option (QueueIngressor cb S A B process) → Port cb B → Bool → Bool → Type 0
  IsHeld (some i) port ingress_waits egress_waits =
      IsOpen cb law B n port.channel
      × IsDirect (value port.task_park)
      × (ingress_waits ≡ true → value port.task_park ≡ parked 0)
      × (egress_waits ≡ true → (value port.task_park ≡ parked 1) × (contents port.channel ≡ []))
  IsHeld none port ingress_waits egress_waits =
      (sending port.channel ≡ false) × (ingress_waits ≡ false) × (egress_waits ≡ false)

  abbrev pub IsWatched : Watched cb S A B process → Type 0
  IsWatched w = IsHeld w.running.ingressor w.running.port w.ingress_waits w.egress_waits

  -- A task that still waits waited before and was not woken.
  still :
      (waits : Bool) (task : Waker) (woken : List Waker)
      → (waits && not (woke task woken)) ≡ true
      → (waits ≡ true) × (woke task woken ≡ false)
  still waits task woken e = ground arith

  pub differs : {b : Bool} → b ≡ true → b ≡ false → ⊥
  differs e e' = cc

  watch_ingress_lem :
      (w : Watched cb S A B process) (m : Polled cb S A B process) (v : TaskParkState)
      (messages : List (Option B)) (target : List (Option B))
      → (w.egress_waits ≡ true → (v ≡ parked 1) × (messages ≡ []))
      → IsPolled cb law S A B process n target m
      → IsWaking cb law S A B process 0 v messages [] m
      → (w' : Watched cb S A B process) × ((m >>= λ result.
            ok (watch_ingress cb S A B process w result))
          ≡ ok w')
        × IsWatched w'
  watch_ingress_lem w (ok (pending, i, port, mem)) v messages target held (o, kept)
        (d, full, same, mono) =
      (
        watch_ingress cb S A B process w (pending, i, port, mem),
        refl,
        (
          o,
          d,
          λ e.
              let (at_full, asleep) = still (is_full port.channel) 0 mem.woken e in
              elim (full at_full) [ inl here ↦ here | inr awake ↦ cc ],
          λ e.
              let (waited, asleep) = still w.egress_waits 1 mem.woken e in
              let (here, nothing) = held waited in
              elim same [
                | inl (as_was, unchanged) ↦ (as_was ∙ here, unchanged ∙ nothing)
                | inr wakes ↦ absurd (differs (wakes 1 here) asleep)
              ],
        ),
      )
  watch_ingress_lem w (ok (ready x, i, port, mem)) v messages target held (o, kept, closing)
        (wakes, mono) =
      (
        watch_ingress cb S A B process w (ready x, i, port, mem),
        refl,
        (
          law.sending-drop_sender port.channel,
          refl,
          elim (Bool-cases w.egress_waits) [
            | inl waited ↦ rw (waited, wakes 1 (held waited).0)
            | inr awake ↦ rw awake
          ],
        ),
      )
  watch_ingress_lem w (err e) v messages target held h h' = absurd h
  watch_ingress_lem w panic v messages target held h h' = absurd h

  pub ingress-IsWatched :
      (w : Watched cb S A B process)
      → IsWatched w
      → (w' : Watched cb S A B process) × (watched_turn cb S A B process ingress w ≡ ok w')
        × IsWatched w'
  unfolding watched_turn poll
  ingress-IsWatched w h = elim (Option-cases w.running.ingressor) [
    | inl gone ↦ (w, simp (watched_turn, gone), h)
    | inr (i, runs) ↦
        let (o, d, room, held) =
          subst (λ t. IsHeld t w.running.port w.ingress_waits w.egress_waits) runs h in
        let port = w.running.port in
        let mem = forget cb S A B process w.running.mem in
        let (w', e, h') =
          watch_ingress_lem w (poll cb S A B process 0 i port mem) (value port.task_park)
            (contents port.channel) _ held
            (poll_loop-IsPolled cb law S A B process n 0 i.input_stream i.processor port mem o)
            (poll_loop-IsWaking cb law S A B process 0 i.input_stream i.processor port mem d) in
        (w', simp (watched_turn, runs, e), h')
  ]

  egress-over :
      (w : Watched cb S A B process)
      → w.running.ended ≡ true
      → watched_turn cb S A B process egress w ≡ ok w
  unfolding watched_turn
  egress-over w over = simp (watched_turn, over)

  egress-polled :
      (w : Watched cb S A B process) (answer : Poll (Option B)) (port : Port cb B) (mem : Memory cb)
      → w.running.ended ≡ false
      → poll_next cb B 1 w.running.port (forget cb S A B process w.running.mem)
        ≡ (answer, port, mem)
      → watched_turn cb S A B process egress w
        ≡ ok (watch_egress cb S A B process w (answer, port, mem))
  unfolding watched_turn
  egress-polled w answer port mem going e =
      ap
        (λ b.
          if b
          then ok w
          else ok (
              watch_egress cb S A B process w
                (poll_next cb B 1 w.running.port (forget cb S A B process w.running.mem))))
        going
      ∙ ap (λ r. ok (watch_egress cb S A B process w r)) e

  watch_egress_lem :
      (w : Watched cb S A B process) (i : QueueIngressor cb S A B process)
      (answer : Poll (Option B)) (port : Port cb B) (mem : Memory cb) (v : TaskParkState)
      → w.running.ingressor ≡ some i
      → (w.ingress_waits ≡ true → v ≡ parked 0)
      → IsOpen cb law B n port.channel
      → IsDirect (value port.task_park)
      → (is_pending answer ≡ true
          → ((value port.task_park ≡ parked 1) ⊎ (woke 1 mem.woken ≡ true))
            × (contents port.channel ≡ []))
      → ((task : Waker) → v ≡ parked task → woke task mem.woken ≡ true)
      → IsWatched (watch_egress cb S A B process w (answer, port, mem))
  watch_egress_lem w i pending port mem v runs room o d sleeps wakes =
      subst
        (λ t. IsHeld t port (w.ingress_waits && not (woke 0 mem.woken)) (not (woke 1 mem.woken)))
        (sym runs)
        (
          o,
          d,
          λ e.
              let (waited, asleep) = still w.ingress_waits 0 mem.woken e in
              absurd (differs (wakes 0 (room waited)) asleep),
          λ e.
              let (held, nothing) = sleeps refl in
              elim held [ inl here ↦ (here, nothing) | inr awake ↦ cc ],
        )
  watch_egress_lem w i (ready m) port mem v runs room o d sleeps wakes =
      subst (λ t. IsHeld t port (w.ingress_waits && not (woke 0 mem.woken)) false) (sym runs)
        (
          o,
          d,
          λ e.
              let (waited, asleep) = still w.ingress_waits 0 mem.woken e in
              absurd (differs (wakes 0 (room waited)) asleep),
          λ e. cc,
        )

  pub egress-IsWatched :
      (w : Watched cb S A B process)
      → IsWatched w
      → (w' : Watched cb S A B process) × (watched_turn cb S A B process egress w ≡ ok w')
        × IsWatched w'
  egress-IsWatched w h = elim (Bool-cases w.running.ended) [
    | inl over ↦ (w, egress-over w over, h)
    | inr going ↦ elim (Option-cases w.running.ingressor) [
      | inl gone ↦
          let (closed, ingress_awake, egress_awake) =
            subst (λ t. IsHeld t w.running.port w.ingress_waits w.egress_waits) gone h in
          let (m, port', mem', e, closed') =
            poll_next-closed cb law B w.running.port (forget cb S A B process w.running.mem)
              closed in
          (
            watch_egress cb S A B process w (ready m, port', mem'),
            egress-polled w (ready m) port' mem' going e,
            subst (λ t. IsHeld t port' (w.ingress_waits && not (woke 0 mem'.woken)) false)
                (sym gone) (closed', ap (λ b. b && not (woke 0 mem'.woken)) ingress_awake, refl),
          )
      | inr (i, runs) ↦
          let (o, d, room, held) =
            subst (λ t. IsHeld t w.running.port w.ingress_waits w.egress_waits) runs h in
          let (answer, port', mem', e, o', d', sleeps, (wakes, mono)) =
            poll_next-held cb law B n w.running.port (forget cb S A B process w.running.mem) o d in
          (
            watch_egress cb S A B process w (answer, port', mem'),
            egress-polled w answer port' mem' going e,
            watch_egress_lem w i answer port' mem' (value w.running.port.task_park) runs room o' d'
                sleeps wakes,
          )
    ]
  ]
