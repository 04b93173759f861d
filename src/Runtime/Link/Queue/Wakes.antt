-- ===== src/Runtime/Link/Queue/Wakes.antt =====
-- Whom a poll of a queue link wakes, and what it leaves in the task park.
use route_rs.Common.{
  ◌≡◌, refl, sym, subst, List, [], ◌∷◌, true, Bool-cases, Option-cases, inl, inr, ◌⊎◌, Option, none,
  some, ok, err, panic,
}
use route_rs.Runtime.Crossbeam.{Crossbeam, IsCrossbeam}
use route_rs.Runtime.TaskPark.{Waker, Memory, TaskParkState, parked, empty}
use route_rs.Runtime.TaskPark.Swaps.{
  IsDirect, woke, Wakes, IsDirect-after, unpark_lem, die_lem, park_lem,
}
use route_rs.Runtime.Link.{ready, pending, PacketStream, Port, unpark, park}
use route_rs.Runtime.Link.Queue.{Polled, poll_loop}

module _ (cb : Crossbeam) (law : IsCrossbeam cb) (S A B : Type 0)
    (process : S → A → Option B × S) where
  open cb use {value, contents, is_full}

  -- A poll of the ingressor that found the park in state `v`, the channel with `messages` and the
  -- tasks of `woken` awake.
  abbrev pub IsWaking :
      Waker → TaskParkState → List (Option B) → List Waker → Polled cb S A B process → Type 0
  IsWaking task v messages woken (ok (pending, i, port, mem)) =
      IsDirect (value port.task_park)
      × (is_full port.channel ≡ true
          → (value port.task_park ≡ parked task) ⊎ (woke task mem.woken ≡ true))
      × (((value port.task_park ≡ v) × (contents port.channel ≡ messages))
          ⊎ ((other : Waker) → v ≡ parked other → woke other mem.woken ≡ true))
      × ((other : Waker) → woke other woken ≡ true → woke other mem.woken ≡ true)
  IsWaking task v messages woken (ok (ready _, i, port, mem)) = Wakes v woken mem.woken
  IsWaking task v messages woken (err e) = Unit
  IsWaking task v messages woken panic = Unit

  parked_full :
      (task : Waker) (stream : PacketStream A) (s : S) (port : Port cb B) (mem : Memory cb)
      → IsDirect (value port.task_park)
      → IsWaking task (value port.task_park) (contents port.channel) mem.woken (
          ok (
            pending,
            record { input_stream = stream; processor = s },
            (park cb B port task mem).0,
            (park cb B port task mem).1,
          ))
  unfolding IsDirect
  parked_full task stream s port mem d =
      let (at, held, (wakes, kept)) = park_lem cb law port.task_park task mem d in
      (
        subst (λ t. IsDirect t) (sym at) (IsDirect-after (value port.task_park) (parked task) d tt),
        λ full. held,
        inr wakes,
        kept,
      )

  -- A poll that goes on after a message was sent.
  IsWaking-trans :
      (task : Waker) (v v' : TaskParkState) (messages messages' : List (Option B))
      (woken woken' : List Waker) (m : Polled cb S A B process)
      → Wakes v woken woken'
      → IsWaking task v' messages' woken' m
      → IsWaking task v messages woken m
  IsWaking-trans task v v' messages messages' woken woken' (ok (pending, i, port, mem)) (w, k)
        (d, full, h, kept) =
      (d, full, inr (λ t e. kept t (w t e)), λ t e. kept t (k t e))
  IsWaking-trans task v v' messages messages' woken woken' (ok (ready x, i, port, mem)) (w, k)
        (w', kept) =
      (λ t e. kept t (w t e), λ t e. kept t (k t e))
  IsWaking-trans task v v' messages messages' woken woken' (err e) h h' = tt
  IsWaking-trans task v v' messages messages' woken woken' panic h h' = tt

  pub poll_loop-IsWaking :
      (task : Waker) (stream : PacketStream A) (s : S) (port : Port cb B) (mem : Memory cb)
      → IsDirect (value port.task_park)
      → IsWaking task
          (value port.task_park)
          (contents port.channel)
          mem.woken
          (poll_loop cb S A B process task stream s port mem)
  unfolding poll_loop IsDirect
  poll_loop-IsWaking task [] s port mem d = elim (Bool-cases (is_full port.channel)) [
    | inl e ↦ rw (poll_loop, e) (parked_full task [] s port mem d)
    | inr e ↦ rw (poll_loop, e) (d, λ full. cc, inl (refl, refl), λ t h. h)
  ]
  poll_loop-IsWaking task (pending ∷ stream) s port mem d =
      elim (Bool-cases (is_full port.channel)) [
        | inl e ↦ rw (poll_loop, e) (parked_full task (pending ∷ stream) s port mem d)
        | inr e ↦ rw (poll_loop, e) (d, λ full. cc, inl (refl, refl), λ t h. h)
      ]
  poll_loop-IsWaking task (ready none ∷ stream) s port mem d =
      elim (Bool-cases (is_full port.channel)) [
        | inl e ↦ rw (poll_loop, e) (parked_full task (ready none ∷ stream) s port mem d)
        | inr e ↦ elim (Bool-cases (cb.try_send port.channel none).0) [
          | inl sent ↦ rw (poll_loop, e, sent) (die_lem cb law port.task_park mem d).1
          | inr refused ↦ rw (poll_loop, e, refused) tt
        ]
      ]
  poll_loop-IsWaking task (ready (some a) ∷ stream) s port mem d =
      elim (Bool-cases (is_full port.channel)) [
        | inl e ↦ rw (poll_loop, e) (parked_full task (ready (some a) ∷ stream) s port mem d)
        | inr e ↦ elim (Option-cases (process s a).0) [
          | inl dropped ↦
              rw (poll_loop, e, dropped) (poll_loop-IsWaking task stream (process s a).1 port mem d)
          | inr (b, made) ↦ elim (Bool-cases (cb.try_send port.channel (some b)).0) [
            | inr refused ↦ rw (poll_loop, e, made, refused) tt
            | inl sent ↦
                let port' = record port { channel = (cb.try_send port.channel (some b)).1 } in
                let (awake, mem') = unpark cb B port' mem in
                let (at, wakes) = unpark_lem cb law port.task_park mem d in
                rw (poll_loop, e, made, sent)
                  (IsWaking-trans task (value port.task_park) (value awake.task_park)
                    (contents port.channel) (contents awake.channel) mem.woken mem'.woken
                    (poll_loop cb S A B process task stream (process s a).1 awake mem') wakes
                    (poll_loop-IsWaking task stream (process s a).1 awake mem' (
                      subst (λ t. IsDirect t) (sym at)
                        (IsDirect-after (value port.task_park) empty d tt))))
          ]
        ]
      ]
