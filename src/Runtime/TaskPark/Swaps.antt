-- ===== src/Runtime/TaskPark/Swaps.antt =====
-- What the operations on a task park leave in it, and whom they wake.
use route_rs.Common.{
  Bool-cases, inl, inr, ◌⊎◌, ◌==◌, ◌≡◌, refl, sym, ap, ◌∙◌, List, [], ◌∷◌, ◌++◌, Bool, true, false,
  ◌||◌, arith,
}
use route_rs.Runtime.Crossbeam.{Crossbeam, IsCrossbeam}
use route_rs.Runtime.TaskPark.{
  Waker, TaskParkState, Park, Memory, dead, empty, parked, indirect_parked, swapped, swap_and_wake,
  unpark_and_wake, park_and_wake, die_and_wake,
}

-- The state of a park that no task shares with other parks.
unfoldable pub IsDirect : TaskParkState → Type 0
IsDirect (indirect_parked a) = ⊥
IsDirect dead = Unit
IsDirect empty = Unit
IsDirect (parked task) = Unit

-- The wakers in a park.
unfoldable pub owner : TaskParkState → List Waker
owner (parked task) = task ∷ []
owner dead = []
owner empty = []
owner (indirect_parked a) = []

-- A park that is dead stays dead.
unfoldable pub after : TaskParkState → TaskParkState → TaskParkState
after dead state = dead
after empty state = state
after (parked task) state = state
after (indirect_parked a) state = state

unfoldable pub is_alive : TaskParkState → Bool
is_alive dead = false
is_alive empty = true
is_alive (parked task) = true
is_alive (indirect_parked a) = true

unfoldable pub woke : Waker → List Waker → Bool
woke task [] = false
woke task (other ∷ more) = (task == other) || woke task more

pub woke-owner :
    (v : TaskParkState) (task : Waker) (woken : List Waker)
    → v ≡ parked task
    → woke task (owner v ++ woken) ≡ true
unfolding owner woke
woke-owner dead task woken e = cc
woke-owner empty task woken e = cc
woke-owner (parked other) task woken e = ap (λ t. t || woke task woken) same
  where
    at_other : other ≡ task
    at_other = cc

    same : (task == other) ≡ true
    same = ground (arith, at_other)
woke-owner (indirect_parked a) task woken e = cc

pub woke_append :
    (task : Waker) (others woken : List Waker)
    → woke task woken ≡ true
    → woke task (others ++ woken) ≡ true
unfolding woke
woke_append task [] woken e = e
woke_append task (other ∷ others) woken e = elim (Bool-cases (task == other)) [
  | inl same ↦ rw same
  | inr differs ↦ rw differs (woke_append task others woken e)
]

woke_first : (task : Waker) (woken : List Waker) → woke task (task ∷ woken) ≡ true
unfolding woke
woke_first task woken = ap (λ t. t || woke task woken) same
  where
    same : (task == task) ≡ true
    same = ground arith

after_alive : (v state : TaskParkState) → is_alive v ≡ true → after v state ≡ state
unfolding is_alive after
after_alive dead state e = cc
after_alive empty state e = refl
after_alive (parked task) state e = refl
after_alive (indirect_parked a) state e = refl

after_dead : (v : TaskParkState) → after v dead ≡ dead
unfolding after
after_dead dead = refl
after_dead empty = refl
after_dead (parked task) = refl
after_dead (indirect_parked a) = refl

pub IsDirect-after :
    (v state : TaskParkState) → IsDirect v → IsDirect state → IsDirect (after v state)
unfolding after IsDirect
IsDirect-after dead state d d' = tt
IsDirect-after empty state d d' = d'
IsDirect-after (parked task) state d d' = d'
IsDirect-after (indirect_parked a) state d d' = absurd d

-- The task that was parked is woken, and those that were awake are.
abbrev pub Wakes : TaskParkState → List Waker → List Waker → Type 0
Wakes v woken woken' =
    ((task : Waker) → v ≡ parked task → woke task woken' ≡ true)
    × ((task : Waker) → woke task woken ≡ true → woke task woken' ≡ true)

Wakes-owner :
    (v : TaskParkState) (woken woken' : List Waker)
    → woken' ≡ owner v ++ woken
    → Wakes v woken woken'
Wakes-owner v woken woken' e = (
  λ task at. ap (λ t. woke task t) e ∙ woke-owner v task woken at,
  λ task h. ap (λ t. woke task t) e ∙ woke_append task (owner v) woken h,
)

module _ (cb : Crossbeam) (law : IsCrossbeam cb) where
  open cb use {value, swap}

  swapped_lem :
      (old state : TaskParkState) (park : Park cb) (mem : Memory cb)
      → IsDirect old
      → value park ≡ state
      → ((swapped cb old park mem).0 ≡ is_alive old)
        × (value (swapped cb old park mem).1 ≡ after old state)
        × ((swapped cb old park mem).2.woken ≡ owner old ++ mem.woken)
  unfolding swapped IsDirect owner after is_alive
  swapped_lem dead state park mem d e = (refl, law.value-store park dead, refl)
  swapped_lem empty state park mem d e = (refl, e, refl)
  swapped_lem (parked task) state park mem d e = (refl, e, refl)
  swapped_lem (indirect_parked a) state park mem d e = absurd d

  swap_lem :
      (park : Park cb) (v state : TaskParkState) (mem : Memory cb)
      → value park ≡ v
      → IsDirect v
      → ((swap_and_wake cb park state mem).0 ≡ is_alive v)
        × (value (swap_and_wake cb park state mem).1 ≡ after v state)
        × ((swap_and_wake cb park state mem).2.woken ≡ owner v ++ mem.woken)
  unfolding swap_and_wake
  swap_lem park v state mem e d =
      rw (law.swap_old park state ∙ e)
        (swapped_lem v state (swap park state).1 mem d (law.value-swap park state))

  pub unpark_lem :
      (park : Park cb) (mem : Memory cb)
      → IsDirect (value park)
      → (value (unpark_and_wake cb park mem).0 ≡ after (value park) empty)
        × Wakes (value park) mem.woken (unpark_and_wake cb park mem).1.woken
  unfolding unpark_and_wake
  unpark_lem park mem d =
      let (a, b, c) = swap_lem park (value park) empty mem refl d in
      (b, Wakes-owner (value park) mem.woken _ c)

  pub die_lem :
      (park : Park cb) (mem : Memory cb)
      → IsDirect (value park)
      → (value (die_and_wake cb park mem).0 ≡ dead)
        × Wakes (value park) mem.woken (die_and_wake cb park mem).1.woken
  unfolding die_and_wake
  die_lem park mem d =
      let (a, b, c) = swap_lem park (value park) dead mem refl d in
      (b ∙ after_dead (value park), Wakes-owner (value park) mem.woken _ c)

  -- Over cells that behave as documented, `park_and_wake` on a park that holds no shared waker
  -- leaves the task's waker in the park or the task awake, leaves a dead park dead, wakes the task
  -- that was parked, and keeps awake those that were.
  pub park_lem :
      (park : Park cb) (task : Waker) (mem : Memory cb)
      → IsDirect (value park)
      → (value (park_and_wake cb park task mem).0 ≡ after (value park) (parked task))
        × ((value (park_and_wake cb park task mem).0 ≡ parked task)
            ⊎ (woke task (park_and_wake cb park task mem).1.woken ≡ true))
        × Wakes (value park) mem.woken (park_and_wake cb park task mem).1.woken
  unfolding park_and_wake
  park_lem park task mem d =
      let (a, b, c) = swap_lem park (value park) (parked task) mem refl d in
      elim (Bool-cases (swap_and_wake cb park (parked task) mem).0) [
        | inl alive ↦ rw alive (
          b,
          inl (b ∙ after_alive (value park) (parked task) (sym a ∙ alive)),
          Wakes-owner (value park) mem.woken _ c,
        )
        | inr gone ↦
            let (w, kept) = Wakes-owner (value park) mem.woken _ c in
            rw gone (
              b,
              inr (woke_first task _),
              (
                λ t at. woke_append t (task ∷ []) _ (w t at),
                λ t h. woke_append t (task ∷ []) _ (kept t h),
              ),
            )
      ]
