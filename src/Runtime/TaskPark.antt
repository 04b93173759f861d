-- ===== src/Runtime/TaskPark.antt =====
-- route-rs-runtime/src/link/utils/task_park.rs: the place where a task leaves its waker before it
-- sleeps, and where the other task of a link finds it.
pub mod Swaps
use route_rs.Common.{
  ℕ, ◌+◌, ◌==◌, if◌then◌else◌, List, [], ◌∷◌, Option, none, some, Bool, true, false,
}
use route_rs.Runtime.Crossbeam.{Crossbeam}

-- A `Waker` is the number of its task.
abbrev pub Waker : Type 0
Waker = ℕ

-- An `Arc<AtomicCell<Option<Waker>>>` is the address of the cell.
pub data TaskParkState : Type 0 where
  dead empty : TaskParkState
  parked : Waker → TaskParkState
  indirect_parked : ℕ → TaskParkState

module _ (cb : Crossbeam) where
  open cb use {Cell, swap, store, new_cell}

  -- An `Arc<AtomicCell<TaskParkState>>`.
  abbrev pub Park : Type 0
  Park = Cell TaskParkState

  -- The cells that are shared by address, and the wakers that were woken, the last one first.
  pub record Memory : Type 0 where
    pub cells : ℕ → Cell (Option Waker)
    pub next : ℕ
    pub woken : List Waker

  abbrev pub new_memory : Memory
  new_memory = record { cells = λ a. new_cell none; next = 0; woken = [] }

  -- `waker.wake()`
  abbrev pub wake : Waker → Memory → Memory
  wake task mem = record mem { woken = task ∷ mem.woken }

  abbrev pub wake_option : Option Waker → Memory → Memory
  wake_option none mem = mem
  wake_option (some task) mem = wake task mem

  abbrev pub set_cell : ℕ → Cell (Option Waker) → Memory → Memory
  set_cell a c mem = record mem { cells = λ b. if b == a then c else mem.cells b }

  -- `Arc::new(AtomicCell::new(..))`
  abbrev pub allocate : Option Waker → Memory → ℕ × Memory
  allocate w mem = (mem.next, record (set_cell mem.next (new_cell w) mem) { next = mem.next + 1 })

  -- The `match` of `swap_and_wake` on the state that the park was in.
  unfoldable pub swapped : TaskParkState → Park → Memory → Bool × Park × Memory
  swapped dead park mem = (false, store park dead, mem)
  swapped empty park mem = (true, park, mem)
  swapped (parked task) park mem = (true, park, wake task mem)
  swapped (indirect_parked a) park mem =
      let (task, c) = swap (mem.cells a) none in (true, park, wake_option task (set_cell a c mem))

  unfoldable pub swap_and_wake : Park → TaskParkState → Memory → Bool × Park × Memory
  unfolding swapped
  swap_and_wake task_park state mem = let (old, park) = swap task_park state in swapped old park mem

  unfoldable pub unpark_and_wake : Park → Memory → Park × Memory
  unfolding swap_and_wake
  unpark_and_wake task_park mem =
      let (alive, park, mem') = swap_and_wake task_park empty mem in (park, mem')

  unfoldable pub park_and_wake : Park → Waker → Memory → Park × Memory
  unfolding swap_and_wake
  park_and_wake task_park task mem =
      let (alive, park, mem') = swap_and_wake task_park (parked task) mem in
      (park, if alive then mem' else wake task mem')

  unfoldable pub indirect_park_and_wake : Park → ℕ → Memory → Bool × Park × Memory
  unfolding swap_and_wake
  indirect_park_and_wake task_park task mem = swap_and_wake task_park (indirect_parked task) mem

  unfoldable pub die_and_wake : Park → Memory → Park × Memory
  unfolding swap_and_wake
  die_and_wake task_park mem =
      let (alive, park, mem') = swap_and_wake task_park dead mem in (park, mem')
