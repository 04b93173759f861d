-- ===== src/Common/Lists.antt =====
-- Lists measured by native numbers, and the checked operations of Rust's slices and vectors:
-- an access out of range is a panic.
use Prim.Native.Nat.{ℕ, zero, suc, ◌+◌, ◌-◌}
use mathlib.Core.List.{List, [], ◌∷◌, ◌++◌}
use route_rs.Common.Tests.{leb, ◌==◌, if◌then◌else◌}
use route_rs.Common.Outcomes.{Outcome, ok, panic, ◌>>=◌, map_ok}

module _ {ℓ} {A : Type ℓ} where
  abbrev pub length : List A → ℕ
  length [] = 0
  length (x ∷ xs) = suc (length xs)

  abbrev pub take : ℕ → List A → List A
  take zero xs = []
  take (suc n) [] = []
  take (suc n) (x ∷ xs) = x ∷ take n xs

  abbrev pub drop : ℕ → List A → List A
  drop zero xs = xs
  drop (suc n) [] = []
  drop (suc n) (x ∷ xs) = drop n xs

  abbrev pub replicate : ℕ → A → List A
  replicate zero a = []
  replicate (suc n) a = a ∷ replicate n a

  -- `v[i]`
  abbrev pub index : List A → ℕ → Outcome A
  index [] i = panic
  index (x ∷ xs) zero = ok x
  index (x ∷ xs) (suc i) = index xs i

  -- `v[n..]`, and the tail that `split_off(n)` returns
  abbrev pub suffix : List A → ℕ → Outcome (List A)
  suffix xs zero = ok xs
  suffix [] (suc n) = panic
  suffix (x ∷ xs) (suc n) = suffix xs n

  -- `v[..n]`
  abbrev pub prefix : List A → ℕ → Outcome (List A)
  prefix xs zero = ok []
  prefix [] (suc n) = panic
  prefix (x ∷ xs) (suc n) = map_ok (λ ys. x ∷ ys) (prefix xs n)

  -- `v[a..b]`
  abbrev pub slice : List A → ℕ → ℕ → Outcome (List A)
  slice xs a b = if leb a b then (suffix xs a >>= λ ys. prefix ys (b - a)) else panic

  -- Writes `src` over the front of the list.
  abbrev pub overwrite : List A → List A → Outcome (List A)
  overwrite xs [] = ok xs
  overwrite [] (v ∷ vs) = panic
  overwrite (x ∷ xs) (v ∷ vs) = map_ok (λ ys. v ∷ ys) (overwrite xs vs)

  -- Writes `src` over the list from position `a` on.
  abbrev pub write_at : List A → ℕ → List A → Outcome (List A)
  write_at xs zero src = overwrite xs src
  write_at [] (suc a) src = panic
  write_at (x ∷ xs) (suc a) src = map_ok (λ ys. x ∷ ys) (write_at xs a src)

  -- `v[a..b].copy_from_slice(src)`, which panics where the lengths differ
  abbrev pub copy_from_slice : List A → ℕ → ℕ → List A → Outcome (List A)
  copy_from_slice xs a b src =
      if leb a b then (if length src == b - a then write_at xs a src else panic) else panic

  -- `v[i] = x`
  abbrev pub set_index : List A → ℕ → A → Outcome (List A)
  set_index xs i v = write_at xs i (v ∷ [])

  -- `v[a..=b]`, and the copy into it
  abbrev pub slice_inclusive : List A → ℕ → ℕ → Outcome (List A)
  slice_inclusive xs a b = slice xs a (b + 1)

  abbrev pub copy_inclusive : List A → ℕ → ℕ → List A → Outcome (List A)
  copy_inclusive xs a b src = copy_from_slice xs a (b + 1) src

  -- `v[i] op= ..`
  abbrev pub modify : List A → ℕ → (A → A) → Outcome (List A)
  modify xs i f = index xs i >>= λ x. set_index xs i (f x)

  -- `<[T; n]>::try_from(slice).unwrap()`
  abbrev pub to_array : ℕ → List A → Outcome (List A)
  to_array n xs = if length xs == n then ok xs else panic

  -- `v.resize(n, x)`
  abbrev pub resize : List A → ℕ → A → List A
  resize xs n x = take n xs ++ replicate (n - length xs) x
