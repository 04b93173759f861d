-- ===== src/Common/Outcomes.antt =====
-- What a Rust call comes to: a value, an `Err` with its message, or a panic.
use mathlib.Core.List.{List, [], ◌∷◌}
use Prim.Native.String.{String}
use mathlib.Core.Path.{◌≡◌, refl, ap}
use mathlib.Core.Option.{Option, none, some}
use mathlib.Core.Logic.{◌⊎◌, inl, inr}
use mathlib.Core.Bool.{Bool, true, false, not}
use route_rs.Common.Tests.{if◌then◌else◌}

pub data Outcome {ℓ} (A : Type ℓ) : Type ℓ where
  ok : A → Outcome A
  err : String → Outcome A
  panic : Outcome A

infixl 5 ◌>>=◌ ◌>>◌
abbrev pub ◌>>=◌ {ℓ κ} : {A : Type ℓ} {B : Type κ} → Outcome A → (A → Outcome B) → Outcome B
ok a >>= f = f a
err e >>= f = err e
panic >>= f = panic

abbrev pub ◌>>◌ {ℓ} : {B : Type ℓ} → Outcome (Unit {0}) → Outcome B → Outcome B
m >> k = m >>= λ _. k

-- `map f m` on the value of `m`.
abbrev pub map_ok {ℓ κ} : {A : Type ℓ} {B : Type κ} → (A → B) → Outcome A → Outcome B
map_ok f (ok a) = ok (f a)
map_ok f (err e) = err e
map_ok f panic = panic

pub map_ok_id {ℓ} : {A : Type ℓ} (m : Outcome A) → map_ok (λ a. a) m ≡ m
map_ok_id (ok a) = refl
map_ok_id (err e) = refl
map_ok_id panic = refl

pub map_ok-map_ok {ℓ κ ι} :
    {A : Type ℓ} {B : Type κ} {C : Type ι} (g : B → C) (f : A → B) (m : Outcome A)
    → map_ok g (map_ok f m) ≡ map_ok (λ a. g (f a)) m
map_ok-map_ok g f (ok a) = refl
map_ok-map_ok g f (err e) = refl
map_ok-map_ok g f panic = refl

-- An early `return Err(..)` under a test.
abbrev pub fail_if : Bool → String → Outcome (Unit {0})
fail_if true e = err e
fail_if false e = ok tt

-- An error return under a negated test is a conditional.
pub fail_if-not {ℓ} :
    {B : Type ℓ} (c : Bool) (e : String) (m : Outcome B)
    → (fail_if (not c) e >>= λ _. m) ≡ (if c then m else err e)
fail_if-not true e m = refl
fail_if-not false e m = refl

-- `assert!`.
abbrev pub assert : Bool → Outcome (Unit {0})
assert true = ok tt
assert false = panic

-- `.unwrap()` and `.expect(..)`.
abbrev pub unwrap {ℓ} : {A : Type ℓ} → Outcome A → Outcome A
unwrap (ok a) = ok a
unwrap (err e) = panic
unwrap panic = panic

pub ok_inj {ℓ} : {A : Type ℓ} {a b : A} → ok a ≡ ok b → a ≡ b
ok_inj {A} {a = a} h = ap (value a) h
  where
    value : A → Outcome A → A
    value d (ok x) = x
    value d (err e) = d
    value d panic = d

-- A split on a list that keeps the equation.
pub List-cases {ℓ} :
    {A : Type ℓ} (xs : List A) → (xs ≡ []) ⊎ ((a : A) × (more : List A) × (xs ≡ a ∷ more))
List-cases [] = inl refl
List-cases (a ∷ more) = inr (a, more, refl)

-- A split on an option that keeps the equation.
pub Option-cases {ℓ} : {A : Type ℓ} (m : Option A) → (m ≡ none) ⊎ ((a : A) × (m ≡ some a))
Option-cases none = inl refl
Option-cases (some a) = inr (a, refl)

-- `Some` with its value, and a panic on `None`
abbrev pub some_or_panic {ℓ} : {A : Type ℓ} → Option A → Outcome A
some_or_panic none = panic
some_or_panic (some a) = ok a

abbrev pub is_some {ℓ} : {A : Type ℓ} → Option A → Bool
is_some none = false
is_some (some a) = true
