-- ===== src/Graphgen/Graph/Lists.antt =====
-- Lists read and written by index.
use mathlib.Core.List.{map, append_assoc}
use route_rs.Common.{
  ℕ, zero, suc, ◌+◌, ◌<◌, ◌≡◌, refl, ap, sym, ◌∙◌, List, [], ◌∷◌, ◌++◌, Option, some, Bool, ok,
  length, arith, ◌⊎◌, inl, inr, subst, Bool-cases,
}
use route_rs.Graphgen.Graph.{nth, put, from, collect}
use route_rs.Graphgen.Links.{filter}

module _ {ℓ} {A : Type ℓ} where
  pub nth-append : (xs ys : List A) (i : ℕ) (a : A) → nth xs i ≡ some a → nth (xs ++ ys) i ≡ some a
  nth-append [] ys i a h = cc
  nth-append (x ∷ xs) ys zero a h = h
  nth-append (x ∷ xs) ys (suc i) a h = nth-append xs ys i a h

  pub nth_last : (xs ys : List A) (a : A) → nth (xs ++ a ∷ ys) (length xs) ≡ some a
  nth_last [] ys a = refl
  nth_last (x ∷ xs) ys a = nth_last xs ys a

  pub lt-nth : (xs : List A) (i : ℕ) (a : A) → nth xs i ≡ some a → i < length xs
  lt-nth [] i a h = cc
  lt-nth (x ∷ xs) zero a h = omega arith
  lt-nth (x ∷ xs) (suc i) a h = omega (arith, lt-nth xs i a h)

  pub nth-lt : (xs : List A) (i : ℕ) → i < length xs → (a : A) × (nth xs i ≡ some a)
  nth-lt [] i h = absurd (omega arith)
  nth-lt (x ∷ xs) zero h = (x, refl)
  nth-lt (x ∷ xs) (suc i) h = nth-lt xs i (omega arith)

  -- An element of a list with one more is an old one or the last.
  pub nth-snoc :
      (xs : List A) (b : A) (i : ℕ) (a : A)
      → nth (xs ++ b ∷ []) i ≡ some a
      → (nth xs i ≡ some a) ⊎ (i ≡ length xs) × (some b ≡ some a)
  nth-snoc [] b zero a h = inr (refl, h)
  nth-snoc [] b (suc i) a h = cc
  nth-snoc (x ∷ xs) b zero a h = inl h
  nth-snoc (x ∷ xs) b (suc i) a h = elim (nth-snoc xs b i a h) [
    | inl e ↦ inl e
    | inr (e, k) ↦ inr (ap suc e, k)
  ]

  pub put_at : (xs ys : List A) (a b : A) → put (xs ++ a ∷ ys) (length xs) b ≡ xs ++ b ∷ ys
  put_at [] ys a b = refl
  put_at (x ∷ xs) ys a b = ap (λ (zs : List A). x ∷ zs) (put_at xs ys a b)

  pub length-snoc : (xs : List A) (a : A) → length (xs ++ a ∷ []) ≡ suc (length xs)
  length-snoc [] a = refl
  length-snoc (x ∷ xs) a = ap suc (length-snoc xs a)

  -- All elements from an index on, in their order.
  pub collect_from :
      (weight : ℕ → Option A) (xs ys : List A)
      → ((i : ℕ) → weight i ≡ nth (xs ++ ys) i)
      → collect weight (from (length xs) (length ys)) ≡ ok ys
  unfolding collect
  collect_from weight xs [] h = refl
  collect_from weight xs (y ∷ ys) h =
      let e = h (length xs) ∙ nth_last xs ys y in
      let more =
        collect_from weight (xs ++ y ∷ []) ys
          (λ i. h i ∙ ap (λ zs. nth zs i) (sym (append_assoc xs (y ∷ []) ys))) in
      rw (e, rw (length-snoc xs y) at more) refl

  -- a map with the index of each element, from `i` on
  abbrev pub map_from : (ℕ → A → A) → ℕ → List A → List A
  map_from f i [] = []
  map_from f i (x ∷ xs) = f i x ∷ map_from f (suc i) xs

  pub map_from-map :
      (f : ℕ → A → A) (h : A → A) (i : ℕ) (xs : List A)
      → ((j : ℕ) (a : A) → nth xs j ≡ some a → f (i + j) a ≡ h a)
      → map_from f i xs ≡ map h xs
  map_from-map f h i [] same = refl
  map_from-map f h i (x ∷ xs) same =
      let here : f i x ≡ h x = subst (λ k. f k x ≡ h x) (omega arith) (same 0 x refl) in
      let later : map_from f (suc i) xs ≡ map h xs =
        map_from-map f h (suc i) xs
          (λ j a e. subst (λ k. f k a ≡ h a) (omega arith) (same (suc j) a e)) in
      rw (here, later) refl

  pub length-filter :
      {B : Type ℓ} (p : A → Bool) (q : B → Bool) (w : A → B) (xs : List A)
      → ((i : ℕ) (a : A) → nth xs i ≡ some a → p a ≡ q (w a))
      → length (filter p xs) ≡ length (filter q (map w xs))
  length-filter p q w [] same = refl
  length-filter {B} p q w (x ∷ xs) same =
      let e : p x ≡ q (w x) = same 0 x refl in
      let later = length-filter p q w xs (λ i a h. same (suc i) a h) in
      elim (Bool-cases (q (w x))) [
        | inl yes_test ↦ rw (e, yes_test) (ap suc later)
        | inr no_test ↦ rw (e, no_test) later
      ]

pub length-map {ℓ κ} :
    {A : Type ℓ} {B : Type κ} (h : A → B) (xs : List A) → length (map h xs) ≡ length xs
length-map h [] = refl
length-map h (x ∷ xs) = ap suc (length-map h xs)
