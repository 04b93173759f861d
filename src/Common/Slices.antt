-- ===== src/Common/Slices.antt =====
-- The accesses of a buffer behind a prefix: positions count from the end of the prefix.
use Prim.Native.Nat.{ℕ, zero, suc, ◌+◌, ◌-◌}
use mathlib.Core.Path.{◌≡◌, refl, ap, sym, ◌∙◌}
use mathlib.Core.Logic.{inl, inr}
use mathlib.Core.List.{List, [], ◌∷◌, ◌++◌}
use native.Mathlib.Omega.{arith}
use native.Mathlib.Nat.{add_assoc, add-zero}
use route_rs.Common.Tests.{leb, ◌==◌, Bool-cases}
use route_rs.Common.Outcomes.{Outcome, ok, err, panic, ◌>>=◌, map_ok, map_ok_id, map_ok-map_ok}
use route_rs.Common.Lists.{
  length, take, replicate, index, suffix, slice, write_at, copy_from_slice, set_index,
  slice_inclusive, copy_inclusive, modify,
}

leb-add : (n i j : ℕ) → leb (n + i) (n + j) ≡ leb i j
leb-add n i j = ground arith

sub-add : (n i j : ℕ) → n + j - (n + i) ≡ j - i
sub-add n i j = omega arith

module _ {ℓ} {A : Type ℓ} where
  pub length-append : (xs ys : List A) → length (xs ++ ys) ≡ length xs + length ys
  length-append [] ys = omega arith
  length-append (x ∷ xs) ys = omega (arith, length-append xs ys)

  pub length-replicate : (n : ℕ) (a : A) → length (replicate n a) ≡ n
  length-replicate zero a = refl
  length-replicate (suc n) a = ap suc (length-replicate n a)

  -- Behind a prefix, an access counts from the end of the prefix.
  pub index-append : (xs ys : List A) (k : ℕ) → index (xs ++ ys) (length xs + k) ≡ index ys k
  index-append [] ys k = ap (index ys) (omega arith)
  index-append (x ∷ xs) ys k =
      let e : suc (length xs) + k ≡ suc (length xs + k) = omega arith in rw e (index-append xs ys k)

  pub suffix-append : (xs ys : List A) (k : ℕ) → suffix (xs ++ ys) (length xs + k) ≡ suffix ys k
  suffix-append [] ys k = ap (suffix ys) (omega arith)
  suffix-append (x ∷ xs) ys k =
      let e : suc (length xs) + k ≡ suc (length xs + k) = omega arith in
      rw e (suffix-append xs ys k)

  pub write_at-append :
      (xs ys src : List A) (k : ℕ)
      → write_at (xs ++ ys) (length xs + k) src ≡ map_ok (λ zs. xs ++ zs) (write_at ys k src)
  write_at-append [] ys src k =
      ap (λ j. write_at ys j src) (omega arith) ∙ sym (map_ok_id (write_at ys k src))
  write_at-append (x ∷ xs) ys src k =
      let e : suc (length xs) + k ≡ suc (length xs + k) = omega arith in
      rw e (
        ap (map_ok (λ zs. x ∷ zs)) (write_at-append xs ys src k)
        ∙ map_ok-map_ok (λ zs. x ∷ zs) (λ zs. xs ++ zs) (write_at ys k src))

  pub take-append : (xs ys : List A) (k : ℕ) → take (length xs + k) (xs ++ ys) ≡ xs ++ take k ys
  take-append [] ys k = ap (λ j. take j ys) (omega arith)
  take-append (x ∷ xs) ys k =
      let e : suc (length xs) + k ≡ suc (length xs + k) = omega arith in
      rw e (ap (λ zs. x ∷ zs) (take-append xs ys k))

  pub slice-append :
      (xs ys : List A) (i j : ℕ) → slice (xs ++ ys) (length xs + i) (length xs + j) ≡ slice ys i j
  slice-append xs ys i j =
      rw (leb-add (length xs) i j, sub-add (length xs) i j, suffix-append xs ys i)

  pub copy_from_slice-append :
      (xs ys src : List A) (i j : ℕ)
      → copy_from_slice (xs ++ ys) (length xs + i) (length xs + j) src
        ≡ map_ok (λ zs. xs ++ zs) (copy_from_slice ys i j src)
  copy_from_slice-append xs ys src i j =
      rw (leb-add (length xs) i j, sub-add (length xs) i j, write_at-append xs ys src i)
        (elim (Bool-cases (leb i j)) [
          | inl p ↦ rw p (elim (Bool-cases (length src == j - i)) [ inl q ↦ rw q | inr q ↦ rw q ])
          | inr p ↦ rw p
        ])

  pub slice_inclusive-append :
      (xs ys : List A) (i j : ℕ)
      → slice_inclusive (xs ++ ys) (length xs + i) (length xs + j) ≡ slice ys i (j + 1)
  slice_inclusive-append xs ys i j = rw (add_assoc (length xs) j 1) (slice-append xs ys i (j + 1))

  pub copy_inclusive-append :
      (xs ys src : List A) (i j : ℕ)
      → copy_inclusive (xs ++ ys) (length xs + i) (length xs + j) src
        ≡ map_ok (λ zs. xs ++ zs) (copy_from_slice ys i (j + 1) src)
  copy_inclusive-append xs ys src i j =
      rw (add_assoc (length xs) j 1) (copy_from_slice-append xs ys src i (j + 1))

  -- At the end of the prefix itself.
  pub index-append_zero : (xs ys : List A) → index (xs ++ ys) (length xs) ≡ index ys 0
  index-append_zero xs ys =
      ap (index (xs ++ ys)) (sym (add-zero (length xs))) ∙ index-append xs ys 0

  pub write_at-append_zero :
      (xs ys src : List A)
      → write_at (xs ++ ys) (length xs) src ≡ map_ok (λ zs. xs ++ zs) (write_at ys 0 src)
  write_at-append_zero xs ys src =
      ap (λ n. write_at (xs ++ ys) n src) (sym (add-zero (length xs))) ∙ write_at-append xs ys src 0

  pub modify-append :
      (xs ys : List A) (k : ℕ) (f : A → A)
      → modify (xs ++ ys) (length xs + k) f ≡ map_ok (λ zs. xs ++ zs) (modify ys k f)
  modify-append xs ys k f = rw (index-append xs ys k) (step (index ys k))
    where
      step :
          (o : Outcome A)
          → (o >>= λ x. set_index (xs ++ ys) (length xs + k) (f x))
            ≡ map_ok (λ zs. xs ++ zs) (o >>= λ x. set_index ys k (f x))
      step (ok x) = write_at-append xs ys (f x ∷ []) k
      step (err e) = refl
      step panic = refl

  pub modify-append_zero :
      (xs ys : List A) (f : A → A)
      → modify (xs ++ ys) (length xs) f ≡ map_ok (λ zs. xs ++ zs) (modify ys 0 f)
  modify-append_zero xs ys f =
      ap (λ n. modify (xs ++ ys) n f) (sym (add-zero (length xs))) ∙ modify-append xs ys 0 f

  pub slice_inclusive-append_zero :
      (xs ys : List A) (j : ℕ)
      → slice_inclusive (xs ++ ys) (length xs) (length xs + j) ≡ slice ys 0 (j + 1)
  slice_inclusive-append_zero xs ys j =
      ap (λ n. slice_inclusive (xs ++ ys) n (length xs + j)) (sym (add-zero (length xs)))
      ∙ slice_inclusive-append xs ys 0 j

  pub copy_inclusive-append_zero :
      (xs ys src : List A) (j : ℕ)
      → copy_inclusive (xs ++ ys) (length xs) (length xs + j) src
        ≡ map_ok (λ zs. xs ++ zs) (copy_from_slice ys 0 (j + 1) src)
  copy_inclusive-append_zero xs ys src j =
      ap (λ n. copy_inclusive (xs ++ ys) n (length xs + j) src) (sym (add-zero (length xs)))
      ∙ copy_inclusive-append xs ys src 0 j
