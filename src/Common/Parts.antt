-- ===== src/Common/Parts.antt =====
-- The parts of a list of known lengths, and the accesses inside and past its bounds.
use Prim.Native.Nat.{ℕ, zero, suc, ◌+◌, ◌-◌, ◌≤◌, ◌<◌}
use mathlib.Core.Path.{◌≡◌, refl, ap}
use mathlib.Core.List.{List, [], ◌∷◌, ◌++◌}
use native.Mathlib.Omega.{arith}
use route_rs.Common.Tests.{le→leb, ==_iff}
use route_rs.Common.Outcomes.{ok, panic, map_ok, ok_inj}
use route_rs.Common.Lists.{
  length, take, drop, index, suffix, prefix, slice, overwrite, write_at, copy_from_slice,
}
use route_rs.Common.Slices.{suffix-append, write_at-append, take-append}

module _ {ℓ} {A : Type ℓ} where
  -- The parts of a list of known lengths.
  pub prefix_front : (xs ys : List A) (n : ℕ) → length xs ≡ n → prefix (xs ++ ys) n ≡ ok xs
  prefix_front [] ys zero h = refl
  prefix_front [] ys (suc n) h = absurd (omega arith)
  prefix_front (x ∷ xs) ys zero h = absurd (omega arith)
  prefix_front (x ∷ xs) ys (suc n) h =
      ap (map_ok (λ zs. x ∷ zs)) (prefix_front xs ys n (omega arith))

  pub suffix_end : (xs ys : List A) (n : ℕ) → length xs ≡ n → suffix (xs ++ ys) n ≡ ok ys
  suffix_end [] ys zero h = refl
  suffix_end [] ys (suc n) h = absurd (omega arith)
  suffix_end (x ∷ xs) ys zero h = absurd (omega arith)
  suffix_end (x ∷ xs) ys (suc n) h = suffix_end xs ys n (omega arith)

  pub take_front : (xs ys : List A) (n : ℕ) → length xs ≡ n → take n (xs ++ ys) ≡ xs
  take_front [] ys zero h = refl
  take_front [] ys (suc n) h = absurd (omega arith)
  take_front (x ∷ xs) ys zero h = absurd (omega arith)
  take_front (x ∷ xs) ys (suc n) h = ap (λ zs. x ∷ zs) (take_front xs ys n (omega arith))

  pub overwrite_front :
      (xs ys src : List A) → length src ≡ length xs → overwrite (xs ++ ys) src ≡ ok (src ++ ys)
  overwrite_front [] ys [] h = refl
  overwrite_front [] ys (v ∷ vs) h = absurd (omega arith)
  overwrite_front (x ∷ xs) ys [] h = absurd (omega arith)
  overwrite_front (x ∷ xs) ys (v ∷ vs) h =
      ap (map_ok (λ zs. v ∷ zs)) (overwrite_front xs ys vs (omega arith))

  pub write_at_mid :
      (xs ys zs src : List A) (a : ℕ)
      → length xs ≡ a
      → length src ≡ length ys
      → write_at (xs ++ (ys ++ zs)) a src ≡ ok (xs ++ (src ++ zs))
  write_at_mid [] ys zs src zero h e = overwrite_front ys zs src e
  write_at_mid [] ys zs src (suc a) h e = absurd (omega arith)
  write_at_mid (x ∷ xs) ys zs src zero h e = absurd (omega arith)
  write_at_mid (x ∷ xs) ys zs src (suc a) h e =
      ap (map_ok (λ ws. x ∷ ws)) (write_at_mid xs ys zs src a (omega arith) e)

  pub slice_mid :
      (xs ys zs : List A) (a b : ℕ)
      → length xs ≡ a
      → a + length ys ≡ b
      → slice (xs ++ (ys ++ zs)) a b ≡ ok ys
  slice_mid xs ys zs a b h e =
      rw (le→leb a b (omega arith), suffix_end xs (ys ++ zs) a h)
        (prefix_front ys zs (b - a) (omega arith))

  pub copy_mid :
      (xs ys zs src : List A) (a b : ℕ)
      → length xs ≡ a
      → a + length ys ≡ b
      → length src ≡ length ys
      → copy_from_slice (xs ++ (ys ++ zs)) a b src ≡ ok (xs ++ (src ++ zs))
  copy_mid xs ys zs src a b h e f =
      rw (le→leb a b (omega arith), (==_iff (length src) (b - a)).1 (omega arith))
        (write_at_mid xs ys zs src a h f)

  pub take-append-drop : (n : ℕ) (xs : List A) → take n xs ++ drop n xs ≡ xs
  take-append-drop zero xs = refl
  take-append-drop (suc n) [] = refl
  take-append-drop (suc n) (x ∷ xs) = ap (λ zs. x ∷ zs) (take-append-drop n xs)

  pub length-take_of_le : (n : ℕ) (xs : List A) → n ≤ length xs → length (take n xs) ≡ n
  length-take_of_le zero xs h = refl
  length-take_of_le (suc n) [] h = absurd (omega arith)
  length-take_of_le (suc n) (x ∷ xs) h = ap suc (length-take_of_le n xs (omega arith))

  pub length-drop : (n : ℕ) (xs : List A) → length (drop n xs) ≡ length xs - n
  length-drop zero xs = omega arith
  length-drop (suc n) [] = omega arith
  length-drop (suc n) (x ∷ xs) = omega (arith, length-drop n xs)

  -- The same at a numeral: past a part of length `n`.
  pub suffix_past :
      (xs ys : List A) (n k : ℕ) → length xs ≡ n → suffix (xs ++ ys) (n + k) ≡ suffix ys k
  suffix_past xs ys n k h = rw (← h) (suffix-append xs ys k)

  pub write_at_past :
      (xs ys src : List A) (n k : ℕ)
      → length xs ≡ n
      → write_at (xs ++ ys) (n + k) src ≡ map_ok (λ zs. xs ++ zs) (write_at ys k src)
  write_at_past xs ys src n k h = rw (← h) (write_at-append xs ys src k)

  pub take_past :
      (xs ys : List A) (n k : ℕ) → length xs ≡ n → take (n + k) (xs ++ ys) ≡ xs ++ take k ys
  take_past xs ys n k h = rw (← h) (take-append xs ys k)

  pub suffix_short : (xs : List A) (n : ℕ) → length xs < n → suffix xs n ≡ panic
  suffix_short xs zero h = absurd (omega arith)
  suffix_short [] (suc n) h = refl
  suffix_short (x ∷ xs) (suc n) h = suffix_short xs n (omega arith)

  -- A cut inside the second part.
  pub take_inside :
      (xs ys : List A) (n k : ℕ) → n ≡ length xs + k → take n (xs ++ ys) ≡ xs ++ take k ys
  take_inside xs ys n k h = rw h (take-append xs ys k)

  pub suffix_inside :
      (xs ys : List A) (n k : ℕ) → n ≡ length xs + k → suffix (xs ++ ys) n ≡ suffix ys k
  suffix_inside xs ys n k h = rw h (suffix-append xs ys k)

  pub length-suffix :
      (xs : List A) (n : ℕ) (ys : List A) → suffix xs n ≡ ok ys → length xs ≡ n + length ys
  length-suffix xs zero ys h = omega (arith, ap length (ok_inj h))
  length-suffix [] (suc n) ys h = cc
  length-suffix (x ∷ xs) (suc n) ys h = omega (arith, length-suffix xs n ys h)

  pub index_of_lt : (xs : List A) (i : ℕ) → i < length xs → (x : A) × (index xs i ≡ ok x)
  index_of_lt [] i h = absurd (omega arith)
  index_of_lt (x ∷ xs) zero h = (x, refl)
  index_of_lt (x ∷ xs) (suc i) h = index_of_lt xs i (omega arith)

  pub index_ge : (xs : List A) (i : ℕ) → length xs ≤ i → index xs i ≡ panic
  index_ge [] i h = refl
  index_ge (x ∷ xs) zero h = absurd (omega arith)
  index_ge (x ∷ xs) (suc i) h = index_ge xs i (omega arith)

  pub suffix-append_zero : (xs ys : List A) → suffix (xs ++ ys) (length xs) ≡ ok ys
  suffix-append_zero xs ys = suffix_end xs ys (length xs) refl

  pub take-append_end : (xs ys : List A) → take (length xs) (xs ++ ys) ≡ xs
  take-append_end xs ys = take_front xs ys (length xs) refl
