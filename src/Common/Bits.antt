-- ===== src/Common/Bits.antt =====
-- `&` and `|` on words as arithmetic: a low mask is a remainder, a high mask a multiple, and `|` of
-- disjoint fields a sum. The native operations stand for a recursion on binary digits.
use Prim.Native.Nat.{
  ℕ, zero, suc, ◌+◌, ◌-◌, ◌*◌, ◌/◌, ◌%◌, ◌^◌, ◌≤◌, ◌<◌, min, max, bit_and, bit_or, digits,
  bit_and-bitwise, bit_or-bitwise,
}
use mathlib.Core.Path.{◌≡◌, refl, ap, ◌∙◌}
use native.Mathlib.Omega.{arith}
use native.Mathlib.Nat.{pow-suc, one-le-pow, mod-lt, div-add-mod', mul-one, add-zero}

-- More fuel than the first number changes nothing.
digits-more :
    (z : ℕ → ℕ) (f : ℕ → ℕ → ℕ) (n m a b : ℕ) → a ≤ n → a ≤ m → digits z f n a b ≡ digits z f m a b
digits-more z f zero zero a b p q = refl
digits-more z f zero (suc m) zero b p q = refl
digits-more z f zero (suc m) (suc a) b p q = absurd (omega arith)
digits-more z f (suc n) zero zero b p q = refl
digits-more z f (suc n) zero (suc a) b p q = absurd (omega arith)
digits-more z f (suc n) (suc m) zero b p q = refl
digits-more z f (suc n) (suc m) (suc a) b p q =
    ap (λ t. t * 2 + f (suc a % 2) (b % 2))
      (digits-more z f n m (suc a / 2) (b / 2) (omega arith) (omega arith))

and-halves : (a b : ℕ) → bit_and a b ≡ bit_and (a / 2) (b / 2) * 2 + min (a % 2) (b % 2)
and-halves zero b = simp bit_and-bitwise (omega arith)
and-halves (suc a) b = simp bit_and-bitwise (
    omega (
      arith,
      digits-more (λ y. 0) min a (suc a / 2) (suc a / 2) (b / 2) (omega arith) (omega arith),
    ))

or-halves : (a b : ℕ) → bit_or a b ≡ bit_or (a / 2) (b / 2) * 2 + max (a % 2) (b % 2)
or-halves zero b = simp bit_or-bitwise (omega arith)
or-halves (suc a) b = simp bit_or-bitwise (
    omega (
      arith,
      digits-more (λ y. y) max a (suc a / 2) (suc a / 2) (b / 2) (omega arith) (omega arith),
    ))

and-zero_below : (n a : ℕ) → a ≤ n → bit_and a 0 ≡ 0
and-zero_below n zero h = refl
and-zero_below zero (suc a) h = absurd (omega arith)
and-zero_below (suc n) (suc a) h =
    omega (arith, and-halves (suc a) 0, and-zero_below n (suc a / 2) (omega arith))

or-zero_below : (n a : ℕ) → a ≤ n → bit_or a 0 ≡ a
or-zero_below n zero h = refl
or-zero_below zero (suc a) h = absurd (omega arith)
or-zero_below (suc n) (suc a) h =
    omega (arith, or-halves (suc a) 0, or-zero_below n (suc a / 2) (omega arith))

pub and-zero : (a : ℕ) → bit_and a 0 ≡ 0
and-zero a = and-zero_below a a (omega arith)

pub or-zero : (a : ℕ) → bit_or a 0 ≡ a
or-zero a = or-zero_below a a (omega arith)

double-pow : (q k : ℕ) → q * 2 ^ suc k ≡ 2 * (q * 2 ^ k)
double-pow q k = omega (arith, ap (λ (t : ℕ). q * t) (pow-suc 2 k))

-- A mask of the `k` low bits keeps the low field.
pub and-low : (k q r : ℕ) → r < 2 ^ k → bit_and (q * 2 ^ k + r) (2 ^ k - 1) ≡ r
and-low zero q r h = ground (arith, and-zero (q * 2 ^ 0 + r))
and-low (suc k) q r h = ground (
  arith,
  and-halves (q * 2 ^ suc k + r) (2 ^ suc k - 1),
  double-pow q k,
  pow-suc 2 k,
  one-le-pow k 2,
  and-low k q (r / 2) (omega (arith, pow-suc 2 k)),
)

-- A mask with `k` low zeros clears the low field, and masks the high one.
pub and-high : (k q r m : ℕ) → r < 2 ^ k → bit_and (q * 2 ^ k + r) (m * 2 ^ k) ≡ bit_and q m * 2 ^ k
and-high zero q r m h = let e : r ≡ 0 = omega arith in rw e (simp (mul-one, add-zero))
and-high (suc k) q r m h = ground (
  arith,
  and-halves (q * 2 ^ suc k + r) (m * 2 ^ suc k),
  double-pow q k,
  double-pow m k,
  double-pow (bit_and q m) k,
  and-high k q (r / 2) m (omega (arith, pow-suc 2 k)),
)

-- `|` of a high and a low field is their sum.
pub or-fields : (k q r : ℕ) → r < 2 ^ k → bit_or (q * 2 ^ k) r ≡ q * 2 ^ k + r
or-fields zero q r h = ground (arith, or-zero q)
or-fields (suc k) q r h = ground (
  arith,
  or-halves (q * 2 ^ suc k) r,
  double-pow q k,
  or-fields k q (r / 2) (omega (arith, pow-suc 2 k)),
)

-- A mask of `n` ones above `k` zeros keeps a high field of `n` bits.
pub and-high_mask :
    (n k q r : ℕ)
    → q < 2 ^ n
    → r < 2 ^ k
    → bit_and (q * 2 ^ k + r) ((2 ^ n - 1) * 2 ^ k) ≡ q * 2 ^ k
and-high_mask n k q r hq hr =
    let e : 0 * 2 ^ n + q ≡ q = omega arith in
    let low : bit_and q (2 ^ n - 1) ≡ q = rw e at (and-low n 0 q hq) in
    and-high k q r (2 ^ n - 1) hr ∙ ap (λ t. t * 2 ^ k) low

-- Any number masked by `n` ones is its remainder.
pub and-mask : (n a : ℕ) → bit_and a (2 ^ n - 1) ≡ a % 2 ^ n
and-mask n a =
    let e : a / 2 ^ n * 2 ^ n + a % 2 ^ n ≡ a = div-add-mod' a (2 ^ n) in
    rw e at (and-low n (a / 2 ^ n) (a % 2 ^ n) (mod-lt a (one-le-pow n 2 (omega arith))))

zero-or : (a : ℕ) → bit_or 0 a ≡ a
zero-or a = simp bit_or-bitwise (omega arith)

pub or-fields_flipped : (k q r : ℕ) → r < 2 ^ k → bit_or r (q * 2 ^ k) ≡ q * 2 ^ k + r
or-fields_flipped zero q r h = let e : r ≡ 0 = omega arith in rw e (ground (arith, zero-or (q * 1)))
or-fields_flipped (suc k) q r h = ground (
  arith,
  or-halves r (q * 2 ^ suc k),
  double-pow q k,
  or-fields_flipped k q (r / 2) (omega (arith, pow-suc 2 k)),
)
