-- ===== src/Common/Bytes.antt =====
-- Unsigned words and their big-endian bytes.
use route_rs.Common.Lists.{drop}
use route_rs.Common.Outcomes.{Outcome, ok, panic}
use Prim.Native.Nat.{ℕ, zero, suc, ◌+◌, ◌*◌, ◌/◌, ◌%◌, ◌^◌, ◌<◌}
use mathlib.Core.Path.{◌≡◌}
use mathlib.Core.List.{List, [], ◌∷◌}
use native.Mathlib.Omega.{arith}

-- The casts `as u8`, `as u16` and `as u32`.
abbrev pub u8 : ℕ → ℕ
u8 n = n % 2 ^ 8

abbrev pub u16 : ℕ → ℕ
u16 n = n % 2 ^ 16

abbrev pub u32 : ℕ → ℕ
u32 n = n % 2 ^ 32

-- Every element is a byte.
abbrev pub IsBytes : List ℕ → Type 0
IsBytes [] = Unit {0}
IsBytes (b ∷ bs) = (b < 256) × IsBytes bs

-- `u16::from_be_bytes(slice.try_into().unwrap())`
abbrev pub u16_from_be_bytes : List ℕ → Outcome ℕ
u16_from_be_bytes (a ∷ b ∷ []) = ok (a * 256 + b)
u16_from_be_bytes _ = panic

-- `u32::from_be_bytes(slice.try_into().unwrap())`
abbrev pub u32_from_be_bytes : List ℕ → Outcome ℕ
u32_from_be_bytes (a ∷ b ∷ c ∷ d ∷ []) = ok (((a * 256 + b) * 256 + c) * 256 + d)
u32_from_be_bytes _ = panic

-- `x.to_be_bytes()` at `u16` and at `u32`
abbrev pub u16_to_be_bytes : ℕ → List ℕ
u16_to_be_bytes x = (x / 256 % 256) ∷ (x % 256) ∷ []

abbrev pub u32_to_be_bytes : ℕ → List ℕ
u32_to_be_bytes x = (x / 2 ^ 24 % 256) ∷ (x / 2 ^ 16 % 256) ∷ (x / 2 ^ 8 % 256) ∷ (x % 256) ∷ []

pub u16_be_bytes : (x : ℕ) → x < 2 ^ 16 → x / 256 % 256 * 256 + x % 256 ≡ x
u16_be_bytes x h = omega arith

pub u32_be_bytes :
    (x : ℕ)
    → x < 2 ^ 32
    → ((x / 2 ^ 24 % 256 * 256 + x / 2 ^ 16 % 256) * 256 + x / 2 ^ 8 % 256) * 256 + x % 256 ≡ x
u32_be_bytes x h = omega arith

pub IsBytes-drop : (n : ℕ) (xs : List ℕ) → IsBytes xs → IsBytes (drop n xs)
IsBytes-drop zero xs h = h
IsBytes-drop (suc n) [] h = h
IsBytes-drop (suc n) (x ∷ xs) h = IsBytes-drop n xs h.1
