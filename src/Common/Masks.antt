-- ===== src/Common/Masks.antt =====
-- The masks that the packet views apply to a byte, as arithmetic: checked at every byte.
use route_rs.Common.Tests.{all_below, all_below_sound, ◌==◌, ==_iff}
use route_rs.Common.Bits.{or-fields, or-fields_flipped, and-mask}
use Prim.Native.Nat.{ℕ, ◌+◌, ◌*◌, ◌/◌, ◌%◌, ◌<◌, bit_and, bit_or}
use mathlib.Core.Path.{◌≡◌, refl}
use mathlib.Core.Bool.{true}

module _ (f g : ℕ → ℕ) where
  -- Two functions that agree at every byte.
  pub byte_table : all_below 256 (λ b. f b == g b) ≡ true → (b : ℕ) → b < 256 → f b ≡ g b
  byte_table t b h = (==_iff (f b) (g b)).0 (all_below_sound (λ c. f c == g c) 256 b h t)

pub and_f0 : (b : ℕ) → b < 256 → bit_and b 0xF0 ≡ b / 16 * 16
unfolding all_below
and_f0 = byte_table (λ b. bit_and b 0xF0) (λ b. b / 16 * 16) refl

pub and_fc : (b : ℕ) → b < 256 → bit_and b 0xFC ≡ b / 4 * 4
unfolding all_below
and_fc = byte_table (λ b. bit_and b 0xFC) (λ b. b / 4 * 4) refl

pub and_fe : (b : ℕ) → b < 256 → bit_and b 0xFE ≡ b / 2 * 2
unfolding all_below
and_fe = byte_table (λ b. bit_and b 0xFE) (λ b. b / 2 * 2) refl

pub and_e0 : (b : ℕ) → b < 256 → bit_and b 0xE0 ≡ b / 32 * 32
unfolding all_below
and_e0 = byte_table (λ b. bit_and b 0xE0) (λ b. b / 32 * 32) refl

pub and_40 : (b : ℕ) → b < 256 → bit_and b 0x40 ≡ b / 64 % 2 * 64
unfolding all_below
and_40 = byte_table (λ b. bit_and b 0x40) (λ b. b / 64 % 2 * 64) refl

pub and_20 : (b : ℕ) → b < 256 → bit_and b 0x20 ≡ b / 32 % 2 * 32
unfolding all_below
and_20 = byte_table (λ b. bit_and b 0x20) (λ b. b / 32 % 2 * 32) refl

pub low_nibble : (b : ℕ) → b < 256 → bit_and 0x0F b ≡ b % 16
unfolding all_below
low_nibble = byte_table (λ b. bit_and 0x0F b) (λ b. b % 16) refl

-- The low masks need no bound.
pub and_0f : (b : ℕ) → bit_and b 0x0F ≡ b % 16
and_0f = and-mask 4

pub and_1f : (b : ℕ) → bit_and b 0x1F ≡ b % 32
and_1f = and-mask 5

pub and_03 : (b : ℕ) → bit_and b 0x03 ≡ b % 4
and_03 = and-mask 2

pub and_01 : (b : ℕ) → bit_and b 0x01 ≡ b % 2
and_01 = and-mask 1

pub and_ff : (b : ℕ) → bit_and b 0xFF ≡ b % 256
and_ff = and-mask 8

pub and_1ff : (b : ℕ) → bit_and b 0x1FF ≡ b % 512
and_1ff = and-mask 9

pub and_ffff : (b : ℕ) → bit_and b 0xFFFF ≡ b % 65536
and_ffff = and-mask 16

-- `|` of a high and a low field.
pub or_16 : (q r : ℕ) → r < 16 → bit_or (q * 16) r ≡ q * 16 + r
or_16 = or-fields 4

pub or_4 : (q r : ℕ) → r < 4 → bit_or (q * 4) r ≡ q * 4 + r
or_4 = or-fields 2

pub or_32 : (q r : ℕ) → r < 32 → bit_or (q * 32) r ≡ q * 32 + r
or_32 = or-fields 5

pub or_2 : (q r : ℕ) → r < 2 → bit_or (q * 2) r ≡ q * 2 + r
or_2 = or-fields 1

pub low_or_4 : (q r : ℕ) → r < 4 → bit_or r (q * 4) ≡ q * 4 + r
low_or_4 = or-fields_flipped 2

pub low_or_16 : (q r : ℕ) → r < 16 → bit_or r (q * 16) ≡ q * 16 + r
low_or_16 = or-fields_flipped 4
