-- ===== src/Packets/Protocol/Numbers.antt =====
-- `IpProtocol`: the discriminant of the protocol of a byte.
use route_rs.Common.{ℕ, ◌<◌, ◌≡◌, refl, true, ltb, ◌==◌, ==_iff, if◌then◌else◌, all_below}
use route_rs.Common.{all_below_sound}
use route_rs.Packets.Protocol.{from_u8, to_u8}

-- What the discriminant of the protocol of a byte is, range by range.
abbrev pub number_of : ℕ → ℕ
number_of n = if ltb n 143 then n else if ltb n 253 then 143 else if ltb n 255 then 144 else 145

number_table : all_below 256 (λ n. to_u8 (from_u8 n) == number_of n) ≡ true
unfolding all_below from_u8 to_u8
number_table = refl

-- The discriminant of the protocol of a byte is the byte itself below 143, and past that the
-- position of the variant: 143 for 143 to 252, 144 for 253 and 254, and 145 for 255.
pub to_u8-from_u8 : (n : ℕ) → n < 256 → to_u8 (from_u8 n) ≡ number_of n
to_u8-from_u8 n h =
    (==_iff _ _).0 (all_below_sound (λ m. to_u8 (from_u8 m) == number_of m) 256 n h number_table)
