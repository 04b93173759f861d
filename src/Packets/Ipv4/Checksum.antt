-- ===== src/Packets/Ipv4/Checksum.antt =====
-- The header checksum of ipv4.rs.
use route_rs.Common.{
  ℕ, ◌+◌, ◌-◌, ◌*◌, ◌/◌, ◌^◌, List, [], ◌∷◌, Bool, ◌==◌, if◌then◌else◌, Outcome, ok, ◌>>=◌,
  set_index, slice, bit_and,
}
use route_rs.Common.Bytes.{u8, u16, u32}
use route_rs.Packets.Types.{Ipv4Packet}

-- `chunks_exact(2)` read as big-endian words: a last odd byte is left out.
unfoldable pub words : List ℕ → List ℕ
words (a ∷ b ∷ bs) = (a * 256 + b) ∷ words bs
words _ = []

-- The `fold` in `u32`.
unfoldable pub sum_words : ℕ → List ℕ → ℕ
sum_words acc [] = acc
sum_words acc (w ∷ ws) = sum_words (u32 (acc + w)) ws

-- `enumerate().filter(|x| x.0 != 5)`, from an index on.
unfoldable pub without_checksum : ℕ → List ℕ → List ℕ
without_checksum i [] = []
without_checksum i (w ∷ ws) =
    let rest = without_checksum (i + 1) ws in if i == 5 then rest else w ∷ rest

-- `!x` at `u32`
abbrev pub not_u32 : ℕ → ℕ
not_u32 x = 2 ^ 32 - 1 - x

-- The carry folded into the low word once.
unfoldable pub fold_carry : ℕ → ℕ
fold_carry full_sum = u32 (bit_and full_sum 0x0000_FFFF + bit_and full_sum 0xFFFF_0000 / 2 ^ 16)

unfoldable pub validate_checksum : Ipv4Packet → Outcome Bool
validate_checksum self = do
  header ← slice self.data_bytes self.layer3_offset self.payload_offset
  let full_sum = sum_words 0 (words header)
  ok (0 == bit_and (not_u32 (fold_carry full_sum)) 0xFFFF)

unfoldable pub caclulate_checksum : Ipv4Packet → Outcome ℕ
caclulate_checksum self = do
  header ← slice self.data_bytes self.layer3_offset self.payload_offset
  let full_sum = sum_words 0 (without_checksum 0 (words header))
  let sum = fold_carry full_sum
  let carried = if bit_and sum 0xFFFF_0000 == 0 then sum else u32 (sum + 1)
  ok (u16 (bit_and (not_u32 carried) 0xFFFF))

unfoldable pub set_checksum : Ipv4Packet → Outcome Ipv4Packet
set_checksum self = do
  new_checksum ← caclulate_checksum self
  d ← set_index self.data_bytes (self.layer3_offset + 10) (u8 (bit_and new_checksum 0xFF00 / 2 ^ 8))
  e ← set_index d (self.layer3_offset + 11) (u8 (bit_and new_checksum 0x00FF))
  ok (record self { data_bytes = e })
