-- ===== src/Packets/Ipv6/Extension.antt =====
-- The extension headers of ipv6.rs: the chain that each one's first byte continues.
use route_rs.Common.{
  ℕ, zero, suc, ◌+◌, List, [], ◌∷◌, ◌++◌, Bool, true, false, not, ltb, leb, ◌==◌, if◌then◌else◌,
  length, take, Outcome, ok, panic, ◌>>=◌, ◌>>◌, fail_if, index, suffix, slice, bit_and,
}
use route_rs.Packets.Types.{PacketData, Ipv6Packet}
use route_rs.Packets.Protocol.{IpProtocol, from_u8, to_u8}
use route_rs.Packets.Ipv6.{next_header, set_next_header}

-- The protocols that the `match` of both loops takes for an extension header.
unfoldable pub is_extension : IpProtocol → Bool
is_extension IpProtocol.hopopt = true
is_extension IpProtocol.ipv6_opts = true
is_extension IpProtocol.ipv6_route = true
is_extension IpProtocol.ipv6_frag = true
is_extension IpProtocol.ah = true
is_extension IpProtocol.esp = true
is_extension IpProtocol.mobility_header = true
is_extension IpProtocol.hip = true
is_extension IpProtocol.shim6 = true
is_extension IpProtocol.use_for_experimentation_and_testing = true
is_extension _ = false

-- `header_ext_len`, with the minimum for a length byte of 0
abbrev pub ext_len : ℕ → ℕ
ext_len b = if b == 0 then 8 else b

-- The loop of `extension_headers`, a round for each unit of fuel. `headers` is what is pushed so far.
unfoldable pub headers_loop :
    ℕ → PacketData → List (List ℕ) → IpProtocol → ℕ → Outcome (List (List ℕ))
headers_loop zero d headers next offset = panic
headers_loop (suc fuel) d headers next offset = elim (is_extension next) [
  | true ↦ do
    b ← index d (offset + 1)
    bytes ← slice d offset (offset + ext_len b)
    n ← index d offset
    headers_loop fuel d (headers ++ bytes ∷ []) (from_u8 n) (offset + ext_len b)
  | false ↦ ok headers
]

-- The offset grows in each round, so the buffer's length bounds the rounds.
unfoldable pub extension_headers : Ipv6Packet → Outcome (List (List ℕ))
extension_headers self = do
  next ← next_header self
  headers_loop (suc (length self.data_bytes)) self.data_bytes [] next (self.layer3_offset + 40)

-- The bytes of the headers, one after another.
unfoldable pub extend_all : List ℕ → List (List ℕ) → List ℕ
extend_all d [] = d
extend_all d (header ∷ headers) = extend_all (d ++ header) headers

unfoldable pub set_extension_headers : Ipv6Packet → List (List ℕ) → IpProtocol → Outcome Ipv6Packet
set_extension_headers self headers first_header = do
  payload ← suffix self.data_bytes self.payload_offset
  let head = take self.payload_offset self.data_bytes
  let kept = take (self.layer3_offset + 40) head
  let packet = record self { data_bytes = extend_all kept headers ++ payload }
  if length headers == 0 then ok packet else set_next_header packet (to_u8 first_header)

-- The loop of `get_ipv6_payload_type`.
unfoldable pub payload_type_loop : ℕ → PacketData → IpProtocol → ℕ → Outcome IpProtocol
payload_type_loop zero d header offset = panic
payload_type_loop (suc fuel) d header offset = elim (is_extension header) [
  | true ↦ elim (leb (length d) (offset + 1)) [
    | true ↦ ok IpProtocol.reserved
    | false ↦ do
      b ← index d (offset + 1)
      n ← index d offset
      payload_type_loop fuel d (from_u8 n) (offset + ext_len b)
  ]
  | false ↦ ok header
]

-- The second test of the `||` is made only where the first one fails.
unfoldable pub get_ipv6_payload_type : PacketData → ℕ → Outcome IpProtocol
get_ipv6_payload_type d layer3_offset = do
  fail_if (ltb (length d) (layer3_offset + 40)) "Is not an Ipv6 Packet"
  first ← index d layer3_offset
  fail_if (not (bit_and first 0xF0 == 0x60)) "Is not an Ipv6 Packet"
  n ← index d (layer3_offset + 6)
  payload_type_loop (suc (length d)) d (from_u8 n) (layer3_offset + 40)
