-- ===== src/Packets/Ipv4.antt =====
-- `Ipv4Packet` of route-rs-packets/src/ipv4.rs. A method that changes the packet returns the new one,
-- and an index out of range panics. The laws are in the modules below.
pub mod Layout
pub mod Tests
pub mod Getters
pub mod Setters
pub mod Buffer
pub mod Payload
pub mod OnesSum
pub mod Checksum
pub mod Convert
use route_rs.Common.{
  ℕ, ◌+◌, ◌-◌, ◌*◌, ◌/◌, ◌^◌, Option, none, some, List, [], ◌∷◌, ◌++◌, Bool, true, false, not, ◌||◌,
  ltb, leb, ◌==◌, if◌then◌else◌, same_bytes, length, take, Outcome, ok, err, ◌>>=◌, ◌>>◌, fail_if,
  map_ok, unwrap, index, set_index, modify, suffix, slice, slice_inclusive, copy_from_slice,
  copy_inclusive, to_array, resize, bit_and, bit_or,
}
use route_rs.Common.Bytes.{u8, u16, u32, u16_from_be_bytes, u16_to_be_bytes}
use route_rs.Packets.Types.{PacketData, Ipv4Addr, EthernetFrame, Ipv4Packet, TcpSegment, UdpSegment}
use route_rs.Packets.Protocol.{IpProtocol, from_u8}

unfoldable pub from_buffer : PacketData → Option ℕ → ℕ → Outcome Ipv4Packet
from_buffer d layer2_offset layer3_offset = do
  fail_if (ltb (length d) (layer3_offset + 20)) "Data is too short to be an IPv4 Packet"
  first ← index d layer3_offset
  let version = bit_and first 0xF0 / 2 ^ 4
  fail_if (not (version == 4)) "Packet has incorrect version, is not Ipv4Packet"
  total_len ← slice_inclusive d (layer3_offset + 2) (layer3_offset + 3) >>= u16_from_be_bytes
  fail_if (not (length d == total_len + layer3_offset)) "Packet has invalid total length field"
  again ← index d layer3_offset
  let ihl = bit_and again 0x0F
  ok (record {
    data_bytes = d;
    layer2_offset = layer2_offset;
    layer3_offset = layer3_offset;
    payload_offset = layer3_offset + ihl * 4;
  })

unfoldable pub empty : Outcome Ipv4Packet
unfolding from_buffer
empty = do
  d ← copy_inclusive (resize (0x45 ∷ []) 20 0) 2 3 (u16_to_be_bytes 20)
  unwrap (from_buffer d none 0)

module _ (self : Ipv4Packet) where
  open self use {data_bytes, layer3_offset, payload_offset}

  unfoldable pub src_addr : Outcome Ipv4Addr
  src_addr = do
    octets ← slice data_bytes (layer3_offset + 12) (layer3_offset + 16) >>= to_array 4
    ok (record { octets = octets })

  unfoldable pub set_src_addr : Ipv4Addr → Outcome Ipv4Packet
  set_src_addr addr = do
    d ← copy_from_slice data_bytes (layer3_offset + 12) (layer3_offset + 16) addr.octets
    ok (record self { data_bytes = d })

  unfoldable pub dest_addr : Outcome Ipv4Addr
  dest_addr = do
    octets ← slice data_bytes (layer3_offset + 16) (layer3_offset + 20) >>= to_array 4
    ok (record { octets = octets })

  unfoldable pub set_dest_addr : Ipv4Addr → Outcome Ipv4Packet
  set_dest_addr addr = do
    d ← copy_from_slice data_bytes (layer3_offset + 16) (layer3_offset + 20) addr.octets
    ok (record self { data_bytes = d })

  unfoldable pub ihl : Outcome ℕ
  ihl = do b ← index data_bytes layer3_offset; ok (bit_and b 0x0F)

  unfoldable pub set_ihl : ℕ → Outcome Ipv4Packet
  set_ihl header_length = do
    d ← modify data_bytes layer3_offset (λ b. bit_and b 0xF0)
    e ← modify d layer3_offset (λ b. bit_or b (bit_and 0x0F (u8 (header_length / 4))))
    ok (record self { data_bytes = e; payload_offset = header_length })

  unfoldable pub payload : Outcome (List ℕ)
  payload = suffix data_bytes payload_offset

  unfoldable pub options : Outcome (Option (List ℕ))
  unfolding ihl
  options = do
    n ← ihl
    let bytes = slice data_bytes (layer3_offset + 20) payload_offset
    if leb n 5 then ok none else map_ok some bytes

  unfoldable pub protocol : Outcome IpProtocol
  protocol = do b ← index data_bytes (layer3_offset + 9); ok (from_u8 b)

  unfoldable pub set_protocol : ℕ → Outcome Ipv4Packet
  set_protocol protocol = do
    d ← set_index data_bytes (layer3_offset + 9) protocol
    ok (record self { data_bytes = d })

  unfoldable pub total_len : Outcome ℕ
  total_len =
      slice_inclusive data_bytes (layer3_offset + 2) (layer3_offset + 3) >>= u16_from_be_bytes

  unfoldable pub ttl : Outcome ℕ
  ttl = index data_bytes (layer3_offset + 8)

  unfoldable pub set_ttl : ℕ → Outcome Ipv4Packet
  set_ttl ttl = do
    d ← set_index data_bytes (layer3_offset + 8) ttl
    ok (record self { data_bytes = d })

  unfoldable pub checksum : Outcome ℕ
  checksum =
      slice_inclusive data_bytes (layer3_offset + 10) (layer3_offset + 11) >>= u16_from_be_bytes

  unfoldable pub dscp : Outcome ℕ
  dscp = do b ← index data_bytes (layer3_offset + 1); ok (b / 2 ^ 2)

  unfoldable pub set_dscp : ℕ → Outcome Ipv4Packet
  set_dscp dscp = do
    d ← modify data_bytes (layer3_offset + 1) (λ b. bit_and b 0x03)
    e ← modify d (layer3_offset + 1) (λ b. bit_or b (u8 (dscp * 2 ^ 2)))
    ok (record self { data_bytes = e })

  unfoldable pub ecn : Outcome ℕ
  ecn = do b ← index data_bytes (layer3_offset + 1); ok (bit_and b 0x03)

  unfoldable pub set_ecn : ℕ → Outcome Ipv4Packet
  set_ecn ecn = do
    d ← modify data_bytes (layer3_offset + 1) (λ b. bit_and b 0xFC)
    e ← modify d (layer3_offset + 1) (λ b. bit_or b (bit_and ecn 0x03))
    ok (record self { data_bytes = e })

  unfoldable pub indentification : Outcome ℕ
  indentification =
      slice_inclusive data_bytes (layer3_offset + 4) (layer3_offset + 5) >>= u16_from_be_bytes

  unfoldable pub set_identification : ℕ → Outcome Ipv4Packet
  set_identification indentification = do
    d ←
        copy_inclusive data_bytes (layer3_offset + 4) (layer3_offset + 5)
          (u16_to_be_bytes indentification)
    ok (record self { data_bytes = d })

  unfoldable pub fragment_offset : Outcome ℕ
  fragment_offset = do
    high ← index data_bytes (layer3_offset + 6)
    low ← index data_bytes (layer3_offset + 7)
    u16_from_be_bytes (bit_and high 0x1F ∷ low ∷ [])

  unfoldable pub set_fragment_offset : ℕ → Outcome Ipv4Packet
  set_fragment_offset fragment_offset = do
    d ← modify data_bytes (layer3_offset + 6) (λ b. bit_and b 0xE0)
    e ← modify d (layer3_offset + 6) (λ b. bit_or b (bit_and (u8 (fragment_offset / 2 ^ 8)) 0x1F))
    g ← set_index e (layer3_offset + 7) (u8 (bit_and fragment_offset 0x00FF))
    ok (record self { data_bytes = g })

  -- (Don't Fragment, More Fragments)
  unfoldable pub flags : Outcome (Bool × Bool)
  flags = do
    a ← index data_bytes (layer3_offset + 6)
    b ← index data_bytes (layer3_offset + 6)
    ok (not (bit_and a 0x40 == 0), not (bit_and b 0x20 == 0))

-- The `match` of `set_flags`.
unfoldable pub flag_bits : Bool → Bool → ℕ
flag_bits false false = 0
flag_bits false true = 1
flag_bits true false = 2
flag_bits true true = 3

unfoldable pub set_flags : Ipv4Packet → Bool → Bool → Outcome Ipv4Packet
unfolding flag_bits
set_flags self df mf = do
  d ← modify self.data_bytes (self.layer3_offset + 6) (λ b. bit_and b 0xE0)
  e ← modify d (self.layer3_offset + 6) (λ b. bit_or b (u8 (flag_bits df mf * 2 ^ 5)))
  ok (record self { data_bytes = e })

unfoldable pub set_payload : Ipv4Packet → List ℕ → Outcome Ipv4Packet
unfolding ihl
set_payload self payload = do
  let cut = record self { data_bytes = take self.payload_offset self.data_bytes }
  n ← ihl cut
  let total_len = u16_to_be_bytes (u16 (u16 (length payload) + u8 (n * 4)))
  d ← copy_inclusive cut.data_bytes (self.layer3_offset + 2) (self.layer3_offset + 3) total_len
  ok (record self { data_bytes = d ++ payload })

unfoldable pub set_options : Ipv4Packet → List ℕ → Outcome Ipv4Packet
unfolding set_ihl
set_options self options = do
  payload ← suffix self.data_bytes self.payload_offset
  let head = take self.payload_offset self.data_bytes
  let kept = take (self.layer3_offset + 20) head
  set_ihl (record self { data_bytes = kept ++ (options ++ payload) }) (length options + 20)

-- `PartialEq`: the bytes from the layer 3 header on.
unfoldable pub eq : Ipv4Packet → Ipv4Packet → Outcome Bool
eq self other = do
  a ← suffix self.data_bytes self.layer3_offset
  b ← suffix other.data_bytes other.layer3_offset
  ok (same_bytes a b)

-- The second test of the `||` is made only where the first one fails.
unfoldable pub get_ipv4_payload_type : PacketData → ℕ → Outcome IpProtocol
get_ipv4_payload_type d layer3_offset = do
  fail_if (leb (length d) (layer3_offset + 9)) "Is not an Ipv4 packet"
  first ← index d layer3_offset
  fail_if (not (bit_and first 0xF0 == 0x40)) "Is not an Ipv4 packet"
  b ← index d (layer3_offset + 9)
  ok (from_u8 b)
