-- ===== src/Packets/Tcp.antt =====
-- `TcpSegment` of route-rs-packets/src/tcp.rs. A method that changes the segment returns the new one,
-- and an index out of range panics. The laws are in the modules below.
pub mod Layout
pub mod Tests
use route_rs.Common.{
  ℕ, ◌+◌, ◌*◌, ◌/◌, ◌^◌, Option, none, some, List, [], ◌++◌, Bool, not, ltb, leb, ◌==◌,
  if◌then◌else◌, same_bytes, length, take, Outcome, ok, err, ◌>>=◌, ◌>>◌, fail_if, map_ok, unwrap,
  index, set_index, modify, suffix, slice, slice_inclusive, copy_inclusive, resize, bit_and, bit_or,
}
use route_rs.Common.Bytes.{
  u8, u16_from_be_bytes, u16_to_be_bytes, u32_from_be_bytes, u32_to_be_bytes,
}
use route_rs.Packets.Types.{PacketData, Ipv4Packet, Ipv6Packet, TcpSegment}
use route_rs.Packets.Protocol.{IpProtocol, same_protocol}
use route_rs.Packets.Ipv4.{get_ipv4_payload_type}
use route_rs.Packets.Ipv6.Extension.{get_ipv6_payload_type}

-- The protocol that the IP header at an offset announces: the `match` on its version.
unfoldable pub ip_protocol : PacketData → ℕ → Outcome IpProtocol
ip_protocol d layer3_offset = do
  first ← index d layer3_offset
  let ip_version = bit_and first 0xF0 / 2 ^ 4
  if ip_version == 4
      then unwrap (get_ipv4_payload_type d layer3_offset)
      else if ip_version == 6
      then unwrap (get_ipv6_payload_type d layer3_offset)
      else err "IP Header has invalid version number"

-- The test of the IP header, where there is one.
unfoldable pub check_protocol : PacketData → Option ℕ → Outcome (Unit {0})
unfolding ip_protocol same_protocol
check_protocol d none = ok tt
check_protocol d (some layer3_offset) = do
  protocol ← ip_protocol d layer3_offset
  fail_if (not (same_protocol protocol IpProtocol.tcp)) "Protocol is incorrect, since it isn't six"

unfoldable pub from_buffer : PacketData → Option ℕ → Option ℕ → ℕ → Outcome TcpSegment
from_buffer d layer2_offset layer3_offset layer4_offset = do
  fail_if (ltb (length d) (layer4_offset + 20)) "Segment to short to contain valid TCP Header"
  check_protocol d layer3_offset
  b ← index d (layer4_offset + 12)
  ok (record {
    data_bytes = d;
    layer2_offset = layer2_offset;
    layer3_offset = layer3_offset;
    layer4_offset = layer4_offset;
    payload_offset = layer4_offset + bit_and b 0xF0 / 2 ^ 4 * 4;
  })

unfoldable pub empty : Outcome TcpSegment
unfolding from_buffer check_protocol
empty = do d ← set_index (resize [] 20 0) 12 0x50; unwrap (from_buffer d none none 0)

module _ (self : TcpSegment) where
  open self use {data_bytes, layer4_offset, payload_offset}

  -- `u16::from_be_bytes` and the copy of `to_be_bytes`, at a field of the header
  unfoldable pub get_u16 : ℕ → ℕ → Outcome ℕ
  get_u16 a b =
      slice_inclusive data_bytes (layer4_offset + a) (layer4_offset + b) >>= u16_from_be_bytes

  unfoldable pub put_bytes : ℕ → ℕ → List ℕ → Outcome TcpSegment
  put_bytes a b bytes = do
    d ← copy_inclusive data_bytes (layer4_offset + a) (layer4_offset + b) bytes
    ok (record self { data_bytes = d })

  unfoldable pub src_port : Outcome ℕ
  src_port = slice_inclusive data_bytes layer4_offset (layer4_offset + 1) >>= u16_from_be_bytes

  unfoldable pub set_src_port : ℕ → Outcome TcpSegment
  set_src_port port = do
    d ← copy_inclusive data_bytes layer4_offset (layer4_offset + 1) (u16_to_be_bytes port)
    ok (record self { data_bytes = d })

  unfoldable pub dest_port : Outcome ℕ
  unfolding get_u16
  dest_port = get_u16 2 3

  unfoldable pub set_dest_port : ℕ → Outcome TcpSegment
  unfolding put_bytes
  set_dest_port port = put_bytes 2 3 (u16_to_be_bytes port)

  unfoldable pub sequence_number : Outcome ℕ
  sequence_number =
      slice_inclusive data_bytes (layer4_offset + 4) (layer4_offset + 7) >>= u32_from_be_bytes

  unfoldable pub set_sequence_number : ℕ → Outcome TcpSegment
  unfolding put_bytes
  set_sequence_number sequence_number = put_bytes 4 7 (u32_to_be_bytes sequence_number)

  unfoldable pub acknowledgment_number : Outcome ℕ
  acknowledgment_number =
      slice_inclusive data_bytes (layer4_offset + 8) (layer4_offset + 11) >>= u32_from_be_bytes

  unfoldable pub set_acknowledgment_number : ℕ → Outcome TcpSegment
  unfolding put_bytes
  set_acknowledgment_number acknowledgment_number =
      put_bytes 4 7 (u32_to_be_bytes acknowledgment_number)

  unfoldable pub data_offset : Outcome ℕ
  data_offset = do b ← index data_bytes (layer4_offset + 12); ok (bit_and b 0xF0 / 2 ^ 4)

  unfoldable pub set_data_offset : ℕ → Outcome TcpSegment
  set_data_offset data_offset = do
    d ← modify data_bytes (layer4_offset + 12) (λ b. bit_and b 0xF0)
    e ← modify d (layer4_offset + 12) (λ b. bit_or b (u8 (bit_and (data_offset / 4 * 2 ^ 4) 0xF0)))
    ok (record self { data_bytes = e; payload_offset = data_offset })

  unfoldable pub control_bits : Outcome ℕ
  unfolding get_u16
  control_bits = do bits ← get_u16 12 13; ok (bit_and bits 0x01FF)

  unfoldable pub set_control_bits : ℕ → Outcome TcpSegment
  set_control_bits control_bits = do
    d ← modify data_bytes (layer4_offset + 12) (λ b. bit_and b 0xFE)
    e ← modify d (layer4_offset + 12) (λ b. bit_or b (u8 (bit_and (control_bits / 2 ^ 8) 0x01)))
    f ← set_index e (layer4_offset + 13) (u8 (bit_and control_bits 0x00FF))
    ok (record self { data_bytes = f })

  unfoldable pub window_size : Outcome ℕ
  unfolding get_u16
  window_size = get_u16 14 15

  unfoldable pub set_window_size : ℕ → Outcome TcpSegment
  unfolding put_bytes
  set_window_size window_size = put_bytes 14 15 (u16_to_be_bytes window_size)

  unfoldable pub checksum : Outcome ℕ
  unfolding get_u16
  checksum = get_u16 16 17

  unfoldable pub set_checksum : ℕ → Outcome TcpSegment
  unfolding put_bytes
  set_checksum checksum = put_bytes 16 17 (u16_to_be_bytes checksum)

  unfoldable pub urgent_pointer : Outcome ℕ
  unfolding get_u16
  urgent_pointer = get_u16 18 19

  unfoldable pub set_urgent_pointer : ℕ → Outcome TcpSegment
  unfolding put_bytes
  set_urgent_pointer urgent_pointer = put_bytes 18 19 (u16_to_be_bytes urgent_pointer)

  unfoldable pub options : Outcome (Option (List ℕ))
  unfolding data_offset
  options = do
    n ← data_offset
    let bytes = slice data_bytes (layer4_offset + 20) payload_offset
    if leb n 5 then ok none else map_ok some bytes

  unfoldable pub payload : Outcome (List ℕ)
  payload = suffix data_bytes payload_offset

  unfoldable pub set_payload : List ℕ → TcpSegment
  set_payload payload = record self { data_bytes = take payload_offset data_bytes ++ payload }

unfoldable pub set_options : TcpSegment → List ℕ → Outcome TcpSegment
unfolding set_data_offset
set_options self options = do
  payload ← suffix self.data_bytes self.payload_offset
  let head = take self.payload_offset self.data_bytes
  let kept = take (self.layer4_offset + 20) head
  set_data_offset (record self { data_bytes = kept ++ (options ++ payload) }) (length options + 20)

-- `PartialEq`: the bytes from the layer 4 header on.
unfoldable pub eq : TcpSegment → TcpSegment → Outcome Bool
eq self other = do
  a ← suffix self.data_bytes self.layer4_offset
  b ← suffix other.data_bytes other.layer4_offset
  ok (same_bytes a b)

-- `TryFrom<Ipv4Packet>`
unfoldable pub try_from_ipv4 : Ipv4Packet → Outcome TcpSegment
unfolding from_buffer check_protocol
try_from_ipv4 packet =
    from_buffer packet.data_bytes packet.layer2_offset (some packet.layer3_offset)
      packet.payload_offset

-- `TryFrom<Ipv6Packet>`
unfoldable pub try_from_ipv6 : Ipv6Packet → Outcome TcpSegment
unfolding from_buffer check_protocol
try_from_ipv6 packet =
    from_buffer packet.data_bytes packet.layer2_offset (some packet.layer3_offset)
      packet.payload_offset
