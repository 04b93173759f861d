-- ===== src/Packets/Udp.antt =====
-- `UdpSegment` of route-rs-packets/src/udp.rs. A method that changes the segment returns the new one,
-- and an index out of range panics. The laws are in the modules below.
pub mod Layout
pub mod Tests
use route_rs.Common.{
  ℕ, ◌+◌, ◌/◌, ◌^◌, Option, none, some, List, [], ◌++◌, Bool, not, ltb, ◌==◌, if◌then◌else◌,
  same_bytes, length, take, Outcome, ok, err, ◌>>=◌, ◌>>◌, fail_if, unwrap, index, set_index,
  suffix, slice_inclusive, copy_inclusive, resize, bit_and,
}
use route_rs.Common.Bytes.{u16_from_be_bytes, u16_to_be_bytes}
use route_rs.Packets.Types.{PacketData, Ipv4Packet, Ipv6Packet, UdpSegment}
use route_rs.Packets.Protocol.{IpProtocol, same_protocol}
use route_rs.Packets.Ipv4.{get_ipv4_payload_type}
use route_rs.Packets.Ipv6.Extension.{get_ipv6_payload_type}

-- The protocol that the IP header at an offset announces: the `match` on its version.
unfoldable pub ip_protocol : PacketData → ℕ → Outcome IpProtocol
ip_protocol d layer3_offset = do
  first ← index d layer3_offset
  let ip_version = bit_and first 0xF0 / 2 ^ 4
  if ip_version == 4
      then unwrap (get_ipv4_payload_type d layer3_offset)
      else if ip_version == 6
      then unwrap (get_ipv6_payload_type d layer3_offset)
      else err "IP Header has invalid version number"

-- The test of the IP header, where there is one.
unfoldable pub check_protocol : PacketData → Option ℕ → Outcome (Unit {0})
unfolding ip_protocol same_protocol
check_protocol d none = ok tt
check_protocol d (some layer3_offset) = do
  protocol ← ip_protocol d layer3_offset
  fail_if (not (same_protocol protocol IpProtocol.udp)) "Protocol is incorrect, since it isn't UDP"

unfoldable pub from_buffer : PacketData → Option ℕ → Option ℕ → ℕ → Outcome UdpSegment
from_buffer d layer2_offset layer3_offset layer4_offset = do
  fail_if (ltb (length d) (layer4_offset + 8)) "Segment to short to contain valid IP Header"
  check_protocol d layer3_offset
  len ← slice_inclusive d (layer4_offset + 4) (layer4_offset + 5) >>= u16_from_be_bytes
  fail_if (ltb (length d) (layer4_offset + len))
      "Segment is not correct length as given by it's length field"
  ok (record {
    data_bytes = d;
    layer2_offset = layer2_offset;
    layer3_offset = layer3_offset;
    layer4_offset = layer4_offset;
    payload_offset = layer4_offset + 8;
  })

unfoldable pub empty : Outcome UdpSegment
unfolding from_buffer check_protocol
empty = do d ← set_index (resize [] 8 0) 5 8; unwrap (from_buffer d none none 0)

module _ (self : UdpSegment) where
  open self use {data_bytes, layer4_offset, payload_offset}

  unfoldable pub src_port : Outcome ℕ
  src_port = slice_inclusive data_bytes layer4_offset (layer4_offset + 1) >>= u16_from_be_bytes

  unfoldable pub set_src_port : ℕ → Outcome UdpSegment
  set_src_port port = do
    d ← copy_inclusive data_bytes layer4_offset (layer4_offset + 1) (u16_to_be_bytes port)
    ok (record self { data_bytes = d })

  unfoldable pub dest_port : Outcome ℕ
  dest_port =
      slice_inclusive data_bytes (layer4_offset + 2) (layer4_offset + 3) >>= u16_from_be_bytes

  unfoldable pub set_dest_port : ℕ → Outcome UdpSegment
  set_dest_port port = do
    d ← copy_inclusive data_bytes (layer4_offset + 2) (layer4_offset + 3) (u16_to_be_bytes port)
    ok (record self { data_bytes = d })

  -- `length` in the source
  unfoldable pub length_field : Outcome ℕ
  length_field =
      slice_inclusive data_bytes (layer4_offset + 4) (layer4_offset + 5) >>= u16_from_be_bytes

  unfoldable pub checksum : Outcome ℕ
  checksum =
      slice_inclusive data_bytes (layer4_offset + 6) (layer4_offset + 7) >>= u16_from_be_bytes

  unfoldable pub set_checksum : ℕ → Outcome UdpSegment
  set_checksum checksum = do
    d ← copy_inclusive data_bytes (layer4_offset + 6) (layer4_offset + 7) (u16_to_be_bytes checksum)
    ok (record self { data_bytes = d })

  unfoldable pub payload : Outcome (List ℕ)
  payload = suffix data_bytes (layer4_offset + 8)

  unfoldable pub set_payload : List ℕ → UdpSegment
  set_payload payload = record self { data_bytes = take payload_offset data_bytes ++ payload }

-- `PartialEq`: the bytes from the layer 4 header on.
unfoldable pub eq : UdpSegment → UdpSegment → Outcome Bool
eq self other = do
  a ← suffix self.data_bytes self.layer4_offset
  b ← suffix other.data_bytes other.layer4_offset
  ok (same_bytes a b)

-- `TryFrom<Ipv4Packet>`
unfoldable pub try_from_ipv4 : Ipv4Packet → Outcome UdpSegment
unfolding from_buffer check_protocol
try_from_ipv4 packet =
    from_buffer packet.data_bytes packet.layer2_offset (some packet.layer3_offset)
      packet.payload_offset

-- `TryFrom<Ipv6Packet>`
unfoldable pub try_from_ipv6 : Ipv6Packet → Outcome UdpSegment
unfolding from_buffer check_protocol
try_from_ipv6 packet =
    from_buffer packet.data_bytes packet.layer2_offset (some packet.layer3_offset)
      packet.payload_offset
