-- ===== src/Packets/Ethernet.antt =====
-- `EthernetFrame` of route-rs-packets/src/ethernet.rs. A method that changes the frame returns the
-- new one. The laws are in the modules below.
pub mod Layout
pub mod Tests
use route_rs.Common.{
  ℕ, ◌+◌, none, some, List, [], ◌++◌, Bool, ltb, same_bytes, length, take, Outcome, ok, err, ◌>>=◌,
  ◌>>◌, fail_if, unwrap, suffix, slice, copy_from_slice, to_array, resize,
}
use route_rs.Common.Bytes.{u16_from_be_bytes, u16_to_be_bytes}
use route_rs.Packets.Types.{
  PacketData, MacAddr, EthernetFrame, Ipv4Packet, Ipv6Packet, TcpSegment, UdpSegment,
}

unfoldable pub from_buffer : PacketData → ℕ → Outcome EthernetFrame
from_buffer frame layer2_offset = do
  fail_if (ltb (length frame) 14) "Frame is less than the minimum of 14 bytes"
  ok (record {
    data_bytes = frame;
    layer2_offset = layer2_offset;
    payload_offset = 14 + layer2_offset;
  })

unfoldable pub empty : Outcome EthernetFrame
unfolding from_buffer
empty = unwrap (from_buffer (resize [] 14 0) 0)

unfoldable pub dest_mac : EthernetFrame → Outcome MacAddr
dest_mac self = do bytes ← slice self.data_bytes 0 6 >>= to_array 6; ok (record { bytes = bytes })

unfoldable pub src_mac : EthernetFrame → Outcome MacAddr
src_mac self = do bytes ← slice self.data_bytes 6 12 >>= to_array 6; ok (record { bytes = bytes })

-- `mac.bytes[..6]` is the whole array.
unfoldable pub set_dest_mac : EthernetFrame → MacAddr → Outcome EthernetFrame
set_dest_mac self mac = do
  bytes ← slice mac.bytes 0 6
  d ← copy_from_slice self.data_bytes 0 6 bytes
  ok (record self { data_bytes = d })

unfoldable pub set_src_mac : EthernetFrame → MacAddr → Outcome EthernetFrame
set_src_mac self mac = do
  bytes ← slice mac.bytes 0 6
  d ← copy_from_slice self.data_bytes 6 12 bytes
  ok (record self { data_bytes = d })

unfoldable pub ether_type : EthernetFrame → Outcome ℕ
ether_type self = slice self.data_bytes 12 14 >>= u16_from_be_bytes

unfoldable pub set_ether_type : EthernetFrame → ℕ → Outcome EthernetFrame
set_ether_type self ether_type = do
  d ← copy_from_slice self.data_bytes 12 14 (u16_to_be_bytes ether_type)
  ok (record self { data_bytes = d })

unfoldable pub payload : EthernetFrame → Outcome (List ℕ)
payload self = suffix self.data_bytes self.payload_offset

-- `reserve_exact` only allocates.
unfoldable pub set_payload : EthernetFrame → List ℕ → EthernetFrame
set_payload self payload = record self {
  data_bytes = take self.payload_offset self.data_bytes ++ payload;
}

unfoldable pub encap_ipv4 : Ipv4Packet → Outcome EthernetFrame
unfolding empty set_payload set_ether_type
encap_ipv4 ipv4 = do
  frame ← empty
  bytes ← suffix ipv4.data_bytes ipv4.layer3_offset
  set_ether_type (set_payload frame bytes) 0x0800

unfoldable pub encap_ipv6 : Ipv6Packet → Outcome EthernetFrame
unfolding empty set_payload set_ether_type
encap_ipv6 ipv6 = do
  frame ← empty
  bytes ← suffix ipv6.data_bytes ipv6.layer3_offset
  set_ether_type (set_payload frame bytes) 0x86DD

-- `PartialEq`: the bytes from the layer 2 header on.
unfoldable pub eq : EthernetFrame → EthernetFrame → Outcome Bool
eq self other = do
  a ← suffix self.data_bytes self.layer2_offset
  b ← suffix other.data_bytes other.layer2_offset
  ok (same_bytes a b)

-- `TryFrom<TcpSegment>`
unfoldable pub try_from_tcp : TcpSegment → Outcome EthernetFrame
unfolding from_buffer
try_from_tcp segment = elim segment.layer2_offset [
  | some layer2_offset ↦ from_buffer segment.data_bytes layer2_offset
  | none ↦ err "TCP Segment does not contain an Ethernet Frame"
]

-- `TryFrom<UdpSegment>`
unfoldable pub try_from_udp : UdpSegment → Outcome EthernetFrame
unfolding from_buffer
try_from_udp segment = elim segment.layer2_offset [
  | some layer2_offset ↦ from_buffer segment.data_bytes layer2_offset
  | none ↦ err "UDP Segment does not contain an Ethernet Frame"
]

-- `TryFrom<Ipv4Packet>`
unfoldable pub try_from_ipv4 : Ipv4Packet → Outcome EthernetFrame
unfolding from_buffer
try_from_ipv4 packet = elim packet.layer2_offset [
  | some layer2_offset ↦ from_buffer packet.data_bytes layer2_offset
  | none ↦ err "IPv4 Packet does not contain an Ethernet Frame"
]

-- `TryFrom<Ipv6Packet>`
unfoldable pub try_from_ipv6 : Ipv6Packet → Outcome EthernetFrame
unfolding from_buffer
try_from_ipv6 packet = elim packet.layer2_offset [
  | some layer2_offset ↦ from_buffer packet.data_bytes layer2_offset
  | none ↦ err "Ipv6 Packet does not contain an Ethernet Frame"
]
