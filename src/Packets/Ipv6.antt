-- ===== src/Packets/Ipv6.antt =====
-- `Ipv6Packet` of route-rs-packets/src/ipv6.rs. A method that changes the packet returns the new one,
-- and an index out of range panics. The laws are in the modules below.
pub mod Layout
pub mod Tests
pub mod Fields
pub mod Payload
pub mod Chain
pub mod Fuel
pub mod Extend
pub mod Extension
pub mod Convert
use route_rs.Common.{
  ℕ, zero, suc, ◌+◌, ◌-◌, ◌*◌, ◌/◌, ◌^◌, Option, none, some, List, [], ◌∷◌, ◌++◌, Bool, true, false,
  not, ltb, leb, ◌==◌, if◌then◌else◌, same_bytes, length, take, Outcome, ok, err, panic, ◌>>=◌,
  ◌>>◌, fail_if, map_ok, unwrap, index, set_index, modify, suffix, slice, slice_inclusive,
  copy_from_slice, copy_inclusive, to_array, resize, replicate, bit_and, bit_or,
}
use route_rs.Common.Bytes.{
  u8, u16, u32, u16_from_be_bytes, u16_to_be_bytes, u32_from_be_bytes, u32_to_be_bytes,
}
use route_rs.Packets.Types.{
  PacketData, MacAddr, Ipv4Addr, Ipv6Addr, EthernetFrame, Ipv4Packet, Ipv6Packet, TcpSegment,
  UdpSegment, ArpFrame, arp_ether_type,
}
use route_rs.Packets.Protocol.{IpProtocol, from_u8, to_u8, same_protocol}

unfoldable pub from_buffer : PacketData → Option ℕ → ℕ → Outcome Ipv6Packet
from_buffer d layer2_offset layer3_offset = do
  fail_if (ltb (length d) (layer3_offset + 40)) "Packet is too short to be an Ipv6Packet"
  first ← index d layer3_offset
  let version = bit_and first 0xF0 / 2 ^ 4
  fail_if (not (version == 6)) "Packet has incorrect version, is not Ipv6Packet"
  payload_len ← slice_inclusive d (layer3_offset + 4) (layer3_offset + 5) >>= u16_from_be_bytes
  let packet_len = length d
  fail_if (ltb packet_len (payload_len + layer3_offset + 40)) "Packet has invalid payload len field"
  ok (record {
    data_bytes = d;
    layer2_offset = layer2_offset;
    layer3_offset = layer3_offset;
    payload_offset = packet_len - payload_len;
  })

unfoldable pub empty : Outcome Ipv6Packet
unfolding from_buffer
empty = unwrap (from_buffer (resize (0x60 ∷ []) 40 0) none 0)

module _ (self : Ipv6Packet) where
  open self use {data_bytes, layer3_offset, payload_offset}

  -- `>>` binds tighter than `&`: the mask is `0xF0 >> 4`.
  unfoldable pub traffic_class : Outcome ℕ
  traffic_class = do
    a ← index data_bytes layer3_offset
    b ← index data_bytes (layer3_offset + 1)
    ok (u8 (u8 (bit_and a 0x0F * 2 ^ 4) + bit_and b (0xF0 / 2 ^ 4)))

  unfoldable pub set_traffic_class : ℕ → Outcome Ipv6Packet
  set_traffic_class traffic_class = do
    d ← modify data_bytes layer3_offset (λ b. bit_and b 0xF0)
    e ← modify d (layer3_offset + 1) (λ b. bit_and b 0x0F)
    f ← modify e layer3_offset (λ b. bit_or b (traffic_class / 2 ^ 4))
    g ← modify f (layer3_offset + 1) (λ b. bit_or b (u8 (traffic_class * 2 ^ 4)))
    ok (record self { data_bytes = g })

  unfoldable pub flow_label : Outcome ℕ
  flow_label = do
    a ← index data_bytes (layer3_offset + 1)
    b ← index data_bytes (layer3_offset + 2)
    c ← index data_bytes (layer3_offset + 3)
    u32_from_be_bytes (0 ∷ bit_and a 0x0F ∷ b ∷ c ∷ [])

  unfoldable pub set_flow_label : ℕ → Outcome Ipv6Packet
  set_flow_label flow_label = do
    d ← modify data_bytes (layer3_offset + 1) (λ b. bit_and b 0xF0)
    e ← modify d (layer3_offset + 1) (λ b. bit_or b (u8 (bit_and flow_label 0x000F_FFFF / 2 ^ 16)))
    f ← copy_inclusive e (layer3_offset + 2) (layer3_offset + 3) (u16_to_be_bytes (u16 flow_label))
    ok (record self { data_bytes = f })

  unfoldable pub payload_length : Outcome ℕ
  payload_length =
      slice_inclusive data_bytes (layer3_offset + 4) (layer3_offset + 5) >>= u16_from_be_bytes

  unfoldable pub next_header : Outcome IpProtocol
  next_header = do b ← index data_bytes (layer3_offset + 6); ok (from_u8 b)

  unfoldable pub set_next_header : ℕ → Outcome Ipv6Packet
  set_next_header header = do
    d ← set_index data_bytes (layer3_offset + 6) header
    ok (record self { data_bytes = d })

  unfoldable pub hop_limit : Outcome ℕ
  hop_limit = index data_bytes (layer3_offset + 7)

  unfoldable pub set_hop_limit : ℕ → Outcome Ipv6Packet
  set_hop_limit hop_limit = do
    d ← set_index data_bytes (layer3_offset + 7) hop_limit
    ok (record self { data_bytes = d })

  unfoldable pub payload : Outcome (List ℕ)
  payload = suffix data_bytes payload_offset

  unfoldable pub set_payload : List ℕ → Outcome Ipv6Packet
  set_payload payload = do
    let cut = take payload_offset data_bytes
    let payload_len = u16_to_be_bytes (u16 (length payload))
    d ← copy_from_slice cut (layer3_offset + 4) (layer3_offset + 6) payload_len
    let whole = d ++ payload
    ok (record self { data_bytes = whole; payload_offset = length whole - length payload })

  unfoldable pub src_addr : Outcome Ipv6Addr
  src_addr = do
    octets ← slice data_bytes (layer3_offset + 8) (layer3_offset + 24) >>= to_array 16
    ok (record { octets = octets })

  unfoldable pub dest_addr : Outcome Ipv6Addr
  dest_addr = do
    octets ← slice data_bytes (layer3_offset + 24) (layer3_offset + 40) >>= to_array 16
    ok (record { octets = octets })

  unfoldable pub set_src_addr : Ipv6Addr → Outcome Ipv6Packet
  set_src_addr addr = do
    d ← copy_from_slice data_bytes (layer3_offset + 8) (layer3_offset + 24) addr.octets
    ok (record self { data_bytes = d })

  unfoldable pub set_dest_addr : Ipv6Addr → Outcome Ipv6Packet
  set_dest_addr addr = do
    d ← copy_from_slice data_bytes (layer3_offset + 24) (layer3_offset + 40) addr.octets
    ok (record self { data_bytes = d })

-- `PartialEq`: the bytes from the layer 3 header on.
unfoldable pub eq : Ipv6Packet → Ipv6Packet → Outcome Bool
eq self other = do
  a ← suffix self.data_bytes self.layer3_offset
  b ← suffix other.data_bytes other.layer3_offset
  ok (same_bytes a b)
