-- ===== src/Packets/Ipv6/Convert.antt =====
-- The conversions of ipv6.rs between packets of different layers.
use route_rs.Common.{none, some, Outcome, err, ◌>>=◌, suffix}
use route_rs.Packets.Types.{EthernetFrame, Ipv6Packet, TcpSegment, UdpSegment}
use route_rs.Packets.Ipv6.{from_buffer, empty, set_payload, set_next_header}

unfoldable pub encap_udp : UdpSegment → Outcome Ipv6Packet
unfolding empty set_payload set_next_header
encap_udp udp = do
  packet ← empty
  bytes ← suffix udp.data_bytes udp.layer4_offset
  filled ← set_payload packet bytes
  set_next_header filled 0x11

unfoldable pub encap_tcp : TcpSegment → Outcome Ipv6Packet
unfolding empty set_payload set_next_header
encap_tcp tcp = do
  packet ← empty
  bytes ← suffix tcp.data_bytes tcp.layer4_offset
  filled ← set_payload packet bytes
  set_next_header filled 0x06

-- `TryFrom<EthernetFrame>`
unfoldable pub try_from_ethernet : EthernetFrame → Outcome Ipv6Packet
unfolding from_buffer
try_from_ethernet frame =
    from_buffer frame.data_bytes (some frame.layer2_offset) frame.payload_offset

-- `TryFrom<TcpSegment>`
unfoldable pub try_from_tcp : TcpSegment → Outcome Ipv6Packet
unfolding from_buffer
try_from_tcp segment = elim segment.layer3_offset [
  | some layer3_offset ↦ from_buffer segment.data_bytes segment.layer2_offset layer3_offset
  | none ↦ err "TCP segment does not contain IP Header"
]

-- `TryFrom<UdpSegment>`
unfoldable pub try_from_udp : UdpSegment → Outcome Ipv6Packet
unfolding from_buffer
try_from_udp segment = elim segment.layer3_offset [
  | some layer3_offset ↦ from_buffer segment.data_bytes segment.layer2_offset layer3_offset
  | none ↦ err "UDP segment does not contain IP Header"
]
