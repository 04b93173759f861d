-- ===== src/Packets/Ipv4/Convert.antt =====
-- The conversions of ipv4.rs between packets of different layers.
use route_rs.Common.{none, some, Outcome, err, ◌>>=◌, suffix}
use route_rs.Packets.Types.{EthernetFrame, Ipv4Packet, TcpSegment, UdpSegment}
use route_rs.Packets.Ipv4.{from_buffer, empty, set_payload, set_protocol}

unfoldable pub encap_udp : UdpSegment → Outcome Ipv4Packet
unfolding empty set_payload set_protocol
encap_udp udp = do
  packet ← empty
  bytes ← suffix udp.data_bytes udp.layer4_offset
  filled ← set_payload packet bytes
  set_protocol filled 0x11

unfoldable pub encap_tcp : TcpSegment → Outcome Ipv4Packet
unfolding empty set_payload set_protocol
encap_tcp tcp = do
  packet ← empty
  bytes ← suffix tcp.data_bytes tcp.layer4_offset
  filled ← set_payload packet bytes
  set_protocol filled 0x06

-- `TryFrom<EthernetFrame>`
unfoldable pub try_from_ethernet : EthernetFrame → Outcome Ipv4Packet
unfolding from_buffer
try_from_ethernet frame =
    from_buffer frame.data_bytes (some frame.layer2_offset) frame.payload_offset

-- `TryFrom<TcpSegment>`
unfoldable pub try_from_tcp : TcpSegment → Outcome Ipv4Packet
unfolding from_buffer
try_from_tcp segment = elim segment.layer3_offset [
  | some layer3_offset ↦ from_buffer segment.data_bytes segment.layer2_offset layer3_offset
  | none ↦ err "TCP Segment does not contain an IP Packet"
]

-- `TryFrom<UdpSegment>`
unfoldable pub try_from_udp : UdpSegment → Outcome Ipv4Packet
unfolding from_buffer
try_from_udp segment = elim segment.layer3_offset [
  | some layer3_offset ↦ from_buffer segment.data_bytes segment.layer2_offset layer3_offset
  | none ↦ err "UDP Segment does not contain an IP Packet"
]
