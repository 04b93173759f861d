-- ===== src/Examples/Tests.antt =====
-- The processors of the examples on concrete packets.
use route_rs.Common.{◌≡◌, ◌≢◌, refl, [], ◌∷◌, ◌++◌, replicate, some, ok, arith}
use route_rs.Packets.Types.{PacketData, EthernetFrame, Ipv4Packet, Ipv6Packet}
use route_rs.Packets.Ethernet
use route_rs.Packets.Ipv4
use route_rs.Packets.Ipv6
use route_rs.Examples.StaticRouter.{ipv4_decap, ipv4_encap, ipv6_decap, ipv6_encap}
use route_rs.Examples.StaticRouter
use route_rs.Examples.StaticRouter.Router.{frame_way}
use route_rs.Examples.StaticRouter.Router.Ways.{frame_way_ipv4, frame_way_ipv6}
use route_rs.Examples.StaticRouter.Table.ListTable.{list_table, list_table-IsLookupTable}
use route_rs.Examples.StaticRouter.Passing.{ipv4_passes, ipv6_passes}
use route_rs.Examples.DnsInterceptor.{
  wan, lan, SimplePacket, new, process, classify, dns, other, new_interceptor, intercept,
}
use route_rs.Examples.DnsInterceptor.Answers.{answered, intercept_lem}

-- An Ethernet header, and an IPv4 header without a payload.
abbrev data4 : PacketData
data4 = replicate 12 0xDE ++ (0x08 ∷ 0x00 ∷ 0x45 ∷ 0 ∷ 0 ∷ 20 ∷ replicate 16 7)

abbrev frame4 : EthernetFrame
frame4 = record { data_bytes = data4; layer2_offset = 0; payload_offset = 14 }

abbrev packet4 : Ipv4Packet
packet4 = record {
  data_bytes = data4;
  layer2_offset = some 0;
  layer3_offset = 14;
  payload_offset = 34;
}

frame4_made : Ethernet.from_buffer data4 0 ≡ ok frame4
unfolding Ethernet.from_buffer
frame4_made = refl

packet4_made : ipv4_decap frame4 ≡ ok (some packet4)
unfolding ipv4_decap Ipv4.Convert.try_from_ethernet Ipv4.from_buffer
packet4_made = refl

ipv4_passes_example : ipv4_encap packet4 ≡ ok (some frame4)
ipv4_passes_example = ipv4_passes data4 0 frame4 packet4 frame4_made packet4_made

-- An Ethernet header, and an IPv6 header without a payload.
abbrev data6 : PacketData
data6 = replicate 12 0xDE ++ (0x86 ∷ 0xDD ∷ 0x60 ∷ 0 ∷ 0 ∷ 0 ∷ 0 ∷ 0 ∷ replicate 34 7)

abbrev frame6 : EthernetFrame
frame6 = record { data_bytes = data6; layer2_offset = 0; payload_offset = 14 }

abbrev packet6 : Ipv6Packet
packet6 = record {
  data_bytes = data6;
  layer2_offset = some 0;
  layer3_offset = 14;
  payload_offset = 54;
}

frame6_made : Ethernet.from_buffer data6 0 ≡ ok frame6
unfolding Ethernet.from_buffer
frame6_made = refl

packet6_made : ipv6_decap frame6 ≡ ok (some packet6)
unfolding ipv6_decap Ipv6.Convert.try_from_ethernet Ipv6.from_buffer
packet6_made = refl

ipv6_passes_example : ipv6_encap packet6 ≡ ok (some frame6)
ipv6_passes_example = ipv6_passes data6 0 frame6 packet6 frame6_made packet6_made

-- A packet for a host of the LAN.
abbrev to_lan : SimplePacket
to_lan = record {
  source = record { ip = 16909060; port = 80 };
  destination = record { ip = 167772162; port = 9779 };
  payload = "HTTP";
}

intercept_lem_example :
    (process new (lan, to_lan) ≡ (some (wan, to_lan), new))
    × (to_lan.destination.port ≡ 53 → classify (lan, to_lan) ≡ dns)
    × (to_lan.destination.port ≢ 53 → classify (lan, to_lan) ≡ other)
    × (to_lan.payload ≡ "gateway.route-rs.local"
        → intercept new_interceptor (wan, to_lan) ≡ (some (lan, answered to_lan), new_interceptor))
    × (to_lan.payload ≢ "gateway.route-rs.local"
        → intercept new_interceptor (wan, to_lan) ≡ (some (wan, to_lan), new_interceptor))
    × (intercept new_interceptor (lan, to_lan) ≡ (some (lan, to_lan), new_interceptor))
intercept_lem_example = intercept_lem lan lan to_lan

-- Frames for 10.10.10.1 and for 2001:db8:dead::1.
abbrev routed4 : PacketData
routed4 =
    replicate 12 0xDE
    ++ (0x08 ∷ 0x00 ∷ 0x45 ∷ 0 ∷ 0 ∷ 20 ∷ replicate 12 7)
    ++ (10 ∷ 10 ∷ 10 ∷ 1 ∷ [])

abbrev routed6 : PacketData
routed6 =
    replicate 12 0xDE
    ++ (0x86 ∷ 0xDD ∷ 0x60 ∷ 0 ∷ 0 ∷ 0 ∷ 0 ∷ 0 ∷ replicate 18 7)
    ++ (0x20 ∷ 0x01 ∷ 0x0D ∷ 0xB8 ∷ 0xDE ∷ 0xAD ∷ replicate 9 0)
    ++ (1 ∷ [])

abbrev frame_of : PacketData → EthernetFrame
frame_of d = record { data_bytes = d; layer2_offset = 0; payload_offset = 14 }

abbrev routed_packet4 : Ipv4Packet
routed_packet4 = record {
  data_bytes = routed4;
  layer2_offset = some 0;
  layer3_offset = 14;
  payload_offset = 34;
}

abbrev routed_packet6 : Ipv6Packet
routed_packet6 = record {
  data_bytes = routed6;
  layer2_offset = some 0;
  layer3_offset = 14;
  payload_offset = 54;
}

frame_way_ipv4_example :
    frame_way (list_table 32) (list_table 128) (frame_of routed4) ≡ ok (some (2, frame_of routed4))
unfolding Ethernet.from_buffer StaticRouter.classify Ethernet.ether_type ipv4_decap
    Ipv4.Convert.try_from_ethernet Ipv4.from_buffer Ipv4.dest_addr
frame_way_ipv4_example =
    frame_way_ipv4 (list_table 32) (list_table 128) (list_table-IsLookupTable 32)
      (list_table-IsLookupTable 128) routed4 0 (frame_of routed4) routed_packet4
      (record { octets = 10 ∷ 10 ∷ 10 ∷ 1 ∷ [] }) refl refl refl refl (omega arith)

frame_way_ipv6_example :
    frame_way (list_table 32) (list_table 128) (frame_of routed6) ≡ ok (some (1, frame_of routed6))
unfolding Ethernet.from_buffer StaticRouter.classify Ethernet.ether_type ipv6_decap
    Ipv6.Convert.try_from_ethernet Ipv6.from_buffer Ipv6.dest_addr
frame_way_ipv6_example =
    frame_way_ipv6 (list_table 32) (list_table 128) (list_table-IsLookupTable 32)
      (list_table-IsLookupTable 128) routed6 0 (frame_of routed6) routed_packet6
      (record {
        octets =
            0x20 ∷ 0x01 ∷ 0x0D ∷ 0xB8 ∷ 0xDE ∷ 0xAD ∷ 0 ∷ 0 ∷ 0 ∷ 0 ∷ 0 ∷ 0 ∷ 0 ∷ 0 ∷ 0 ∷ 1 ∷ [];
      })
      refl refl refl refl (omega arith)
