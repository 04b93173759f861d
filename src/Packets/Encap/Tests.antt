-- ===== src/Packets/Encap/Tests.antt =====
-- A concrete UDP segment carried and taken out again.
use route_rs.Common.{◌≡◌, none, some, [], ◌∷◌, arith, ok, ◌>>=◌}
use route_rs.Packets.Ethernet.{encap_ipv4}
use route_rs.Packets.Ipv4.Convert.{encap_udp, try_from_ethernet}
use route_rs.Packets.Udp.{try_from_ipv4}
use route_rs.Packets.Udp.Layout.{Header, IsHeader, assemble}
use route_rs.Packets.Encap.{carried_front, try_from-encap_udp}

abbrev header : Header
header = record { src_port = 53; dest_port = 0xC001; len = 10; checksum = 0 }

header-IsHeader : IsHeader header
header-IsHeader = omega arith

try_from-encap_udp_example :
    (encap_udp (assemble (9 ∷ []) header (7 ∷ 8 ∷ []) none none)
      >>= encap_ipv4
      >>= try_from_ethernet
      >>= try_from_ipv4)
    ≡ ok (assemble (carried_front 10) header (7 ∷ 8 ∷ []) (some 0) (some 14))
try_from-encap_udp_example =
    try_from-encap_udp (9 ∷ []) header (7 ∷ 8 ∷ []) none none header-IsHeader (omega arith)
      (omega arith)
