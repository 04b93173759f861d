-- ===== src/Packets/Udp/Tests.antt =====
-- The laws of UDP segments on a concrete segment.
use route_rs.Common.{◌≡◌, refl, none, [], ◌∷◌, ◌++◌, arith, ok}
use route_rs.Packets.Types.{UdpSegment}
use route_rs.Packets.Udp.{from_buffer, check_protocol}
use route_rs.Packets.Udp.Layout.{Header, IsHeader, encode, assemble, udp_from_buffer}

abbrev header : Header
header = record { src_port = 53; dest_port = 0xC001; len = 10; checksum = 0xABCD }

header-IsHeader : IsHeader header
header-IsHeader = omega arith

abbrev segment : UdpSegment
segment = assemble (1 ∷ 2 ∷ []) header (7 ∷ 8 ∷ []) none none

no_ip_header : check_protocol ((1 ∷ 2 ∷ []) ++ encode header (7 ∷ 8 ∷ [])) none ≡ ok tt
unfolding check_protocol
no_ip_header = refl

udp_from_buffer_example :
    from_buffer ((1 ∷ 2 ∷ []) ++ encode header (7 ∷ 8 ∷ [])) none none 2 ≡ ok segment
udp_from_buffer_example =
    udp_from_buffer (1 ∷ 2 ∷ []) header (7 ∷ 8 ∷ []) none none header-IsHeader no_ip_header
