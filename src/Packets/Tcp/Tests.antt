-- ===== src/Packets/Tcp/Tests.antt =====
-- The laws of TCP segments on a concrete segment.
use route_rs.Common.{◌≡◌, refl, none, [], ◌∷◌, ◌++◌, arith, ok}
use route_rs.Packets.Types.{TcpSegment}
use route_rs.Packets.Tcp.{check_protocol, set_acknowledgment_number}
use route_rs.Packets.Tcp.Layout.{Header, IsHeader, encode, assemble, set_acknowledgment_number_lem}

abbrev header : Header
header = record {
  src_port = 443;
  dest_port = 0xC001;
  sequence = 0xDEAD_BEEF;
  acknowledgment = 0x0102_0304;
  offset = 5;
  low_bits = 1;
  bits = 0x12;
  window = 512;
  checksum = 0xABCD;
  urgent = 7;
}

header-IsHeader : IsHeader header
header-IsHeader = omega arith

-- The segment with another header.
abbrev with : Header → TcpSegment
with h = assemble (1 ∷ 2 ∷ []) h (7 ∷ 8 ∷ []) none none 22

set_acknowledgment_number_lem_example :
    set_acknowledgment_number (with header) 9 ≡ ok (with (record header { sequence = 9 }))
set_acknowledgment_number_lem_example =
    set_acknowledgment_number_lem (1 ∷ 2 ∷ []) header (7 ∷ 8 ∷ []) none none 22 9

no_ip_header : check_protocol ((1 ∷ 2 ∷ []) ++ encode header (7 ∷ 8 ∷ [])) none ≡ ok tt
unfolding check_protocol
no_ip_header = refl
