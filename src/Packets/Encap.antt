-- ===== src/Packets/Encap.antt =====
-- A UDP segment carried in an IPv4 packet in an Ethernet frame, and taken out again: ipv4.rs, ethernet.rs
-- and udp.rs together.
pub mod Tests
use route_rs.Common.{
  ℕ, ◌+◌, ◌*◌, ◌/◌, ◌%◌, ◌^◌, ◌≤◌, ◌<◌, ◌≡◌, refl, sym, ap, ◌∙◌, Option, none, some, List, [], ◌∷◌,
  ◌++◌, replicate, ==_eq, ==_self, leb, false, arith, length, Outcome, ok, ◌>>=◌, suffix,
  suffix-append_zero, length-append, le→ltb,
}
use mathlib.Core.List.{append_assoc}
use route_rs.Common.Bytes.{u8, u16, u16_to_be_bytes}
use route_rs.Packets.Types.{Ipv4Packet, EthernetFrame, UdpSegment}
use route_rs.Packets.Protocol.{from_u8, same_protocol}
use route_rs.Packets.Ethernet.{encap_ipv4}
use route_rs.Packets.Ipv4.Layout.{Header, IsHeader, encode, assemble, header_bytes}
use route_rs.Packets.Ipv4.Payload.{packet, IsWhole, ipv4_set_payload}
use route_rs.Packets.Ipv4.Setters.{ipv4_setters}
use route_rs.Packets.Ipv4.Buffer.{from_buffer-encode}
use route_rs.Packets.Ipv4.Convert.{encap_udp, try_from_ethernet}
use route_rs.Packets.Ipv4.{get_ipv4_payload_type}
use route_rs.Packets.Udp.{check_protocol, try_from_ipv4}
use route_rs.Packets.Udp.Layout
use route_rs.Packets.Udp.Layout.{udp_from_buffer}

abbrev zeros : ℕ → List ℕ
zeros n = replicate n 0

-- The header of an empty packet.
abbrev blank : Header
blank = record {
  version = 4;
  ihl = 5;
  dscp = 0;
  ecn = 0;
  total_len = 20;
  identification = 0;
  reserved = 0;
  df = 0;
  mf = 0;
  fragment_offset = 0;
  ttl = 0;
  protocol = 0;
  checksum = 0;
  src = zeros 4;
  dest = zeros 4;
}

blank-IsWhole : IsWhole blank []
blank-IsWhole = omega arith

-- The header of a packet that carries `n` bytes of UDP.
abbrev carrying : ℕ → Header
carrying n = record blank { total_len = 20 + n; protocol = 17 }

carrying-IsHeader : (n : ℕ) → 20 + n < 2 ^ 16 → IsHeader (carrying n)
carrying-IsHeader n h = omega arith

encap_udp_lem :
    (udp : UdpSegment) (bytes : List ℕ)
    → suffix udp.data_bytes udp.layer4_offset ≡ ok bytes
    → 20 + length bytes < 2 ^ 16
    → encap_udp udp ≡ ok (packet [] (carrying (length bytes)) [] bytes none)
unfolding encap_udp
encap_udp_lem udp bytes e fits = rw (e, stored)
  where
    stored : u16 (u16 (length bytes) + 20) ≡ 20 + length bytes
    stored = omega arith

-- The Ethernet header of a new frame, with the type of IPv4.
abbrev front : List ℕ
front = zeros 12 ++ 8 ∷ 0 ∷ []

abbrev carrier : List ℕ → EthernetFrame
carrier bytes = record {
  data_bytes = front ++ encode (carrying (length bytes)) bytes;
  layer2_offset = 0;
  payload_offset = 14;
}

encap_ipv4_lem :
    (bytes : List ℕ)
    → encap_ipv4 (packet [] (carrying (length bytes)) [] bytes none) ≡ ok (carrier bytes)
unfolding encap_ipv4
encap_ipv4_lem bytes = refl

try_from_ethernet_lem :
    (bytes : List ℕ)
    → 20 + length bytes < 2 ^ 16
    → try_from_ethernet (carrier bytes)
      ≡ ok (assemble front (carrying (length bytes)) bytes (some 0) 34)
unfolding try_from_ethernet
try_from_ethernet_lem bytes fits = rw (
  from_buffer-encode front (carrying (length bytes)) bytes (some 0)
      (carrying-IsHeader (length bytes) fits),
  ==_self (20 + length bytes),
)

announces_udp :
    (bytes : List ℕ)
    → check_protocol (front ++ encode (carrying (length bytes)) bytes) (some 14) ≡ ok tt
unfolding check_protocol get_ipv4_payload_type from_u8
announces_udp bytes = rw long
  where
    long : leb (length (front ++ encode (carrying (length bytes)) bytes)) 23 ≡ false
    long = ground arith

-- What precedes the segment in the frame.
abbrev carried_front : ℕ → List ℕ
carried_front n = front ++ header_bytes (carrying n)

-- A UDP segment behind any front, with its header in range, a length field of at most the bytes of
-- the segment, and at most 65507 bytes of body, comes back with the same header and body, behind
-- the new Ethernet and IPv4 headers, from `Ipv4Packet::encap_udp`, `EthernetFrame::encap_ipv4` and
-- the two `try_from` conversions after each other.
pub try_from-encap_udp :
    (pre : List ℕ) (h : Layout.Header) (body : List ℕ) (l2 l3 : Option ℕ)
    → Layout.IsHeader h
    → h.len ≤ 8 + length body
    → 28 + length body < 2 ^ 16
    → (encap_udp (Layout.assemble pre h body l2 l3)
        >>= encap_ipv4
        >>= try_from_ethernet
        >>= try_from_ipv4)
      ≡ ok (
          Layout.assemble (carried_front (length (Layout.encode h body))) h body (some 0) (some 14))
unfolding try_from_ipv4
try_from-encap_udp pre h body l2 l3 v covered fits = rw (
  encap_udp_lem (Layout.assemble pre h body l2 l3) bytes (suffix-append_zero pre bytes)
      (omega arith),
  encap_ipv4_lem bytes,
  try_from_ethernet_lem bytes (omega arith),
  udp_from_buffer (carried_front (length (Layout.encode h body))) h body (some 0) (some 14) v
      (announces_udp bytes),
  le→ltb (8 + length body) h.len covered,
)
  where
    bytes : List ℕ
    bytes = Layout.encode h body
