-- ===== src/Packets/Ipv4/Tests.antt =====
-- The laws of IPv4 packets on concrete packets.
use route_rs.Common.{
  ℕ, ◌+◌, ◌*◌, ◌%◌, ◌<◌, ◌≡◌, ◌⊎◌, ◌↔◌, none, some, List, [], ◌∷◌, ◌++◌, true, false, ◌==◌,
  if◌then◌else◌, arith, length, ok, err, ◌>>=◌,
}
use route_rs.Common.Bytes.{IsBytes}
use route_rs.Packets.Types.{Ipv4Packet}
use route_rs.Packets.Ipv4.{
  from_buffer, total_len, set_src_addr, set_dest_addr, set_protocol, set_ttl, set_dscp, set_ecn,
  set_identification, set_fragment_offset, set_flags, payload, set_payload, set_options,
}
use route_rs.Packets.Ipv4.Checksum.{validate_checksum, set_checksum}
use route_rs.Packets.Ipv4.Layout.{Header, IsHeader, encode, assemble}
use route_rs.Packets.Ipv4.Setters.{ipv4_setters, set_flags_lem}
use route_rs.Packets.Ipv4.Buffer.{ipv4_from_buffer}
use route_rs.Packets.Ipv4.Payload.{
  packet, IsWhole, ipv4_from_buffer-set_payload, payload-set_options_iff,
}
use route_rs.Packets.Ipv4.OnesSum.{others, validate_checksum_lem, validate_checksum-set_checksum}

abbrev pre : List ℕ
pre = 9 ∷ 9 ∷ []

abbrev opts : List ℕ
opts = 1 ∷ 1 ∷ 1 ∷ 0 ∷ []

abbrev body : List ℕ
body = 7 ∷ 8 ∷ []

abbrev address : List ℕ
address = 10 ∷ 0 ∷ 0 ∷ 1 ∷ []

abbrev header : Header
header = record {
  version = 4;
  ihl = 6;
  dscp = 3;
  ecn = 1;
  total_len = 26;
  identification = 0x1234;
  reserved = 0;
  df = 1;
  mf = 0;
  fragment_offset = 300;
  ttl = 64;
  protocol = 17;
  checksum = 0xBEEF;
  src = 192 ∷ 168 ∷ 0 ∷ 1 ∷ [];
  dest = 8 ∷ 8 ∷ 4 ∷ 4 ∷ [];
}

header-IsHeader : IsHeader header
header-IsHeader = omega arith

header-IsWhole : IsWhole header opts
header-IsWhole = omega arith

abbrev sample : Ipv4Packet
sample = packet pre header opts body (some 0)

-- The same packet with another header.
abbrev with : Header → Ipv4Packet
with h = packet pre h opts body (some 0)

ipv4_setters_example :
    (set_dscp sample 70 ≡ ok (with (record header { dscp = 6 })))
    × (set_ecn sample 70 ≡ ok (with (record header { ecn = 2 })))
    × (set_identification sample 70 ≡ ok (with (record header { identification = 70 })))
    × (set_fragment_offset sample 70 ≡ ok (with (record header { fragment_offset = 70 })))
    × (set_ttl sample 70 ≡ ok (with (record header { ttl = 70 })))
    × (set_protocol sample 70 ≡ ok (with (record header { protocol = 70 })))
    × (set_src_addr sample (record { octets = address })
        ≡ ok (with (record header { src = address })))
    × (set_dest_addr sample (record { octets = address })
        ≡ ok (with (record header { dest = address })))
ipv4_setters_example =
    ipv4_setters pre header (opts ++ body) (some 0) 26 header-IsHeader 70
      (record { octets = address }) (omega arith)

set_flags_lem_example :
    set_flags sample false true ≡ ok (with (record header { mf = 1; fragment_offset = 44 }))
set_flags_lem_example =
    set_flags_lem pre header (opts ++ body) (some 0) 26 header-IsHeader false true

abbrev buffer : List ℕ
buffer = pre ++ encode header (opts ++ body)

buffer-IsBytes : IsBytes buffer
buffer-IsBytes = omega arith

ipv4_from_buffer_example :
    ((length buffer < 22)
      × (from_buffer buffer none 2 ≡ err "Data is too short to be an IPv4 Packet"))
    ⊎ ((front : List ℕ) × (h : Header) × (rest : List ℕ) × IsHeader h
        × (length front ≡ 2)
        × (front ++ encode h rest ≡ buffer)
        × (from_buffer buffer none 2 ≡ (
            if h.version == 4
            then if 20 + length rest == h.total_len
              then ok (assemble front h rest none (2 + h.ihl * 4))
              else err "Packet has invalid total length field"
            else err "Packet has incorrect version, is not Ipv4Packet")))
ipv4_from_buffer_example = ipv4_from_buffer buffer none 2 buffer-IsBytes

ipv4_from_buffer-set_payload_example :
    (p : Ipv4Packet) × (set_payload sample (5 ∷ []) ≡ ok p)
    × (from_buffer p.data_bytes (some 0) 2 ≡ ok p)
    × (payload p ≡ ok (5 ∷ []))
    × (total_len p ≡ ok 25)
ipv4_from_buffer-set_payload_example =
    ipv4_from_buffer-set_payload pre header opts body (some 0) (5 ∷ []) header-IsWhole (omega arith)
      (omega arith)

payload-set_options_iff_example : ((set_options sample [] >>= payload) ≡ ok body) ↔ (length pre ≡ 0)
payload-set_options_iff_example =
    payload-set_options_iff pre header opts body (some 0) [] header-IsWhole

octets-IsBytes : IsBytes (header.src ++ (header.dest ++ opts))
octets-IsBytes = omega arith

validate_checksum_lem_example :
    validate_checksum sample ≡ ok ((others header opts + 0xBEEF) % 65535 == 0)
validate_checksum_lem_example =
    validate_checksum_lem pre header opts body (some 0) header-IsWhole octets-IsBytes

validate_checksum-set_checksum_example :
    (c : ℕ) × (set_checksum sample ≡ ok (with (record header { checksum = c })))
    × (validate_checksum (with (record header { checksum = c })) ≡ ok true)
validate_checksum-set_checksum_example =
    validate_checksum-set_checksum pre header opts body (some 0) header-IsWhole octets-IsBytes
