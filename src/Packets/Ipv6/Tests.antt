-- ===== src/Packets/Ipv6/Tests.antt =====
-- The laws of IPv6 packets on concrete packets.
use route_rs.Common.{
  ℕ, ◌%◌, ◌/◌, ◌≡◌, ◌⊎◌, ◌↔◌, refl, none, some, List, [], ◌∷◌, ◌++◌, arith, length, replicate, ok,
  err, ◌>>=◌,
}
use route_rs.Packets.Types.{Ipv6Packet}
use route_rs.Packets.Protocol.{IpProtocol, from_u8}
use route_rs.Packets.Ipv6.{
  from_buffer, traffic_class, set_traffic_class, set_flow_label, set_next_header, set_hop_limit,
  set_src_addr, set_dest_addr, payload, set_payload,
}
use route_rs.Packets.Ipv6.Extension.{
  is_extension, extension_headers, set_extension_headers, get_ipv6_payload_type,
}
use route_rs.Packets.Ipv6.Layout.{Header, IsHeader, encode, assemble}
use route_rs.Packets.Ipv6.Fields.{traffic_class_iff, ipv6_setters}
use route_rs.Packets.Ipv6.Payload.{packet, ipv6_from_buffer-encode, ipv6_from_buffer-set_payload}
use route_rs.Packets.Ipv6.Extend.{joined, payload-set_extension_headers_iff}
use route_rs.Packets.Ipv6.Chain.{
  Ext, bytes_of, each_bytes, IsChain, get_ipv6_payload_type_total, extension_headers-chain,
}

abbrev pre : List ℕ
pre = 9 ∷ 9 ∷ []

abbrev address : List ℕ
address = replicate 16 5

abbrev header : Header
header = record {
  version = 6;
  traffic_class = 0xA3;
  flow_label = 0x45678;
  payload_length = 2;
  next_header = 0;
  hop_limit = 64;
  src = replicate 16 1;
  dest = replicate 16 2;
}

header-IsHeader : IsHeader header
header-IsHeader = omega arith

-- A hop-by-hop header, then a routing header, then UDP.
abbrev exts : List Ext
exts =
    record { next = 43; len = 0; more = 1 ∷ 2 ∷ 3 ∷ 4 ∷ 5 ∷ 6 ∷ [] }
    ∷ record { next = 17; len = 10; more = 1 ∷ 2 ∷ 3 ∷ 4 ∷ 5 ∷ 6 ∷ 7 ∷ 8 ∷ [] }
    ∷ []

abbrev body : List ℕ
body = 7 ∷ 8 ∷ []

abbrev sample : Ipv6Packet
sample = packet pre header (bytes_of exts) body (some 0)

traffic_class_iff_example : (traffic_class sample ≡ ok 0xA3) ↔ (0xA3 % 16 ≡ 0x45678 / 65536)
traffic_class_iff_example =
    traffic_class_iff pre header (bytes_of exts ++ body) (some 0) 60 header-IsHeader

-- The same packet with another header.
abbrev with : Header → Ipv6Packet
with h = packet pre h (bytes_of exts) body (some 0)

ipv6_setters_example :
    (set_traffic_class sample 70 ≡ ok (with (record header { traffic_class = 70 })))
    × (set_flow_label sample 0x30_0007 ≡ ok (with (record header { flow_label = 7 })))
    × (set_next_header sample 70 ≡ ok (with (record header { next_header = 70 })))
    × (set_hop_limit sample 70 ≡ ok (with (record header { hop_limit = 70 })))
    × (set_src_addr sample (record { octets = address })
        ≡ ok (with (record header { src = address })))
    × (set_dest_addr sample (record { octets = address })
        ≡ ok (with (record header { dest = address })))
ipv6_setters_example =
    ipv6_setters pre header (bytes_of exts ++ body) (some 0) 60 header-IsHeader 70 0x30_0007
      (record { octets = address }) (omega arith) (omega arith)

ipv6_from_buffer-encode_example :
    from_buffer (pre ++ encode header body) none 2 ≡ ok (assemble pre header body none 42)
ipv6_from_buffer-encode_example = ipv6_from_buffer-encode pre header body none header-IsHeader

ipv6_from_buffer-set_payload_example :
    (p : Ipv6Packet) × (set_payload sample (5 ∷ []) ≡ ok p)
    × (from_buffer p.data_bytes (some 0) 2 ≡ ok p)
    × (payload p ≡ ok (5 ∷ []))
ipv6_from_buffer-set_payload_example =
    ipv6_from_buffer-set_payload pre header (bytes_of exts) body (some 0) (5 ∷ []) header-IsHeader
      (omega arith) (omega arith)

payload-set_extension_headers_iff_example :
    ((set_extension_headers sample ((17 ∷ 4 ∷ 0 ∷ 0 ∷ []) ∷ []) IpProtocol.hopopt >>= payload)
      ≡ ok body)
    ↔ (length (joined ((17 ∷ 4 ∷ 0 ∷ 0 ∷ []) ∷ [])) ≡ 18)
payload-set_extension_headers_iff_example =
    payload-set_extension_headers_iff pre header (bytes_of exts) body (some 0)
      ((17 ∷ 4 ∷ 0 ∷ 0 ∷ []) ∷ []) IpProtocol.hopopt header-IsHeader

get_ipv6_payload_type_total_example :
    (get_ipv6_payload_type (pre ++ encode header body) 2 ≡ err "Is not an Ipv6 Packet")
    ⊎ ((r : IpProtocol) × (get_ipv6_payload_type (pre ++ encode header body) 2 ≡ ok r))
get_ipv6_payload_type_total_example = get_ipv6_payload_type_total (pre ++ encode header body) 2

exts-IsChain : IsChain 0 exts 17
unfolding is_extension from_u8
exts-IsChain = (refl, refl, (refl, refl, (refl, refl)))

extension_headers-chain_example :
    (extension_headers sample ≡ ok (each_bytes exts))
    × (get_ipv6_payload_type (pre ++ encode header (bytes_of exts ++ body)) 2 ≡ ok (from_u8 17))
extension_headers-chain_example =
    extension_headers-chain pre header exts body (some 0) 17 header-IsHeader (omega arith)
      exts-IsChain
