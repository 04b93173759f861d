-- ===== src/Runtime/Tests.antt =====
-- The processors on concrete packets.
use route_rs.Common.{◌≡◌, refl, none, some, [], ◌∷◌, ◌++◌, true, false, arith, ok}
use route_rs.Common.Bytes.{IsBytes}
use route_rs.Packets.Types.{Ipv4Packet}
use route_rs.Packets.Ipv4.Layout
use route_rs.Packets.Ipv4.Payload.{packet, IsWhole}
use route_rs.Packets.Ipv4.Checksum.{validate_checksum, words, sum_words, fold_carry}
use route_rs.Runtime.Classifier.{ℤ, pos, negsuc}
use route_rs.Runtime.Link.{PacketStream, ready, pending}
use route_rs.Runtime.Link.Classify
use route_rs.Runtime.DecIpv4HopLimit
use route_rs.Runtime.DecIpv4HopLimit.Limit.{validate_checksum-process}

abbrev header4 : Layout.Header
header4 = record {
  version = 4;
  ihl = 5;
  dscp = 0;
  ecn = 0;
  total_len = 21;
  identification = 0;
  reserved = 0;
  df = 0;
  mf = 0;
  fragment_offset = 0;
  ttl = 64;
  protocol = 17;
  checksum = 0xB02E;
  src = 192 ∷ 168 ∷ 0 ∷ 1 ∷ [];
  dest = 10 ∷ 0 ∷ 0 ∷ 1 ∷ [];
}

header4-IsWhole : IsWhole header4 []
header4-IsWhole = omega arith

octets4-IsBytes : IsBytes (header4.src ++ (header4.dest ++ []))
octets4-IsBytes = omega arith

was_valid : validate_checksum (packet (9 ∷ []) header4 [] (5 ∷ []) none) ≡ ok true
unfolding validate_checksum words sum_words fold_carry
was_valid = refl

validate_checksum-process_example :
    (p : Ipv4Packet) × (DecIpv4HopLimit.process (packet (9 ∷ []) header4 [] (5 ∷ []) none)
      ≡ ok (some p))
    × (validate_checksum p ≡ ok false)
validate_checksum-process_example =
    validate_checksum-process (9 ∷ []) header4 [] (5 ∷ []) none header4-IsWhole octets4-IsBytes
      (omega arith) was_valid

abbrev numbers : PacketStream ℤ
numbers = ready (some (pos 15)) ∷ ready (some (negsuc 5)) ∷ pending ∷ ready none ∷ []
