-- ===== src/Examples/StaticRouter/Passing.antt =====
-- A frame whose packet passes is the frame that leaves.
use route_rs.Common.Bytes.{u16_from_be_bytes}
use route_rs.Common.{
  ◌+◌, ◌/◌, ◌^◌, ◌==◌, not, bit_and, index, slice_inclusive, ℕ, ◌≡◌, refl, ap₂, subst, ◌∙◌, Option,
  some, Outcome, ok, err, panic, ◌>>=◌, ◌>>◌, fail_if, length, ltb,
}
use route_rs.Packets.Types.{PacketData, EthernetFrame, Ipv4Packet, Ipv6Packet}
use route_rs.Packets.Ethernet
use route_rs.Packets.Ipv4
use route_rs.Packets.Ipv6
use route_rs.Examples.StaticRouter.{ok_or_drop, ipv4_decap, ipv4_encap, ipv6_decap, ipv6_encap}

-- Where there is a value, it satisfies `Q`.
abbrev AllOk : {B : Type 0} → (B → Type 0) → Outcome B → Type 0
AllOk Q (ok b) = Q b
AllOk Q (err e) = Unit
AllOk Q panic = Unit

AllOk-bind :
    {A B : Type 0} (Q : B → Type 0) (m : Outcome A) (f : A → Outcome B)
    → ((a : A) → AllOk Q (f a))
    → AllOk Q (m >>= f)
AllOk-bind Q (ok a) f h = h a
AllOk-bind Q (err x) f h = tt
AllOk-bind Q panic f h = tt

AllOk-then :
    {B : Type 0} (Q : B → Type 0) (m : Outcome (Unit {0})) (n : Outcome B)
    → AllOk Q n
    → AllOk Q (m >> n)
AllOk-then Q (ok a) n h = h
AllOk-then Q (err x) n h = tt
AllOk-then Q panic n h = tt

-- A packet keeps the bytes and the layer 2 offset that it is made of.
ipv4_kept :
    (d : PacketData) (l2 : Option ℕ) (l3 : ℕ)
    → AllOk (λ p. (p.data_bytes ≡ d) × (p.layer2_offset ≡ l2)) (Ipv4.from_buffer d l2 l3)
unfolding Ipv4.from_buffer
ipv4_kept d l2 l3 =
    AllOk-then _ (fail_if (ltb (length d) (l3 + 20)) "Data is too short to be an IPv4 Packet") _ (
      AllOk-bind _ (index d l3) _ λ first.
        AllOk-then _
          (fail_if (not (bit_and first 0xF0 / 2 ^ 4 == 4))
            "Packet has incorrect version, is not Ipv4Packet")
          _
          (AllOk-bind _ (slice_inclusive d (l3 + 2) (l3 + 3) >>= u16_from_be_bytes) _ λ total_len.
            AllOk-then _
              (fail_if (not (length d == total_len + l3)) "Packet has invalid total length field") _
              (AllOk-bind _ (index d l3) _ λ again. (refl, refl))))

ipv6_kept :
    (d : PacketData) (l2 : Option ℕ) (l3 : ℕ)
    → AllOk (λ p. (p.data_bytes ≡ d) × (p.layer2_offset ≡ l2)) (Ipv6.from_buffer d l2 l3)
unfolding Ipv6.from_buffer
ipv6_kept d l2 l3 =
    AllOk-then _ (fail_if (ltb (length d) (l3 + 40)) "Packet is too short to be an Ipv6Packet") _ (
      AllOk-bind _ (index d l3) _ λ first.
        AllOk-then _
          (fail_if (not (bit_and first 0xF0 / 2 ^ 4 == 6))
            "Packet has incorrect version, is not Ipv6Packet")
          _
          (AllOk-bind _ (slice_inclusive d (l3 + 4) (l3 + 5) >>= u16_from_be_bytes) _ λ payload_len.
            AllOk-then _
              (fail_if (ltb (length d) (payload_len + l3 + 40))
                "Packet has invalid payload len field")
              _ (refl, refl)))

ethernet_kept :
    (d : PacketData) (l2 : ℕ)
    → AllOk (λ f. (f.data_bytes ≡ d) × (f.layer2_offset ≡ l2)) (Ethernet.from_buffer d l2)
unfolding Ethernet.from_buffer
ethernet_kept d l2 =
    AllOk-then _ (fail_if (ltb (length d) 14) "Frame is less than the minimum of 14 bytes") _
      (refl, refl)

passed : {A : Type 0} (m : Outcome A) (a : A) → ok_or_drop m ≡ ok (some a) → m ≡ ok a
passed (ok b) a e = cc
passed (err x) a e = cc
passed panic a e = cc

-- A frame that was made of a buffer is made of its own bytes again.
again_made :
    (d : PacketData) (off : ℕ) (frame : EthernetFrame)
    → Ethernet.from_buffer d off ≡ ok frame
    → Ethernet.from_buffer frame.data_bytes frame.layer2_offset ≡ ok frame
again_made d off frame e =
    let (same_bytes, same_offset) =
      subst (λ t. AllOk (λ f. (f.data_bytes ≡ d) × (f.layer2_offset ≡ off)) t) e
        (ethernet_kept d off) in
    ap₂ Ethernet.from_buffer same_bytes same_offset ∙ e

-- For a frame that `EthernetFrame::from_buffer` makes: where `Ipv4Decap` lets a packet through,
-- `Ipv4Encap` makes the same frame of that packet.
pub ipv4_passes :
    (d : PacketData) (off : ℕ) (frame : EthernetFrame) (packet : Ipv4Packet)
    → Ethernet.from_buffer d off ≡ ok frame
    → ipv4_decap frame ≡ ok (some packet)
    → ipv4_encap packet ≡ ok (some frame)
unfolding ipv4_decap ipv4_encap Ipv4.Convert.try_from_ethernet Ethernet.try_from_ipv4
ipv4_passes d off frame packet e h =
    let (same_bytes, same_offset) =
      subst
        (λ t.
          AllOk
            (λ p. (p.data_bytes ≡ frame.data_bytes) × (p.layer2_offset ≡ some frame.layer2_offset))
            t)
        (passed _ packet h)
        (ipv4_kept frame.data_bytes (some frame.layer2_offset) frame.payload_offset) in
    rw (same_offset, same_bytes, again_made d off frame e)

-- For a frame that `EthernetFrame::from_buffer` makes: where `Ipv6Decap` lets a packet through,
-- `Ipv6Encap` makes the same frame of that packet.
pub ipv6_passes :
    (d : PacketData) (off : ℕ) (frame : EthernetFrame) (packet : Ipv6Packet)
    → Ethernet.from_buffer d off ≡ ok frame
    → ipv6_decap frame ≡ ok (some packet)
    → ipv6_encap packet ≡ ok (some frame)
unfolding ipv6_decap ipv6_encap Ipv6.Convert.try_from_ethernet Ethernet.try_from_ipv6
ipv6_passes d off frame packet e h =
    let (same_bytes, same_offset) =
      subst
        (λ t.
          AllOk
            (λ p. (p.data_bytes ≡ frame.data_bytes) × (p.layer2_offset ≡ some frame.layer2_offset))
            t)
        (passed _ packet h)
        (ipv6_kept frame.data_bytes (some frame.layer2_offset) frame.payload_offset) in
    rw (same_offset, same_bytes, again_made d off frame e)
