-- ===== src/Packets/Ipv4/Buffer.antt =====
-- Which buffers `Ipv4Packet::from_buffer` accepts, and the packet that it makes of them.
use route_rs.Common.{
  ℕ, ◌+◌, ◌*◌, ◌/◌, ◌%◌, ◌≤◌, ◌<◌, ◌≡◌, ap, ap₂, subst₂, ◌∙◌, ◌⊎◌, inl, inr, Option, List, [], ◌∷◌,
  ◌++◌, ◌==◌, if◌then◌else◌, le→ltb, lt→ltb, bit_and, arith, length, take, drop, ok, err,
  fail_if-not, index-append_zero, slice_inclusive-append, take-append-drop, length-take_of_le,
  length-drop, length-append,
}
use native.Mathlib.Decide.{dec_lt}
use route_rs.Common.Bytes.{u16_be_bytes, IsBytes, IsBytes-drop}
use route_rs.Common.Masks.{and_0f, and_f0}
use route_rs.Packets.Ipv4.Layout.{Header, IsHeader, encode, assemble, length-encode}
use route_rs.Packets.Ipv4.{from_buffer}

module _ (pre : List ℕ) (h : Header) (rest : List ℕ) (l2 : Option ℕ) (v : IsHeader h) where
  -- The tests of `from_buffer` on a buffer that holds a header at the offset.
  pub from_buffer-encode : from_buffer (pre ++ encode h rest) l2 (length pre) ≡ (
      if h.version == 4
      then if 20 + length rest == h.total_len
        then ok (assemble pre h rest l2 (length pre + h.ihl * 4))
        else err "Packet has invalid total length field"
      else err "Packet has incorrect version, is not Ipv4Packet")
  unfolding from_buffer
  from_buffer-encode =
      rw
        (
          le→ltb (length (pre ++ encode h rest)) (length pre + 20) (omega (arith, long)),
          index-append_zero pre (encode h rest),
          version,
          slice_inclusive-append pre (encode h rest) 2 3,
          u16_be_bytes h.total_len v.total_len_range,
          same_test,
          and_0f (h.version * 16 + h.ihl),
          low,
        )
        (fail_if-not (h.version == 4) _ _
          ∙ ap
              (λ m.
                if h.version == 4 then m else err "Packet has incorrect version, is not Ipv4Packet")
              (fail_if-not (20 + length rest == h.total_len) _ _))
    where
      long : length (pre ++ encode h rest) ≡ length pre + (20 + length rest)
      long = omega (arith, length-append pre (encode h rest), length-encode h rest v)

      version : bit_and (h.version * 16 + h.ihl) 0xF0 / 16 ≡ h.version
      version = omega (arith, v, and_f0 (h.version * 16 + h.ihl))

      low : (h.version * 16 + h.ihl) % 16 ≡ h.ihl
      low = omega (arith, v)

      same_test :
          (length (pre ++ encode h rest) == h.total_len + length pre)
          ≡ (20 + length rest == h.total_len)
      same_test = ground (arith, long)

-- 20 bytes are the bytes of one header.
decode_lem :
    (d : List ℕ)
    → IsBytes d
    → 20 ≤ length d
    → (h : Header) × (rest : List ℕ) × IsHeader h × (encode h rest ≡ d)
decode_lem (a ∷ b ∷ c ∷ e ∷ f ∷ g ∷ i ∷ j ∷ k ∷ l ∷ m ∷ n ∷ o ∷ p ∷ q ∷ r ∷ s ∷ t ∷ u ∷ w ∷ rest) h
      len =
    (
      record {
        version = a / 16;
        ihl = a % 16;
        dscp = b / 4;
        ecn = b % 4;
        total_len = c * 256 + e;
        identification = f * 256 + g;
        reserved = i / 128;
        df = i / 64 % 2;
        mf = i / 32 % 2;
        fragment_offset = i % 32 * 256 + j;
        ttl = k;
        protocol = l;
        checksum = m * 256 + n;
        src = o ∷ p ∷ q ∷ r ∷ [];
        dest = s ∷ t ∷ u ∷ w ∷ [];
      },
      rest,
      omega arith,
      ap₂ ◌∷◌ (omega arith) (
          ap₂ ◌∷◌ (omega arith) (
            ap₂ ◌∷◌ (omega arith) (
              ap₂ ◌∷◌ (omega arith) (
                ap₂ ◌∷◌ (omega arith) (
                  ap₂ ◌∷◌ (omega arith) (
                    ap₂ ◌∷◌ (omega arith) (
                      ap₂ ◌∷◌ (omega arith) (
                        ap₂ (λ x y. k ∷ l ∷ x ∷ y ∷ o ∷ p ∷ q ∷ r ∷ s ∷ t ∷ u ∷ w ∷ rest)
                          (omega arith) (omega arith))))))))),
    )
decode_lem _ h len = absurd (omega arith)

-- A buffer with 20 bytes from the offset on is a header behind a prefix of that length.
split_lem :
    (d : List ℕ) (offset : ℕ)
    → IsBytes d
    → offset + 20 ≤ length d
    → (pre : List ℕ) × (h : Header) × (rest : List ℕ) × IsHeader h
      × (length pre ≡ offset)
      × (pre ++ encode h rest ≡ d)
split_lem d offset bytes long =
    let (h, rest, v, e) =
      decode_lem (drop offset d) (IsBytes-drop offset d bytes)
        (omega (arith, length-drop offset d)) in
    (
      take offset d,
      h,
      rest,
      v,
      length-take_of_le offset d (omega arith),
      ap (λ zs. take offset d ++ zs) e ∙ take-append-drop offset d,
    )

-- On any buffer of bytes and at any offset, `Ipv4Packet::from_buffer` fails where fewer than 20
-- bytes follow the offset, and otherwise the buffer is some front of the offset's length, then the
-- layout of a header in range and the rest: the result is the error for a version other than 4,
-- then the error for a total length other than that of the header and the rest, and else the
-- packet with its payload offset 4 * IHL past the offset.
pub ipv4_from_buffer :
    (d : List ℕ) (l2 : Option ℕ) (offset : ℕ)
    → IsBytes d
    → ((length d < offset + 20)
        × (from_buffer d l2 offset ≡ err "Data is too short to be an IPv4 Packet"))
      ⊎ ((pre : List ℕ) × (h : Header) × (rest : List ℕ) × IsHeader h
          × (length pre ≡ offset)
          × (pre ++ encode h rest ≡ d)
          × (from_buffer d l2 offset ≡ (
              if h.version == 4
              then if 20 + length rest == h.total_len
                then ok (assemble pre h rest l2 (offset + h.ihl * 4))
                else err "Packet has invalid total length field"
              else err "Packet has incorrect version, is not Ipv4Packet")))
ipv4_from_buffer d l2 offset bytes = elim (dec_lt (length d) (offset + 20)) [
  | yes short ↦ inl (short, unfold from_buffer in rw (lt→ltb _ _ short))
  | no long ↦
      let (pre, h, rest, v, e, whole) = split_lem d offset bytes (omega arith) in
      inr (
        pre,
        h,
        rest,
        v,
        e,
        whole,
        subst₂
            (λ b n. from_buffer b l2 n ≡ (
              if h.version == 4
              then if 20 + length rest == h.total_len
                then ok (assemble pre h rest l2 (n + h.ihl * 4))
                else err "Packet has invalid total length field"
              else err "Packet has incorrect version, is not Ipv4Packet"))
            whole e (from_buffer-encode pre h rest l2 v),
      )
]
