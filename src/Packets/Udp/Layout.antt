-- ===== src/Packets/Udp/Layout.antt =====
-- The layout of a UDP segment, and what udp.rs reads and writes in it.
use route_rs.Common.{
  ℕ, ◌+◌, ◌/◌, ◌%◌, ◌^◌, ◌<◌, ◌≡◌, ap, ◌∙◌, Option, List, ◌∷◌, ◌++◌, ltb, if◌then◌else◌, arith,
  length, ok, err, slice_inclusive-append, copy_inclusive-append, suffix-append, take-append,
  length-append, le→ltb, slice_inclusive-append_zero, copy_inclusive-append_zero, Bool-cases, inl,
  inr,
}
use mathlib.Core.List.{append_assoc}
use route_rs.Common.Bytes.{u16_be_bytes}
use route_rs.Packets.Types.{UdpSegment}
use route_rs.Packets.Udp.{
  from_buffer, check_protocol, src_port, set_src_port, dest_port, set_dest_port, length_field,
  checksum, set_checksum, payload, set_payload,
}

pub record Header : Type 0 where
  pub src_port : ℕ
  pub dest_port : ℕ
  pub len : ℕ
  pub checksum : ℕ

pub record IsHeader (h : Header) : Type 0 where
  pub src_range : h.src_port < 2 ^ 16
  pub dest_range : h.dest_port < 2 ^ 16
  pub len_range : h.len < 2 ^ 16
  pub checksum_range : h.checksum < 2 ^ 16

abbrev pub encode : Header → List ℕ → List ℕ
encode h body =
    (h.src_port / 256 % 256)
    ∷ (h.src_port % 256)
    ∷ (h.dest_port / 256 % 256)
    ∷ (h.dest_port % 256)
    ∷ (h.len / 256 % 256)
    ∷ (h.len % 256)
    ∷ (h.checksum / 256 % 256)
    ∷ (h.checksum % 256)
    ∷ body

-- A segment over a buffer: `pre` stands in front of the header.
abbrev pub assemble : List ℕ → Header → List ℕ → Option ℕ → Option ℕ → UdpSegment
assemble pre h body l2 l3 = record {
  data_bytes = pre ++ encode h body;
  layer2_offset = l2;
  layer3_offset = l3;
  layer4_offset = length pre;
  payload_offset = length pre + 8;
}

module _ (pre : List ℕ) (h : Header) (body : List ℕ) (l2 l3 : Option ℕ) where
  -- On the layout of a UDP header in range behind any front, the getters read the fields of the
  -- header, and `payload` what follows it.
  pub udp_getters :
      IsHeader h
      → let u = assemble pre h body l2 l3 in
        (src_port u ≡ ok h.src_port)
        × (dest_port u ≡ ok h.dest_port)
        × (length_field u ≡ ok h.len)
        × (checksum u ≡ ok h.checksum)
        × (payload u ≡ ok body)
  unfolding src_port dest_port length_field checksum payload
  udp_getters v = (
    rw (slice_inclusive-append_zero pre (encode h body) 1)
        (ap ok (u16_be_bytes h.src_port v.src_range)),
    rw (slice_inclusive-append pre (encode h body) 2 3)
        (ap ok (u16_be_bytes h.dest_port v.dest_range)),
    rw (slice_inclusive-append pre (encode h body) 4 5) (ap ok (u16_be_bytes h.len v.len_range)),
    rw (slice_inclusive-append pre (encode h body) 6 7)
        (ap ok (u16_be_bytes h.checksum v.checksum_range)),
    suffix-append pre (encode h body) 8,
  )

  -- On the layout of a UDP header, `set_src_port`, `set_dest_port` and `set_checksum` replace
  -- their own field, and `set_payload` what follows the header, with the length field as it was.
  pub udp_setters :
      (x : ℕ) (new : List ℕ)
      → (set_src_port (assemble pre h body l2 l3) x
          ≡ ok (assemble pre (record h { src_port = x }) body l2 l3))
        × (set_dest_port (assemble pre h body l2 l3) x
            ≡ ok (assemble pre (record h { dest_port = x }) body l2 l3))
        × (set_checksum (assemble pre h body l2 l3) x
            ≡ ok (assemble pre (record h { checksum = x }) body l2 l3))
        × (set_payload (assemble pre h body l2 l3) new ≡ assemble pre h new l2 l3)
  unfolding set_src_port set_dest_port set_checksum set_payload
  udp_setters x new = (
    rw (copy_inclusive-append_zero pre (encode h body) _ 1),
    rw (copy_inclusive-append pre (encode h body) _ 2 3),
    rw (copy_inclusive-append pre (encode h body) _ 6 7),
    rw (take-append pre (encode h body) 8) (simp append_assoc),
  )

  -- On the layout of a UDP header in range behind any front for which the test of the IP header in
  -- front passes, `UdpSegment::from_buffer` gives the segment, or the error where its length field
  -- is more than the header and what follows it.
  pub udp_from_buffer :
      IsHeader h
      → check_protocol (pre ++ encode h body) l3 ≡ ok tt
      → from_buffer (pre ++ encode h body) l2 l3 (length pre) ≡ (
          if ltb (8 + length body) h.len
          then err "Segment is not correct length as given by it's length field"
          else ok (assemble pre h body l2 l3))
  unfolding from_buffer
  udp_from_buffer v checked =
      rw
        (
          le→ltb (length (pre ++ encode h body)) (length pre + 8) (omega (arith, long)),
          checked,
          slice_inclusive-append pre (encode h body) 4 5,
          u16_be_bytes h.len v.len_range,
          same_test,
        )
        (elim (Bool-cases (ltb (8 + length body) h.len)) [ inl e ↦ rw e | inr e ↦ rw e ])
    where
      long : length (pre ++ encode h body) ≡ length pre + (8 + length body)
      long = length-append pre (encode h body) ∙ omega arith

      same_test :
          ltb (length (pre ++ encode h body)) (length pre + h.len) ≡ ltb (8 + length body) h.len
      same_test = ground (arith, long)
