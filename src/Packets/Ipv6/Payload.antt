-- ===== src/Packets/Ipv6/Payload.antt =====
-- The payload and the extension headers of an IPv6 packet: `from_buffer`, `set_payload` and
-- `set_extension_headers`.
use route_rs.Common.{
  ℕ, ◌+◌, ◌-◌, ◌*◌, ◌/◌, ◌^◌, ◌≤◌, ◌<◌, ◌≡◌, sym, ap, ◌∙◌, Option, List, ◌++◌, Bool-cases, inl, inr,
  ==_eq, ltb, ◌==◌, if◌then◌else◌, le→ltb, bit_and, arith, length, take, suffix, ok, err,
  fail_if-not, index-append_zero, suffix-append, suffix_end, take-append, take_front,
  slice_inclusive-append, copy_from_slice-append, length-append,
}
use mathlib.Core.List.{append_assoc}
use route_rs.Common.Bytes.{u16, u16_be_bytes, u16_to_be_bytes}
use route_rs.Common.Masks.{and_f0}
use route_rs.Packets.Types.{Ipv6Packet}
use route_rs.Packets.Ipv6.Layout.{
  Header, IsHeader, encode, assemble, length-encode, header_bytes, encode-split,
  length-header_bytes, encode-append,
}
use route_rs.Packets.Ipv6.{from_buffer, payload, set_payload}

-- A packet with extension headers `exts` between its header and its payload.
abbrev pub packet : List ℕ → Header → List ℕ → List ℕ → Option ℕ → Ipv6Packet
packet pre h exts body l2 = assemble pre h (exts ++ body) l2 (length pre + (40 + length exts))

-- On the layout of an IPv6 header in range behind any front, `Ipv6Packet::from_buffer` at the
-- front's length gives the error for a version other than 6, then the error where the payload
-- length is more than what follows the header, and else the packet whose payload offset leaves the
-- payload length at the end of the buffer.
pub ipv6_from_buffer-encode :
    (pre : List ℕ) (h : Header) (rest : List ℕ) (l2 : Option ℕ)
    → IsHeader h
    → from_buffer (pre ++ encode h rest) l2 (length pre) ≡ (
        if h.version == 6
        then if ltb (length rest) h.payload_length
          then err "Packet has invalid payload len field"
          else ok (assemble pre h rest l2 (length pre + (40 + length rest) - h.payload_length))
        else err "Packet has incorrect version, is not Ipv6Packet")
unfolding from_buffer
ipv6_from_buffer-encode pre h rest l2 v =
    rw
      (
        le→ltb (length (pre ++ encode h rest)) (length pre + 40) (omega (arith, long)),
        index-append_zero pre (encode h rest),
        version,
        slice_inclusive-append pre (encode h rest) 4 5,
        u16_be_bytes h.payload_length v.payload_length_range,
        same_test,
        long,
      )
      (fail_if-not (h.version == 6) _ _
        ∙ elim (Bool-cases (ltb (length rest) h.payload_length)) [ inl e ↦ rw e | inr e ↦ rw e ])
  where
    long : length (pre ++ encode h rest) ≡ length pre + (40 + length rest)
    long = omega (arith, length-append pre (encode h rest), length-encode h rest v)

    version : bit_and (h.version * 16 + h.traffic_class / 16) 0xF0 / 16 ≡ h.version
    version = omega (arith, v, and_f0 (h.version * 16 + h.traffic_class / 16))

    same_test :
        ltb (length (pre ++ encode h rest)) (h.payload_length + length pre + 40)
        ≡ ltb (length rest) h.payload_length
    same_test = ground (arith, long)

module _ (pre : List ℕ) (h : Header) (exts body : List ℕ) (l2 : Option ℕ) (v : IsHeader h) where
  length_covered : length (encode h exts) ≡ 40 + length exts
  length_covered = length-encode h exts v

  pub body_lem : suffix (pre ++ encode h (exts ++ body)) (length pre + (40 + length exts)) ≡ ok body
  body_lem =
      suffix-append pre (encode h (exts ++ body)) (40 + length exts)
      ∙ ap (λ b. suffix b (40 + length exts)) (sym (encode-append h exts body))
      ∙ suffix_end (encode h exts) body (40 + length exts) length_covered

  cut_lem :
      take (length pre + (40 + length exts)) (pre ++ encode h (exts ++ body)) ≡ pre ++ encode h exts
  cut_lem =
      take-append pre (encode h (exts ++ body)) (40 + length exts)
      ∙ ap (λ b. pre ++ take (40 + length exts) b) (sym (encode-append h exts body))
      ∙ ap (λ t. pre ++ t) (take_front (encode h exts) body (40 + length exts) length_covered)

  pub kept_lem :
      take
        (length pre + 40)
        (take (length pre + (40 + length exts)) (pre ++ encode h (exts ++ body)))
      ≡ pre ++ header_bytes h
  kept_lem =
      ap (take (length pre + 40)) (cut_lem ∙ ap (λ b. pre ++ b) (encode-split h exts))
      ∙ take-append pre (header_bytes h ++ exts) 40
      ∙ ap (λ b. pre ++ b) (take_front (header_bytes h) exts 40 (length-header_bytes h v))

  -- For an IPv6 packet with its header in range and extension headers before its payload,
  -- `set_payload` replaces the payload and its length cut to 16 bits, and keeps all else.
  pub ipv6_set_payload :
      (new : List ℕ)
      → set_payload (packet pre h exts body l2) new
        ≡ ok (packet pre (record h { payload_length = u16 (length new) }) exts new l2)
  unfolding set_payload
  ipv6_set_payload new =
      rw
        (
          cut_lem,
          copy_from_slice-append pre (encode h exts) (u16_to_be_bytes (u16 (length new))) 4 6,
        )
        (λ i. ok (record {
          data_bytes = whole i;
          layer2_offset = l2;
          layer3_offset = length pre;
          payload_offset = end i;
        }))
    where
      h' : Header
      h' = record h { payload_length = u16 (length new) }

      whole : (pre ++ encode h' exts) ++ new ≡ pre ++ encode h' (exts ++ new)
      whole = append_assoc pre (encode h' exts) new ∙ ap (λ t. pre ++ t) (encode-append h' exts new)

      end : length ((pre ++ encode h' exts) ++ new) - length new ≡ length pre + (40 + length exts)
      end = omega (
        arith,
        length-append (pre ++ encode h' exts) new,
        length-append pre (encode h' exts),
        length-encode h' exts (omega (arith, v)),
      )

-- For an IPv6 packet with version 6, extension headers before its payload and its header in range,
-- and a new payload shorter than 2 ^ 16, `set_payload` gives a packet that `from_buffer` makes
-- again of its own bytes and whose payload is the new one.
pub ipv6_from_buffer-set_payload :
    (pre : List ℕ) (h : Header) (exts body : List ℕ) (l2 : Option ℕ) (new : List ℕ)
    → IsHeader h
    → h.version ≡ 6
    → length new < 2 ^ 16
    → (p : Ipv6Packet) × (set_payload (packet pre h exts body l2) new ≡ ok p)
      × (from_buffer p.data_bytes l2 (length pre) ≡ ok p)
      × (payload p ≡ ok new)
ipv6_from_buffer-set_payload pre h exts body l2 new v six fits = (
  packet pre h' exts new l2,
  ipv6_set_payload pre h exts body l2 v new,
  rw (ipv6_from_buffer-encode pre h' (exts ++ new) l2 ranges, ==_eq six, le→ltb _ _ covered)
      (ap (λ n. ok (assemble pre h' (exts ++ new) l2 n)) offset),
  unfold payload in body_lem pre h' exts new l2 ranges,
)
  where
    h' : Header
    h' = record h { payload_length = u16 (length new) }

    ranges : IsHeader h'
    ranges = omega (arith, v)

    covered : h'.payload_length ≤ length (exts ++ new)
    covered = omega (arith, length-append exts new)

    offset :
        length pre + (40 + length (exts ++ new)) - h'.payload_length
        ≡ length pre + (40 + length exts)
    offset = omega (arith, length-append exts new)
