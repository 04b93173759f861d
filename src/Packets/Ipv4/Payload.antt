-- ===== src/Packets/Ipv4/Payload.antt =====
-- The payload and the options of an IPv4 packet.
use route_rs.Common.{
  ℕ, ◌+◌, ◌*◌, ◌/◌, ◌%◌, ◌^◌, ◌<◌, ◌≡◌, sym, ap, ap₂, ◌∙◌, Option, none, some, List, ◌++◌, ==_eq,
  leb, if◌then◌else◌, bit_and, bit_or, arith, length, take, suffix, ok, index-append_zero,
  write_at-append_zero, slice-append, copy_inclusive-append, suffix-append, suffix_inside,
  length-suffix, ◌↔◌, ◌>>=◌, suffix_end, take-append, slice, slice_mid, Bool-cases, inl, inr,
  take_front, length-append,
}
use mathlib.Core.List.{append_assoc}
use route_rs.Common.Bytes.{u8, u16, u16_to_be_bytes}
use route_rs.Common.Masks.{and_0f, and_f0, low_nibble, or_16}
use route_rs.Packets.Types.{Ipv4Packet}
use route_rs.Packets.Ipv4.Layout.{
  Header, IsHeader, encode, assemble, length-encode, header_bytes, encode-split, encode-append,
  length-header_bytes,
}
use route_rs.Packets.Ipv4.Getters.{ipv4_getters}
use route_rs.Packets.Ipv4.Buffer.{from_buffer-encode}
use route_rs.Packets.Ipv4.{from_buffer, payload, set_payload, options, set_options, total_len}

-- A packet whose header length covers the header and its options, and nothing else.
abbrev pub packet : List ℕ → Header → List ℕ → List ℕ → Option ℕ → Ipv4Packet
packet pre h opts body l2 = assemble pre h (opts ++ body) l2 (length pre + h.ihl * 4)

-- The header is in range, and its length field is that of the header with the options.
pub record IsWhole (h : Header) (opts : List ℕ) : Type 0 where
  pub ranges : IsHeader h
  pub header_length : h.ihl * 4 ≡ 20 + length opts

module _ (pre : List ℕ) (h : Header) (opts body : List ℕ) (l2 : Option ℕ) (w : IsWhole h opts) where
  length_covered : length (encode h opts) ≡ h.ihl * 4
  length_covered = omega (arith, w, length-encode h opts w.ranges)

  first_ihl : bit_and (h.version * 16 + h.ihl) 0x0F ≡ h.ihl
  first_ihl = omega (arith, w, and_0f (h.version * 16 + h.ihl))

  body_lem : suffix (pre ++ encode h (opts ++ body)) (length pre + h.ihl * 4) ≡ ok body
  body_lem =
      suffix-append pre (encode h (opts ++ body)) (h.ihl * 4)
      ∙ ap (λ b. suffix b (h.ihl * 4)) (sym (encode-append h opts body))
      ∙ suffix_end (encode h opts) body (h.ihl * 4) length_covered

  options_lem :
      slice (pre ++ encode h (opts ++ body)) (length pre + 20) (length pre + h.ihl * 4) ≡ ok opts
  options_lem =
      slice-append pre (encode h (opts ++ body)) 20 (h.ihl * 4)
      ∙ ap (λ b. slice b 20 (h.ihl * 4)) (encode-split h (opts ++ body))
      ∙ slice_mid (header_bytes h) opts body 20 (h.ihl * 4) (length-header_bytes h w.ranges)
          (sym w.header_length)

  cut_lem : take (length pre + h.ihl * 4) (pre ++ encode h (opts ++ body)) ≡ pre ++ encode h opts
  cut_lem =
      take-append pre (encode h (opts ++ body)) (h.ihl * 4)
      ∙ ap (λ b. pre ++ take (h.ihl * 4) b) (sym (encode-append h opts body))
      ∙ ap (λ t. pre ++ t) (take_front (encode h opts) body (h.ihl * 4) length_covered)

  -- What `set_options` keeps, with the new bytes behind it.
  kept_lem :
      (new : List ℕ)
      → take (length pre + 20) (take (length pre + h.ihl * 4) (pre ++ encode h (opts ++ body)))
          ++ new
        ≡ pre ++ encode h new
  kept_lem new =
      ap (λ b. take (length pre + 20) b ++ new) cut_lem
      ∙ ap (λ b. b ++ new) (take-append pre (encode h opts) 20)
      ∙ ap (λ b. (pre ++ take 20 b) ++ new) (encode-split h opts)
      ∙ ap (λ b. (pre ++ b) ++ new)
          (take_front (header_bytes h) opts 20 (length-header_bytes h w.ranges))
      ∙ append_assoc pre (header_bytes h) new
      ∙ ap (λ t. pre ++ t) (sym (encode-split h new))

  -- The first byte that `set_ihl` leaves.
  ihl_byte :
      (n : ℕ)
      → bit_or (bit_and (h.version * 16 + h.ihl) 0xF0) (bit_and 0x0F (u8 n))
        ≡ h.version * 16 + n % 16
  ihl_byte n =
      ap₂ bit_or (and_f0 (h.version * 16 + h.ihl) (omega (arith, w)) ∙ high)
        (low_nibble (u8 n) (omega arith) ∙ low)
      ∙ or_16 h.version (n % 16) (omega arith)
    where
      high : (h.version * 16 + h.ihl) / 16 * 16 ≡ h.version * 16
      high = omega (arith, w)

      low : u8 n % 16 ≡ n % 16
      low = omega arith

  -- For an IPv4 packet whose header length covers the header and its options and whose fields are
  -- in range, `payload` reads what follows the options, and `options` gives none where the IHL is
  -- at most 5 and the options' bytes elsewhere.
  pub payload-options :
      (payload (packet pre h opts body l2) ≡ ok body)
      × (options (packet pre h opts body l2) ≡ ok (if leb h.ihl 5 then none else some opts))
  unfolding payload options
  payload-options = (
    body_lem,
    rw (index-append_zero pre (encode h (opts ++ body)), first_ihl, options_lem)
        (elim (Bool-cases (leb h.ihl 5)) [ inl e ↦ rw e | inr e ↦ rw e ]),
  )

  -- The length that `set_payload` stores, a sum in `u16`.
  abbrev pub stored_len : List ℕ → ℕ
  stored_len new = u16 (u16 (length new) + u8 (h.ihl * 4))

  -- For an IPv4 packet whose header length covers the header and its options and whose fields are
  -- in range, `set_payload` replaces the payload and stores the total length computed in 16 bits,
  -- and keeps all else.
  pub ipv4_set_payload :
      (new : List ℕ)
      → set_payload (packet pre h opts body l2) new
        ≡ ok (packet pre (record h { total_len = stored_len new }) opts new l2)
  unfolding set_payload
  ipv4_set_payload new =
      rw
        (
          cut_lem,
          index-append_zero pre (encode h opts),
          first_ihl,
          copy_inclusive-append pre (encode h opts) (u16_to_be_bytes (stored_len new)) 2 3,
        )
        (ap (λ b. ok (filled b))
          (append_assoc pre (encode h' opts) new ∙ ap (λ t. pre ++ t) (encode-append h' opts new)))
    where
      h' : Header
      h' = record h { total_len = stored_len new }

      filled : List ℕ → Ipv4Packet
      filled b = record {
        data_bytes = b;
        layer2_offset = l2;
        layer3_offset = length pre;
        payload_offset = length pre + h.ihl * 4;
      }

-- For an IPv4 packet with version 4 whose header length covers the header and its options and
-- whose fields are in range, and a new payload with which the total length fits in 16 bits,
-- `set_payload` gives a packet that `from_buffer` makes again of its own bytes, whose payload is
-- the new one and whose total length is that of header and payload.
pub ipv4_from_buffer-set_payload :
    (pre : List ℕ) (h : Header) (opts body : List ℕ) (l2 : Option ℕ) (new : List ℕ)
    → IsWhole h opts
    → h.version ≡ 4
    → h.ihl * 4 + length new < 2 ^ 16
    → (p : Ipv4Packet) × (set_payload (packet pre h opts body l2) new ≡ ok p)
      × (from_buffer p.data_bytes l2 (length pre) ≡ ok p)
      × (payload p ≡ ok new)
      × (total_len p ≡ ok (h.ihl * 4 + length new))
ipv4_from_buffer-set_payload pre h opts body l2 new w four fits = (
  packet pre h' opts new l2,
  ipv4_set_payload pre h opts body l2 w new,
  rw (from_buffer-encode pre h' (opts ++ new) l2 w'.ranges, ==_eq four, ==_eq total),
  (payload-options pre h' opts new l2 w').0,
  (ipv4_getters pre h' (opts ++ new) l2 (length pre + h.ihl * 4) w'.ranges).3 ∙ ap ok stored,
)
  where
    h' : Header
    h' = record h { total_len = stored_len pre h opts body l2 w new }

    stored : h'.total_len ≡ h.ihl * 4 + length new
    stored = omega (arith, w)

    w' : IsWhole h' opts
    w' = omega (arith, w)

    total : 20 + length (opts ++ new) ≡ h'.total_len
    total = omega (arith, w, length-append opts new)

-- For an IPv4 packet whose header length covers the header and its options and whose fields are in
-- range, `set_options` puts the new options in the place of the old ones, stores the header length
-- cut to four bits, leaves the total length, and makes the header's length the payload offset.
pub set_options_lem :
    (pre : List ℕ) (h : Header) (opts body : List ℕ) (l2 : Option ℕ) (new : List ℕ)
    → IsWhole h opts
    → set_options (packet pre h opts body l2) new
      ≡ ok (
          assemble pre
            (record h { ihl = (length new + 20) / 4 % 16 })
            (new ++ body)
            l2
            (length new + 20))
unfolding set_options
set_options_lem pre h opts body l2 new w = rw (
  body_lem pre h opts body l2 w,
  kept_lem pre h opts body l2 w (new ++ body),
  index-append_zero pre (encode h (new ++ body)),
  write_at-append_zero,
  index-append_zero,
  write_at-append_zero,
  ihl_byte pre h opts body l2 w ((length new + 20) / 4),
)

-- For an IPv4 packet whose header length covers the header and its options and whose fields are in
-- range, `payload` after `set_options` is the payload of before exactly when the header starts the
-- buffer.
pub payload-set_options_iff :
    (pre : List ℕ) (h : Header) (opts body : List ℕ) (l2 : Option ℕ) (new : List ℕ)
    → IsWhole h opts
    → ((set_options (packet pre h opts body l2) new >>= payload) ≡ ok body) ↔ (length pre ≡ 0)
payload-set_options_iff pre h opts body l2 new w =
    rw (set_options_lem pre h opts body l2 new w) (unfold payload in (there, back))
  where
    h' : Header
    h' = record h { ihl = (length new + 20) / 4 % 16 }

    ranges : IsHeader h'
    ranges = omega (arith, w)

    there : suffix (pre ++ encode h' (new ++ body)) (length new + 20) ≡ ok body → length pre ≡ 0
    there e = omega (
      arith,
      length-suffix (pre ++ encode h' (new ++ body)) (length new + 20) body e,
      length-append pre (encode h' (new ++ body)),
      length-encode h' (new ++ body) ranges,
      length-append new body,
    )

    back : length pre ≡ 0 → suffix (pre ++ encode h' (new ++ body)) (length new + 20) ≡ ok body
    back e =
        suffix_inside pre (encode h' (new ++ body)) (length new + 20) (length new + 20)
          (omega arith)
        ∙ ap (λ b. suffix b (length new + 20)) (sym (encode-append h' new body))
        ∙ suffix_end (encode h' new) body (length new + 20)
            (omega (arith, length-encode h' new ranges))
