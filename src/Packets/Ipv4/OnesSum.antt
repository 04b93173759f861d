-- ===== src/Packets/Ipv4/OnesSum.antt =====
-- The header checksum of ipv4.rs against its definition: the sum of the header's words modulo 65535.
use route_rs.Common.{
  ℕ, ◌+◌, ◌-◌, ◌*◌, ◌/◌, ◌%◌, ◌^◌, ◌≤◌, ◌<◌, ◌≡◌, refl, sym, ap, ap₂, ◌∙◌, Option, List, [], ◌∷◌,
  ◌++◌, true, ==_eq, ==_ne, ◌==◌, bit_and, if◌then◌else◌, arith, length, slice, ok, slice_mid,
  length-append, ltb, write_at-append,
}
use route_rs.Common.Bytes.{u8, u16, u32, IsBytes}
use route_rs.Common.Masks.{and_ff, and_ffff}
use route_rs.Common.Bits.{and-high_mask}
use route_rs.Packets.Ipv4.Layout.{Header, encode, flag_byte, encode-append, length-encode}
use route_rs.Packets.Ipv4.Payload.{packet, IsWhole}
use route_rs.Packets.Ipv4.Checksum.{
  words, sum_words, without_checksum, fold_carry, not_u32, validate_checksum, caclulate_checksum,
  set_checksum,
}

-- The sum of words, with no wrap.
abbrev pub total : List ℕ → ℕ
total [] = 0
total (w ∷ ws) = w + total ws

sum_words-eq-total :
    (ws : List ℕ) (acc : ℕ) → acc + total ws < 2 ^ 32 → sum_words acc ws ≡ acc + total ws
unfolding sum_words
sum_words-eq-total [] acc h = omega arith
sum_words-eq-total (w ∷ ws) acc h =
    let e : u32 (acc + w) ≡ acc + w = omega arith in
    rw e (sum_words-eq-total ws (acc + w) (omega arith) ∙ omega arith)

-- Each pair of bytes adds less than 2 ^ 16.
total-words-le : (bs : List ℕ) → IsBytes bs → total (words bs) * 2 ≤ 65535 * length bs
unfolding words
total-words-le [] h = omega arith
total-words-le (a ∷ []) h = omega arith
total-words-le (a ∷ b ∷ bs) h = omega (arith, total-words-le bs h.1.1)

-- Past index 5 nothing is filtered out.
without_checksum_past : (i : ℕ) (ws : List ℕ) → 6 ≤ i → without_checksum i ws ≡ ws
unfolding without_checksum
without_checksum_past i [] h = refl
without_checksum_past i (w ∷ ws) h =
    rw (==_ne i 5 (omega arith)) (ap (λ t. w ∷ t) (without_checksum_past (i + 1) ws (omega arith)))

high_word : (s : ℕ) → s < 2 ^ 32 → bit_and s 0xFFFF_0000 ≡ s / 65536 * 65536
high_word s h =
    ap (λ t. bit_and t 0xFFFF_0000) (omega arith)
    ∙ and-high_mask 16 16 (s / 65536) (s % 65536) (omega arith) (omega arith)

-- The carry added to the low word.
fold_carry-eq : (s : ℕ) → s < 2 ^ 32 → fold_carry s ≡ s % 65536 + s / 65536
unfolding fold_carry
fold_carry-eq s h = ap₂ (λ x y. u32 (x + y / 65536)) (and_ffff s) (high_word s h) ∙ omega arith

-- The sum of the header's words but for the checksum.
unfoldable pub others : Header → List ℕ → ℕ
unfolding words
others h opts = total (
    ((h.version * 16 + h.ihl) * 256 + (h.dscp * 4 + h.ecn))
    ∷ (h.total_len / 256 % 256 * 256 + h.total_len % 256)
    ∷ (h.identification / 256 % 256 * 256 + h.identification % 256)
    ∷ (flag_byte h * 256 + h.fragment_offset % 256)
    ∷ (h.ttl * 256 + h.protocol)
    ∷ words (h.src ++ (h.dest ++ opts)))

-- What `caclulate_checksum` makes of that sum, folded.
abbrev complement : ℕ → ℕ
complement s = if ltb s 65536 then 65535 - s else 131070 - s

complement-eq :
    (s : ℕ)
    → s < 131071
    → u16 (bit_and (not_u32 (if bit_and s 0xFFFF_0000 == 0 then s else u32 (s + 1))) 0xFFFF)
      ≡ complement s
complement-eq s h =
    ground
      (arith, high_word s (omega arith), and_ffff (not_u32 s), and_ffff (not_u32 (u32 (s + 1))))

top_byte : (c : ℕ) → c < 2 ^ 16 → u8 (bit_and c 0xFF00 / 2 ^ 8) ≡ c / 256 % 256
top_byte c h = ap (λ t. u8 (t / 256)) high ∙ omega arith
  where
    high : bit_and c 0xFF00 ≡ c / 256 * 256
    high =
        ap (λ t. bit_and t 0xFF00) (omega arith)
        ∙ and-high_mask 8 8 (c / 256) (c % 256) (omega arith) (omega arith)

low_byte : (c : ℕ) → u8 (bit_and c 0x00FF) ≡ c % 256
low_byte c = omega (arith, and_ff c)

valid-eq :
    (s : ℕ)
    → 0 < s
    → s < 2 ^ 21
    → (0 == bit_and (not_u32 (s % 65536 + s / 65536)) 0xFFFF) ≡ (s % 65535 == 0)
valid-eq s pos h = rw (and_ffff (not_u32 (s % 65536 + s / 65536))) (ground arith)

module _ (pre : List ℕ) (h : Header) (opts body : List ℕ) (l2 : Option ℕ) (w : IsWhole h opts)
    (bytes : IsBytes (h.src ++ (h.dest ++ opts))) where
  others-lt : others h opts + 65536 < 2 ^ 21
  unfolding others
  others-lt = omega (
    arith,
    w,
    total-words-le (h.src ++ (h.dest ++ opts)) bytes,
    length-append h.src (h.dest ++ opts),
    length-append h.dest opts,
  )

  others_pos : 0 < others h opts
  unfolding others
  others_pos = omega (arith, w)

  header_lem :
      slice (pre ++ encode h (opts ++ body)) (length pre) (length pre + h.ihl * 4)
      ≡ ok (encode h opts)
  header_lem =
      ap (λ b. slice (pre ++ b) (length pre) (length pre + h.ihl * 4))
        (sym (encode-append h opts body))
      ∙ slice_mid pre (encode h opts) body (length pre) (length pre + h.ihl * 4) refl
          (omega (arith, w, length-encode h opts w.ranges))

  sum_others : sum_words 0 (without_checksum 0 (words (encode h opts))) ≡ others h opts
  unfolding others words without_checksum
  sum_others =
      rw (without_checksum_past 6 (words (h.src ++ (h.dest ++ opts))) (omega arith))
        (sum_words-eq-total _ 0 (omega (arith, others-lt)) ∙ omega arith)

  sum_all : sum_words 0 (words (encode h opts)) ≡ others h opts + h.checksum
  unfolding others words
  sum_all = sum_words-eq-total _ 0 (omega (arith, w, others-lt)) ∙ omega (arith, w)

  calculated : ℕ
  calculated = complement (others h opts % 65536 + others h opts / 65536)

  caclulate_lem : caclulate_checksum (packet pre h opts body l2) ≡ ok calculated
  unfolding caclulate_checksum calculated
  caclulate_lem =
      rw (header_lem, sum_others, fold_carry-eq (others h opts) (omega (arith, others-lt)))
        (ap ok (
          complement-eq (others h opts % 65536 + others h opts / 65536) (omega (arith, others-lt))))

  calculated-lt : calculated < 2 ^ 16
  unfolding calculated
  calculated-lt = ground (arith, others-lt)

  calculated_sum : (others h opts + calculated) % 65535 ≡ 0
  unfolding calculated
  calculated_sum = ground (arith, others-lt)

  -- On an IPv4 packet whose header length covers the header and its options, whose fields are in
  -- range and whose addresses and options are bytes, `caclulate_checksum` gives a word below 2 ^
  -- 16 that makes the sum of the header's other words and itself a multiple of 65535.
  pub caclulate_checksum_lem :
      (c : ℕ) × (caclulate_checksum (packet pre h opts body l2) ≡ ok c)
      × (c < 2 ^ 16)
      × ((others h opts + c) % 65535 ≡ 0)
  caclulate_checksum_lem = (calculated, caclulate_lem, calculated-lt, calculated_sum)

  -- On an IPv4 packet whose header length covers the header and its options, whose fields are in
  -- range and whose addresses and options are bytes, `validate_checksum` is the test that the sum
  -- of all the header's words, with no wrap, is a multiple of 65535.
  pub validate_checksum_lem :
      validate_checksum (packet pre h opts body l2) ≡ ok ((others h opts + h.checksum) % 65535 == 0)
  unfolding validate_checksum
  validate_checksum_lem = rw (
    header_lem,
    sum_all,
    fold_carry-eq (others h opts + h.checksum) (omega (arith, others-lt, w)),
    valid-eq (others h opts + h.checksum) (omega (arith, others_pos)) (omega (arith, others-lt, w)),
  )

  -- `set_checksum` writes that checksum into its field, and keeps all else.
  set_checksum_lem :
      set_checksum (packet pre h opts body l2)
      ≡ ok (packet pre (record h { checksum = calculated }) opts body l2)
  unfolding set_checksum
  set_checksum_lem = rw (
    caclulate_lem,
    write_at-append,
    write_at-append,
    top_byte calculated calculated-lt,
    low_byte calculated,
  )

-- On an IPv4 packet whose header length covers the header and its options, whose fields are in
-- range and whose addresses and options are bytes, `set_checksum` changes the checksum field
-- alone, and `validate_checksum` of the result is true.
pub validate_checksum-set_checksum :
    (pre : List ℕ) (h : Header) (opts body : List ℕ) (l2 : Option ℕ)
    → IsWhole h opts
    → IsBytes (h.src ++ (h.dest ++ opts))
    → (c : ℕ) × (set_checksum (packet pre h opts body l2)
        ≡ ok (packet pre (record h { checksum = c }) opts body l2))
      × (validate_checksum (packet pre (record h { checksum = c }) opts body l2) ≡ ok true)
validate_checksum-set_checksum pre h opts body l2 w bytes = (
  c,
  set_checksum_lem pre h opts body l2 w bytes,
  validate_checksum_lem pre h' opts body l2 whole bytes ∙ ap ok (==_eq sum),
)
  where
    c : ℕ
    c = calculated pre h opts body l2 w bytes

    h' : Header
    h' = record h { checksum = c }

    whole : IsWhole h' opts
    whole = omega (arith, w, calculated-lt pre h opts body l2 w bytes)

    sum : (others h' opts + c) % 65535 ≡ 0
    sum = unfold others in calculated_sum pre h opts body l2 w bytes
