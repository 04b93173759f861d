-- ===== src/Packets/Ethernet/Layout.antt =====
-- The layout of an Ethernet II frame that starts its buffer: what each accessor of ethernet.rs reads
-- and writes in it.
use route_rs.Common.{
  ℕ, ◌+◌, ◌*◌, ◌≤◌, ◌<◌, ◌^◌, ◌≡◌, sym, ap, subst, ap₂, ◌∙◌, ◌⊎◌, inl, inr, panic, err,
  suffix_short, lt→ltb, List, [], ◌∷◌, ◌++◌, arith, length, ok, prefix, prefix_front, suffix_end,
  suffix_past, overwrite_front, write_at_mid, write_at_past, take_past, length-append, le→ltb,
  ==_eq,
}
use native.Mathlib.Decide.{dec_lt}
use mathlib.Core.List.{append_assoc, append-nil}
use route_rs.Common.Bytes.{u16_to_be_bytes, u16_be_bytes, IsBytes}
use route_rs.Packets.Types.{MacAddr, EthernetFrame}
use route_rs.Packets.Ethernet.{
  from_buffer, dest_mac, src_mac, set_dest_mac, set_src_mac, ether_type, set_ether_type, payload,
  set_payload,
}

-- The fields of a frame.
pub record Fields : Type 0 where
  pub dest : List ℕ
  pub src : List ℕ
  pub kind : ℕ
  pub body : List ℕ

pub record IsFields (f : Fields) : Type 0 where
  pub dest_len : length f.dest ≡ 6
  pub src_len : length f.src ≡ 6
  pub kind_range : f.kind < 2 ^ 16

-- The bytes of the fields, and the frame over them.
abbrev pub encode : Fields → List ℕ
encode f = f.dest ++ (f.src ++ (u16_to_be_bytes f.kind ++ f.body))

abbrev pub assemble : Fields → EthernetFrame
assemble f = record { data_bytes = encode f; layer2_offset = 0; payload_offset = 14 }

-- What follows the destination, and what follows the source.
abbrev rest : Fields → List ℕ
rest f = u16_to_be_bytes f.kind ++ f.body

abbrev tail : Fields → List ℕ
tail f = f.src ++ rest f

whole_mac : (m : MacAddr) → length m.bytes ≡ 6 → prefix m.bytes 6 ≡ ok m.bytes
whole_mac m h = ap (λ zs. prefix zs 6) (sym (append-nil m.bytes)) ∙ prefix_front m.bytes [] 6 h

length-encode : (f : Fields) → IsFields f → length (encode f) ≡ 14 + length f.body
length-encode f v = omega (
  arith,
  length-append f.dest (f.src ++ (u16_to_be_bytes f.kind ++ f.body)),
  length-append f.src (u16_to_be_bytes f.kind ++ f.body),
)

module _ (f : Fields) (v : IsFields f) where
  -- On the layout of an Ethernet frame's fields in range, `from_buffer` at offset 0 gives the
  -- frame, and `dest_mac`, `src_mac`, `ether_type` and `payload` read its fields.
  pub ethernet_getters :
      (from_buffer (encode f) 0 ≡ ok (assemble f))
      × (dest_mac (assemble f) ≡ ok (record { bytes = f.dest }))
      × (src_mac (assemble f) ≡ ok (record { bytes = f.src }))
      × (ether_type (assemble f) ≡ ok f.kind)
      × (payload (assemble f) ≡ ok f.body)
  unfolding from_buffer dest_mac src_mac ether_type payload
  ethernet_getters = (
    rw (le→ltb (length (encode f)) 14 (omega (arith, length-encode f v))),
    rw (prefix_front f.dest (tail f) 6 v.dest_len, ==_eq v.dest_len),
    rw (
      suffix_end f.dest (tail f) 6 v.dest_len,
      prefix_front f.src (rest f) 6 v.src_len,
      ==_eq v.src_len,
    ),
    rw (suffix_past f.dest (tail f) 6 6 v.dest_len, suffix_end f.src (rest f) 6 v.src_len)
        (ap ok (u16_be_bytes f.kind v.kind_range)),
    suffix_past f.dest (tail f) 6 8 v.dest_len ∙ suffix_past f.src (rest f) 6 2 v.src_len,
  )

  -- On an Ethernet frame that starts its buffer, with its fields in range, `set_dest_mac`,
  -- `set_src_mac` with an address of 6 bytes, `set_ether_type` and `set_payload` each replace
  -- their field and nothing else.
  pub ethernet_setters :
      (m : MacAddr) (k : ℕ) (body : List ℕ)
      → length m.bytes ≡ 6
      → (set_dest_mac (assemble f) m ≡ ok (assemble (record f { dest = m.bytes })))
        × (set_src_mac (assemble f) m ≡ ok (assemble (record f { src = m.bytes })))
        × (set_ether_type (assemble f) k ≡ ok (assemble (record f { kind = k })))
        × (set_payload (assemble f) body ≡ assemble (record f { body = body }))
  unfolding set_dest_mac set_src_mac set_ether_type set_payload
  ethernet_setters m k body h = (
    rw (whole_mac m h, ==_eq h, overwrite_front f.dest (tail f) m.bytes (h ∙ sym v.dest_len)),
    rw (
      whole_mac m h,
      ==_eq h,
      write_at_mid f.dest f.src (rest f) m.bytes 6 v.dest_len (h ∙ sym v.src_len),
    ),
    rw (
      write_at_past f.dest (tail f) (u16_to_be_bytes k) 6 6 v.dest_len,
      write_at_past f.src (rest f) (u16_to_be_bytes k) 6 0 v.src_len,
    ),
    rw (take_past f.dest (tail f) 6 8 v.dest_len, take_past f.src (rest f) 6 2 v.src_len)
        (simp append_assoc),
  )

-- Every buffer of at least 14 bytes is the layout of some fields.
decode_lem : (d : List ℕ) → IsBytes d → 14 ≤ length d → (f : Fields) × IsFields f × (encode f ≡ d)
decode_lem (a ∷ b ∷ c ∷ e ∷ g ∷ i ∷ j ∷ k ∷ l ∷ m ∷ n ∷ o ∷ p ∷ q ∷ body) h len = (
  record {
    dest = a ∷ b ∷ c ∷ e ∷ g ∷ i ∷ [];
    src = j ∷ k ∷ l ∷ m ∷ n ∷ o ∷ [];
    kind = p * 256 + q;
    body = body;
  },
  omega arith,
  ap₂ (λ x y. a ∷ b ∷ c ∷ e ∷ g ∷ i ∷ j ∷ k ∷ l ∷ m ∷ n ∷ o ∷ x ∷ y ∷ body) (omega arith)
      (omega arith),
)
decode_lem _ h len = absurd (omega arith)

-- On any buffer of bytes, `EthernetFrame::from_buffer` at offset 0 fails below 14 bytes, and
-- otherwise gives the frame over the fields whose layout the buffer is.
pub ethernet_from_buffer :
    (d : List ℕ)
    → IsBytes d
    → ((length d < 14) × (from_buffer d 0 ≡ err "Frame is less than the minimum of 14 bytes"))
      ⊎ ((f : Fields) × IsFields f × (encode f ≡ d) × (from_buffer d 0 ≡ ok (assemble f)))
ethernet_from_buffer d h = elim (dec_lt (length d) 14) [
  | yes short ↦ inl (short, unfold from_buffer in rw (lt→ltb _ _ short))
  | no long ↦
      let (f, v, e) = decode_lem d h (omega arith) in
      inr (f, v, e, subst (λ b. from_buffer b 0 ≡ ok (assemble f)) e (ethernet_getters f v).0)
]

-- On a buffer of at least 14 bytes but of fewer than 14 past the offset, `from_buffer` at that
-- offset gives a frame, and `payload` of that frame panics.
pub payload-from_buffer_panics :
    (d : List ℕ) (offset : ℕ)
    → 14 ≤ length d
    → length d < 14 + offset
    → (frame : EthernetFrame) × (from_buffer d offset ≡ ok frame) × (payload frame ≡ panic)
unfolding from_buffer payload
payload-from_buffer_panics d offset h short = (
  record { data_bytes = d; layer2_offset = offset; payload_offset = 14 + offset },
  rw (le→ltb _ _ h),
  suffix_short d (14 + offset) short,
)
