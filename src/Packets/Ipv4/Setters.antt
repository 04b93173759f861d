-- ===== src/Packets/Ipv4/Setters.antt =====
-- What each setter of ipv4.rs writes in the layout.
use route_rs.Common.{
  ℕ, ◌+◌, ◌*◌, ◌/◌, ◌%◌, ◌^◌, ◌≡◌, refl, sym, ap₂, ◌∙◌, Option, List, ◌++◌, Bool, true, false,
  bit_and, bit_or, ==_eq, arith, length, ok, index-append, write_at-append, copy_from_slice-append,
  copy_inclusive-append, overwrite_front, write_at_mid, all_below,
}
use Prim.Native.Nat.{max}
use native.Mathlib.Nat.{add-zero}
use route_rs.Common.Bytes.{u8}
use route_rs.Common.Masks.{
  byte_table, and_e0, and_fc, and_03, and_1f, and_ff, or_4, or_32, low_or_4,
}
use route_rs.Packets.Types.{Ipv4Addr, Ipv4Packet}
use route_rs.Packets.Ipv4.Layout.{Header, IsHeader, flag_byte, encode, assemble}
use route_rs.Packets.Ipv4.{
  set_src_addr, set_dest_addr, set_protocol, set_ttl, set_dscp, set_ecn, set_identification,
  set_fragment_offset, flag_bits, set_flags,
}

module _ (h : Header) (v : IsHeader h) where
  dscp_byte :
      (d : ℕ) → bit_or (bit_and (h.dscp * 4 + h.ecn) 0x03) (u8 (d * 2 ^ 2)) ≡ d % 64 * 4 + h.ecn
  dscp_byte d =
      ap₂ bit_or (and_03 (h.dscp * 4 + h.ecn) ∙ low) high ∙ low_or_4 (d % 64) h.ecn v.ecn_range
    where
      low : (h.dscp * 4 + h.ecn) % 4 ≡ h.ecn
      low = omega (arith, v)

      high : u8 (d * 2 ^ 2) ≡ d % 64 * 4
      high = omega arith

  ecn_byte :
      (e : ℕ) → bit_or (bit_and (h.dscp * 4 + h.ecn) 0xFC) (bit_and e 0x03) ≡ h.dscp * 4 + e % 4
  ecn_byte e =
      ap₂ bit_or (and_fc (h.dscp * 4 + h.ecn) (omega (arith, v)) ∙ high) (and_03 e)
      ∙ or_4 h.dscp (e % 4) (omega arith)
    where
      high : (h.dscp * 4 + h.ecn) / 4 * 4 ≡ h.dscp * 4
      high = omega (arith, v)

  fragment_byte :
      (x : ℕ)
      → bit_or (bit_and (flag_byte h) 0xE0) (bit_and (u8 (x / 2 ^ 8)) 0x1F)
        ≡ ((h.reserved * 2 + h.df) * 2 + h.mf) * 32 + x % 2 ^ 13 / 256
  fragment_byte x =
      ap₂ bit_or (and_e0 (flag_byte h) (omega (arith, v)) ∙ high) (and_1f (u8 (x / 2 ^ 8)) ∙ low)
      ∙ or_32 ((h.reserved * 2 + h.df) * 2 + h.mf) (x % 2 ^ 13 / 256) (omega arith)
    where
      high : flag_byte h / 32 * 32 ≡ ((h.reserved * 2 + h.df) * 2 + h.mf) * 32
      high = omega (arith, v)

      low : u8 (x / 2 ^ 8) % 32 ≡ x % 2 ^ 13 / 256
      low = omega arith

low_byte : (x : ℕ) → u8 (bit_and x 0x00FF) ≡ x % 2 ^ 13 % 256
low_byte x = omega (arith, and_ff x)

module _ (pre : List ℕ) (h : Header) (rest : List ℕ) (l2 : Option ℕ) (po : ℕ) (v : IsHeader h) where
  abbrev now : Header → Ipv4Packet
  now h' = assemble pre h' rest l2 po

  -- On the layout of an IPv4 header in range, each of the eight setters but `set_flags`, `set_ihl`
  -- and `set_checksum` replaces its own field and nothing else: DSCP, ECN and the fragment offset
  -- cut to 6, 2 and 13 bits, and an address of 4 octets.
  pub ipv4_setters :
      (x : ℕ) (a : Ipv4Addr)
      → length a.octets ≡ 4
      → (set_dscp (now h) x ≡ ok (now (record h { dscp = x % 64 })))
        × (set_ecn (now h) x ≡ ok (now (record h { ecn = x % 4 })))
        × (set_identification (now h) x ≡ ok (now (record h { identification = x })))
        × (set_fragment_offset (now h) x ≡ ok (now (record h { fragment_offset = x % 2 ^ 13 })))
        × (set_ttl (now h) x ≡ ok (now (record h { ttl = x })))
        × (set_protocol (now h) x ≡ ok (now (record h { protocol = x })))
        × (set_src_addr (now h) a ≡ ok (now (record h { src = a.octets })))
        × (set_dest_addr (now h) a ≡ ok (now (record h { dest = a.octets })))
  unfolding set_dscp set_ecn set_identification set_fragment_offset set_ttl set_protocol
      set_src_addr set_dest_addr
  ipv4_setters x a e = (
    rw (index-append, write_at-append, index-append, write_at-append, dscp_byte h v x),
    rw (index-append, write_at-append, index-append, write_at-append, ecn_byte h v x),
    rw (copy_inclusive-append pre (encode h rest) _ 4 5),
    rw (
      index-append,
      write_at-append,
      index-append,
      write_at-append,
      write_at-append,
      fragment_byte h v x,
      low_byte x,
    ),
    rw (write_at-append),
    rw (write_at-append),
    rw (
      copy_from_slice-append pre (encode h rest) a.octets 12 16,
      ==_eq e,
      overwrite_front h.src (h.dest ++ rest) a.octets (e ∙ sym v.src_len),
    ),
    rw (
      copy_from_slice-append pre (encode h rest) a.octets 16 20,
      ==_eq e,
      write_at_mid h.src h.dest rest a.octets 4 v.src_len (e ∙ sym v.dest_len),
    ),
  )

abbrev pub bit_of : Bool → ℕ
bit_of true = 1
bit_of false = 0

-- The byte that `set_flags` leaves.
flags_byte :
    (h : Header)
    → IsHeader h
    → (df mf : Bool)
    → bit_or (bit_and (flag_byte h) 0xE0) (u8 (flag_bits df mf * 2 ^ 5))
      ≡ ((h.reserved * 2 + max h.df (bit_of df)) * 2 + max h.mf (bit_of mf)) * 32
unfolding flag_bits all_below
flags_byte h v false false = omega (
  arith,
  v,
  byte_table (λ b. bit_or (bit_and b 0xE0) 0) (λ b. b / 32 * 32) refl (flag_byte h)
      (omega (arith, v)),
)
flags_byte h v false true = omega (
  arith,
  v,
  byte_table (λ b. bit_or (bit_and b 0xE0) 32) (λ b. b / 64 * 64 + 32) refl (flag_byte h)
      (omega (arith, v)),
)
flags_byte h v true false = omega (
  arith,
  v,
  byte_table (λ b. bit_or (bit_and b 0xE0) 64) (λ b. b / 128 * 128 + 64 + b / 32 % 2 * 32) refl
      (flag_byte h) (omega (arith, v)),
)
flags_byte h v true true = omega (
  arith,
  v,
  byte_table (λ b. bit_or (bit_and b 0xE0) 96) (λ b. b / 128 * 128 + 96) refl (flag_byte h)
      (omega (arith, v)),
)

-- On the layout of an IPv4 header in range, `set_flags` sets the flags that it is given, keeps a
-- flag that was set before, and cuts the fragment offset to its low byte.
pub set_flags_lem :
    (pre : List ℕ) (h : Header) (rest : List ℕ) (l2 : Option ℕ) (po : ℕ)
    → IsHeader h
    → (df mf : Bool)
    → set_flags (assemble pre h rest l2 po) df mf
      ≡ ok (
          assemble pre
            (record h {
              df = max h.df (bit_of df);
              mf = max h.mf (bit_of mf);
              fragment_offset = h.fragment_offset % 256;
            })
            rest
            l2
            po)
unfolding set_flags
set_flags_lem pre h rest l2 po v df mf = rw (
  index-append,
  write_at-append,
  index-append,
  write_at-append,
  flags_byte h v df mf,
  top,
  low,
  add-zero,
)
  where
    top : h.fragment_offset % 256 / 256 ≡ 0
    top = omega arith

    low : h.fragment_offset % 256 % 256 ≡ h.fragment_offset % 256
    low = omega arith
