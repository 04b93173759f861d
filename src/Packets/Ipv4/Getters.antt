-- ===== src/Packets/Ipv4/Getters.antt =====
-- What each getter of ipv4.rs reads in the layout.
use route_rs.Common.{
  ℕ, suc, ◌+◌, ◌<◌, bit_and, ◌*◌, ◌≡◌, ap, ap₂, ◌∙◌, Option, List, ◌++◌, not, ◌==◌, ==_eq, arith,
  ok, index-append, index-append_zero, slice-append, slice_inclusive-append, prefix_front,
  suffix_end,
}
use route_rs.Common.Bytes.{u16_be_bytes}
use route_rs.Common.Masks.{and_0f, and_03, and_1f, and_40, and_20}
use route_rs.Packets.Protocol.{from_u8}
use route_rs.Packets.Ipv4.Layout.{Header, IsHeader, flag_byte, encode, assemble}
use route_rs.Packets.Ipv4.{
  src_addr, dest_addr, ihl, protocol, total_len, ttl, checksum, dscp, ecn, indentification,
  fragment_offset, flags,
}

-- A flag bit read through its mask.
flag_test : (k b d : ℕ) → d < 2 → b ≡ d * suc k → not (b == 0) ≡ (d == 1)
flag_test k b d h e = ground arith

module _ (pre : List ℕ) (h : Header) (rest : List ℕ) (l2 : Option ℕ) (po : ℕ) (v : IsHeader h) where
  first_byte : ihl (assemble pre h rest l2 po) ≡ ok h.ihl
  unfolding ihl
  first_byte =
      rw (index-append_zero pre (encode h rest))
        (ap ok (and_0f (h.version * 16 + h.ihl) ∙ omega (arith, v)))

  second_byte :
      (dscp (assemble pre h rest l2 po) ≡ ok h.dscp) × (ecn (assemble pre h rest l2 po) ≡ ok h.ecn)
  unfolding dscp ecn
  second_byte = (
    rw (index-append pre (encode h rest) 1) (ap ok (omega (arith, v))),
    rw (index-append pre (encode h rest) 1)
        (ap ok (and_03 (h.dscp * 4 + h.ecn) ∙ omega (arith, v))),
  )

  -- On the layout of an IPv4 header in range behind any front, the getters `ihl`, `dscp`, `ecn`,
  -- `total_len`, `indentification`, `flags`, `fragment_offset`, `ttl`, `protocol`, `checksum`,
  -- `src_addr` and `dest_addr` read the fields of the header.
  pub ipv4_getters :
      let p = assemble pre h rest l2 po in
      (ihl p ≡ ok h.ihl)
      × (dscp p ≡ ok h.dscp)
      × (ecn p ≡ ok h.ecn)
      × (total_len p ≡ ok h.total_len)
      × (indentification p ≡ ok h.identification)
      × (flags p ≡ ok (h.df == 1, h.mf == 1))
      × (fragment_offset p ≡ ok h.fragment_offset)
      × (ttl p ≡ ok h.ttl)
      × (protocol p ≡ ok (from_u8 h.protocol))
      × (checksum p ≡ ok h.checksum)
      × (src_addr p ≡ ok (record { octets = h.src }))
      × (dest_addr p ≡ ok (record { octets = h.dest }))
  unfolding total_len indentification flags fragment_offset ttl protocol checksum src_addr dest_addr
  ipv4_getters = (
    first_byte,
    second_byte.0,
    second_byte.1,
    rw (slice_inclusive-append pre (encode h rest) 2 3)
        (ap ok (u16_be_bytes h.total_len v.total_len_range)),
    rw (slice_inclusive-append pre (encode h rest) 4 5)
        (ap ok (u16_be_bytes h.identification v.identification_range)),
    rw (index-append pre (encode h rest) 6) (
        ap ok (
          ap₂ (λ x y. (x, y))
            (flag_test 63 (bit_and (flag_byte h) 0x40) h.df v.df_range
              (omega (arith, v, and_40 (flag_byte h))))
            (flag_test 31 (bit_and (flag_byte h) 0x20) h.mf v.mf_range
              (omega (arith, v, and_20 (flag_byte h)))))),
    rw (index-append pre (encode h rest) 6, index-append pre (encode h rest) 7)
        (ap ok (omega (arith, v, and_1f (flag_byte h)))),
    index-append pre (encode h rest) 8,
    rw (index-append pre (encode h rest) 9),
    rw (slice_inclusive-append pre (encode h rest) 10 11)
        (ap ok (u16_be_bytes h.checksum v.checksum_range)),
    rw (
      slice-append pre (encode h rest) 12 16,
      prefix_front h.src (h.dest ++ rest) 4 v.src_len,
      ==_eq v.src_len,
    ),
    rw (
      slice-append pre (encode h rest) 16 20,
      suffix_end h.src (h.dest ++ rest) 4 v.src_len,
      prefix_front h.dest rest 4 v.dest_len,
      ==_eq v.dest_len,
    ),
  )
