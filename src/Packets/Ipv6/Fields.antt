-- ===== src/Packets/Ipv6/Fields.antt =====
-- What the getters and setters of ipv6.rs read and write in the layout.
use route_rs.Common.{
  ℕ, ◌+◌, ◌*◌, ◌/◌, ◌%◌, ◌<◌, ◌^◌, ◌≡◌, ◌↔◌, sym, ap, ap₂, ◌∙◌, Option, List, ◌++◌, bit_and, bit_or,
  ==_eq, arith, length, ok, index-append, index-append_zero, write_at-append, write_at-append_zero,
  slice-append, slice_inclusive-append, copy_from_slice-append, copy_inclusive-append, prefix_front,
  suffix_end, overwrite_front, write_at_mid, ok_inj,
}
use route_rs.Common.Bytes.{u8, u16, u16_be_bytes}
use route_rs.Common.Bits.{and-mask}
use route_rs.Common.Masks.{and_0f, and_f0, or_16, low_or_16}
use route_rs.Packets.Types.{Ipv6Addr, Ipv6Packet}
use route_rs.Packets.Protocol.{from_u8}
use route_rs.Packets.Ipv6.Layout.{Header, IsHeader, encode, assemble}
use route_rs.Packets.Ipv6.{
  traffic_class, set_traffic_class, flow_label, set_flow_label, payload_length, next_header,
  set_next_header, hop_limit, set_hop_limit, src_addr, dest_addr, set_src_addr, set_dest_addr,
}

module _ (h : Header) (v : IsHeader h) where
  -- The first two bytes, as `set_traffic_class` leaves them.
  class_high :
      (x : ℕ)
      → x < 256
      → bit_or (bit_and (h.version * 16 + h.traffic_class / 16) 0xF0) (x / 2 ^ 4)
        ≡ h.version * 16 + x / 16
  class_high x r =
      ap (λ t. bit_or t (x / 16))
        (and_f0 (h.version * 16 + h.traffic_class / 16) (omega (arith, v)) ∙ high)
      ∙ or_16 h.version (x / 16) (omega arith)
    where
      high : (h.version * 16 + h.traffic_class / 16) / 16 * 16 ≡ h.version * 16
      high = omega (arith, v)

  class_low :
      (x : ℕ)
      → bit_or (bit_and (h.traffic_class % 16 * 16 + h.flow_label / 65536) 0x0F) (u8 (x * 2 ^ 4))
        ≡ x % 16 * 16 + h.flow_label / 65536
  class_low x =
      ap₂ bit_or (and_0f (h.traffic_class % 16 * 16 + h.flow_label / 65536) ∙ low) high
      ∙ low_or_16 (x % 16) (h.flow_label / 65536) (omega (arith, v))
    where
      low : (h.traffic_class % 16 * 16 + h.flow_label / 65536) % 16 ≡ h.flow_label / 65536
      low = omega (arith, v)

      high : u8 (x * 2 ^ 4) ≡ x % 16 * 16
      high = omega arith

  -- The byte that `set_flow_label` leaves.
  label_high :
      (x : ℕ)
      → bit_or
          (bit_and (h.traffic_class % 16 * 16 + h.flow_label / 65536) 0xF0)
          (u8 (bit_and x 0x000F_FFFF / 2 ^ 16))
        ≡ h.traffic_class % 16 * 16 + x % 2 ^ 20 / 65536
  label_high x =
      ap₂ (λ s t. bit_or s (u8 (t / 65536)))
        (and_f0 (h.traffic_class % 16 * 16 + h.flow_label / 65536) (omega (arith, v)) ∙ high)
        (and-mask 20 x)
      ∙ ap (bit_or (h.traffic_class % 16 * 16)) small
      ∙ or_16 (h.traffic_class % 16) (x % 2 ^ 20 / 65536) (omega arith)
    where
      high :
          (h.traffic_class % 16 * 16 + h.flow_label / 65536) / 16 * 16 ≡ h.traffic_class % 16 * 16
      high = omega (arith, v)

      small : u8 (x % 2 ^ 20 / 65536) ≡ x % 2 ^ 20 / 65536
      small = omega arith

label_mid : (x : ℕ) → u16 x / 256 % 256 ≡ x % 2 ^ 20 / 256 % 256
label_mid x = omega arith

label_low : (x : ℕ) → u16 x % 256 ≡ x % 2 ^ 20 % 256
label_low x = omega arith

module _ (pre : List ℕ) (h : Header) (rest : List ℕ) (l2 : Option ℕ) (po : ℕ) (v : IsHeader h) where
  -- On the layout of an IPv6 header in range behind any front, the getters `flow_label`,
  -- `payload_length`, `next_header`, `hop_limit`, `src_addr` and `dest_addr` read the fields of
  -- the header.
  pub ipv6_getters :
      let p = assemble pre h rest l2 po in
      (flow_label p ≡ ok h.flow_label)
      × (payload_length p ≡ ok h.payload_length)
      × (next_header p ≡ ok (from_u8 h.next_header))
      × (hop_limit p ≡ ok h.hop_limit)
      × (src_addr p ≡ ok (record { octets = h.src }))
      × (dest_addr p ≡ ok (record { octets = h.dest }))
  unfolding flow_label payload_length next_header hop_limit src_addr dest_addr
  ipv6_getters = (
    rw
        (
          index-append pre (encode h rest) 1,
          index-append pre (encode h rest) 2,
          index-append pre (encode h rest) 3,
        )
        (ap ok (omega (arith, v, and_0f (h.traffic_class % 16 * 16 + h.flow_label / 65536)))),
    rw (slice_inclusive-append pre (encode h rest) 4 5)
        (ap ok (u16_be_bytes h.payload_length v.payload_length_range)),
    rw (index-append pre (encode h rest) 6),
    index-append pre (encode h rest) 7,
    rw (
      slice-append pre (encode h rest) 8 24,
      prefix_front h.src (h.dest ++ rest) 16 v.src_len,
      ==_eq v.src_len,
    ),
    rw (
      slice-append pre (encode h rest) 24 40,
      suffix_end h.src (h.dest ++ rest) 16 v.src_len,
      prefix_front h.dest rest 16 v.dest_len,
      ==_eq v.dest_len,
    ),
  )

  -- `traffic_class` takes its low four bits from the top of the flow label.
  traffic_class_value :
      traffic_class (assemble pre h rest l2 po)
      ≡ ok (h.traffic_class / 16 * 16 + h.flow_label / 65536)
  unfolding traffic_class
  traffic_class_value =
      rw (index-append_zero pre (encode h rest), index-append pre (encode h rest) 1)
        (ap ok (
          omega (
            arith,
            v,
            and_0f (h.version * 16 + h.traffic_class / 16),
            and_0f (h.traffic_class % 16 * 16 + h.flow_label / 65536),
          )))

  -- On the layout of an IPv6 header in range, `traffic_class` gives the traffic class exactly when
  -- its low four bits are the top four bits of the flow label.
  pub traffic_class_iff :
      (traffic_class (assemble pre h rest l2 po) ≡ ok h.traffic_class)
      ↔ (h.traffic_class % 16 ≡ h.flow_label / 65536)
  traffic_class_iff =
      rw traffic_class_value ((λ e. omega (arith, ok_inj e)), (λ e. ap ok (omega arith)))

  abbrev now : Header → Ipv6Packet
  now h' = assemble pre h' rest l2 po

  -- On the layout of an IPv6 header in range, each setter replaces its own field and nothing else,
  -- for a traffic class, next header and hop limit below 256, a flow label cut to 20 bits, and an
  -- address of 16 octets.
  pub ipv6_setters :
      (x n : ℕ) (a : Ipv6Addr)
      → x < 256
      → length a.octets ≡ 16
      → (set_traffic_class (now h) x ≡ ok (now (record h { traffic_class = x })))
        × (set_flow_label (now h) n ≡ ok (now (record h { flow_label = n % 2 ^ 20 })))
        × (set_next_header (now h) x ≡ ok (now (record h { next_header = x })))
        × (set_hop_limit (now h) x ≡ ok (now (record h { hop_limit = x })))
        × (set_src_addr (now h) a ≡ ok (now (record h { src = a.octets })))
        × (set_dest_addr (now h) a ≡ ok (now (record h { dest = a.octets })))
  unfolding set_traffic_class set_flow_label set_next_header set_hop_limit set_src_addr
      set_dest_addr
  ipv6_setters x n a r e = (
    rw (
      index-append_zero,
      write_at-append_zero,
      index-append,
      write_at-append,
      index-append_zero,
      write_at-append_zero,
      index-append,
      write_at-append,
      class_high h v x r,
      class_low h v x,
    ),
    rw (
      index-append,
      write_at-append,
      index-append,
      write_at-append,
      copy_inclusive-append pre _ _ 2 3,
      label_high h v n,
      label_mid n,
      label_low n,
    ),
    rw write_at-append,
    rw write_at-append,
    rw (
      copy_from_slice-append pre (encode h rest) a.octets 8 24,
      ==_eq e,
      overwrite_front h.src (h.dest ++ rest) a.octets (e ∙ sym v.src_len),
    ),
    rw (
      copy_from_slice-append pre (encode h rest) a.octets 24 40,
      ==_eq e,
      write_at_mid h.src h.dest rest a.octets 16 v.src_len (e ∙ sym v.dest_len),
    ),
  )
