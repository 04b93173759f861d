-- ===== src/Packets/Tcp/Layout.antt =====
-- The layout of a TCP segment, and what tcp.rs reads and writes in it.
use route_rs.Common.{
  ℕ, ◌+◌, ◌*◌, ◌/◌, ◌%◌, ◌^◌, ◌<◌, ◌≡◌, ap, Option, List, ◌∷◌, ◌++◌, arith, length, ok,
  slice_inclusive-append, copy_inclusive-append, length-append, le→ltb, slice_inclusive-append_zero,
  copy_inclusive-append_zero, index-append, bit_and,
}
use route_rs.Common.Bytes.{u16_be_bytes, u32_be_bytes}
use route_rs.Common.Masks.{and_f0}
use route_rs.Packets.Types.{TcpSegment}
use route_rs.Packets.Tcp.{
  from_buffer, check_protocol, get_u16, put_bytes, src_port, set_src_port, dest_port, set_dest_port,
  sequence_number, set_sequence_number, acknowledgment_number, set_acknowledgment_number,
  data_offset, window_size, set_window_size, checksum, set_checksum, urgent_pointer,
  set_urgent_pointer,
}

-- `low_bits` are the four bits behind the data offset, `bits` the byte behind them.
pub record Header : Type 0 where
  pub src_port : ℕ
  pub dest_port : ℕ
  pub sequence : ℕ
  pub acknowledgment : ℕ
  pub offset : ℕ
  pub low_bits : ℕ
  pub bits : ℕ
  pub window : ℕ
  pub checksum : ℕ
  pub urgent : ℕ

pub record IsHeader (h : Header) : Type 0 where
  pub src_range : h.src_port < 2 ^ 16
  pub dest_range : h.dest_port < 2 ^ 16
  pub sequence_range : h.sequence < 2 ^ 32
  pub acknowledgment_range : h.acknowledgment < 2 ^ 32
  pub offset_range : h.offset < 16
  pub low_range : h.low_bits < 16
  pub bits_range : h.bits < 256
  pub window_range : h.window < 2 ^ 16
  pub checksum_range : h.checksum < 2 ^ 16
  pub urgent_range : h.urgent < 2 ^ 16

abbrev pub encode : Header → List ℕ → List ℕ
encode h rest =
    (h.src_port / 256 % 256)
    ∷ (h.src_port % 256)
    ∷ (h.dest_port / 256 % 256)
    ∷ (h.dest_port % 256)
    ∷ (h.sequence / 16777216 % 256)
    ∷ (h.sequence / 65536 % 256)
    ∷ (h.sequence / 256 % 256)
    ∷ (h.sequence % 256)
    ∷ (h.acknowledgment / 16777216 % 256)
    ∷ (h.acknowledgment / 65536 % 256)
    ∷ (h.acknowledgment / 256 % 256)
    ∷ (h.acknowledgment % 256)
    ∷ (h.offset * 16 + h.low_bits)
    ∷ h.bits
    ∷ (h.window / 256 % 256)
    ∷ (h.window % 256)
    ∷ (h.checksum / 256 % 256)
    ∷ (h.checksum % 256)
    ∷ (h.urgent / 256 % 256)
    ∷ (h.urgent % 256)
    ∷ rest

-- A segment over a buffer: `pre` stands in front of the header.
abbrev pub assemble : List ℕ → Header → List ℕ → Option ℕ → Option ℕ → ℕ → TcpSegment
assemble pre h rest l2 l3 po = record {
  data_bytes = pre ++ encode h rest;
  layer2_offset = l2;
  layer3_offset = l3;
  layer4_offset = length pre;
  payload_offset = po;
}

module _ (pre : List ℕ) (h : Header) (rest : List ℕ) (l2 l3 : Option ℕ) (po : ℕ) where
  abbrev now : Header → TcpSegment
  now h' = assemble pre h' rest l2 l3 po

  top : IsHeader h → bit_and (h.offset * 16 + h.low_bits) 0xF0 / 16 ≡ h.offset
  top v = omega (arith, v, and_f0 (h.offset * 16 + h.low_bits))

  -- On the layout of a TCP header in range behind any front, the getters of the ports, the two
  -- numbers, the data offset, the window size, the checksum and the urgent pointer read the fields
  -- of the header.
  pub tcp_getters :
      IsHeader h
      → (src_port (now h) ≡ ok h.src_port)
        × (dest_port (now h) ≡ ok h.dest_port)
        × (sequence_number (now h) ≡ ok h.sequence)
        × (acknowledgment_number (now h) ≡ ok h.acknowledgment)
        × (data_offset (now h) ≡ ok h.offset)
        × (window_size (now h) ≡ ok h.window)
        × (checksum (now h) ≡ ok h.checksum)
        × (urgent_pointer (now h) ≡ ok h.urgent)
  unfolding src_port dest_port sequence_number acknowledgment_number data_offset window_size
      checksum urgent_pointer get_u16
  tcp_getters v = (
    rw (slice_inclusive-append_zero pre (encode h rest) 1)
        (ap ok (u16_be_bytes h.src_port v.src_range)),
    rw (slice_inclusive-append pre (encode h rest) 2 3)
        (ap ok (u16_be_bytes h.dest_port v.dest_range)),
    rw (slice_inclusive-append pre (encode h rest) 4 7)
        (ap ok (u32_be_bytes h.sequence v.sequence_range)),
    rw (slice_inclusive-append pre (encode h rest) 8 11)
        (ap ok (u32_be_bytes h.acknowledgment v.acknowledgment_range)),
    rw (index-append pre (encode h rest) 12) (ap ok (top v)),
    rw (slice_inclusive-append pre (encode h rest) 14 15)
        (ap ok (u16_be_bytes h.window v.window_range)),
    rw (slice_inclusive-append pre (encode h rest) 16 17)
        (ap ok (u16_be_bytes h.checksum v.checksum_range)),
    rw (slice_inclusive-append pre (encode h rest) 18 19)
        (ap ok (u16_be_bytes h.urgent v.urgent_range)),
  )

  -- On the layout of a TCP header, the setters of the ports, the sequence number, the window size,
  -- the checksum and the urgent pointer replace their own field and nothing else.
  pub tcp_setters :
      (x : ℕ)
      → (set_src_port (now h) x ≡ ok (now (record h { src_port = x })))
        × (set_dest_port (now h) x ≡ ok (now (record h { dest_port = x })))
        × (set_sequence_number (now h) x ≡ ok (now (record h { sequence = x })))
        × (set_window_size (now h) x ≡ ok (now (record h { window = x })))
        × (set_checksum (now h) x ≡ ok (now (record h { checksum = x })))
        × (set_urgent_pointer (now h) x ≡ ok (now (record h { urgent = x })))
  unfolding set_src_port set_dest_port set_sequence_number set_window_size set_checksum
      set_urgent_pointer put_bytes
  tcp_setters x = (
    rw (copy_inclusive-append_zero pre (encode h rest) _ 1),
    rw (copy_inclusive-append pre (encode h rest) _ 2 3),
    rw (copy_inclusive-append pre (encode h rest) _ 4 7),
    rw (copy_inclusive-append pre (encode h rest) _ 14 15),
    rw (copy_inclusive-append pre (encode h rest) _ 16 17),
    rw (copy_inclusive-append pre (encode h rest) _ 18 19),
  )

  -- On the layout of a TCP header, `set_acknowledgment_number` replaces the sequence number and
  -- nothing else.
  pub set_acknowledgment_number_lem :
      (x : ℕ) → set_acknowledgment_number (now h) x ≡ ok (now (record h { sequence = x }))
  unfolding set_acknowledgment_number put_bytes
  set_acknowledgment_number_lem x = rw (copy_inclusive-append pre (encode h rest) _ 4 7)

  -- On the layout of a TCP header in range behind any front for which the test of the IP header in
  -- front passes, `TcpSegment::from_buffer` gives the segment with its payload offset 4 * data
  -- offset past the front.
  pub tcp_from_buffer :
      IsHeader h
      → check_protocol (pre ++ encode h rest) l3 ≡ ok tt
      → from_buffer (pre ++ encode h rest) l2 l3 (length pre)
        ≡ ok (assemble pre h rest l2 l3 (length pre + h.offset * 4))
  unfolding from_buffer
  tcp_from_buffer v checked = rw (
    le→ltb (length (pre ++ encode h rest)) (length pre + 20)
        (omega (arith, length-append pre (encode h rest))),
    checked,
    index-append pre (encode h rest) 12,
    top v,
  )
