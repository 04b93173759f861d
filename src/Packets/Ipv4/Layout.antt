-- ===== src/Packets/Ipv4/Layout.antt =====
-- The layout of an IPv4 header: its fields, and their bytes behind whatever precedes the header.
use route_rs.Common.{
  ℕ, ◌+◌, ◌*◌, ◌/◌, ◌%◌, ◌^◌, ◌<◌, ◌≡◌, sym, ap, ◌∙◌, Option, List, ◌∷◌, ◌++◌, arith, length,
}
use route_rs.Common.{length-append}
use mathlib.Core.List.{append_assoc}
use route_rs.Packets.Types.{Ipv4Packet}

-- `reserved`, `df` and `mf` are the three flag bits.
pub record Header : Type 0 where
  pub version : ℕ
  pub ihl : ℕ
  pub dscp : ℕ
  pub ecn : ℕ
  pub total_len : ℕ
  pub identification : ℕ
  pub reserved : ℕ
  pub df : ℕ
  pub mf : ℕ
  pub fragment_offset : ℕ
  pub ttl : ℕ
  pub protocol : ℕ
  pub checksum : ℕ
  pub src : List ℕ
  pub dest : List ℕ

pub record IsHeader (h : Header) : Type 0 where
  pub version_range : h.version < 16
  pub ihl_range : h.ihl < 16
  pub dscp_range : h.dscp < 64
  pub ecn_range : h.ecn < 4
  pub total_len_range : h.total_len < 2 ^ 16
  pub identification_range : h.identification < 2 ^ 16
  pub reserved_range : h.reserved < 2
  pub df_range : h.df < 2
  pub mf_range : h.mf < 2
  pub fragment_offset_range : h.fragment_offset < 2 ^ 13
  pub ttl_range : h.ttl < 256
  pub protocol_range : h.protocol < 256
  pub checksum_range : h.checksum < 2 ^ 16
  pub src_len : length h.src ≡ 4
  pub dest_len : length h.dest ≡ 4

-- The byte of the flags and the top of the fragment offset.
abbrev pub flag_byte : Header → ℕ
flag_byte h = ((h.reserved * 2 + h.df) * 2 + h.mf) * 32 + h.fragment_offset / 256

-- The bytes in front of the addresses, and what follows them.
abbrev pub leading : Header → List ℕ → List ℕ
leading h rest =
    (h.version * 16 + h.ihl)
    ∷ (h.dscp * 4 + h.ecn)
    ∷ (h.total_len / 256 % 256)
    ∷ (h.total_len % 256)
    ∷ (h.identification / 256 % 256)
    ∷ (h.identification % 256)
    ∷ flag_byte h
    ∷ (h.fragment_offset % 256)
    ∷ h.ttl
    ∷ h.protocol
    ∷ (h.checksum / 256 % 256)
    ∷ (h.checksum % 256)
    ∷ rest

-- The 20 bytes of the header, and what follows it.
abbrev pub encode : Header → List ℕ → List ℕ
encode h rest = leading h (h.src ++ (h.dest ++ rest))

-- A packet over a buffer: `pre` stands in front of the header.
abbrev pub assemble : List ℕ → Header → List ℕ → Option ℕ → ℕ → Ipv4Packet
assemble pre h rest layer2_offset payload_offset = record {
  data_bytes = pre ++ encode h rest;
  layer2_offset = layer2_offset;
  layer3_offset = length pre;
  payload_offset = payload_offset;
}

pub length-encode :
    (h : Header) (rest : List ℕ) → IsHeader h → length (encode h rest) ≡ 20 + length rest
length-encode h rest v =
    omega (arith, v, length-append h.src (h.dest ++ rest), length-append h.dest rest)

-- The 20 bytes alone.
abbrev pub header_bytes : Header → List ℕ
header_bytes h = leading h (h.src ++ h.dest)

pub encode-split : (h : Header) (rest : List ℕ) → encode h rest ≡ header_bytes h ++ rest
encode-split h rest = ap (leading h) (sym (append_assoc h.src h.dest rest))

pub length-header_bytes : (h : Header) → IsHeader h → length (header_bytes h) ≡ 20
length-header_bytes h v = omega (arith, v, length-append h.src h.dest)

pub encode-append :
    (h : Header) (opts body : List ℕ) → encode h opts ++ body ≡ encode h (opts ++ body)
encode-append h opts body = ap (leading h) (
    append_assoc h.src (h.dest ++ opts) body ∙ ap (λ t. h.src ++ t) (append_assoc h.dest opts body))
