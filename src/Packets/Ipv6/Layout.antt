-- ===== src/Packets/Ipv6/Layout.antt =====
-- The layout of an IPv6 header: its fields, and their bytes behind whatever precedes the header.
use route_rs.Common.{
  ℕ, ◌+◌, ◌*◌, ◌/◌, ◌%◌, ◌^◌, ◌<◌, ◌≡◌, sym, ap, ◌∙◌, Option, List, ◌∷◌, ◌++◌, arith, length,
  length-append,
}
use mathlib.Core.List.{append_assoc}
use route_rs.Packets.Types.{Ipv6Packet}

pub record Header : Type 0 where
  pub version : ℕ
  pub traffic_class : ℕ
  pub flow_label : ℕ
  pub payload_length : ℕ
  pub next_header : ℕ
  pub hop_limit : ℕ
  pub src : List ℕ
  pub dest : List ℕ

pub record IsHeader (h : Header) : Type 0 where
  pub version_range : h.version < 16
  pub traffic_class_range : h.traffic_class < 256
  pub flow_label_range : h.flow_label < 2 ^ 20
  pub payload_length_range : h.payload_length < 2 ^ 16
  pub next_header_range : h.next_header < 256
  pub hop_limit_range : h.hop_limit < 256
  pub src_len : length h.src ≡ 16
  pub dest_len : length h.dest ≡ 16

-- The bytes in front of the addresses, and what follows them.
abbrev pub leading : Header → List ℕ → List ℕ
leading h rest =
    (h.version * 16 + h.traffic_class / 16)
    ∷ (h.traffic_class % 16 * 16 + h.flow_label / 65536)
    ∷ (h.flow_label / 256 % 256)
    ∷ (h.flow_label % 256)
    ∷ (h.payload_length / 256 % 256)
    ∷ (h.payload_length % 256)
    ∷ h.next_header
    ∷ h.hop_limit
    ∷ rest

-- The 40 bytes of the header, and what follows it.
abbrev pub encode : Header → List ℕ → List ℕ
encode h rest = leading h (h.src ++ (h.dest ++ rest))

-- A packet over a buffer: `pre` stands in front of the header.
abbrev pub assemble : List ℕ → Header → List ℕ → Option ℕ → ℕ → Ipv6Packet
assemble pre h rest layer2_offset payload_offset = record {
  data_bytes = pre ++ encode h rest;
  layer2_offset = layer2_offset;
  layer3_offset = length pre;
  payload_offset = payload_offset;
}

pub length-encode :
    (h : Header) (rest : List ℕ) → IsHeader h → length (encode h rest) ≡ 40 + length rest
length-encode h rest v =
    omega (arith, v, length-append h.src (h.dest ++ rest), length-append h.dest rest)

-- The 40 bytes alone.
abbrev pub header_bytes : Header → List ℕ
header_bytes h = leading h (h.src ++ h.dest)

pub encode-split : (h : Header) (rest : List ℕ) → encode h rest ≡ header_bytes h ++ rest
encode-split h rest = ap (leading h) (sym (append_assoc h.src h.dest rest))

pub length-header_bytes : (h : Header) → IsHeader h → length (header_bytes h) ≡ 40
length-header_bytes h v = omega (arith, v, length-append h.src h.dest)

pub encode-append :
    (h : Header) (exts body : List ℕ) → encode h exts ++ body ≡ encode h (exts ++ body)
encode-append h exts body = ap (leading h) (
    append_assoc h.src (h.dest ++ exts) body ∙ ap (λ t. h.src ++ t) (append_assoc h.dest exts body))
