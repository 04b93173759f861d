-- ===== src/Packets/Ipv6/Fuel.antt =====
-- The loop of `extension_headers` never stops for want of fuel.
use route_rs.Common.{
  ℕ, zero, suc, ◌+◌, ◌<◌, ◌≡◌, List, [], ◌∷◌, ◌++◌, Bool-cases, inl, inr, arith, length, index,
  index_of_lt, index_ge, slice, ◌>>=◌,
}
use native.Mathlib.Decide.{dec_lt}
use route_rs.Packets.Types.{Ipv6Packet}
use route_rs.Packets.Protocol.{IpProtocol, from_u8}
use route_rs.Packets.Ipv6.{next_header}
use route_rs.Packets.Ipv6.Extension.{is_extension, ext_len, headers_loop, extension_headers}
use route_rs.Packets.Ipv6.Chain.{ext_len_pos}

-- Two amounts of fuel past what is left of the buffer give the same.
headers_loop_fuel :
    (f g : ℕ) (d : List ℕ) (hs : List (List ℕ)) (p : IpProtocol) (o : ℕ)
    → 0 < f
    → 0 < g
    → length d < f + o
    → length d < g + o
    → headers_loop f d hs p o ≡ headers_loop g d hs p o
unfolding headers_loop
headers_loop_fuel zero g d hs p o hf hg ef eg = absurd (omega arith)
headers_loop_fuel (suc f) zero d hs p o hf hg ef eg = absurd (omega arith)
headers_loop_fuel (suc f) (suc g) d hs p o hf hg ef eg = elim (Bool-cases (is_extension p)) [
  | inr e ↦ rw (headers_loop, e)
  | inl e ↦ elim (dec_lt (o + 1) (length d)) [
    | no past ↦ rw (headers_loop, e, index_ge d (o + 1) (omega arith))
    | yes inside ↦
        let (b, eb) = index_of_lt d (o + 1) inside in
        rw (headers_loop, e, eb)
          (λ i. slice d o (o + ext_len b) >>= λ bytes. index d o >>= λ n.
            headers_loop_fuel f g d (hs ++ bytes ∷ []) (from_u8 n) (o + ext_len b) (omega arith)
              (omega arith) (omega (arith, ext_len_pos b)) (omega (arith, ext_len_pos b)) i)
  ]
]

-- On any IPv6 packet, `extension_headers` gives the same as its loop on any fuel above the length
-- of the buffer, so that it never panics for want of fuel.
pub extension_headers-fuel :
    (self : Ipv6Packet) (fuel : ℕ)
    → length self.data_bytes < fuel
    → extension_headers self ≡ (do
      next ← next_header self
      headers_loop fuel self.data_bytes [] next (self.layer3_offset + 40))
unfolding extension_headers
extension_headers-fuel self fuel enough = λ i. next_header self >>= λ next.
    headers_loop_fuel (suc (length self.data_bytes)) fuel self.data_bytes [] next
      (self.layer3_offset + 40) (omega arith) (omega arith) (omega arith) (omega arith) i
