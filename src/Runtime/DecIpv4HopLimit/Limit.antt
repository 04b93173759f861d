-- ===== src/Runtime/DecIpv4HopLimit/Limit.antt =====
-- What `DecIpv4HopLimit` does to a packet and to its checksum.
use route_rs.Common.{
  ℕ, ◌+◌, ◌-◌, ◌%◌, ◌<◌, ◌≡◌, ◌≢◌, ap, ◌∙◌, Option, some, List, ◌++◌, true, false, ◌==◌, ==_ne,
  ==_iff, Bool-cases, inl, inr, arith, ok, ok_inj, sym, index-append, write_at-append,
}
use route_rs.Common.Bytes.{IsBytes}
use route_rs.Packets.Types.{Ipv4Packet}
use route_rs.Packets.Ipv4.Layout.{Header, encode, assemble}
use route_rs.Packets.Ipv4.Payload.{packet, IsWhole}
use route_rs.Packets.Ipv4.Checksum.{validate_checksum, words}
use route_rs.Packets.Ipv4.OnesSum.{others, validate_checksum_lem}
use route_rs.Runtime.DecIpv4HopLimit.{process}

zero_pred : (n : ℕ) → (n == 0) ≡ true → n ≡ n - 1
zero_pred n e = ground arith

-- On the layout of an IPv4 header behind any front, `DecIpv4HopLimit` lets the packet through with
-- its time to live one less, or 0 where it was 0, and nothing else changed.
pub ipv4_process :
    (pre : List ℕ) (h : Header) (rest : List ℕ) (l2 : Option ℕ) (po : ℕ)
    → process (assemble pre h rest l2 po)
      ≡ ok (some (assemble pre (record h { ttl = h.ttl - 1 }) rest l2 po))
unfolding process
ipv4_process pre h rest l2 po =
    rw (index-append pre (encode h rest) 8) (elim (Bool-cases (h.ttl == 0)) [
      | inl e ↦
          rw e (
            ap (λ n. ok (some (assemble pre (record h { ttl = n }) rest l2 po)))
              (zero_pred h.ttl e))
      | inr e ↦ rw (e, write_at-append)
    ])

others_ttl :
    (h : Header) (opts : List ℕ)
    → 0 < h.ttl
    → others h opts ≡ 256 + others (record h { ttl = h.ttl - 1 }) opts
unfolding others words
others_ttl h opts pos = omega arith

-- For an IPv4 packet with a time to live above 0 whose header length covers the header and its
-- options, whose fields are in range, whose addresses and options are bytes, and whose checksum
-- `validate_checksum` accepts, `DecIpv4HopLimit` lets through a packet whose checksum it does not
-- accept.
pub validate_checksum-process :
    (pre : List ℕ) (h : Header) (opts body : List ℕ) (l2 : Option ℕ)
    → IsWhole h opts
    → IsBytes (h.src ++ (h.dest ++ opts))
    → 0 < h.ttl
    → validate_checksum (packet pre h opts body l2) ≡ ok true
    → (p : Ipv4Packet) × (process (packet pre h opts body l2) ≡ ok (some p))
      × (validate_checksum p ≡ ok false)
validate_checksum-process pre h opts body l2 w bytes pos valid = (
  packet pre h' opts body l2,
  ipv4_process pre h (opts ++ body) l2 _,
  validate_checksum_lem pre h' opts body l2 whole bytes ∙ ap ok (==_ne _ 0 off),
)
  where
    h' : Header
    h' = record h { ttl = h.ttl - 1 }

    whole : IsWhole h' opts
    whole = omega (arith, w)

    sum : (others h opts + h.checksum) % 65535 ≡ 0
    sum = (==_iff _ _).0 (ok_inj (sym (validate_checksum_lem pre h opts body l2 w bytes) ∙ valid))

    off : (others h' opts + h.checksum) % 65535 ≢ 0
    off = omega (arith, sum, others_ttl h opts pos)
