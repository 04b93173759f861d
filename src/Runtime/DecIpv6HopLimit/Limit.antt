-- ===== src/Runtime/DecIpv6HopLimit/Limit.antt =====
-- What `DecIpv6HopLimit` does to a packet.
use route_rs.Common.{
  ℕ, ◌-◌, ◌≡◌, ap, Option, some, List, ◌==◌, true, Bool-cases, inl, inr, arith, ok, index-append,
  write_at-append,
}
use route_rs.Packets.Ipv6.Layout.{Header, encode, assemble}
use route_rs.Runtime.DecIpv6HopLimit.{process}

zero_pred : (n : ℕ) → (n == 0) ≡ true → n ≡ n - 1
zero_pred n e = ground arith

-- On the layout of an IPv6 header behind any front, `DecIpv6HopLimit` lets the packet through with
-- its hop limit one less, or 0 where it was 0, and nothing else changed.
pub ipv6_process :
    (pre : List ℕ) (h : Header) (rest : List ℕ) (l2 : Option ℕ) (po : ℕ)
    → process (assemble pre h rest l2 po)
      ≡ ok (some (assemble pre (record h { hop_limit = h.hop_limit - 1 }) rest l2 po))
unfolding process
ipv6_process pre h rest l2 po =
    rw (index-append pre (encode h rest) 7) (elim (Bool-cases (h.hop_limit == 0)) [
      | inl e ↦ rw e (
          ap (λ n. ok (some (assemble pre (record h { hop_limit = n }) rest l2 po)))
            (zero_pred h.hop_limit e))
      | inr e ↦ rw (e, write_at-append)
    ])
