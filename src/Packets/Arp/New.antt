-- ===== src/Packets/Arp/New.antt =====
-- The frame that `ArpFrame::new` makes, and the test of `try_from` on it.
use route_rs.Common.{
  ℕ, suc, ◌+◌, ◌*◌, ◌/◌, ◌%◌, ◌≡◌, refl, ◌∷◌, ◌++◌, arith, length, length-replicate, ok, err, ◌>>=◌,
  replicate, ==_eq, ltb, false, true, ◌==◌,
}
use route_rs.Packets.Types.{ArpFrame, EthernetFrame, arp_ether_type}
use route_rs.Packets.Ethernet.{set_ether_type}
use route_rs.Packets.Arp.{new, try_from_ethernet, hardware_addr_len, protocol_addr_len}

-- The frame of an ARP packet whose addresses and other fields are 0.
abbrev pub sized : ℕ → ℕ → ℕ → EthernetFrame
sized kind hlen plen = record {
  data_bytes =
      replicate 12 0
      ++ (kind / 256 % 256)
        ∷ (kind % 256)
        ∷ 0
        ∷ 0
        ∷ 0
        ∷ 0
        ∷ hlen
        ∷ plen
        ∷ 0
        ∷ 0
        ∷ replicate (2 * hlen + 2 * plen) 0;
  layer2_offset = 0;
  payload_offset = 14;
}

abbrev eight_more : ℕ → ℕ
eight_more n = suc (suc (suc (suc (suc (suc (suc (suc n)))))))

eight_lem : (hlen plen : ℕ) → 8 + 2 * hlen + 2 * plen ≡ eight_more (2 * hlen + 2 * plen)
eight_lem hlen plen = omega arith

new_lem : (hlen plen : ℕ) → new hlen plen ≡ ok (record { frame = sized 0 hlen plen })
unfolding new
new_lem hlen plen = rw (eight_lem hlen plen)

long_lem :
    (hlen plen : ℕ)
    → ltb (eight_more (length {A = ℕ} (replicate (2 * hlen + 2 * plen) 0))) 8 ≡ false
long_lem hlen plen = ground arith

size_lem :
    (hlen plen : ℕ)
    → (eight_more (length {A = ℕ} (replicate (2 * hlen + 2 * plen) 0)) == 8 + 2 * hlen + 2 * plen)
      ≡ true
size_lem hlen plen = ==_eq (omega (arith, length-replicate {A = ℕ} (2 * hlen + 2 * plen) 0))

-- `ArpFrame::new` gives a frame whose two length fields are the lengths it is given; `try_from`
-- refuses that frame for its ether type, and after `set_ether_type` with the type of ARP it gives
-- the frame with room for the two pairs of addresses.
pub try_from_ethernet-new :
    (hlen plen : ℕ)
    → (a : ArpFrame) × (new hlen plen ≡ ok a)
      × (hardware_addr_len a ≡ ok hlen)
      × (protocol_addr_len a ≡ ok plen)
      × (try_from_ethernet a.frame ≡ err "Frame does not have ARP ether type")
      × ((set_ether_type a.frame arp_ether_type >>= try_from_ethernet)
          ≡ ok (record { frame = sized arp_ether_type hlen plen }))
unfolding hardware_addr_len protocol_addr_len try_from_ethernet set_ether_type
try_from_ethernet-new hlen plen = (
  record { frame = sized 0 hlen plen },
  new_lem hlen plen,
  refl,
  refl,
  refl,
  rw (long_lem hlen plen, size_lem hlen plen),
)
