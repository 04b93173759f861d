-- ===== src/Examples/DnsInterceptor/Answers.antt =====
-- The processors of examples/dns-interceptor after each other, as its pipeline chains them.
use text.Mathlib.Text.{◌==◌ as str_eq}
use text.Mathlib.TextEquality.{eq_iff}
use route_rs.Common.{◌≡◌, ◌≢◌, refl, sym, some, inl, inr, Bool-cases, arith}
use route_rs.Examples.DnsInterceptor.{
  Interface, wan, lan, SimplePacket, new, process, dns, other, classify, new_interceptor, intercept,
}
use route_rs.Examples.DnsInterceptor.Subnet.{process-new_wan}

-- the answer to a query for the gateway
abbrev pub answered : SimplePacket → SimplePacket
answered packet = record {
  source = packet.destination;
  destination = packet.source;
  payload = "10.0.0.1";
}

-- `SetInterfaceByDestination`, as `new` makes it, sends every packet to the WAN interface, one for
-- a host of the LAN included; `ClassifyDNS` takes exactly the packets for port 53, on either
-- interface, for DNS; and `LocalDNSInterceptor`, as `new` makes it, answers a packet for the WAN
-- whose payload is the name of the gateway, on the LAN, with its ends exchanged and the gateway's
-- address, and passes every other packet as it came.
pub intercept_lem :
    (i j : Interface) (packet : SimplePacket)
    → (process new (i, packet) ≡ (some (wan, packet), new))
      × (packet.destination.port ≡ 53 → classify (j, packet) ≡ dns)
      × (packet.destination.port ≢ 53 → classify (j, packet) ≡ other)
      × (packet.payload ≡ "gateway.route-rs.local"
          → intercept new_interceptor (wan, packet)
            ≡ (some (lan, answered packet), new_interceptor))
      × (packet.payload ≢ "gateway.route-rs.local"
          → intercept new_interceptor (wan, packet) ≡ (some (wan, packet), new_interceptor))
      × (intercept new_interceptor (lan, packet) ≡ (some (lan, packet), new_interceptor))
unfolding classify intercept
intercept_lem i j packet = (
  process-new_wan i packet,
  λ p. ground arith,
  λ p. ground arith,
  λ p. rw p refl,
  λ p. elim (Bool-cases (str_eq "gateway.route-rs.local" packet.payload)) [
    | inl same ↦ absurd (p (sym ((eq_iff "gateway.route-rs.local" packet.payload).0 same)))
    | inr different ↦ rw different refl
  ],
  refl,
)
