-- ===== src/Examples/StaticRouter/Router.antt =====
-- `Router` of examples/minimal-static-router/src/main.rs: the links that `build_link` chains, as the way
-- of one frame through them.
pub mod Ways
use route_rs.Common.{
  ℕ, zero, suc, List, [], ◌∷◌, Option, none, some, Outcome, ok, panic, ◌>>=◌, ◌>>◌, assert, not,
  is_some, length, ◌==◌,
}
use route_rs.Examples.StaticRouter.{
  ipv4_decap, ipv4_encap, ipv6_decap, ipv6_encap, ClassifyIpType, ipv4, ipv6, other, classify,
}
use route_rs.Examples.StaticRouter.Subnets.{
  Interface, interface0, interface1, interface2, SubnetRouter, new_ipv4, new_ipv6, classify_ipv4,
  classify_ipv6,
}
use route_rs.Examples.StaticRouter.Table.{IpLookupTable}
use route_rs.Packets.Types.{EthernetFrame}
use route_rs.Runtime.Link.{PacketStream}

pub record Router : Type 0 where
  pub in_streams : Option (List (PacketStream EthernetFrame))

abbrev pub new : Router
new = record { in_streams = none }

unfoldable pub ingressors : Router → List (PacketStream EthernetFrame) → Outcome Router
ingressors self in_streams = do
  assert (length in_streams == 1)
  assert (not (is_some self.in_streams))
  ok (record { in_streams = some in_streams })

unfoldable pub ingressor : Router → PacketStream EthernetFrame → Outcome Router
ingressor self in_stream = do
  assert (not (is_some self.in_streams))
  ok (record { in_streams = some (in_stream ∷ []) })

-- the dispatchers of the classify links
abbrev pub ip_port : ClassifyIpType → ℕ
ip_port ipv4 = 0
ip_port ipv6 = 1
ip_port other = 1

abbrev pub interface_port : Interface → ℕ
interface_port interface0 = 0
interface_port interface1 = 1
interface_port interface2 = 2

-- what leaves on the egressor of a subnet router
abbrev leave : ℕ → Option EthernetFrame → Option (ℕ × EthernetFrame)
leave port (some frame) = some (port, frame)
leave port none = none

module _ (t : IpLookupTable Interface) (t6 : IpLookupTable Interface) where
  -- behind the egressor 0 of the first classify link: decap, subnet router, encap
  unfoldable pub ipv4_way : EthernetFrame → Outcome (Option (ℕ × EthernetFrame))
  ipv4_way frame = ipv4_decap frame >>= λ decapped. elim decapped [
    | none ↦ ok none
    | some packet ↦ do
      class ← classify_ipv4 t (new_ipv4 t interface0) packet
      encapped ← ipv4_encap packet
      ok (leave (interface_port class) encapped)
  ]

  -- behind the egressor 1
  unfoldable pub ipv6_way : EthernetFrame → Outcome (Option (ℕ × EthernetFrame))
  ipv6_way frame = ipv6_decap frame >>= λ decapped. elim decapped [
    | none ↦ ok none
    | some packet ↦ do
      class ← classify_ipv6 t6 (new_ipv6 t6 interface0) packet
      encapped ← ipv6_encap packet
      ok (leave (interface_port class) encapped)
  ]

  abbrev at_port : ℕ → EthernetFrame → Outcome (Option (ℕ × EthernetFrame))
  at_port zero frame = ipv4_way frame
  at_port (suc zero) frame = ipv6_way frame
  at_port _ frame = panic

  -- The interface that a frame leaves on, and the frame that leaves.
  unfoldable pub frame_way : EthernetFrame → Outcome (Option (ℕ × EthernetFrame))
  frame_way frame = do class ← classify frame; at_port (ip_port class) frame
