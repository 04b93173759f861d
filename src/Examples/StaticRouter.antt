-- ===== src/Examples/StaticRouter.antt =====
-- examples/minimal-static-router/src/processors.rs and the classifier `ClassifyIP` of classifiers.rs.
-- The processors and the classifier have no state.
pub mod Passing
pub mod Table
pub mod Subnets
pub mod Router
use route_rs.Common.{◌==◌, if◌then◌else◌, Option, none, some, Outcome, ok, err, panic, ◌>>=◌}
use route_rs.Packets.Types.{EthernetFrame, Ipv4Packet, Ipv6Packet}
use route_rs.Packets.Ethernet
use route_rs.Packets.Ipv4
use route_rs.Packets.Ipv6

-- `match .. { Ok(packet) => Some(packet), Err(_) => None }`
abbrev pub ok_or_drop : {A : Type 0} → Outcome A → Outcome (Option A)
ok_or_drop (ok a) = ok (some a)
ok_or_drop (err e) = ok none
ok_or_drop panic = panic

unfoldable pub ipv6_decap : EthernetFrame → Outcome (Option Ipv6Packet)
unfolding Ipv6.Convert.try_from_ethernet
ipv6_decap frame = ok_or_drop (Ipv6.Convert.try_from_ethernet frame)

unfoldable pub ipv6_encap : Ipv6Packet → Outcome (Option EthernetFrame)
unfolding Ethernet.try_from_ipv6
ipv6_encap packet = ok_or_drop (Ethernet.try_from_ipv6 packet)

unfoldable pub ipv4_decap : EthernetFrame → Outcome (Option Ipv4Packet)
unfolding Ipv4.Convert.try_from_ethernet
ipv4_decap frame = ok_or_drop (Ipv4.Convert.try_from_ethernet frame)

unfoldable pub ipv4_encap : Ipv4Packet → Outcome (Option EthernetFrame)
unfolding Ethernet.try_from_ipv4
ipv4_encap packet = ok_or_drop (Ethernet.try_from_ipv4 packet)

pub data ClassifyIpType : Type 0 where
  ipv6 ipv4 other : ClassifyIpType

unfoldable pub classify : EthernetFrame → Outcome ClassifyIpType
unfolding Ethernet.ether_type
classify frame = do
  ether_type ← Ethernet.ether_type frame
  ok (if ether_type == 0x0800 then ipv4 else if ether_type == 0x86DD then ipv6 else other)
