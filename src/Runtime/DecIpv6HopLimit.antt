-- ===== src/Runtime/DecIpv6HopLimit.antt =====
-- `DecIpv6HopLimit` of route-rs-runtime/src/processor/dec_ip_hop.rs. The processor has no state.
pub mod Limit
use route_rs.Common.{◌-◌, ◌==◌, if◌then◌else◌, Option, some, Outcome, ok, ◌>>=◌, map_ok}
use route_rs.Packets.Types.{Ipv6Packet}
use route_rs.Packets.Ipv6.{hop_limit, set_hop_limit}

unfoldable pub process : Ipv6Packet → Outcome (Option Ipv6Packet)
unfolding hop_limit set_hop_limit
process packet = do
  n ← hop_limit packet
  if n == 0 then ok (some packet) else map_ok some (set_hop_limit packet (n - 1))
