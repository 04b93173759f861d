-- ===== src/Runtime/DecIpv4HopLimit.antt =====
-- `DecIpv4HopLimit` of route-rs-runtime/src/processor/dec_ip_hop.rs. The processor has no state.
pub mod Limit
use route_rs.Common.{◌-◌, ◌==◌, if◌then◌else◌, Option, some, Outcome, ok, ◌>>=◌, map_ok}
use route_rs.Packets.Types.{Ipv4Packet}
use route_rs.Packets.Ipv4.{ttl, set_ttl}

unfoldable pub process : Ipv4Packet → Outcome (Option Ipv4Packet)
unfolding ttl set_ttl
process packet = do
  n ← ttl packet
  if n == 0 then ok (some packet) else map_ok some (set_ttl packet (n - 1))
