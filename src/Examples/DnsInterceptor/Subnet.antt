-- ===== src/Examples/DnsInterceptor/Subnet.antt =====
-- The subnet of the LAN that `SetInterfaceByDestination` compares with.
use route_rs.Common.{ℕ, ◌*◌, ◌/◌, ◌%◌, ◌+◌, ◌≡◌, ◌==◌, ap, ◌∙◌, bit_and, false, some, arith}
use route_rs.Common.Bits.{and-high}
use route_rs.Examples.DnsInterceptor.{Interface, wan, SimplePacket, new, process}

-- The mask keeps the first octet.
masked : (ip : ℕ) → bit_and ip 0xFF000000 ≡ bit_and (ip / 16777216) 255 * 16777216
masked ip =
    ap (λ t. bit_and t 0xFF000000) split
    ∙ and-high 24 (ip / 16777216) (ip % 16777216) 255 (omega arith)
  where
    split : ip ≡ ip / 16777216 * 16777216 + ip % 16777216
    split = omega arith

-- `SetInterfaceByDestination`, as `new` makes it, sends every packet to the WAN interface, one for
-- a host of the LAN included.
pub process-new_wan :
    (i : Interface) (packet : SimplePacket) → process new (i, packet) ≡ (some (wan, packet), new)
unfolding process
process-new_wan i packet = rw never
  where
    never : (bit_and packet.destination.ip 0xFF000000 == 167772161) ≡ false
    never = ground (arith, masked packet.destination.ip)
