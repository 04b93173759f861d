-- ===== src/Packets/Protocol/Tests.antt =====
-- The protocol numbers on concrete bytes.
use route_rs.Common.{◌≡◌, arith}
use route_rs.Packets.Protocol.{from_u8, to_u8}
use route_rs.Packets.Protocol.Numbers.{to_u8-from_u8}

to_u8-from_u8_example : to_u8 (from_u8 254) ≡ 144
to_u8-from_u8_example = to_u8-from_u8 254 (omega arith)
