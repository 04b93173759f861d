-- ===== src/Examples/DnsInterceptor.antt =====
-- examples/dns-interceptor/src/packets.rs and processors.rs. A processor is its state and a function
-- from the state and a packet.
pub mod Subnet
pub mod Answers
use Prim.Native.String.{String}
use text.Mathlib.Text.{◌==◌ as str_eq}
use route_rs.Common.Maps.{get}
use route_rs.Common.{
  ℕ, ◌+◌, ◌*◌, ◌==◌, bit_and, List, [], ◌∷◌, Bool, if◌then◌else◌, Option, none, some,
}

pub data Interface : Type 0 where
  wan lan : Interface

pub record IpAndPort : Type 0 where
  pub ip : ℕ
  pub port : ℕ

pub record SimplePacket : Type 0 where
  pub source : IpAndPort
  pub destination : IpAndPort
  pub payload : String

-- `u32::from_be_bytes`
abbrev pub u32_of : ℕ → ℕ → ℕ → ℕ → ℕ
u32_of a b c d = ((a * 256 + b) * 256 + c) * 256 + d

pub record SetInterfaceByDestination : Type 0 where
  pub lan_subnet_prefix : ℕ
  pub lan_subnet_mask : ℕ

abbrev pub new : SetInterfaceByDestination
new = record { lan_subnet_prefix = u32_of 10 0 0 1; lan_subnet_mask = 0xFF000000 }

unfoldable pub process :
    SetInterfaceByDestination
    → Interface × SimplePacket
    → Option (Interface × SimplePacket) × SetInterfaceByDestination
process self (i, packet) =
    let dest_ip = packet.destination.ip in
    if bit_and dest_ip self.lan_subnet_mask == self.lan_subnet_prefix
    then (some (lan, packet), self)
    else (some (wan, packet), self)

pub data ClassifyDnsOutput : Type 0 where
  dns other : ClassifyDnsOutput

unfoldable pub classify : Interface × SimplePacket → ClassifyDnsOutput
classify (i, packet) = if packet.destination.port == 53 then dns else other

-- `intercept_rules`, a `HashMap` of names to addresses
pub record LocalDnsInterceptor : Type 0 where
  pub intercept_rules : List (String × String)

abbrev pub new_interceptor : LocalDnsInterceptor
new_interceptor = record { intercept_rules = ("gateway.route-rs.local", "10.0.0.1") ∷ [] }

abbrev answer : Interface → SimplePacket → Option String → Interface × SimplePacket
answer wan in_packet (some lan_address) = (
  lan,
  record { source = in_packet.destination; destination = in_packet.source; payload = lan_address },
)
answer in_interface in_packet _ = (in_interface, in_packet)

unfoldable pub intercept :
    LocalDnsInterceptor
    → Interface × SimplePacket
    → Option (Interface × SimplePacket) × LocalDnsInterceptor
intercept self (in_interface, in_packet) =
    (some (answer in_interface in_packet (get str_eq self.intercept_rules in_packet.payload)), self)
