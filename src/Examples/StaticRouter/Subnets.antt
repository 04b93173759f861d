-- ===== src/Examples/StaticRouter/Subnets.antt =====
-- The subnet routers of examples/minimal-static-router/src/classifiers.rs.
pub mod Routes
use route_rs.Common.{ℕ, ◌+◌, ◌*◌, Option, none, some, Outcome, ok, ◌>>=◌, List, [], ◌∷◌}
use route_rs.Examples.StaticRouter.Table.{IpLookupTable, Entry}
use route_rs.Packets.Types.{Ipv4Packet, Ipv6Packet, Ipv4Addr, Ipv6Addr}
use route_rs.Packets.Ipv4
use route_rs.Packets.Ipv6

pub data Interface : Type 0 where
  interface0 interface1 interface2 : Interface

-- `Ipv4Addr::new` of the octets, and `Ipv6Addr::new` of the segments, as numbers
abbrev pub ipv4_addr : ℕ → ℕ → ℕ → ℕ → ℕ
ipv4_addr a b c d = ((a * 256 + b) * 256 + c) * 256 + d

abbrev pub ipv6_addr : ℕ → ℕ → ℕ → ℕ → ℕ → ℕ → ℕ → ℕ → ℕ
ipv6_addr a b c d e f g h =
    ((((((a * 65536 + b) * 65536 + c) * 65536 + d) * 65536 + e) * 65536 + f) * 65536 + g) * 65536
    + h

module _ (t : IpLookupTable Interface) where
  open t use {Table, insert, longest_match}

  pub record SubnetRouter : Type 0 where
    pub default_if : Interface
    pub lookup_table : Table

  -- `Ipv4SubnetRouter::new` and `Ipv6SubnetRouter::new`
  unfoldable pub new_ipv4 : Interface → SubnetRouter
  new_ipv4 default_if =
      let table0 = insert t.new (ipv4_addr 0 0 0 0) 0 interface0 in
      let table1 = insert table0 (ipv4_addr 10 0 0 0) 8 interface1 in
      let table2 = insert table1 (ipv4_addr 192 168 0 0) 16 interface2 in
      let table3 = insert table2 (ipv4_addr 10 10 10 0) 24 interface2 in
      record { default_if = default_if; lookup_table = table3 }

  unfoldable pub new_ipv6 : Interface → SubnetRouter
  new_ipv6 default_if =
      let table0 = insert t.new (ipv6_addr 0 0 0 0 0 0 0 0) 0 interface0 in
      let table1 = insert table0 (ipv6_addr 0x2001 0xdb8 0xdead 0 0 0 0 0) 48 interface1 in
      let table2 = insert table1 (ipv6_addr 0x2001 0xdb8 0xbeef 0 0 0 0 0) 48 interface2 in
      let table3 = insert table2 (ipv6_addr 0x2001 0xdb8 0xdead 0xbeef 0 0 0 0) 64 interface2 in
      record { default_if = default_if; lookup_table = table3 }

  abbrev value_or : Interface → Option (Entry Interface) → Interface
  value_or default_if (some entry) = entry.value
  value_or default_if none = default_if

  -- the lookup of both `classify`
  abbrev pub route : SubnetRouter → ℕ → Interface
  route self address = value_or self.default_if (longest_match self.lookup_table address)

  -- an address as a number
  abbrev pub address_from : ℕ → List ℕ → ℕ
  address_from front [] = front
  address_from front (o ∷ octets) = address_from (front * 256 + o) octets

  unfoldable pub classify_ipv4 : SubnetRouter → Ipv4Packet → Outcome Interface
  unfolding Ipv4.dest_addr
  classify_ipv4 self packet = do
    address ← Ipv4.dest_addr packet
    ok (route self (address_from 0 address.octets))

  unfoldable pub classify_ipv6 : SubnetRouter → Ipv6Packet → Outcome Interface
  unfolding Ipv6.dest_addr
  classify_ipv6 self packet = do
    address ← Ipv6.dest_addr packet
    ok (route self (address_from 0 address.octets))
