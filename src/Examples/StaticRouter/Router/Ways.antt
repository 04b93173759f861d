-- ===== src/Examples/StaticRouter/Router/Ways.antt =====
-- A frame leaves the router as it came, on the interface of its destination.
use route_rs.Common.{ℕ, ◌<◌, ◌≡◌, ◌^◌, refl, some, ok}
use route_rs.Examples.StaticRouter.{ipv4_decap, ipv6_decap, ipv4, ipv6, classify}
use route_rs.Examples.StaticRouter.Passing.{ipv4_passes, ipv6_passes}
use route_rs.Examples.StaticRouter.Router.{interface_port, ipv4_way, ipv6_way, frame_way}
use route_rs.Examples.StaticRouter.Subnets.{Interface, address_from}
use route_rs.Examples.StaticRouter.Subnets.Routes.{
  ipv4_route, ipv6_route, classify_ipv4_lem, classify_ipv6_lem,
}
use route_rs.Examples.StaticRouter.Table.{IpLookupTable, IsLookupTable}
use route_rs.Packets.Ethernet
use route_rs.Packets.Ipv4
use route_rs.Packets.Ipv6
use route_rs.Packets.Types.{PacketData, EthernetFrame, Ipv4Packet, Ipv6Packet, Ipv4Addr, Ipv6Addr}

module _ (t t6 : IpLookupTable Interface) (laws : IsLookupTable 32 t)
    (laws6 : IsLookupTable 128 t6) where
  -- With a lookup table that behaves as documented, a frame that `EthernetFrame::from_buffer`
  -- makes, that `ClassifyIP` takes for IPv4 and that `Ipv4Decap` lets through, leaves the static
  -- router unchanged, on the interface of the longest prefix of its destination: interface 2 for
  -- 10.10.10.0/24, else 1 for 10.0.0.0/8, else 2 for 192.168.0.0/16, and else 0.
  pub frame_way_ipv4 :
      (d : PacketData) (l2 : ℕ) (frame : EthernetFrame) (packet : Ipv4Packet) (address : Ipv4Addr)
      → Ethernet.from_buffer d l2 ≡ ok frame
      → classify frame ≡ ok ipv4
      → ipv4_decap frame ≡ ok (some packet)
      → Ipv4.dest_addr packet ≡ ok address
      → address_from t 0 address.octets < 2 ^ 32
      → frame_way t t6 frame
        ≡ ok (some (interface_port (ipv4_route (address_from t 0 address.octets)), frame))
  unfolding frame_way ipv4_way
  frame_way_ipv4 d l2 frame packet address made class decapped read lt =
      rw
        (
          class,
          decapped,
          classify_ipv4_lem t laws Interface.interface0 packet address read lt,
          ipv4_passes d l2 frame packet made decapped,
        )
        refl

  -- With a lookup table that behaves as documented, a frame that `EthernetFrame::from_buffer`
  -- makes, that `ClassifyIP` takes for IPv6 and that `Ipv6Decap` lets through, leaves the static
  -- router unchanged, on the interface of the longest prefix of its destination: interface 2 for
  -- 2001:db8:dead:beef::/64, else 1 for 2001:db8:dead::/48, else 2 for 2001:db8:beef::/48, and
  -- else 0.
  pub frame_way_ipv6 :
      (d : PacketData) (l2 : ℕ) (frame : EthernetFrame) (packet : Ipv6Packet) (address : Ipv6Addr)
      → Ethernet.from_buffer d l2 ≡ ok frame
      → classify frame ≡ ok ipv6
      → ipv6_decap frame ≡ ok (some packet)
      → Ipv6.dest_addr packet ≡ ok address
      → address_from t6 0 address.octets < 2 ^ 128
      → frame_way t t6 frame
        ≡ ok (some (interface_port (ipv6_route (address_from t6 0 address.octets)), frame))
  unfolding frame_way ipv6_way
  frame_way_ipv6 d l2 frame packet address made class decapped read lt =
      rw
        (
          class,
          decapped,
          classify_ipv6_lem t6 laws6 Interface.interface0 packet address read lt,
          ipv6_passes d l2 frame packet made decapped,
        )
        refl
