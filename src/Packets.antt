-- ===== src/Packets.antt =====
-- route-rs-packets/src: views of a byte buffer as network packets.
pub mod Types
pub mod Protocol
pub mod Ethernet
pub mod Ipv4
pub mod Ipv6
pub mod Udp
pub mod Tcp
pub mod Arp
pub mod Encap
