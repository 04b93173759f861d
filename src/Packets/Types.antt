-- ===== src/Packets/Types.antt =====
-- The types of route-rs-packets: types.rs, and the structs of the packet views. A `PacketData`
-- is the list of its bytes. An address is the list of its octets, 6, 4 or 16 of them.
use route_rs.Common.{ℕ, List, Option}

abbrev pub ipv4_ether_type : ℕ
ipv4_ether_type = 0x0800

abbrev pub ipv6_ether_type : ℕ
ipv6_ether_type = 0x86DD

abbrev pub arp_ether_type : ℕ
arp_ether_type = 0x0806

abbrev pub PacketData : Type 0
PacketData = List ℕ

pub record MacAddr : Type 0 where
  pub bytes : List ℕ

pub record Ipv4Addr : Type 0 where
  pub octets : List ℕ

pub record Ipv6Addr : Type 0 where
  pub octets : List ℕ

pub data EtherType : Type 0 where
  payload_len undefined ether_type_num : ℕ → EtherType

pub record EthernetFrame : Type 0 where
  pub data_bytes : PacketData
  pub layer2_offset : ℕ
  pub payload_offset : ℕ

pub record Ipv4Packet : Type 0 where
  pub data_bytes : PacketData
  pub layer2_offset : Option ℕ
  pub layer3_offset : ℕ
  pub payload_offset : ℕ

pub record Ipv6Packet : Type 0 where
  pub data_bytes : PacketData
  pub layer2_offset : Option ℕ
  pub layer3_offset : ℕ
  pub payload_offset : ℕ

pub record UdpSegment : Type 0 where
  pub data_bytes : PacketData
  pub layer2_offset : Option ℕ
  pub layer3_offset : Option ℕ
  pub layer4_offset : ℕ
  pub payload_offset : ℕ

pub record TcpSegment : Type 0 where
  pub data_bytes : PacketData
  pub layer2_offset : Option ℕ
  pub layer3_offset : Option ℕ
  pub layer4_offset : ℕ
  pub payload_offset : ℕ

pub record ArpFrame : Type 0 where
  pub frame : EthernetFrame
