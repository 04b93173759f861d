-- ===== src/Packets/Arp.antt =====
-- `ArpFrame` of route-rs-packets/src/arp.rs, over an Ethernet frame. A setter returns the new frame.
-- `std::net::IpAddr` is one of the two kinds of address.
pub mod New
pub mod Tests
use route_rs.Common.{
  ℕ, ◌+◌, ◌*◌, List, [], ◌∷◌, not, ltb, ◌==◌, length, Outcome, ok, panic, ◌>>=◌, ◌>>◌, fail_if,
  slice, copy_from_slice, replicate,
}
use route_rs.Common.Bytes.{u16_from_be_bytes, u16_to_be_bytes}
use route_rs.Packets.Types.{MacAddr, Ipv4Addr, Ipv6Addr, EthernetFrame, ArpFrame, arp_ether_type}
use route_rs.Packets.Ethernet
use route_rs.Packets.Ethernet.{ether_type}

pub data IpAddr : Type 0 where
  v4 : Ipv4Addr → IpAddr
  v6 : Ipv6Addr → IpAddr

abbrev pub hardware_type_range : ℕ × ℕ
hardware_type_range = (0, 2)

abbrev pub protocol_type_range : ℕ × ℕ
protocol_type_range = (2, 4)

abbrev pub hardware_addr_len_range : ℕ × ℕ
hardware_addr_len_range = (4, 5)

abbrev pub protocol_addr_len_range : ℕ × ℕ
protocol_addr_len_range = (5, 6)

abbrev pub opcode_range : ℕ × ℕ
opcode_range = (6, 8)

-- `u8::from_be_bytes(slice.try_into().unwrap())`
abbrev pub u8_from_be_bytes : List ℕ → Outcome ℕ
u8_from_be_bytes (a ∷ []) = ok a
u8_from_be_bytes _ = panic

-- The bytes between two positions of the payload.
unfoldable pub arp_data : ArpFrame → ℕ × ℕ → Outcome (List ℕ)
arp_data self (start, end) =
    slice self.frame.data_bytes (self.frame.payload_offset + start)
      (self.frame.payload_offset + end)

unfoldable pub set_arp_data : ArpFrame → List ℕ → ℕ × ℕ → Outcome ArpFrame
set_arp_data self bytes (start, end) = do
  d ←
      copy_from_slice self.frame.data_bytes (self.frame.payload_offset + start)
        (self.frame.payload_offset + end) bytes
  ok (record { frame = record (self.frame) { data_bytes = d } })

module _ (self : ArpFrame) where
  unfoldable pub hardware_type : Outcome ℕ
  unfolding arp_data
  hardware_type = arp_data self hardware_type_range >>= u16_from_be_bytes

  unfoldable pub protocol_type : Outcome ℕ
  unfolding arp_data
  protocol_type = arp_data self protocol_type_range >>= u16_from_be_bytes

  unfoldable pub hardware_addr_len : Outcome ℕ
  unfolding arp_data
  hardware_addr_len = arp_data self hardware_addr_len_range >>= u8_from_be_bytes

  unfoldable pub protocol_addr_len : Outcome ℕ
  unfolding arp_data
  protocol_addr_len = arp_data self protocol_addr_len_range >>= u8_from_be_bytes

  unfoldable pub opcode : Outcome ℕ
  unfolding arp_data
  opcode = arp_data self opcode_range >>= u16_from_be_bytes

  unfoldable pub set_hardware_type : ℕ → Outcome ArpFrame
  unfolding set_arp_data
  set_hardware_type htype = set_arp_data self (u16_to_be_bytes htype) hardware_type_range

  unfoldable pub set_protocol_type : ℕ → Outcome ArpFrame
  unfolding set_arp_data
  set_protocol_type ptype = set_arp_data self (u16_to_be_bytes ptype) protocol_type_range

  unfoldable pub set_hardware_addr_len : ℕ → Outcome ArpFrame
  unfolding set_arp_data
  set_hardware_addr_len len = set_arp_data self (len ∷ []) hardware_addr_len_range

  unfoldable pub set_protocol_addr_len : ℕ → Outcome ArpFrame
  unfolding set_arp_data
  set_protocol_addr_len len = set_arp_data self (len ∷ []) protocol_addr_len_range

  unfoldable pub set_opcode : ℕ → Outcome ArpFrame
  unfolding set_arp_data
  set_opcode code = set_arp_data self (u16_to_be_bytes code) opcode_range

  unfoldable pub sender_hardware_addr_range : Outcome (ℕ × ℕ)
  unfolding hardware_addr_len
  sender_hardware_addr_range = do hlen ← hardware_addr_len; ok (8, 8 + hlen)

  unfoldable pub sender_protocol_addr_range : Outcome (ℕ × ℕ)
  unfolding hardware_addr_len protocol_addr_len
  sender_protocol_addr_range = do
    hlen ← hardware_addr_len
    plen ← protocol_addr_len
    ok (8 + hlen, 8 + hlen + plen)

  unfoldable pub target_hardware_addr_range : Outcome (ℕ × ℕ)
  unfolding hardware_addr_len protocol_addr_len
  target_hardware_addr_range = do
    hlen ← hardware_addr_len
    plen ← protocol_addr_len
    ok (8 + hlen + plen, 8 + hlen + plen + hlen)

  unfoldable pub target_protocol_addr_range : Outcome (ℕ × ℕ)
  unfolding hardware_addr_len protocol_addr_len
  target_protocol_addr_range = do
    hlen ← hardware_addr_len
    plen ← protocol_addr_len
    ok (8 + 2 * hlen + plen, 8 + 2 * hlen + plen + plen)

  unfoldable pub sender_hardware_addr : Outcome (List ℕ)
  unfolding sender_hardware_addr_range arp_data
  sender_hardware_addr = sender_hardware_addr_range >>= arp_data self

  unfoldable pub sender_protocol_addr : Outcome (List ℕ)
  unfolding sender_protocol_addr_range arp_data
  sender_protocol_addr = sender_protocol_addr_range >>= arp_data self

  unfoldable pub target_hardware_addr : Outcome (List ℕ)
  unfolding target_hardware_addr_range arp_data
  target_hardware_addr = target_hardware_addr_range >>= arp_data self

  unfoldable pub target_protocol_addr : Outcome (List ℕ)
  unfolding target_protocol_addr_range arp_data
  target_protocol_addr = target_protocol_addr_range >>= arp_data self

  unfoldable pub set_ip_addr : IpAddr → ℕ → Outcome ArpFrame
  unfolding set_arp_data
  set_ip_addr (v4 a) start = set_arp_data self a.octets (start, start + 4)
  set_ip_addr (v6 a) start = set_arp_data self a.octets (start, start + 16)

  unfoldable pub set_sender_hardware_addr : MacAddr → Outcome ArpFrame
  unfolding sender_hardware_addr_range set_arp_data
  set_sender_hardware_addr addr = do
    range ← sender_hardware_addr_range
    set_arp_data self addr.bytes range

  unfoldable pub set_sender_protocol_addr : IpAddr → Outcome ArpFrame
  unfolding sender_protocol_addr_range set_ip_addr
  set_sender_protocol_addr ip_addr = do
    range ← sender_protocol_addr_range
    set_ip_addr ip_addr range.0

  unfoldable pub set_target_hardware_addr : MacAddr → Outcome ArpFrame
  unfolding target_hardware_addr_range set_arp_data
  set_target_hardware_addr addr = do
    range ← target_hardware_addr_range
    set_arp_data self addr.bytes range

  unfoldable pub set_target_protocol_addr : IpAddr → Outcome ArpFrame
  unfolding target_protocol_addr_range set_ip_addr
  set_target_protocol_addr ip_addr = do
    range ← target_protocol_addr_range
    set_ip_addr ip_addr range.0

-- `ArpFrame::new`
unfoldable pub new : ℕ → ℕ → Outcome ArpFrame
unfolding Ethernet.empty Ethernet.set_payload set_hardware_addr_len set_protocol_addr_len
new hardware_addr_len protocol_addr_len = do
  let payload_len = 8 + 2 * hardware_addr_len + 2 * protocol_addr_len
  frame ← Ethernet.empty
  let arp_frame : ArpFrame = record { frame = Ethernet.set_payload frame (replicate payload_len 0) }
  sized ← set_hardware_addr_len arp_frame hardware_addr_len
  set_protocol_addr_len sized protocol_addr_len

-- `TryFrom<EthernetFrame>`
unfoldable pub try_from_ethernet : EthernetFrame → Outcome ArpFrame
unfolding ether_type Ethernet.payload hardware_addr_len protocol_addr_len
try_from_ethernet frame = do
  kind ← ether_type frame
  fail_if (not (kind == arp_ether_type)) "Frame does not have ARP ether type"
  let arp_frame : ArpFrame = record { frame = frame }
  payload ← Ethernet.payload frame
  let payload_len = length payload
  fail_if (ltb payload_len 8) "Frame payload is too small"
  hlen ← hardware_addr_len arp_frame
  plen ← protocol_addr_len arp_frame
  fail_if (not (payload_len == 8 + 2 * hlen + 2 * plen))
      "Frame payload doesn't match address length fields"
  ok arp_frame
