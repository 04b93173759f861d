-- ===== src/Packets/Protocol.antt =====
-- `IpProtocol` of route-rs-packets/src/types.rs: the assigned internet protocol numbers.
pub mod Numbers
pub mod Tests
use route_rs.Common.{ℕ, suc, zero, Bool, List, [], ◌∷◌, ltb, ◌==◌, if◌then◌else◌}

-- The variants in the order of the source, so that a variant's discriminant is its position.
pub data IpProtocol : Type 0 where
  hopopt icmp igmp ggp ip_in_ip st tcp cmt egp igp bbn_rrc_mon nvp_ii pup argus : IpProtocol
  emcon xnet chaos udp mux dcn_meas hmp prm xns_idp trunk_1 trunk_2 leaf_1 leaf_2 : IpProtocol
  rdp irtp iso_tp4 netblt mfe_nsp merit_inp dccp threepc idpr xtp ddp idpr_cmtp : IpProtocol
  tp_plus_plus il ipv6 sdrp ipv6_route ipv6_frag idrp rsvp gres dsr bna esp ah : IpProtocol
  i_nlsp swipe narp mobile tlsp skip ipv6_icmp ipv6_no_nxt ipv6_opts : IpProtocol
  any_host_internal_protocol cftp local_network sat_expak kryptolan rvd ippc : IpProtocol
  any_distributed_file_system sat_mon visa ipcu cpnx cphb wsn pvp br_sat_mon sun_nd : IpProtocol
  wb_mon wb_expak iso_ip vmtp secure_vmtp vines ttp nsfnet_igp dgp tcf eigrp ospf : IpProtocol
  sprite_rpc larp mtp ax_25 os micp scc_sp etherip encap : IpProtocol
  any_private_encryption_scheme gmtp ifmp pnni pim aris scps qnx a_n ip_comp snp : IpProtocol
  compaq_peer ipx_in_ip vrrp pgm any_0_hop_protocol l2tp ddx iatp stp srp uti smp : IpProtocol
  sm ptp is_is_over_ipv4 fire crtp crudp sscopmce iplt sps pipe sctp fc : IpProtocol
  rsvp_e2e_ignore mobility_header udp_lite mpls_in_ip manet hip shim6 wesp rohc : IpProtocol
  unassigned use_for_experimentation_and_testing reserved : IpProtocol

module _ {ℓ} {A : Type ℓ} where
  -- The element at a position, or the default past the end.
  unfoldable pub entry : List A → ℕ → A → A
  entry [] i d = d
  entry (x ∷ xs) zero d = x
  entry (x ∷ xs) (suc i) d = entry xs i d

-- The arms `0 => ..` to `142 => ..` of `From<u8>`, in order.
unfoldable pub assigned : List IpProtocol
assigned =
    hopopt ∷ icmp ∷ igmp ∷ ggp ∷ ip_in_ip ∷ st ∷ tcp ∷ cmt ∷ egp ∷ igp ∷ bbn_rrc_mon ∷ nvp_ii ∷ pup
    ∷ argus ∷ emcon ∷ xnet ∷ chaos ∷ udp ∷ mux ∷ dcn_meas ∷ hmp ∷ prm ∷ xns_idp ∷ trunk_1 ∷ trunk_2
    ∷ leaf_1 ∷ leaf_2 ∷ rdp ∷ irtp ∷ iso_tp4 ∷ netblt ∷ mfe_nsp ∷ merit_inp ∷ dccp ∷ threepc ∷ idpr
    ∷ xtp ∷ ddp ∷ idpr_cmtp ∷ tp_plus_plus ∷ il ∷ ipv6 ∷ sdrp ∷ ipv6_route ∷ ipv6_frag ∷ idrp ∷ rsvp
    ∷ gres ∷ dsr ∷ bna ∷ esp ∷ ah ∷ i_nlsp ∷ swipe ∷ narp ∷ mobile ∷ tlsp ∷ skip ∷ ipv6_icmp
    ∷ ipv6_no_nxt ∷ ipv6_opts ∷ any_host_internal_protocol ∷ cftp ∷ local_network ∷ sat_expak
    ∷ kryptolan ∷ rvd ∷ ippc ∷ any_distributed_file_system ∷ sat_mon ∷ visa ∷ ipcu ∷ cpnx ∷ cphb
    ∷ wsn ∷ pvp ∷ br_sat_mon ∷ sun_nd ∷ wb_mon ∷ wb_expak ∷ iso_ip ∷ vmtp ∷ secure_vmtp ∷ vines
    ∷ ttp ∷ nsfnet_igp ∷ dgp ∷ tcf ∷ eigrp ∷ ospf ∷ sprite_rpc ∷ larp ∷ mtp ∷ ax_25 ∷ os ∷ micp
    ∷ scc_sp ∷ etherip ∷ encap ∷ any_private_encryption_scheme ∷ gmtp ∷ ifmp ∷ pnni ∷ pim ∷ aris
    ∷ scps ∷ qnx ∷ a_n ∷ ip_comp ∷ snp ∷ compaq_peer ∷ ipx_in_ip ∷ vrrp ∷ pgm ∷ any_0_hop_protocol
    ∷ l2tp ∷ ddx ∷ iatp ∷ stp ∷ srp ∷ uti ∷ smp ∷ sm ∷ ptp ∷ is_is_over_ipv4 ∷ fire ∷ crtp ∷ crudp
    ∷ sscopmce ∷ iplt ∷ sps ∷ pipe ∷ sctp ∷ fc ∷ rsvp_e2e_ignore ∷ mobility_header ∷ udp_lite
    ∷ mpls_in_ip ∷ manet ∷ hip ∷ shim6 ∷ wesp ∷ rohc ∷ []

-- `IpProtocol::from` of a byte: the assigned numbers, then the ranges 143..=252 and 253..=254, and 255.
unfoldable pub from_u8 : ℕ → IpProtocol
unfolding entry assigned
from_u8 num =
    if ltb num 143
    then entry assigned num unassigned
    else if ltb num 253
    then unassigned
    else if ltb num 255
    then use_for_experimentation_and_testing
    else reserved

-- `protocol as u8`: the discriminant.
unfoldable pub to_u8 : IpProtocol → ℕ
to_u8 hopopt = 0
to_u8 icmp = 1
to_u8 igmp = 2
to_u8 ggp = 3
to_u8 ip_in_ip = 4
to_u8 st = 5
to_u8 tcp = 6
to_u8 cmt = 7
to_u8 egp = 8
to_u8 igp = 9
to_u8 bbn_rrc_mon = 10
to_u8 nvp_ii = 11
to_u8 pup = 12
to_u8 argus = 13
to_u8 emcon = 14
to_u8 xnet = 15
to_u8 chaos = 16
to_u8 udp = 17
to_u8 mux = 18
to_u8 dcn_meas = 19
to_u8 hmp = 20
to_u8 prm = 21
to_u8 xns_idp = 22
to_u8 trunk_1 = 23
to_u8 trunk_2 = 24
to_u8 leaf_1 = 25
to_u8 leaf_2 = 26
to_u8 rdp = 27
to_u8 irtp = 28
to_u8 iso_tp4 = 29
to_u8 netblt = 30
to_u8 mfe_nsp = 31
to_u8 merit_inp = 32
to_u8 dccp = 33
to_u8 threepc = 34
to_u8 idpr = 35
to_u8 xtp = 36
to_u8 ddp = 37
to_u8 idpr_cmtp = 38
to_u8 tp_plus_plus = 39
to_u8 il = 40
to_u8 ipv6 = 41
to_u8 sdrp = 42
to_u8 ipv6_route = 43
to_u8 ipv6_frag = 44
to_u8 idrp = 45
to_u8 rsvp = 46
to_u8 gres = 47
to_u8 dsr = 48
to_u8 bna = 49
to_u8 esp = 50
to_u8 ah = 51
to_u8 i_nlsp = 52
to_u8 swipe = 53
to_u8 narp = 54
to_u8 mobile = 55
to_u8 tlsp = 56
to_u8 skip = 57
to_u8 ipv6_icmp = 58
to_u8 ipv6_no_nxt = 59
to_u8 ipv6_opts = 60
to_u8 any_host_internal_protocol = 61
to_u8 cftp = 62
to_u8 local_network = 63
to_u8 sat_expak = 64
to_u8 kryptolan = 65
to_u8 rvd = 66
to_u8 ippc = 67
to_u8 any_distributed_file_system = 68
to_u8 sat_mon = 69
to_u8 visa = 70
to_u8 ipcu = 71
to_u8 cpnx = 72
to_u8 cphb = 73
to_u8 wsn = 74
to_u8 pvp = 75
to_u8 br_sat_mon = 76
to_u8 sun_nd = 77
to_u8 wb_mon = 78
to_u8 wb_expak = 79
to_u8 iso_ip = 80
to_u8 vmtp = 81
to_u8 secure_vmtp = 82
to_u8 vines = 83
to_u8 ttp = 84
to_u8 nsfnet_igp = 85
to_u8 dgp = 86
to_u8 tcf = 87
to_u8 eigrp = 88
to_u8 ospf = 89
to_u8 sprite_rpc = 90
to_u8 larp = 91
to_u8 mtp = 92
to_u8 ax_25 = 93
to_u8 os = 94
to_u8 micp = 95
to_u8 scc_sp = 96
to_u8 etherip = 97
to_u8 encap = 98
to_u8 any_private_encryption_scheme = 99
to_u8 gmtp = 100
to_u8 ifmp = 101
to_u8 pnni = 102
to_u8 pim = 103
to_u8 aris = 104
to_u8 scps = 105
to_u8 qnx = 106
to_u8 a_n = 107
to_u8 ip_comp = 108
to_u8 snp = 109
to_u8 compaq_peer = 110
to_u8 ipx_in_ip = 111
to_u8 vrrp = 112
to_u8 pgm = 113
to_u8 any_0_hop_protocol = 114
to_u8 l2tp = 115
to_u8 ddx = 116
to_u8 iatp = 117
to_u8 stp = 118
to_u8 srp = 119
to_u8 uti = 120
to_u8 smp = 121
to_u8 sm = 122
to_u8 ptp = 123
to_u8 is_is_over_ipv4 = 124
to_u8 fire = 125
to_u8 crtp = 126
to_u8 crudp = 127
to_u8 sscopmce = 128
to_u8 iplt = 129
to_u8 sps = 130
to_u8 pipe = 131
to_u8 sctp = 132
to_u8 fc = 133
to_u8 rsvp_e2e_ignore = 134
to_u8 mobility_header = 135
to_u8 udp_lite = 136
to_u8 mpls_in_ip = 137
to_u8 manet = 138
to_u8 hip = 139
to_u8 shim6 = 140
to_u8 wesp = 141
to_u8 rohc = 142
to_u8 unassigned = 143
to_u8 use_for_experimentation_and_testing = 144
to_u8 reserved = 145

-- The derived `==`, which compares discriminants.
unfoldable pub same_protocol : IpProtocol → IpProtocol → Bool
unfolding to_u8
same_protocol p q = to_u8 p == to_u8 q
