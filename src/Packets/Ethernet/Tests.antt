-- ===== src/Packets/Ethernet/Tests.antt =====
-- The laws of Ethernet frames on a concrete frame.
use route_rs.Common.{ℕ, ◌≡◌, List, [], ◌∷◌, arith, ok, panic}
use route_rs.Common.Bytes.{IsBytes}
use route_rs.Packets.Types.{MacAddr}
use route_rs.Packets.Ethernet.{EthernetFrame, from_buffer, payload}
use route_rs.Packets.Ethernet.Layout.{Fields, IsFields, encode, payload-from_buffer_panics}

abbrev dest_bytes : List ℕ
dest_bytes = 0xFF ∷ 2 ∷ 3 ∷ 4 ∷ 5 ∷ 6 ∷ []

abbrev src_bytes : List ℕ
src_bytes = 7 ∷ 8 ∷ 9 ∷ 10 ∷ 11 ∷ 12 ∷ []

abbrev fields : Fields
fields = record { dest = dest_bytes; src = src_bytes; kind = 0x86DD; body = 1 ∷ 2 ∷ 3 ∷ [] }

fields-IsFields : IsFields fields
fields-IsFields = omega arith

abbrev other_mac : MacAddr
other_mac = record { bytes = src_bytes }

encode-IsBytes : IsBytes (encode fields)
encode-IsBytes = omega arith

payload-from_buffer_panics_example :
    (frame : EthernetFrame) × (from_buffer (encode fields) 4 ≡ ok frame) × (payload frame ≡ panic)
payload-from_buffer_panics_example =
    payload-from_buffer_panics (encode fields) 4 (omega arith) (omega arith)
