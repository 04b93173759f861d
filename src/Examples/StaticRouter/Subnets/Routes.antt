-- ===== src/Examples/StaticRouter/Subnets/Routes.antt =====
-- Where the subnet routers send an address.
use mathlib.Core.List.{Memᴰ}
use mathlib.Core.List.Memᴰ
use route_rs.Common.{
  ℕ, ◌+◌, ◌*◌, ◌/◌, ◌^◌, ◌<◌, ◌≤◌, ◌≡◌, refl, ap, ◌∙◌, subst, List, [], ◌∷◌, some, ok, ◌==◌,
  if◌then◌else◌, inl, inr, arith, Option-cases,
}
use route_rs.Examples.StaticRouter.Subnets.{
  Interface, interface0, interface1, interface2, new_ipv4, new_ipv6, route, ipv4_addr, ipv6_addr,
  classify_ipv4, classify_ipv6, address_from,
}
use route_rs.Packets.Types.{Ipv4Packet, Ipv6Packet, Ipv4Addr, Ipv6Addr}
use route_rs.Packets.Ipv4
use route_rs.Packets.Ipv6
use route_rs.Examples.StaticRouter.Table.{IpLookupTable, IsLookupTable, Entry, IsLongest, Covers}

abbrev entry : ℕ → ℕ → Interface → Entry Interface
entry address masklen value = record { address = address; masklen = masklen; value = value }

abbrev ipv4_table : List (Entry Interface)
ipv4_table =
    entry 168430080 24 interface2
    ∷ entry 3232235520 16 interface2
    ∷ entry 167772160 8 interface1
    ∷ entry 0 0 interface0
    ∷ []

ipv4_entries :
    (t : IpLookupTable Interface)
    → IsLookupTable 32 t
    → (default_if : Interface) → t.entries (new_ipv4 t default_if).lookup_table ≡ ipv4_table
unfolding new_ipv4
ipv4_entries t laws default_if =
    rw
      (
        laws.entries-insert _ (ipv4_addr 10 10 10 0) 24 interface2,
        laws.entries-insert _ (ipv4_addr 192 168 0 0) 16 interface2,
        laws.entries-insert _ (ipv4_addr 10 0 0 0) 8 interface1,
        laws.entries-insert t.new (ipv4_addr 0 0 0 0) 0 interface0,
        laws.entries-new,
      )
      refl

-- the route of an address in the table of `Ipv4SubnetRouter::new`
abbrev pub ipv4_route : ℕ → Interface
ipv4_route a =
    if a / 2 ^ 8 == ipv4_addr 10 10 10 0 / 2 ^ 8
    then interface2
    else if a / 2 ^ 24 == 10
    then interface1
    else if a / 2 ^ 16 == 192 * 256 + 168
    then interface2
    else interface0

module _ (a : ℕ) (e : Entry Interface) (lt : a < 2 ^ 32)
    (h : IsLongest 32 ipv4_table a (some e)) where
  -- No longer prefix of the table covers the address.
  abbrev Fits4 : Entry Interface → Type 0
  Fits4 f = Covers 32 f a → f.masklen ≤ e.masklen

  fits24 : Fits4 (entry 168430080 24 interface2)
  fits24 = h.2 _ (Memᴰ.head refl)

  fits16 : Fits4 (entry 3232235520 16 interface2)
  fits16 = h.2 _ (Memᴰ.tail (Memᴰ.head refl))

  fits8 : Fits4 (entry 167772160 8 interface1)
  fits8 = h.2 _ (Memᴰ.tail (Memᴰ.tail (Memᴰ.head refl)))

  of_entry :
      (f : Entry Interface)
      → e ≡ f
      → (Covers 32 f a → f.value ≡ ipv4_route a)
      → e.value ≡ ipv4_route a
  of_entry f same here =
      ap (λ (x : Entry Interface). x.value) same ∙ here (subst (λ x. Covers 32 x a) same h.1)

  longest_in_ipv4_table : e.value ≡ ipv4_route a
  longest_in_ipv4_table = elim (Memᴰ.cases_cons h.0) [
    | inl e1 ↦ of_entry (entry 168430080 24 interface2) e1 (λ c. ground arith)
    | inr m1 ↦ elim (Memᴰ.cases_cons m1) [
      | inl e2 ↦
          let len = ap (λ (x : Entry Interface). x.masklen) e2 in
          of_entry (entry 3232235520 16 interface2) e2 (λ c. ground (arith, fits24))
      | inr m2 ↦ elim (Memᴰ.cases_cons m2) [
        | inl e3 ↦
            let len = ap (λ (x : Entry Interface). x.masklen) e3 in
            of_entry (entry 167772160 8 interface1) e3 (λ c. ground (arith, fits24, fits16))
        | inr m3 ↦
            let e4 = Memᴰ.eq_of_singleton m3 in
            let len = ap (λ (x : Entry Interface). x.masklen) e4 in
            of_entry (entry 0 0 interface0) e4 (λ c. ground (arith, fits24, fits16, fits8))
      ]
    ]
  ]

-- The router sends an address to the interface of its longest prefix; `default_if` is never used.
pub ipv4_router_lem :
    (t : IpLookupTable Interface)
    → IsLookupTable 32 t
    → (default_if : Interface) (a : ℕ) → a < 2 ^ 32
    → route t (new_ipv4 t default_if) a ≡ ipv4_route a
ipv4_router_lem t laws default_if a lt =
    let table = (new_ipv4 t default_if).lookup_table in
    let found = rw (ipv4_entries t laws default_if) at (laws.longest_match_lem table a) in
    elim (Option-cases (t.longest_match table a)) [
      | inl none_found ↦ absurd (
          (rw none_found at found) (entry 0 0 interface0)
            (Memᴰ.tail (Memᴰ.tail (Memᴰ.tail (Memᴰ.head refl)))) (omega arith))
      | inr (e, e_found) ↦ rw e_found (longest_in_ipv4_table a e lt (rw e_found at found))
    ]

abbrev ipv6_table : List (Entry Interface)
ipv6_table =
    entry 42540766480198310862439499904952827904 64 interface2
    ∷ entry 42540766470373677993847444382117003264 48 interface2
    ∷ entry 42540766480197409204035921055779389440 48 interface1
    ∷ entry 0 0 interface0
    ∷ []

ipv6_entries :
    (t : IpLookupTable Interface)
    → IsLookupTable 128 t
    → (default_if : Interface) → t.entries (new_ipv6 t default_if).lookup_table ≡ ipv6_table
unfolding new_ipv6
ipv6_entries t laws default_if =
    rw
      (
        laws.entries-insert _ (ipv6_addr 0x2001 0xdb8 0xdead 0xbeef 0 0 0 0) 64 interface2,
        laws.entries-insert _ (ipv6_addr 0x2001 0xdb8 0xbeef 0 0 0 0 0) 48 interface2,
        laws.entries-insert _ (ipv6_addr 0x2001 0xdb8 0xdead 0 0 0 0 0) 48 interface1,
        laws.entries-insert t.new (ipv6_addr 0 0 0 0 0 0 0 0) 0 interface0,
        laws.entries-new,
      )
      refl

-- the route of an address in the table of `Ipv6SubnetRouter::new`
abbrev pub ipv6_route : ℕ → Interface
ipv6_route a =
    if a / 2 ^ 64 == ((0x2001 * 65536 + 0xdb8) * 65536 + 0xdead) * 65536 + 0xbeef
    then interface2
    else if a / 2 ^ 80 == (0x2001 * 65536 + 0xdb8) * 65536 + 0xdead
    then interface1
    else if a / 2 ^ 80 == (0x2001 * 65536 + 0xdb8) * 65536 + 0xbeef
    then interface2
    else interface0

module _ (a : ℕ) (e : Entry Interface) (lt : a < 2 ^ 128)
    (h : IsLongest 128 ipv6_table a (some e)) where
  abbrev Fits6 : Entry Interface → Type 0
  Fits6 f = Covers 128 f a → f.masklen ≤ e.masklen

  fits64 : Fits6 (entry 42540766480198310862439499904952827904 64 interface2)
  fits64 = h.2 _ (Memᴰ.head refl)

  fits48b : Fits6 (entry 42540766470373677993847444382117003264 48 interface2)
  fits48b = h.2 _ (Memᴰ.tail (Memᴰ.head refl))

  fits48d : Fits6 (entry 42540766480197409204035921055779389440 48 interface1)
  fits48d = h.2 _ (Memᴰ.tail (Memᴰ.tail (Memᴰ.head refl)))

  of_entry6 :
      (f : Entry Interface)
      → e ≡ f
      → (Covers 128 f a → f.value ≡ ipv6_route a)
      → e.value ≡ ipv6_route a
  of_entry6 f same here =
      ap (λ (x : Entry Interface). x.value) same ∙ here (subst (λ x. Covers 128 x a) same h.1)

  longest_in_ipv6_table : e.value ≡ ipv6_route a
  longest_in_ipv6_table = elim (Memᴰ.cases_cons h.0) [
    | inl e1 ↦
        of_entry6 (entry 42540766480198310862439499904952827904 64 interface2) e1
          (λ c. ground arith)
    | inr m1 ↦ elim (Memᴰ.cases_cons m1) [
      | inl e2 ↦
          let len = ap (λ (x : Entry Interface). x.masklen) e2 in
          of_entry6 (entry 42540766470373677993847444382117003264 48 interface2) e2
            (λ c. ground (arith, fits64))
      | inr m2 ↦ elim (Memᴰ.cases_cons m2) [
        | inl e3 ↦
            let len = ap (λ (x : Entry Interface). x.masklen) e3 in
            of_entry6 (entry 42540766480197409204035921055779389440 48 interface1) e3
              (λ c. ground (arith, fits64))
        | inr m3 ↦
            let e4 = Memᴰ.eq_of_singleton m3 in
            let len = ap (λ (x : Entry Interface). x.masklen) e4 in
            of_entry6 (entry 0 0 interface0) e4 (λ c. ground (arith, fits64, fits48b, fits48d))
      ]
    ]
  ]

-- The same for the router of IPv6.
pub ipv6_router_lem :
    (t : IpLookupTable Interface)
    → IsLookupTable 128 t
    → (default_if : Interface) (a : ℕ) → a < 2 ^ 128
    → route t (new_ipv6 t default_if) a ≡ ipv6_route a
ipv6_router_lem t laws default_if a lt =
    let table = (new_ipv6 t default_if).lookup_table in
    let found = rw (ipv6_entries t laws default_if) at (laws.longest_match_lem table a) in
    elim (Option-cases (t.longest_match table a)) [
      | inl none_found ↦ absurd (
          (rw none_found at found) (entry 0 0 interface0)
            (Memᴰ.tail (Memᴰ.tail (Memᴰ.tail (Memᴰ.head refl)))) (omega arith))
      | inr (e, e_found) ↦ rw e_found (longest_in_ipv6_table a e lt (rw e_found at found))
    ]

-- A packet is routed by its destination.
pub classify_ipv4_lem :
    (t : IpLookupTable Interface)
    → IsLookupTable 32 t
    → (default_if : Interface) (packet : Ipv4Packet) (address : Ipv4Addr)
    → Ipv4.dest_addr packet ≡ ok address
    → address_from t 0 address.octets < 2 ^ 32
    → classify_ipv4 t (new_ipv4 t default_if) packet
      ≡ ok (ipv4_route (address_from t 0 address.octets))
unfolding classify_ipv4
classify_ipv4_lem t laws default_if packet address read lt =
    rw (read, ipv4_router_lem t laws default_if (address_from t 0 address.octets) lt) refl

-- The same for a packet of IPv6.
pub classify_ipv6_lem :
    (t : IpLookupTable Interface)
    → IsLookupTable 128 t
    → (default_if : Interface) (packet : Ipv6Packet) (address : Ipv6Addr)
    → Ipv6.dest_addr packet ≡ ok address
    → address_from t 0 address.octets < 2 ^ 128
    → classify_ipv6 t (new_ipv6 t default_if) packet
      ≡ ok (ipv6_route (address_from t 0 address.octets))
unfolding classify_ipv6
classify_ipv6_lem t laws default_if packet address read lt =
    rw (read, ipv6_router_lem t laws default_if (address_from t 0 address.octets) lt) refl
