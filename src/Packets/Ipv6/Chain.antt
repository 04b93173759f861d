-- ===== src/Packets/Ipv6/Chain.antt =====
-- Chains of extension headers: both loops of ipv6.rs end, and read a well-formed chain.
use route_rs.Common.{
  ℕ, zero, suc, ◌+◌, ◌*◌, ◌/◌, ◌≤◌, ◌<◌, ◌≡◌, refl, sym, ap, subst₂, ◌∙◌, ◌⊎◌, Option, List, [],
  ◌∷◌, ◌++◌, true, false, Bool-cases, inl, inr, leb, ◌==◌, le→ltb, lt→ltb, arith, length, slice, ok,
  err, bit_and, index-append, index-append_zero, index_of_lt, slice_mid, length-append,
}
use native.Mathlib.Decide.{dec_lt}
use mathlib.Core.List.{append_assoc, append-nil}
use route_rs.Common.Masks.{and_f0}
use route_rs.Packets.Protocol.{IpProtocol, from_u8}
use route_rs.Packets.Ipv6.{next_header}
use route_rs.Packets.Ipv6.Layout.{
  Header, IsHeader, encode, length-encode, header_bytes, encode-split, length-header_bytes,
}
use route_rs.Packets.Ipv6.Payload.{packet}
use route_rs.Packets.Ipv6.Extension.{
  is_extension, ext_len, headers_loop, extension_headers, payload_type_loop, get_ipv6_payload_type,
}

pub ext_len_pos : (b : ℕ) → 0 < ext_len b
ext_len_pos b = ground arith

long_lt : (d : List ℕ) (offset : ℕ) → leb (length d) (offset + 1) ≡ false → offset + 1 < length d
long_lt d offset e = ground arith

-- With more fuel than bytes left, the loop does not run out.
payload_type_loop_total :
    (fuel : ℕ) (d : List ℕ) (p : IpProtocol) (offset : ℕ)
    → 0 < fuel
    → length d < fuel + offset
    → (r : IpProtocol) × (payload_type_loop fuel d p offset ≡ ok r)
unfolding payload_type_loop
payload_type_loop_total zero d p offset pos enough = absurd (omega arith)
payload_type_loop_total (suc fuel) d p offset pos enough = elim (Bool-cases (is_extension p)) [
  | inr e ↦ (p, rw (payload_type_loop, e))
  | inl e ↦ elim (Bool-cases (leb (length d) (offset + 1))) [
    | inl short ↦ (IpProtocol.reserved, rw (payload_type_loop, e, short))
    | inr long ↦
        let past : offset + 1 < length d = omega (arith, long_lt d offset long) in
        let (b, eb) = index_of_lt d (offset + 1) past in
        let (n, en) = index_of_lt d offset (omega arith) in
        let (r, er) =
          payload_type_loop_total fuel d (from_u8 n) (offset + ext_len b) (omega arith)
            (omega (arith, ext_len_pos b)) in
        (r, rw (payload_type_loop, e, long, eb, en, er))
  ]
]

-- On any buffer and at any offset, `get_ipv6_payload_type` gives its one error or a protocol: it
-- neither panics nor runs out of fuel.
pub get_ipv6_payload_type_total :
    (d : List ℕ) (offset : ℕ)
    → (get_ipv6_payload_type d offset ≡ err "Is not an Ipv6 Packet")
      ⊎ ((r : IpProtocol) × (get_ipv6_payload_type d offset ≡ ok r))
unfolding get_ipv6_payload_type
get_ipv6_payload_type_total d offset = elim (dec_lt (length d) (offset + 40)) [
  | yes short ↦ inl (rw (lt→ltb _ _ short))
  | no long ↦
      let (first, e) = index_of_lt d offset (omega arith) in
      let (n, en) = index_of_lt d (offset + 6) (omega arith) in
      let (r, er) =
        payload_type_loop_total (suc (length d)) d (from_u8 n) (offset + 40) (omega arith)
          (omega arith) in
      elim (Bool-cases (bit_and first 0xF0 == 0x60)) [
        | inl six ↦ inr (r, rw (le→ltb (length d) (offset + 40) (omega arith), e, six, en, er))
        | inr other ↦ inl (rw (le→ltb (length d) (offset + 40) (omega arith), e, other))
      ]
]

-- An extension header: the byte of what follows it, its length byte, and the rest.
pub record Ext : Type 0 where
  pub next : ℕ
  pub len : ℕ
  pub more : List ℕ

abbrev pub ext_bytes : Ext → List ℕ
ext_bytes x = x.next ∷ x.len ∷ x.more

abbrev pub bytes_of : List Ext → List ℕ
bytes_of [] = []
bytes_of (x ∷ xs) = ext_bytes x ++ bytes_of xs

abbrev pub each_bytes : List Ext → List (List ℕ)
each_bytes [] = []
each_bytes (x ∷ xs) = ext_bytes x ∷ each_bytes xs

-- From the byte `n` on, each header announces the next one and is as long as it says, and the last
-- one announces `m`, which is no extension header.
abbrev pub IsChain : ℕ → List Ext → ℕ → Type 0
IsChain n [] m = (n ≡ m) × (is_extension (from_u8 n) ≡ false)
IsChain n (x ∷ xs) m =
    (is_extension (from_u8 n) ≡ true) × (ext_len x.len ≡ length (ext_bytes x)) × IsChain x.next xs m

module _ (pre : List ℕ) (x : Ext) (xs : List Ext) (body : List ℕ) where
  -- The buffer, with the first header counted to what precedes.
  next_whole : pre ++ (bytes_of (x ∷ xs) ++ body) ≡ (pre ++ ext_bytes x) ++ (bytes_of xs ++ body)
  next_whole =
      ap (λ t. pre ++ t) (append_assoc (ext_bytes x) (bytes_of xs) body)
      ∙ sym (append_assoc pre (ext_bytes x) (bytes_of xs ++ body))

  next_offset :
      ext_len x.len ≡ length (ext_bytes x)
      → length (pre ++ ext_bytes x) ≡ length pre + ext_len x.len
  next_offset e = length-append pre (ext_bytes x) ∙ ap (λ n. length pre + n) (sym e)

  read_bytes :
      ext_len x.len ≡ length (ext_bytes x)
      → slice (pre ++ (bytes_of (x ∷ xs) ++ body)) (length pre) (length pre + ext_len x.len)
        ≡ ok (ext_bytes x)
  read_bytes e =
      ap (λ t. slice (pre ++ t) (length pre) (length pre + ext_len x.len))
        (append_assoc (ext_bytes x) (bytes_of xs) body)
      ∙ slice_mid pre (ext_bytes x) (bytes_of xs ++ body) _ _ refl
          (ap (λ n. length pre + n) (sym e))

headers_loop_chain :
    (fuel : ℕ) (pre : List ℕ) (xs : List Ext) (body : List ℕ) (acc : List (List ℕ)) (n m : ℕ)
    → IsChain n xs m
    → length xs < fuel
    → headers_loop fuel (pre ++ (bytes_of xs ++ body)) acc (from_u8 n) (length pre)
      ≡ ok (acc ++ each_bytes xs)
unfolding headers_loop
headers_loop_chain zero pre xs body acc n m chain enough = absurd (omega arith)
headers_loop_chain (suc fuel) pre [] body acc n m chain enough =
    rw (headers_loop, chain.1, append-nil acc)
headers_loop_chain (suc fuel) pre (x ∷ xs) body acc n m chain enough =
    rw
      (
        headers_loop,
        chain.0,
        index-append pre (bytes_of (x ∷ xs) ++ body) 1,
        read_bytes pre x xs body chain.1,
        index-append_zero pre (bytes_of (x ∷ xs) ++ body),
        next_whole pre x xs body,
        sym (next_offset pre x xs body chain.1),
      )
      (headers_loop_chain fuel (pre ++ ext_bytes x) xs body (acc ++ ext_bytes x ∷ []) x.next m
          chain.2 (omega arith)
        ∙ ap ok (append_assoc acc (ext_bytes x ∷ []) (each_bytes xs)))

payload_type_loop_chain :
    (fuel : ℕ) (pre : List ℕ) (xs : List Ext) (body : List ℕ) (n m : ℕ)
    → IsChain n xs m
    → length xs < fuel
    → payload_type_loop fuel (pre ++ (bytes_of xs ++ body)) (from_u8 n) (length pre)
      ≡ ok (from_u8 m)
unfolding payload_type_loop
payload_type_loop_chain zero pre xs body n m chain enough = absurd (omega arith)
payload_type_loop_chain (suc fuel) pre [] body n m chain enough =
    rw (payload_type_loop, chain.1) (ap (λ b. ok (from_u8 b)) chain.0)
payload_type_loop_chain (suc fuel) pre (x ∷ xs) body n m chain enough =
    rw
      (
        payload_type_loop,
        chain.0,
        long,
        index-append pre (bytes_of (x ∷ xs) ++ body) 1,
        index-append_zero pre (bytes_of (x ∷ xs) ++ body),
        next_whole pre x xs body,
        sym (next_offset pre x xs body chain.1),
      )
      (payload_type_loop_chain fuel (pre ++ ext_bytes x) xs body x.next m chain.2 (omega arith))
  where
    long : leb (length (pre ++ (bytes_of (x ∷ xs) ++ body))) (length pre + 1) ≡ false
    long = ground (arith, length-append pre (bytes_of (x ∷ xs) ++ body))

length-chain : (xs : List Ext) → length xs ≤ length (bytes_of xs)
length-chain [] = omega arith
length-chain (x ∷ xs) = omega (arith, length-append (ext_bytes x) (bytes_of xs), length-chain xs)

-- On an IPv6 packet of version 6 with its header in range whose extension headers form a chain
-- (each announces the next and is as long as its length byte says, and the last announces a
-- protocol that is no extension header), `extension_headers` gives the bytes of each header in
-- order, and `get_ipv6_payload_type` the protocol that the last one announces.
pub extension_headers-chain :
    (pre : List ℕ) (h : Header) (xs : List Ext) (body : List ℕ) (l2 : Option ℕ) (m : ℕ)
    → IsHeader h
    → h.version ≡ 6
    → IsChain h.next_header xs m
    → (extension_headers (packet pre h (bytes_of xs) body l2) ≡ ok (each_bytes xs))
      × (get_ipv6_payload_type (pre ++ encode h (bytes_of xs ++ body)) (length pre)
          ≡ ok (from_u8 m))
unfolding extension_headers get_ipv6_payload_type next_header
extension_headers-chain pre h xs body l2 m v six chain = (
  rw (index-append pre (encode h (bytes_of xs ++ body)) 6) (
      subst₂ (λ b o. headers_loop fuel b [] (from_u8 h.next_header) o ≡ ok (each_bytes xs)) split
        ahead
        (headers_loop_chain fuel (pre ++ header_bytes h) xs body [] h.next_header m chain enough)),
  rw
      (
        le→ltb (length (pre ++ encode h (bytes_of xs ++ body))) (length pre + 40)
            (omega (arith, long)),
        index-append_zero pre (encode h (bytes_of xs ++ body)),
        first,
        index-append pre (encode h (bytes_of xs ++ body)) 6,
      )
      (subst₂ (λ b o. payload_type_loop fuel b (from_u8 h.next_header) o ≡ ok (from_u8 m)) split
        ahead
        (payload_type_loop_chain fuel (pre ++ header_bytes h) xs body h.next_header m chain
          enough)),
)
  where
    long :
        length (pre ++ encode h (bytes_of xs ++ body))
        ≡ length pre + (40 + length (bytes_of xs ++ body))
    long = omega (
      arith,
      length-append pre (encode h (bytes_of xs ++ body)),
      length-encode h (bytes_of xs ++ body) v,
    )

    fuel : ℕ
    fuel = suc (length (pre ++ encode h (bytes_of xs ++ body)))

    enough : length xs < fuel
    enough = omega (arith, long, length-append (bytes_of xs) body, length-chain xs)

    split : (pre ++ header_bytes h) ++ (bytes_of xs ++ body) ≡ pre ++ encode h (bytes_of xs ++ body)
    split =
        append_assoc pre (header_bytes h) (bytes_of xs ++ body)
        ∙ ap (λ t. pre ++ t) (sym (encode-split h (bytes_of xs ++ body)))

    ahead : length (pre ++ header_bytes h) ≡ length pre + 40
    ahead = omega (arith, length-append pre (header_bytes h), length-header_bytes h v)

    first : bit_and (h.version * 16 + h.traffic_class / 16) 0xF0 ≡ 0x60
    first = omega (arith, v, and_f0 (h.version * 16 + h.traffic_class / 16))
