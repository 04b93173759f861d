-- ===== src/Packets/Ipv6/Extend.antt =====
-- What `Ipv6Packet::set_extension_headers` does to a packet.
use route_rs.Common.{
  ℕ, ◌+◌, ◌≡◌, ◌↔◌, refl, sym, ap, ◌∙◌, Option, List, [], ◌∷◌, ◌++◌, Bool-cases, inl, inr, ◌==◌,
  if◌then◌else◌, arith, length, suffix, ok, ◌>>=◌, write_at-append, suffix_inside, suffix_end,
  length-append, length-suffix,
}
use mathlib.Core.List.{append_assoc, append-nil}
use route_rs.Packets.Protocol.{IpProtocol, to_u8}
use route_rs.Packets.Ipv6.Layout.{
  Header, IsHeader, encode, assemble, header_bytes, encode-split, encode-append,
}
use route_rs.Packets.Ipv6.{payload, set_next_header}
use route_rs.Packets.Ipv6.Extension.{extend_all, set_extension_headers}
use route_rs.Packets.Ipv6.Payload.{packet, body_lem, kept_lem}

-- The headers' bytes, one after another.
abbrev pub joined : List (List ℕ) → List ℕ
joined [] = []
joined (e ∷ es) = e ++ joined es

extend_all-eq : (d : List ℕ) (es : List (List ℕ)) → extend_all d es ≡ d ++ joined es
unfolding extend_all
extend_all-eq d [] = sym (append-nil d)
extend_all-eq d (e ∷ es) = extend_all-eq (d ++ e) es ∙ append_assoc d e (joined es)

-- For an IPv6 packet with its header in range and extension headers before its payload,
-- `set_extension_headers` puts the bytes of the new headers in the place of the old ones, sets the
-- next header unless there are none, and keeps the payload length and the payload offset.
pub set_extension_headers_lem :
    (pre : List ℕ) (h : Header) (exts body : List ℕ) (l2 : Option ℕ) (headers : List (List ℕ))
    (first : IpProtocol)
    → IsHeader h
    → set_extension_headers (packet pre h exts body l2) headers first
      ≡ ok (
          assemble pre
            (record h { next_header = if length headers == 0 then h.next_header else to_u8 first })
            (joined headers ++ body)
            l2
            (length pre + (40 + length exts)))
unfolding set_extension_headers set_next_header
set_extension_headers_lem pre h exts body l2 headers first v =
    rw (body_lem pre h exts body l2 v, kept_lem pre h exts body l2 v, extended)
      (elim (Bool-cases (length headers == 0)) [ inl e ↦ rw e | inr e ↦ rw (e, write_at-append) ])
  where
    extended :
        extend_all (pre ++ header_bytes h) headers ++ body
        ≡ pre ++ encode h (joined headers ++ body)
    extended =
        ap (λ t. t ++ body) (extend_all-eq (pre ++ header_bytes h) headers)
        ∙ append_assoc (pre ++ header_bytes h) (joined headers) body
        ∙ append_assoc pre (header_bytes h) (joined headers ++ body)
        ∙ ap (λ t. pre ++ t) (sym (encode-split h (joined headers ++ body)))

-- For an IPv6 packet with its header in range and extension headers before its payload, `payload`
-- after `set_extension_headers` is the payload of before exactly when the new headers are as long
-- as the old ones.
pub payload-set_extension_headers_iff :
    (pre : List ℕ) (h : Header) (exts body : List ℕ) (l2 : Option ℕ) (headers : List (List ℕ))
    (first : IpProtocol)
    → IsHeader h
    → ((set_extension_headers (packet pre h exts body l2) headers first >>= payload) ≡ ok body)
      ↔ (length (joined headers) ≡ length exts)
payload-set_extension_headers_iff pre h exts body l2 headers first v =
    rw (set_extension_headers_lem pre h exts body l2 headers first v)
      (unfold payload in (there, back))
  where
    h' : Header
    h' = record h { next_header = if length headers == 0 then h.next_header else to_u8 first }

    whole : List ℕ
    whole = pre ++ encode h' (joined headers ++ body)

    covered : (rest : List ℕ) → length (encode h' rest) ≡ 40 + length rest
    covered rest = omega (arith, v, length-append h.src (h.dest ++ rest), length-append h.dest rest)

    there :
        suffix whole (length pre + (40 + length exts)) ≡ ok body
        → length (joined headers) ≡ length exts
    there e = omega (
      arith,
      length-suffix whole (length pre + (40 + length exts)) body e,
      length-append pre (encode h' (joined headers ++ body)),
      covered (joined headers ++ body),
      length-append (joined headers) body,
    )

    back :
        length (joined headers) ≡ length exts
        → suffix whole (length pre + (40 + length exts)) ≡ ok body
    back e =
        suffix_inside pre (encode h' (joined headers ++ body)) _ (40 + length exts) refl
        ∙ ap (λ b. suffix b (40 + length exts)) (sym (encode-append h' (joined headers) body))
        ∙ suffix_end (encode h' (joined headers)) body (40 + length exts)
            (covered (joined headers) ∙ omega arith)
