-- ===== src/Runtime/Link/Process/Chain.antt =====
-- A process link in front of another link.
use route_rs.Common.{
  ℕ, zero, suc, ◌≤◌, ◌≡◌, refl, sym, ap, ◌∙◌, List, [], ◌∷◌, Option-cases, List-cases, inl, inr,
  Option, none, some, length, arith,
}
use route_rs.Runtime.Link.{Poll, ready, pending, PacketStream}
use route_rs.Runtime.Link.Process.{ProcessRunner, poll_loop, poll_next, answers}
use route_rs.Runtime.Link.Queue.Order.{outputs}

module _ (S T A B C : Type 0) (p : S → A → Option B × S) (q : T → B → Option C × T) where
  -- The two processors one after the other; a packet that the first drops does not reach the second.
  unfoldable pub chain : S × T → A → Option C × (S × T)
  chain (s, t) a =
      let (output, s') = p s a in
      elim output [
        | none ↦ (none, (s', t))
        | some b ↦ let (result, t') = q t b in (result, (s', t'))
      ]

  pub chain_dropped :
      (s : S) (t : T) (a : A) → (p s a).0 ≡ none → chain (s, t) a ≡ (none, ((p s a).1, t))
  unfolding chain
  chain_dropped s t a e = rw (chain, e)

  pub chain_made :
      (s : S) (t : T) (a : A) (b : B)
      → (p s a).0 ≡ some b
      → chain (s, t) a ≡ ((q t b).0, ((p s a).1, (q t b).1))
  unfolding chain
  chain_made s t a b e = rw (chain, e)

  pub outputs-chain :
      (s : S) (t : T) (a : A) (stream : PacketStream A) (m : Option C × (S × T))
      → chain (s, t) a ≡ m
      → outputs chain (s, t) (ready (some a) ∷ stream)
        ≡ (let rest = outputs chain m.1 stream in elim m.0 [ none ↦ rest | some c ↦ some c ∷ rest ])
  unfolding outputs
  outputs-chain s t a stream m e =
      ap
        (λ m.
          let rest = outputs chain m.1 stream in elim m.0 [ none ↦ rest | some c ↦ some c ∷ rest ])
        e

  -- What follows an answer of the first link.
  abbrev after : Poll (Option B) → T → (T → List (Option C)) → List (Option C)
  after pending t more = more t
  after (ready none) t more = none ∷ []
  after (ready (some b)) t more =
      let rest = more (q t b).1 in elim (q t b).0 [ none ↦ rest | some c ↦ some c ∷ rest ]

  after_lem :
      (answer : Poll (Option B)) (t : T) (stream : PacketStream B)
      → outputs q t (answer ∷ stream) ≡ after answer t λ t'. outputs q t' stream
  unfolding outputs
  after_lem pending t stream = refl
  after_lem (ready none) t stream = refl
  after_lem (ready (some b)) t stream = refl

  after_ext :
      (answer : Poll (Option B)) (t : T) (f g : T → List (Option C))
      → ((t' : T) → f t' ≡ g t')
      → after answer t f ≡ after answer t g
  after_ext pending t f g h = h t
  after_ext (ready none) t f g h = refl
  after_ext (ready (some b)) t f g h =
      ap (λ r. elim (q t b).0 [ none ↦ r | some c ↦ some c ∷ r ]) (h (q t b).1)

  outputs_pending :
      (st : S × T) (stream : PacketStream A)
      → outputs chain st (pending ∷ stream) ≡ outputs chain st stream
  unfolding outputs
  outputs_pending st stream = refl

  outputs_ended :
      (st : S × T) (stream : PacketStream A) → outputs chain st (ready none ∷ stream) ≡ none ∷ []
  unfolding outputs
  outputs_ended st stream = refl

  -- A poll of the first link, seen from the end of the second.
  poll_loop_lem :
      (stream : PacketStream A) (s : S) (t : T)
      → outputs chain (s, t) stream
        ≡ after (poll_loop S A B p stream s).0 t λ t'.
          outputs chain
            ((poll_loop S A B p stream s).1.processor, t')
            (poll_loop S A B p stream s).1.in_stream
  unfolding poll_loop
  poll_loop_lem [] s t = refl
  poll_loop_lem (pending ∷ stream) s t = outputs_pending (s, t) stream
  poll_loop_lem (ready none ∷ stream) s t = outputs_ended (s, t) stream
  poll_loop_lem (ready (some a) ∷ stream) s t = elim (Option-cases (p s a).0) [
    | inl dropped ↦
        rw (poll_loop, dropped)
          (outputs-chain s t a stream _ (chain_dropped s t a dropped)
            ∙ poll_loop_lem stream (p s a).1 t)
    | inr (b, made) ↦ rw (poll_loop, made) (outputs-chain s t a stream _ (chain_made s t a b made))
  ]

  shorter :
      (stream : PacketStream A) (s : S) (k : ℕ)
      → length stream ≤ suc k
      → length (poll_loop S A B p stream s).1.in_stream ≤ k
  unfolding poll_loop
  shorter [] s k le = omega arith
  shorter (pending ∷ stream) s k le = omega (arith, le)
  shorter (ready none ∷ stream) s k le = omega (arith, le)
  shorter (ready (some a) ∷ stream) s k le = elim (Option-cases (p s a).0) [
    | inl dropped ↦ rw (dropped, poll_loop) (shorter stream (p s a).1 k (omega (arith, le)))
    | inr (b, made) ↦ rw (made, poll_loop) (omega (arith, le))
  ]

  -- A process link in front of a link with another processor: what the second processor puts out
  -- for the answers of the first link, polled at least as often as the first stream has answers,
  -- is what the two processors one after the other put out for the first stream.
  pub process_chain :
      (k : ℕ) (self : ProcessRunner S A B p) (t : T)
      → length self.in_stream ≤ k
      → outputs q t (answers S A B p k self) ≡ outputs chain (self.processor, t) self.in_stream
  unfolding answers poll_next outputs
  process_chain zero self t le = elim (List-cases self.in_stream) [
    | inl e ↦ rw (e, outputs)
    | inr (answer, stream, e) ↦ absurd (omega (arith, le, ap (λ u. length u) e))
  ]
  process_chain (suc k) self t le =
      let (answer, self') = poll_next S A B p self in
      after_lem answer t (answers S A B p k self')
      ∙ after_ext answer t _ _
          (λ t'. process_chain k self' t' (shorter self.in_stream self.processor k le))
      ∙ sym (poll_loop_lem self.in_stream self.processor t)
