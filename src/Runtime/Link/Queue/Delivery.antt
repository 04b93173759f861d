-- ===== src/Runtime/Link/Queue/Delivery.antt =====
-- A queue link delivers its packets, whatever the order of the polls.
use route_rs.Runtime.TaskPark.{new_memory}
use route_rs.Common.{
  ◌==◌, lt→ltb, ℕ, ◌≤◌, ◌<◌, ◌≡◌, refl, sym, ap, subst, ◌∙◌, List, [], ◌∷◌, ◌++◌, true, false,
  Option-cases, inl, inr, Option, none, some, ok, ◌>>=◌, length, arith,
}
use mathlib.Core.List.{append_assoc, append-nil}
use route_rs.Runtime.Crossbeam.{Crossbeam, IsCrossbeam}
use route_rs.Runtime.Link.{PacketStream, new_port}
use route_rs.Runtime.Link.Queue.{queue_capacity, ingressor, build_link}
use route_rs.Runtime.Link.Queue.Order.{outputs}
use route_rs.Runtime.Link.Queue.Order.{outputs_end}
use route_rs.Runtime.Link.Queue.Run.{Turn, ingress, egress, Running, egress_turn, run, start}
use route_rs.Runtime.Link.Queue.Invariant.{
  Inv, IsClosing, IsValid, ingress_turn-IsValid, egress_turn-IsValid,
}
use route_rs.Runtime.Link.Sending.{IsOpen-new_port}

module _ (cb : Crossbeam) (law : IsCrossbeam cb) (S A B : Type 0) (process : S → A → Option B × S)
    (n : ℕ) (total : List (Option B)) where
  open cb use {contents, drop_sender}

  run-IsValid :
      (turns : List Turn) (sys : Running cb S A B process)
      → IsValid cb law S A B process n total sys
      → (sys' : Running cb S A B process) × (run cb S A B process turns sys ≡ ok sys')
        × IsValid cb law S A B process n total sys'
  unfolding run
  run-IsValid [] sys valid = (sys, refl, valid)
  run-IsValid (ingress ∷ turns) sys valid =
      let (next, e, valid') = ingress_turn-IsValid cb law S A B process n total sys valid in
      let (sys', done, valid'') = run-IsValid turns next valid' in
      (sys', ap (λ t. t >>= run cb S A B process turns) e ∙ done, valid'')
  run-IsValid (egress ∷ turns) sys valid =
      run-IsValid turns (egress_turn cb S A B process sys)
        (egress_turn-IsValid cb law S A B process n total sys valid)

  -- What the invariant says of the packets.
  abbrev IsDelivering : Running cb S A B process → Type 0
  IsDelivering sys =
      ((later : List (Option B)) × (sys.delivered ++ later ≡ total))
      × (length (contents sys.port.channel) ≤ n)
      × (sys.ended ≡ true → IsClosing cb law S A B process n total sys.delivered)

  IsValid-IsDelivering :
      (sys : Running cb S A B process) → IsValid cb law S A B process n total sys → IsDelivering sys
  IsValid-IsDelivering sys (inv, v) = elim (Option-cases sys.ingressor) [
    | inl gone ↦
        let (within, kept, end) =
          subst (λ t. Inv cb law S A B process n total t sys.port sys.delivered sys.ended) gone
            inv in
        ((contents sys.port.channel, kept), within, v)
    | inr (i, runs) ↦
        let (o, kept) =
          subst (λ t. Inv cb law S A B process n total t sys.port sys.delivered sys.ended) runs
            inv in
        ((_, kept), o.within, v)
  ]

module _ (cb : Crossbeam) (law : IsCrossbeam cb) (S A B : Type 0)
    (process : S → A → Option B × S) where
  open cb use {contents}

  abbrev pub started : ℕ → S → PacketStream A → Running cb S A B process
  started n s stream = record {
    ingressor = some (record { input_stream = stream; processor = s });
    port = new_port cb B n;
    mem = new_memory cb;
    delivered = [];
    ended = false;
  }

  pub start_lem :
      (n : ℕ) (s : S) (stream : PacketStream A)
      → 0 < n
      → start cb S A B process n s stream ≡ ok (started n s stream)
  unfolding start queue_capacity ingressor build_link
  start_lem n s stream lt = simp (start, queue_capacity, lt→ltb 0 n lt, nonzero)
    where
      nonzero : (n == 0) ≡ false
      nonzero = ground arith

  started-IsValid :
      (n : ℕ) (s : S) (stream : PacketStream A)
      → IsValid cb law S A B process n (outputs process s stream) (started n s stream)
  started-IsValid n s stream =
      ((IsOpen-new_port cb law B n, rw (law.contents-bounded {A = Option B} n)), λ over. cc)

  -- Over channels and cells that behave as documented, a queue link that the builder makes with a
  -- capacity above 0, a processor and a stream never panics in any sequence of polls of its two
  -- sides: the channel never holds more messages than its capacity, what the consumer has received
  -- so far is a beginning of the processor's outputs for the stream in their order, and once it
  -- has received the end it has received all of them.
  pub run_delivers :
      (n : ℕ) (s : S) (stream : PacketStream A) (turns : List Turn)
      → 0 < n
      → (sys : Running cb S A B process) × ((start cb S A B process n s stream
            >>= run cb S A B process turns)
          ≡ ok sys)
        × (length (contents sys.port.channel) ≤ n)
        × ((later : List (Option B)) × (sys.delivered ++ later ≡ outputs process s stream))
        × (sys.ended ≡ true → sys.delivered ≡ outputs process s stream)
  run_delivers n s stream turns lt =
      let (sys, done, valid') =
        run-IsValid cb law S A B process n _ turns (started n s stream)
          (started-IsValid n s stream) in
      let ((later, kept), within, end) = IsValid-IsDelivering cb law S A B process n _ sys valid' in
      (
        sys,
        ap (λ t. t >>= run cb S A B process turns) (start_lem n s stream lt) ∙ done,
        within,
        (later, kept),
        λ over. whole sys.delivered later (end over) kept,
      )
    where
      whole :
          (delivered later : List (Option B))
          → ((front : List (Option B)) × (delivered ≡ front ++ none ∷ []))
          → delivered ++ later ≡ outputs process s stream
          → delivered ≡ outputs process s stream
      whole delivered later (front, closing) kept =
          let nothing =
            outputs_end process s stream front later
              (sym kept ∙ ap (λ t. t ++ later) closing ∙ append_assoc front (none ∷ []) later) in
          sym (append-nil delivered) ∙ ap (λ t. delivered ++ t) (sym nothing) ∙ kept
