-- ===== src/Runtime/Link/Queue/Invariant.antt =====
-- The invariant of a running queue link, which every turn keeps.
use route_rs.Common.{
  is_some, ℕ, ◌≤◌, ◌≡◌, refl, sym, ap, ap₂, subst, ◌∙◌, List, [], ◌∷◌, ◌++◌, Bool, true, false, not,
  Bool-cases, List-cases, Option-cases, inl, inr, ◌⊎◌, Option, none, some, ok, err, panic, ◌>>=◌,
  length, arith, if◌then◌else◌,
}
use mathlib.Core.List.{append_assoc}
use route_rs.Runtime.Crossbeam.{Crossbeam, IsCrossbeam, is_empty, first, rest}
use route_rs.Runtime.TaskPark.{Waker, Memory}
use route_rs.Runtime.Link.{ready, pending, Port, unpark, die, park}
use route_rs.Runtime.Link.Sending.{IsOpen, IsOpen-try_recv, received_lem}
use route_rs.Runtime.Link.Queue.{QueueIngressor, Polled, poll, poll_next}
use route_rs.Runtime.Link.Queue.Order.{outputs, IsPolled, poll_loop-IsPolled}
use route_rs.Runtime.Link.Queue.Run.{Running, settle, deliver, ingress_turn, egress_turn}

module _ (cb : Crossbeam) (law : IsCrossbeam cb) (S A B : Type 0) (process : S → A → Option B × S)
    (n : ℕ) (total : List (Option B)) where
  open cb use {contents, drop_sender}

  -- The channel ends with the message for the end.
  abbrev pub IsClosing : List (Option B) → Type 0
  IsClosing messages = (front : List (Option B)) × (messages ≡ front ++ none ∷ [])

  -- While the ingressor runs, and after it is done.
  abbrev pub Inv :
      Option (QueueIngressor cb S A B process) → Port cb B → List (Option B) → Bool → Type 0
  Inv (some i) port delivered ended =
      IsOpen cb law B n port.channel
      × (delivered ++ (contents port.channel ++ outputs process i.processor i.input_stream) ≡ total)
  Inv none port delivered ended =
      (length (contents port.channel) ≤ n)
      × (delivered ++ contents port.channel ≡ total)
      × ((ended ≡ true) ⊎ IsClosing (contents port.channel))

  -- The invariant of a running link, with what the consumer saw of the end.
  abbrev pub IsValid : Running cb S A B process → Type 0
  IsValid sys =
      Inv sys.ingressor sys.port sys.delivered sys.ended
      × (sys.ended ≡ true → IsClosing sys.delivered)

  polled_lem :
      (sys : Running cb S A B process) (m : Polled cb S A B process) (before : List (Option B))
      → (sys.ended ≡ true → IsClosing sys.delivered)
      → IsPolled cb law S A B process n before m
      → sys.delivered ++ before ≡ total
      → (sys' : Running cb S A B process) × ((m >>= λ result.
            ok (settle cb S A B process sys result))
          ≡ ok sys')
        × IsValid sys'
  polled_lem sys (ok (pending, i, port, mem)) before v (o, kept) e =
      (_, refl, ((o, ap (λ t. sys.delivered ++ t) kept ∙ e), v))
  polled_lem sys (ok (ready x, i, port, mem)) before v (o, kept, closing) e = (
    _,
    refl,
    (
      rw (law.contents-drop_sender port.channel)
          (o.within, ap (λ t. sys.delivered ++ t) kept ∙ e, inr closing),
      v,
    ),
  )
  polled_lem sys (err x) before v h e = absurd h
  polled_lem sys panic before v h e = absurd h

  -- The consumer gets the message that stands first, and the channel keeps the others.
  poll_next_message :
      (task : Waker) (port : Port cb B) (mem : Memory cb) (m : Option B) (ms : List (Option B))
      → contents port.channel ≡ m ∷ ms
      → (port' : Port cb B) × (mem' : Memory cb) × (poll_next cb B task port mem
          ≡ (ready m, port', mem'))
        × (port'.channel ≡ (cb.try_recv port.channel).1)
  unfolding poll_next
  poll_next_message task port mem (some b) ms e =
      let (port', mem') =
        unpark cb B (record port { channel = (cb.try_recv port.channel).1 }) mem in
      (port', mem', rw (poll_next, (received_lem cb law B port.channel (some b) ms e).0), refl)
  poll_next_message task port mem none ms e =
      let (port', mem') = die cb B (record port { channel = (cb.try_recv port.channel).1 }) mem in
      (port', mem', rw (poll_next, (received_lem cb law B port.channel none ms e).0), refl)

  poll_next_empty :
      (task : Waker) (port : Port cb B) (mem : Memory cb)
      → contents port.channel ≡ []
      → cb.sending port.channel ≡ true
      → (port' : Port cb B) × (mem' : Memory cb) × (poll_next cb B task port mem
          ≡ (pending, port', mem'))
        × (port'.channel ≡ (cb.try_recv port.channel).1)
  unfolding poll_next
  poll_next_empty task port mem e alive = (left.0, left.1, rw (poll_next, answer), refl)
    where
      left : Port cb B × Memory cb
      left = park cb B (record port { channel = (cb.try_recv port.channel).1 }) task mem

      answer : (cb.try_recv port.channel).0 ≡ is_empty
      answer = law.received port.channel ∙ ap₂ first e alive

  IsClosing-deliver :
      (delivered : List (Option B)) (m : Option B)
      → not (is_some m) ≡ true
      → IsClosing (delivered ++ m ∷ [])
  IsClosing-deliver delivered none e = (delivered, refl)
  IsClosing-deliver delivered (some b) e = cc

  -- What is left of a closing channel.
  IsClosing-rest :
      (m : Option B) (ms : List (Option B))
      → IsClosing (m ∷ ms)
      → (not (is_some m) ≡ true) ⊎ IsClosing ms
  IsClosing-rest none ms ([], e) = inl refl
  IsClosing-rest (some b) ms ([], e) = cc
  IsClosing-rest m ms (x ∷ front, e) = inr (front, cc)

  stays :
      (port port' : Port cb B) (messages : List (Option B))
      → contents port.channel ≡ messages
      → port'.channel ≡ (cb.try_recv port.channel).1
      → contents port'.channel ≡ rest messages
  stays port port' messages holds at_channel =
      ap (λ t. contents t) at_channel ∙ law.contents-try_recv port.channel ∙ ap (λ t. rest t) holds

  Inv-message :
      (i : Option (QueueIngressor cb S A B process)) (port port' : Port cb B)
      (delivered : List (Option B)) (ended : Bool) (m : Option B) (ms : List (Option B))
      → Inv i port delivered ended
      → ended ≡ false
      → contents port.channel ≡ m ∷ ms
      → port'.channel ≡ (cb.try_recv port.channel).1
      → Inv i port' (delivered ++ m ∷ []) (not (is_some m))
  Inv-message (some i) port port' delivered ended m ms (o, e) going holds at_channel = (
    subst (λ t. IsOpen cb law B n t) (sym at_channel) (IsOpen-try_recv cb law B o),
    rw (stays port port' (m ∷ ms) holds at_channel) (
        append_assoc delivered (m ∷ []) (ms ++ outputs process i.processor i.input_stream)
        ∙ rw holds at e),
  )
  Inv-message none port port' delivered ended m ms (within, e, end) going holds at_channel =
      rw (stays port port' (m ∷ ms) holds at_channel) (
        omega (arith, within, ap (λ t. length t) holds),
        append_assoc delivered (m ∷ []) ms ∙ rw holds at e,
        elim end [ inl ended' ↦ cc | inr closing ↦ IsClosing-rest m ms (rw holds at closing) ],
      )

  egress_message :
      (sys : Running cb S A B process) (m : Option B) (ms : List (Option B))
      → IsValid sys
      → sys.ended ≡ false
      → contents sys.port.channel ≡ m ∷ ms
      → IsValid (egress_turn cb S A B process sys)
  unfolding egress_turn
  egress_message sys m ms (inv, v) going e =
      let (port', mem', polled, at_channel) = poll_next_message 1 sys.port sys.mem m ms e in
      rw (egress_turn, going, polled)
        (
          Inv-message sys.ingressor sys.port port' sys.delivered sys.ended m ms inv going e
              at_channel,
          IsClosing-deliver sys.delivered m,
        )

  pub ingress_turn-IsValid :
      (sys : Running cb S A B process)
      → IsValid sys
      → (sys' : Running cb S A B process) × (ingress_turn cb S A B process sys ≡ ok sys')
        × IsValid sys'
  unfolding ingress_turn poll
  ingress_turn-IsValid sys (inv, v) = elim (Option-cases sys.ingressor) [
    | inl gone ↦ (sys, simp (ingress_turn, gone), (inv, v))
    | inr (i, runs) ↦
        let (o, e) = subst (λ t. Inv t sys.port sys.delivered sys.ended) runs inv in
        let (sys', done, valid) =
          polled_lem sys (poll cb S A B process 0 i sys.port sys.mem) _ v
            (poll_loop-IsPolled cb law S A B process n 0 i.input_stream i.processor sys.port sys.mem
              o)
            e in
        (sys', simp (ingress_turn, runs, done), valid)
  ]

  egress_empty :
      (sys : Running cb S A B process)
      → IsValid sys
      → sys.ended ≡ false
      → contents sys.port.channel ≡ []
      → IsValid (egress_turn cb S A B process sys)
  unfolding egress_turn
  egress_empty sys (inv, v) going e = elim (Option-cases sys.ingressor) [
    | inl gone ↦
        let (within, kept, end) = subst (λ t. Inv t sys.port sys.delivered sys.ended) gone inv in
        elim end [ inl over ↦ cc | inr ([], closing) ↦ cc | inr (x ∷ front, closing) ↦ cc ]
    | inr (i, runs) ↦
        let (o, kept) = subst (λ t. Inv t sys.port sys.delivered sys.ended) runs inv in
        let (port', mem', polled, at_channel) =
          poll_next_empty 1 sys.port sys.mem e (o.sending_lem) in
        simp (egress_turn, going, polled, runs)
          (
            (
              subst (λ t. IsOpen cb law B n t) (sym at_channel) (IsOpen-try_recv cb law B o),
              rw (stays sys.port port' [] e at_channel) (rw e at kept),
            ),
            λ over. cc,
          )
  ]

  egress_over :
      (sys : Running cb S A B process) → sys.ended ≡ true → egress_turn cb S A B process sys ≡ sys
  unfolding egress_turn
  egress_over sys over =
      ap (λ b. if b then sys else deliver cb S A B process sys (poll_next cb B 1 sys.port sys.mem))
        over

  pub egress_turn-IsValid :
      (sys : Running cb S A B process) → IsValid sys → IsValid (egress_turn cb S A B process sys)
  unfolding egress_turn
  egress_turn-IsValid sys valid = elim (Bool-cases sys.ended) [
    | inl over ↦ subst IsValid (sym (egress_over sys over)) valid
    | inr going ↦ elim (List-cases (contents sys.port.channel)) [
      | inl e ↦ egress_empty sys valid going e
      | inr (m, ms, e) ↦ egress_message sys m ms valid going e
    ]
  ]
