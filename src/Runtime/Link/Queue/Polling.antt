-- ===== src/Runtime/Link/Queue/Polling.antt =====
-- What one poll of the egressor leaves in the channel and in the task park.
use route_rs.Common.{
  ℕ, ◌≡◌, sym, ap, ap₂, subst, ◌∙◌, [], true, false, List-cases, inl, inr, ◌⊎◌, Option, none, some,
}
use route_rs.Runtime.Crossbeam.{Crossbeam, IsCrossbeam, first, rest}
use route_rs.Runtime.TaskPark.{Memory, parked, empty}
use route_rs.Runtime.TaskPark.Swaps.{
  IsDirect, woke, Wakes, IsDirect-after, unpark_lem, die_lem, park_lem,
}
use route_rs.Runtime.Link.{Poll, ready, pending, Port, unpark, park, die}
use route_rs.Runtime.Link.Sending.{IsOpen, IsOpen-try_recv, received_lem}
use route_rs.Runtime.Link.Queue.{poll_next}
use route_rs.Runtime.Link.Queue.Watch.{is_pending}

module _ (cb : Crossbeam) (law : IsCrossbeam cb) (B : Type 0) where
  open cb use {value, contents, sending}

  -- What a poll of the egressor leaves.
  pub poll_next-held :
      (n : ℕ) (port : Port cb B) (mem : Memory cb)
      → IsOpen cb law B n port.channel
      → IsDirect (value port.task_park)
      → (answer : Poll (Option B)) × (port' : Port cb B) × (mem' : Memory cb) × (poll_next cb B 1
            port mem
          ≡ (answer, port', mem'))
        × IsOpen cb law B n port'.channel
        × IsDirect (value port'.task_park)
        × (is_pending answer ≡ true
            → ((value port'.task_park ≡ parked 1) ⊎ (woke 1 mem'.woken ≡ true))
              × (contents port'.channel ≡ []))
        × Wakes (value port.task_park) mem.woken mem'.woken
  unfolding poll_next IsDirect
  poll_next-held n port mem o d = elim (List-cases (contents port.channel)) [
    | inl e ↦
        let left = record port { channel = (cb.try_recv port.channel).1 } in
        let (at, held, wakes) = park_lem cb law port.task_park 1 mem d in
        (
          pending,
          (park cb B left 1 mem).0,
          (park cb B left 1 mem).1,
          rw (poll_next, law.received port.channel ∙ ap₂ first e o.sending_lem),
          IsOpen-try_recv cb law B o,
          subst (λ t. IsDirect t) (sym at) (IsDirect-after (value port.task_park) (parked 1) d tt),
          λ is. (held, law.contents-try_recv port.channel ∙ ap (λ t. rest t) e),
          wakes,
        )
    | inr (some b, messages, e) ↦
        let left = record port { channel = (cb.try_recv port.channel).1 } in
        let (at, wakes) = unpark_lem cb law port.task_park mem d in
        (
          ready (some b),
          (unpark cb B left mem).0,
          (unpark cb B left mem).1,
          rw (poll_next, (received_lem cb law B port.channel (some b) messages e).0),
          IsOpen-try_recv cb law B o,
          subst (λ t. IsDirect t) (sym at) (IsDirect-after (value port.task_park) empty d tt),
          λ is. cc,
          wakes,
        )
    | inr (none, messages, e) ↦
        let left = record port { channel = (cb.try_recv port.channel).1 } in
        let (at, wakes) = die_lem cb law port.task_park mem d in
        (
          ready none,
          (die cb B left mem).0,
          (die cb B left mem).1,
          rw (poll_next, (received_lem cb law B port.channel none messages e).0),
          IsOpen-try_recv cb law B o,
          subst (λ t. IsDirect t) (sym at) tt,
          λ is. cc,
          wakes,
        )
  ]

  -- A channel without a sender never leaves the egressor to sleep.
  pub poll_next-closed :
      (port : Port cb B) (mem : Memory cb)
      → sending port.channel ≡ false
      → (m : Option B) × (port' : Port cb B) × (mem' : Memory cb) × (poll_next cb B 1 port mem
          ≡ (ready m, port', mem'))
        × (sending port'.channel ≡ false)
  unfolding poll_next
  poll_next-closed port mem gone = elim (List-cases (contents port.channel)) [
    | inl e ↦
        (none, left, mem, rw (poll_next, law.received port.channel ∙ ap₂ first e gone), still_gone)
    | inr (some b, messages, e) ↦ (
      some b,
      (unpark cb B left mem).0,
      (unpark cb B left mem).1,
      rw (poll_next, (received_lem cb law B port.channel (some b) messages e).0),
      still_gone,
    )
    | inr (none, messages, e) ↦ (
      none,
      (die cb B left mem).0,
      (die cb B left mem).1,
      rw (poll_next, (received_lem cb law B port.channel none messages e).0),
      still_gone,
    )
  ]
    where
      left : Port cb B
      left = record port { channel = (cb.try_recv port.channel).1 }

      still_gone : sending left.channel ≡ false
      still_gone = law.sending-try_recv port.channel ∙ gone
