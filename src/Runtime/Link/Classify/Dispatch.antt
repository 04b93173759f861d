-- ===== src/Runtime/Link/Classify/Dispatch.antt =====
-- Every egressor of a classify link gets the packets that are dispatched to it.
use route_rs.Common.{
  true, ◌⊎◌, ◌∙◌, sym, ℕ, ◌<◌, ◌≡◌, ◌==◌, ap, List, [], ◌∷◌, Bool, false, inl, inr, none, some, ok,
  err, panic, length, arith, leb, refl,
}
use route_rs.Runtime.Crossbeam.{Crossbeam, IsCrossbeam}
use route_rs.Runtime.TaskPark.{Waker, Memory}
use route_rs.Runtime.Link.{ready, pending, PacketStream, past_pending, Port}
use route_rs.Runtime.Link.Ports.{die_all}
use route_rs.Runtime.Link.Ports.Delivering.{
  any_full, park_at_full_lem, send_end_lem, die_all_lem, deliver_at_lem,
}
use route_rs.Runtime.Link.Ports.Routing.{
  AreOpen, HasRouted, HasRouted-refl, HasRouted-pending, HasRouted-trans, length-HasRouted,
}
use route_rs.Runtime.Link.Classify.{ClassifyIngressor, Polled, poll_loop, poll}

-- The packets that are dispatched to port `k`.
abbrev pub for_port : {P Class : Type 0} → (P → Class) → (Class → ℕ) → ℕ → P → Bool
for_port classify dispatch k packet = k == dispatch (classify packet)

module _ (cb : Crossbeam) (law : IsCrossbeam cb) (P Class : Type 0) (classify : P → Class)
    (dispatch : Class → ℕ) (n : ℕ) where
  -- A poll that has given each port its packets, up to where it stopped.
  abbrev pub IsDispatched : PacketStream P → List (Port cb P) → Polled cb P Class → Type 0
  IsDispatched stream ports (ok (pending, i, mem)) =
      AreOpen cb law P (for_port classify dispatch) n i.ports
      × HasRouted cb law P (for_port classify dispatch) n 0 stream i.input_stream ports i.ports
      × ((any_full cb law P (for_port classify dispatch) n i.ports ≡ true)
          ⊎ (i.input_stream ≡ past_pending stream))
  IsDispatched stream ports (ok (ready _, i, mem)) =
      AreOpen cb law P (for_port classify dispatch) n i.ports
      × HasRouted cb law P (for_port classify dispatch) n 0 stream [] ports i.ports
  IsDispatched stream ports (err e) = ⊥
  IsDispatched stream ports panic = ⊥

  IsDispatched-trans :
      (stream left : PacketStream P) (ports ports' : List (Port cb P)) (m : Polled cb P Class)
      → HasRouted cb law P (for_port classify dispatch) n 0 stream left ports ports'
      → past_pending stream ≡ past_pending left
      → IsDispatched left ports' m
      → IsDispatched stream ports m
  IsDispatched-trans stream left ports ports' (ok (pending, i, mem)) h e (o, h', progress) = (
    o,
    HasRouted-trans cb law P (for_port classify dispatch) n 0 stream left i.input_stream ports
        ports' i.ports h h',
    elim progress [ inl full ↦ inl full | inr at ↦ inr (at ∙ sym e) ],
  )
  IsDispatched-trans stream left ports ports' (ok (ready x, i, mem)) h e (o, h') = (
    o,
    HasRouted-trans cb law P (for_port classify dispatch) n 0 stream left [] ports ports' i.ports h
        h',
  )
  IsDispatched-trans stream left ports ports' (err x) h e h' = absurd h'
  IsDispatched-trans stream left ports ports' panic h e h' = absurd h'

  abbrev ingressor_of : PacketStream P → List (Port cb P) → ClassifyIngressor cb P Class
  ingressor_of stream ports = record {
    input_stream = stream;
    dispatch = dispatch;
    classify = classify;
    ports = ports;
  }

  poll_loop-IsDispatched :
      (task : Waker) (before stream : PacketStream P) (ports : List (Port cb P)) (mem : Memory cb)
      → AreOpen cb law P (for_port classify dispatch) n ports
      → ((c : Class) → dispatch c < length ports)
      → IsDispatched stream ports (poll_loop cb P Class task stream (ingressor_of before ports) mem)
  unfolding poll_loop past_pending
  poll_loop-IsDispatched task before [] ports mem o fits =
      elim (park_at_full_lem cb law P (for_port classify dispatch) n task 0 [] ports mem o) [
        | inl (none_full, rooms) ↦
            rw (poll_loop, none_full)
              (o, HasRouted-refl cb law P (for_port classify dispatch) n 0 [] ports, inr refl)
        | inr (ports', mem', parked, o', h, full) ↦ rw (poll_loop, parked) (o', h, inl full)
      ]
  poll_loop-IsDispatched task before (pending ∷ stream) ports mem o fits =
      elim (park_at_full_lem cb law P (for_port classify dispatch) n task 0 (pending ∷ stream) ports
        mem o) [
          | inr (ports', mem', parked, o', h, full) ↦ rw (poll_loop, parked) (o', h, inl full)
          | inl (none_full, rooms) ↦
              rw (poll_loop, none_full)
                (
                  o,
                  HasRouted-pending cb law P (for_port classify dispatch) n 0 stream ports,
                  inr refl,
                )
        ]
  poll_loop-IsDispatched task before (ready none ∷ stream) ports mem o fits =
      elim (park_at_full_lem cb law P (for_port classify dispatch) n task 0 (ready none ∷ stream)
        ports mem o) [
          | inr (ports', mem', parked, o', h, full) ↦ rw (poll_loop, parked) (o', h, inl full)
          | inl (none_full, rooms) ↦
              let (ports', sent, o', h) =
                send_end_lem cb law P (for_port classify dispatch) n 0 stream ports o rooms in
              let (o'', h') =
                die_all_lem cb law P (for_port classify dispatch) n 0 [] ports' mem o' in
              rw (poll_loop, none_full, sent)
                (
                  o'',
                  HasRouted-trans cb law P (for_port classify dispatch) n 0 (ready none ∷ stream) []
                      [] ports ports' (die_all cb P ports' mem).0 h h',
                )
        ]
  poll_loop-IsDispatched task before (ready (some packet) ∷ stream) ports mem o fits =
      elim (park_at_full_lem cb law P (for_port classify dispatch) n task 0
        (ready (some packet) ∷ stream) ports mem o) [
          | inr (ports', mem', parked, o', h, full) ↦ rw (poll_loop, parked) (o', h, inl full)
          | inl (none_full, rooms) ↦
              let (ports', mem', sent, o', h) =
                deliver_at_lem cb law P (for_port classify dispatch) n packet
                  (dispatch (classify packet)) 0 stream ports mem o rooms (fits (classify packet))
                  (λ j. ap (λ t. j == t) (omega arith)) in
              rw (poll_loop, none_full, in_range, sent)
                (IsDispatched-trans (ready (some packet) ∷ stream) stream ports ports'
                  (poll_loop cb P Class task stream (ingressor_of before ports') mem') h refl
                  (poll_loop-IsDispatched task before stream ports' mem' o' λ c. omega (
                    arith,
                    fits c,
                    length-HasRouted cb law P (for_port classify dispatch) n 0
                        (ready (some packet) ∷ stream) stream ports ports' h,
                  )))
        ]
    where
      in_range : leb (length ports) (dispatch (classify packet)) ≡ false
      in_range = ground (arith, fits (classify packet))

module _ (cb : Crossbeam) (law : IsCrossbeam cb) (P Class : Type 0) (n : ℕ) where
  -- Over channels that behave as documented, a poll of a classify link's ingressor whose ports are
  -- open with a common capacity and whose dispatcher gives a port of the link for every class
  -- never panics and keeps the ports open: each port has got, in their order, the packets of the
  -- stream that are dispatched to it, up to the place where the poll stopped, and the end of the
  -- stream where the poll is ready; a pending poll has left a port full or has read the stream
  -- past its first answer that is no packet.
  pub classify_dispatches :
      (task : Waker) (self : ClassifyIngressor cb P Class) (mem : Memory cb)
      → AreOpen cb law P (for_port self.classify self.dispatch) n self.ports
      → ((c : Class) → self.dispatch c < length self.ports)
      → IsDispatched cb law P Class self.classify self.dispatch n self.input_stream self.ports
          (poll cb P Class task self mem)
  unfolding poll
  classify_dispatches task self mem o fits =
      poll_loop-IsDispatched cb law P Class self.classify self.dispatch n task self.input_stream
        self.input_stream self.ports mem o fits
