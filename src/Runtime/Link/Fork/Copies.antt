-- ===== src/Runtime/Link/Fork/Copies.antt =====
-- Every egressor of a fork link gets the whole stream.
use route_rs.Common.{
  ◌≡◌, ℕ, refl, List, [], ◌∷◌, Bool, true, inl, inr, none, some, ok, err, panic, ◌⊎◌, ◌∙◌, sym,
}
use route_rs.Runtime.Crossbeam.{Crossbeam, IsCrossbeam}
use route_rs.Runtime.TaskPark.{Waker, Memory}
use route_rs.Runtime.Link.{ready, pending, PacketStream, past_pending, Port}
use route_rs.Runtime.Link.Ports.{die_all}
use route_rs.Runtime.Link.Ports.Delivering.{
  any_full, park_at_full_lem, send_end_lem, die_all_lem, deliver_all_lem,
}
use route_rs.Runtime.Link.Ports.Routing.{
  AreOpen, HasRouted, HasRouted-refl, HasRouted-pending, HasRouted-trans,
}
use route_rs.Runtime.Link.Fork.{ForkIngressor, Polled, poll_loop, poll}

abbrev pub every : {P : Type 0} → ℕ → P → Bool
every k packet = true

module _ (cb : Crossbeam) (law : IsCrossbeam cb) (P : Type 0) (n : ℕ) where
  -- A poll that has given the packets up to where it stopped to all ports.
  abbrev pub IsForked : PacketStream P → List (Port cb P) → Polled cb P → Type 0
  IsForked stream ports (ok (pending, i, mem)) =
      AreOpen cb law P every n i.ports
      × HasRouted cb law P every n 0 stream i.input_stream ports i.ports
      × ((any_full cb law P every n i.ports ≡ true) ⊎ (i.input_stream ≡ past_pending stream))
  IsForked stream ports (ok (ready _, i, mem)) =
      AreOpen cb law P every n i.ports × HasRouted cb law P every n 0 stream [] ports i.ports
  IsForked stream ports (err e) = ⊥
  IsForked stream ports panic = ⊥

  IsForked-trans :
      (stream left : PacketStream P) (ports ports' : List (Port cb P)) (m : Polled cb P)
      → HasRouted cb law P every n 0 stream left ports ports'
      → past_pending stream ≡ past_pending left
      → IsForked left ports' m
      → IsForked stream ports m
  IsForked-trans stream left ports ports' (ok (pending, i, mem)) h e (o, h', progress) = (
    o,
    HasRouted-trans cb law P every n 0 stream left i.input_stream ports ports' i.ports h h',
    elim progress [ inl full ↦ inl full | inr at ↦ inr (at ∙ sym e) ],
  )
  IsForked-trans stream left ports ports' (ok (ready x, i, mem)) h e (o, h') =
      (o, HasRouted-trans cb law P every n 0 stream left [] ports ports' i.ports h h')
  IsForked-trans stream left ports ports' (err x) h e h' = absurd h'
  IsForked-trans stream left ports ports' panic h e h' = absurd h'

  poll_loop-IsForked :
      (task : Waker) (stream : PacketStream P) (ports : List (Port cb P)) (mem : Memory cb)
      → AreOpen cb law P every n ports
      → IsForked stream ports (poll_loop cb P task stream ports mem)
  unfolding poll_loop past_pending
  poll_loop-IsForked task [] ports mem o =
      elim (park_at_full_lem cb law P every n task 0 [] ports mem o) [
        | inl (none_full, rooms) ↦
            rw (poll_loop, none_full) (o, HasRouted-refl cb law P every n 0 [] ports, inr refl)
        | inr (ports', mem', parked, o', h, full) ↦ rw (poll_loop, parked) (o', h, inl full)
      ]
  poll_loop-IsForked task (pending ∷ stream) ports mem o =
      elim (park_at_full_lem cb law P every n task 0 (pending ∷ stream) ports mem o) [
        | inr (ports', mem', parked, o', h, full) ↦ rw (poll_loop, parked) (o', h, inl full)
        | inl (none_full, rooms) ↦
            rw (poll_loop, none_full)
              (o, HasRouted-pending cb law P every n 0 stream ports, inr refl)
      ]
  poll_loop-IsForked task (ready none ∷ stream) ports mem o =
      elim (park_at_full_lem cb law P every n task 0 (ready none ∷ stream) ports mem o) [
        | inr (ports', mem', parked, o', h, full) ↦ rw (poll_loop, parked) (o', h, inl full)
        | inl (none_full, rooms) ↦
            let (ports', sent, o', h) = send_end_lem cb law P every n 0 stream ports o rooms in
            let (o'', h') = die_all_lem cb law P every n 0 [] ports' mem o' in
            rw (poll_loop, none_full, sent)
              (
                o'',
                HasRouted-trans cb law P every n 0 (ready none ∷ stream) [] [] ports ports'
                    (die_all cb P ports' mem).0 h h',
              )
      ]
  poll_loop-IsForked task (ready (some packet) ∷ stream) ports mem o =
      elim (park_at_full_lem cb law P every n task 0 (ready (some packet) ∷ stream) ports mem o) [
        | inr (ports', mem', parked, o', h, full) ↦ rw (poll_loop, parked) (o', h, inl full)
        | inl (none_full, rooms) ↦
            let (ports', mem', sent, o', h) =
              deliver_all_lem cb law P every n packet 0 stream ports mem o rooms (λ j. refl) in
            rw (poll_loop, none_full, sent)
              (IsForked-trans (ready (some packet) ∷ stream) stream ports ports'
                (poll_loop cb P task stream ports' mem') h refl
                (poll_loop-IsForked task stream ports' mem' o'))
      ]

  -- Over channels that behave as documented, a poll of a fork link's ingressor whose ports are
  -- open with a common capacity never panics and keeps the ports open: every port has got all
  -- packets of the stream, in their order, up to the place where the poll stopped, and the end of
  -- the stream where the poll is ready; a pending poll has left a port full or has read the stream
  -- past its first answer that is no packet.
  pub fork_copies :
      (task : Waker) (self : ForkIngressor cb P) (mem : Memory cb)
      → AreOpen cb law P every n self.ports
      → IsForked self.input_stream self.ports (poll cb P task self mem)
  unfolding poll
  fork_copies task self mem o = poll_loop-IsForked task self.input_stream self.ports mem o
