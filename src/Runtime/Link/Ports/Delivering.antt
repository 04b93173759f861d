-- ===== src/Runtime/Link/Ports/Delivering.antt =====
-- What one round of a link leaves in the channels of its ports.
use route_rs.Common.{
  ◌||◌, ℕ, zero, suc, ◌+◌, ◌≤◌, ◌<◌, ◌≡◌, ◌==◌, refl, ap, ◌∙◌, List, [], ◌∷◌, ◌++◌, Bool, true,
  false, Bool-cases, inl, inr, ◌⊎◌, none, some, ok, length, arith,
}
use mathlib.Core.List.{append_assoc, append-nil}
use route_rs.Runtime.Crossbeam.{Crossbeam, IsCrossbeam}
use route_rs.Runtime.TaskPark.{Waker, Memory}
use route_rs.Runtime.Link.{ready, PacketStream, Port, unpark, park, die}
use route_rs.Runtime.Link.Sending.{IsOpen, room, send_lem}
use route_rs.Runtime.Link.Ports.{park_at_full, send_end, die_all, deliver, deliver_all, deliver_at}
use route_rs.Runtime.Link.Ports.Routing.{routed, AreOpen, HasRouted, HasRouted-refl}

module _ (cb : Crossbeam) (law : IsCrossbeam cb) (P : Type 0) (selects : ℕ → P → Bool) (n : ℕ) where
  open cb use {contents}

  -- Every port has room for a message.
  unfoldable pub HaveRoom : List (Port cb P) → Type 0
  HaveRoom [] = Unit
  HaveRoom (port ∷ ports) = (length (contents port.channel) < n) × HaveRoom ports

  unfoldable pub any_full : List (Port cb P) → Bool
  any_full [] = false
  any_full (port ∷ ports) = cb.is_full port.channel || any_full ports

  -- Parking at a full port leaves the channels; where none is full, all have room.
  pub park_at_full_lem :
      (task : Waker) (k : ℕ) (stream : PacketStream P) (ports : List (Port cb P)) (mem : Memory cb)
      → AreOpen cb law P selects n ports
      → ((park_at_full cb P task ports mem ≡ none) × HaveRoom ports)
        ⊎ ((ports' : List (Port cb P)) × (mem' : Memory cb) × (park_at_full cb P task ports mem
              ≡ some (ports', mem'))
            × AreOpen cb law P selects n ports'
            × HasRouted cb law P selects n k stream stream ports ports'
            × (any_full ports' ≡ true))
  unfolding any_full park_at_full AreOpen HaveRoom HasRouted
  park_at_full_lem task k stream [] mem o = inl (refl, tt)
  park_at_full_lem task k stream (port ∷ ports) mem (o, os) =
      elim (Bool-cases (cb.is_full port.channel)) [
        | inl e ↦
            let (port', mem') = park cb P port task mem in
            inr (
              port' ∷ ports,
              mem',
              rw (park_at_full, e),
              (o, os),
              (refl, HasRouted-refl cb law P selects n (k + 1) stream ports),
              ap (λ t. t || any_full ports) e,
            )
        | inr e ↦ elim (park_at_full_lem task (k + 1) stream ports mem os) [
          | inl (none_full, rooms) ↦
              inl (rw (park_at_full, e, none_full), (room cb law P o e, rooms))
          | inr (ports', mem', parked, os', kept, full) ↦ inr (
            port ∷ ports',
            mem',
            rw (park_at_full, e, parked),
            (o, os'),
            (refl, kept),
            ap (λ t. t || any_full ports') e ∙ full,
          )
        ]
      ]

  -- The end goes to every port.
  pub send_end_lem :
      (k : ℕ) (stream : PacketStream P) (ports : List (Port cb P))
      → AreOpen cb law P selects n ports
      → HaveRoom ports
      → (ports' : List (Port cb P)) × (send_end cb P ports ≡ ok ports')
        × AreOpen cb law P selects n ports'
        × HasRouted cb law P selects n k (ready none ∷ stream) [] ports ports'
  unfolding send_end AreOpen HaveRoom HasRouted routed
  send_end_lem k stream [] o r = ([], refl, tt, tt)
  send_end_lem k stream (port ∷ ports) (o, os) (r, rs) =
      let (port', sent, o', added) = send_lem cb law P port none o r in
      let (ports', all_sent, os', h) = send_end_lem (k + 1) stream ports os rs in
      (
        port' ∷ ports',
        rw (send_end, sent, all_sent),
        (o', os'),
        (append-nil (contents port'.channel) ∙ added, h),
      )

  pub die_all_lem :
      (k : ℕ) (stream : PacketStream P) (ports : List (Port cb P)) (mem : Memory cb)
      → AreOpen cb law P selects n ports
      → AreOpen cb law P selects n (die_all cb P ports mem).0
        × HasRouted cb law P selects n k stream stream ports (die_all cb P ports mem).0
  unfolding die_all AreOpen HasRouted
  die_all_lem k stream [] mem o = (tt, tt)
  die_all_lem k stream (port ∷ ports) mem (o, os) =
      let (os', h) = die_all_lem (k + 1) stream ports (die cb P port mem).1 os in
      ((o, os'), (refl, h))

  deliver_lem :
      (packet : P) (port : Port cb P) (mem : Memory cb)
      → IsOpen cb law P n port.channel
      → length (contents port.channel) < n
      → (port' : Port cb P) × (mem' : Memory cb) × (deliver cb P packet port mem ≡ ok (port', mem'))
        × IsOpen cb law P n port'.channel
        × (contents port'.channel ≡ contents port.channel ++ some packet ∷ [])
  deliver_lem packet port mem o r =
      let (port', sent, o', added) = send_lem cb law P port (some packet) o r in
      let (awake, mem') = unpark cb P port' mem in (awake, mem', rw sent, o', added)

  -- A packet that every port selects goes to every port.
  pub deliver_all_lem :
      (packet : P) (k : ℕ) (stream : PacketStream P) (ports : List (Port cb P)) (mem : Memory cb)
      → AreOpen cb law P selects n ports
      → HaveRoom ports
      → ((j : ℕ) → selects j packet ≡ true)
      → (ports' : List (Port cb P)) × (mem' : Memory cb) × (deliver_all cb P packet ports mem
          ≡ ok (ports', mem'))
        × AreOpen cb law P selects n ports'
        × HasRouted cb law P selects n k (ready (some packet) ∷ stream) stream ports ports'
  unfolding deliver_all AreOpen HaveRoom HasRouted routed
  deliver_all_lem packet k stream [] mem o r all = ([], mem, refl, tt, tt)
  deliver_all_lem packet k stream (port ∷ ports) mem (o, os) (r, rs) all =
      let (port', mem', done, o', added) = deliver_lem packet port mem o r in
      let (ports', mem'', all_done, os', h) =
        deliver_all_lem packet (k + 1) stream ports mem' os rs all in
      (
        port' ∷ ports',
        mem'',
        rw (deliver_all, done, all_done),
        (o', os'),
        (
          rw (all k, added)
              (append_assoc (contents port.channel) (some packet ∷ []) (routed (selects k) stream)),
          h,
        ),
      )

  -- A packet that no port selects leaves the ports.
  HasRouted-unselected :
      (packet : P) (k : ℕ) (stream : PacketStream P) (ports : List (Port cb P))
      → ((j : ℕ) → k ≤ j → selects j packet ≡ false)
      → HasRouted cb law P selects n k (ready (some packet) ∷ stream) stream ports ports
  unfolding HasRouted routed
  HasRouted-unselected packet k stream [] unselected = tt
  HasRouted-unselected packet k stream (port ∷ ports) unselected = (
    rw (unselected k (omega arith)),
    HasRouted-unselected packet (k + 1) stream ports λ j le. unselected j (omega (arith, le)),
  )

  -- A packet that one port selects goes to that port.
  pub deliver_at_lem :
      (packet : P) (i k : ℕ) (stream : PacketStream P) (ports : List (Port cb P)) (mem : Memory cb)
      → AreOpen cb law P selects n ports
      → HaveRoom ports
      → i < length ports
      → ((j : ℕ) → selects j packet ≡ (j == k + i))
      → (ports' : List (Port cb P)) × (mem' : Memory cb) × (deliver_at cb P i packet ports mem
          ≡ ok (ports', mem'))
        × AreOpen cb law P selects n ports'
        × HasRouted cb law P selects n k (ready (some packet) ∷ stream) stream ports ports'
  unfolding deliver_at AreOpen HaveRoom HasRouted routed
  deliver_at_lem packet i k stream [] mem o r lt one = absurd (omega (arith, lt))
  deliver_at_lem packet zero k stream (port ∷ ports) mem (o, os) (r, rs) lt one =
      let (port', mem', done, o', added) = deliver_lem packet port mem o r in
      (
        port' ∷ ports,
        mem',
        rw (deliver_at, done),
        (o', os),
        (
          rw (one k, here, added)
              (append_assoc (contents port.channel) (some packet ∷ []) (routed (selects k) stream)),
          HasRouted-unselected packet (k + 1) stream ports λ j le. one j ∙ after j le,
        ),
      )
    where
      here : (k == k + 0) ≡ true
      here = ground arith

      after : (j : ℕ) → k + 1 ≤ j → (j == k + 0) ≡ false
      after j le = ground arith
  deliver_at_lem packet (suc i) k stream (port ∷ ports) mem (o, os) (r, rs) lt one =
      let (ports', mem', done, os', h) =
        deliver_at_lem packet i (k + 1) stream ports mem os rs (omega (arith, lt))
          (λ j. one j ∙ ap (λ t. j == t) (omega arith)) in
      (port ∷ ports', mem', rw (deliver_at, done), (o, os'), (rw (one k, before), h))
    where
      before : (k == k + suc i) ≡ false
      before = ground arith
