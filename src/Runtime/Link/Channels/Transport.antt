-- ===== src/Runtime/Link/Channels/Transport.antt =====
-- What an output channel link puts into its channel.
use route_rs.Common.{
  ◌≤◌, ◌<◌, ◌≡◌, refl, sym, ap, ap₂, subst, ◌∙◌, List, [], ◌∷◌, ◌++◌, true, false, ◌&&◌, Bool-cases,
  inl, inr, ◌⊎◌, none, some, Outcome, ok, err, panic, length, length-append, lt→ltb, arith,
  if◌then◌else◌,
}
use mathlib.Core.List.{append_assoc, append-nil}
use route_rs.Runtime.Crossbeam.{Crossbeam, IsCrossbeam}
use route_rs.Runtime.TaskPark.{Waker, Memory}
use route_rs.Runtime.Link.{Poll, ready, pending, PacketStream, past_pending}
use route_rs.Runtime.Link.Channels.{StreamToChannel, poll_loop, poll}

-- The packets of a stream, up to its end.
unfoldable pub packets : {P : Type 0} → PacketStream P → List P
packets [] = []
packets (pending ∷ stream) = packets stream
packets (ready none ∷ stream) = []
packets (ready (some packet) ∷ stream) = packet ∷ packets stream

module _ (cb : Crossbeam) (law : IsCrossbeam cb) (P : Type 0) where
  open cb use {Channel, contents, capacity, receiving, is_full, try_send}

  -- A poll that put the packets up to where it stopped into the channel, within its capacity. A
  -- pending poll with a full channel woke its own task.
  abbrev pub IsSent :
      Waker
      → PacketStream P
      → List P
      → Outcome (Poll (Unit {0}) × StreamToChannel cb P × Memory cb)
      → Type 0
  IsSent task source target (ok (pending, self, mem)) =
      (contents self.channel_sender ++ packets self.stream ≡ target)
      × (length (contents self.channel_sender) ≤ capacity self.channel_sender)
      × (is_full self.channel_sender ≡ true → (earlier : List Waker) × (mem.woken ≡ task ∷ earlier))
      × ((is_full self.channel_sender ≡ true) ⊎ (self.stream ≡ past_pending source))
  IsSent task source target (ok (ready _, self, mem)) =
      (contents self.channel_sender ≡ target)
      × (length (contents self.channel_sender) ≤ capacity self.channel_sender)
  IsSent task source target (err e) = ⊥
  IsSent task source target panic = ⊥

  poll_loop-IsSent :
      (task : Waker) (stream : PacketStream P) (c : Channel P) (mem : Memory cb)
      → receiving c ≡ true
      → length (contents c) ≤ capacity c
      → IsSent task stream (contents c ++ packets stream) (poll_loop cb P task stream c mem)
  unfolding poll_loop packets past_pending
  poll_loop-IsSent task [] c mem r le = elim (Bool-cases (is_full c)) [
    | inl e ↦ rw (poll_loop, e) (refl, le, λ full. (mem.woken, refl), inl e)
    | inr e ↦ rw (poll_loop, e) (refl, le, λ full. cc, inr refl)
  ]
  poll_loop-IsSent task (pending ∷ stream) c mem r le = elim (Bool-cases (is_full c)) [
    | inl e ↦ rw (poll_loop, e) (refl, le, λ full. (mem.woken, refl), inl e)
    | inr e ↦ rw (poll_loop, e) (refl, le, λ full. cc, inr refl)
  ]
  poll_loop-IsSent task (ready none ∷ stream) c mem r le = elim (Bool-cases (is_full c)) [
    | inl e ↦ rw (poll_loop, e) (refl, le, λ full. (mem.woken, refl), inl e)
    | inr e ↦ rw (poll_loop, e) (sym (append-nil (contents c)), le)
  ]
  poll_loop-IsSent task (ready (some packet) ∷ stream) c mem r le = elim (Bool-cases (is_full c)) [
    | inl e ↦ rw (poll_loop, e) (refl, le, λ full. (mem.woken, refl), inl e)
    | inr e ↦
        rw (poll_loop, e, accepted e)
          (subst (λ t. IsSent task stream t (poll_loop cb P task stream (try_send c packet).1 mem))
            (ap (λ t. t ++ packets stream) (added e)
              ∙ append_assoc (contents c) (packet ∷ []) (packets stream))
            (poll_loop-IsSent task stream (try_send c packet).1 mem
              (law.receiving-try_send c packet ∙ r)
              (omega (
                arith,
                ap (λ t. length t) (added e),
                length-append (contents c) (packet ∷ []),
                room e,
                law.capacity-try_send c packet,
              ))))
  ]
    where
      room : is_full c ≡ false → length (contents c) < capacity c
      room e = ground (arith, law.is_full_lem c)

      accepted : is_full c ≡ false → (try_send c packet).0 ≡ true
      accepted e = law.sent c packet ∙ ap₂ ◌&&◌ r (lt→ltb _ _ (room e))

      added : is_full c ≡ false → contents (try_send c packet).1 ≡ contents c ++ packet ∷ []
      added e =
          law.contents-try_send c packet
          ∙ ap (λ b. if b then contents c ++ packet ∷ [] else contents c) (accepted e)

  -- Over channels that behave as documented, a poll of an output channel link whose channel has a
  -- receiver and holds no more than its capacity never panics and never goes above the capacity:
  -- the channel has got the packets of the stream in their order, up to the place where the poll
  -- stopped, and all of them where the poll is ready; a pending poll has left the channel full and
  -- woken its own task, or has read the stream past its first answer that is no packet.
  pub output_transports :
      (task : Waker) (self : StreamToChannel cb P) (mem : Memory cb)
      → receiving self.channel_sender ≡ true
      → length (contents self.channel_sender) ≤ capacity self.channel_sender
      → IsSent task self.stream
          (contents self.channel_sender ++ packets self.stream)
          (poll cb P task self mem)
  unfolding poll
  output_transports task self mem r le =
      poll_loop-IsSent task self.stream self.channel_sender mem r le
