-- ===== src/Runtime/Link/Queue/Order.antt =====
-- What the ingressor of a queue link puts into its channel.
use route_rs.Common.{
  ℕ, ◌≡◌, refl, ap, subst, ◌∙◌, List, [], ◌∷◌, ◌++◌, Bool-cases, Option-cases, inl, inr, Option,
  none, some, ok, err, panic,
}
use mathlib.Core.List.{append_assoc}
use route_rs.Runtime.Crossbeam.{Crossbeam, IsCrossbeam}
use route_rs.Runtime.TaskPark.{Waker, Memory}
use route_rs.Runtime.Link.{ready, pending, PacketStream, Port, unpark}
use route_rs.Runtime.Link.Sending.{IsOpen, room, send_lem}
use route_rs.Runtime.Link.Queue.{Polled, poll_loop}

-- The messages that a stream comes to: the outputs of the processor, and `none` at the end.
unfoldable pub outputs :
    {S A B : Type 0} → (S → A → Option B × S) → S → PacketStream A → List (Option B)
outputs process s [] = []
outputs process s (pending ∷ stream) = outputs process s stream
outputs process s (ready none ∷ stream) = none ∷ []
outputs process s (ready (some a) ∷ stream) =
    let more = outputs process (process s a).1 stream in
    elim (process s a).0 [ none ↦ more | some b ↦ some b ∷ more ]

module _ (cb : Crossbeam) (law : IsCrossbeam cb) (S A B : Type 0) (process : S → A → Option B × S)
    (n : ℕ) where
  open cb use {contents, is_full}

  -- A poll that has put `target` into the channel, with what is left to come.
  abbrev pub IsPolled : List (Option B) → Polled cb S A B process → Type 0
  IsPolled target (ok (pending, i, port, mem)) =
      IsOpen cb law B n port.channel
      × (contents port.channel ++ outputs process i.processor i.input_stream ≡ target)
  IsPolled target (ok (ready _, i, port, mem)) =
      IsOpen cb law B n port.channel
      × (contents port.channel ≡ target)
      × ((front : List (Option B)) × (contents port.channel ≡ front ++ none ∷ []))
  IsPolled target (err e) = ⊥
  IsPolled target panic = ⊥

  -- A poll puts messages into the channel in their order, and loses none.
  pub poll_loop-IsPolled :
      (task : Waker) (stream : PacketStream A) (s : S) (port : Port cb B) (mem : Memory cb)
      → IsOpen cb law B n port.channel
      → IsPolled
          (contents port.channel ++ outputs process s stream)
          (poll_loop cb S A B process task stream s port mem)
  unfolding poll_loop outputs
  poll_loop-IsPolled task [] s port mem o = elim (Bool-cases (is_full port.channel)) [
    | inl e ↦ rw (poll_loop, e) (o, refl)
    | inr e ↦ rw (poll_loop, e) (o, refl)
  ]
  poll_loop-IsPolled task (pending ∷ stream) s port mem o =
      elim (Bool-cases (is_full port.channel)) [
        | inl e ↦ rw (poll_loop, e) (o, refl)
        | inr e ↦ rw (poll_loop, e) (o, refl)
      ]
  poll_loop-IsPolled task (ready none ∷ stream) s port mem o =
      elim (Bool-cases (is_full port.channel)) [
        | inl e ↦ rw (poll_loop, e) (o, refl)
        | inr e ↦
            let (port', sent, o', added) = send_lem cb law B port none o (room cb law B o e) in
            rw (poll_loop, e, sent) (o', added, (contents port.channel, added))
      ]
  poll_loop-IsPolled task (ready (some a) ∷ stream) s port mem o =
      elim (Bool-cases (is_full port.channel)) [
        | inl e ↦ rw (poll_loop, e) (o, refl)
        | inr e ↦ elim (Option-cases (process s a).0) [
          | inl dropped ↦
              rw (poll_loop, e, dropped, outputs)
                (poll_loop-IsPolled task stream (process s a).1 port mem o)
          | inr (b, made) ↦
              let (port', sent, o', added) =
                send_lem cb law B port (some b) o (room cb law B o e) in
              let (port'', mem'') = unpark cb B port' mem in
              rw (poll_loop, e, made, sent, outputs)
                (subst
                  (λ t.
                    IsPolled t
                      (poll_loop cb S A B process task stream (process s a).1 port'' mem''))
                  (ap (λ t. t ++ outputs process (process s a).1 stream) added
                    ∙ append_assoc (contents port.channel) (some b ∷ [])
                        (outputs process (process s a).1 stream))
                  (poll_loop-IsPolled task stream (process s a).1 port'' mem'' o'))
        ]
      ]

past_packet :
    {B : Type 0} (b : B) (more front back : List (Option B))
    → some b ∷ more ≡ front ++ none ∷ back
    → (front' : List (Option B)) × (more ≡ front' ++ none ∷ back)
past_packet b more [] back e = cc
past_packet b more (x ∷ front) back e = (front, cc)

-- The end of the packets is the last message.
pub outputs_end :
    {S A B : Type 0} (process : S → A → Option B × S) (s : S) (stream : PacketStream A)
    (front back : List (Option B))
    → outputs process s stream ≡ front ++ none ∷ back
    → back ≡ []
unfolding outputs
outputs_end process s [] [] back e = cc
outputs_end process s [] (x ∷ front) back e = cc
outputs_end process s (pending ∷ stream) front back e = outputs_end process s stream front back e
outputs_end process s (ready none ∷ stream) [] back e = cc
outputs_end process s (ready none ∷ stream) (x ∷ []) back e = cc
outputs_end process s (ready none ∷ stream) (x ∷ y ∷ front) back e = cc
outputs_end process s (ready (some a) ∷ stream) front back e = elim (Option-cases (process s a).0) [
  | inl dropped ↦ outputs_end process (process s a).1 stream front back (rw (dropped, outputs) at e)
  | inr (b, made) ↦
      let (front', e') =
        past_packet b (outputs process (process s a).1 stream) front back
          (rw (made, outputs) at e) in
      outputs_end process (process s a).1 stream front' back e'
]
