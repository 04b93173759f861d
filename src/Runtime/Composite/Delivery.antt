-- ===== src/Runtime/Composite/Delivery.antt =====
-- What the egressors of an M transform N link get of the packets that its join link puts out.
use route_rs.Common.{
  ◌+◌, ℕ, zero, suc, ◌≤◌, ◌≡◌, refl, ap, sym, subst, ◌∙◌, List, [], ◌∷◌, ◌++◌, true, false,
  Option-cases, inl, inr, ◌⊎◌, Option, none, some, ok, err, panic, length,
}
use route_rs.Runtime.Crossbeam.{Crossbeam, IsCrossbeam}
use route_rs.Runtime.TaskPark.{Waker, Memory}
use route_rs.Runtime.Link.{ready, pending, PacketStream, past_pending, Port}
use route_rs.Runtime.Link.Sending.{IsOpen-new_port}
use route_rs.Runtime.Link.Ports.{new_ports}
use route_rs.Runtime.Link.Ports.Routing.{
  routed, AreOpen, HasRouted, length-HasRouted, AreOpen-new_ports,
}
use route_rs.Runtime.Link.Ports.Delivering.{any_full}
use route_rs.Runtime.Link.Fork
use route_rs.Runtime.Link.Fork.Copies.{every, IsForked, fork_copies}
use route_rs.Runtime.Link.Join
use route_rs.Runtime.Link.Join.Pull.{IsBalanced}
use route_rs.Runtime.Link.Process
use route_rs.Runtime.Link.Process.Chain.{
  chain, process_chain, chain_dropped, chain_made, outputs-chain,
}
use route_rs.Runtime.Link.Queue.Order.{outputs}
use route_rs.Runtime.Composite.Building.{
  joined, forked, joined-IsBalanced, length-fork_ports, mtransformn_build, is_complete,
  IsBuilt-cases,
}
use route_rs.Runtime.Composite.MtransformN

-- A processor that passes every packet on.
abbrev pass : {B : Type 0} → Unit {0} → B → Option B × Unit {0}
pass t b = (some b, t)

outputs-pass :
    {B : Type 0} (stream : PacketStream B) → outputs pass tt stream ≡ routed (every 0) stream
unfolding outputs routed
outputs-pass [] = refl
outputs-pass (pending ∷ stream) = outputs-pass stream
outputs-pass (ready none ∷ stream) = refl
outputs-pass (ready (some b) ∷ stream) = ap (λ t. some b ∷ t) (outputs-pass stream)

module _ (S A B : Type 0) (process : S → A → Option B × S) where
  outputs_step :
      (s : S) (a : A) (stream : PacketStream A) (m : Option B × S)
      → process s a ≡ m
      → outputs process s (ready (some a) ∷ stream) ≡ (
          let rest = outputs process m.1 stream in
          elim m.0 [ none ↦ rest | some b ↦ some b ∷ rest ])
  unfolding outputs
  outputs_step s a stream m e =
      ap
        (λ (m : Option B × S).
          let rest = outputs process m.1 stream in
          elim m.0 [ none ↦ rest | some b ↦ some b ∷ rest ])
        e

  outputs-chain-pass :
      (s : S) (stream : PacketStream A)
      → outputs (chain S (Unit {0}) A B B process pass) (s, tt) stream ≡ outputs process s stream
  unfolding outputs
  outputs-chain-pass s [] = refl
  outputs-chain-pass s (pending ∷ stream) = outputs-chain-pass s stream
  outputs-chain-pass s (ready none ∷ stream) = refl
  outputs-chain-pass s (ready (some a) ∷ stream) =
      let rest = outputs-chain-pass (process s a).1 stream in
      elim (Option-cases (process s a).0) [
        | inl dropped ↦
            outputs-chain S (Unit {0}) A B B process pass s tt a stream _
              (chain_dropped S (Unit {0}) A B B process pass s tt a dropped)
            ∙ rest
            ∙ sym (
                outputs_step s a stream (none, (process s a).1)
                  (ap (λ o. (o, (process s a).1)) dropped))
        | inr (b, made) ↦
            outputs-chain S (Unit {0}) A B B process pass s tt a stream _
              (chain_made S (Unit {0}) A B B process pass s tt a b made)
            ∙ ap (λ t. some b ∷ t) rest
            ∙ sym (
                outputs_step s a stream (some b, (process s a).1)
                  (ap (λ o. (o, (process s a).1)) made))
      ]

  -- The packets among the answers of a process link are the outputs of its processor.
  routed-answers :
      (k : ℕ) (self : Process.ProcessRunner S A B process)
      → length self.in_stream ≤ k
      → routed (every 0) (Process.answers S A B process k self)
        ≡ outputs process self.processor self.in_stream
  routed-answers k self le =
      sym (outputs-pass (Process.answers S A B process k self))
      ∙ process_chain S (Unit {0}) A B B process pass k self tt le
      ∙ outputs-chain-pass self.processor self.in_stream

module _ (cb : Crossbeam) (law : IsCrossbeam cb) where
  open cb use {contents}

  -- Every port holds the messages up to `left`.
  unfoldable pub HoldAll :
      {P : Type 0} → List (Option P) → List (Option P) → List (Port cb P) → Type 0
  HoldAll messages left [] = Unit
  HoldAll messages left (port ∷ ports) =
      (contents port.channel ++ left ≡ messages) × HoldAll messages left ports

  HoldAll-HasRouted :
      (P : Type 0) (n c k : ℕ) (stream left : PacketStream P) (ports : List (Port cb P))
      → HasRouted cb law P every n k stream left (new_ports cb P n c) ports
      → HoldAll (routed (every 0) stream) (routed (every 0) left) ports
  unfolding HasRouted HoldAll new_ports
  HoldAll-HasRouted P n zero k stream left [] h = tt
  HoldAll-HasRouted P n zero k stream left (port ∷ ports) h = absurd h
  HoldAll-HasRouted P n (suc c) k stream left [] h = absurd h
  HoldAll-HasRouted P n (suc c) k stream left (port ∷ ports) (e, h) = (
    e ∙ ap (λ t. t ++ routed (every 0) stream) (law.contents-bounded {A = Option P} n),
    HoldAll-HasRouted P n c (k + 1) stream left ports h,
  )

  AreOpen-join_ports :
      (P : Type 0) (n : ℕ) (streams : List (PacketStream P))
      → AreOpen cb law P every n (Join.new_ports cb P n streams)
  unfolding AreOpen Join.new_ports
  AreOpen-join_ports P n [] = tt
  AreOpen-join_ports P n (stream ∷ streams) =
      (IsOpen-new_port cb law P n, AreOpen-join_ports P n streams)

module _ (cb : Crossbeam) (law : IsCrossbeam cb) (S A B : Type 0)
    (process : S → A → Option B × S) where
  -- What a poll of the fork link's ingressor on the answers tells of its ports, `c` with capacity `n`:
  -- all hold the same beginning of the messages, all of them where the poll is ready; a pending poll
  -- has left a port full, or has read the answers past the first that is no packet.
  abbrev pub IsDelivered : PacketStream B → List (Option B) → ℕ → ℕ → Fork.Polled cb B → Type 0
  IsDelivered answers messages n c (ok (pending, fork, mem)) =
      (length fork.ports ≡ c)
      × HoldAll cb law messages (routed (every 0) fork.input_stream) fork.ports
      × ((any_full cb law B every n fork.ports ≡ true) ⊎ (fork.input_stream ≡ past_pending answers))
  IsDelivered answers messages n c (ok (ready _, fork, mem)) =
      (length fork.ports ≡ c) × HoldAll cb law messages [] fork.ports
  IsDelivered answers messages n c (err e) = ⊥
  IsDelivered answers messages n c panic = ⊥

  delivered :
      (n c : ℕ) (stream : PacketStream B) (m : Fork.Polled cb B)
      → IsForked cb law B n stream (new_ports cb B n c) m
      → IsDelivered stream (routed (every 0) stream) n c m
  unfolding routed
  delivered n c stream (ok (pending, fork, mem)) (o, h, stops) = (
    length-HasRouted cb law B every n 0 stream fork.input_stream (new_ports cb B n c) fork.ports h
        ∙ length-fork_ports cb law B n c,
    HoldAll-HasRouted cb law B n c 0 stream fork.input_stream fork.ports h,
    stops,
  )
  delivered n c stream (ok (ready _, fork, mem)) (o, h) = (
    length-HasRouted cb law B every n 0 stream [] (new_ports cb B n c) fork.ports h
        ∙ length-fork_ports cb law B n c,
    HoldAll-HasRouted cb law B n c 0 stream [] fork.ports h,
  )
  delivered n c stream (err e) h = absurd h
  delivered n c stream panic h = absurd h

  -- Over channels that behave as documented, an M transform N link with a processor and a process
  -- link that gets any answers of the join link, polled at least as often as there are answers:
  -- either the streams or the number of egressors are missing, or the number of streams, of
  -- egressors or a capacity is 0, and `build_link` panics; or it builds a join egressor with an
  -- open port of the join capacity for each stream and all ingressors counted alive, the process
  -- link on those answers, and a fork link on the answers of the process link with open ports of
  -- the fork capacity, of which a poll does not panic and leaves one port for each egressor: every
  -- port holds the same beginning of the processor's outputs for the packets of the join link, in
  -- their order, and all of them where the poll is ready; a pending poll has left a port full or
  -- has read the answers past the first that is no packet.
  pub mtransformn_delivers :
      (link : MtransformN.MtransformNLink cb S A B process) (s : S) (join_answers : PacketStream A)
      (k : ℕ) (task : Waker) (mem : Memory cb)
      → length join_answers ≤ k
      → let runner : Process.ProcessRunner S A B process = record {
        in_stream = join_answers;
        processor = s;
      } in
        let answers = Process.answers S A B process k runner in
        let built =
          MtransformN.build_link cb S A B process
            (MtransformN.processor cb S A B process link s)
            join_answers
            answers in
        ((is_complete cb law S A B process link ≡ false) × (built ≡ panic))
        ⊎ ((streams : List (PacketStream A)) × (c : ℕ) × (egressor : Join.JoinEgressor cb A)
            × (fork : Fork.ForkIngressor cb B) × (link.in_streams ≡ some streams)
            × (link.egressor_count ≡ some c)
            × (built ≡ ok (streams, egressor, runner, fork))
            × IsBalanced cb law A (length streams) (length streams) egressor
            × AreOpen cb law A every link.join_capacity egressor.ports
            × AreOpen cb law B every link.fork_capacity fork.ports
            × IsDelivered answers
                (outputs process s join_answers)
                link.fork_capacity
                c
                (Fork.poll cb B task fork mem))
  mtransformn_delivers link s join_answers k task mem le =
      elim (IsBuilt-cases cb law S A B process link) [
        | inl (incomplete, panics) ↦ inl (incomplete, panics s join_answers _)
        | inr (streams, c, e, n, some_streams, join_room, fork_room, some_ports) ↦
            let runner : Process.ProcessRunner S A B process = record {
              in_stream = join_answers;
              processor = s;
            } in
            let answers = Process.answers S A B process k runner in
            let egressor = joined cb law A link.join_capacity streams in
            let fork = forked cb law B link.fork_capacity c answers in
            inr (
              streams,
              c,
              egressor,
              fork,
              e,
              n,
              mtransformn_build cb law S A B process (MtransformN.processor cb S A B process link s)
                  streams s c join_answers answers e refl n some_streams join_room fork_room
                  some_ports,
              joined-IsBalanced cb law A link.join_capacity streams,
              AreOpen-join_ports cb law A link.join_capacity streams,
              AreOpen-new_ports cb law B every link.fork_capacity c,
              subst (λ t. IsDelivered answers t link.fork_capacity c (Fork.poll cb B task fork mem))
                  (routed-answers S A B process k runner le)
                  (delivered link.fork_capacity c answers (Fork.poll cb B task fork mem) (
                    fork_copies cb law B link.fork_capacity task fork mem
                      (AreOpen-new_ports cb law B every link.fork_capacity c))),
            )
      ]
