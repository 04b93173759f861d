-- ===== src/Runtime/Composite/Building.antt =====
-- What the composite links start from.
use route_rs.Common.{
  false, Bool, ◌&&◌, ◌⊎◌, inl, inr, Bool-cases, Option-cases, none, panic, ltb, true, ℕ, zero, suc,
  ◌<◌, ◌≡◌, refl, ap, List, [], ◌∷◌, lt→ltb, Option, some, ok, length, arith,
}
use route_rs.Runtime.Crossbeam.{Crossbeam, IsCrossbeam}
use route_rs.Runtime.Link.{PacketStream}
use route_rs.Runtime.Link.Ports.{new_ports}
use route_rs.Runtime.Link.Ports.Routing.{AreOpen, AreOpen-new_ports}
use route_rs.Runtime.Link.Fork
use route_rs.Runtime.Link.Fork.Copies.{every}
use route_rs.Runtime.Link.Join
use route_rs.Runtime.Link.Join.Counts.{ends, endings}
use route_rs.Runtime.Link.Join.Pull.{IsBalanced}
use route_rs.Runtime.Link.Process
use route_rs.Runtime.Composite.MtoN
use route_rs.Runtime.Composite.MtransformN

module _ (cb : Crossbeam) (law : IsCrossbeam cb) (P : Type 0) where
  abbrev pub joined : ℕ → List (PacketStream P) → Join.JoinEgressor cb P
  joined n streams = record {
    ports = Join.new_ports cb P n streams;
    ingressors_alive = length streams;
    next_pull_ingressor = 0;
  }

  abbrev pub forked : ℕ → ℕ → PacketStream P → Fork.ForkIngressor cb P
  forked n c stream = record { input_stream = stream; ports = new_ports cb P n c }

  length-new_ports :
      (n : ℕ) (streams : List (PacketStream P))
      → length (Join.new_ports cb P n streams) ≡ length streams
  unfolding Join.new_ports
  length-new_ports n [] = refl
  length-new_ports n (stream ∷ streams) = omega (arith, length-new_ports n streams)

  ends-new_ports :
      (n : ℕ) (streams : List (PacketStream P)) → ends cb P (Join.new_ports cb P n streams) ≡ 0
  unfolding Join.new_ports ends endings
  ends-new_ports n [] = refl
  ends-new_ports n (stream ∷ streams) =
      omega (
        arith,
        ap (λ t. endings t) (law.contents-bounded {A = Option P} n),
        ends-new_ports n streams,
      )

  pub joined-IsBalanced :
      (n : ℕ) (streams : List (PacketStream P))
      → IsBalanced cb law P (length streams) (length streams) (joined n streams)
  joined-IsBalanced n streams = record {
    alive = omega (arith, ends-new_ports n streams);
    ports_count = length-new_ports n streams;
  }

  pub length-fork_ports : (n c : ℕ) → length (new_ports cb P n c) ≡ c
  unfolding new_ports
  length-fork_ports n zero = refl
  length-fork_ports n (suc c) = omega (arith, length-fork_ports n c)

  -- An M to N link is built without a panic, from at least one stream, with capacities and a number of
  -- egressors above 0.
  pub mton_build :
      (link : MtoN.MtoNLink cb P) (streams : List (PacketStream P)) (c : ℕ)
      (answers : PacketStream P)
      → link.in_streams ≡ some streams
      → link.egressor_count ≡ some c
      → 0 < length streams
      → 0 < link.join_capacity
      → 0 < link.fork_capacity
      → 0 < c
      → (egressor : Join.JoinEgressor cb P) × (fork : Fork.ForkIngressor cb P) × (MtoN.build_link cb
            P link answers
          ≡ ok (streams, egressor, fork))
        × IsBalanced cb law P (length streams) (length streams) egressor
        × AreOpen cb law P every link.fork_capacity fork.ports
        × (length fork.ports ≡ c)
        × (fork.input_stream ≡ answers)
  unfolding MtoN.build_link Join.ingressors Join.queue_capacity Join.build_link Fork.ingressors
      Fork.ingressor Fork.queue_capacity Fork.num_egressors Fork.build_link
  mton_build link streams c answers s n some_streams join_room fork_room some_ports = (
    joined link.join_capacity streams,
    forked link.fork_capacity c answers,
    simp (
      MtoN.build_link,
      s,
      n,
      lt→ltb 0 _ some_streams,
      lt→ltb 0 _ join_room,
      lt→ltb 0 _ fork_room,
      lt→ltb 0 _ some_ports,
    ),
    joined-IsBalanced link.join_capacity streams,
    AreOpen-new_ports cb law P every link.fork_capacity c,
    length-fork_ports link.fork_capacity c,
    refl,
  )

module _ (cb : Crossbeam) (law : IsCrossbeam cb) (S A B : Type 0)
    (process : S → A → Option B × S) where
  -- An M transform N link with all its parts is built without a panic.
  pub mtransformn_build :
      (link : MtransformN.MtransformNLink cb S A B process) (streams : List (PacketStream A))
      (s : S) (c : ℕ) (join_answers : PacketStream A) (process_answers : PacketStream B)
      → link.in_streams ≡ some streams
      → link.processor_state ≡ some s
      → link.egressor_count ≡ some c
      → ltb 0 (length streams) ≡ true
      → ltb 0 link.join_capacity ≡ true
      → ltb 0 link.fork_capacity ≡ true
      → ltb 0 c ≡ true
      → MtransformN.build_link cb S A B process link join_answers process_answers
        ≡ ok (
          streams,
          joined cb law A link.join_capacity streams,
          record { in_stream = join_answers; processor = s },
          forked cb law B link.fork_capacity c process_answers,
        )
  unfolding MtransformN.build_link Join.ingressors Join.queue_capacity Join.build_link
      Process.ingressors Process.ingressor Process.build_link Fork.ingressors Fork.ingressor
      Fork.queue_capacity Fork.num_egressors Fork.build_link
  mtransformn_build link streams s c join_answers process_answers e p n some_streams join_room
        fork_room some_ports =
      simp (MtransformN.build_link, e, p, n, some_streams, join_room, fork_room, some_ports)

  -- the parts that `build_link` asks for besides the processor
  abbrev pub is_complete : MtransformN.MtransformNLink cb S A B process → Bool
  is_complete link = elim link.in_streams [
    | none ↦ false
    | some streams ↦ elim link.egressor_count [
      | none ↦ false
      | some c ↦
          ltb 0 (length streams)
          && (ltb 0 link.join_capacity && (ltb 0 link.fork_capacity && ltb 0 c))
    ]
  ]

  -- A link whose build panics without a part, and a link with all parts.
  abbrev pub IsBuilt : MtransformN.MtransformNLink cb S A B process → Type 0
  IsBuilt link =
      ((is_complete link ≡ false)
        × ((s : S) (join_answers : PacketStream A) (process_answers : PacketStream B)
            → MtransformN.build_link cb S A B process
                (MtransformN.processor cb S A B process link s) join_answers process_answers
              ≡ panic))
      ⊎ ((streams : List (PacketStream A)) × (c : ℕ) × (link.in_streams ≡ some streams)
          × (link.egressor_count ≡ some c)
          × (ltb 0 (length streams) ≡ true)
          × (ltb 0 link.join_capacity ≡ true)
          × (ltb 0 link.fork_capacity ≡ true)
          × (ltb 0 c ≡ true))

  pub IsBuilt-cases : (link : MtransformN.MtransformNLink cb S A B process) → IsBuilt link
  unfolding MtransformN.build_link Join.ingressors Join.queue_capacity Join.build_link
      Process.ingressors Process.ingressor Process.build_link Fork.ingressors Fork.ingressor
      Fork.queue_capacity Fork.num_egressors Fork.build_link
  IsBuilt-cases link = elim (Option-cases link.in_streams) [
    | inl e ↦ inl (rw e refl, λ s j p. simp (MtransformN.build_link, e))
    | inr (streams, e) ↦ elim (Option-cases link.egressor_count) [
      | inl n ↦ inl (rw (e, n) refl, λ s j p. simp (MtransformN.build_link, e, n))
      | inr (c, n) ↦ elim (Bool-cases (ltb 0 (length streams))) [
        | inr a ↦ inl (rw (e, n, a) refl, λ s j p. simp (MtransformN.build_link, e, n, a))
        | inl a ↦ elim (Bool-cases (ltb 0 link.join_capacity)) [
          | inr b ↦ inl (rw (e, n, a, b) refl, λ s j p. simp (MtransformN.build_link, e, n, a, b))
          | inl b ↦ elim (Bool-cases (ltb 0 link.fork_capacity)) [
            | inr d ↦
                inl (rw (e, n, a, b, d) refl, λ s j p. simp (MtransformN.build_link, e, n, a, b, d))
            | inl d ↦ elim (Bool-cases (ltb 0 c)) [
              | inr g ↦ inl (
                rw (e, n, a, b, d, g) refl,
                λ s j p. simp (MtransformN.build_link, e, n, a, b, d, g),
              )
              | inl g ↦ inr (streams, c, e, n, a, b, d, g)
            ]
          ]
        ]
      ]
    ]
  ]
