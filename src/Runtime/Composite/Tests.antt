-- ===== src/Runtime/Composite/Tests.antt =====
-- The composite links and the drop link on concrete streams.
use route_rs.Common.{
  false, panic, ◌⊎◌, ℕ, zero, suc, ◌+◌, ◌≡◌, ◌==◌, refl, List, [], ◌∷◌, true, Option, none, some,
  ok, ◌>>=◌, length, arith,
}
use route_rs.Runtime.Crossbeam.Queues.{queues, queues-IsCrossbeam}
use route_rs.Runtime.Link.{ready, pending, PacketStream}
use route_rs.Runtime.Link.Ports.Routing.{AreOpen}
use route_rs.Runtime.Link.Fork
use route_rs.Runtime.Link.Fork.Copies.{every}
use route_rs.Runtime.Link.Join
use route_rs.Runtime.Link.Join.Pull.{IsBalanced}
use route_rs.Runtime.Link.Process
use route_rs.Runtime.Composite.MtransformN
use route_rs.Runtime.Composite.Building.{is_complete}
use route_rs.Runtime.Composite.Delivery.{IsDelivered, mtransformn_delivers}
use route_rs.Runtime.Link.Queue.Order.{outputs}
use route_rs.Runtime.TaskPark.{Memory, new_memory}
use route_rs.Runtime.DropLink.{Rand, IsRand, Drop}
use route_rs.Runtime.DropLink
use route_rs.Runtime.DropLink.Loss.{without_packets, polled, drops_all}

abbrev stream : PacketStream ℕ
stream = ready (some 10) ∷ pending ∷ ready (some 20) ∷ ready none ∷ []

abbrev streams : List (PacketStream ℕ)
streams = stream ∷ stream ∷ []

abbrev process : ℕ → ℕ → Option ℕ × ℕ
process (suc zero) a = (none, 2)
process s a = (some (a + s), s + 1)

abbrev mtransformn : MtransformN.MtransformNLink queues ℕ ℕ ℕ process
mtransformn = record {
  in_streams = some streams;
  processor_state = some 0;
  join_capacity = 2;
  fork_capacity = 3;
  egressor_count = some 4;
}

abbrev memory : Memory queues
memory = new_memory queues

abbrev runner : Process.ProcessRunner ℕ ℕ ℕ process
runner = record { in_stream = stream; processor = 0 }

abbrev answers : PacketStream ℕ
answers = Process.answers ℕ ℕ ℕ process 6 runner

mtransformn_delivers_example :
    ((is_complete queues queues-IsCrossbeam ℕ ℕ ℕ process mtransformn ≡ false)
      × (MtransformN.build_link queues ℕ ℕ ℕ process
            (MtransformN.processor queues ℕ ℕ ℕ process mtransformn 0)
            stream
            answers
          ≡ panic))
    ⊎ ((in_streams : List (PacketStream ℕ)) × (c : ℕ) × (egressor : Join.JoinEgressor queues ℕ)
        × (fork : Fork.ForkIngressor queues ℕ) × (mtransformn.in_streams ≡ some in_streams)
        × (mtransformn.egressor_count ≡ some c)
        × (MtransformN.build_link queues ℕ ℕ ℕ process
              (MtransformN.processor queues ℕ ℕ ℕ process mtransformn 0)
              stream
              answers
            ≡ ok (in_streams, egressor, runner, fork))
        × IsBalanced queues queues-IsCrossbeam ℕ (length in_streams) (length in_streams) egressor
        × AreOpen queues queues-IsCrossbeam ℕ every mtransformn.join_capacity egressor.ports
        × AreOpen queues queues-IsCrossbeam ℕ every mtransformn.fork_capacity fork.ports
        × IsDelivered queues queues-IsCrossbeam ℕ ℕ ℕ process answers
            (outputs process 0 stream)
            mtransformn.fork_capacity
            c
            (Fork.poll queues ℕ 0 fork memory))
mtransformn_delivers_example =
    mtransformn_delivers queues queues-IsCrossbeam ℕ ℕ ℕ process mtransformn 0 stream 6 0 memory
      (omega arith)

-- Chances in percent, and a generator that counts.
abbrev percents : Rand
percents = record {
  Chance = ℕ;
  one = 100;
  at_least_zero = λ chance. true;
  at_most_one = λ chance. true;
  Bernoulli = ℕ;
  new_bernoulli = λ chance. some chance;
  StdRng = ℕ;
  from_entropy = 7;
  seed_from_u64 = λ int_seed. int_seed;
  sample = λ chance rng. (chance == 100, rng + 1);
}

percents-IsRand : IsRand percents
percents-IsRand = record { certain = 100; new_one = refl; sample_certain = λ rng. refl }

drops_all_example :
    (runner : Process.ProcessRunner (Drop percents ℕ) ℕ ℕ (DropLink.process percents ℕ))
    × ((DropLink.ingressor percents ℕ (DropLink.seed percents ℕ (DropLink.new percents ℕ) 3) stream
          >>= DropLink.build_link percents ℕ)
        ≡ ok runner)
    × (runner.processor.rng ≡ 3)
    × (Process.answers (Drop percents ℕ) ℕ ℕ (DropLink.process percents ℕ) 6 runner
        ≡ polled 6 (without_packets stream))
drops_all_example = drops_all percents percents-IsRand ℕ stream 3 6
