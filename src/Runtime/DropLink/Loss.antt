-- ===== src/Runtime/DropLink/Loss.antt =====
-- A drop link without a chance lets no packet through.
use route_rs.Common.{ℕ, zero, suc, ◌≡◌, refl, sym, ap, ◌∙◌, [], ◌∷◌, Option, none, some, ok, ◌>>=◌}
use route_rs.Runtime.Link.{Poll, ready, pending, PacketStream}
use route_rs.Runtime.Link.Process
use route_rs.Runtime.DropLink.{
  Rand, IsRand, Drop, process, build_link, new_drop, new, seed, ingressor, with_chance, with_seed,
}

-- The answers of a stream without its packets.
unfoldable pub without_packets : {A : Type 0} → PacketStream A → PacketStream A
without_packets [] = []
without_packets (pending ∷ stream) = pending ∷ without_packets stream
without_packets (ready none ∷ stream) = ready none ∷ without_packets stream
without_packets (ready (some a) ∷ stream) = without_packets stream

-- The answers of a number of polls of a stream, which is pending after its last answer.
unfoldable pub polled : {A : Type 0} → ℕ → PacketStream A → PacketStream A
polled zero stream = []
polled (suc k) [] = pending ∷ polled k []
polled (suc k) (answer ∷ stream) = answer ∷ polled k stream

module _ (r : Rand) (law : IsRand r) (A : Type 0) where
  abbrev Runner : Type 0
  Runner = Process.ProcessRunner (Drop r A) A A (process r A)

  -- A runner whose processor drops every packet.
  abbrev certain_runner : PacketStream A → r.StdRng → Runner
  certain_runner stream rng = record {
    in_stream = stream;
    processor = record { bernoulli = law.certain; rng = rng };
  }

  -- A poll passes over the packets and gives the answer behind them.
  poll_certain :
      (stream : PacketStream A) (rng : r.StdRng)
      → (answer : Poll (Option A)) × (left : PacketStream A) × (rng' : r.StdRng)
        × (Process.poll_next (Drop r A) A A (process r A) (certain_runner stream rng)
            ≡ (answer, certain_runner left rng'))
        × ((k : ℕ)
            → polled (suc k) (without_packets stream) ≡ answer ∷ polled k (without_packets left))
  unfolding Process.poll_next Process.poll_loop polled without_packets process
  poll_certain [] rng = (pending, [], rng, refl, λ k. refl)
  poll_certain (pending ∷ stream) rng = (pending, stream, rng, refl, λ k. refl)
  poll_certain (ready none ∷ stream) rng = (ready none, stream, rng, refl, λ k. refl)
  poll_certain (ready (some a) ∷ stream) rng =
      let (answer, left, rng', e, h) = poll_certain stream (r.sample law.certain rng).1 in
      (
        answer,
        left,
        rng',
        rw (Process.poll_next, Process.poll_loop, process, law.sample_certain rng) e,
        h,
      )

  answers-certain :
      (k : ℕ) (stream : PacketStream A) (rng : r.StdRng)
      → Process.answers (Drop r A) A A (process r A) k (certain_runner stream rng)
        ≡ polled k (without_packets stream)
  unfolding Process.answers polled
  answers-certain zero stream rng = refl
  answers-certain (suc k) stream rng =
      let (answer, left, rng', e, h) = poll_certain stream rng in
      ap (λ p. p.0 ∷ Process.answers (Drop r A) A A (process r A) k p.1) e
      ∙ ap (λ t. answer ∷ t) (answers-certain k left rng')
      ∙ sym (h k)

  -- With a random generator for which the chance 1 always holds, a drop link with a seed and
  -- without a chance is built without a panic, with its generator at that seed, and any number of
  -- polls of its egressor give the answers of the stream without its packets: pending where the
  -- stream is pending or over, the end where the stream gives it, and no packet.
  pub drops_all :
      (stream : PacketStream A) (int_seed k : ℕ)
      → (runner : Process.ProcessRunner (Drop r A) A A (process r A)) × ((ingressor r A
              (seed r A (new r A) int_seed)
              stream
            >>= build_link r A)
          ≡ ok runner)
        × (runner.processor.rng ≡ r.seed_from_u64 int_seed)
        × (Process.answers (Drop r A) A A (process r A) k runner
            ≡ polled k (without_packets stream))
  unfolding build_link ingressor new_drop with_chance with_seed Process.ingressor Process.build_link
  drops_all stream int_seed k = (
    certain_runner stream (r.seed_from_u64 int_seed),
    rw law.new_one,
    refl,
    answers-certain k stream (r.seed_from_u64 int_seed),
  )
