-- ===== src/Runtime/DropLink.antt =====
-- The processor `Drop` of route-rs-runtime/src/processor/drop.rs and the link `DropLink` of
-- route-rs-runtime/src/link/composite/drop_link.rs. The package rand and the floating-point numbers are
-- a parameter.
pub mod Loss
use route_rs.Common.{
  ℕ, List, [], ◌∷◌, Bool, true, false, not, if◌then◌else◌, ◌≡◌, Option, none, some, Outcome, ok,
  panic, ◌>>=◌, ◌>>◌, assert, is_some, some_or_panic,
}
use route_rs.Runtime.Link.{PacketStream}
use route_rs.Runtime.Link.Process

-- A chance is an `f64`; `new_bernoulli` is `Bernoulli::new`, with `none` for its error.
pub record Rand : Type 1 where
  pub Chance : Type 0
  pub one : Chance
  pub at_least_zero : Chance → Bool
  pub at_most_one : Chance → Bool
  pub Bernoulli : Type 0
  pub new_bernoulli : Chance → Option Bernoulli
  pub StdRng : Type 0
  pub from_entropy : StdRng
  pub seed_from_u64 : ℕ → StdRng
  pub sample : Bernoulli → StdRng → Bool × StdRng

-- The documented behaviour of the chance 1: it always holds.
pub record IsRand (r : Rand) : Type 0 where
  pub certain : r.Bernoulli
  pub new_one : r.new_bernoulli r.one ≡ some certain
  pub sample_certain : (rng : r.StdRng) → (r.sample certain rng).0 ≡ true

module _ (r : Rand) (A : Type 0) where
  open r use {Chance, Bernoulli, StdRng}

  pub record Drop : Type 0 where
    pub bernoulli : Bernoulli
    pub rng : StdRng

  unfoldable pub new_drop : Outcome Drop
  new_drop = do
    bernoulli ← some_or_panic (r.new_bernoulli r.one)
    ok (record { bernoulli = bernoulli; rng = r.from_entropy })

  unfoldable pub set_drop_chance : Drop → Chance → Outcome Drop
  set_drop_chance self chance = do
    assert (r.at_least_zero chance)
    assert (r.at_most_one chance)
    bernoulli ← some_or_panic (r.new_bernoulli chance)
    ok (record self { bernoulli = bernoulli })

  abbrev pub set_drop_seed : Drop → ℕ → Drop
  set_drop_seed self int_seed = record self { rng = r.seed_from_u64 int_seed }

  unfoldable pub process : Drop → A → Option A × Drop
  process self packet =
      let (drops, rng) = r.sample self.bernoulli self.rng in
      (if drops then none else some packet, record self { rng = rng })

  pub record DropLink : Type 0 where
    pub in_stream : Option (PacketStream A)
    pub chance : Option Chance
    pub int_seed : Option ℕ

  -- `DropLink::new`
  abbrev pub new : DropLink
  new = record { in_stream = none; chance = none; int_seed = none }

  abbrev pub drop_chance : DropLink → Chance → DropLink
  drop_chance self chance = record self { chance = some chance }

  abbrev pub seed : DropLink → ℕ → DropLink
  seed self int_seed = record self { int_seed = some int_seed }

  unfoldable pub ingressor : DropLink → PacketStream A → Outcome DropLink
  ingressor self in_stream = do
    assert (not (is_some self.in_stream))
    ok (record self { in_stream = some in_stream })

  unfoldable pub ingressors : DropLink → List (PacketStream A) → Outcome DropLink
  unfolding ingressor
  ingressors self (in_stream ∷ []) = ingressor self in_stream
  ingressors self _ = panic

  -- The two `if let` of `build_link`.
  unfoldable pub with_chance : Option Chance → Drop → Outcome Drop
  unfolding set_drop_chance
  with_chance none dropper = ok dropper
  with_chance (some dc) dropper = set_drop_chance dropper dc

  unfoldable pub with_seed : Option ℕ → Drop → Drop
  with_seed none dropper = dropper
  with_seed (some s) dropper = set_drop_seed dropper s

  unfoldable pub build_link : DropLink → Outcome (Process.ProcessRunner Drop A A process)
  unfolding new_drop with_chance with_seed process Process.ingressor Process.build_link
  build_link self = do
    in_stream ← some_or_panic self.in_stream
    dropper ← new_drop
    dropper' ← with_chance self.chance dropper
    let dropper'' = with_seed self.int_seed dropper'
    link ← Process.ingressor Drop A A process (Process.new Drop A A process) in_stream
    Process.build_link Drop A A process (Process.processor Drop A A process link dropper'')
