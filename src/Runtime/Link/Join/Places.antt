-- ===== src/Runtime/Link/Join/Places.antt =====
-- The places that the loop of a join link's egressor goes through, and the ports that it passes.
use route_rs.Common.{
  ℕ, zero, suc, ◌+◌, ◌%◌, ◌<◌, ◌≡◌, refl, ap, subst, ◌∙◌, List, [], ◌∷◌, inl, inr, ◌⊎◌, Option,
  none, some, Outcome, ok, err, panic, length, arith,
}
use route_rs.Runtime.Crossbeam.{Crossbeam}
use route_rs.Runtime.Link.{Port}
use route_rs.Runtime.Link.Join.{rotated, get, set, Pulled, found, all_passed}

-- The packet in front of the messages, where a packet is.
abbrev pub front : {P : Type 0} → List (Option P) → Option P
front [] = none
front (m ∷ messages) = m

module _ (cb : Crossbeam) (P : Type 0) where
  open cb use {contents}

  -- A port without a packet in front.
  abbrev pub IsIdle : List (Port cb P) → ℕ → Type 0
  IsIdle ports k =
      (port : Port cb P) → get cb P ports k ≡ some port → front (contents port.channel) ≡ none

  -- Port `k` has its turn where the ports from `next` on, one after the other around the list of
  -- ports, are idle in front of it.
  abbrev pub HasTurn : List (Port cb P) → ℕ → ℕ → Type 0
  HasTurn ports next k =
      (i : ℕ) × (i < length ports)
      × (k ≡ (next + i) % length ports)
      × ((j : ℕ) → j < i → IsIdle ports ((next + j) % length ports))

  -- The first place that is not idle, and no such place.
  unfoldable pub Reaches : List (Port cb P) → List ℕ → ℕ → Type 0
  Reaches ports [] k = ⊥
  Reaches ports (j ∷ places) k = (k ≡ j) ⊎ (IsIdle ports j × Reaches ports places k)

  unfoldable pub AllIdle : List (Port cb P) → List ℕ → Type 0
  AllIdle ports [] = Unit
  AllIdle ports (j ∷ places) = IsIdle ports j × AllIdle ports places

  get-set_cases :
      (ports : List (Port cb P)) (k j : ℕ) (port' : Port cb P)
      → (j ≡ k) ⊎ (get cb P (set cb P ports k port') j ≡ get cb P ports j)
  unfolding get set
  get-set_cases [] k j port' = inr refl
  get-set_cases (port ∷ ports) zero zero port' = inl refl
  get-set_cases (port ∷ ports) zero (suc j) port' = inr refl
  get-set_cases (port ∷ ports) (suc k) zero port' = inr refl
  get-set_cases (port ∷ ports) (suc k) (suc j) port' = elim (get-set_cases ports k j port') [
    | inl e ↦ inl (ap suc e)
    | inr e ↦ inr e
  ]

  IsIdle-set :
      (ports : List (Port cb P)) (k j : ℕ) (port' : Port cb P)
      → IsIdle ports k
      → IsIdle (set cb P ports k port') j
      → IsIdle ports j
  IsIdle-set ports k j port' at_k idle port got = elim (get-set_cases ports k j port') [
    | inl e ↦ at_k port (subst (λ t. get cb P ports t ≡ some port) e got)
    | inr e ↦ idle port (e ∙ got)
  ]

  AllIdle-set :
      (ports : List (Port cb P)) (k : ℕ) (port' : Port cb P) (places : List ℕ)
      → IsIdle ports k
      → AllIdle (set cb P ports k port') places
      → AllIdle ports places
  unfolding AllIdle
  AllIdle-set ports k port' [] at_k h = tt
  AllIdle-set ports k port' (j ∷ places) at_k (idle, h) =
      (IsIdle-set ports k j port' at_k idle, AllIdle-set ports k port' places at_k h)

  Reaches-set :
      (ports : List (Port cb P)) (k : ℕ) (port' : Port cb P) (places : List ℕ) (m : ℕ)
      → IsIdle ports k
      → Reaches (set cb P ports k port') places m
      → Reaches ports places m
  unfolding Reaches
  Reaches-set ports k port' [] m at_k h = h
  Reaches-set ports k port' (j ∷ places) m at_k (inl e) = inl e
  Reaches-set ports k port' (j ∷ places) m at_k (inr (idle, h)) =
      inr (IsIdle-set ports k j port' at_k idle, Reaches-set ports k port' places m at_k h)

  -- The places of the loop, as turns.
  pub Reaches-rotated :
      (ports : List (Port cb P)) (len next count k : ℕ)
      → Reaches ports (rotated len next count) k
      → (i : ℕ) × (i < count)
        × (k ≡ (next + i) % len)
        × ((j : ℕ) → j < i → IsIdle ports ((next + j) % len))
  unfolding Reaches rotated
  Reaches-rotated ports len next zero k h = absurd h
  Reaches-rotated ports len next (suc count) k (inl e) =
      (0, omega arith, e ∙ ap (λ t. t % len) (omega arith), λ j lt. absurd (omega (arith, lt)))
  Reaches-rotated ports len next (suc count) k (inr (idle, h)) =
      let (i, lt, e, before) = Reaches-rotated ports len (next + 1) count k h in
      (
        suc i,
        omega (arith, lt),
        e ∙ ap (λ t. t % len) (omega arith),
        λ j below. turn j below before,
      )
    where
      turn :
          {i : ℕ} (j : ℕ)
          → j < suc i
          → ((j' : ℕ) → j' < i → IsIdle ports ((next + 1 + j') % len))
          → IsIdle ports ((next + j) % len)
      turn zero below before = subst (λ t. IsIdle ports (t % len)) (omega arith) idle
      turn (suc j) below before =
          subst (λ t. IsIdle ports (t % len)) (omega arith) (before j (omega (arith, below)))

  pub AllIdle-rotated :
      (ports : List (Port cb P)) (len next count : ℕ)
      → AllIdle ports (rotated len next count)
      → (j : ℕ) → j < count
      → IsIdle ports ((next + j) % len)
  unfolding AllIdle rotated
  AllIdle-rotated ports len next zero h j lt = absurd (omega (arith, lt))
  AllIdle-rotated ports len next (suc count) (idle, h) zero lt =
      subst (λ t. IsIdle ports (t % len)) (omega arith) idle
  AllIdle-rotated ports len next (suc count) (idle, h) (suc j) lt =
      subst (λ t. IsIdle ports (t % len)) (omega arith)
        (AllIdle-rotated ports len (next + 1) count h j (omega (arith, lt)))

  -- What the loop over places found: the first place with a packet in front, or none.
  abbrev pub IsSought : List (Port cb P) → List ℕ → ℕ → Outcome (Pulled cb P) → Type 0
  IsSought ports places next (ok (found (some packet) self mem)) =
      (k : ℕ) × Reaches ports places k × (self.next_pull_ingressor ≡ k + 1)
  IsSought ports places next (ok (found none self mem)) = Unit
  IsSought ports places next (ok (all_passed self mem)) =
      AllIdle ports places × (self.next_pull_ingressor ≡ next)
  IsSought ports places next _ = Unit

  pub IsSought-set :
      (ports : List (Port cb P)) (k : ℕ) (port' : Port cb P) (places : List ℕ) (next : ℕ)
      (m : Outcome (Pulled cb P))
      → IsIdle ports k
      → IsSought (set cb P ports k port') places next m
      → IsSought ports (k ∷ places) next m
  unfolding Reaches AllIdle
  IsSought-set ports k port' places next (ok (found (some packet) self mem)) at_k (j, h, e) =
      (j, inr (at_k, Reaches-set ports k port' places j at_k h), e)
  IsSought-set ports k port' places next (ok (found none self mem)) at_k h = tt
  IsSought-set ports k port' places next (ok (all_passed self mem)) at_k (h, e) =
      ((at_k, AllIdle-set ports k port' places at_k h), e)
  IsSought-set ports k port' places next (err e) at_k h = tt
  IsSought-set ports k port' places next panic at_k h = tt
