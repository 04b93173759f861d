-- ===== src/Runtime/Link/Join/Counts.antt =====
-- The packets and the ends in the ports of a join link.
use route_rs.Common.{
  ℕ, zero, suc, ◌+◌, ◌<◌, ◌≡◌, refl, ap, List, [], ◌∷◌, Bool, inl, inr, ◌⊎◌, Option, none, some,
  length, arith,
}
use native.Mathlib.Nat.{mod-lt}
use route_rs.Runtime.Crossbeam.{Crossbeam}
use route_rs.Runtime.TaskPark.{Memory}
use route_rs.Runtime.Link.{Port, die}
use route_rs.Runtime.Link.Join.{rotated, get, set, die_all, park_at_all}

-- The packets among messages, and the number of ends.
unfoldable pub waiting : {P : Type 0} → List (Option P) → List P
waiting [] = []
waiting (none ∷ messages) = waiting messages
waiting (some packet ∷ messages) = packet ∷ waiting messages

unfoldable pub endings : {P : Type 0} → List (Option P) → ℕ
endings [] = 0
endings (none ∷ messages) = endings messages + 1
endings (some packet ∷ messages) = endings messages

-- A packet in front of the packets of a place.
unfoldable pub add_at : {P : Type 0} → ℕ → P → List (List P) → List (List P)
add_at k packet [] = []
add_at zero packet (queue ∷ queues) = (packet ∷ queue) ∷ queues
add_at (suc k) packet (queue ∷ queues) = queue ∷ add_at k packet queues

unfoldable pub AllBelow : ℕ → List ℕ → Type 0
AllBelow len [] = Unit
AllBelow len (k ∷ places) = (k < len) × AllBelow len places

module _ (cb : Crossbeam) (P : Type 0) where
  open cb use {contents}

  unfoldable pub waits : List (Port cb P) → List (List P)
  waits [] = []
  waits (port ∷ ports) = waiting (contents port.channel) ∷ waits ports

  unfoldable pub ends : List (Port cb P) → ℕ
  ends [] = 0
  ends (port ∷ ports) = endings (contents port.channel) + ends ports

  pub get_lem :
      (ports : List (Port cb P)) (k : ℕ)
      → k < length ports
      → (port : Port cb P) × (get cb P ports k ≡ some port)
  unfolding get
  get_lem [] k lt = absurd (omega (arith, lt))
  get_lem (port ∷ ports) zero lt = (port, refl)
  get_lem (port ∷ ports) (suc k) lt = get_lem ports k (omega (arith, lt))

  pub length-set :
      (ports : List (Port cb P)) (k : ℕ) (port' : Port cb P)
      → length (set cb P ports k port') ≡ length ports
  unfolding set
  length-set [] k port' = refl
  length-set (port ∷ ports) zero port' = refl
  length-set (port ∷ ports) (suc k) port' = omega (arith, length-set ports k port')

  -- A port that passed keeps its packets.
  pub waits-set :
      (ports : List (Port cb P)) (k : ℕ) (port port' : Port cb P)
      → get cb P ports k ≡ some port
      → waiting (contents port'.channel) ≡ waiting (contents port.channel)
      → waits (set cb P ports k port') ≡ waits ports
  unfolding get set waits
  waits-set [] k port port' e h = cc
  waits-set (p ∷ ports) zero port port' e h = cc
  waits-set (p ∷ ports) (suc k) port port' e h =
      ap (λ t. waiting (contents p.channel) ∷ t) (waits-set ports k port port' e h)

  -- A port that gave a packet had it in front of the packets that it keeps.
  pub add_at-set :
      (ports : List (Port cb P)) (k : ℕ) (port port' : Port cb P) (packet : P)
      → get cb P ports k ≡ some port
      → packet ∷ waiting (contents port'.channel) ≡ waiting (contents port.channel)
      → add_at k packet (waits (set cb P ports k port')) ≡ waits ports
  unfolding get set waits add_at
  add_at-set [] k port port' packet e h = cc
  add_at-set (p ∷ ports) zero port port' packet e h = cc
  add_at-set (p ∷ ports) (suc k) port port' packet e h =
      ap (λ t. waiting (contents p.channel) ∷ t) (add_at-set ports k port port' packet e h)

  pub ends-set :
      (ports : List (Port cb P)) (k : ℕ) (port port' : Port cb P)
      → get cb P ports k ≡ some port
      → ends (set cb P ports k port') + endings (contents port.channel)
        ≡ ends ports + endings (contents port'.channel)
  unfolding get set ends
  ends-set [] k port port' e = cc
  ends-set (p ∷ ports) zero port port' e =
      omega (arith, ap (λ t. endings (contents t.channel)) same)
    where
      same : p ≡ port
      same = cc
  ends-set (p ∷ ports) (suc k) port port' e = omega (arith, ends-set ports k port port' e)

  pub die_all_lem :
      (ports : List (Port cb P)) (mem : Memory cb)
      → (waits (die_all cb P ports mem).0 ≡ waits ports)
        × (ends (die_all cb P ports mem).0 ≡ ends ports)
  unfolding die_all waits ends
  die_all_lem [] mem = (refl, refl)
  die_all_lem (port ∷ ports) mem =
      let (w, e) = die_all_lem ports (die cb P port mem).1 in
      (
        ap (λ t. waiting (contents port.channel) ∷ t) w,
        ap (λ t. endings (contents port.channel) + t) e,
      )

  pub length-die_all :
      (ports : List (Port cb P)) (mem : Memory cb)
      → length (die_all cb P ports mem).0 ≡ length ports
  unfolding die_all
  length-die_all [] mem = refl
  length-die_all (port ∷ ports) mem = omega (arith, length-die_all ports (die cb P port mem).1)

  pub length-park_at_all :
      (task : ℕ) (ports : List (Port cb P)) (parked : Bool) (mem : Memory cb)
      → length (park_at_all cb P task ports parked mem).1 ≡ length ports
  unfolding park_at_all
  length-park_at_all task [] parked mem = refl
  length-park_at_all task (port ∷ ports) parked mem =
      omega (arith, length-park_at_all task ports _ _)

  pub park_at_all_lem :
      (task : ℕ) (ports : List (Port cb P)) (parked : Bool) (mem : Memory cb)
      → (waits (park_at_all cb P task ports parked mem).1 ≡ waits ports)
        × (ends (park_at_all cb P task ports parked mem).1 ≡ ends ports)
  unfolding park_at_all waits ends
  park_at_all_lem task [] parked mem = (refl, refl)
  park_at_all_lem task (port ∷ ports) parked mem =
      let (w, e) = park_at_all_lem task ports _ _ in
      (
        ap (λ t. waiting (contents port.channel) ∷ t) w,
        ap (λ t. endings (contents port.channel) + t) e,
      )

pub alive-cases : (alive : ℕ) → 0 < alive → (alive ≡ 1) ⊎ ((m : ℕ) × (alive ≡ suc (suc m)))
alive-cases zero lt = absurd (omega (arith, lt))
alive-cases (suc zero) lt = inl refl
alive-cases (suc (suc m)) lt = inr (m, refl)

pub rotated_lem : (len next count : ℕ) → 0 < len → AllBelow len (rotated len next count)
unfolding rotated AllBelow
rotated_lem len next zero lt = tt
rotated_lem len next (suc count) lt = (mod-lt next lt, rotated_lem len (next + 1) count lt)
