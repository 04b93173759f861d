-- ===== src/Common/Maps.antt =====
-- A `HashMap` as the list of its entries, the newest first, with the test of their keys.
use mathlib.Core.Bool.{Bool}
use mathlib.Core.List.{List, [], ◌∷◌}
use mathlib.Core.Option.{Option, none, some}
use route_rs.Common.Outcomes.{is_some}
use route_rs.Common.Tests.{if◌then◌else◌}

module _ {ℓ κ} {K : Type ℓ} {V : Type κ} (key_eq : K → K → Bool) where
  -- `map.get(key)`
  abbrev pub get : List (K × V) → K → Option V
  get [] k = none
  get ((j, v) ∷ entries) k = let later = get entries k in if key_eq j k then some v else later

  -- `map.contains_key(key)`
  abbrev pub contains_key : List (K × V) → K → Bool
  contains_key entries k = is_some (get entries k)

-- `map.insert(key, value)`
abbrev pub insert {ℓ κ} : {K : Type ℓ} {V : Type κ} → List (K × V) → K → V → List (K × V)
insert entries k v = (k, v) ∷ entries
