-- ===== src/Graphgen/Fed.antt =====
-- The order of the links of a generated router: each link is fed by egressors of links before it.
use Prim.Native.String.{String}
use text.Mathlib.Text.{◌==◌ as str_eq}
use mathlib.Core.List.{Memᴰ}
use route_rs.Common.{List, [], ◌∷◌, Option, none, some, ◌≡◌, false}
use route_rs.Graphgen.Links.{Feeder, Link, input, output, sync, classify, join}
use route_rs.Graphgen.Syn.{Pat}

abbrev pub All {ℓ κ} : {A : Type ℓ} → (A → Type κ) → List A → Type κ
All P [] = Unit
All P (x ∷ xs) = P x × All P xs

-- the egressors that a link takes
abbrev pub needs : Link → List Feeder
needs input = []
needs (output f) = f ∷ []
needs (sync f p) = f ∷ []
needs (classify f p branches) = f ∷ []
needs (join feeders) = feeders

abbrev pub declare_branches : String → List String → List Feeder → List Feeder
declare_branches id [] declared = declared
declare_branches id (b ∷ branches) declared = declare_branches id branches ((id, some b) ∷ declared)

-- the egressors that exist behind a link
abbrev pub declare : String × Link → List Feeder → List Feeder
declare (id, output f) declared = declared
declare (id, classify f p branches) declared = declare_branches id branches declared
declare (id, _) declared = (id, none) ∷ declared

module _ (parse_pat : String → Option Pat) (processors : List String) where
  -- The processor of the link is declared, and the labels of its branches are patterns.
  abbrev pub HasProcessor : Link → Type 0
  HasProcessor (sync f p) = Memᴰ p processors
  HasProcessor (classify f p branches) =
      Memᴰ p processors × All (λ b. (pat : Pat) × (parse_pat b ≡ some pat)) branches
  HasProcessor _ = Unit {0}

  -- Each egressor that the link takes exists, and is of another node.
  abbrev pub IsFed : List Feeder → String × Link → Type 0
  IsFed declared (id, l) =
      All (λ (f : Feeder). Memᴰ f declared × (str_eq id f.0 ≡ false)) (needs l) × HasProcessor l

  abbrev pub AreFed : List Feeder → List (String × Link) → Type 0
  AreFed declared [] = Unit {0}
  AreFed declared (l ∷ links) = IsFed declared l × AreFed (declare l declared) links
