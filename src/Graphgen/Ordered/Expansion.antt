-- ===== src/Graphgen/Ordered/Expansion.antt =====
-- The links of one node: its join, its link, and the egressors behind them.
use Prim.Native.String.{String, len}
use text.Mathlib.Text.{◌==◌ as str_eq}
use text.Mathlib.TextEquality.{eq_iff}
use text.Mathlib.TextPositions.{len-append}
use mathlib.Core.List.{Memᴰ, map}
use mathlib.Core.List.Memᴰ
use route_rs.Common.{
  List, [], ◌∷◌, ◌++◌, Option, none, some, false, ◌≡◌, refl, ap, inl, inr, arith, Bool-cases,
}
use route_rs.Graphgen.Fed.{All, needs, declare, declare_branches, IsFed, AreFed, HasProcessor}
use route_rs.Graphgen.Links.{
  Feeder, Link, output, sync, classify, join, join_id, expand_join_link, feeder,
}
use route_rs.Graphgen.Ordered.{IsEntered, entered}
use route_rs.Graphgen.PipelineGraph.{EdgeData}
use route_rs.Graphgen.Syn.{Pat}

-- Every egressor of one list is in the other.
abbrev pub Includes : List Feeder → List Feeder → Type 0
Includes declared more = (f : Feeder) → Memᴰ f declared → Memᴰ f more

pub Includes-cons :
    (declared more : List Feeder) (own : Feeder)
    → Includes declared more
    → Includes (own ∷ declared) (own ∷ more)
Includes-cons declared more own inc f m = elim (Memᴰ.cases_cons m) [
  | inl e ↦ Memᴰ.head e
  | inr m' ↦ Memᴰ.tail (inc f m')
]

Includes-branches :
    (id : String) (branches : List String) (declared more : List Feeder)
    → Includes declared more
    → Includes (declare_branches id branches declared) (declare_branches id branches more)
Includes-branches id [] declared more inc = inc
Includes-branches id (b ∷ branches) declared more inc =
    Includes-branches id branches ((id, some b) ∷ declared) ((id, some b) ∷ more)
      (Includes-cons declared more (id, some b) inc)

-- The name of a join is not that of its node.
join_id-ne : (id : String) → str_eq id (join_id id) ≡ false
join_id-ne id = elim (Bool-cases (str_eq id (join_id id))) [
  | inl same ↦
      absurd (omega (arith, len-append "join_" id, ap len ((eq_iff id (join_id id)).0 same)))
  | inr other ↦ other
]

-- the egressors behind links
abbrev pub declare_all : List (String × Link) → List Feeder → List Feeder
declare_all [] declared = declared
declare_all (l ∷ links) declared = declare_all links (declare l declared)

declare_all-append :
    (xs ys : List (String × Link)) (declared : List Feeder)
    → declare_all (xs ++ ys) declared ≡ declare_all ys (declare_all xs declared)
declare_all-append [] ys declared = refl
declare_all-append (l ∷ xs) ys declared = declare_all-append xs ys (declare l declared)

pub AreFed-append :
    (parse_pat : String → Option Pat) (processors : List String) (xs ys : List (String × Link))
    (declared : List Feeder)
    → AreFed parse_pat processors declared xs
    → AreFed parse_pat processors (declare_all xs declared) ys
    → AreFed parse_pat processors declared (xs ++ ys)
AreFed-append parse_pat processors [] ys declared h k = k
AreFed-append parse_pat processors (l ∷ xs) ys declared h k =
    (h.0, AreFed-append parse_pat processors xs ys (declare l declared) h.1 k)

-- what a node is made into: the source's `link_builder`
pub data Shape : Type 0 where
  to_output to_sync : Shape
  to_classify : List String → Shape

abbrev pub build : Shape → String → String → Option String → Link
build to_output id xni label = output (xni, label)
build to_sync id xni label = sync (xni, label) id
build (to_classify branches) id xni label = classify (xni, label) id branches

abbrev pub own : Shape → String → List Feeder → List Feeder
own to_output id declared = declared
own to_sync id declared = (id, none) ∷ declared
own (to_classify branches) id declared = declare_branches id branches declared

-- the links of a node that no edge or several edges enter
abbrev through_join : List EdgeData → String → Shape → List (String × Link)
through_join feeders id shape =
    (join_id id, join (map feeder feeders)) ∷ (id, build shape id (join_id id) none) ∷ []

-- the links of a node with these feeders
abbrev pub expansion : List EdgeData → String → Shape → List (String × Link)
expansion (f ∷ []) id shape = (id, build shape id f.source f.label) ∷ []
expansion feeders id shape = through_join feeders id shape

pub expand_join_link_lem :
    (feeders : List EdgeData) (links : List (String × Link)) (id : String) (shape : Shape)
    → expand_join_link feeders links id (build shape id) ≡ links ++ expansion feeders id shape
unfolding expand_join_link
expand_join_link_lem [] links id shape = refl
expand_join_link_lem (f ∷ []) links id shape = refl
expand_join_link_lem (f ∷ g ∷ feeders) links id shape = refl

declare-build :
    (shape : Shape) (id xni : String) (label : Option String) (declared : List Feeder)
    → declare (id, build shape id xni label) declared ≡ own shape id declared
declare-build to_output id xni label declared = refl
declare-build to_sync id xni label declared = refl
declare-build (to_classify branches) id xni label declared = refl

needs-build :
    (shape : Shape) (id xni : String) (label : Option String)
    → needs (build shape id xni label) ≡ (xni, label) ∷ []
needs-build to_output id xni label = refl
needs-build to_sync id xni label = refl
needs-build (to_classify branches) id xni label = refl

Includes-own :
    (shape : Shape) (id : String) (declared more : List Feeder)
    → Includes declared more
    → Includes (own shape id declared) (own shape id more)
Includes-own to_output id declared more inc = inc
Includes-own to_sync id declared more inc = Includes-cons declared more (id, none) inc
Includes-own (to_classify branches) id declared more inc =
    Includes-branches id branches declared more inc

through_join-Includes :
    (feeders : List EdgeData) (id : String) (shape : Shape) (declared more : List Feeder)
    → Includes declared more
    → Includes (own shape id declared) (declare_all (through_join feeders id shape) more)
through_join-Includes feeders id shape declared more inc =
    rw (declare-build shape id (join_id id) none ((join_id id, none) ∷ more))
      (Includes-own shape id declared ((join_id id, none) ∷ more) (λ f m. Memᴰ.tail (inc f m)))

-- Behind the links of a node its egressors exist.
pub expansion-Includes :
    (feeders : List EdgeData) (id : String) (shape : Shape) (declared more : List Feeder)
    → Includes declared more
    → Includes (own shape id declared) (declare_all (expansion feeders id shape) more)
expansion-Includes [] id shape declared more inc =
    through_join-Includes [] id shape declared more inc
expansion-Includes (e ∷ []) id shape declared more inc =
    rw (declare-build shape id e.source e.label more) (Includes-own shape id declared more inc)
expansion-Includes (e ∷ g ∷ feeders) id shape declared more inc =
    through_join-Includes (e ∷ g ∷ feeders) id shape declared more inc

module _ (parse_pat : String → Option Pat) where
  -- The processor of the shape is among `processors`, and its labels are patterns.
  abbrev pub IsKnown : List String → Shape → String → Type 0
  IsKnown processors to_output id = Unit {0}
  IsKnown processors to_sync id = Memᴰ id processors
  IsKnown processors (to_classify branches) id =
      Memᴰ id processors × All (λ b. (pat : Pat) × (parse_pat b ≡ some pat)) branches

  HasProcessor-build :
      (processors : List String) (shape : Shape) (id xni : String) (label : Option String)
      → IsKnown processors shape id
      → HasProcessor parse_pat processors (build shape id xni label)
  HasProcessor-build processors to_output id xni label h = tt
  HasProcessor-build processors to_sync id xni label h = h
  HasProcessor-build processors (to_classify branches) id xni label h = h

  -- A link is fed where its one feeder exists and is of another node.
  build-IsFed :
      (processors : List String) (shape : Shape) (id xni : String) (label : Option String)
      (declared : List Feeder)
      → IsKnown processors shape id
      → Memᴰ (xni, label) declared
      → str_eq id xni ≡ false
      → IsFed parse_pat processors declared (id, build shape id xni label)
  build-IsFed processors shape id xni label declared known m other = (
    rw (needs-build shape id xni label) ((m, other), tt),
    HasProcessor-build processors shape id xni label known,
  )

  join-IsFed :
      (feeders : List EdgeData) (id : String) (declared more : List Feeder)
      → All (IsEntered id declared) feeders
      → Includes declared more
      → All (λ (f : Feeder). Memᴰ f more × (str_eq (join_id id) f.0 ≡ false)) (map feeder feeders)
  join-IsFed [] id declared more h inc = tt
  join-IsFed (e ∷ feeders) id declared more (entered m other other_join, h) inc =
      ((inc (feeder e) m, other_join), join-IsFed feeders id declared more h inc)

  through_join-AreFed :
      (processors : List String) (feeders : List EdgeData) (id : String) (shape : Shape)
      (declared more : List Feeder)
      → IsKnown processors shape id
      → All (IsEntered id declared) feeders
      → Includes declared more
      → AreFed parse_pat processors more (through_join feeders id shape)
  through_join-AreFed processors feeders id shape declared more known h inc = (
    (join-IsFed feeders id declared more h inc, tt),
    (
      build-IsFed processors shape id (join_id id) none ((join_id id, none) ∷ more) known
          (Memᴰ.head refl) (join_id-ne id),
      tt,
    ),
  )

  -- The links of a node whose edges are entered are fed.
  pub expansion-AreFed :
      (processors : List String) (feeders : List EdgeData) (id : String) (shape : Shape)
      (declared more : List Feeder)
      → IsKnown processors shape id
      → All (IsEntered id declared) feeders
      → Includes declared more
      → AreFed parse_pat processors more (expansion feeders id shape)
  expansion-AreFed processors [] id shape declared more known h inc =
      through_join-AreFed processors [] id shape declared more known h inc
  expansion-AreFed processors (e ∷ []) id shape declared more known (entered m other other_join, h)
        inc =
      (build-IsFed processors shape id e.source e.label more known (inc (feeder e) m) other, tt)
  expansion-AreFed processors (e ∷ g ∷ feeders) id shape declared more known h inc =
      through_join-AreFed processors (e ∷ g ∷ feeders) id shape declared more known h inc
