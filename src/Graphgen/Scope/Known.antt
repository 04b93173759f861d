-- ===== src/Graphgen/Scope/Known.antt =====
-- Which egressors and processors the tables of `gen_link_decls` know.
use Prim.Native.String.{String}
use text.Mathlib.Text.{◌==◌ as str_eq}
use text.Mathlib.TextPositions.{eq_refl}
use mathlib.Core.List.{Memᴰ, map}
use mathlib.Core.List.Memᴰ
use route_rs.Common.{
  ℕ, suc, ◌+◌, ◌<◌, List, [], ◌∷◌, Option, none, some, true, false, ◌≡◌, refl, arith, subst, ok,
  length, inl, inr, Bool-cases, ◌∙◌,
}
use route_rs.Graphgen.Codegen.{egress_name, expr_path_ident}
use route_rs.Graphgen.Fed.{All, declare_branches}
use route_rs.Graphgen.Links.{Feeder}
use route_rs.Common.Maps.{get, insert}
use route_rs.Graphgen.Scope.{IsScopedExpr, AreScoped, Extends}
use route_rs.Graphgen.Source.{feeder_eq, LinkDecls, ProcessorDecls, get_all, insert_branches}
use route_rs.Graphgen.Syn.{exprs}

-- Each declared egressor has a symbol that is in scope.
abbrev pub Knows : List String → LinkDecls → List Feeder → Type 0
Knows scope decls declared =
    (f : Feeder) → Memᴰ f declared → (s : String) × (get feeder_eq decls f ≡ some s) × Memᴰ s scope

abbrev pub KnowsProcessors : List String → ProcessorDecls → List String → Type 0
KnowsProcessors scope decls processors =
    (p : String) → Memᴰ p processors → (s : String) × (get str_eq decls p ≡ some s) × Memᴰ s scope

-- The names that every link uses are in scope.
pub record HasParts (scope : List String) : Type 0 where
  pub runnables : Memᴰ "all_runnables" scope
  pub input_channel : Memᴰ "input_channel" scope
  pub output_channel : Memᴰ "output_channel" scope

feeder_eq_self : (f : Feeder) → feeder_eq f f ≡ true
feeder_eq_self (a, none) = rw (eq_refl a) refl
feeder_eq_self (a, some l) = rw (eq_refl a, eq_refl l) refl

pub get-insert_other :
    (decls : LinkDecls) (id : String) (l : Option String) (s : String) (f : Feeder)
    → str_eq id f.0 ≡ false
    → get feeder_eq (insert decls (id, l) s) f ≡ get feeder_eq decls f
get-insert_other decls id l s f h = rw h refl

pub Knows-Extends :
    (scope wider : List String) (decls : LinkDecls) (declared : List Feeder)
    → Extends scope wider
    → Knows scope decls declared
    → Knows wider decls declared
Knows-Extends scope wider decls declared ext known f m =
    let (s, found, bound) = known f m in (s, found, ext s bound)

pub Knows-insert :
    (scope : List String) (decls : LinkDecls) (declared : List Feeder) (own : Feeder) (s : String)
    → Memᴰ s scope
    → Knows scope decls declared
    → Knows scope (insert decls own s) (own ∷ declared)
Knows-insert scope decls declared own s bound known f m = elim (Bool-cases (feeder_eq own f)) [
  | inl same ↦ (s, rw same refl, bound)
  | inr other ↦ elim (Memᴰ.cases_cons m) [
    | inl e ↦ cc (feeder_eq_self own)
    | inr m' ↦ let (t, found, bound') = known f m' in (t, rw other found, bound')
  ]
]

pub get-branches_other :
    (decls : LinkDecls) (id : String) (i k : ℕ) (branches : List String) (f : Feeder)
    → str_eq id f.0 ≡ false
    → get feeder_eq (insert_branches decls id i k branches) f ≡ get feeder_eq decls f
get-branches_other decls id i k [] f h = refl
get-branches_other decls id i k (b ∷ branches) f h =
    get-branches_other (insert decls (id, some b) (egress_name i k)) id i (suc k) branches f h
    ∙ get-insert_other decls id (some b) (egress_name i k) f h

pub Knows-branches :
    (scope : List String) (decls : LinkDecls) (declared : List Feeder) (id : String) (i k : ℕ)
    (branches : List String)
    → ((j : ℕ) → j < length branches → Memᴰ (egress_name i (k + j)) scope)
    → Knows scope decls declared
    → Knows scope (insert_branches decls id i k branches) (declare_branches id branches declared)
Knows-branches scope decls declared id i k [] bound known = known
Knows-branches scope decls declared id i k (b ∷ branches) bound known =
    Knows-branches scope (insert decls (id, some b) (egress_name i k)) ((id, some b) ∷ declared) id
      i (suc k) branches
      (λ j h. subst (λ m. Memᴰ (egress_name i m) scope) (omega arith) (bound (suc j) (omega arith)))
      (Knows-insert scope decls declared (id, some b) (egress_name i k)
        (subst (λ m. Memᴰ (egress_name i m) scope) (omega arith) (bound 0 (omega arith))) known)

-- The feeders of a join are found, with their symbols in scope.
pub get_all_ok :
    (scope : List String) (decls new_decls : LinkDecls) (declared feeders : List Feeder)
    (id : String)
    → ((f : Feeder) → str_eq id f.0 ≡ false → get feeder_eq new_decls f ≡ get feeder_eq decls f)
    → Knows scope decls declared
    → All (λ (f : Feeder). Memᴰ f declared × (str_eq id f.0 ≡ false)) feeders
    → (symbols : List String) × (get_all new_decls feeders ≡ ok symbols)
      × AreScoped scope (exprs (map expr_path_ident symbols))
unfolding IsScopedExpr
get_all_ok scope decls new_decls declared [] id same known fed = ([], refl, tt)
get_all_ok scope decls new_decls declared (f ∷ feeders) id same known ((m, other), fed) =
    let (s, found, bound) = known f m in
    let (symbols, all_found, scoped) =
      get_all_ok scope decls new_decls declared feeders id same known fed in
    (s ∷ symbols, rw (same f other, found, all_found) refl, (bound, scoped))
