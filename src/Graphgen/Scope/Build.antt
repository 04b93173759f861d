-- ===== src/Graphgen/Scope/Build.antt =====
-- The scope of what `builder` and `build_link` of codegen.rs build.
use Prim.Native.String.{String, ◌++◌ as append}
use mathlib.Core.List.{Memᴰ}
use route_rs.Common.{ℕ, zero, suc, ◌+◌, ◌<◌, List, [], ◌∷◌, refl, arith, subst, ap, lt→ltb}
use route_rs.Graphgen.Codegen.{
  build_link, set_all, egress_lets, egress_name, egressors_name, runnables_name,
}
use route_rs.Graphgen.Codegen.Text.{to_string}
use route_rs.Graphgen.Scope.{bind_pat, IsScopedExpr, AreScoped, IsScopedBody, after, after-Extends}
use route_rs.Graphgen.Syn.{Expr, method_call_expr, exprs, stmts}

-- The arguments of all setters are in scope.
abbrev pub AreScopedSetters : List String → List (String × List Expr) → Type 0
AreScopedSetters scope [] = Unit {0}
AreScopedSetters scope ((method, args) ∷ setters) =
    AreScoped scope (exprs args) × AreScopedSetters scope setters

set_all-IsScopedExpr :
    (scope : List String) (setters : List (String × List Expr)) (e : Expr)
    → IsScopedExpr scope e
    → AreScopedSetters scope setters
    → IsScopedExpr scope (set_all e setters)
unfolding IsScopedExpr
set_all-IsScopedExpr scope [] e h hs = h
set_all-IsScopedExpr scope ((method, args) ∷ setters) e h hs =
    set_all-IsScopedExpr scope setters (method_call_expr e method (exprs args)) (h, hs.0) hs.1

egress_lets-IsScopedBody :
    (index n left : ℕ) (scope : List String)
    → Memᴰ (append "egressors_" (to_string index)) scope
    → IsScopedBody scope (stmts (egress_lets index n left))
unfolding IsScopedExpr bind_pat
egress_lets-IsScopedBody index n zero scope h = tt
egress_lets-IsScopedBody index n (suc left) scope h =
    ((h, (tt, tt)), egress_lets-IsScopedBody index (suc n) left _ (Memᴰ.tail h))

egress_lets_bind :
    (index n left k : ℕ) (scope : List String)
    → k < left
    → Memᴰ (egress_name index (n + k)) (after scope (egress_lets index n left))
unfolding after bind_pat
egress_lets_bind index n zero k scope h = absurd (omega arith)
egress_lets_bind index n (suc left) zero scope h =
    after-Extends (egress_lets index (suc n) left) _ (egress_name index (n + 0))
      (Memᴰ.head (ap (egress_name index) (omega arith)))
egress_lets_bind index n (suc left) (suc k) scope h =
    subst (λ m. Memᴰ (egress_name index m) (after scope (egress_lets index n (suc left))))
      (omega arith)
      (egress_lets_bind index (suc n) left k (egress_name index n ∷ scope) (omega arith))

-- the scope behind the first statement of `build_link`
abbrev link_scope : ℕ → ℕ → List String → List String
link_scope index n scope = egressors_name index n ∷ runnables_name index ∷ scope

lets-IsScopedBody :
    (index n : ℕ) (scope : List String)
    → IsScopedBody (link_scope index n scope) (stmts (egress_lets index 0 n))
unfolding IsScopedExpr
lets-IsScopedBody index zero scope = tt
lets-IsScopedBody index (suc n) scope =
    egress_lets-IsScopedBody index 0 (suc n) (link_scope index (suc n) scope)
      (Memᴰ.head (rw (lt→ltb 0 (suc n) (omega arith)) refl))

module _ (index : ℕ) (link_type : String) (setters : List (String × List Expr)) (n : ℕ) where
  pub build_link-IsScopedBody :
      (scope : List String)
      → Memᴰ "all_runnables" scope
      → AreScopedSetters scope setters
      → IsScopedBody scope (stmts (build_link index link_type setters n))
  unfolding IsScopedExpr bind_pat build_link
  build_link-IsScopedBody scope run hs = (
    (set_all-IsScopedExpr scope setters _ (tt, tt) hs, tt),
    (
      (Memᴰ.tail (Memᴰ.tail run), (Memᴰ.tail (Memᴰ.head refl), tt)),
      lets-IsScopedBody index n scope,
    ),
  )

  -- `build_link` binds the name of each of its egressors.
  pub build_link_binds :
      (scope : List String) (k : ℕ)
      → k < n
      → Memᴰ (egress_name index k) (after scope (build_link index link_type setters n))
  unfolding after bind_pat build_link
  build_link_binds scope k h =
      subst (λ m. Memᴰ (egress_name index m) (after scope (build_link index link_type setters n)))
        (omega arith) (egress_lets_bind index 0 n k (link_scope index n scope) h)
