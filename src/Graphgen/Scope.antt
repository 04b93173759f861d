-- ===== src/Graphgen/Scope.antt =====
-- The scope of the names in the trees of route-rs-graphgen/src/codegen.rs: a path of one segment is the
-- name of a variable, which a `let`, a parameter or a pattern before it has to bind.
pub mod Build
pub mod Known
pub mod Steps
pub mod Run
use Prim.Native.String.{String}
use mathlib.Core.List.{Memᴰ}
use mathlib.Core.List.Memᴰ
use route_rs.Common.{List, [], ◌∷◌, ◌++◌, ◌≡◌, refl}
use route_rs.Graphgen.Syn.{
  SynPath, no_segments, segment_then, Pat, ident_pat, type_pat, tuple_pat, other_pat, Pats, no_pats,
  pat_then, Expr, path_expr, call_expr, method_call_expr, reference_expr, lit_int_expr, field_expr,
  macro_expr, closure_expr, async_expr, match_expr, for_loop_expr, Exprs, no_exprs, expr_then, Arms,
  no_arms, arm_then, Stmt, local_stmt, expr_stmt, semi_stmt, Stmts, no_stmts, stmt_then, exprs,
  stmts,
}

-- the names that a pattern binds, in front of those of `scope`
unfoldable mutual
  pub bind_pat : Pat → List String → List String
  bind_pat (ident_pat m x) scope = x ∷ scope
  bind_pat (type_pat p t) scope = bind_pat p scope
  bind_pat (tuple_pat ps) scope = bind_pats ps scope
  bind_pat (other_pat t) scope = scope

  pub bind_pats : Pats → List String → List String
  bind_pats no_pats scope = scope
  bind_pats (pat_then p ps) scope = bind_pats ps (bind_pat p scope)

-- A path of one segment is in scope.
abbrev pub IsBound : List String → SynPath → Type 0
IsBound scope no_segments = Unit {0}
IsBound scope (segment_then x args no_segments) = Memᴰ x scope
IsBound scope (segment_then x args _) = Unit {0}

-- Every variable of a tree is in scope where it stands.
unfoldable mutual
  pub IsScopedExpr : List String → Expr → Type 0
  IsScopedExpr scope (path_expr p) = IsBound scope p
  IsScopedExpr scope (call_expr f args) = IsScopedExpr scope f × AreScoped scope args
  IsScopedExpr scope (method_call_expr e method args) = IsScopedExpr scope e × AreScoped scope args
  IsScopedExpr scope (reference_expr m e) = IsScopedExpr scope e
  IsScopedExpr scope (lit_int_expr n) = Unit {0}
  IsScopedExpr scope (field_expr e x) = IsScopedExpr scope e
  IsScopedExpr scope (macro_expr p d args) = AreScoped scope args
  IsScopedExpr scope (closure_expr a s m ps r body) = IsScopedBody (bind_pats ps scope) body
  IsScopedExpr scope (async_expr body) = IsScopedBody scope body
  IsScopedExpr scope (match_expr e more) = IsScopedExpr scope e × AreScopedArms scope more
  IsScopedExpr scope (for_loop_expr p e body) =
      IsScopedExpr scope e × IsScopedBody (bind_pat p scope) body

  pub AreScoped : List String → Exprs → Type 0
  AreScoped scope no_exprs = Unit {0}
  AreScoped scope (expr_then e es) = IsScopedExpr scope e × AreScoped scope es

  pub AreScopedArms : List String → Arms → Type 0
  AreScopedArms scope no_arms = Unit {0}
  AreScopedArms scope (arm_then p e more) =
      IsScopedExpr (bind_pat p scope) e × AreScopedArms scope more

  pub IsScopedBody : List String → Stmts → Type 0
  IsScopedBody scope no_stmts = Unit {0}
  IsScopedBody scope (stmt_then (local_stmt p e) ss) =
      IsScopedExpr scope e × IsScopedBody (bind_pat p scope) ss
  IsScopedBody scope (stmt_then (expr_stmt e) ss) = IsScopedExpr scope e × IsScopedBody scope ss
  IsScopedBody scope (stmt_then (semi_stmt e) ss) = IsScopedExpr scope e × IsScopedBody scope ss

abbrev pub after_stmt : List String → Stmt → List String
after_stmt scope (local_stmt p e) = bind_pat p scope
after_stmt scope (expr_stmt e) = scope
after_stmt scope (semi_stmt e) = scope

-- the scope behind statements
unfoldable pub after : List String → List Stmt → List String
after scope [] = scope
after scope (s ∷ ss) = after (after_stmt scope s) ss

-- Every name of one scope is in the other.
abbrev pub Extends : List String → List String → Type 0
Extends scope wider = (x : String) → Memᴰ x scope → Memᴰ x wider

mutual
  unfolding bind_pat

  pub bind_pat-Extends : (p : Pat) (scope : List String) → Extends scope (bind_pat p scope)
  bind_pat-Extends (ident_pat m y) scope x h = Memᴰ.tail h
  bind_pat-Extends (type_pat p t) scope x h = bind_pat-Extends p scope x h
  bind_pat-Extends (tuple_pat ps) scope x h = bind_pats-Extends ps scope x h
  bind_pat-Extends (other_pat t) scope x h = h

  pub bind_pats-Extends : (ps : Pats) (scope : List String) → Extends scope (bind_pats ps scope)
  bind_pats-Extends no_pats scope x h = h
  bind_pats-Extends (pat_then p ps) scope x h =
      bind_pats-Extends ps (bind_pat p scope) x (bind_pat-Extends p scope x h)

pub after-Extends : (ss : List Stmt) (scope : List String) → Extends scope (after scope ss)
unfolding after
after-Extends [] scope x h = h
after-Extends (local_stmt p e ∷ ss) scope x h =
    after-Extends ss (bind_pat p scope) x (bind_pat-Extends p scope x h)
after-Extends (expr_stmt e ∷ ss) scope x h = after-Extends ss scope x h
after-Extends (semi_stmt e ∷ ss) scope x h = after-Extends ss scope x h

-- Statements after each other.
pub IsScopedBody-append :
    (xs ys : List Stmt) (scope : List String)
    → IsScopedBody scope (stmts xs)
    → IsScopedBody (after scope xs) (stmts ys)
    → IsScopedBody scope (stmts (xs ++ ys))
unfolding after IsScopedExpr
IsScopedBody-append [] ys scope h k = k
IsScopedBody-append (local_stmt p e ∷ xs) ys scope h k =
    (h.0, IsScopedBody-append xs ys (bind_pat p scope) h.1 k)
IsScopedBody-append (expr_stmt e ∷ xs) ys scope h k = (h.0, IsScopedBody-append xs ys scope h.1 k)
IsScopedBody-append (semi_stmt e ∷ xs) ys scope h k = (h.0, IsScopedBody-append xs ys scope h.1 k)

pub after-append :
    (xs ys : List Stmt) (scope : List String) → after scope (xs ++ ys) ≡ after (after scope xs) ys
unfolding after
after-append [] ys scope = refl
after-append (s ∷ xs) ys scope = after-append xs ys (after_stmt scope s)
