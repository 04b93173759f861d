-- ===== src/Graphgen/Scope/Steps.antt =====
-- One round of `gen_link_decls` of main.rs on a link that is fed: no panic, and names in scope.
use Prim.Native.String.{String}
use mathlib.Core.List.{Memᴰ}
use route_rs.Common.{ℕ, suc, List, [], ◌∷◌, Option, none, some, ◌≡◌, refl, arith, subst, ok, length}
use route_rs.Graphgen.Codegen.{build_link, egress_name, expr_lit_int}
use route_rs.Graphgen.Codegen.Text.{to_string}
use route_rs.Graphgen.Fed.{All, declare, IsFed}
use route_rs.Graphgen.Links.{Feeder, Link, input, output, sync, classify, join}
use route_rs.Common.Maps.{insert}
use route_rs.Graphgen.Scope.{
  bind_pat, AreScopedArms, IsScopedExpr, IsScopedBody, after, after-Extends,
}
use route_rs.Graphgen.Scope.Build.{build_link-IsScopedBody, build_link_binds}
use route_rs.Graphgen.Source.{
  LinkDecls, ProcessorDecls, insert_branches, link_decl, match_branches, input_setters,
  output_setters, sync_setters, classify_setters, join_setters,
}
use route_rs.Graphgen.Syn.{Pat, Expr, Stmt, arms, stmts}
use route_rs.Graphgen.Scope.Known.{
  Knows, KnowsProcessors, HasParts, get-insert_other, Knows-Extends, Knows-insert,
  get-branches_other, Knows-branches, get_all_ok,
}

module _ (parse_pat : String → Option Pat) where
  match_branches_ok :
      (to_lowercase : String → String) (k : ℕ) (branches : List String)
      → All (λ b. (pat : Pat) × (parse_pat b ≡ some pat)) branches
      → (match_arms : List (Pat × Expr)) × (match_branches to_lowercase parse_pat k branches
          ≡ ok match_arms)
        × ((scope : List String) → AreScopedArms scope (arms match_arms))
  unfolding IsScopedExpr
  match_branches_ok to_lowercase k [] parsed = ([], refl, λ scope. tt)
  match_branches_ok to_lowercase k (b ∷ branches) ((pat, e), parsed) =
      let (match_arms, h, scoped) = match_branches_ok to_lowercase (suc k) branches parsed in
      ((pat, expr_lit_int (to_string k)) ∷ match_arms, rw (e, h) refl, λ scope. (tt, scoped scope))

  module _ (to_lowercase : String → String) (scope : List String) (processor_map : ProcessorDecls)
      (processors : List String) (parts : HasParts scope)
      (has_processors : KnowsProcessors scope processor_map processors) where
    -- What a round gives: statements in scope, and the symbols of all egressors so far.
    abbrev pub Declares : ℕ → LinkDecls → List Feeder → String × Link → Type 0
    Declares i decls declared l =
        (ss : List Stmt) × (new_decls : LinkDecls) × (link_decl to_lowercase parse_pat processor_map
            i decls l
          ≡ ok (ss, new_decls))
        × IsScopedBody scope (stmts ss)
        × Knows (after scope ss) new_decls (declare l declared)

    module _ (i : ℕ) (decls : LinkDecls) (declared : List Feeder) (id : String)
        (known : Knows scope decls declared) where
      -- The link that takes `id` as the node of its one egressor.
      one_egressor :
          (link_type : String) (setters : List (String × List Expr))
          → let ss = build_link i link_type setters 1 in
            Knows
              (after scope ss)
              (insert decls (id, none) (egress_name i 0))
              ((id, none) ∷ declared)
      one_egressor link_type setters =
          let ss = build_link i link_type setters 1 in
          Knows-insert (after scope ss) decls declared (id, none) (egress_name i 0)
            (build_link_binds i link_type setters 1 scope 0 (omega arith))
            (Knows-Extends scope (after scope ss) decls declared (after-Extends ss scope) known)

      Declares-input : Declares i decls declared (id, input)
      unfolding link_decl IsScopedExpr
      Declares-input = (
        _,
        _,
        refl,
        build_link-IsScopedBody i "InputChannelLink" _ 1 scope parts.runnables
            ((parts.input_channel, tt), tt),
        one_egressor "InputChannelLink" input_setters,
      )

      Declares-output :
          (f : Feeder)
          → IsFed parse_pat processors declared (id, output f)
          → Declares i decls declared (id, output f)
      unfolding link_decl IsScopedExpr
      Declares-output f fed =
          let (s, found, bound) = known f fed.0.0.0 in
          let ss = build_link i "OutputChannelLink" (output_setters s) 0 in
          (
            ss,
            decls,
            rw found refl,
            build_link-IsScopedBody i "OutputChannelLink" (output_setters s) 0 scope parts.runnables
                ((bound, tt), ((parts.output_channel, tt), tt)),
            Knows-Extends scope (after scope ss) decls declared (after-Extends ss scope) known,
          )

      Declares-sync :
          (f : Feeder) (p : String)
          → IsFed parse_pat processors declared (id, sync f p)
          → Declares i decls declared (id, sync f p)
      unfolding link_decl IsScopedExpr
      Declares-sync f p fed =
          let (s, found, bound) = known f fed.0.0.0 in
          let (t, has, there) = has_processors p fed.1 in
          let e = get-insert_other decls id none (egress_name i 0) f fed.0.0.1 in
          (
            build_link i "ProcessLink" (sync_setters s t) 1,
            insert decls (id, none) (egress_name i 0),
            rw (e, found, has) refl,
            build_link-IsScopedBody i "ProcessLink" (sync_setters s t) 1 scope parts.runnables
                ((bound, tt), ((there, tt), tt)),
            one_egressor "ProcessLink" (sync_setters s t),
          )

      Declares-join :
          (feeders : List Feeder)
          → IsFed parse_pat processors declared (id, join feeders)
          → Declares i decls declared (id, join feeders)
      unfolding link_decl IsScopedExpr
      Declares-join feeders fed =
          let (symbols, found, bound) =
            get_all_ok scope decls (insert decls (id, none) (egress_name i 0)) declared feeders id
              (get-insert_other decls id none (egress_name i 0)) known fed.0 in
          (
            build_link i "JoinLink" (join_setters symbols) 1,
            insert decls (id, none) (egress_name i 0),
            rw found refl,
            build_link-IsScopedBody i "JoinLink" (join_setters symbols) 1 scope parts.runnables
                ((bound, tt), tt),
            one_egressor "JoinLink" (join_setters symbols),
          )

      Declares-classify :
          (f : Feeder) (p : String) (branches : List String)
          → IsFed parse_pat processors declared (id, classify f p branches)
          → Declares i decls declared (id, classify f p branches)
      unfolding link_decl IsScopedExpr bind_pat
      Declares-classify f p branches fed =
          let (s, found, bound) = known f fed.0.0.0 in
          let (t, has, there) = has_processors p fed.1.0 in
          let e = get-branches_other decls id i 0 branches f fed.0.0.1 in
          let (match_arms, parsed, scoped) = match_branches_ok to_lowercase 0 branches fed.1.1 in
          let setters = classify_setters s t match_arms (length branches) in
          let ss = build_link i "ClassifyLink" setters (length branches) in
          (
            ss,
            insert_branches decls id i 0 branches,
            rw (e, found, has, parsed) refl,
            build_link-IsScopedBody i "ClassifyLink" setters (length branches) scope parts.runnables
                (
                  (bound, tt),
                  (
                    (there, tt),
                    (((tt, (((Memᴰ.head refl, scoped _), tt), tt)), tt), ((tt, tt), tt)),
                  ),
                ),
            Knows-branches (after scope ss) decls declared id i 0 branches
                (λ j h.
                  subst (λ m. Memᴰ (egress_name i m) (after scope ss)) (omega arith)
                    (build_link_binds i "ClassifyLink" setters (length branches) scope j h))
                (Knows-Extends scope (after scope ss) decls declared (after-Extends ss scope)
                  known),
          )

      pub link_decl-Declares :
          (l : Link)
          → IsFed parse_pat processors declared (id, l)
          → Declares i decls declared (id, l)
      link_decl-Declares input fed = Declares-input
      link_decl-Declares (output f) fed = Declares-output f fed
      link_decl-Declares (sync f p) fed = Declares-sync f p fed
      link_decl-Declares (classify f p branches) fed = Declares-classify f p branches fed
      link_decl-Declares (join feeders) fed = Declares-join feeders fed
