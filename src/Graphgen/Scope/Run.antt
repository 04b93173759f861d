-- ===== src/Graphgen/Scope/Run.antt =====
-- `gen_link_decls` and `gen_run_body` of main.rs: the whole body of the generated `run`.
use Prim.Native.String.{String}
use text.Mathlib.Text.{◌==◌ as str_eq}
use text.Mathlib.TextPositions.{eq_refl}
use mathlib.Core.List.{Memᴰ}
use mathlib.Core.List.Memᴰ
use route_rs.Common.{
  ℕ, suc, List, [], ◌∷◌, ◌++◌, Option, none, false, ◌≡◌, refl, ok, inl, inr, Bool-cases, Bool, true,
}
use route_rs.Graphgen.Codegen.{let_simple, call_function, magic_newline_stmt}
use route_rs.Graphgen.Fed.{All, declare, AreFed}
use route_rs.Graphgen.Links.{Feeder, Link, add_nodes}
use route_rs.Common.Maps.{insert}
use route_rs.Graphgen.PipelineGraph.{NodeData, EdgeData}
use route_rs.Graphgen.Scope.{
  bind_pat, IsScopedExpr, IsScopedBody, after, after-append, after-Extends, IsScopedBody-append,
  Extends,
}
use route_rs.Graphgen.Scope.Known.{Knows, KnowsProcessors, HasParts}
use route_rs.Graphgen.Scope.Steps.{link_decl-Declares}
use route_rs.Graphgen.Source.{
  LinkDecls, ProcessorDecls, new_path, link_decls, processor_decls, processor_symbol, gen_tokio_run,
  all_runnables_stmt, gen_run_body,
}
use route_rs.Graphgen.Syn.{Pat, Stmt, stmts}

KnowsProcessors-Extends :
    (scope wider : List String) (decls : ProcessorDecls) (processors : List String)
    → Extends scope wider
    → KnowsProcessors scope decls processors
    → KnowsProcessors wider decls processors
KnowsProcessors-Extends scope wider decls processors ext known p m =
    let (s, found, bound) = known p m in (s, found, ext s bound)

KnowsProcessors-insert :
    (scope : List String) (decls : ProcessorDecls) (processors : List String) (own s : String)
    → Memᴰ s scope
    → KnowsProcessors scope decls processors
    → KnowsProcessors scope (insert decls own s) (own ∷ processors)
KnowsProcessors-insert scope decls processors own s bound known p m =
    elim (Bool-cases (str_eq own p)) [
      | inl same ↦ (s, rw same refl, bound)
      | inr other ↦ elim (Memᴰ.cases_cons m) [
        | inl e ↦ cc (eq_refl own)
        | inr m' ↦ let (t, found, bound') = known p m' in (t, rw other found, bound')
      ]
    ]

HasParts-Extends :
    (scope wider : List String) → Extends scope wider → HasParts scope → HasParts wider
HasParts-Extends scope wider ext parts = record {
  runnables = ext "all_runnables" parts.runnables;
  input_channel = ext "input_channel" parts.input_channel;
  output_channel = ext "output_channel" parts.output_channel;
}

-- the nodes of processors in front of others, the last one first
abbrev pub declare_processors : List NodeData → List String → List String
declare_processors [] known = known
declare_processors (e ∷ processors) known = declare_processors processors (e.xml_node_id ∷ known)

-- The class of the processor is an identifier, and so are the symbols made of it.
abbrev pub IsNamed : (String → String) → (String → Bool) → NodeData → Type 0
IsNamed to_lowercase is_ident n =
    (is_ident n.node_class ≡ true) × ((i : ℕ) → is_ident (processor_symbol to_lowercase i n) ≡ true)

module _ (to_lowercase : String → String) (is_ident : String → Bool) where
  -- The declarations of the processors are in scope, and declare a symbol for each of them.
  pub processor_decls_declare :
      (processors : List NodeData) (i : ℕ) (decls : ProcessorDecls) (known : List String)
      (scope : List String)
      → KnowsProcessors scope decls known
      → All (IsNamed to_lowercase is_ident) processors
      → (ss : List Stmt) × (new_decls : ProcessorDecls) × (processor_decls to_lowercase is_ident i
            decls processors
          ≡ ok (ss, new_decls))
        × IsScopedBody scope (stmts ss)
        × KnowsProcessors (after scope ss) new_decls (declare_processors processors known)
  unfolding processor_decls IsScopedExpr bind_pat after
  processor_decls_declare [] i decls known scope h named = ([], decls, refl, tt, h)
  processor_decls_declare (e ∷ processors) i decls known scope h ((class, symbols), named) =
      let symbol = processor_symbol to_lowercase i e in
      let (ss, new_decls, run, scoped, declared) =
        processor_decls_declare processors (suc i) (insert decls e.xml_node_id symbol)
          (e.xml_node_id ∷ known) (symbol ∷ scope)
          (KnowsProcessors-insert (symbol ∷ scope) decls known e.xml_node_id symbol (Memᴰ.head refl)
            (KnowsProcessors-Extends scope (symbol ∷ scope) decls known (λ x m. Memᴰ.tail m) h))
          named in
      let own = let_simple symbol none (call_function (new_path e.node_class) []) false in
      (own ∷ ss, new_decls, rw (symbols i, class, run) refl, ((tt, tt), scoped), declared)

module _ (to_lowercase : String → String) (parse_pat : String → Option Pat) where
  -- Links that are fed are declared without a panic, and in scope.
  pub link_decls_ok :
      (links : List (String × Link)) (i : ℕ) (decls : LinkDecls) (declared : List Feeder)
      (processor_map : ProcessorDecls) (processors scope : List String)
      → HasParts scope
      → KnowsProcessors scope processor_map processors
      → Knows scope decls declared
      → AreFed parse_pat processors declared links
      → (ss : List Stmt) × (link_decls to_lowercase parse_pat processor_map i decls links ≡ ok ss)
        × IsScopedBody scope (stmts ss)
  unfolding link_decls IsScopedExpr after
  link_decls_ok [] i decls declared processor_map processors scope parts has known fed =
      ([], refl, tt)
  link_decls_ok ((id, l) ∷ links) i decls declared processor_map processors scope parts has known
        fed =
      let (ss, new_decls, e, scoped, new_known) =
        link_decl-Declares parse_pat to_lowercase scope processor_map processors parts has (suc i)
          decls declared id known l fed.0 in
      let ext = after-Extends ss scope in
      let (more, h, more_scoped) =
        link_decls_ok links (suc i) new_decls (declare (id, l) declared) processor_map processors
          (after scope ss) (HasParts-Extends scope (after scope ss) ext parts)
          (KnowsProcessors-Extends scope (after scope ss) processor_map processors ext has)
          new_known fed.1 in
      (
        ss ++ magic_newline_stmt ∷ more,
        rw (e, h) refl,
        IsScopedBody-append ss (magic_newline_stmt ∷ more) scope scoped (tt, more_scoped),
      )

gen_tokio_run-IsScopedBody :
    (scope : List String) → Memᴰ "all_runnables" scope → IsScopedBody scope (stmts gen_tokio_run)
unfolding gen_tokio_run IsScopedExpr bind_pat
gen_tokio_run-IsScopedBody scope m = (
  (((((tt, tt), tt), tt), tt), tt),
  (
    (
      Memᴰ.head refl,
      (
        ((((Memᴰ.tail m, tt), (tt, tt)), tt), ((Memᴰ.head refl, ((Memᴰ.head refl, tt), tt)), tt)),
        tt,
      ),
    ),
    tt,
  ),
)

-- the variables that the generated `run` is given
abbrev pub run_parameters : List String
run_parameters = "input_channel" ∷ "output_channel" ∷ []

-- Where the nodes make links that are fed, the body of `run` is generated, with all names in scope.
pub gen_run_body_scoped :
    (to_lowercase : String → String) (is_ident : String → Bool) (parse_pat : String → Option Pat)
    (nodes : List NodeData) (edges : List EdgeData) (input_node output_node : NodeData)
    (processors : List NodeData) (links : List (String × Link))
    → add_nodes edges input_node output_node nodes ([], []) ≡ ok (processors, links)
    → AreFed parse_pat (declare_processors processors []) [] links
    → All (IsNamed to_lowercase is_ident) processors
    → (body : List Stmt) × (gen_run_body to_lowercase is_ident parse_pat nodes edges input_node
          output_node
        ≡ ok body)
      × IsScopedBody run_parameters (stmts body)
unfolding gen_run_body IsScopedExpr bind_pat after
gen_run_body_scoped to_lowercase is_ident parse_pat nodes edges input_node output_node processors
      links e fed named =
    let scope = "all_runnables" ∷ run_parameters in
    let (decls, decls_map, generated, decls_scoped, declared) =
      processor_decls_declare to_lowercase is_ident processors 1 [] [] scope
        (λ p m. absurd (Memᴰ.not-nil m)) named in
    let ext = after-Extends decls scope in
    let inner = after scope decls in
    let (link_stmts, h, scoped) =
      link_decls_ok to_lowercase parse_pat links 0 [] [] decls_map
        (declare_processors processors []) inner
        (record {
          runnables = ext "all_runnables" (Memᴰ.head refl);
          input_channel = ext "input_channel" (Memᴰ.tail (Memᴰ.head refl));
          output_channel = ext "output_channel" (Memᴰ.tail (Memᴰ.tail (Memᴰ.head refl)));
        })
        declared (λ f m. absurd (Memᴰ.not-nil m)) fed in
    let front = decls ++ magic_newline_stmt ∷ [] in
    (
      all_runnables_stmt ∷ magic_newline_stmt ∷ (front ++ (link_stmts ++ gen_tokio_run)),
      rw (e, generated, h) refl,
      (
        tt,
        (
          tt,
          IsScopedBody-append front (link_stmts ++ gen_tokio_run) scope
              (IsScopedBody-append decls (magic_newline_stmt ∷ []) scope decls_scoped (tt, tt))
              (rw (after-append decls (magic_newline_stmt ∷ []) scope) (
                IsScopedBody-append link_stmts gen_tokio_run inner scoped (
                  gen_tokio_run-IsScopedBody (after inner link_stmts) (
                    after-Extends link_stmts inner "all_runnables"
                      (ext "all_runnables" (Memᴰ.head refl)))))),
        ),
      ),
    )
