-- ===== src/Graphgen/Source.antt =====
-- route-rs-graphgen/src/main.rs: the statements of the generated router, from its processors and links.
use Prim.Native.String.{String, ◌++◌ as append}
use text.Mathlib.Text.{◌==◌ as str_eq}
use mathlib.Core.List.{map}
use route_rs.Common.{
  ℕ, suc, Bool, true, false, ◌&&◌, List, [], ◌∷◌, ◌++◌, Option, none, some, Outcome, ok, ◌>>=◌,
  some_or_panic, length,
}
use route_rs.Graphgen.Syn.{
  Pat, ident_pat, Expr, path_expr, default_return, Ty, Stmt, expr_stmt, path_type,
}
use route_rs.Graphgen.Codegen.{
  ident, let_simple, expr_path_ident, path, build_link, egress_name, vec, closure, for_loop,
  call_function, expr_field, call_chain, expr_async, expr_match, expr_lit_int, stmt_expr_semi,
  type_tuple, magic_newline_stmt,
}
use route_rs.Graphgen.Codegen.Text.{to_string}
use route_rs.Graphgen.Links.{Feeder, Link, input, output, sync, classify, join, add_nodes}
use route_rs.Common.Maps.{get, insert}
use route_rs.Graphgen.PipelineGraph.{NodeData, EdgeData}

abbrev label_eq : Option String → Option String → Bool
label_eq none none = true
label_eq (some a) (some b) = str_eq a b
label_eq _ _ = false

-- `==` of the keys of `link_decls_map`
abbrev pub feeder_eq : Feeder → Feeder → Bool
feeder_eq (a, l) (b, m) = str_eq a b && label_eq l m

-- the symbol of an egressor, by its feeder, and the symbol of a processor, by its node
abbrev pub LinkDecls : Type 0
LinkDecls = List (Feeder × String)

abbrev pub ProcessorDecls : Type 0
ProcessorDecls = List (String × String)

-- `Type::new()`
abbrev pub new_path : String → Expr
new_path name = path_expr (path ((name, none) ∷ ("new", none) ∷ []))

abbrev pub map_get_with_panic : LinkDecls → Feeder → Outcome String
map_get_with_panic link_decls key = some_or_panic (get feeder_eq link_decls key)

-- the loop over the feeders of a join
abbrev pub get_all : LinkDecls → List Feeder → Outcome (List String)
get_all link_decls [] = ok []
get_all link_decls (f ∷ feeders) = do
  symbol ← map_get_with_panic link_decls f
  more ← get_all link_decls feeders
  ok (symbol ∷ more)

-- the inserts of the branches of a classifier, from `branch_index` on
abbrev pub insert_branches : LinkDecls → String → ℕ → ℕ → List String → LinkDecls
insert_branches link_decls id decl_idx branch_index [] = link_decls
insert_branches link_decls id decl_idx branch_index (b ∷ branches) =
    insert_branches (insert link_decls (id, some b) (egress_name decl_idx branch_index)) id decl_idx
      (suc branch_index) branches

abbrev setter : String → Expr → String × List Expr
setter method arg = (method, arg ∷ [])

abbrev pub dispatcher : List (Pat × Expr) → Expr
dispatcher match_arms = call_function (new_path "Box") (
    closure false false false (ident_pat false "c" ∷ []) default_return
      (expr_stmt (expr_match (expr_path_ident "c") match_arms) ∷ [])
    ∷ [])

-- the setters of the links
abbrev pub Setters : Type 0
Setters = List (String × List Expr)

abbrev pub input_setters : Setters
input_setters = setter "channel" (expr_path_ident "input_channel") ∷ []

abbrev pub output_setters : String → Setters
output_setters symbol =
    setter "ingressor" (expr_path_ident symbol)
    ∷ setter "channel" (expr_path_ident "output_channel")
    ∷ []

abbrev pub sync_setters : String → String → Setters
sync_setters symbol processor_name =
    setter "ingressor" (expr_path_ident symbol)
    ∷ setter "processor" (expr_path_ident processor_name)
    ∷ []

abbrev pub classify_setters : String → String → List (Pat × Expr) → ℕ → Setters
classify_setters symbol processor_name match_arms num_egressors =
    setter "ingressor" (expr_path_ident symbol)
    ∷ setter "classifier" (expr_path_ident processor_name)
    ∷ setter "dispatcher" (dispatcher match_arms)
    ∷ setter "num_egressors" (expr_lit_int (to_string num_egressors))
    ∷ []

abbrev pub join_setters : List String → Setters
join_setters symbols = setter "ingressors" (vec (map expr_path_ident symbols)) ∷ []

abbrev pub processor_symbol : (String → String) → ℕ → NodeData → String
processor_symbol to_lowercase decl_idx e =
    append "elem_" (append (to_string decl_idx) (append "_" (to_lowercase e.node_class)))

-- `to_lowercase` is that of `str`; `is_ident` tells the texts that `syn::Ident::new` takes
module _ (to_lowercase : String → String) (is_ident : String → Bool) where
  -- `gen_processor_decls` from `decl_idx` on, with the map so far
  unfoldable pub processor_decls :
      ℕ → ProcessorDecls → List NodeData → Outcome (List Stmt × ProcessorDecls)
  processor_decls decl_idx decls_map [] = ok ([], decls_map)
  processor_decls decl_idx decls_map (e ∷ processors) = do
    let symbol = processor_symbol to_lowercase decl_idx e
    identifier ← ident is_ident symbol
    processor_type ← ident is_ident e.node_class
    (decls, done_map) ←
        processor_decls (suc decl_idx) (insert decls_map e.xml_node_id symbol) processors
    ok (
      let_simple identifier none (call_function (new_path processor_type) []) false ∷ decls,
      done_map,
    )

  abbrev pub gen_processor_decls : List NodeData → Outcome (List Stmt × ProcessorDecls)
  gen_processor_decls processors = processor_decls 1 [] processors

-- `parse_pat` is `syn::parse_str::<syn::Pat>`
module _ (to_lowercase : String → String) (parse_pat : String → Option Pat) where
  -- the arms of a dispatcher, from `branch_index` on
  abbrev pub match_branches : ℕ → List String → Outcome (List (Pat × Expr))
  match_branches branch_index [] = ok []
  match_branches branch_index (b ∷ branches) = do
    pat ← some_or_panic (parse_pat b)
    more ← match_branches (suc branch_index) branches
    ok ((pat, expr_lit_int (to_string branch_index)) ∷ more)

  -- one round of `gen_link_decls`: the statements of a link, and the map after it
  unfoldable pub link_decl :
      ProcessorDecls → ℕ → LinkDecls → String × Link → Outcome (List Stmt × LinkDecls)
  link_decl processor_map decl_idx decls_map (id, input) = ok (
    build_link decl_idx "InputChannelLink" input_setters 1,
    insert decls_map (id, none) (egress_name decl_idx 0),
  )
  link_decl processor_map decl_idx decls_map (id, output feeder) = do
    symbol ← map_get_with_panic decls_map feeder
    ok (build_link decl_idx "OutputChannelLink" (output_setters symbol) 0, decls_map)
  link_decl processor_map decl_idx decls_map (id, sync feeder processor) = do
    let new_map = insert decls_map (id, none) (egress_name decl_idx 0)
    symbol ← map_get_with_panic new_map feeder
    processor_name ← some_or_panic (get str_eq processor_map processor)
    ok (build_link decl_idx "ProcessLink" (sync_setters symbol processor_name) 1, new_map)
  link_decl processor_map decl_idx decls_map (id, classify feeder processor branches) = do
    let new_map = insert_branches decls_map id decl_idx 0 branches
    symbol ← map_get_with_panic new_map feeder
    processor_name ← some_or_panic (get str_eq processor_map processor)
    match_arms ← match_branches 0 branches
    ok (
      build_link decl_idx "ClassifyLink"
          (classify_setters symbol processor_name match_arms (length branches)) (length branches),
      new_map,
    )
  link_decl processor_map decl_idx decls_map (id, join feeders) = do
    let new_map = insert decls_map (id, none) (egress_name decl_idx 0)
    symbols ← get_all new_map feeders
    ok (build_link decl_idx "JoinLink" (join_setters symbols) 1, new_map)

  -- `gen_link_decls` after `decl_idx` links, with the map so far
  unfoldable pub link_decls :
      ProcessorDecls → ℕ → LinkDecls → List (String × Link) → Outcome (List Stmt)
  link_decls processor_map decl_idx decls_map [] = ok []
  link_decls processor_map decl_idx decls_map (l ∷ links) = do
    (decls, new_map) ← link_decl processor_map (suc decl_idx) decls_map l
    more ← link_decls processor_map (suc decl_idx) new_map links
    ok (decls ++ magic_newline_stmt ∷ more)

  abbrev pub gen_link_decls : List (String × Link) → ProcessorDecls → Outcome (List Stmt)
  gen_link_decls links processor_map = link_decls processor_map 0 [] links

abbrev plain : String → String × Option (List Ty)
plain name = (name, none)

abbrev type_of : List (String × Option (List Ty)) → Ty
type_of segments = path_type (path segments)

unfoldable pub gen_tokio_run : List Stmt
gen_tokio_run =
    let_simple "rt" none
      (call_chain
        (call_function (path_expr (path (plain "runtime" ∷ plain "Builder" ∷ plain "new" ∷ []))) [])
        (("threaded_scheduler", []) ∷ ("enable_all", []) ∷ ("build", []) ∷ ("unwrap", []) ∷ []))
      true
    ∷ stmt_expr_semi (
        call_function (expr_field (expr_path_ident "rt") "block_on") (
          expr_async (
            let_simple "handles"
              (some (
                type_of (
                  ("Vec", some (type_of (("JoinHandle", some (type_tuple [] ∷ [])) ∷ []) ∷ []))
                  ∷ [])))
              (call_chain (expr_path_ident "all_runnables") (
                ("into_iter", [])
                ∷ ("map", path_expr (path (plain "tokio" ∷ plain "spawn" ∷ [])) ∷ [])
                ∷ ("collect", [])
                ∷ []))
              false
            ∷ for_loop (ident_pat false "handle") (expr_path_ident "handles") (
                stmt_expr_semi (
                  call_function
                    (expr_field (expr_field (expr_path_ident "handle") "await") "unwrap") [])
                ∷ [])
            ∷ [])
          ∷ []))
    ∷ []

abbrev pub all_runnables_stmt : Stmt
all_runnables_stmt =
    let_simple "all_runnables"
      (some (type_of (("Vec", some (type_of (plain "TokioRunnable" ∷ []) ∷ [])) ∷ []))) (vec [])
      true

unfoldable pub gen_run_body :
    (String → String)
    → (String → Bool)
    → (String → Option Pat)
    → List NodeData
    → List EdgeData
    → NodeData
    → NodeData
    → Outcome (List Stmt)
gen_run_body to_lowercase is_ident parse_pat nodes edges input_node output_node = do
  (processors, links) ← add_nodes edges input_node output_node nodes ([], [])
  (processor_stmts, processor_map) ← gen_processor_decls to_lowercase is_ident processors
  link_stmts ← gen_link_decls to_lowercase parse_pat links processor_map
  ok (
      all_runnables_stmt
      ∷ magic_newline_stmt
      ∷ ((processor_stmts ++ magic_newline_stmt ∷ []) ++ (link_stmts ++ gen_tokio_run)))
