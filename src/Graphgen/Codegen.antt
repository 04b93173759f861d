-- ===== src/Graphgen/Codegen.antt =====
-- route-rs-graphgen/src/codegen.rs: the functions that build the trees of the generated source.
use Prim.Native.String.{String, ◌++◌ as append}
use mathlib.Core.List.{map, reverse}
use route_rs.Common.{
  ℕ, zero, suc, Bool, true, false, List, [], ◌∷◌, Option, none, some, ltb, if◌then◌else◌, Outcome,
  ok, panic,
}
use route_rs.Graphgen.Syn.{
  Ty, path_type, tuple_type, Tys, SynPath, no_segments, segment_then, PathArguments, no_arguments,
  angle_bracketed, Pat, ident_pat, type_pat, tuple_pat, bracket, paren, ReturnType, Expr, path_expr,
  call_expr, method_call_expr, reference_expr, lit_int_expr, field_expr, macro_expr, closure_expr,
  async_expr, match_expr, for_loop_expr, no_exprs, Stmt, local_stmt, expr_stmt, semi_stmt, UseTree,
  use_path_tree, use_glob_tree, Item, fn_item, type_item, use_item, tys, pats, exprs, arms, stmts,
}
pub mod Text
use route_rs.Graphgen.Codegen.Text.{to_string, lines, join, is_empty}

-- `indent`
pub indent : String → String → String
indent indentation text =
    join "\n" (map (λ l. if is_empty l then l else append indentation l) (lines text))

pub comment : String → String
comment text = join "\n" (map (λ l. append "// " l) (lines text))

abbrev pub use_path : String → UseTree → UseTree
use_path name cont = use_path_tree name cont

abbrev pub use_glob : UseTree
use_glob = use_glob_tree

-- `print` is `to_token_stream().to_string()` of the packages quote and proc_macro2
pub import : (Item → String) → List UseTree → String
import print imports = join "\n" (map (λ i. print (use_item i)) imports)

pub impl_struct : String → String → String → String
impl_struct trait_name struct_name body =
    if is_empty trait_name
    then append "impl " (append struct_name (append " {\n" (append (indent "    " body) "\n}")))
    else append "impl " (
        append trait_name
          (append " for " (append struct_name (append " {\n" (append (indent "    " body) "\n}")))))

pub typedef : (Item → String) → List (String × Ty) → String
typedef print types = join "\n" (map (λ (t : String × Ty). print (type_item t.0 t.1)) types)

abbrev annotated : Option Ty → Pat → Pat
annotated none id = id
annotated (some ty) id = type_pat id ty

-- `syn::Ident::new` panics on a text that is no identifier; `is_ident` is its test.
abbrev pub ident : (String → Bool) → String → Outcome String
ident is_ident name = if is_ident name then ok name else panic

abbrev pub let_simple : String → Option Ty → Expr → Bool → Stmt
let_simple identifier type_annotation expression mutable =
    local_stmt (annotated type_annotation (ident_pat mutable identifier)) expression

abbrev path_arguments : Option (List Ty) → PathArguments
path_arguments none = no_arguments
path_arguments (some generic_args) = angle_bracketed (tys generic_args)

abbrev pub path : List (String × Option (List Ty)) → SynPath
path [] = no_segments
path ((id, args) ∷ segments) = segment_then id (path_arguments args) (path segments)

abbrev pub expr_path_ident : String → Expr
expr_path_ident id = path_expr (path ((id, none) ∷ []))

-- the loop of `builder` over its setters
abbrev pub set_all : Expr → List (String × List Expr) → Expr
set_all expr_accum [] = expr_accum
set_all expr_accum ((method, args) ∷ setters) =
    set_all (method_call_expr expr_accum method (exprs args)) setters

abbrev pub builder : String → List (String × List Expr) → Expr
builder base setters =
    method_call_expr
      (set_all (call_expr (path_expr (path ((base, none) ∷ ("new", none) ∷ []))) no_exprs) setters)
      "build_link" no_exprs

-- the names that `format!` makes
abbrev pub runnables_name : ℕ → String
runnables_name index = append "runnables_" (to_string index)

abbrev pub egressors_name : ℕ → ℕ → String
egressors_name index num_egressors =
    if ltb 0 num_egressors
    then append "egressors_" (to_string index)
    else append "_egressors_" (to_string index)

abbrev pub egress_name : ℕ → ℕ → String
egress_name index n = append "link_" (append (to_string index) (append "_egress_" (to_string n)))

-- the loop of `build_link` from `n` on, with `left` rounds
abbrev pub egress_lets : ℕ → ℕ → ℕ → List Stmt
egress_lets index n zero = []
egress_lets index n (suc left) =
    let_simple (egress_name index n) none
      (method_call_expr (path_expr (path ((append "egressors_" (to_string index), none) ∷ [])))
        "remove" (exprs (lit_int_expr "0" ∷ [])))
      false
    ∷ egress_lets index (suc n) left

unfoldable pub build_link : ℕ → String → List (String × List Expr) → ℕ → List Stmt
build_link index link_type setters num_egressors =
    local_stmt
      (tuple_pat (
        pats (
          ident_pat true (runnables_name index)
          ∷ ident_pat true (egressors_name index num_egressors)
          ∷ [])))
      (builder link_type setters)
    ∷ semi_stmt (
        method_call_expr (path_expr (path (("all_runnables", none) ∷ []))) "append"
          (exprs (reference_expr true (path_expr (path ((runnables_name index, none) ∷ []))) ∷ [])))
    ∷ egress_lets index 0 num_egressors

abbrev pub vec : List Expr → Expr
vec es = macro_expr (path (("vec", none) ∷ [])) bracket (exprs es)

abbrev pub closure : Bool → Bool → Bool → List Pat → ReturnType → List Stmt → Expr
closure is_async is_static is_move inputs return_type body =
    closure_expr is_async is_static is_move (pats inputs) return_type (stmts body)

abbrev pub for_loop : Pat → Expr → List Stmt → Stmt
for_loop item iterable body = expr_stmt (for_loop_expr item iterable (stmts body))

abbrev pub call_function : Expr → List Expr → Expr
call_function function args = call_expr function (exprs args)

abbrev pub expr_field : Expr → String → Expr
expr_field base field_name = field_expr base field_name

-- `call_chain` on the calls from the last to the first, as it pops them
abbrev call_chain_popping : Expr → List (String × List Expr) → Expr
call_chain_popping base [] = base
call_chain_popping base ((outer_function, outer_args) ∷ calls) =
    call_function (expr_field (call_chain_popping base calls) outer_function) outer_args

abbrev pub call_chain : Expr → List (String × List Expr) → Expr
call_chain base calls = call_chain_popping base (reverse calls)

abbrev typed_function_arg : String × Ty → Pat × Ty
typed_function_arg (name, typ) = (ident_pat false name, typ)

abbrev pub function_def : String → List (String × Ty) → List Stmt → ReturnType → Item
function_def name inputs body return_type =
    fn_item name (map typed_function_arg inputs) (stmts body) return_type

abbrev pub expr_async : List Stmt → Expr
expr_async body = async_expr (stmts body)

abbrev pub expr_match : Expr → List (Pat × Expr) → Expr
expr_match input match_arms = match_expr input (arms match_arms)

-- `number` is given as the text that its `to_string` makes
abbrev pub expr_lit_int : String → Expr
expr_lit_int number = lit_int_expr number

abbrev pub stmt_expr_semi : Expr → Stmt
stmt_expr_semi expr = semi_stmt expr

abbrev pub type_tuple : List Ty → Ty
type_tuple types = tuple_type (tys types)

abbrev pub magic_newline : Expr
magic_newline = macro_expr (path (("graphgen_magic_newline", none) ∷ [])) paren no_exprs

abbrev pub magic_newline_stmt : Stmt
magic_newline_stmt = semi_stmt magic_newline
