-- ===== src/Graphgen/Syn.antt =====
-- The trees of the package syn, as far as route-rs-graphgen/src/codegen.rs builds them: the nodes and the
-- fields that it sets, without the spans, the tokens and the fields that it always leaves empty.
-- An `Ident` is its text. A `Punctuated` or a `Vec` of nodes is a list type of its own.
use Prim.Native.String.{String}
use route_rs.Common.{Bool, List, [], ◌∷◌}

mutual
  -- `syn::Type`; `other_type` is the text of a type that only syn's parser makes
  pub data Ty : Type 0 where
    path_type : SynPath → Ty
    tuple_type : Tys → Ty
    other_type : String → Ty

  pub data Tys : Type 0 where
    no_tys : Tys
    ty_then : Ty → Tys → Tys

  -- `syn::Path`: its segments, each with its identifier and arguments
  pub data SynPath : Type 0 where
    no_segments : SynPath
    segment_then : String → PathArguments → SynPath → SynPath

  -- `syn::PathArguments`; every generic argument is a type
  pub data PathArguments : Type 0 where
    no_arguments : PathArguments
    angle_bracketed : Tys → PathArguments

mutual
  -- `syn::Pat`; `ident_pat` has its mutability, and `other_pat` is the text of a pattern that only syn's
  -- parser makes
  pub data Pat : Type 0 where
    ident_pat : Bool → String → Pat
    type_pat : Pat → Ty → Pat
    tuple_pat : Pats → Pat
    other_pat : String → Pat

  pub data Pats : Type 0 where
    no_pats : Pats
    pat_then : Pat → Pats → Pats

pub data MacroDelimiter : Type 0 where
  bracket paren : MacroDelimiter

-- `syn::ReturnType`
pub data ReturnType : Type 0 where
  default_return : ReturnType
  type_return : Ty → ReturnType

mutual
  -- `syn::Expr`. The flags of a closure are those of `async`, `static` and `move`, and its body is a
  -- block; the tokens of a macro are those of expressions with commas between them.
  pub data Expr : Type 0 where
    path_expr : SynPath → Expr
    call_expr : Expr → Exprs → Expr
    method_call_expr : Expr → String → Exprs → Expr
    reference_expr : Bool → Expr → Expr
    lit_int_expr : String → Expr
    field_expr : Expr → String → Expr
    macro_expr : SynPath → MacroDelimiter → Exprs → Expr
    closure_expr : Bool → Bool → Bool → Pats → ReturnType → Stmts → Expr
    async_expr : Stmts → Expr
    match_expr : Expr → Arms → Expr
    for_loop_expr : Pat → Expr → Stmts → Expr

  pub data Exprs : Type 0 where
    no_exprs : Exprs
    expr_then : Expr → Exprs → Exprs

  pub data Arms : Type 0 where
    no_arms : Arms
    arm_then : Pat → Expr → Arms → Arms

  -- `syn::Stmt`; a local has a pattern and its initial value
  pub data Stmt : Type 0 where
    local_stmt : Pat → Expr → Stmt
    expr_stmt : Expr → Stmt
    semi_stmt : Expr → Stmt

  pub data Stmts : Type 0 where
    no_stmts : Stmts
    stmt_then : Stmt → Stmts → Stmts

-- `syn::UseTree`
pub data UseTree : Type 0 where
  use_path_tree : String → UseTree → UseTree
  use_name_tree : String → UseTree
  use_glob_tree : UseTree

-- `syn::Item`: a function with its arguments, a type definition, or a `use`
pub data Item : Type 0 where
  fn_item : String → List (Pat × Ty) → Stmts → ReturnType → Item
  type_item : String → Ty → Item
  use_item : UseTree → Item

-- `Punctuated::from_iter`, and a `Vec` as the list of a node
abbrev pub tys : List Ty → Tys
tys [] = no_tys
tys (t ∷ ts) = ty_then t (tys ts)

abbrev pub pats : List Pat → Pats
pats [] = no_pats
pats (p ∷ ps) = pat_then p (pats ps)

abbrev pub exprs : List Expr → Exprs
exprs [] = no_exprs
exprs (e ∷ es) = expr_then e (exprs es)

abbrev pub arms : List (Pat × Expr) → Arms
arms [] = no_arms
arms ((p, e) ∷ more) = arm_then p e (arms more)

abbrev pub stmts : List Stmt → Stmts
stmts [] = no_stmts
stmts (s ∷ ss) = stmt_then s (stmts ss)
