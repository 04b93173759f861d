-- ===== src/Graphgen/Ordered/Body.antt =====
-- `gen_run_body` of main.rs on nodes in an order of their graph.
use Prim.Native.String.{String}
use mathlib.Core.List.{Memᴰ}
use text.Mathlib.Text.{◌==◌ as str_eq}
use route_rs.Common.{
  List, [], ◌∷◌, ◌++◌, Option, Bool, ◌≡◌, ◌≢◌, refl, subst, ok, ok_inj, inl, inr, Bool-cases,
}
use route_rs.Graphgen.Links.{Plan, add_kind, add_node, add_nodes, outlets_of}
use route_rs.Graphgen.Members.{bind_ok}
use route_rs.Graphgen.Fed.{All}
use route_rs.Graphgen.Ordered.{IsOrdered}
use route_rs.Graphgen.Ordered.Plan.{IsOrdered-Plans}
use route_rs.Graphgen.PipelineGraph.{NodeData, EdgeData, NodeKind, classifier, processor, io}
use route_rs.Graphgen.Scope.{IsScopedBody}
use route_rs.Graphgen.Scope.Run.{IsNamed, declare_processors, run_parameters, gen_run_body_scoped}
use route_rs.Graphgen.Source.{gen_run_body}
use route_rs.Graphgen.Syn.{Pat, Stmt, stmts}

declare_processors_keep :
    (ps : List NodeData) (known : List String) (p : String)
    → Memᴰ p known
    → Memᴰ p (declare_processors ps known)
declare_processors_keep [] known p m = m
declare_processors_keep (e ∷ ps) known p m =
    declare_processors_keep ps (e.xml_node_id ∷ known) p (Memᴰ.tail m)

declare_processors-All :
    (ps : List NodeData) (known : List String)
    → All (λ (n : NodeData). Memᴰ n.xml_node_id (declare_processors ps known)) ps
declare_processors-All [] known = tt
declare_processors-All (e ∷ ps) known = (
  declare_processors_keep ps (e.xml_node_id ∷ known) e.xml_node_id (Memᴰ.head refl),
  declare_processors-All ps (e.xml_node_id ∷ known),
)

All-snoc {ℓ κ} :
    {A : Type ℓ} (P : A → Type κ) (xs : List A) (x : A) → All P xs → P x → All P (xs ++ x ∷ [])
All-snoc P [] x h p = (p, tt)
All-snoc P (y ∷ xs) x (q, h) p = (q, All-snoc P xs x h p)

-- The processors that the loop adds are nodes of another kind than `io`.
module _ (edges : List EdgeData) (input_node output_node : NodeData) (P : NodeData → Type 0) where
  add_kind-All :
      (kind : NodeKind) (nd : NodeData) (plan more : Plan edges input_node output_node)
      → add_kind edges input_node output_node kind nd plan ≡ ok more
      → (kind ≢ io → P nd)
      → All P plan.0
      → All P more.0
  add_kind-All io nd (ps, ls) more e named h =
      elim (Bool-cases (str_eq nd.xml_node_id input_node.xml_node_id)) [
        | inl first ↦ subst (λ q. All P q.0) (ok_inj (rw first at e)) h
        | inr other ↦ elim (Bool-cases (str_eq nd.xml_node_id output_node.xml_node_id)) [
          | inl last ↦ subst (λ q. All P q.0) (ok_inj (rw (other, last) at e)) h
          | inr neither ↦ cc (rw (other, neither) at e)
        ]
      ]
  add_kind-All processor nd (ps, ls) more e named h =
      subst (λ q. All P q.0) (ok_inj e) (All-snoc P ps nd h (named (λ k. cc)))
  add_kind-All classifier nd (ps, ls) more e named h =
      let (outlets, labelled, e') = bind_ok (outlets_of edges nd) _ more e in
      subst (λ q. All P q.0) (ok_inj e') (All-snoc P ps nd h (named (λ k. cc)))

  add_nodes-All :
      (nodes : List NodeData) (plan more : Plan edges input_node output_node)
      → add_nodes edges input_node output_node nodes plan ≡ ok more
      → All (λ (n : NodeData). n.node_kind ≢ io → P n) nodes
      → All P plan.0
      → All P more.0
  unfolding add_nodes add_node
  add_nodes-All [] plan more e named h = subst (λ q. All P q.0) (ok_inj e) h
  add_nodes-All (nd ∷ nodes) plan more e (here, named) h =
      let (next, added, rest) = bind_ok (add_node edges input_node output_node nd plan) _ more e in
      add_nodes-All nodes next more rest named (add_kind-All nd.node_kind nd plan next added here h)

-- Nodes in an order of their graph give a body, with all names in scope.
pub gen_run_body_ok :
    (to_lowercase : String → String) (is_ident : String → Bool) (parse_pat : String → Option Pat)
    (nodes : List NodeData) (edges : List EdgeData) (input_node output_node : NodeData)
    → IsOrdered parse_pat edges input_node output_node [] nodes
    → All (λ (n : NodeData). n.node_kind ≢ io → IsNamed to_lowercase is_ident n) nodes
    → (body : List Stmt) × (gen_run_body to_lowercase is_ident parse_pat nodes edges input_node
          output_node
        ≡ ok body)
      × IsScopedBody run_parameters (stmts body)
gen_run_body_ok to_lowercase is_ident parse_pat nodes edges input_node output_node ordered named =
    let (ps, ls, e, fed) =
      IsOrdered-Plans parse_pat edges input_node output_node nodes [] [] ordered (λ f m. m) in
    gen_run_body_scoped to_lowercase is_ident parse_pat nodes edges input_node output_node ps ls
      (e [] []) (fed (declare_processors ps []) (declare_processors-All ps []))
      (add_nodes-All edges input_node output_node (IsNamed to_lowercase is_ident) nodes ([], [])
        (ps, ls) (e [] []) named tt)
