-- ===== src/Graphgen/Generate/Drawing.antt =====
-- From a drawing to the body of the generated `run`.
use Prim.Native.String.{String}
use text.Mathlib.Text.{◌==◌ as str_eq}
use mathlib.Core.List.{Memᴰ, map}
use mathlib.Core.Option.{some_inj}
use route_rs.Common.{
  ℕ, zero, suc, ◌≡◌, refl, ap, sym, ◌∙◌, subst, List, [], ◌∷◌, Option, some, false, ok, inl, inr,
  length, ltb, Bool-cases, Option-cases, Bool, ok_inj, ◌≢◌,
}
use route_rs.Graphgen.Fed.{All}
use route_rs.Graphgen.Graph.{Petgraph, IsPetgraph, Arc, nth, collect, new, edges, ordered_nodes}
use route_rs.Graphgen.Graph.Lists.{collect_from, length-map}
use route_rs.Graphgen.Graph.Filled.{AreDistinct, HasEnds, IsLinked}
use route_rs.Graphgen.Graph.Marked.{marked, build_graph_marks}
use route_rs.Graphgen.Graph.Topological.{IsWired, ordered_nodes-IsOrdered}
use route_rs.Graphgen.Links.{filter, join_id}
use route_rs.Graphgen.Members.{bind_ok}
use route_rs.Graphgen.Ordered.Body.{gen_run_body_ok}
use route_rs.Graphgen.PipelineGraph.{NodeData, EdgeData, io, XmlEvent, nodes_edges_from_xml}
use route_rs.Graphgen.Scope.{IsScopedBody}
use route_rs.Graphgen.Scope.Run.{IsNamed, run_parameters}
use route_rs.Graphgen.Source.{gen_run_body}
use route_rs.Graphgen.Syn.{Pat, Stmt, stmts}

marked_id : (es : List EdgeData) (n : NodeData) → (marked es n).xml_node_id ≡ n.xml_node_id
marked_id es n =
    elim (Bool-cases
      (ltb 1 (length (filter (λ (e : EdgeData). str_eq e.source n.xml_node_id) es)))) [
        | inl many ↦ rw many refl
        | inr few ↦ rw few refl
      ]

nth-map :
    (h : NodeData → NodeData) (ns : List NodeData) (i : ℕ) (n : NodeData)
    → nth ns i ≡ some n
    → nth (map h ns) i ≡ some (h n)
nth-map h [] i n e = cc
nth-map h (x ∷ ns) zero n e = ap some (ap h (some_inj.0 e))
nth-map h (x ∷ ns) (suc i) n e = nth-map h ns i n e

nth-map_back :
    (h : NodeData → NodeData) (ns : List NodeData) (i : ℕ) (m : NodeData)
    → nth (map h ns) i ≡ some m
    → (n : NodeData) × (nth ns i ≡ some n) × (h n ≡ m)
nth-map_back h [] i m e = cc
nth-map_back h (x ∷ ns) zero m e = (x, refl, some_inj.0 e)
nth-map_back h (x ∷ ns) (suc i) m e = nth-map_back h ns i m e

AreDistinct-marked :
    (es : List EdgeData) (ns : List NodeData) → AreDistinct ns → AreDistinct (map (marked es) ns)
AreDistinct-marked es ns distinct i j n m at_i at_j e =
    let (n', here, same_n) = nth-map_back (marked es) ns i n at_i in
    let (m', there, same_m) = nth-map_back (marked es) ns j m at_j in
    distinct i j n' m' here there (
      sym (marked_id es n')
      ∙ ap (λ (x : NodeData). x.xml_node_id) same_n
      ∙ e
      ∙ ap (λ (x : NodeData). x.xml_node_id) (sym same_m)
      ∙ marked_id es m')

AreLinked-marked :
    (es : List EdgeData) (ns : List NodeData) (as' : List Arc)
    → All (IsLinked ns) as'
    → All (IsLinked (map (marked es) ns)) as'
AreLinked-marked es ns [] h = tt
AreLinked-marked es ns (a ∷ as') (((n, at, leaves), (m, there, enters)), h) = (
  (
    (marked es n, nth-map (marked es) ns a.tail n at, marked_id es n ∙ leaves),
    (marked es m, nth-map (marked es) ns a.head m there, marked_id es m ∙ enters),
  ),
  AreLinked-marked es ns as' h,
)

pub All-nth :
    (P : NodeData → Type 0) (ns : List NodeData) (i : ℕ) (n : NodeData)
    → All P ns
    → nth ns i ≡ some n
    → P n
All-nth P [] i n h e = cc
All-nth P (x ∷ ns) zero n h e = subst P (some_inj.0 e) h.0
All-nth P (x ∷ ns) (suc i) n h e = All-nth P ns i n h.1 e

-- What an index gives holds of all that is collected.
collect-All :
    (P : NodeData → Type 0) (weight : ℕ → Option NodeData) (is : List ℕ) (ns : List NodeData)
    → collect weight is ≡ ok ns
    → ((i : ℕ) (n : NodeData) → weight i ≡ some n → P n)
    → All P ns
unfolding collect
collect-All P weight [] ns e h = subst (All P) (ok_inj e) tt
collect-All P weight (i ∷ is) ns e h = elim (Option-cases (weight i)) [
  | inl nothing ↦ cc (rw nothing at e)
  | inr (n, at) ↦
      let (more, run, e') = bind_ok (collect weight is) (λ more. ok (n ∷ more)) ns (rw at at e) in
      subst (All P) (ok_inj e') (h i n at, collect-All P weight is more run h)
]

-- For a drawing whose nodes have ids of their own, whose edges leave and enter its nodes, where no
-- node has the id of another's join, where every node that is an IO node after the marking of the
-- classifiers is the input or the output, where `syn::Ident::new` takes the class of every other
-- node and each symbol made of it, and where an edge has a label exactly as its source needs (none
-- behind the input and behind a node that one edge leaves, a pattern behind a node that several
-- leave, and no edge behind the output): `PipelineGraph::new`, `ordered_nodes` and `edges`
-- succeed, `gen_run_body` succeeds on what they give, and every variable of the body that it
-- generates is bound before it is used, by a `let`, a parameter of `run` or a pattern. The package
-- petgraph behaves as documented.
pub drawing_body :
    (pg : Petgraph) (laws : IsPetgraph pg) (to_lowercase : String → String)
    (is_ident : String → Bool) (parse_pat : String → Option Pat) (xml_source : List XmlEvent)
    (ns : List NodeData) (es : List EdgeData) (input_node output_node : NodeData)
    → nodes_edges_from_xml xml_source ≡ ok (ns, es)
    → AreDistinct ns
    → All (HasEnds ns) es
    → ((e : EdgeData) → Memᴰ e es → str_eq (join_id e.target) e.source ≡ false)
    → All (IsWired parse_pat es input_node output_node) (map (marked es) ns)
    → All
        (λ (n : NodeData). n.node_kind ≢ io → IsNamed to_lowercase is_ident n)
        (map (marked es) ns)
    → (g : pg.Graph) × (ordered : List NodeData) × (body : List Stmt) × (new pg xml_source ≡ ok g)
      × (ordered_nodes pg g ≡ ok ordered)
      × (edges pg g ≡ ok es)
      × (gen_run_body to_lowercase is_ident parse_pat ordered es input_node output_node ≡ ok body)
      × IsScopedBody run_parameters (stmts body)
unfolding new
drawing_body pg laws to_lowercase is_ident parse_pat xml_source ns es input_node output_node read
      distinct ends apart wired named =
    let (g, built, ws, weights_are, linked) = build_graph_marks pg laws ns es distinct ends in
    let (ordered, visited, in_order) =
      ordered_nodes-IsOrdered parse_pat es input_node output_node pg laws g
        (rw ws (AreDistinct-marked es ns distinct))
        (rw ws (AreLinked-marked es ns (pg.arcs g) linked)) weights_are apart
        (λ i nd here.
          All-nth (IsWired parse_pat es input_node output_node) _ i nd wired (rw ws at here)) in
    let (body, generated, scoped) =
      gen_run_body_ok to_lowercase is_ident parse_pat ordered es input_node output_node in_order (
        collect-All (λ (n : NodeData). n.node_kind ≢ io → IsNamed to_lowercase is_ident n)
          (pg.node_weight g) (pg.topo g) ordered visited
          (λ i n at.
            All-nth (λ (n : NodeData). n.node_kind ≢ io → IsNamed to_lowercase is_ident n) _ i n
              named (rw ws at (sym (laws.node_weight_lem g i) ∙ at)))) in
    (g, ordered, body, rw read built, visited, edges_lem g weights_are, generated, scoped)
  where
    edges_lem : (g : pg.Graph) → map (λ (a : Arc). a.weight) (pg.arcs g) ≡ es → edges pg g ≡ ok es
    edges_lem g weights_are =
        rw
          (
            laws.edge_indices_lem g,
            sym (length-map (λ (a : Arc). a.weight) (pg.arcs g)),
            weights_are,
          )
          (collect_from (pg.edge_weight g) [] es
            (λ i. laws.edge_weight_lem g i ∙ ap (λ t. nth t i) weights_are))
