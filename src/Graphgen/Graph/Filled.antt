-- ===== src/Graphgen/Graph/Filled.antt =====
-- The loops of `PipelineGraph::new` that add the nodes and the edges.
use text.Mathlib.Text.{◌==◌ as str_eq}
use text.Mathlib.TextEquality.{eq_iff}
use text.Mathlib.TextPositions.{eq_refl}
use mathlib.Core.List.{map, append_assoc, append-nil}
use mathlib.Core.Option.{some_inj}
use route_rs.Common.{
  ℕ, ◌<◌, ◌≡◌, refl, ap, sym, ◌∙◌, subst, List, [], ◌∷◌, ◌++◌, some, ok, length, arith, inl, inr,
  Bool-cases,
}
use route_rs.Graphgen.Fed.{All}
use route_rs.Graphgen.Graph.{Petgraph, IsPetgraph, Arc, NodeMap, nth, insert_nodes, insert_edges}
use route_rs.Graphgen.Graph.Lists.{nth-append, nth_last, lt-nth, nth-snoc}
use route_rs.Common.Maps.{get, insert}
use route_rs.Graphgen.PipelineGraph.{NodeData, EdgeData}

-- No two nodes have the same id.
abbrev pub AreDistinct : List NodeData → Type 0
AreDistinct ws =
    (i j : ℕ) (n m : NodeData)
    → nth ws i ≡ some n
    → nth ws j ≡ some m
    → n.xml_node_id ≡ m.xml_node_id
    → i ≡ j

-- The edge leaves and enters a node of the list.
abbrev pub HasEnds : List NodeData → EdgeData → Type 0
HasEnds ws e =
    ((i : ℕ) × (n : NodeData) × (nth ws i ≡ some n) × (n.xml_node_id ≡ e.source))
    × ((j : ℕ) × (m : NodeData) × (nth ws j ≡ some m) × (m.xml_node_id ≡ e.target))

-- The indices of the edge are those of its source and its target.
abbrev pub IsLinked : List NodeData → Arc → Type 0
IsLinked ws a =
    ((n : NodeData) × (nth ws a.tail ≡ some n) × (n.xml_node_id ≡ a.weight.source))
    × ((m : NodeData) × (nth ws a.head ≡ some m) × (m.xml_node_id ≡ a.weight.target))

-- The map finds the index of each node.
abbrev IsIndexed : NodeMap → List NodeData → Type 0
IsIndexed node_map ws =
    (i : ℕ) (n : NodeData) → nth ws i ≡ some n → get str_eq node_map n.xml_node_id ≡ some i

module _ (pg : Petgraph) (laws : IsPetgraph pg) where
  open pg use {
    Graph, new_graph, add_node, extend_with_edge, node_indices, count_edges, weights, arcs,
  }

  IsIndexed-insert :
      (ws : List NodeData) (node_map : NodeMap) (n : NodeData) (nodes : List NodeData)
      → AreDistinct (ws ++ n ∷ nodes)
      → IsIndexed node_map ws
      → IsIndexed (insert node_map n.xml_node_id (length ws)) (ws ++ n ∷ [])
  IsIndexed-insert ws node_map n nodes distinct indexed i m h = elim (nth-snoc ws n i m h) [
    | inl old ↦ elim (Bool-cases (str_eq n.xml_node_id m.xml_node_id)) [
      | inl same ↦ absurd (
          omega (
            arith,
            distinct (length ws) i n m (nth_last ws nodes n) (nth-append ws (n ∷ nodes) i m old)
                ((eq_iff n.xml_node_id m.xml_node_id).0 same),
            lt-nth ws i m old,
          ))
      | inr other ↦ rw other (indexed i m old)
    ]
    | inr (e, last) ↦
        let same : n ≡ m = some_inj.0 last in
        rw (sym same) (rw (eq_refl n.xml_node_id) (ap some (sym e)))
  ]

  pub insert_nodes_lem :
      (nodes : List NodeData) (g : Graph) (node_map : NodeMap) (ws : List NodeData)
      → weights g ≡ ws
      → AreDistinct (ws ++ nodes)
      → IsIndexed node_map ws
      → let r = insert_nodes pg g node_map nodes in
        (weights r.0 ≡ ws ++ nodes) × (arcs r.0 ≡ arcs g) × IsIndexed r.1 (ws ++ nodes)
  unfolding insert_nodes
  insert_nodes_lem [] g node_map ws e distinct indexed =
      (e ∙ sym (append-nil ws), refl, rw (append-nil ws) indexed)
  insert_nodes_lem (n ∷ nodes) g node_map ws e distinct indexed =
      let (index, g') = add_node g n in
      let at : (add_node g n).0 ≡ length ws = laws.index-add_node g n ∙ ap length e in
      let e' : weights (add_node g n).1 ≡ ws ++ n ∷ [] =
        laws.weights-add_node g n ∙ ap (λ t. t ++ n ∷ []) e in
      let split = append_assoc ws (n ∷ []) nodes in
      let (all, same, found) =
        insert_nodes_lem nodes g' (insert node_map n.xml_node_id index) (ws ++ n ∷ []) e'
          (subst AreDistinct (sym split) distinct)
          (rw at (IsIndexed-insert ws node_map n nodes distinct indexed)) in
      (all ∙ split, same ∙ laws.arcs-add_node g n, subst (IsIndexed _) split found)

  pub insert_edges_lem :
      (edges : List EdgeData) (g : Graph) (node_map : NodeMap) (ws : List NodeData)
      → weights g ≡ ws
      → IsIndexed node_map ws
      → All (HasEnds ws) edges
      → (g' : Graph) × (as' : List Arc) × (insert_edges pg g node_map edges ≡ ok g')
        × (weights g' ≡ ws)
        × (arcs g' ≡ arcs g ++ as')
        × (map (λ (a : Arc). a.weight) as' ≡ edges)
        × All (IsLinked ws) as'
  unfolding insert_edges
  insert_edges_lem [] g node_map ws e indexed ends =
      (g, [], refl, e, sym (append-nil (arcs g)), refl, tt)
  insert_edges_lem (x ∷ edges) g node_map ws e indexed
        (((i, n, here, leaves), (j, m, there, enters)), ends) =
      let arc : Arc = record { tail = i; head = j; weight = x } in
      let from_source : get str_eq node_map x.source ≡ some i =
        subst (λ s. get str_eq node_map s ≡ some i) leaves (indexed i n here) in
      let to_target : get str_eq node_map x.target ≡ some j =
        subst (λ s. get str_eq node_map s ≡ some j) enters (indexed j m there) in
      let lt_i : i < length (weights g) = omega (arith, lt-nth ws i n here, ap length e) in
      let lt_j : j < length (weights g) = omega (arith, lt-nth ws j m there, ap length e) in
      let (g', as', run, e', all, back, linked) =
        insert_edges_lem edges (extend_with_edge g i j x) node_map ws
          (laws.weights-extend g i j x lt_i lt_j ∙ e) indexed ends in
      (
        g',
        arc ∷ as',
        rw (from_source, to_target) run,
        e',
        all
            ∙ ap (λ t. t ++ as') (laws.arcs-extend g i j x lt_i lt_j)
            ∙ append_assoc (arcs g) (arc ∷ []) as',
        ap (λ t. x ∷ t) back,
        (((n, here, leaves), (m, there, enters)), linked),
      )
