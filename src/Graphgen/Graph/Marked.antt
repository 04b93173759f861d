-- ===== src/Graphgen/Graph/Marked.antt =====
-- `PipelineGraph::new`: the graph has the drawing's nodes and edges, with its classifiers marked.
use text.Mathlib.Text.{◌==◌ as str_eq}
use text.Mathlib.TextEquality.{eq_iff}
use mathlib.Core.List.{map, append_assoc}
use mathlib.Core.Option.{some_inj}
use route_rs.Common.{
  ℕ, zero, suc, ◌+◌, ◌≡◌, refl, ap, sym, ◌∙◌, subst, List, [], ◌∷◌, ◌++◌, some, ok, length, arith,
  inl, inr, if◌then◌else◌, ltb, ◌==◌, ==_self, ==_ne, Bool-cases,
}
use route_rs.Graphgen.Fed.{All}
use route_rs.Graphgen.Graph.{
  Petgraph, IsPetgraph, Arc, nth, put, from, insert_nodes, mark_node, mark_nodes, build_graph,
}
use route_rs.Graphgen.Graph.Lists.{
  nth_last, put_at, length-snoc, map_from, map_from-map, length-filter,
}
use route_rs.Graphgen.Links.{filter}
use route_rs.Graphgen.PipelineGraph.{NodeData, EdgeData, classifier}
use route_rs.Graphgen.Graph.Filled.{
  AreDistinct, HasEnds, IsLinked, insert_nodes_lem, insert_edges_lem,
}

-- A node that several edges leave is a classifier.
abbrev pub marked : List EdgeData → NodeData → NodeData
marked edges n =
    if ltb 1 (length (filter (λ e. str_eq e.source n.xml_node_id) edges))
    then record n { node_kind = classifier }
    else n

abbrev as_marked : ℕ → NodeData → NodeData
as_marked count n = if ltb 1 count then record n { node_kind = classifier } else n

module _ (pg : Petgraph) (laws : IsPetgraph pg) where
  open pg use {
    Graph, new_graph, add_node, extend_with_edge, node_indices, count_edges, weights, arcs,
  }

  -- the edges that leave an index
  abbrev out_degree : List Arc → ℕ → ℕ
  out_degree as' i = length (filter (λ (a : Arc). a.tail == i) as')

  mark_node_lem :
      (g : Graph) (front back : List NodeData) (n : NodeData)
      → weights g ≡ front ++ n ∷ back
      → (g' : Graph) × (mark_node pg g (length front) ≡ ok g')
        × (weights g' ≡ front ++ as_marked (out_degree (arcs g) (length front)) n ∷ back)
        × (arcs g' ≡ arcs g)
  unfolding mark_node
  mark_node_lem g front back n e =
      let i = length front in
      let count = laws.count_edges_lem g i in
      elim (Bool-cases (ltb 1 (out_degree (arcs g) i))) [
        | inl many ↦
            let new_n = record n { node_kind = classifier } in
            let at = laws.node_weight_lem g i ∙ ap (λ t. nth t i) e ∙ nth_last front back n in
            (
              pg.set_node_weight g i new_n,
              rw (count, many, at) refl,
              rw many (
                  laws.weights-set g i new_n
                  ∙ ap (λ t. put t i new_n) e
                  ∙ put_at front back n new_n),
              laws.arcs-set g i new_n,
            )
        | inr few ↦ (g, rw (count, few) refl, rw few e, refl)
      ]

  mark_nodes_lem :
      (back : List NodeData) (g : Graph) (front : List NodeData) (as' : List Arc)
      → weights g ≡ front ++ back
      → arcs g ≡ as'
      → (g' : Graph) × (mark_nodes pg g (from (length front) (length back)) ≡ ok g')
        × (weights g' ≡ front ++ map_from (λ i. as_marked (out_degree as' i)) (length front) back)
        × (arcs g' ≡ as')
  unfolding mark_nodes
  mark_nodes_lem [] g front as' e same = (g, refl, e, same)
  mark_nodes_lem (n ∷ back) g front as' e same =
      let (g', run, marked_n, kept) = mark_node_lem g front back n e in
      let new_n = as_marked (out_degree as' (length front)) n in
      let split = append_assoc front (new_n ∷ []) back in
      let step : weights g' ≡ (front ++ new_n ∷ []) ++ back = rw same at marked_n ∙ sym split in
      let (g'', more, all, kept') =
        mark_nodes_lem back g' (front ++ new_n ∷ []) as' step (kept ∙ same) in
      let marks = λ (i : ℕ). as_marked (out_degree as' i) in
      (
        g'',
        rw run (rw (length-snoc front new_n) at more),
        all
            ∙ append_assoc front (new_n ∷ []) (map_from marks (length (front ++ new_n ∷ [])) back)
            ∙ ap (λ k. front ++ new_n ∷ map_from marks k back) (length-snoc front new_n),
        kept',
      )

-- The edges that leave the index of a node are those whose source is its id.
tail_is_source :
    (ws : List NodeData) (a : Arc) (i : ℕ) (n : NodeData)
    → AreDistinct ws
    → IsLinked ws a
    → nth ws i ≡ some n
    → (a.tail == i) ≡ str_eq a.weight.source n.xml_node_id
tail_is_source ws a i n distinct ((m, at, leaves), enters) here =
    elim (Bool-cases (str_eq a.weight.source n.xml_node_id)) [
      | inl same ↦
          let e : a.tail ≡ i =
            distinct a.tail i m n at here
              (leaves ∙ (eq_iff a.weight.source n.xml_node_id).0 same) in
          rw (same, e) (==_self i)
      | inr other ↦ rw other (
          ==_ne a.tail i (λ e.
            let same_node : m ≡ n = some_inj.0 (sym at ∙ ap (nth ws) e ∙ here) in
            cc (
              (eq_iff a.weight.source n.xml_node_id).1
                (sym leaves ∙ ap (λ (x : NodeData). x.xml_node_id) same_node))))
    ]

pub AreLinked-nth :
    (ws : List NodeData) (as' : List Arc) (k : ℕ) (a : Arc)
    → All (IsLinked ws) as'
    → nth as' k ≡ some a
    → IsLinked ws a
AreLinked-nth ws [] k a h e = cc
AreLinked-nth ws (b ∷ as') zero a h e = subst (IsLinked ws) (some_inj.0 e) h.0
AreLinked-nth ws (b ∷ as') (suc k) a h e = AreLinked-nth ws as' k a h.1 e

marks_by_id :
    (ws : List NodeData) (as' : List Arc) (edges : List EdgeData)
    → AreDistinct ws
    → All (IsLinked ws) as'
    → map (λ (a : Arc). a.weight) as' ≡ edges
    → map_from (λ i. as_marked (length (filter (λ (a : Arc). a.tail == i) as'))) 0 ws
      ≡ map (marked edges) ws
marks_by_id ws as' edges distinct linked back =
    map_from-map (λ i. as_marked (length (filter (λ (a : Arc). a.tail == i) as'))) (marked edges) 0
      ws
      (λ i n h.
        let zero_add : 0 + i ≡ i = omega arith in
        let count =
          length-filter (λ (a : Arc). a.tail == i) (λ (x : EdgeData). str_eq x.source n.xml_node_id)
            (λ (a : Arc). a.weight) as'
            (λ k a at. tail_is_source ws a i n distinct (AreLinked-nth ws as' k a linked at) h) in
        rw zero_add (ap (λ c. as_marked c n) (rw back at count)))

-- Over graphs of petgraph that behave as documented, for nodes with ids of their own and edges
-- between them, `PipelineGraph::new` succeeds: its graph has the nodes in their order, each of
-- kind classifier where more than one edge has its id as source and of its own kind otherwise, and
-- the edges in their order, each between the nodes of its source and its target.
pub build_graph_marks :
    (pg : Petgraph) (laws : IsPetgraph pg) (nodes : List NodeData) (edges : List EdgeData)
    → AreDistinct nodes
    → All (HasEnds nodes) edges
    → (g : pg.Graph) × (build_graph pg nodes edges ≡ ok g)
      × (pg.weights g ≡ map (marked edges) nodes)
      × (map (λ (a : Arc). a.weight) (pg.arcs g) ≡ edges)
      × All (IsLinked nodes) (pg.arcs g)
unfolding build_graph
build_graph_marks pg laws nodes edges distinct ends =
    let r = insert_nodes pg pg.new_graph [] nodes in
    let (ws, none_yet, indexed) =
      insert_nodes_lem pg laws nodes pg.new_graph [] [] laws.weights-new distinct (λ i n h. cc) in
    let (linked_g, as', linking, kept, arcs_are, back, linked) =
      insert_edges_lem pg laws edges r.0 r.1 nodes ws indexed ends in
    let only_new : pg.arcs linked_g ≡ as' =
      arcs_are ∙ ap (λ t. t ++ as') (none_yet ∙ laws.arcs-new) in
    let (g, marking, marked_ws, same) =
      mark_nodes_lem pg laws nodes linked_g [] as' kept only_new in
    (
      g,
      rw (linking, laws.node_indices_lem linked_g, kept, marking) refl,
      marked_ws ∙ marks_by_id nodes as' edges distinct linked back,
      ap (map (λ (a : Arc). a.weight)) same ∙ back,
      subst (All (IsLinked nodes)) (sym same) linked,
    )
