-- ===== src/Graphgen/Graph/Topological.antt =====
-- `ordered_nodes` of a wired drawing, as `gen_run_body` takes it: every edge into a node leaves a node
-- before it, by an egressor that this node has.
use Prim.Native.String.{String}
use text.Mathlib.Text.{◌==◌ as str_eq}
use text.Mathlib.TextEquality.{eq_iff}
use mathlib.Core.List.{Memᴰ, map, append_assoc}
use mathlib.Core.List.Memᴰ
use mathlib.Core.Option.{some_inj}
use route_rs.Common.{
  ℕ, ◌≡◌, ◌≢◌, refl, ap, ap₂, sym, ◌∙◌, subst, List, [], ◌∷◌, ◌++◌, Option, none, some, true, false,
  ok, inl, inr, Bool-cases,
}
use route_rs.Graphgen.Fed.{All, declare_branches}
use route_rs.Graphgen.Graph.{Petgraph, IsPetgraph, Arc, nth, collect}
use route_rs.Graphgen.Graph.Lists.{nth-lt}
use route_rs.Graphgen.Graph.Filled.{AreDistinct, IsLinked}
use route_rs.Graphgen.Links.{Feeder, filter, feeders_of, feeder, outlets_of, join_id}
use route_rs.Graphgen.Members.{
  All-intro, All-mem, Memᴰ-filter, filter-Memᴰ, label_of, branches_keep, branches_declare,
}
use route_rs.Graphgen.Ordered.{
  IsEntered, entered, IsOrdered, done, input_then, output_then, processor_then, classifier_then,
}
use route_rs.Graphgen.PipelineGraph.{NodeData, EdgeData, classifier, processor, io}
use route_rs.Graphgen.Syn.{Pat}

module _ (parse_pat : String → Option Pat) (edges : List EdgeData)
    (input_node output_node : NodeData) where
  -- No edge that leaves the node has a label.
  abbrev pub AreUnlabelled : String → Type 0
  AreUnlabelled id = (e : EdgeData) → Memᴰ e edges → e.source ≡ id → e.label ≡ none

  -- The edges that leave a node are those of its kind: with no label where the node has one egressor,
  -- with labels that are patterns where it is a classifier, and none behind the output.
  pub data IsWired (nd : NodeData) : Type 0 where
    input_wired :
        nd.node_kind ≡ io
        → str_eq nd.xml_node_id input_node.xml_node_id ≡ true
        → AreUnlabelled nd.xml_node_id
        → IsWired nd
    output_wired :
        nd.node_kind ≡ io
        → str_eq nd.xml_node_id input_node.xml_node_id ≡ false
        → str_eq nd.xml_node_id output_node.xml_node_id ≡ true
        → ((e : EdgeData) → Memᴰ e edges → e.source ≢ nd.xml_node_id)
        → IsWired nd
    processor_wired : nd.node_kind ≡ processor → AreUnlabelled nd.xml_node_id → IsWired nd
    classifier_wired :
        (outlets : List String)
        → nd.node_kind ≡ classifier
        → outlets_of edges nd ≡ ok outlets
        → All (λ b. (pat : Pat) × (parse_pat b ≡ some pat)) outlets
        → IsWired nd

  module _ (pg : Petgraph) (laws : IsPetgraph pg) (g : pg.Graph)
      (distinct : AreDistinct (pg.weights g)) (linked : All (IsLinked (pg.weights g)) (pg.arcs g))
      (weights_are : map (λ (a : Arc). a.weight) (pg.arcs g) ≡ edges)
      (apart : (e : EdgeData) → Memᴰ e edges → str_eq (join_id e.target) e.source ≡ false) where
    open pg use {weights, arcs, topo}

    -- The edges that leave the visited nodes leave declared egressors.
    abbrev Covers : List ℕ → List Feeder → Type 0
    Covers front declared =
        (a : Arc) → Memᴰ a (arcs g) → Memᴰ a.tail front → Memᴰ (feeder a.weight) declared

    arc_of : (e : EdgeData) → Memᴰ e edges → (a : Arc) × Memᴰ a (arcs g) × (a.weight ≡ e)
    arc_of e m = Memᴰ.of_map (λ (a : Arc). a.weight) (arcs g) (subst (Memᴰ e) (sym weights_are) m)

    edge_of : (a : Arc) → Memᴰ a (arcs g) → Memᴰ a.weight edges
    edge_of a m = subst (Memᴰ a.weight) weights_are (Memᴰ.map (λ (b : Arc). b.weight) m)

    -- The edge of an arc leaves the node of its tail.
    source_of :
        (a : Arc) (i : ℕ) (nd : NodeData)
        → Memᴰ a (arcs g)
        → nth (weights g) i ≡ some nd
        → a.tail ≡ i
        → a.weight.source ≡ nd.xml_node_id
    source_of a i nd m here e =
        let ((n, at, leaves), enters) = All-mem (IsLinked (weights g)) (arcs g) a linked m in
        let same : n ≡ nd = some_inj.0 (sym at ∙ ap (nth (weights g)) e ∙ here) in
        sym leaves ∙ ap (λ (x : NodeData). x.xml_node_id) same

    -- The edges into the next node are entered.
    IsEntered-next :
        (front back : List ℕ) (i : ℕ) (nd : NodeData) (declared : List Feeder)
        → topo g ≡ front ++ i ∷ back
        → nth (weights g) i ≡ some nd
        → Covers front declared
        → All (IsEntered nd.xml_node_id declared) (feeders_of edges nd)
    IsEntered-next front back i nd declared order here covers =
        All-intro (IsEntered nd.xml_node_id declared) (feeders_of edges nd) (λ e m.
          let (there, target_is) =
            Memᴰ-filter (λ (x : EdgeData). str_eq x.target nd.xml_node_id) edges e m in
          let target_eq = (eq_iff e.target nd.xml_node_id).0 target_is in
          let (a, arc_there, same) = arc_of e there in
          let ((n, at_tail, leaves), (k, at_head, enters)) =
            All-mem (IsLinked (weights g)) (arcs g) a linked arc_there in
          let head_is : a.head ≡ i =
            distinct a.head i k nd at_head here
              (enters ∙ ap (λ (x : EdgeData). x.target) same ∙ target_eq) in
          let before = laws.topo_order g front back i a order arc_there head_is in
          entered (subst (λ x. Memᴰ (feeder x) declared) same (covers a arc_there before))
            (apart_from front back i nd e a order here at_tail
              (leaves ∙ ap (λ (x : EdgeData). x.source) same) before)
            (subst (λ t. str_eq (join_id t) e.source ≡ false) target_eq (apart e there)))
      where
        apart_from :
            (front back : List ℕ) (i : ℕ) (nd : NodeData) (e : EdgeData) (a : Arc) {n : NodeData}
            → topo g ≡ front ++ i ∷ back
            → nth (weights g) i ≡ some nd
            → nth (weights g) a.tail ≡ some n
            → n.xml_node_id ≡ e.source
            → Memᴰ a.tail front
            → str_eq nd.xml_node_id e.source ≡ false
        apart_from front back i nd e a {n} order here at_tail leaves before =
            elim (Bool-cases (str_eq nd.xml_node_id e.source)) [
              | inl same ↦
                  let tail_is : i ≡ a.tail =
                    distinct i a.tail nd n here at_tail
                      ((eq_iff nd.xml_node_id e.source).0 same ∙ sym leaves) in
                  absurd (laws.topo_once g front back i order (Memᴰ.cast tail_is before))
              | inr other ↦ other
            ]

    -- One more visited node, whose egressors are declared.
    Covers-next :
        (front : List ℕ) (i : ℕ) (nd : NodeData) (declared next : List Feeder)
        → nth (weights g) i ≡ some nd
        → Covers front declared
        → ((f : Feeder) → Memᴰ f declared → Memᴰ f next)
        → ((e : EdgeData) → Memᴰ e edges → e.source ≡ nd.xml_node_id → Memᴰ (feeder e) next)
        → Covers (front ++ i ∷ []) next
    Covers-next front i nd declared next here covers keep own a m visited =
        elim (Memᴰ.append_cases front visited) [
          | inl old ↦ keep (feeder a.weight) (covers a m old)
          | inr last ↦
              own a.weight (edge_of a m) (source_of a i nd m here (Memᴰ.eq_of_singleton last))
        ]

    -- the rest of the visit
    abbrev Rest : List ℕ → List Feeder → Type 0
    Rest back declared =
        (nodes : List NodeData) × (collect (pg.node_weight g) back ≡ ok nodes)
        × IsOrdered parse_pat edges input_node output_node declared nodes

    abbrev FollowsIn : ℕ → NodeData → List ℕ → List ℕ → Type 0
    FollowsIn i nd front back =
        (next : List Feeder) → Covers (front ++ i ∷ []) next → Rest back next

    -- A wired node in front of the rest of the visit.
    node_then :
        (front back : List ℕ) (i : ℕ) (nd : NodeData) (declared : List Feeder)
        → topo g ≡ front ++ i ∷ back
        → nth (weights g) i ≡ some nd
        → Covers front declared
        → FollowsIn i nd front back
        → IsWired nd
        → Rest (i ∷ back) declared
    unfolding collect
    node_then front back i nd declared order here covers follow (input_wired k same plain) =
        let id = nd.xml_node_id in
        let (nodes, run, ordered) = follow ((id, none) ∷ declared) (
          Covers-next front i nd declared ((id, none) ∷ declared) here covers (λ f m. Memᴰ.tail m)
            (λ e m s. Memᴰ.head (ap₂ (λ (x : String) l. (x, l)) s (plain e m s)))) in
        (nd ∷ nodes, rw (laws.node_weight_lem g i, here, run) refl, input_then k same ordered)
    node_then front back i nd declared order here covers follow (output_wired k other same leaves) =
        let (nodes, run, ordered) = follow declared (
          Covers-next front i nd declared declared here covers (λ f m. m)
            (λ e m s. absurd (leaves e m s))) in
        (
          nd ∷ nodes,
          rw (laws.node_weight_lem g i, here, run) refl,
          output_then k other same (IsEntered-next front back i nd declared order here covers)
              ordered,
        )
    node_then front back i nd declared order here covers follow (processor_wired k plain) =
        let id = nd.xml_node_id in
        let (nodes, run, ordered) = follow ((id, none) ∷ declared) (
          Covers-next front i nd declared ((id, none) ∷ declared) here covers (λ f m. Memᴰ.tail m)
            (λ e m s. Memᴰ.head (ap₂ (λ (x : String) l. (x, l)) s (plain e m s)))) in
        (
          nd ∷ nodes,
          rw (laws.node_weight_lem g i, here, run) refl,
          processor_then k (IsEntered-next front back i nd declared order here covers) ordered,
        )
    node_then front back i nd declared order here covers follow
          (classifier_wired outlets k labelled parsed) =
        let id = nd.xml_node_id in
        let leaving = filter (λ (x : EdgeData). str_eq x.source id) edges in
        let next = declare_branches id outlets declared in
        let (nodes, run, ordered) = follow next (
          Covers-next front i nd declared next here covers
            (λ f m. branches_keep id outlets declared f m)
            (λ e m s.
              let (l, at, there) = label_of leaving outlets e labelled (
                filter-Memᴰ (λ (x : EdgeData). str_eq x.source id) edges e m
                  ((eq_iff e.source id).1 s)) in
              Memᴰ.cast (ap₂ (λ (x : String) y. (x, y)) s at)
                (branches_declare id outlets declared l there))) in
        (
          nd ∷ nodes,
          rw (laws.node_weight_lem g i, here, run) refl,
          classifier_then outlets k (IsEntered-next front back i nd declared order here covers)
              labelled parsed ordered,
        )

    visit :
        ((i : ℕ) (nd : NodeData) → nth (weights g) i ≡ some nd → IsWired nd)
        → (back front : List ℕ) (declared : List Feeder) → topo g ≡ front ++ back
        → Covers front declared
        → Rest back declared
    unfolding collect
    visit wired [] front declared order covers = ([], refl, done)
    visit wired (i ∷ back) front declared order covers =
        let in_order : Memᴰ i (topo g) =
          subst (Memᴰ i) (sym order) (Memᴰ.append_right front (Memᴰ.head refl)) in
        let (nd, here) = nth-lt (weights g) i (laws.topo_in_range g i in_order) in
        node_then front back i nd declared order here covers
          (λ next covers_more.
            visit wired back (front ++ i ∷ []) next (order ∙ sym (append_assoc front (i ∷ []) back))
              covers_more)
          (wired i nd here)

    -- The nodes that `ordered_nodes` gives are in an order of the graph.
    pub ordered_nodes-IsOrdered :
        ((i : ℕ) (nd : NodeData) → nth (weights g) i ≡ some nd → IsWired nd) → Rest (topo g) []
    ordered_nodes-IsOrdered wired =
        visit wired (topo g) [] [] refl (λ a m n. absurd (Memᴰ.not-nil n))
