-- ===== src/Graphgen/Ordered/Plan.antt =====
-- The links of nodes in order.
use Prim.Native.String.{String}
use text.Mathlib.Text.{◌==◌ as str_eq}
use mathlib.Core.List.{Memᴰ, append_assoc, append-nil}
use route_rs.Common.{List, [], ◌∷◌, ◌++◌, Option, none, some, true, false, ◌≡◌, refl, ap, ◌∙◌, ok}
use route_rs.Graphgen.Fed.{All, declare_branches, AreFed}
use route_rs.Graphgen.Links.{
  Feeder, Link, input, expand_join_link, feeders_of, outlets_of, add_node, add_nodes,
}
use route_rs.Graphgen.Ordered.{
  IsEntered, IsOrdered, done, input_then, output_then, processor_then, classifier_then,
}
use route_rs.Graphgen.PipelineGraph.{NodeData, EdgeData, classifier, processor, io}
use route_rs.Graphgen.Syn.{Pat}
use route_rs.Graphgen.Ordered.Expansion.{
  Includes, Includes-cons, declare_all, AreFed-append, Shape, to_output, to_sync, to_classify,
  build, own, expansion, expand_join_link_lem, expansion-Includes, IsKnown, expansion-AreFed,
}

All-split {ℓ κ} :
    {A : Type ℓ} (P : A → Type κ) (xs ys : List A) → All P (xs ++ ys) → All P xs × All P ys
All-split P [] ys h = (tt, h)
All-split P (x ∷ xs) ys (p, h) = let (front, back) = All-split P xs ys h in ((p, front), back)

module _ (parse_pat : String → Option Pat) where
  module _ (edges : List EdgeData) (input_node output_node : NodeData) where
    -- What one round adds: processors and links, which are fed behind `more` and behind which the
    -- egressors `next` exist.
    abbrev Adds : List Feeder → List Feeder → NodeData → Type 0
    Adds more next nd =
        (node_ps : List NodeData) × (node_ls : List (String × Link)) × ((ps : List NodeData)
            (ls : List (String × Link))
          → add_node edges input_node output_node nd (ps, ls) ≡ ok (ps ++ node_ps, ls ++ node_ls))
        × ((processors : List String)
            → All (λ (n : NodeData). Memᴰ n.xml_node_id processors) node_ps
            → AreFed parse_pat processors more node_ls)
        × Includes next (declare_all node_ls more)

    -- The nodes are made into processors and links, and the links are fed behind `more`.
    abbrev pub Plans : List Feeder → List NodeData → Type 0
    Plans more nodes =
        (new_ps : List NodeData) × (new_ls : List (String × Link)) × ((ps : List NodeData)
            (ls : List (String × Link))
          → add_nodes edges input_node output_node nodes (ps, ls) ≡ ok (ps ++ new_ps, ls ++ new_ls))
        × ((processors : List String)
            → All (λ (n : NodeData). Memᴰ n.xml_node_id processors) new_ps
            → AreFed parse_pat processors more new_ls)

    Plans-then :
        (nd : NodeData) (nodes : List NodeData) (more next : List Feeder) (adds : Adds more next nd)
        → Plans (declare_all adds.1 more) nodes
        → Plans more (nd ∷ nodes)
    unfolding add_nodes
    Plans-then nd nodes more next (node_ps, node_ls, e, fed, inc) (new_ps, new_ls, h, all_fed) = (
      node_ps ++ new_ps,
      node_ls ++ new_ls,
      λ ps ls.
          rw
            (
              e ps ls,
              h (ps ++ node_ps) (ls ++ node_ls),
              append_assoc ps node_ps new_ps,
              append_assoc ls node_ls new_ls,
            )
            refl,
      λ processors known.
          let (here, later) =
            All-split (λ (n : NodeData). Memᴰ n.xml_node_id processors) node_ps new_ps known in
          AreFed-append parse_pat processors node_ls new_ls more (fed processors here)
            (all_fed processors later),
    )

    -- a node of a shape
    Adds-shape :
        (nd : NodeData) (shape : Shape) (declared more : List Feeder) (node_ps : List NodeData)
        → ((ps : List NodeData) (ls : List (String × Link))
            → add_node edges input_node output_node nd (ps, ls)
              ≡ ok (
                ps ++ node_ps,
                expand_join_link
                    (feeders_of edges nd)
                    ls
                    nd.xml_node_id
                    (build shape nd.xml_node_id),
              ))
        → ((processors : List String)
            → All (λ (n : NodeData). Memᴰ n.xml_node_id processors) node_ps
            → IsKnown parse_pat processors shape nd.xml_node_id)
        → All (IsEntered nd.xml_node_id declared) (feeders_of edges nd)
        → Includes declared more
        → Adds more (own shape nd.xml_node_id declared) nd
    Adds-shape nd shape declared more node_ps e known enter inc =
        let feeders = feeders_of edges nd in
        let id = nd.xml_node_id in
        (
          node_ps,
          expansion feeders id shape,
          λ ps ls.
              e ps ls ∙ ap (λ t. ok (ps ++ node_ps, t)) (expand_join_link_lem feeders ls id shape),
          λ processors h.
              (expansion-AreFed parse_pat processors feeders id shape declared more
                (known processors h) enter inc),
          expansion-Includes feeders id shape declared more inc,
        )

    Adds-input :
        (nd : NodeData) (declared more : List Feeder)
        → nd.node_kind ≡ io
        → str_eq nd.xml_node_id input_node.xml_node_id ≡ true
        → Includes declared more
        → Adds more ((nd.xml_node_id, none) ∷ declared) nd
    unfolding add_node
    Adds-input nd declared more k same inc = (
      [],
      (nd.xml_node_id, input) ∷ [],
      λ ps ls. rw (k, same, append-nil ps) refl,
      λ processors h. ((tt, tt), tt),
      Includes-cons declared more (nd.xml_node_id, none) inc,
    )

    Adds-output :
        (nd : NodeData) (declared more : List Feeder)
        → nd.node_kind ≡ io
        → str_eq nd.xml_node_id input_node.xml_node_id ≡ false
        → str_eq nd.xml_node_id output_node.xml_node_id ≡ true
        → All (IsEntered nd.xml_node_id declared) (feeders_of edges nd)
        → Includes declared more
        → Adds more declared nd
    unfolding add_node
    Adds-output nd declared more k other same enter inc =
        Adds-shape nd to_output declared more [] (λ ps ls. rw (k, other, same, append-nil ps) refl)
          (λ processors h. tt) enter inc

    Adds-processor :
        (nd : NodeData) (declared more : List Feeder)
        → nd.node_kind ≡ processor
        → All (IsEntered nd.xml_node_id declared) (feeders_of edges nd)
        → Includes declared more
        → Adds more ((nd.xml_node_id, none) ∷ declared) nd
    unfolding add_node
    Adds-processor nd declared more k enter inc =
        Adds-shape nd to_sync declared more (nd ∷ []) (λ ps ls. rw k refl) (λ processors h. h.0)
          enter inc

    Adds-classifier :
        (nd : NodeData) (outlets : List String) (declared more : List Feeder)
        → nd.node_kind ≡ classifier
        → outlets_of edges nd ≡ ok outlets
        → All (λ b. (pat : Pat) × (parse_pat b ≡ some pat)) outlets
        → All (IsEntered nd.xml_node_id declared) (feeders_of edges nd)
        → Includes declared more
        → Adds more (declare_branches nd.xml_node_id outlets declared) nd
    unfolding add_node
    Adds-classifier nd outlets declared more k labelled parsed enter inc =
        Adds-shape nd (to_classify outlets) declared more (nd ∷ []) (λ ps ls. rw (k, labelled) refl)
          (λ processors h. (h.0, parsed)) enter inc

    -- Nodes in order are made into links that are fed.
    pub IsOrdered-Plans :
        (nodes : List NodeData) (declared more : List Feeder)
        → IsOrdered parse_pat edges input_node output_node declared nodes
        → Includes declared more
        → Plans more nodes
    unfolding add_nodes
    IsOrdered-Plans [] declared more done inc =
        ([], [], λ ps ls. rw (append-nil ps, append-nil ls) refl, λ processors h. tt)
    IsOrdered-Plans (nd ∷ nodes) declared more (input_then k same rest) inc =
        let adds = Adds-input nd declared more k same inc in
        Plans-then nd nodes more _ adds (IsOrdered-Plans nodes _ _ rest adds.4)
    IsOrdered-Plans (nd ∷ nodes) declared more (output_then k other same enter rest) inc =
        let adds = Adds-output nd declared more k other same enter inc in
        Plans-then nd nodes more _ adds (IsOrdered-Plans nodes _ _ rest adds.4)
    IsOrdered-Plans (nd ∷ nodes) declared more (processor_then k enter rest) inc =
        let adds = Adds-processor nd declared more k enter inc in
        Plans-then nd nodes more _ adds (IsOrdered-Plans nodes _ _ rest adds.4)
    IsOrdered-Plans (nd ∷ nodes) declared more
          (classifier_then outlets k enter labelled parsed rest) inc =
        let adds = Adds-classifier nd outlets declared more k labelled parsed enter inc in
        Plans-then nd nodes more _ adds (IsOrdered-Plans nodes _ _ rest adds.4)
