-- ===== src/Graphgen/Ordered.antt =====
-- Nodes in an order of their graph: the loop of `gen_run_body` of main.rs makes links of them that are
-- fed, with a join in front of a node that several edges enter.
pub mod Expansion
pub mod Plan
pub mod Body
use Prim.Native.String.{String, len, ◌++◌ as append}
use text.Mathlib.Text.{◌==◌ as str_eq}
use text.Mathlib.TextEquality.{eq_iff}
use text.Mathlib.TextPositions.{len-append}
use mathlib.Core.List.{Memᴰ, map}
use mathlib.Core.List.Memᴰ
use route_rs.Common.{
  ℕ, ◌+◌, List, [], ◌∷◌, ◌++◌, Option, none, some, true, false, ◌≡◌, refl, ap, sym, ◌∙◌, subst,
  Outcome, ok, inl, inr, arith, Bool-cases,
}
use route_rs.Graphgen.Fed.{All, needs, declare, declare_branches, IsFed, AreFed, HasProcessor}
use route_rs.Graphgen.Links.{
  Feeder, Link, input, output, sync, classify, join, join_id, expand_join_link, feeders_of, feeder,
  outlets_of,
}
use route_rs.Graphgen.PipelineGraph.{NodeData, EdgeData, classifier, processor, io}
use route_rs.Graphgen.Syn.{Pat}

-- The egressors that the edges of the node take exist; none is its own or that of its join.
pub data IsEntered (id : String) (declared : List Feeder) (e : EdgeData) : Type 0 where
  entered :
      Memᴰ (feeder e) declared
      → str_eq id e.source ≡ false
      → str_eq (join_id id) e.source ≡ false
      → IsEntered id declared e

module _ (parse_pat : String → Option Pat) (edges : List EdgeData)
    (input_node output_node : NodeData) where
  -- Every edge into a node leaves a node before it, by an egressor that this node has: the only one,
  -- with no label, or one for each of its labels where it is a classifier.
  pub data IsOrdered : List Feeder → List NodeData → Type 0 where
    done : {declared : List Feeder} → IsOrdered declared []
    input_then :
        {declared : List Feeder} {nd : NodeData} {nodes : List NodeData}
        → nd.node_kind ≡ io
        → str_eq nd.xml_node_id input_node.xml_node_id ≡ true
        → IsOrdered ((nd.xml_node_id, none) ∷ declared) nodes
        → IsOrdered declared (nd ∷ nodes)
    output_then :
        {declared : List Feeder} {nd : NodeData} {nodes : List NodeData}
        → nd.node_kind ≡ io
        → str_eq nd.xml_node_id input_node.xml_node_id ≡ false
        → str_eq nd.xml_node_id output_node.xml_node_id ≡ true
        → All (IsEntered nd.xml_node_id declared) (feeders_of edges nd)
        → IsOrdered declared nodes
        → IsOrdered declared (nd ∷ nodes)
    processor_then :
        {declared : List Feeder} {nd : NodeData} {nodes : List NodeData}
        → nd.node_kind ≡ processor
        → All (IsEntered nd.xml_node_id declared) (feeders_of edges nd)
        → IsOrdered ((nd.xml_node_id, none) ∷ declared) nodes
        → IsOrdered declared (nd ∷ nodes)
    classifier_then :
        {declared : List Feeder} {nd : NodeData} {nodes : List NodeData}
        → (outlets : List String) → nd.node_kind ≡ classifier
        → All (IsEntered nd.xml_node_id declared) (feeders_of edges nd)
        → outlets_of edges nd ≡ ok outlets
        → All (λ b. (pat : Pat) × (parse_pat b ≡ some pat)) outlets
        → IsOrdered (declare_branches nd.xml_node_id outlets declared) nodes
        → IsOrdered declared (nd ∷ nodes)
