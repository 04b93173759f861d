-- ===== src/Graphgen/Graph.antt =====
-- `PipelineGraph` of route-rs-graphgen/src/pipeline_graph.rs, over the graphs of the package petgraph.
-- The package is not part of the repository, so the graph takes this interface as a parameter.
pub mod Lists
pub mod Filled
pub mod Marked
pub mod Topological
pub mod ListGraph
use Prim.Native.String.{String}
use text.Mathlib.Text.{◌==◌ as str_eq}
use mathlib.Core.List.{Memᴰ, map}
use route_rs.Common.{
  ℕ, zero, suc, ◌+◌, ◌<◌, ◌≡◌, List, [], ◌∷◌, ◌++◌, Option, none, some, Outcome, ok, panic, ◌>>=◌,
  length, some_or_panic, if◌then◌else◌, ltb, ◌==◌,
}
use route_rs.Graphgen.Links.{filter}
use route_rs.Common.Maps.{get, insert}
use route_rs.Graphgen.PipelineGraph.{NodeData, EdgeData, classifier, XmlEvent, nodes_edges_from_xml}

-- the numbers below a bound, in their order
abbrev pub from : ℕ → ℕ → List ℕ
from i zero = []
from i (suc n) = i ∷ from (suc i) n

abbrev pub nth {ℓ} : {A : Type ℓ} → List A → ℕ → Option A
nth [] i = none
nth (x ∷ xs) zero = some x
nth (x ∷ xs) (suc i) = nth xs i

abbrev pub put {ℓ} : {A : Type ℓ} → List A → ℕ → A → List A
put [] i a = []
put (x ∷ xs) zero a = a ∷ xs
put (x ∷ xs) (suc i) a = x ∷ put xs i a

-- `.map(|i| weight(i).unwrap()).collect()`
unfoldable pub collect {ℓ} : {A : Type ℓ} → (ℕ → Option A) → List ℕ → Outcome (List A)
collect weight [] = ok []
collect weight (i ∷ indices) = do
  w ← some_or_panic (weight i)
  more ← collect weight indices
  ok (w ∷ more)

-- an edge with the indices of its source and its target
pub record Arc : Type 0 where
  pub tail : ℕ
  pub head : ℕ
  pub weight : EdgeData

abbrev pub NodeMap : Type 0
NodeMap = List (String × ℕ)

pub record Petgraph : Type 1 where
  pub Graph : Type 0
  pub new_graph : Graph
  pub add_node : Graph → NodeData → ℕ × Graph
  -- `extend_with_edges` of one edge
  pub extend_with_edge : Graph → ℕ → ℕ → EdgeData → Graph
  pub node_indices : Graph → List ℕ
  -- `edges(index).count()`
  pub count_edges : Graph → ℕ → ℕ
  pub node_weight : Graph → ℕ → Option NodeData
  -- a write through `node_weight_mut`
  pub set_node_weight : Graph → ℕ → NodeData → Graph
  pub edge_indices : Graph → List ℕ
  pub edge_weight : Graph → ℕ → Option EdgeData
  -- what `Topo::next` gives, up to its first `None`
  pub topo : Graph → List ℕ
  -- the weights of the nodes, and the edges, by their index
  pub weights : Graph → List NodeData
  pub arcs : Graph → List Arc

module _ (pg : Petgraph) where
  open pg use {
    Graph, new_graph, add_node, extend_with_edge, node_indices, count_edges, node_weight,
    set_node_weight, edge_indices, edge_weight, topo, weights, arcs,
  }

  -- The documented behaviour: a node and an edge get the next index. `Topo` gives a node once, after all
  -- nodes with an edge to it.
  pub record IsPetgraph : Type 1 where
    pub weights-new : weights new_graph ≡ []
    pub arcs-new : arcs new_graph ≡ []
    pub index-add_node : (g : Graph) (n : NodeData) → (add_node g n).0 ≡ length (weights g)
    pub weights-add_node :
        (g : Graph) (n : NodeData) → weights (add_node g n).1 ≡ weights g ++ n ∷ []
    pub arcs-add_node : (g : Graph) (n : NodeData) → arcs (add_node g n).1 ≡ arcs g
    pub weights-extend :
        (g : Graph) (a b : ℕ) (e : EdgeData)
        → a < length (weights g)
        → b < length (weights g)
        → weights (extend_with_edge g a b e) ≡ weights g
    pub arcs-extend :
        (g : Graph) (a b : ℕ) (e : EdgeData)
        → a < length (weights g)
        → b < length (weights g)
        → arcs (extend_with_edge g a b e) ≡ arcs g ++ record { tail = a; head = b; weight = e } ∷ []
    pub node_indices_lem : (g : Graph) → node_indices g ≡ from 0 (length (weights g))
    pub count_edges_lem :
        (g : Graph) (i : ℕ) → count_edges g i ≡ length (filter (λ (a : Arc). a.tail == i) (arcs g))
    pub node_weight_lem : (g : Graph) (i : ℕ) → node_weight g i ≡ nth (weights g) i
    pub weights-set :
        (g : Graph) (i : ℕ) (n : NodeData) → weights (set_node_weight g i n) ≡ put (weights g) i n
    pub arcs-set : (g : Graph) (i : ℕ) (n : NodeData) → arcs (set_node_weight g i n) ≡ arcs g
    pub edge_indices_lem : (g : Graph) → edge_indices g ≡ from 0 (length (arcs g))
    pub edge_weight_lem :
        (g : Graph) (i : ℕ) → edge_weight g i ≡ nth (map (λ (a : Arc). a.weight) (arcs g)) i
    pub topo_in_range : (g : Graph) (i : ℕ) → Memᴰ i (topo g) → i < length (weights g)
    pub topo_order :
        (g : Graph) (front back : List ℕ) (i : ℕ) (a : Arc)
        → topo g ≡ front ++ i ∷ back
        → Memᴰ a (arcs g)
        → a.head ≡ i
        → Memᴰ a.tail front
    pub topo_once :
        (g : Graph) (front back : List ℕ) (i : ℕ) → topo g ≡ front ++ i ∷ back → ¬ Memᴰ i front

  -- the loop over the nodes in `PipelineGraph::new`
  unfoldable pub insert_nodes : Graph → NodeMap → List NodeData → Graph × NodeMap
  insert_nodes graph node_map [] = (graph, node_map)
  insert_nodes graph node_map (n ∷ nodes) =
      let (index, more) = add_node graph n in
      insert_nodes more (insert node_map n.xml_node_id index) nodes

  -- the loop over the edges
  unfoldable pub insert_edges : Graph → NodeMap → List EdgeData → Outcome Graph
  insert_edges graph node_map [] = ok graph
  insert_edges graph node_map (e ∷ edges) = do
    source_index ← some_or_panic (get str_eq node_map e.source)
    target_index ← some_or_panic (get str_eq node_map e.target)
    insert_edges (extend_with_edge graph source_index target_index e) node_map edges

  -- one round of `mark_classifiers`
  unfoldable pub mark_node : Graph → ℕ → Outcome Graph
  mark_node graph ni =
      if ltb 1 (count_edges graph ni)
      then (some_or_panic (node_weight graph ni) >>= λ weight.
          ok (set_node_weight graph ni (record weight { node_kind = classifier })))
      else ok graph

  unfoldable pub mark_nodes : Graph → List ℕ → Outcome Graph
  mark_nodes graph [] = ok graph
  mark_nodes graph (ni ∷ indices) = mark_node graph ni >>= λ marked. mark_nodes marked indices

  abbrev pub mark_classifiers : Graph → Outcome Graph
  mark_classifiers graph = mark_nodes graph (node_indices graph)

  -- `PipelineGraph::new`, from the nodes and edges of the drawing
  unfoldable pub build_graph : List NodeData → List EdgeData → Outcome Graph
  build_graph nodes edges = do
    let (graph, node_map) = insert_nodes new_graph [] nodes
    linked ← insert_edges graph node_map edges
    mark_classifiers linked

  unfoldable pub new : List XmlEvent → Outcome Graph
  new xml_source = nodes_edges_from_xml xml_source >>= λ (nodes, edges). build_graph nodes edges

  abbrev pub nodes : Graph → Outcome (List NodeData)
  nodes graph = collect (node_weight graph) (node_indices graph)

  abbrev pub edges : Graph → Outcome (List EdgeData)
  edges graph = collect (edge_weight graph) (edge_indices graph)

  -- an index of the graph out of range panics
  abbrev pub ordered_nodes : Graph → Outcome (List NodeData)
  ordered_nodes graph = collect (node_weight graph) (topo graph)
