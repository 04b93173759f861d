-- ===== src/Graphgen/Cells.antt =====
-- The cells of a drawing as diagrams.net writes them: `nodes_edges_from_xml` of pipeline_graph.rs reads
-- them back.
use Prim.Native.String.{String}
use text.Mathlib.Text.{◌==◌ as str_eq}
use mathlib.Core.List.{map, append_assoc, append-nil}
use route_rs.Common.{◌≡◌, ◌≢◌, refl, ap, ◌∙◌, List, [], ◌∷◌, ◌++◌, Option, none, some, false, ok}
use route_rs.Graphgen.Fed.{All}
use route_rs.Graphgen.PipelineGraph.{
  NodeKind, classifier, processor, io, NodeData, EdgeData, OwnedAttribute, XmlEvent, start_element,
  other_event, find_attr, has_attr, get_attr, get_styles, vertex_node, cell_edge, read_event,
  read_events, nodes_edges_from_xml,
}

-- what an event describes: a node, an edge, an element of another name, or nothing
pub data Cell : Type 0 where
  node_cell : NodeData → Cell
  edge_cell : EdgeData → Cell
  other_element : String → List OwnedAttribute → Cell
  no_element : Cell

abbrev attribute : String → String → OwnedAttribute
attribute name text = record { local_name = name; value = text }

-- a rhombus for an `io` node, and the default shape for a processor
abbrev style_of : NodeKind → String
style_of io = "rhombus;whiteSpace=wrap"
style_of _ = ""

abbrev label_attribute : Option String → List OwnedAttribute
label_attribute none = []
label_attribute (some text) = attribute "value" text ∷ []

abbrev pub event_of : Cell → XmlEvent
event_of (node_cell n) = start_element "mxCell" (
    attribute "id" n.xml_node_id
    ∷ attribute "value" n.node_class
    ∷ attribute "style" (style_of n.node_kind)
    ∷ attribute "parent" "1"
    ∷ attribute "vertex" "1"
    ∷ [])
event_of (edge_cell e) = start_element "mxCell" (
    attribute "id" e.xml_node_id
    ∷ attribute "source" e.source
    ∷ attribute "target" e.target
    ∷ attribute "edge" "1"
    ∷ label_attribute e.label)
event_of (other_element name attributes) = start_element name attributes
event_of no_element = other_event

-- A node has a kind that a drawing shows, and an element of another name is no cell.
abbrev pub IsDrawn : Cell → Type 0
IsDrawn (node_cell n) = n.node_kind ≢ classifier
IsDrawn (edge_cell e) = Unit {0}
IsDrawn (other_element name attributes) = str_eq name "mxCell" ≡ false
IsDrawn no_element = Unit {0}

abbrev pub nodes_of : List Cell → List NodeData
nodes_of [] = []
nodes_of (node_cell n ∷ cells) = n ∷ nodes_of cells
nodes_of (_ ∷ cells) = nodes_of cells

abbrev pub edges_of : List Cell → List EdgeData
edges_of [] = []
edges_of (edge_cell e ∷ cells) = e ∷ edges_of cells
edges_of (_ ∷ cells) = edges_of cells

read_node :
    (id class : String) (kind : NodeKind) (nodes : List NodeData) (edges : List EdgeData)
    → kind ≢ classifier
    → let n : NodeData = record { xml_node_id = id; node_class = class; node_kind = kind } in
      read_event (nodes, edges) (event_of (node_cell n)) ≡ ok (nodes ++ n ∷ [], edges)
unfolding read_event vertex_node has_attr get_attr get_styles find_attr
read_node id class classifier nodes edges h = absurd (h refl)
read_node id class processor nodes edges h = refl
read_node id class io nodes edges h = refl

read_edge :
    (id source target : String) (label : Option String) (nodes : List NodeData)
    (edges : List EdgeData)
    → let e : EdgeData = record {
      xml_node_id = id;
      source = source;
      target = target;
      label = label;
    } in
      read_event (nodes, edges) (event_of (edge_cell e)) ≡ ok (nodes, edges ++ e ∷ [])
unfolding read_event cell_edge has_attr get_attr find_attr
read_edge id source target none nodes edges = refl
read_edge id source target (some text) nodes edges = refl

read_cells :
    (cells : List Cell) (nodes : List NodeData) (edges : List EdgeData)
    → All IsDrawn cells
    → read_events (nodes, edges) (map event_of cells)
      ≡ ok (nodes ++ nodes_of cells, edges ++ edges_of cells)
unfolding read_event
read_cells [] nodes edges h = rw (append-nil nodes, append-nil edges) refl
read_cells (node_cell n ∷ cells) nodes edges h =
    rw (read_node n.xml_node_id n.node_class n.node_kind nodes edges h.0) (
      read_cells cells (nodes ++ n ∷ []) edges h.1
      ∙ ap (λ t. ok (t, edges ++ edges_of cells)) (append_assoc nodes (n ∷ []) (nodes_of cells)))
read_cells (edge_cell e ∷ cells) nodes edges h =
    rw (read_edge e.xml_node_id e.source e.target e.label nodes edges) (
      read_cells cells nodes (edges ++ e ∷ []) h.1
      ∙ ap (λ t. ok (nodes ++ nodes_of cells, t)) (append_assoc edges (e ∷ []) (edges_of cells)))
read_cells (other_element name attributes ∷ cells) nodes edges h =
    rw h.0 (read_cells cells nodes edges h.1)
read_cells (no_element ∷ cells) nodes edges h = read_cells cells nodes edges h.1

-- `nodes_edges_from_xml` reads back the nodes and the edges of a drawing, each in their order,
-- from the elements that draw them: a rhombus for an IO node, the default shape for a processor,
-- an edge with or without a label, in any order with elements of other names and other events
-- between them.
pub nodes_edges_from_xml-event_of :
    (cells : List Cell)
    → All IsDrawn cells
    → nodes_edges_from_xml (map event_of cells) ≡ ok (nodes_of cells, edges_of cells)
unfolding nodes_edges_from_xml
nodes_edges_from_xml-event_of cells h = read_cells cells [] [] h
