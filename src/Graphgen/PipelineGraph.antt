-- ===== src/Graphgen/PipelineGraph.antt =====
-- route-rs-graphgen/src/pipeline_graph.rs: the nodes and edges that a drawing holds, and their graph.
use Prim.Native.String.{String}
use text.Mathlib.Text.{◌==◌ as str_eq}
use route_rs.Common.{
  Bool, true, false, List, [], ◌∷◌, ◌++◌, Option, none, some, Outcome, ok, ◌>>=◌, some_or_panic,
  is_some, if◌then◌else◌,
}
use route_rs.Graphgen.Codegen.Text.{split, split_once}
use route_rs.Common.Maps.{contains_key, insert}

pub data NodeKind : Type 0 where
  classifier processor io : NodeKind

-- `==` of the derived `PartialEq`
abbrev pub kind_eq : NodeKind → NodeKind → Bool
kind_eq classifier classifier = true
kind_eq processor processor = true
kind_eq io io = true
kind_eq _ _ = false

pub record NodeData : Type 0 where
  pub xml_node_id : String
  pub node_class : String
  pub node_kind : NodeKind

pub record EdgeData : Type 0 where
  pub xml_node_id : String
  pub source : String
  pub target : String
  pub label : Option String

-- an attribute of the package xml: its local name and its value
pub record OwnedAttribute : Type 0 where
  pub local_name : String
  pub value : String

-- What the reader of the package xml gives: the start of an element, with its local name and its
-- attributes, or any other event or an error, which the code skips.
pub data XmlEvent : Type 0 where
  start_element : String → List OwnedAttribute → XmlEvent
  other_event : XmlEvent

-- `find_attr`: the first attribute of the name
unfoldable pub find_attr : List OwnedAttribute → String → Option OwnedAttribute
find_attr [] name = none
find_attr (a ∷ attributes) name =
    let later = find_attr attributes name in if str_eq a.local_name name then some a else later

unfoldable pub has_attr : List OwnedAttribute → String → Bool
has_attr attributes name = is_some (find_attr attributes name)

abbrev value_of : Option OwnedAttribute → Option String
value_of (some a) = some a.value
value_of none = none

unfoldable pub get_attr : List OwnedAttribute → String → Option String
get_attr attributes name = value_of (find_attr attributes name)

-- the body of the loop of `get_styles`: `=` is byte 61
abbrev insert_style :
    List (String × String) → String → Option (String × String) → List (String × String)
insert_style style_map s (some (k, v)) = insert style_map k v
insert_style style_map s none = insert style_map s ""

abbrev insert_styles : List (String × String) → List String → List (String × String)
insert_styles style_map [] = style_map
insert_styles style_map (s ∷ styles) =
    insert_styles (insert_style style_map s (split_once 61 s)) styles

abbrev styles_of : Option String → List (String × String)
styles_of none = []
styles_of (some style_attr) = insert_styles [] (split 59 style_attr)

unfoldable pub get_styles : List OwnedAttribute → List (String × String)
get_styles attributes = styles_of (get_attr attributes "style")

-- the node that a cell with a `vertex` describes
unfoldable pub vertex_node : List OwnedAttribute → Outcome NodeData
vertex_node attrs = do
  let styles = get_styles attrs
  id ← some_or_panic (get_attr attrs "id")
  class ← some_or_panic (get_attr attrs "value")
  ok (record {
    xml_node_id = id;
    node_class = class;
    node_kind = if contains_key str_eq styles "rhombus" then io else processor;
  })

-- the edge that a cell with an `edge` describes
unfoldable pub cell_edge : List OwnedAttribute → Outcome EdgeData
cell_edge attrs = do
  id ← some_or_panic (get_attr attrs "id")
  source ← some_or_panic (get_attr attrs "source")
  target ← some_or_panic (get_attr attrs "target")
  ok (record { xml_node_id = id; source = source; target = target; label = get_attr attrs "value" })

-- one round of the loop of `nodes_edges_from_xml`
unfoldable pub read_event :
    List NodeData × List EdgeData → XmlEvent → Outcome (List NodeData × List EdgeData)
read_event (nodes, edges) (start_element xml_node_name attrs) =
    if str_eq xml_node_name "mxCell"
    then (if has_attr attrs "vertex"
        then (vertex_node attrs >>= λ n. ok (nodes ++ n ∷ [], edges))
        else if has_attr attrs "edge"
        then (cell_edge attrs >>= λ e. ok (nodes, edges ++ e ∷ []))
        else ok (nodes, edges))
    else ok (nodes, edges)
read_event read other_event = ok read

abbrev pub read_events :
    List NodeData × List EdgeData → List XmlEvent → Outcome (List NodeData × List EdgeData)
read_events read [] = ok read
read_events read (event ∷ xml_source) =
    read_event read event >>= λ more. read_events more xml_source

unfoldable pub nodes_edges_from_xml : List XmlEvent → Outcome (List NodeData × List EdgeData)
nodes_edges_from_xml xml_source = read_events ([], []) xml_source
