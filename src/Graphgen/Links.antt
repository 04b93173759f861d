-- ===== src/Graphgen/Links.antt =====
-- route-rs-graphgen/src/main.rs: the links of the generated router, from the nodes and the edges of its
-- graph (`get_io_nodes`, `expand_join_link` and the loop of `gen_run_body`).
use Prim.Native.String.{String, ◌++◌ as append}
use text.Mathlib.Text.{◌==◌ as str_eq}
use mathlib.Core.List.{map}
use route_rs.Common.{
  Bool, false, ◌||◌, List, [], ◌∷◌, ◌++◌, Option, none, Outcome, ok, panic, ◌>>=◌, some_or_panic,
  if◌then◌else◌,
}
use route_rs.Graphgen.PipelineGraph.{
  NodeKind, classifier, processor, io, kind_eq, NodeData, EdgeData,
}

-- an egressor of a link: the node of the link, and the label of the branch of a classifier
abbrev pub Feeder : Type 0
Feeder = String × Option String

pub data Link : Type 0 where
  input : Link
  output : Feeder → Link
  sync : Feeder → String → Link
  classify : Feeder → String → List String → Link
  join : List Feeder → Link

-- `filter` of an iterator
abbrev pub filter {ℓ} : {A : Type ℓ} → (A → Bool) → List A → List A
filter p [] = []
filter p (x ∷ xs) = let rest = filter p xs in if p x then x ∷ rest else rest

abbrev pub any {ℓ} : {A : Type ℓ} → (A → Bool) → List A → Bool
any p [] = false
any p (x ∷ xs) = p x || any p xs

-- the one element that the asserted length leaves
abbrev pub only {ℓ} : {A : Type ℓ} → List A → Outcome A
only (x ∷ []) = ok x
only _ = panic

unfoldable pub get_io_nodes : List NodeData → List EdgeData → Outcome (NodeData × NodeData)
get_io_nodes nodes edges = do
  let io_nodes = filter (λ n. kind_eq n.node_kind io) nodes
  input_type ← only (filter (λ n. any (λ e. str_eq e.source n.xml_node_id) edges) io_nodes)
  output_type ← only (filter (λ n. any (λ e. str_eq e.target n.xml_node_id) edges) io_nodes)
  ok (input_type, output_type)

abbrev pub feeder : EdgeData → Feeder
feeder e = (e.source, e.label)

abbrev pub join_id : String → String
join_id orig_xml_node_id = append "join_" orig_xml_node_id

unfoldable pub expand_join_link :
    List EdgeData
    → List (String × Link)
    → String
    → (String → Option String → Link)
    → List (String × Link)
expand_join_link (f ∷ []) links orig_xml_node_id link_builder =
    links ++ (orig_xml_node_id, link_builder f.source f.label) ∷ []
expand_join_link feeders links orig_xml_node_id link_builder =
    links
    ++ (join_id orig_xml_node_id, join (map feeder feeders))
      ∷ (orig_xml_node_id, link_builder (join_id orig_xml_node_id) none)
      ∷ []

abbrev pub feeders_of : List EdgeData → NodeData → List EdgeData
feeders_of edges nd = filter (λ e. str_eq e.target nd.xml_node_id) edges

-- the outlets of a classifier: the labels of the edges that leave it
abbrev pub labels : List EdgeData → Outcome (List String)
labels [] = ok []
labels (e ∷ edges) = do label ← some_or_panic e.label; more ← labels edges; ok (label ∷ more)

abbrev pub outlets_of : List EdgeData → NodeData → Outcome (List String)
outlets_of edges nd = labels (filter (λ e. str_eq e.source nd.xml_node_id) edges)

module _ (edges : List EdgeData) (input_node output_node : NodeData) where
  -- the processors and the links so far
  abbrev pub Plan : Type 0
  Plan = List NodeData × List (String × Link)

  abbrev expand :
      NodeData → List (String × Link) → (String → Option String → Link) → List (String × Link)
  expand nd links link_builder =
      expand_join_link (feeders_of edges nd) links nd.xml_node_id link_builder

  abbrev pub add_io : NodeData → Plan → Outcome Plan
  add_io nd (processors, links) =
      if str_eq nd.xml_node_id input_node.xml_node_id
      then ok (processors, links ++ (nd.xml_node_id, input) ∷ [])
      else if str_eq nd.xml_node_id output_node.xml_node_id
      then ok (processors, expand nd links (λ xni label. output (xni, label)))
      else panic

  -- one round of the loop
  abbrev pub add_kind : NodeKind → NodeData → Plan → Outcome Plan
  add_kind io nd plan = add_io nd plan
  add_kind processor nd (processors, links) =
      ok (processors ++ nd ∷ [], expand nd links (λ xni label. sync (xni, label) nd.xml_node_id))
  add_kind classifier nd (processors, links) = do
    outlets ← outlets_of edges nd
    ok (
      processors ++ nd ∷ [],
      expand nd links (λ xni label. classify (xni, label) nd.xml_node_id outlets),
    )

  unfoldable pub add_node : NodeData → Plan → Outcome Plan
  add_node nd plan = add_kind nd.node_kind nd plan

  unfoldable pub add_nodes : List NodeData → Plan → Outcome Plan
  add_nodes [] plan = ok plan
  add_nodes (nd ∷ nodes) plan = add_node nd plan >>= λ more. add_nodes nodes more
