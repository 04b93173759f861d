-- ===== src/Graphgen/Drawn.antt =====
-- The drawing of examples/dns-interceptor/src/pipeline.xml, on which the generator is run.
use Prim.Native.String.{String, len}
use text.Mathlib.Text.{◌==◌ as str_eq}
use text.Mathlib.TextEquality.{eq_iff}
use mathlib.Core.List.{Memᴰ, map}
use mathlib.Core.Option.{some_inj}
use text.Mathlib.TextPositions.{len-append}
use route_rs.Graphgen.Scope.Run.{IsNamed}
use route_rs.Graphgen.Source.{processor_symbol}
use route_rs.Common.{
  ℕ, ◌≢◌, Bool, true, ltb, arith, lt→ltb, zero, suc, ◌≡◌, refl, ap, sym, ◌∙◌, List, [], ◌∷◌, Option,
  none, some, false, ok, inl, inr, ◌⊎◌,
}
use route_rs.Graphgen.Fed.{All}
use route_rs.Graphgen.Generate.Drawing.{All-nth}
use route_rs.Graphgen.Graph.Filled.{AreDistinct, HasEnds}
use route_rs.Graphgen.Graph.Marked.{marked}
use route_rs.Graphgen.Graph.Topological.{
  IsWired, input_wired, output_wired, processor_wired, classifier_wired, AreUnlabelled,
}
use route_rs.Graphgen.Links.{join_id}
use route_rs.Graphgen.Members.{All-mem}
use route_rs.Graphgen.PipelineGraph.{
  NodeData, EdgeData, NodeKind, processor, io, OwnedAttribute, XmlEvent, start_element, other_event,
  nodes_edges_from_xml, find_attr, has_attr, get_attr, get_styles, vertex_node, cell_edge,
  read_event,
}
use route_rs.Graphgen.Syn.{Pat, other_pat}

abbrev attr : String → String → OwnedAttribute
attr k v = record { local_name = k; value = v }

abbrev vertex : String → String → String → XmlEvent
vertex id value style = start_element "mxCell" (
    attr "id" id
    ∷ attr "value" value
    ∷ attr "style" style
    ∷ attr "parent" "1"
    ∷ attr "vertex" "1"
    ∷ [])

abbrev exits : String
exits = "exitX=1;exitY=0.5;exitDx=0;exitDy=0;"

abbrev line : String → String → String → XmlEvent
line id source target = start_element "mxCell" (
    attr "id" id
    ∷ attr "style" exits
    ∷ attr "parent" "1"
    ∷ attr "source" source
    ∷ attr "target" target
    ∷ attr "edge" "1"
    ∷ [])

abbrev labelled : String → String → String → String → XmlEvent
labelled id value source target = start_element "mxCell" (
    attr "id" id
    ∷ attr "value" value
    ∷ attr "style" exits
    ∷ attr "parent" "1"
    ∷ attr "source" source
    ∷ attr "target" target
    ∷ attr "edge" "1"
    ∷ [])

abbrev pub drawing : List XmlEvent
drawing =
    start_element "mxGraphModel" []
    ∷ start_element "mxCell" (attr "id" "0" ∷ [])
    ∷ vertex "input-1" "(Interface, SimplePacket)" "rhombus"
    ∷ other_event
    ∷ vertex "output-1" "(Interface, SimplePacket)" "rhombus"
    ∷ vertex "processor-1" "SetInterfaceByDestination" ""
    ∷ line "link-1" "input-1" "processor-1"
    ∷ vertex "processor-2" "ClassifyDNS" ""
    ∷ line "link-2" "processor-1" "processor-2"
    ∷ vertex "processor-3" "LocalDNSInterceptor" ""
    ∷ labelled "link-3" "ClassifyDNSOutput::DNS" "processor-2" "processor-3"
    ∷ line "link-4" "processor-3" "output-1"
    ∷ labelled "link-5" "_" "processor-2" "output-1"
    ∷ []

abbrev pub node : String → String → NodeKind → NodeData
node id class kind = record { xml_node_id = id; node_class = class; node_kind = kind }

abbrev pub edge : String → String → String → Option String → EdgeData
edge id source target label = record {
  xml_node_id = id;
  source = source;
  target = target;
  label = label;
}

abbrev pub input_1 : NodeData
input_1 = node "input-1" "(Interface, SimplePacket)" io

abbrev pub output_1 : NodeData
output_1 = node "output-1" "(Interface, SimplePacket)" io

abbrev pub drawn_nodes : List NodeData
drawn_nodes =
    input_1
    ∷ output_1
    ∷ node "processor-1" "SetInterfaceByDestination" processor
    ∷ node "processor-2" "ClassifyDNS" processor
    ∷ node "processor-3" "LocalDNSInterceptor" processor
    ∷ []

abbrev pub drawn_edges : List EdgeData
drawn_edges =
    edge "link-1" "input-1" "processor-1" none
    ∷ edge "link-2" "processor-1" "processor-2" none
    ∷ edge "link-3" "processor-2" "processor-3" (some "ClassifyDNSOutput::DNS")
    ∷ edge "link-4" "processor-3" "output-1" none
    ∷ edge "link-5" "processor-2" "output-1" (some "_")
    ∷ []

abbrev pub parse_any : String → Option Pat
parse_any t = some (other_pat t)

pub read_drawing : nodes_edges_from_xml drawing ≡ ok (drawn_nodes, drawn_edges)
unfolding nodes_edges_from_xml read_event vertex_node cell_edge has_attr get_attr get_styles
    find_attr
read_drawing = refl

AreDistinct-cons :
    (n : NodeData) (ns : List NodeData)
    → All (λ (m : NodeData). str_eq n.xml_node_id m.xml_node_id ≡ false) ns
    → AreDistinct ns
    → AreDistinct (n ∷ ns)
AreDistinct-cons n ns apart distinct zero zero x y at_i at_j e = refl
AreDistinct-cons n ns apart distinct zero (suc j) x y at_i at_j e =
    let same = ap (λ (w : NodeData). w.xml_node_id) (some_inj.0 at_i) ∙ e in
    let equal = (eq_iff n.xml_node_id y.xml_node_id).1 same in
    let unequal = All-nth (λ m. str_eq n.xml_node_id m.xml_node_id ≡ false) ns j y apart at_j in cc
AreDistinct-cons n ns apart distinct (suc i) zero x y at_i at_j e =
    let same = ap (λ (w : NodeData). w.xml_node_id) (some_inj.0 at_j) ∙ sym e in
    let equal = (eq_iff n.xml_node_id x.xml_node_id).1 same in
    let unequal = All-nth (λ m. str_eq n.xml_node_id m.xml_node_id ≡ false) ns i x apart at_i in cc
AreDistinct-cons n ns apart distinct (suc i) (suc j) x y at_i at_j e =
    ap suc (distinct i j x y at_i at_j e)

AreDistinct-nil : AreDistinct []
AreDistinct-nil i j n m at_i at_j e = cc

-- No id is that of a later node.
abbrev AreApart : List NodeData → Type 0
AreApart [] = Unit {0}
AreApart (n ∷ ns) =
    All (λ (m : NodeData). str_eq n.xml_node_id m.xml_node_id ≡ false) ns × AreApart ns

AreApart-AreDistinct : (ns : List NodeData) → AreApart ns → AreDistinct ns
AreApart-AreDistinct [] h = AreDistinct-nil
AreApart-AreDistinct (n ∷ ns) h = AreDistinct-cons n ns h.0 (AreApart-AreDistinct ns h.1)

pub drawn-AreDistinct : AreDistinct drawn_nodes
drawn-AreDistinct = AreApart-AreDistinct drawn_nodes (
  (refl, (refl, (refl, (refl, tt)))),
  ((refl, (refl, (refl, tt))), ((refl, (refl, tt)), ((refl, tt), (tt, tt)))),
)

pub drawn_ends : All (HasEnds drawn_nodes) drawn_edges
drawn_ends = (
  ((0, input_1, refl, refl), (2, _, refl, refl)),
  (
    ((2, _, refl, refl), (3, _, refl, refl)),
    (
      ((3, _, refl, refl), (4, _, refl, refl)),
      (
        ((4, _, refl, refl), (1, output_1, refl, refl)),
        (((3, _, refl, refl), (1, output_1, refl, refl)), tt),
      ),
    ),
  ),
)

pub drawn_apart : (e : EdgeData) → Memᴰ e drawn_edges → str_eq (join_id e.target) e.source ≡ false
drawn_apart e m =
    All-mem (λ (x : EdgeData). str_eq (join_id x.target) x.source ≡ false) drawn_edges e
      (refl, (refl, (refl, (refl, (refl, tt))))) m

-- An edge is unlabelled, or leaves another node.
plain :
    (id : String)
    → All (λ (e : EdgeData). (str_eq e.source id ≡ false) ⊎ (e.label ≡ none)) drawn_edges
    → AreUnlabelled parse_any drawn_edges input_1 output_1 id
plain id h e m s =
    elim (All-mem (λ (x : EdgeData). (str_eq x.source id ≡ false) ⊎ (x.label ≡ none)) drawn_edges e
      h m) [ inl other ↦ cc ((eq_iff e.source id).1 s) | inr unlabelled ↦ unlabelled ]

pub drawn-IsWired :
    All (IsWired parse_any drawn_edges input_1 output_1) (map (marked drawn_edges) drawn_nodes)
drawn-IsWired = (
  input_wired refl refl
      (plain "input-1" (inr refl, (inr refl, (inl refl, (inr refl, (inl refl, tt)))))),
  (
    output_wired refl refl refl (λ e m s.
        let unequal =
          All-mem (λ (x : EdgeData). str_eq x.source "output-1" ≡ false) drawn_edges e
            (refl, (refl, (refl, (refl, (refl, tt))))) m in
        let equal = (eq_iff e.source "output-1").1 s in cc),
    (
      processor_wired refl
          (plain "processor-1" (inr refl, (inr refl, (inl refl, (inr refl, (inl refl, tt)))))),
      (
        classifier_wired ("ClassifyDNSOutput::DNS" ∷ "_" ∷ []) refl refl
            ((_, refl), ((_, refl), tt)),
        (
          processor_wired refl
              (plain "processor-3" (inr refl, (inr refl, (inl refl, (inr refl, (inl refl, tt)))))),
          tt,
        ),
      ),
    ),
  ),
)

-- A text is taken for an identifier where it is not empty.
abbrev pub is_text : String → Bool
is_text name = ltb 0 (len name)

symbol_is_text : (i : ℕ) (n : NodeData) → is_text (processor_symbol (λ s. s) i n) ≡ true
symbol_is_text i n = lt→ltb 0 _ (omega (arith, len-append "elem_" _))

texts-IsNamed :
    (ns : List NodeData)
    → All (λ (n : NodeData). is_text n.node_class ≡ true) ns
    → All (λ (n : NodeData). n.node_kind ≢ io → IsNamed (λ s. s) is_text n) ns
texts-IsNamed [] h = tt
texts-IsNamed (n ∷ ns) (class, h) = (λ k. (class, λ i. symbol_is_text i n), texts-IsNamed ns h)

pub drawn-IsNamed :
    All
      (λ (n : NodeData). n.node_kind ≢ io → IsNamed (λ s. s) is_text n)
      (map (marked drawn_edges) drawn_nodes)
drawn-IsNamed =
    texts-IsNamed (map (marked drawn_edges) drawn_nodes) (refl, (refl, (refl, (refl, (refl, tt)))))
