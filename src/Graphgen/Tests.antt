-- ===== src/Graphgen/Tests.antt =====
-- The generator on the drawing of examples/dns-interceptor/src/pipeline.xml.
use mathlib.Core.List.{map}
use route_rs.Common.{◌≡◌, ◌≢◌, refl, List, [], ◌∷◌, none, some, ok}
use route_rs.Graphgen.Fed.{All}
use route_rs.Graphgen.Generate.Drawing.{drawing_body}
use route_rs.Graphgen.Cells.{
  Cell, node_cell, edge_cell, other_element, no_element, event_of, nodes_edges_from_xml-event_of,
}
use route_rs.Graphgen.Graph.{new, edges, ordered_nodes, build_graph, Arc}
use route_rs.Graphgen.Graph.ListGraph.{ListGraph, list_graph, list_graph-IsPetgraph}
use route_rs.Graphgen.Graph.Filled.{IsLinked}
use route_rs.Graphgen.Graph.Marked.{marked, build_graph_marks}
use route_rs.Graphgen.PipelineGraph.{NodeData, classifier, processor, io, nodes_edges_from_xml}
use route_rs.Graphgen.Scope.{IsScopedBody}
use route_rs.Graphgen.Scope.Run.{run_parameters}
use route_rs.Graphgen.Source.{gen_run_body}
use route_rs.Graphgen.Syn.{Stmt, stmts}
use route_rs.Graphgen.Drawn.{
  is_text, drawn-IsNamed, drawing, node, edge, input_1, output_1, drawn_nodes, drawn_edges,
  parse_any, read_drawing, drawn-AreDistinct, drawn_ends, drawn_apart, drawn-IsWired,
}

drawing_body_example :
    (g : ListGraph) × (ordered : List NodeData) × (body : List Stmt) × (new list_graph drawing
      ≡ ok g)
    × (ordered_nodes list_graph g ≡ ok ordered)
    × (edges list_graph g ≡ ok drawn_edges)
    × (gen_run_body (λ s. s) is_text parse_any ordered drawn_edges input_1 output_1 ≡ ok body)
    × IsScopedBody run_parameters (stmts body)
drawing_body_example =
    drawing_body list_graph list_graph-IsPetgraph (λ s. s) is_text parse_any drawing drawn_nodes
      drawn_edges input_1 output_1 read_drawing drawn-AreDistinct drawn_ends drawn_apart
      drawn-IsWired drawn-IsNamed

build_graph_marks_example :
    (g : ListGraph) × (build_graph list_graph drawn_nodes drawn_edges ≡ ok g)
    × (g.nodes ≡ map (marked drawn_edges) drawn_nodes)
    × (map (λ (a : Arc). a.weight) g.links ≡ drawn_edges)
    × All (IsLinked drawn_nodes) g.links
build_graph_marks_example =
    build_graph_marks list_graph list_graph-IsPetgraph drawn_nodes drawn_edges drawn-AreDistinct
      drawn_ends

abbrev cells : List Cell
cells =
    other_element "mxGraphModel" []
    ∷ node_cell input_1
    ∷ no_element
    ∷ edge_cell (edge "link-3" "processor-2" "processor-3" (some "_"))
    ∷ node_cell (node "processor-3" "Identity" processor)
    ∷ edge_cell (edge "link-1" "input-1" "processor-3" none)
    ∷ []

nodes_edges_from_xml-event_of_example :
    nodes_edges_from_xml (map event_of cells)
    ≡ ok (
      input_1 ∷ node "processor-3" "Identity" processor ∷ [],
      edge "link-3" "processor-2" "processor-3" (some "_")
          ∷ edge "link-1" "input-1" "processor-3" none
          ∷ [],
    )
nodes_edges_from_xml-event_of_example =
    nodes_edges_from_xml-event_of cells (refl, (io_ne, (tt, (tt, (processor_ne, (tt, tt))))))
  where
    io_ne : io ≢ classifier
    io_ne h = cc

    processor_ne : processor ≢ classifier
    processor_ne h = cc
