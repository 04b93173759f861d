-- ===== src/Graphgen/Generate.antt =====
-- route-rs-graphgen/src/main.rs: the text of the generated source, and the way from a drawing to it.
pub mod Drawing
use Prim.Native.String.{String, ◌++◌ as append}
use mathlib.Core.List.{map}
use route_rs.Common.{
  Bool, List, [], ◌∷◌, ◌++◌, Option, none, some, Outcome, ok, panic, ◌>>=◌, some_or_panic,
  if◌then◌else◌,
}
use route_rs.Graphgen.Codegen.{
  use_path, use_glob, import, comment, impl_struct, typedef, function_def, path,
}
use route_rs.Graphgen.Codegen.Text.{join, split, is_empty}
use route_rs.Graphgen.Graph.{Petgraph, new, edges, ordered_nodes}
use route_rs.Graphgen.Links.{get_io_nodes}
use route_rs.Graphgen.PipelineGraph.{NodeData, EdgeData, XmlEvent}
use route_rs.Graphgen.Source.{gen_run_body}
use route_rs.Graphgen.Syn.{
  Ty, path_type, Pat, Item, Stmt, UseTree, use_name_tree, default_return, SynPath,
}

-- the `use` trees of `gen_source_imports`
unfoldable pub source_imports : List String → List String → List UseTree
source_imports local_modules runtime_modules =
    map (λ lm. use_path "crate" (use_path lm use_glob)) local_modules
    ++ (use_path "route_rs_runtime" (use_path "link" use_glob)
        ∷ use_path "route_rs_runtime" (use_path "link" (use_path "primitive" use_glob))
        ∷ [])
    ++ map (λ rm. use_path "route_rs_runtime" (use_path rm use_glob)) runtime_modules
    ++ (use_path "tokio" (use_name_tree "runtime")
        ∷ use_path "tokio" (use_path "task" (use_name_tree "JoinHandle"))
        ∷ [])

-- `crossbeam::end<Self::name>`
abbrev channel_type : String → String → Ty
channel_type end name = path_type (
    path (
      ("crossbeam", none)
      ∷ (end, some (path_type (path (("Self", none) ∷ (name, none) ∷ [])) ∷ []))
      ∷ []))

-- `print` is `to_token_stream().to_string()`, `parse_type` and `parse_pat` are `syn::parse_str`,
-- `is_ident` tells the texts that `syn::Ident::new` takes, and `to_lowercase` is that of `str`.
module _ (print : Item → String) (parse_type : String → Option Ty) (to_lowercase : String → String)
    (is_ident : String → Bool) (parse_pat : String → Option Pat) where
  abbrev pub gen_source_imports : List String → List String → String
  gen_source_imports local_modules runtime_modules =
      import print (source_imports local_modules runtime_modules)

  -- the text around the body of `run`
  abbrev pipeline_text : Ty → Ty → List Stmt → String
  pipeline_text input_type output_type body = join "\n\n" (
      "pub struct Pipeline {}"
      ∷ impl_struct "route_rs_runtime::pipeline::Runner" "Pipeline" (
          join "\n\n" (
            typedef print (("Input", input_type) ∷ ("Output", output_type) ∷ [])
            ∷ print (
                function_def "run"
                  (("input_channel", channel_type "Receiver" "Input")
                    ∷ ("output_channel", channel_type "Sender" "Output")
                    ∷ [])
                  body default_return)
            ∷ []))
      ∷ [])

  unfoldable pub gen_source_pipeline : List NodeData → List EdgeData → Outcome String
  gen_source_pipeline nodes es = do
    (input_node, output_node) ← get_io_nodes nodes es
    input_type ← some_or_panic (parse_type input_node.node_class)
    output_type ← some_or_panic (parse_type output_node.node_class)
    body ← gen_run_body to_lowercase is_ident parse_pat nodes es input_node output_node
    ok (pipeline_text input_type output_type body)

  -- `source_graph_path` is the text that the path displays
  unfoldable pub generate_pipeline_source :
      String → List String → List String → List NodeData → List EdgeData → Outcome String
  generate_pipeline_source source_graph_path local_modules runtime_modules nodes es = do
    pipeline ← gen_source_pipeline nodes es
    ok (
        append
          (join "\n\n" (
            comment (append "Generated by route-rs-graphgen\nSource graph: " source_graph_path)
            ∷ gen_source_imports local_modules runtime_modules
            ∷ pipeline
            ∷ []))
          "\n")

  -- `get_array_arg`, from the value of the argument
  abbrev pub get_array_arg : String → List String
  get_array_arg value = if is_empty value then [] else split 44 value

  -- the part of `main` between the drawing that is read and the text that is written
  unfoldable pub generate : Petgraph → String → String → String → List XmlEvent → Outcome String
  generate pg source_graph_path local_modules runtime_modules xml_source = do
    graph ← new pg xml_source
    nodes ← ordered_nodes pg graph
    es ← edges pg graph
    generate_pipeline_source source_graph_path (get_array_arg local_modules)
        (get_array_arg runtime_modules) nodes es
