-- ===== src/Graphgen/Graph/ListGraph.antt =====
-- An instance of the interface: a graph is the lists of its nodes and edges, and its order is found by
-- taking, again and again, the first node that is left and whose sources are all taken. The tests run
-- the generator over it.
use mathlib.Core.List.{Memᴰ, map}
use mathlib.Core.List.Memᴰ
use mathlib.Core.Option.{some_inj}
use route_rs.Common.{
  ℕ, zero, suc, ◌+◌, ◌<◌, ◌≡◌, refl, ap, sym, ◌∙◌, subst, List, [], ◌∷◌, ◌++◌, Option, none, some,
  Bool, true, false, not, ◌&&◌, ◌||◌, inl, inr, ◌⊎◌, length, arith, ◌==◌, ==_iff, if◌then◌else◌,
  Bool-cases, Option-cases,
}
use route_rs.Graphgen.Graph.{Petgraph, IsPetgraph, Arc, nth, put, from}
use route_rs.Graphgen.Links.{filter}
use route_rs.Graphgen.PipelineGraph.{NodeData}

pub record ListGraph : Type 0 where
  pub nodes : List NodeData
  pub links : List Arc

abbrev elem : ℕ → List ℕ → Bool
elem i [] = false
elem i (j ∷ js) = i == j || elem i js

abbrev sources_in : List ℕ → ℕ → List Arc → Bool
sources_in taken i [] = true
sources_in taken i (a ∷ links) =
    (not (a.head == i) || elem a.tail taken) && sources_in taken i links

abbrev is_ready : List Arc → List ℕ → ℕ → Bool
is_ready links taken i = not (elem i taken) && sources_in taken i links

abbrev first_ready : List Arc → List ℕ → List ℕ → Option ℕ
first_ready links taken [] = none
first_ready links taken (i ∷ indices) =
    let later = first_ready links taken indices in if is_ready links taken i then some i else later

-- on fuel, one for each node; no node is taken twice
abbrev take_next : (ℕ → List ℕ) → List ℕ → Option ℕ → List ℕ
take_next more taken none = taken
take_next more taken (some i) = more i

abbrev take_ready : ℕ → List Arc → ℕ → List ℕ → List ℕ
take_ready n links zero taken = taken
take_ready n links (suc fuel) taken =
    take_next (λ i. take_ready n links fuel (taken ++ i ∷ [])) taken
      (first_ready links taken (from 0 n))

abbrev pub list_graph : Petgraph
list_graph = record {
  Graph = ListGraph;
  new_graph = record { nodes = []; links = [] };
  add_node = λ g n. (length g.nodes, record g { nodes = g.nodes ++ n ∷ [] });
  extend_with_edge =
      λ g a b e. record g { links = g.links ++ record { tail = a; head = b; weight = e } ∷ [] };
  node_indices = λ g. from 0 (length g.nodes);
  count_edges = λ g i. length (filter (λ (a : Arc). a.tail == i) g.links);
  node_weight = λ g i. nth g.nodes i;
  set_node_weight = λ g i n. record g { nodes = put g.nodes i n };
  edge_indices = λ g. from 0 (length g.links);
  edge_weight = λ g i. nth (map (λ (a : Arc). a.weight) g.links) i;
  topo = λ g. take_ready (length g.nodes) g.links (length g.nodes) [];
  weights = λ g. g.nodes;
  arcs = λ g. g.links;
}

elem-Memᴰ : (i : ℕ) (js : List ℕ) → elem i js ≡ true → Memᴰ i js
elem-Memᴰ i [] h = cc
elem-Memᴰ i (j ∷ js) h = elim (Bool-cases (i == j)) [
  | inl same ↦ Memᴰ.head ((==_iff i j).0 same)
  | inr other ↦ Memᴰ.tail (elem-Memᴰ i js (rw other at h))
]

Memᴰ-elem : (i : ℕ) (js : List ℕ) → Memᴰ i js → elem i js ≡ true
Memᴰ-elem i [] m = absurd (Memᴰ.not-nil m)
Memᴰ-elem i (j ∷ js) m = elim (Memᴰ.cases_cons m) [
  | inl e ↦ rw ((==_iff i j).1 e) refl
  | inr m' ↦ elim (Bool-cases (i == j)) [
    | inl same ↦ rw same refl
    | inr other ↦ rw other (Memᴰ-elem i js m')
  ]
]

sources_in_lem :
    (taken : List ℕ) (i : ℕ) (links : List Arc) (a : Arc)
    → sources_in taken i links ≡ true
    → Memᴰ a links
    → a.head ≡ i
    → Memᴰ a.tail taken
sources_in_lem taken i [] a h m e = absurd (Memᴰ.not-nil m)
sources_in_lem taken i (b ∷ links) a h m e =
    let (here, later) =
      and_split (not (b.head == i) || elem b.tail taken) (sources_in taken i links) h in
    elim (Memᴰ.cases_cons m) [
      | inl same ↦
          let at : b.head ≡ i = ap (λ (x : Arc). x.head) (sym same) ∙ e in
          Memᴰ.cast (ap (λ (x : Arc). x.tail) same)
            (elem-Memᴰ b.tail taken (rw ((==_iff b.head i).1 at) at here))
      | inr m' ↦ sources_in_lem taken i links a later m' e
    ]
  where
    and_split : (p q : Bool) → (p && q) ≡ true → (p ≡ true) × (q ≡ true)
    and_split true q h = (refl, h)
    and_split false q h = cc

-- A split of a list with one more is a split of the list or at its end.
snoc_split :
    (taken front back : List ℕ) (i j : ℕ)
    → taken ++ i ∷ [] ≡ front ++ j ∷ back
    → ((back' : List ℕ) × (taken ≡ front ++ j ∷ back')) ⊎ (taken ≡ front) × (i ≡ j)
snoc_split [] [] back i j h = inr (refl, cc)
snoc_split [] (f ∷ []) back i j h = cc
snoc_split [] (f ∷ k ∷ front) back i j h = cc
snoc_split (t ∷ taken) [] back i j h = inl (taken, cc)
snoc_split (t ∷ taken) (f ∷ front) back i j h =
    let head_eq : t ≡ f = cc in
    let tail_eq : taken ++ i ∷ [] ≡ front ++ j ∷ back = cc in
    elim (snoc_split taken front back i j tail_eq) [
      | inl (back', e) ↦ inl (back', cc)
      | inr (e, same) ↦ inr (cc, same)
    ]

-- The taken nodes are in range, each once, and behind their sources.
record IsTaken (n : ℕ) (links : List Arc) (taken : List ℕ) : Type 0 where
  in_range : (i : ℕ) → Memᴰ i taken → i < n
  order :
      (front back : List ℕ) (i : ℕ) (a : Arc)
      → taken ≡ front ++ i ∷ back
      → Memᴰ a links
      → a.head ≡ i
      → Memᴰ a.tail front
  once : (front back : List ℕ) (i : ℕ) → taken ≡ front ++ i ∷ back → ¬ Memᴰ i front

first_ready_lem :
    (links : List Arc) (taken indices : List ℕ) (i : ℕ)
    → first_ready links taken indices ≡ some i
    → Memᴰ i indices × (elem i taken ≡ false) × (sources_in taken i links ≡ true)
first_ready_lem links taken [] i h = cc
first_ready_lem links taken (j ∷ indices) i h = elim (Bool-cases (is_ready links taken j)) [
  | inl ready ↦
      let e : j ≡ i = some_inj.0 (rw ready at h) in
      let (fresh, sources) = ready_split (elem j taken) (sources_in taken j links) ready in
      (
        Memᴰ.head (sym e),
        subst (λ k. elem k taken ≡ false) e fresh,
        subst (λ k. sources_in taken k links ≡ true) e sources,
      )
  | inr busy ↦
      let (m, fresh, sources) = first_ready_lem links taken indices i (rw busy at h) in
      (Memᴰ.tail m, fresh, sources)
]
  where
    ready_split : (p q : Bool) → (not p && q) ≡ true → (p ≡ false) × (q ≡ true)
    ready_split true q h = cc
    ready_split false q h = (refl, h)

Memᴰ-from : (k n i : ℕ) → Memᴰ i (from k n) → i < k + n
Memᴰ-from k zero i m = absurd (Memᴰ.not-nil m)
Memᴰ-from k (suc n) i m = elim (Memᴰ.cases_cons m) [
  | inl e ↦ omega arith
  | inr m' ↦ omega (arith, Memᴰ-from (suc k) n i m')
]

IsTaken-snoc :
    (n : ℕ) (links : List Arc) (taken : List ℕ) (i : ℕ)
    → IsTaken n links taken
    → i < n
    → elem i taken ≡ false
    → sources_in taken i links ≡ true
    → IsTaken n links (taken ++ i ∷ [])
IsTaken-snoc n links taken i inv lt fresh sources = record {
  in_range = λ j m. elim (Memᴰ.append_cases taken m) [
    | inl old ↦ inv.in_range j old
    | inr last ↦ subst (λ k. k < n) (sym (Memᴰ.eq_of_singleton last)) lt
  ];
  order = λ front back j a e m at. elim (snoc_split taken front back i j e) [
    | inl (back', old) ↦ inv.order front back' j a old m at
    | inr (all, same) ↦
        subst (Memᴰ a.tail) all (sources_in_lem taken i links a sources m (at ∙ sym same))
  ];
  once = λ front back j e. elim (snoc_split taken front back i j e) [
    | inl (back', old) ↦ inv.once front back' j old
    | inr (all, same) ↦ λ m. cc (Memᴰ-elem i taken (Memᴰ.cast same (subst (Memᴰ j) (sym all) m)))
  ];
}

take_ready-IsTaken :
    (n : ℕ) (links : List Arc) (fuel : ℕ) (taken : List ℕ)
    → IsTaken n links taken
    → IsTaken n links (take_ready n links fuel taken)
take_ready-IsTaken n links zero taken inv = inv
take_ready-IsTaken n links (suc fuel) taken inv =
    elim (Option-cases (first_ready links taken (from 0 n))) [
      | inl stuck ↦ rw stuck inv
      | inr (i, found) ↦
          let (m, fresh, sources) = first_ready_lem links taken (from 0 n) i found in
          rw found (
            take_ready-IsTaken n links fuel (taken ++ i ∷ [])
              (IsTaken-snoc n links taken i inv (omega (arith, Memᴰ-from 0 n i m)) fresh sources))
    ]

topo-IsTaken : (g : ListGraph) → IsTaken (length g.nodes) g.links (list_graph.topo g)
topo-IsTaken g = take_ready-IsTaken (length g.nodes) g.links (length g.nodes) [] (record {
  in_range = λ i m. absurd (Memᴰ.not-nil m);
  order = λ front back i a e m at. absurd (not_split front back i e);
  once = λ front back i e. absurd (not_split front back i e);
})
  where
    not_split : (front back : List ℕ) (i : ℕ) → ¬ ([] ≡ front ++ i ∷ back)
    not_split [] back i e = cc
    not_split (f ∷ front) back i e = cc

pub list_graph-IsPetgraph : IsPetgraph list_graph
list_graph-IsPetgraph = record {
  weights-new = refl;
  arcs-new = refl;
  index-add_node = λ g n. refl;
  weights-add_node = λ g n. refl;
  arcs-add_node = λ g n. refl;
  weights-extend = λ g a b e p q. refl;
  arcs-extend = λ g a b e p q. refl;
  node_indices_lem = λ g. refl;
  count_edges_lem = λ g i. refl;
  node_weight_lem = λ g i. refl;
  weights-set = λ g i n. refl;
  arcs-set = λ g i n. refl;
  edge_indices_lem = λ g. refl;
  edge_weight_lem = λ g i. refl;
  topo_in_range = λ g i m. (topo-IsTaken g).in_range i m;
  topo_order = λ g front back i a e m at. (topo-IsTaken g).order front back i a e m at;
  topo_once = λ g front back i e. (topo-IsTaken g).once front back i e;
}
