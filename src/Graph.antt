-- ===== src/Graph.antt =====
-- src/graph/Graph.hxx and Graph.cxx: graphs with weights, as a list of edges for each vertex, and the
-- subgraph of src/graph/Vertex_Induced_Subgraph.cxx. `none` is an access outside a vector or a failed
-- `assert`. The weight of an edge is a 32-bit word, and `u32` cuts what it cannot hold. Printing and the files are not here.
pub mod Laws
use bitdrill.Base.{ℕ, zero, suc, ◌+◌, ◌/◌, max, Bool, true, false, Option, some, none}
use bitdrill.Base.{
  List, [], ◌∷◌, ◌++◌, length, take, replicate, get_elem?, set, if◌then◌else◌, ltb, leb, ◌==◌,
  one_if, ◌>>=◌, ◌-◌,
}
use bitdrill.Base.Masks.{u32}
use bitdrill.TransactionSet.{has_item}

pub record Edge : Type 0 where
  pub neighbor : ℕ
  pub weight : ℕ

pub record Graph : Type 0 where
  pub weights : List ℕ
  pub adjacency : List (List Edge)

abbrev pub new_graph : Graph
new_graph = record { weights = []; adjacency = [] }

-- `Adjacency::add`.
unfoldable pub add_edge : Edge → List Edge → List Edge
add_edge x [] = x ∷ []
add_edge x (elt ∷ adj) =
    let later = add_edge x adj in
    if elt.neighbor == x.neighbor
    then record { neighbor = elt.neighbor; weight = u32 (elt.weight + x.weight) } ∷ adj
    else elt ∷ later

-- `Adjacency::edge` and `Adjacency::weight`.
unfoldable pub has_edge : List Edge → ℕ → Bool
has_edge [] neighbor = false
has_edge (u ∷ adj) neighbor =
    let later = has_edge adj neighbor in if u.neighbor == neighbor then true else later

unfoldable pub edge_weight : List Edge → ℕ → ℕ
edge_weight [] neighbor = 0
edge_weight (u ∷ adj) neighbor =
    let later = edge_weight adj neighbor in if u.neighbor == neighbor then u.weight else later

-- `std::vector::resize`, with what fills the new places.
abbrev pub resize_list {ℓ} : {A : Type ℓ} → ℕ → A → List A → List A
resize_list n a xs = take n xs ++ replicate (n - length xs) a

unfoldable pub resize : ℕ → Graph → Graph
resize nvtx g = record {
  weights = resize_list nvtx 0 g.weights;
  adjacency = resize_list nvtx [] g.adjacency;
}

unfoldable pub reserve_vertex : ℕ → Graph → Graph
unfolding resize
reserve_vertex u g = if leb (length g.adjacency) u then resize (u + 1) g else g

unfoldable pub add : ℕ → ℕ → ℕ → Graph → Option Graph
unfolding reserve_vertex add_edge
add u v w g =
    let reserved = reserve_vertex (max u v) g in
    do
      adj ← get_elem? reserved.adjacency u
      some (record reserved {
        adjacency =
            set reserved.adjacency u (add_edge (record { neighbor = v; weight = u32 w }) adj);
      })

-- The edge in both directions.
unfoldable pub addu : ℕ → ℕ → ℕ → Graph → Option Graph
unfolding add
addu u v w g = add u v w g >>= add v u w

unfoldable pub set_weight : ℕ → ℕ → Graph → Option Graph
set_weight u w g =
    if ltb u (length g.weights) then some (record g { weights = set g.weights u w }) else none

unfoldable pub degree : Graph → ℕ → Option ℕ
degree g v = do adj ← get_elem? g.adjacency v; some (length adj)

abbrev pub num_vertices : Graph → ℕ
num_vertices g = length g.adjacency

-- The loop of `real_num_vertices`.
pub count_real : List (List Edge) → ℕ
count_real [] = 0
count_real (adj ∷ rest) = one_if (ltb 0 (length adj)) + count_real rest

unfoldable pub real_num_vertices : Graph → ℕ
unfolding count_real
real_num_vertices g = count_real g.adjacency

pub count_edges : List (List Edge) → ℕ
count_edges [] = 0
count_edges (adj ∷ rest) = length adj + count_edges rest

-- The number of directed edges, and half of it.
unfoldable pub num_edges : Graph → ℕ
unfolding count_edges
num_edges g = count_edges g.adjacency

unfoldable pub num_uedges : Graph → ℕ
unfolding num_edges
num_uedges g = num_edges g / 2

-- The loop over the edges of A vertex that are copied to the subgraph of A.
pub copy_edges : List ℕ → ℕ → List Edge → Graph → Option Graph
unfolding has_item add
copy_edges a u [] sub = some sub
copy_edges a u (e ∷ adj) sub = elim (has_item a e.neighbor) [
  | true ↦ add u e.neighbor e.weight sub >>= copy_edges a u adj
  | false ↦ copy_edges a u adj sub
]

pub copy_vertices : List ℕ → Graph → List ℕ → Graph → Option Graph
unfolding set_weight copy_edges
copy_vertices a g [] sub = some sub
copy_vertices a g (u ∷ us) sub = do
  w ← get_elem? g.weights u
  weighted ← set_weight u w sub
  adj ← get_elem? g.adjacency u
  copied ← copy_edges a u adj weighted
  copy_vertices a g us copied

-- `vertex_induced_subgraph (G, A, Gsub)`, with A in ascending order.
unfoldable pub vertex_induced_subgraph : Graph → List ℕ → Graph → Option Graph
unfolding resize copy_vertices
vertex_induced_subgraph g a sub = copy_vertices a g a (resize (num_vertices g) (resize 0 sub))
