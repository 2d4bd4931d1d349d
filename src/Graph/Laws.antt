-- ===== src/Graph/Laws.antt =====
-- The operations of src/graph/Graph.cxx as operations on the weights of pairs of vertices.
use bitdrill.Base.Masks.{u32}
use bitdrill.Base.{
  ℕ, zero, suc, ◌+◌, ◌-◌, ◌^◌, max, ◌<◌, ◌≤◌, ◌≡◌, refl, ap, ◌∙◌, sym, arith, inl, inr,
}
use bitdrill.Base.{
  Bool, true, false, ◌&&◌, ◌||◌, Option, some, List, [], ◌∷◌, length, replicate, length-replicate,
  get_elem?, length-set, set, if◌then◌else◌, leb, ◌==◌, ==_iff, Bool-cases,
}
use bitdrill.TidVector.Laws.{has}
use bitdrill.VerticalDb.Ranks.{NoRepeats}
use bitdrill.Graph.{
  Edge, Graph, add_edge, has_edge, edge_weight, resize_list, resize, reserve_vertex, add, addu,
}

-- The edges of a vertex, none where there is no such vertex.
abbrev pub edges_at : List (List Edge) → ℕ → List Edge
edges_at [] u = []
edges_at (adj ∷ rest) zero = adj
edges_at (adj ∷ rest) (suc u) = edges_at rest u

abbrev pub neighbors : List Edge → List ℕ
neighbors [] = []
neighbors (e ∷ adj) = e.neighbor ∷ neighbors adj

-- The weight from u to v, 0 without an edge, and whether there is an edge.
abbrev pub weight_at : Graph → ℕ → ℕ → ℕ
weight_at g u v = edge_weight (edges_at g.adjacency u) v

abbrev pub joined_at : Graph → ℕ → ℕ → Bool
joined_at g u v = has_edge (edges_at g.adjacency u) v

-- A weight to which w has been added, where `hit` says so, in 32 bits.
abbrev pub raised : Bool → ℕ → ℕ → ℕ
raised hit w x = if hit then u32 (x + w) else x

edge_weight-add_edge :
    (x : Edge) (adj : List Edge) (v : ℕ)
    → x.weight < 2 ^ 32
    → edge_weight (add_edge x adj) v ≡ raised (x.neighbor == v) x.weight (edge_weight adj v)
unfolding edge_weight add_edge
edge_weight-add_edge x [] v small = ground (arith, small)
edge_weight-add_edge x (e ∷ adj) v small = elim (Bool-cases (e.neighbor == x.neighbor)) [
  | inl here ↦ rw here (ground (arith, here))
  | inr later ↦ rw later (ground (arith, later, edge_weight-add_edge x adj v small))
]

has_edge-add_edge :
    (x : Edge) (adj : List Edge) (v : ℕ)
    → has_edge (add_edge x adj) v ≡ (x.neighbor == v || has_edge adj v)
unfolding has_edge add_edge
has_edge-add_edge x [] v = ground arith
has_edge-add_edge x (e ∷ adj) v = ground (arith, has_edge-add_edge x adj v)

pub has-neighbors : (adj : List Edge) (v : ℕ) → has (neighbors adj) v ≡ has_edge adj v
unfolding has_edge
has-neighbors [] v = refl
has-neighbors (e ∷ adj) v = ground (arith, has-neighbors adj v)

has-neighbors-add_edge :
    (x : Edge) (adj : List Edge) (v : ℕ)
    → has (neighbors (add_edge x adj)) v ≡ (x.neighbor == v || has (neighbors adj) v)
has-neighbors-add_edge x adj v =
    has-neighbors (add_edge x adj) v
    ∙ has_edge-add_edge x adj v
    ∙ ap ((x.neighbor == v) ||◌) (sym (has-neighbors adj v))

add_edge-NoRepeats :
    (x : Edge) (adj : List Edge)
    → NoRepeats (neighbors adj)
    → NoRepeats (neighbors (add_edge x adj))
unfolding add_edge
add_edge-NoRepeats x [] d = (refl, tt)
add_edge-NoRepeats x (e ∷ adj) d = elim (Bool-cases (e.neighbor == x.neighbor)) [
  | inl here ↦ rw here d
  | inr later ↦ rw later (
    ground (arith, has-neighbors-add_edge x adj e.neighbor, later, d.0),
    add_edge-NoRepeats x adj d.1,
  )
]

edges_at-set :
    (l : List (List Edge)) (u a : ℕ) (adj : List Edge)
    → u < length l
    → edges_at (set l u adj) a ≡ (if u == a then adj else edges_at l a)
edges_at-set [] u a adj h = absurd (omega arith)
edges_at-set (x ∷ l) zero zero adj h = refl
edges_at-set (x ∷ l) zero (suc a) adj h = ground arith
edges_at-set (x ∷ l) (suc u) zero adj h = ground arith
edges_at-set (x ∷ l) (suc u) (suc a) adj h = ground (arith, edges_at-set l u a adj)

edges_at-replicate : (k a : ℕ) → edges_at (replicate k []) a ≡ []
edges_at-replicate zero a = refl
edges_at-replicate (suc k) zero = refl
edges_at-replicate (suc k) (suc a) = edges_at-replicate k a

-- A larger size leaves the edges of every vertex.
edges_at-resize_list :
    (n : ℕ) (l : List (List Edge)) (a : ℕ)
    → length l ≤ n
    → edges_at (resize_list n [] l) a ≡ edges_at l a
edges_at-resize_list zero [] a h = refl
edges_at-resize_list (suc n) [] a h = edges_at-replicate (suc n - 0) a
edges_at-resize_list zero (x ∷ l) a h = absurd (omega arith)
edges_at-resize_list (suc n) (x ∷ l) zero h = refl
edges_at-resize_list (suc n) (x ∷ l) (suc a) h =
    let less : suc n - suc (length l) ≡ n - length l = omega arith in
    rw less (edges_at-resize_list n l a (omega arith))

pub length-resize_list {ℓ} :
    {A : Type ℓ} (n : ℕ) (a : A) (l : List A) → length (resize_list n a l) ≡ n
length-resize_list zero a [] = refl
length-resize_list (suc n) a [] = length-replicate (suc n - 0) a ∙ omega arith
length-resize_list zero a (x ∷ l) = let less : 0 - suc (length l) ≡ 0 = omega arith in rw less refl
length-resize_list (suc n) a (x ∷ l) =
    let less : suc n - suc (length l) ≡ n - length l = omega arith in
    rw less (ap suc (length-resize_list n a l))

get_elem?-edges_at :
    (l : List (List Edge)) (u : ℕ) → u < length l → get_elem? l u ≡ some (edges_at l u)
get_elem?-edges_at [] u h = absurd (omega arith)
get_elem?-edges_at (x ∷ l) zero h = refl
get_elem?-edges_at (x ∷ l) (suc u) h = get_elem?-edges_at l u (omega arith)

-- No vertex has two edges to one neighbour.
abbrev pub HasDistinctEdges : Graph → Type 0
HasDistinctEdges g = (a : ℕ) → NoRepeats (neighbors (edges_at g.adjacency a))

-- An edge of weight w from u to v has been added, in a graph that had both vertices.
pub record IsAdded (u v w : ℕ) (g : Graph) (result : Option Graph) : Type 0 where
  pub out : Graph
  pub returns : result ≡ some out
  pub sized : length out.adjacency ≡ length g.adjacency
  pub weights : out.weights ≡ g.weights
  pub weighs : (a b : ℕ) → weight_at out a b ≡ raised (u == a && v == b) w (weight_at g a b)
  pub joins : (a b : ℕ) → joined_at out a b ≡ ((u == a && v == b) || joined_at g a b)
  pub distinct : HasDistinctEdges g → HasDistinctEdges out

raised-u32 : (hit : Bool) (w x : ℕ) → raised hit (u32 w) x ≡ raised hit w x
raised-u32 false w x = refl
raised-u32 true w x = omega arith

reserve_vertex-inside : (u : ℕ) (g : Graph) → u < length g.adjacency → reserve_vertex u g ≡ g
unfolding reserve_vertex
reserve_vertex-inside u g h =
    let stays : leb (length g.adjacency) u ≡ false = ground (arith, h) in rw stays refl

add-IsAdded :
    (u v w : ℕ) (g : Graph)
    → u < length g.adjacency
    → v < length g.adjacency
    → IsAdded u v w g (add u v w g)
unfolding add
add-IsAdded u v w g hu hv =
    let there = reserve_vertex-inside (max u v) g (omega arith) in
    let x : Edge = record { neighbor = v; weight = u32 w } in
    let adj = edges_at g.adjacency u in
    let changed = λ (a : ℕ). edges_at-set g.adjacency u a (add_edge x adj) hu in
    rw (there, get_elem?-edges_at g.adjacency u hu)
      (record {
        out = record g { adjacency = set g.adjacency u (add_edge x adj) };
        returns = refl;
        sized = length-set g.adjacency u (add_edge x adj);
        weights = refl;
        weighs = λ a b. elim (Bool-cases (u == a)) [
          | inl here ↦
              rw (changed a, here)
                (edge_weight-add_edge x adj b (omega arith)
                  ∙ ap (λ k. raised (v == b) (u32 w) (edge_weight (edges_at g.adjacency k) b))
                      ((==_iff u a).0 here)
                  ∙ raised-u32 (v == b) w (weight_at g a b))
          | inr other ↦ rw (changed a, other) refl
        ];
        joins = λ a b. elim (Bool-cases (u == a)) [
          | inl here ↦
              rw (changed a, here)
                (has_edge-add_edge x adj b
                  ∙ ap (λ k. (v == b) || has_edge (edges_at g.adjacency k) b) ((==_iff u a).0 here))
          | inr other ↦ rw (changed a, other) refl
        ];
        distinct = λ d a. elim (Bool-cases (u == a)) [
          | inl here ↦ rw (changed a, here) (add_edge-NoRepeats x adj (d u))
          | inr other ↦ rw (changed a, other) (d a)
        ];
      })

-- `addu` adds the edge in both directions.
pub record IsJoined (u v w : ℕ) (g : Graph) (result : Option Graph) : Type 0 where
  pub out : Graph
  pub returns : result ≡ some out
  pub sized : length out.adjacency ≡ length g.adjacency
  pub weights : out.weights ≡ g.weights
  pub weighs :
      (a b : ℕ)
      → weight_at out a b
        ≡ raised (v == a && u == b) w (raised (u == a && v == b) w (weight_at g a b))
  pub joins :
      (a b : ℕ)
      → joined_at out a b ≡ ((v == a && u == b) || ((u == a && v == b) || joined_at g a b))
  pub distinct : HasDistinctEdges g → HasDistinctEdges out

-- For two vertices of the graph, `addu (u, v, w)` comes back with as many vertices and the same weights
-- of vertices; it adds w, modulo 2 ^ 32, to the weight of the edge from u to v and then to that from v
-- to u, keeps every other weight, joins the two and no others, and, where no vertex has two edges to one neighbor, leaves
-- it so.
pub addu-IsJoined :
    (u v w : ℕ) (g : Graph)
    → u < length g.adjacency
    → v < length g.adjacency
    → IsJoined u v w g (addu u v w g)
unfolding addu
addu-IsJoined u v w g hu hv =
    let first = add-IsAdded u v w g hu hv in
    let second =
      add-IsAdded v u w first.out (omega (arith, hv, first.sized))
        (omega (arith, hu, first.sized)) in
    rw first.returns (record {
      out = second.out;
      returns = second.returns;
      sized = second.sized ∙ first.sized;
      weights = second.weights ∙ first.weights;
      weighs = λ a b. second.weighs a b ∙ ap (raised (v == a && u == b) w) (first.weighs a b);
      joins = λ a b. second.joins a b ∙ ap ((v == a && u == b) ||◌) (first.joins a b);
      distinct = λ d. second.distinct (first.distinct d);
    })

-- The graph of `resize (n)` after `resize (0)`, and of `resize (n)` on a new graph, has no edge.
pub resize-empty :
    (n : ℕ) (g : Graph)
    → g.adjacency ≡ []
    → (length (resize n g).adjacency ≡ n)
      × (length (resize n g).weights ≡ n)
      × ((a : ℕ) → edges_at (resize n g).adjacency a ≡ [])
unfolding resize
resize-empty n g e = (
  length-resize_list n [] g.adjacency,
  length-resize_list n 0 g.weights,
  λ a. edges_at-resize_list n g.adjacency a (omega (arith, ap length e)) ∙ ap (λ l. edges_at l a) e,
)
