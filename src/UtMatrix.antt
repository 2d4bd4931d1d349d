-- ===== src/UtMatrix.antt =====
-- src/graph/UT_Matrix.hxx and UT_Matrix.cxx, the upper triangle of a square matrix kept row by row in
-- one vector, and the undirected graph on it of src/graph/Mtx_Graph.hxx. `none` is a place outside
-- the vector or a failed `assert`. A walk over the matrix is recursion on what is left of the
-- vector, with the row and the column beside it.
pub mod Places
pub mod Laws
use bitdrill.Base.{ℕ, zero, suc, ◌+◌, ◌-◌, ◌*◌, ◌/◌, Bool, Option, some, none, List, [], ◌∷◌}
use bitdrill.Base.{
  length, replicate, get_elem?, set, if◌then◌else◌, ltb, leb, ◌==◌, not, one_if, ◌>>=◌,
}

pub record UtMatrix : Type 0 where
  pub rows : ℕ
  pub rep : List ℕ

unfoldable pub new_matrix : ℕ → UtMatrix
new_matrix n = record { rows = n; rep = replicate (n * (n + 1) / 2) 0 }

-- `elt (i, j)`, as an index into the vector.
unfoldable pub elt : ℕ → ℕ → ℕ → ℕ
elt n i j = (n * (n + 1) - (n - i) * (n - i + 1)) / 2 + j - i

unfoldable pub get : UtMatrix → ℕ → ℕ → Option ℕ
unfolding elt
get m i j = if leb i j then get_elem? m.rep (elt m.rows i j) else some 0

unfoldable pub set_at : UtMatrix → ℕ → ℕ → ℕ → Option UtMatrix
unfolding elt
set_at m i j val =
    if leb i j
    then if ltb (elt m.rows i j) (length m.rep)
      then some (record m { rep = set m.rep (elt m.rows i j) val })
      else none
    else none

-- `Walk::next ()`: the row and the column that follow.
abbrev pub next_place : ℕ → ℕ → ℕ → ℕ × ℕ
next_place n i j = if j + 1 == n then (i + 1, i + 1) else (i, j + 1)

-- The loop of `nonzero`.
pub count_nonzero : List ℕ → ℕ
count_nonzero [] = 0
count_nonzero (w ∷ rest) = one_if (not (w == 0)) + count_nonzero rest

unfoldable pub nonzero : UtMatrix → ℕ
unfolding count_nonzero
nonzero m = count_nonzero m.rep

-- `Undir_Mtx_Graph::weight` and `edge`, which take the smaller vertex first.
unfoldable pub mtx_weight : UtMatrix → ℕ → ℕ → Option ℕ
unfolding get
mtx_weight m u v = if ltb v u then get m v u else get m u v

unfoldable pub mtx_edge : UtMatrix → ℕ → ℕ → Option Bool
unfolding mtx_weight
mtx_edge m u v = do w ← mtx_weight m u v; some (ltb 0 w)

-- `Undir_Mtx_Graph::add`.
unfoldable pub add_in_order : ℕ → ℕ → ℕ → UtMatrix → Option UtMatrix
unfolding get set_at
add_in_order u v w m = do x ← get m u v; set_at m u v (x + w)

unfoldable pub mtx_add : ℕ → ℕ → ℕ → UtMatrix → Option UtMatrix
unfolding add_in_order
mtx_add u v w m = if ltb v u then add_in_order v u w m else add_in_order u v w m
