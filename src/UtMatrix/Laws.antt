-- ===== src/UtMatrix/Laws.antt =====
-- src/graph/Mtx_Graph.hxx as weights of pairs of vertices.
use bitdrill.Base.{ℕ, zero, suc, ◌+◌, ◌*◌, ◌/◌, ◌<◌, ◌≤◌, ◌≡◌, refl, ap, ◌∙◌, sym, arith, inl, inr}
use bitdrill.Base.{
  true, false, ◌&&◌, ◌||◌, Option, some, length, length-set, length-replicate, replicate, set,
  if◌then◌else◌, leb, ltb, lt→ltb, ◌==◌, ==_iff, Bool-cases,
}
use bitdrill.VerticalDb.Reorder.Moves.{at, at-set, get_elem?-at}
use bitdrill.UtMatrix.{UtMatrix, new_matrix, elt, get, set_at, add_in_order, mtx_add}
use bitdrill.UtMatrix.Places.{tri, tri_half, elt-lt, elt-injective}

-- A matrix with n rows, whose vector has its size.
pub record IsMatrix (n : ℕ) (m : UtMatrix) : Type 0 where
  pub rows : m.rows ≡ n
  pub sized : length m.rep ≡ tri n

abbrev pub entry : UtMatrix → ℕ → ℕ → ℕ
entry m a b = at m.rep (elt m.rows a b)

pub new_matrix-IsMatrix : (n : ℕ) → IsMatrix n (new_matrix n)
unfolding new_matrix
new_matrix-IsMatrix n = record { rows = refl; sized = length-replicate _ 0 ∙ tri_half n }

at-replicate : (k i : ℕ) → at (replicate k 0) i ≡ 0
at-replicate zero i = refl
at-replicate (suc k) zero = refl
at-replicate (suc k) (suc i) = at-replicate k i

pub entry-new_matrix : (n a b : ℕ) → entry (new_matrix n) a b ≡ 0
unfolding new_matrix
entry-new_matrix n a b = at-replicate (n * (n + 1) / 2) (elt n a b)

inside : (n a b : ℕ) (m : UtMatrix) → IsMatrix n m → a ≤ b → b < n → elt m.rows a b < length m.rep
inside n a b m k h l =
    let less : elt m.rows a b < tri n = rw k.rows (elt-lt n a b h l) in omega (arith, less, k.sized)

-- The weight of u and v has grown by w.
pub record IsWeighed (n u v w : ℕ) (m : UtMatrix) (result : Option UtMatrix) : Type 0 where
  pub out : UtMatrix
  pub returns : result ≡ some out
  pub matrix : IsMatrix n out
  pub entries :
      (a b : ℕ)
      → a ≤ b
      → b < n
      → entry out a b ≡ entry m a b + (if (u == a && v == b) || (v == a && u == b) then w else 0)

same_place :
    (n u v a b : ℕ)
    → u ≤ v
    → v < n
    → a ≤ b
    → b < n
    → (elt n u v == elt n a b) ≡ ((u == a && v == b) || (v == a && u == b))
same_place n u v a b h l p q = elim (Bool-cases (elt n u v == elt n a b)) [
  | inl same ↦
      let e = elt-injective n u v a b h l p q ((==_iff (elt n u v) (elt n a b)).0 same) in
      same ∙ ground (arith, e)
  | inr other ↦ elim (Bool-cases (u == a && v == b)) [
    | inl both ↦
        let first : u ≡ a = ground (arith, both) in
        let second : v ≡ b = ground (arith, both) in
        let e : elt n u v ≡ elt n a b = ap (λ x. elt n x v) first ∙ ap (elt n a) second in
        absurd (ground (arith, e, other))
    | inr apart ↦ other ∙ ground (arith, apart, h, p)
  ]
]

add_in_order-IsWeighed :
    (n u v w : ℕ) (m : UtMatrix)
    → IsMatrix n m
    → u ≤ v
    → v < n
    → IsWeighed n u v w m (add_in_order u v w m)
unfolding add_in_order get set_at
add_in_order-IsWeighed n u v w m k h l =
    let place = elt m.rows u v in
    let there = inside n u v m k h l in
    let ordered : leb u v ≡ true = ground (arith, h) in
    let fits : ltb place (length m.rep) ≡ true = lt→ltb place (length m.rep) there in
    let value = at m.rep place + w in
    rw (ordered, get_elem?-at m.rep place there, fits)
      (record {
        out = record m { rep = set m.rep place value };
        returns = refl;
        matrix = record { rows = k.rows; sized = length-set m.rep place value ∙ k.sized };
        entries = λ a b p q.
            let one_place = rw (sym k.rows) at (same_place n u v a b h l p q) in
            at-set m.rep place value (elt m.rows a b) there
            ∙ elim (Bool-cases (place == elt m.rows a b)) [
              | inl same ↦
                  let e : place ≡ elt m.rows a b = (==_iff place (elt m.rows a b)).0 same in
                  let old = ap (at m.rep) e in
                  let both : ((u == a && v == b) || (v == a && u == b)) ≡ true =
                    sym one_place ∙ same in
                  rw (same, both) (ap (◌+ w) old)
              | inr other ↦
                  let apart : ((u == a && v == b) || (v == a && u == b)) ≡ false =
                    sym one_place ∙ other in
                  rw (other, apart) (omega arith)
            ];
      })

pub mtx_add-IsWeighed :
    (n u v w : ℕ) (m : UtMatrix)
    → IsMatrix n m
    → u < n
    → v < n
    → IsWeighed n u v w m (mtx_add u v w m)
unfolding mtx_add
mtx_add-IsWeighed n u v w m k hu hv = elim (Bool-cases (ltb v u)) [
  | inl turned ↦
      let done = add_in_order-IsWeighed n v u w m k (ground (arith, turned)) hu in
      rw turned (record {
        out = done.out;
        returns = done.returns;
        matrix = done.matrix;
        entries = λ a b p q. done.entries a b p q ∙ ground arith;
      })
  | inr ordered ↦ rw ordered (add_in_order-IsWeighed n u v w m k (ground (arith, ordered)) hv)
]
