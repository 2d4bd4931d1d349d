-- ===== src/Counting/Table.antt =====
-- The counts of the pairs of places below m as a list, row by row, as the prefix table of
-- src/2-items/kdci.hxx keeps them.
use bitdrill.Base.{ℕ, zero, suc, ◌+◌, ◌<◌, ◌≡◌, refl, ap, ap₂, ◌∙◌, arith}
use bitdrill.Base.{◌&&◌, some, List, [], ◌∷◌, ◌++◌, length, get_elem?, set, if◌then◌else◌, ◌==◌}

-- A row of as many counts, and the rows of all places.
abbrev pub row : (ℕ → ℕ) → ℕ → List ℕ
row d zero = []
row d (suc m) = d 0 ∷ row (λ j. d (suc j)) m

abbrev pub table : (ℕ → ℕ → ℕ) → ℕ → List ℕ
table c zero = []
table c (suc m) = row (λ j. c 0 (suc j)) m ++ table (λ i j. c (suc i) (suc j)) m

-- The index of the count of the places i < j.
abbrev pub pair_place : ℕ → ℕ → ℕ → ℕ
pair_place zero i j = 0
pair_place (suc m) i zero = 0
pair_place (suc m) zero (suc j) = j
pair_place (suc m) (suc i) (suc j) = m + pair_place m i j

length-row : (d : ℕ → ℕ) (m : ℕ) → length (row d m) ≡ m
length-row d zero = refl
length-row d (suc m) = ap suc (length-row (λ j. d (suc j)) m)

row_ext : (m : ℕ) (d e : ℕ → ℕ) → ((j : ℕ) → j < m → d j ≡ e j) → row d m ≡ row e m
row_ext zero d e h = refl
row_ext (suc m) d e h =
    ap₂ ◌∷◌ (h 0 (omega arith))
      (row_ext m (λ j. d (suc j)) (λ j. e (suc j)) (λ j less. h (suc j) (omega (arith, less))))

pub table_ext :
    (m : ℕ) (c d : ℕ → ℕ → ℕ) → ((i j : ℕ) → i < j → j < m → c i j ≡ d i j) → table c m ≡ table d m
table_ext zero c d h = refl
table_ext (suc m) c d h =
    ap₂ ◌++◌
      (row_ext m (λ j. c 0 (suc j)) (λ j. d 0 (suc j))
        (λ j less. h 0 (suc j) (omega arith) (omega (arith, less))))
      (table_ext m (λ i j. c (suc i) (suc j)) (λ i j. d (suc i) (suc j))
        (λ i j less inside. h (suc i) (suc j) (omega (arith, less)) (omega (arith, inside))))

get_elem?-row :
    (m : ℕ) (d : ℕ → ℕ) (j : ℕ) (rest : List ℕ) → j < m → get_elem? (row d m ++ rest) j ≡ some (d j)
get_elem?-row zero d j rest h = absurd (omega (arith, h))
get_elem?-row (suc m) d zero rest h = refl
get_elem?-row (suc m) d (suc j) rest h = get_elem?-row m (λ k. d (suc k)) j rest (omega (arith, h))

get_elem?-past :
    (xs ys : List ℕ) (m k : ℕ) → length xs ≡ m → get_elem? (xs ++ ys) (m + k) ≡ get_elem? ys k
get_elem?-past [] ys m k e = ap (get_elem? ys) (omega (arith, e))
get_elem?-past (x ∷ xs) ys m k e =
    let place : m + k ≡ suc (length xs + k) = omega (arith, e) in
    ap (get_elem? (x ∷ xs ++ ys)) place ∙ get_elem?-past xs ys (length xs) k refl

pub get_elem?-table :
    (m : ℕ) (c : ℕ → ℕ → ℕ) (i j : ℕ)
    → i < j
    → j < m
    → get_elem? (table c m) (pair_place m i j) ≡ some (c i j)
get_elem?-table zero c i j less inside = absurd (omega (arith, inside))
get_elem?-table (suc m) c i zero less inside = absurd (omega (arith, less))
get_elem?-table (suc m) c zero (suc j) less inside =
    get_elem?-row m (λ k. c 0 (suc k)) j _ (omega (arith, inside))
get_elem?-table (suc m) c (suc i) (suc j) less inside =
    get_elem?-past (row (λ k. c 0 (suc k)) m) _ m (pair_place m i j) (length-row _ m)
    ∙ get_elem?-table m (λ a b. c (suc a) (suc b)) i j (omega (arith, less)) (omega (arith, inside))

set-row :
    (m : ℕ) (d : ℕ → ℕ) (j v : ℕ) (rest : List ℕ)
    → j < m
    → set (row d m ++ rest) j v ≡ row (λ k. if k == j then v else d k) m ++ rest
set-row zero d j v rest h = absurd (omega (arith, h))
set-row (suc m) d zero v rest h = ap (λ r. v ∷ r ++ rest) (row_ext m _ _ (λ k less. ground arith))
set-row (suc m) d (suc j) v rest h =
    let first : d 0 ≡ (if 0 == suc j then v else d 0) = ground arith in
    ap₂ ◌∷◌ first (
      set-row m (λ k. d (suc k)) j v rest (omega (arith, h))
      ∙ ap (◌++ rest)
          (row_ext m _ (λ k. if suc k == suc j then v else d (suc k)) (λ k less. ground arith)))

set-past :
    (xs ys : List ℕ) (m k v : ℕ) → length xs ≡ m → set (xs ++ ys) (m + k) v ≡ xs ++ set ys k v
set-past [] ys m k v e = ap (λ i. set ys i v) (omega (arith, e))
set-past (x ∷ xs) ys m k v e =
    let place : m + k ≡ suc (length xs + k) = omega (arith, e) in
    ap (λ i. set (x ∷ xs ++ ys) i v) place ∙ ap (x ∷◌) (set-past xs ys (length xs) k v refl)

pub set-table :
    (m : ℕ) (c : ℕ → ℕ → ℕ) (i j v : ℕ)
    → i < j
    → j < m
    → set (table c m) (pair_place m i j) v ≡ table (λ a b. if a == i && b == j then v else c a b) m
set-table zero c i j v less inside = absurd (omega (arith, inside))
set-table (suc m) c i zero v less inside = absurd (omega (arith, less))
set-table (suc m) c zero (suc j) v less inside =
    set-row m (λ k. c 0 (suc k)) j v _ (omega (arith, inside))
    ∙ ap₂ ◌++◌ (row_ext m _ _ (λ k h. ground arith)) (table_ext m _ _ (λ a b h k. ground arith))
set-table (suc m) c (suc i) (suc j) v less inside =
    set-past (row (λ k. c 0 (suc k)) m) _ m (pair_place m i j) v (length-row _ m)
    ∙ ap₂ ◌++◌ (row_ext m _ _ (λ k h. ground arith)) (
        set-table m (λ a b. c (suc a) (suc b)) i j v (omega (arith, less)) (omega (arith, inside))
        ∙ table_ext m _ _ (λ a b h k. ground arith))
