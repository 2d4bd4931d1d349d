-- ===== src/UtMatrix/Places.antt =====
-- The places of src/graph/UT_Matrix.hxx: the index of an entry, row by row.
use bitdrill.Base.{ℕ, zero, suc, ◌+◌, ◌-◌, ◌*◌, ◌/◌, ◌<◌, ◌≤◌, ◌≡◌, refl, ap, arith, inl, inr, ◌⊎◌}
use bitdrill.Base.{◌==◌, Bool-cases, le_cases}
use bitdrill.UtMatrix.{elt}

-- The entries of a triangle with n rows.
abbrev pub tri : ℕ → ℕ
tri zero = 0
tri (suc n) = suc n + tri n

tri_twice : (n : ℕ) → n * (n + 1) ≡ tri n + tri n
tri_twice zero = refl
tri_twice (suc n) = grind (arith, tri_twice n)

pub tri_half : (n : ℕ) → n * (n + 1) / 2 ≡ tri n
tri_half n = omega (arith, tri_twice n)

pub tri_mono : (m n : ℕ) → m ≤ n → tri m ≤ tri n
tri_mono zero n h = omega arith
tri_mono (suc m) zero h = absurd (omega arith)
tri_mono (suc m) (suc n) h = omega (arith, tri_mono m n (omega arith))

-- The rows before row i, and the columns before j in it.
pub elt_lem : (n i j : ℕ) → i ≤ j → j < n → elt n i j + tri (n - i) + i ≡ tri n + j
unfolding elt
elt_lem n i j h k =
    let all = tri_twice n in
    let left = tri_twice (n - i) in
    let less = tri_mono (n - i) n (omega arith) in omega (arith, all, left, less)

tri-row : (n i : ℕ) → i < n → tri (n - i) ≡ (n - i) + tri (n - suc i)
tri-row n i h =
    let e : n - i ≡ suc (n - suc i) = omega arith in
    let of_tri = ap tri e in omega (arith, of_tri, e)

-- Every entry has its place in the vector.
pub elt-lt : (n i j : ℕ) → i ≤ j → j < n → elt n i j < tri n
elt-lt n i j h k = omega (arith, elt_lem n i j h k, tri-row n i (omega arith))

-- The entries of a row stand before those of a later one.
elt-rows : (n i j a b : ℕ) → i ≤ j → j < n → i < a → a ≤ b → b < n → elt n i j < elt n a b
elt-rows n i j a b h k l p q =
    let less = tri_mono (n - a) (n - suc i) (omega arith) in
    omega (arith, elt_lem n i j h k, elt_lem n a b p q, tri-row n i (omega arith), less)

-- Whether the place of (i, j) is before or at that of (a, b).
abbrev pub From : ℕ → ℕ → ℕ → ℕ → Type 0
From i j a b = (i < a) ⊎ ((i ≡ a) × (j ≤ b))

-- Different entries have different places.
pub elt-injective :
    (n i j a b : ℕ) → i ≤ j → j < n → a ≤ b → b < n → elt n i j ≡ elt n a b → (i ≡ a) × (j ≡ b)
elt-injective n i j a b h k p q e = elim (Bool-cases (i == a)) [
  | inl same ↦
      let s : i ≡ a = ground (arith, same) in
      let r = ap (λ x. elt n x j) s in
      let of_a = elt_lem n a j (omega (arith, s)) k in
      (s, omega (arith, r, of_a, elt_lem n a b p q, e))
  | inr other ↦ elim (le_cases i a) [
    | inl le ↦
        let less = elt-rows n i j a b h k (ground (arith, other, le)) p q in
        absurd (omega (arith, less, e))
    | inr more ↦ let less = elt-rows n a b i j p q more h k in absurd (omega (arith, less, e))
  ]
]

pub elt_first : (n : ℕ) → 0 < n → elt n 0 0 ≡ 0
elt_first n h =
    let whole : n - 0 ≡ n = omega arith in
    let rest = ap tri whole in omega (arith, elt_lem n 0 0 (omega arith) h, rest)

-- The walk goes on at the next place of the vector.
pub elt-next_row : (n i : ℕ) → suc i < n → elt n (suc i) (suc i) ≡ elt n i (n - 1) + 1
elt-next_row n i h = omega (
  arith,
  elt_lem n i (n - 1) (omega arith) (omega arith),
  elt_lem n (suc i) (suc i) (omega arith) h,
  tri-row n i (omega arith),
)

pub elt-next_column : (n i j : ℕ) → i ≤ j → suc j < n → elt n i (suc j) ≡ elt n i j + 1
elt-next_column n i j h k =
    omega (arith, elt_lem n i j h (omega arith), elt_lem n i (suc j) (omega arith) k)

-- The last place of the vector.
pub elt-last : (n i j : ℕ) → i ≤ j → j < n → n ≤ suc j → n ≤ suc i → elt n i j + 1 ≡ tri n
elt-last n i j h k r s =
    let row = tri-row n i (omega arith) in
    let none_left : tri (n - suc i) ≡ 0 = ap tri (over n (suc i) s) in
    omega (arith, elt_lem n i j h k, row, none_left)
  where
    over : (n k : ℕ) → n ≤ k → n - k ≡ 0
    over n k h = omega arith
