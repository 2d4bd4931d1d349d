-- ===== src/TidVector/Runs.antt =====
-- Runs of src/bitdrill/Tid_Vector.hxx.
use bitdrill.Base.{ℕ, ◌≡◌, refl, ◌&&◌, List, [], ◌∷◌, arith, length}
use bitdrill.TidVector.{intersect_into, intersect, intersect_and_count, count_intersection}
use bitdrill.TidVector.Laws.{has, IsAscending, intersect-has}

abbrev left : List ℕ
left = 1 ∷ 4 ∷ 7 ∷ 9 ∷ []

abbrev right : List ℕ
right = 0 ∷ 4 ∷ 9 ∷ 12 ∷ []

intersect_runs : intersect left right ≡ 4 ∷ 9 ∷ []
unfolding intersect
intersect_runs = refl

left-IsAscending : IsAscending left
left-IsAscending = omega arith

right-IsAscending : IsAscending right
right-IsAscending = omega arith

intersect-has_example :
    ((t : ℕ) → has (intersect left right) t ≡ (has left t && has right t))
    × IsAscending (intersect left right)
    × (intersect_into left right ≡ intersect left right)
    × (intersect_and_count left right ≡ (length (intersect left right), intersect left right))
    × ((support : ℕ) → count_intersection left right support ≡ length (intersect left right))
intersect-has_example = intersect-has left right left-IsAscending right-IsAscending
