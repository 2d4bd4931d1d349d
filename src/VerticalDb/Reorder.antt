-- ===== src/VerticalDb/Reorder.antt =====
-- `reorder` of src/bitdrill/Vertical_DB.hxx and the quick sorts of Vertical_DB.cxx behind it. The
-- two sorts differ only in the test, which is an argument here: x and y compare, or an access is
-- outside a vector. In a partition i is one more than in the source, so that it starts at the first
-- place, and j is the place that was looked at last. Loops run on fuel. `none` is an access outside
-- a vector, or too little fuel.
pub mod Moves
pub mod Scans
pub mod Partition
pub mod Sorting
pub mod Blocks
pub mod BlockPass
pub mod Sorted
use bitdrill.Base.{ℕ, zero, suc, ◌+◌, ◌-◌, Bool, true, false, Option, some, none, List, [], ◌∷◌}
use bitdrill.Base.{length, get_elem?, set, if◌then◌else◌, ltb, ◌==◌, ◌>>=◌}
use bitdrill.VerticalDb.{VerticalDb}

-- The test of `quiksort`: a smaller item stands before.
abbrev pub by_item : ℕ → ℕ → Option Bool
by_item a b = some (ltb a b)

-- The test of `count_quiksort`: an item with a larger count stands before.
abbrev pub by_count : List ℕ → ℕ → ℕ → Option Bool
by_count count a b = do of_a ← get_elem? count a; of_b ← get_elem? count b; some (ltb of_b of_a)

-- `do j = j - 1; while (x stands before A[j])`.
pub move_down : (ℕ → ℕ → Option Bool) → List ℕ → ℕ → ℕ → Option ℕ
move_down before items x zero = none
move_down before items x (suc j) = do
  y ← get_elem? items j
  goes_on ← before x y
  let later = move_down before items x j in if goes_on then later else some j

-- `do i = i + 1; while (A[i] stands before x)`.
pub move_up : ℕ → (ℕ → ℕ → Option Bool) → List ℕ → ℕ → ℕ → Option ℕ
move_up zero before items x i = none
move_up (suc fuel) before items x i = do
  y ← get_elem? items i
  goes_on ← before y x
  let later = move_up fuel before items x (i + 1) in if goes_on then later else some i

abbrev pub swap : List ℕ → ℕ → ℕ → Option (List ℕ)
swap items i j = do a ← get_elem? items i; b ← get_elem? items j; some (set (set items i b) j a)

-- The loop of `partition` and of `count_partition`.
pub partition_loop : ℕ → (ℕ → ℕ → Option Bool) → ℕ → List ℕ → ℕ → ℕ → Option (List ℕ × ℕ)
unfolding move_down move_up
partition_loop zero before x items i j = none
partition_loop (suc fuel) before x items i j = do
  j' ← move_down before items x j
  i' ← move_up (suc (length items)) before items x i
  swapped ← swap items i' j'
  let later = partition_loop fuel before x swapped (i' + 1) j' in
      if ltb i' j' then later else some (items, j')

unfoldable pub partition : (ℕ → ℕ → Option Bool) → List ℕ → ℕ → ℕ → Option (List ℕ × ℕ)
unfolding partition_loop
partition before items p r = do
  x ← get_elem? items p
  partition_loop (suc (length items)) before x items p (r + 1)

-- `quiksort` and `count_quiksort`.
pub sort_part : ℕ → (ℕ → ℕ → Option Bool) → List ℕ → ℕ → ℕ → Option (List ℕ)
unfolding partition
sort_part zero before items p r = none
sort_part (suc fuel) before items p r = elim (ltb p r) [
  | false ↦ some items
  | true ↦ do
    step ← partition before items p r
    left ← sort_part fuel before step.0 p step.1
    sort_part fuel before left (step.1 + 1) r
]

-- `do j++ while (j <= n && count[A[j]] == count[x])`, with as many places as are left.
pub block_end : ℕ → List ℕ → List ℕ → ℕ → ℕ → Option ℕ
block_end zero count items of_x j = some j
block_end (suc left) count items of_x j = do
  y ← get_elem? items j
  of_y ← get_elem? count y
  let later = block_end left count items of_x (j + 1) in if of_y == of_x then later else some j

-- The loop over the first places of the blocks, with as many rounds as are left.
pub sort_blocks : ℕ → List ℕ → List ℕ → ℕ → Option (List ℕ)
unfolding block_end sort_part
sort_blocks zero count items i = some items
sort_blocks (suc left) count items i = do
  x ← get_elem? items i
  of_x ← get_elem? count x
  j ← block_end (suc left) count items of_x (i + 1)
  sorted ←
      if ltb i (j - 1) then sort_part (suc (length items)) by_item items i (j - 1) else some items
  sort_blocks left count sorted (i + 1)

-- `sort_decreasing_freq`, which is all of `reorder`.
unfoldable pub reorder : VerticalDb → List ℕ → Option (List ℕ)
unfolding sort_part sort_blocks
reorder db [] = some []
reorder db (x ∷ xs) = do
  ordered ← sort_part (suc (suc (length xs))) (by_count db.count) (x ∷ xs) 0 (length xs)
  sort_blocks (length xs) db.count ordered 0
