-- ===== src/Walk.antt =====
-- The walks of src/bitdrill/Trie.hxx over a trie: `Walk`, and `Candidate_Walk` over the arcs that
-- come after the one a walk has gone down.
--
-- A walk keeps three vectors. `trie_stack` and `iter_stack` are pushed and popped together, and
-- are one list of frames here; this and `current_string` have their last element first. An
-- iterator is the rest of its list. `none` is `back ()` or `pop_back ()` of an empty vector, a step
-- past the end of a list, or too little fuel.
pub mod Visits
pub mod Rounds
pub mod Places
pub mod Generated
pub mod Runs
use bitdrill.Base.{ℕ, zero, suc, Bool, true, false, ◌&&◌, Option, some, none, List, [], ◌∷◌, ◌++◌}
use bitdrill.Base.{if◌then◌else◌, ◌>>=◌}
use bitdrill.Trie.{Trie, node, Subtries, nil, arc, empty}

abbrev pub endmark_of : Trie → Bool
endmark_of (node endmark subtries) = endmark

abbrev pub subtries_of : Trie → Subtries
subtries_of (node endmark subtries) = subtries

-- A node of `trie_stack` and the iterator of `iter_stack` at the same depth.
pub record Frame : Type 0 where
  pub node : Trie
  pub it : Subtries

pub record Walk : Type 0 where
  pub frames : List Frame
  pub current : List ℕ

abbrev pub at_node : Trie → Frame
at_node t = record { node = t; it = subtries_of t }

-- The constructor: over an empty trie the stacks stay empty.
unfoldable pub new_walk : Trie → Walk
unfolding empty
new_walk t = record { frames = if empty t then [] else at_node t ∷ []; current = [] }

-- Whether the string is empty and the iterator at the end, where a walk is over.
abbrev pub is_last : List ℕ → Subtries → Bool
is_last [] nil = true
is_last [] (arc x t rest) = false
is_last (y ∷ current) it = false

-- The branch at the end of a list: back to the parent, whose iterator goes on. The flag says that
-- the walk is over.
unfoldable pub leave_to : List ℕ → Frame → Subtries → List Frame → Option (Bool × Walk)
leave_to current parent nil below = none
leave_to current parent (arc x t rest) below =
    if is_last current rest
    then some (true, record { frames = below; current = current })
    else some (
      false,
      record { frames = record { node = parent.node; it = rest } ∷ below; current = current },
    )

unfoldable pub leave : List Frame → List ℕ → Option (Bool × Walk)
unfolding leave_to
leave (top ∷ parent ∷ below) (y ∷ current) = leave_to current parent parent.it below
leave _ _ = none

-- One round of the loop of `next ()`.
unfoldable pub round_at : Frame → Subtries → List Frame → List ℕ → Option (Bool × Walk)
unfolding leave
round_at top nil below current = leave (top ∷ below) current
round_at top (arc x t rest) below current =
    some (false, record { frames = at_node t ∷ top ∷ below; current = x ∷ current })

unfoldable pub round : Walk → Option (Bool × Walk)
unfolding round_at
round w = elim w.frames [ [] ↦ none | top ∷ below ↦ round_at top top.it below w.current ]

-- The condition under which the loop ends.
abbrev pub is_marked : List Frame → Bool
is_marked [] = false
is_marked (top ∷ below) = endmark_of top.node

unfoldable pub next_loop : ℕ → Walk → Option (Bool × Walk)
unfolding round
next_loop zero w = none
next_loop (suc fuel) w = do
  step ← round w
  let later = next_loop fuel step.1 in
      if step.0
      then some (false, step.1)
      else if is_marked step.1.frames
      then some (true, step.1)
      else later

unfoldable pub next : ℕ → Walk → Option (Bool × Walk)
unfolding next_loop
next fuel w = elim w.frames [ [] ↦ some (false, w) | top ∷ below ↦ next_loop fuel w ]

-- A string as `ref ()` gives it, first symbol first.
abbrev pub string_of : List ℕ → List ℕ
string_of [] = []
string_of (x ∷ current) = string_of current ++ x ∷ []

abbrev pub ref : Walk → List ℕ
ref w = string_of w.current

unfoldable pub end : Walk → Bool
end w = elim w.frames [ [] ↦ true | top ∷ below ↦ false ]

-- `Candidate_Walk` of a walk: the iterator of the parent of the node that the walk is at.
unfoldable pub new_candidate_walk : Walk → Option Subtries
new_candidate_walk w = elim w.frames [
  | [] ↦ none
  | top ∷ below ↦ elim below [ [] ↦ none | parent ∷ _ ↦ some parent.it ]
]

-- Its `next ()`: whether there is an arc, and the iterator, one further.
unfoldable pub candidate_next : Subtries → Option (Bool × Subtries)
candidate_next nil = none
candidate_next (arc x t nil) = some (false, nil)
candidate_next (arc x t (arc y u rest)) = some (true, arc y u rest)

unfoldable pub candidate_ref : Subtries → Option ℕ
candidate_ref nil = none
candidate_ref (arc x t rest) = some x

-- What is done with `ref ()` in the loop `while (!end ()) if (next ()) ...`.
unfoldable pub for_candidates {ℓ} : {S : Type ℓ} → (ℕ → S → Option S) → Subtries → S → Option S
for_candidates body nil s = some s
for_candidates body (arc x t nil) s = some s
for_candidates body (arc x t (arc y u rest)) s = do
  s' ← body y s
  for_candidates body (arc y u rest) s'
