-- ===== src/Walk/Visits.antt =====
-- `Walk` of src/bitdrill/Trie.hxx: the states in which its `next ()` says yes, in their order.
use bitdrill.Base.{ℕ}
use bitdrill.Base.{Bool, true, false, not, ◌&&◌, List, [], ◌∷◌, ◌++◌, if◌then◌else◌}
use bitdrill.Trie.{Trie, node, Subtries, nil, arc}
use bitdrill.Walk.{Frame, Walk, endmark_of, is_last}

abbrev pub state : List Frame → List ℕ → Walk
state frames current = record { frames = frames; current = current }

abbrev pub visit_if : Bool → Walk → List Walk
visit_if true w = w ∷ []
visit_if false w = []

abbrev pub frame : Trie → Subtries → Frame
frame t it = record { node = t; it = it }

-- Back at a node whose string is `current`, after one of its arcs: a node with an end mark is
-- visited once more, unless the walk is over.
abbrev pub revisit : List Frame → List ℕ → Trie → Subtries → List Walk
revisit below current n rest =
    visit_if (endmark_of n && not (is_last current rest)) (state (frame n rest ∷ below) current)

-- The visits below a node, and below the arcs of a node from one on, in depth first order.
abbrev mutual
  pub visits_node : List Frame → List ℕ → Trie → List Walk
  visits_node below current (node e b) =
      visit_if e (state (frame (node e b) b ∷ below) current)
      ++ visits_arcs below current (node e b) b

  pub visits_arcs : List Frame → List ℕ → Trie → Subtries → List Walk
  visits_arcs below current n nil = []
  visits_arcs below current n (arc x t rest) =
      visits_node (frame n (arc x t rest) ∷ below) (x ∷ current) t
      ++ (revisit below current n rest ++ visits_arcs below current n rest)

-- What is left to visit once the arcs of the top node are done, with those frames below it.
abbrev pub resume_at : List ℕ → Trie → Subtries → List Frame → List Walk → List Walk
resume_at current n nil below later = []
resume_at current n (arc x t rest) below later =
    if is_last current rest
    then []
    else revisit below current n rest ++ (visits_arcs below current n rest ++ later)

abbrev pub resume : List Frame → List ℕ → List Walk
resume [] current = []
resume (parent ∷ below) [] = []
resume (parent ∷ below) (y ∷ current) =
    resume_at current parent.node parent.it below (resume below current)

-- All visits that are left in a state.
abbrev pub pending : List Frame → List ℕ → List Walk
pending [] current = []
pending (top ∷ below) current = visits_arcs below current top.node top.it ++ resume below current
