-- ===== src/Walk/Rounds.antt =====
-- The rounds of `next ()` of src/bitdrill/Trie.hxx's `Walk`: it comes to the visits that are left, one
-- after the other, and has enough rounds for it.
use mathlib.Core.List.{append_assoc}
use bitdrill.Base.{ℕ, zero, suc, ◌+◌, ◌≤◌, ◌<◌, ◌≡◌, refl, ap, ◌∙◌, arith}
use bitdrill.Base.{
  Bool, true, false, ◌&&◌, Option, some, none, List, [], ◌∷◌, ◌++◌, if◌then◌else◌, ◌>>=◌,
  Bool-cases, inl, inr,
}
use bitdrill.Trie.{Trie, node, Subtries, nil, arc}
use bitdrill.Walk.{
  Frame, Walk, at_node, endmark_of, is_last, leave_to, leave, round_at, round, is_marked, next_loop,
  next,
}
use bitdrill.Walk.Visits.{state, frame, visit_if, revisit, visits_arcs, resume, pending}

-- How many rounds are left.
abbrev mutual
  pub cost_node : Trie → ℕ
  cost_node (node e b) = cost_arcs b

  pub cost_arcs : Subtries → ℕ
  cost_arcs nil = 0
  cost_arcs (arc x t rest) = 2 + cost_node t + cost_arcs rest

abbrev pub cost_at : Subtries → ℕ
cost_at nil = 0
cost_at (arc x t rest) = 1 + cost_arcs rest

abbrev pub cost_below : List Frame → ℕ
cost_below [] = 0
cost_below (parent ∷ below) = cost_at parent.it + cost_below below

abbrev pub cost : List Frame → ℕ
cost [] = 0
cost (top ∷ below) = cost_arcs top.it + cost_below below

abbrev IsArc : Subtries → Type 0
IsArc nil = ⊥
IsArc (arc x t rest) = Unit

-- A symbol for each frame but the root's, and below the top no iterator at its end.
abbrev Below : List Frame → List ℕ → Type 0
Below [] [] = Unit
Below (parent ∷ below) (y ∷ current) = IsArc parent.it × Below below current
Below [] (y ∷ current) = ⊥
Below (parent ∷ below) [] = ⊥

-- And the root's iterator is not at its end.
abbrev RootGoesOn : List ℕ → Subtries → Type 0
RootGoesOn [] it = IsArc it
RootGoesOn (y ∷ current) it = Unit

abbrev pub IsWalk : List Frame → List ℕ → Type 0
IsWalk [] current = ⊥
IsWalk (top ∷ below) current = Below below current × RootGoesOn current top.it

-- A round of a walk: it is over with nothing left to visit, or it goes on and the state it comes
-- to is the next visit if it is one.
abbrev IsRound : List Frame → List ℕ → Option (Bool × Walk) → Type 0
IsRound frames current none = ⊥
IsRound frames current (some (true, w)) = (pending frames current ≡ []) × (w.frames ≡ [])
IsRound frames current (some (false, w)) =
    IsWalk w.frames w.current
    × (pending frames current ≡ visit_if (is_marked w.frames) w ++ pending w.frames w.current)
    × (suc (cost w.frames) ≡ cost frames)

visit_if-and : (b : Bool) (w : Walk) → visit_if (b && true) w ≡ visit_if b w
visit_if-and true w = refl
visit_if-and false w = refl

visit_if_not : (b : Bool) (w : Walk) → visit_if (b && false) w ≡ []
visit_if_not true w = refl
visit_if_not false w = refl

-- Nothing is left after the root's last arc.
visits_left :
    (current : List ℕ) (n : Trie) (rest : Subtries) (below : List Frame)
    → Below below current
    → revisit below current n rest ++ (visits_arcs below current n rest ++ resume below current) ≡ (
        if is_last current rest
        then []
        else revisit below current n rest
          ++ (visits_arcs below current n rest ++ resume below current))
visits_left [] n nil [] b = ap (◌++ []) (visit_if_not (endmark_of n) _)
visits_left [] n nil (parent ∷ below) b = absurd b
visits_left [] n (arc x t rest) below b = refl
visits_left (y ∷ current) n rest below b = refl

regroup :
    (here child again later last : List Walk)
    → ((here ++ child) ++ (again ++ later)) ++ last ≡ here ++ (child ++ (again ++ (later ++ last)))
regroup here child again later last = simp append_assoc

leave_to-IsRound :
    (n m : Trie) (it : Subtries) (below : List Frame) (y : ℕ) (current : List ℕ)
    → IsArc it
    → Below below current
    → IsRound
        (frame n nil ∷ frame m it ∷ below)
        (y ∷ current)
        (leave_to current (frame m it) it below)
unfolding leave_to
leave_to-IsRound n m nil below y current a b = absurd a
leave_to-IsRound n m (arc x t nil) [] y [] a b = (refl, refl)
leave_to-IsRound n m (arc x t nil) (parent ∷ below) y [] a b = absurd b
leave_to-IsRound n m (arc x t (arc z u rest)) below y [] a b =
    ((b, tt), rw visit_if-and, omega arith)
leave_to-IsRound n m (arc x t rest) below y (z ∷ current) a b =
    ((b, tt), rw visit_if-and, omega arith)

round_at-IsRound :
    (n : Trie) (it : Subtries) (below : List Frame) (current : List ℕ)
    → Below below current
    → RootGoesOn current it
    → IsRound (frame n it ∷ below) current (round_at (frame n it) it below current)
unfolding round_at leave
round_at-IsRound n nil [] [] b r = absurd r
round_at-IsRound n nil [] (y ∷ current) b r = absurd b
round_at-IsRound n nil (parent ∷ below) [] b r = absurd b
round_at-IsRound n nil (parent ∷ below) (y ∷ current) b r =
    leave_to-IsRound n parent.node parent.it below y current b.0 b.1
round_at-IsRound n (arc x (node e t) rest) below current b r =
    let child = visits_arcs (frame n (arc x (node e t) rest) ∷ below) (x ∷ current) (node e t) t in
    let here =
      visit_if e
        (state (at_node (node e t) ∷ frame n (arc x (node e t) rest) ∷ below) (x ∷ current)) in
    (
      ((tt, b), tt),
      regroup here child (revisit below current n rest) (visits_arcs below current n rest)
            (resume below current)
          ∙ ap (λ l. here ++ (child ++ l)) (visits_left current n rest below b),
      omega arith,
    )

-- What `next ()` has to come back with when those visits are left: the first of them, where the
-- others are left, or no and an empty walk.
abbrev pub NextIs : List Walk → ℕ → Option (Bool × Walk) → Type 0
NextIs [] bound r = (w : Walk) × (r ≡ some (false, w)) × (w.frames ≡ [])
NextIs (v ∷ later) bound r =
    (r ≡ some (true, v))
    × IsWalk v.frames v.current
    × (pending v.frames v.current ≡ later)
    × (cost v.frames < bound)

NextIs-le :
    (visits : List Walk) (b c : ℕ) (r : Option (Bool × Walk))
    → b ≤ c
    → NextIs visits b r
    → NextIs visits c r
NextIs-le [] b c r le h = h
NextIs-le (v ∷ later) b c r le h = (h.0, h.1, h.2, omega (arith, h.3))

after_round :
    (fuel : ℕ) (frames : List Frame) (current : List ℕ) (r : Option (Bool × Walk))
    → IsRound frames current r
    → cost frames < suc fuel
    → ((w : Walk)
        → IsWalk w.frames w.current
        → cost w.frames < fuel
        → NextIs (pending w.frames w.current) (cost w.frames) (next_loop fuel w))
    → NextIs (pending frames current) (cost frames) (
        r >>= λ step.
        if step.0
        then some (false, step.1)
        else if is_marked step.1.frames
        then some (true, step.1)
        else next_loop fuel step.1)
after_round fuel frames current none h le go = absurd h
after_round fuel frames current (some (true, w)) h le go = rw h.0 (w, refl, h.1)
after_round fuel frames current (some (false, w)) h le go = elim (Bool-cases (is_marked w.frames)) [
  | inl marked ↦
      let first : pending frames current ≡ w ∷ pending w.frames w.current = rw marked at h.1 in
      rw (first, marked) (refl, h.0, refl, omega (arith, h.2))
  | inr unmarked ↦
      let same : pending frames current ≡ pending w.frames w.current = rw unmarked at h.1 in
      let bound : cost w.frames < fuel = omega (arith, h.2, le) in
      let smaller : cost w.frames ≤ cost frames = omega (arith, h.2) in
      rw (same, unmarked)
        (NextIs-le (pending w.frames w.current) (cost w.frames) (cost frames) (next_loop fuel w)
          smaller (go w h.0 bound))
]

next_loop-NextIs :
    (fuel : ℕ) (frames : List Frame) (current : List ℕ)
    → IsWalk frames current
    → cost frames < fuel
    → NextIs (pending frames current) (cost frames) (next_loop fuel (state frames current))
unfolding next_loop round
next_loop-NextIs zero frames current v le = absurd (omega arith)
next_loop-NextIs (suc fuel) [] current v le = absurd v
next_loop-NextIs (suc fuel) (top ∷ below) current v le =
    after_round fuel (top ∷ below) current (round_at top top.it below current)
      (round_at-IsRound top.node top.it below current v.0 v.1) le
      (λ w. next_loop-NextIs fuel w.frames w.current)

-- In a place of a walk that is not over, `next ()` with more fuel than there are rounds left
-- comes back: with yes in the first of the places that are left to visit, from which exactly the
-- others are left and the rounds are fewer, or with no and an empty walk where none is left.
pub next-NextIs :
    (fuel : ℕ) (frames : List Frame) (current : List ℕ)
    → IsWalk frames current
    → cost frames < fuel
    → NextIs (pending frames current) (cost frames) (next fuel (state frames current))
unfolding next
next-NextIs fuel [] current v le = absurd v
next-NextIs fuel (top ∷ below) current v le = next_loop-NextIs fuel (top ∷ below) current v le
