-- ===== src/Walk/Generated.antt =====
-- The pairs of itemsets that the candidate walks of src/bitdrill/Trie.hxx make from the places that
-- are visited in a trie of itemsets of one size.
use mathlib.Core.List.{append-nil, append_assoc}
use bitdrill.Base.{ℕ, zero, suc, ◌≡◌, refl, ap, ◌∙◌, sym, subst, arith, ◌⊎◌, inl, inr}
use bitdrill.Base.{
  true, false, List, [], ◌∷◌, ◌++◌, length, Any, Any-map, Any-append_left, ◌==◌, ==_iff, Bool-cases,
}
use bitdrill.Trie.{Trie, node, Subtries, nil, arc, query}
use bitdrill.Trie.Level.{LevelArcs, HasSymbol, query-HasSymbol, query-here, query-later}
use bitdrill.Walk.{Frame, Walk, string_of}
use bitdrill.Walk.Visits.{frame, visits_arcs}
use bitdrill.Walk.Places.{at_arc, beyond_arc}

-- A place whose itemset and candidate are two itemsets that differ in the last item.
pub record IsPair (common : List ℕ) (a c : ℕ) (w : Walk) : Type 0 where
  pub top : Frame
  pub below : List Frame
  pub parent : Trie
  pub last : ℕ
  pub child : Trie
  pub rest : Subtries
  pub front : List ℕ
  pub place : w ≡ at_arc top below parent last child rest front
  pub spells : string_of (last ∷ front) ≡ common ++ last ∷ []
  pub next : ℕ
  pub ahead : HasSymbol next rest
  pub which : ((last ≡ a) × (next ≡ c)) ⊎ ((last ≡ c) × (next ≡ a))

turn : (common : List ℕ) (a c : ℕ) (w : Walk) → IsPair common c a w → IsPair common a c w
turn common a c w p = record {
  top = p.top;
  below = p.below;
  parent = p.parent;
  last = p.last;
  child = p.child;
  rest = p.rest;
  front = p.front;
  place = p.place;
  spells = p.spells;
  next = p.next;
  ahead = p.ahead;
  which = swapped a c p.last p.next p.which;
}
  where
    swapped :
        (a c x y : ℕ)
        → ((x ≡ c) × (y ≡ a)) ⊎ ((x ≡ a) × (y ≡ c))
        → ((x ≡ a) × (y ≡ c)) ⊎ ((x ≡ c) × (y ≡ a))
    swapped a c x y (inl h) = inr h
    swapped a c x y (inr h) = inl h

-- At the arc of the first of the two, the other is ahead.
IsPair-here :
    (f : List ℕ) (below : List Frame) (current : List ℕ) (all : Subtries) (x : ℕ) (t : Trie)
    (rest : Subtries) (c : ℕ)
    → LevelArcs f 0 (arc x t rest)
    → HasSymbol c rest
    → Any
        (IsPair (string_of current ++ []) x c)
        (visits_arcs below current (node false all) (arc x t rest))
IsPair-here f below current all x (node e (arc z u more)) rest c l has = absurd l.1
IsPair-here f below current all x (node e nil) rest c l has = rw l.1 (
    inl (record {
      top = frame (node true nil) nil;
      below = below;
      parent = node false all;
      last = x;
      child = node true nil;
      rest = rest;
      front = current;
      place = refl;
      spells = ap (◌++ (x ∷ [])) (sym (append-nil (string_of current)));
      next = c;
      ahead = has;
      which = inl (refl, refl);
    }))

-- Two itemsets of the trie that differ in the last item are a pair at some place that is visited.
pub visits-IsPair :
    (f : List ℕ) (d : ℕ) (below : List Frame) (current : List ℕ) (all b : Subtries)
    (common : List ℕ) (a c : ℕ)
    → LevelArcs f d b
    → length common ≡ d
    → (a == c) ≡ false
    → query (common ++ a ∷ []) (node false b) ≡ true
    → query (common ++ c ∷ []) (node false b) ≡ true
    → Any (IsPair (string_of current ++ common) a c) (visits_arcs below current (node false all) b)
visits-IsPair f d below current all nil [] a c l e differ qa qc =
    absurd (query-HasSymbol a [] false nil qa)
visits-IsPair f d below current all nil (p ∷ common) a c l e differ qa qc =
    absurd (query-HasSymbol p (common ++ a ∷ []) false nil qa)
visits-IsPair f zero below current all (arc x t rest) (p ∷ common) a c l e differ qa qc =
    absurd (omega (arith, e))
visits-IsPair f (suc d) below current all (arc x t rest) [] a c l e differ qa qc =
    absurd (omega (arith, e))
visits-IsPair f zero below current all (arc x t rest) [] a c l e differ qa qc =
    elim (Bool-cases (a == x)) [
      | inl first ↦
          let same : a ≡ x = (==_iff a x).0 first in
          let other : (c == x) ≡ false = ground (arith, same, differ) in
          let has = query-HasSymbol c [] false rest (sym (query-later c x [] t rest other) ∙ qc) in
          rw same (IsPair-here f below current all x t rest c l has)
      | inr not_a ↦ elim (Bool-cases (c == x)) [
        | inl second ↦
            let same : c ≡ x = (==_iff c x).0 second in
            let has =
              query-HasSymbol a [] false rest (sym (query-later a x [] t rest not_a) ∙ qa) in
            rw same (
              Any-map _ _ _ (turn (string_of current ++ []) a x)
                (IsPair-here f below current all x t rest a l has))
        | inr not_c ↦ beyond_arc _ below current all x t rest (
            visits-IsPair f zero below current all rest [] a c l.2 e differ
              (sym (query-later a x [] t rest not_a) ∙ qa)
              (sym (query-later c x [] t rest not_c) ∙ qc))
      ]
    ]
visits-IsPair f (suc d) below current all (arc x (node e b) rest) (p ∷ common) a c l s differ qa
      qc =
    elim (Bool-cases (p == x)) [
      | inl here ↦
          let same : p ≡ x = (==_iff p x).0 here in
          let qa' : query (common ++ a ∷ []) (node false b) ≡ true =
            rw l.1.0 at (sym (query-here p x (common ++ a ∷ []) (node e b) rest here) ∙ qa) in
          let qc' : query (common ++ c ∷ []) (node false b) ≡ true =
            rw l.1.0 at (sym (query-here p x (common ++ c ∷ []) (node e b) rest here) ∙ qc) in
          let deeper =
            visits-IsPair f d (frame (node false all) (arc x (node false b) rest) ∷ below)
              (x ∷ current) b b common a c l.1.1 (omega (arith, s)) differ qa' qc' in
          rw (l.1.0, same)
            (subst
              (λ q.
                Any (IsPair q a c)
                  (visits_arcs below current (node false all) (arc x (node false b) rest)))
              (append_assoc (string_of current) (x ∷ []) common) (Any-append_left _ _ _ deeper))
      | inr other ↦ beyond_arc _ below current all x (node e b) rest (
          visits-IsPair f (suc d) below current all rest (p ∷ common) a c l.2 s differ
            (sym (query-later p x (common ++ a ∷ []) (node e b) rest other) ∙ qa)
            (sym (query-later p x (common ++ c ∷ []) (node e b) rest other) ∙ qc))
    ]
