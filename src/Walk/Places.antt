-- ===== src/Walk/Places.antt =====
-- The places that the walk of src/bitdrill/Trie.hxx visits in a trie of itemsets of one size.
use mathlib.Core.List.{append_assoc}
use bitdrill.Base.{ℕ, zero, suc, ◌≡◌, refl, ap, ◌∙◌, sym, subst, arith, inl, inr}
use bitdrill.Base.{
  Bool, true, false, List, [], ◌∷◌, ◌++◌, length, All, All-append, Any, Any-append_left,
  Any-append_right, ◌==◌, ==_iff, Bool-cases,
}
use bitdrill.Trie.{Trie, node, Subtries, nil, arc, query}
use bitdrill.Trie.Merge.{Distinct}
use bitdrill.Trie.Level.{
  LevelArcs, HasArc, HasSymbol, HasArc-query, query-HasSymbol, query-here, query-later,
  other_symbol,
}
use bitdrill.Walk.{Frame, Walk, string_of, ref}
use bitdrill.Walk.Visits.{state, frame, visits_node, visits_arcs}

-- The place at the end of the arc x of a node, whose string is `front`.
abbrev pub at_arc : Frame → List Frame → Trie → ℕ → Trie → Subtries → List ℕ → Walk
at_arc top below n x t rest front = state (top ∷ frame n (arc x t rest) ∷ below) (x ∷ front)

-- A place with an itemset of the trie, where the arcs after its own give itemsets of the trie too.
pub record IsVisit (freq : Trie) (w : Walk) : Type 0 where
  pub top : Frame
  pub below : List Frame
  pub parent : Trie
  pub last : ℕ
  pub child : Trie
  pub rest : Subtries
  pub front : List ℕ
  pub place : w ≡ at_arc top below parent last child rest front
  pub found : query (string_of (last ∷ front)) freq ≡ true
  pub others : (y : ℕ) → HasSymbol y rest → query (string_of front ++ y ∷ []) freq ≡ true
  pub distinct : (y : ℕ) → HasSymbol y rest → (y == last) ≡ false

-- What the arcs lead to, below the string `current`, is in the trie.
abbrev Leads : Trie → List ℕ → Subtries → Type 0
Leads freq current b =
    (y : ℕ) (u : Trie) (s : List ℕ)
    → HasArc y u b
    → query s u ≡ true
    → query (string_of current ++ y ∷ s) freq ≡ true

Leads-on :
    (freq : Trie) (current : List ℕ) (x : ℕ) (e : Bool) (b rest : Subtries)
    → Distinct b
    → Leads freq current (arc x (node e b) rest)
    → Leads freq (x ∷ current) b
Leads-on freq current x e b rest d leads y u s has q =
    ap (λ l. query l freq) (append_assoc (string_of current) (x ∷ []) (y ∷ s))
    ∙ leads x (node e b) (y ∷ s) (inl (refl, refl)) (HasArc-query y u s e b d has ∙ q)

-- At the last arcs each symbol ends an itemset.
last_symbol :
    (f : List ℕ) (freq : Trie) (current : List ℕ) (b : Subtries) (y : ℕ)
    → LevelArcs f 0 b
    → Leads freq current b
    → HasSymbol y b
    → query (string_of current ++ y ∷ []) freq ≡ true
last_symbol f freq current nil y l leads has = absurd has
last_symbol f freq current (arc x (node e nil) rest) y l leads (inl same) =
    leads y (node e nil) [] (inl (same, refl)) (unfold query in l.1)
last_symbol f freq current (arc x (node e (arc z u more)) rest) y l leads has = absurd l.1
last_symbol f freq current (arc x (node e nil) rest) y l leads (inr later) =
    last_symbol f freq current rest y l.2 (λ z u s has. leads z u s (inr has)) later

-- Every place that the walk visits is one of these.
pub visits-IsVisit :
    (f : List ℕ) (freq : Trie) (d : ℕ) (below : List Frame) (current : List ℕ) (all b : Subtries)
    → LevelArcs f d b
    → Distinct b
    → Leads freq current b
    → All (IsVisit freq) (visits_arcs below current (node false all) b)
visits-IsVisit f freq d below current all nil l distinct leads = tt
visits-IsVisit f freq zero below current all (arc x (node e (arc y u more)) rest) l distinct leads =
    absurd l.1
visits-IsVisit f freq zero below current all (arc x (node e nil) rest) l distinct leads =
    let others =
      visits-IsVisit f freq zero below current all rest l.2 distinct.2
        (λ z u s has. leads z u s (inr has)) in
    rw l.1 (
      record {
        top = frame (node true nil) nil;
        below = below;
        parent = node false all;
        last = x;
        child = node true nil;
        rest = rest;
        front = current;
        place = refl;
        found = leads x (node e nil) [] (inl (refl, refl)) (unfold query in l.1);
        others =
            λ y has. last_symbol f freq current rest y l.2 (λ z u s h. leads z u s (inr h)) has;
        distinct = λ y has. other_symbol x y rest distinct.1 has;
      },
      others,
    )
visits-IsVisit f freq (suc d) below current all (arc x (node e b) rest) l distinct leads =
    let deeper =
      visits-IsVisit f freq d (frame (node false all) (arc x (node false b) rest) ∷ below)
        (x ∷ current) b b l.1.1 distinct.0 (Leads-on freq current x e b rest distinct.0 leads) in
    let others =
      visits-IsVisit f freq (suc d) below current all rest l.2 distinct.2
        (λ z u s has. leads z u s (inr has)) in
    rw l.1.0 (All-append _ _ _ deeper others)

-- What is visited from the arcs after the first is visited.
pub beyond_arc :
    (P : Walk → Type 0) (below : List Frame) (current : List ℕ) (all : Subtries) (x : ℕ) (t : Trie)
    (rest : Subtries)
    → Any P (visits_arcs below current (node false all) rest)
    → Any P (visits_arcs below current (node false all) (arc x t rest))
beyond_arc P below current all x t rest h =
    Any-append_right P (visits_node (frame (node false all) (arc x t rest) ∷ below) (x ∷ current) t)
      (visits_arcs below current (node false all) rest) h

-- Every itemset of the trie is the string of a place that is visited.
pub visits-found :
    (f : List ℕ) (d : ℕ) (below : List Frame) (current : List ℕ) (all b : Subtries)
    (itemset : List ℕ)
    → LevelArcs f d b
    → length itemset ≡ suc d
    → query itemset (node false b) ≡ true
    → Any (λ w. ref w ≡ string_of current ++ itemset) (visits_arcs below current (node false all) b)
visits-found f d below current all b [] l e q = absurd (omega (arith, e))
visits-found f d below current all nil (p ∷ itemset) l e q =
    absurd (query-HasSymbol p itemset false nil q)
visits-found f zero below current all (arc x t rest) (p ∷ z ∷ itemset) l e q =
    absurd (omega (arith, e))
visits-found f zero below current all (arc x (node e (arc z u more)) rest) (p ∷ []) l s q =
    absurd l.1
visits-found f zero below current all (arc x (node e nil) rest) (p ∷ []) l s q =
    elim (Bool-cases (p == x)) [
      | inl here ↦ let same : p ≡ x = (==_iff p x).0 here in rw (l.1, same) (inl refl)
      | inr other ↦ beyond_arc _ below current all x (node e nil) rest (
          visits-found f zero below current all rest (p ∷ []) l.2 s
            (sym (query-later p x [] (node e nil) rest other) ∙ q))
    ]
visits-found f (suc d) below current all (arc x (node e b) rest) (p ∷ itemset) l s q =
    elim (Bool-cases (p == x)) [
      | inl here ↦
          let same : p ≡ x = (==_iff p x).0 here in
          let q' : query itemset (node false b) ≡ true =
            rw l.1.0 at (sym (query-here p x itemset (node e b) rest here) ∙ q) in
          let deeper =
            visits-found f d (frame (node false all) (arc x (node false b) rest) ∷ below)
              (x ∷ current) b b itemset l.1.1 (omega (arith, s)) q' in
          rw (l.1.0, same)
            (subst
              (λ z.
                Any (λ w. ref w ≡ z)
                  (visits_arcs below current (node false all) (arc x (node false b) rest)))
              (append_assoc (string_of current) (x ∷ []) itemset) (Any-append_left _ _ _ deeper))
      | inr other ↦ beyond_arc _ below current all x (node e b) rest (
          visits-found f (suc d) below current all rest (p ∷ itemset) l.2 s
            (sym (query-later p x itemset (node e b) rest other) ∙ q))
    ]
