-- ===== src/Trie/Supports.antt =====
-- `check_supports` of src/bitdrill/Trie.hxx: the candidate pruning of the miner.
use mathlib.Core.List.{append-nil, append_assoc}
use bitdrill.Base.{
  ℕ, ◌≡◌, refl, ap, ◌∙◌, sym, ◌↔◌, true, some, List, [], ◌∷◌, ◌++◌, Bool-cases, inl, inr, arith,
}
use bitdrill.Trie.{Trie, query, check_from, check_supports}

-- What the loop looks up from one place on: the itemset without the item at each place.
abbrev Supported : List ℕ → List ℕ → Trie → Type 0
Supported before [] t = Unit
Supported before (x ∷ after) t =
    (query (before ++ after) t ≡ true) × Supported (before ++ x ∷ []) after t

check_from_iff :
    (before after : List ℕ) (t : Trie)
    → (check_from before after t ≡ true) ↔ Supported before after t
unfolding check_from
check_from_iff before [] t = (λ _. tt, λ _. refl)
check_from_iff before (x ∷ after) t =
    let ih = check_from_iff (before ++ x ∷ []) after t in
    elim (Bool-cases (query (before ++ after) t)) [
      | inl found ↦ (λ h. (found, ih.0 (rw found at h)), λ h. rw found (ih.1 h.1))
      | inr missing ↦
          (λ h. absurd (ground (arith, h, missing)), λ h. absurd (ground (arith, h.0, missing)))
    ]

rest_of : List ℕ → List ℕ
rest_of [] = []
rest_of (x ∷ xs) = xs

-- Every itemset that lacks one item of `places` is found, with `before` in front.
abbrev AllFound : List ℕ → List ℕ → Trie → Type 0
AllFound before places t =
    (front : List ℕ) (y : ℕ) (back : List ℕ)
    → front ++ y ∷ back ≡ places
    → query ((before ++ front) ++ back) t ≡ true

Supported→AllFound :
    (before after : List ℕ) (t : Trie) → Supported before after t → AllFound before after t
unfolding rest_of
Supported→AllFound before [] t h [] y back e = cc
Supported→AllFound before [] t h (z ∷ front) y back e = cc
Supported→AllFound before (x ∷ after) t h [] y back e =
    let same : after ≡ back = sym (ap rest_of e) in
    ap (λ l. query (l ++ back) t) (append-nil before)
    ∙ ap (λ l. query (before ++ l) t) (sym same)
    ∙ h.0
Supported→AllFound before (x ∷ after) t h (z ∷ front) y back e =
    let ih = Supported→AllFound (before ++ x ∷ []) after t h.1 front y back (ap rest_of e) in
    let head : z ≡ x = cc in
    ap (λ l. query (l ++ back) t)
      (ap (λ k. before ++ k ∷ front) head ∙ sym (append_assoc before (x ∷ []) front))
    ∙ ih

AllFound→Supported :
    (before after : List ℕ) (t : Trie) → AllFound before after t → Supported before after t
AllFound→Supported before [] t h = tt
AllFound→Supported before (x ∷ after) t h = (
  ap (λ l. query (l ++ after) t) (sym (append-nil before)) ∙ h [] x after refl,
  AllFound→Supported (before ++ x ∷ []) after t λ front y back e.
      ap (λ l. query (l ++ back) t) (append_assoc before (x ∷ []) front)
      ∙ h (x ∷ front) y back (ap (◌∷◌ x) e),
)

-- `check_supports` of an itemset that is not empty says yes exactly when the trie has every
-- itemset that is left where one item is taken out.
pub check_supports_iff :
    (x : ℕ) (xs : List ℕ) (t : Trie)
    → (check_supports (x ∷ xs) t ≡ some true) ↔ (
        (front : List ℕ) (y : ℕ) (back : List ℕ)
        → front ++ y ∷ back ≡ x ∷ xs
        → query (front ++ back) t ≡ true)
unfolding check_supports
check_supports_iff x xs t = (
  λ h.
      let passed : check_from [] (x ∷ xs) t ≡ true = cc in
      Supported→AllFound [] (x ∷ xs) t ((check_from_iff [] (x ∷ xs) t).0 passed),
  λ h. ap some ((check_from_iff [] (x ∷ xs) t).1 (AllFound→Supported [] (x ∷ xs) t h)),
)
