-- ===== src/VerticalDb/Ranks.antt =====
-- The maps between items and ranks that src/bitdrill/Vertical_DB.cxx makes, and its sort.
use bitdrill.Base.{ℕ, suc, ◌+◌, ◌<◌, ◌≡◌, refl, ap, ◌∙◌, arith, ◌||◌}
use bitdrill.Base.{
  Bool, true, false, Option, some, none, List, [], ◌∷◌, length, length-set, get_elem?-set, All,
  get_elem?, set, lt→ltb, ◌==◌, ==_iff, if◌then◌else◌, ◌>>=◌, Bool-cases, Option-cases, inl, inr,
}
use bitdrill.TidVector.Laws.{has}
use bitdrill.VerticalDb.{insert_by, sort_by, make_map}

-- The first index of an item.
abbrev pub index_of : ℕ → List ℕ → Option ℕ
index_of x [] = none
index_of x (y ∷ ys) =
    let later = index_of x ys in if x == y then some 0 else (later >>= λ r. some (suc r))

abbrev pub NoRepeats : List ℕ → Type 0
NoRepeats [] = Unit
NoRepeats (x ∷ xs) = (has xs x ≡ false) × NoRepeats xs

pub index_of-none : (x : ℕ) (xs : List ℕ) → has xs x ≡ false → index_of x xs ≡ none
index_of-none x [] h = refl
index_of-none x (y ∷ ys) h = ground (arith, index_of-none x ys, h)

pub index_of-some : (x : ℕ) (xs : List ℕ) → has xs x ≡ true → (r : ℕ) × (index_of x xs ≡ some r)
index_of-some x [] h = cc
index_of-some x (y ∷ ys) h = elim (Bool-cases (x == y)) [
  | inl here ↦ (0, rw here)
  | inr later ↦
      let found = index_of-some x ys (ground (arith, h, later)) in
      (suc found.0, rw (later, found.1))
]

-- What an item is mapped to when the items of a list have the ranks from `freq` on.
abbrev pub ranked : ℕ → Option ℕ → Option (Option ℕ) → Option (Option ℕ)
ranked freq none old = old
ranked freq (some r) old = some (some (freq + r))

pub record IsMap (freq : ℕ) (items : List ℕ) (old : List (Option ℕ))
    (result : Option (List (Option ℕ))) : Type 0 where
  pub out : List (Option ℕ)
  pub returns : result ≡ some out
  pub reads : (i : ℕ) → get_elem? out i ≡ ranked freq (index_of i items) (get_elem? old i)

ranked-index_of :
    (freq x i : ℕ) (items : List ℕ) (old : Option (Option ℕ))
    → has items x ≡ false
    → ranked (freq + 1) (index_of i items) (if x == i then some (some freq) else old)
      ≡ ranked freq (index_of i (x ∷ items)) old
ranked-index_of freq x i items old h = elim (Bool-cases (i == x)) [
  | inl here ↦
      let same : i ≡ x = (==_iff i x).0 here in
      let missing : index_of i items ≡ none = index_of-none i items (rw same h) in
      rw (here, missing) (ground (arith, here))
  | inr later ↦ elim (Option-cases (index_of i items)) [
    | inl missing ↦ rw (later, missing) (ground (arith, later))
    | inr (r, found) ↦ rw (later, found) (ap (λ k. some (some k)) (omega arith))
  ]
]

pub make_map-IsMap :
    (freq : ℕ) (items : List ℕ) (old : List (Option ℕ))
    → NoRepeats items
    → All (λ i. i < length old) items
    → IsMap freq items old (make_map freq items old)
unfolding make_map
make_map-IsMap freq [] old n b = record { out = old; returns = refl; reads = λ i. refl }
make_map-IsMap freq (x ∷ items) old n b =
    let filled =
      make_map-IsMap (freq + 1) items (set old x (some freq)) n.1
        (rw (length-set old x (some freq)) b.1) in
    record {
      out = filled.out;
      returns = rw (lt→ltb x (length old) b.0) filled.returns;
      reads = λ i.
          filled.reads i
          ∙ ap (ranked (freq + 1) (index_of i items)) (get_elem?-set old x i (some freq) b.0)
          ∙ ranked-index_of freq x i items (get_elem? old i) n.0;
    }

has-insert_by :
    (before : ℕ → ℕ → Bool) (x y : ℕ) (xs : List ℕ)
    → has (insert_by before x xs) y ≡ (y == x || has xs y)
unfolding insert_by
has-insert_by before x y [] = refl
has-insert_by before x y (z ∷ zs) = ground (arith, has-insert_by before x y zs)

pub has-sort_by :
    (before : ℕ → ℕ → Bool) (xs : List ℕ) (y : ℕ) → has (sort_by before xs) y ≡ has xs y
unfolding sort_by
has-sort_by before [] y = refl
has-sort_by before (x ∷ xs) y =
    has-insert_by before x y (sort_by before xs) ∙ ap (y == x ||◌) (has-sort_by before xs y)

insert_by-NoRepeats :
    (before : ℕ → ℕ → Bool) (x : ℕ) (xs : List ℕ)
    → has xs x ≡ false
    → NoRepeats xs
    → NoRepeats (insert_by before x xs)
unfolding insert_by
insert_by-NoRepeats before x [] h n = (refl, tt)
insert_by-NoRepeats before x (y ∷ ys) h n = elim (Bool-cases (before x y)) [
  | inl here ↦ rw here (h, n)
  | inr later ↦ rw later (
    has-insert_by before x y ys ∙ ground (arith, h, n.0),
    insert_by-NoRepeats before x ys (ground (arith, h)) n.1,
  )
]

pub sort_by-NoRepeats :
    (before : ℕ → ℕ → Bool) (xs : List ℕ) → NoRepeats xs → NoRepeats (sort_by before xs)
unfolding sort_by
sort_by-NoRepeats before [] n = tt
sort_by-NoRepeats before (x ∷ xs) n =
    insert_by-NoRepeats before x (sort_by before xs) (has-sort_by before xs x ∙ n.0)
      (sort_by-NoRepeats before xs n.1)

pub length-insert_by :
    (before : ℕ → ℕ → Bool) (y : ℕ) (xs : List ℕ) → length (insert_by before y xs) ≡ suc (length xs)
unfolding insert_by
length-insert_by before y [] = refl
length-insert_by before y (x ∷ xs) = ground (arith, length-insert_by before y xs)

pub length-sort_by : (before : ℕ → ℕ → Bool) (xs : List ℕ) → length (sort_by before xs) ≡ length xs
unfolding sort_by
length-sort_by before [] = refl
length-sort_by before (x ∷ xs) =
    length-insert_by before x (sort_by before xs) ∙ ap suc (length-sort_by before xs)
