-- ===== src/VerticalDb/Laws.antt =====
-- The lists of src/bitdrill/Vertical_DB.cxx rank by rank, while transactions are added to them.
use bitdrill.Base.{ℕ, suc, ◌<◌, ◌≡◌, refl, ◌∙◌, sym, arith}
use bitdrill.Base.{
  Bool, true, false, Option, some, none, List, [], ◌∷◌, get_elem?, set, ◌==◌, ==_iff, Bool-cases,
  Option-cases, inl, inr,
}
use bitdrill.TidVector.Laws.{has}
use bitdrill.TidList.{TidList}
use bitdrill.TidList.Laws.{IsTidList, holds}
use bitdrill.VerticalDb.Ranks.{index_of, NoRepeats}

-- A list over n transactions that holds exactly those that pass `p`, all below n.
abbrev pub Tells : ℕ → (ℕ → Bool) → TidList → Type 0
Tells n p tl = IsTidList n tl × ((t : ℕ) → t < n → holds tl t ≡ p t)

-- The list of each rank holds what `p` says of the item.
abbrev pub Listed : ℕ → (ℕ → ℕ → Bool) → List ℕ → List TidList → Type 0
Listed n p [] [] = Unit
Listed n p [] (tl ∷ tls) = ⊥
Listed n p (x ∷ items) [] = ⊥
Listed n p (x ∷ items) (tl ∷ tls) = Tells n (p x) tl × Listed n p items tls

-- Two views of the transactions agree on an item.
abbrev pub Agree : (ℕ → ℕ → Bool) → (ℕ → ℕ → Bool) → ℕ → Type 0
Agree p q x = (t : ℕ) → p x t ≡ q x t

Tells-Agree :
    (n : ℕ) (p q : ℕ → ℕ → Bool) (x : ℕ) (tl : TidList)
    → Agree p q x
    → Tells n (p x) tl
    → Tells n (q x) tl
Tells-Agree n p q x tl a h = (h.0, λ t lt. h.1 t lt ∙ a t)

pub Listed-Agree :
    (n : ℕ) (p q : ℕ → ℕ → Bool) (items : List ℕ) (tls : List TidList)
    → ((x : ℕ) → has items x ≡ true → Agree p q x)
    → Listed n p items tls
    → Listed n q items tls
Listed-Agree n p q [] [] a h = tt
Listed-Agree n p q [] (tl ∷ tls) a h = absurd h
Listed-Agree n p q (x ∷ items) [] a h = absurd h
Listed-Agree n p q (x ∷ items) (tl ∷ tls) a h = (
  Tells-Agree n p q x tl (a x (ground arith)) h.0,
  Listed-Agree n p q items tls (λ y found. a y (ground (arith, found))) h.1,
)

first_index :
    (x y : ℕ) (items : List ℕ) {r : ℕ} → index_of x (y ∷ items) ≡ some r → (x == y) ≡ true → r ≡ 0
first_index x y items {r} e here = let at : some 0 ≡ some r = rw here at e in cc

later_index :
    (x y : ℕ) (items : List ℕ) {r : ℕ}
    → index_of x (y ∷ items) ≡ some r
    → (x == y) ≡ false
    → (k : ℕ) × (index_of x items ≡ some k) × (r ≡ suc k)
later_index x y items {r} e later = elim (Option-cases (index_of x items)) [
  | inl missing ↦ let at : none ≡ some r = rw (later, missing) at e in absurd cc
  | inr (k, found) ↦ let at : some (suc k) ≡ some r = rw (later, found) at e in (k, found, cc)
]

other_item :
    (x y z : ℕ) (items : List ℕ)
    → x ≡ y
    → has items y ≡ false
    → has items z ≡ true
    → (z == x) ≡ false
other_item x y z items same missing found = elim (Bool-cases (z == x)) [
  | inl equal ↦ let alike : z ≡ x = (==_iff z x).0 equal in absurd cc
  | inr other ↦ other
]

pub record Entry (n : ℕ) (p : ℕ → Bool) (result : Option TidList) : Type 0 where
  pub out : TidList
  pub reads : result ≡ some out
  pub tells : Tells n p out

-- The list at the rank of an item is the one that tells of the item.
pub Listed→Entry :
    (n : ℕ) (p : ℕ → ℕ → Bool) (items : List ℕ) (tls : List TidList) (x : ℕ) {r : ℕ}
    → Listed n p items tls
    → index_of x items ≡ some r
    → Entry n (p x) (get_elem? tls r)
Listed→Entry n p [] tls x l e = cc
Listed→Entry n p (y ∷ items) [] x l e = absurd l
Listed→Entry n p (y ∷ items) (tl ∷ tls) x {r} l e = elim (Bool-cases (x == y)) [
  | inl here ↦
      let same : r ≡ 0 = first_index x y items e here in
      record { out = tl; reads = rw same refl; tells = rw ((==_iff x y).0 here) l.0 }
  | inr later ↦
      let found = later_index x y items e later in
      rw found.2 (Listed→Entry n p items tls x l.1 found.1)
]

-- A new list at the rank of an item, where nothing changes for the other items.
pub Listed-set :
    (n : ℕ) (p q : ℕ → ℕ → Bool) (items : List ℕ) (tls : List TidList) (x : ℕ) (tl : TidList)
    {r : ℕ}
    → NoRepeats items
    → Listed n p items tls
    → index_of x items ≡ some r
    → ((y : ℕ) → (y == x) ≡ false → Agree p q y)
    → Tells n (q x) tl
    → Listed n q items (set tls r tl)
Listed-set n p q [] tls x tl d l e a h = cc
Listed-set n p q (y ∷ items) [] x tl d l e a h = absurd l
Listed-set n p q (y ∷ items) (u ∷ tls) x tl {r} d l e a h = elim (Bool-cases (x == y)) [
  | inl here ↦
      let first : r ≡ 0 = first_index x y items e here in
      let same : x ≡ y = (==_iff x y).0 here in
      rw first (
        rw (sym same) h,
        Listed-Agree n p q items tls (λ z found. a z (other_item x y z items same d.0 found)) l.1,
      )
  | inr later ↦
      let found = later_index x y items e later in
      rw found.2 (
        Tells-Agree n p q y u (a y (ground (arith, later))) l.0,
        Listed-set n p q items tls x tl d.1 l.1 found.1 a h,
      )
]
