-- ===== src/VerticalDb/Filling.antt =====
-- The constructor of src/bitdrill/Vertical_DB.cxx: adding the transactions one by one.
use bitdrill.Base.{ℕ, zero, suc, ◌+◌, ◌<◌, ◌≤◌, ◌≡◌, refl, ◌∙◌, sym, arith}
use bitdrill.Base.{
  Bool, true, false, ◌&&◌, ◌||◌, Option, some, none, List, [], ◌∷◌, length, get_elem?, set, ◌==◌,
  ==_iff, ◌>>=◌, Bool-cases, Option-cases, inl, inr,
}
use bitdrill.Base.Count.{bit_of}
use bitdrill.BitVector.Access.{length-to_bits}
use bitdrill.BitVector.Laws.{to_bits}
use bitdrill.TidVector.Laws.{has}
use bitdrill.TidList.{TidList, Implementation, bitvector, tidvector}
use bitdrill.TidList.Laws.{Content, InRange, holds_by}
use bitdrill.TidList.Building.{Before, add_transaction-Holds}
use bitdrill.VerticalDb.{add_at, insert_item, insert_txn, scan}
use bitdrill.VerticalDb.Ranks.{index_of, index_of-some, NoRepeats}
use bitdrill.VerticalDb.Laws.{Listed, Listed-Agree, Listed→Entry, Listed-set}

-- The rank that the map has for an item.
abbrev pub rank_of : List (Option ℕ) → ℕ → Option ℕ
rank_of ranks i = get_elem? ranks i >>= λ rank. rank

abbrev pub Ranks : List (Option ℕ) → List ℕ → Type 0
Ranks ranks items = (i : ℕ) → rank_of ranks i ≡ index_of i items

bit_of-below : (bits : List Bool) (t : ℕ) → bit_of bits t ≡ true → t < length bits
bit_of-below [] t h = cc
bit_of-below (b ∷ bits) zero h = omega arith
bit_of-below (b ∷ bits) (suc t) h = omega (arith, bit_of-below bits t h)

has-InRange : (n t : ℕ) (xs : List ℕ) → InRange n xs → has xs t ≡ true → t < n
has-InRange n t [] b h = cc
has-InRange n t (x ∷ xs) b h = ground (arith, has-InRange n t xs b.1)

holds_by-below :
    (i : Implementation) (n : ℕ) (tl : TidList) (t : ℕ)
    → Content i n tl
    → holds_by i tl t ≡ true
    → t < n
holds_by-below bitvector n tl t c h =
    omega (arith, bit_of-below (to_bits tl.bits) t h, length-to_bits tl.bits c.0, c.1)
holds_by-below tidvector n tl t c h = has-InRange n t tl.tids c.1 h

-- The lists that an operation came back with, and what they tell.
pub record Filled (n : ℕ) (p : ℕ → ℕ → Bool) (items : List ℕ) (result : Option (List TidList))
    : Type 0 where
  pub out : List TidList
  pub returns : result ≡ some out
  pub lists : Listed n p items out

-- The transactions after `txn` has been added under its identifier.
abbrev pub added : (ℕ → ℕ → Bool) → ℕ → List ℕ → ℕ → ℕ → Bool
added p txn_id txn x t = p x t || ((t == txn_id) && has txn x)

absent :
    (i x : ℕ) (items : List ℕ) → index_of i items ≡ none → has items x ≡ true → (x == i) ≡ false
absent i x items missing found = elim (Bool-cases (x == i)) [
  | inl equal ↦
      let same : x ≡ i = (==_iff x i).0 equal in
      let ranked = index_of-some x items found in
      let clash : some ranked.0 ≡ none = sym ranked.1 ∙ rw same missing in absurd cc
  | inr other ↦ other
]

insert_item-add_at :
    (ranks : List (Option ℕ)) (txn_id i : ℕ) (tls : List TidList)
    → insert_item ranks txn_id i tls ≡ add_at (rank_of ranks i) txn_id tls
unfolding insert_item add_at
insert_item-add_at ranks txn_id i tls = elim (Option-cases (get_elem? ranks i)) [
  | inl missing ↦ rw (missing, insert_item, rank_of) refl
  | inr (rank, found) ↦ rw (found, insert_item, rank_of) refl
]

-- Adding an item does not make another item's transactions later.
still :
    (p : ℕ → ℕ → Bool) (txn_id i j : ℕ) (txn : List ℕ) (t : ℕ)
    → has txn i ≡ false
    → has txn j ≡ true
    → added p txn_id (i ∷ []) j t ≡ true
    → p j t ≡ true
still p txn_id i j txn t new inside hit = elim (Bool-cases (j == i)) [
  | inl equal ↦ let same : j ≡ i = (==_iff j i).0 equal in absurd cc
  | inr other ↦ ground (arith, hit, other)
]

-- No transaction names an item twice.
abbrev pub AllOnce : List (Option (List ℕ)) → Type 0
AllOnce [] = Unit
AllOnce (none ∷ reads) = AllOnce reads
AllOnce (some txn ∷ reads) = NoRepeats txn × AllOnce reads

-- Whether transaction t has item x, where the reads are those from `txn_id` on.
abbrev pub occurs : ℕ → List (Option (List ℕ)) → ℕ → ℕ → Bool
occurs txn_id [] x t = false
occurs txn_id (none ∷ reads) x t = occurs (txn_id + 1) reads x t
occurs txn_id (some txn ∷ reads) x t = ((t == txn_id) && has txn x) || occurs (txn_id + 1) reads x t

module _ (n : ℕ) (items : List ℕ) (d : NoRepeats items) (ranks : List (Option ℕ))
    (m : Ranks ranks items) where
  insert_item-Filled :
      (p : ℕ → ℕ → Bool) (txn_id i : ℕ) (tls : List TidList)
      → Listed n p items tls
      → txn_id < n
      → ((t : ℕ) → p i t ≡ true → t < txn_id)
      → Filled n (added p txn_id (i ∷ [])) items (insert_item ranks txn_id i tls)
  unfolding add_at
  insert_item-Filled p txn_id i tls l lt early = elim (Option-cases (index_of i items)) [
    | inl missing ↦ record {
      out = tls;
      returns = insert_item-add_at ranks txn_id i tls ∙ rw (m i, missing);
      lists =
          Listed-Agree n p (added p txn_id (i ∷ [])) items tls
            (λ x found t. ground (arith, absent i x items missing found)) l;
    }
    | inr (r, found) ↦
        let entry = Listed→Entry n p items tls i l found in
        let before : Before txn_id entry.out = λ t hit.
          let inside = holds_by-below entry.out.implementation n entry.out t entry.tells.0 hit in
          early t (sym (entry.tells.1 t inside) ∙ hit) in
        let new = add_transaction-Holds n entry.out txn_id entry.tells.0 lt before in
        record {
          out = set tls r new.out;
          returns =
              insert_item-add_at ranks txn_id i tls ∙ rw (m i, found, entry.reads, new.returns);
          lists =
              Listed-set n p (added p txn_id (i ∷ [])) items tls i new.out d l found
                (λ y other t. ground (arith, other))
                (
                  new.valid,
                  λ t inside. new.tells t inside ∙ ground (arith, entry.tells.1 t inside),
                );
        }
  ]

  insert_txn-Filled :
      (p : ℕ → ℕ → Bool) (txn_id : ℕ) (txn : List ℕ) (tls : List TidList)
      → NoRepeats txn
      → Listed n p items tls
      → txn_id < n
      → ((i t : ℕ) → has txn i ≡ true → p i t ≡ true → t < txn_id)
      → Filled n (added p txn_id txn) items (insert_txn ranks txn_id txn tls)
  unfolding insert_txn
  insert_txn-Filled p txn_id [] tls once l lt early = record {
    out = tls;
    returns = refl;
    lists = Listed-Agree n p (added p txn_id []) items tls (λ x found t. ground arith) l;
  }
  insert_txn-Filled p txn_id (i ∷ txn) tls once l lt early =
      let first = insert_item-Filled p txn_id i tls l lt (λ t. early i t (ground arith)) in
      let rest =
        insert_txn-Filled (added p txn_id (i ∷ [])) txn_id txn first.out once.1 first.lists lt
          (λ j t inside hit.
            early j t (ground (arith, inside)) (still p txn_id i j txn t once.0 inside hit)) in
      record {
        out = rest.out;
        returns = rw first.returns rest.returns;
        lists =
            Listed-Agree n (added (added p txn_id (i ∷ [])) txn_id txn) (added p txn_id (i ∷ txn))
              items rest.out (λ x found t. ground arith) rest.lists;
      }

  -- The transactions that the scanner gives from `txn_id` on.
  pub scan-Filled :
      (p : ℕ → ℕ → Bool) (txn_id : ℕ) (reads : List (Option (List ℕ))) (tls : List TidList)
      → AllOnce reads
      → Listed n p items tls
      → length reads + txn_id ≤ n
      → ((i t : ℕ) → p i t ≡ true → t < txn_id)
      → Filled n (λ x t. p x t || occurs txn_id reads x t) items (scan ranks txn_id reads tls)
  unfolding scan
  scan-Filled p txn_id [] tls once l le early = record {
    out = tls;
    returns = refl;
    lists = Listed-Agree n p (λ x t. p x t || false) items tls (λ x found t. ground arith) l;
  }
  scan-Filled p txn_id (none ∷ reads) tls once l le early =
      scan-Filled p (txn_id + 1) reads tls once l (omega arith)
        (λ i t hit. omega (arith, early i t hit))
  scan-Filled p txn_id (some txn ∷ reads) tls once l le early =
      let first =
        insert_txn-Filled p txn_id txn tls once.0 l (omega arith) (λ i t inside. early i t) in
      let rest =
        scan-Filled (added p txn_id txn) (txn_id + 1) reads first.out once.1 first.lists
          (omega arith) (λ i t hit. ground (arith, early i t, hit)) in
      record {
        out = rest.out;
        returns = rw first.returns rest.returns;
        lists =
            Listed-Agree n (λ x t. added p txn_id txn x t || occurs (txn_id + 1) reads x t)
              (λ x t. p x t || occurs txn_id (some txn ∷ reads) x t) items rest.out
              (λ x found t. ground arith) rest.lists;
      }
