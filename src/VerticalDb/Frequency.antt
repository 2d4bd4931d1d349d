-- ===== src/VerticalDb/Frequency.antt =====
-- `tidlist` and `frequency` of src/bitdrill/Vertical_DB.cxx: the transactions of an itemset.
use bitdrill.TidList.Laws.{some-HasWords}
use bitdrill.Base.{ℕ, length, ap₂, ◌≤◌, ◌<◌, ◌≡◌, refl, ap, ◌∙◌, arith, ◌⊎◌, inl, inr}
use bitdrill.Base.{Bool, true, ◌&&◌, some, List, [], ◌∷◌, All}
use bitdrill.Base.Count.{count_below, count_below_ext}
use bitdrill.TidVector.Laws.{has}
use bitdrill.TidList
use bitdrill.TidList.{
  TidList, Implementation, bitvector, tidvector, intersect_by, intersect_into_by,
}
use bitdrill.TidList.Laws.{Holds, count-count_below}
use bitdrill.TidList.Intersection.{intersect_into-Holds}
use bitdrill.TidList.BitsOnly.{intersect_into-BitsHold, intersect-BitsHold}
use bitdrill.TidList.Building.{reset-Holds}
use bitdrill.VerticalDb.{VerticalDb, item, intersect_rest, tidlist, frequency}
use bitdrill.VerticalDb.Laws.{Tells}
use bitdrill.VerticalDb.Building.{IsVertical}

-- Whether transaction t has every item of the itemset.
abbrev pub has_all : (ℕ → ℕ → Bool) → List ℕ → ℕ → Bool
has_all view [] t = true
has_all view (i ∷ rest) t = view i t && has_all view rest t

-- The list of an item is kept as a bit vector.
abbrev pub UsesBits : VerticalDb → ℕ → Type 0
UsesBits db i = (tl : TidList) → item db i ≡ some tl → tl.implementation ≡ bitvector

-- The loop from the third item on, where every list is a bit vector.
module _ (n : ℕ) (f : List ℕ) (view : ℕ → ℕ → Bool) (db : VerticalDb) (v : IsVertical n f view db)
    (some_txn : 0 < n) where
  intersect_rest-Holds :
      (rest : List ℕ) (tl : TidList) (p : ℕ → Bool)
      → Tells n p tl
      → All (λ i. has f i ≡ true) rest
      → All (UsesBits db) rest
      → tl.implementation ≡ bitvector
      → Holds n (λ t. p t && has_all view rest t) (intersect_rest db rest tl)
  unfolding intersect_rest
  intersect_rest-Holds [] tl p h known bits kind = record {
    out = tl;
    returns = refl;
    valid = h.0;
    tells = λ t inside. h.1 t inside ∙ ground arith;
  }
  intersect_rest-Holds (i ∷ rest) tl p h known bits kind =
      let entry = v.lists i known.0 in
      let first =
        intersect-BitsHold n tl entry.out h.0 entry.tells.0 kind (bits.0 entry.out entry.reads)
          some_txn in
      let both : Tells n (λ t. p t && view i t) first.held.out = (
        first.held.valid,
        λ t inside. first.held.tells t inside ∙ ap₂ ◌&&◌ (h.1 t inside) (entry.tells.1 t inside),
      ) in
      let others =
        intersect_rest-Holds rest first.held.out (λ t. p t && view i t) both known.1 bits.1
          first.uses_bits in
      record {
        out = others.out;
        returns = rw (entry.reads, first.held.returns) others.returns;
        valid = others.valid;
        tells = λ t inside. others.tells t inside ∙ ground arith;
      }

  tidlist-Holds :
      (itemset : List ℕ) (intersection : TidList)
      → 0 < length itemset
      → All (λ i. has f i ≡ true) itemset
      → (length itemset ≤ 2) ⊎ All (UsesBits db) itemset
      → Holds n (has_all view itemset) (tidlist db itemset intersection)
  unfolding tidlist intersect_rest
  tidlist-Holds [] tl some_item known fine = absurd (omega arith)
  tidlist-Holds (i ∷ []) tl some_item known fine =
      let entry = v.lists i known.0 in
      record {
        out = entry.out;
        returns = entry.reads;
        valid = entry.tells.0;
        tells = λ t inside. entry.tells.1 t inside ∙ ground arith;
      }
  tidlist-Holds (i ∷ j ∷ []) tl some_item known fine =
      let first = v.lists i known.0 in
      let second = v.lists j known.1.0 in
      let both =
        intersect_into-Holds n first.out second.out tl first.tells.0 second.tells.0
          (some-HasWords first.out.implementation second.out.implementation n some_txn) in
      record {
        out = both.out;
        returns = rw (first.reads, second.reads, both.returns) refl;
        valid = both.valid;
        tells = λ t inside.
            both.tells t inside
            ∙ ap₂ ◌&&◌ (first.tells.1 t inside) (second.tells.1 t inside)
            ∙ ground arith;
      }
  tidlist-Holds (i ∷ j ∷ k ∷ rest) tl some_item known (inl few) = absurd (omega arith)
  tidlist-Holds (i ∷ j ∷ k ∷ rest) tl some_item known (inr bits) =
      let first = v.lists i known.0 in
      let second = v.lists j known.1.0 in
      let both =
        intersect_into-BitsHold n first.out second.out tl first.tells.0 second.tells.0
          (bits.0 first.out first.reads) (bits.1.0 second.out second.reads) some_txn in
      let pair : Tells n (λ t. view i t && view j t) both.held.out = (
        both.held.valid,
        λ t inside.
            both.held.tells t inside ∙ ap₂ ◌&&◌ (first.tells.1 t inside) (second.tells.1 t inside),
      ) in
      let others =
        intersect_rest-Holds (k ∷ rest) both.held.out (λ t. view i t && view j t) pair known.1.1
          bits.1.1 both.uses_bits in
      record {
        out = others.out;
        returns = rw (first.reads, second.reads, both.held.returns) others.returns;
        valid = others.valid;
        tells = λ t inside. others.tells t inside ∙ ground arith;
      }

-- `frequency` of an itemset that is not empty and has only items of a database over n transactions, n
-- not being 0, comes back with the number of transactions that have all its items, where it has at most two
-- items or all its lists are bit vectors.
pub frequency-count_below :
    (n : ℕ) (f : List ℕ) (view : ℕ → ℕ → Bool) (db : VerticalDb) (itemset : List ℕ)
    → IsVertical n f view db
    → 0 < n
    → 0 < length itemset
    → All (λ i. has f i ≡ true) itemset
    → (length itemset ≤ 2) ⊎ All (UsesBits db) itemset
    → frequency db itemset ≡ some (count_below n (has_all view itemset))
unfolding frequency
frequency-count_below n f view db [] v some_txn some_item known fine = absurd (omega arith)
frequency-count_below n f view db (i ∷ rest) v some_txn some_item known fine =
    let counted = v.counted i known.0 in
    let fresh =
      (reset-Holds n counted.expected (TidList.new_tid_list bitvector) counted.positive).0 in
    let found = tidlist-Holds n f view db v some_txn (i ∷ rest) fresh.out some_item known fine in
    let total =
      count-count_below n found.out found.valid
        (some-HasWords found.out.implementation found.out.implementation n some_txn) in
    rw (counted.reads, v.size, fresh.returns, found.returns, total)
      (ap some (count_below_ext n _ _ found.tells))
