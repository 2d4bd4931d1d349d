-- ===== src/VerticalDb/Message.antt =====
-- From src/transaction-db/Transaction_Set.cxx to src/bitdrill/Vertical_DB.cxx: transactions sent
-- as a message, scanned into a database, and an itemset counted there.
use bitdrill.Base.{
  ℕ, suc, ap, refl, arith, ◌<◌, ◌≤◌, ◌≡◌, inl, true, Option, some, List, [], ◌∷◌, All, length,
  ◌>>=◌, map,
}
use bitdrill.Base.Count.{count_below}
use bitdrill.TidVector.Laws.{has}
use bitdrill.TransactionSet.{encode, buffer_reads}
use bitdrill.TransactionSet.Codec.{decode-encode}
use bitdrill.VerticalDb.{build, frequency}
use bitdrill.VerticalDb.Ranks.{NoRepeats}
use bitdrill.VerticalDb.Filling.{AllOnce}
use bitdrill.VerticalDb.Building.{contains, IsCounted, build-IsVertical}
use bitdrill.VerticalDb.Frequency.{has_all, frequency-count_below}

-- The reads of a scanner that meets every transaction.
abbrev pub reads_of : List (List ℕ) → List (Option (List ℕ))
reads_of ts = map some ts

pub reads_of-AllOnce : (ts : List (List ℕ)) → All NoRepeats ts → AllOnce (reads_of ts)
reads_of-AllOnce [] h = tt
reads_of-AllOnce (t ∷ ts) h = (h.0, reads_of-AllOnce ts h.1)

pub length-reads : (ts : List (List ℕ)) → length (reads_of ts) ≡ length ts
length-reads [] = refl
length-reads (t ∷ ts) = ap suc (length-reads ts)

-- Transactions that have no item twice are encoded, the message is scanned, and a database over at
-- least as many transactions, and at least one, is made of it for distinct frequent items with
-- positive counts. Then `frequency` of one or two of these items comes back with the number of the
-- transactions that have them all.
pub frequency-encode :
    (f count : List ℕ) (num_items n : ℕ) (ts : List (List ℕ)) (itemset : List ℕ)
    → NoRepeats f
    → ((i : ℕ) → has f i ≡ true → i < num_items)
    → ((i : ℕ) → has f i ≡ true → IsCounted count i)
    → All NoRepeats ts
    → length ts ≤ n
    → 0 < n
    → 0 < length itemset
    → length itemset ≤ 2
    → All (λ i. has f i ≡ true) itemset
    → (buffer_reads (length (encode ts [])) (encode ts []) >>= λ reads.
        build f count num_items n reads >>= λ db. frequency db itemset)
      ≡ some (count_below n (has_all (contains (reads_of ts)) itemset))
frequency-encode f count num_items n ts itemset d below counted once le some_txn ne few known =
    let built =
      build-IsVertical f count num_items n (reads_of ts) d below counted (reads_of-AllOnce ts once)
        (omega (arith, le, length-reads ts)) in
    let total =
      frequency-count_below n f _ built.out itemset built.valid some_txn ne known (inl few) in
    rw ((decode-encode ts []).1, built.returns) total
