-- ===== src/VerticalDb/FailedReads.antt =====
-- Reads that fail after the last transaction: the constructor of src/bitdrill/Vertical_DB.cxx passes
-- over them.
use bitdrill.Base.{ℕ, zero, suc, ◌+◌, ◌≡◌, refl}
use bitdrill.Base.{Option, some, none, List, [], ◌∷◌, ◌++◌, replicate, Option-cases, inl, inr}
use bitdrill.TidList.{TidList}
use bitdrill.VerticalDb.{insert_txn, scan, build}

scan-none :
    (ranks : List (Option ℕ)) (failed txn_id : ℕ) (tidlists : List TidList)
    → scan ranks txn_id (replicate failed none) tidlists ≡ some tidlists
unfolding scan
scan-none ranks zero txn_id tidlists = refl
scan-none ranks (suc failed) txn_id tidlists = scan-none ranks failed (txn_id + 1) tidlists

scan-failed :
    (ranks : List (Option ℕ)) (failed txn_id : ℕ) (reads : List (Option (List ℕ)))
    (tidlists : List TidList)
    → scan ranks txn_id (reads ++ replicate failed none) tidlists ≡ scan ranks txn_id reads tidlists
unfolding scan
scan-failed ranks failed txn_id [] tidlists = scan-none ranks failed txn_id tidlists
scan-failed ranks failed txn_id (none ∷ reads) tidlists =
    scan-failed ranks failed (txn_id + 1) reads tidlists
scan-failed ranks failed txn_id (some txn ∷ reads) tidlists =
    elim (Option-cases (insert_txn ranks txn_id txn tidlists)) [
      | inl missing ↦ rw missing refl
      | inr (changed, found) ↦ rw found (scan-failed ranks failed (txn_id + 1) reads changed)
    ]

pub build-failed :
    (f count : List ℕ) (num_items n failed : ℕ) (reads : List (Option (List ℕ)))
    → build f count num_items n (reads ++ replicate failed none) ≡ build f count num_items n reads
unfolding build
build-failed f count num_items n failed reads = simp scan-failed
