-- ===== src/Counting/Failed.antt =====
-- Reads that fail after the last transaction change nothing in `discover ()` of
-- src/bitdrill/Miner.cxx.
use bitdrill.Base.{ℕ, ◌≡◌, refl, Bool, Option, none, List, ◌++◌, replicate}
use bitdrill.VerticalDb.FailedReads.{build-failed}
use bitdrill.Miner.Whole.{Counter, discover_file}

pub discover_file-failed :
    (c : Counter) (reads : List (Option (List ℕ))) (failed : ℕ) (write_output : Bool)
    (max_level : ℕ)
    → discover_file c (reads ++ replicate failed none) write_output max_level
      ≡ discover_file c reads write_output max_level
unfolding discover_file
discover_file-failed c reads failed write_output max_level =
    rw (build-failed c.frequent c.count c.num_items c.num_transactions failed reads) refl
