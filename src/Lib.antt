-- ===== src/Lib.antt =====
-- Verification library of bitdrill, a miner of frequent itemsets that keeps, for each item, the
-- transactions that contain it.
--
-- The parts, and the file of the library for each:
--   * BitVector models src/bitdrill/Bit_Vector.hxx, a vector of bits in words of 32: `resize`,
--     `get`, `set` (here `set_bit`), `unset`, `intersect` in its two forms (the one that writes
--     its result elsewhere is `intersect_into`), `count`, `intersect_and_count`,
--     `count_intersection` and `numbits`. A word is a number below 2 ^ 32. BitVector/Words is about
--     the loops over words, BitVector/Popcount about `numbits`, BitVector/Laws and
--     BitVector/Access about the operations.
--   * TidVector models src/bitdrill/Tid_Vector.hxx, a vector of transaction identifiers. The
--     forms that take a bit vector are named `_bits`. `set_intersection` is the standard library's.
--   * TidList models src/bitdrill/Tid_List.hxx and Tid_List.cxx, the transactions of an item in
--     one of these two representations. An operation that the source writes as a test on
--     `implementation` goes through a function named `_by` that has one clause for each
--     combination. TidList/Laws, TidList/Intersection, TidList/Building and TidList/Faults are
--     about the operations as operations on sets of transactions.
--   * Trie models src/bitdrill/Trie.hxx, a prefix tree of itemsets with `insert`, `query`,
--     `check_supports`, `size`, `encode` and `decode`. The pointer to a child that `find_symbol`
--     gives is written out: `update_symbol` is what a change of the child makes of its parent.
--     Trie/Laws, Trie/Supports, Trie/Codec and Trie/Merge are about the operations, Trie/Level about
--     tries whose itemsets have one size.
--   * Walk models the walks `Walk` and `Candidate_Walk` of src/bitdrill/Trie.hxx, and TidlistWalk
--     models `Walk_Tidlist`, which keeps lists of transactions in a cache; `tidlist_next` is its
--     `next`. The two stacks of a walk are one list of frames, last first. Walk/Visits and
--     Walk/Rounds are about the places that `next` comes to, Walk/Places and Walk/Generated about
--     those in a trie of one size, TidlistWalk/Laws, TidlistWalk/Follows and TidlistWalk/Cache
--     about the cache, and TidlistWalk/Loop about loops over a walk.
--   * Miner models the searches of src/bitdrill/Miner.cxx: Miner/Levels `discover (vertical_db, ...)`,
--     Miner/Whole `discover ()` with a given counter (here `discover_file`), Miner/Candidates
--     `gen_candidates`, Miner/Given `discover_cand (vertical_db, ...)`, and Miner/Serial
--     `discover_cand_serial`. A level walks the trie of the frequent itemsets of one size with a
--     TidlistWalk, makes candidates with the arcs ahead, checks their supports in the trie, and
--     counts them by TidList. Miner/Frequent says what is frequent; Miner/Considered,
--     Miner/Counted, Miner/Extended, Miner/Made and Miner/LevelLaws are about a level from the
--     inside out, Miner/Sizes and Miner/LevelsLaws about all levels, Miner/Inserted about the
--     patterns given at the start, Miner/Mining about a search in a database just made,
--     Miner/Written about the two searches, Miner/Whole/Pairs, Miner/Discovered and Miner/AllFound
--     about the file that `discover ()` writes, and Miner/GivenLaws and Miner/GivenLost about
--     `discover_cand`.
--   * Counting models the counter of src/2-items/Count.cxx and Count.hxx, which finds the frequent
--     items and pairs for the miner, with `only_second_scan` of kdci.hxx. It fills a UtMatrix with
--     the counts of pairs and a Graph with the frequent ones. kDCI is another project's: what comes
--     from it is the parameter `Kdci`, and Counting/Exact says in `IsKdciOf` what is relied on.
--     kDCI stops at the first read that fails and does not count an empty transaction.
--     `discover ()` without a given counter is `discover_anew`. Counting/Project models
--     `project_items_from`. Counting/Items is about the first pass, Counting/Table, Counting/Places
--     and Counting/Candidates about the counts of the candidates, Counting/Scan, Counting/Tally and
--     Counting/Exact about the matrix, Counting/Edges, Counting/Kept, Counting/Pruning and
--     Counting/PairsKept about the graph, and Counting/Failed, Counting/Stages and Counting/Counted
--     about the whole.
--   * UtMatrix models src/graph/UT_Matrix.hxx, UT_Matrix.cxx and Mtx_Graph.hxx, a triangular matrix
--     in one vector and the undirected graph on it: UtMatrix/Places is about the places of the
--     entries, UtMatrix/Laws about what `add` changes.
--   * Graph models src/graph/Graph.hxx, Graph.cxx and Vertex_Induced_Subgraph.cxx, graphs of
--     adjacency lists with weights, with Graph/Laws about the insertions. `weight (u, v)` of the
--     adjacency list is `edge_weight`.
--   * VerticalDb models src/bitdrill/Vertical_DB.cxx and Vertical_DB.hxx, the database that the
--     miner works on: the constructor (`build`) with its loops, `insert`, `item`, `tidlist` and
--     `frequency`, and in children `reorder` with its quick sorts (VerticalDb/Reorder) and the merge
--     of two databases (VerticalDb/Merged). The modules under VerticalDb/Reorder are about the sorts,
--     from a swap to the whole. It keeps a TidList for each frequent item and calls
--     its operations. The scanner it reads is a list of reads, `none` where a read has no
--     transaction. VerticalDb/Ranks and VerticalDb/Order are about the maps and the sort,
--     VerticalDb/Laws, VerticalDb/Filling and VerticalDb/Building about the lists that the
--     constructor fills, VerticalDb/Frequency about the lookup of an itemset, VerticalDb/Lost about
--     the lookups that fail, and VerticalDb/Message about a database made from a message of
--     TransactionSet.
--   * PatternSet models the decomposition by size of src/bitdrill/Pattern.cxx, with PatternSet/Laws
--     about it.
--   * TransactionSet models src/transaction-db/Transaction.cxx and Transaction_Set.cxx in memory:
--     messages (`encode`, `decode`, the buffer scanner), `large_items` and the pruning, in
--     TransactionSet/Codec, TransactionSet/Frequent and TransactionSet/Pruning.
--   * Canonical models src/math/KCanonical_Rep.cxx and KruskalKatona.cxx, the bound on the number
--     of candidates. GMP's binomial coefficients are the parameter `choose`, of which
--     Canonical/Binomial assumes Pascal's rule and its two edges.
--   * Base holds what they share: tests and conditionals, lists, binary digits, 32-bit masks and
--     shifts, and counting. The modules named Runs or LostRuns hold runs on concrete inputs.
--
-- A class is a record or a data type, and an operation that changes an object returns the object
-- it leaves. An `int` is a number from 0 up: indices, identifiers, items and counts are never
-- negative here. What overflows in a word is cut (`u32`). An operation that can fail returns an
-- option, whose `none` is a failed `assert`, an `exit`, or a read outside a vector; the program is
-- compiled with its assertions on and without DEBUG.
--
-- Loops are recursion on what they walk over, or run on fuel. The decoder of
-- tries has one unit for each code of the message and one more, the readers of a message of
-- transactions one for each number; every call uses up a code, so the fuel is enough. The search
-- of the k-canonical representation for the next coefficient has n + 1 units, since coefficients
-- grow by at least 1 with each step. A walk has two rounds for each arc of its trie and two more:
-- a round goes down an arc or comes back from one. The search by levels has a level for each
-- frequent item and two more, since an itemset has no item twice; `gen_candidates`, which has no
-- database, takes its fuel as an argument. A quick sort has a call for each item and one more in
-- its depth, and a partition a swap for each item and one more.
--
-- Not here: printing and logging, and the numbers that are only printed; memory pools, which do
-- not change what a trie holds; `Walk_K` and the sentinel of `Walk_Tidlist`, which the merge of
-- itemsets uses, and that merge; the counter for a relative support and without kDCI; the formats
-- and messages of graphs; the readers and writers of transactions and patterns; and the programs
-- by other authors that the repository carries along.
mod Base
pub mod BitVector
pub mod TidVector
pub mod TidList
pub mod Trie
pub mod UtMatrix
pub mod VerticalDb
pub mod PatternSet
pub mod Walk
pub mod TidlistWalk
pub mod Miner
pub mod Canonical
pub mod Counting
pub mod Graph
pub mod TransactionSet
