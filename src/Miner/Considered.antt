-- ===== src/Miner/Considered.antt =====
-- One candidate in a level of src/bitdrill/Miner.cxx: it is put out exactly when it is frequent.
use mathlib.Core.List.{append-nil, append_assoc}
use bitdrill.Base.{ℕ, suc, ◌<◌, ◌≡◌, refl, ap, ◌∙◌, sym, arith, ◌⊎◌, inl, inr}
use bitdrill.Base.{
  Bool, true, false, ◌||◌, some, List, [], ◌∷◌, ◌++◌, length, drop, All, All-append, leb,
}
use bitdrill.Base.Count.{count_below}
use bitdrill.Trie.{Trie, empty, query, insert, check_supports}
use bitdrill.Trie.Laws.{list_eq, query-insert}
use bitdrill.Trie.Supports.{check_supports_iff}
use bitdrill.Trie.Merge.{HasDistinctArcs, insert-HasDistinctArcs}
use bitdrill.Trie.Level.{IsLevel, insert-IsLevel}
use bitdrill.VerticalDb.{VerticalDb, insert_by}
use bitdrill.VerticalDb.Ranks.{length-insert_by}
use bitdrill.VerticalDb.Building.{IsVertical}
use bitdrill.VerticalDb.Frequency.{has_all}
use bitdrill.PatternSet.{Pattern}
use bitdrill.Miner.{Mined, merge_into}
use bitdrill.Miner.Frequent.{IsFrequent, IsFrequent-without}

-- A trie of exactly the frequent itemsets of size k.
pub record IsLevelOf (n : ℕ) (f : List ℕ) (view : ℕ → ℕ → Bool) (count : List ℕ) (support k : ℕ)
    (t : Trie) : Type 0 where
  pub level : IsLevel f k t
  pub distinct : HasDistinctArcs t
  pub sound :
      (itemset : List ℕ) → query itemset t ≡ true → IsFrequent n f view count support k itemset
  pub complete :
      (itemset : List ℕ) → IsFrequent n f view count support k itemset → query itemset t ≡ true
  pub no_dead_ends : (empty t ≡ true) ⊎ ((itemset : List ℕ) × (query itemset t ≡ true))

-- A frequent itemset of size k with the number of its transactions.
pub record IsPattern (n : ℕ) (f : List ℕ) (view : ℕ → ℕ → Bool) (count : List ℕ) (support k : ℕ)
    (p : Pattern) : Type 0 where
  pub frequent : IsFrequent n f view count support k p.itemset
  pub counted : p.count ≡ count_below n (has_all view p.itemset)

-- Whether an itemset is among the patterns.
abbrev pub listed : List Pattern → List ℕ → Bool
listed [] itemset = false
listed (p ∷ ps) itemset = list_eq p.itemset itemset || listed ps itemset

pub listed-append :
    (ps qs : List Pattern) (itemset : List ℕ)
    → listed (ps ++ qs) itemset ≡ (listed ps itemset || listed qs itemset)
listed-append [] qs itemset = refl
listed-append (p ∷ ps) qs itemset = ground (arith, listed-append ps qs itemset)

pub list_eq_refl : (xs : List ℕ) → list_eq xs xs ≡ true
list_eq_refl [] = refl
list_eq_refl (x ∷ xs) = ground (arith, list_eq_refl xs)

pub list_eq→≡ : (xs ys : List ℕ) → list_eq xs ys ≡ true → xs ≡ ys
list_eq→≡ [] [] h = refl
list_eq→≡ [] (y ∷ ys) h = cc
list_eq→≡ (x ∷ xs) [] h = cc
list_eq→≡ (x ∷ xs) (y ∷ ys) h =
    let head : x ≡ y = ground (arith, h) in
    let tail : xs ≡ ys = list_eq→≡ xs ys (ground (arith, h)) in cc

-- In the middle of a level: what was put out are patterns, and the same itemsets are in the next
-- trie; each frequent itemset is there or is still to be made as `G` says.
pub record IsMining (n : ℕ) (f : List ℕ) (view : ℕ → ℕ → Bool) (count : List ℕ) (support k : ℕ)
    (out : List Pattern) (G : List ℕ → Type 0) (m : Mined) : Type 0 where
  pub new : List Pattern
  pub put_out : m.out ≡ out ++ new
  pub patterns : All (IsPattern n f view count support k) new
  pub level : IsLevel f k m.freq_next
  pub distinct : HasDistinctArcs m.freq_next
  pub finds : (itemset : List ℕ) → query itemset m.freq_next ≡ listed new itemset
  pub buffer : length m.candidate_itemset ≡ k
  pub no_dead_ends : (empty m.freq_next ≡ true) ⊎ ((itemset : List ℕ) × (listed new itemset ≡ true))
  pub reaches :
      (itemset : List ℕ)
      → IsFrequent n f view count support k itemset
      → (listed new itemset ≡ true) ⊎ G itemset

-- Less is still to be made.
pub IsMining-map :
    (n : ℕ) (f : List ℕ) (view : ℕ → ℕ → Bool) (count : List ℕ) (support k : ℕ) (out : List Pattern)
    (G H : List ℕ → Type 0) (m : Mined)
    → ((itemset : List ℕ) → IsFrequent n f view count support k itemset → G itemset → H itemset)
    → IsMining n f view count support k out G m
    → IsMining n f view count support k out H m
IsMining-map n f view count support k out G H m change i = record {
  new = i.new;
  put_out = i.put_out;
  patterns = i.patterns;
  level = i.level;
  distinct = i.distinct;
  finds = i.finds;
  buffer = i.buffer;
  no_dead_ends = i.no_dead_ends;
  reaches = λ itemset h. elim (i.reaches itemset h) [
    | inl there ↦ inl there
    | inr ahead ↦ inr (change itemset h ahead)
  ];
}

drop_all : {A : Type 0} (xs : List A) → drop (length xs) xs ≡ []
drop_all [] = refl
drop_all (x ∷ xs) = drop_all xs

drop-length : {A : Type 0} (n : ℕ) (xs : List A) → n ≡ length xs → drop n xs ≡ []
drop-length n xs e = rw e (drop_all xs)

-- The buffer of the size of the merge holds the merge.
pub merge_into_lem :
    (before : ℕ → ℕ → Bool) (itemset : List ℕ) (diff : ℕ) (buffer : List ℕ)
    → suc (length itemset) ≡ length buffer
    → merge_into before itemset diff buffer ≡ some (insert_by before diff itemset)
unfolding merge_into
merge_into_lem before itemset diff buffer e =
    let merged = insert_by before diff itemset in
    let same : length merged ≡ length buffer = length-insert_by before diff itemset ∙ e in
    let fits : leb (length merged) (length buffer) ≡ true = ground (arith, same) in
    rw (fits, drop-length (length merged) buffer same) (ap some (append-nil merged))

pub answers :
    (itemset : List ℕ) (t : Trie)
    → 0 < length itemset
    → (b : Bool) × (check_supports itemset t ≡ some b)
unfolding check_supports
answers [] t h = absurd (omega arith)
answers (x ∷ itemset) t h = (_, refl)

module _ (n : ℕ) (f : List ℕ) (view : ℕ → ℕ → Bool) (db : VerticalDb) (v : IsVertical n f view db)
    (support j : ℕ) (freq : Trie) (l : IsLevelOf n f view db.count support j freq)
    (out : List Pattern) where
  -- The supports of a frequent itemset are in the trie.
  pub frequent-supported :
      (itemset : List ℕ)
      → IsFrequent n f view db.count support (suc j) itemset
      → check_supports itemset freq ≡ some true
  frequent-supported [] h = absurd (omega (arith, h.of_size))
  frequent-supported (x ∷ xs) h = (check_supports_iff x xs freq).1 λ front y back e.
      l.complete (front ++ back)
        (IsFrequent-without n f view db.count support j front y back (rw (sym e) at h))

  -- A candidate that is not frequent is left out.
  pub leave_out :
      (G H : List ℕ → Type 0) (candidate : List ℕ) (m : Mined)
      → length candidate ≡ suc j
      → (IsFrequent n f view db.count support (suc j) candidate → ⊥)
      → ((itemset : List ℕ) → G itemset → (candidate ≡ itemset) ⊎ H itemset)
      → IsMining n f view db.count support (suc j) out G m
      → IsMining n f view db.count support
          (suc j)
          out
          H
          (record m { candidate_itemset = candidate })
  leave_out G H candidate m size rare split i = record {
    new = i.new;
    put_out = i.put_out;
    patterns = i.patterns;
    level = i.level;
    distinct = i.distinct;
    finds = i.finds;
    buffer = size;
    no_dead_ends = i.no_dead_ends;
    reaches = λ itemset h. elim (i.reaches itemset h) [
      | inl there ↦ inl there
      | inr ahead ↦ elim (split itemset ahead) [
        | inl same ↦ absurd (rare (rw (sym same) at h))
        | inr more ↦ inr more
      ]
    ];
  }

  -- A frequent one is put out with the number of its transactions.
  pub put_in :
      (G H : List ℕ → Type 0) (candidate : List ℕ) (frequency : ℕ) (m : Mined)
      → IsFrequent n f view db.count support (suc j) candidate
      → frequency ≡ count_below n (has_all view candidate)
      → ((itemset : List ℕ) → G itemset → (candidate ≡ itemset) ⊎ H itemset)
      → IsMining n f view db.count support (suc j) out G m
      → IsMining n f view db.count support (suc j) out H (record {
        freq_next = insert candidate m.freq_next;
        candidate_itemset = candidate;
        out = m.out ++ record { itemset = candidate; count = frequency } ∷ [];
      })
  put_in G H candidate frequency m h counted split i =
      let p : Pattern = record { itemset = candidate; count = frequency } in
      record {
        new = i.new ++ p ∷ [];
        put_out = ap (◌++ (p ∷ [])) i.put_out ∙ append_assoc out i.new (p ∷ []);
        patterns =
            All-append _ i.new (p ∷ []) i.patterns (record { frequent = h; counted = counted }, tt);
        level = insert-IsLevel f (suc j) candidate m.freq_next h.of_size h.known i.level;
        distinct = insert-HasDistinctArcs candidate m.freq_next i.distinct;
        finds = λ itemset.
            query-insert candidate itemset m.freq_next
            ∙ ground (arith, i.finds itemset, listed-append i.new (p ∷ []) itemset);
        buffer = h.of_size;
        no_dead_ends = inr (
          candidate,
          ground (arith, list_eq_refl candidate, listed-append i.new (p ∷ []) candidate),
        );
        reaches = λ itemset frequent. elim (i.reaches itemset frequent) [
          | inl there ↦ inl (ground (arith, there, listed-append i.new (p ∷ []) itemset))
          | inr ahead ↦ elim (split itemset ahead) [
            | inl same ↦ inl (
                rw (sym same)
                  (ground (arith, list_eq_refl candidate, listed-append i.new (p ∷ []) candidate)))
            | inr more ↦ inr more
          ]
        ];
      }
