-- ===== src/TidlistWalk/Cache.antt =====
-- The cache with which a `Walk_Tidlist` of src/bitdrill/Trie.hxx starts.
use bitdrill.Base.{ℕ, zero, suc, ◌≡◌, refl, ap}
use bitdrill.Base.{Bool, true, some, List, [], ◌∷◌, length, get_elem?}
use bitdrill.TidVector.Laws.{has}
use bitdrill.TidList
use bitdrill.TidList.{TidList, bitvector}
use bitdrill.TidList.Building.{reset-Holds}
use bitdrill.VerticalDb.{VerticalDb}
use bitdrill.VerticalDb.Building.{IsVertical}
use bitdrill.TidlistWalk.{make_cache}
use bitdrill.TidlistWalk.Loop.{Ends}

-- The item of rank 0 is one of the items.
pub record HasFirst (f : List ℕ) (db : VerticalDb) : Type 0 where
  pub first : ℕ
  pub reads : get_elem? db.map_freq_item 0 ≡ some first
  pub known : has f first ≡ true

pub make_cache-length :
    (n : ℕ) (f : List ℕ) (view : ℕ → ℕ → Bool) (db : VerticalDb)
    → IsVertical n f view db
    → HasFirst f db
    → (k : ℕ) → Ends (λ cache. length cache ≡ k) (make_cache db k)
unfolding make_cache
make_cache-length n f view db v h zero = record { out = []; returns = refl; is_so = refl }
make_cache-length n f view db v h (suc k) =
    let c = v.counted h.first h.known in
    let list = (reset-Holds db.num_txn c.expected (TidList.new_tid_list bitvector) c.positive).0 in
    let rest = make_cache-length n f view db v h k in
    record {
      out = list.out ∷ rest.out;
      returns = rw (h.reads, c.reads, list.returns, rest.returns) refl;
      is_so = ap suc rest.is_so;
    }
