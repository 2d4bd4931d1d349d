-- ===== src/TidList/Building.antt =====
-- How a list of src/bitdrill/Tid_List.hxx is set up and filled, one transaction after the other.
use mathlib.Core.Bool.{false≢true}
use native.Mathlib.Nat.{div-lt_iff_lt-mul}
use bitdrill.Base.{ℕ, zero, suc, ◌*◌, ◌/◌, ◌<◌, ◌≡◌, refl, ap, ◌∙◌, arith, ◌↔◌}
use bitdrill.Base.{
  Bool, true, false, ◌||◌, some, List, [], ◌∷◌, ◌++◌, ◌==◌, ltb, ltb→lt, lt→ltb, if◌then◌else◌,
  replicate, All,
}
use bitdrill.Base.Count.{bit_of}
use bitdrill.BitVector
use bitdrill.BitVector.Laws.{resize-IsValid, num_bits-resize, to_bits-resize}
use bitdrill.BitVector.Access.{get-bit_of, set_bit-IsUpdate}
use bitdrill.TidVector.Laws.{has, IsAscending}
use bitdrill.TidList.{
  Implementation, bitvector, tidvector, TidList, choose_implementation, reset_to, reset, add_to,
  add_transaction,
}
use bitdrill.TidList.Laws.{holds_by, holds, Content, IsTidList, Holds}

bit_of-zeros : (n t : ℕ) → bit_of (replicate n false) t ≡ false
bit_of-zeros zero t = refl
bit_of-zeros (suc n) zero = refl
bit_of-zeros (suc n) (suc t) = bit_of-zeros n t

reset_to-Holds :
    (i : Implementation) (n : ℕ) (tl : TidList) → Holds n (λ t. false) (some (reset_to i n tl))
unfolding reset_to
reset_to-Holds bitvector n tl = record {
  out = record { implementation = bitvector; bits = BitVector.resize n; tids = [] };
  returns = refl;
  valid = (resize-IsValid n, num_bits-resize n, refl);
  tells = λ t _. ap (λ bits. bit_of bits t) (to_bits-resize n) ∙ bit_of-zeros n t;
}
reset_to-Holds tidvector n tl = record {
  out = record { implementation = tidvector; bits = BitVector.resize 0; tids = [] };
  returns = refl;
  valid = (tt, tt, num_bits-resize 0);
  tells = λ t _. refl;
}

-- With a positive expected count `reset` comes back with a valid list that holds no transaction,
-- whatever it held before, and the list is a bit vector exactly when the transactions are fewer
-- than 32 times the expected count.
pub reset-Holds :
    (n expected_count : ℕ) (tl : TidList)
    → 0 < expected_count
    → Holds n (λ t. false) (reset n expected_count tl)
      × ((choose_implementation n expected_count ≡ bitvector) ↔ (n < 32 * expected_count))
unfolding reset choose_implementation
reset-Holds n expected_count tl h =
    let positive = lt→ltb 0 expected_count h in
    (
      rw positive (reset_to-Holds (choose_implementation n expected_count) n tl),
      chosen (ltb (n / expected_count) 32) (λ e. ltb→lt _ _ e) (λ e. lt→ltb _ _ e),
    )
  where
    below : (n / expected_count < 32) ↔ (n < 32 * expected_count)
    below = (
      λ lt. omega (arith, (div-lt_iff_lt-mul h).0 lt),
      λ lt. (div-lt_iff_lt-mul h).1 (omega arith),
    )

    chosen :
        (b : Bool)
        → (b ≡ true → n / expected_count < 32)
        → (n / expected_count < 32 → b ≡ true)
        → ((if b then bitvector else tidvector) ≡ bitvector) ↔ (n < 32 * expected_count)
    chosen true f g = (λ _. below.0 (f refl), λ _. refl)
    chosen false f g = (λ e. cc e, λ lt. absurd (false≢true (g (below.1 lt))))

has-append : (xs : List ℕ) (x t : ℕ) → has (xs ++ x ∷ []) t ≡ (x == t || has xs t)
has-append [] x t = ground arith
has-append (y ∷ ys) x t = ground (arith, has-append ys x t)

All-append : (P : ℕ → Type 0) (xs : List ℕ) (x : ℕ) → All P xs → P x → All P (xs ++ x ∷ [])
All-append P [] x h p = (p, tt)
All-append P (y ∷ ys) x h p = (h.0, All-append P ys x h.1 p)

All-of_has : (xs : List ℕ) (x : ℕ) → ((t : ℕ) → has xs t ≡ true → t < x) → All (λ y. y < x) xs
All-of_has [] x h = tt
All-of_has (y ∷ ys) x h = (h y (ground arith), All-of_has ys x (λ t e. h t (ground arith)))

IsAscending-append :
    (xs : List ℕ) (x : ℕ) → IsAscending xs → All (λ y. y < x) xs → IsAscending (xs ++ x ∷ [])
IsAscending-append [] x a h = (tt, tt)
IsAscending-append (y ∷ ys) x a h =
    (All-append (λ z. y < z) ys x a.0 h.0, IsAscending-append ys x a.1 h.1)

-- The transactions come in increasing order: all that the list holds are before `txn_id`.
abbrev pub Before : ℕ → TidList → Type 0
Before txn_id tl = (t : ℕ) → holds tl t ≡ true → t < txn_id

add_to-Holds :
    (i : Implementation) (n : ℕ) (tl : TidList) (txn_id : ℕ)
    → Content i n tl
    → txn_id < n
    → ((t : ℕ) → holds_by i tl t ≡ true → t < txn_id)
    → Holds n (λ t. txn_id == t || holds_by i tl t) (add_to i txn_id tl)
unfolding add_to
add_to-Holds bitvector n tl txn_id c lt before =
    let u = set_bit-IsUpdate tl.bits txn_id c.0 (omega arith) in
    record {
      out = record { implementation = bitvector; bits = u.out; tids = tl.tids };
      returns = rw u.returns;
      valid = (u.valid, u.same_size ∙ c.1, c.2);
      tells = λ t h. ground (
        arith,
        u.reads t (omega arith),
        get-bit_of u.out t u.valid (omega (arith, u.same_size)),
        get-bit_of tl.bits t c.0 (omega arith),
      );
    }
add_to-Holds tidvector n tl txn_id c lt before = record {
  out = record { implementation = tidvector; bits = tl.bits; tids = tl.tids ++ txn_id ∷ [] };
  returns = refl;
  valid = (
    IsAscending-append tl.tids txn_id c.0 (All-of_has tl.tids txn_id before),
    All-append (λ t. t < n) tl.tids txn_id c.1 lt,
    c.2,
  );
  tells = λ t _. has-append tl.tids txn_id t;
}

-- A transaction after all that a valid list holds is added to it: the list comes back valid and
-- holds that transaction and those from before.
pub add_transaction-Holds :
    (n : ℕ) (tl : TidList) (txn_id : ℕ)
    → IsTidList n tl
    → txn_id < n
    → Before txn_id tl
    → Holds n (λ t. txn_id == t || holds tl t) (add_transaction txn_id tl)
unfolding add_transaction
add_transaction-Holds n tl txn_id c lt before =
    add_to-Holds tl.implementation n tl txn_id c lt before
