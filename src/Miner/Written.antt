-- ===== src/Miner/Written.antt =====
-- `discover ()` of src/bitdrill/Miner.cxx writes to its file what `discover (vertical_db, ...)` puts
-- out: the two searches are the same but for that.
use bitdrill.Base.{ℕ, zero, suc, ◌+◌, ◌≡◌, refl, inl, inr}
use bitdrill.Base.{
  Bool, true, false, not, ◌&&◌, Option, some, none, List, [], ◌∷◌, replicate, if◌then◌else◌, ltb,
  leb, ◌==◌, ◌>>=◌, Bool-cases,
}
use bitdrill.Trie.{Trie, Subtries, nil, arc, def_node, empty, check_supports}
use bitdrill.TidList
use bitdrill.TidList.{TidList}
use bitdrill.VerticalDb.{VerticalDb, greater_freq, item}
use bitdrill.Walk.{Frame, ref, new_candidate_walk, for_candidates}
use bitdrill.TidlistWalk.{TidlistWalk, new_tidlist_walk, tidlist_next, tidlist_of, for_walk}
use bitdrill.PatternSet.{Pattern}
use bitdrill.Miner.{Mined, merge_into, walk_rounds}
use bitdrill.Miner.Levels.{count_candidate, consider, extend_itemset, mine_level, mine_levels}
use bitdrill.Miner.Whole.{
  Buffers, write_pattern, consider_and_write, extend_and_write, write_level, write_levels,
}

-- What a level has put out, as lines of a file.
abbrev pub written : Mined → Buffers
written m = record {
  freq_next = m.freq_next;
  candidate_itemset = m.candidate_itemset;
  pattern_out = some m.out;
}

-- The result of one computation is that of the other, seen through a function.
abbrev pub Through : {S T : Type 0} → (S → T) → Option T → Option S → Type 0
Through φ r s = r ≡ (s >>= λ x. some (φ x))

bind-Through :
    {A S T : Type 0} (φ : S → T) (o : Option A) (r : A → Option T) (s : A → Option S)
    → ((a : A) → Through φ (r a) (s a))
    → Through φ (o >>= r) (o >>= s)
bind-Through φ none r s h = refl
bind-Through φ (some a) r s h = h a

-- One computation after another.
then-Through :
    {S T U V : Type 0} (φ : S → T) (ψ : U → V) (r : Option T) (s : Option S) (r' : T → Option V)
    (s' : S → Option U)
    → Through φ r s
    → ((x : S) → Through ψ (r' (φ x)) (s' x))
    → Through ψ (r >>= r') (s >>= s')
then-Through φ ψ r none r' s' e h = rw e refl
then-Through φ ψ r (some x) r' s' e h = rw e (h x)

if-Through :
    {S T : Type 0} (φ : S → T) (b : Bool) (r r' : Option T) (s s' : Option S)
    → Through φ r s
    → Through φ r' s'
    → Through φ (if b then r else r') (if b then s else s')
if-Through φ true r r' s s' e e' = e
if-Through φ false r r' s s' e e' = e'

for_candidates-Through :
    {S T : Type 0} (φ : S → T) (body' : ℕ → T → Option T) (body : ℕ → S → Option S) (it : Subtries)
    (s : S)
    → ((y : ℕ) (x : S) → Through φ (body' y (φ x)) (body y x))
    → Through φ (for_candidates body' it (φ s)) (for_candidates body it s)
unfolding for_candidates
for_candidates-Through φ body' body nil s h = refl
for_candidates-Through φ body' body (arc x t nil) s h = refl
for_candidates-Through φ body' body (arc x t (arc y u rest)) s h =
    then-Through φ φ (body' y (φ s)) (body y s) (for_candidates body' (arc y u rest))
      (for_candidates body (arc y u rest)) (h y s)
      (λ z. for_candidates-Through φ body' body (arc y u rest) z h)

for_walk-Through :
    {S T : Type 0} (φ : S → T) (rounds : ℕ) (db : VerticalDb) (body' : TidlistWalk → T → Option T)
    (body : TidlistWalk → S → Option S)
    → ((w : TidlistWalk) (x : S) → Through φ (body' w (φ x)) (body w x))
    → (fuel : ℕ) (w : TidlistWalk) (s : S)
    → Through φ (for_walk rounds db body' fuel w (φ s)) (for_walk rounds db body fuel w s)
unfolding for_walk
for_walk-Through φ rounds db body' body h zero w s = refl
for_walk-Through {S} φ rounds db body' body h (suc fuel) w s =
    at_frames w.walk.frames w (for_walk-Through φ rounds db body' body h fuel)
  where
    at_frames :
        (frames : List Frame) (w : TidlistWalk)
        → ((w : TidlistWalk) (x : S)
            → Through φ (for_walk rounds db body' fuel w (φ x)) (for_walk rounds db body fuel w x))
        → Through φ
            (elim frames [
              | [] ↦ some (φ s)
              | top ∷ below ↦ tidlist_next rounds db w >>= λ step.
                  (if step.0 then body' step.1 (φ s) else some (φ s)) >>= λ s'.
                  for_walk rounds db body' fuel step.1 s'
            ])
            (elim frames [
              | [] ↦ some s
              | top ∷ below ↦ tidlist_next rounds db w >>= λ step.
                  (if step.0 then body step.1 s else some s) >>= λ s'.
                  for_walk rounds db body fuel step.1 s'
            ])
    at_frames [] w go = refl
    at_frames (top ∷ below) w go = bind-Through φ (tidlist_next rounds db w) _ _ λ step.
        then-Through φ φ _ _ (for_walk rounds db body' fuel step.1)
          (for_walk rounds db body fuel step.1) (if-Through φ step.0 _ _ _ _ (h step.1 s) refl)
          (go step.1)

some_if-Through :
    {S T : Type 0} (φ : S → T) (b : Bool) (x y : S)
    → Through φ (some (if b then φ x else φ y)) (some (if b then x else y))
some_if-Through φ true x y = refl
some_if-Through φ false x y = refl

consider-Through :
    (db : VerticalDb) (support : ℕ) (freq : Trie) (intersection : TidList) (itemset : List ℕ)
    (diff : ℕ) (m : Mined)
    → Through written
        (consider_and_write db support freq intersection itemset diff (written m))
        (consider db support freq intersection itemset diff m)
unfolding consider_and_write consider count_candidate write_pattern
consider-Through db support freq intersection itemset diff m =
    bind-Through written (merge_into (greater_freq db.count) itemset diff m.candidate_itemset) _ _
      λ candidate. bind-Through written (check_supports candidate freq) _ _ λ supported.
        if-Through written supported _ _ _ _
          (bind-Through written (item db diff) _ _ λ tl.
            bind-Through written (TidList.count_intersection intersection tl support) _ _
              λ frequency. some_if-Through written (leb support frequency) _ _)
          refl

extend-Through :
    (db : VerticalDb) (support : ℕ) (freq : Trie) (w : TidlistWalk) (m : Mined)
    → Through written
        (extend_and_write db support freq w (written m))
        (extend_itemset db support freq w m)
unfolding extend_and_write extend_itemset
extend-Through db support freq w m = bind-Through written (tidlist_of w) _ _ λ intersection.
    bind-Through written (new_candidate_walk w.walk) _ _ λ it.
      for_candidates-Through written _ _ it m
        (consider-Through db support freq intersection (ref w.walk))

level-Through :
    (db : VerticalDb) (support k : ℕ) (freq : Trie) (out : List Pattern)
    → Through written (write_level db support k freq (some out)) (mine_level db support k freq out)
unfolding write_level mine_level
level-Through db support k freq out = bind-Through written (new_tidlist_walk freq db k) _ _ λ w.
    for_walk-Through written (walk_rounds freq) db _ _ (extend-Through db support freq)
      (walk_rounds freq) w
      (record { freq_next = def_node; candidate_itemset = replicate k 0; out = out })

-- With any fuel, the levels of `discover ()`, started with a file that holds the lines `out`,
-- come back exactly when those of `discover (vertical_db, ...)` do, started with the patterns
-- `out`, and the file then holds what these put out.
pub write_levels-mine_levels :
    (fuel : ℕ) (db : VerticalDb) (support max_level k : ℕ) (freq : Trie) (out : List Pattern)
    → write_levels fuel db support max_level k freq (some out)
      ≡ (mine_levels fuel db support max_level k freq out >>= λ lines. some (some lines))
unfolding write_levels mine_levels
write_levels-mine_levels zero db support max_level k freq out = refl
write_levels-mine_levels (suc fuel) db support max_level k freq out =
    elim (Bool-cases (empty freq)) [
      | inl none_there ↦ rw (none_there, write_levels, mine_levels) refl
      | inr more ↦ elim (Bool-cases (not (max_level == 0) && ltb max_level k)) [
        | inl over ↦ rw (more, over, write_levels, mine_levels) refl
        | inr within ↦
            let later = λ (m : Mined).
              write_levels-mine_levels fuel db support max_level (k + 1) m.freq_next m.out in
            rw (more, within, write_levels, mine_levels)
              (then-Through written some _ _
                (λ s. write_levels fuel db support max_level (k + 1) s.freq_next s.pattern_out)
                (λ m. mine_levels fuel db support max_level (k + 1) m.freq_next m.out)
                (level-Through db support k freq out) later)
      ]
    ]
