-- ===== src/TransactionSet/Codec.antt =====
-- `encode` and `decode` of src/transaction-db/Transaction_Set.cxx, and the scanner of a message.
use mathlib.Core.List.{append_assoc, append-nil}
use bitdrill.Base.{
  ℕ, zero, suc, ◌≤◌, ◌≡◌, refl, ap, ◌∙◌, sym, arith, true, some, List, [], ◌∷◌, ◌++◌, map,
}
use bitdrill.Base.{length, length-append, take, drop, leb}
use bitdrill.TransactionSet.{
  encode_step, decode_step, encode, decode_loop, decode, buffer_read, buffer_reads,
}

-- The message of a set.
abbrev message : List (List ℕ) → List ℕ
message [] = []
message (t ∷ ts) = length t ∷ t ++ message ts

encode-message : (ts : List (List ℕ)) (msg : List ℕ) → encode ts msg ≡ msg ++ message ts
unfolding encode
encode-message [] msg = sym (append-nil msg)
encode-message (t ∷ ts) msg =
    unfold encode_step in
    encode-message ts ((msg ++ length t ∷ []) ++ t)
    ∙ append_assoc (msg ++ length t ∷ []) t (message ts)
    ∙ append_assoc msg (length t ∷ []) (t ++ message ts)

take-append : (xs ys : List ℕ) → take (length xs) (xs ++ ys) ≡ xs
take-append [] ys = refl
take-append (x ∷ xs) ys = ap (x ∷◌) (take-append xs ys)

drop-append : (xs ys : List ℕ) → drop (length xs) (xs ++ ys) ≡ ys
drop-append [] ys = refl
drop-append (x ∷ xs) ys = drop-append xs ys

decode_step-message : (t rest : List ℕ) → decode_step (length t ∷ t ++ rest) ≡ some (t, rest)
unfolding decode_step
decode_step-message t rest =
    let enough : leb (length t) (length (t ++ rest)) ≡ true =
      ground (arith, length-append t rest) in
    rw (enough, take-append t rest, drop-append t rest) refl

decode_loop-message :
    (ts : List (List ℕ)) (fuel : ℕ) (old : List (List ℕ))
    → length (message ts) ≤ fuel
    → decode_loop fuel (message ts) old ≡ some (old ++ ts)
unfolding decode_loop
decode_loop-message [] fuel old h = ap some (sym (append-nil old))
decode_loop-message (t ∷ ts) zero old h = absurd (omega arith)
decode_loop-message (t ∷ ts) (suc fuel) old h = rw (decode_step-message t (message ts)) (
    decode_loop-message ts fuel (old ++ t ∷ []) (omega (arith, length-append t (message ts)))
    ∙ ap some (append_assoc old (t ∷ []) ts))

buffer_reads-message :
    (ts : List (List ℕ)) (fuel : ℕ)
    → length (message ts) ≤ fuel
    → buffer_reads fuel (message ts) ≡ some (map some ts)
unfolding buffer_reads buffer_read
buffer_reads-message [] fuel h = refl
buffer_reads-message (t ∷ ts) zero h = absurd (omega arith)
buffer_reads-message (t ∷ ts) (suc fuel) h =
    let rest = buffer_reads-message ts fuel (omega (arith, length-append t (message ts))) in
    rw (decode_step-message t (message ts), rest)

-- Decoding the message of a set adds exactly its transactions, in their order, to those that the
-- receiving set has; and a scanner of the message reads each of them and then is at the end.
pub decode-encode :
    (ts old : List (List ℕ))
    → (decode (encode ts []) old ≡ some (old ++ ts))
      × (buffer_reads (length (encode ts [])) (encode ts []) ≡ some (map some ts))
unfolding decode
decode-encode ts old = rw (encode-message ts []) (
  decode_loop-message ts (length (message ts)) old (omega arith),
  buffer_reads-message ts (length (message ts)) (omega arith),
)
