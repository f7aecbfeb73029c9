-- ===== src/Index/Rank.antt =====
-- Where a key belongs among the keys of a node, and what it makes of the entries there.
use zippy_fs.Common.{
  ℕ, zero, suc, ◌+◌, ◌≤◌, ◌<◌, ◌≡◌, refl, ap, none, some, List, [], ◌∷◌, Str, str_lt, take, length,
  if◌then◌else◌, ◌⊎◌, inl, inr, ◌∙◌, Bool-cases, take-all, arith,
}
use zippy_fs.Common.Splice.{insert_at}
use zippy_fs.Index.Memory.{Mem, text_at, hash_size}
use zippy_fs.Index.Entries.{entries_of, insert_sorted, AllShort}
use zippy_fs.Index.Nodes.{position}

-- How many keys stand before the first larger one.
unfoldable pub rank : Mem → Str → List ℕ → ℕ
rank m p [] = 0
rank m p (k ∷ ks) = if str_lt p (text_at k m) then 0 else suc (rank m p ks)

pub rank-le_length : (m : Mem) (p : Str) (ks : List ℕ) → rank m p ks ≤ length ks
unfolding rank
rank-le_length m p [] = omega arith
rank-le_length m p (k ∷ ks) = elim (Bool-cases (str_lt p (text_at k m))) [
  | inl h ↦ rw h (omega arith)
  | inr h ↦ rw h (omega (arith, rank-le_length m p ks))
]

-- The loop finds the rank, unless every key stands before.
pub position-rank :
    (m : Mem) (p : Str) (ks : List ℕ) (ii : ℕ)
    → length p ≤ hash_size
    → AllShort m ks
    → ((position m p ks ii ≡ none) × (rank m p ks ≡ length ks))
      ⊎ ((position m p ks ii ≡ some (ii + rank m p ks)) × (rank m p ks < length ks))
unfolding position rank AllShort
position-rank m p [] ii h a = inl (refl, refl)
position-rank m p (k ∷ ks) ii h a =
    let cut : take hash_size p ≡ p = take-all hash_size p h in
    let cut' : take hash_size (text_at k m) ≡ text_at k m = take-all hash_size (text_at k m) a.0 in
    elim (Bool-cases (str_lt p (text_at k m))) [
      | inl less ↦ inr (rw (cut, cut', less) (ap some (omega arith)), rw less (omega arith))
      | inr other ↦ elim (position-rank m p ks (suc ii) h a.1) [
        | inl (q, e) ↦ inl (rw (cut, cut', other) q, rw other (ap suc e))
        | inr (q, l) ↦
            inr (rw (cut, cut', other) (q ∙ ap some (omega arith)), rw other (omega arith))
      ]
    ]

pub insert_sorted-rank :
    (m : Mem) (p : Str) (v : ℕ) (ks vs : List ℕ)
    → length ks ≤ length vs
    → insert_sorted p v (entries_of m ks vs) ≡ insert_at (rank m p ks) (p, v) (entries_of m ks vs)
unfolding insert_sorted insert_at rank
insert_sorted-rank m p v [] vs h = refl
insert_sorted-rank m p v (k ∷ ks) [] h = absurd (omega arith)
insert_sorted-rank m p v (k ∷ ks) (w ∷ vs) h = elim (Bool-cases (str_lt p (text_at k m))) [
  | inl less ↦ rw less refl
  | inr other ↦
      rw other (ap (λ es. (text_at k m, w) ∷ es) (insert_sorted-rank m p v ks vs (omega arith)))
]

pub entries_of-insert_at :
    (m : Mem) (i k v : ℕ) (ks vs : List ℕ)
    → i ≤ length ks
    → length ks ≤ length vs
    → entries_of m (insert_at i k ks) (insert_at i v vs)
      ≡ insert_at i (text_at k m, v) (entries_of m ks vs)
unfolding insert_at
entries_of-insert_at m zero k v ks vs h h' = refl
entries_of-insert_at m (suc i) k v [] vs h h' = absurd (omega arith)
entries_of-insert_at m (suc i) k v (k' ∷ ks) [] h h' = absurd (omega arith)
entries_of-insert_at m (suc i) k v (k' ∷ ks) (v' ∷ vs) h h' =
    ap (λ es. (text_at k' m, v') ∷ es)
      (entries_of-insert_at m i k v ks vs (omega arith) (omega arith))
