-- ===== src/Index/Order.antt =====
-- Entries in strict order: an insertion, and a cut in two.
use zippy_fs.Common.{
  ℕ, ◌≡◌, refl, ap, subst, true, false, none, some, List, [], ◌∷◌, ◌++◌, Str, str_lt, if◌then◌else◌,
  inl, inr, str_beq_iff, arith, Bool-cases,
}
use zippy_fs.Common.Texts.{str_lt_trans, str_lt_asymm, str_lt_connected}
use zippy_fs.Index.Entries.{AllBelow, AllFrom, lookup, insert_sorted}

-- Every key is above a bound.
unfoldable pub AllAbove : Str → List (Str × ℕ) → Type 0
AllAbove k [] = Unit
AllAbove k ((q, v) ∷ es) = (str_lt k q ≡ true) × AllAbove k es

unfoldable pub Increasing : List (Str × ℕ) → Type 0
unfolding AllAbove
Increasing [] = Unit
Increasing ((q, v) ∷ es) = AllAbove q es × Increasing es

pub AllAbove-trans :
    (k q : Str) (es : List (Str × ℕ)) → str_lt k q ≡ true → AllAbove q es → AllAbove k es
unfolding AllAbove
AllAbove-trans k q [] h a = tt
AllAbove-trans k q ((r, v) ∷ es) h a = (str_lt_trans k q r h a.0, AllAbove-trans k q es h a.1)

AllAbove-insert_sorted :
    (k p : Str) (v : ℕ) (es : List (Str × ℕ))
    → str_lt k p ≡ true
    → AllAbove k es
    → AllAbove k (insert_sorted p v es)
unfolding AllAbove insert_sorted
AllAbove-insert_sorted k p v [] h a = (h, tt)
AllAbove-insert_sorted k p v ((q, w) ∷ es) h a = elim (Bool-cases (str_lt p q)) [
  | inl e ↦ rw e (h, (a.0, a.1))
  | inr e ↦ rw e (a.0, AllAbove-insert_sorted k p v es h a.1)
]

-- A key that is not in the entries, and not below the first, is above it.
first-below :
    (p q : Str) (w : ℕ) (es : List (Str × ℕ))
    → lookup p ((q, w) ∷ es) ≡ none
    → str_lt p q ≡ false
    → str_lt q p ≡ true
unfolding lookup
first-below p q w es n h = elim (Bool-cases (str_lt q p)) [
  | inl e ↦ e
  | inr e ↦ absurd (
      cc (
        subst (λ b. (if b then some w else lookup p es) ≡ none)
          ((str_beq_iff q p).1 (str_lt_connected q p e h)) n))
]

lookup-rest :
    (p q : Str) (w : ℕ) (es : List (Str × ℕ)) → lookup p ((q, w) ∷ es) ≡ none → lookup p es ≡ none
unfolding lookup
lookup-rest p q w es n = ground arith

pub Increasing-insert_sorted :
    (p : Str) (v : ℕ) (es : List (Str × ℕ))
    → Increasing es
    → lookup p es ≡ none
    → Increasing (insert_sorted p v es)
unfolding Increasing insert_sorted AllAbove
Increasing-insert_sorted p v [] i n = (tt, tt)
Increasing-insert_sorted p v ((q, w) ∷ es) i n = elim (Bool-cases (str_lt p q)) [
  | inl e ↦ rw e ((e, AllAbove-trans p q es e i.0), (i.0, i.1))
  | inr e ↦ rw e (
    AllAbove-insert_sorted q p v es (first-below p q w es n e) i.0,
    Increasing-insert_sorted p v es i.1 (lookup-rest p q w es n),
  )
]

AllAbove-last :
    (q k : Str) (w : ℕ) (es fs : List (Str × ℕ))
    → AllAbove q (es ++ ((k, w) ∷ fs))
    → str_lt q k ≡ true
unfolding AllAbove
AllAbove-last q k w [] fs a = a.0
AllAbove-last q k w ((r, u) ∷ es) fs a = AllAbove-last q k w es fs a.1

pub AllBelow-cut :
    (k : Str) (w : ℕ) (es fs : List (Str × ℕ)) → Increasing (es ++ ((k, w) ∷ fs)) → AllBelow k es
unfolding Increasing AllBelow
AllBelow-cut k w [] fs i = tt
AllBelow-cut k w ((q, u) ∷ es) fs i = (AllAbove-last q k w es fs i.0, AllBelow-cut k w es fs i.1)

AllFrom-AllAbove : (k : Str) (es : List (Str × ℕ)) → AllAbove k es → AllFrom k es
unfolding AllAbove AllFrom
AllFrom-AllAbove k [] a = tt
AllFrom-AllAbove k ((q, v) ∷ es) a = (str_lt_asymm k q a.0, AllFrom-AllAbove k es a.1)

str_lt_irrefl : (k : Str) → str_lt k k ≡ false
str_lt_irrefl k = elim (Bool-cases (str_lt k k)) [ inl h ↦ str_lt_asymm k k h | inr h ↦ h ]

pub AllFrom-cut :
    (k : Str) (w : ℕ) (es fs : List (Str × ℕ))
    → Increasing (es ++ ((k, w) ∷ fs))
    → AllFrom k ((k, w) ∷ fs)
unfolding Increasing AllFrom
AllFrom-cut k w [] fs i = (str_lt_irrefl k, AllFrom-AllAbove k fs i.0)
AllFrom-cut k w ((q, u) ∷ es) fs i = AllFrom-cut k w es fs i.1

-- An insertion before the second part, or behind the first.
pub insert_sorted-left :
    (p k : Str) (v w : ℕ) (es fs : List (Str × ℕ))
    → str_lt p k ≡ true
    → insert_sorted p v (es ++ ((k, w) ∷ fs)) ≡ insert_sorted p v es ++ ((k, w) ∷ fs)
unfolding insert_sorted
insert_sorted-left p k v w [] fs h = rw h refl
insert_sorted-left p k v w ((q, u) ∷ es) fs h = elim (Bool-cases (str_lt p q)) [
  | inl e ↦ rw e refl
  | inr e ↦ rw e (ap (λ r. (q, u) ∷ r) (insert_sorted-left p k v w es fs h))
]

not-below : (p k q : Str) → str_lt p k ≡ false → str_lt q k ≡ true → str_lt p q ≡ false
not-below p k q h h' = elim (Bool-cases (str_lt p q)) [
  | inl e ↦ absurd (cc (str_lt_trans p q k e h', h))
  | inr e ↦ e
]

pub insert_sorted-right :
    (p k : Str) (v : ℕ) (es fs : List (Str × ℕ))
    → str_lt p k ≡ false
    → AllBelow k es
    → insert_sorted p v (es ++ fs) ≡ es ++ insert_sorted p v fs
unfolding insert_sorted AllBelow
insert_sorted-right p k v [] fs h b = refl
insert_sorted-right p k v ((q, u) ∷ es) fs h b =
    rw (not-below p k q h b.0) (ap (λ r. (q, u) ∷ r) (insert_sorted-right p k v es fs h b.1))
