-- ===== src/TreeLoader/Pick.antt =====
-- The child that the search goes on to in an inner node, against a plain walk along its keys.
use zippy_fs.Common.{
  ℕ, ◌+◌, ◌-◌, ◌≤◌, ◌<◌, ◌≡◌, refl, ap, true, false, Option, none, some, List, [], ◌∷◌, ◌++◌, Str,
  str_beq, str_lt, drop, length, get_elem?, if◌then◌else◌, ok, subst, str_beq_iff, out_of_bounds,
  not, ◌∙◌, sym, ◌%◌, ◌^◌, uncaught, or_fault, inr, inl, Bool-cases, arith,
}
use zippy_fs.Common.Texts.{str_lt_trans}
use zippy_fs.Index.Memory.{Mem, Node, text_at, live_keys, max_keys, at_index}
use zippy_fs.Index.Rank.{rank}
use zippy_fs.Index.Keys.{last_key, last_key-above, live_keys-ends}
use zippy_fs.Index.Entries.{Ascending, Kids, last_kid, more_kids, AllBelow, AllFrom, lookup}
use zippy_fs.TreeLoader.Search.{middle, next_child}

-- The child before the first key that is larger, or behind all keys.
unfoldable pub pick : Mem → Str → List ℕ → List ℕ → Option ℕ
pick m p ks [] = none
pick m p [] (c ∷ cs) = some c
pick m p (k ∷ ks) (c ∷ cs) = if str_lt p (text_at k m) then some c else pick m p ks cs

-- Below all the keys, nothing is found in the middle.
middle-below :
    (m : Mem) (p : Str) (k : ℕ) (ks cs : List ℕ) (found : Option ℕ)
    → Ascending m (k ∷ ks)
    → str_lt p (text_at k m) ≡ true
    → middle m p (k ∷ ks) cs found ≡ found
unfolding middle Ascending
middle-below m p k [] cs found a h = refl
middle-below m p k (k' ∷ ks) [] found a h = refl
middle-below m p k (k' ∷ ks) (c ∷ cs) found a h =
    let below = str_lt_trans p (text_at k m) (text_at k' m) h a.0 in
    rw h (middle-below m p k' ks cs found a.1 below)

middle-pick :
    (m : Mem) (p : Str) (k : ℕ) (ks cs : List ℕ) (found : Option ℕ)
    → Ascending m (k ∷ ks)
    → length ks < length cs
    → str_lt p (text_at k m) ≡ false
    → str_lt p (text_at (last_key k ks) m) ≡ true
    → middle m p (k ∷ ks) cs found ≡ pick m p ks cs
unfolding middle Ascending pick last_key
middle-pick m p k [] cs found a l h h' = absurd (cc)
middle-pick m p k (k' ∷ ks) [] found a l h h' = absurd (omega arith)
middle-pick m p k (k' ∷ ks) (c ∷ cs) found a l h h' = elim (Bool-cases (str_lt p (text_at k' m))) [
  | inl below ↦ rw (h, below) (middle-below m p k' ks cs (some c) a.1 below)
  | inr above ↦ rw (h, above) (middle-pick m p k' ks cs found a.1 (omega arith) above h')
]

-- From the last key on, the walk ends behind it.
pick-last :
    (m : Mem) (p : Str) (k : ℕ) (ks cs : List ℕ)
    → Ascending m (k ∷ ks)
    → length ks < length cs
    → str_lt p (text_at (last_key k ks) m) ≡ false
    → pick m p ks cs ≡ get_elem? cs (length ks)
unfolding Ascending pick last_key
pick-last m p k [] [] a l h = refl
pick-last m p k [] (c ∷ cs) a l h = refl
pick-last m p k (k' ∷ ks) [] a l h = refl
pick-last m p k (k' ∷ ks) (c ∷ cs) a l h = elim (Bool-cases (str_lt p (text_at k' m))) [
  | inl below ↦ absurd (cc (last_key-above m p k' ks a.1 below, h))
  | inr above ↦ rw above (pick-last m p k' ks cs a.1 (omega arith) h)
]

-- A round, where both keys that it reads are there.
next_child-tests :
    (m : Mem) (p : Str) (n : Node) (k l : ℕ)
    → get_elem? n.keys 0 ≡ some k
    → get_elem? n.keys ((n.num_keys + 2 ^ 64 - 1) % 2 ^ 64) ≡ some l
    → next_child m p n ≡ (
        if str_lt p (text_at k m)
        then at_index n.children 0
        else (if not (str_lt p (text_at l m))
            then at_index n.children n.num_keys
            else or_fault (middle m p (live_keys n) (drop 1 n.children) none) uncaught))
unfolding next_child
next_child-tests m p n k l first last = rw (first, last) refl

picked-first :
    (m : Mem) (p : Str) (k : ℕ) (ks : List ℕ) (c : ℕ) (cs : List ℕ) (d : ℕ)
    → str_lt p (text_at k m) ≡ true
    → pick m p (k ∷ ks) (c ∷ cs) ≡ some d
    → some c ≡ some d
unfolding pick
picked-first m p k ks c cs d h q = subst (λ b. (if b then some c else pick m p ks cs) ≡ some d) h q

picked-later :
    (m : Mem) (p : Str) (k : ℕ) (ks : List ℕ) (c : ℕ) (cs : List ℕ) (d : ℕ)
    → str_lt p (text_at k m) ≡ false
    → pick m p (k ∷ ks) (c ∷ cs) ≡ some d
    → pick m p ks cs ≡ some d
unfolding pick
picked-later m p k ks c cs d h q = subst (λ b. (if b then some c else pick m p ks cs) ≡ some d) h q

-- What a round of the search goes on to, for the keys in use and the children.
pub next_child-pick :
    (m : Mem) (p : Str) (n : Node) (k : ℕ) (ks : List ℕ) (c : ℕ) (cs : List ℕ) (d : ℕ)
    → n.num_keys ≤ length n.keys
    → length n.keys ≤ max_keys
    → live_keys n ≡ k ∷ ks
    → n.children ≡ c ∷ cs
    → Ascending m (k ∷ ks)
    → length ks < length cs
    → pick m p (k ∷ ks) (c ∷ cs) ≡ some d
    → next_child m p n ≡ ok d
unfolding pick
next_child-pick m p n k ks c cs d h h' e e' a l q =
    let (num, first, last) = live_keys-ends n k ks h h' e in
    let tests = next_child-tests m p n k (last_key k ks) first last in
    elim (Bool-cases (str_lt p (text_at k m))) [
      | inl below ↦
          tests
          ∙ rw (below, e')
              (ap (λ r. or_fault r out_of_bounds) (picked-first m p k ks c cs d below q))
      | inr above ↦
          let q' = picked-later m p k ks c cs d above q in
          elim (Bool-cases (str_lt p (text_at (last_key k ks) m))) [
            | inl below ↦
                tests
                ∙ rw (above, below, e, e')
                    (ap (λ r. or_fault r uncaught)
                      (middle-pick m p k ks cs none a l above below ∙ q'))
            | inr ends ↦
                tests
                ∙ rw (above, ends, num, e')
                    (ap (λ r. or_fault r out_of_bounds) (sym (pick-last m p k ks cs a l ends) ∙ q'))
          ]
    ]

lookup-none :
    (m : Mem) (p k : Str) (fs : List (Str × ℕ))
    → str_lt p k ≡ true
    → AllFrom k fs
    → lookup p fs ≡ none
unfolding lookup AllFrom
lookup-none m p k [] h a = refl
lookup-none m p k ((q, v) ∷ fs) h a = elim (Bool-cases (str_beq q p)) [
  | inl same ↦ absurd (cc (h, a.0, (str_beq_iff q p).0 same))
  | inr other ↦ rw other (lookup-none m p k fs h a.1)
]

lookup-left :
    (m : Mem) (p k : Str) (es fs : List (Str × ℕ))
    → str_lt p k ≡ true
    → AllFrom k fs
    → lookup p (es ++ fs) ≡ lookup p es
unfolding lookup
lookup-left m p k [] fs h a = lookup-none m p k fs h a
lookup-left m p k ((q, v) ∷ es) fs h a = rw (lookup-left m p k es fs h a) refl

lookup-right :
    (m : Mem) (p k : Str) (es fs : List (Str × ℕ))
    → str_lt p k ≡ false
    → AllBelow k es
    → lookup p (es ++ fs) ≡ lookup p fs
unfolding lookup AllBelow
lookup-right m p k [] fs h a = refl
lookup-right m p k ((q, v) ∷ es) fs h a = elim (Bool-cases (str_beq q p)) [
  | inl same ↦ absurd (cc (h, a.0, (str_beq_iff q p).0 same))
  | inr other ↦ rw other (lookup-right m p k es fs h a.1)
]

-- The walk reaches the subtree that holds the key, if any does.
pub pick-Kids :
    (m : Mem) (p : Str) {P : ℕ → List (Str × ℕ) → Type 0} {ks cs : List ℕ} {es : List (Str × ℕ)}
    → Kids m P ks cs es
    → (c : ℕ) × (fs : List (Str × ℕ)) × (pick m p ks cs ≡ some c)
      × P c fs
      × (lookup p fs ≡ lookup p es)
unfolding pick
pick-Kids m p (last_kid {c} {cs} {es} t) = (c, es, refl, t, refl)
pick-Kids m p (more_kids {k} {c} {ks} {cs} {es} {fs} t below from kids) =
    elim (Bool-cases (str_lt p (text_at k m))) [
      | inl h ↦ (c, es, rw h refl, t, sym (lookup-left m p (text_at k m) es fs h from))
      | inr h ↦
          let (d, gs, q, t', e) = pick-Kids m p kids in
          (d, gs, rw h q, t', e ∙ sym (lookup-right m p (text_at k m) es fs h below))
    ]

-- The walk as the number of keys that it passes.
pub pick-rank :
    (m : Mem) (p : Str) (ks cs : List ℕ)
    → length ks < length cs
    → pick m p ks cs ≡ get_elem? cs (rank m p ks)
unfolding pick rank
pick-rank m p [] [] h = refl
pick-rank m p [] (c ∷ cs) h = refl
pick-rank m p (k ∷ ks) [] h = refl
pick-rank m p (k ∷ ks) (c ∷ cs) h = elim (Bool-cases (str_lt p (text_at k m))) [
  | inl below ↦ rw below refl
  | inr other ↦ rw other (pick-rank m p ks cs (omega arith))
]
