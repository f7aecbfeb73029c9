-- ===== src/TreeLoader/Changed.antt =====
-- A file in which one leaf is another: its searches next to those of the file as it was.
use zippy_fs.Common.{
  ℕ, zero, suc, ◌+◌, ◌-◌, ◌<◌, ◌≡◌, refl, ap, ◌∙◌, true, false, Option, none, some, List, [], ◌∷◌,
  Str, str_beq, drop, get_elem?, if◌then◌else◌, ◌⊎◌, inl, inr, ok, nat_beq_iff, ◌%◌, ◌^◌,
  str_beq_iff, nat_beq, arith, Option-cases, Bool-cases,
}
use zippy_fs.Common.Map.{nat_key}
use zippy_fs.Index.Memory.{Mem, Node, node_at, put_node, text_at, live_keys}
use zippy_fs.Index.Entries.{IsTree, entries_of, leaf_entries, lookup, insert_sorted}
use zippy_fs.Index.Frame.{node_at-put_node, SameTexts, SameTexts-put_node}
use zippy_fs.Index.Store.{IsNew}
use zippy_fs.TreeLoader.Search.{middle, next_child, descend}
use zippy_fs.TreeLoader.Descent.{RoundEnds, next_child-Kids, descend-at_leaf, descend-at_inner}

middle-texts :
    (m m' : Mem) (p : Str) (ks cs : List ℕ) (found : Option ℕ)
    → SameTexts m m'
    → middle m' p ks cs found ≡ middle m p ks cs found
unfolding middle SameTexts
middle-texts m m' p [] cs found s = refl
middle-texts m m' p (k ∷ []) cs found s = refl
middle-texts m m' p (k ∷ k' ∷ ks) [] found s = refl
middle-texts m m' p (k ∷ k' ∷ ks) (c ∷ cs) found s =
    rw (s k, s k') (middle-texts m m' p (k' ∷ ks) cs _ s)

next_child-texts :
    (m m' : Mem) (p : Str) (n : Node) → SameTexts m m' → next_child m' p n ≡ next_child m p n
unfolding next_child SameTexts
next_child-texts m m' p n s = elim (Option-cases (get_elem? n.keys 0)) [
  | inl e ↦ rw e refl
  | inr (k, e) ↦ elim (Option-cases (get_elem? n.keys ((n.num_keys + 2 ^ 64 - 1) % 2 ^ 64))) [
    | inl e' ↦ rw (e, e', s k) refl
    | inr (l, e') ↦
        rw (e, e', s k, s l, middle-texts m m' p (live_keys n) (drop 1 n.children) none s) refl
  ]
]

pub lookup-IsNew :
    (m : Mem) (p : Str) (ks vs : List ℕ) → IsNew m p ks → lookup p (entries_of m ks vs) ≡ none
unfolding lookup IsNew
lookup-IsNew m p [] vs f = refl
lookup-IsNew m p (k ∷ ks) [] f = refl
lookup-IsNew m p (k ∷ ks) (v ∷ vs) f = elim (Bool-cases (str_beq (text_at k m) p)) [
  | inl same ↦ absurd (f.0 ((str_beq_iff (text_at k m) p).0 same))
  | inr other ↦ rw other (lookup-IsNew m p ks vs f.1)
]

pub lookup-insert_sorted :
    (q p : Str) (v : ℕ) (es : List (Str × ℕ))
    → lookup p es ≡ none
    → lookup q (insert_sorted p v es) ≡ (if str_beq q p then some v else lookup q es)
unfolding lookup insert_sorted
lookup-insert_sorted q p v [] h = ground (arith, str_beq_iff p q, str_beq_iff q p)
lookup-insert_sorted q p v ((r, w) ∷ es) h = ground (
  arith,
  str_beq_iff p q,
  str_beq_iff q p,
  str_beq_iff r p,
  str_beq_iff r q,
  lookup-insert_sorted q p v es,
)

module _ (m : Mem) (t : ℕ) (n' : Node) where
  -- The file with another node at `t`.
  abbrev changed : Mem
  changed = put_node t n' m

  pub node_at-changed_self : node_at t changed ≡ n'
  node_at-changed_self = ground (arith, node_at-put_node t t n' m)

  -- A leaf and an inner node do not stand at the same place.
  node_at-changed_inner :
      (o : ℕ)
      → (node_at t m).is_leaf ≡ true
      → (node_at o m).is_leaf ≡ false
      → node_at o changed ≡ node_at o m
  node_at-changed_inner o l h = elim (Bool-cases (nat_beq o t)) [
    | inl same ↦ absurd (cc (ap (λ i. (node_at i m).is_leaf) ((nat_beq_iff o t).0 same), l, h))
    | inr other ↦ node_at-put_node o t n' m ∙ rw other refl
  ]

  pub descend-changed_inner :
      (fuel o c : ℕ) (q : Str)
      → (node_at t m).is_leaf ≡ true
      → (node_at o m).is_leaf ≡ false
      → next_child m q (node_at o m) ≡ ok c
      → descend (suc fuel) changed q o ≡ descend fuel changed q c
  descend-changed_inner fuel o c q l h e =
      let same = node_at-changed_inner o l h in
      descend-at_inner fuel changed q o c (ap (λ n. n.is_leaf) same ∙ h) (
        ap (next_child changed q) same
        ∙ next_child-texts m changed q (node_at o m) (SameTexts-put_node t n' m)
        ∙ e)

  -- What a search of the changed file ends with, next to one of the file as it was.
  unfoldable pub Ends : ℕ → Str → ℕ → List (Str × ℕ) → Type 0
  Ends fuel q o es =
      (n : Node) × (lookup q (leaf_entries m n) ≡ lookup q es)
      × ((descend fuel changed q o ≡ ok n)
          ⊎ ((n ≡ node_at t m) × (descend fuel changed q o ≡ ok n')))

  descend-changed_leaf :
      (fuel o : ℕ) (q : Str) (es : List (Str × ℕ))
      → n'.is_leaf ≡ true
      → (node_at o m).is_leaf ≡ true
      → leaf_entries m (node_at o m) ≡ es
      → Ends (suc fuel) q o es
  unfolding Ends
  descend-changed_leaf fuel o q es l' h e = (
    node_at o m,
    ap (lookup q) e,
    elim (Bool-cases (nat_beq o t)) [
      | inl same ↦
          let i = (nat_beq_iff o t).0 same in
          let here : node_at o changed ≡ n' = node_at-put_node o t n' m ∙ rw same refl in
          inr (
            ap (λ i. node_at i m) i,
            descend-at_leaf fuel changed q o (ap (λ n. n.is_leaf) here ∙ l') ∙ ap ok here,
          )
      | inr other ↦
          let there : node_at o changed ≡ node_at o m = node_at-put_node o t n' m ∙ rw other refl in
          inl (descend-at_leaf fuel changed q o (ap (λ n. n.is_leaf) there ∙ h) ∙ ap ok there)
    ],
  )

  pub descend-changed :
      (fuel height o : ℕ) (q : Str) (es : List (Str × ℕ))
      → (node_at t m).is_leaf ≡ true
      → n'.is_leaf ≡ true
      → IsTree m height o es
      → height < fuel
      → Ends fuel q o es
  unfolding Ends IsTree RoundEnds
  descend-changed zero height o q es l l' tree h = absurd (omega arith)
  descend-changed (suc fuel) zero o q es l l' tree h =
      descend-changed_leaf fuel o q es l' tree.0 tree.1
  descend-changed (suc fuel) (suc height) o q es l l' tree h =
      let (c, fs, e, s, tree', r) =
        next_child-Kids m q (node_at o m) (IsTree m height) es tree.1 tree.2 tree.3 tree.4 tree.5 in
      let step = descend-changed_inner fuel o c q l tree.0 e in
      let (n, r', ends) = descend-changed fuel height c q fs l l' tree' (omega arith) in
      (n, r' ∙ r, elim ends [ inl d ↦ inl (step ∙ d) | inr (d, d') ↦ inr (d, step ∙ d') ])
