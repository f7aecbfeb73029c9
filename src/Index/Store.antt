-- ===== src/Index/Store.antt =====
-- For an id that is no key yet, the search for the place to store goes the way that the search of
-- the loader goes.
use zippy_fs.Common.{
  ℕ, suc, ◌+◌, ◌-◌, ◌≤◌, ◌≡◌, ◌≢◌, refl, ap, sym, ◌∙◌, true, false, none, some, List, [], ◌∷◌, Str,
  str_lt, drop, length, get_elem?, if◌then◌else◌, inl, inr, ◌%◌, ◌^◌, nat_beq, arith, Bool-cases,
}
use zippy_fs.Common.Map.{find, nat_key}
use zippy_fs.Common.Texts.{str_lt_asymm, str_lt_trans, str_lt_connected}
use zippy_fs.Index.Memory.{Mem, Node, node_at, text_at, live_keys, at_index, max_keys, zero_node}
use zippy_fs.Index.Entries.{Ascending}
use zippy_fs.Index.Keys.{last_key, last_key-above, live_keys-ends}
use zippy_fs.Index.Nodes.{between, child_to_store}
use zippy_fs.Index.Rank.{rank}

-- A text that none of the keys has.
unfoldable pub IsNew : Mem → Str → List ℕ → Type 0
IsNew m p [] = Unit
IsNew m p (k ∷ ks) = (text_at k m ≢ p) × IsNew m p ks

-- A text that no key of a node of the table has.
unfoldable pub IsUnused : Mem → Str → List (ℕ × Node) → Type 0
unfolding IsNew
IsUnused m p [] = Unit
IsUnused m p ((offset, n) ∷ rest) = IsNew m p (live_keys n) × IsUnused m p rest

IsNew-find_node :
    (m : Mem) (p : Str) (offset : ℕ) (ns : List (ℕ × Node))
    → IsUnused m p ns
    → IsNew m p (live_keys (elim (find offset ns) [ none ↦ zero_node | some n ↦ n ]))
unfolding find IsUnused IsNew zero_node
IsNew-find_node m p offset [] u = tt
IsNew-find_node m p offset ((o, n) ∷ ns) u = elim (Bool-cases (nat_beq offset o)) [
  | inl here ↦ rw here u.0
  | inr there ↦ rw there (IsNew-find_node m p offset ns u.1)
]

pub IsNew-node_at :
    (m : Mem) (p : Str) (offset : ℕ)
    → IsUnused m p m.nodes
    → IsNew m p (live_keys (node_at offset m))
unfolding node_at
IsNew-node_at m p offset u = IsNew-find_node m p offset m.nodes u

-- A new key that is not below another is above it.
above :
    (m : Mem) (p : Str) (k : ℕ)
    → text_at k m ≢ p
    → str_lt p (text_at k m) ≡ false
    → str_lt (text_at k m) p ≡ true
above m p k h h' = elim (Bool-cases (str_lt (text_at k m) p)) [
  | inl e ↦ e
  | inr e ↦ absurd (h (str_lt_connected (text_at k m) p e h'))
]

between-below :
    (m : Mem) (p : Str) (k : ℕ) (ks : List ℕ) (ii inner : ℕ)
    → Ascending m (k ∷ ks)
    → str_lt p (text_at k m) ≡ true
    → between m p (k ∷ ks) ii inner ≡ inner
unfolding between Ascending
between-below m p k [] ii inner a h = refl
between-below m p k (k' ∷ ks) ii inner a h =
    rw (str_lt_asymm p (text_at k m) h) (
      between-below m p k' ks (ii + 1) inner a.1
        (str_lt_trans p (text_at k m) (text_at k' m) h a.0))

between-rank :
    (m : Mem) (p : Str) (k : ℕ) (ks : List ℕ) (ii inner : ℕ)
    → Ascending m (k ∷ ks)
    → IsNew m p (k ∷ ks)
    → str_lt p (text_at k m) ≡ false
    → str_lt p (text_at (last_key k ks) m) ≡ true
    → between m p (k ∷ ks) ii inner ≡ ii + rank m p ks
unfolding between Ascending rank last_key IsNew
between-rank m p k [] ii inner a f h h' = absurd (cc)
between-rank m p k (k' ∷ ks) ii inner a f h h' = elim (Bool-cases (str_lt p (text_at k' m))) [
  | inl below ↦
      rw (above m p k f.0 h, below) (between-below m p k' ks (ii + 1) ii a.1 below ∙ omega arith)
  | inr other ↦
      rw (above m p k f.0 h, other)
        (between-rank m p k' ks (ii + 1) inner a.1 f.1 other h' ∙ omega arith)
]

between-rank_all :
    (m : Mem) (p : Str) (k : ℕ) (ks : List ℕ)
    → Ascending m (k ∷ ks)
    → IsNew m p (k ∷ ks)
    → str_lt p (text_at k m) ≡ false
    → str_lt p (text_at (last_key k ks) m) ≡ true
    → between m p ks 1 0 ≡ rank m p ks
unfolding between Ascending rank last_key IsNew
between-rank_all m p k [] a f h h' = refl
between-rank_all m p k (k' ∷ ks) a f h h' = elim (Bool-cases (str_lt p (text_at k' m))) [
  | inl below ↦ rw below (between-below m p k' ks 1 0 a.1 below)
  | inr other ↦ rw other (between-rank m p k' ks 1 0 a.1 f.1 other h' ∙ omega arith)
]

-- A round of the search for the place.
child_to_store-tests :
    (m : Mem) (p : Str) (n : Node) (k l : ℕ)
    → get_elem? n.keys 0 ≡ some k
    → get_elem? n.keys ((n.num_keys + 2 ^ 64 - 1) % 2 ^ 64) ≡ some l
    → child_to_store m p n ≡ (
        if str_lt p (text_at k m)
        then at_index n.children 0
        else (if str_lt (text_at l m) p
            then at_index n.children n.num_keys
            else at_index n.children (between m p (drop 1 (live_keys n)) 1 0 + 1)))
unfolding child_to_store
child_to_store-tests m p n k l first last = rw (first, last) refl

rank-last :
    (m : Mem) (p : Str) (k : ℕ) (ks : List ℕ)
    → Ascending m (k ∷ ks)
    → str_lt p (text_at (last_key k ks) m) ≡ false
    → rank m p ks ≡ length ks
unfolding Ascending rank last_key
rank-last m p k [] a h = refl
rank-last m p k (k' ∷ ks) a h = elim (Bool-cases (str_lt p (text_at k' m))) [
  | inl below ↦ absurd (cc (last_key-above m p k' ks a.1 below, h))
  | inr other ↦ rw other (ap suc (rank-last m p k' ks a.1 h))
]

IsNew-last_key :
    (m : Mem) (p : Str) (k : ℕ) (ks : List ℕ) → IsNew m p (k ∷ ks) → text_at (last_key k ks) m ≢ p
unfolding IsNew last_key
IsNew-last_key m p k [] f = f.0
IsNew-last_key m p k (k' ∷ ks) f = IsNew-last_key m p k' ks f.1

-- A new key goes to the child that as many keys stand before as are not above it.
pub child_to_store-rank :
    (m : Mem) (p : Str) (n : Node) (k : ℕ) (ks : List ℕ)
    → n.num_keys ≤ length n.keys
    → length n.keys ≤ max_keys
    → live_keys n ≡ k ∷ ks
    → Ascending m (k ∷ ks)
    → IsNew m p (k ∷ ks)
    → child_to_store m p n ≡ at_index n.children (rank m p (k ∷ ks))
unfolding rank
child_to_store-rank m p n k ks h h' e a f =
    let (num, first, last) = live_keys-ends n k ks h h' e in
    let tests = child_to_store-tests m p n k (last_key k ks) first last in
    elim (Bool-cases (str_lt p (text_at k m))) [
      | inl below ↦ tests ∙ rw below refl
      | inr other ↦ elim (Bool-cases (str_lt p (text_at (last_key k ks) m))) [
        | inl below ↦
            tests
            ∙ rw (other, str_lt_asymm p (text_at (last_key k ks) m) below, e)
                (ap (λ i. at_index n.children i)
                  (omega (arith, between-rank_all m p k ks a f other below)))
        | inr ends ↦
            tests
            ∙ rw (other, above m p (last_key k ks) (IsNew-last_key m p k ks f) ends, num)
                (ap (λ i. at_index n.children (suc i)) (sym (rank-last m p k ks a ends)))
      ]
    ]
