-- ===== src/Index/Frame.antt =====
-- What a write to one node leaves as it is.
use zippy_fs.Common.{
  ℕ, zero, suc, none, some, drop, ◌≡◌, refl, ap, arith, List, [], ◌∷◌, if◌then◌else◌, nat_beq, take,
}
use zippy_fs.Common.Map.{nat_key, find-insert, find}
use zippy_fs.Index.Memory.{Mem, Node, node_at, put_node, text_at, live_keys}
use zippy_fs.Index.Entries.{entries_of, leaf_entries, AllShort}

pub node_at-put_node :
    (o t : ℕ) (n : Node) (m : Mem)
    → node_at o (put_node t n m) ≡ (if nat_beq o t then n else node_at o m)
unfolding node_at
node_at-put_node o t n m = ground (arith, find-insert t o n m.nodes)

-- A file whose texts are the same.
unfoldable pub SameTexts : Mem → Mem → Type 0
SameTexts m m' = (k : ℕ) → text_at k m' ≡ text_at k m

pub SameTexts-put_node : (t : ℕ) (n : Node) (m : Mem) → SameTexts m (put_node t n m)
unfolding SameTexts text_at
SameTexts-put_node t n m k = refl

pub entries_of-texts :
    (m m' : Mem) (ks vs : List ℕ) → SameTexts m m' → entries_of m' ks vs ≡ entries_of m ks vs
unfolding SameTexts
entries_of-texts m m' [] vs s = refl
entries_of-texts m m' (k ∷ ks) [] s = refl
entries_of-texts m m' (k ∷ ks) (v ∷ vs) s =
    rw (s k) (ap (λ es. (text_at k m, v) ∷ es) (entries_of-texts m m' ks vs s))

-- The table of the texts decides.
pub SameTexts-texts : (m m' : Mem) → m'.texts ≡ m.texts → SameTexts m m'
unfolding SameTexts text_at
SameTexts-texts m m' h k = ap (λ t. elim (find k t) [ none ↦ [] | some s ↦ s ]) h

pub leaf_entries-texts :
    (m m' : Mem) (n : Node) → SameTexts m m' → leaf_entries m' n ≡ leaf_entries m n
unfolding leaf_entries
leaf_entries-texts m m' n s = entries_of-texts m m' (live_keys n) (take n.num_keys n.values) s

pub AllShort-texts : (m m' : Mem) (ks : List ℕ) → SameTexts m m' → AllShort m ks → AllShort m' ks
unfolding AllShort SameTexts
AllShort-texts m m' [] s a = tt
AllShort-texts m m' (k ∷ ks) s a = (rw (s k) a.0, AllShort-texts m m' ks s a.1)

pub AllShort-take : (m : Mem) (n : ℕ) (ks : List ℕ) → AllShort m ks → AllShort m (take n ks)
unfolding AllShort
AllShort-take m zero ks a = tt
AllShort-take m (suc n) [] a = tt
AllShort-take m (suc n) (k ∷ ks) a = (a.0, AllShort-take m n ks a.1)

pub AllShort-drop : (m : Mem) (n : ℕ) (ks : List ℕ) → AllShort m ks → AllShort m (drop n ks)
unfolding AllShort
AllShort-drop m zero ks a = a
AllShort-drop m (suc n) [] a = tt
AllShort-drop m (suc n) (k ∷ ks) a = AllShort-drop m n ks a.1
