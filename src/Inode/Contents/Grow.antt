-- ===== src/Inode/Contents/Grow.antt =====
-- A file without gaps grows by a chunk when a block is added behind its last full one.
use zippy_fs.Common.{
  ℕ, suc, ◌+◌, ◌≤◌, ◌<◌, ◌≡◌, ◌≢◌, refl, sym, ◌∙◌, List, [], ◌∷◌, ◌++◌, arith, length, flatten,
  get_elem?, ok, none, length-append, get_elem?-append_left, get_elem?-append_end, lt-length_of_get,
  append_assoc, append-nil,
}
use zippy_fs.Common.Map.{find, insert, nat_key, find-insert, length-insert_new}
use zippy_fs.Block.{Block, physical_size, get_data}
use zippy_fs.Block.Data.{IsBlock}
use zippy_fs.Inode.{Heap, BlockMap, Ptr}
use zippy_fs.Inode.Contents.{Holds, Chunks, Packed, IsFile, Distinct}

-- Every chunk is a full block.
abbrev pub Full : List (List ℕ) → Type 0
Full [] = Unit {0}
Full (d ∷ ds) = (length d ≡ physical_size) × Full ds

pub Full-snoc :
    (ds : List (List ℕ)) (d : List ℕ) → Full ds → length d ≡ physical_size → Full (ds ++ d ∷ [])
Full-snoc [] d f h = (h, tt)
Full-snoc (e ∷ ds) d f h = (f.0, Full-snoc ds d f.1 h)

pub Packed-snoc :
    (ds : List (List ℕ)) (d : List ℕ) → Full ds → length d ≤ physical_size → Packed (ds ++ d ∷ [])
Packed-snoc [] d f h = h
Packed-snoc (e ∷ []) d f h = (f.0, h)
Packed-snoc (e ∷ e' ∷ ds) d f h = (f.0, Packed-snoc (e' ∷ ds) d f.1 h)

pub flatten-snoc : (ds : List (List ℕ)) (d : List ℕ) → flatten (ds ++ d ∷ []) ≡ flatten ds ++ d
flatten-snoc [] d = append-nil d
flatten-snoc (e ∷ ds) d = rw (flatten-snoc ds d) (sym (append_assoc e (flatten ds) d))

pub flatten-append : (ds es : List (List ℕ)) → flatten (ds ++ es) ≡ flatten ds ++ flatten es
flatten-append [] es = refl
flatten-append (e ∷ ds) es =
    rw (flatten-append ds es) (sym (append_assoc e (flatten ds) (flatten es)))

-- The old pointers of a heap that only grew point to the same blocks.
abbrev pub Grown : Heap → Heap → Type 0
Grown h h' = (length h ≤ length h') × ((p : Ptr) → p < length h → get_elem? h' p ≡ get_elem? h p)

-- A change that spares a file's pointers and entries spares what it holds.
pub Chunks-frame :
    (h h' : Heap) (m m' : BlockMap) (i : ℕ) (ds : List (List ℕ))
    → Grown h h'
    → ((j : ℕ) → j < i + length ds → find j m' ≡ find j m)
    → Chunks h m i ds
    → Chunks h' m' i ds
Chunks-frame h h' m m' i [] g f c = tt
Chunks-frame h h' m m' i (d ∷ ds) g f (s, c) = (
  record {
    ptr = s.ptr;
    block = s.block;
    found = f i (omega arith) ∙ s.found;
    stored = g.1 s.ptr (lt-length_of_get h s.ptr s.block s.stored) ∙ s.stored;
    valid = s.valid;
    seen = s.seen;
  },
  Chunks-frame h h' m m' (suc i) ds g (λ j hj. f j (omega arith)) c,
)

pub IsFile-frame :
    {h h' : Heap} {m : BlockMap} {ds : List (List ℕ)} → Grown h h' → IsFile h m ds → IsFile h' m ds
IsFile-frame {h} {h'} {m} {ds} g v = record {
  chunks = Chunks-frame h h' m m 0 ds g (λ j hj. refl) v.chunks;
  count = v.count;
  packed = v.packed;
  distinct = v.distinct;
  fresh = v.fresh;
}

pub Chunks-snoc :
    (h : Heap) (m : BlockMap) (i : ℕ) (ds : List (List ℕ)) (d : List ℕ)
    → Chunks h m i ds
    → Holds h m (i + length ds) d
    → Chunks h m i (ds ++ d ∷ [])
Chunks-snoc h m i [] d c s = let e : i + 0 ≡ i = omega arith in (rw e at s, tt)
Chunks-snoc h m i (d' ∷ ds) d c s =
    let e : i + suc (length ds) ≡ suc i + length ds = omega arith in
    (c.0, Chunks-snoc h m (suc i) ds d c.1 (rw e at s))

pub Grown-append : (h : Heap) (b : Block) → Grown h (h ++ (b ∷ []))
Grown-append h b =
    (omega (arith, length-append h (b ∷ [])), λ p hp. get_elem?-append_left h (b ∷ []) p hp)

pub Grown-trans : (h h' h'' : Heap) → Grown h h' → Grown h' h'' → Grown h h''
Grown-trans h h' h'' g g' = (omega arith, λ p hp. g'.1 p (omega arith) ∙ g.1 p hp)

find-insert-none :
    (j k p : ℕ) (m : BlockMap) → j ≢ k → find j m ≡ none → find j (insert k p m) ≡ none
find-insert-none j k p m h e = ground (arith, find-insert k j p m)

pub Distinct-insert :
    (k p : ℕ) (m : BlockMap) → find k m ≡ none → Distinct m → Distinct (insert k p m)
unfolding insert find
Distinct-insert k p [] e d = (refl, tt)
Distinct-insert k p ((j, q) ∷ m) e d =
    ground (arith, Distinct-insert k p m, find-insert-none j k p m)

-- A block behind the last one extends the file by its data.
pub IsFile-snoc :
    (h : Heap) (m : BlockMap) (ds : List (List ℕ)) (b : Block) (d : List ℕ)
    → IsFile h m ds
    → Full ds
    → IsBlock b
    → get_data b ≡ ok d
    → length d ≤ physical_size
    → IsFile (h ++ (b ∷ [])) (insert (length ds) (length h) m) (ds ++ d ∷ [])
IsFile-snoc h m ds b d v f vb hd hl = record {
  chunks = Chunks-snoc h' m' 0 ds d old new;
  count = omega (
    arith,
    length-insert_new n (length h) m (v.fresh n (omega arith)),
    v.count,
    length-append ds (d ∷ []),
  );
  packed = Packed-snoc ds d f hl;
  distinct = Distinct-insert n (length h) m (v.fresh n (omega arith)) v.distinct;
  fresh =
      λ j hj. ground (arith, find-insert n j (length h) m, v.fresh j, length-append ds (d ∷ []));
}
  where
    n : ℕ
    n = length ds

    h' : Heap
    h' = h ++ (b ∷ [])

    m' : BlockMap
    m' = insert n (length h) m

    old : Chunks h' m' 0 ds
    old =
        Chunks-frame h h' m m' 0 ds (Grown-append h b)
          (λ j hj. ground (arith, find-insert n j (length h) m)) v.chunks

    new : Holds h' m' (0 + n) d
    new = record {
      ptr = length h;
      block = b;
      found = ground (arith, find-insert n (0 + n) (length h) m);
      stored = get_elem?-append_end h b;
      valid = vb;
      seen = hd;
    }
