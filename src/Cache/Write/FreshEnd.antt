-- ===== src/Cache/Write/FreshEnd.antt =====
-- What `BlockCache::write` leaves in the cache of a file that had no blocks.
use zippy_fs.Common.{
  inr, inl, Bool-cases, ℕ, ◌+◌, ◌%◌, ◌^◌, ◌≤◌, ◌<◌, ◌≡◌, refl, sym, ◌∙◌, ap, subst, false, List, [],
  arith, ok, nat_beq, ltb, AllOk, holds, AllOk-after, AllOk-bind, AllOk-ok, check, assert_failed,
  Str,
}
use zippy_fs.Cache.Write.{Writing, write_cached, write}
use zippy_fs.Common.Map.{nat_key}
use zippy_fs.Block.{physical_size}
use zippy_fs.Util.Numbers.{Clock, later, ulong_ceil}
use zippy_fs.Inode.{Inode, Heap, update_mtime, set_size, set_dirty_inode, remake_inode}
use zippy_fs.Cache.State.{Cache, Loader, id_of, inode_at, put_inode, inner}
use zippy_fs.Cache.State.Lookup.{inode_at-put_inode_self}
use zippy_fs.Cache.Write.End.{ulong_ceil_lem, resized, committed, revived, write-cached}
use zippy_fs.Cache.Write.Fresh.{Ticking, Linear, write_loop-Linear}

resized-Linear :
    (clock : Clock) (end : ℕ) (i : Inode) (h : Heap) (mtimes : List (ℕ × ℕ))
    → Ticking clock
    → i.blocks ≡ []
    → 1 ≤ i.ul_mtime
    → Linear i 0
        (record { heap = h; inode = resized clock end i; dirty = []; dirty_mtime = mtimes })
unfolding set_size update_mtime
resized-Linear clock end i h mtimes tick none_yet late = elim (Bool-cases (ltb i.size end)) [
  | inl grows ↦ rw grows (record {
    same = sym none_yet;
    keys = tt;
    count = refl;
    path = refl;
    id = refl;
    mode = refl;
    late = tick 0;
  })
  | inr fits ↦ rw fits (record {
    same = sym none_yet;
    keys = tt;
    count = refl;
    path = refl;
    id = refl;
    mode = refl;
    late = late;
  })
]

-- What `write` leaves: the loop's end, put into the cache.
pub record Committed (c : Cache) (id : Str) (i : Inode) (c' : Cache) : Type 0 where
  pub last : Writing
  pub blocks : ℕ
  pub few : blocks < 2 ^ 32
  pub linear : Linear i blocks last
  pub cache : c' ≡ committed id last c

write_cached-Committed :
    (clock : Clock) (path : Str) (buf : List ℕ) (size : ℕ) (c : Cache) (id : Str) (i : Inode)
    → Ticking clock
    → id_of path c ≡ ok id
    → inode_at id c ≡ ok i
    → i.blocks ≡ []
    → inner id c.dirty_block ≡ []
    → 1 ≤ i.ul_mtime
    → size + physical_size ≤ 2 ^ 44
    → AllOk (λ out. Committed c id i out.1) (write_cached clock path buf size 0 c)
unfolding write_cached
write_cached-Committed clock path buf size c id i tick hid hi none_yet none_dirty late small =
    let end : ℕ = (size + 0) % 2 ^ 64 in
    let end_eq : end ≡ size = omega arith in
    let ceil = ulong_ceil_lem size small in
    let blocks : ulong_ceil end physical_size < 2 ^ 32 =
      omega (arith, ap (λ e. ulong_ceil e physical_size) end_eq, ceil) in
    let start =
      subst
        (λ m. Linear i 0 (record {
          heap = c.heap;
          inode = resized clock end i;
          dirty = m;
          dirty_mtime = inner id c.dirty_block_mtime;
        }))
        (sym none_dirty)
        (resized-Linear clock end i c.heap (inner id c.dirty_block_mtime) tick none_yet late) in
    rw (write_cached, hid, hi)
      (AllOk-bind
        (write_loop-Linear (ulong_ceil end physical_size + 1) (later 1 clock) buf size 0
          (ulong_ceil end physical_size) 0 0 0 false i _ (λ n. tick (1 + n)) blocks (omega arith)
          start)
        (λ out v. AllOk-after (check (nat_beq ((out.0 + out.1) % 2 ^ 64) size) assert_failed) (λ u.
          holds (record { last = out.2; blocks = v.0; few = v.1; linear = v.2; cache = refl }))))

-- A write from the start of a file in the cache that has no blocks yet, not even dirty ones.
pub write-Committed :
    (generichash : List ℕ → List ℕ) (loader : Loader) (clocks : Clock × Clock) (path : Str)
    (buf : List ℕ) (size res : ℕ) (c c' : Cache) (id : Str) (i : Inode)
    → Ticking clocks.1
    → id_of path c ≡ ok id
    → inode_at id c ≡ ok i
    → i.blocks ≡ []
    → inner id c.dirty_block ≡ []
    → 1 ≤ i.ul_mtime
    → size + physical_size ≤ 2 ^ 44
    → write generichash loader clocks path buf size 0 c ≡ ok (res, c')
    → Committed (put_inode id (revived i) c) id (revived i) c'
unfolding put_inode remake_inode set_dirty_inode id_of
write-Committed g loader clocks path buf size res c c' id i tick hid hi none_yet none_dirty late
      small ran =
    AllOk-ok (λ out. Committed (put_inode id (revived i) c) id (revived i) out.1) (res, c')
      (write_cached-Committed clocks.1 path buf size (put_inode id (revived i) c) id (revived i)
        tick hid (inode_at-put_inode_self id (revived i) c) none_yet none_dirty late small)
      (sym (write-cached g loader clocks path buf size 0 c id i hid hi) ∙ ran)
