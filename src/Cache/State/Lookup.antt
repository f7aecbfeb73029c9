-- ===== src/Cache/State/Lookup.antt =====
-- How the lookups of `BlockCache` see a stored inode.
use zippy_fs.Common.{◌≡◌, ◌≢◌, true, arith, ok, Str}
use zippy_fs.Common.Map.{str_key, find-insert_ordered}
use zippy_fs.Inode.{Inode}
use zippy_fs.Cache.State.{
  Cache, id_of, inode_at, put_inode, in_cache, update_inode, get_inode_by_path,
}

pub inode_at-put_inode :
    (id other : Str) (i : Inode) (c : Cache)
    → other ≢ id
    → inode_at other (put_inode id i c) ≡ inode_at other c
unfolding inode_at put_inode
inode_at-put_inode id other i c h =
    ground (arith, find-insert_ordered id other i c.inode_ptrs, str_key.beq_iff other id)

pub inode_at-put_inode_self :
    (id : Str) (i : Inode) (c : Cache) → inode_at id (put_inode id i c) ≡ ok i
unfolding inode_at put_inode
inode_at-put_inode_self id i c =
    ground (arith, find-insert_ordered id id i c.inode_ptrs, str_key.beq_iff id id)

-- A path that has an id is in the cache, and its inode is what is stored under the id.
pub in_cache_of_id : (path id : Str) (c : Cache) → id_of path c ≡ ok id → in_cache path c ≡ true
unfolding id_of in_cache
in_cache_of_id path id c h = ground arith

pub get_inode_by_path-ok :
    (path id : Str) (i : Inode) (c : Cache)
    → id_of path c ≡ ok id
    → inode_at id c ≡ ok i
    → get_inode_by_path path c ≡ ok i
unfolding get_inode_by_path
get_inode_by_path-ok path id i c h k = rw (h, k)

-- A method called through the pointer changes the inode under the id.
pub update_inode-ok :
    (path id : Str) (f : Inode → Inode) (i : Inode) (c : Cache)
    → id_of path c ≡ ok id
    → inode_at id c ≡ ok i
    → update_inode path f c ≡ ok (put_inode id (f i) c)
unfolding update_inode
update_inode-ok path id f i c h k = rw (h, k)
