-- ===== src/Cache/Write/Readback.antt =====
-- `BlockCache::read` behind `BlockCache::write`.
use zippy_fs.Common.{
  ℕ, ◌+◌, ◌*◌, ◌^◌, ◌≤◌, ◌<◌, ◌≡◌, ◌≢◌, refl, ap, ◌∙◌, List, [], ◌∷◌, ◌++◌, arith, length, flatten,
  take, drop, ok, length-append, length-take, Str, or_fault, null_deref,
}
use zippy_fs.Common.Map.{find, str_key}
use zippy_fs.Block.{physical_size}
use zippy_fs.Util.Numbers.{Clock}
use zippy_fs.Inode.{Inode, to_int}
use zippy_fs.Inode.Contents.{Packed, IsFile}
use zippy_fs.Inode.Contents.Grow.{Full, IsFile-frame, flatten-append}
use zippy_fs.Inode.Read.{read-take-drop}
use zippy_fs.Cache.State.{Cache, Loader, id_of, inode_at, get_inode_by_path, in_cache}
use zippy_fs.Cache.Files.{ensure, read_file}
use zippy_fs.Cache.Write.{write}
use zippy_fs.Cache.Write.End.{WroteEnd, write_lem}

Packed-count :
    (ds : List (List ℕ))
    → Packed ds
    → length ds * physical_size ≤ length (flatten ds) + physical_size
Packed-count [] p = omega arith
Packed-count (d ∷ []) p = omega arith
Packed-count (d ∷ e ∷ ds) p =
    omega (arith, length-append d (flatten (e ∷ ds)), Packed-count (e ∷ ds) p.1)

Full-count : (ds : List (List ℕ)) → Full ds → length (flatten ds) ≡ length ds * physical_size
Full-count [] f = refl
Full-count (d ∷ ds) f = omega (arith, length-append d (flatten ds), Full-count ds f.1)

module _ (generichash : List ℕ → List ℕ) (loader : Loader) where
  -- `BlockCache::read` of a file in the cache.
  pub read_file-cached :
      (clock : Clock) (path : Str) (n at : ℕ) (c : Cache) (id : Str) (i : Inode)
      {ds : List (List ℕ)}
      → id_of path c ≡ ok id
      → inode_at id c ≡ ok i
      → IsFile c.heap i.blocks ds
      → length i.blocks < 2 ^ 32
      → at < 2 ^ 44
      → read_file generichash loader clock path n at c
        ≡ ok (to_int n, take n (drop at (flatten ds)), c)
  unfolding read_file ensure in_cache get_inode_by_path
  read_file-cached clock path n at c id i hid hi v hn ha =
      ground (arith, read-take-drop i n at v hn ha)

  -- How a file reads that bytes were written to the end of.
  pub WroteEnd-read_file :
      (path : Str) (buf : List ℕ) (size : ℕ) (c c' : Cache) (id : Str) (i : Inode)
      (ds : List (List ℕ))
      → id_of path c ≡ ok id
      → Full ds
      → size + length ds * physical_size + physical_size < 2 ^ 44
      → WroteEnd c id i ds (length ds * physical_size) (take size buf) c'
      → (clock : Clock) (n at : ℕ) → at < 2 ^ 44
      → read_file generichash loader clock path n at c'
        ≡ ok (to_int n, take n (drop at (flatten ds ++ take size buf)), c')
  unfolding id_of
  WroteEnd-read_file path buf size c c' id i ds here f small o clock n at ha =
      let bytes : flatten (ds ++ o.added) ≡ flatten ds ++ take size buf =
        flatten-append ds o.added ∙ ap (λ r. flatten ds ++ r) o.contents in
      let few : length o.inode.blocks < 2 ^ 32 = omega (
        arith,
        o.file.count,
        Packed-count (ds ++ o.added) o.file.packed,
        ap length bytes,
        length-append (flatten ds) (take size buf),
        Full-count ds f,
        length-take size buf,
      ) in
      read_file-cached clock path n at c' id o.inode
        (ap (λ m. or_fault (find path m) null_deref) o.paths ∙ here) o.stored o.file few ha
      ∙ ap (λ r. ok (to_int n, take n (drop at r), c')) bytes

  module _ (clocks : Clock × Clock) (path : Str) (buf : List ℕ) (size : ℕ) (c : Cache) (id : Str)
      (i : Inode) (ds : List (List ℕ)) (here : id_of path c ≡ ok id) (kept : inode_at id c ≡ ok i)
      (v : IsFile c.heap i.blocks ds) (f : Full ds) (enough : size ≤ length buf)
      (small : size + length ds * physical_size + physical_size < 2 ^ 44) where
    -- What `write` stores at the end of a cached file without gaps and of full blocks, `read`
    -- returns: where the buffer has the bytes and the file ends 4096 bytes below 2 ^ 44, after the
    -- call it reads, at any place below 2 ^ 44 and for any size, as its old bytes followed by the
    -- bytes written.
    pub read_file-write :
        (clock : Clock) (n at : ℕ)
        → at < 2 ^ 44
        → (c' : Cache) × (write generichash loader clocks path buf size
              (length ds * physical_size)
              c
            ≡ ok (to_int size, c'))
          × (read_file generichash loader clock path n at c'
              ≡ ok (to_int n, take n (drop at (flatten ds ++ take size buf)), c'))
    read_file-write clock n at ha =
        let (c', ran, o) =
          write_lem generichash loader clocks path buf size (length ds * physical_size) c id i ds
            here kept v f refl enough (omega arith) in
        (
          c',
          ran,
          WroteEnd-read_file path buf size c c' id (record i { deleted = 0 }) ds here f small o
              clock n at ha,
        )

    -- A call of `write` under the conditions of `read_file-write` leaves every other file alone: a cached path with
    -- another id, whose file has no gaps and less than 2 ^ 32 blocks, reads as it did at any place
    -- below 2 ^ 44.
    pub read_file-write_other :
        (other : Str) (j : Str) (k : Inode) {es : List (List ℕ)} (clock : Clock) (n at : ℕ)
        → id_of other c ≡ ok j
        → j ≢ id
        → inode_at j c ≡ ok k
        → IsFile c.heap k.blocks es
        → length k.blocks < 2 ^ 32
        → at < 2 ^ 44
        → (c' : Cache) × (write generichash loader clocks path buf size
              (length ds * physical_size)
              c
            ≡ ok (to_int size, c'))
          × (read_file generichash loader clock other n at c'
              ≡ ok (to_int n, take n (drop at (flatten es)), c'))
          × (read_file generichash loader clock other n at c
              ≡ ok (to_int n, take n (drop at (flatten es)), c))
    unfolding id_of
    read_file-write_other other j k clock n at hj hne hk u few ha =
        let (c', ran, o) =
          write_lem generichash loader clocks path buf size (length ds * physical_size) c id i ds
            here kept v f refl enough (omega arith) in
        (
          c',
          ran,
          read_file-cached clock other n at c' j k
              (ap (λ m. or_fault (find other m) null_deref) o.paths ∙ hj) (o.others j hne ∙ hk)
              (IsFile-frame o.grown u) few ha,
          read_file-cached clock other n at c j k hj hk u few ha,
        )
