-- ===== src/Cache/Invariant/Reachable.antt =====
-- The states that a `BlockCache` gets into by calls of its methods, in any order.
use zippy_fs.Common.{
  ℕ, ◌≡◌, Bool, true, List, Str, Result, ok, AllOk-ok, arith, ◌⊎◌, inl, inr, str, str_beq_iff,
}
use zippy_fs.Common.Map.{find, str_key}
use zippy_fs.Util.Numbers.{Clock}
use zippy_fs.Inode.{Inode}
use zippy_fs.Cache.State.{Cache, Loader, make, in_cache, id_of, inode_at, get_inode_by_path}
use zippy_fs.Cache.Files.{remove, rmdir, truncate, make_file, symlink, rename, read_file, open_file}
use zippy_fs.Cache.Write.{write}
use zippy_fs.Cache.Flush.{Flush, flush_to_shdw}
use zippy_fs.Cache.Invariant.{Linked, make-Linked, Option-cases}
use zippy_fs.Cache.Invariant.Steps.{
  Keeps, remove-Linked, rmdir-Linked, truncate-Linked, make_file-Linked, symlink-Linked,
}
use zippy_fs.Cache.Invariant.Loading.{
  rename-Linked, read_file-Linked, open_file-Linked, write-Linked, flush_to_shdw-Linked,
}

kept : {r : Result (ℕ × Cache)} {n : ℕ} {c : Cache} → Keeps r → r ≡ ok (n, c) → Linked c
kept v e = AllOk-ok (λ out. Linked out.1) _ v e

module _ (g : List ℕ → List ℕ) (loader : Loader) where
  -- A call of a method that comes to its end, from one cache to the next.
  pub data Step : Cache → Cache → Type 0 where
    removed :
        {c c' : Cache} {n : ℕ} (clock : Clock) (path : Str)
        → remove clock path c ≡ ok (n, c')
        → Step c c'
    rmdired :
        {c c' : Cache} {n : ℕ} (clock : Clock) (path : Str)
        → rmdir clock path c ≡ ok (n, c')
        → Step c c'
    truncated :
        {c c' : Cache} {n : ℕ} (clock : Clock) (path : Str) (size : ℕ)
        → truncate clock path size c ≡ ok (n, c')
        → Step c c'
    made :
        {c : Cache} (clock : Clock) (path : Str) (mode : ℕ) (dirty : Bool)
        → Step c (make_file g clock path mode dirty c).1
    symlinked : {c : Cache} (clock : Clock) (from to : Str) → Step c (symlink g clock from to c).1
    renamed :
        {c c' : Cache} {n : ℕ} (clocks : Clock × Clock × Clock × Clock) (from to : Str)
        → rename g loader clocks from to c ≡ ok (n, c')
        → Step c c'
    opened :
        {c c' : Cache} {n : ℕ} (clock : Clock) (path : Str)
        → open_file g loader clock path c ≡ ok (n, c')
        → Step c c'
    was_read :
        {c c' : Cache} {n : ℕ} {bytes : List ℕ} (clock : Clock) (path : Str) (size offset : ℕ)
        → read_file g loader clock path size offset c ≡ ok (n, bytes, c')
        → Step c c'
    written :
        {c c' : Cache} {n : ℕ} (clocks : Clock × Clock) (path : Str) (buf : List ℕ)
        (size offset : ℕ)
        → write g loader clocks path buf size offset c ≡ ok (n, c')
        → Step c c'
    flushed :
        {c c' : Cache} {n : ℕ} {trees : List Flush} (on_close : ℕ)
        → flush_to_shdw on_close c ≡ ok (n, trees, c')
        → Step c c'

  pub data Reachable : Cache → Type 0 where
    fresh : (memory : ℕ) → Reachable (make memory)
    then_step : {c c' : Cache} → Reachable c → Step c c' → Reachable c'

  Step-Linked : {c c' : Cache} → Step c c' → Linked c → Linked c'
  Step-Linked (removed clock path e) v = kept (remove-Linked clock path _ v) e
  Step-Linked (rmdired clock path e) v = kept (rmdir-Linked clock path _ v) e
  Step-Linked (truncated clock path size e) v = kept (truncate-Linked clock path size _ v) e
  Step-Linked (made clock path mode dirty) v = make_file-Linked g clock path mode dirty _ v
  Step-Linked (symlinked clock from to) v = symlink-Linked g clock from to _ v
  Step-Linked (renamed clocks from to e) v = kept (rename-Linked g loader clocks from to _ v) e
  Step-Linked (opened clock path e) v = kept (open_file-Linked g loader clock path _ v) e
  Step-Linked (was_read clock path size offset e) v =
      AllOk-ok (λ out. Linked out.2) _ (read_file-Linked g loader clock path size offset _ v) e
  Step-Linked (written clocks path buf size offset e) v =
      kept (write-Linked g loader clocks path buf size offset _ v) e
  Step-Linked (flushed on_close e) v =
      AllOk-ok (λ out. Linked out.2) _ (flush_to_shdw-Linked on_close _ v) e

  Reachable-Linked : {c : Cache} → Reachable c → Linked c
  Reachable-Linked (fresh memory) = make-Linked memory
  Reachable-Linked (then_step r s) = Step-Linked s (Reachable-Linked r)

  -- In every state that the cache gets into by calls of its methods, whatever the loader finds, a
  -- path other than the root that counts as cached has an inode: `get_inode_by_path` does not
  -- dereference a null pointer for it.
  pub get_inode_by_path-Reachable :
      (c : Cache) (path : Str)
      → Reachable c
      → in_cache path c ≡ true
      → (path ≡ str "/") ⊎ ((i : Inode) × (get_inode_by_path path c ≡ ok i))
  unfolding in_cache get_inode_by_path id_of inode_at
  get_inode_by_path-Reachable c path r h = elim (Option-cases (find path c.inode_idx)) [
    | inl k ↦ inl (ground (arith, str_beq_iff path (str "/")))
    | inr (id, k) ↦ (let (i, q) = Reachable-Linked r path id k in inr (i, rw (k, q)))
  ]
