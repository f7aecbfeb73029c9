-- ===== src/TreeLoader/Written.antt =====
-- What the loader finds in the tree of one flush.
use zippy_fs.Common.{
  ℕ, zero, suc, ◌+◌, ◌*◌, ◌≤◌, ◌<◌, ◌≡◌, ◌≢◌, refl, ◌∙◌, sym, ap, subst, true, some, List, [], ◌∷◌,
  Result, ok, Str, length, arith, replicate, get_elem?,
}
use zippy_fs.Common.Map.{nat_key}
use zippy_fs.Block.{Block}
use zippy_fs.Util.Names.{c_str, crypto_hash, binary_to_hex, hex_loop, copied}
use zippy_fs.Inode.{get_mode}
use zippy_fs.Index.Memory.{Mem, hash_size, inode_size, max_keys}
use zippy_fs.Index.Entries.{IsTree, IsLeaf, lookup}
use zippy_fs.Index.Add.{BplusIndex, make, mem_of}
use zippy_fs.Index.AddKey.{RootLeaf}
use zippy_fs.Index.Started.{Layout, layout}
use zippy_fs.Index.Build.{Item, Cursors, cursors, add_inodes}
use zippy_fs.Index.Build.All.{AllItems, Room, entries_with, add_inodes-Built}
use zippy_fs.Index.Build.Ids.{Distinct, AllLaid-Stands, id_of}
use zippy_fs.TreeLoader.Search.{inode_offset}
use zippy_fs.TreeLoader.Descent.{inode_offset-lookup}
use zippy_fs.TreeLoader.Latest.{nothing_found, find_latest_inode}
use zippy_fs.TreeLoader.ReadBlocks.{Copies, AllBlocks, DistinctBlocks}
use zippy_fs.TreeLoader.ReadInode.{
  read_back, search_trees-one, find_latest_inode-found, take_tree-Took,
}

-- A tree that is one leaf is a tree.
RootLeaf-IsTree :
    (m : Mem) (bound count : ℕ) (es : List (Str × ℕ))
    → RootLeaf m bound count es
    → IsTree m 0 m.header.root es
unfolding IsTree IsLeaf
RootLeaf-IsTree m bound count es r = (r.leaf.0, r.entries)

c_str-c_str : (xs : Str) → c_str (c_str xs) ≡ c_str xs
unfolding c_str
c_str-c_str [] = refl
c_str-c_str (x ∷ xs) = ground (arith, c_str-c_str xs)

c_str-binary_to_hex : (bs : List ℕ) → c_str (binary_to_hex bs) ≡ binary_to_hex bs
unfolding binary_to_hex
c_str-binary_to_hex bs = c_str-c_str (hex_loop 0 bs (replicate (length bs * 2 + 1) 0))

c_str-crypto_hash :
    (generichash : List ℕ → List ℕ) (path : Str)
    → c_str (crypto_hash generichash path) ≡ crypto_hash generichash path
unfolding crypto_hash
c_str-crypto_hash generichash path = c_str-binary_to_hex (generichash (copied path))

item_short :
    (xs : List Item) (k : ℕ) (a : Item)
    → AllItems xs
    → get_elem? xs k ≡ some a
    → length a.inode.inode_id < hash_size
item_short [] k a it h = cc
item_short (x ∷ xs) zero a ((mode, it), its) h =
    let same : x ≡ a = cc in subst (λ y. length y.inode.inode_id < hash_size) same it.short
item_short (x ∷ xs) (suc k) a (it, its) h = item_short xs k a its h

-- What was written and what is read of it: the tree, and the answer of the loader.
pub record WrittenAndFound (generichash : List ℕ → List ℕ) (fuel memory : ℕ) (path : Str)
    (written : Result BplusIndex) (a : Item) : Type 0 where
  pub tree : BplusIndex
  pub ran : written ≡ ok tree
  pub mode : ℕ
  pub has_mode : get_mode a.inode ≡ ok mode
  pub copies : List (ℕ × Block)
  pub found :
      find_latest_inode generichash fuel memory (mem_of tree ∷ []) path true
      ≡ ok (read_back (crypto_hash generichash path) a mode copies)
  pub copied : Copies a.dirty_blocks copies

-- Up to 23 inodes in a new file with room for them are each found again.
pub find_latest_inode-add_inodes :
    (generichash : List ℕ → List ℕ) (maps : ℕ → ℕ) (fuel memory n bs nb ps : ℕ) (xs : List Item)
    (k : ℕ) (a : Item) (path : Str)
    → ((i : ℕ) → maps i ≢ 0)
    → Room n bs nb ps xs
    → AllItems xs
    → Distinct xs
    → length xs ≤ max_keys
    → get_elem? xs k ≡ some a
    → a.inode.inode_id ≡ crypto_hash generichash path
    → 1 ≤ length path
    → 1 ≤ a.inode.ul_mtime
    → AllBlocks a.dirty_blocks
    → DistinctBlocks a.dirty_blocks
    → 1 ≤ fuel
    → WrittenAndFound generichash fuel memory path (add_inodes maps xs (make n bs nb ps)) a
unfolding layout make
find_latest_inode-add_inodes g maps fuel memory n bs nb ps [] k a path mapped r it d few h id named
      late v dv run =
    cc
find_latest_inode-add_inodes g maps fuel memory n bs nb ps (x ∷ xs) k a path mapped r it d few h id
      named late v dv run =
    let l : Layout = layout n bs nb ps in
    let c : Cursors = cursors (make n bs nb ps) in
    let p : Str = crypto_hash g path in
    let (m₀, b, ran, built) = add_inodes-Built maps n bs nb ps x xs mapped r it few in
    let m : Mem = mem_of b in
    let s = AllLaid-Stands l c (x ∷ xs) k a m d built.laid h in
    let key : id_of a ≡ p = ap c_str id ∙ c_str-crypto_hash g path in
    let took =
      take_tree-Took p l s.at a s.laid.mode memory m s.laid.cell s.laid.blocks
        (omega (arith, s.inside, r.blocks, r.small)) late v dv in
    let offset : ℕ = l.inodes + inode_size * s.at.inodes in
    let es : List (Str × ℕ) = entries_with l c (x ∷ xs) [] in
    let seen : inode_offset fuel m p ≡ ok (some offset) =
      inode_offset-lookup fuel 0 m p es (RootLeaf-IsTree m _ _ es built.ready.leaf) run
      ∙ ap ok (ap (λ q. lookup q es) (sym key) ∙ s.found) in
    record {
      tree = b;
      ran = ran;
      mode = s.laid.mode;
      has_mode = s.laid.has_mode;
      copies = took.copies;
      found =
          find_latest_inode-found g fuel memory (m ∷ []) path true took.after named
            (subst (λ q. length q < hash_size) id (item_short (x ∷ xs) k a it h))
            (search_trees-one fuel offset p true took.goes_on m (nothing_found memory) took.after
              seen took.ran)
          ∙ ap ok took.info;
      copied = took.copied;
    }
