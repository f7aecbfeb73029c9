-- ===== src/Index/Build/Step.antt =====
-- One call of `add_inode`, for the first inode and for the others.
use zippy_fs.Common.{
  sym, subst, ok-injective, ℕ, ◌+◌, ◌*◌, ◌%◌, ◌^◌, ◌<◌, ◌≡◌, refl, Bool, true, false, not, List,
  Result, ok, Str, length, arith, lt→ltb,
}
use zippy_fs.Common.Map.{insert, nat_key, find-insert_self}
use zippy_fs.Util.Names.{c_str}
use zippy_fs.Inode.{Inode}
use zippy_fs.Index.Memory.{
  InodeCell, BlockData, Node, hash_size, inode_size, block_data_size, put_node,
}
use zippy_fs.Index.Entries.{insert_sorted}
use zippy_fs.Index.Split.{Rooted}
use zippy_fs.Index.Add.{
  BplusIndex, mem_of, set_mem, start, first_key, insert_key, add_inode, add_blocks_of,
}
use zippy_fs.Index.Cells.{with_blocks, add_blocks_of-Wrote, bytes_of, Keeps-insert}
use zippy_fs.Index.AddKey.{RootLeaf}
use zippy_fs.Index.Started.{Layout, Places}
use zippy_fs.Index.Build.{Item, IsItem, Cursors, cursors, advance, Within, cell_of, Added}

-- The two branches.
abbrev pub opened : (ℕ → ℕ) → Bool → BplusIndex → Result BplusIndex
opened maps true b = start maps b
opened maps false b = ok b

abbrev pub keyed : (ℕ → ℕ) → Bool → Str → ℕ → ℕ → Rooted → Result Rooted
keyed maps true id k v r = first_key maps k v r
keyed maps false id k v r = insert_key maps id k v r

-- The path and the hash in the file.
abbrev named : ℕ → ℕ → Inode → BplusIndex → BplusIndex
named path_of key_of i b =
    set_mem
      (record (mem_of b) {
        paths = insert path_of i.path (mem_of b).paths;
        texts = insert key_of (c_str i.inode_id) (mem_of b).texts;
      })
      b

-- The cell of the inode in the file.
abbrev celled : ℕ → InodeCell → Rooted → Rooted
celled inode_of cell r = record r {
  mem = record r.mem { inodes = insert inode_of cell r.mem.inodes };
}

-- The tree with the positions behind an inode.
abbrev finished : Item → Cursors → BplusIndex → Rooted → BplusIndex
finished a c b r = record b {
  rooted = r;
  cur_inode_arr_idx = c.inodes + 1;
  cur_hash_arr_idx = c.hashes + hash_size;
  cur_path_idx = c.path + length a.inode.path;
}

add_inode-steps :
    (maps : ℕ → ℕ) (isroot : Bool) (a : Item) (l : Layout) (b₀ b b₁ : BplusIndex) (r' : Rooted)
    (mode : ℕ)
    → not b₀.has_root ≡ isroot
    → opened maps isroot b₀ ≡ ok b
    → Places l b
    → IsItem a mode
    → Within l (cursors b)
    → b.cur_path_idx + length a.inode.path < 2 ^ 64
    → let c : Cursors = cursors b in
      (add_blocks_of l.cells l.bytes a.block_mtime a.dirty_blocks
          (named (l.paths + c.path) (l.hashes + c.hashes) a.inode b)
        ≡ ok b₁)
      → (keyed maps isroot
            (c_str a.inode.inode_id)
            (l.hashes + c.hashes)
            (l.inodes + inode_size * c.inodes)
            (celled (l.inodes + inode_size * c.inodes) (cell_of l c a mode) b₁.rooted)
          ≡ ok r')
      → add_inode maps a.inode a.dirty_blocks a.block_mtime b₀ ≡ ok (finished a (cursors b) b₁ r')
unfolding add_inode
add_inode-steps maps true a l b₀ b b₁ r' mode h e p it w small q k =
    let z₁ : (l.paths + b.cur_path_idx) % 2 ^ 64 ≡ l.paths + b.cur_path_idx =
      omega (arith, w.paths) in
    let z₂ : (l.hashes + b.cur_hash_arr_idx) % 2 ^ 64 ≡ l.hashes + b.cur_hash_arr_idx =
      omega (arith, w.hashes) in
    let z₃ : (b.cur_inode_arr_idx * inode_size + l.inodes) % 2 ^ 64
        ≡ l.inodes + inode_size * b.cur_inode_arr_idx =
      omega (arith, w.inodes) in
    let z₄ : (b.cur_path_idx + length a.inode.path) % 2 ^ 64
        ≡ b.cur_path_idx + length a.inode.path =
      omega arith in
    let z₅ : (l.cells + b.cur_bd_arr_idx * block_data_size) % 2 ^ 64
        ≡ l.cells + block_data_size * b.cur_bd_arr_idx =
      omega (arith, w.cells) in
    rw
      (
        add_inode,
        h,
        e,
        p.paths,
        p.hashes,
        p.inodes,
        p.cells,
        p.bytes,
        z₁,
        z₂,
        z₃,
        z₄,
        z₅,
        lt→ltb (length a.inode.inode_id) hash_size it.short,
        it.moded,
        q,
        k,
      )
      refl
add_inode-steps maps false a l b₀ b b₁ r' mode h e p it w small q k =
    let z₁ : (l.paths + b.cur_path_idx) % 2 ^ 64 ≡ l.paths + b.cur_path_idx =
      omega (arith, w.paths) in
    let z₂ : (l.hashes + b.cur_hash_arr_idx) % 2 ^ 64 ≡ l.hashes + b.cur_hash_arr_idx =
      omega (arith, w.hashes) in
    let z₃ : (b.cur_inode_arr_idx * inode_size + l.inodes) % 2 ^ 64
        ≡ l.inodes + inode_size * b.cur_inode_arr_idx =
      omega (arith, w.inodes) in
    let z₄ : (b.cur_path_idx + length a.inode.path) % 2 ^ 64
        ≡ b.cur_path_idx + length a.inode.path =
      omega arith in
    let z₅ : (l.cells + b.cur_bd_arr_idx * block_data_size) % 2 ^ 64
        ≡ l.cells + block_data_size * b.cur_bd_arr_idx =
      omega (arith, w.cells) in
    let same : b₀ ≡ b = ok-injective e in
    let rooted : not b.has_root ≡ false = subst (λ x. not x.has_root ≡ false) same h in
    subst
      (λ x.
        add_inode maps a.inode a.dirty_blocks a.block_mtime x ≡ ok (finished a (cursors b) b₁ r'))
      (sym same)
      (rw
        (
          add_inode,
          rooted,
          p.paths,
          p.hashes,
          p.inodes,
          p.cells,
          p.bytes,
          z₁,
          z₂,
          z₃,
          z₄,
          z₅,
          lt→ltb (length a.inode.inode_id) hash_size it.short,
          it.moded,
          q,
          k,
        )
        refl)

-- The memory that the key goes into: the path, the hash, the blocks and the inode are written.
abbrev pub filled_in :
    Layout → Item → ℕ → List (ℕ × BlockData) → List (ℕ × List ℕ) → BplusIndex → Rooted
filled_in l a mode cells bytes b =
    let c : Cursors = cursors b in
    celled (l.inodes + inode_size * c.inodes) (cell_of l c a mode)
      (with_blocks cells bytes 0 0
        (named (l.paths + c.path) (l.hashes + c.hashes) a.inode b)).rooted

-- What the key makes of the root, whatever the blocks are.
unfoldable pub KeyStep : (ℕ → ℕ) → Bool → Layout → Item → ℕ → List (Str × ℕ) → BplusIndex → Type 0
KeyStep maps isroot l a mode es b =
    let id : Str = c_str a.inode.inode_id in
    let c : Cursors = cursors b in
    let v : ℕ = l.inodes + inode_size * c.inodes in
    (cells : List (ℕ × BlockData)) (bytes : List (ℕ × List ℕ))
    → let r : Rooted = filled_in l a mode cells bytes b in
      (n' : Node) × (keyed maps isroot id (l.hashes + c.hashes) v r
        ≡ ok (record r { mem = put_node r.mem.header.root n' r.mem }))
      × RootLeaf (put_node r.mem.header.root n' r.mem) (l.hashes + (c.hashes + hash_size))
          (c.inodes + 1) (insert_sorted id v es)

Within-before : (l : Layout) (a : Item) (c : Cursors) → Within l (advance a c) → Within l c
Within-before l a c w = record {
  inodes = omega (arith, w.inodes);
  hashes = omega (arith, w.hashes);
  cells = omega (arith, w.cells);
  bytes = omega (arith, w.bytes);
  paths = omega (arith, w.paths);
}

pub add_inode-keyed :
    (maps : ℕ → ℕ) (isroot : Bool) (a : Item) (l : Layout) (b₀ b : BplusIndex) (mode : ℕ)
    (es : List (Str × ℕ))
    → not b₀.has_root ≡ isroot
    → opened maps isroot b₀ ≡ ok b
    → b.has_root ≡ true
    → Places l b
    → IsItem a mode
    → Within l (advance a (cursors b))
    → KeyStep maps isroot l a mode es b
    → (b' : BplusIndex) × (add_inode maps a.inode a.dirty_blocks a.block_mtime b₀ ≡ ok b')
      × Added l a es (cursors b) (mem_of b) b'
unfolding KeyStep
add_inode-keyed maps isroot a l b₀ b mode es h e rooted p it w step =
    let c : Cursors = cursors b in
    let before : Within l c = Within-before l a c w in
    let b_named : BplusIndex = named (l.paths + c.path) (l.hashes + c.hashes) a.inode b in
    let wrote =
      add_blocks_of-Wrote l.cells l.bytes a.block_mtime a.dirty_blocks b_named it.fit
        (omega (arith, w.cells)) (omega (arith, w.bytes)) in
    let (n', keyed_ok, leaf) = step wrote.cells wrote.bytes in
    let r : Rooted = filled_in l a mode wrote.cells wrote.bytes b in
    let r' : Rooted = record r { mem = put_node r.mem.header.root n' r.mem } in
    let b₁ : BplusIndex =
      with_blocks wrote.cells wrote.bytes (c.bytes + bytes_of a.dirty_blocks)
        (c.blocks + length a.dirty_blocks) b_named in
    (
      finished a c b₁ r',
      add_inode-steps maps isroot a l b₀ b b₁ r' mode h e p it before (omega (arith, w.paths))
          wrote.ran keyed_ok,
      record {
        ready = record {
          places = record {
            inodes = p.inodes;
            bytes = p.bytes;
            cells = p.cells;
            hashes = p.hashes;
            paths = p.paths;
            root = p.root;
            counted = p.counted;
            listed = p.listed;
          };
          has_root = rooted;
          leaf = leaf;
        };
        moved = refl;
        laid = record {
          mode = mode;
          has_mode = it.moded;
          cell =
              find-insert_self (l.inodes + inode_size * c.inodes) (cell_of l c a mode)
                (mem_of b).inodes;
          path = find-insert_self (l.paths + c.path) a.inode.path (mem_of b).paths;
          blocks = wrote.laid;
        };
        keeps = record {
          inodes = Keeps-insert _ _ (cell_of l c a mode) (mem_of b).inodes (omega arith);
          cells = wrote.keeps_cells;
          bytes = wrote.keeps_bytes;
          paths = Keeps-insert _ _ a.inode.path (mem_of b).paths (omega arith);
        };
      },
    )
