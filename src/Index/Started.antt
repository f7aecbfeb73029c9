-- ===== src/Index/Started.antt =====
-- The file that the first `add_inode` of a tree lays out.
use zippy_fs.Common.{
  ℕ, ◌+◌, ◌*◌, ◌%◌, ◌^◌, ◌<◌, ◌≡◌, ◌≢◌, refl, ◌∙◌, ap, true, some, List, [], ◌∷◌, ◌++◌, length, ok,
  arith, or_fault, null_deref,
}
use zippy_fs.Common.Map.{find, insert, nat_key}
use zippy_fs.Tire.{TireFire, get_tire}
use zippy_fs.Tire.Regions
use zippy_fs.Tire.Regions.{Holds, sum, get_tire_lem}
use zippy_fs.Tire.Requests.{make-Holds}
use zippy_fs.Index.Memory.{
  Mem, Node, zero_node, node_at, no_offset, header_size, node_size, inode_size, block_data_size,
  hash_size, place_of, allocate,
}
use zippy_fs.Index.Add.{BplusIndex, make, start, mem_of, empty_mem}

-- How many inodes the file is for, and where its arrays begin.
pub record Layout : Type 0 where
  pub count : ℕ
  pub inodes : ℕ
  pub bytes : ℕ
  pub cells : ℕ
  pub hashes : ℕ
  pub paths : ℕ

-- The header and the root take 608 bytes.
unfoldable pub layout : ℕ → ℕ → ℕ → ℕ → Layout
layout num_ents block_size num_blocks path_size = record {
  count = num_ents;
  inodes = 608;
  bytes = 608 + inode_size * num_ents;
  cells = 608 + inode_size * num_ents + block_size;
  hashes = 608 + inode_size * num_ents + block_size + block_data_size * num_blocks;
  paths =
      608
      + inode_size * num_ents
      + block_size
      + block_data_size * num_blocks
      + hash_size * num_ents;
}

-- The arrays are there, and the root.
pub record Places (l : Layout) (b : BplusIndex) : Type 0 where
  pub inodes : place_of b.inode_arr_idx (mem_of b) ≡ ok l.inodes
  pub bytes : place_of b.block_arr_idx (mem_of b) ≡ ok l.bytes
  pub cells : place_of b.bd_arr_idx (mem_of b) ≡ ok l.cells
  pub hashes : place_of b.hash_arr_idx (mem_of b) ≡ ok l.hashes
  pub paths : place_of b.path_arr_idx (mem_of b) ≡ ok l.paths
  pub root : place_of b.rooted.rootidx (mem_of b) ≡ ok (mem_of b).header.root
  pub counted : (mem_of b).header.num_inodes ≡ l.count
  pub listed : (mem_of b).header.inode_list ≡ l.inodes

-- A request for memory.
allocate-Holds :
    (maps : ℕ → ℕ) (size : ℕ) (ns : List ℕ) (m : Mem)
    → ((i : ℕ) → maps i ≢ 0)
    → Holds ns m.tire
    → sum ns + size < 2 ^ 63
    → length ns + 1 < 2 ^ 64
    → (t : TireFire) × (allocate maps size m ≡ (length ns, record m { tire = t }))
      × Holds (ns ++ (size ∷ [])) t
unfolding allocate
allocate-Holds maps size ns m mapped v small few =
    let t : TireFire = (get_tire (maps m.tire.latest_index) size m.tire).1 in
    let (e, at, v') =
      get_tire_lem ns size (maps m.tire.latest_index) m.tire v (mapped m.tire.latest_index) small
        few in
    (t, ap {B = ℕ × Mem} (λ i. (i, record m { tire = t })) e, v')

-- The root before it has its key.
abbrev pub bare_root : Node
bare_root = record zero_node { is_leaf = true; num_keys = 1; parent = no_offset }

-- The file with nothing but its header and its root.
abbrev pub laid_out : ℕ → TireFire → Mem
laid_out num_ents t = record empty_mem {
  tire = t;
  header = record { num_inodes = num_ents; inode_list = 608; root = 24 };
  nodes = (24, bare_root) ∷ [];
}

abbrev pub started : ℕ → ℕ → ℕ → ℕ → TireFire → BplusIndex
started num_ents block_size num_blocks path_size t =
    record (make num_ents block_size num_blocks path_size) {
      has_root = true;
      rooted = record { mem = laid_out num_ents t; rootidx = 1 };
      headeridx = 0;
      inode_arr_idx = 2;
      block_arr_idx = 3;
      bd_arr_idx = 4;
      hash_arr_idx = 5;
      path_arr_idx = 6;
    }

-- The calls of `get_tire` one after the other, each on the memory that the last one left.
start-ran :
    (maps : ℕ → ℕ) (n bs nb ps : ℕ) (t₁ t₂ t₃ t₄ t₅ t₆ t₇ : TireFire)
    → let node_put : TireFire → Mem =
        λ t. record empty_mem { tire = t; nodes = (24, bare_root) ∷ [] } in
      (allocate maps header_size empty_mem ≡ (0, record empty_mem { tire = t₁ }))
      → (allocate maps node_size (record empty_mem { tire = t₁ })
          ≡ (1, record empty_mem { tire = t₂ }))
      → (find 1 t₂.index_to_offset ≡ some 24)
      → (allocate maps (inode_size * n % 2 ^ 64) (node_put t₂) ≡ (2, node_put t₃))
      → (find 2 t₃.index_to_offset ≡ some 608)
      → (allocate maps bs (laid_out n t₃) ≡ (3, laid_out n t₄))
      → (allocate maps (nb * block_data_size % 2 ^ 64) (laid_out n t₄) ≡ (4, laid_out n t₅))
      → (allocate maps (n * hash_size % 2 ^ 64) (laid_out n t₅) ≡ (5, laid_out n t₆))
      → (allocate maps ps (laid_out n t₆) ≡ (6, laid_out n t₇))
      → start maps (make n bs nb ps) ≡ ok (started n bs nb ps t₇)
unfolding start make node_at find insert
start-ran maps n bs nb ps t₁ t₂ t₃ t₄ t₅ t₆ t₇ e₁ e₂ f₁ e₃ f₂ e₄ e₅ e₆ e₇ =
    rw (start, e₁, e₂, f₁, e₃, f₂, e₄, e₅, e₆, e₇) refl

placed :
    (ns : List ℕ) (t : TireFire) (i at : ℕ)
    → Holds ns t
    → i < length ns
    → Regions.start ns i ≡ at
    → find i t.index_to_offset ≡ some at
placed ns t i at v h e = v.offsets i h ∙ ap some e

-- The first call makes the file, when there is room for all of it and the system maps it somewhere
-- each time.
pub start-Places :
    (maps : ℕ → ℕ) (n bs nb ps : ℕ)
    → ((i : ℕ) → maps i ≢ 0)
    → 608 + inode_size * n + bs + block_data_size * nb + hash_size * n + ps < 2 ^ 63
    → (t : TireFire) × (start maps (make n bs nb ps) ≡ ok (started n bs nb ps t))
      × Places (layout n bs nb ps) (started n bs nb ps t)
unfolding layout make
start-Places maps n bs nb ps mapped small =
    let node_put : TireFire → Mem =
      λ t. record empty_mem { tire = t; nodes = (24, bare_root) ∷ [] } in
    let z₁ : inode_size * n % 2 ^ 64 ≡ inode_size * n = omega arith in
    let z₂ : nb * block_data_size % 2 ^ 64 ≡ block_data_size * nb = omega arith in
    let z₃ : n * hash_size % 2 ^ 64 ≡ hash_size * n = omega arith in
    let (t₁, e₁, v₁) =
      allocate-Holds maps header_size [] empty_mem mapped make-Holds (omega arith) (omega arith) in
    let (t₂, e₂, v₂) =
      allocate-Holds maps node_size (24 ∷ []) (record empty_mem { tire = t₁ }) mapped v₁
        (omega arith) (omega arith) in
    let (t₃, e₃, v₃) =
      allocate-Holds maps (inode_size * n) (24 ∷ 584 ∷ []) (node_put t₂) mapped v₂ (omega arith)
        (omega arith) in
    let n₃ : List ℕ = 24 ∷ 584 ∷ inode_size * n ∷ [] in
    let (t₄, e₄, v₄) =
      allocate-Holds maps bs n₃ (laid_out n t₃) mapped v₃ (omega arith) (omega arith) in
    let n₄ : List ℕ = 24 ∷ 584 ∷ inode_size * n ∷ bs ∷ [] in
    let (t₅, e₅, v₅) =
      allocate-Holds maps (block_data_size * nb) n₄ (laid_out n t₄) mapped v₄ (omega arith)
        (omega arith) in
    let n₅ : List ℕ = 24 ∷ 584 ∷ inode_size * n ∷ bs ∷ block_data_size * nb ∷ [] in
    let (t₆, e₆, v₆) =
      allocate-Holds maps (hash_size * n) n₅ (laid_out n t₅) mapped v₅ (omega arith)
        (omega arith) in
    let n₆ : List ℕ = 24 ∷ 584 ∷ inode_size * n ∷ bs ∷ block_data_size * nb ∷ hash_size * n ∷ [] in
    let (t₇, e₇, v₇) =
      allocate-Holds maps ps n₆ (laid_out n t₆) mapped v₆ (omega arith) (omega arith) in
    let n₇ : List ℕ =
      24 ∷ 584 ∷ inode_size * n ∷ bs ∷ block_data_size * nb ∷ hash_size * n ∷ ps ∷ [] in
    (
      t₇,
      start-ran maps n bs nb ps t₁ t₂ t₃ t₄ t₅ t₆ t₇ e₁ e₂
          (placed (24 ∷ 584 ∷ []) t₂ 1 24 v₂ (omega arith) refl)
          (ap (λ z. allocate maps z (node_put t₂)) z₁ ∙ e₃)
          (placed n₃ t₃ 2 608 v₃ (omega arith) refl) e₄
          (ap (λ z. allocate maps z (laid_out n t₄)) z₂ ∙ e₅)
          (ap (λ z. allocate maps z (laid_out n t₅)) z₃ ∙ e₆) e₇,
      record {
        inodes = at_place n₇ t₇ 2 608 v₇ (omega arith) (omega arith);
        bytes = at_place n₇ t₇ 3 _ v₇ (omega arith) (omega arith);
        cells = at_place n₇ t₇ 4 _ v₇ (omega arith) (omega arith);
        hashes = at_place n₇ t₇ 5 _ v₇ (omega arith) (omega arith);
        paths = at_place n₇ t₇ 6 _ v₇ (omega arith) (omega arith);
        root = at_place n₇ t₇ 1 24 v₇ (omega arith) refl;
        counted = refl;
        listed = refl;
      },
    )
  where
    at_place :
        (ns : List ℕ) (t : TireFire) (i at : ℕ)
        → Holds ns t
        → i < length ns
        → Regions.start ns i ≡ at
        → or_fault (find i t.index_to_offset) null_deref ≡ ok at
    at_place ns t i at v h e = ap (λ o. or_fault o null_deref) (placed ns t i at v h e)
