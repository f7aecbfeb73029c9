-- ===== src/Index/Split.antt =====
-- `split_insert_node` of bplus_index.cpp.
use zippy_fs.Common.{
  ℕ, zero, suc, ◌+◌, ◌-◌, Bool, true, false, Result, ok, err, no_fuel, ◌>>=◌, str_lt, set, nat_beq,
  if◌then◌else◌,
}
use zippy_fs.Common.Splice.{copy_elem}
use zippy_fs.Common.Map.{nat_key}
use zippy_fs.Index.Memory.{
  Mem, Node, max_keys, no_offset, node_size, node_at, put_node, text_at, place_of, allocate,
  at_index,
}
use zippy_fs.Index.Nodes.{insert_into_node}

-- `(ORDER - 1) / 2`.
abbrev pub med_idx : ℕ
med_idx = 11

-- The loop that splits a leaf: the entries from `ii` on go to the new node.
unfoldable pub move_entries : ℕ → ℕ → ℕ → Node × Node → Node × Node
move_entries zero ii cur (left, right) = (left, right)
move_entries (suc rounds) ii cur (left, right) = move_entries rounds (suc ii) (suc cur) (
  record left { keys = set left.keys ii no_offset },
  record right {
    num_keys = right.num_keys + 1;
    keys = copy_elem left.keys ii cur right.keys;
    children = copy_elem left.children ii cur right.children;
    values = copy_elem left.values ii cur right.values;
  },
)

-- The two halves of a leaf.
unfoldable pub split_leaf : Node → Node → Node × Node
unfolding move_entries
split_leaf nnode right =
    let (left', right') = move_entries (max_keys - med_idx) med_idx 0 (nnode, right) in
    (record left' { num_keys = med_idx }, right')

-- `child->parent = …`.
abbrev pub set_parent : ℕ → ℕ → Mem → Mem
set_parent offset parent m = put_node offset (record (node_at offset m) { parent = parent }) m

-- The loop that splits an inner node. It works on the memory, since it also writes to the children.
unfoldable pub move_children : ℕ → ℕ → ℕ → ℕ → ℕ → Mem → Result Mem
move_children zero ii cur nodeoffset rightoffset m = ok m
move_children (suc rounds) ii cur nodeoffset rightoffset m = do
  let nnode = node_at nodeoffset m
  let right = node_at rightoffset m
  child ← at_index nnode.children ii
  let m₁ =
      put_node rightoffset
        (record right {
          num_keys = right.num_keys + 1;
          keys = copy_elem nnode.keys ii cur right.keys;
          children = copy_elem nnode.children ii cur right.children;
        })
        m
  let m₂ = set_parent child rightoffset m₁
  let left = node_at nodeoffset m₂
  move_children rounds (suc ii) (suc cur) nodeoffset rightoffset (
      put_node nodeoffset
        (record left { keys = set left.keys ii no_offset; num_keys = left.num_keys - 1 }) m₂)

-- The branch for an inner node, up to the insertion.
unfoldable pub split_inner : ℕ → ℕ → Mem → Result Mem
unfolding move_children
split_inner nodeoffset rightoffset m = do
  let rounds = max_keys - med_idx - 1
  m₁ ← move_children rounds (med_idx + 1) 0 nodeoffset rightoffset m
  let right = node_at rightoffset m₁
  last ← at_index (node_at nodeoffset m₁).children max_keys
  let m₂ =
      set_parent last rightoffset
        (put_node rightoffset (record right { children = set right.children rounds last }) m₁)
  let left = node_at nodeoffset m₂
  let m₃ =
      put_node nodeoffset
        (record left { keys = set left.keys med_idx no_offset; num_keys = left.num_keys - 1 }) m₂
  ok (put_node rightoffset (record (node_at rightoffset m₃) { is_leaf = false }) m₃)

-- Both branches with the insertion into the half that the key belongs to.
unfoldable pub split_halves : Bool → ℕ → ℕ → ℕ → ℕ → Bool → ℕ → Mem → Result Mem
unfolding split_leaf split_inner
split_halves isparent nodeoffset rightoffset k v leftofmed targ m = elim isparent [
  | true ↦ (do
    m₁ ← split_inner nodeoffset rightoffset m
    target ← place_of targ m₁
    let half = if leftofmed then nodeoffset else rightoffset
    (at, m₂) ← insert_into_node half k v false target m₁
    ok (set_parent target half m₂))
  | false ↦ (do
    let (left, right) = split_leaf (node_at nodeoffset m) (node_at rightoffset m)
    let m₁ = put_node rightoffset right (put_node nodeoffset left m)
    (at, m₂) ←
        insert_into_node (if leftofmed then nodeoffset else rightoffset) k v false no_offset m₁
    ok m₂)
]

-- What the tree keeps beside its memory: the index of its root.
pub record Rooted : Type 0 where
  pub mem : Mem
  pub rootidx : ℕ

module _ (maps : ℕ → ℕ) where
  -- The branch that makes a new root over the two halves.
  unfoldable pub grow_root : ℕ → ℕ → ℕ → Mem → Result Rooted
  grow_root nodeoffset rightoffset nkey m = do
    let (nrootidx, m₁) = allocate maps node_size m
    nroot ← place_of nrootidx m₁
    let root = node_at nroot m₁
    let m₂ =
        put_node nroot
          (record root {
            parent = no_offset;
            num_keys = 1;
            is_leaf = false;
            keys = set root.keys 0 nkey;
            children = set (set root.children 0 nodeoffset) 1 rightoffset;
          })
          m₁
    let m₃ = set_parent nodeoffset nroot (set_parent rightoffset nroot m₂)
    ok (record {
      mem = record m₃ { header = record m₃.header { root = nroot } };
      rootidx = nrootidx;
    })

  -- `split_insert_node(nodeoffset, k, v, isparent, targ)`, whose result no caller looks at. It calls
  -- itself for the parent, so a round for each level is enough.
  unfoldable pub split_insert_node : ℕ → ℕ → ℕ → ℕ → Bool → ℕ → Rooted → Result Rooted
  unfolding split_halves grow_root
  split_insert_node zero nodeoffset k v isparent targ r = err no_fuel
  split_insert_node (suc fuel) nodeoffset k v isparent targ r =
      elim (nat_beq (node_at nodeoffset r.mem).num_keys max_keys) [
        | false ↦ ok r
        | true ↦ (do
          let (rightidx, m) = allocate maps node_size r.mem
          rightoffset ← place_of rightidx m
          let m₁ = put_node rightoffset (record (node_at rightoffset m) { is_leaf = true }) m
          med_key ← at_index (node_at nodeoffset m₁).keys med_idx
          let leftofmed = str_lt (text_at k m₁) (text_at med_key m₁)
          m₂ ← split_halves isparent nodeoffset rightoffset k v leftofmed targ m₁
          let paroff = (node_at nodeoffset m₂).parent
          first ← at_index (node_at rightoffset m₂).keys 0
          let nkey = if isparent then med_key else first
          elim (nat_beq paroff no_offset) [
            | true ↦ grow_root nodeoffset rightoffset nkey m₂
            | false ↦ elim (nat_beq (node_at paroff m₂).num_keys max_keys) [
              | true ↦
                  split_insert_node fuel paroff med_key no_offset true rightidx
                    (record r { mem = m₂ })
              | false ↦ (do
                (at, m₃) ← insert_into_node paroff nkey v false rightoffset m₂
                ok (record r { mem = set_parent rightoffset paroff m₃ }))
            ]
          ])
      ]
