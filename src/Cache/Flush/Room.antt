-- ===== src/Cache/Flush/Room.antt =====
-- The room that `flush_to_disk` asks for, against what the inodes need that it adds.
use zippy_fs.Common.{
  ℕ, ◌+◌, ◌≤◌, ◌≡◌, ◌≢◌, refl, ap, subst, true, false, List, [], ◌∷◌, Str, str_beq, str_beq_iff,
  length, arith, Bool-cases, inl, inr,
}
use zippy_fs.Common.Map.{find, str_key}
use zippy_fs.Util.Names.{c_str}
use zippy_fs.Inode.{Heap, BlockMap}
use zippy_fs.Cache.State.{inner}
use zippy_fs.Cache.Flush.Sizes.{entries, map_bytes, all_bytes}

-- No path has this id, and no two have the same.
abbrev pub NoId : Str → List (Str × Str) → Type 0
NoId id [] = Unit {0}
NoId id ((path, id') ∷ m) = (c_str id ≢ c_str id') × NoId id m

abbrev pub DistinctIds : List (Str × Str) → Type 0
DistinctIds [] = Unit {0}
DistinctIds ((path, id) ∷ m) = NoId id m × DistinctIds m

-- The weight of the maps of the ids, and of all maps.
abbrev pub weigh : (BlockMap → ℕ) → List (Str × Str) → List (Str × BlockMap) → ℕ
weigh g [] ms = 0
weigh g ((path, id) ∷ idx) ms = g (inner id ms) + weigh g idx ms

abbrev total : (BlockMap → ℕ) → List (Str × BlockMap) → ℕ
total g [] = 0
total g ((id, m) ∷ ms) = g m + total g ms

weigh-nil : (g : BlockMap → ℕ) (idx : List (Str × Str)) → g [] ≡ 0 → weigh g idx [] ≡ 0
unfolding find
weigh-nil g [] z = refl
weigh-nil g ((path, id) ∷ idx) z = omega (arith, weigh-nil g idx z)

inner-same :
    (id k : Str) (m : BlockMap) (ms : List (Str × BlockMap))
    → str_beq id k ≡ true
    → inner id ((k, m) ∷ ms) ≡ m
unfolding find
inner-same id k m ms h = rw (inner, h) refl

inner-other :
    (id k : Str) (m : BlockMap) (ms : List (Str × BlockMap))
    → str_beq id k ≡ false
    → inner id ((k, m) ∷ ms) ≡ inner id ms
unfolding find
inner-other id k m ms h = rw (inner, h) refl

-- A map whose id is not among them.
weigh-other :
    (g : BlockMap → ℕ) (k : Str) (m : BlockMap) (idx : List (Str × Str))
    (ms : List (Str × BlockMap))
    → NoId k idx
    → weigh g idx ((k, m) ∷ ms) ≡ weigh g idx ms
weigh-other g k m [] ms apart = refl
weigh-other g k m ((path, id) ∷ idx) ms apart =
    let other : str_beq id k ≡ false = ground (arith, str_beq_iff id k, apart.0) in
    omega (arith, ap g (inner-other id k m ms other), weigh-other g k m idx ms apart.1)

weigh-cons :
    (g : BlockMap → ℕ) (k : Str) (m : BlockMap) (idx : List (Str × Str))
    (ms : List (Str × BlockMap))
    → DistinctIds idx
    → weigh g idx ((k, m) ∷ ms) ≤ g m + weigh g idx ms
weigh-cons g k m [] ms d = omega arith
weigh-cons g k m ((path, id) ∷ idx) ms d = elim (Bool-cases (str_beq id k)) [
  | inl same ↦
      let here : NoId k idx = subst (λ j. NoId j idx) ((str_beq_iff id k).0 same) d.0 in
      omega (arith, ap g (inner-same id k m ms same), weigh-other g k m idx ms here)
  | inr other ↦ omega (arith, ap g (inner-other id k m ms other), weigh-cons g k m idx ms d.1)
]

-- Different ids have no more in their maps than there is in all of them.
pub weigh-total :
    (g : BlockMap → ℕ) (idx : List (Str × Str)) (ms : List (Str × BlockMap))
    → g [] ≡ 0
    → DistinctIds idx
    → weigh g idx ms ≤ total g ms
weigh-total g idx [] z d = omega (arith, weigh-nil g idx z)
weigh-total g idx ((k, m) ∷ ms) z d =
    omega (arith, weigh-cons g k m idx ms d, weigh-total g idx ms z d)

total-entries : (ms : List (Str × BlockMap)) → total length ms ≡ entries ms
total-entries [] = refl
total-entries ((id, m) ∷ ms) = omega (arith, total-entries ms)

total-all_bytes : (h : Heap) (ms : List (Str × BlockMap)) → total (map_bytes h) ms ≡ all_bytes h ms
total-all_bytes h [] = refl
total-all_bytes h ((id, m) ∷ ms) = omega (arith, total-all_bytes h ms)

pub weigh-entries :
    (idx : List (Str × Str)) (ms : List (Str × BlockMap))
    → DistinctIds idx
    → weigh length idx ms ≤ entries ms
weigh-entries idx ms d = omega (arith, weigh-total length idx ms refl d, total-entries ms)

pub weigh-all_bytes :
    (h : Heap) (idx : List (Str × Str)) (ms : List (Str × BlockMap))
    → DistinctIds idx
    → weigh (map_bytes h) idx ms ≤ all_bytes h ms
weigh-all_bytes h idx ms d =
    omega (arith, weigh-total (map_bytes h) idx ms refl d, total-all_bytes h ms)
