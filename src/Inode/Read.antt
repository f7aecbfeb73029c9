-- ===== src/Inode/Read.antt =====
-- `Inode::read` of inode.cpp against the contents of a file.
use zippy_fs.Common.{
  ℕ, zero, suc, ◌+◌, ◌-◌, ◌*◌, ◌/◌, ◌%◌, ◌^◌, ◌≤◌, ◌<◌, ◌≡◌, refl, sym, ap, ◌∙◌, Bool, true, false,
  List, [], ◌∷◌, ◌++◌, arith, length, take, drop, flatten, ok, length-append, length-take, take-nil,
  append_assoc, append-nil, if◌then◌else◌, ltb, take-append, inl, inr, dec_lt, dec_le,
  drop-append_left, drop-all, drop-nil, length-drop, ◌⊎◌,
}
use zippy_fs.Common.Map.{nat_key}
use zippy_fs.Block.{physical_size}
use zippy_fs.Inode.{Heap, BlockMap, Inode, copy_out, read_loop, read, to_int}
use zippy_fs.Inode.Contents.{
  Holds, Chunks, Packed, IsFile, Chunks-drop, Packed-drop, drop-flatten, actual_size-length,
}

-- The inner loop copies what there is, up to the size that was asked for.
copy_out-take :
    (bytes : List ℕ) (ii blksz size : ℕ) (out : List ℕ)
    → ii + length bytes ≤ blksz
    → copy_out bytes ii blksz size out ≡ out ++ take (size - length out) bytes
unfolding copy_out
copy_out-take [] ii blksz size out h = sym (rw (take-nil (size - length out)) (append-nil out))
copy_out-take (b ∷ bytes) ii blksz size out h = elim (dec_lt (length out) size) [
  | yes more ↦
      let e : size - length out ≡ suc (size - length (out ++ b ∷ [])) =
        omega (arith, length-append out (b ∷ [])) in
      rw e (
        ground (
          arith,
          copy_out-take bytes (ii + 1) blksz size (out ++ b ∷ []),
          append_assoc out (b ∷ []) (take (size - length (out ++ b ∷ [])) bytes),
        ))
  | no full ↦ let e : size - length out ≡ 0 = omega arith in rw (e, append-nil) (ground arith)
]

-- Two copies in a row are one copy of the joined data.
take_joined :
    (size : ℕ) (out d rest : List ℕ)
    → let out' = out ++ take (size - length out) d in
      out' ++ take (size - length out') rest ≡ out ++ take (size - length out) (d ++ rest)
take_joined size out d rest =
    let n : ℕ = size - length out in
    let e : size - length (out ++ take n d) ≡ n - length d =
      omega (arith, length-append out (take n d), length-take n d) in
    rw (e, take-append n d rest) (append_assoc out (take n d) (take (n - length d) rest))

-- The first copy starts inside the data, or behind them.
copy_out-drop :
    (amt size : ℕ) (d : List ℕ)
    → copy_out (drop amt d) amt (length d) size [] ≡ take size (drop amt d)
unfolding copy_out
copy_out-drop amt size d = elim (dec_le amt (length d)) [
  | yes inside ↦
      let e : size - 0 ≡ size = omega arith in
      copy_out-take (drop amt d) amt (length d) size [] (omega (arith, length-drop amt d))
      ∙ ap (λ k. take k (drop amt d)) e
  | no behind ↦ rw (drop-all amt d (omega arith)) (sym (take-nil size))
]

drop-chunk :
    (amt : ℕ) (d : List ℕ) (ds : List (List ℕ))
    → Packed (d ∷ ds)
    → amt < physical_size
    → drop amt d ++ flatten ds ≡ drop amt (d ++ flatten ds)
drop-chunk amt d [] p h = rw (append-nil d, append-nil (drop amt d))
drop-chunk amt d (e ∷ ds) p h = sym (drop-append_left amt d (flatten (e ∷ ds)) (omega arith))

module _ (h : Heap) (m : BlockMap) (size offset : ℕ) where
  -- A round of the outer loop at a block that is there.
  read_loop-Holds :
      (fuel i : ℕ) (offsetted : Bool) (amt : ℕ) (out d : List ℕ)
      → (s : Holds h m i d) → i < length m
      → length out < size
      → i + 1 < 2 ^ 32
      → amt ≡ (
          if offsetted
          then 0
          else if ltb offset physical_size
          then offset
          else offset % physical_size)
      → read_loop (suc fuel) h m size offset offsetted i out
        ≡ read_loop fuel h m size offset true
            (suc i)
            (copy_out (drop amt d) amt (length d) size out)
  unfolding read_loop
  read_loop-Holds fuel i offsetted amt out d s hi ho hw ha =
      let e : (i + 1) % 2 ^ 32 ≡ suc i = omega arith in
      ground (arith, s.found, s.stored, s.seen, actual_size-length s)

  read_loop-stop :
      (fuel i : ℕ) (offsetted : Bool) (out : List ℕ)
      → (length m ≤ i) ⊎ (size ≤ length out)
      → read_loop (suc fuel) h m size offset offsetted i out ≡ ok out
  unfolding read_loop
  read_loop-stop fuel i offsetted out stop = ground arith

  -- The rounds after the first append what follows, up to the size asked for.
  read_loop-Chunks :
      (fuel i : ℕ) (ds : List (List ℕ)) (out : List ℕ)
      → Chunks h m i ds
      → length m ≡ i + length ds
      → length m < 2 ^ 32
      → length ds < fuel
      → read_loop fuel h m size offset true i out
        ≡ ok (out ++ take (size - length out) (flatten ds))
  read_loop-Chunks zero i ds out c hm hw hf = absurd (omega arith)
  read_loop-Chunks (suc fuel) i [] out c hm hw hf =
      rw (take-nil (size - length out), append-nil out)
        (read_loop-stop fuel i true out (inl (omega arith)))
  read_loop-Chunks (suc fuel) i (d ∷ ds) out (s, c) hm hw hf = elim (dec_lt (length out) size) [
    | yes more ↦
        let out' : List ℕ = out ++ take (size - length out) d in
        read_loop-Holds fuel i true 0 out d s (omega arith) more (omega arith) refl
        ∙ ap (read_loop fuel h m size offset true (suc i))
            (copy_out-take d 0 (length d) size out (omega arith))
        ∙ read_loop-Chunks fuel (suc i) ds out' c (omega arith) hw (omega arith)
        ∙ ap ok (take_joined size out d (flatten ds))
    | no full ↦
        let e : size - length out ≡ 0 = omega arith in
        rw (e, append-nil out) (read_loop-stop fuel i true out (inr (omega arith)))
  ]

  -- The first round starts inside its block.
  read_loop-first :
      (i amt : ℕ) (ds : List (List ℕ))
      → Chunks h m i ds
      → Packed ds
      → length m - i ≡ length ds
      → length m < 2 ^ 32
      → amt < physical_size
      → amt ≡ (if ltb offset physical_size then offset else offset % physical_size)
      → read_loop (suc (length m)) h m size offset false i []
        ≡ ok (take size (drop amt (flatten ds)))
  read_loop-first i amt [] c p hm hw ha he =
      rw (drop-nil amt, take-nil size) (read_loop-stop (length m) i false [] (inl (omega arith)))
  read_loop-first i amt (d ∷ ds) (s, c) p hm hw ha he = elim (dec_lt 0 size) [
    | yes more ↦
        let first : List ℕ = take size (drop amt d) in
        let e : size - 0 ≡ size = omega arith in
        let joined : first ++ take (size - length first) (flatten ds)
            ≡ take size (drop amt d ++ flatten ds) =
          rw e at (take_joined size [] (drop amt d) (flatten ds)) in
        read_loop-Holds (length m) i false amt [] d s (omega arith) more (omega arith) he
        ∙ ap (read_loop (length m) h m size offset true (suc i)) (copy_out-drop amt size d)
        ∙ read_loop-Chunks (length m) (suc i) ds first c (omega arith) hw (omega arith)
        ∙ ap ok (joined ∙ ap (take size) (drop-chunk amt d ds p ha))
    | no full ↦
        let e : size ≡ 0 = omega arith in
        read_loop-stop (length m) i false [] (inr (omega arith))
        ∙ ap (λ k. ok (take k (drop amt (flatten (d ∷ ds))))) (sym e)
  ]

-- Reading `size` bytes at `offset`, which is below 2 ^ 44, from a file without gaps and of less
-- than 2 ^ 32 blocks returns `size`, and puts into the
-- buffer the bytes of the file from `offset` on, as many as there are up to `size`.
pub read-take-drop :
    {h : Heap} (i : Inode) {ds : List (List ℕ)} (size offset : ℕ)
    → IsFile h i.blocks ds
    → length i.blocks < 2 ^ 32
    → offset < 2 ^ 44
    → read size offset h i ≡ ok (to_int size, take size (drop offset (flatten ds)))
unfolding read
read-take-drop {h} i {ds} size offset v hn ho =
    let k : ℕ = offset / physical_size in
    let r : ℕ = offset % physical_size in
    let ek : k % 2 ^ 32 ≡ k = omega arith in
    let el : length i.blocks + 1 ≡ suc (length i.blocks) = omega arith in
    let eo : k * physical_size + r ≡ offset = omega arith in
    let z : 0 + k ≡ k = omega arith in
    let c : Chunks h i.blocks k (drop k ds) = rw z at (Chunks-drop h i.blocks 0 k ds v.chunks) in
    let got =
      read_loop-first h i.blocks size offset k r (drop k ds) c (Packed-drop k ds v.packed)
        (omega (arith, v.count, length-drop k ds)) hn (omega arith) (ground arith) in
    rw (ek, el, got)
      (ap (λ xs. ok (to_int size, take size xs))
        (sym (drop-flatten k r ds v.packed) ∙ ap (λ n. drop n (flatten ds)) eo))
