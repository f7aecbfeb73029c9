-- ===== src/Cache/Write/Rounds.antt =====
-- The loop of `BlockCache::write` behind a file whose blocks are all full, round by round.
use zippy_fs.Common.{
  ℕ, zero, suc, ◌+◌, ◌-◌, ◌*◌, ◌%◌, ◌^◌, ◌≤◌, ◌<◌, min, ◌≡◌, refl, sym, ap, ◌∙◌, inl, Bool, true,
  List, [], ◌∷◌, ◌++◌, arith, length, take, drop, ok, length-append, length-take, length-drop,
  dec_lt, append_assoc, append-nil, take-add, subst, drop-drop,
}
use zippy_fs.Common.Map.{nat_key, str_key}
use zippy_fs.Block.{physical_size}
use zippy_fs.Util.Numbers.{Clock, later}
use zippy_fs.Inode.Contents.{IsFile}
use zippy_fs.Inode.Contents.Grow.{Full, Full-snoc, Grown, Grown-trans}
use zippy_fs.Cache.Write.{Writing, write_block, write_loop, round_size, round_offset, Result}
use zippy_fs.Cache.Write.Append.{Marked-trans, write_block-Appended, Marked, Same, Appended}

-- The bytes that two rounds add are the bytes of both.
take-drop-add :
    (a b done : ℕ) (buf : List ℕ)
    → take a (drop done buf) ++ take b (drop (done + a) buf) ≡ take (a + b) (drop done buf)
take-drop-add a b done buf = rw (← drop-drop a done buf) (sym (take-add a b (drop done buf)))

-- What the loop is given, and what it has done, `done` bytes into the buffer.
pub record Ready (size offset num_blocks idx done : ℕ) (buf : List ℕ) (w : Writing)
    (ds : List (List ℕ)) : Type 0 where
  pub file : IsFile w.heap w.inode.blocks ds
  pub full : done < size → Full ds
  pub here : idx ≡ length ds
  pub enough : size ≤ length buf
  pub small : size + offset + physical_size ≤ 2 ^ 44
  pub blocks :
      (size + offset ≤ num_blocks * physical_size)
      × (num_blocks * physical_size < size + offset + physical_size)
  pub behind : offset ≤ idx * physical_size
  pub at : done ≡ min size (idx * physical_size - offset)

-- The state of the loop behind a round.
record Round (clock : Clock) (size offset num_blocks idx done amt : ℕ) (buf : List ℕ) (w : Writing)
    (ds : List (List ℕ)) : Type 0 where
  next : Writing
  pub ran : write_block clock buf done idx (round_size size done) amt w ≡ ok next
  ready :
      Ready size offset num_blocks
        (suc idx)
        (done + round_size size done)
        buf
        next
        (ds ++ take (round_size size done) (drop done buf) ∷ [])
  grown : Grown w.heap next.heap
  same : Same w.inode next.inode
  marked : Marked w next

write_loop-Round :
    (clock : Clock) (size offset num_blocks idx done amt : ℕ) (buf : List ℕ) (w : Writing)
    (ds : List (List ℕ))
    → Ready size offset num_blocks idx done buf w ds
    → idx < num_blocks
    → Round clock size offset num_blocks idx done amt buf w ds
write_loop-Round clock size offset num_blocks idx done amt buf w ds r more =
    let bs : ℕ = round_size size done in
    let eb : bs ≡ min physical_size (size - done) = ground arith in
    let chunk : List ℕ = take bs (drop done buf) in
    let behind : done ≡ idx * physical_size - offset = omega (arith, r.at, r.blocks, r.behind) in
    let left : done < size = omega (arith, r.blocks, r.behind) in
    let fits : done + bs ≤ length buf = omega (arith, r.enough) in
    let (w', ran, file, grown, same, marked) =
      write_block-Appended clock buf done idx bs amt w ds r.file (r.full left) r.here (omega arith)
        fits in
    let sized : length chunk ≡ bs =
      omega (arith, length-take bs (drop done buf), length-drop done buf) in
    record {
      next = w';
      ran = ran;
      ready = record {
        file = file;
        full = λ h. Full-snoc ds chunk (r.full left) (omega arith);
        here = omega (arith, r.here, length-append ds (chunk ∷ []));
        enough = r.enough;
        small = r.small;
        blocks = r.blocks;
        behind = omega (arith, r.behind);
        at = omega (arith, r.behind);
      };
      grown = grown;
      same = same;
      marked = marked;
    }

-- What the loop returns.
pub record Looped (size done : ℕ) (buf : List ℕ) (w : Writing) (ds : List (List ℕ))
    (out : Result (ℕ × ℕ × Writing)) : Type 0 where
  pub curr : ℕ
  pub last : ℕ
  pub final : Writing
  pub ran : out ≡ ok (curr, last, final)
  pub total : curr + last ≡ size
  pub result : Appended w final ds (take (size - done) (drop done buf))

pub write_loop-go :
    (fuel : ℕ) (clock : Clock) (buf : List ℕ) (size offset num_blocks idx curr bs : ℕ)
    (offsetted : Bool) (w w' : Writing)
    → idx < num_blocks
    → curr + bs < 2 ^ 64
    → idx + 1 < 2 ^ 32
    → write_block clock buf
        (curr + bs)
        idx
        (round_size size (curr + bs))
        (round_offset offsetted offset)
        w
      ≡ ok w'
    → write_loop (suc fuel) clock buf size offset num_blocks idx curr bs offsetted w
      ≡ write_loop fuel
          (later 2 clock)
          buf
          size
          offset
          num_blocks
          (suc idx)
          (curr + bs)
          (round_size size (curr + bs))
          true
          w'
unfolding write_loop
write_loop-go fuel clock buf size offset num_blocks idx curr bs offsetted w w' more hc hi ran =
    let ec : (curr + bs) % 2 ^ 64 ≡ curr + bs = omega arith in
    let ei : (idx + 1) % 2 ^ 32 ≡ suc idx = omega arith in ground arith

joined :
    (size done : ℕ) (buf : List ℕ)
    → done < size
    → size < 2 ^ 63
    → take (round_size size done) (drop done buf)
        ++ take (size - (done + round_size size done)) (drop (done + round_size size done) buf)
      ≡ take (size - done) (drop done buf)
joined size done buf hd hs =
    let bs : ℕ = round_size size done in
    let e : bs + (size - (done + bs)) ≡ size - done = ground arith in
    take-drop-add bs (size - (done + bs)) done buf ∙ ap (λ k. take k (drop done buf)) e

Appended-nil :
    (size done : ℕ) (buf : List ℕ) (w : Writing) (ds : List (List ℕ))
    → IsFile w.heap w.inode.blocks ds
    → size ≤ done
    → Appended w w ds (take (size - done) (drop done buf))
Appended-nil size done buf w ds v h =
    let e : size - done ≡ 0 = omega arith in
    record {
      added = [];
      file = rw append-nil v;
      contents = rw e;
      grown = (omega arith, λ p hp. refl);
      same = (refl, refl);
      marked = λ j. inl (refl, refl);
    }

Appended-cons :
    (w w' w'' : Writing) (ds : List (List ℕ)) (d bytes : List ℕ)
    → Grown w.heap w'.heap
    → Same w.inode w'.inode
    → Marked w w'
    → Appended w' w'' (ds ++ d ∷ []) bytes
    → Appended w w'' ds (d ++ bytes)
Appended-cons w w' w'' ds d bytes g s m a = record {
  added = d ∷ a.added;
  file = rw append_assoc at a.file;
  contents = ap (λ r. d ++ r) a.contents;
  grown = Grown-trans w.heap w'.heap w''.heap g a.grown;
  same = (a.same.0 ∙ s.0, a.same.1 ∙ s.1);
  marked = Marked-trans w w' w'' m a.marked;
}

pub write_loop-Looped :
    (fuel : ℕ) (clock : Clock) (buf : List ℕ) (size offset num_blocks idx curr bs : ℕ)
    (offsetted : Bool) (w : Writing) (ds : List (List ℕ))
    → Ready size offset num_blocks idx (curr + bs) buf w ds
    → idx ≤ num_blocks
    → num_blocks < idx + fuel
    → Looped size
        (curr + bs)
        buf
        w
        ds
        (write_loop fuel clock buf size offset num_blocks idx curr bs offsetted w)
unfolding write_loop
write_loop-Looped zero clock buf size offset num_blocks idx curr bs offsetted w ds r hi hf =
    absurd (omega arith)
write_loop-Looped (suc fuel) clock buf size offset num_blocks idx curr bs offsetted w ds r hi hf =
    elim (dec_lt idx num_blocks) [
      | no past ↦ record {
        curr = curr;
        last = bs;
        final = w;
        ran = ground arith;
        total = omega (arith, r.at, r.blocks, r.behind);
        result =
            Appended-nil size (curr + bs) buf w ds r.file (omega (arith, r.at, r.blocks, r.behind));
      }
      | yes more ↦
          let done : ℕ = curr + bs in
          let bs' : ℕ = round_size size done in
          let one =
            write_loop-Round clock size offset num_blocks idx done (round_offset offsetted offset)
              buf w ds r more in
          let rest =
            write_loop-Looped fuel (later 2 clock) buf size offset num_blocks (suc idx) done bs'
              true one.next (ds ++ take bs' (drop done buf) ∷ []) one.ready (omega arith)
              (omega arith) in
          record {
            curr = rest.curr;
            last = rest.last;
            final = rest.final;
            ran =
                write_loop-go fuel clock buf size offset num_blocks idx curr bs offsetted w one.next
                  more (omega (arith, r.at, r.small)) (omega (arith, r.small, r.blocks)) one.ran
                ∙ rest.ran;
            total = rest.total;
            result =
                subst (Appended w rest.final ds)
                  (joined size done buf (omega (arith, r.blocks, r.behind, r.at))
                    (omega (arith, r.small)))
                  (Appended-cons w one.next rest.final ds (take bs' (drop done buf)) _ one.grown
                    one.same one.marked rest.result);
          }
    ]
