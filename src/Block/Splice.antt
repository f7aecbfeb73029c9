-- ===== src/Block/Splice.antt =====
-- The copying loop of `insert_data`, block.cpp, lays bytes over an array.
use zippy_fs.Common.{
  ℕ, zero, suc, ◌+◌, ◌-◌, ◌≤◌, ◌<◌, ◌≡◌, refl, ap, ◌∙◌, List, [], ◌∷◌, ◌++◌, arith, length, set,
  take, drop, ok, length-set, take-append-drop, inl, inr, ◌⊎◌,
}
use zippy_fs.Block.{physical_size, copy_in}

-- `xs` with `src` laid over it from position `i` on; what would reach past the end is dropped.
pub splice : ℕ → List ℕ → List ℕ → List ℕ
splice i [] xs = xs
splice i (b ∷ src) [] = []
splice zero (b ∷ src) (x ∷ xs) = b ∷ splice zero src xs
splice (suc i) (b ∷ src) (x ∷ xs) = x ∷ splice i (b ∷ src) xs

splice-nil : (i : ℕ) (src : List ℕ) → splice i src [] ≡ []
unfolding splice
splice-nil i [] = refl
splice-nil i (b ∷ src) = refl

splice-suc : (i x : ℕ) (src xs : List ℕ) → splice (suc i) src (x ∷ xs) ≡ x ∷ splice i src xs
unfolding splice
splice-suc i x [] xs = refl
splice-suc i x (b ∷ src) xs = refl

splice-set : (i b : ℕ) (src xs : List ℕ) → splice (suc i) src (set xs i b) ≡ splice i (b ∷ src) xs
unfolding splice
splice-set i b src [] = splice-nil (suc i) src
splice-set zero b src (x ∷ xs) = splice-suc zero b src xs
splice-set (suc i) b src (x ∷ xs) =
    splice-suc (suc i) x src (set xs i b) ∙ ap (λ r. x ∷ r) (splice-set i b src xs)

splice_past : (i : ℕ) (src xs : List ℕ) → length xs ≤ i → splice i src xs ≡ xs
unfolding splice
splice_past i [] xs h = refl
splice_past i (b ∷ src) [] h = refl
splice_past zero (b ∷ src) (x ∷ xs) h = absurd (omega arith)
splice_past (suc i) (b ∷ src) (x ∷ xs) h =
    ap (λ r. x ∷ r) (splice_past i (b ∷ src) xs (omega arith))

pub length-splice : (i : ℕ) (src xs : List ℕ) → length (splice i src xs) ≡ length xs
unfolding splice
length-splice i [] xs = refl
length-splice i (b ∷ src) [] = refl
length-splice zero (b ∷ src) (x ∷ xs) = ap suc (length-splice zero src xs)
length-splice (suc i) (b ∷ src) (x ∷ xs) = ap suc (length-splice i (b ∷ src) xs)

-- Where the source fits, a splice is the part before it, the source, and the part after it.
pub splice-append :
    (i : ℕ) (src xs : List ℕ)
    → i + length src ≤ length xs
    → splice i src xs ≡ take i xs ++ (src ++ drop (i + length src) xs)
unfolding splice
splice-append zero [] xs h = refl
splice-append (suc i) [] xs h =
    let e : suc i + 0 ≡ suc i = omega arith in rw (e, take-append-drop (suc i) xs)
splice-append zero (b ∷ src) [] h = absurd (omega arith)
splice-append zero (b ∷ src) (x ∷ xs) h =
    let e : 0 + suc (length src) ≡ suc (0 + length src) = omega arith in
    rw e (ap (λ r. b ∷ r) (splice-append zero src xs (omega arith)))
splice-append (suc i) (b ∷ src) [] h = absurd (omega arith)
splice-append (suc i) (b ∷ src) (x ∷ xs) h =
    let e : suc i + suc (length src) ≡ suc (i + suc (length src)) = omega arith in
    rw e (ap (λ r. x ∷ r) (splice-append i (b ∷ src) xs (omega arith)))

copy_in-go :
    (rounds ii jj size b : ℕ) (src dst : List ℕ)
    → ii < physical_size
    → jj < physical_size
    → jj < size
    → copy_in (suc rounds) ii jj size (b ∷ src) dst
      ≡ copy_in rounds (suc ii) (suc jj) size src (set dst ii b)
unfolding copy_in
copy_in-go rounds ii jj size b src dst hi hj hs = ground arith

copy_in-stop :
    (rounds ii jj size : ℕ) (src dst : List ℕ)
    → (size ≤ jj) ⊎ (physical_size ≤ ii)
    → copy_in rounds ii jj size src dst ≡ ok dst
unfolding copy_in
copy_in-stop zero ii jj size src dst h = refl
copy_in-stop (suc rounds) ii jj size src dst h = ground arith

copy_in-splice_stop :
    (rounds ii jj size : ℕ) (src dst : List ℕ)
    → length dst ≡ physical_size
    → (size ≤ jj) ⊎ (physical_size ≤ ii)
    → copy_in rounds ii jj size src dst ≡ ok (splice ii (take (size - jj) src) dst)
unfolding splice
copy_in-splice_stop rounds ii jj size src dst hl (inl done) =
    let e : size - jj ≡ 0 = omega arith in rw e (copy_in-stop rounds ii jj size src dst (inl done))
copy_in-splice_stop rounds ii jj size src dst hl (inr past) =
    rw (splice_past ii (take (size - jj) src) dst (omega arith))
      (copy_in-stop rounds ii jj size src dst (inr past))

loop_cases :
    (ii jj size : ℕ) → ((size ≤ jj) ⊎ (physical_size ≤ ii)) ⊎ ((jj < size) × (ii < physical_size))
loop_cases ii jj size = grind arith

-- The loop lays what is left of `size` bytes over the array, up to its end.
pub copy_in-splice :
    (rounds ii jj size : ℕ) (src dst : List ℕ)
    → length dst ≡ physical_size
    → physical_size ≤ ii + rounds
    → jj + rounds ≤ physical_size
    → size ≤ jj + length src
    → copy_in rounds ii jj size src dst ≡ ok (splice ii (take (size - jj) src) dst)
copy_in-splice zero ii jj size src dst hl hb hj hs =
    copy_in-splice_stop zero ii jj size src dst hl (inr (omega arith))
copy_in-splice (suc rounds) ii jj size [] dst hl hb hj hs =
    copy_in-splice_stop (suc rounds) ii jj size [] dst hl (inl (omega arith))
copy_in-splice (suc rounds) ii jj size (b ∷ s) dst hl hb hj hs = elim (loop_cases ii jj size) [
  | inl stop ↦ copy_in-splice_stop (suc rounds) ii jj size (b ∷ s) dst hl stop
  | inr (more, inside) ↦
      let e : size - jj ≡ suc (size - suc jj) = omega arith in
      rw (e, ← splice-set ii b (take (size - suc jj) s) dst)
        (copy_in-go rounds ii jj size b s dst inside (omega arith) more
          ∙ copy_in-splice rounds (suc ii) (suc jj) size s (set dst ii b) (length-set dst ii b ∙ hl)
              (omega arith) (omega arith) (omega arith))
]
