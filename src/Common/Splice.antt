-- ===== src/Common/Splice.antt =====
-- Loops that copy the elements of one list over those of another, in closed form.
use Prim.Native.Nat.{ℕ, zero, suc, ◌+◌, ◌-◌, ◌≤◌, ◌<◌}
use mathlib.Core.Path.{◌≡◌, refl, ap, ◌∙◌}
use mathlib.Core.Logic.{◌≢◌}
use mathlib.Core.List.{List, [], ◌∷◌, ◌++◌}
use mathlib.Core.Option.{Option, none, some}
use native.Mathlib.Omega.{arith}
use zippy_fs.Common.Lists.{
  length, get_elem?, set, take, drop, get_elem?-set_ne, take-append_left, take-all, length-take,
  length-drop, length-set,
}

module _ {ℓ} {A : Type ℓ} where
  abbrev put_elem : Option A → ℕ → List A → List A
  put_elem none j xs = xs
  put_elem (some x) j xs = set xs j x

  -- The element `i` of `from` as the element `j` of `xs`.
  abbrev pub copy_elem : List A → ℕ → ℕ → List A → List A
  copy_elem from i j xs = put_elem (get_elem? from i) j xs

  length-put_elem : (o : Option A) (j : ℕ) (xs : List A) → length (put_elem o j xs) ≡ length xs
  length-put_elem none j xs = refl
  length-put_elem (some x) j xs = length-set xs j x

  put_elem-cons :
      (o : Option A) (j : ℕ) (x : A) (xs : List A)
      → put_elem o (suc j) (x ∷ xs) ≡ x ∷ put_elem o j xs
  put_elem-cons none j x xs = refl
  put_elem-cons (some y) j x xs = refl

  -- The elements of `from` from `i` on, over those of `xs` from `j` on.
  unfoldable pub copies : ℕ → ℕ → ℕ → List A → List A → List A
  copies zero i j from xs = xs
  copies (suc rounds) i j from xs = copies rounds (suc i) (suc j) from (copy_elem from i j xs)

  unfoldable pub insert_at : ℕ → A → List A → List A
  insert_at zero a xs = a ∷ xs
  insert_at (suc i) a [] = a ∷ []
  insert_at (suc i) a (x ∷ xs) = x ∷ insert_at i a xs

  copies-cons :
      (r i j : ℕ) (from xs : List A) (x : A)
      → copies r i (suc j) from (x ∷ xs) ≡ x ∷ copies r i j from xs
  unfolding copies
  copies-cons zero i j from xs x = refl
  copies-cons (suc r) i j from xs x =
      rw (put_elem-cons (get_elem? from i) j x xs, copies)
        (copies-cons r (suc i) (suc j) from (copy_elem from i j xs) x)

  copies-cons_both :
      (r i j : ℕ) (from xs : List A) (y : A)
      → copies r (suc i) j (y ∷ from) xs ≡ copies r i j from xs
  unfolding copies
  copies-cons_both zero i j from xs y = refl
  copies-cons_both (suc r) i j from xs y =
      copies-cons_both r (suc i) (suc j) from (copy_elem from i j xs) y

  take-drop-suc :
      (r i : ℕ) (from : List A) (y : A)
      → get_elem? from i ≡ some y
      → take (suc r) (drop i from) ≡ y ∷ take r (drop (suc i) from)
  take-drop-suc r i [] y h = absurd (cc)
  take-drop-suc r zero (x ∷ from) y h = cc
  take-drop-suc r (suc i) (x ∷ from) y h = take-drop-suc r i from y h

  pub get_elem?-in : (xs : List A) (i : ℕ) → i < length xs → (a : A) × (get_elem? xs i ≡ some a)
  get_elem?-in [] i h = absurd (omega arith)
  get_elem?-in (x ∷ xs) zero h = (x, refl)
  get_elem?-in (x ∷ xs) (suc i) h = get_elem?-in xs i (omega arith)

  pub copies-start :
      (r i : ℕ) (from xs : List A)
      → i + r ≤ length from
      → r ≤ length xs
      → copies r i 0 from xs ≡ take r (drop i from) ++ drop r xs
  unfolding copies
  copies-start zero i from xs h h' = refl
  copies-start (suc r) i from [] h h' = absurd (omega arith)
  copies-start (suc r) i from (x ∷ xs) h h' =
      let (y, e) = get_elem?-in from i (omega arith) in
      rw (copies, e, take-drop-suc r i from y e, copies-cons r (suc i) 0 from xs y)
        (ap (λ zs. y ∷ zs) (copies-start r (suc i) from xs (omega arith) (omega arith)))

  -- A write below the first element that is read changes nothing.
  pub copies-set_below :
      (r i j k : ℕ) (a : A) (from xs : List A)
      → k < i
      → copies r i j (set from k a) xs ≡ copies r i j from xs
  unfolding copies
  copies-set_below zero i j k a from xs h = refl
  copies-set_below (suc r) i j k a from xs h =
      let e : k ≢ i = (λ q. omega arith) in
      rw (copies, get_elem?-set_ne from k i a e)
        (copies-set_below r (suc i) (suc j) k a from (copy_elem from i j xs) (omega arith))

  pub length-insert_at : (i : ℕ) (a : A) (xs : List A) → length (insert_at i a xs) ≡ suc (length xs)
  unfolding insert_at
  length-insert_at zero a xs = refl
  length-insert_at (suc i) a [] = refl
  length-insert_at (suc i) a (x ∷ xs) = ap suc (length-insert_at i a xs)

  pub length-copies : (r i j : ℕ) (from xs : List A) → length (copies r i j from xs) ≡ length xs
  unfolding copies
  length-copies zero i j from xs = refl
  length-copies (suc r) i j from xs =
      length-copies r (suc i) (suc j) from (copy_elem from i j xs)
      ∙ length-put_elem (get_elem? from i) j xs

  take-append_take : (n : ℕ) (xs ys : List A) → n ≤ length xs → take n (take n xs ++ ys) ≡ take n xs
  take-append_take zero xs ys h = refl
  take-append_take (suc n) [] ys h = absurd (omega arith)
  take-append_take (suc n) (x ∷ xs) ys h =
      ap (λ zs. x ∷ zs) (take-append_take n xs ys (omega arith))

  -- To move the elements up by one and write at the gap is an insertion.
  pub take-set-copies :
      (i n : ℕ) (a : A) (xs : List A)
      → i ≤ n
      → n < length xs
      → take (suc n) (set (copies (n - i) i (suc i) xs xs) i a) ≡ insert_at i a (take n xs)
  unfolding insert_at
  take-set-copies i n a [] h h' = absurd (omega arith)
  take-set-copies zero n a (x ∷ xs) h h' =
      let e : n - 0 ≡ n = omega arith in
      rw
        (
          e,
          copies-cons n 0 0 (x ∷ xs) xs x,
          copies-start n 0 (x ∷ xs) xs (omega arith) (omega arith),
        )
        (ap (λ zs. a ∷ zs) (take-append_take n (x ∷ xs) (drop n xs) (omega arith)))
  take-set-copies (suc i) zero a (x ∷ xs) h h' = absurd (omega arith)
  take-set-copies (suc i) (suc n) a (x ∷ xs) h h' =
      let e : suc n - suc i ≡ n - i = omega arith in
      rw
        (
          e,
          copies-cons (n - i) (suc i) (suc i) (x ∷ xs) xs x,
          copies-cons_both (n - i) i (suc i) xs xs x,
        )
        (ap (λ zs. x ∷ zs) (take-set-copies i n a xs (omega arith) (omega arith)))

module _ {ℓ} {A : Type ℓ} where
  pub take-all_copied :
      (r i : ℕ) (from xs : List A)
      → i + r ≤ length from
      → r ≤ length xs
      → take r (copies r i 0 from xs) ≡ take r (drop i from)
  take-all_copied r i from xs h h' =
      let t = take r (drop i from) in
      let e : length t ≡ r = omega (arith, length-take r (drop i from), length-drop i from) in
      rw (copies-start r i from xs h h')
        (take-append_left r t (drop r xs) (omega arith) ∙ take-all r t (omega arith))

  pub take-set_above : (i j : ℕ) (a : A) (xs : List A) → i ≤ j → take i (set xs j a) ≡ take i xs
  take-set_above zero j a xs h = refl
  take-set_above (suc i) j a [] h = refl
  take-set_above (suc i) zero a (x ∷ xs) h = absurd (omega arith)
  take-set_above (suc i) (suc j) a (x ∷ xs) h =
      ap (λ zs. x ∷ zs) (take-set_above i j a xs (omega arith))

  -- A write behind the elements in use is one more of them.
  pub take-set_end :
      (n : ℕ) (a : A) (xs : List A)
      → n < length xs
      → take (suc n) (set xs n a) ≡ insert_at n a (take n xs)
  unfolding insert_at
  take-set_end n a [] h = absurd (omega arith)
  take-set_end zero a (x ∷ xs) h = refl
  take-set_end (suc n) a (x ∷ xs) h = ap (λ zs. x ∷ zs) (take-set_end n a xs (omega arith))
