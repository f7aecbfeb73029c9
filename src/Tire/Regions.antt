-- ===== src/Tire/Regions.antt =====
-- The regions that a `TireFire` has handed out.
use zippy_fs.Common.{
  ℕ, zero, suc, ◌+◌, ◌%◌, ◌^◌, ◌≤◌, ◌<◌, ◌≡◌, ◌≢◌, refl, sym, ◌∙◌, ap, none, some, List, [], ◌∷◌,
  ◌++◌, nat_beq_iff, length, take, get_elem?, arith, ◌⊎◌, subst, inr, inl, length-append,
}
use zippy_fs.Common.Map.{find, nat_key, find-insert}
use zippy_fs.Tire.{TireFire, offset_at, rebase, add_to_map, get_tire}

abbrev pub sum : List ℕ → ℕ
sum [] = 0
sum (n ∷ ns) = n + sum ns

pub sum-append : (ns : List ℕ) (n : ℕ) → sum (ns ++ (n ∷ [])) ≡ sum ns + n
sum-append [] n = omega arith
sum-append (m ∷ ns) n = omega (arith, sum-append ns n)

-- Where a region begins: behind all the earlier ones.
abbrev pub start : List ℕ → ℕ → ℕ
start ns index = sum (take index ns)

start-append :
    (ns : List ℕ) (n index : ℕ) → index ≤ length ns → start (ns ++ (n ∷ [])) index ≡ start ns index
start-append [] n zero h = refl
start-append (m ∷ ns) n zero h = refl
start-append [] n (suc i) h = omega arith
start-append (m ∷ ns) n (suc i) h =
    let k : i ≤ length ns = omega arith in omega (arith, start-append ns n i k)

start-length : (ns : List ℕ) → start ns (length ns) ≡ sum ns
start-length [] = refl
start-length (n ∷ ns) = omega (arith, start-length ns)

pub start-le :
    (ns : List ℕ) (i j : ℕ) (n : ℕ) → get_elem? ns i ≡ some n → i < j → start ns i + n ≤ start ns j
start-le [] i j n h k = cc
start-le (m ∷ ns) zero zero n h k = omega arith
start-le (m ∷ ns) zero (suc j) n h k = ground arith
start-le (m ∷ ns) (suc i) zero n h k = omega arith
start-le (m ∷ ns) (suc i) (suc j) n h k =
    let k' : i < j = omega arith in omega (arith, start-le ns i j n h k')

find-rebase :
    (base index : ℕ) (offsets m : List (ℕ × ℕ)) (p : ℕ)
    → find index m ≡ some p
    → find index (rebase base offsets m) ≡ some ((base + offset_at index offsets) % 2 ^ 64)
unfolding find rebase
find-rebase base index offsets [] p h = cc
find-rebase base index offsets ((k, q) ∷ m) p h =
    ground (arith, find-rebase base index offsets m p, nat_beq_iff index k)

-- The allocator has handed out regions of the sizes `ns`, in this order.
pub record Holds (ns : List ℕ) (t : TireFire) : Type 0 where
  pub count : t.latest_index ≡ length ns
  pub total : t.cur_size ≡ sum ns
  pub mapped : t.file_length ≡ sum ns
  pub started : t.cur_ptr ≡ 0 → ns ≡ []
  pub offsets : (i : ℕ) → i < length ns → find i t.index_to_offset ≡ some (start ns i)
  pub ptrs :
      (i : ℕ) → i < length ns → find i t.index_to_ptr ≡ some ((t.cur_ptr + start ns i) % 2 ^ 64)

zero_lt : {i : ℕ} → i < 0 → ⊥
zero_lt h = omega arith

-- What comes of one more request.
add_to_map-Holds :
    (ns : List ℕ) (n old : ℕ) (t : TireFire)
    → t.latest_index ≡ length ns
    → t.cur_size ≡ sum ns + n
    → t.file_length ≡ sum ns + n
    → t.cur_ptr ≢ 0
    → old ≡ sum ns
    → length ns + 1 < 2 ^ 64
    → ((i : ℕ) → i < length ns → find i t.index_to_offset ≡ some (start ns i))
    → ((i : ℕ) → i < length ns → find i t.index_to_ptr ≡ some ((t.cur_ptr + start ns i) % 2 ^ 64))
    → Holds (ns ++ (n ∷ [])) (add_to_map old t).1
unfolding add_to_map
add_to_map-Holds ns n old t count total mapped started old_eq few offsets ptrs =
    let more : length (ns ++ (n ∷ [])) ≡ length ns + 1 = omega (arith, length-append ns (n ∷ [])) in
    record {
      count = omega (arith, more);
      total = omega (arith, sum-append ns n);
      mapped = omega (arith, sum-append ns n);
      started = λ e. absurd (started e);
      offsets = λ i h. ground (
        arith,
        more,
        find-insert t.latest_index i old t.index_to_offset,
        nat_beq_iff i t.latest_index,
        offsets i,
        start-append ns n i,
        start-length ns,
      );
      ptrs = λ i h. ground (
        arith,
        more,
        ap (λ x. (t.cur_ptr + x) % 2 ^ 64) old_eq,
        ap (λ x. (t.cur_ptr + x) % 2 ^ 64) (start-length ns),
        find-insert t.latest_index i ((t.cur_ptr + old) % 2 ^ 64) t.index_to_ptr,
        nat_beq_iff i t.latest_index,
        ptrs i,
        start-append ns n i,
      );
    }

-- What `add_to_map` starts from, in the first call and in the others.
abbrev first : ℕ → ℕ → TireFire → TireFire
first base n t = record t { file_length = n; cur_ptr = base; cur_size = n }

abbrev next : ℕ → ℕ → TireFire → TireFire
next base n t = record t {
  cur_size = (t.cur_size + n) % 2 ^ 64;
  file_length = (t.cur_size + n) % 2 ^ 64;
  cur_ptr = base;
  index_to_ptr = rebase base t.index_to_offset t.index_to_ptr;
}

get_tire-cases :
    (base n : ℕ) (t : TireFire)
    → ((t.cur_ptr ≡ 0) × (get_tire base n t ≡ add_to_map t.cur_size (first base n t)))
      ⊎ (get_tire base n t ≡ add_to_map t.cur_size (next base n t))
unfolding get_tire
get_tire-cases base n t = ground arith

first-Holds :
    (n base : ℕ) (t : TireFire)
    → Holds [] t
    → base ≢ 0
    → Holds (n ∷ []) (add_to_map t.cur_size (first base n t)).1
first-Holds n base t v hb =
    add_to_map-Holds [] n t.cur_size (first base n t) v.count (omega arith) (omega arith) hb v.total
      (omega arith) (λ i h. absurd (zero_lt h)) (λ i h. absurd (zero_lt h))

next-Holds :
    (ns : List ℕ) (n base : ℕ) (t : TireFire)
    → Holds ns t
    → base ≢ 0
    → sum ns + n < 2 ^ 63
    → length ns + 1 < 2 ^ 64
    → Holds (ns ++ (n ∷ [])) (add_to_map t.cur_size (next base n t)).1
next-Holds ns n base t v hb small few =
    let total : (t.cur_size + n) % 2 ^ 64 ≡ sum ns + n = omega (arith, v.total) in
    add_to_map-Holds ns n t.cur_size (next base n t) v.count total total hb v.total few v.offsets
      (λ i h.
        find-rebase base i t.index_to_offset t.index_to_ptr _ (v.ptrs i h)
        ∙ ap (λ o. some ((base + elim o [ none ↦ 0 | some x ↦ x ]) % 2 ^ 64)) (v.offsets i h))

add_to_map-fields :
    (old : ℕ) (t : TireFire)
    → ((add_to_map old t).0 ≡ t.latest_index) × ((add_to_map old t).1.cur_ptr ≡ t.cur_ptr)
unfolding add_to_map
add_to_map-fields old t = (refl, refl)

-- One request, of a size that keeps the file below 2 ^ 63 bytes and that is mapped somewhere, gives
-- the next index and adds a region of its size behind the others.
pub get_tire_lem :
    (ns : List ℕ) (n base : ℕ) (t : TireFire)
    → Holds ns t
    → base ≢ 0
    → sum ns + n < 2 ^ 63
    → length ns + 1 < 2 ^ 64
    → ((get_tire base n t).0 ≡ length ns)
      × ((get_tire base n t).1.cur_ptr ≡ base)
      × Holds (ns ++ (n ∷ [])) (get_tire base n t).1
get_tire_lem ns n base t v hb small few = elim (get_tire-cases base n t) [
  | inl (h, e) ↦ (
    ap (λ r. r.0) e ∙ (add_to_map-fields t.cur_size (first base n t)).0 ∙ v.count,
    ap (λ r. r.1.cur_ptr) e ∙ (add_to_map-fields t.cur_size (first base n t)).1,
    subst (λ r. Holds (ns ++ (n ∷ [])) r.1) (sym e)
        (subst (λ ms. Holds (ms ++ (n ∷ [])) (add_to_map t.cur_size (first base n t)).1)
          (sym (v.started h)) (first-Holds n base t (subst (λ ms. Holds ms t) (v.started h) v) hb)),
  )
  | inr e ↦ (
    ap (λ r. r.0) e ∙ (add_to_map-fields t.cur_size (next base n t)).0 ∙ v.count,
    ap (λ r. r.1.cur_ptr) e ∙ (add_to_map-fields t.cur_size (next base n t)).1,
    subst (λ r. Holds (ns ++ (n ∷ [])) r.1) (sym e) (next-Holds ns n base t v hb small few),
  )
]
