-- ===== src/Tire/Requests.antt =====
-- Sequences of requests to a `TireFire`.
use zippy_fs.Common.{
  ℕ, zero, suc, ◌+◌, ◌%◌, ◌^◌, ◌≤◌, ◌<◌, ◌≡◌, ◌≢◌, refl, sym, subst, some, List, [], ◌∷◌, ◌++◌, map,
  append_assoc, ok, length, get_elem?, arith, length-append, lt-length_of_get, append-nil,
}
use zippy_fs.Common.Map.{nat_key}
use zippy_fs.Tire.{TireFire, make, get_tire, get_memory, get_offset, get_root}
use zippy_fs.Tire.Regions.{Holds, sum, start, start-le, get_tire_lem, sum-append}

-- Calls of `get_tire`, each with the address that it is mapped to and its size.
abbrev pub requests : List (ℕ × ℕ) → TireFire → TireFire
requests [] t = t
requests ((base, n) ∷ rs) t = requests rs (get_tire base n t).1

abbrev pub sizes : List (ℕ × ℕ) → List ℕ
sizes rs = map (λ r. r.1) rs

-- Every call is mapped somewhere.
abbrev pub Mapped : List (ℕ × ℕ) → Type 0
Mapped [] = Unit {0}
Mapped (r ∷ rs) = (r.0 ≢ 0) × Mapped rs

pub make-Holds : Holds [] make
unfolding make
make-Holds = record {
  count = refl;
  total = refl;
  mapped = refl;
  started = λ h. refl;
  offsets = λ i h. ground arith;
  ptrs = λ i h. ground arith;
}

requests-Holds :
    (rs : List (ℕ × ℕ)) (ns : List ℕ) (t : TireFire)
    → Holds ns t
    → Mapped rs
    → sum ns + sum (sizes rs) < 2 ^ 63
    → length ns + length rs < 2 ^ 64
    → Holds (ns ++ sizes rs) (requests rs t)
requests-Holds [] ns t v m small few = subst (λ ms. Holds ms t) (sym (append-nil ns)) v
requests-Holds ((base, n) ∷ rs) ns t v m small few =
    let (e, e', v') = get_tire_lem ns n base t v m.0 (omega arith) (omega arith) in
    subst (λ ms. Holds ms (requests rs (get_tire base n t).1)) (append_assoc ns (n ∷ []) (sizes rs))
      (requests-Holds rs (ns ++ (n ∷ [])) (get_tire base n t).1 v' m.1
        (omega (arith, sum-append ns n)) (omega (arith, length-append ns (n ∷ []))))

sum-start : (ns : List ℕ) (i n : ℕ) → get_elem? ns i ≡ some n → start ns i + n ≤ sum ns
sum-start [] i n h = cc
sum-start (m ∷ ns) zero n h = ground arith
sum-start (m ∷ ns) (suc i) n h = omega (arith, sum-start ns i n h)

-- After less than 2 ^ 64 requests, of less than 2 ^ 63 bytes in all, each mapped somewhere, the region of an index
-- starts where the sizes before it end, lies in the file, and is in memory at that offset from
-- where the file is mapped now.
pub requests_lem :
    (rs : List (ℕ × ℕ)) (i n : ℕ)
    → Mapped rs
    → sum (sizes rs) < 2 ^ 63
    → length rs < 2 ^ 64
    → get_elem? (sizes rs) i ≡ some n
    → let t = requests rs make in
      (get_offset i t ≡ ok (start (sizes rs) i))
      × (get_memory i t ≡ (get_root t + start (sizes rs) i) % 2 ^ 64)
      × (start (sizes rs) i + n ≤ t.file_length)
unfolding get_offset get_memory get_root
requests_lem rs i n m small few h =
    let v = requests-Holds rs [] make make-Holds m (omega arith) (omega arith) in
    let here = lt-length_of_get (sizes rs) i n h in
    (
      ground (arith, v.offsets i here),
      ground (arith, v.ptrs i here),
      omega (arith, v.mapped, sum-start (sizes rs) i n h),
    )

-- After less than 2 ^ 64 requests, of less than 2 ^ 63 bytes in all, each mapped somewhere, two
-- regions do not overlap: the earlier one ends in the file before the later one starts.
pub requests_apart :
    (rs : List (ℕ × ℕ)) (i j n m : ℕ)
    → Mapped rs
    → sum (sizes rs) < 2 ^ 63
    → length rs < 2 ^ 64
    → get_elem? (sizes rs) i ≡ some n
    → get_elem? (sizes rs) j ≡ some m
    → i < j
    → (a : ℕ) × (b : ℕ) × (get_offset i (requests rs make) ≡ ok a)
      × (get_offset j (requests rs make) ≡ ok b)
      × (a + n ≤ b)
requests_apart rs i j n m v small few hi hj lt = (
  start (sizes rs) i,
  start (sizes rs) j,
  (requests_lem rs i n v small few hi).0,
  (requests_lem rs j m v small few hj).0,
  start-le (sizes rs) i j n hi lt,
)
