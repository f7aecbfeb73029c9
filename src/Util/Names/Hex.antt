-- ===== src/Util/Names/Hex.antt =====
-- What `binary_to_hex` of util.h returns, with the overlaps of what it prints.
use zippy_fs.Common.{
  ap₂, ℕ, ◌+◌, ◌-◌, ◌*◌, ◌/◌, ◌%◌, ◌≤◌, ◌≡◌, ◌≢◌, refl, sym, ◌∙◌, ap, List, [], ◌∷◌, ◌++◌, Str, ltb,
  Bool, subst, if◌then◌else◌, true, false, length, take, drop, replicate, arith, take-append_right,
  length-take, length-append, append_assoc, Bool-cases, inl, inr, nat_beq_iff,
}
use zippy_fs.Util.Names.{hex_digit, byte_hex, print_at, c_str, hex_loop, binary_to_hex}

-- The text has no NUL.
abbrev NoNul : Str → Type 0
NoNul [] = Unit {0}
NoNul (x ∷ xs) = (x ≢ 0) × NoNul xs

NoNul-append : (xs ys : Str) → NoNul xs → NoNul ys → NoNul (xs ++ ys)
NoNul-append [] ys u v = v
NoNul-append (x ∷ xs) ys u v = (u.0, NoNul-append xs ys u.1 v)

c_str-stop : (xs ys : Str) → NoNul xs → c_str (xs ++ (0 ∷ ys)) ≡ xs
unfolding c_str
c_str-stop [] ys u = refl
c_str-stop (x ∷ xs) ys u = ground (arith, u.0, c_str-stop xs ys u.1, nat_beq_iff x 0)

hex_digit-ne : (n : ℕ) → hex_digit n ≢ 0
hex_digit-ne n h = ground arith

f_ne : ◌≢◌ {A = ℕ} 70 0
f_ne h = omega arith

-- The two ways in which a byte is printed.
abbrev digits : ℕ → Str
digits b = hex_digit (b / 16) ∷ hex_digit (b % 16) ∷ []

digits-NoNul : (b : ℕ) → NoNul (digits b)
digits-NoNul b = (hex_digit-ne (b / 16), (hex_digit-ne (b % 16), tt))

byte_hex-NoNul : (b : ℕ) → NoNul (byte_hex b) × NoNul (take 2 (byte_hex b))
unfolding byte_hex
byte_hex-NoNul b = printed-NoNul (ltb b 128)
  where
    printed-NoNul :
        (small : Bool)
        → let t = if small then digits b else 70 ∷ 70 ∷ 70 ∷ 70 ∷ 70 ∷ 70 ∷ digits b in
          NoNul t × NoNul (take 2 t)
    printed-NoNul true = (digits-NoNul b, digits-NoNul b)
    printed-NoNul false =
        ((f_ne, (f_ne, (f_ne, (f_ne, (f_ne, (f_ne, digits-NoNul b)))))), (f_ne, (f_ne, tt)))

byte_hex-two :
    (b : ℕ) (ys : Str)
    → (take 2 (byte_hex b ++ ys) ≡ take 2 (byte_hex b))
      × (2 ≤ length (byte_hex b))
      × (length (take 2 (byte_hex b)) ≡ 2)
unfolding byte_hex
byte_hex-two b ys = elim (Bool-cases (ltb b 128)) [
  | inl k ↦ (ground arith, ground arith, ground arith)
  | inr k ↦ (ground arith, ground arith, ground arith)
]

-- The text that comes of the bytes: the two digits of each byte below 128 and `FF` for any other,
-- but all that was printed for the last.
abbrev shown : List ℕ → Str
shown [] = []
shown (b ∷ []) = byte_hex b
shown (b ∷ c ∷ bs) = take 2 (byte_hex b) ++ shown (c ∷ bs)

print_at-split :
    (at : ℕ) (t : Str) (hex : List ℕ)
    → print_at at t hex ≡ (take at hex ++ t) ++ (0 ∷ drop (at + length t + 1) hex)
print_at-split at t hex =
    ap (λ r. take at hex ++ r) (append_assoc t (0 ∷ []) (drop (at + length t + 1) hex))
    ∙ sym (append_assoc (take at hex) t (0 ∷ drop (at + length t + 1) hex))

take-print_at :
    (i b : ℕ) (hex : List ℕ)
    → i * 2 ≤ length hex
    → take ((i + 1) * 2) (print_at (i * 2) (byte_hex b) hex)
      ≡ take (i * 2) hex ++ take 2 (byte_hex b)
take-print_at i b hex h =
    let rest : List ℕ = drop (i * 2 + length (byte_hex b) + 1) hex in
    let here : length (take (i * 2) hex) ≡ i * 2 = omega (arith, length-take (i * 2) hex) in
    let two : (i + 1) * 2 - length (take (i * 2) hex) ≡ 2 = omega arith in
    take-append_right ((i + 1) * 2) (take (i * 2) hex) ((byte_hex b ++ 0 ∷ []) ++ rest)
      (omega arith)
    ∙ ap (λ k. take (i * 2) hex ++ take k ((byte_hex b ++ 0 ∷ []) ++ rest)) two
    ∙ ap (λ r. take (i * 2) hex ++ r)
        (ap (take 2) (append_assoc (byte_hex b) (0 ∷ []) rest) ∙ (byte_hex-two b (0 ∷ rest)).0)

hex_loop-shown :
    (i b : ℕ) (bs : List ℕ) (hex : List ℕ)
    → i * 2 ≤ length hex
    → NoNul (take (i * 2) hex)
    → c_str (hex_loop i (b ∷ bs) hex) ≡ take (i * 2) hex ++ shown (b ∷ bs)
unfolding hex_loop
hex_loop-shown i b [] hex h u =
    ap c_str (print_at-split (i * 2) (byte_hex b) hex)
    ∙ c_str-stop (take (i * 2) hex ++ byte_hex b) _
        (NoNul-append (take (i * 2) hex) (byte_hex b) u (byte_hex-NoNul b).0)
hex_loop-shown i b (c ∷ bs) hex h u =
    let hex' : List ℕ = print_at (i * 2) (byte_hex b) hex in
    let e = take-print_at i b hex h in
    let here : length (take (i * 2) hex) ≡ i * 2 = omega (arith, length-take (i * 2) hex) in
    let enough : (i + 1) * 2 ≤ length hex' = omega (
      arith,
      ap length e,
      length-take ((i + 1) * 2) hex',
      length-append (take (i * 2) hex) (take 2 (byte_hex b)),
      (byte_hex-two b []).2,
    ) in
    hex_loop-shown (i + 1) c bs hex' enough (
      subst NoNul (sym e)
        (NoNul-append (take (i * 2) hex) (take 2 (byte_hex b)) u (byte_hex-NoNul b).1))
    ∙ ap (λ r. r ++ shown (c ∷ bs)) e
    ∙ append_assoc (take (i * 2) hex) (take 2 (byte_hex b)) (shown (c ∷ bs))

binary_to_hex-shown : (binary : List ℕ) → binary_to_hex binary ≡ shown binary
unfolding binary_to_hex hex_loop c_str replicate
binary_to_hex-shown [] = refl
binary_to_hex-shown (b ∷ bs) =
    hex_loop-shown 0 b bs (replicate (length (b ∷ bs) * 2 + 1) 0) (omega arith) tt

-- What is printed for each byte ends, with its NUL, inside the array.
abbrev pub AllInside : List ℕ → Type 0
AllInside [] = Unit {0}
AllInside (b ∷ bs) = (length (byte_hex b) + 1 ≤ length (b ∷ bs) * 2 + 1) × AllInside bs

-- Two characters for each byte: its digits, or `FF` for a negative one.
abbrev pub pairs : List ℕ → Str
pairs [] = []
pairs (b ∷ bs) = (if ltb b 128 then digits b else 70 ∷ 70 ∷ []) ++ pairs bs

take-byte_hex : (b : ℕ) → take 2 (byte_hex b) ≡ (if ltb b 128 then digits b else 70 ∷ 70 ∷ [])
unfolding byte_hex
take-byte_hex b = ground arith

shown-pairs : (bs : List ℕ) → AllInside bs → shown bs ≡ pairs bs
unfolding byte_hex
shown-pairs [] v = refl
shown-pairs (b ∷ []) v = ground (arith, v.0)
shown-pairs (b ∷ c ∷ bs) v = ap₂ (λ x y. x ++ y) (take-byte_hex b) (shown-pairs (c ∷ bs) v.1)

-- Where no `sprintf` of `binary_to_hex` runs past the array, its text has two characters for each
-- byte: the digits of a byte below 128, and `FF` for any other.
pub binary_to_hex-pairs : (binary : List ℕ) → AllInside binary → binary_to_hex binary ≡ pairs binary
binary_to_hex-pairs binary v = binary_to_hex-shown binary ∙ shown-pairs binary v
