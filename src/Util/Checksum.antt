-- ===== src/Util/Checksum.antt =====
-- `crc64` and `verify_checksum` of util.h. A `strcpy` that runs one byte past its array is taken to
-- write on, over memory that nothing else reads.
use zippy_fs.Common.{
  ℕ, zero, suc, ◌+◌, ◌-◌, ◌*◌, ◌/◌, ◌%◌, ◌^◌, ◌≡◌, refl, ◌∙◌, ap, Bool, true, false, ◌&&◌, ◌||◌,
  Option, none, some, List, [], ◌∷◌, ◌++◌, Str, str, drop, nat_beq, leb, if◌then◌else◌,
}
use zippy_fs.Util.Names.{c_str}
use Prim.Native.Nat.{bit_and, bit_xor}

abbrev special_bits : ℕ
special_bits = 0xDEADBEEFABCD1234

-- A round of the inner loop; `-(crc&1)` wraps.
unfoldable crc_bit : ℕ → ℕ
crc_bit crc =
    let mask = bit_xor ((2 ^ 64 - bit_and crc 1) % 2 ^ 64) special_bits in bit_xor crc mask / 2

unfoldable crc_bits : ℕ → ℕ → ℕ
unfolding crc_bit
crc_bits zero crc = crc
crc_bits (suc rounds) crc = crc_bits rounds (crc_bit crc)

-- The loop over the message, up to its NUL: seven rounds for each byte.
unfoldable crc_loop : ℕ → List ℕ → ℕ
unfolding crc_bits
crc_loop crc [] = crc
crc_loop crc (b ∷ bs) = if nat_beq b 0 then crc else crc_loop (crc_bits 7 (bit_xor crc b)) bs

-- `crc64(message)`.
unfoldable crc64 : List ℕ → ℕ
unfolding crc_loop
crc64 message = crc_loop (2 ^ 64 - 1) message

unfoldable starts_with : Str → Str → Bool
starts_with [] s = true
starts_with (d ∷ ds) [] = false
starts_with (d ∷ ds) (x ∷ xs) = nat_beq d x && starts_with ds xs

-- `strstr`, for a text to look for that is not empty: what stands before it, and what from it on.
abbrev behind : ℕ → Option (Str × Str) → Option (Str × Str)
behind x none = none
behind x (some (before, found)) = some (x ∷ before, found)

unfoldable strstr : Str → Str → Option (Str × Str)
unfolding starts_with
strstr delim [] = none
strstr delim (x ∷ xs) =
    let later = behind x (strstr delim xs) in
    if starts_with delim (x ∷ xs) then some ([], x ∷ xs) else later

-- `strtoull` to the base 10: blanks, a sign, digits, and the largest number where it is exceeded.
unfoldable skip_blanks : Str → Str
skip_blanks [] = []
skip_blanks (x ∷ xs) =
    let rest = skip_blanks xs in if nat_beq x 32 || (leb 9 x && leb x 13) then rest else x ∷ xs

unfoldable decimal : ℕ → Str → ℕ
decimal n [] = n
decimal n (x ∷ xs) = if leb 48 x && leb x 57 then decimal (n * 10 + (x - 48)) xs else n

abbrev signed : Str → ℕ
signed [] = 0
signed (x ∷ xs) =
    let largest : ℕ = 2 ^ 64 - 1 in
    if nat_beq x b'-'
    then (let n = decimal 0 xs in if leb n largest then (2 ^ 64 - n) % 2 ^ 64 else largest)
    else (let n = if nat_beq x b'+' then decimal 0 xs else decimal 0 (x ∷ xs) in
        if leb n largest then n else largest)

unfoldable strtoull : Str → ℕ
unfolding skip_blanks decimal
strtoull text = signed (skip_blanks text)

-- `verify_checksum(contents)`: `true` is its 0, `false` its -1.
unfoldable verify_checksum : List ℕ → Bool
unfolding crc64 strstr strtoull
verify_checksum contents = elim (strstr (str "CHECKSUM") (c_str contents)) [
  | none ↦ false
  | some split ↦ nat_beq (crc64 split.0) (strtoull (drop 8 split.1))
]

-- The text to look for begins nowhere in a text, not even where it would run on into the next.
unfoldable Apart : Str → Str → Str → Type 0
Apart delim [] next = Unit
Apart delim (x ∷ xs) next = (starts_with delim (x ∷ xs ++ next) ≡ false) × Apart delim xs next

strstr-here :
    (delim : Str) (x : ℕ) (xs : Str)
    → starts_with delim (x ∷ xs) ≡ true
    → strstr delim (x ∷ xs) ≡ some ([], x ∷ xs)
unfolding strstr
strstr-here delim x xs h = rw (strstr, h) refl

strstr-behind :
    (delim : Str) (x : ℕ) (xs : Str)
    → starts_with delim (x ∷ xs) ≡ false
    → strstr delim (x ∷ xs) ≡ behind x (strstr delim xs)
unfolding strstr
strstr-behind delim x xs h = rw (strstr, h) refl

strstr-first :
    (delim body : Str) (x : ℕ) (xs : Str)
    → Apart delim body (x ∷ xs)
    → starts_with delim (x ∷ xs) ≡ true
    → strstr delim (body ++ (x ∷ xs)) ≡ some (body, x ∷ xs)
unfolding Apart
strstr-first delim [] x xs a h = strstr-here delim x xs h
strstr-first delim (y ∷ body) x xs a h =
    strstr-behind delim y (body ++ (x ∷ xs)) a.0
    ∙ ap (behind y) (strstr-first delim body x xs a.1 h)

-- A text that ends in `CHECKSUM` and a number, with no such word before it, is accepted just when
-- the number, read as `strtoull` does, is the checksum of what stands before the word.
verify_checksum_lem :
    (contents body number : Str)
    → c_str contents ≡ body ++ (str "CHECKSUM" ++ number)
    → Apart (str "CHECKSUM") body (str "CHECKSUM" ++ number)
    → verify_checksum contents ≡ nat_beq (crc64 body) (strtoull number)
unfolding verify_checksum starts_with
verify_checksum_lem contents body number e a =
    ap
      (λ s. elim (strstr (str "CHECKSUM") s) [
        | none ↦ false
        | some split ↦ nat_beq (crc64 split.0) (strtoull (drop 8 split.1))
      ])
      e
    ∙ ap
        (λ o. elim o [
          | none ↦ false
          | some split ↦ nat_beq (crc64 split.0) (strtoull (drop 8 split.1))
        ])
        (strstr-first (str "CHECKSUM") body 67 (str "HECKSUM" ++ number) a refl)
