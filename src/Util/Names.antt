-- ===== src/Util/Names.antt =====
-- The hexadecimal hashes and file names of util.h. A `char` is signed, as on the machines that the
-- program is built for. A `sprintf` or `strcpy` that runs past its array is taken to write on,
-- over memory that nothing else reads.
pub mod Hex
use zippy_fs.Common.{
  ℕ, ◌+◌, ◌-◌, ◌*◌, ◌/◌, ◌%◌, ◌^◌, List, [], ◌∷◌, ◌++◌, Str, str, ltb, nat_beq, if◌then◌else◌,
  length, take, drop, replicate,
}

-- A digit of `%X`.
abbrev pub hex_digit : ℕ → ℕ
hex_digit n = if ltb n 10 then 48 + n else 55 + n

-- `"%02X"` of a `char`: a negative one is widened to 32 bits, and prints eight digits.
unfoldable pub byte_hex : ℕ → Str
byte_hex b =
    let low = hex_digit (b / 16) ∷ hex_digit (b % 16) ∷ [] in
    if ltb b 128 then low else 70 ∷ 70 ∷ 70 ∷ 70 ∷ 70 ∷ 70 ∷ low

-- `sprintf(buf + at, …)`: the text and a NUL, over what was there.
abbrev pub print_at : ℕ → Str → List ℕ → List ℕ
print_at at text buf = take at buf ++ ((text ++ 0 ∷ []) ++ drop (at + length text + 1) buf)

-- The text that a C string holds: up to its first NUL.
unfoldable pub c_str : List ℕ → Str
c_str [] = []
c_str (x ∷ xs) = if nat_beq x 0 then [] else x ∷ c_str xs

unfoldable pub hex_loop : ℕ → List ℕ → List ℕ → List ℕ
unfolding byte_hex
hex_loop i [] hex = hex
hex_loop i (b ∷ bs) hex = hex_loop (i + 1) bs (print_at (i * 2) (byte_hex b) hex)

-- `binary_to_hex(binary, len)`, for a `binary` of `len` bytes.
unfoldable pub binary_to_hex : List ℕ → Str
unfolding hex_loop c_str replicate
binary_to_hex binary = c_str (hex_loop 0 binary (replicate (length binary * 2 + 1) 0))

-- What `crypto_hash` hashes: `strcpy` stops at a NUL, the rest of the array is zero.
unfoldable pub copied : Str → List ℕ
unfolding c_str replicate
copied content = c_str content ++ replicate (length content - length (c_str content)) 0

-- `crypto_hash(content)`; the argument is libsodium's `crypto_generichash` to 32 bytes, no key.
unfoldable pub crypto_hash : (List ℕ → List ℕ) → Str → Str
unfolding copied binary_to_hex
crypto_hash generichash content = binary_to_hex (generichash (copied content))

-- `path.substr(0, path.find_last_of("/"))`: all of the path where it has no slash.
unfoldable pub has_slash : Str → ℕ
has_slash [] = 0
has_slash (x ∷ xs) = (if nat_beq x b'/' then 1 else 0) + has_slash xs

unfoldable pub parent_path : Str → Str
unfolding has_slash
parent_path [] = []
parent_path (x ∷ xs) =
    let rest = x ∷ parent_path xs in
    if nat_beq x b'/' then (if nat_beq (has_slash xs) 0 then [] else rest) else rest

-- The parent that the names are made of: `ROOT` for an empty one.
abbrev pub parent_name : Str → Str
parent_name path = let p = parent_path path in if nat_beq (length p) 0 then str "ROOT" else p

-- `generate_inode_hash(path)`.
unfoldable pub generate_inode_hash : (List ℕ → List ℕ) → Str → Str
generate_inode_hash g path = crypto_hash g (parent_name path) ++ (b'-' ∷ crypto_hash g path)

-- `generate_fname(path)`; `random` is what `generate_rand_hex_name` returned.
unfoldable pub generate_fname : (List ℕ → List ℕ) → Str → Str → Str
generate_fname g random path =
    crypto_hash g (parent_name path)
    ++ (b'.' ∷ (crypto_hash g path ++ (b'-' ∷ (random ++ str ".meta"))))

-- `generate_rand_hex_name()` of the 16 bytes that `getrandom` delivers.
unfoldable pub generate_rand_hex_name : List ℕ → Str
unfolding hex_loop c_str replicate
generate_rand_hex_name num = c_str (hex_loop 0 num (replicate 33 0))

-- `generate_dataname(meta_file)`; `size() - 5` wraps, and `substr` takes what there is.
unfoldable pub generate_dataname : Str → Str
generate_dataname meta = take ((length meta + 2 ^ 64 - 5) % 2 ^ 64) meta ++ str ".data"
