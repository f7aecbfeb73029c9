-- ===== src/Index/Keys.antt =====
-- The first and the last of the keys of an inner node, as the searches read them.
use zippy_fs.Common.{
  ℕ, zero, suc, ◌+◌, ◌-◌, ◌%◌, ◌^◌, ◌≤◌, ◌<◌, ◌≡◌, refl, ap, sym, ◌∙◌, true, some, List, [], ◌∷◌,
  Str, str_lt, take, length, get_elem?, length-take, arith,
}
use zippy_fs.Common.Texts.{str_lt_trans}
use zippy_fs.Index.Memory.{Mem, Node, text_at, live_keys, max_keys}
use zippy_fs.Index.Entries.{Ascending}

-- The last of the keys after a first one.
unfoldable pub last_key : ℕ → List ℕ → ℕ
last_key k [] = k
last_key k (k' ∷ ks) = last_key k' ks

pub last_key-above :
    (m : Mem) (p : Str) (k : ℕ) (ks : List ℕ)
    → Ascending m (k ∷ ks)
    → str_lt p (text_at k m) ≡ true
    → str_lt p (text_at (last_key k ks) m) ≡ true
unfolding Ascending last_key
last_key-above m p k [] a h = h
last_key-above m p k (k' ∷ ks) a h =
    last_key-above m p k' ks a.1 (str_lt_trans p (text_at k m) (text_at k' m) h a.0)

get-last_key : (k : ℕ) (ks : List ℕ) → get_elem? (k ∷ ks) (length ks) ≡ some (last_key k ks)
unfolding last_key
get-last_key k [] = refl
get-last_key k (k' ∷ ks) = get-last_key k' ks

get-take : (n i : ℕ) (xs : List ℕ) → i < n → get_elem? (take n xs) i ≡ get_elem? xs i
get-take zero i xs h = absurd (omega arith)
get-take (suc n) i [] h = refl
get-take (suc n) zero (x ∷ xs) h = refl
get-take (suc n) (suc i) (x ∷ xs) h = get-take n i xs (omega arith)

length-live : (n : ℕ) (xs : List ℕ) → n ≤ length xs → length (take n xs) ≡ n
length-live n xs h = omega (arith, length-take n xs)

pub live_keys-ends :
    (n : Node) (k : ℕ) (ks : List ℕ)
    → n.num_keys ≤ length n.keys
    → length n.keys ≤ max_keys
    → live_keys n ≡ k ∷ ks
    → (n.num_keys ≡ suc (length ks))
      × (get_elem? n.keys 0 ≡ some k)
      × (get_elem? n.keys ((n.num_keys + 2 ^ 64 - 1) % 2 ^ 64) ≡ some (last_key k ks))
live_keys-ends n k ks h h' e =
    let num : n.num_keys ≡ suc (length ks) =
      omega (arith, length-live n.num_keys n.keys h, ap length e) in
    let index : (n.num_keys + 2 ^ 64 - 1) % 2 ^ 64 ≡ length ks = omega arith in
    (
      num,
      sym (get-take n.num_keys 0 n.keys (omega arith)) ∙ ap (λ r. get_elem? r 0) e,
      rw index (
          sym (get-take n.num_keys (length ks) n.keys (omega arith))
          ∙ ap (λ r. get_elem? r (length ks)) e
          ∙ get-last_key k ks),
    )
