-- ===== src/TreeLoader/Children.antt =====
-- The test of `get_children` against a description of which paths lie in a directory.
use zippy_fs.Common.{
  ◌≡◌, refl, Bool, true, false, ◌&&◌, ◌||◌, [], ◌∷◌, Str, str, str_beq, nat_beq, length,
  if◌then◌else◌, arith, Bool-cases, inl, inr,
}
use zippy_fs.Util.Names.{has_slash, parent_path}
use zippy_fs.TreeLoader.Latest.{is_child}

-- A name: a text without a slash.
unfoldable pub is_name : Str → Bool
is_name [] = true
is_name (x ∷ xs) = if nat_beq x b'/' then false else is_name xs

-- The path is that of the directory, a slash and a name.
unfoldable pub below : Str → Str → Bool
unfolding is_name
below [] [] = false
below [] (x ∷ name) = nat_beq x b'/' && is_name name
below (d ∷ ds) [] = false
below (d ∷ ds) (x ∷ xs) = nat_beq x d && below ds xs

-- A path without a slash counts as lying in itself.
unfoldable pub below_or_bare : Str → Str → Bool
unfolding below is_name
below_or_bare dir path = below dir path || (is_name path && str_beq path dir)

-- What lies in a directory; what lies in the root has nothing before its last slash.
unfoldable pub lies_in : Str → Str → Bool
unfolding below_or_bare
lies_in dir path = below_or_bare dir path || (str_beq dir (str "/") && below_or_bare [] path)

is_name-has_slash : (p : Str) → nat_beq (has_slash p) 0 ≡ is_name p
unfolding is_name has_slash
is_name-has_slash [] = refl
is_name-has_slash (x ∷ xs) = ground (arith, is_name-has_slash xs)

below-is_name : (d p : Str) → is_name p ≡ true → below d p ≡ false
unfolding below is_name
below-is_name [] [] h = refl
below-is_name [] (x ∷ xs) h = ground (arith, h)
below-is_name (d ∷ ds) [] h = refl
below-is_name (d ∷ ds) (x ∷ xs) h =
    let rest : is_name xs ≡ true = ground (arith, h) in ground (arith, below-is_name ds xs rest)

-- The part before the last slash is the directory.
parent_path-below : (d p : Str) → str_beq (parent_path p) d ≡ below_or_bare d p
unfolding parent_path below_or_bare below is_name str_beq
parent_path-below [] [] = refl
parent_path-below (d ∷ ds) [] = refl
parent_path-below [] (x ∷ xs) = ground (arith, is_name-has_slash xs)
parent_path-below (d ∷ ds) (x ∷ xs) = elim (Bool-cases (is_name xs)) [
  | inl h ↦ ground (arith, h, is_name-has_slash xs, below-is_name ds xs h, parent_path-below ds xs)
  | inr h ↦ ground (arith, h, is_name-has_slash xs, parent_path-below ds xs)
]

empty-str_beq : (p : Str) → nat_beq (length p) 0 ≡ str_beq p []
unfolding str_beq
empty-str_beq [] = refl
empty-str_beq (x ∷ xs) = ground arith

either_way : (a b c : Bool) → (a && b) || c ≡ c || (b && a)
either_way a b c = ground arith

-- The test of `get_children` is true just of what lies in the directory.
pub is_child-lies_in : (d p : Str) → is_child d p ≡ lies_in d p
unfolding is_child lies_in
is_child-lies_in d p =
    rw (empty-str_beq (parent_path p), parent_path-below d p, parent_path-below [] p)
      (either_way (below_or_bare [] p) (str_beq d (str "/")) (below_or_bare d p))
