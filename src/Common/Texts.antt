-- ===== src/Common/Texts.antt =====
-- The order of texts, which is that of `strcmp`.
use mathlib.Core.Path.{◌≡◌, refl}
use mathlib.Core.Bool.{true, false}
use mathlib.Core.List.{[], ◌∷◌}
use native.Mathlib.Omega.{arith}
use zippy_fs.Common.Tests.{Str, str_lt}

pub str_lt_trans : (a b c : Str) → str_lt a b ≡ true → str_lt b c ≡ true → str_lt a c ≡ true
unfolding str_lt
str_lt_trans [] [] c h h' = absurd (cc)
str_lt_trans [] (y ∷ b) [] h h' = absurd (cc)
str_lt_trans [] (y ∷ b) (z ∷ c) h h' = refl
str_lt_trans (x ∷ a) [] c h h' = absurd (cc)
str_lt_trans (x ∷ a) (y ∷ b) [] h h' = absurd (cc)
str_lt_trans (x ∷ a) (y ∷ b) (z ∷ c) h h' = ground (arith, str_lt_trans a b c)

pub str_lt_asymm : (a b : Str) → str_lt a b ≡ true → str_lt b a ≡ false
unfolding str_lt
str_lt_asymm [] [] h = refl
str_lt_asymm [] (y ∷ b) h = refl
str_lt_asymm (x ∷ a) [] h = absurd (cc)
str_lt_asymm (x ∷ a) (y ∷ b) h = ground (arith, str_lt_asymm a b)

-- The same for "at most": `str_lt b a ≡ false` says that `a` is at most `b`.
pub str_le_trans : (a b c : Str) → str_lt b a ≡ false → str_lt c b ≡ false → str_lt c a ≡ false
unfolding str_lt
str_le_trans [] [] [] h h' = refl
str_le_trans [] [] (z ∷ c) h h' = refl
str_le_trans [] (y ∷ b) [] h h' = refl
str_le_trans [] (y ∷ b) (z ∷ c) h h' = refl
str_le_trans (x ∷ a) [] c h h' = absurd (cc)
str_le_trans (x ∷ a) (y ∷ b) [] h h' = absurd (cc)
str_le_trans (x ∷ a) (y ∷ b) (z ∷ c) h h' = ground (arith, str_le_trans a b c)

-- Texts that are not below each other are the same.
pub str_lt_connected : (a b : Str) → str_lt a b ≡ false → str_lt b a ≡ false → a ≡ b
unfolding str_lt
str_lt_connected [] [] h h' = refl
str_lt_connected [] (y ∷ b) h h' = absurd (cc)
str_lt_connected (x ∷ a) [] h h' = absurd (cc)
str_lt_connected (x ∷ a) (y ∷ b) h h' = ground (arith, str_lt_connected a b)
