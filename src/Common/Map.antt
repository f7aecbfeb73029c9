-- ===== src/Common/Map.antt =====
-- `std::map` and `std::unordered_map` as association lists.
use mathlib.Core.Logic.{◌≢◌, ◌↔◌}
use Prim.Native.Nat.{ℕ, suc}
use mathlib.Core.Path.{◌≡◌, refl}
use mathlib.Core.Bool.{Bool, true}
use mathlib.Core.List.{List, [], ◌∷◌}
use mathlib.Core.Option.{Option, none, some}
use native.Mathlib.Omega.{arith}
use zippy_fs.Common.Tests.{
  ltb, nat_beq, nat_beq_iff, if◌then◌else◌, Str, str_beq, str_beq_iff, str_lt,
}
use zippy_fs.Common.Lists.{length}

-- A type of keys: equality, and the order in which `std::map` keeps them.
pub record Key (K : Type 0) : Type 0 where
  pub beq : K → K → Bool
  pub beq_iff : (a b : K) → (beq a b ≡ true) ↔ (a ≡ b)
  pub before : K → K → Bool

instance abbrev pub nat_key : Key ℕ
nat_key = record { beq = nat_beq; beq_iff = nat_beq_iff; before = ltb }

instance abbrev pub str_key : Key Str
str_key = record { beq = str_beq; beq_iff = str_beq_iff; before = str_lt }

pub beq_self : {K : Type 0} ⦃e : Key K⦄ (k : K) → e.beq k k ≡ true
beq_self ⦃e⦄ k = (e.beq_iff k k).1 refl

module _ {K : Type 0} ⦃e : Key K⦄ {V : Type 0} where
  -- `m.find(k)`; `none` is `m.end()`.
  unfoldable pub find : K → List (K × V) → Option V
  find k [] = none
  find k ((j, v) ∷ m) = if e.beq k j then some v else find k m

  -- `m[k] = v`, in a table that keeps no order.
  unfoldable pub insert : K → V → List (K × V) → List (K × V)
  insert k v [] = (k, v) ∷ []
  insert k v ((j, w) ∷ m) = if e.beq k j then (j, v) ∷ m else (j, w) ∷ insert k v m

  -- `m[k] = v`, in key order.
  unfoldable pub insert_ordered : K → V → List (K × V) → List (K × V)
  insert_ordered k v [] = (k, v) ∷ []
  insert_ordered k v ((j, w) ∷ m) =
      let rest = (j, w) ∷ insert_ordered k v m in
      if e.beq k j then (j, v) ∷ m else if e.before k j then (k, v) ∷ (j, w) ∷ m else rest

  -- `m.erase(k)`.
  unfoldable pub erase : K → List (K × V) → List (K × V)
  erase k [] = []
  erase k ((j, v) ∷ m) = if e.beq k j then erase k m else (j, v) ∷ erase k m

  pub find-insert :
      (k j : K) (v : V) (m : List (K × V))
      → find j (insert k v m) ≡ (if e.beq j k then some v else find j m)
  unfolding find insert
  find-insert k j v [] = refl
  find-insert k j v ((i, w) ∷ m) =
      ground (arith, e.beq_iff k i, e.beq_iff j i, e.beq_iff j k, find-insert k j v m)

  pub find-insert_ordered :
      (k j : K) (v : V) (m : List (K × V))
      → find j (insert_ordered k v m) ≡ (if e.beq j k then some v else find j m)
  unfolding find insert_ordered
  find-insert_ordered k j v [] = refl
  find-insert_ordered k j v ((i, w) ∷ m) =
      ground (arith, e.beq_iff k i, e.beq_iff j i, e.beq_iff j k, find-insert_ordered k j v m)

  pub find-erase :
      (k j : K) (m : List (K × V)) → find j (erase k m) ≡ (if e.beq j k then none else find j m)
  unfolding find erase
  find-erase k j [] = ground arith
  find-erase k j ((i, w) ∷ m) =
      ground (arith, e.beq_iff k i, e.beq_iff j i, e.beq_iff j k, find-erase k j m)

  -- A new key makes the table one longer, an old one does not.
  pub length-insert_new :
      (k : K) (v : V) (m : List (K × V)) → find k m ≡ none → length (insert k v m) ≡ suc (length m)
  unfolding find insert
  length-insert_new k v [] h = refl
  length-insert_new k v ((i, w) ∷ m) h = ground (arith, length-insert_new k v m)

  pub length-insert_old :
      (k : K) (v w : V) (m : List (K × V)) → find k m ≡ some w → length (insert k v m) ≡ length m
  unfolding find insert
  length-insert_old k v w [] h = cc
  length-insert_old k v w ((i, u) ∷ m) h = ground (arith, length-insert_old k v w m)

  pub find-insert_self : (k : K) (v : V) (m : List (K × V)) → find k (insert k v m) ≡ some v
  find-insert_self k v m = ground (arith, find-insert k k v m, e.beq_iff k k)

  pub find-insert_ordered_self :
      (k : K) (v : V) (m : List (K × V)) → find k (insert_ordered k v m) ≡ some v
  find-insert_ordered_self k v m = ground (arith, find-insert_ordered k k v m, e.beq_iff k k)

  pub find-insert_ordered_ne :
      (k j : K) (v : V) (m : List (K × V)) → j ≢ k → find j (insert_ordered k v m) ≡ find j m
  find-insert_ordered_ne k j v m h = ground (arith, find-insert_ordered k j v m, e.beq_iff j k)
