-- ===== src/Common/Results.antt =====
-- Code that can go wrong. A `Fault` stands for undefined behaviour, an exception that nothing
-- catches, a failed `assert`, or a loop that is still running when the fuel is spent.
use mathlib.Core.Path.{◌≡◌, subst}
use mathlib.Core.Bool.{Bool, true, false}
use mathlib.Core.Option.{Option, none, some}

pub data Fault : Type 0 where
  null_deref : Fault
  out_of_bounds : Fault
  uncaught : Fault
  assert_failed : Fault
  no_fuel : Fault

-- What a call ends with: `err` where the program faults.
pub data Result {ℓ} (V : Type ℓ) : Type ℓ where
  err : Fault → Result V
  ok : V → Result V

pub ok-injective {ℓ} : {V : Type ℓ} {x y : V} → ok x ≡ ok y → x ≡ y
ok-injective h = cc

-- Dereferences what a lookup found.
abbrev pub or_fault {ℓ} : {V : Type ℓ} → Option V → Fault → Result V
or_fault none fault = err fault
or_fault (some x) fault = ok x

-- Goes on with the value; a fault ends the caller as well.
infixl 5 ◌>>=◌
abbrev pub ◌>>=◌ {ℓ κ} : {V : Type ℓ} {W : Type κ} → Result V → (V → Result W) → Result W
m >>= next = elim m [ err fault ↦ err fault | ok x ↦ next x ]

-- A condition that must hold, or the program faults.
abbrev pub check : Bool → Fault → Result (Unit {0})
check holds_here fault = elim holds_here [ false ↦ err fault | true ↦ ok tt ]

-- `P` holds of the value, if there is one.
pub data AllOk {A : Type 0} (P : A → Type 0) : Result A → Type 0 where
  holds : {a : A} → P a → AllOk P (ok a)
  faults : {e : Fault} → AllOk P (err e)

pub AllOk-bind :
    {A B : Type 0} {P : A → Type 0} {Q : B → Type 0} {m : Result A} {f : A → Result B}
    → AllOk P m
    → ((a : A) → P a → AllOk Q (f a))
    → AllOk Q (m >>= f)
AllOk-bind (holds p) k = k _ p
AllOk-bind faults k = faults

pub AllOk-weaken :
    {A : Type 0} {P Q : A → Type 0} {r : Result A} → ((a : A) → P a → Q a) → AllOk P r → AllOk Q r
AllOk-weaken f (holds p) = holds (f _ p)
AllOk-weaken f faults = faults

-- Where nothing is known of the first value.
pub AllOk-after :
    {A B : Type 0} {Q : B → Type 0} (m : Result A) {f : A → Result B}
    → ((a : A) → AllOk Q (f a))
    → AllOk Q (m >>= f)
AllOk-after (ok a) k = k a
AllOk-after (err e) k = faults

pub AllOk-branch :
    {A : Type 0} {P : A → Type 0} (b : Bool) {x y : Result A}
    → AllOk P x
    → AllOk P y
    → AllOk P (elim b [ false ↦ x | true ↦ y ])
AllOk-branch false u v = u
AllOk-branch true u v = v

pub AllOk-ok : {A : Type 0} (P : A → Type 0) {r : Result A} (a : A) → AllOk P r → r ≡ ok a → P a
AllOk-ok P a (holds p) e = subst P (ok-injective e) p
AllOk-ok P a faults e = cc
