-- ===== src/Base/Asserts.antt =====
-- A run of a routine: `ASSERT` of lib/debug.h aborts the program when its test fails.
use mathlib.Core.Path.{◌≡◌, refl}
use mathlib.Core.Bool.{Bool, true, false}

pub data Run {ℓ} (A : Type ℓ) : Type ℓ where
  aborted : Run A
  ok : A → Run A

infixl 5 ◌>>=◌ ◌>>◌
abbrev pub ◌>>=◌ {ℓ κ} : {A : Type ℓ} {B : Type κ} → Run A → (A → Run B) → Run B
aborted >>= k = aborted
ok a >>= k = k a

abbrev pub ◌>>◌ {ℓ κ} : {A : Type ℓ} {B : Type κ} → Run A → Run B → Run B
m >> k = m >>= λ _. k

abbrev pub assert : Bool → Run (Unit {0})
assert true = ok tt
assert false = aborted

-- The run ends normally, in a value that satisfies `P`.
abbrev pub Returns {ℓ κ} : {A : Type ℓ} → Run A → (A → Type κ) → Type (ℓ ⊔ κ)
Returns {A} m Q = (a : A) × (m ≡ ok a) × Q a

-- Inversion of a bind that ends normally.
pub >>=-eq-ok {ℓ κ} :
    {A : Type ℓ} {B : Type κ} (m : Run A) (k : A → Run B) {b : B}
    → (m >>= k) ≡ ok b
    → Returns m λ a. k a ≡ ok b
>>=-eq-ok aborted k end = cc
>>=-eq-ok (ok a) k end = (a, refl, end)

pub ok_injective {ℓ} : {A : Type ℓ} {a b : A} → ok a ≡ ok b → a ≡ b
ok_injective e = cc

pub bind_aborted {ℓ κ} :
    {A : Type ℓ} {B : Type κ} (m : Run A) (f : A → Run B)
    → ((a : A) → f a ≡ aborted)
    → (m >>= f) ≡ aborted
bind_aborted (ok a) f h = h a
bind_aborted aborted f h = refl

pub bind-bind {ℓ κ μ} :
    {A : Type ℓ} {B : Type κ} {C : Type μ} (m : Run A) (j : A → Run B) (k : B → Run C)
    → ((m >>= j) >>= k) ≡ (m >>= λ a. j a >>= k)
bind-bind aborted j k = refl
bind-bind (ok a) j k = refl

pub bind_congr {ℓ κ} :
    {A : Type ℓ} {B : Type κ} (m : Run A) (j k : A → Run B)
    → ((a : A) → j a ≡ k a)
    → (m >>= j) ≡ (m >>= k)
bind_congr aborted j k e = refl
bind_congr (ok a) j k e = e a
