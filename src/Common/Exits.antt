-- ===== src/Common/Exits.antt =====
-- How a call of the program ends: with a value, with an error value, or with a panic, which
-- aborts the transaction. An `Option` of the source is a `Calc`: `Some(x)` is `ok x`, `None` is
-- `nothing`, and the panics of the arithmetic inside stay visible.
use mathlib.Core.Path.{◌≡◌, refl}
use mathlib.Core.Bool.{Bool, true, false}
use mathlib.Core.Logic.{◌⊎◌, inl, inr}
use solana_psm.Common.Tests.{if◌then◌else◌}

pub data Outcome {ℓ} (E : Type ℓ) (A : Type ℓ) : Type ℓ where
  ok : A → Outcome E A
  err : E → Outcome E A
  panic : Outcome E A

abbrev pub Calc : Type 0 → Type 0
Calc A = Outcome (Unit {0}) A

-- `None`
abbrev pub nothing : {A : Type 0} → Calc A
nothing = err tt

infixl 5 ◌>>=◌ ◌>>◌
abbrev pub ◌>>=◌ {ℓ} : {E A B : Type ℓ} → Outcome E A → (A → Outcome E B) → Outcome E B
panic >>= rest = panic
err e >>= rest = err e
ok a >>= rest = rest a

abbrev pub ◌>>◌ {ℓ} : {E A B : Type ℓ} → Outcome E A → Outcome E B → Outcome E B
m >> k = m >>= λ _. k

-- `Option::ok_or`, and `Result::map_err` where the error is replaced.
abbrev pub ok_or {ℓ} : {E F A : Type ℓ} → Outcome E A → F → Outcome F A
ok_or (ok a) e = ok a
ok_or (err _) e = err e
ok_or panic e = panic

-- `if c { return Err(e) }`
abbrev pub fail_if {ℓ} : {E : Type ℓ} → Bool → E → Outcome E (Unit {ℓ})
fail_if true e = err e
fail_if false e = ok tt

-- A chain that ends with a value has a first part that ends with one.
pub >>=-eq-ok {ℓ} :
    {E S T : Type ℓ} (first : Outcome E S) (rest : S → Outcome E T) {last : T}
    → (first >>= rest) ≡ ok last
    → (middle : S) × (first ≡ ok middle) × (rest middle ≡ ok last)
>>=-eq-ok panic rest ends = cc
>>=-eq-ok (err e) rest ends = cc
>>=-eq-ok (ok middle) rest ends = (middle, refl, ends)

pub ok_or-eq-ok {ℓ} :
    {E F A : Type ℓ} (m : Outcome E A) (e : F) {a : A} → ok_or m e ≡ ok a → m ≡ ok a
ok_or-eq-ok (ok a) e h = cc
ok_or-eq-ok (err x) e h = cc
ok_or-eq-ok panic e h = cc

-- A test that ends with a value took one of the branches.
pub if-eq-ok {ℓ} :
    {E A : Type ℓ} (c : Bool) (x y : Outcome E A) {a : A}
    → (if c then x else y) ≡ ok a
    → ((c ≡ true) × (x ≡ ok a)) ⊎ ((c ≡ false) × (y ≡ ok a))
if-eq-ok true x y h = inl (refl, h)
if-eq-ok false x y h = inr (refl, h)

unfoldable pub is_ok : {E A : Type 0} → Outcome E A → Bool
is_ok (ok a) = true
is_ok (err e) = false
is_ok panic = false

pub is_ok-eq-true : {E A : Type 0} (x : Outcome E A) → is_ok x ≡ true → (a : A) × (x ≡ ok a)
unfolding is_ok
is_ok-eq-true (ok a) h = (a, refl)
is_ok-eq-true (err e) h = cc
is_ok-eq-true panic h = cc
