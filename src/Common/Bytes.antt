-- ===== src/Common/Bytes.antt =====
-- Byte slices as lists of numbers: little-endian integers (`to_le_bytes`, `from_le_bytes` of Rust's
-- integers), and reading and writing a slice with the bounds checks that panic.
use Prim.Native.Nat.{ℕ, zero, suc, ◌+◌, ◌-◌, ◌*◌, ◌/◌, ◌%◌, ◌^◌, ◌≤◌, ◌<◌}
use mathlib.Core.Path.{◌≡◌, refl, ap}
use mathlib.Core.List.{List, [], ◌∷◌, ◌++◌}
use native.Mathlib.Nat.{pow-suc}
use native.Mathlib.Omega.{arith}
use solana_psm.Common.Tests.{leb, if◌then◌else◌}
use solana_psm.Common.Exits.{Outcome, ok, panic}

abbrev pub IsByte : ℕ → Type 0
IsByte b = b < 256

module _ {ℓ} {A : Type ℓ} where
  abbrev pub length : List A → ℕ
  length [] = 0
  length (x ∷ xs) = suc (length xs)

  unfoldable pub take : ℕ → List A → List A
  take zero xs = []
  take (suc n) [] = []
  take (suc n) (x ∷ xs) = x ∷ take n xs

  unfoldable pub drop : ℕ → List A → List A
  drop zero xs = xs
  drop (suc n) [] = []
  drop (suc n) (x ∷ xs) = drop n xs

  abbrev pub All {κ} : (A → Type κ) → List A → Type κ
  All P [] = Unit {κ}
  All P (x ∷ xs) = P x × All P xs

  pub length-append : (xs ys : List A) → length (xs ++ ys) ≡ length xs + length ys
  length-append [] ys = omega arith
  length-append (x ∷ xs) ys = omega (arith, length-append xs ys)

  pub take-append : (xs ys : List A) → take (length xs) (xs ++ ys) ≡ xs
  unfolding take
  take-append [] ys = refl
  take-append (x ∷ xs) ys = ap (λ t. x ∷ t) (take-append xs ys)

  pub drop-append : (xs ys : List A) → drop (length xs) (xs ++ ys) ≡ ys
  unfolding drop
  drop-append [] ys = refl
  drop-append (x ∷ xs) ys = drop-append xs ys

unfoldable pub to_le_bytes : ℕ → ℕ → List ℕ
to_le_bytes zero v = []
to_le_bytes (suc k) v = (v % 256) ∷ to_le_bytes k (v / 256)

unfoldable pub from_le_bytes : List ℕ → ℕ
from_le_bytes [] = 0
from_le_bytes (b ∷ bs) = b + 256 * from_le_bytes bs

pub length-to_le_bytes : (k v : ℕ) → length (to_le_bytes k v) ≡ k
unfolding to_le_bytes
length-to_le_bytes zero v = refl
length-to_le_bytes (suc k) v = ap suc (length-to_le_bytes k (v / 256))

pub from_le_bytes-to_le_bytes : (k v : ℕ) → v < 256 ^ k → from_le_bytes (to_le_bytes k v) ≡ v
unfolding to_le_bytes from_le_bytes
from_le_bytes-to_le_bytes zero v h = omega arith
from_le_bytes-to_le_bytes (suc k) v h =
    omega (arith, from_le_bytes-to_le_bytes k (v / 256) (omega (arith, pow-suc 256 k)))

pub to_le_bytes-from_le_bytes :
    (bs : List ℕ) → All IsByte bs → to_le_bytes (length bs) (from_le_bytes bs) ≡ bs
unfolding to_le_bytes from_le_bytes
to_le_bytes-from_le_bytes [] h = refl
to_le_bytes-from_le_bytes (b ∷ bs) (hb, hs) = ground (arith, to_le_bytes-from_le_bytes bs hs)

pub to_le_bytes-IsByte : (k v : ℕ) → All IsByte (to_le_bytes k v)
unfolding to_le_bytes
to_le_bytes-IsByte zero v = tt
to_le_bytes-IsByte (suc k) v = (omega arith, to_le_bytes-IsByte k (v / 256))

pub from_le_bytes-lt : (bs : List ℕ) → All IsByte bs → from_le_bytes bs < 256 ^ length bs
unfolding from_le_bytes
from_le_bytes-lt [] h = omega arith
from_le_bytes-lt (b ∷ bs) (hb, hs) = omega (arith, from_le_bytes-lt bs hs, pow-suc 256 (length bs))

-- `split_at`, and one step of `array_refs!`: a panic if the slice is too short.
unfoldable pub split_at : {E : Type 0} → ℕ → List ℕ → Outcome E (List ℕ × List ℕ)
split_at n bs = if leb n (length bs) then ok (take n bs, drop n bs) else panic

-- Writing at the front of a slice, as through `array_mut_ref!` or `split_at_mut`.
unfoldable pub write_front : {E : Type 0} → List ℕ → List ℕ → Outcome E (List ℕ)
write_front bs out = if leb (length bs) (length out) then ok (bs ++ drop (length bs) out) else panic

-- What was written in front is what `split_at` reads there.
pub split_at-append :
    {E : Type 0} (xs ys : List ℕ) → split_at {E = E} (length xs) (xs ++ ys) ≡ ok (xs, ys)
unfolding split_at
split_at-append xs ys = ground (arith, length-append xs ys, take-append xs ys, drop-append xs ys)

pub split_at-to_le_bytes :
    {E : Type 0} (k v : ℕ) (ys : List ℕ)
    → split_at {E = E} k (to_le_bytes k v ++ ys) ≡ ok (to_le_bytes k v, ys)
split_at-to_le_bytes {E} k v ys =
    rw (length-to_le_bytes k v) at (split_at-append {E = E} (to_le_bytes k v) ys)

pub length-drop : {A : Type 0} (n : ℕ) (xs : List A) → length (drop n xs) ≡ length xs - n
unfolding drop
length-drop zero xs = omega arith
length-drop (suc n) [] = omega arith
length-drop (suc n) (x ∷ xs) = omega (arith, length-drop n xs)

pub length-take_le : {A : Type 0} (n : ℕ) (xs : List A) → n ≤ length xs → length (take n xs) ≡ n
unfolding take
length-take_le zero xs h = refl
length-take_le (suc n) [] h = absurd (omega arith)
length-take_le (suc n) (x ∷ xs) h = omega (arith, length-take_le n xs)

pub split_at_ok :
    {E : Type 0} (n : ℕ) (xs : List ℕ)
    → n ≤ length xs
    → split_at {E = E} n xs ≡ ok (take n xs, drop n xs)
unfolding split_at
split_at_ok n xs h = ground arith

-- `split_at` where the length of what stands in front is known.
pub split_at-append_of_length :
    {E : Type 0} (n : ℕ) (xs ys : List ℕ)
    → length xs ≡ n
    → split_at {E = E} n (xs ++ ys) ≡ ok (xs, ys)
split_at-append_of_length n xs ys h = rw (← h) (split_at-append xs ys)

pub write_front_ok :
    {E : Type 0} (bs out : List ℕ)
    → length bs ≤ length out
    → write_front {E = E} bs out ≡ ok (bs ++ drop (length bs) out)
unfolding write_front
write_front_ok bs out h = ground arith
