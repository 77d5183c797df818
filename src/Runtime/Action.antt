-- ===== src/Runtime/Action.antt =====
-- A handler reads and changes the accounts, and ends with a value or an error. After an error the
-- runtime discards every change, so no accounts come back with it.
use solana_psm.Common.{
  ℕ, Bool, true, false, List, [], ◌∷◌, ok, err, panic, ◌==◌, if◌then◌else◌, ◌≡◌, refl, ◌∙◌, ap,
  arith,
}
use solana_psm.Error.{ProgramError, Res, not_enough_account_keys}
use solana_psm.Runtime.{World, AccountInfo, Pubkey}

abbrev pub Action : Type 0 → Type 0
Action A = World → Res (A × World)

infixl 5 ◌>>=◌ ◌>>◌
abbrev pub ◌>>=◌ : {A B : Type 0} → Action A → (A → Action B) → Action B
◌>>=◌ m f w = elim (m w) [ ok (a, w') ↦ f a w' | err e ↦ err e | panic ↦ panic ]

abbrev pub ◌>>◌ : {A B : Type 0} → Action A → Action B → Action B
m >> k = m >>= λ _. k

abbrev pub pure : {A : Type 0} → A → Action A
pure a w = ok (a, w)

abbrev pub fail : {A : Type 0} → ProgramError → Action A
fail e w = err e

-- A result that does not touch the accounts.
abbrev pub lift : {A : Type 0} → Res A → Action A
lift (ok a) w = ok (a, w)
lift (err e) w = err e
lift panic w = panic

abbrev pub gets : {A : Type 0} → (World → A) → Action A
gets f w = ok (f w, w)

-- A result that the accounts give.
abbrev pub read : {A : Type 0} → (World → Res A) → Action A
read f w = lift (f w) w

-- `if c { return Err(e) }`
abbrev pub fail_if : Bool → ProgramError → Action (Unit {0})
fail_if true e w = err e
fail_if false e w = ok (tt, w)

-- `next_account_info`
abbrev pub next : List AccountInfo → Action (AccountInfo × List AccountInfo)
next [] w = err not_enough_account_keys
next (a ∷ rest) w = ok ((a, rest), w)

abbrev pub owner_of : AccountInfo → Action Pubkey
owner_of a w = ok ((w a.key).owner, w)

abbrev pub data_of : AccountInfo → Action (List ℕ)
data_of a w = ok ((w a.key).bytes, w)

abbrev pub with_data : World → Pubkey → List ℕ → World
with_data w k bytes j = if j == k then record (w k) { bytes = bytes } else w j

abbrev pub write_data : AccountInfo → List ℕ → Action (Unit {0})
write_data a bytes w = ok (tt, with_data w a.key bytes)

-- A step on the accounts.
abbrev pub change : (World → Res World) → Action (Unit {0})
change f w = elim (f w) [ ok w' ↦ ok (tt, w') | err e ↦ err e | panic ↦ panic ]

-- A chain of steps that ends well has a first step that does, and the others go on from there.
pub >>=-eq-ok :
    {S T : Type 0} (first : Action S) (rest : S → Action T) (before : World) {last : T × World}
    → (first >>= rest) before ≡ ok last
    → (middle : S) × (between : World) × (first before ≡ ok (middle, between))
      × (rest middle between ≡ ok last)
>>=-eq-ok {S} {T} first rest before {last} ends = split_on (first before) refl ends
  where
    split_on :
        (found : Res (S × World))
        → first before ≡ found
        → elim found [ ok (a, w') ↦ rest a w' | err e ↦ err e | panic ↦ panic ] ≡ ok last
        → (middle : S) × (between : World) × (first before ≡ ok (middle, between))
          × (rest middle between ≡ ok last)
    split_on panic same ends = cc
    split_on (err e) same ends = cc
    split_on (ok (middle, between)) same ends = (middle, between, same, ends)

-- Inversion of a check, and of a result, that a successful handler runs.
pub fail_if-eq-ok :
    {A : Type 0} (c : Bool) (e : ProgramError) (k : Action A) (w : World) {r : A × World}
    → (fail_if c e >> k) w ≡ ok r
    → (c ≡ false) × (k w ≡ ok r)
fail_if-eq-ok true e k w h = cc
fail_if-eq-ok false e k w h = (refl, h)

pub lift-eq-ok :
    {A B : Type 0} (x : Res A) (k : A → Action B) (w : World) {r : B × World}
    → (lift x >>= k) w ≡ ok r
    → (a : A) × (x ≡ ok a) × (k a w ≡ ok r)
lift-eq-ok (ok a) k w h = (a, refl, h)
lift-eq-ok (err e) k w h = cc
lift-eq-ok panic k w h = cc

-- The last check, and the last result, of a handler.
pub fail_if-eq-ok_last :
    (c : Bool) (e : ProgramError) (w : World) {u : Unit {0}} {w' : World}
    → fail_if c e w ≡ ok (u, w')
    → (c ≡ false) × (w' ≡ w)
fail_if-eq-ok_last true e w h = cc
fail_if-eq-ok_last false e w h = (refl, cc)

pub lift-eq-ok_last :
    {A : Type 0} (x : Res A) (b : A) (w w' : World) → lift x w ≡ ok (b, w') → (x ≡ ok b) × (w' ≡ w)
lift-eq-ok_last (ok a) b w w' h = (cc, cc)
lift-eq-ok_last (err e) b w w' h = cc
lift-eq-ok_last panic b w w' h = cc

-- Inversion of a step that leaves the accounts as they are.
pub >>=-eq-ok_same :
    {A B : Type 0} (m : Action A) (f : A → Action B) (w : World) {r : B × World}
    → ((a : A) (w' : World) → m w ≡ ok (a, w') → w' ≡ w)
    → (m >>= f) w ≡ ok r
    → (a : A) × (m w ≡ ok (a, w)) × (f a w ≡ ok r)
>>=-eq-ok_same m f w {r} keeps h =
    let (a, w', e, rest) = >>=-eq-ok m f w h in
    let same = keeps a w' e in (a, e ∙ ap (λ v. ok (a, v)) same, rw same at rest)

pub pure-eq-ok : {A : Type 0} (a b : A) (w w' : World) → pure a w ≡ ok (b, w') → (a ≡ b) × (w' ≡ w)
pure-eq-ok a b w w' h = (cc, cc)

-- A first step that ends well hands over to the others.
pub >>=-of_ok :
    {S T : Type 0} (first : Action S) (rest : S → Action T) (w : World) (a : S) (w' : World)
    → first w ≡ ok (a, w')
    → (first >>= rest) w ≡ rest a w'
>>=-of_ok first rest w a w' h =
    ap (λ x. elim x [ ok (b, v) ↦ rest b v | err e ↦ err e | panic ↦ panic ]) h

-- What was written is there.
pub with_data-same :
    (w : World) (k : Pubkey) (bytes : List ℕ) → (with_data w k bytes k).bytes ≡ bytes
with_data-same w k bytes = let e : (k == k) ≡ true = ground arith in simp e

-- A first step that fails is the end.
pub >>=-of_err :
    {S T : Type 0} (first : Action S) (rest : S → Action T) (w : World) (e : ProgramError)
    → first w ≡ err e
    → (first >>= rest) w ≡ err e
>>=-of_err first rest w e h =
    ap (λ x. elim x [ ok (b, v) ↦ rest b v | err e ↦ err e | panic ↦ panic ]) h
