-- ===== src/Runtime/Isolation.antt =====
-- What a handler leaves as it is: an account of the program changes only where the handler writes it,
-- since other programs cannot change an account that they do not own.
use solana_psm.Common.{
  ℕ, Bool, true, false, List, [], ◌∷◌, ok, err, panic, ◌≡◌, ap, ◌∙◌, if◌then◌else◌,
}
use solana_psm.Error.{ProgramError, Res}
use solana_psm.Runtime.{Pubkey, Runtime, World, AccountInfo, Invocation}
use solana_psm.Runtime.Action.{
  Action, ◌>>=◌, pure, lift, read, fail_if, next, change, >>=-eq-ok, lift-eq-ok_last,
  fail_if-eq-ok_last, pure-eq-ok,
}

-- The accounts of the program are the same in both worlds.
abbrev pub SameAccounts : Pubkey → World → World → Type 0
SameAccounts program w w' =
    (k : Pubkey) → (w k).owner ≡ program → ((w' k).owner ≡ program) × ((w' k).bytes ≡ (w k).bytes)

-- An instruction of another program leaves the accounts of the program as they are.
abbrev pub IsIsolated : Runtime → Pubkey → Type 0
IsIsolated rt program =
    (ix : Invocation) (keys : List Pubkey) (seeds : List (List ℕ)) (w w' : World)
    → rt.invoke_signed ix keys seeds w ≡ ok w'
    → SameAccounts program w w'

-- A step after which the accounts of the program are the same.
pub record Keeps {A : Type 0} (program : Pubkey) (act : Action A) : Type 0 where
  pub same : (w : World) (a : A) (w' : World) → act w ≡ ok (a, w') → SameAccounts program w w'

module _ (program : Pubkey) where
  pub SameAccounts-of_eq : (w w' : World) → w' ≡ w → SameAccounts program w w'
  SameAccounts-of_eq w w' e k own = (ap (λ v. (v k).owner) e ∙ own, ap (λ v. (v k).bytes) e)

  pub Keeps-bind :
      {A B : Type 0} (act : Action A) (rest : A → Action B)
      → Keeps program act
      → ((a : A) → Keeps program (rest a))
      → Keeps program (act >>= rest)
  Keeps-bind act rest first others = record {
    same = λ w b w' h k own.
        let (a, v, e, f) = >>=-eq-ok act rest w h in
        let (owner, bytes) = first.same w a v e k own in
        let (owner', bytes') = (others a).same v b w' f k owner in (owner', bytes' ∙ bytes);
  }

  -- The steps that change no account.
  pub Keeps-of_same :
      {A : Type 0} (act : Action A)
      → ((w : World) (a : A) (w' : World) → act w ≡ ok (a, w') → w' ≡ w)
      → Keeps program act
  Keeps-of_same act same = record { same = λ w a w' h. SameAccounts-of_eq w w' (same w a w' h) }

  pub Keeps-pure : {A : Type 0} (a : A) → Keeps program (pure a)
  Keeps-pure a = Keeps-of_same (pure a) (λ w b w' h. (pure-eq-ok a b w w' h).1)

  pub Keeps-lift : {A : Type 0} (x : Res A) → Keeps program (lift x)
  Keeps-lift x = Keeps-of_same (lift x) (λ w a w' h. (lift-eq-ok_last x a w w' h).1)

  pub Keeps-read : {A : Type 0} (f : World → Res A) → Keeps program (read f)
  Keeps-read f = Keeps-of_same (read f) (λ w a w' h. (lift-eq-ok_last (f w) a w w' h).1)

  pub Keeps-fail_if : (c : Bool) (e : ProgramError) → Keeps program (fail_if c e)
  Keeps-fail_if c e = Keeps-of_same (fail_if c e) (λ w a w' h. (fail_if-eq-ok_last c e w h).1)

  pub Keeps-next : (accounts : List AccountInfo) → Keeps program (next accounts)
  Keeps-next [] = Keeps-of_same (next []) (λ w a w' h. cc)
  Keeps-next (info ∷ rest) =
      Keeps-of_same (next (info ∷ rest)) (λ w a w' h. (pure-eq-ok (info, rest) a w w' h).1)

  pub Keeps-if :
      {A : Type 0} (c : Bool) (x y : Action A)
      → Keeps program x
      → Keeps program y
      → Keeps program (if c then x else y)
  Keeps-if true x y kx ky = kx
  Keeps-if false x y kx ky = ky

  pub Keeps-invoke :
      (rt : Runtime) (ix : Invocation) (keys : List Pubkey) (seeds : List (List ℕ))
      → IsIsolated rt program
      → Keeps program (change (rt.invoke_signed ix keys seeds))
  Keeps-invoke rt ix keys seeds isolated = record {
    same =
        λ w a w' h. isolated ix keys seeds w w' (change-eq-ok (rt.invoke_signed ix keys seeds w) h);
  }
    where
      change-eq-ok :
          {a : Unit {0}} {w' : World} (x : Res World)
          → elim x as (λ y. Res (Unit {0} × World)) [
            | ok w' ↦ ok (tt, w')
            | err e ↦ err e
            | panic ↦ panic
          ]
            ≡ ok (a, w')
          → x ≡ ok w'
      change-eq-ok (ok v) h = cc
      change-eq-ok (err e) h = cc
      change-eq-ok panic h = cc

  -- Taking the next account, and going on.
  pub Keeps-then :
      {B : Type 0} (accounts : List AccountInfo) {rest : AccountInfo × List AccountInfo → Action B}
      → ((a : AccountInfo × List AccountInfo) → Keeps program (rest a))
      → Keeps program (next accounts >>= rest)
  Keeps-then accounts {rest} others = Keeps-bind (next accounts) rest (Keeps-next accounts) others
