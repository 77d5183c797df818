-- ===== src/Processor/Tokens/Inversion.antt =====
-- What a result of the small helpers tells of their arguments (program/src/processor.rs).
use solana_psm.Common.{ℕ, ◌≡◌, ok, Calc, arith}
use solana_psm.Common
use solana_psm.Error.{SwapError}
use solana_psm.Processor.Tokens.{some_or, to_u64}

pub some_or-eq-ok :
    {A : Type 0} (x : Calc A) (e : SwapError) {a : A} → some_or x e ≡ ok a → x ≡ ok a
unfolding some_or
some_or-eq-ok x e h = Common.ok_or-eq-ok x _ h

pub to_u64-eq-ok : (v r : ℕ) → to_u64 v ≡ ok r → r ≡ v
unfolding to_u64
to_u64-eq-ok v r h = ground arith
