-- ===== src/Sema/Eval/Monad.antt =====
-- src/sema/eval.rs: what a call gives, with the diagnostics behind it: a value (`Ok`, or a plain
-- result), `Err(())`, a panic, or a recursion through constants that is deeper than the bound.
use ola_lang.Prelude.{Option, none, some}
use ola_lang.Sema.Diagnostics
use ola_lang.Sema.Diagnostics.{Diagnostics, Diagnostic}

pub data Run {ℓ} (A : Type ℓ) : Type ℓ where
  ok : A → Diagnostics → Run A
  err : Diagnostics → Run A
  panic : Run A
  deep : Run A

abbrev pub M {ℓ} : Type ℓ → Type ℓ
M A = Diagnostics → Run A

module _ {ℓ} {A : Type ℓ} where
  abbrev pub pure : A → M A
  pure = ok

  -- `Err(())` with a diagnostic
  abbrev pub fail : Diagnostic → M A
  fail d ds = err (Diagnostics.push ds d)

  abbrev pub unwrap : Option A → M A
  unwrap none ds = panic
  unwrap (some a) ds = ok a ds

abbrev pub report : Diagnostic → M (Unit {0})
report d ds = ok tt (Diagnostics.push ds d)

abbrev pub and_then {ℓ κ} : {A : Type ℓ} {B : Type κ} → Run A → (A → M B) → Run B
and_then (ok a ds) f = f a ds
and_then (err ds) f = err ds
and_then panic f = panic
and_then deep f = deep

infixl 5 ◌>>=◌ ◌>>◌
abbrev pub ◌>>=◌ {ℓ κ} : {A : Type ℓ} {B : Type κ} → M A → (A → M B) → M B
(m >>= f) ds = and_then (m ds) f

abbrev pub ◌>>◌ {ℓ κ} : {A : Type ℓ} {B : Type κ} → M A → M B → M B
m >> k = m >>= λ _. k
