-- ===== src/Prelude/Run.antt =====
-- What a Rust function that changes its arguments gives: a value (`Ok`, or a plain result), `Err(())`
-- or a panic, with the arguments as they are behind it; and postconditions of that, with a rule for
-- `>>=`.
use mathlib.Core.Bool.{Bool, true, false}
use mathlib.Core.Option.{Option, none, some}
use ola_lang.Prelude.Tests.{if◌then◌else◌}

-- `S` is what changes.
pub data Run (S : Type 0) (A : Type 0) : Type 0 where
  ok : A → S → Run S A
  err : S → Run S A
  panic : Run S A

abbrev pub M : Type 0 → Type 0 → Type 0
M S A = S → Run S A

module _ {S : Type 0} where
  abbrev pub pure : {A : Type 0} → A → M S A
  pure = ok

  abbrev pub stop : {A : Type 0} → M S A
  stop = err

  abbrev pub unwrap : {A : Type 0} → Option A → M S A
  unwrap none s = panic
  unwrap (some a) s = ok a s

  unfoldable pub and_then : {A B : Type 0} → Run S A → (A → M S B) → Run S B
  and_then (ok a s) f = f a s
  and_then (err s) f = err s
  and_then panic f = panic

  infixl 5 ◌>>=◌ ◌>>◌
  abbrev pub ◌>>=◌ : {A B : Type 0} → M S A → (A → M S B) → M S B
  (m >>= f) s = and_then (m s) f

  abbrev pub ◌>>◌ : {A B : Type 0} → M S A → M S B → M S B
  m >> k = m >>= λ _. k

-- `P` holds of the value and of what changes behind `Ok`, `Q` of what changes behind `Err`.
pub data Ensures {S A : Type 0} (P : A → S → Type 0) (Q : S → Type 0) : Run S A → Type 0 where
  returns : {a : A} {s : S} → P a s → Ensures P Q (ok a s)
  throws : {s : S} → Q s → Ensures P Q (err s)
  panics : Ensures P Q panic

module _ {S A : Type 0} {P : A → S → Type 0} {Q : S → Type 0} where
  infixl 1 ◌⟫◌
  pub ◌⟫◌ :
      {B : Type 0} {P' : B → S → Type 0} {r : Run S A} {f : A → M S B}
      → Ensures P Q r
      → ((a : A) (s : S) → P a s → Ensures P' Q (f a s))
      → Ensures P' Q (and_then r f)
  unfolding and_then
  returns h ⟫ k = k _ _ h
  throws h ⟫ k = throws h
  panics ⟫ k = panics

  pub weaken :
      {P' : A → S → Type 0} {r : Run S A}
      → ((a : A) (s : S) → P a s → P' a s)
      → Ensures P Q r
      → Ensures P' Q r
  weaken g (returns h) = returns (g _ _ h)
  weaken g (throws h) = throws h
  weaken g panics = panics

  pub Ensures-if :
      (b : Bool) (m n : M S A) (s : S)
      → Ensures P Q (m s)
      → Ensures P Q (n s)
      → Ensures P Q ((if b then m else n) s)
  Ensures-if true m n s h k = h
  Ensures-if false m n s h k = k

pub both :
    {S A : Type 0} {P P' : A → S → Type 0} {Q Q' : S → Type 0} {r : Run S A}
    → Ensures P Q r
    → Ensures P' Q' r
    → Ensures (λ a s. P a s × P' a s) Q r
both (returns h) (returns k) = returns (h, k)
both (throws h) (throws k) = throws h
both panics panics = panics

-- nothing is said of the state behind an error
abbrev pub Anything : (S : Type 0) → S → Type 0
Anything S s = Unit

-- of any call
pub called : {S A : Type 0} (r : Run S A) → Ensures (λ (a : A) (s : S). Unit {0}) (Anything S) r
called (ok a s) = returns tt
called (err s) = throws tt
called panic = panics
