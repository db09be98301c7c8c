-- ===== src/Sema/Statements/Post.antt =====
-- Postconditions of the calls of src/sema/statements.rs, that leave the loops as they are.
use ola_lang.Prelude.{◌≡◌, refl}
use ola_lang.Prelude.Run.{
  Run, ok, err, panic, M, Ensures, returns, throws, panics, weaken, Anything, called,
}
use ola_lang.Sema.Statements.Monad.{Env, State, lift}

-- A call that does not get the loops, by what is known of it, leaves them as they are.
pub lifted :
    {N A : Type 0} (P : A → Env N → Type 0) (Q : Env N → Type 0) (op : M (Env N) A) (s : State N)
    → Ensures P Q (op s.env)
    → Ensures (λ a t. P a t.env × (t.loops ≡ s.loops)) (λ t. Q t.env) (lift op s)
lifted {N} {A} P Q op s h = kept (op s.env) h
  where
    kept :
        (r : Run (Env N) A)
        → Ensures P Q r
        → Ensures
            (λ (a : A) (t : State N). P a t.env × (t.loops ≡ s.loops))
            (λ t. Q t.env)
            (elim r [
              | ok a e ↦ ok a (record s { env = e })
              | err e ↦ err (record s { env = e })
              | panic ↦ panic
            ])
    kept (ok a e) (returns h) = returns (h, refl)
    kept (err e) (throws h) = throws h
    kept panic h = panics

-- The same, of a property of the value alone, and of nothing.
pub lift-keeps :
    {N A : Type 0} (P : A → Type 0) (op : M (Env N) A) (s : State N)
    → Ensures (λ a e. P a) (Anything (Env N)) (op s.env)
    → Ensures (λ a t. P a × (t.loops ≡ s.loops)) (Anything (State N)) (lift op s)
lift-keeps {N} P op s h = lifted (λ a e. P a) (Anything (Env N)) op s h

pub lift-called :
    {N A : Type 0} (op : M (Env N) A) (s : State N)
    → Ensures (λ a t. t.loops ≡ s.loops) (Anything (State N)) (lift op s)
lift-called op s = weaken (λ a t h. h.1) (lift-keeps (λ a. Unit {0}) op s (called (op s.env)))
