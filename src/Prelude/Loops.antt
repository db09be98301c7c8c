-- ===== src/Prelude/Loops.antt =====
-- A Rust `for` over a sequence whose body may panic, and what holds when it is through.
use mathlib.Core.Path.{refl, sym, subst}
use mathlib.Core.Logic.{inl, inr}
use mathlib.Core.List.{List, [], ◌∷◌, Memᴰ}
use mathlib.Core.List.Memᴰ.{head, tail, not-nil, cases_cons}
use ola_lang.Prelude.Outcome.{Outcome, done, ◌>>=◌, Returns, Returns-bind, Returns-mono}

module _ {A : Type 0} {S : Type 0} where
  abbrev pub for_each : (A → S → Outcome S) → List A → S → Outcome S
  for_each f [] s = done s
  for_each f (x ∷ xs) s = f x s >>= λ s'. for_each f xs s'

  -- Each turn keeps the invariant, moves up the order and reaches its goal; then so does the loop,
  -- and it has every goal at its end.
  module _ (f : A → S → Outcome S) (Inv : S → Type 0) (Le : S → S → Type 0) (Goal : A → S → Type 0)
      (le_refl : (s : S) → Le s s) (le_trans : (s t u : S) → Le s t → Le t u → Le s u)
      (stays : (x : A) (s t : S) → Le s t → Goal x s → Goal x t) where
    abbrev pub Through : List A → S → S → Type 0
    Through xs s t = Inv t × Le s t × ((x : A) → Memᴰ x xs → Goal x t)

    abbrev pub Turn : A → S → S → Type 0
    Turn x s t = Inv t × Le s t × Goal x t

    after_first :
        (x : A) (xs : List A) (s t u : S) → Turn x s t → Through xs t u → Through (x ∷ xs) s u
    after_first x xs s t u (_, le, g) (i, up, gs) = (
      i,
      le_trans s t u le up,
      λ y m. elim (cases_cons m) [
        | inl e ↦ subst (λ z. Goal z u) (sym e) (stays x t u up g)
        | inr n ↦ gs y n
      ],
    )

    pub for_each-Through :
        (xs : List A) (s : S)
        → ((x : A) (s : S) → Memᴰ x xs → Inv s → Returns (Turn x s) (f x s))
        → Inv s
        → Returns (Through xs s) (for_each f xs s)
    for_each-Through [] s turn i = (i, le_refl s, λ x m. elim (not-nil m) [ ])
    for_each-Through (x ∷ xs) s turn i =
        Returns-bind (Turn x s) (Through (x ∷ xs) s) (f x s) (λ s'. for_each f xs s')
          (turn x s (head refl) i)
          (λ t (i', le, g).
            Returns-mono (Through xs t) (Through (x ∷ xs) s) (for_each f xs t)
              (for_each-Through xs t (λ y s m. turn y s (tail m)) i')
              (λ u k. after_first x xs s t u (i', le, g) k))
