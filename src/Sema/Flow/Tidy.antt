-- ===== src/Sema/Flow/Tidy.antt =====
-- Resolved statements without one behind another whose end is not reached, and whose flags fit.
use ola_lang.Prelude.{◌≡◌, refl, Bool, true, ◌&&◌, ◌||◌, not, none, some, ltb, arith}
use ola_lang.Sema.Ast.Statements.{
  Statement, block, variable_decl, if_else, while, for, do_while, delete, destructure, expression,
  continue, break, return, Statements, nil, cons, ◌⊕◌, reachable, all_reachable,
}
use ola_lang.Sema.Casts.{ty_of}
use ola_lang.Sema.Flow.{is_unreachable, breaks_in}

-- only a statement whose end is reached has one behind it
abbrev pub OnlyLast : Bool → Statements → Type 0
OnlyLast r nil = Unit
OnlyLast r (cons _ _) = r ≡ true

abbrev mutual
  pub IsTidy : Statement → Type 0
  IsTidy (block _ ss) = AreTidy ss
  IsTidy (if_else _ f _ ts es) =
      (f ≡ (all_reachable ts || all_reachable es)) × AreTidy ts × AreTidy es
  IsTidy (while _ f _ body) = (f ≡ true) × AreTidy body
  IsTidy (do_while _ f body _) = (f ≡ true) × AreTidy body
  IsTidy (for _ f init (some c) _ body) = (f ≡ true) × AreTidy init × AreTidy body
  IsTidy (for _ f init none _ body) = (f ≡ ltb 0 (breaks_in body)) × AreTidy init × AreTidy body
  IsTidy (expression _ f e) = f ≡ not (is_unreachable (ty_of e))
  IsTidy (variable_decl _ _ _ _) = Unit
  IsTidy (delete _ _ _) = Unit
  IsTidy (destructure _ _ _) = Unit
  IsTidy (continue _) = Unit
  IsTidy (break _) = Unit
  IsTidy (return _ _) = Unit

  pub AreTidy : Statements → Type 0
  AreTidy nil = Unit
  AreTidy (cons s ss) = IsTidy s × OnlyLast (reachable s) ss × AreTidy ss

-- two lists, one behind the other
pub all_reachable-append :
    (ss ts : Statements) → all_reachable (ss ⊕ ts) ≡ (all_reachable ss && all_reachable ts)
unfolding all_reachable
all_reachable-append nil ts = refl
all_reachable-append (cons s ss) ts = ground (arith, all_reachable-append ss ts)

both_true : (a b : Bool) → (a && b) ≡ true → (a ≡ true) × (b ≡ true)
both_true a b h = ground arith

OnlyLast-left : (a b : Bool) (ts : Statements) → OnlyLast (a && b) ts → OnlyLast a ts
OnlyLast-left a b nil h = tt
OnlyLast-left a b (cons t ts) h = (both_true a b h).0

OnlyLast-right : (a b : Bool) (ts : Statements) → OnlyLast (a && b) ts → OnlyLast b ts
OnlyLast-right a b nil h = tt
OnlyLast-right a b (cons t ts) h = (both_true a b h).1

pub AreTidy-append :
    (ss ts : Statements)
    → AreTidy ss
    → OnlyLast (all_reachable ss) ts
    → AreTidy ts
    → AreTidy (ss ⊕ ts)
unfolding all_reachable
AreTidy-append nil ts h k g = g
AreTidy-append (cons s nil) ts (h, _, _) k g = (h, OnlyLast-left (reachable s) true ts k, g)
AreTidy-append (cons s (cons s' ss)) ts (h, last, hs) k g = (
  h,
  last,
  AreTidy-append (cons s' ss) ts hs (OnlyLast-right (reachable s) (all_reachable (cons s' ss)) ts k)
      g,
)
