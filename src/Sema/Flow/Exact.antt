-- ===== src/Sema/Flow/Exact.antt =====
-- src/sema/ast.rs: `Statement::reachable` on tidy statements, compared with the ways out of them.
use ola_lang.Prelude.{
  ◌≡◌, ◌↔◌, ◌<◌, ◌+◌, ℕ, refl, sym, ◌∙◌, Bool, Bool-cases, true, false, ◌&&◌, ◌||◌, not, none, some,
  ltb, ltb→lt, ◌⊎◌, inl, inr, arith,
}
use ola_lang.Sema.Ast.Statements.{
  Statement, block, variable_decl, if_else, while, for, do_while, delete, destructure, expression,
  continue, break, return, Statements, nil, cons, reachable, all_reachable,
}
use ola_lang.Sema.Flow.{
  Exit, falls, breaks, Way, in_block, declares, deletes, destructures, evaluates, jumps_out,
  jumps_on, leaves, first_branch, second_branch, turns, body_first, body_then, in_init, behind_init,
  Ways, done, next, stops, fails, out, breaks_of, breaks_in,
}
use ola_lang.Sema.Flow.Jumps.{Rounds-breaks}
use ola_lang.Sema.Flow.Tidy.{IsTidy, AreTidy, OnlyLast}

lt→ltb : {n : ℕ} → 0 < n → ltb 0 n ≡ true
lt→ltb h = ground arith

or_left : (a b : Bool) → a ≡ true → (a || b) ≡ true
or_left a b h = ground arith

or_right : (a b : Bool) → b ≡ true → (a || b) ≡ true
or_right a b h = ground arith

mutual
  unfolding reachable

  Way-reachable : {s : Statement} {x : Exit} → Way s x → x ≡ falls → IsTidy s → reachable s ≡ true
  Way-reachable (in_block w) e h = Ways-reachable w e h
  Way-reachable declares e h = refl
  Way-reachable deletes e h = refl
  Way-reachable destructures e h = refl
  Way-reachable (evaluates ends) e h = rw (h, ends) refl
  Way-reachable jumps_out e h = cc
  Way-reachable jumps_on e h = cc
  Way-reachable leaves e h = cc
  Way-reachable (first_branch w) e (f, t, _) = f ∙ or_left _ _ (Ways-reachable w e t)
  Way-reachable (second_branch w) e (f, _, t) = f ∙ or_right _ _ (Ways-reachable w e t)
  Way-reachable (turns r) e (f, _) = f
  Way-reachable (body_first w _) e (f, _) = f
  Way-reachable (body_then w _ r) e (f, _) = f
  Way-reachable (in_init w n) e h = elim (n e) [ ]
  Way-reachable (behind_init {c = some c} w r) e (f, _, _) = f
  Way-reachable (behind_init {c = none} w r) e (f, _, _) = f ∙ lt→ltb (Rounds-breaks (rw e at r))

  Ways-reachable :
      {ss : Statements} {x : Exit} → Ways ss x → x ≡ falls → AreTidy ss → all_reachable ss ≡ true
  Ways-reachable done e h = refl
  Ways-reachable (next w ws) e (h, _, hs) = rw (Way-reachable w refl h, Ways-reachable ws e hs) refl
  Ways-reachable (stops w n) e h = elim (n e) [ ]

-- No `do`, and a `for` whose first statement comes to its end: elsewhere `reachable` is an
-- approximation from above.
abbrev mutual
  pub IsPlain : Statement → Type 0
  IsPlain (do_while _ _ _ _) = ⊥
  IsPlain (block _ ss) = ArePlain ss
  IsPlain (if_else _ _ _ ts es) = ArePlain ts × ArePlain es
  IsPlain (while _ _ _ body) = ArePlain body
  IsPlain (for _ _ init _ _ body) = (all_reachable init ≡ true) × ArePlain init × ArePlain body
  IsPlain _ = Unit

  pub ArePlain : Statements → Type 0
  ArePlain nil = Unit
  ArePlain (cons s ss) = IsPlain s × ArePlain ss

either : (a b : Bool) → (a || b) ≡ true → (a ≡ true) ⊎ (b ≡ true)
either true b h = inl refl
either false b h = inr h

both_true : (a b : Bool) → (a && b) ≡ true → (a ≡ true) × (b ≡ true)
both_true a b h = ground arith

one_positive : (m n : ℕ) → 0 < m + n → (0 < m) ⊎ (0 < n)
one_positive m n h = elim (Bool-cases (ltb 0 m)) [
  | inl e ↦ inl (ltb→lt 0 m e)
  | inr e ↦ inr (ground arith)
]

was_not : (b : Bool) → not b ≡ true → b ≡ false
was_not true h = cc
was_not false h = refl

mutual
  unfolding reachable breaks_of

  reachable-Way : (s : Statement) → IsTidy s → IsPlain s → reachable s ≡ true → Way s falls
  reachable-Way (block _ ss) h p e = in_block (reachable-Ways ss h p e)
  reachable-Way (variable_decl _ _ _ _) h p e = declares
  reachable-Way (delete _ _ _) h p e = deletes
  reachable-Way (destructure _ _ _) h p e = destructures
  reachable-Way (expression _ f x) h p e = evaluates (was_not _ (sym h ∙ e))
  reachable-Way (continue _) h p e = cc
  reachable-Way (break _) h p e = cc
  reachable-Way (return _ _) h p e = cc
  reachable-Way (if_else _ f _ ts es) (g, t, u) (p, q) e =
      elim (either (all_reachable ts) (all_reachable es) (sym g ∙ e)) [
        | inl k ↦ first_branch (reachable-Ways ts t p k)
        | inr k ↦ second_branch (reachable-Ways es u q k)
      ]
  reachable-Way (while _ _ _ body) h p e = turns fails
  reachable-Way (do_while _ _ _ _) h p e = elim p [ ]
  reachable-Way (for _ _ init (some c) _ body) (f, t, _) (r, p, _) e =
      behind_init (reachable-Ways init t p r) fails
  reachable-Way (for _ _ init none _ body) (f, t, u) (r, p, q) e =
      behind_init (reachable-Ways init t p r)
        (out (breaks-Ways body u q (ltb→lt 0 (breaks_in body) (sym f ∙ e))) refl)

  reachable-Ways :
      (ss : Statements) → AreTidy ss → ArePlain ss → all_reachable ss ≡ true → Ways ss falls
  reachable-Ways nil h p e = done
  reachable-Ways (cons s ss) (h, _, hs) (p, ps) e =
      let (a, b) = both_true (reachable s) (all_reachable ss) e in
      next (reachable-Way s h p a) (reachable-Ways ss hs ps b)

  breaks-Way : (s : Statement) → IsTidy s → IsPlain s → 0 < breaks_of s → Way s breaks
  breaks-Way (break _) h p n = jumps_out
  breaks-Way (block _ ss) h p n = in_block (breaks-Ways ss h p n)
  breaks-Way (if_else _ f _ ts es) (_, t, u) (p, q) n =
      elim (one_positive (breaks_in ts) (breaks_in es) n) [
        | inl k ↦ first_branch (breaks-Ways ts t p k)
        | inr k ↦ second_branch (breaks-Ways es u q k)
      ]
  breaks-Way (for _ _ init (some c) _ body) (_, t, _) (_, p, _) n =
      in_init (breaks-Ways init t p n) (cc)
  breaks-Way (for _ _ init none _ body) (_, t, _) (_, p, _) n =
      in_init (breaks-Ways init t p n) (cc)
  breaks-Way (while _ _ _ _) h p n = absurd (omega arith)
  breaks-Way (do_while _ _ _ _) h p n = elim p [ ]
  breaks-Way (variable_decl _ _ _ _) h p n = absurd (omega arith)
  breaks-Way (delete _ _ _) h p n = absurd (omega arith)
  breaks-Way (destructure _ _ _) h p n = absurd (omega arith)
  breaks-Way (expression _ _ _) h p n = absurd (omega arith)
  breaks-Way (continue _) h p n = absurd (omega arith)
  breaks-Way (return _ _) h p n = absurd (omega arith)

  breaks-Ways : (ss : Statements) → AreTidy ss → ArePlain ss → 0 < breaks_in ss → Ways ss breaks
  breaks-Ways nil h p n = absurd (omega arith)
  breaks-Ways (cons s ss) (h, last, hs) (p, ps) n =
      elim (one_positive (breaks_of s) (breaks_in ss) n) [
        | inl k ↦ stops (breaks-Way s h p k) (cc)
        | inr k ↦ next (reachable-Way s h p (last_reached ss last k)) (breaks-Ways ss hs ps k)
      ]

  last_reached : {r : Bool} (ss : Statements) → OnlyLast r ss → 0 < breaks_in ss → r ≡ true
  last_reached nil h n = absurd (omega arith)
  last_reached (cons s ss) h n = h

-- On tidy statements without a `do`, and with `for` statements whose first statement comes to its
-- end, all are reachable exactly if control can fall through them.
pub all_reachable-Ways :
    (ss : Statements) → AreTidy ss → ArePlain ss → (all_reachable ss ≡ true) ↔ Ways ss falls
all_reachable-Ways ss h p = (reachable-Ways ss h p, λ w. Ways-reachable w refl h)
