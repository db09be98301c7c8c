-- ===== src/Irgen/Statements/Emits.antt =====
-- src/irgen/statements.rs: what is asked of the calls for the expressions in resolved statements, and the
-- steps that a statement is made of.
use ola_lang.Prelude.{
  ℕ, zero, suc, ◌≤◌, ◌<◌, ◌≡◌, refl, sym, ◌∙◌, Bool, true, false, ◌&&◌, ◌||◌, not, Option, none,
  some, List, ◌∷◌, arith, Bool-cases, inl, inr,
}
use ola_lang.Prelude.Run.{and_then, ◌>>=◌, ◌>>◌}
use ola_lang.Sema.Ast.{Loc, Ty, Expression}
use ola_lang.Sema.Ast.Statements.{
  Parameter, Statement, block, variable_decl, if_else, while, for, do_while, delete, destructure,
  expression, continue, break, return, Statements, nil, cons, all_reachable,
}
use ola_lang.Sema.Casts.{ty_of}
use ola_lang.Sema.Flow.{Ends, is_unreachable}
use ola_lang.Sema.Statements.Body.{is_contract_storage}
use ola_lang.Irgen.Builder.{
  Binary, Emit, Progress, build_unconditional_branch, call, position_at_end, instruction,
}
use ola_lang.Irgen.Statements.{
  Emitter, ends, when, available, times, value, variable, returned, next_of, condition, to_end,
  at_end,
}
use ola_lang.Irgen.Steps.{
  Sure, sure, ◌⟫◌, with_value, At, state, fill-here, fill-there, branches, forks, returns,
  instructs, positions, appends, At-less,
}

-- In an open block a call emits what is allowed, and leaves the block open.
abbrev pub Stays : Emit (Unit {0}) → Type 0
Stays m =
    (b : Binary) (es : List ℕ) (n d : ℕ)
    → At b (state true es) n d
    → Sure (λ _ b'. At b' (state true es) n d) (m b)

module _ (E : Emitter) where
  -- The calls for the expression are allowed, and leave the block open if it ends.
  abbrev pub Emits : Expression → Type 0
  Emits e =
      (b : Binary) (es : List ℕ) (n d : ℕ)
      → At b (state true es) n d
      → Sure (λ _ b'. At b' (state (not (is_unreachable (ty_of e))) es) n d) (E.expression e b)

  abbrev pub EmitsThrough : Expression → Type 0
  EmitsThrough e = Ends e × Emits e

  -- The default of the type is given, or not.
  abbrev pub Defaults : Bool → Ty → Type 0
  Defaults given t =
      (b : Binary) (es : List ℕ) (n d : ℕ)
      → At b (state true es) n d
      → Sure (λ g b'. (g ≡ given) × At b' (state true es) n d) (E.default t b)

  -- The calls for the values of a returned expression are allowed, and there is one.
  abbrev pub Values : Expression → Type 0
  Values e =
      (b : Binary) (es : List ℕ) (n d : ℕ)
      → At b (state true es) n d
      → Sure (λ k b'. (0 < k) × At b' (state true es) n d) (E.uncast_values e b)

  -- the type of an expression between two rounds is known
  abbrev pub IsNext : Option Expression → Type 0
  IsNext none = Unit
  IsNext (some e) = ((t : Ty) × (ty_of e ≡ some t)) × Emits e

  -- What is asked of resolved statements: for the expressions in them allowed calls are made; conditions,
  -- initial values and what is deleted come to their end, so does the first statement of a `for`; what
  -- is returned has a value, and the type of a variable without an initial value a default; and a `for`
  -- without a condition has a body whose end is reached and a break.
  abbrev mutual
    pub IsCompilable : Statement → Type 0
    IsCompilable (block _ ss) = AreCompilable ss
    IsCompilable (variable_decl _ _ p none) = Defaults true p.ty
    IsCompilable (variable_decl _ _ p (some e)) = EmitsThrough e
    IsCompilable (delete _ t e) = EmitsThrough e × Stays (E.storage_delete t)
    IsCompilable (destructure _ fs e) = Stays (E.destructure fs e)
    IsCompilable (expression _ _ e) = Emits e
    IsCompilable (return _ none) = Unit
    IsCompilable (return _ (some e)) = Values e
    IsCompilable (continue _) = Unit
    IsCompilable (break _) = Unit
    IsCompilable (if_else _ _ c ts es) = EmitsThrough c × AreCompilable ts × AreCompilable es
    IsCompilable (while _ _ c body) = EmitsThrough c × AreCompilable body
    IsCompilable (do_while _ _ body c) = EmitsThrough c × AreCompilable body
    IsCompilable (for _ f init (some c) next body) =
        EmitsThrough c
        × IsNext next
        × (all_reachable init ≡ true)
        × AreCompilable init
        × AreCompilable body
    IsCompilable (for _ f init none next body) =
        (f ≡ true)
        × IsNext next
        × (all_reachable init ≡ true)
        × (all_reachable body ≡ true)
        × AreCompilable init
        × AreCompilable body

    pub AreCompilable : Statements → Type 0
    AreCompilable nil = Unit
    AreCompilable (cons s ss) = IsCompilable s × AreCompilable ss

ends-Sure :
    {b : Binary} {p : Progress} {n d : ℕ} (e : Expression) (t : Ty)
    → ty_of e ≡ some t
    → At b p n d
    → Sure (λ r b'. (r ≡ not (is_unreachable (ty_of e))) × At b' p n d) (ends e b)
unfolding ends and_then
ends-Sure e t k h = rw k (sure (refl, h))

and_true : (b : Bool) → b ≡ (b && true)
and_true true = refl
and_true false = refl

abbrev pub is_some : Option ℕ → Bool
is_some none = false
is_some (some n) = true

module _ (E : Emitter) where
  pub emits :
      {b : Binary} {es : List ℕ} {n d : ℕ} (e : Expression)
      → EmitsThrough E e
      → At b (state true es) n d
      → Sure (λ _ b'. At b' (state true es) n d) (E.expression e b)
  emits {b} {es} {n} {d} e (ends_e, emits_e) h =
      with_value (λ _ b' k. rw ends_e at k) (emits_e b es n d h)

  pub when_branches :
      {b : Binary} {es : List ℕ} {n d : ℕ} (r : Bool) (t : ℕ)
      → At b (state r es) n d
      → Sure (λ _ b'. At b' (state false es) n d) (when r (call (build_unconditional_branch t)) b)
  unfolding when
  when_branches true t h = branches t h
  when_branches false t h = sure h

  pub condition-Sure :
      {b : Binary} {es : List ℕ} {n d : ℕ} (c : Expression) (t u : ℕ)
      → EmitsThrough E c
      → At b (state true es) n d
      → Sure (λ _ b'. At b' (state false es) n d) (condition E c t u b)
  unfolding condition
  condition-Sure c t u ends_c h = emits c ends_c h ⟫ λ _ _ h1. instructs h1 ⟫ λ _ _ h2. forks t u h2

  pub next_of-Sure :
      {b : Binary} {es : List ℕ} {n d : ℕ} (t : ℕ) (o : Option Expression)
      → IsNext E o
      → At b (state true es) n d
      → Sure (λ _ b'. At b' (state false es) n d) (next_of E t o b)
  unfolding next_of
  next_of-Sure t none k h = branches t h
  next_of-Sure {b} {es} {n} {d} t (some e) ((ty, k), emits_e) h = emits_e b es n d h ⟫ λ _ b1 h1.
      ends-Sure e ty k h1 ⟫ λ r _ (is, h2). when_branches r t (rw (← is) at h2)

  value-Sure :
      {b : Binary} {es : List ℕ} {n d : ℕ} (l : Loc) (i : ℕ) (p : Parameter) (o : Option Expression)
      → IsCompilable E (variable_decl l i p o)
      → At b (state true es) n d
      → Sure (λ _ b'. At b' (state true es) n d) (value E p o b)
  unfolding value available
  value-Sure {b} {es} {n} {d} l i p none k h = k b es n d h ⟫ λ g b1 (is, h1). rw is (sure h1)
  value-Sure l i p (some e) k h = emits e k h

  pub variable-Sure :
      {b : Binary} {es : List ℕ} {n d : ℕ} (l : Loc) (i : ℕ) (p : Parameter) (o : Option Expression)
      → IsCompilable E (variable_decl l i p o)
      → At b (state true es) n d
      → Sure (λ _ b'. At b' (state true es) n d) (variable E p o b)
  unfolding variable when
  variable-Sure l i p o k h = value-Sure l i p o k h ⟫ λ _ b1 h1.
      elim (Bool-cases (not (E.is_reference_type p.ty && not (is_contract_storage p.ty)))) [
        | inl e ↦ rw e (instructs h1 ⟫ λ _ _ h2. instructs h2)
        | inr e ↦ rw e (sure h1)
      ]

  pub times-Sure :
      {b : Binary} {es : List ℕ} {n d : ℕ} (k : ℕ)
      → At b (state true es) n d
      → Sure (λ _ b'. At b' (state true es) n d) (times k (call instruction) b)
  unfolding times
  times-Sure zero h = sure h
  times-Sure (suc k) h = instructs h ⟫ λ _ _ h1. times-Sure k h1

  pub returned-Sure :
      {b : Binary} {es : List ℕ} {n d : ℕ} (k : ℕ)
      → 0 < k
      → At b (state true es) n d
      → Sure (λ _ b'. At b' (state false es) n d) (returned E k b)
  unfolding returned
  returned-Sure zero l h = absurd (omega arith)
  returned-Sure (suc zero) l h = returns h
  returned-Sure (suc (suc k)) l h = times-Sure (suc (suc k)) h ⟫ λ _ _ h1. returns h1

  -- a jump behind both branches: the block is appended at most once, behind the others
  abbrev pub EndIs : ℕ → Option ℕ → List ℕ → List ℕ → Type 0
  EndIs n none es es' = es' ≡ es
  EndIs n (some m) es es' = (n ≤ m) × (es' ≡ m ∷ es)

  pub first_to_end :
      {b : Binary} {es : List ℕ} {n d : ℕ} (r : Bool)
      → At b (state r es) n d
      → Sure
          (λ o b'.
            (es' : List ℕ) × At b' (state false es') n d × EndIs n o es es' × (r ≡ is_some o))
          (to_end E r none b)
  unfolding to_end
  first_to_end {es} false h = sure (es, h, refl, refl)
  first_to_end {es} true h = appends h ⟫ λ m _ (l, h1).
      branches m h1 ⟫ λ _ _ h2. sure (m ∷ es, At-less (omega arith) h2, (l, refl), refl)

  later_to_end :
      {b : Binary} {es : List ℕ} {n d : ℕ} (r : Bool) (m : ℕ)
      → At b (state r es) n d
      → Sure (λ o b'. At b' (state false es) n d × (o ≡ some m)) (to_end E r (some m) b)
  unfolding to_end
  later_to_end false m h = sure (h, refl)
  later_to_end true m h = branches m h ⟫ λ _ _ h1. sure (h1, refl)

  at_end-Sure :
      {b : Binary} {es es' : List ℕ} {n d : ℕ} (k : ℕ) (o : Option ℕ)
      → EndIs k o es es'
      → At b (state false es') n d
      → Sure (λ _ b'. At b' (state (is_some o) es) n d) (at_end E o b)
  unfolding at_end
  at_end-Sure k none e h = sure (rw e at h)
  at_end-Sure {es} k (some m) (l, e) h = positions m (fill-here m es) (rw e at h)

  -- the second branch, whatever the first has appended
  pub else-Sure :
      {b : Binary} {es es' : List ℕ} {n d : ℕ} (u : ℕ) (r : Bool) (body : Emit Bool) (o : Option ℕ)
      → EndIs (suc u) o (u ∷ es) es'
      → ((b : Binary) (es : List ℕ)
          → At b (state true es) n d
          → Sure (λ r' b'. At b' (state r' es) n d × (r' ≡ r)) (body b))
      → At b (state false es') n d
      → Sure
          (λ _ b'. At b' (state (is_some o || r) es) n d)
          ((do call (position_at_end u); reached ← body; o' ← to_end E reached o; at_end E o') b)
  else-Sure {es} u r body none e emits_body h = positions u (rw e (fill-here u es)) h ⟫ λ _ b1 h1.
      emits_body b1 es h1 ⟫ λ r' _ (h2, is). first_to_end r' h2 ⟫ λ o' _ (es2, h3, end, some_if).
      with_value (λ _ _ k. rw (sym some_if ∙ is) at k) (at_end-Sure _ o' end h3)
  else-Sure {es} u r body (some m) (l, e) emits_body h =
      positions u (rw e (fill-there (u ∷ es) l (fill-here u es))) h ⟫ λ _ b1 h1.
      emits_body b1 (m ∷ es) h1 ⟫ λ r' _ (h2, is). later_to_end r' m h2 ⟫ λ o' _ (h3, is_m).
      rw is_m (at_end-Sure 0 (some m) (omega arith, refl) h3)
