-- ===== src/Sema/Statements/Leaves.antt =====
-- src/sema/statements.rs: the statements that have no parts, each without a jump, and the ways through
-- the resolved ones.
use ola_lang.Prelude.{
  ℕ, ◌<◌, ◌≡◌, refl, Bool, true, false, ◌||◌, not, Option, none, some, ltb, ◌==◌, length, arith,
}
use ola_lang.Prelude.Run.{Run, Ensures, returns, throws, ◌⟫◌, Anything, called, Ensures-if}
use ola_lang.Sema.Ast.{Loc, Identifier, Ty, storage_ref, Expression}
use ola_lang.Sema.Ast.Statements.{
  Statement, block, for, if_else, expression, return, break, continue, Statements,
}
use ola_lang.Sema.Casts.{ty_of}
use ola_lang.Sema.Flow.{
  Exit, falls, Way, Ways, stops, next, in_block, in_init, behind_init, first_branch, second_branch,
  jumps_out, jumps_on, leaves, evaluates, breaks_in, continues_in, breaks_of, continues_of,
  is_unreachable,
}
use ola_lang.Sema.Flow.Jumps.{Rounds-breaks}
use ola_lang.Sema.Program as P
use ola_lang.Sema.Statements.{
  Resolver, ExprContext, Resolved, one, variable_definition, return_nothing, return_values,
  expression_statement, as_statement, delete_of, is_mapping, declared,
}
use ola_lang.Sema.Statements.Monad.{Env}

-- A way that falls through a list is allowed by the result.
abbrev pub FallsIf : Bool → Statements → Type 0
FallsIf reachable out = Ways out falls → reachable ≡ true

-- a statement without a jump, or none
abbrev pub Leaf : Resolved → Type 0
Leaf (reachable, out) = (breaks_in out ≡ 0) × (continues_in out ≡ 0) × FallsIf reachable out

pub Ways-one : {s : Statement} → Ways (one s) falls → Way s falls
Ways-one (next w ws) = w
Ways-one (stops w n) = w

abbrev pub OfOp : {N A : Type 0} → (A → Type 0) → Run (Env N) A → Type 0
OfOp {N} P = Ensures (λ a e. P a) (Anything (Env N))

-- A loop without a condition is left at its end by a break of its body alone.
pub for_falls :
    {l : Loc} {r : Bool} {init body : Statements} {n : Option Expression} {x : Exit}
    → Way (for l r init none n body) x
    → x ≡ falls
    → 0 < breaks_in body
for_falls (in_init w n) e = elim (n e) [ ]
for_falls (behind_init w r) e = Rounds-breaks (rw e at r)

pub block_falls : {l : Loc} {ss : Statements} {x : Exit} → Way (block l ss) x → Ways ss x
block_falls (in_block w) = w

pub never_falls : {l : Loc} {x : Exit} → Way (break l) x → x ≡ falls → ⊥
never_falls jumps_out e = cc

pub never_goes_on : {l : Loc} {x : Exit} → Way (continue l) x → x ≡ falls → ⊥
never_goes_on jumps_on e = cc

pub either_falls :
    {l : Loc} {f r r' : Bool} {c : Expression} {ts es : Statements}
    → FallsIf r ts
    → FallsIf r' es
    → Way (if_else l f c ts es) falls
    → (r || r') ≡ true
either_falls p q (first_branch w) = rw (p w) refl
either_falls {r} p q (second_branch w) = rw (q w) (or_true r)
  where
    or_true : (b : Bool) → (b || true) ≡ true
    or_true true = refl
    or_true false = refl

pub lt→ltb : {n : ℕ} → 0 < n → ltb 0 n ≡ true
lt→ltb h = ground arith

module _ (R : Resolver) (context : ExprContext) where
  declared-Leaf :
      (loc : Loc) (decl : P.VariableDeclaration) (name : Identifier) (t : Ty) (l : Loc)
      (init : Option Expression) (p : Option ℕ) (e : Env R.Namespace)
      → OfOp (λ out. Leaf (true, out)) (declared R context loc decl name t l init p e)
  unfolding declared breaks_of continues_of
  declared-Leaf loc decl name t l init none e = returns (refl, refl, λ w. refl)
  declared-Leaf loc decl name t l init (some p) e =
      called _ ⟫ λ _ _ _. returns (refl, refl, λ w. refl)

  pub variable_definition-Leaf :
      (loc : Loc) (decl : P.VariableDeclaration) (init : Option P.Expression) (e : Env R.Namespace)
      → OfOp Leaf (variable_definition R context loc decl init e)
  unfolding variable_definition
  variable_definition-Leaf loc decl init e = called _ ⟫ λ (t, l) _ _. called _ ⟫ λ value _ _.
      called _ ⟫ λ name _ _.
      called _ ⟫ λ p s _. declared-Leaf loc decl name t l value p s ⟫ λ out _ h. returns h

  as_statement-Leaf :
      (loc : Loc) (expr : Expression) (e : Env R.Namespace)
      → OfOp Leaf (as_statement R context loc expr e)
  unfolding as_statement breaks_of continues_of
  as_statement-Leaf loc expr e = returns (refl, refl, λ w. fell (Ways-one w))
    where
      fell :
          Way (expression loc (not (is_unreachable (ty_of expr))) expr) falls
          → not (is_unreachable (ty_of expr)) ≡ true
      fell (evaluates h) = rw h refl

  delete_of-Leaf :
      (loc : Loc) (expr : Expression) (t : Ty) (e : Env R.Namespace)
      → OfOp Leaf (delete_of R context loc expr t e)
  unfolding delete_of breaks_of continues_of
  delete_of-Leaf loc expr (storage_ref t) e =
      Ensures-if (is_mapping t) _ _ e (called _ ⟫ λ _ _ _. throws tt)
        (returns (refl, refl, λ w. refl))
  delete_of-Leaf loc expr _ e = called _ ⟫ λ _ _ _. throws tt

  pub expression_statement-Leaf :
      (loc : Loc) (x : P.Expression) (e : Env R.Namespace)
      → OfOp Leaf (expression_statement R context loc x e)
  unfolding expression_statement breaks_of continues_of
  expression_statement-Leaf loc (P.delete _ x) e =
      called _ ⟫ λ expr _ _. called _ ⟫ λ _ s _. called _ ⟫ λ t s' _. delete_of-Leaf loc expr t s'
  expression_statement-Leaf loc (P.function_call l ty args) e =
      called _ ⟫ λ ret _ _. called _ ⟫ λ _ s _. as_statement-Leaf loc ret s
  expression_statement-Leaf loc (P.named_function_call l ty args) e =
      called _ ⟫ λ ret _ _. called _ ⟫ λ _ s _. as_statement-Leaf loc ret s
  expression_statement-Leaf loc (P.assign _ (P.list _ vars) x) e =
      called _ ⟫ λ (fields, expr) _ _. returns (refl, refl, λ w. refl)
  expression_statement-Leaf loc (P.assign _ _ x) e =
      called _ ⟫ λ expr s _. as_statement-Leaf loc expr s
  expression_statement-Leaf loc _ e = called _ ⟫ λ expr s _. as_statement-Leaf loc expr s

  no_return : {l : Loc} {o : Option Expression} → FallsIf false (one (return l o))
  no_return w = elim (returned (Ways-one w) refl) [ ]
    where
      returned : {l : Loc} {o : Option Expression} {x : Exit} → Way (return l o) x → x ≡ falls → ⊥
      returned leaves e = cc

  pub return_nothing-Leaf :
      (loc : Loc) (e : Env R.Namespace) → OfOp Leaf (return_nothing R context loc e)
  unfolding return_nothing breaks_of continues_of
  return_nothing-Leaf loc e = called _ ⟫ λ function_no _ _. called _ ⟫ λ n s _.
      Ensures-if (length e.symtable.returns == n) _ _ s (returns (refl, refl, no_return))
        (called _ ⟫ λ _ _ _. throws tt)

  pub return_values-Leaf :
      (loc : Loc) (x : P.Expression) (e : Env R.Namespace)
      → OfOp Leaf (return_values R context loc x e)
  unfolding return_values breaks_of continues_of
  return_values-Leaf loc x e =
      called _ ⟫ λ expr _ _. called _ ⟫ λ _ _ _. called _ ⟫ λ _ _ _. returns (refl, refl, no_return)
