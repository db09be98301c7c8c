-- ===== src/Sema/Statements/Reports.antt =====
-- src/sema/statements.rs: what is relied on of the calls out of the file, and what the small steps
-- keep: an error that is in the diagnostics stays there, and a call that fails has reported one.
use ola_lang.Prelude.{ℕ, ◌≡◌, refl, sym, ◌∙◌, Bool, true, false, ◌||◌, Option, arith, never}
use ola_lang.Prelude.Outcome.{Outcome, done}
use ola_lang.Prelude.Run.{Run, ok, err, panic, Ensures, returns, throws, panics}
use ola_lang.Sema.Ast.{Loc, Identifier, Ty, Expression}
use ola_lang.Sema.Casts.{cast_to}
use ola_lang.Sema.Casts.Reports as Casts
use ola_lang.Sema.Casts.Reports.{Tells, cast_to-Tells}
use ola_lang.Sema.Diagnostics as D
use ola_lang.Sema.Diagnostics.{Diagnostic, Diagnostics}
use ola_lang.Sema.Eval.Monad as Eval
use ola_lang.Sema.Integers.{ResolveTo}
use ola_lang.Sema.Program as P
use ola_lang.Sema.Statements.{Resolver, ExprContext, cast_at, add_variable}
use ola_lang.Sema.Statements.Monad.{Env, report, report_ns}
use ola_lang.Sema.Symtable as Symtable
use ola_lang.Sema.Symtable.{StorageLocation, Declaration, Ns}
use ola_lang.Sema.Symtable.Reports.{Keeps, add-Keeps}

-- whether an error is in one of the two lists of diagnostics
abbrev pub reported : {N : Type 0} → Env N → Bool
reported e = e.ns.diagnostics.has_error || e.diagnostics.has_error

-- From an environment on, errors stay, and `Err` has reported one.
abbrev pub Reports : {N A : Type 0} → Env N → Run (Env N) A → Type 0
Reports {N} e =
    Ensures (λ a e'. reported e' ≡ false → reported e ≡ false) (λ e'. reported e' ≡ true)

-- the calls that the file makes
pub record IsReporting (R : Resolver) : Type 0 where
  pub expression :
      (x : P.Expression) (c : ExprContext) (t : ResolveTo) (e : Env R.Namespace)
      → Reports e (R.expression x c t e)
  pub call_expr :
      (l : Loc) (x : P.Expression) (xs : P.Expressions) (c : ExprContext) (t : ResolveTo)
      (e : Env R.Namespace)
      → Reports e (R.call_expr l x xs c t e)
  pub named_call_expr :
      (l : Loc) (x : P.Expression) (xs : P.NamedArguments) (b : Bool) (c : ExprContext)
      (t : ResolveTo) (e : Env R.Namespace)
      → Reports e (R.named_call_expr l x xs b c t e)
  pub destructure :
      (l : Loc) (ps : P.ParameterList) (x : P.Expression) (c : ExprContext) (e : Env R.Namespace)
      → Reports e (R.destructure l ps x c e)
  pub return_with_values :
      (x : P.Expression) (l : Loc) (c : ExprContext) (e : Env R.Namespace)
      → Reports e (R.return_with_values x l c e)
  pub resolve_var_decl_ty :
      (x : P.Expression) (l : Option StorageLocation) (c : ExprContext) (e : Env R.Namespace)
      → Reports e (R.resolve_var_decl_ty x l c e)
  pub used_variable : (x : Expression) (e : Env R.Namespace) → Reports e (R.used_variable x e)
  pub check_shadowing :
      (n : ℕ) (c : Option ℕ) (i : Identifier) (e : Env R.Namespace)
      → Reports e (R.check_shadowing n c i e)
  pub check_overflow : (x : Expression) (e : Env R.Namespace) → Reports e (R.check_overflow x e)

or_true : (b : Bool) → (b || true) ≡ true
or_true true = refl
or_true false = refl

-- of `report` and `Err(())`
module _ {N : Type 0} (d : Diagnostic) (error : d.level ≡ D.error) (e : Env N) where
  pub pushed-has_error : (ds : Diagnostics) → (D.push ds d).has_error ≡ true
  unfolding D.push
  pushed-has_error ds = rw error refl

  pub report_ns-reports :
      Ensures (λ _ e'. reported e' ≡ true) (λ e'. reported e' ≡ true) (report_ns d e)
  report_ns-reports = returns (rw (pushed-has_error e.ns.diagnostics) refl)

  pub report-reports : Ensures (λ _ e'. reported e' ≡ true) (λ e'. reported e' ≡ true) (report d e)
  report-reports =
      returns (rw (pushed-has_error e.diagnostics) (or_true e.ns.diagnostics.has_error))

pub all_false : (a b : Bool) → (a || b) ≡ false → (a ≡ false) × (b ≡ false)
all_false a b h = ground arith

not_true : (a b : Bool) → (a ≡ true → b ≡ true) → b ≡ false → a ≡ false
not_true true b h e = elim (never (sym e ∙ h refl)) [ ]
not_true false b h e = refl

module _ (R : Resolver) (context : ExprContext) where
  pub add_variable-Reports :
      (d : Declaration) (e : Env R.Namespace) → Reports e (add_variable R context d e)
  unfolding add_variable
  add_variable-Reports d e = added (Symtable.add d e.symtable e.ns) (add-Keeps d e.symtable e.ns)
    where
      added :
          (o : Outcome (Option ℕ × Symtable.Symtable × Ns))
          → Keeps e.ns o
          → Reports e (elim o [
            | done (pos, table, ns) ↦ ok pos (record e { symtable = table; ns = ns })
            | Outcome.panic ↦ panic
          ])
      added (done (p, table, ns)) keeps = returns (λ h.
          let (a, b) = all_false ns.diagnostics.has_error e.diagnostics.has_error h in
          rw (not_true e.ns.diagnostics.has_error ns.diagnostics.has_error keeps a) b)
      added Outcome.panic keeps = panics

  pub cast_at-Reports :
      (l : Loc) (to : Ty) (x : Expression) (e : Env R.Namespace)
      → Reports e (cast_at R context l to x e)
  unfolding cast_at
  cast_at-Reports l to x e =
      told (cast_to l R.big_ints to x e.diagnostics) (cast_to-Tells l R.big_ints e.diagnostics to x)
    where
      told :
          (r : Eval.Run Expression)
          → Tells e.diagnostics r
          → Reports e (elim r [
            | Eval.ok e' ds ↦ ok e' (record e { diagnostics = ds })
            | Eval.err ds ↦ err (record e { diagnostics = ds })
            | Eval.panic ↦ panic
            | Eval.deep ↦ panic
          ])
      told (Eval.ok x' ds) Casts.gives = returns (λ h. h)
      told (Eval.err ds) (Casts.fails d level) =
          throws
            (rw (pushed-has_error d level e e.diagnostics) (or_true e.ns.diagnostics.has_error))
      told Eval.panic Casts.panics = panics
      told Eval.deep t = elim t [ ]
