-- ===== src/Sema/Statements/Tidy.antt =====
-- src/sema/statements.rs: where no error is reported, the resolved statements are tidy and the result
-- is the one of `Statement::reachable`; where the resolution fails, an error is reported.
use ola_lang.Prelude.{ℕ, ◌≡◌, refl, Bool, true, false, ◌&&◌, Option, none, some, length, ◌==◌}
use ola_lang.Prelude.Run.{
  Run, unwrap, ok, panic, ◌>>=◌, Ensures, returns, throws, panics, ◌⟫◌, weaken, Ensures-if,
}
use ola_lang.Sema.Ast.{Loc, Identifier, Ty, bool, storage_ref, Expression}
use ola_lang.Sema.Ast.Statements.{delete, destructure, all_reachable}
use ola_lang.Sema.Casts.{ty_of}
use ola_lang.Sema.Eval.Const.{loc_of}
use ola_lang.Sema.Flow.Tidy.{AreTidy}
use ola_lang.Sema.Integers.{unknown, discard, to_type}
use ola_lang.Sema.Program as P
use ola_lang.Sema.Statements.{
  Resolver, ExprContext, Resolved, one, variable_definition, initializer, declared, assign_returns,
  assign_all, return_nothing, return_values, expression_statement, as_statement, delete_of,
  is_mapping, condition,
}
use ola_lang.Sema.Statements.Monad.{Env}
use ola_lang.Sema.Statements.Reports.{
  reported, Reports, IsReporting, report_ns-reports, add_variable-Reports, cast_at-Reports,
}
use ola_lang.Sema.Symtable.{Variable}
use ola_lang.Prelude.Map.{Map}

-- the flags and the order of a list fit, and the result is whether its end is reached
abbrev pub Good : Resolved → Type 0
Good (r, out) = AreTidy out × (r ≡ all_reachable out)

-- `Reports`, of a call that gives a list
abbrev pub GoodOp : {N : Type 0} → Env N → Run (Env N) Resolved → Type 0
GoodOp e =
    Ensures (λ res e'. (reported e' ≡ false → reported e ≡ false) × Good res)
      (λ e'. reported e' ≡ true)

module _ {N A : Type 0} where
  unwrap-Reports : (o : Option A) (e : Env N) → Reports e (unwrap o e)
  unwrap-Reports none e = panics
  unwrap-Reports (some a) e = returns (λ h. h)

and_true : (b : Bool) → b ≡ (b && true)
and_true true = refl
and_true false = refl

module _ (R : Resolver) (laws : IsReporting R) (context : ExprContext) where
  pub condition-Reports :
      (x : P.Expression) (e : Env R.Namespace) → Reports e (condition R context x e)
  unfolding condition
  condition-Reports x e = laws.expression x context (to_type bool) e ⟫ λ expr e1 c1.
      laws.used_variable expr e1 ⟫ λ _ e2 c2.
      weaken (λ _ _ c h. c1 (c2 (c h))) (cast_at-Reports R context (loc_of expr) bool expr e2)

  initializer-Reports :
      (t : Ty) (o : Option P.Expression) (e : Env R.Namespace)
      → Reports e (initializer R context t o e)
  unfolding initializer
  initializer-Reports t none e = returns (λ h. h)
  initializer-Reports t (some x) e = laws.expression x context (to_type t) e ⟫ λ expr e1 c1.
      laws.check_overflow expr e1 ⟫ λ _ e2 c2. laws.used_variable expr e2 ⟫ λ _ e3 c3.
      cast_at-Reports R context (loc_of expr) t expr e3 ⟫ λ v e4 c4.
      returns (λ h. c1 (c2 (c3 (c4 h))))

  declared-Good :
      (loc : Loc) (decl : P.VariableDeclaration) (name : Identifier) (t : Ty) (l : Loc)
      (init : Option Expression) (p : Option ℕ) (e : Env R.Namespace)
      → Ensures
          (λ out e'. (reported e' ≡ false → reported e ≡ false) × Good (true, out))
          (λ e'. reported e' ≡ true)
          (declared R context loc decl name t l init p e)
  unfolding declared all_reachable
  declared-Good loc decl name t l init none e = returns ((λ h. h), (tt, refl))
  declared-Good loc decl name t l init (some p) e =
      laws.check_shadowing context.file_no context.contract_no name e ⟫ λ _ e1 c1.
      returns (c1, ((tt, tt, tt), refl))

  pub variable_definition-Good :
      (loc : Loc) (decl : P.VariableDeclaration) (init : Option P.Expression) (e : Env R.Namespace)
      → GoodOp e (variable_definition R context loc decl init e)
  unfolding variable_definition
  variable_definition-Good loc decl init e =
      laws.resolve_var_decl_ty decl.ty decl.storage context e ⟫ λ (t, l) e1 c1.
      initializer-Reports t init e1 ⟫ λ value e2 c2. unwrap-Reports decl.name e2 ⟫ λ name e3 c3.
      add_variable-Reports R context _ e3 ⟫ λ p e4 c4.
      declared-Good loc decl name t l value p e4 ⟫ λ out e5 (c5, g).
      returns ((λ h. c1 (c2 (c3 (c4 (c5 h))))), g)

  as_statement-Good :
      (loc : Loc) (x : Expression) (e : Env R.Namespace) → GoodOp e (as_statement R context loc x e)
  unfolding as_statement all_reachable
  as_statement-Good loc x e = returns ((λ h. h), ((refl, tt, tt), and_true _))

  delete_of-Good :
      (loc : Loc) (x : Expression) (t : Ty) (e : Env R.Namespace)
      → GoodOp e (delete_of R context loc x t e)
  unfolding delete_of all_reachable
  delete_of-Good loc x (storage_ref t) e =
      Ensures-if (is_mapping t) _ _ e (report_ns-reports _ refl e ⟫ λ _ _ h. throws h)
        (returns {a = (true, one (delete loc t x))} ((λ h. h), ((tt, tt, tt), refl)))
  delete_of-Good loc x _ e = report_ns-reports _ refl e ⟫ λ _ _ h. throws h

  evaluated :
      (loc : Loc) (x : P.Expression) (e : Env R.Namespace)
      → GoodOp e ((R.expression x context unknown >>= λ expr. as_statement R context loc expr) e)
  evaluated loc x e = laws.expression x context unknown e ⟫ λ expr e1 c1.
      weaken (λ _ _ (c, g). ((λ h. c1 (c h)), g)) (as_statement-Good loc expr e1)

  pub expression_statement-Good :
      (loc : Loc) (x : P.Expression) (e : Env R.Namespace)
      → GoodOp e (expression_statement R context loc x e)
  unfolding expression_statement all_reachable
  expression_statement-Good loc (P.delete _ x) e =
      laws.expression x context unknown e ⟫ λ expr e1 c1. laws.used_variable expr e1 ⟫ λ _ e2 c2.
      unwrap-Reports (ty_of expr) e2 ⟫ λ t e3 c3.
      weaken (λ _ _ (c, g). ((λ h. c1 (c2 (c3 (c h)))), g)) (delete_of-Good loc expr t e3)
  expression_statement-Good loc (P.function_call l ty args) e =
      laws.call_expr l ty args context discard e ⟫ λ ret e1 c1.
      laws.check_overflow ret e1 ⟫ λ _ e2 c2.
      weaken (λ _ _ (c, g). ((λ h. c1 (c2 (c h))), g)) (as_statement-Good loc ret e2)
  expression_statement-Good loc (P.named_function_call l ty args) e =
      laws.named_call_expr l ty args true context discard e ⟫ λ ret e1 c1.
      laws.check_overflow ret e1 ⟫ λ _ e2 c2.
      weaken (λ _ _ (c, g). ((λ h. c1 (c2 (c h))), g)) (as_statement-Good loc ret e2)
  expression_statement-Good loc (P.assign _ (P.list _ vars) x) e =
      laws.destructure loc vars x context e ⟫ λ (fields, expr) e1 c1.
      returns {a = (true, one (destructure loc fields expr))} (c1, ((tt, tt, tt), refl))
  expression_statement-Good loc (P.assign l a x) e = evaluated loc (P.assign l a x) e
  expression_statement-Good loc x e = evaluated loc x e

  pub return_nothing-Good :
      (loc : Loc) (e : Env R.Namespace) → GoodOp e (return_nothing R context loc e)
  unfolding return_nothing all_reachable
  return_nothing-Good loc e = unwrap-Reports context.function_no e ⟫ λ function_no e1 c1.
      unwrap-Reports (R.no_returns e.namespace function_no) e1 ⟫ λ n e2 c2.
      Ensures-if (length e.symtable.returns == n) _ _ e2
        (returns ((λ h. c1 (c2 h)), ((tt, tt, tt), refl)))
        (report_ns-reports _ refl e2 ⟫ λ _ _ h. throws h)

  assign_returns-Reports : (e : Env R.Namespace) → Reports e (assign_returns R context e)
  unfolding assign_returns
  assign_returns-Reports e = assigned (assign_all e.symtable.returns e.symtable.vars)
    where
      assigned :
          (o : Option (Map Variable))
          → Reports e (elim o [
            | none ↦ panic
            | some vars ↦ ok tt (record e { symtable = record e.symtable { vars = vars } })
          ])
      assigned none = panics
      assigned (some vars) = returns (λ h. h)

  pub return_values-Good :
      (loc : Loc) (x : P.Expression) (e : Env R.Namespace)
      → GoodOp e (return_values R context loc x e)
  unfolding return_values all_reachable
  return_values-Good loc x e = laws.return_with_values x loc context e ⟫ λ expr e1 c1.
      laws.check_overflow expr e1 ⟫ λ _ e2 c2.
      assign_returns-Reports e2 ⟫ λ _ e3 c3. returns ((λ h. c1 (c2 (c3 h))), ((tt, tt, tt), refl))
