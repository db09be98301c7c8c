-- ===== src/Sema/Statements/Body/Ready.antt =====
-- `resolve_function_body` of src/sema/statements.rs: what is handed on to src/irgen.
use ola_lang.Prelude.{
  not, arith, if◌then◌else◌, ℕ, ◌≡◌, refl, sym, ◌∙◌, Bool, true, false, ◌||◌, ◌&&◌, Option, none,
  some, List, [], ◌∷◌, ◌⊎◌, inl, inr, Bool-cases, never,
}
use ola_lang.Prelude.Run.{
  pure, Run, ok, unwrap, Ensures, returns, throws, panics, ◌⟫◌, weaken, both, Ensures-if,
}
use ola_lang.Sema.Ast.{Identifier, Ty}
use ola_lang.Sema.Ast.Statements.{Parameter, Statements, all_reachable}
use ola_lang.Sema.Diagnostics as D
use ola_lang.Sema.Flow.{breaks_in, continues_in}
use ola_lang.Sema.Flow.Tidy.{AreTidy}
use ola_lang.Sema.LoopScopes
use ola_lang.Sema.Program as P
use ola_lang.Sema.Statements.{Resolver, ExprContext, Resolved}
use ola_lang.Sema.Statements.Accepted.{statement-Accepts, Clean, Erred}
use ola_lang.Sema.Statements.Body.{
  FunctionParts, add_named, named, add_params, add_returns, report_storage, no_value, extended,
  resolved, resolve_body, resolve_function_body, is_contract_storage, is_none, body_context,
}
use ola_lang.Sema.Statements.Monad.{Env, State}
use ola_lang.Sema.Statements.Reports.{
  reported, Reports, IsReporting, report_ns-reports, add_variable-Reports,
}
use ola_lang.Sema.Statements.Sound.{statement-Sound, Accounted}
use ola_lang.Sema.Symtable.{VariableUsage, Symtable}

-- where a call fails, an error is reported
abbrev Told : {N A : Type 0} → Run (Env N) A → Type 0
Told = Ensures (λ _ _. Unit {0}) (λ e. reported e ≡ true)

-- whether one of the returns of `def` has a name
abbrev pub any_name : P.ParameterList → Bool
any_name P.no_parameters = false
any_name (P.absent _ rest) = any_name rest
any_name (P.parameter _ _ _ none rest) = any_name rest
any_name (P.parameter _ _ _ (some name) rest) = true

-- whether a return without a name is in storage and no return with a name stands behind it
abbrev pub is_asked : P.ParameterList → List Parameter → Bool
is_asked (P.parameter _ _ _ none rest) (r ∷ rs) =
    (is_contract_storage r.ty && not (any_name rest)) || is_asked rest rs
is_asked (P.parameter _ _ _ (some name) rest) (r ∷ rs) = is_asked rest rs
is_asked _ _ = false

-- whether the function has a return without a name in storage
abbrev pub any_unnamed : List Parameter → Bool
any_unnamed [] = false
any_unnamed (r ∷ rs) = (is_none r.id && is_contract_storage r.ty) || any_unnamed rs

-- A body that no jump leaves, and whose end, where it is reached, lacks no value.
abbrev pub IsReady : P.ParameterList → FunctionParts → Option Statements → Type 0
IsReady def f none = Unit
IsReady def f (some ss) =
    AreTidy ss
    × (breaks_in ss ≡ 0)
    × (continues_in ss ≡ 0)
    × ((all_reachable ss && is_asked def f.returns && any_unnamed f.returns) ≡ false)

unwrap-Told : {N A : Type 0} (o : Option A) (e : Env N) → Told (unwrap o e)
unwrap-Told none e = panics
unwrap-Told (some a) e = returns tt

silent : {N A : Type 0} {a : A} {e : Env N} → Told (ok a e)
silent = returns tt

or_false : (b : Bool) → (b || false) ≡ b
or_false true = refl
or_false false = refl

module _ (R : Resolver) (laws : IsReporting R) (context : ExprContext) where
  add_named-Told :
      (name : Identifier) (t : Ty) (usage : VariableUsage) (e : Env R.Namespace)
      → Told (add_named R context name t usage e)
  unfolding add_named
  add_named-Told name t usage e = weaken (λ _ _ _. tt) (add_variable-Reports R context _ e)

  named-Told :
      (name : Identifier) (push : ℕ → Symtable → Symtable) (p : Option ℕ) (e : Env R.Namespace)
      → Told (named R context name push p e)
  unfolding named
  named-Told name push none e = returns tt
  named-Told name push (some pos) e =
      weaken (λ _ _ _. tt) (laws.check_shadowing context.file_no context.contract_no name e)
      ⟫ λ _ _ _. returns tt

  add_params-Told :
      (ps : P.ParameterList) (rs : List Parameter) (e : Env R.Namespace)
      → Told (add_params R context ps rs e)
  unfolding add_params
  add_params-Told P.no_parameters rs e = returns tt
  add_params-Told (P.absent _ rest) rs e = panics
  add_params-Told (P.parameter _ _ _ none rest) [] e = silent ⟫ λ _ e1 _. add_params-Told rest [] e1
  add_params-Told (P.parameter _ _ _ none rest) (r ∷ rs) e =
      silent ⟫ λ _ e1 _. add_params-Told rest rs e1
  add_params-Told (P.parameter _ _ _ (some name) rest) [] e = panics
  add_params-Told (P.parameter _ _ _ (some name) rest) (r ∷ rs) e =
      add_named-Told name r.ty _ e ⟫ λ p e1 _.
      named-Told name _ p e1 ⟫ λ _ e2 _. add_params-Told rest rs e2

  -- the answer is that of `is_asked`, or what came in where no return has a name
  add_returns-Asks :
      (ps : P.ParameterList) (rs : List Parameter) (required : Bool) (e : Env R.Namespace)
      → Ensures
          (λ r _. r ≡ (is_asked ps rs || (required && not (any_name ps))))
          (λ e'. reported e' ≡ true)
          (add_returns R context ps rs required e)
  unfolding add_returns
  add_returns-Asks P.no_parameters rs required e = returns (ground arith)
  add_returns-Asks (P.absent _ rest) rs required e = panics
  add_returns-Asks (P.parameter _ _ _ _ rest) [] required e = panics
  add_returns-Asks (P.parameter _ _ _ (some name) rest) (r ∷ rs) required e =
      add_named-Told name r.ty _ e ⟫ λ p e1 _. named-Told name _ p e1 ⟫ λ _ e2 _.
      weaken (λ _ _ is. is ∙ asked_false (is_asked rest rs) (any_name rest) required)
        (add_returns-Asks rest rs false e2)
    where
      asked_false : (a b c : Bool) → (a || (false && not b)) ≡ (a || (c && false))
      asked_false a b c = ground arith
  add_returns-Asks (P.parameter loc _ _ none rest) (r ∷ rs) required e =
      add_named-Told (record { loc = loc; name = "" }) r.ty _ e ⟫ λ p e1 _.
      unwrap-Told p e1 ⟫ λ pos e2 _. silent ⟫ λ _ e3 _.
      weaken
        (λ _ _ is.
          is ∙ moved (is_asked rest rs) (is_contract_storage r.ty) (any_name rest) required)
        (add_returns-Asks rest rs (is_contract_storage r.ty || required) e3)
    where
      moved : (a s n c : Bool) → (a || ((s || c) && not n)) ≡ (((s && not n) || a) || (c && not n))
      moved a s n c = ground arith

  report_storage-Reports :
      (ps : List Parameter) (e : Env R.Namespace) → Reports e (report_storage R context ps e)
  unfolding report_storage
  report_storage-Reports [] e = returns (λ h. h)
  report_storage-Reports (p ∷ ps) e =
      Ensures-if (is_none p.id && is_contract_storage p.ty) _ _ e
        (report_ns-reports (no_value p.loc) refl e ⟫ λ _ e1 h1.
          weaken (λ _ _ k h. elim (never (sym (k h) ∙ h1)) [ ]) (report_storage-Reports ps e1))
        (report_storage-Reports ps e)

  -- a return without a name in storage is reported
  report_storage-Unnamed :
      (ps : List Parameter) (e : Env R.Namespace)
      → Ensures
          (λ _ e'. reported e' ≡ false → any_unnamed ps ≡ false)
          (λ e'. reported e' ≡ true)
          (report_storage R context ps e)
  unfolding report_storage
  report_storage-Unnamed [] e = returns (λ h. refl)
  report_storage-Unnamed (p ∷ ps) e = elim (Bool-cases (is_none p.id && is_contract_storage p.ty)) [
    | inl is ↦ rw is (
        report_ns-reports (no_value p.loc) refl e ⟫ λ _ e1 h1.
        weaken (λ _ _ k h. elim (never (sym (k h) ∙ h1)) [ ]) (report_storage-Reports ps e1))
    | inr is ↦ rw is (report_storage-Unnamed ps e)
  ]

  extended-reported : (e : Env R.Namespace) → reported (extended R context e) ≡ reported e
  unfolding extended D.extend D.empty
  extended-reported e = or_false (reported e)

  -- what follows the body
  check_end-Reports :
      (f : FunctionParts) (reached required : Bool) (e : Env R.Namespace)
      → Ensures
          (λ _ e'.
            reported e' ≡ false
            → (reported e ≡ false) × ((reached && required && any_unnamed f.returns) ≡ false))
          (λ e'. reported e' ≡ true)
          ((if reached && required then report_storage R context f.returns else pure tt) e)
  check_end-Reports f true true e =
      weaken (λ _ _ (k, u) h. (k h, u h))
        (both (report_storage-Reports f.returns e) (report_storage-Unnamed f.returns e))
  check_end-Reports f true false e = returns (λ h. (h, refl))
  check_end-Reports f false required e = returns (λ h. (h, refl))

  module _ (def : P.ParameterList) (f : FunctionParts) where
    abbrev Ended : Run (Env R.Namespace) (Option Statements) → Type 0
    Ended = Ensures (λ out e. (reported e ≡ true) ⊎ IsReady def f out) (λ e. reported e ≡ true)

    resolved-Ready :
        (required : Bool) {r : Run (State R.Namespace) Resolved}
        → required ≡ is_asked def f.returns
        → Ensures
            (λ res t.
              (Clean R laws context t → AreTidy res.1 × (res.0 ≡ all_reachable res.1))
              × Accounted R context [] res t)
            (Erred R laws context)
            r
        → Ended (resolved R context f required r)
    unfolding resolved
    resolved-Ready required asks (throws {s = t} h) = throws (extended-reported t.env ∙ h)
    resolved-Ready required asks panics = panics
    resolved-Ready required asks (returns {a = a} {s = t} (tidy, (counted, _))) =
        check_end-Reports f a.0 required (extended R context t.env) ⟫ λ _ e k.
        returns (elim (Bool-cases (reported e)) [
          | inl h ↦ inl h
          | inr c ↦
              let (clean, end) = k c in
              let (are_tidy, is) = tidy (sym (extended-reported t.env) ∙ clean) in
              inr (are_tidy, counted.fits.0, counted.fits.1, rw (← is, ← asks) end)
        ])

    resolve_body-Ready :
        (required : Bool) (body : Option P.Statement) (e : Env R.Namespace)
        → required ≡ is_asked def f.returns
        → Ended (resolve_body R context f required body e)
    unfolding resolve_body LoopScopes.new
    resolve_body-Ready required none e asks = returns (inr tt)
    resolve_body-Ready required (some stmt) e asks =
        let s : State R.Namespace = record {
          env = record e { diagnostics = D.empty };
          loops = [];
        } in
        resolved-Ready required asks (
          both (weaken (λ (r, out) t k c. (k c).1) (statement-Accepts R laws context stmt s))
            (statement-Sound R context stmt s))

or_none : (b c : Bool) → (b || (false && c)) ≡ b
or_none b c = ground arith

-- Where the calls out of the file keep errors and fail only with one reported: resolving a function
-- reports an error, or it gives no body, or a body that is tidy, that no break and no continue
-- leaves, and whose end is not reached where a value is asked for at the end (a return without a
-- name is in storage and none with a name stands behind it) and the function has a return without a
-- name in storage; where it fails, an error is reported.
pub resolve_function_body-IsReady :
    (R : Resolver) (laws : IsReporting R) (params returns : P.ParameterList)
    (body : Option P.Statement) (file_no : ℕ) (contract_no : Option ℕ) (function_no : ℕ)
    (f : FunctionParts) (e : Env R.Namespace)
    → Ensures
        (λ out e'. (reported e' ≡ true) ⊎ IsReady returns f out)
        (λ e'. reported e' ≡ true)
        (resolve_function_body R params returns body file_no contract_no function_no f e)
unfolding resolve_function_body
resolve_function_body-IsReady R laws params rets body file_no contract_no function_no f e =
    let context = body_context R file_no contract_no function_no in
    silent ⟫ λ _ e0 _. add_params-Told R laws context params f.params e0 ⟫ λ _ e1 _.
    add_returns-Asks R laws context rets f.returns false e1 ⟫ λ required e2 asks.
    resolve_body-Ready R laws context rets f required body e2
      (asks ∙ or_none (is_asked rets f.returns) (not (any_name rets)))
