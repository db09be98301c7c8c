-- ===== src/Sema/Statements/Body.antt =====
-- `resolve_function_body` of src/sema/statements.rs: the parameters, the returns and the body of a
-- function.
pub mod Ready
mod Tests
use ola_lang.Prelude.{
  ℕ, Bool, true, false, ◌||◌, ◌&&◌, Option, none, some, List, [], ◌∷◌, ◌++◌, if◌then◌else◌,
}
use ola_lang.Prelude.Run.{Run, ok, err, panic, M, pure, unwrap, ◌>>=◌, ◌>>◌}
use ola_lang.Sema.Ast.{Loc, Identifier, Ty, storage_ref}
use ola_lang.Sema.Ast.Statements.{Parameter, Statements}
use ola_lang.Sema.Diagnostics as D
use ola_lang.Sema.Diagnostics.{Diagnostic, error_diagnostic, message}
use ola_lang.Sema.LoopScopes
use ola_lang.Sema.Program as P
use ola_lang.Sema.Statements.{Resolver, ExprContext, Op, add_variable, statement}
use ola_lang.Sema.Statements.Monad.{Env, State, report_ns, modify_symtable}
use ola_lang.Sema.Symtable
use ola_lang.Sema.Symtable.{
  Symtable, ola, VariableUsage, parameter, return_variable, anonymous_return_variable,
}

-- `Type::is_contract_storage`
abbrev pub is_contract_storage : Ty → Bool
is_contract_storage (storage_ref _) = true
is_contract_storage _ = false

-- `ns.functions[function_no]`, in the parts that are read
pub record FunctionParts : Type 0 where
  pub params : List Parameter
  pub returns : List Parameter

abbrev pub is_none : Option Identifier → Bool
is_none none = true
is_none (some _) = false

abbrev push_argument : Option ℕ → Symtable → Symtable
push_argument p st = record st { arguments = st.arguments ++ p ∷ [] }

abbrev push_return : ℕ → Symtable → Symtable
push_return p st = record st { returns = st.returns ++ p ∷ [] }

abbrev no_value : Loc → Diagnostic
no_value loc =
    error_diagnostic loc
      (message "storage reference must be given value with a return statement" [])

module _ (R : Resolver) (context : ExprContext) where
  add_named : Identifier → Ty → VariableUsage → Op R context (Option ℕ)
  add_named name t usage = add_variable R context (record {
    id = name;
    ty = t;
    initializer = ola none;
    usage_type = usage;
    storage_location = none;
  })

  -- behind `symtable.add` of a name
  named : Identifier → (ℕ → Symtable → Symtable) → Option ℕ → Op R context (Unit {0})
  named name push none = pure tt
  named name push (some pos) = do
    R.check_shadowing context.file_no context.contract_no name
    modify_symtable (push pos)

  add_params : P.ParameterList → List Parameter → Op R context (Unit {0})
  unfolding add_named named
  add_params P.no_parameters ps = pure tt
  add_params (P.absent _ rest) ps = unwrap none
  add_params (P.parameter _ _ _ none rest) [] =
      let rest' = add_params rest [] in do modify_symtable (push_argument none); rest'
  add_params (P.parameter _ _ _ none rest) (p ∷ ps) =
      let rest' = add_params rest ps in do modify_symtable (push_argument none); rest'
  add_params (P.parameter _ _ _ (some name) rest) [] = unwrap none
  add_params (P.parameter _ _ _ (some name) rest) (p ∷ ps) = do
    pos ← add_named name p.ty parameter
    named name (λ n. push_argument (some n)) pos
    add_params rest ps

  -- whether a return is required behind the returns
  add_returns : P.ParameterList → List Parameter → Bool → Op R context Bool
  unfolding add_named named
  add_returns P.no_parameters rs required = pure required
  add_returns (P.absent _ rest) rs required = unwrap none
  add_returns (P.parameter _ _ _ _ rest) [] required = unwrap none
  add_returns (P.parameter loc _ _ (some name) rest) (r ∷ rs) required = do
    pos ← add_named name r.ty return_variable
    named name push_return pos
    add_returns rest rs false
  add_returns (P.parameter loc _ _ none rest) (r ∷ rs) required = do
    p ← add_named (record { loc = loc; name = "" }) r.ty anonymous_return_variable
    pos ← unwrap p
    modify_symtable (push_return pos)
    add_returns rest rs (is_contract_storage r.ty || required)

  report_storage : List Parameter → Op R context (Unit {0})
  report_storage [] = pure tt
  report_storage (p ∷ ps) =
      let rest = report_storage ps in
      if is_none p.id && is_contract_storage p.ty
      then (report_ns (no_value p.loc) >> rest)
      else rest

  -- `ns.diagnostics.extend(diagnostics)`
  extended : Env R.Namespace → Env R.Namespace
  extended e = record e {
    ns = record e.ns { diagnostics = D.extend e.ns.diagnostics e.diagnostics };
    diagnostics = D.empty;
  }

  -- what follows the resolution of the body, which gives the body of the function
  resolved :
      FunctionParts
      → (required : Bool) → Run (State R.Namespace) (Bool × Statements)
      → Run (Env R.Namespace) (Option Statements)
  unfolding extended report_storage
  resolved f required panic = panic
  resolved f required (err s) = err (extended s.env)
  resolved f required (ok (reachable, res) s) =
      ((if reachable && required then report_storage f.returns else pure tt) >> pure (some res))
        (extended s.env)

module _ (R : Resolver) where
  abbrev pub body_context :
      (file_no : ℕ) → (contract_no : Option ℕ) → (function_no : ℕ) → ExprContext
  body_context file_no contract_no function_no = record {
    file_no = file_no;
    contract_no = contract_no;
    function_no = some function_no;
    constant = false;
    lvalue = false;
  }

  -- the body, with diagnostics of its own
  resolve_body :
      ExprContext
      → FunctionParts
      → (required : Bool) → Option P.Statement
      → M (Env R.Namespace) (Option Statements)
  unfolding resolved
  resolve_body context f required none e = ok none e
  resolve_body context f required (some stmt) e = resolved R context f required (
      statement R context stmt
        (record { env = record e { diagnostics = D.empty }; loops = LoopScopes.new }))

  -- The parameters, returns and body are those of `def`. The result is what becomes of the body of
  -- the function, with the symbol table: `none` where `def` has no body.
  pub resolve_function_body :
      (params returns : P.ParameterList)
      → Option P.Statement
      → (file_no : ℕ) → (contract_no : Option ℕ) → (function_no : ℕ) → FunctionParts
      → M (Env R.Namespace) (Option Statements)
  unfolding add_params add_returns resolve_body
  resolve_function_body params returns body file_no contract_no function_no f =
      let context = body_context file_no contract_no function_no in
      do
        modify_symtable (λ st. Symtable.new)
        add_params R context params f.params
        required ← add_returns R context returns f.returns false
        resolve_body context f required body
