-- ===== src/Sema/Statements/Tests.antt =====
-- Runs of src/sema/statements.rs with a resolution of expressions that gives each one the type that
-- its number names, and its theorems at concrete inputs.
use ola_lang.Prelude.{
  ℕ, ◌+◌, zero, suc, length, Option, ◌≡◌, refl, Bool, true, false, none, some, [], ◌∷◌, ◌++◌, ◌⊎◌,
  ◌↔◌,
}
use ola_lang.Prelude.Run.{Run, ok, err, pure, Ensures, returns, Anything, and_then}
use ola_lang.Sema.Ast.{Ty, builtin, bool, uint, unreachable, Expression, other}
use ola_lang.Sema.Ast.Statements.{
  Parameter, Statement, if_else, while, expression, break, Statements, nil, cons, all_reachable,
}
use ola_lang.Sema.BigInt.Example.{ops}
use ola_lang.Sema.Casts.{cast_to}
use ola_lang.Sema.Diagnostics
use ola_lang.Sema.Diagnostics.{Diagnostics}
use ola_lang.Sema.Flow.{Exit, falls, Ways, breaks_in, continues_in}
use ola_lang.Sema.Flow.Tidy.{AreTidy}
use ola_lang.Sema.Flow.Exact.{all_reachable-Ways}
use ola_lang.Sema.LoopScopes
use ola_lang.Sema.LoopScopes.{LoopScope}
use ola_lang.Sema.Program as P
use ola_lang.Sema.Statements.{
  Resolver, ExprContext, statement, statements, expression_statement, as_statement, return_nothing,
  jump, enter, leave, mark_unreachable, condition, optional, else_branch, cast_at, enter_loop,
  leave_loop, next_expression,
}
use ola_lang.Sema.Statements.Accepted.{statement-TidyOrReported, Erred}
use ola_lang.Sema.Statements.Body.{FunctionParts, resolve_function_body}
use ola_lang.Sema.Statements.Body.Ready.{resolve_function_body-IsReady, IsReady}
use ola_lang.Sema.Statements.Counted.{added}
use ola_lang.Sema.Statements.Monad.{Env, State}
use ola_lang.Sema.Statements.Reports.{IsReporting, reported}
use ola_lang.Sema.Statements.Sound.{statement-Allowed, statement-counts, Allowed}
use ola_lang.Sema.Symtable

abbrev type_of : ℕ → Ty
type_of zero = bool
type_of (suc zero) = uint 32
type_of (suc (suc n)) = unreachable

abbrev resolved : P.Expression → Expression
resolved (P.other n l) = other n l (some (type_of n))
resolved _ = other 0 builtin (some bool)

abbrev pub calls : Resolver
calls = record {
  Namespace = Unit;
  big_ints = ops;
  expression = λ x c t. pure (resolved x);
  call_expr = λ l x xs c t. pure (resolved x);
  named_call_expr = λ l x xs b c t. pure (resolved x);
  destructure = λ l ps x c. pure ([], resolved x);
  return_with_values = λ x l c. pure (resolved x);
  resolve_var_decl_ty = λ x l c. pure (bool, builtin);
  used_variable = λ x. pure tt;
  check_shadowing = λ n c i. pure tt;
  check_overflow = λ x. pure tt;
  no_returns = λ n f. some 0;
}

calls-IsReporting : IsReporting calls
calls-IsReporting = record {
  expression = λ x c t e. returns (λ h. h);
  call_expr = λ l x xs c t e. returns (λ h. h);
  named_call_expr = λ l x xs b c t e. returns (λ h. h);
  destructure = λ l ps x c e. returns (λ h. h);
  return_with_values = λ x l c e. returns (λ h. h);
  resolve_var_decl_ty = λ x l c e. returns (λ h. h);
  used_variable = λ x e. returns (λ h. h);
  check_shadowing = λ n c i e. returns (λ h. h);
  check_overflow = λ x e. returns (λ h. h);
}

abbrev pub context : ExprContext
context = record {
  file_no = 0;
  contract_no = none;
  function_no = some 0;
  constant = false;
  lvalue = false;
}

abbrev pub env : Env (Unit {0})
env = record {
  namespace = tt;
  ns = record { next_id = 0; diagnostics = Diagnostics.empty };
  symtable = Symtable.new;
  diagnostics = Diagnostics.empty;
}

abbrev at_first : State (Unit {0})
at_first = record { env = env; loops = [] }

-- for (;;) { if (x) { break; } }
abbrev pub x : P.Expression
x = P.other 0 builtin

abbrev if_break : P.Statement
if_break = P.if_else builtin x (P.break builtin) P.missing

abbrev endless : P.Statement
endless = P.for builtin P.missing none none (P.present if_break)

-- { return; x; }
abbrev behind_return : P.Statement
behind_return =
    P.block builtin (P.cons (P.return builtin none) (P.cons (P.expression builtin x) P.nil))

abbrev resolved_x : Expression
resolved_x = other 0 builtin (some bool)

abbrev if_break' : Statement
if_break' = if_else builtin true resolved_x (cons (break builtin) nil) nil

endless_example :
    Ensures
      (λ (r, out) t. (w : Exit) → Ways out w → Allowed calls context r w)
      (Anything (State (Unit {0})))
      (statement calls context endless (record { env = env; loops = LoopScopes.new }))
endless_example = statement-Allowed calls context endless env

counts_example :
    Ensures
      (λ (r, out) t.
        t.loops
        ≡ []
          ++ added (breaks_in out) (continues_in out) (record { no_breaks = 2; no_continues = 0 })
            ∷ [])
      (Anything (State (Unit {0})))
      (statement calls context if_break
        (record { env = env; loops = [] ++ record { no_breaks = 2; no_continues = 0 } ∷ [] }))
counts_example =
    statement-counts calls context if_break env [] (record { no_breaks = 2; no_continues = 0 })

abbrev IsErred : State (Unit {0}) → Type 0
IsErred = Erred calls calls-IsReporting context

behind_example :
    Ensures
      (λ (r, out) t. IsErred t ⊎ (AreTidy out × (r ≡ all_reachable out)))
      IsErred
      (statement calls context behind_return at_first)
behind_example = statement-TidyOrReported calls calls-IsReporting context behind_return at_first

-- while (x) { break; } x;
abbrev loop_then_x : Statements
loop_then_x =
    cons (while builtin true resolved_x (cons (break builtin) nil))
      (cons (expression builtin true resolved_x) nil)

ways_example : (all_reachable loop_then_x ≡ true) ↔ Ways loop_then_x falls
unfolding all_reachable
ways_example =
    all_reachable-Ways loop_then_x ((refl, (tt, tt, tt)), refl, (refl, tt, tt)) ((tt, tt), (tt, tt))

-- whether a statement is resolved, with the result, the loops and the diagnostics behind it
abbrev outcome : P.Statement → Run (State (Unit {0})) (Bool × Statements)
outcome stmt = statement calls context stmt at_first

abbrev reports : Run (State (Unit {0})) (Bool × Statements) → ℕ
reports (ok a s) = length s.env.ns.diagnostics.contents + length s.env.diagnostics.contents
reports (err s) = length s.env.ns.diagnostics.contents + length s.env.diagnostics.contents
reports Run.panic = 0

abbrev given : Run (State (Unit {0})) (Bool × Statements) → Option Bool
given (ok (r, out) s) = some r
given _ = none

-- a block of three statements behind a return gets one report
three_behind : P.Statement
three_behind = P.block builtin (
    P.cons (P.return builtin none)
      (P.cons (P.expression builtin x) (P.cons (P.expression builtin x) P.nil)))

reports_once : (given (outcome three_behind) ≡ some true) × (reports (outcome three_behind) ≡ 1)
unfolding statement statements expression_statement as_statement return_nothing enter leave
    mark_unreachable and_then Diagnostics.push three_behind Symtable.new Symtable.new_scope
    Diagnostics.empty
reports_once = (refl, refl)

break_outside :
    (given (outcome (P.break builtin)) ≡ none) × (reports (outcome (P.break builtin)) ≡ 1)
unfolding statement jump and_then LoopScopes.do_break Diagnostics.push Diagnostics.empty
break_outside = (refl, refl)

-- a `for` without a condition is left by its break, and without one by nothing
endless_ends : given (outcome endless) ≡ some true
unfolding statement jump and_then LoopScopes.do_break optional else_branch condition cast_at enter
    leave enter_loop leave_loop next_expression LoopScopes.new_scope LoopScopes.leave_scope cast_to
endless_ends = refl

for_ever : given (outcome (P.for builtin P.missing none none P.missing)) ≡ some false
unfolding statement and_then optional enter leave enter_loop leave_loop next_expression
    LoopScopes.new_scope LoopScopes.leave_scope
for_ever = refl

-- a function with a named parameter, a return without a name, and the body behind a block
abbrev parameters : P.ParameterList
parameters =
    P.parameter builtin builtin x (some (record { loc = builtin; name = "a" })) P.no_parameters

abbrev one_return : P.ParameterList
one_return = P.parameter builtin builtin x none P.no_parameters

abbrev pub part : Parameter
part = record {
  loc = builtin;
  id = none;
  ty = bool;
  ty_loc = none;
  infinite_size = false;
  recursive = false;
}

abbrev parts : FunctionParts
parts = record { params = part ∷ []; returns = part ∷ [] }

function_example :
    Ensures
      (λ out e'. (reported e' ≡ true) ⊎ IsReady one_return parts out)
      (λ e'. reported e' ≡ true)
      (resolve_function_body calls parameters one_return (some endless) 0 none 0 parts env)
function_example =
    resolve_function_body-IsReady calls calls-IsReporting parameters one_return (some endless) 0
      none 0 parts env
