-- ===== src/Sema/Statements.antt =====
-- src/sema/statements.rs: the resolution of the statements of a function. The resolution of the
-- expressions and types in them, and what it records of their use, is the record `Resolver`.
pub mod Monad
pub mod Post
pub mod Counted
pub mod Leaves
pub mod Sound
pub mod Reports
pub mod Tidy
pub mod Accepted
pub mod Body
mod Tests
use ola_lang.Prelude.{
  ℕ, Bool, true, false, ◌||◌, ◌&&◌, not, Option, none, some, List, [], ◌∷◌, ltb, if◌then◌else◌,
  length, ◌==◌,
}
use ola_lang.Prelude.Map.{Map, insert}
use ola_lang.Prelude.Outcome.{done}
use ola_lang.Prelude.Outcome as Outcome
use ola_lang.Prelude.Run.{Run, ok, err, panic, M, pure, stop, unwrap, ◌>>=◌, ◌>>◌}
use ola_lang.Sema.Ast.{Loc, Identifier, Ty, bool, storage_ref, mapping, Expression}
use ola_lang.Sema.Ast.Statements.{
  Parameter, DestructureField, Statement, block, variable_decl, if_else, while, for, do_while,
  delete, destructure, expression, continue, break, return, Statements, nil, cons, ◌⊕◌,
}
use ola_lang.Sema.BigInt.{BigIntOps}
use ola_lang.Sema.Casts.{ty_of, cast_to}
use ola_lang.Sema.Diagnostics.{Diagnostic, error_diagnostic, message, num}
use ola_lang.Sema.Eval.Const.{loc_of}
use ola_lang.Sema.Eval.Monad as Eval
use ola_lang.Sema.Flow.{is_unreachable}
use ola_lang.Sema.Integers.{ResolveTo, unknown, discard, to_type}
use ola_lang.Sema.LoopScopes
use ola_lang.Sema.LoopScopes.{LoopScope}
use ola_lang.Sema.Program as P
use ola_lang.Sema.Statements.Monad.{Env, State, lift, report, report_ns, modify_symtable}
use ola_lang.Sema.Symtable
use ola_lang.Sema.Symtable.{Declaration, ola, local_variable, StorageLocation, Variable}

pub record ExprContext : Type 0 where
  pub file_no : ℕ
  pub contract_no : Option ℕ
  pub function_no : Option ℕ
  pub constant : Bool
  pub lvalue : Bool

-- The calls out of this file, in the order of their arguments in the source; `Namespace` is what
-- they use of `ns` besides the fields of `Ns`. They leave the context as it was: where they set
-- `lvalue`, a guard sets it back.
pub record Resolver : Type 1 where
  pub Namespace : Type 0
  pub big_ints : BigIntOps
  pub expression : P.Expression → ExprContext → ResolveTo → M (Env Namespace) Expression
  pub call_expr :
      Loc → P.Expression → P.Expressions → ExprContext → ResolveTo → M (Env Namespace) Expression
  pub named_call_expr :
      Loc
      → P.Expression
      → P.NamedArguments
      → Bool
      → ExprContext
      → ResolveTo
      → M (Env Namespace) Expression
  -- the fields and the expression of the statement that it gives
  pub destructure :
      Loc
      → P.ParameterList
      → P.Expression
      → ExprContext
      → M (Env Namespace) (List DestructureField × Expression)
  pub return_with_values : P.Expression → Loc → ExprContext → M (Env Namespace) Expression
  pub resolve_var_decl_ty :
      P.Expression → Option StorageLocation → ExprContext → M (Env Namespace) (Ty × Loc)
  pub used_variable : Expression → M (Env Namespace) (Unit {0})
  pub check_shadowing : ℕ → Option ℕ → Identifier → M (Env Namespace) (Unit {0})
  -- `expr.recurse(ns, check_term_for_constant_overflow)`
  pub check_overflow : Expression → M (Env Namespace) (Unit {0})
  -- `ns.functions[function_no].returns.len()`
  pub no_returns : Namespace → ℕ → Option ℕ

abbrev unreachable_statement : Loc → Diagnostic
unreachable_statement loc = error_diagnostic loc (message "unreachable statement" [])

abbrev no_block : Loc → Diagnostic
no_block loc = error_diagnostic loc (message "expected code block, not list of named arguments" [])

-- `Type::is_mapping`
abbrev is_mapping : Ty → Bool
is_mapping (mapping _ _ _ _) = true
is_mapping (storage_ref t) = is_mapping t
is_mapping _ = false

-- `elem.assigned = true` for the variables at the positions; `vars.get_mut(offset).unwrap()`
assign_all : List ℕ → Map Variable → Option (Map Variable)
assign_all [] vars = some vars
assign_all (p ∷ ps) vars = elim (vars p) [
  | none ↦ none
  | some v ↦ assign_all ps (insert vars p (record v { assigned = true }))
]

-- what a resolved list of statements of one block or branch adds, with whether its end is reached
abbrev pub Resolved : Type 0
Resolved = Bool × Statements

abbrev pub one : Statement → Statements
one s = cons s nil

module _ (R : Resolver) (context : ExprContext) where
  abbrev pub Op : Type 0 → Type 0
  Op A = M (Env R.Namespace) A

  abbrev pub St : Type 0 → Type 0
  St A = M (State R.Namespace) A

  -- `expr.cast(loc, ty, ns, diagnostics)`
  pub cast_at : Loc → Ty → Expression → Op Expression
  cast_at loc to e env = elim (cast_to loc R.big_ints to e env.diagnostics) [
    | Eval.ok e' ds ↦ ok e' (record env { diagnostics = ds })
    | Eval.err ds ↦ err (record env { diagnostics = ds })
    | Eval.panic ↦ panic
    | Eval.deep ↦ panic
  ]

  pub condition : P.Expression → Op Expression
  unfolding cast_at
  condition e = do
    expr ← R.expression e context (to_type bool)
    R.used_variable expr
    cast_at (loc_of expr) bool expr

  initializer : Ty → Option P.Expression → Op (Option Expression)
  unfolding cast_at
  initializer t none = pure none
  initializer t (some init) = do
    expr ← R.expression init context (to_type t)
    R.check_overflow expr
    R.used_variable expr
    e ← cast_at (loc_of expr) t expr
    pure (some e)

  -- `symtable.add`
  pub add_variable : Declaration → Op (Option ℕ)
  add_variable d env = elim (Symtable.add d env.symtable env.ns) [
    | done (pos, table, ns) ↦ ok pos (record env { symtable = table; ns = ns })
    | Outcome.panic ↦ panic
  ]

  -- what follows `symtable.add`
  declared :
      Loc
      → P.VariableDeclaration
      → Identifier
      → Ty
      → Loc
      → Option Expression
      → Option ℕ
      → Op Statements
  declared loc decl name t ty_loc init none = pure nil
  declared loc decl name t ty_loc init (some p) = do
    R.check_shadowing context.file_no context.contract_no name
    pure (
        one (
          variable_decl loc p
            (record {
              loc = decl.loc;
              ty = t;
              ty_loc = some ty_loc;
              id = some name;
              infinite_size = false;
              recursive = false;
            })
            init))

  pub variable_definition : Loc → P.VariableDeclaration → Option P.Expression → Op Resolved
  unfolding initializer add_variable declared
  variable_definition loc decl init = do
    (t, ty_loc) ← R.resolve_var_decl_ty decl.ty decl.storage context
    value ← initializer t init
    name ← unwrap decl.name
    p ← add_variable (record {
      id = name;
      ty = t;
      initializer = ola value;
      usage_type = local_variable;
      storage_location = decl.storage;
    })
    out ← declared loc decl name t ty_loc value p
    pure (true, out)

  pub return_nothing : Loc → Op Resolved
  return_nothing loc env =
      (do
        function_no ← unwrap context.function_no
        n ← unwrap (R.no_returns env.namespace function_no)
        if length env.symtable.returns == n
            then pure (false, one (return loc none))
            else (report_ns (
                  error_diagnostic loc
                    (message "missing return value, {} return values expected" (num n ∷ [])))
                >> stop))
        env

  assign_returns : Op (Unit {0})
  unfolding assign_all
  assign_returns env = elim (assign_all env.symtable.returns env.symtable.vars) [
    | none ↦ panic
    | some vars ↦ ok tt (record env { symtable = record env.symtable { vars = vars } })
  ]

  pub return_values : Loc → P.Expression → Op Resolved
  unfolding assign_returns
  return_values loc e = do
    expr ← R.return_with_values e loc context
    R.check_overflow expr
    assign_returns
    pure (false, one (return loc (some expr)))

  -- `expr.tys() != vec![Type::Unreachable]`, where an expression without one type is a call or a
  -- list of other than one value
  as_statement : Loc → Expression → Op Resolved
  as_statement loc expr =
      let reachable = not (is_unreachable (ty_of expr)) in
      pure (reachable, one (expression loc reachable expr))

  delete_of : Loc → Expression → Ty → Op Resolved
  delete_of loc expr (storage_ref t) =
      if is_mapping (storage_ref t)
      then (report_ns
            (error_diagnostic loc (message "'delete' cannot be applied to mapping type" []))
          >> stop)
      else pure (true, one (delete loc t expr))
  delete_of loc expr _ =
      report_ns
        (error_diagnostic loc (message "argument to 'delete' should be storage reference" []))
      >> stop

  pub expression_statement : Loc → P.Expression → Op Resolved
  unfolding as_statement delete_of
  expression_statement loc (P.delete _ e) = do
    expr ← R.expression e context unknown
    R.used_variable expr
    t ← unwrap (ty_of expr)
    delete_of loc expr t
  expression_statement loc (P.function_call l ty args) = do
    ret ← R.call_expr l ty args context discard
    R.check_overflow ret
    as_statement loc ret
  expression_statement loc (P.named_function_call l ty args) = do
    ret ← R.named_call_expr l ty args true context discard
    R.check_overflow ret
    as_statement loc ret
  expression_statement loc (P.assign _ (P.list _ vars) e) = do
    (fields, expr) ← R.destructure loc vars e context
    pure (true, one (destructure loc fields expr))
  expression_statement loc e = do expr ← R.expression e context unknown; as_statement loc expr

  jump :
      Loc
      → (LoopScopes.LoopScopes → Bool × LoopScopes.LoopScopes)
      → (Loc → Statement)
      → Diagnostic
      → St Resolved
  jump loc do_jump make d s =
      let (inside, loops) = do_jump s.loops in
      if inside
      then ok (false, one (make loc)) (record s { loops = loops })
      else (lift (report d) >> stop) s

  enter_loop : St (Unit {0})
  enter_loop s = ok tt (record s { loops = LoopScopes.new_scope s.loops })

  leave_loop : St LoopScope
  leave_loop s = elim (LoopScopes.leave_scope s.loops) [
    | done (scope, loops) ↦ ok scope (record s { loops = loops })
    | Outcome.panic ↦ panic
  ]

  enter : St (Unit {0})
  enter = lift (modify_symtable Symtable.new_scope)

  leave : St (Unit {0})
  leave = lift (modify_symtable Symtable.leave_scope)

  -- the report on the first statement behind one whose end is not reached
  mark_unreachable : Loc → (reachable already : Bool) → St Bool
  mark_unreachable loc false false = do lift (report_ns (unreachable_statement loc)); pure true
  mark_unreachable loc _ already = pure already

  next_expression : Option P.Expression → Op (Option Expression)
  next_expression none = pure none
  next_expression (some e) = do expr ← R.expression e context (to_type bool); pure (some expr)

  -- `statement`: what it gives, and what it pushes on `res`
  mutual
    unfolding condition variable_definition return_nothing return_values expression_statement jump
        enter_loop leave_loop enter leave mark_unreachable next_expression cast_at

    pub statement : P.Statement → St Resolved
    statement (P.variable_definition loc decl init) = lift (variable_definition loc decl init)
    statement (P.block loc ss) = do
      enter
      (reachable, out) ← statements ss true false
      leave
      pure (reachable, one (block loc out))
    statement (P.break loc) =
        jump loc LoopScopes.do_break break
          (error_diagnostic loc (message "break statement not in loop" []))
    statement (P.continue loc) =
        jump loc LoopScopes.do_continue continue
          (error_diagnostic loc (message "continue statement not in loop" []))
    statement (P.while loc c body) = do
      cond ← lift (condition c)
      enter
      enter_loop
      (_, out) ← statement body
      leave
      leave_loop
      pure (true, one (while loc true cond out))
    statement (P.do_while loc body c) = do
      cond ← lift (condition c)
      enter
      enter_loop
      (_, out) ← statement body
      leave
      leave_loop
      pure (true, one (do_while loc true out cond))
    statement (P.if_else loc c then_stmt else_stmt) = do
      cond ← lift (condition c)
      enter
      (then_reachable, then_out) ← statement then_stmt
      leave
      (else_reachable, else_out) ← else_branch else_stmt
      let reachable = then_reachable || else_reachable
      pure (reachable, one (if_else loc reachable cond then_out else_out))
    statement (P.args loc _) = do lift (report_ns (no_block loc)); stop
    statement (P.for loc init none next body) = do
      enter
      (_, init_out) ← optional init
      enter_loop
      (_, body_out) ← optional body
      control ← leave_loop
      let reachable = ltb 0 control.no_breaks
      next_out ← lift (next_expression next)
      leave
      pure (reachable, one (for loc reachable init_out none next_out body_out))
    statement (P.for loc init (some c) next body) = do
      enter
      (_, init_out) ← optional init
      expr ← lift (R.expression c context (to_type bool))
      cond ← lift (cast_at (P.expression_loc c) bool expr)
      enter_loop
      (body_reachable, body_out) ← optional body
      control ← leave_loop
      next_out ←
          lift (
            if body_reachable || ltb 0 control.no_continues
            then next_expression next
            else pure none)
      leave
      pure (true, one (for loc true init_out (some cond) next_out body_out))
    statement (P.return loc none) = lift (return_nothing loc)
    statement (P.return loc (some e)) = lift (return_values loc e)
    statement (P.expression loc e) = lift (expression_statement loc e)
    statement (P.error _) = unwrap none  -- `unimplemented!()`

    -- the loop of a block over its statements
    statements : P.Statements → (reachable already : Bool) → St Resolved
    statements P.nil reachable already = pure (reachable, nil)
    statements (P.cons stmt rest) reachable already = do
      already' ← mark_unreachable (P.loc_of stmt) reachable already
      (reachable', out) ← statement stmt
      (end, out') ← statements rest reachable' already'
      pure (end, out ⊕ out')

    else_branch : P.OptionalStatement → St Resolved
    else_branch P.missing = pure (true, nil)
    else_branch (P.present stmt) = do
      enter
      (reachable, out) ← statement stmt
      leave
      pure (reachable, out)

    -- the first statement or the body of a `for`
    pub optional : P.OptionalStatement → St Resolved
    optional P.missing = pure (true, nil)
    optional (P.present stmt) = statement stmt
