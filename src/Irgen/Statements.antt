-- ===== src/Irgen/Statements.antt =====
-- src/irgen/statements.rs and `gen_function` of src/irgen/functions.rs: the builder calls for the
-- resolved statements of a function. What is emitted for an expression is the record `Emitter`; the
-- values that the calls give are not kept.
pub mod Emits
pub mod Compiled
pub mod Functions
mod Tests
use ola_lang.Prelude.{
  ℕ, zero, suc, Bool, true, false, ◌&&◌, not, Option, none, some, List, [], ◌∷◌, ◌==◌,
  if◌then◌else◌,
}
use ola_lang.Prelude.Run.{M, Run, pure, unwrap, ◌>>=◌, ◌>>◌}
use ola_lang.Sema.Ast.{Identifier, Ty, Expression}
use ola_lang.Sema.Ast.Statements.{
  Parameter, DestructureField, Statement, block, variable_decl, if_else, while, for, do_while,
  delete, destructure, expression, continue, break, return, Statements, nil, cons, reachable,
}
use ola_lang.Sema.Casts.{ty_of}
use ola_lang.Sema.Flow.{is_unreachable}
use ola_lang.Sema.Statements.Body.{is_contract_storage}
use ola_lang.Irgen.Builder.{
  Binary, Emit, Call, append_basic_block, position_at_end, build_unconditional_branch,
  build_conditional_branch, build_return, instruction, call, append_block, push_loop, pop_loop,
  last_loop,
}

-- The calls out of the file that emit code.
pub record Emitter : Type 0 where
  pub expression : Expression → Emit (Unit {0})
  -- `ty.default(…)`: whether it gives a value
  pub default : Ty → Emit Bool
  pub storage_delete : Ty → Emit (Unit {0})
  pub destructure : List DestructureField → Expression → Emit (Unit {0})
  -- the values that `returns` emits, by their number
  pub uncast_values : Expression → Emit ℕ
  -- `ty.is_reference_type(ns)`
  pub is_reference_type : Ty → Bool

-- `ty() != Type::Unreachable`, where `ty()` may panic
ends : Expression → Emit Bool
ends e = do t ← unwrap (ty_of e); pure (not (is_unreachable (some t)))

pub when : Bool → Emit (Unit {0}) → Emit (Unit {0})
when true m = m
when false m = pure tt

pub times : ℕ → Emit (Unit {0}) → Emit (Unit {0})
times zero m = pure tt
times (suc n) m = do m; times n m

-- `func.body.last().map(Statement::reachable).unwrap_or(true)`
abbrev pub last_reachable : Statements → Bool
last_reachable nil = true
last_reachable (cons s nil) = reachable s
last_reachable (cons s (cons s' ss)) = last_reachable (cons s' ss)

-- `unwrap()`, where of the value only is kept whether there is one
pub available : Bool → Emit (Unit {0})
available true = pure tt
available false = unwrap none

-- `func.symtable.returns.iter().for_each(…)`: for each return, whether `var_table` has its variable
pub implicit_returns : List Bool → Emit (Unit {0})
unfolding available
implicit_returns [] = pure tt
implicit_returns (t ∷ ts) =
    let rest = implicit_returns ts in do available t; call instruction; call build_return; rest

abbrev pub is_empty : List Parameter → Bool
is_empty [] = true
is_empty (_ ∷ _) = false

module _ (E : Emitter) where
  value : Parameter → Option Expression → Emit (Unit {0})
  unfolding available
  value p (some init) = E.expression init
  value p none = do given ← E.default p.ty; available given

  pub variable : Parameter → Option Expression → Emit (Unit {0})
  unfolding value when available
  variable p init = do
    value p init
    when (not (E.is_reference_type p.ty && not (is_contract_storage p.ty)))
        (do call instruction; call instruction)

  pub returned : ℕ → Emit (Unit {0})
  unfolding times
  returned zero = pure tt
  returned (suc zero) = call build_return
  returned (suc (suc n)) = do times (suc (suc n)) (call instruction); call build_return

  pub next_of : ℕ → Option Expression → Emit (Unit {0})
  unfolding ends when
  next_of target none = call (build_unconditional_branch target)
  next_of target (some next) = do
    E.expression next
    next_reachable ← ends next
    when next_reachable (call (build_unconditional_branch target))

  pub condition : Expression → ℕ → ℕ → Emit (Unit {0})
  condition c then_block else_block = do
    E.expression c
    call instruction
    call (build_conditional_branch then_block else_block)

  -- a jump to the block behind both branches, which the first such jump appends
  pub to_end : Bool → Option ℕ → Emit (Option ℕ)
  to_end false endif = pure endif
  to_end true (some n) = do call (build_unconditional_branch n); pure (some n)
  to_end true none = do n ← append_block; call (build_unconditional_branch n); pure (some n)

  pub at_end : Option ℕ → Emit (Unit {0})
  at_end none = pure tt
  at_end (some n) = call (position_at_end n)

  target : ℕ → Option Expression → ℕ → ℕ
  target body none next = body
  target body (some _) next = next

  mutual
    unfolding variable returned next_of condition to_end at_end target when

    pub statement : Statement → Emit (Unit {0})
    statement (block _ ss) = block_of ss
    statement (variable_decl _ _ p init) = variable p init
    statement (return _ (some e)) = do n ← E.uncast_values e; returned n
    statement (return _ none) = call build_return
    statement (expression _ _ e) = E.expression e
    statement (if_else _ _ c ts nil) = do
      E.expression c
      call instruction
      then_block ← append_block
      endif ← append_block
      call (build_conditional_branch then_block endif)
      call (position_at_end then_block)
      reached ← statements ts true
      when reached (call (build_unconditional_branch endif))
      call (position_at_end endif)
    statement (if_else _ _ c ts (cons e es)) = do
      E.expression c
      call instruction
      then_block ← append_block
      else_block ← append_block
      call (build_conditional_branch then_block else_block)
      call (position_at_end then_block)
      then_reached ← statements ts true
      endif ← to_end then_reached none
      call (position_at_end else_block)
      else_reached ← statements (cons e es) true
      endif' ← to_end else_reached endif
      at_end endif'
    statement (for _ _ init (some c) next body) = do
      cond_block ← append_block
      body_block ← append_block
      next_block ← append_block
      end_block ← append_block
      statements init true
      call (build_unconditional_branch cond_block)
      call (position_at_end cond_block)
      E.expression c
      call (build_conditional_branch body_block end_block)
      call (position_at_end body_block)
      push_loop end_block next_block
      body_reached ← statements body true
      when body_reached (call (build_unconditional_branch next_block))
      pop_loop
      call (position_at_end next_block)
      next_of cond_block next
      call (position_at_end end_block)
    statement (for _ _ init none next body) = do
      body_block ← append_block
      next_block ← append_block
      end_block ← append_block
      statements init true
      call (build_unconditional_branch body_block)
      call (position_at_end body_block)
      push_loop end_block (target body_block next next_block)
      body_reached ← statements body true
      when body_reached (call (build_unconditional_branch next_block))
      pop_loop
      when body_reached (do call (position_at_end next_block); next_of body_block next)
      call (position_at_end end_block)
    statement (break _) = do (end, _) ← last_loop; call (build_unconditional_branch end)
    statement (continue _) = do (_, next) ← last_loop; call (build_unconditional_branch next)
    statement (while _ _ c body) = do
      body_block ← append_block
      cond_block ← append_block
      end_block ← append_block
      call (build_unconditional_branch cond_block)
      call (position_at_end cond_block)
      condition c body_block end_block
      call (position_at_end body_block)
      push_loop end_block cond_block
      body_reached ← statements body true
      when body_reached (call (build_unconditional_branch cond_block))
      pop_loop
      call (position_at_end end_block)
    statement (do_while _ _ body c) = do
      body_block ← append_block
      cond_block ← append_block
      end_block ← append_block
      call (build_unconditional_branch body_block)
      call (position_at_end body_block)
      push_loop end_block cond_block
      body_reached ← statements body true
      when body_reached (call (build_unconditional_branch cond_block))
      call (position_at_end cond_block)
      condition c body_block end_block
      call (position_at_end end_block)
    statement (delete _ t e) = do E.expression e; E.storage_delete t
    statement (destructure _ fields e) = E.destructure fields e

    -- the loop of a block, which stops behind a statement whose end is not reached
    pub block_of : Statements → Emit (Unit {0})
    block_of nil = pure tt
    block_of (cons s ss) = let rest = block_of ss in do statement s; when (reachable s) rest

    -- the loop over a body or a branch, which gives whether the end of the last is reached
    pub statements : Statements → Bool → Emit Bool
    statements nil reached = pure reached
    statements (cons s ss) reached = do statement s; statements ss (reachable s)

  -- the types of the parameters that have a name; `get_nth_param` gives each of them
  pub populate_arguments : List (Option Ty) → Emit (Unit {0})
  unfolding when
  populate_arguments [] = pure tt
  populate_arguments (none ∷ args) = populate_arguments args
  populate_arguments (some t ∷ args) = do
    call instruction
    call instruction
    when (E.is_reference_type t) (call instruction)
    populate_arguments args

  pub add_return : Bool → Emit (Unit {0})
  add_return false = pure tt
  add_return true = do call instruction; call instruction

  -- of one return, whether `var_table` has its variable
  pub named_return : Option Identifier → Ty → Emit Bool
  unfolding add_return
  named_return none t = pure false
  named_return (some name) t = do given ← E.default t; add_return given; pure given

  pub populate_named_returns : List Parameter → Emit (List Bool)
  unfolding named_return
  populate_named_returns [] = pure []
  populate_named_returns (r ∷ rs) = do
    t ← named_return r.id r.ty
    ts ← populate_named_returns rs
    pure (t ∷ ts)

  -- The symbol table has one position for each of the returns, and the body declares none of them.
  unfoldable pub gen_function :
      Statements → List (Option Ty) → (returns : List Parameter) → Emit (Unit {0})
  unfolding statement when populate_arguments populate_named_returns implicit_returns
  gen_function body arguments returns = do
    entry ← append_block
    call (position_at_end entry)
    populate_arguments arguments
    in_table ← populate_named_returns returns
    block_of body
    when (last_reachable body) (implicit_returns in_table)
    when (is_empty returns) (call build_return)
