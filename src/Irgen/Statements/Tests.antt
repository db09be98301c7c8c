-- ===== src/Irgen/Statements/Tests.antt =====
-- Runs of src/irgen/statements.rs with one instruction for each expression, and the theorems on it at
-- concrete inputs.
use ola_lang.Prelude.{
  ◌≡◌, refl, true, false, Option, none, some, List, [], ◌∷◌, if◌then◌else◌, get_last?, drop_last,
}
use ola_lang.Prelude.Run.{Run, ok, panic, pure, and_then, ◌>>◌}
use ola_lang.Sema.Ast.{Identifier, Ty, builtin, bool, Expression, other}
use ola_lang.Sema.Ast.Statements.{
  Parameter, while, do_while, for, break, return, Statements, nil, cons, reachable, all_reachable,
}
use ola_lang.Sema.Casts.{ty_of}
use ola_lang.Sema.Flow.{is_unreachable, breaks_in, continues_in}
use ola_lang.Sema.Flow.Tidy.{AreTidy}
use ola_lang.Irgen.Builder.{
  Binary, Emit, Call, append_basic_block, position_at_end, build_unconditional_branch, build_return,
  instruction, call, append_block, push_loop, pop_loop, last_loop, accept, accept_all, nothing_yet,
  fill,
}
use ola_lang.Irgen.Statements.{
  Emitter, statement, block_of, statements, gen_function, ends, when, times, condition, returned,
  target, to_end, at_end, next_of, populate_arguments, populate_named_returns, named_return,
  implicit_returns, available,
}
use ola_lang.Irgen.Statements.Emits.{EmitsThrough, Defaults}
use ola_lang.Irgen.Statements.Functions.{gen_function-Terminated, fresh, Meets, verdict, in_table}
use ola_lang.Irgen.Steps.{sure, ◌⟫◌, state, instructs}

-- an expression that does not end is a return of the program
abbrev emitted : Expression → Emit (Unit {0})
emitted e = if is_unreachable (ty_of e) then call build_return else call instruction

abbrev emitter : Emitter
emitter = record {
  expression = emitted;
  default = λ t. (do call instruction; pure true);
  storage_delete = λ t. call instruction;
  destructure = λ fs e. call instruction;
  uncast_values = λ e b. ok 1 b;
  is_reference_type = λ t. false;
}

abbrev x : Expression
x = other 0 builtin (some bool)

x-Emits : EmitsThrough emitter x
x-Emits = (refl, λ b es n d h. instructs h)

default-Given : (t : Ty) → Defaults emitter true t
default-Given t b es n d h = instructs h ⟫ λ _ _ h1. sure (refl, h1)

-- while (x) { break; } return;
abbrev loop_return : Statements
loop_return =
    cons (while builtin true x (cons (break builtin) nil)) (cons (return builtin none) nil)

-- an open block 0, and nothing else
abbrev entry : Binary
entry = record { calls = append_basic_block 0 ∷ position_at_end 0 ∷ []; blocks = 1; loops = [] }

-- while (x) { break; }
abbrev only_loop : Statements
only_loop = cons (while builtin true x (cons (break builtin) nil)) nil

only_loop-AreTidy : AreTidy only_loop
unfolding all_reachable
only_loop-AreTidy = ((refl, (tt, tt, tt)), tt, tt)

abbrev with_name : Option Identifier → Parameter
with_name name = record {
  loc = builtin;
  id = name;
  ty = bool;
  ty_loc = none;
  infinite_size = false;
  recursive = false;
}

abbrev named : Parameter
named = with_name (some (record { loc = builtin; name = "r" }))

terminated_example :
    Meets
      (verdict (all_reachable only_loop) (in_table emitter (λ t. true) (named ∷ [])))
      (gen_function emitter only_loop (some bool ∷ []) (named ∷ []) fresh)
unfolding breaks_in continues_in
terminated_example =
    gen_function-Terminated emitter (λ t. true) only_loop (some bool ∷ []) (named ∷ [])
      only_loop-AreTidy ((x-Emits, (tt, tt)), tt) refl (default-Given bool, tt)

-- f() -> (bool) { }: the variable of the return is looked up, and there is none
no_variable : gen_function emitter nil [] (with_name none ∷ []) fresh ≡ panic
unfolding gen_function populate_arguments populate_named_returns named_return block_of when
    implicit_returns available and_then call append_block
no_variable = refl

abbrev calls_of : Run Binary (Unit {0}) → List Call
calls_of (ok a b) = b.calls
calls_of _ = []

-- void f() { return; }: two terminators
return_twice :
    accept_all
      (calls_of (gen_function emitter (cons (return builtin none) nil) [] [] fresh))
      nothing_yet
    ≡ none
unfolding gen_function populate_arguments populate_named_returns block_of statement statements ends
    when times condition returned target to_end at_end next_of and_then call append_block accept_all
    accept fill reachable
return_twice = refl

-- while (x) { do { } while (x); break; }: the break goes to the end of the `do`, block 6, and not
-- behind the `while`, block 3
abbrev after_do : Statements
after_do =
    cons (while builtin true x (cons (do_while builtin true nil x) (cons (break builtin) nil))) nil

wrong_target :
    get_last? (drop_last (calls_of (block_of emitter after_do entry)))
    ≡ some (build_unconditional_branch 6)
unfolding block_of statement statements ends when times condition returned target to_end at_end
    next_of and_then call append_block push_loop pop_loop last_loop reachable
wrong_target = refl

-- for (;;) { break; }: the block between two rounds stays empty
abbrev once : Statements
once = cons (for builtin true nil none none (cons (break builtin) nil)) nil

empty_block :
    accept_all (calls_of (block_of emitter once entry)) nothing_yet ≡ some (state true (2 ∷ []))
unfolding block_of statement statements ends when times condition returned target to_end at_end
    next_of and_then call append_block push_loop pop_loop last_loop reachable accept_all accept fill
empty_block = refl
