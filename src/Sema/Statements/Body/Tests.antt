-- ===== src/Sema/Statements/Body/Tests.antt =====
-- Runs of the returns of a function, `resolve_function_body` of src/sema/statements.rs.
use ola_lang.Prelude.{◌≡◌, refl, Bool, true, false, Option, none, some, [], ◌∷◌}
use ola_lang.Prelude.Run.{Run, ok, and_then}
use ola_lang.Sema.Ast.{builtin, bool, storage_ref}
use ola_lang.Sema.Ast.Statements.{Parameter}
use ola_lang.Sema.Program as P
use ola_lang.Sema.Statements.{add_variable}
use ola_lang.Sema.Statements.Body.{add_returns, add_named, named}
use ola_lang.Sema.Statements.Monad.{Env}
use ola_lang.Sema.Statements.Tests.{calls, context, env, x, part}
use ola_lang.Sema.Symtable

-- whether the end of a body needs a value: of returns with names and types in order
abbrev required_of : Run (Env (Unit {0})) Bool → Option Bool
required_of (ok b e) = some b
required_of _ = none

abbrev stored : Parameter
stored = record part { ty = storage_ref bool }

abbrev unnamed : P.ParameterList → P.ParameterList
unnamed = P.parameter builtin builtin x none

abbrev with_name : P.ParameterList → P.ParameterList
with_name = P.parameter builtin builtin x (some (record { loc = builtin; name = "a" }))

abbrev empty_table : Env (Unit {0})
empty_table = record env { symtable = Symtable.new }

-- the order of a named return and one in storage decides
order_decides :
    (required_of (
        add_returns calls context
          (unnamed (with_name P.no_parameters))
          (stored ∷ part ∷ [])
          false
          empty_table)
      ≡ some false)
    × (required_of (
          add_returns calls context
            (with_name (unnamed P.no_parameters))
            (part ∷ stored ∷ [])
            false
            empty_table)
        ≡ some true)
unfolding add_returns add_named named add_variable and_then Symtable.new Symtable.add Symtable.find
    Symtable.find_pos Symtable.bind_last
order_decides = (refl, refl)
