-- ===== src/Sema/Symtable.antt =====
-- src/sema/symtable.rs: the variables of a function by number, and the scopes in which their names
-- are bound. Of `Namespace` the table uses the next free number and the diagnostics. Numbers are
-- `usize` in the source; a count of 2^64 variables is not reached and not modelled.
-- A function that gives back `&mut self` returns the new table, and `unwrap` may panic.
mod Lookup
pub mod Blocks
pub mod Declare
pub mod Reports
use Prim.Native.String.{String}
use ola_lang.Prelude.{
  ℕ, ◌+◌, Bool, true, false, Option, none, some, List, [], ◌∷◌, ◌++◌, if◌then◌else◌, drop_last,
  str_eq, not,
}
use ola_lang.Prelude.Map.{Map, StrMap, insert, str_insert}
use ola_lang.Prelude.Outcome.{Outcome, done, panic, unwrap, ◌>>=◌}
use ola_lang.Sema.Ast.{
  Loc, Identifier, Ty, Expression, struct_literal, array_literal, alloc_dynamic_bytes,
}
use ola_lang.Sema.Diagnostics
use ola_lang.Sema.Diagnostics.{Diagnostics, Level, declaration_error, str, message, error_with_note}

pub data VariableUsage : Type 0 where
  parameter return_variable anonymous_return_variable local_variable destructure_variable :
      VariableUsage

-- `Option<Arc<Expression>>` in the only constructor
pub data VariableInitializer : Type 0 where
  ola : Option Expression → VariableInitializer

pub data StorageLocation : Type 0 where
  memory storage : Loc → StorageLocation

pub record Variable : Type 0 where
  pub id : Identifier
  pub ty : Ty
  pub pos : ℕ
  pub slice : Bool
  pub assigned : Bool
  pub read : Bool
  pub usage_type : VariableUsage
  pub initializer : VariableInitializer
  pub storage_location : Option StorageLocation

has_initializer : VariableInitializer → Bool
has_initializer (ola none) = false
has_initializer (ola (some e)) = true

-- `matches!(expr, AllocDynamicBytes | ArrayLiteral | StructLiteral)`
abbrev is_allocation : Expression → Bool
is_allocation (alloc_dynamic_bytes _ _) = true
is_allocation (array_literal _ _) = true
is_allocation (struct_literal _ _) = true
is_allocation _ = false

abbrev in_memory_or_storage : Option StorageLocation → Bool
in_memory_or_storage (some (StorageLocation.memory _)) = true
in_memory_or_storage (some (StorageLocation.storage _)) = true
in_memory_or_storage _ = false

abbrev initialized_by_reference : VariableInitializer → Bool
initialized_by_reference (ola (some e)) = not (is_allocation e)
initialized_by_reference (ola none) = false

is_reference : Variable → Bool
is_reference v =
    if in_memory_or_storage v.storage_location
    then initialized_by_reference v.initializer
    else false

abbrev pub Scope : Type 0
Scope = StrMap ℕ

pub record Symtable : Type 0 where
  pub vars : Map Variable
  pub names : List Scope
  pub arguments : List (Option ℕ)
  pub returns : List ℕ

-- The part of `Namespace` that the table reads and writes.
pub record Ns : Type 0 where
  pub next_id : ℕ
  pub diagnostics : Diagnostics

abbrev pub empty_scope : Scope
empty_scope name = none

unfoldable pub new : Symtable
new = record { vars = λ p. none; names = empty_scope ∷ []; arguments = []; returns = [] }

-- The number that the first scope with the name gives it, from the outermost scope on.
unfoldable pub find_pos : List Scope → String → Option ℕ
find_pos [] name = none
find_pos (scope ∷ scopes) name = elim (scope name) [ none ↦ find_pos scopes name | some n ↦ some n ]

abbrev at_pos : Map Variable → Option ℕ → Option Variable
at_pos vars none = none
at_pos vars (some n) = vars n

unfoldable pub find : Symtable → String → Option Variable
find st name = at_pos st.vars (find_pos st.names name)

-- `self.names.last_mut().unwrap().0.insert(name, pos)`
unfoldable pub bind_last : List Scope → String → ℕ → Outcome (List Scope)
bind_last [] name pos = panic
bind_last (scope ∷ []) name pos = done (str_insert scope name pos ∷ [])
bind_last (scope ∷ next ∷ scopes) name pos = do
  rest ← bind_last (next ∷ scopes) name pos
  done (scope ∷ rest)

abbrev pub Declaration : Type 0
Declaration = record {
  id : Identifier;
  ty : Ty;
  initializer : VariableInitializer;
  usage_type : VariableUsage;
  storage_location : Option StorageLocation;
}

abbrev pub declared : Declaration → ℕ → Variable
declared d pos = record {
  id = d.id;
  ty = d.ty;
  pos = pos;
  slice = false;
  assigned = false;
  read = false;
  usage_type = d.usage_type;
  initializer = d.initializer;
  storage_location = d.storage_location;
}

abbrev pub already_declared : Declaration → Variable → Diagnostics.Diagnostic
already_declared d prev =
    error_with_note d.id.loc (message "{} is already declared" (str d.id.name ∷ [])) prev.id.loc
      (message "location of previous declaration" [])

-- The second half of `add`, after the variable has got its number.
bind_name : Declaration → ℕ → Symtable → Ns → Option Variable → Outcome (Option ℕ × Symtable × Ns)
bind_name d pos st ns (some prev) = done (
  none,
  st,
  record ns { diagnostics = Diagnostics.push ns.diagnostics (already_declared d prev) },
)
bind_name d pos st ns none = do
  names ← bind_last st.names d.id.name pos
  done (some pos, record st { names = names }, ns)

unfoldable pub add : Declaration → Symtable → Ns → Outcome (Option ℕ × Symtable × Ns)
unfolding bind_name
add d st ns =
    let pos = ns.next_id in
    let ns' = record ns { next_id = pos + 1 } in
    let st' = record st { vars = insert st.vars pos (declared d pos) } in
    if not (str_eq d.id.name "")
    then bind_name d pos st' ns' (find st' d.id.name)
    else done (some pos, st', ns')

abbrev pub already_used : Declaration → Variable → Diagnostics.Diagnostic
already_used d var = record {
  loc = d.id.loc;
  level = Level.error;
  kind = declaration_error;
  text = message "variable name '{}' already used in this scope" (str d.id.name ∷ []);
  notes = record { loc = var.id.loc; text = message "found previous declaration here" [] } ∷ [];
}

exclusive : Declaration → Symtable → Ns → Option Variable → Outcome (Option ℕ × Symtable × Ns)
exclusive d st ns (some var) =
    done
      (none, st, record ns { diagnostics = Diagnostics.push ns.diagnostics (already_used d var) })
exclusive d st ns none = add d st ns

unfoldable pub exclusive_add : Declaration → Symtable → Ns → Outcome (Option ℕ × Symtable × Ns)
unfolding exclusive
exclusive_add d st ns = exclusive d st ns (find st d.id.name)

unfoldable pub new_scope : Symtable → Symtable
new_scope st = record st { names = st.names ++ empty_scope ∷ [] }

unfoldable pub leave_scope : Symtable → Symtable
leave_scope st = record st { names = drop_last st.names }

-- `&self.vars[&pos].id.name`
get_name : Symtable → ℕ → Outcome String
get_name st pos = do v ← unwrap (st.vars pos); done v.id.name
