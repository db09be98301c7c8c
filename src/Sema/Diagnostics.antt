-- ===== src/Sema/Diagnostics.antt =====
-- ola-parser/src/diagnostics.rs and src/sema/diagnostics.rs: messages, and the list of them with
-- its error flag. A message is kept as the format string with its arguments, not as the text that
-- `format!` makes of them.
pub mod Flag
use ola_lang.Prelude.{ℕ, String, Bool, true, false, List, [], ◌∷◌, ◌++◌, ◌||◌, not, if◌then◌else◌}
use ola_lang.Prelude.Int.{ℤ}
use ola_lang.Sema.Ast.{Loc, Ty}

pub data Level : Type 0 where
  debug info warning error : Level

pub data ErrorType : Type 0 where
  untyped parser_error syntax_error declaration_error cast_error type_error warning_type : ErrorType

pub data Arg : Type 0 where
  str : String → Arg
  int : ℤ → Arg
  num : ℕ → Arg
  ty : Ty → Arg

pub record Message : Type 0 where
  pub format : String
  pub args : List Arg

abbrev pub message : String → List Arg → Message
message s args = record { format = s; args = args }

pub record Note : Type 0 where
  pub loc : Loc
  pub text : Message

pub record Diagnostic : Type 0 where
  pub loc : Loc
  pub level : Level
  pub kind : ErrorType
  pub text : Message
  pub notes : List Note

-- `Diagnostic::error`, `cast_error`, `warning` and `error_with_note`
abbrev pub error_diagnostic : Loc → Message → Diagnostic
error_diagnostic loc m = record {
  loc = loc;
  level = error;
  kind = syntax_error;
  text = m;
  notes = [];
}

abbrev pub cast_error_diagnostic : Loc → Message → Diagnostic
cast_error_diagnostic loc m = record {
  loc = loc;
  level = error;
  kind = cast_error;
  text = m;
  notes = [];
}

abbrev pub warning_diagnostic : Loc → Message → Diagnostic
warning_diagnostic loc m = record {
  loc = loc;
  level = warning;
  kind = warning_type;
  text = m;
  notes = [];
}

abbrev pub error_with_note : Loc → Message → Loc → Message → Diagnostic
error_with_note loc m note_loc note = record {
  loc = loc;
  level = error;
  kind = untyped;
  text = m;
  notes = record { loc = note_loc; text = note } ∷ [];
}

-- `struct Diagnostics`
pub record Diagnostics : Type 0 where
  pub contents : List Diagnostic
  pub has_error : Bool

abbrev pub is_error : Level → Bool
is_error error = true
is_error _ = false

abbrev pub is_cast_error : ErrorType → Bool
is_cast_error cast_error = true
is_cast_error _ = false

unfoldable pub empty : Diagnostics
empty = record { contents = []; has_error = false }

unfoldable pub push : Diagnostics → Diagnostic → Diagnostics
push ds d = record {
  contents = ds.contents ++ d ∷ [];
  has_error = if is_error d.level then true else ds.has_error;
}

unfoldable pub extend : Diagnostics → Diagnostics → Diagnostics
extend ds other = record {
  contents = ds.contents ++ other.contents;
  has_error = ds.has_error || other.has_error;
}

-- `iter().any(|m| m.level == Level::Error)`
unfoldable pub any_error : List Diagnostic → Bool
any_error [] = false
any_error (d ∷ ds) = is_error d.level || any_error ds

-- `iter().filter(|diag| diag.ty != ErrorType::CastError)`
unfoldable pub non_casting : List Diagnostic → List Diagnostic
non_casting [] = []
non_casting (d ∷ ds) = if is_cast_error d.kind then non_casting ds else d ∷ non_casting ds

add_others : Diagnostics → List Diagnostic → Diagnostics × Bool
add_others ds [] = (ds, false)
add_others ds (d ∷ others) = (
  record {
    contents = ds.contents ++ d ∷ others;
    has_error = if not ds.has_error then any_error (d ∷ others) else ds.has_error;
  },
  true,
)

unfoldable pub extend_non_casting : Diagnostics → Diagnostics → Diagnostics × Bool
unfolding add_others
extend_non_casting ds other = add_others ds (non_casting other.contents)

-- `append` also empties the vector that it is given.
unfoldable pub append : Diagnostics → List Diagnostic → Diagnostics × List Diagnostic
append ds new = (
  record {
    contents = ds.contents ++ new;
    has_error = if not ds.has_error then any_error new else ds.has_error;
  },
  [],
)
