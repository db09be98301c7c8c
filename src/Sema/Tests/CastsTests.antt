-- ===== src/Sema/Tests/CastsTests.antt =====
-- src/sema/expression/mod.rs: casts of a variable, of a place in storage and of numbers.
use ola_lang.Prelude.{◌≡◌, ◌^◌, if◌then◌else◌, ltb, refl, false, some, []}
use ola_lang.Prelude.Int.{pos, abs}
use ola_lang.Sema.Ast.{
  Expression, irgen, uint, ref, storage_ref, number_literal, load, zero_ext, other,
}
use ola_lang.Sema.BigInt.Example.{ops}
use ola_lang.Sema.Diagnostics as D
use ola_lang.Sema.Diagnostics.{Diagnostic, empty}
use ola_lang.Sema.Eval.Monad.{ok, err}
use ola_lang.Sema.Integers.{TypeDecls}
use ola_lang.Sema.Casts.{cast_to, literal_truncates}
use ola_lang.Sema.Casts.Answers.{Answers, cast_to-Answers}
use ola_lang.Sema.Casts.Numbers.{cast_to-number_literal}

abbrev decls : TypeDecls
decls = record { enums = []; structs = []; user_types = [] }

abbrev variable : Expression
variable = other 0 irgen (some (ref (uint 32)))

abbrev stored : Expression
stored = other 1 irgen (some (storage_ref (uint 64)))

-- A variable is loaded, and its value extended.
loaded :
    cast_to irgen ops (uint 64) variable empty
    ≡ ok (zero_ext irgen (uint 64) (load irgen (uint 32) variable)) empty
unfolding cast_to ops
loaded = refl

-- 8 fits in four bits and is refused.
greatest_refused :
    cast_to irgen ops (uint 4) (number_literal irgen (uint 32) (pos 8)) empty
    ≡ err (D.push empty (literal_truncates irgen (uint 32) (uint 4)))
unfolding cast_to ops
greatest_refused = refl

cast_to-Answers_example : Answers (uint 64) (cast_to irgen ops (uint 64) variable) empty
cast_to-Answers_example =
    cast_to-Answers irgen empty ops (ref (uint 32)) (uint 64) variable ((false, refl), tt) refl

cast_to-number_literal_example :
    cast_to irgen ops (uint 64) (number_literal irgen (uint 32) (pos 5)) empty ≡ (
      if ltb (abs (pos 5)) (2 ^ 63)
      then ok (number_literal irgen (uint 64) (pos 5)) empty
      else err (D.push empty (literal_truncates irgen (uint 32) (uint 64))))
cast_to-number_literal_example =
    cast_to-number_literal ops irgen empty irgen (some 32) (pos 5) 63 refl
