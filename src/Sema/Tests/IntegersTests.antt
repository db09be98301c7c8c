-- ===== src/Sema/Tests/IntegersTests.antt =====
-- src/sema/expression/integers.rs at concrete types.
use ola_lang.Prelude.{◌≡◌, refl, some, [], ◌∷◌}
use ola_lang.Prelude.Int.{pos}
use ola_lang.Sema.Ast.{irgen, uint, ref, enum, user_type, number_literal, string}
use ola_lang.Sema.BigInt.Example.{ops}
use ola_lang.Sema.Diagnostics.{empty}
use ola_lang.Sema.Eval.Monad.{ok}
use ola_lang.Sema.Integers.{TypeDecls, coerce, bigint_to_expression, is_integer, to_type}
use ola_lang.Sema.Integers.Coercion.{coerce-join, Reports, coerce-Reports}

abbrev decls : TypeDecls
decls = record { enums = "Colour" ∷ []; structs = []; user_types = uint 32 ∷ [] }

-- A user type over u32 takes a number.
user_number :
    bigint_to_expression ops decls irgen (pos 7) 1 (to_type (user_type 0)) empty
    ≡ ok (number_literal irgen (user_type 0) (pos 7)) empty
unfolding bigint_to_expression is_integer ops
user_number = refl

coerce-join_example : coerce decls (ref (uint 32)) irgen (uint 64) irgen empty ≡ ok (uint 64) empty
coerce-join_example =
    coerce-join decls (ref (uint 32)) (uint 64) irgen irgen (some 32) (some 64) empty refl refl

coerce-Reports_example : Reports (coerce decls (enum 0) irgen string irgen) empty
coerce-Reports_example = coerce-Reports decls (enum 0) string irgen irgen empty ("Colour", refl) tt
