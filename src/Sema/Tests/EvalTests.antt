-- ===== src/Sema/Tests/EvalTests.antt =====
-- Runs of src/sema/eval.rs, and its theorems at concrete inputs.
use ola_lang.Prelude.{ℕ, zero, suc, ◌≡◌, ◌≢◌, refl, true, Option, none, some, [], ◌∷◌, arith}
use mathlib.Core.Path.{subst}
use ola_lang.Prelude.Int.{pos}
use ola_lang.Sema.Ast.{
  Loc, file, uint, field, Expression, number_literal, add, multiply, power, constant_variable,
  shift_left,
}
use ola_lang.Sema.BigInt.Example.{ops}
use ola_lang.Sema.Diagnostics.{Diagnostics, empty}
use ola_lang.Sema.Eval.{Run, ok, panic, deep}
use ola_lang.Sema.Eval.Const.{Initializers, initializer, eval_with, eval_const_number}
use ola_lang.Sema.Eval.Fold.{eval_constants, overflow_check, check_term_for_constant_overflow}
use ola_lang.Sema.Eval.Agreement.{eval_constants-eval_const_number}
use ola_lang.Sema.Eval.Terminates.{Below, IsAcyclic, eval_const_number-ends}

abbrev at : Loc
at = file 0 10 20

abbrev number : ℕ → Expression
number n = number_literal at (uint 32) (pos n)

-- 3 ** 4 + 5 * 6
abbrev sum : Expression
sum =
    add at (uint 32) (power at (uint 32) (number 3) (number 4))
      (multiply at (uint 32) (number 5) (number 6))

folds_sum : eval_constants ops sum empty ≡ ok (some (number 111), true) empty
unfolding eval_constants ops
folds_sum = refl

-- u32 a = 2; u32 b = a + a; and the expression 1 << b
abbrev constants : Initializers
constants = record {
  constants =
      some (number 2)
      ∷ some (
          add at (uint 32) (constant_variable at (uint 32) none 0)
            (constant_variable at (uint 32) none 0))
      ∷ [];
  contracts = [];
}

abbrev shifted : Expression
shifted = shift_left at (uint 32) (number 1) (constant_variable at (uint 32) none 1)

evaluates_shifted : eval_const_number ops 2 constants shifted empty ≡ ok (at, pos 16) empty
unfolding eval_const_number ops eval_with initializer
evaluates_shifted = refl

shallow : eval_const_number ops 1 constants shifted empty ≡ deep
unfolding eval_const_number ops eval_with initializer
shallow = refl

eval_constants-eval_const_number_example :
    eval_const_number ops 2 constants sum empty ≡ ok (at, pos 111) empty
eval_constants-eval_const_number_example =
    eval_constants-eval_const_number ops sum at (uint 32) (pos 111) true empty empty folds_sum 2
      constants empty

abbrev rank : Option ℕ → ℕ → ℕ
rank contract_no var_no = var_no

ok_some-injective :
    (a b : Expression) (ds ds' : Diagnostics)
    → ◌≡◌ {A = Run (Option Expression)} (ok (some a) ds) (ok (some b) ds')
    → a ≡ b
ok_some-injective a b ds ds' e = cc

constants-IsAcyclic : IsAcyclic constants rank
unfolding initializer
constants-IsAcyclic none zero init ds ds' e =
    subst (Below rank 0) (ok_some-injective (number 2) init ds ds' e) tt
constants-IsAcyclic none (suc zero) init ds ds' e =
    subst (Below rank 1)
      (ok_some-injective
        (add at (uint 32) (constant_variable at (uint 32) none 0)
          (constant_variable at (uint 32) none 0))
        init ds ds' e)
      (omega arith)
constants-IsAcyclic none (suc (suc n)) init ds ds' e = cc
constants-IsAcyclic (some c) n init ds ds' e = cc

eval_const_number-ends_example : eval_const_number ops 2 constants shifted empty ≢ deep
eval_const_number-ends_example =
    eval_const_number-ends ops constants rank constants-IsAcyclic 2 shifted (omega arith) empty

-- 2 ** 40 does not fit a u32.
abbrev large : Expression
large = power at (uint 32) (number 2) (number 40)

-- A field constant 2 ** 64 panics.
abbrev field_number : ℕ → Expression
field_number n = number_literal at field (pos n)

abbrev huge : Expression
huge = power at field (field_number 2) (field_number 64)

folds_huge :
    eval_constants ops huge empty ≡ ok (some (field_number 0x1_0000_0000_0000_0000), true) empty
unfolding eval_constants ops
folds_huge = refl

huge_panics : check_term_for_constant_overflow ops huge empty ≡ panic
unfolding check_term_for_constant_overflow eval_constants overflow_check ops
huge_panics = refl
