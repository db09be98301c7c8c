-- ===== src/Sema/Eval.antt =====
-- src/sema/eval.rs: the values of constant expressions. `eval_const_number` computes the value of an
-- expression that has to be constant, `eval_constants_in_expression` folds number literals, and
-- `check_term_for_constant_overflow` reports a folded value that its type does not hold.
pub mod Monad
pub mod Const
pub mod Fold
pub mod Overflow
pub mod Agreement
pub mod Terminates
pub mod Total
pub use Monad.{Run, ok, err, panic, deep, M, pure, ◌>>=◌, ◌>>◌}
