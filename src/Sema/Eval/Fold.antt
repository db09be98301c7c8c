-- ===== src/Sema/Eval/Fold.antt =====
-- src/sema/eval.rs: `overflow_check`, `eval_constants_in_expression` and
-- `check_term_for_constant_overflow`.
use ola_lang.Prelude.{ℕ, Bool, true, false, Option, none, some, [], ◌∷◌, ltb, leb, if◌then◌else◌}
use ola_lang.Prelude.Int.{ℤ, pos, negsuc, is_zero}
use ola_lang.Sema.Ast.{
  Loc, Ty, uint, field, Expression, number_literal, add, subtract, multiply, divide, modulo, power,
  bitwise_or, bitwise_and, bitwise_xor, shift_left, shift_right, zero_ext,
}
use ola_lang.Sema.BigInt.{BigIntOps}
use ola_lang.Sema.Diagnostics.{Diagnostic, error_diagnostic, warning_diagnostic, message, int, num}
use ola_lang.Sema.Eval.Monad.{M, pure, report, unwrap, ◌>>=◌, ◌>>◌}

-- `FIELD_ORDER` of src/sema/expression/mod.rs
abbrev pub field_order : ℕ
field_order = 0xFFFF_FFFF_0000_0001

-- The result of folding, and the flag that says whether to go on.
abbrev pub Folded : Type 0
Folded = Option Expression × Bool

-- `Some(Expression::NumberLiteral { loc, value, .. })`
abbrev pub literal : Option Expression → Option (Loc × ℤ)
literal (some (number_literal loc _ value)) = some (loc, value)
literal _ = none

-- `if let (Some(NumberLiteral), Some(NumberLiteral)) = (left, right) { … } else { (None, true) }`
abbrev pub both : Option (Loc × ℤ) → Option (Loc × ℤ) → (Loc × ℤ → Loc × ℤ → M Folded) → M Folded
both (some l) (some r) k = k l r
both (some l) none k = pure (none, true)
both none r k = pure (none, true)

abbrev pub folded_to : Loc → Ty → ℤ → M Folded
folded_to loc ty v = pure (some (number_literal loc ty v), true)

-- A diagnostic, and no result.
abbrev pub stop : Diagnostic → M Folded
stop d = do report d; pure (none, false)

-- Is the expression an operation or a number, whose value is checked?
abbrev pub is_term : Expression → Bool
is_term (add _ _ _ _) = true
is_term (subtract _ _ _ _) = true
is_term (multiply _ _ _ _) = true
is_term (divide _ _ _ _) = true
is_term (modulo _ _ _ _) = true
is_term (power _ _ _ _) = true
is_term (shift_left _ _ _ _) = true
is_term (shift_right _ _ _ _) = true
is_term (bitwise_and _ _ _ _) = true
is_term (bitwise_or _ _ _ _) = true
is_term (bitwise_xor _ _ _ _) = true
is_term (number_literal _ _ _) = true
is_term _ = false

abbrev pub report_overflow : Option Diagnostic → M Bool
report_overflow none = pure false
report_overflow (some d) = do report d; pure false

-- the operands, in order, and then the arm
abbrev pub operands : M Folded → M Folded → (Loc × ℤ → Loc × ℤ → M Folded) → M Folded
operands left right k = do l ← left; r ← right; both (literal l.0) (literal r.0) k

abbrev pub widened : Loc → Ty → Option (Loc × ℤ) → M Folded
widened loc to (some (_, v)) = folded_to loc to v
widened loc to none = pure (none, true)

module _ (B : BigIntOps) where
  -- `result.to_u64().unwrap() > FIELD_ORDER`, a panic where the value does not fit
  unfoldable pub overflow_check : ℤ → Ty → Loc → M (Option Diagnostic)
  overflow_check (negsuc n) ty loc =
      pure (some (error_diagnostic loc (message "negative value not allowed" [])))
  overflow_check (pos n) (uint width) loc = pure (
      if ltb width (B.bits (pos n))
      then some (
          error_diagnostic loc
            (message "value {} does not fit into type u{}." (int (pos n) ∷ num width ∷ [])))
      else none)
  overflow_check (pos n) field loc = do
    v ← unwrap (B.to_u64 (pos n))
    pure (
        if ltb field_order v
        then some (
            error_diagnostic loc (
              message "value {} exceeded the maximum range that field can represent."
                (int (pos n) ∷ [])))
        else none)
  overflow_check (pos n) _ loc = pure none

  -- the arms that test the right operand: `Divide` and `Modulo`, `Power`, `ShiftLeft`, `ShiftRight`
  unfoldable pub fold_divide : Loc → Ty → ℤ → ℤ → M Folded
  fold_divide loc ty l r =
      if is_zero r
      then stop (error_diagnostic loc (message "divide by zero" []))
      else folded_to loc ty (B.div l r)

  unfoldable pub fold_modulo : Loc → Ty → ℤ → ℤ → M Folded
  fold_modulo loc ty l r =
      if is_zero r
      then stop (error_diagnostic loc (message "divide by zero" []))
      else folded_to loc ty (B.rem l r)

  power_by : Loc → Ty → ℤ → Loc × ℤ → Option Diagnostic → M Folded
  power_by loc ty l (right_loc, r) (some _) =
      stop (error_diagnostic right_loc (message "power by {right} is not possible" (int r ∷ [])))
  power_by loc ty l (right_loc, r) none = do n ← unwrap (B.to_u16 r); folded_to loc ty (B.pow l n)

  unfoldable pub fold_power : Loc → Ty → ℤ → Loc × ℤ → M Folded
  unfolding power_by overflow_check
  fold_power loc ty l (right_loc, r) = do
    d ← overflow_check r (uint 16) right_loc
    power_by loc ty l (right_loc, r) d

  -- `right >= &BigInt::from(left.bits())`, of a right operand that is not negative
  abbrev warn_shift : ℤ → Loc × ℤ → M (Unit {0})
  warn_shift l (right_loc, pos r) =
      if leb (B.bits l) r
      then report (
          warning_diagnostic right_loc
            (message "left shift by {right} may overflow the final result" (int (pos r) ∷ [])))
      else pure tt
  warn_shift l (right_loc, negsuc r) = pure tt

  shl_by : Loc → Ty → ℤ → Loc × ℤ → Option Diagnostic → M Folded
  shl_by loc ty l (right_loc, r) (some _) =
      stop
        (error_diagnostic right_loc (message "left shift by {right} is not possible" (int r ∷ [])))
  shl_by loc ty l (right_loc, r) none = do
    warn_shift l (right_loc, r)
    n ← unwrap (B.to_u64 r)
    folded_to loc ty (B.shl l n)

  unfoldable pub fold_shift_left : Loc → Ty → ℤ → Loc × ℤ → M Folded
  unfolding shl_by overflow_check
  fold_shift_left loc ty l (right_loc, r) = do
    d ← overflow_check r (uint 64) right_loc
    shl_by loc ty l (right_loc, r) d

  shr_by : Loc → Ty → ℤ → Loc × ℤ → Option Diagnostic → M Folded
  shr_by loc ty l (right_loc, r) (some _) =
      stop
        (error_diagnostic right_loc (message "right shift by {right} is not possible" (int r ∷ [])))
  shr_by loc ty l (right_loc, r) none = do n ← unwrap (B.to_u64 r); folded_to loc ty (B.shr l n)

  unfoldable pub fold_shift_right : Loc → Ty → ℤ → Loc × ℤ → M Folded
  unfolding shr_by overflow_check
  fold_shift_right loc ty l (right_loc, r) = do
    d ← overflow_check r (uint 64) right_loc
    shr_by loc ty l (right_loc, r) d

  unfoldable pub eval_constants : Expression → M Folded
  unfolding fold_divide fold_modulo fold_power fold_shift_left fold_shift_right
  eval_constants (add loc ty l r) =
      operands (eval_constants l) (eval_constants r) (λ a b. folded_to loc ty (B.add a.1 b.1))
  eval_constants (subtract loc ty l r) =
      operands (eval_constants l) (eval_constants r) (λ a b. folded_to loc ty (B.sub a.1 b.1))
  eval_constants (multiply loc ty l r) =
      operands (eval_constants l) (eval_constants r) (λ a b. folded_to loc ty (B.mul a.1 b.1))
  eval_constants (divide loc ty l r) =
      operands (eval_constants l) (eval_constants r) (λ a b. fold_divide loc ty a.1 b.1)
  eval_constants (modulo loc ty l r) =
      operands (eval_constants l) (eval_constants r) (λ a b. fold_modulo loc ty a.1 b.1)
  eval_constants (power loc ty base exp) =
      operands (eval_constants base) (eval_constants exp) (λ a b. fold_power loc ty a.1 b)
  eval_constants (shift_left loc ty l r) =
      operands (eval_constants l) (eval_constants r) (λ a b. fold_shift_left loc ty a.1 b)
  eval_constants (shift_right loc ty l r) =
      operands (eval_constants l) (eval_constants r) (λ a b. fold_shift_right loc ty a.1 b)
  eval_constants (bitwise_and loc ty l r) =
      operands (eval_constants l) (eval_constants r) (λ a b. folded_to loc ty (B.bit_and a.1 b.1))
  eval_constants (bitwise_or loc ty l r) =
      operands (eval_constants l) (eval_constants r) (λ a b. folded_to loc ty (B.bit_or a.1 b.1))
  eval_constants (bitwise_xor loc ty l r) =
      operands (eval_constants l) (eval_constants r) (λ a b. folded_to loc ty (B.bit_xor a.1 b.1))
  eval_constants (zero_ext loc to e) = do v ← eval_constants e; widened loc to (literal v.0)
  eval_constants (number_literal loc ty v) = pure (some (number_literal loc ty v), true)
  eval_constants _ = pure (none, true)

  -- the `match` on what folding gives: the answer says whether to look into the operands
  check_folded : Folded → M Bool
  check_folded (some (number_literal loc ty v), _) = do
    d ← overflow_check v ty loc
    report_overflow d
  check_folded (none, false) = pure false
  check_folded _ = pure true

  unfoldable pub check_term_for_constant_overflow : Expression → M Bool
  unfolding check_folded eval_constants overflow_check
  check_term_for_constant_overflow e =
      if is_term e then (do f ← eval_constants e; check_folded f) else pure true
