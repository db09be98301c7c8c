-- ===== src/Sema/Eval/Const.antt =====
-- src/sema/eval.rs: `eval_const_number`.
use ola_lang.Prelude.{
  ℕ, zero, suc, ◌+◌, Bool, true, false, Option, none, some, List, [], ◌∷◌, if◌then◌else◌, get_elem?,
}
use ola_lang.Prelude.Int.{ℤ, pos, negsuc, abs, is_neg, is_zero}
use ola_lang.Sema.Ast.{
  Loc, Expression, number_literal, struct_literal, array_literal, alloc_dynamic_bytes, add,
  subtract, multiply, divide, modulo, power, bitwise_or, bitwise_and, bitwise_xor, shift_left,
  shift_right, constant_variable, zero_ext, cast, not, bitwise_not, address_literal, hash_literal,
  load, get_ref, storage_load, bytes_cast, subscript, other,
}
use ola_lang.Sema.BigInt.{BigIntOps}
use ola_lang.Sema.Diagnostics.{Diagnostic, error_diagnostic, message, int}
use ola_lang.Sema.Eval.Monad.{ok, err, deep, M, pure, fail, unwrap, ◌>>=◌, ◌>>◌}

-- Of `Namespace`: the initializers of the global constants and of each contract's variables.
pub record Initializers : Type 0 where
  pub constants : List (Option Expression)
  pub contracts : List (List (Option Expression))

abbrev pub Value : Type 0
Value = Loc × ℤ

-- `sign() == Sign::Plus`
abbrev pub is_pos : ℤ → Bool
is_pos (pos zero) = false
is_pos (pos (suc n)) = true
is_pos (negsuc n) = false

-- `CodeLocation::loc` of an expression
abbrev pub loc_of : Expression → Loc
loc_of (number_literal loc _ _) = loc
loc_of (struct_literal loc _) = loc
loc_of (array_literal loc _) = loc
loc_of (alloc_dynamic_bytes loc _) = loc
loc_of (add loc _ _ _) = loc
loc_of (subtract loc _ _ _) = loc
loc_of (multiply loc _ _ _) = loc
loc_of (divide loc _ _ _) = loc
loc_of (modulo loc _ _ _) = loc
loc_of (power loc _ _ _) = loc
loc_of (bitwise_or loc _ _ _) = loc
loc_of (bitwise_and loc _ _ _) = loc
loc_of (bitwise_xor loc _ _ _) = loc
loc_of (shift_left loc _ _ _) = loc
loc_of (shift_right loc _ _ _) = loc
loc_of (constant_variable loc _ _ _) = loc
loc_of (zero_ext loc _ _) = loc
loc_of (cast loc _ _) = loc
loc_of (not loc _) = loc
loc_of (bitwise_not loc _ _) = loc
loc_of (address_literal loc _ _) = loc
loc_of (hash_literal loc _ _) = loc
loc_of (load loc _ _) = loc
loc_of (get_ref loc _ _) = loc
loc_of (storage_load loc _ _) = loc
loc_of (bytes_cast loc _ _ _) = loc
loc_of (subscript loc _ _ _ _) = loc
loc_of (other _ loc _) = loc

-- `var.initializer` of the constant; an index out of range panics.
unfoldable pub initializer : Initializers → Option ℕ → ℕ → M (Option Expression)
initializer ns none var_no = unwrap (get_elem? ns.constants var_no)
initializer ns (some contract_no) var_no = do
  variables ← unwrap (get_elem? ns.contracts contract_no)
  unwrap (get_elem? variables var_no)

abbrev pub not_allowed : Expression → Diagnostic
not_allowed e =
    error_diagnostic (loc_of e) (message "expression not allowed in constant number expression" [])

module _ (B : BigIntOps) where
  -- `while e.sign() == Plus { res *= b; e -= 1 }`, in the given number of rounds
  unfoldable pub power_loop : ℕ → (b e res : ℤ) → Option ℤ
  power_loop zero b e res = none
  power_loop (suc fuel) b e res =
      let rest = power_loop fuel b (B.sub e (pos 1)) (B.mul res b) in
      if is_pos e then rest else some res

  or_deep : Option ℤ → M ℤ
  or_deep none ds = deep
  or_deep (some v) ds = ok v ds

  -- the arms that look at the value of the right operand
  unfoldable pub checked_divisor : Loc → ℤ → M (Unit {0})
  checked_divisor loc divisor =
      if is_zero divisor then fail (error_diagnostic loc (message "divide by zero" [])) else pure tt

  unfoldable pub const_power : Loc → ℤ → ℤ → M Value
  unfolding or_deep
  const_power loc b e =
      if is_neg e
      then fail (error_diagnostic loc (message "power cannot take negative number as exponent" []))
      else if is_zero e
      then pure (loc, pos 1)
      else (do res ← or_deep (power_loop (abs e + 1) b (B.sub e (pos 1)) b); pure (loc, res))

  shift_amount : Loc → Diagnostic → Option ℕ → M ℕ
  shift_amount loc d none = fail d
  shift_amount loc d (some r) = pure r

  unfoldable pub const_shift : Loc → Bool → ℤ → ℤ → M Value
  unfolding shift_amount
  const_shift loc left l r = do
    n ←
        shift_amount loc
          (error_diagnostic loc (
            message (if left then "cannot left shift by {r}" else "right left shift by {r}")
              (int r ∷ [])))
          (B.to_usize r)
    pure (loc, if left then B.shl l n else B.shr l n)

  module _ (ns : Initializers) (rec : Expression → M Value) where
    -- `if let Some(init) = &var.initializer`; with none the error has been reported before.
    abbrev pub initialized : Option Expression → M Value
    initialized none ds = err ds
    initialized (some init) ds = rec init ds

    -- One call, which goes through constants by `rec`.
    unfoldable pub eval_with : Expression → M Value
    unfolding checked_divisor const_power const_shift initializer
    eval_with (add loc _ l r) = do a ← eval_with l; b ← eval_with r; pure (loc, B.add a.1 b.1)
    eval_with (subtract loc _ l r) = do a ← eval_with l; b ← eval_with r; pure (loc, B.sub a.1 b.1)
    eval_with (multiply loc _ l r) = do a ← eval_with l; b ← eval_with r; pure (loc, B.mul a.1 b.1)
    eval_with (divide loc _ l r) = do
      divisor ← eval_with r
      checked_divisor loc divisor.1
      a ← eval_with l
      pure (loc, B.div a.1 divisor.1)
    eval_with (modulo loc _ l r) = do
      divisor ← eval_with r
      checked_divisor loc divisor.1
      a ← eval_with l
      pure (loc, B.rem a.1 divisor.1)
    eval_with (bitwise_and loc _ l r) = do
      a ← eval_with l
      b ← eval_with r
      pure (loc, B.bit_and a.1 b.1)
    eval_with (bitwise_or loc _ l r) = do
      a ← eval_with l
      b ← eval_with r
      pure (loc, B.bit_or a.1 b.1)
    eval_with (bitwise_xor loc _ l r) = do
      a ← eval_with l
      b ← eval_with r
      pure (loc, B.bit_xor a.1 b.1)
    eval_with (power loc _ base exp) = do
      b ← eval_with base
      e ← eval_with exp
      const_power loc b.1 e.1
    eval_with (shift_left loc _ l r) = do
      a ← eval_with l
      b ← eval_with r
      const_shift loc true a.1 b.1
    eval_with (shift_right loc _ l r) = do
      a ← eval_with l
      b ← eval_with r
      const_shift loc false a.1 b.1
    eval_with (number_literal loc _ value) = pure (loc, value)
    eval_with (zero_ext loc _ e) = do a ← eval_with e; pure (loc, a.1)
    eval_with (cast loc _ e) = do a ← eval_with e; pure (loc, a.1)
    eval_with (not loc e) = do a ← eval_with e; pure (loc, B.complement a.1)
    eval_with (bitwise_not loc _ e) = do a ← eval_with e; pure (loc, B.complement a.1)
    eval_with (constant_variable _ _ contract_no var_no) = do
      init ← initializer ns contract_no var_no
      initialized init
    eval_with e = fail (not_allowed e)

  -- `eval_const_number`, through at most `fuel` constants inside one another.
  unfoldable pub eval_const_number : ℕ → Initializers → Expression → M Value
  eval_const_number zero ns = eval_with ns (λ e ds. deep)
  eval_const_number (suc fuel) ns = eval_with ns (eval_const_number fuel ns)
