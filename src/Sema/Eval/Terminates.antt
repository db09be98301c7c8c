-- ===== src/Sema/Eval/Terminates.antt =====
-- src/sema/eval.rs: `eval_const_number` ends if no constant is defined through itself.
use ola_lang.Prelude.{
  ℕ, zero, suc, ◌<◌, ◌≤◌, ◌≡◌, ◌≢◌, refl, Option, none, some, arith, Bool, true, false,
}
use ola_lang.Prelude.Int.{ℤ, pos, negsuc}
use ola_lang.Sema.Ast.{
  Loc, Expression, add, subtract, multiply, divide, modulo, power, bitwise_or, bitwise_and,
  bitwise_xor, shift_left, shift_right, constant_variable, zero_ext, cast, not, bitwise_not,
}
use ola_lang.Sema.BigInt.{BigIntOps}
use ola_lang.Sema.Diagnostics.{Diagnostics}
use ola_lang.Sema.Eval.Monad.{Run, ok, err, panic, deep, M, pure, and_then, ◌>>=◌}
use ola_lang.Sema.Eval.Const.{
  Value, Initializers, initializer, initialized, eval_with, eval_const_number, const_power,
  const_shift, checked_divisor,
}
use ola_lang.Sema.Eval.Agreement.{const_power-pow}

-- Each constant that the expression names has a rank below the bound.
abbrev pub Below : (Option ℕ → ℕ → ℕ) → ℕ → Expression → Type 0
Below rank k (constant_variable _ _ contract_no var_no) = rank contract_no var_no < k
Below rank k (add _ _ l r) = Below rank k l × Below rank k r
Below rank k (subtract _ _ l r) = Below rank k l × Below rank k r
Below rank k (multiply _ _ l r) = Below rank k l × Below rank k r
Below rank k (divide _ _ l r) = Below rank k l × Below rank k r
Below rank k (modulo _ _ l r) = Below rank k l × Below rank k r
Below rank k (power _ _ l r) = Below rank k l × Below rank k r
Below rank k (bitwise_or _ _ l r) = Below rank k l × Below rank k r
Below rank k (bitwise_and _ _ l r) = Below rank k l × Below rank k r
Below rank k (bitwise_xor _ _ l r) = Below rank k l × Below rank k r
Below rank k (shift_left _ _ l r) = Below rank k l × Below rank k r
Below rank k (shift_right _ _ l r) = Below rank k l × Below rank k r
Below rank k (zero_ext _ _ e) = Below rank k e
Below rank k (cast _ _ e) = Below rank k e
Below rank k (not _ e) = Below rank k e
Below rank k (bitwise_not _ _ e) = Below rank k e
Below rank k _ = Unit

-- The initializer of a constant names constants of smaller rank only.
abbrev pub IsAcyclic : Initializers → (Option ℕ → ℕ → ℕ) → Type 0
IsAcyclic ns rank =
    (contract_no : Option ℕ) (var_no : ℕ) (init : Expression) (ds ds' : Diagnostics)
    → initializer ns contract_no var_no ds ≡ ok (some init) ds'
    → Below rank (rank contract_no var_no) init

abbrev Ends {ℓ} : {A : Type ℓ} → M A → Type ℓ
Ends m = (ds : Diagnostics) → m ds ≢ deep

Below-mono :
    (rank : Option ℕ → ℕ → ℕ) {j k : ℕ} (e : Expression) → j ≤ k → Below rank j e → Below rank k e
Below-mono rank (constant_variable _ _ c v) h a = omega arith
Below-mono rank (add _ _ l r) h (a, b) = (Below-mono rank l h a, Below-mono rank r h b)
Below-mono rank (subtract _ _ l r) h (a, b) = (Below-mono rank l h a, Below-mono rank r h b)
Below-mono rank (multiply _ _ l r) h (a, b) = (Below-mono rank l h a, Below-mono rank r h b)
Below-mono rank (divide _ _ l r) h (a, b) = (Below-mono rank l h a, Below-mono rank r h b)
Below-mono rank (modulo _ _ l r) h (a, b) = (Below-mono rank l h a, Below-mono rank r h b)
Below-mono rank (power _ _ l r) h (a, b) = (Below-mono rank l h a, Below-mono rank r h b)
Below-mono rank (bitwise_or _ _ l r) h (a, b) = (Below-mono rank l h a, Below-mono rank r h b)
Below-mono rank (bitwise_and _ _ l r) h (a, b) = (Below-mono rank l h a, Below-mono rank r h b)
Below-mono rank (bitwise_xor _ _ l r) h (a, b) = (Below-mono rank l h a, Below-mono rank r h b)
Below-mono rank (shift_left _ _ l r) h (a, b) = (Below-mono rank l h a, Below-mono rank r h b)
Below-mono rank (shift_right _ _ l r) h (a, b) = (Below-mono rank l h a, Below-mono rank r h b)
Below-mono rank (zero_ext _ _ e) h a = Below-mono rank e h a
Below-mono rank (cast _ _ e) h a = Below-mono rank e h a
Below-mono rank (not _ e) h a = Below-mono rank e h a
Below-mono rank (bitwise_not _ _ e) h a = Below-mono rank e h a
Below-mono rank _ h a = tt

and_then-ne-deep {ℓ κ} :
    {A : Type ℓ} {B : Type κ} (r : Run A) (f : A → M B)
    → r ≢ deep
    → ((a : A) (ds : Diagnostics) → r ≡ ok a ds → f a ds ≢ deep)
    → and_then r f ≢ deep
and_then-ne-deep (ok a ds) f h k e = k a ds refl e
and_then-ne-deep (err ds) f h k e = cc
and_then-ne-deep panic f h k e = cc
and_then-ne-deep deep f h k e = h refl

Ends-bind {ℓ κ} :
    {A : Type ℓ} {B : Type κ} {m : M A} {f : A → M B}
    → Ends m
    → ((a : A) → Ends (f a))
    → Ends (m >>= f)
Ends-bind {m} {f} h k ds = and_then-ne-deep (m ds) f (h ds) λ a ds' _. k a ds'

Ends-pure {ℓ} : {A : Type ℓ} (a : A) → Ends (pure a)
Ends-pure a ds e = cc

Ends-initializer :
    (ns : Initializers) (contract_no : Option ℕ) (var_no : ℕ)
    → Ends (initializer ns contract_no var_no)
unfolding initializer
Ends-initializer ns none var_no ds e = ground arith
Ends-initializer ns (some c) var_no ds e = ground arith

module _ (B : BigIntOps) where
  Ends-checked_divisor : (loc : Loc) (v : ℤ) → Ends (checked_divisor B loc v)
  unfolding checked_divisor
  Ends-checked_divisor loc v ds e = ground arith

  const_power-negsuc : (loc : Loc) (b : ℤ) (n : ℕ) → Ends (const_power B loc b (negsuc n))
  unfolding const_power
  const_power-negsuc loc b n ds e = cc

  Ends-const_power : (loc : Loc) (b v : ℤ) → Ends (const_power B loc b v)
  Ends-const_power loc b (negsuc n) ds e = const_power-negsuc loc b n ds e
  Ends-const_power loc b (pos n) ds e = cc (const_power-pow B loc b n ds)

  Ends-const_shift : (loc : Loc) (left : Bool) (l r : ℤ) → Ends (const_shift B loc left l r)
  unfolding const_shift
  Ends-const_shift loc left l r ds e = ground arith

  -- A constant ends if the recursion ends on what is below its rank.
  Ends-initialized :
      (ns : Initializers) (rank : Option ℕ → ℕ → ℕ) (acyclic : IsAcyclic ns rank)
      (rec : Expression → M Value) (k : ℕ) (ends : (e : Expression) → Below rank k e → Ends (rec e))
      (contract_no : Option ℕ) (var_no : ℕ)
      → rank contract_no var_no < suc k
      → Ends (initializer ns contract_no var_no >>= initialized B ns rec)
  Ends-initialized ns rank acyclic rec k ends c v lt ds =
      and_then-ne-deep (initializer ns c v ds) (initialized B ns rec) (Ends-initializer ns c v ds)
        (elim [
          | none ↦ λ ds' at e. cc
          | some init ↦ λ ds' at.
              ends init (Below-mono rank init (omega arith) (acyclic c v init ds ds' at)) ds'
        ])

  module _ (ns : Initializers) (rank : Option ℕ → ℕ → ℕ) (rec : Expression → M Value) (k : ℕ)
      (ends : (contract_no : Option ℕ) (var_no : ℕ)
        → rank contract_no var_no < k
        → Ends (initializer ns contract_no var_no >>= initialized B ns rec)) where
    Ends-eval_with : (e : Expression) → Below rank k e → Ends (eval_with B ns rec e)
    unfolding eval_with
    Ends-eval_with (add loc ty l r) (hl, hr) =
        Ends-bind (Ends-eval_with l hl) λ a. Ends-bind (Ends-eval_with r hr) λ b. Ends-pure _
    Ends-eval_with (subtract loc ty l r) (hl, hr) =
        Ends-bind (Ends-eval_with l hl) λ a. Ends-bind (Ends-eval_with r hr) λ b. Ends-pure _
    Ends-eval_with (multiply loc ty l r) (hl, hr) =
        Ends-bind (Ends-eval_with l hl) λ a. Ends-bind (Ends-eval_with r hr) λ b. Ends-pure _
    Ends-eval_with (bitwise_or loc ty l r) (hl, hr) =
        Ends-bind (Ends-eval_with l hl) λ a. Ends-bind (Ends-eval_with r hr) λ b. Ends-pure _
    Ends-eval_with (bitwise_and loc ty l r) (hl, hr) =
        Ends-bind (Ends-eval_with l hl) λ a. Ends-bind (Ends-eval_with r hr) λ b. Ends-pure _
    Ends-eval_with (bitwise_xor loc ty l r) (hl, hr) =
        Ends-bind (Ends-eval_with l hl) λ a. Ends-bind (Ends-eval_with r hr) λ b. Ends-pure _
    Ends-eval_with (divide loc ty l r) (hl, hr) = Ends-bind (Ends-eval_with r hr) λ b.
        Ends-bind (Ends-checked_divisor loc b.1)
          λ _. Ends-bind (Ends-eval_with l hl) λ a. Ends-pure _
    Ends-eval_with (modulo loc ty l r) (hl, hr) = Ends-bind (Ends-eval_with r hr) λ b.
        Ends-bind (Ends-checked_divisor loc b.1)
          λ _. Ends-bind (Ends-eval_with l hl) λ a. Ends-pure _
    Ends-eval_with (power loc ty l r) (hl, hr) =
        Ends-bind (Ends-eval_with l hl)
          λ a. Ends-bind (Ends-eval_with r hr) λ b. Ends-const_power loc a.1 b.1
    Ends-eval_with (shift_left loc ty l r) (hl, hr) =
        Ends-bind (Ends-eval_with l hl)
          λ a. Ends-bind (Ends-eval_with r hr) λ b. Ends-const_shift loc true a.1 b.1
    Ends-eval_with (shift_right loc ty l r) (hl, hr) =
        Ends-bind (Ends-eval_with l hl)
          λ a. Ends-bind (Ends-eval_with r hr) λ b. Ends-const_shift loc false a.1 b.1
    Ends-eval_with (zero_ext _ _ e) h = Ends-bind (Ends-eval_with e h) λ a. Ends-pure _
    Ends-eval_with (cast _ _ e) h = Ends-bind (Ends-eval_with e h) λ a. Ends-pure _
    Ends-eval_with (not _ e) h = Ends-bind (Ends-eval_with e h) λ a. Ends-pure _
    Ends-eval_with (bitwise_not _ _ e) h = Ends-bind (Ends-eval_with e h) λ a. Ends-pure _
    Ends-eval_with (constant_variable _ _ c v) h = ends c v h
    Ends-eval_with _ h = λ ds e. cc

  -- With a rank on the constants by which every initializer names smaller ones only, a bound on the
  -- recursion suffices that is above the ranks which the expression names: the evaluation returns,
  -- fails or panics within it.
  pub eval_const_number-ends :
      (ns : Initializers) (rank : Option ℕ → ℕ → ℕ)
      → IsAcyclic ns rank
      → (fuel : ℕ) (e : Expression) → Below rank fuel e
      → (ds : Diagnostics) → eval_const_number B fuel ns e ds ≢ deep
  unfolding eval_const_number
  eval_const_number-ends ns rank acyclic zero e h =
      Ends-eval_with ns rank _ 0 (λ c v lt. absurd (omega arith)) e h
  eval_const_number-ends ns rank acyclic (suc fuel) e h =
      Ends-eval_with ns rank (eval_const_number B fuel ns) (suc fuel)
        (Ends-initialized ns rank acyclic (eval_const_number B fuel ns) fuel
          (eval_const_number-ends ns rank acyclic fuel))
        e h
