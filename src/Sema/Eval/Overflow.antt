-- ===== src/Sema/Eval/Overflow.antt =====
-- src/sema/eval.rs: what the overflow check reports, and when it panics.
use ola_lang.Prelude.{◌<◌, ◌≤◌, ◌^◌, ◌≡◌, Bool, true, false, Option, none, some, ◌⊎◌}
use ola_lang.Prelude.Int.{ℤ, pos, negsuc}
use ola_lang.Sema.Ast.{Loc, Ty, uint, field, Expression}
use ola_lang.Sema.BigInt.{BigIntOps}
use ola_lang.Sema.Diagnostics
use ola_lang.Sema.Diagnostics.{Diagnostics, Diagnostic, is_error}
use ola_lang.Sema.Eval.Monad.{Run, ok, panic}
use ola_lang.Sema.Eval.Fold.{field_order}

-- the types of numbers
abbrev pub IsNumber : Ty → Type 0
IsNumber (uint width) = Unit
IsNumber field = Unit
IsNumber _ = ⊥

-- The values of a type of numbers: those that the width holds, and those below the order of the field.
abbrev pub Holds : ℤ → Ty → Type 0
Holds (negsuc n) ty = ⊥
Holds (pos n) (uint width) = n < 2 ^ width
Holds (pos n) field = n < field_order
Holds (pos n) _ = ⊥

-- the one value that is none of the field and not refused
abbrev pub IsOrder : ℤ → Ty → Type 0
IsOrder (pos n) field = n ≡ field_order
IsOrder _ _ = ⊥

-- The values that are refused: of the field those that are above its order and fit 64 bits.
abbrev pub IsRefused : ℤ → Ty → Type 0
IsRefused (negsuc n) ty = Unit
IsRefused (pos n) (uint width) = 2 ^ width ≤ n
IsRefused (pos n) field = (field_order < n) × (n < 2 ^ 64)
IsRefused (pos n) _ = ⊥

abbrev pub IsHuge : ℤ → Ty → Type 0
IsHuge (pos n) field = 2 ^ 64 ≤ n
IsHuge _ _ = ⊥

-- what the check of a value gives
abbrev pub Verdict : ℤ → Ty → Run (Option Diagnostic) → Diagnostics → Type 0
Verdict v ty r ds =
    ((Holds v ty ⊎ IsOrder v ty) × (r ≡ ok none ds))
    ⊎ ((IsRefused v ty × ((d : Diagnostic) × (r ≡ ok (some d) ds) × (is_error d.level ≡ true)))
        ⊎ (IsHuge v ty × (r ≡ panic)))

module _ (B : BigIntOps) (e : Expression) (loc : Loc) (ty : Ty) (ds ds' : Diagnostics) where
  -- What the check gives of an expression that folds to a value, from what it finds of the value
  abbrev pub IsChecked : ℤ → Run Bool → Type 0
  IsChecked v r =
      ((Holds v ty ⊎ IsOrder v ty) × (r ≡ ok false ds'))
      ⊎ ((IsRefused v ty
            × ((d : Diagnostic) × (r ≡ ok false (Diagnostics.push ds' d))
                × (is_error d.level ≡ true)))
          ⊎ (IsHuge v ty × (r ≡ panic)))
