-- ===== src/Sema/Casts/Numbers.antt =====
-- src/sema/expression/mod.rs: casts of numbers, and how they go together with the common type that
-- src/sema/expression/integers.rs chooses.
use ola_lang.Prelude.{
  ℕ, suc, ◌≤◌, ◌<◌, ◌^◌, ◌≡◌, refl, Bool, true, false, Option, none, some, ltb, ltb→lt,
  if◌then◌else◌, leb, inl, inr, Bool-cases, arith,
}
use ola_lang.Prelude.Int.{ℤ, abs}
use ola_lang.Sema.Ast.{Loc, Ty, uint, field, ref, storage_ref, Expression, number_literal}
use ola_lang.Sema.BigInt.{BigIntOps}
use ola_lang.Sema.Diagnostics as D
use ola_lang.Sema.Diagnostics.{Diagnostics, Diagnostic}
use ola_lang.Sema.Eval.Monad.{ok, err}
use ola_lang.Sema.Integers.{ty_eq}
use ola_lang.Sema.Integers.Coercion.{number_ty}
use ola_lang.Sema.Casts.{ty_of, literal_truncates, is_slot_of_bytes, cast_value, cast_from, cast_to}

abbrev is_number_literal : Expression → Bool
is_number_literal (number_literal _ _ _) = true
is_number_literal _ = false

-- a value, or what a reference to a variable or to storage refers to
pub data Place : Type 0 where
  by_value by_ref in_storage : Place

abbrev pub placed : Place → Ty → Ty
placed by_value t = t
placed by_ref t = ref t
placed in_storage t = storage_ref t

-- an unsigned integer of `a` bits in the place, and no literal
abbrev pub IsNumberAt : Place → ℕ → Expression → Type 0
IsNumberAt p a e =
    (is_number_literal e ≡ false)
    × (is_slot_of_bytes e ≡ false)
    × (ty_of e ≡ some (placed p (uint a)))

fits_width : (k n : ℕ) → n ≤ k → leb (suc k) n ≡ false
fits_width k n h = ground arith

passes_width : (k n : ℕ) → k < n → leb (suc k) n ≡ true
passes_width k n h = ground arith

module _ (B : BigIntOps) (loc : Loc) (ds : Diagnostics) where
  to_width :
      (v : ℤ) (k : ℕ) (from : Ty) (l : Loc)
      → cast_value loc B (number_literal l from v) from (uint (suc k)) ds ≡ (
          if ltb (abs v) (2 ^ k)
          then ok (number_literal loc (uint (suc k)) v) ds
          else err (D.push ds (literal_truncates loc from (uint (suc k)))))
  unfolding cast_value
  to_width v k from l =
      let (small_of, bits_of) = B.bits-le v k in
      elim (Bool-cases (ltb (abs v) (2 ^ k))) [
        | inl small ↦
            rw (small, fits_width k (B.bits v) (bits_of (ltb→lt (abs v) (2 ^ k) small))) refl
        | inr large ↦ rw (large, passes_width k (B.bits v) (grind (arith, small_of, large))) refl
      ]

  -- A number of another type of numbers is accepted as an unsigned integer of `suc k` bits, unchanged,
  -- if its magnitude is below 2^k; else there is one error, that the literal does not fit.
  pub cast_to-number_literal :
      (l : Loc) (o : Option ℕ) (v : ℤ) (k : ℕ)
      → ty_eq (number_ty o) (uint (suc k)) ≡ false
      → cast_to loc B (uint (suc k)) (number_literal l (number_ty o) v) ds ≡ (
          if ltb (abs v) (2 ^ k)
          then ok (number_literal loc (uint (suc k)) v) ds
          else err (D.push ds (literal_truncates loc (number_ty o) (uint (suc k)))))
  unfolding cast_to cast_from
  cast_to-number_literal l none v k other = to_width v k field l
  cast_to-number_literal l (some w) v k other = rw other (to_width v k (uint w) l)

  -- The cast of a number in some place to at least its width
  abbrev pub Widened : ℕ → Expression → Type 0
  Widened c e =
      (e' : Expression) × (cast_to loc B (uint c) e ds ≡ ok e' ds) × (ty_of e' ≡ some (uint c))
