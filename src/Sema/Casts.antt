-- ===== src/Sema/Casts.antt =====
-- src/sema/expression/mod.rs: the conversion of an expression to a type, `Expression::cast` and
-- `cast_types`, with `ty()` of src/sema/expression/retrieve_type.rs and `is_fixed_reference_type` of
-- src/sema/types.rs. The text that `to_string` makes of a type is kept as the type.
pub mod Answers
pub mod Numbers
pub mod Reports
use ola_lang.Prelude.{
  ℕ, Bool, true, false, ◌&&◌, ◌||◌, Option, none, some, List, [], ◌∷◌, ◌==◌, ltb, leb,
  if◌then◌else◌, length, get_last?,
}
use ola_lang.Prelude.Int.{ℤ, pos}
use ola_lang.Sema.Ast.{
  Loc, ArrayLength, fixed, dynamic, any_fixed, Ty, bool, uint, address, hash, field, dynamic_bytes,
  string, array, enum, struct, mapping, contract, ref, storage_ref, function, external_function,
  user_type, void, unreachable, slice, unresolved, buffer_pointer, Expression, number_literal,
  struct_literal, array_literal, alloc_dynamic_bytes, add, subtract, multiply, divide, modulo,
  power, bitwise_or, bitwise_and, bitwise_xor, shift_left, shift_right, constant_variable, zero_ext,
  cast, not, bitwise_not, address_literal, hash_literal, load, get_ref, storage_load, bytes_cast,
  subscript, other,
}
use ola_lang.Sema.BigInt.{BigIntOps}
use ola_lang.Sema.Diagnostics.{Diagnostic, cast_error_diagnostic, message, ty}
use ola_lang.Sema.Eval.Monad.{M, pure, fail, unwrap, ◌>>=◌}
use ola_lang.Sema.Integers.{ty_eq, length_eq}

-- `ty()`
abbrev pub ty_of : Expression → Option Ty
ty_of (number_literal _ t _) = some t
ty_of (struct_literal _ t) = some t
ty_of (array_literal _ t) = some t
ty_of (alloc_dynamic_bytes _ t) = some t
ty_of (add _ t _ _) = some t
ty_of (subtract _ t _ _) = some t
ty_of (multiply _ t _ _) = some t
ty_of (divide _ t _ _) = some t
ty_of (modulo _ t _ _) = some t
ty_of (power _ t _ _) = some t
ty_of (bitwise_or _ t _ _) = some t
ty_of (bitwise_and _ t _ _) = some t
ty_of (bitwise_xor _ t _ _) = some t
ty_of (shift_left _ t _ _) = some t
ty_of (shift_right _ t _ _) = some t
ty_of (constant_variable _ t _ _) = some t
ty_of (zero_ext _ to _) = some to
ty_of (cast _ to _) = some to
ty_of (not _ _) = some bool
ty_of (bitwise_not _ t _) = some t
ty_of (address_literal _ t _) = some t
ty_of (hash_literal _ t _) = some t
ty_of (load _ t _) = some t
ty_of (get_ref _ t _) = some t
ty_of (storage_load _ t _) = some t
ty_of (bytes_cast _ _ to _) = some to
ty_of (subscript _ t _ _ _) = some t
ty_of (other _ _ t) = t

abbrev is_dynamic : ArrayLength → Bool
is_dynamic dynamic = true
is_dynamic _ = false

abbrev any_dynamic : List ArrayLength → Bool
any_dynamic [] = false
any_dynamic (d ∷ ds) = is_dynamic d || any_dynamic ds

abbrev flip : Bool → Bool
flip true = false
flip false = true

-- It panics on the types that are not listed.
abbrev pub is_fixed_reference_type : Ty → Option Bool
is_fixed_reference_type (struct _) = some true
is_fixed_reference_type (array _ dims) = some (flip (any_dynamic dims))
is_fixed_reference_type (external_function _ _) = none
is_fixed_reference_type (user_type _) = none
is_fixed_reference_type void = none
is_fixed_reference_type unreachable = none
is_fixed_reference_type buffer_pointer = none
is_fixed_reference_type _ = some false

abbrev pub is_unresolved : Ty → Bool
is_unresolved unresolved = true
is_unresolved _ = false

-- `Type::is_storage_bytes`
abbrev is_storage_bytes : Ty → Bool
is_storage_bytes (storage_ref dynamic_bytes) = true
is_storage_bytes _ = false

-- a `Subscript` of bytes in storage
abbrev pub is_slot_of_bytes : Expression → Bool
is_slot_of_bytes (subscript _ _ array_ty _ _) = is_storage_bytes array_ty
is_slot_of_bytes _ = false

abbrev not_possible : Loc → (from to : Ty) → M Expression
not_possible loc from to = fail (
    cast_error_diagnostic loc
      (message "conversion from {} to {} not possible" (ty from ∷ ty to ∷ [])))

abbrev not_allowed : Loc → (from to : Ty) → M Expression
not_allowed loc from to = fail (
    cast_error_diagnostic loc
      (message "implicit conversion from {} to {} not allowed" (ty from ∷ ty to ∷ [])))

abbrev would_truncate : Loc → (from to : Ty) → M Expression
would_truncate loc from to = fail (
    cast_error_diagnostic loc
      (message "implicit conversion would truncate from {} to {}" (ty from ∷ ty to ∷ [])))

abbrev pub literal_truncates : Loc → (from to : Ty) → Diagnostic
literal_truncates loc from to =
    cast_error_diagnostic loc
      (message "implicit conversion would truncate from '{}' to '{}'" (ty from ∷ ty to ∷ []))

-- `f == t || matches!((f, t), (ArrayLength::Fixed(_), ArrayLength::AnyFixed))`
abbrev dim_fits : ArrayLength → ArrayLength → Bool
dim_fits (fixed m) any_fixed = true
dim_fits f t = length_eq f t

-- `zip … all`: as far as the shorter goes
abbrev dims_fit : List ArrayLength → List ArrayLength → Bool
dims_fit (f ∷ fs) (t ∷ ts) = dim_fits f t && dims_fit fs ts
dims_fit _ _ = true

abbrev pub arrays_fit : Ty → List ArrayLength → Ty → List ArrayLength → Bool
arrays_fit from_elem from_dim to_elem to_dim =
    (ty_eq from_elem to_elem && (length from_dim == length to_dim)) && dims_fit from_dim to_dim

abbrev is_last_dynamic : Option ArrayLength → Bool
is_last_dynamic none = false
is_last_dynamic (some d) = is_dynamic d

-- the guard of the cast of an array literal to a dynamic array of one dimension
abbrev pub to_dynamic : Ty → List ArrayLength → Ty → List ArrayLength → Bool
to_dynamic from_ty from_dims to_ty to_dims =
    ((ty_eq from_ty to_ty && (length from_dims == length to_dims)) && (length from_dims == 1))
    && is_last_dynamic (get_last? to_dims)

module _ (loc : Loc) where
  unfoldable pub cast_types : Expression → (from to : Ty) → M Expression
  cast_types e address (ref address) = pure (get_ref loc (ref address) e)
  cast_types e (uint n) (enum k) = not_allowed loc (uint n) (enum k)
  cast_types e (enum k) (uint n) = not_allowed loc (enum k) (uint n)
  cast_types e (uint from_len) (uint to_len) =
      if ltb to_len from_len
      then would_truncate loc (uint from_len) (uint to_len)
      else if ltb from_len to_len
      then pure (zero_ext loc (uint to_len) e)
      else pure (cast loc (uint to_len) e)
  cast_types e (uint n) field = if n == 32 then pure e else not_possible loc (uint n) field
  cast_types e field dynamic_bytes = pure (bytes_cast loc field dynamic_bytes e)
  cast_types e dynamic_bytes field = pure (bytes_cast loc dynamic_bytes field e)
  cast_types e hash address = pure (cast loc address e)
  cast_types e address hash = pure (cast loc hash e)
  cast_types e (uint n) address =
      if n == 32 then pure (cast loc address e) else not_possible loc (uint n) address
  cast_types e hash dynamic_bytes = pure (cast loc dynamic_bytes e)
  cast_types e address dynamic_bytes = pure (cast loc dynamic_bytes e)
  cast_types e (array t ms) (array u ns) =
      if arrays_fit t ms u ns then pure e else not_possible loc (array t ms) (array u ns)
  cast_types e dynamic_bytes (slice t) =
      if ty_eq t field
      then pure (cast loc (slice t) e)
      else not_possible loc dynamic_bytes (slice t)
  cast_types e field (slice t) =
      if ty_eq t field then pure (cast loc (slice t) e) else not_possible loc field (slice t)
  cast_types e string dynamic_bytes = pure (cast loc dynamic_bytes e)
  cast_types e dynamic_bytes string = pure (cast loc string e)
  cast_types e address (contract k) = pure (cast loc (contract k) e)
  cast_types e (contract k) address = pure (cast loc address e)
  cast_types e from to = not_possible loc from to

  module _ (B : BigIntOps) where
    -- four words, of which the last is the number
    abbrev four_words : ℤ → List ℤ
    four_words v = pos 0 ∷ pos 0 ∷ pos 0 ∷ v ∷ []

    -- the special cases of literals, and else `cast_types`
    unfoldable pub cast_value : Expression → (from to : Ty) → M Expression
    unfolding cast_types
    cast_value (number_literal l t v) from (uint to_len) =
        if leb to_len (B.bits v)
        then fail (literal_truncates loc from (uint to_len))
        else pure (number_literal loc (uint to_len) v)
    cast_value (number_literal l t v) from field =
        if ty_eq from (uint 32)
        then pure (number_literal loc field v)
        else fail (
            cast_error_diagnostic loc
              (message "type {} cannot be converted to type '{}'" (ty from ∷ ty field ∷ [])))
    cast_value (number_literal l t v) from address =
        if ty_eq from (uint 32)
        then pure (address_literal loc address (four_words v))
        else cast_types (number_literal l t v) from address
    cast_value (number_literal l t v) from hash =
        if ty_eq from (uint 32)
        then pure (hash_literal loc hash (four_words v))
        else cast_types (number_literal l t v) from hash
    cast_value (array_literal l t) (array from_ty from_dims) (array to_ty to_dims) =
        if to_dynamic from_ty from_dims to_ty to_dims
        then pure (cast loc (array to_ty to_dims) (array_literal l t))
        else cast_types (array_literal l t) (array from_ty from_dims) (array to_ty to_dims)
    cast_value e from to = cast_types e from to

    -- `if &from == to`, `if from == Type::Unresolved || *to == Type::Unresolved`, and the rest
    abbrev unless_same : Expression → (from to : Ty) → M Expression → M Expression
    unless_same e from to rest =
        if ty_eq from to
        then pure e
        else if is_unresolved from || is_unresolved to
        then pure e
        else rest

    -- what is done with a reference, by whether it refers to a fixed type: `loaded` is the cast of
    -- the load
    abbrev through_ref : Expression → (r to : Ty) → M Expression → Bool → M Expression
    through_ref e r to loaded true = if ty_eq r to then pure e else not_possible loc (ref r) to
    through_ref e r to loaded false = loaded

    -- `cast` of an expression whose type is `from`; each recursive call is on a load, whose type is
    -- the one that it is given.
    unfoldable pub cast_from : (from to : Ty) → Expression → M Expression
    unfolding cast_value
    cast_from (ref r) to e =
        let loaded = cast_from r to (load loc r e) in
        unless_same e (ref r) to
          (do is_fixed ← unwrap (is_fixed_reference_type r); through_ref e r to loaded is_fixed)
    cast_from (storage_ref r) to e =
        let loaded = cast_from r to (storage_load loc r e) in
        unless_same e (storage_ref r) to (if is_slot_of_bytes e then pure e else loaded)
    cast_from from to e = unless_same e from to (cast_value e from to)

    -- `Expression::cast`
    unfoldable pub cast_to : Ty → Expression → M Expression
    unfolding cast_from
    cast_to to e = do from ← unwrap (ty_of e); cast_from from to e
