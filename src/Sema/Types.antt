-- ===== src/Sema/Types.antt =====
-- src/sema/types.rs: the elements and the length of arrays, and the storage slots of a type.
-- `panic!`, `unreachable!` and an index out of range are a panic. The recursion through the fields of
-- structs, which the source does not bound, has at most `fuel` structs inside one another.
pub mod Arrays
use ola_lang.Prelude.{
  ℕ, zero, suc, Bool, true, false, Option, none, some, List, [], ◌∷◌, ltb, if◌then◌else◌, length,
  get_elem?, get_last?, drop_last,
}
use ola_lang.Prelude.Int.{ℤ, pos}
use ola_lang.Prelude.Outcome.{Outcome, done, panic, unwrap, ◌>>=◌}
use ola_lang.Sema.Ast.{
  ArrayLength, fixed, dynamic, any_fixed, Ty, uint, dynamic_bytes, string, array, struct, mapping,
  ref, storage_ref, slice,
}
use ola_lang.Sema.BigInt.{BigIntOps}

-- `Type::Array(ty, dim)` with `dim.len() > 1`, and with `dim.len() == 1`
abbrev pub elem_of : Ty → List ArrayLength → Outcome Ty
elem_of t [] = panic
elem_of t (d ∷ []) = done t
elem_of t (d ∷ e ∷ dims) = done (array t (drop_last (d ∷ e ∷ dims)))

unfoldable pub array_elem : Ty → Outcome Ty
array_elem (array t dims) = elem_of t dims
array_elem dynamic_bytes = done (uint 32)
array_elem string = done (uint 32)
array_elem _ = panic

unfoldable pub storage_array_elem : Ty → Outcome Ty
storage_array_elem (mapping _ _ value _) = done (storage_ref value)
storage_array_elem dynamic_bytes = done (uint 32)
storage_array_elem string = done (uint 32)
storage_array_elem (array t dims) = do e ← elem_of t dims; done (storage_ref e)
storage_array_elem (storage_ref t) = storage_array_elem t
storage_array_elem _ = panic

unfoldable pub array_deref : Ty → Outcome Ty
array_deref string = done (ref (uint 32))
array_deref dynamic_bytes = done (ref (uint 32))
array_deref (ref t) = array_deref t
array_deref (array t dims) = do e ← elem_of t dims; done (ref e)
array_deref (slice t) = done (ref t)
array_deref _ = panic

-- `ArrayLength::array_length`
abbrev pub fixed_length : ArrayLength → Option ℤ
fixed_length (fixed n) = some n
fixed_length _ = none

unfoldable pub array_length : Ty → Outcome (Option ℤ)
array_length (storage_ref t) = array_length t
array_length (ref t) = array_length t
array_length (array _ dims) = do d ← unwrap (get_last? dims); done (fixed_length d)
array_length string = done none
array_length dynamic_bytes = done none
array_length _ = panic

-- Of a field of a struct, its type and whether it makes the struct infinite
pub record Field : Type 0 where
  pub ty : Ty
  pub infinite_size : Bool

-- A number of slots, a panic, or structs inside one another beyond the bound
pub data Slots : Type 0 where
  slots : ℤ → Slots
  no_slots : Slots
  too_deep : Slots

abbrev pub and_slots : Slots → (ℤ → Slots) → Slots
and_slots (slots n) f = f n
and_slots no_slots f = no_slots
and_slots too_deep f = too_deep

module _ (B : BigIntOps) (structs : List (List Field)) where
  -- `dims.iter().map(…).product()`, from what has been multiplied
  unfoldable pub product : ℤ → List ArrayLength → Slots
  product acc [] = slots acc
  product acc (fixed n ∷ dims) = product (B.mul acc n) dims
  product acc (dynamic ∷ dims) = product (B.mul acc (pos 1)) dims
  product acc (any_fixed ∷ dims) = no_slots

  -- `fields.iter().filter(|f| !f.infinite_size).map(…).sum()`
  sum_fields : (Ty → Slots) → ℤ → List Field → Slots
  sum_fields rec acc [] = slots acc
  sum_fields rec acc (f ∷ fields) =
      let counted = and_slots (rec f.ty) (λ n. sum_fields rec (B.add acc n) fields) in
      let skipped = sum_fields rec acc fields in if f.infinite_size then skipped else counted

  abbrev struct_slots : (Ty → Slots) → Option (List Field) → Slots
  struct_slots rec none = no_slots
  struct_slots rec (some fields) = sum_fields rec (pos 0) fields

  unfoldable pub storage_slots_with : (Ty → Slots) → Ty → Slots
  unfolding product sum_fields
  storage_slots_with rec (storage_ref t) = storage_slots_with rec t
  storage_slots_with rec (ref t) = storage_slots_with rec t
  storage_slots_with rec (struct n) = struct_slots rec (get_elem? structs n)
  storage_slots_with rec (array t dims) =
      and_slots (storage_slots_with rec t)
        (λ s. and_slots (product (pos 1) dims) (λ p. slots (B.mul s p)))
  storage_slots_with rec _ = slots (pos 1)

  unfoldable pub storage_slots : ℕ → Ty → Slots
  unfolding storage_slots_with
  storage_slots zero = storage_slots_with (λ t. too_deep)
  storage_slots (suc fuel) = storage_slots_with (storage_slots fuel)
