-- ===== src/Sema/Integers.antt =====
-- src/sema/expression/integers.rs: the common type of two operands, and the type of a number.
-- The text that `to_string` makes of a type is kept as the type; an enum or a struct out of range
-- makes the index into the namespace panic.
pub mod Coercion
use ola_lang.Prelude.{
  ℕ, zero, suc, Bool, true, false, ◌&&◌, Option, none, some, List, [], ◌∷◌, ◌==◌, ltb, leb,
  if◌then◌else◌, String, get_elem?,
}
use ola_lang.Prelude.Int.{ℤ, pos, negsuc}
use ola_lang.Sema.Ast.{
  Loc, ArrayLength, fixed, dynamic, any_fixed, Ty, Tys, bool, uint, address, hash, field,
  dynamic_bytes, string, array, enum, struct, mapping, contract, ref, storage_ref, function,
  external_function, user_type, void, unreachable, slice, unresolved, buffer_pointer, nil, cons,
  Expression, number_literal,
}
use ola_lang.Sema.BigInt.{BigIntOps}
use ola_lang.Sema.Diagnostics.{
  Diagnostic, error_diagnostic, cast_error_diagnostic, message, int, str, ty,
}
use ola_lang.Sema.Eval.Monad.{deep, M, pure, fail, unwrap, ◌>>=◌, ◌>>◌}

-- Of `Namespace`: the names of the enums and structs as they are printed, and the user types.
pub record TypeDecls : Type 0 where
  pub enums : List String
  pub structs : List String
  pub user_types : List Ty

abbrev int_eq : ℤ → ℤ → Bool
int_eq (pos m) (pos n) = m == n
int_eq (negsuc m) (negsuc n) = m == n
int_eq _ _ = false

abbrev pub length_eq : ArrayLength → ArrayLength → Bool
length_eq (fixed m) (fixed n) = int_eq m n
length_eq dynamic dynamic = true
length_eq any_fixed any_fixed = true
length_eq _ _ = false

abbrev lengths_eq : List ArrayLength → List ArrayLength → Bool
lengths_eq [] [] = true
lengths_eq (m ∷ ms) (n ∷ ns) = length_eq m n && lengths_eq ms ns
lengths_eq _ _ = false

-- `==` of types: the names of a mapping's key and value do not count.
abbrev mutual
  pub ty_eq : Ty → Ty → Bool
  ty_eq bool bool = true
  ty_eq (uint m) (uint n) = m == n
  ty_eq address address = true
  ty_eq hash hash = true
  ty_eq field field = true
  ty_eq dynamic_bytes dynamic_bytes = true
  ty_eq string string = true
  ty_eq (array t ms) (array u ns) = ty_eq t u && lengths_eq ms ns
  ty_eq (enum m) (enum n) = m == n
  ty_eq (struct m) (struct n) = m == n
  ty_eq (mapping k _ v _) (mapping l _ w _) = ty_eq k l && ty_eq v w
  ty_eq (contract m) (contract n) = m == n
  ty_eq (ref t) (ref u) = ty_eq t u
  ty_eq (storage_ref t) (storage_ref u) = ty_eq t u
  ty_eq (function ps rs) (function qs ss) = tys_eq ps qs && tys_eq rs ss
  ty_eq (external_function ps rs) (external_function qs ss) = tys_eq ps qs && tys_eq rs ss
  ty_eq (user_type m) (user_type n) = m == n
  ty_eq void void = true
  ty_eq unreachable unreachable = true
  ty_eq (slice t) (slice u) = ty_eq t u
  ty_eq unresolved unresolved = true
  ty_eq buffer_pointer buffer_pointer = true
  ty_eq _ _ = false

  tys_eq : Tys → Tys → Bool
  tys_eq nil nil = true
  tys_eq (cons t ts) (cons u us) = ty_eq t u && tys_eq ts us
  tys_eq _ _ = false

-- `Type::Ref(ty) => ty, Type::StorageRef(ty) => ty, _ => l`
abbrev pub behind_ref : Ty → Ty
behind_ref (ref t) = t
behind_ref (storage_ref t) = t
behind_ref t = t

abbrev pub max : ℕ → ℕ → ℕ
max a b = if leb a b then b else a

-- the pairs of types that `coerce_number` answers at once
abbrev pub same_kind : Ty → Ty → Option Ty
same_kind (contract a) (contract b) = if a == b then some (contract a) else none
same_kind address address = some address
same_kind hash hash = some hash
same_kind field (uint n) = some field
same_kind (uint n) field = some field
same_kind field field = some field
same_kind _ _ = none

module _ (ns : TypeDecls) where
  unfoldable pub type_bits : Ty → Loc → M ℕ
  type_bits (uint n) loc = pure n
  type_bits field loc = pure 64
  type_bits (enum n) loc = do
    name ← unwrap (get_elem? ns.enums n)
    fail (error_diagnostic loc (message "type enum {} not allowed" (str name ∷ [])))
  type_bits (struct n) loc = do
    name ← unwrap (get_elem? ns.structs n)
    fail (error_diagnostic loc (message "type struct {} not allowed" (str name ∷ [])))
  type_bits (array t dims) loc =
      fail (error_diagnostic loc (message "type array {} not allowed" (ty (array t dims) ∷ [])))
  type_bits (ref t) loc = type_bits t loc
  type_bits (storage_ref t) loc = type_bits t loc
  type_bits t loc =
      fail (error_diagnostic loc (message "expression of type {} not allowed" (ty t ∷ [])))

  wider : Ty → Loc → Ty → Loc → Option Ty → M Ty
  unfolding type_bits
  wider l l_loc r r_loc (some t) = pure t
  wider l l_loc r r_loc none = do
    left_len ← type_bits l l_loc
    right_len ← type_bits r r_loc
    pure (uint (max left_len right_len))

  unfoldable pub coerce_number : Ty → Loc → Ty → Loc → M Ty
  unfolding wider
  coerce_number l l_loc r r_loc =
      let l' = behind_ref l in let r' = behind_ref r in wider l' l_loc r' r_loc (same_kind l' r')

  unfoldable pub coerce : Ty → Loc → Ty → Loc → M Ty
  unfolding coerce_number
  coerce l l_loc r r_loc =
      let l' = behind_ref l in
      let r' = behind_ref r in if ty_eq l' r' then pure l' else coerce_number l' l_loc r' r_loc

  -- `Type::is_integer` of src/sema/types.rs, which goes through user types by `rec`
  is_integer_with : (Ty → M Bool) → Ty → M Bool
  is_integer_with rec (uint n) = pure true
  is_integer_with rec field = pure true
  is_integer_with rec (ref t) = is_integer_with rec t
  is_integer_with rec (storage_ref t) = is_integer_with rec t
  is_integer_with rec (user_type n) = do t ← unwrap (get_elem? ns.user_types n); rec t
  is_integer_with rec _ = pure false

  unfoldable pub is_integer : ℕ → Ty → M Bool
  unfolding is_integer_with
  is_integer zero = is_integer_with (λ t ds. deep)
  is_integer (suc fuel) = is_integer_with (is_integer fuel)

-- `ResolveTo` of src/sema/expression/mod.rs
pub data ResolveTo : Type 0 where
  unknown integer discard : ResolveTo
  to_type : Ty → ResolveTo

module _ (B : BigIntOps) (ns : TypeDecls) (loc : Loc) (n : ℤ) where
  smallest : M Expression
  smallest =
      if ltb 256 (B.bits n)
      then fail (error_diagnostic loc (message "{} is too large" (int n ∷ [])))
      else pure (number_literal loc (uint 32) n)

  unfoldable pub bigint_to_expression : ℕ → ResolveTo → M Expression
  unfolding smallest is_integer
  bigint_to_expression fuel (to_type t) = if ty_eq t unresolved then smallest else (do
    ok_type ← is_integer ns fuel t
    if ok_type
        then pure (number_literal loc t n)
        else fail (cast_error_diagnostic loc (message "expected '{}', found integer" (ty t ∷ []))))
  bigint_to_expression fuel _ = smallest
