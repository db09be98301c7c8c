-- ===== src/Sema/Ast.antt =====
-- src/sema/ast.rs: the types and expressions of the language, as the semantic analysis resolves
-- them, with the locations and identifiers of ola-parser/src/program.rs that they carry.
-- A `Box` is the value in it, a `BigInt` is ℤ, a `u16` or `usize` is ℕ, a `Vec` is a list.
pub mod Statements
use ola_lang.Prelude.{ℕ, String, Option, List}
use ola_lang.Prelude.Int.{ℤ}

pub data Loc : Type 0 where
  builtin command_line implicit irgen : Loc
  file : ℕ → ℕ → ℕ → Loc

pub record Identifier : Type 0 where
  pub loc : Loc
  pub name : String

pub data ArrayLength : Type 0 where
  fixed : ℤ → ArrayLength
  dynamic any_fixed : ArrayLength

-- The enum `Type`. The struct `Mapping` stands in its constructor: key, key name, value, value
-- name. The lists of a function's types are the second type of the block.
mutual
  pub data Ty : Type 0 where
    bool : Ty
    uint : ℕ → Ty
    address hash field dynamic_bytes string : Ty
    array : Ty → List ArrayLength → Ty
    enum struct : ℕ → Ty
    mapping : Ty → Option Identifier → Ty → Option Identifier → Ty
    contract : ℕ → Ty
    ref storage_ref : Ty → Ty
    function external_function : Tys → Tys → Ty
    user_type : ℕ → Ty
    void unreachable : Ty
    slice : Ty → Ty
    unresolved buffer_pointer : Ty

  pub data Tys : Type 0 where
    nil : Tys
    cons : Ty → Tys → Tys

-- The enum `Expression`, with the variants by which the modelled code tells expressions apart.
-- `other` stands for each of the remaining variants, which that code treats alike (the arms `_`);
-- its number tells them from one another, and its type is what `ty()` gives of the variant (a call
-- or a list of other than one value has none: `ty()` panics). Of the literals of arrays and structs and of the
-- allocation only the location and the type are kept.
pub data Expression : Type 0 where
  number_literal : Loc → Ty → ℤ → Expression
  struct_literal array_literal alloc_dynamic_bytes : Loc → Ty → Expression
  add subtract multiply divide modulo power : Loc → Ty → Expression → Expression → Expression
  bitwise_or bitwise_and bitwise_xor shift_left shift_right :
      Loc → Ty → Expression → Expression → Expression
  constant_variable : Loc → Ty → Option ℕ → ℕ → Expression
  zero_ext cast : Loc → Ty → Expression → Expression
  not : Loc → Expression → Expression
  bitwise_not : Loc → Ty → Expression → Expression
  address_literal hash_literal : Loc → Ty → List ℤ → Expression
  load get_ref storage_load : Loc → Ty → Expression → Expression
  bytes_cast : Loc → (from to : Ty) → Expression → Expression
  subscript : Loc → (ty array_ty : Ty) → Expression → Expression → Expression
  other : ℕ → Loc → Option Ty → Expression
