-- ===== src/Sema/Integers/Coercion.antt =====
-- src/sema/expression/integers.rs: the common type of numbers, and what is reported of others.
use ola_lang.Prelude.{
  ℕ, ◌≡◌, refl, true, Option, none, some, ◌==◌, arith, Bool-cases, inl, inr, ◌⊎◌, get_elem?, String,
}
use ola_lang.Sema.Ast.{Loc, Ty, uint, field, enum, struct, ref, storage_ref}
use ola_lang.Sema.Diagnostics
use ola_lang.Sema.Diagnostics.{Diagnostics, Diagnostic, is_error}
use ola_lang.Sema.Eval.Monad.{ok, err, M}
use ola_lang.Sema.Integers.{
  TypeDecls, behind_ref, ty_eq, max, same_kind, type_bits, wider, coerce_number, coerce,
}

-- A type of numbers: the field, or unsigned integers of a width
abbrev pub number_ty : Option ℕ → Ty
number_ty none = field
number_ty (some w) = uint w

-- The field is above all widths.
abbrev pub join : Option ℕ → Option ℕ → Option ℕ
join (some a) (some b) = some (max a b)
join _ _ = none

-- Numbers of two types, each one perhaps behind a reference, have the join of the types in common:
-- the field if one of them is the field, and else the larger width. Nothing is reported.
pub coerce-join :
    (ns : TypeDecls) (l r : Ty) (l_loc r_loc : Loc) (x y : Option ℕ) (ds : Diagnostics)
    → behind_ref l ≡ number_ty x
    → behind_ref r ≡ number_ty y
    → coerce ns l l_loc r r_loc ds ≡ ok (number_ty (join x y)) ds
unfolding coerce coerce_number wider type_bits
coerce-join ns l r l_loc r_loc none none ds h k = rw (h, k) refl
coerce-join ns l r l_loc r_loc none (some w) ds h k = rw (h, k) refl
coerce-join ns l r l_loc r_loc (some v) none ds h k = rw (h, k) refl
coerce-join ns l r l_loc r_loc (some v) (some w) ds h k =
    rw (h, k)
      (elim (Bool-cases (v == w)) [
        | inl e ↦ let same : v ≡ w = ground arith in ground arith
        | inr e ↦ rw e refl
      ])

-- The call returns and reports nothing, or it fails and has reported one error.
abbrev pub Reports {ℓ} : {A : Type ℓ} → M A → Diagnostics → Type ℓ
Reports {A = A} m ds =
    ((a : A) × (m ds ≡ ok a ds))
    ⊎ ((d : Diagnostic) × (m ds ≡ err (Diagnostics.push ds d)) × (is_error d.level ≡ true))

-- The enum or the struct that the type stands for is declared.
abbrev pub IsDeclared : TypeDecls → Ty → Type 0
IsDeclared ns (enum n) = (name : String) × (get_elem? ns.enums n ≡ some name)
IsDeclared ns (struct n) = (name : String) × (get_elem? ns.structs n ≡ some name)
IsDeclared ns (ref t) = IsDeclared ns t
IsDeclared ns (storage_ref t) = IsDeclared ns t
IsDeclared ns _ = Unit

IsDeclared-behind_ref : (ns : TypeDecls) (t : Ty) → IsDeclared ns t → IsDeclared ns (behind_ref t)
IsDeclared-behind_ref ns (ref t) h = h
IsDeclared-behind_ref ns (storage_ref t) h = h
IsDeclared-behind_ref ns t h = h

type_bits-Reports :
    (ns : TypeDecls) (t : Ty) (loc : Loc) (ds : Diagnostics)
    → IsDeclared ns t
    → Reports (type_bits ns t loc) ds
unfolding type_bits
type_bits-Reports ns (uint n) loc ds h = inl (n, refl)
type_bits-Reports ns field loc ds h = inl (64, refl)
type_bits-Reports ns (enum n) loc ds (name, e) = rw e (inr (_, refl, refl))
type_bits-Reports ns (struct n) loc ds (name, e) = rw e (inr (_, refl, refl))
type_bits-Reports ns (ref t) loc ds h = type_bits-Reports ns t loc ds h
type_bits-Reports ns (storage_ref t) loc ds h = type_bits-Reports ns t loc ds h
type_bits-Reports ns t loc ds h = inr (_, refl, refl)

wider-Reports :
    (ns : TypeDecls) (l r : Ty) (l_loc r_loc : Loc) (o : Option Ty) (ds : Diagnostics)
    → IsDeclared ns l
    → IsDeclared ns r
    → Reports (wider ns l l_loc r r_loc o) ds
unfolding wider
wider-Reports ns l r l_loc r_loc (some t) ds h k = inl (t, refl)
wider-Reports ns l r l_loc r_loc none ds h k = elim (type_bits-Reports ns l l_loc ds h) [
  | inl (a, e) ↦ elim (type_bits-Reports ns r r_loc ds k) [
    | inl (b, e') ↦ inl (uint (max a b), rw (e, e') refl)
    | inr (d, e', is) ↦ inr (d, rw (e, e') refl, is)
  ]
  | inr (d, e, is) ↦ inr (d, rw e refl, is)
]

-- For two types whose enums and structs are declared, the call has a type in common and reports
-- nothing, or it fails and has reported one error.
pub coerce-Reports :
    (ns : TypeDecls) (l r : Ty) (l_loc r_loc : Loc) (ds : Diagnostics)
    → IsDeclared ns l
    → IsDeclared ns r
    → Reports (coerce ns l l_loc r r_loc) ds
unfolding coerce coerce_number
coerce-Reports ns l r l_loc r_loc ds h k = elim (Bool-cases (ty_eq (behind_ref l) (behind_ref r))) [
  | inl e ↦ inl (behind_ref l, rw e refl)
  | inr e ↦
      let h' = IsDeclared-behind_ref ns (behind_ref l) (IsDeclared-behind_ref ns l h) in
      let k' = IsDeclared-behind_ref ns (behind_ref r) (IsDeclared-behind_ref ns r k) in
      rw e (
        wider-Reports ns (behind_ref (behind_ref l)) (behind_ref (behind_ref r)) l_loc r_loc
          (same_kind (behind_ref (behind_ref l)) (behind_ref (behind_ref r))) ds h' k')
]
