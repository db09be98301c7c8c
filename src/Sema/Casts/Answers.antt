-- ===== src/Sema/Casts/Answers.antt =====
-- src/sema/expression/mod.rs: what a cast gives: an expression whose type is right, or an error.
use ola_lang.Prelude.{
  ℕ, ==_iff, ◌≡◌, refl, Bool, true, false, some, List, ◌==◌, ◌||◌, ltb, leb, inl, inr, ◌⊎◌,
  if◌then◌else◌,
}
use ola_lang.Sema.Ast.{
  Loc, ArrayLength, Ty, uint, address, hash, field, dynamic_bytes, string, array, enum, contract,
  ref, storage_ref, slice, Expression, number_literal, array_literal, cast, load, storage_load,
  subscript,
}
use ola_lang.Sema.BigInt.{BigIntOps}
use ola_lang.Sema.Diagnostics as D
use ola_lang.Sema.Diagnostics.{Diagnostics, Diagnostic}
use ola_lang.Sema.Eval.Monad.{M, ok, err, pure}
use ola_lang.Sema.Integers.{ty_eq}
use ola_lang.Sema.Casts.{
  ty_of, is_fixed_reference_type, is_unresolved, is_slot_of_bytes, arrays_fit, to_dynamic,
  cast_types, cast_value, unless_same, through_ref, cast_from, cast_to,
}

-- An expression of the first type can stand where the second is wanted.
pub data Fits : (got wanted : Ty) → Type 0 where
  exact : {t : Ty} → Fits t t
  equal : {t u : Ty} → ty_eq t u ≡ true → Fits t u
  -- an error has been reported before
  unknown : {t u : Ty} → (is_unresolved t || is_unresolved u) ≡ true → Fits t u
  -- a struct or an array of fixed lengths is a pointer itself
  pointer : {r u : Ty} → is_fixed_reference_type r ≡ some true → ty_eq r u ≡ true → Fits (ref r) u
  -- 32 bits are within the field
  in_field : {n : ℕ} → n ≡ 32 → Fits (uint n) field
  any_length :
      {t u : Ty} {ms ns : List ArrayLength}
      → arrays_fit t ms u ns ≡ true
      → Fits (array t ms) (array u ns)

-- an element of bytes in storage
pub data IsByteInStorage : Expression → Type 0 where
  element :
      {l : Loc} {t : Ty} {bytes index : Expression}
      → IsByteInStorage (subscript l t (storage_ref dynamic_bytes) bytes index)

is_slot_of_bytes-IsByteInStorage : (e : Expression) → is_slot_of_bytes e ≡ true → IsByteInStorage e
is_slot_of_bytes-IsByteInStorage (subscript l t (storage_ref dynamic_bytes) bytes index) h = element
is_slot_of_bytes-IsByteInStorage _ h = cc

-- The type of the expression is known, and it can stand where `wanted` is wanted, or the expression
-- is an element of bytes in storage, which no cast loads.
abbrev pub Yields : Ty → Expression → Type 0
Yields wanted e = (t : Ty) × (ty_of e ≡ some t) × (Fits t wanted ⊎ IsByteInStorage e)

-- an error of a cast
abbrev pub IsCastError : Diagnostic → Type 0
IsCastError d = (d.level ≡ D.error) × (d.kind ≡ D.cast_error)

-- An expression as in `Yields` and nothing reported, or one error reported
abbrev pub Answers : Ty → M Expression → Diagnostics → Type 0
Answers wanted m ds =
    ((e : Expression) × (m ds ≡ ok e ds) × Yields wanted e)
    ⊎ ((d : Diagnostic) × (m ds ≡ err (D.push ds d)) × IsCastError d)

-- `is_fixed_reference_type` does not panic on what references refer to.
abbrev pub Referable : Ty → Type 0
Referable (ref r) = ((b : Bool) × (is_fixed_reference_type r ≡ some b)) × Referable r
Referable (storage_ref r) = Referable r
Referable _ = Unit

module _ (loc : Loc) (ds : Diagnostics) where
  Answers-if :
      (wanted : Ty) (b : Bool) (m n : M Expression)
      → (b ≡ true → Answers wanted m ds)
      → (b ≡ false → Answers wanted n ds)
      → Answers wanted (if b then m else n) ds
  Answers-if wanted true m n h k = h refl
  Answers-if wanted false m n h k = k refl

  cast_types-Answers :
      (from to : Ty) (e : Expression)
      → ty_of e ≡ some from
      → Answers to (cast_types loc e from to) ds
  unfolding cast_types
  cast_types-Answers address (ref address) e h = inl (_, refl, (ref address, refl, inl exact))
  cast_types-Answers (uint n) (enum k) e h = inr (_, refl, (refl, refl))
  cast_types-Answers (enum k) (uint n) e h = inr (_, refl, (refl, refl))
  cast_types-Answers (uint m) (uint n) e h =
      Answers-if (uint n) (ltb n m) _ _ (λ _. inr (_, refl, (refl, refl)))
        (λ _.
          Answers-if (uint n) (ltb m n) _ _ (λ _. inl (_, refl, (uint n, refl, inl exact)))
            (λ _. inl (_, refl, (uint n, refl, inl exact))))
  cast_types-Answers (uint n) field e h =
      Answers-if field (n == 32) _ _
        (λ k. inl (e, refl, (uint n, h, inl (in_field ((==_iff n 32).0 k)))))
        (λ _. inr (_, refl, (refl, refl)))
  cast_types-Answers field dynamic_bytes e h = inl (_, refl, (dynamic_bytes, refl, inl exact))
  cast_types-Answers dynamic_bytes field e h = inl (_, refl, (field, refl, inl exact))
  cast_types-Answers hash address e h = inl (_, refl, (address, refl, inl exact))
  cast_types-Answers address hash e h = inl (_, refl, (hash, refl, inl exact))
  cast_types-Answers (uint n) address e h =
      Answers-if address (n == 32) _ _ (λ _. inl (_, refl, (address, refl, inl exact)))
        (λ _. inr (_, refl, (refl, refl)))
  cast_types-Answers hash dynamic_bytes e h = inl (_, refl, (dynamic_bytes, refl, inl exact))
  cast_types-Answers address dynamic_bytes e h = inl (_, refl, (dynamic_bytes, refl, inl exact))
  cast_types-Answers (array t ms) (array u ns) e h =
      Answers-if (array u ns) (arrays_fit t ms u ns) _ _
        (λ k. inl (e, refl, (array t ms, h, inl (any_length k)))) (λ _. inr (_, refl, (refl, refl)))
  cast_types-Answers dynamic_bytes (slice t) e h =
      Answers-if (slice t) (ty_eq t field) _ _ (λ _. inl (_, refl, (slice t, refl, inl exact)))
        (λ _. inr (_, refl, (refl, refl)))
  cast_types-Answers field (slice t) e h =
      Answers-if (slice t) (ty_eq t field) _ _ (λ _. inl (_, refl, (slice t, refl, inl exact)))
        (λ _. inr (_, refl, (refl, refl)))
  cast_types-Answers string dynamic_bytes e h = inl (_, refl, (dynamic_bytes, refl, inl exact))
  cast_types-Answers dynamic_bytes string e h = inl (_, refl, (string, refl, inl exact))
  cast_types-Answers address (contract k) e h = inl (_, refl, (contract k, refl, inl exact))
  cast_types-Answers (contract k) address e h = inl (_, refl, (address, refl, inl exact))
  cast_types-Answers from to e h = inr (_, refl, (refl, refl))

  module _ (B : BigIntOps) where
    pub cast_value-Answers :
        (e : Expression) (from to : Ty)
        → ty_of e ≡ some from
        → Answers to (cast_value loc B e from to) ds
    unfolding cast_value
    cast_value-Answers (number_literal l t v) from (uint n) h =
        Answers-if (uint n) (leb n (B.bits v)) _ _ (λ _. inr (_, refl, (refl, refl)))
          (λ _. inl (_, refl, (uint n, refl, inl exact)))
    cast_value-Answers (number_literal l t v) from field h =
        Answers-if field (ty_eq from (uint 32)) _ _ (λ _. inl (_, refl, (field, refl, inl exact)))
          (λ _. inr (_, refl, (refl, refl)))
    cast_value-Answers (number_literal l t v) from address h =
        Answers-if address (ty_eq from (uint 32)) _ _
          (λ _. inl (_, refl, (address, refl, inl exact)))
          (λ _. cast_types-Answers from address (number_literal l t v) h)
    cast_value-Answers (number_literal l t v) from hash h =
        Answers-if hash (ty_eq from (uint 32)) _ _ (λ _. inl (_, refl, (hash, refl, inl exact)))
          (λ _. cast_types-Answers from hash (number_literal l t v) h)
    cast_value-Answers (array_literal l w) (array t ms) (array u ns) h =
        Answers-if (array u ns) (to_dynamic t ms u ns)
          (pure (cast loc (array u ns) (array_literal l w)))
          (cast_types loc (array_literal l w) (array t ms) (array u ns))
          (λ _. inl (_, refl, (array u ns, refl, inl exact)))
          (λ _. cast_types-Answers (array t ms) (array u ns) (array_literal l w) h)
    cast_value-Answers e from to h = cast_types-Answers from to e h

    unless_same-Answers :
        (from to : Ty) (e : Expression) (rest : M Expression)
        → ty_of e ≡ some from
        → Answers to rest ds
        → Answers to (unless_same loc B e from to rest) ds
    unless_same-Answers from to e rest h k =
        Answers-if to (ty_eq from to) _ _ (λ same. inl (e, refl, (from, h, inl (equal same))))
          (λ _.
            Answers-if to (is_unresolved from || is_unresolved to) _ _
              (λ un. inl (e, refl, (from, h, inl (unknown un)))) (λ _. k))

    through_ref-Answers :
        (r to : Ty) (e : Expression) (loaded : M Expression) (b : Bool)
        → is_fixed_reference_type r ≡ some b
        → ty_of e ≡ some (ref r)
        → Answers to loaded ds
        → Answers to (through_ref loc B e r to loaded b) ds
    through_ref-Answers r to e loaded true is h k =
        Answers-if to (ty_eq r to) _ _ (λ same. inl (e, refl, (ref r, h, inl (pointer is same))))
          (λ _. inr (_, refl, (refl, refl)))
    through_ref-Answers r to e loaded false is h k = k

    cast_from-Answers :
        (from to : Ty) (e : Expression)
        → Referable from
        → ty_of e ≡ some from
        → Answers to (cast_from loc B from to e) ds
    unfolding cast_from
    cast_from-Answers (ref r) to e ((b, is), later) h = unless_same-Answers (ref r) to e _ h (
        rw is
          (through_ref-Answers r to e _ b is h (cast_from-Answers r to (load loc r e) later refl)))
    cast_from-Answers (storage_ref r) to e later h = unless_same-Answers (storage_ref r) to e _ h (
        Answers-if to (is_slot_of_bytes e) _ _
          (λ is. inl (e, refl, (storage_ref r, h, inr (is_slot_of_bytes-IsByteInStorage e is))))
          (λ _. cast_from-Answers r to (storage_load loc r e) later refl))
    cast_from-Answers from to e later h =
        unless_same-Answers from to e (cast_value loc B e from to) h
          (cast_value-Answers e from to h)

    -- The cast of an expression that has a type, of which the parts behind references are such as
    -- references refer to, gives an expression whose type can stand where the wanted one is wanted,
    -- or an element of bytes in storage, and reports nothing, or it fails and has reported one error of
    -- a cast.
    pub cast_to-Answers :
        (from to : Ty) (e : Expression)
        → Referable from
        → ty_of e ≡ some from
        → Answers to (cast_to loc B to e) ds
    unfolding cast_to
    cast_to-Answers from to e later h = rw h (cast_from-Answers from to e later h)
