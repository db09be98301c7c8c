-- ===== src/Sema/Types/Arrays.antt =====
-- src/sema/types.rs: the slots of an array are those of its elements.
use native.Mathlib.Nat.{mul_assoc}
use ola_lang.Prelude.{
  ℕ, zero, suc, ◌*◌, ◌≡◌, refl, List, [], ◌∷◌, ◌++◌, arith, ◌∙◌, ap, drop_last-append,
  get_last?-append,
}
use ola_lang.Prelude.Int.{pos}
use ola_lang.Prelude.Outcome.{done}
use ola_lang.Sema.Ast.{ArrayLength, fixed, dynamic, any_fixed, Ty, array, storage_ref}
use ola_lang.Sema.BigInt.{BigIntOps}
use ola_lang.Sema.Types.{
  Field, Slots, slots, too_deep, product, storage_slots_with, storage_slots, storage_array_elem,
  elem_of, array_length, fixed_length,
}

-- Each dimension is dynamic, and counts as one, or is of a fixed length that is a number.
abbrev pub Counts : ArrayLength → ℕ → Type 0
Counts (fixed m) n = m ≡ pos n
Counts dynamic n = n ≡ 1
Counts any_fixed n = ⊥

abbrev pub AllCount : List ArrayLength → List ℕ → Type 0
AllCount [] [] = Unit
AllCount (d ∷ ds) (n ∷ ns) = Counts d n × AllCount ds ns
AllCount _ _ = ⊥

abbrev pub times : ℕ → List ℕ → ℕ
times acc [] = acc
times acc (n ∷ ns) = times (acc * n) ns

elem_of-snoc :
    (t : Ty) (c : ArrayLength) (ds : List ArrayLength) (d : ArrayLength)
    → elem_of t (c ∷ (ds ++ d ∷ [])) ≡ done (array t (c ∷ ds))
elem_of-snoc t c [] d = refl
elem_of-snoc t c (e ∷ ds) d = ap (λ x. done (array t x)) (drop_last-append (c ∷ e ∷ ds) d)

module _ (B : BigIntOps) (structs : List (List Field)) where
  product-Counts :
      (acc : ℕ) (ds : List ArrayLength) (ns : List ℕ)
      → AllCount ds ns
      → product B structs (pos acc) ds ≡ slots (pos (times acc ns))
  unfolding product
  product-Counts acc [] [] h = refl
  product-Counts acc (fixed m ∷ ds) (n ∷ ns) (e, h) =
      rw (e, B.mul-pos acc n) (product-Counts (acc * n) ds ns h)
  product-Counts acc (dynamic ∷ ds) (n ∷ ns) (e, h) =
      rw (e, B.mul-pos acc 1) (product-Counts (acc * 1) ds ns h)
  product-Counts acc [] (n ∷ ns) h = elim h [ ]
  product-Counts acc (fixed m ∷ ds) [] h = elim h [ ]
  product-Counts acc (dynamic ∷ ds) [] h = elim h [ ]
  product-Counts acc (any_fixed ∷ ds) [] h = elim h [ ]
  product-Counts acc (any_fixed ∷ ds) (n ∷ ns) (e, h) = elim e [ ]

  product-snoc :
      (acc : ℕ) (ds : List ArrayLength) (ns : List ℕ) (d : ArrayLength) (n : ℕ)
      → AllCount ds ns
      → Counts d n
      → product B structs (pos acc) (ds ++ d ∷ []) ≡ slots (pos (times acc ns * n))
  unfolding product
  product-snoc acc [] [] (fixed m) n h k = rw (k, B.mul-pos acc n) refl
  product-snoc acc [] [] dynamic n h k = rw (k, B.mul-pos acc 1) refl
  product-snoc acc (fixed m ∷ ds) (c ∷ ns) d n (e, h) k =
      rw (e, B.mul-pos acc c) (product-snoc (acc * c) ds ns d n h k)
  product-snoc acc (dynamic ∷ ds) (c ∷ ns) d n (e, h) k =
      let unit : times (acc * c) ns ≡ times (acc * 1) ns = ap (λ x. times (acc * x) ns) e in
      rw unit (
        ap (λ x. product B structs x (ds ++ d ∷ [])) (B.mul-pos acc 1)
        ∙ product-snoc (acc * 1) ds ns d n h k)
  product-snoc acc [] [] any_fixed n h k = elim k [ ]
  product-snoc acc [] (c ∷ ns) d n h k = elim h [ ]
  product-snoc acc (fixed m ∷ ds) [] d n h k = elim h [ ]
  product-snoc acc (dynamic ∷ ds) [] d n h k = elim h [ ]
  product-snoc acc (any_fixed ∷ ds) [] d n h k = elim h [ ]
  product-snoc acc (any_fixed ∷ ds) (c ∷ ns) d n (e, h) k = elim e [ ]

  module _ (rec : Ty → Slots) (t : Ty) (a : ℕ)
      (elem : storage_slots_with B structs rec t ≡ slots (pos a)) where
    array_slots :
        (ds : List ArrayLength) (ns : List ℕ)
        → AllCount ds ns
        → storage_slots_with B structs rec (array t ds) ≡ slots (pos (a * times 1 ns))
    unfolding storage_slots_with
    array_slots ds ns h = rw (elem, product-Counts 1 ds ns h, B.mul-pos a (times 1 ns)) refl

    array_slots-snoc :
        (ds : List ArrayLength) (ns : List ℕ) (d : ArrayLength) (n : ℕ)
        → AllCount ds ns
        → Counts d n
        → storage_slots_with B structs rec (array t (ds ++ d ∷ []))
          ≡ slots (pos (a * times 1 ns * n))
    unfolding storage_slots_with
    array_slots-snoc ds ns d n h k =
        rw
          (
            elem,
            product-snoc 1 ds ns d n h k,
            B.mul-pos a (times 1 ns * n),
            mul_assoc a (times 1 ns) n,
          )
          refl

    Elements : List ArrayLength → ArrayLength → ℕ → Type 0
    Elements ds d n =
        (e : Ty) × (k : ℕ) × (storage_array_elem (storage_ref (array t (ds ++ d ∷ []))) ≡ done e)
        × (storage_slots_with B structs rec e ≡ slots (pos k))
        × (storage_slots_with B structs rec (storage_ref (array t (ds ++ d ∷ [])))
            ≡ slots (pos (k * n)))
        × (array_length (storage_ref (array t (ds ++ d ∷ []))) ≡ done (fixed_length d))

    elements :
        (ds : List ArrayLength) (ns : List ℕ) (d : ArrayLength) (n : ℕ)
        → AllCount ds ns
        → Counts d n
        → Elements ds d n
    unfolding Elements storage_slots_with storage_array_elem array_length
    elements [] [] d n h k = (
      storage_ref t,
      a,
      refl,
      elem,
      (let one : a * times 1 [] ≡ a = omega arith in rw one at (array_slots-snoc [] [] d n tt k)),
      refl,
    )
    elements (c ∷ ds) (m ∷ ns) d n h k = (
      storage_ref (array t (c ∷ ds)),
      a * times 1 (m ∷ ns),
      rw (elem_of-snoc t c ds d) refl,
      array_slots (c ∷ ds) (m ∷ ns) h,
      array_slots-snoc (c ∷ ds) (m ∷ ns) d n h k,
      rw (get_last?-append (c ∷ ds) d) refl,
    )
    elements [] (m ∷ ns) d n h k = elim h [ ]
    elements (fixed c ∷ ds) [] d n h k = elim h [ ]
    elements (dynamic ∷ ds) [] d n h k = elim h [ ]
    elements (any_fixed ∷ ds) [] d n h k = elim h [ ]

  -- An array in storage whose element type takes `a` slots and whose lengths are numbers: its elements
  -- take some `k` slots each, and the array takes `k` times its outer length, where a dynamic length
  -- counts as one.
  pub storage_slots-storage_array_elem :
      (fuel : ℕ) (t : Ty) (a : ℕ) (ds : List ArrayLength) (ns : List ℕ) (d : ArrayLength) (n : ℕ)
      → storage_slots B structs fuel t ≡ slots (pos a)
      → AllCount ds ns
      → Counts d n
      → (e : Ty) × (k : ℕ) × (storage_array_elem (storage_ref (array t (ds ++ d ∷ []))) ≡ done e)
        × (storage_slots B structs fuel e ≡ slots (pos k))
        × (storage_slots B structs fuel (storage_ref (array t (ds ++ d ∷ [])))
            ≡ slots (pos (k * n)))
        × (array_length (storage_ref (array t (ds ++ d ∷ []))) ≡ done (fixed_length d))
  unfolding storage_slots Elements
  storage_slots-storage_array_elem zero t a ds ns d n h k l =
      elements (λ t. too_deep) t a h ds ns d n k l
  storage_slots-storage_array_elem (suc fuel) t a ds ns d n h k l =
      elements (storage_slots B structs fuel) t a h ds ns d n k l
