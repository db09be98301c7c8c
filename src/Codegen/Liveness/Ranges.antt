-- ===== src/Codegen/Liveness/Ranges.antt =====
-- src/codegen/pass/liveness.rs: interference of live ranges, and what assigning a register adds to it.
use ola_lang.Prelude.{
  ℕ, ◌≡◌, refl, Bool, true, false, ◌&&◌, ◌||◌, some, [], ◌∷◌, ◌++◌, ◌==◌, if◌then◌else◌, arith,
  Bool-cases, Option-cases, inl, inr, not, sym, ◌∙◌, ap,
}
use ola_lang.Prelude.Outcome.{done, ◌>>=◌}
use ola_lang.Codegen.Liveness.{
  ProgramPoint, LiveSegment, LiveRange, pp_lt, overlaps, meets, interfere, insert_by_start,
  sort_by_start, merge, Liveness, reg_interferes, assign, or_empty,
}

and_comm : (a b : Bool) → (a && b) ≡ (b && a)
and_comm a b = ground arith

or_assoc : (a b c : Bool) → (a || (b || c)) ≡ ((a || b) || c)
or_assoc a b c = ground arith

or_left_comm : (a b c : Bool) → (a || (b || c)) ≡ (b || (a || c))
or_left_comm a b c = ground arith

or_shuffle : (o a b i : Bool) → ((o || a) || (b || i)) ≡ ((o || b) || (a || i))
or_shuffle o a b i = ground arith

overlaps_sym : (x y : LiveSegment) → overlaps x y ≡ overlaps y x
overlaps_sym x y = and_comm (pp_lt x.start y.end) (pp_lt y.start x.end)

meets-append :
    (x : LiveSegment) (ys zs : LiveRange) → meets x (ys ++ zs) ≡ (meets x ys || meets x zs)
unfolding meets
meets-append x [] zs = refl
meets-append x (y ∷ ys) zs =
    ap (λ b. overlaps x y || b) (meets-append x ys zs)
    ∙ or_assoc (overlaps x y) (meets x ys) (meets x zs)

interfere-nil : (xs : LiveRange) → interfere xs [] ≡ false
unfolding interfere meets
interfere-nil [] = refl
interfere-nil (x ∷ xs) = interfere-nil xs

interfere-cons :
    (xs : LiveRange) (y : LiveSegment) (ys : LiveRange)
    → interfere xs (y ∷ ys) ≡ (meets y xs || interfere xs ys)
unfolding interfere meets
interfere-cons [] y ys = refl
interfere-cons (x ∷ xs) y ys =
    rw (overlaps_sym x y, interfere-cons xs y ys)
      (or_shuffle (overlaps y x) (meets x ys) (meets y xs) (interfere xs ys))

-- Two ranges interfere whichever of them is asked.
pub interfere_sym : (xs ys : LiveRange) → interfere xs ys ≡ interfere ys xs
unfolding interfere
interfere_sym [] ys = sym (interfere-nil ys)
interfere_sym (x ∷ xs) ys =
    ap (λ b. meets x ys || b) (interfere_sym xs ys) ∙ sym (interfere-cons ys x xs)

interfere-append :
    (xs ys zs : LiveRange) → interfere (xs ++ ys) zs ≡ (interfere xs zs || interfere ys zs)
unfolding interfere
interfere-append [] ys zs = refl
interfere-append (x ∷ xs) ys zs =
    ap (λ b. meets x zs || b) (interfere-append xs ys zs)
    ∙ or_assoc (meets x zs) (interfere xs zs) (interfere ys zs)

interfere-insert_by_start :
    (x : LiveSegment) (xs zs : LiveRange)
    → interfere (insert_by_start x xs) zs ≡ (meets x zs || interfere xs zs)
unfolding interfere insert_by_start
interfere-insert_by_start x [] zs = refl
interfere-insert_by_start x (y ∷ ys) zs = elim (Bool-cases (pp_lt y.start x.start)) [
  | inl e ↦ rw e (
      ap (λ b. meets y zs || b) (interfere-insert_by_start x ys zs)
      ∙ or_left_comm (meets y zs) (meets x zs) (interfere ys zs))
  | inr e ↦ rw e refl
]

interfere-sort_by_start : (xs zs : LiveRange) → interfere (sort_by_start xs) zs ≡ interfere xs zs
unfolding interfere sort_by_start
interfere-sort_by_start [] zs = refl
interfere-sort_by_start (x ∷ xs) zs =
    interfere-insert_by_start x (sort_by_start xs) zs
    ∙ ap (λ b. meets x zs || b) (interfere-sort_by_start xs zs)

-- A merged range interferes with what one of its parts interferes with.
pub interfere-merge :
    (xs ys zs : LiveRange) → interfere (merge xs ys) zs ≡ (interfere xs zs || interfere ys zs)
unfolding merge
interfere-merge xs ys zs = interfere-sort_by_start (xs ++ ys) zs ∙ interfere-append xs ys zs

-- In ascending order of the starts
abbrev pub starts_after : LiveSegment → LiveRange → Bool
starts_after x [] = true
starts_after x (y ∷ ys) = not (pp_lt y.start x.start)

abbrev pub IsSorted : LiveRange → Type 0
IsSorted [] = Unit
IsSorted (x ∷ xs) = (starts_after x xs ≡ true) × IsSorted xs

pp_lt_asym : (p q : ProgramPoint) → pp_lt p q ≡ true → pp_lt q p ≡ false
pp_lt_asym p q h = ground arith

starts_after-insert :
    (y x : LiveSegment) (xs : LiveRange)
    → starts_after y xs ≡ true
    → pp_lt x.start y.start ≡ false
    → starts_after y (insert_by_start x xs) ≡ true
unfolding insert_by_start
starts_after-insert y x [] h k = rw k refl
starts_after-insert y x (z ∷ zs) h k = elim (Bool-cases (pp_lt z.start x.start)) [
  | inl e ↦ rw e h
  | inr e ↦ rw (e, k) refl
]

insert_by_start-IsSorted :
    (x : LiveSegment) (xs : LiveRange) → IsSorted xs → IsSorted (insert_by_start x xs)
unfolding insert_by_start
insert_by_start-IsSorted x [] h = (refl, tt)
insert_by_start-IsSorted x (y ∷ ys) (after, h) = elim (Bool-cases (pp_lt y.start x.start)) [
  | inl e ↦ rw e (
    starts_after-insert y x ys after (pp_lt_asym y.start x.start e),
    insert_by_start-IsSorted x ys h,
  )
  | inr e ↦ rw e (rw e refl, (after, h))
]

sort_by_start-IsSorted : (xs : LiveRange) → IsSorted (sort_by_start xs)
unfolding sort_by_start
sort_by_start-IsSorted [] = tt
sort_by_start-IsSorted (x ∷ xs) =
    insert_by_start-IsSorted x (sort_by_start xs) (sort_by_start-IsSorted xs)

-- A merged range is in ascending order of its starts, whatever its parts are.
pub merge-IsSorted : (xs ys : LiveRange) → IsSorted (merge xs ys)
unfolding merge
merge-IsSorted xs ys = sort_by_start-IsSorted (xs ++ ys)

merge-right :
    (other xs ys : LiveRange)
    → interfere other (merge xs ys) ≡ (interfere other xs || interfere other ys)
merge-right other xs ys =
    rw
      (
        interfere_sym other (merge xs ys),
        interfere-merge xs ys other,
        interfere_sym other xs,
        interfere_sym other ys,
      )
      refl

module _ (l : Liveness) (other_lr : LiveRange) (before : Bool) where
  before_is :
      (other other_vreg : ℕ)
      → l.vreg_lrs_map other_vreg ≡ some other_lr
      → reg_interferes l other other_vreg ≡ done before
      → interfere other_lr (or_empty (l.reg_lrs_map other)) ≡ before
  unfolding reg_interferes
  before_is other other_vreg at h = elim (Option-cases (l.reg_lrs_map other)) [
    | inl e ↦
        let h' = rw (reg_interferes, e) at h in
        let none_before : false ≡ before = ground arith in
        rw e (interfere-nil other_lr ∙ none_before)
    | inr (r, e) ↦
        let h' : done (interfere other_lr r) ≡ done before = rw (reg_interferes, e, at) at h in
        rw e (ground arith)
  ]

-- Once a virtual register has a register unit, another one interferes with that unit exactly if it
-- did before or its range interferes with the range of the first; for other units nothing changes.
pub reg_interferes-assign :
    (l : Liveness) (reg vreg : ℕ) (lr : LiveRange)
    → l.vreg_lrs_map vreg ≡ some lr
    → (other other_vreg : ℕ) (other_lr : LiveRange) (before : Bool)
    → l.vreg_lrs_map other_vreg ≡ some other_lr
    → reg_interferes l other other_vreg ≡ done before
    → (do l' ← assign l reg vreg; reg_interferes l' other other_vreg)
      ≡ done (if other == reg then before || interfere other_lr lr else before)
unfolding reg_interferes assign
reg_interferes-assign l reg vreg lr at other other_vreg other_lr before at' h =
    elim (Bool-cases (other == reg)) [
      | inl e ↦
          let same : other ≡ reg = ground arith in
          let was = before_is l other_lr before other other_vreg at' h in
          let was_here = rw same at was in
          rw
            (
              at,
              reg_interferes,
              e,
              at',
              merge-right other_lr (or_empty (l.reg_lrs_map reg)) lr,
              was_here,
            )
            refl
      | inr e ↦ elim (Option-cases (l.reg_lrs_map other)) [
        | inl n ↦ let h' = rw (reg_interferes, n) at h in rw (at, reg_interferes, e, n) h'
        | inr (r, n) ↦
            let h' = rw (reg_interferes, n, at') at h in rw (at, reg_interferes, e, n, at') h'
      ]
    ]
