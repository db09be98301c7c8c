-- ===== src/Codegen/Regalloc/Apart.antt =====
-- src/codegen/pass/regalloc.rs: virtual registers with one register do not interfere.
use ola_lang.Prelude.{
  ℕ, ◌≡◌, refl, sym, ◌∙◌, ap, Bool, true, Option, none, some, List, [], ◌∷◌, ◌==◌, if◌then◌else◌,
  Bool-cases, ==_iff, inl, inr,
}
use mathlib.Core.Path.{subst}
use mathlib.Core.List.{Memᴰ}
use mathlib.Core.List.Memᴰ.{head, tail, not-nil, cases_cons}
use ola_lang.Prelude.Map.{Map, insert}
use ola_lang.Prelude.Outcome.{Outcome, done, Returns, Returns-bind, Returns-mono}
use ola_lang.Codegen.Liveness.{Liveness, LiveRange}
use ola_lang.Codegen.Regalloc.{Allocation, allocate_one, allocate, availables}
use ola_lang.Codegen.Regalloc.Kept.{Apart, Kept, reg_interferes-done, assign-done, given-Kept}

unassigned : (r : ℕ) → none ≡ some r → ⊥
unassigned r h = cc

-- What is assigned stays assigned.
abbrev Grown : Allocation → Allocation → Type 0
Grown a a' = (v r : ℕ) → a.assigned_regs v ≡ some r → (r' : ℕ) × (a'.assigned_regs v ≡ some r')

grown_insert : (m : Map ℕ) (v r x y : ℕ) → m x ≡ some y → (r' : ℕ) × (insert m v r x ≡ some r')
grown_insert m v r x y h = elim (Bool-cases (x == v)) [
  | inl e ↦ (r, rw e refl)
  | inr e ↦ (y, rw e h)
]

-- the virtual register has a register
abbrev Has : ℕ → Allocation → Type 0
Has v a = (r : ℕ) × (a.assigned_regs v ≡ some r)

module _ (l : Liveness) (v : ℕ) (lr : LiveRange) (at : l.vreg_lrs_map v ≡ some lr) where
  abbrev After : Allocation → Bool × Allocation → Type 0
  After a (allocated, a') = Kept l a' × Grown a a' × (allocated ≡ true → Has v a')

  allocate_one-After :
      (regs : List ℕ) (a : Allocation) → Kept l a → Returns (After a) (allocate_one regs v a)
  unfolding allocate_one
  allocate_one-After [] a k = (k, (λ v r h. (r, h)), λ e. cc)
  allocate_one-After (r ∷ regs) a k =
      let (b, h) = reg_interferes-done a.liveness r v lr (k.ranges v ∙ at) in
      elim (Bool-cases b) [
        | inl e ↦ rw (h, e) (allocate_one-After regs a k)
        | inr e ↦
            rw (h, e, assign-done a.liveness r v lr (k.ranges v ∙ at))
              (
                given-Kept l a k r v lr at (h ∙ ap done e),
                (λ x y has. grown_insert a.assigned_regs v r x y has),
                λ _. (r, rw ((==_iff v v).1 refl) refl),
              )
      ]

module _ (l : Liveness) (calls : Bool) (is_spill : ℕ → Bool) (preferred : Map (List ℕ)) where
  abbrev Scanned : List ℕ → Allocation → Option ℕ × Allocation → Type 0
  Scanned worklist a (o, a') =
      Kept l a' × Grown a a' × (o ≡ none → (v : ℕ) → Memᴰ v worklist → Has v a')

  allocate-Scanned :
      (worklist : List ℕ) (a : Allocation)
      → ((v : ℕ) → Memᴰ v worklist → (lr : LiveRange) × (l.vreg_lrs_map v ≡ some lr))
      → Kept l a
      → Returns (Scanned worklist a) (allocate calls is_spill preferred worklist a)
  unfolding allocate
  allocate-Scanned [] a known k = (k, (λ v r h. (r, h)), λ _ v n. elim (not-nil n) [ ])
  allocate-Scanned (v ∷ worklist) a known k =
      let (lr, at) = known v (head refl) in
      let rest : Bool × Allocation → Outcome (Option ℕ × Allocation) = λ (allocated, a').
        if allocated then allocate calls is_spill preferred worklist a' else done (some v, a') in
      Returns-bind (After l v lr at a) (Scanned (v ∷ worklist) a)
        (allocate_one (availables calls (is_spill v) (preferred v)) v a) rest
        (allocate_one-After l v lr at (availables calls (is_spill v) (preferred v)) a k)
        (λ (allocated, a') (k', grown, has). elim (Bool-cases allocated) [
          | inl e ↦ rw e (
              Returns-mono (Scanned worklist a') (Scanned (v ∷ worklist) a)
                (allocate calls is_spill preferred worklist a')
                (allocate-Scanned worklist a' (λ w n. known w (tail n)) k')
                (λ (o, a'') (k'', grown', all). (
                  k'',
                  (λ x y h. let (y', h') = grown x y h in grown' x y' h'),
                  λ ended w n. elim (cases_cons n) [
                    | inl same ↦
                        let (y, h) = has e in subst (λ x. Has x a'') (sym same) (grown' v y h)
                    | inr n' ↦ all ended w n'
                  ],
                )))
          | inr e ↦ rw e (k', grown, λ ended. cc)
        ])

  abbrev pub AllocatedApart : List ℕ → Option ℕ × Allocation → Type 0
  AllocatedApart worklist (o, a) =
      Apart l a × (o ≡ none → (v : ℕ) → Memᴰ v worklist → (r : ℕ) × (a.assigned_regs v ≡ some r))

  -- From no assignment, over virtual registers whose ranges are known, the scan returns. Two virtual
  -- registers that it gave one register do not interfere, nor does one interfere with what its
  -- register was taken for at the start; and if none must be spilled, each one has a register.
  pub allocate-AllocatedApart :
      (worklist : List ℕ)
      → ((v : ℕ) → Memᴰ v worklist → (lr : LiveRange) × (l.vreg_lrs_map v ≡ some lr))
      → Returns (AllocatedApart worklist) (
          allocate calls is_spill preferred worklist
            (record { liveness = l; assigned_regs = λ v. none }))
  allocate-AllocatedApart worklist known =
      let start : Allocation = record { liveness = l; assigned_regs = λ v. none } in
      Returns-mono (Scanned worklist start) (AllocatedApart worklist)
        (allocate calls is_spill preferred worklist start)
        (allocate-Scanned worklist start known (record {
          is_apart = record {
            apart = λ v w r v_lr w_lr differ has. elim (unassigned r has) [ ];
            from_start = λ v r v_lr has. elim (unassigned r has) [ ];
          };
          ranges = λ v. refl;
          grows = λ r w w_lr at h. h;
          covers = λ v r w v_lr w_lr has. elim (unassigned r has) [ ];
        }))
        (λ (o, a) (k, _, all). (k.is_apart, all))
