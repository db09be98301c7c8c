-- ===== src/Codegen/Tests/RegallocTests.antt =====
-- src/codegen/pass/regalloc.rs on two virtual registers whose ranges interfere.
use ola_lang.Prelude.{ℕ, ◌≡◌, refl, sym, false, Option, none, some, List, [], ◌∷◌, inl, inr}
use mathlib.Core.Path.{subst}
use mathlib.Core.List.{Memᴰ}
use mathlib.Core.List.Memᴰ.{not-nil, cases_cons}
use ola_lang.Prelude.Outcome.{done, ◌>>=◌, Returns}
use ola_lang.Codegen.Liveness.{LiveRange, reg_interferes, assign, interfere, meets, merge}
use ola_lang.Codegen.Regalloc.{Allocation, allocate}
use ola_lang.Codegen.Regalloc.Apart.{AllocatedApart, allocate-AllocatedApart}
use ola_lang.Codegen.Tests.LivenessTests.{two_vregs, range}

abbrev start : Allocation
start = record { liveness = two_vregs; assigned_regs = λ v. none }

abbrev registers : Option ℕ × Allocation → List (Option ℕ)
registers (o, a) = o ∷ a.assigned_regs 1 ∷ a.assigned_regs 2 ∷ []

-- The second gets another register.
two_registers :
    (do r ← allocate false (λ v. false) (λ v. none) (1 ∷ 2 ∷ []) start; done (registers r))
    ≡ done (none ∷ some 1 ∷ some 2 ∷ [])
unfolding allocate reg_interferes assign interfere meets merge
two_registers = refl

known : (v : ℕ) → Memᴰ v (1 ∷ 2 ∷ []) → (lr : LiveRange) × (two_vregs.vreg_lrs_map v ≡ some lr)
known v n = elim (cases_cons n) [
  | inl e ↦
      subst (λ v. (lr : LiveRange) × (two_vregs.vreg_lrs_map v ≡ some lr)) (sym e)
        (range 16 48, refl)
  | inr n' ↦ elim (cases_cons n') [
    | inl e ↦
        subst (λ v. (lr : LiveRange) × (two_vregs.vreg_lrs_map v ≡ some lr)) (sym e)
          (range 32 64, refl)
    | inr n'' ↦ elim (not-nil n'') [ ]
  ]
]

allocate-AllocatedApart_example :
    Returns
      (AllocatedApart two_vregs false (λ v. false) (λ v. none) (1 ∷ 2 ∷ []))
      (allocate false (λ v. false) (λ v. none) (1 ∷ 2 ∷ []) start)
allocate-AllocatedApart_example =
    allocate-AllocatedApart two_vregs false (λ v. false) (λ v. none) (1 ∷ 2 ∷ []) known
