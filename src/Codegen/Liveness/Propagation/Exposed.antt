-- ===== src/Codegen/Liveness/Propagation/Exposed.antt =====
-- src/codegen/pass/liveness.rs: a block as a whole, and its instructions in their order. Where no block
-- writes a register that it reads before, the registers that the propagation follows are those that
-- are alive.
use ola_lang.Prelude.{never, sym, ◌∙◌, ℕ, ◌≡◌, refl, ◌↔◌, some, List, [], ◌∷◌, inl, inr}
use mathlib.Core.Path.{subst}
use mathlib.Core.List.{Memᴰ}
use mathlib.Core.List.Memᴰ.{head, tail, not-nil, cases_cons}
use ola_lang.Codegen.Instruction.{InstructionData}
use ola_lang.Codegen.Liveness.Propagation.{Reg, Function}
use ola_lang.Codegen.Liveness.Propagation.Alive.{used, before, before_phi}
use ola_lang.Codegen.Liveness.Propagation.Shape.{
  InstReads, InstWrites, WellFormed, NoPhi, From, PlainReads, PlainReads-InstReads, ReadsFirst,
  here, later, Alive, exposed, passed, WritesFirst, Live,
}

module _ (f : Function) (blocks : List ℕ) (insts preds : ℕ → List ℕ) (fuel : ℕ)
    (wf : WellFormed f blocks insts preds fuel) where
  -- a read in instructions none of which writes
  reads_first :
      (r : Reg) (is : List ℕ)
      → ((i : ℕ) → Memᴰ i is → (inst : InstructionData) × (f.instructions i ≡ some inst))
      → ((i : ℕ) (inst : InstructionData)
          → Memᴰ i is
          → f.instructions i ≡ some inst
          → InstWrites inst r
          → ⊥)
      → (i : ℕ) (inst : InstructionData) → Memᴰ i is
      → f.instructions i ≡ some inst
      → InstReads inst r
      → ReadsFirst f blocks insts preds r is
  reads_first r [] found unwritten i inst n e h = elim (not-nil n) [ ]
  reads_first r (j ∷ is) found unwritten i inst n e h = elim (cases_cons n) [
    | inl same ↦ here (subst (λ k. f.instructions k ≡ some inst) same e) h
    | inr n' ↦
        let (w, at) = found j (head refl) in
        later at (unwritten j w (head refl) at) (
          reads_first r is (λ k m. found k (tail m)) (λ k v m. unwritten k v (tail m)) i inst n' e
            h)
  ]

  pub first_reads :
      {r : Reg} {is : List ℕ}
      → ReadsFirst f blocks insts preds r is
      → (i : ℕ) × (inst : InstructionData) × Memᴰ i is
        × (f.instructions i ≡ some inst)
        × InstReads inst r
  first_reads (here {i} {is} {inst} e h) = (i, inst, head refl, e, h)
  first_reads (later e w rest) =
      let (i, inst, n, e', h) = first_reads rest in (i, inst, tail n, e', h)

  module _ (no_phi : NoPhi f blocks insts preds) where
    pub no_phi-From : {b p : ℕ} {r : Reg} → From f blocks insts preds b r p → ⊥
    no_phi-From (i, inst, _, _, e, (_, _, _, phi, _)) = never (sym (no_phi i inst e) ∙ phi)

    Live-Alive : (r : Reg) (b : ℕ) → Live f blocks insts preds r b → Alive f blocks insts preds r b
    Live-Alive r b (used (i, inst, nb, n, e, h) unwritten) = exposed (
      nb,
      reads_first r (insts b) (λ j m. wf.insts_found b j nb m)
          (λ j w m at k. unwritten (j, w, nb, m, at, k)) i inst n e (PlainReads-InstReads inst r h),
    )
    Live-Alive r p (before {b} live q unwritten) = passed (Live-Alive r b live) q unwritten
    Live-Alive r p (before_phi phi q unwritten) = elim (no_phi-From phi) [ ]

    is_plain :
        (i : ℕ) (inst : InstructionData) (r : Reg)
        → f.instructions i ≡ some inst
        → InstReads inst r
        → PlainReads inst r
    is_plain i inst r e (inl (x, q, is)) = inl (x, q, is, inl (no_phi i inst e))
    is_plain i inst r e (inr h) = inr h

    module _ (writes_first : WritesFirst f blocks insts preds) where
      Alive-Live :
          (r : Reg) (b : ℕ) → Alive f blocks insts preds r b → Live f blocks insts preds r b
      Alive-Live r b (exposed (nb, first)) =
          let (i, inst, n, e, h) = first_reads first in
          used (i, inst, nb, n, e, is_plain i inst r e h) (λ w. writes_first b r w (nb, first))
      Alive-Live r p (passed {b} alive q unwritten) = before (Alive-Live r b alive) q unwritten

      pub Live-iff :
          (r : Reg) (b : ℕ) → Live f blocks insts preds r b ↔ Alive f blocks insts preds r b
      Live-iff r b = (Live-Alive r b, Alive-Live r b)
