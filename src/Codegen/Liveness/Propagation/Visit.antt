-- ===== src/Codegen/Liveness/Propagation/Visit.antt =====
-- src/codegen/pass/liveness.rs: `visit` returns, keeps the invariant, and enters each register that
-- is read in a block that does not write it.
use ola_lang.Prelude.{
  ℕ, ◌+◌, ◌≡◌, refl, sym, true, false, Option, none, some, List, Bool-cases, inl, inr, ◌⊎◌, arith,
}
use mathlib.Core.Path.{subst}
use mathlib.Core.List.{Memᴰ}
use ola_lang.Prelude.Map.{Map}
use ola_lang.Prelude.Outcome.{Returns, Returns-mono, Returns-bind}
use ola_lang.Prelude.Loops.{for_each, for_each-Through}
use ola_lang.Codegen.Instruction.{
  InstructionData, input_vregs_with_indexes, input_regs, block_at, is_phi,
}
use ola_lang.Codegen.Liveness.Propagation.{
  Reg, phys, virt, BlockData, Function, skips, phi_pred, propagate_reg, visit_vreg, visit_reg,
  visit_inst,
}
use ola_lang.Codegen.Liveness.Propagation.Growth.{
  in_of, Grows, Grows-refl, Grows-trans, missing-length,
}
use ola_lang.Codegen.Liveness.Propagation.Alive.{used, Entered, Wanted, Plus, Inv}
use ola_lang.Codegen.Liveness.Propagation.Shape.{
  InstReads, PlainReads, PhiFrom, Uses, From, Writes, PhiReads, WellFormed,
}
use ola_lang.Codegen.Liveness.Propagation.Recursion.{propagate_reg-Propagated}

module _ (f : Function) (blocks : List ℕ) (insts preds : ℕ → List ℕ) (fuel : ℕ)
    (wf : WellFormed f blocks insts preds fuel) where
  abbrev pub NoneOpen : ℕ → Reg → Type 0
  NoneOpen b r = ⊥

  -- the invariant at the calls from `visit`
  abbrev pub Kept : Map BlockData → Type 0
  Kept =
      Inv preds (Uses f blocks insts preds) (From f blocks insts preds)
        (Writes f blocks insts preds) blocks (PhiReads f blocks insts preds) NoneOpen

  widen :
      (b : ℕ) (r : Reg) (m : Map BlockData)
      → Kept m
      → Inv preds
          (Uses f blocks insts preds)
          (From f blocks insts preds)
          (Writes f blocks insts preds)
          blocks
          (PhiReads f blocks insts preds)
          (Plus NoneOpen b r)
          m
  widen b r m i = record {
    known = i.known;
    defs_sound = i.defs_sound;
    defs_complete = i.defs_complete;
    sound_in = i.sound_in;
    sound_out = i.sound_out;
    closed_in = i.closed_in;
    closed_out = λ p x e. elim (i.closed_out p x e) [ inl o ↦ inl (inr o) | inr o ↦ inr o ];
  }

  -- The block writes the register, or has it at its entry.
  abbrev pub Shown : ℕ → Reg → Map BlockData → Type 0
  Shown b r m = Writes f blocks insts preds b r ⊎ (in_of m b r ≡ true)

  pub Shown-stays : (b : ℕ) (r : Reg) (s t : Map BlockData) → Grows s t → Shown b r s → Shown b r t
  Shown-stays b r s t g h = elim h [ inl w ↦ inl w | inr e ↦ inr (g.ins b r e) ]

  abbrev pub Visited : (Map BlockData → Type 0) → Map BlockData → Map BlockData → Type 0
  Visited goal m m' = Kept m' × Grows m m' × goal m'

  module _ (b i : ℕ) (inst : InstructionData) (n : Memᴰ b blocks) (n' : Memᴰ i (insts b))
      (e : f.instructions i ≡ some inst) where
    -- a read that goes to all blocks before, or of a phi from the one
    abbrev IsRead : Reg → Option ℕ → Type 0
    IsRead r none = PlainReads inst r
    IsRead r (some p) = PhiFrom inst r p

    IsRead-Reads : (r : Reg) (o : Option ℕ) → IsRead r o → InstReads inst r
    IsRead-Reads r none (inl (x, q, is, _)) = inl (x, q, is)
    IsRead-Reads r none (inr h) = inr h
    IsRead-Reads r (some p) (x, q, is, _, _) = inl (x, q, is)

    enters :
        (r : Reg) (o : Option ℕ)
        → IsRead r o
        → (Writes f blocks insts preds b r → ⊥)
        → Entered preds
            (Uses f blocks insts preds)
            (From f blocks insts preds)
            (Writes f blocks insts preds)
            r
            b
    enters r none h w = inl (used (i, inst, n, n', e, h) w)
    enters r (some p) h w = inr (p, (i, inst, n, n', e, h))

    wants :
        (r : Reg) (o : Option ℕ)
        → IsRead r o
        → (p : ℕ) → (Writes f blocks insts preds b r → ⊥)
        → skips o p ≡ false
        → Wanted preds
            (Uses f blocks insts preds)
            (From f blocks insts preds)
            (Writes f blocks insts preds)
            r
            b
            p
    wants r none h p w s = inl (used (i, inst, n, n', e, h) w)
    wants r (some q) h p w s =
        let same : p ≡ q = ground arith in
        inr (i, inst, n, n', e, subst (λ p. PhiFrom inst r p) (sym same) h)

    phi_or_none : (r : Reg) (o : Option ℕ) → IsRead r o → (o ≡ none) ⊎ (is_phi inst ≡ true)
    phi_or_none r none h = inl refl
    phi_or_none r (some p) (_, _, _, phi, _) = inr phi

    read_turn :
        (r : Reg) (p : Option ℕ) (m : Map BlockData)
        → IsRead r p
        → Kept m
        → Returns (Visited (Shown b r) m) (propagate_reg fuel f r p b m)
    read_turn r p m reads k =
        let few = missing-length r m blocks in
        let enough = wf.enough in
        propagate_reg-Propagated f blocks preds (Uses f blocks insts preds)
          (From f blocks insts preds) (Writes f blocks insts preds) wf.preds_found wf.preds_inside
          fuel (PhiReads f blocks insts preds) NoneOpen r p b m n (enters r p reads)
          (wants r p reads)
          (elim (phi_or_none r p reads) [
            | inl h ↦ inl h
            | inr h ↦ inr (i, inst, n, n', e, (h, IsRead-Reads r p reads))
          ])
          (omega arith) (widen b r m k)

    vreg-IsRead :
        (j v : ℕ) → Memᴰ (j, v) (input_vregs_with_indexes inst) → IsRead (virt v) (phi_pred inst j)
    vreg-IsRead j v q = elim (Bool-cases (is_phi inst)) [
      | inl h ↦ rw h (of_phi (block_at inst (j + 1)) h refl)
      | inr h ↦ rw h (inl ((j, v), q, refl, inl h))
    ]
      where
        of_phi : (o : Option ℕ) → is_phi inst ≡ true → block_at inst (j + 1) ≡ o → IsRead (virt v) o
        of_phi none h at = inl ((j, v), q, refl, inr at)
        of_phi (some p) h at = ((j, v), q, refl, h, at)

    pub inst_turn :
        (m : Map BlockData)
        → Kept m
        → Returns
            (Visited (λ m'. (r : Reg) → InstReads inst r → Shown b r m') m)
            (visit_inst fuel f inst b m)
    unfolding visit_inst
    inst_turn m k =
        Returns-bind
          (λ m'.
            Kept m'
            × Grows m m'
            × ((x : ℕ × ℕ) → Memᴰ x (input_vregs_with_indexes inst) → Shown b (virt (x.1)) m'))
          (Visited (λ m'. (r : Reg) → InstReads inst r → Shown b r m') m)
          (for_each (visit_vreg fuel f inst b) (input_vregs_with_indexes inst) m)
          (λ m'. for_each (visit_reg fuel f b) (input_regs inst) m')
          (for_each-Through (visit_vreg fuel f inst b) Kept Grows (λ x m. Shown b (virt (x.1)) m)
            Grows-refl Grows-trans (λ x s t g h. Shown-stays b (virt (x.1)) s t g h)
            (input_vregs_with_indexes inst) m
            (λ (j, v) s q k'. read_turn (virt v) (phi_pred inst j) s (vreg-IsRead j v q) k') k)
          (λ m' (k', g, vs).
            Returns-mono
              (λ m''.
                Kept m''
                × Grows m' m''
                × ((x : ℕ) → Memᴰ x (input_regs inst) → Shown b (phys x) m''))
              (Visited (λ m'. (r : Reg) → InstReads inst r → Shown b r m') m)
              (for_each (visit_reg fuel f b) (input_regs inst) m')
              (for_each-Through (visit_reg fuel f b) Kept Grows (λ x m. Shown b (phys x) m)
                Grows-refl Grows-trans (λ x s t g h. Shown-stays b (phys x) s t g h)
                (input_regs inst) m' (λ x s q k''. read_turn (phys x) none s (inr (x, q, refl)) k'')
                k')
              (λ m'' (k'', g', rs). (
                k'',
                Grows-trans m m' m'' g g',
                λ r h. elim h [
                  | inl (x, q, e') ↦
                      subst (λ r. Shown b r m'') (sym e')
                        (Shown-stays b (virt (x.1)) m' m'' g' (vs x q))
                  | inr (x, q, e') ↦ subst (λ r. Shown b r m'') (sym e') (rs x q)
                ],
              )))
