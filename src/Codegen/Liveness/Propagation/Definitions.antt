-- ===== src/Codegen/Liveness/Propagation/Definitions.antt =====
-- src/codegen/pass/liveness.rs: after `set_def` each block is known, and its definitions are the
-- registers that its instructions write.
use ola_lang.Prelude.{
  never, ℕ, ◌≡◌, refl, sym, ◌∙◌, ap, true, false, none, some, List, map, inl, inr, ◌⊎◌, arith,
}
use mathlib.Core.Path.{subst}
use mathlib.Core.List.{Memᴰ}
use ola_lang.Prelude.Map.{Map}
use ola_lang.Prelude.Outcome.{done, unwrap, ◌>>=◌, Returns, Returns-mono}
use ola_lang.Prelude.Loops.{for_each, for_each-Through}
use ola_lang.Codegen.Layout.{or_insert}
use ola_lang.Codegen.Layout.Iteration.{inst_iter-Holds}
use ola_lang.Codegen.Layout.Order.{block_iter-Ordered}
use ola_lang.Codegen.Instruction.{InstructionData, output_vregs, output_regs}
use ola_lang.Codegen.Liveness.Propagation.{
  Reg, phys, virt, BlockData, new, define, Function, blocks_of, insts_of, listed, set_def_on_inst,
  set_def_at, set_def_in, set_def,
}
use ola_lang.Codegen.Liveness.Propagation.Growth.{def_of, in_of, out_of, Known}
use ola_lang.Codegen.Liveness.Propagation.Shape.{InstWrites, Writes, WellFormed}
use ola_lang.Codegen.Liveness.Propagation.Entry.{
  same_inst, Defines, Defines-refl, Defines-trans, define-Defines, define-def, define-cases,
  or_insert-entry, or_insert-Known, or_insert-Defines,
}

-- what holds of the data of the blocks while the definitions are being entered
pub record Defined (f : Function) (blocks : List ℕ) (insts preds : ℕ → List ℕ) (m : Map BlockData)
    : Type 0 where
  pub defs : (b : ℕ) (r : Reg) → def_of m b r ≡ true → Writes f blocks insts preds b r
  pub ins : (b : ℕ) (r : Reg) → in_of m b r ≡ false
  pub outs : (b : ℕ) (r : Reg) → out_of m b r ≡ false

module _ (f : Function) (blocks : List ℕ) (insts preds : ℕ → List ℕ) (fuel : ℕ)
    (wf : WellFormed f blocks insts preds fuel) where
  pub blocks_of-WellFormed : blocks_of fuel f ≡ done blocks
  blocks_of-WellFormed =
      ap (λ o. o >>= listed)
        (block_iter-Ordered f.layout blocks fuel wf.ordered (omega (arith, wf.enough)))

  pub insts_of-WellFormed : (b : ℕ) → Memᴰ b blocks → insts_of fuel f b ≡ done (insts b)
  insts_of-WellFormed b n =
      ap (λ o. o >>= listed)
        (inst_iter-Holds f.layout b (insts b) fuel (wf.holds b n) (wf.enough_for b n))

  -- the registers of the instruction are definitions of the block
  abbrev Entered : ℕ → ℕ → Map BlockData → Type 0
  Entered b i m =
      (inst : InstructionData) (r : Reg)
      → f.instructions i ≡ some inst
      → InstWrites inst r
      → def_of m b r ≡ true

  abbrev pub Has : ℕ → Map BlockData → Type 0
  Has b m = Known m b × ((r : Reg) → Writes f blocks insts preds b r → def_of m b r ≡ true)

  set_def_on_inst-Defines :
      (inst : InstructionData) (b : ℕ) (m : Map BlockData) → Defines m (set_def_on_inst inst b m)
  unfolding set_def_on_inst
  set_def_on_inst-Defines inst b m =
      let m' = define b (map virt (output_vregs inst)) m in
      Defines-trans m m' (define b (map phys (output_regs inst)) m')
        (define-Defines b (map virt (output_vregs inst)) m)
        (define-Defines b (map phys (output_regs inst)) m')

  set_def_on_inst-def :
      (inst : InstructionData) (b : ℕ) (m : Map BlockData) (r : Reg)
      → InstWrites inst r
      → def_of (set_def_on_inst inst b m) b r ≡ true
  unfolding set_def_on_inst
  set_def_on_inst-def inst b m r w =
      let m' = define b (map virt (output_vregs inst)) m in
      elim w [
        | inl n ↦
            (define-Defines b (map phys (output_regs inst)) m').defs b r
              (define-def b (map virt (output_vregs inst)) m r n)
        | inr n ↦ define-def b (map phys (output_regs inst)) m' r n
      ]

  set_def_on_inst-cases :
      (inst : InstructionData) (b : ℕ) (m : Map BlockData) (c : ℕ) (r : Reg)
      → def_of (set_def_on_inst inst b m) c r ≡ true
      → ((c ≡ b) × InstWrites inst r) ⊎ (def_of m c r ≡ true)
  unfolding set_def_on_inst
  set_def_on_inst-cases inst b m c r h =
      let m' = define b (map virt (output_vregs inst)) m in
      elim (define-cases b (map phys (output_regs inst)) m' c r h) [
        | inl (e, n) ↦ inl (e, inr n)
        | inr h' ↦ elim (define-cases b (map virt (output_vregs inst)) m c r h') [
          | inl (e, n) ↦ inl (e, inl n)
          | inr h'' ↦ inr h''
        ]
      ]

  def_turn :
      (b i : ℕ) (m : Map BlockData)
      → Memᴰ b blocks
      → Memᴰ i (insts b)
      → Defined f blocks insts preds m
      → Returns
          (λ m'. Defined f blocks insts preds m' × Defines m m' × Entered b i m')
          (set_def_at f b i m)
  def_turn b i m n n' h =
      let (inst, e) = wf.insts_found b i n n' in
      let g = set_def_on_inst-Defines inst b m in
      subst (Returns (λ m'. Defined f blocks insts preds m' × Defines m m' × Entered b i m'))
        (sym (ap (λ o. unwrap o >>= λ inst. done (set_def_on_inst inst b m)) e))
        (
          record {
            defs = λ c r d. elim (set_def_on_inst-cases inst b m c r d) [
              | inl (e', w) ↦
                  subst (λ c. Writes f blocks insts preds c r) (sym e') (i, inst, n, n', e, w)
              | inr d' ↦ h.defs c r d'
            ];
            ins = λ c r. g.ins c r ∙ h.ins c r;
            outs = λ c r. g.outs c r ∙ h.outs c r;
          },
          g,
          λ inst' r e' w.
              set_def_on_inst-def inst b m r
                (subst (λ y. InstWrites y r) (same_inst inst' inst (sym e' ∙ e)) w),
        )

  block_turn :
      (b : ℕ) (m : Map BlockData)
      → Memᴰ b blocks
      → Defined f blocks insts preds m
      → Returns
          (λ m'. Defined f blocks insts preds m' × Defines m m' × Has b m')
          (set_def_in fuel f b m)
  block_turn b m n h =
      let m₀ = or_insert m b new in
      let g = or_insert-Defines b m in
      subst (Returns (λ m'. Defined f blocks insts preds m' × Defines m m' × Has b m'))
        (sym (ap (λ o. o >>= λ is. for_each (set_def_at f b) is m₀) (insts_of-WellFormed b n)))
        (Returns-mono _ (λ m'. Defined f blocks insts preds m' × Defines m m' × Has b m') _
          (for_each-Through (set_def_at f b) (Defined f blocks insts preds) Defines (Entered b)
            Defines-refl Defines-trans
            (λ i s t le entered inst r e w. le.defs b r (entered inst r e w)) (insts b) m₀
            (λ i s n' h'. def_turn b i s n n' h')
            (record {
              defs = λ c r d. h.defs c r (ap (λ t. t.def r) (sym (or_insert-entry b m c)) ∙ d);
              ins = λ c r. g.ins c r ∙ h.ins c r;
              outs = λ c r. g.outs c r ∙ h.outs c r;
            }))
          (λ m' (h', le, all). (
            h',
            Defines-trans m m₀ m' g le,
            (le.known b (or_insert-Known b m), λ r (i, inst, _, n', e, w). all i n' inst r e w),
          )))

  pub set_def-Defined :
      Returns
        (λ m. Defined f blocks insts preds m × ((b : ℕ) → Memᴰ b blocks → Has b m))
        (set_def fuel f (λ b. none))
  unfolding set_def
  set_def-Defined =
      subst (Returns (λ m. Defined f blocks insts preds m × ((b : ℕ) → Memᴰ b blocks → Has b m)))
        (sym
          (ap (λ o. o >>= λ bs. for_each (set_def_in fuel f) bs (λ b. none)) blocks_of-WellFormed))
        (Returns-mono _ (λ m. Defined f blocks insts preds m × ((b : ℕ) → Memᴰ b blocks → Has b m))
          _
          (for_each-Through (set_def_in fuel f) (Defined f blocks insts preds) Defines Has
            Defines-refl Defines-trans
            (λ b s t le (k, all). (le.known b k, λ r w. le.defs b r (all r w))) blocks (λ b. none)
            block_turn
            (record { defs = λ c r d. elim (never d) [ ]; ins = λ c r. refl; outs = λ c r. refl }))
          (λ m (h, _, all). (h, all)))
