-- ===== src/Codegen/Liveness/Propagation/Shape.antt =====
-- src/codegen/pass/liveness.rs: what the analysis takes for granted of a function, and which
-- registers its blocks read and write.
use ola_lang.Prelude.{
  ◌+◌, ◌∷◌, ℕ, false, none, ◌≤◌, ◌<◌, ◌≡◌, ◌↔◌, ◌⊎◌, true, some, List, map, length, inl, inr,
}
use mathlib.Core.List.{Memᴰ}
use ola_lang.Codegen.Layout.Segments.{Holds}
use ola_lang.Codegen.Layout.Order.{Ordered}
use ola_lang.Codegen.Instruction.{
  InstructionData, input_vregs_with_indexes, output_vregs, input_regs, output_regs, block_at,
  is_phi,
}
use ola_lang.Prelude.Map.{Map}
use ola_lang.Codegen.Liveness.Propagation.{Reg, phys, virt, Function, BlockData}
use ola_lang.Codegen.Liveness.Propagation.Growth.{def_of, in_of, out_of}
use ola_lang.Codegen.Liveness.Propagation.Alive.{LiveIn, LiveOut, Entered}

abbrev pub InstWrites : InstructionData → Reg → Type 0
InstWrites inst r = Memᴰ r (map virt (output_vregs inst)) ⊎ Memᴰ r (map phys (output_regs inst))

abbrev pub InstReads : InstructionData → Reg → Type 0
InstReads inst r =
    ((i : ℕ × ℕ) × Memᴰ i (input_vregs_with_indexes inst) × (r ≡ virt (i.1)))
    ⊎ ((n : ℕ) × Memᴰ n (input_regs inst) × (r ≡ phys n))

-- A read of a phi, and the block that the value comes from: the operand behind it
abbrev pub PhiFrom : InstructionData → Reg → ℕ → Type 0
PhiFrom inst r p =
    (i : ℕ × ℕ) × Memᴰ i (input_vregs_with_indexes inst)
    × (r ≡ virt (i.1))
    × (is_phi inst ≡ true)
    × (block_at inst (i.0 + 1) ≡ some p)

-- Any other read: of a phi only one without a block behind it
abbrev pub PlainReads : InstructionData → Reg → Type 0
PlainReads inst r =
    ((i : ℕ × ℕ) × Memᴰ i (input_vregs_with_indexes inst)
      × (r ≡ virt (i.1))
      × ((is_phi inst ≡ false) ⊎ (block_at inst (i.0 + 1) ≡ none)))
    ⊎ ((n : ℕ) × Memᴰ n (input_regs inst) × (r ≡ phys n))

pub PlainReads-InstReads : (inst : InstructionData) (r : Reg) → PlainReads inst r → InstReads inst r
PlainReads-InstReads inst r (inl (x, q, is, _)) = inl (x, q, is)
PlainReads-InstReads inst r (inr h) = inr h

-- `blocks` are the function's blocks in their order, `insts` the instructions of each in their
-- order, and `preds` the blocks before each.
module _ (f : Function) (blocks : List ℕ) (insts preds : ℕ → List ℕ) where
  -- some instruction of the block does it
  abbrev pub Some : (InstructionData → Reg → Type 0) → ℕ → Reg → Type 0
  Some P b r =
      (i : ℕ) × (inst : InstructionData) × Memᴰ b blocks
      × Memᴰ i (insts b)
      × (f.instructions i ≡ some inst)
      × P inst r

  abbrev pub Writes : ℕ → Reg → Type 0
  Writes = Some InstWrites

  abbrev pub Reads : ℕ → Reg → Type 0
  Reads = Some InstReads

  abbrev pub PhiReads : ℕ → Reg → Type 0
  PhiReads = Some (λ inst r. (is_phi inst ≡ true) × InstReads inst r)

  abbrev pub Uses : ℕ → Reg → Type 0
  Uses = Some PlainReads

  abbrev pub From : ℕ → Reg → ℕ → Type 0
  From b r p = Some (λ inst r. PhiFrom inst r p) b r

  pub record WellFormed (fuel : ℕ) : Type 0 where
    pub ordered : Ordered f.layout blocks
    pub holds : (b : ℕ) → Memᴰ b blocks → Holds f.layout b (insts b)
    pub insts_found :
        (b i : ℕ)
        → Memᴰ b blocks
        → Memᴰ i (insts b)
        → (inst : InstructionData) × (f.instructions i ≡ some inst)
    pub preds_found : (b : ℕ) → Memᴰ b blocks → f.preds b ≡ some (preds b)
    pub preds_inside : (b p : ℕ) → Memᴰ b blocks → Memᴰ p (preds b) → Memᴰ p blocks
    pub enough : length blocks < fuel
    pub enough_for : (b : ℕ) → Memᴰ b blocks → length (insts b) ≤ fuel

  -- Some instruction of the list reads the register, and none before it writes it.
  pub data ReadsFirst (r : Reg) : List ℕ → Type 0 where
    here :
        {i : ℕ} {is : List ℕ} {inst : InstructionData}
        → f.instructions i ≡ some inst
        → InstReads inst r
        → ReadsFirst r (i ∷ is)
    later :
        {i : ℕ} {is : List ℕ} {inst : InstructionData}
        → f.instructions i ≡ some inst
        → (InstWrites inst r → ⊥)
        → ReadsFirst r is
        → ReadsFirst r (i ∷ is)

  -- the block reads the register before it writes it, if it writes it at all
  abbrev pub Exposes : ℕ → Reg → Type 0
  Exposes b r = Memᴰ b blocks × ReadsFirst r (insts b)

  -- A register is alive at the entry of a block that reads it before it writes it, and of each block
  -- that does not write it and behind which it is alive.
  pub data Alive (r : Reg) : ℕ → Type 0 where
    exposed : {b : ℕ} → Exposes b r → Alive r b
    passed : {b p : ℕ} → Alive r b → Memᴰ p (preds b) → (Writes p r → ⊥) → Alive r p

  -- alive at the end of a block: at the entry of a block behind it
  abbrev pub AliveBehind : Reg → ℕ → Type 0
  AliveBehind r p = (b : ℕ) × Alive r b × Memᴰ p (preds b)

  abbrev pub NoPhi : Type 0
  NoPhi = (i : ℕ) (inst : InstructionData) → f.instructions i ≡ some inst → is_phi inst ≡ false

  abbrev pub WritesFirst : Type 0
  WritesFirst = (b : ℕ) (r : Reg) → Writes b r → Exposes b r → ⊥

  -- what the propagation follows, in which a block counts as a whole
  abbrev pub Live : Reg → ℕ → Type 0
  Live = LiveIn preds Uses From Writes

  -- What is found at the entry of a block is alive there or read by a phi of the block; what is found
  -- at its end is alive at the entry of a block behind it, or a phi there reads it from this block.
  abbrev pub FindsOnlyLive : Map BlockData → Type 0
  FindsOnlyLive m =
      (b : ℕ) (r : Reg)
      → (in_of m b r ≡ true → Entered preds Uses From Writes r b)
        × (out_of m b r ≡ true → LiveOut preds Uses From Writes r b)

  abbrev pub FindsLive : Map BlockData → Type 0
  FindsLive m =
      (b : ℕ) (r : Reg)
      → ((in_of m b r ≡ true) ↔ Alive r b) × ((out_of m b r ≡ true) ↔ AliveBehind r b)

  abbrev pub LeavesBackedUp : Map BlockData → Type 0
  LeavesBackedUp m =
      (p : ℕ) (r : Reg) → out_of m p r ≡ true → (def_of m p r ≡ true) ⊎ (in_of m p r ≡ true)
