-- ===== src/Codegen/Liveness/Propagation/Alive.antt =====
-- src/codegen/pass/liveness.rs: the registers that the propagation follows, where a block counts as a
-- whole, and the invariant of the data of the blocks while registers are being propagated.
use ola_lang.Prelude.{ℕ, ◌≡◌, true, List, ◌⊎◌, inl, inr}
use ola_lang.Prelude.Map.{Map}
use mathlib.Core.List.{Memᴰ}
use ola_lang.Codegen.Liveness.Propagation.{Reg, BlockData}
use ola_lang.Codegen.Liveness.Propagation.Growth.{def_of, in_of, out_of, Known}

-- A set of pairs of a block and a register, with one more
abbrev pub Plus : (ℕ → Reg → Type 0) → ℕ → Reg → ℕ → Reg → Type 0
Plus s b r c x = ((c ≡ b) × (x ≡ r)) ⊎ s c x

-- `Uses` are the reads that every block before is to hand on, `From` those of the phis, each with the one
-- block that it comes from.
module _ (preds : ℕ → List ℕ) (Uses : ℕ → Reg → Type 0) (From : ℕ → Reg → ℕ → Type 0)
    (Writes : ℕ → Reg → Type 0) where
  -- A register at the entry of a block that uses it and nowhere writes it, and of each block behind
  -- which it is wanted and that does not write it.
  pub data LiveIn (r : Reg) : ℕ → Type 0 where
    used : {b : ℕ} → Uses b r → (Writes b r → ⊥) → LiveIn r b
    before : {b p : ℕ} → LiveIn r b → Memᴰ p (preds b) → (Writes p r → ⊥) → LiveIn r p
    before_phi : {b p : ℕ} → From b r p → Memᴰ p (preds b) → (Writes p r → ⊥) → LiveIn r p

  -- wanted by a block of the one before it
  abbrev pub Wanted : Reg → ℕ → ℕ → Type 0
  Wanted r b p = LiveIn r b ⊎ From b r p

  -- at the end of a block: wanted by a block behind it
  abbrev pub LiveOut : Reg → ℕ → Type 0
  LiveOut r p = (b : ℕ) × Wanted r b p × Memᴰ p (preds b)

  -- What is found at an entry: what is alive there, and what a phi reads.
  abbrev pub Entered : Reg → ℕ → Type 0
  Entered r b = LiveIn r b ⊎ ((p : ℕ) × From b r p)

  pub leads : {r : Reg} {b p : ℕ} → Wanted r b p → Memᴰ p (preds b) → (Writes p r → ⊥) → LiveIn r p
  leads (inl live) n w = before live n w
  leads (inr phi) n w = before_phi phi n w

  -- `open_in` are the pairs whose blocks before need not have the register at their ends yet, and
  -- `open_out` those whose own entry need not have it yet.
  pub record Inv (blocks : List ℕ) (open_in open_out : ℕ → Reg → Type 0) (m : Map BlockData)
      : Type 0 where
    pub known : (b : ℕ) → Memᴰ b blocks → Known m b
    pub defs_sound : (b : ℕ) (r : Reg) → Memᴰ b blocks → def_of m b r ≡ true → Writes b r
    pub defs_complete : (b : ℕ) (r : Reg) → Memᴰ b blocks → Writes b r → def_of m b r ≡ true
    pub sound_in : (b : ℕ) (r : Reg) → in_of m b r ≡ true → Entered r b
    pub sound_out : (p : ℕ) (r : Reg) → out_of m p r ≡ true → LiveOut r p
    pub closed_in :
        (b : ℕ) (r : Reg)
        → in_of m b r ≡ true
        → open_in b r ⊎ ((p : ℕ) → Memᴰ p (preds b) → out_of m p r ≡ true)
    pub closed_out :
        (p : ℕ) (r : Reg) → out_of m p r ≡ true → open_out p r ⊎ (Writes p r ⊎ (in_of m p r ≡ true))
