-- ===== src/Codegen/Liveness/Propagation.antt =====
-- src/codegen/pass/liveness.rs: the registers alive at the entry and at the end of each block
-- (`set_def`, `visit`, `propagate_reg`). The hash sets are tests of membership; the hash map of the
-- blocks' data is a map. Loops over the layout and the recursion of `propagate_reg` have fuel, and
-- fuel that runs out counts as a panic.
pub mod Alive
pub mod Exact
pub mod Exposed
pub mod Growth
pub mod Definitions
pub mod Entry
pub mod Recursion
pub mod Shape
pub mod Steps
pub mod Visit
use ola_lang.Prelude.{
  ℕ, zero, suc, ◌+◌, Bool, true, false, Option, none, some, List, [], ◌∷◌, ◌==◌, if◌then◌else◌, map,
}
use ola_lang.Prelude.Map.{Map, insert}
use ola_lang.Prelude.Outcome.{Outcome, done, panic, unwrap, ◌>>=◌}
use ola_lang.Prelude.Loops.{for_each}
use ola_lang.Codegen.Layout.{Layout, block_iter, inst_iter, or_insert}
use ola_lang.Codegen.Instruction.{
  InstructionData, input_vregs_with_indexes, output_vregs, input_regs, output_regs, block_at,
  is_phi,
}

pub data Reg : Type 0 where
  phys : ℕ → Reg
  virt : ℕ → Reg

abbrev pub reg_eq : Reg → Reg → Bool
reg_eq (phys a) (phys b) = a == b
reg_eq (virt a) (virt b) = a == b
reg_eq _ _ = false

abbrev pub RegSet : Type 0
RegSet = Reg → Bool

abbrev pub add : RegSet → Reg → RegSet
add s r x = if reg_eq x r then true else s x

pub record BlockData : Type 0 where
  pub def : RegSet
  pub live_in : RegSet
  pub live_out : RegSet

abbrev pub new : BlockData
new = record { def = λ r. false; live_in = λ r. false; live_out = λ r. false }

-- What the analysis reads of a function: its layout, its instructions, and the blocks before each.
pub record Function : Type 0 where
  pub layout : Layout
  pub instructions : Map InstructionData
  pub preds : Map (List ℕ)

abbrev pub listed : Option (List ℕ) → Outcome (List ℕ)
listed none = panic
listed (some xs) = done xs

abbrev pub blocks_of : ℕ → Function → Outcome (List ℕ)
blocks_of fuel f = do bs ← block_iter fuel f.layout; listed bs

abbrev pub insts_of : ℕ → Function → ℕ → Outcome (List ℕ)
insts_of fuel f b = do is ← inst_iter fuel f.layout b; listed is

-- `entry(block_id).or_insert_with(BlockData::new)`, as a value
abbrev pub or_new : Option BlockData → BlockData
or_new none = new
or_new (some d) = d

abbrev pub entry : Map BlockData → ℕ → BlockData
entry m b = or_new (m b)

abbrev pub define : ℕ → List Reg → Map BlockData → Map BlockData
define b [] m = m
define b (r ∷ rs) m = define b rs (insert m b (record (entry m b) { def = add (entry m b).def r }))

unfoldable pub set_def_on_inst : InstructionData → ℕ → Map BlockData → Map BlockData
set_def_on_inst inst b m =
    define b (map phys (output_regs inst)) (define b (map virt (output_vregs inst)) m)

-- the inner and the outer loop's body of `set_def`
abbrev pub set_def_at : Function → ℕ → ℕ → Map BlockData → Outcome (Map BlockData)
set_def_at f b i m = do inst ← unwrap (f.instructions i); done (set_def_on_inst inst b m)

abbrev pub set_def_in : ℕ → Function → ℕ → Map BlockData → Outcome (Map BlockData)
set_def_in fuel f b m = do
  let m' = or_insert m b new
  is ← insts_of fuel f b
  for_each (set_def_at f b) is m'

unfoldable pub set_def : ℕ → Function → Map BlockData → Outcome (Map BlockData)
unfolding set_def_on_inst
set_def fuel f m = do bs ← blocks_of fuel f; for_each (set_def_in fuel f) bs m

abbrev pub skips : Option ℕ → ℕ → Bool
skips none p = false
skips (some q) p = if p == q then false else true

-- One turn of the loop over the blocks before: the recursive call is `again`.
abbrev pub to_pred :
    (again : ℕ → Map BlockData → Outcome (Map BlockData))
    → Reg
    → Option ℕ
    → ℕ
    → Map BlockData
    → Outcome (Map BlockData)
to_pred again r phi_pred p m = if skips phi_pred p then done m else do
  data_ ← unwrap (m p)
  if data_.live_out r
      then done m
      else again p (insert m p (record data_ { live_out = add data_.live_out r }))

unfoldable pub propagate_reg :
    ℕ → Function → Reg → Option ℕ → ℕ → Map BlockData → Outcome (Map BlockData)
propagate_reg zero f r phi_pred b m = panic
propagate_reg (suc fuel) f r phi_pred b m = do
  data_ ← unwrap (m b)
  if data_.def r then done m else if data_.live_in r then done m else do
    let m' = insert m b (record data_ { live_in = add data_.live_in r })
    ps ← unwrap (f.preds b)
    for_each (to_pred (λ p m. propagate_reg fuel f r none p m) r phi_pred) ps m'

-- The block that an input of an instruction comes from, if it is a phi
abbrev pub phi_pred : InstructionData → ℕ → Option ℕ
phi_pred inst i = if is_phi inst then block_at inst (i + 1) else none

-- the bodies of the loops of `visit_inst`
abbrev pub visit_vreg :
    ℕ → Function → InstructionData → ℕ → ℕ × ℕ → Map BlockData → Outcome (Map BlockData)
visit_vreg fuel f inst b (i, v) m = propagate_reg fuel f (virt v) (phi_pred inst i) b m

abbrev pub visit_reg : ℕ → Function → ℕ → ℕ → Map BlockData → Outcome (Map BlockData)
visit_reg fuel f b r m = propagate_reg fuel f (phys r) none b m

unfoldable pub visit_inst :
    ℕ → Function → InstructionData → ℕ → Map BlockData → Outcome (Map BlockData)
unfolding propagate_reg
visit_inst fuel f inst b m = do
  m' ←
      for_each (λ (i, v) m. propagate_reg fuel f (virt v) (phi_pred inst i) b m)
        (input_vregs_with_indexes inst) m
  for_each (λ r m. propagate_reg fuel f (phys r) none b m) (input_regs inst) m'

-- the inner and the outer loop's body of `visit`
abbrev pub visit_at : ℕ → Function → ℕ → ℕ → Map BlockData → Outcome (Map BlockData)
visit_at fuel f b i m = do inst ← unwrap (f.instructions i); visit_inst fuel f inst b m

abbrev pub visit_in : ℕ → Function → ℕ → Map BlockData → Outcome (Map BlockData)
visit_in fuel f b m = do is ← insts_of fuel f b; for_each (visit_at fuel f b) is m

unfoldable pub visit : ℕ → Function → Map BlockData → Outcome (Map BlockData)
unfolding visit_inst
visit fuel f m = do bs ← blocks_of fuel f; for_each (visit_in fuel f) bs m

-- `analyze_function` on a new `Liveness`, up to its numbering of the points
unfoldable pub analyze_function : ℕ → Function → Outcome (Map BlockData)
unfolding set_def visit
analyze_function fuel f = do m ← set_def fuel f (λ b. none); visit fuel f m
