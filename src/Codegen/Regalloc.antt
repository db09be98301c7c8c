-- ===== src/Codegen/Regalloc.antt =====
-- src/codegen/pass/regalloc.rs: which registers a virtual register may have, and the scan that gives
-- each one the first that it does not interfere with, up to the first one that must be spilled. The
-- machine has one class of registers (src/codegen/isa/ola/register/mod.rs): a register and its unit
-- are its number.
pub mod Apart
pub mod Kept
use ola_lang.Prelude.{
  ℕ, Bool, true, false, Option, none, some, List, [], ◌∷◌, ◌++◌, ◌||◌, if◌then◌else◌, drop_last,
}
use ola_lang.Prelude.Map.{Map, insert}
use ola_lang.Prelude.Outcome.{Outcome, done, unwrap, ◌>>=◌}
use ola_lang.Codegen.Instruction.{Opcode, InstructionData}
use ola_lang.Codegen.Liveness.{Liveness, reg_interferes, assign}
use ola_lang.Codegen.Liveness.Propagation.{Function, blocks_of, insts_of}

abbrev gpr_list : List ℕ
gpr_list = 1 ∷ 2 ∷ 3 ∷ 4 ∷ []

abbrev csr_list : List ℕ
csr_list = 5 ∷ 6 ∷ 7 ∷ 8 ∷ []

abbrev is_call : InstructionData → Bool
is_call d = elim d.opcode [ Opcode.call ↦ true | _ ↦ false ]

abbrev any_call : Function → List ℕ → Outcome Bool
any_call f [] = done false
any_call f (i ∷ is) = do
  inst ← unwrap (f.instructions i)
  if is_call inst then done true else any_call f is

-- The loop over the blocks breaks behind the first.
abbrev calls_in_first : ℕ → Function → List ℕ → Outcome Bool
calls_in_first fuel f [] = done false
calls_in_first fuel f (b ∷ bs) = do is ← insts_of fuel f b; any_call f is

abbrev pub calls : ℕ → Function → Outcome Bool
calls fuel f = do bs ← blocks_of fuel f; calls_in_first fuel f bs

abbrev preferred_or_none : Option (List ℕ) → List ℕ
preferred_or_none none = []
preferred_or_none (some rs) = rs

-- the registers that are tried, in their order
abbrev pub availables : (calls is_spill : Bool) → Option (List ℕ) → List ℕ
availables calls is_spill preferred =
    let all = if calls then csr_list else gpr_list ++ csr_list in
    preferred_or_none preferred ++ (if is_spill then all else drop_last all)

pub record Allocation : Type 0 where
  pub liveness : Liveness
  pub assigned_regs : Map ℕ

-- `for reg in availables`; true if one was found
unfoldable pub allocate_one : List ℕ → ℕ → Allocation → Outcome (Bool × Allocation)
allocate_one [] vreg a = done (false, a)
allocate_one (reg ∷ regs) vreg a = do
  let later = allocate_one regs vreg a
  hit ← reg_interferes a.liveness reg vreg
  if hit then later else do
    l ← assign a.liveness reg vreg
    done (true, record { liveness = l; assigned_regs = insert a.assigned_regs vreg reg })

-- The loop over the worklist, up to the first virtual register for which no register is left
unfoldable pub allocate :
    (calls : Bool) (is_spill : ℕ → Bool) (preferred : Map (List ℕ))
    → List ℕ
    → Allocation
    → Outcome (Option ℕ × Allocation)
unfolding allocate_one
allocate calls is_spill preferred [] a = done (none, a)
allocate calls is_spill preferred (vreg ∷ worklist) a = do
  (allocated, a') ← allocate_one (availables calls (is_spill vreg) (preferred vreg)) vreg a
  if allocated then allocate calls is_spill preferred worklist a' else done (some vreg, a')
