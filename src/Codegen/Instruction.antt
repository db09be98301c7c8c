-- ===== src/Codegen/Instruction.antt =====
-- src/codegen/isa/ola/instruction/mod.rs: the instructions of the machine and the registers that
-- their operands read and write. The machine has one class of registers, so a register and its unit
-- are a number; so are a virtual register, a block and a slot.
use ola_lang.Prelude.{
  ℕ, suc, Bool, true, false, Option, none, some, List, [], ◌∷◌, String, if◌then◌else◌, get_elem?,
}
use ola_lang.Prelude.Int.{ℤ}

pub data Opcode : Type 0 where
  add_ri add_rr mul_ri mul_rr : Opcode
  and_ri and_rr or_ri or_rr xor_ri xor_rr : Opcode
  eq_ri eq_rr assert_ri assert_rr : Opcode
  mov_ri mov_rr mov : Opcode
  jmp_i jmp_r cjmp_i cjmp_r call sccall ret end : Opcode
  sload sstore poseidon : Opcode
  mload_i mload_r mstore_i mstore_r : Opcode
  rangecheck sigcheck not neq gte : Opcode
  prophet phi : Opcode
  tload_ri tload_rr tstore_i tstore_r : Opcode

pub data OperandData : Type 0 where
  reg : ℕ → OperandData
  vreg : ℕ → OperandData
  int8 : ℤ → OperandData
  int32 : ℤ → OperandData
  int64 : ℤ → OperandData
  mem_start : OperandData
  slot : ℕ → OperandData
  block : ℕ → OperandData
  label : String → OperandData
  global_address : String → OperandData
  nothing : OperandData

pub record Operand : Type 0 where
  pub data_ : OperandData
  pub input : Bool
  pub output : Bool
  pub implicit : Bool

pub record InstructionData : Type 0 where
  pub opcode : Opcode
  pub operands : List Operand

abbrev as_vreg : OperandData → Option ℕ
as_vreg (vreg v) = some v
as_vreg _ = none

abbrev as_reg : OperandData → Option ℕ
as_reg (reg r) = some r
as_reg _ = none

-- `list.push(x)` in front of what the loop pushes later
abbrev push {ℓ} : {A : Type ℓ} → Option A → List A → List A
push none xs = xs
push (some x) xs = x ∷ xs

abbrev numbered : ℕ → Option ℕ → Option (ℕ × ℕ)
numbered i none = none
numbered i (some v) = some (i, v)

-- the loop of `input_vregs_with_indexes`, from the operand `i` on
abbrev inputs_from : ℕ → List Operand → List (ℕ × ℕ)
inputs_from i [] = []
inputs_from i (o ∷ os) =
    push (if o.input then numbered i (as_vreg o.data_) else none) (inputs_from (suc i) os)

abbrev pub input_vregs_with_indexes : InstructionData → List (ℕ × ℕ)
input_vregs_with_indexes d = inputs_from 0 d.operands

abbrev vregs_written : List Operand → List ℕ
vregs_written [] = []
vregs_written (o ∷ os) = push (if o.output then as_vreg o.data_ else none) (vregs_written os)

abbrev regs_read : List Operand → List ℕ
regs_read [] = []
regs_read (o ∷ os) = push (if o.input then as_reg o.data_ else none) (regs_read os)

abbrev regs_written : List Operand → List ℕ
regs_written [] = []
regs_written (o ∷ os) = push (if o.output then as_reg o.data_ else none) (regs_written os)

abbrev pub output_vregs : InstructionData → List ℕ
output_vregs d = vregs_written d.operands

abbrev pub input_regs : InstructionData → List ℕ
input_regs d = regs_read d.operands

abbrev pub output_regs : InstructionData → List ℕ
output_regs d = regs_written d.operands

abbrev block_of : Option Operand → Option ℕ
block_of none = none
block_of (some o) = elim o.data_ [ block b ↦ some b | _ ↦ none ]

abbrev pub block_at : InstructionData → ℕ → Option ℕ
block_at d i = block_of (get_elem? d.operands i)

abbrev pub is_phi : InstructionData → Bool
is_phi d = elim d.opcode [ phi ↦ true | _ ↦ false ]
