-- ===== src/Codegen/Tests/PropagationTests.antt =====
-- src/codegen/pass/liveness.rs on two blocks, of which the second reads what the first writes, and
-- on three blocks, of which the last has a phi.
use ola_lang.Prelude.{
  ℕ, ◌≡◌, refl, Bool, true, false, none, some, List, [], ◌∷◌, inl, inr, arith, sym, ap, ◌∙◌, ◌==◌,
  Bool-cases, Option, zero, suc,
}
use mathlib.Core.Path.{subst}
use mathlib.Core.List.{Memᴰ}
use mathlib.Core.List.Memᴰ.{head, not-nil, cases_cons}
use ola_lang.Prelude.Map.{insert}
use ola_lang.Prelude.Outcome.{done, ◌>>=◌, Returns}
use ola_lang.Codegen.Layout.{BlockNode, block_iter, inst_iter}
use ola_lang.Codegen.Layout.Segments.{node, Holds}
use ola_lang.Codegen.Instruction.{Opcode, OperandData, Operand, InstructionData, is_phi}
use ola_lang.Codegen.Liveness.Propagation.Entry.{same_inst}
use ola_lang.Codegen.Liveness.Propagation.Exposed.{first_reads}
use ola_lang.Codegen.Liveness.Propagation.{Reg, virt, Function, analyze_function}
use ola_lang.Codegen.Liveness.Propagation.Growth.{in_of, out_of}
use ola_lang.Codegen.Liveness.Propagation.Shape.{
  WellFormed, FindsLive, WritesFirst, InstReads, InstWrites, LeavesBackedUp,
}
use ola_lang.Codegen.Liveness.Propagation.Exact.{
  analyze_function-FindsLive, analyze_function-LeavesBackedUp,
}

abbrev written : OperandData → Operand
written d = record { data_ = d; input = false; output = true; implicit = false }

abbrev read : OperandData → Operand
read d = record { data_ = d; input = true; output = false; implicit = false }

abbrev plain : OperandData → Operand
plain d = record { data_ = d; input = false; output = false; implicit = false }

abbrev write_1 : InstructionData
write_1 = record { opcode = Opcode.mov; operands = written (OperandData.vreg 1) ∷ [] }

abbrev read_1 : InstructionData
read_1 = record { opcode = Opcode.ret; operands = read (OperandData.vreg 1) ∷ [] }

abbrev at : ℕ → BlockNode
at b = record {
  prev = elim b [ zero ↦ none | suc _ ↦ some 0 ];
  next = elim b [ zero ↦ some 1 | suc _ ↦ none ];
  first_inst = some b;
  last_inst = some b;
}

abbrev two_blocks : Function
two_blocks = record {
  layout = record {
    basic_blocks = insert (insert (λ b. none) 0 (at 0)) 1 (at 1);
    instructions = insert (insert (λ i. none) 0 (node 0 none none)) 1 (node 1 none none);
    first_block = some 0;
    last_block = some 1;
  };
  instructions = insert (insert (λ i. none) 0 write_1) 1 read_1;
  preds = insert (insert (λ b. none) 0 []) 1 (0 ∷ []);
}

abbrev own : ℕ → List ℕ
own b = b ∷ []

abbrev behind : ℕ → List ℕ
behind zero = []
behind (suc b) = 0 ∷ []

-- A claim of each of the two blocks
each_block : (P : ℕ → Type 0) → P 0 → P 1 → (b : ℕ) → Memᴰ b (0 ∷ 1 ∷ []) → P b
each_block P p q b n = elim (cases_cons n) [
  | inl e ↦ subst P (sym e) p
  | inr n' ↦ elim (cases_cons n') [ inl e ↦ subst P (sym e) q | inr n'' ↦ elim (not-nil n'') [ ] ]
]

only : (P : ℕ → Type 0) (x : ℕ) → P x → (b : ℕ) → Memᴰ b (x ∷ []) → P b
only P x p b n = elim (cases_cons n) [ inl e ↦ subst P (sym e) p | inr n' ↦ elim (not-nil n') [ ] ]

held : (b : ℕ) → Memᴰ b (0 ∷ 1 ∷ []) → Holds two_blocks.layout b (own b)
held =
    each_block (λ b. Holds two_blocks.layout b (own b))
      (record {
        at = at 0;
        found = refl;
        first = refl;
        last = refl;
        seg = (refl, tt);
        distinct = (refl, tt);
      })
      (record {
        at = at 1;
        found = refl;
        first = refl;
        last = refl;
        seg = (refl, tt);
        distinct = (refl, tt);
      })

two_blocks-WellFormed : WellFormed two_blocks (0 ∷ 1 ∷ []) own behind 3
two_blocks-WellFormed = record {
  ordered = record {
    first = refl;
    last = refl;
    chain = (
      record { at = at 0; found = refl; prev = refl; next = refl },
      (record { at = at 1; found = refl; prev = refl; next = refl }, tt),
    );
    distinct = (refl, (refl, tt));
  };
  holds = held;
  insts_found = λ b i n n'.
      only (λ i. (inst : InstructionData) × (two_blocks.instructions i ≡ some inst)) b
        (each_block (λ b. (inst : InstructionData) × (two_blocks.instructions b ≡ some inst))
          (write_1, refl) (read_1, refl) b n)
        i n';
  preds_found = each_block (λ b. two_blocks.preds b ≡ some (behind b)) refl refl;
  preds_inside = λ b p n.
      each_block (λ b. Memᴰ p (behind b) → Memᴰ p (0 ∷ 1 ∷ [])) (λ q. elim (not-nil q) [ ])
        (λ q. only (λ p. Memᴰ p (0 ∷ 1 ∷ [])) 0 (head refl) p q) b n;
  enough = omega arith;
  enough_for = λ b n. omega arith;
}

found_alive :
    (do
      m ← analyze_function 3 two_blocks
      done (in_of m 1 (virt 1) ∷ out_of m 0 (virt 1) ∷ in_of m 0 (virt 1) ∷ []))
    ≡ done (true ∷ true ∷ false ∷ [])
unfolding analyze_function block_iter inst_iter
found_alive = refl

abbrev is_phi_of : Option InstructionData → Bool
is_phi_of none = false
is_phi_of (some inst) = is_phi inst

is_phi_of-two : (i : ℕ) → is_phi_of (two_blocks.instructions i) ≡ false
is_phi_of-two i = elim (Bool-cases (i == 1)) [
  | inl e ↦ rw e refl
  | inr e ↦ elim (Bool-cases (i == 0)) [ inl e' ↦ rw (e, e') refl | inr e' ↦ rw (e, e') refl ]
]

no_phis :
    (i : ℕ) (inst : InstructionData) → two_blocks.instructions i ≡ some inst → is_phi inst ≡ false
no_phis i inst e = sym (ap is_phi_of e) ∙ is_phi_of-two i

write_1-reads : (inst : InstructionData) (r : Reg) → some write_1 ≡ some inst → InstReads inst r → ⊥
write_1-reads inst r e h = elim (subst (λ y. InstReads y r) (same_inst inst write_1 (sym e)) h) [
  | inl (_, n, _) ↦ not-nil n
  | inr (_, n, _) ↦ not-nil n
]

read_1-writes : (inst : InstructionData) (r : Reg) → some read_1 ≡ some inst → InstWrites inst r → ⊥
read_1-writes inst r e h = elim (subst (λ y. InstWrites y r) (same_inst inst read_1 (sym e)) h) [
  | inl n ↦ not-nil n
  | inr n ↦ not-nil n
]

-- the first block reads nothing, and the second writes nothing
two_blocks-WritesFirst : WritesFirst two_blocks (0 ∷ 1 ∷ []) own behind
two_blocks-WritesFirst b r (j, w, _, m, at, writes) (nb, first) =
    let (i, inst, n, e, h) =
      first_reads two_blocks (0 ∷ 1 ∷ []) own behind 3 two_blocks-WellFormed first in
    each_block
      (λ b.
        (i j : ℕ)
        → Memᴰ i (own b)
        → Memᴰ j (own b)
        → two_blocks.instructions i ≡ some inst
        → two_blocks.instructions j ≡ some w
        → ⊥)
      (λ i j n m e at.
        only (λ i. two_blocks.instructions i ≡ some inst → ⊥) 0 (λ e. write_1-reads inst r e h) i n
          e)
      (λ i j n m e at.
        only (λ j. two_blocks.instructions j ≡ some w → ⊥) 1 (λ e. read_1-writes w r e writes) j m
          at)
      b nb i j n m e at

analyze_function-Live_example :
    Returns (FindsLive two_blocks (0 ∷ 1 ∷ []) own behind) (analyze_function 3 two_blocks)
analyze_function-Live_example =
    analyze_function-FindsLive two_blocks (0 ∷ 1 ∷ []) own behind 3 two_blocks-WellFormed no_phis
      two_blocks-WritesFirst

analyze_function-LeavesBackedUp_example :
    Returns (LeavesBackedUp two_blocks (0 ∷ 1 ∷ []) own behind) (analyze_function 3 two_blocks)
analyze_function-LeavesBackedUp_example =
    analyze_function-LeavesBackedUp two_blocks (0 ∷ 1 ∷ []) own behind 3 two_blocks-WellFormed

-- One value comes to the phi from both blocks before: the second is passed over.
abbrev phi_of_both : InstructionData
phi_of_both = record {
  opcode = Opcode.phi;
  operands =
      written (OperandData.vreg 9)
      ∷ read (OperandData.vreg 1)
      ∷ plain (OperandData.block 0)
      ∷ read (OperandData.vreg 1)
      ∷ plain (OperandData.block 1)
      ∷ [];
}

abbrev with_phi : InstructionData → Function
with_phi phi = record {
  layout = record {
    basic_blocks =
        insert
          (insert
            (insert (λ b. none) 0
              (record { prev = none; next = some 1; first_inst = none; last_inst = none }))
            1 (record { prev = some 0; next = some 2; first_inst = none; last_inst = none }))
          2 (record { prev = some 1; next = none; first_inst = some 0; last_inst = some 0 });
    instructions = insert (λ i. none) 0 (node 2 none none);
    first_block = some 0;
    last_block = some 2;
  };
  instructions = insert (λ i. none) 0 phi;
  preds = insert (insert (insert (λ b. none) 0 []) 1 []) 2 (0 ∷ 1 ∷ []);
}

abbrev joined : Function
joined = with_phi phi_of_both

second_way_lost :
    (do m ← analyze_function 4 joined; done (out_of m 0 (virt 1) ∷ out_of m 1 (virt 1) ∷ []))
    ≡ done (true ∷ false ∷ [])
unfolding analyze_function block_iter inst_iter
second_way_lost = refl

-- One block that reads a register and writes it behind that: the register does not count as alive
-- at the entry.
abbrev read_then_write : Function
read_then_write = record two_blocks {
  layout = record two_blocks.layout {
    basic_blocks =
        insert (λ b. none) 0
          (record { prev = none; next = none; first_inst = some 0; last_inst = some 1 });
    instructions = insert (insert (λ i. none) 0 (node 0 none (some 1))) 1 (node 0 (some 0) none);
    last_block = some 0;
  };
  instructions = insert (insert (λ i. none) 0 read_1) 1 write_1;
}

first_read_lost :
    (do m ← analyze_function 4 read_then_write; done (in_of m 0 (virt 1) ∷ [])) ≡ done (false ∷ [])
unfolding analyze_function block_iter inst_iter
first_read_lost = refl

-- one value from each of the two blocks before
abbrev phi_of_two : InstructionData
phi_of_two = record {
  opcode = Opcode.phi;
  operands =
      written (OperandData.vreg 9)
      ∷ read (OperandData.vreg 1)
      ∷ plain (OperandData.block 0)
      ∷ read (OperandData.vreg 2)
      ∷ plain (OperandData.block 1)
      ∷ [];
}

abbrev parted : Function
parted = with_phi phi_of_two

abbrev three : List ℕ
three = 0 ∷ 1 ∷ 2 ∷ []

abbrev in_last : ℕ → List ℕ
in_last (suc (suc zero)) = 0 ∷ []
in_last _ = []

abbrev both_before : ℕ → List ℕ
both_before (suc (suc zero)) = 0 ∷ 1 ∷ []
both_before _ = []

abbrev empty_at : (prev next : Option ℕ) → BlockNode
empty_at prev next = record { prev = prev; next = next; first_inst = none; last_inst = none }

abbrev last_at : BlockNode
last_at = record { prev = some 1; next = none; first_inst = some 0; last_inst = some 0 }

each_to_its_own :
    (do
      m ← analyze_function 4 parted
      done (
          out_of m 0 (virt 1)
          ∷ out_of m 1 (virt 1)
          ∷ out_of m 0 (virt 2)
          ∷ out_of m 1 (virt 2)
          ∷ []))
    ≡ done (true ∷ false ∷ false ∷ true ∷ [])
unfolding analyze_function block_iter inst_iter
each_to_its_own = refl
