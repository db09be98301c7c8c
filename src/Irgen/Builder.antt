-- ===== src/Irgen/Builder.antt =====
-- The calls of src/irgen of the builder of LLVM, in the order in which they are made, and what makes
-- them well formed: every block that is appended is filled once, and ends in the one terminator that
-- it has. A handle of a block is the number of blocks that were appended before it; of a call only
-- what concerns the blocks is kept.
use ola_lang.Prelude.{
  ℕ, suc, Bool, true, false, Option, none, some, List, [], ◌∷◌, ◌++◌, ◌==◌, if◌then◌else◌,
  get_last?, drop_last,
}
use ola_lang.Prelude.Run.{M, ok, unwrap}

pub data Call : Type 0 where
  append_basic_block position_at_end build_unconditional_branch : ℕ → Call
  build_conditional_branch : ℕ → ℕ → Call
  build_return : Call
  -- any call that appends one instruction that does not end a block
  instruction : Call

-- Of `Binary` what src/irgen/statements.rs changes: the calls so far, the blocks appended, and the
-- targets of `break` and `continue` in the loops around.
pub record Binary : Type 0 where
  pub calls : List Call
  pub blocks : ℕ
  pub loops : List (ℕ × ℕ)

abbrev pub Emit : Type 0 → Type 0
Emit A = M Binary A

unfoldable pub call : Call → Emit (Unit {0})
call c b = ok tt (record b { calls = b.calls ++ c ∷ [] })

-- `context.append_basic_block`, which gives the handle
unfoldable pub append_block : Emit ℕ
append_block b =
    ok b.blocks
      (record b { calls = b.calls ++ append_basic_block b.blocks ∷ []; blocks = suc b.blocks })

unfoldable pub push_loop : ℕ → ℕ → Emit (Unit {0})
push_loop end next b = ok tt (record b { loops = b.loops ++ (end, next) ∷ [] })

unfoldable pub pop_loop : Emit (Unit {0})
pop_loop b = ok tt (record b { loops = drop_last b.loops })

-- `bin.loops.last().unwrap()`
unfoldable pub last_loop : Emit (ℕ × ℕ)
last_loop b = unwrap (get_last? b.loops) b

-- What the calls so far have left: whether the current block waits for its terminator, and the
-- blocks that were appended and are empty.
pub record Progress : Type 0 where
  pub open_block : Bool
  pub empty : List ℕ

-- without the block, if it is among them
unfoldable pub fill : ℕ → List ℕ → Option (List ℕ)
fill n [] = none
fill n (m ∷ ms) =
    let rest = fill n ms in
    if m == n then some ms else (elim rest [ none ↦ none | some ms' ↦ some (m ∷ ms') ])

abbrev filled : Option (List ℕ) → Option Progress
filled none = none
filled (some ms) = some (record { open_block = true; empty = ms })

-- A call that is allowed: an instruction where the block waits for its terminator, and a new block
-- only behind the terminator of the one before.
unfoldable pub accept : Call → Progress → Option Progress
accept (append_basic_block n) p = some (record p { empty = n ∷ p.empty })
accept (position_at_end n) p = if p.open_block then none else filled (fill n p.empty)
accept (build_unconditional_branch n) p =
    if p.open_block then some (record p { open_block = false }) else none
accept (build_conditional_branch n m) p =
    if p.open_block then some (record p { open_block = false }) else none
accept build_return p = if p.open_block then some (record p { open_block = false }) else none
accept instruction p = if p.open_block then some p else none

unfoldable pub accept_all : List Call → Progress → Option Progress
accept_all [] p = some p
accept_all (c ∷ cs) p = elim (accept c p) [ none ↦ none | some p' ↦ accept_all cs p' ]

-- before the first call
abbrev pub nothing_yet : Progress
nothing_yet = record { open_block = false; empty = [] }
