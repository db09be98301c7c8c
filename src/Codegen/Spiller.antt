-- ===== src/Codegen/Spiller.antt =====
-- src/codegen/pass/spiller.rs: how an instruction that stores or reloads a register is put between
-- others: the point between the points of its neighbours, the renumbering when there is none, and
-- the list of instructions. The calls of `insert_inst_after` and `insert_inst_before` on themselves
-- are bounded by fuel; `none` is a recursion that is deeper.
pub mod Endless
pub mod Insertion
use ola_lang.Prelude.{ℕ, zero, suc, Bool, true, false, Option, none, some, ltb, if◌then◌else◌}
use ola_lang.Prelude.Map.{insert}
use ola_lang.Prelude.Outcome.{Outcome, done, panic, unwrap, ◌>>=◌}
use ola_lang.Codegen.Layout as Layout
use ola_lang.Codegen.Layout.{Layout, next_inst_of, prev_inst_of}
use ola_lang.Codegen.Liveness.{ProgramPoint, Liveness, between, recompute_program_points_after}

pub record Spiller : Type 0 where
  pub layout : Layout
  pub liveness : Liveness

abbrev pub point_of : ℕ → Spiller → Outcome ProgramPoint
point_of i s = unwrap (s.liveness.inst_to_pp i)

abbrev pub with_point : ℕ → ProgramPoint → Spiller → Layout → Spiller
with_point i p s l = record {
  layout = l;
  liveness = record s.liveness { inst_to_pp = insert s.liveness.inst_to_pp i p };
}

abbrev pub renumbered : ProgramPoint → Bool → Spiller → Spiller
renumbered from one_more s = record s {
  liveness = recompute_program_points_after s.liveness from one_more;
}

-- A new instruction at a point that was found, or else `again`
abbrev pub place :
    ℕ
    → Spiller
    → (Layout → Outcome Layout)
    → Outcome (Option Spiller)
    → Option ProgramPoint
    → Outcome (Option Spiller)
place i s linked again none = again
place i s linked again (some p) = do l ← linked s.layout; done (some (with_point i p s l))

abbrev pub place_after :
    ℕ
    → ProgramPoint
    → ℕ
    → ℕ
    → Spiller
    → (Spiller → Outcome (Option Spiller))
    → Option ℕ
    → Outcome (Option Spiller)
place_after after after_pp i b s again none = done (some s)
place_after after after_pp i b s again (some next) = do
  next_pp ← point_of next s
  place i s (Layout.insert_inst_after after i b) (again (renumbered after_pp false s))
      (between after_pp next_pp)

unfoldable pub insert_inst_after : ℕ → ℕ → ℕ → ℕ → Spiller → Outcome (Option Spiller)
insert_inst_after zero after i b s = done none
insert_inst_after (suc fuel) after i b s = do
  after_pp ← point_of after s
  next ← next_inst_of after s.layout
  place_after after after_pp i b s (λ s'. insert_inst_after fuel after i b s') next

-- the point before that of `before`, and the state after the renumbering at the start of a block
abbrev pub before_point : ProgramPoint → Spiller → Option ℕ → Outcome (ProgramPoint × Spiller)
before_point before_pp s (some prev) = do p ← point_of prev s; done (p, s)
before_point before_pp s none =
    if ltb 0 before_pp.inst
    then done (record { block = before_pp.block; inst = 0 }, renumbered before_pp true s)
    else panic

unfoldable pub insert_inst_before : ℕ → ℕ → ℕ → ℕ → Spiller → Outcome (Option Spiller)
insert_inst_before zero before i b s = done none
insert_inst_before (suc fuel) before i b s = do
  before_pp ← point_of before s
  prev ← prev_inst_of before s.layout
  found ← before_point before_pp s prev
  place i (found.1) (Layout.insert_inst_before before i b)
      (insert_inst_before fuel before i b (renumbered before_pp false (found.1)))
      (between (found.0) before_pp)
