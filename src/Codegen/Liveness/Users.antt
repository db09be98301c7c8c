-- ===== src/Codegen/Liveness/Users.antt =====
-- src/codegen/pass/liveness.rs: the range of a virtual register that the spiller makes, from the
-- instructions that use it (`compute_live_ranges`). The users are those of
-- src/codegen/register/mod.rs.
pub mod Bounds
pub mod First
use ola_lang.Prelude.{ℕ, Bool, true, false, Option, none, some, List, [], ◌∷◌, ◌==◌, if◌then◌else◌}
use ola_lang.Prelude.Map.{Map, insert}
use ola_lang.Prelude.Outcome.{Outcome, done, unwrap, ◌>>=◌}
use ola_lang.Codegen.Liveness.{ProgramPoint, Liveness, pp_lt}

pub record VRegUser : Type 0 where
  pub inst_id : ℕ
  pub read : Bool
  pub write : Bool

-- what was found, or a point that goes before it
abbrev pub pick :
    (ProgramPoint → ProgramPoint → Bool) → Option ProgramPoint → ProgramPoint → ProgramPoint
pick before none p = p
pick before (some q) p = if before p q then p else q

abbrev pub earlier : Option ProgramPoint → ProgramPoint → ProgramPoint
earlier = pick pp_lt

abbrev pub pp_gt : ProgramPoint → ProgramPoint → Bool
pp_gt p q = pp_lt q p

abbrev pub later : Option ProgramPoint → ProgramPoint → ProgramPoint
later = pick pp_gt

-- the first definition and the last use that are found
pub record Extent : Type 0 where
  pub def_pp : Option ProgramPoint
  pub use_pp : Option ProgramPoint

-- An instruction that writes the register counts as a definition only.
abbrev pub extended : VRegUser → ProgramPoint → Extent → Extent
extended user pp x =
    if user.write
    then record x { def_pp = some (earlier x.def_pp pp) }
    else if user.read
    then record x { use_pp = some (later x.use_pp pp) }
    else x

unfoldable pub extent : Map ProgramPoint → List VRegUser → Extent → Outcome Extent
extent points [] x = done x
extent points (user ∷ users) x = do
  pp ← unwrap (points user.inst_id)
  extent points users (extended user pp x)

-- the range of the virtual register, of one segment
abbrev pub with_range : Liveness → ℕ → Extent → Outcome Liveness
with_range l vreg x = do
  start ← unwrap x.def_pp
  end ← unwrap x.use_pp
  done (record l {
    vreg_lrs_map = insert l.vreg_lrs_map vreg (record { start = start; end = end } ∷ []);
  })

unfoldable pub compute_live_ranges : Liveness → List VRegUser → ℕ → Outcome Liveness
unfolding extent
compute_live_ranges l users vreg = do
  x ← extent l.inst_to_pp users (record { def_pp = none; use_pp = none })
  with_range l vreg x
