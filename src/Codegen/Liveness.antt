-- ===== src/Codegen/Liveness.antt =====
-- src/codegen/pass/liveness.rs: program points, the live ranges of registers and virtual registers,
-- and the calls by which the register allocator and the spiller use them. A `u32` keeps its
-- wrap-around. A register unit and a virtual register are numbers.
pub mod Points
pub mod Propagation
pub mod Ranges
pub mod Users
use Prim.Native.Nat.{Ordering, lt, eq, gt}
use ola_lang.Prelude.{
  ℕ, ◌+◌, ◌-◌, ◌*◌, ◌/◌, ◌%◌, ◌^◌, Bool, true, false, ◌&&◌, ◌||◌, Option, none, some, List, [], ◌∷◌,
  ◌++◌, ltb, leb, ◌==◌, if◌then◌else◌,
}
use ola_lang.Prelude.Map.{Map, insert}
use ola_lang.Prelude.Outcome.{Outcome, done, unwrap, ◌>>=◌}

pub record ProgramPoint : Type 0 where
  pub block : ℕ
  pub inst : ℕ

pub record LiveSegment : Type 0 where
  pub start : ProgramPoint
  pub end : ProgramPoint

abbrev pub LiveRange : Type 0
LiveRange = List LiveSegment

abbrev pub step : ℕ
step = 16

-- `ProgramPoint::partial_cmp`, and `<` by it
abbrev pub cmp : ProgramPoint → ProgramPoint → Ordering
cmp p q =
    if ltb p.block q.block
    then lt
    else if ltb q.block p.block
    then gt
    else if ltb p.inst q.inst
    then lt
    else if p.inst == q.inst
    then eq
    else gt

abbrev pub is_less : Ordering → Bool
is_less lt = true
is_less eq = false
is_less gt = false

abbrev pub pp_lt : ProgramPoint → ProgramPoint → Bool
pp_lt p q = is_less (cmp p q)

unfoldable pub between : ProgramPoint → ProgramPoint → Option ProgramPoint
between prev next =
    if prev.block == next.block
    then (if ltb next.inst prev.inst
        then none
        else if leb (next.inst - prev.inst) 1
        then none
        else some (record { block = prev.block; inst = (next.inst + prev.inst) % 2 ^ 32 / 2 }))
    else none

-- `LiveSegment::interfere`
abbrev pub overlaps : LiveSegment → LiveSegment → Bool
overlaps x y = pp_lt x.start y.end && pp_lt y.start x.end

unfoldable pub interfere_with_segment : LiveRange → LiveSegment → Bool
interfere_with_segment [] y = false
interfere_with_segment (x ∷ xs) y = overlaps x y || interfere_with_segment xs y

-- the inner loop of `LiveRange::interfere`
unfoldable pub meets : LiveSegment → LiveRange → Bool
meets x [] = false
meets x (y ∷ ys) = overlaps x y || meets x ys

unfoldable pub interfere : LiveRange → LiveRange → Bool
unfolding meets
interfere [] other = false
interfere (x ∷ xs) other = meets x other || interfere xs other

-- `sort_by` of the starts, which is stable
unfoldable pub insert_by_start : LiveSegment → LiveRange → LiveRange
insert_by_start x [] = x ∷ []
insert_by_start x (y ∷ ys) =
    let rest = insert_by_start x ys in if pp_lt y.start x.start then y ∷ rest else x ∷ y ∷ ys

unfoldable pub sort_by_start : LiveRange → LiveRange
unfolding insert_by_start
sort_by_start [] = []
sort_by_start (x ∷ xs) = insert_by_start x (sort_by_start xs)

unfoldable pub merge : LiveRange → LiveRange → LiveRange
unfolding sort_by_start
merge xs ys = sort_by_start (xs ++ ys)

-- The ranges of `Liveness`, and the points of the instructions.
pub record Liveness : Type 0 where
  pub vreg_lrs_map : Map LiveRange
  pub reg_lrs_map : Map LiveRange
  pub inst_to_pp : Map ProgramPoint

-- `Liveness::interfere` of a register unit and a virtual register
unfoldable pub reg_interferes : Liveness → ℕ → ℕ → Outcome Bool
unfolding interfere
reg_interferes l reg vreg = elim (l.reg_lrs_map reg) [
  | none ↦ done false
  | some reg_lr ↦ do vreg_lr ← unwrap (l.vreg_lrs_map vreg); done (interfere vreg_lr reg_lr)
]

abbrev pub or_empty : Option LiveRange → LiveRange
or_empty none = []
or_empty (some lr) = lr

unfoldable pub assign : Liveness → ℕ → ℕ → Outcome Liveness
unfolding merge
assign l reg vreg = do
  vreg_lr ← unwrap (l.vreg_lrs_map vreg)
  done (record l {
    reg_lrs_map = insert l.reg_lrs_map reg (merge (or_empty (l.reg_lrs_map reg)) vreg_lr);
  })

-- The new place of a point of the block of `from` that is not before `from`
unfoldable pub moved : ProgramPoint → Bool → ProgramPoint → ProgramPoint
moved from one_more p =
    if (p.block == from.block) && leb from.inst p.inst
    then record p {
      inst =
          ((from.inst + (if one_more then step else 0)) % 2 ^ 32
            + (p.inst - from.inst) * step % 2 ^ 32)
          % 2 ^ 32;
    }
    else p

abbrev moved_range : ProgramPoint → Bool → LiveRange → LiveRange
moved_range from one_more [] = []
moved_range from one_more (x ∷ xs) =
    record { start = moved from one_more x.start; end = moved from one_more x.end }
    ∷ moved_range from one_more xs

-- the values of a map, changed one by one
abbrev pub each {ℓ} : {V : Type ℓ} → (V → V) → Map V → Map V
each f m k = elim (m k) [ none ↦ none | some v ↦ some (f v) ]

unfoldable pub recompute_program_points_after : Liveness → ProgramPoint → Bool → Liveness
unfolding moved
recompute_program_points_after l from one_more = record {
  inst_to_pp = each (moved from one_more) l.inst_to_pp;
  reg_lrs_map = each (moved_range from one_more) l.reg_lrs_map;
  vreg_lrs_map = each (moved_range from one_more) l.vreg_lrs_map;
}
