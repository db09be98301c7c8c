-- ===== src/Codegen/Liveness/Points.antt =====
-- src/codegen/pass/liveness.rs: points between points, and the renumbering that makes room.
use ola_lang.Prelude.{
  ◌+◌, ◌-◌, ◌*◌, ◌/◌, ◌%◌, ◌^◌, ◌≤◌, ◌<◌, ◌≡◌, ◌≢◌, Bool, true, Option, none, some, if◌then◌else◌,
  arith, inl, inr, ◌⊎◌, ◌↔◌, sym, ◌∙◌,
}
use ola_lang.Codegen.Liveness.{ProgramPoint, pp_lt, between, moved, step}

pub pp_lt_iff :
    (p q : ProgramPoint)
    → (pp_lt p q ≡ true) ↔ ((p.block < q.block) ⊎ ((p.block ≡ q.block) × (p.inst < q.inst)))
pp_lt_iff p q = ground arith

middle : (p q : ProgramPoint) → Option ProgramPoint
middle p q = some (record { block = p.block; inst = (q.inst + p.inst) % 2 ^ 32 / 2 })

between-cases :
    (p q : ProgramPoint)
    → ((between p q ≡ none) × ((p.block ≢ q.block) ⊎ (q.inst ≤ p.inst + 1)))
      ⊎ ((between p q ≡ middle p q) × (p.block ≡ q.block) × (p.inst + 1 < q.inst))
unfolding between middle
between-cases p q = ground arith

-- A point that is found lies strictly between the two, unless their sum passes the bounds of `u32`.
pub between-pp_lt :
    (p q r : ProgramPoint)
    → p.inst + q.inst < 2 ^ 32
    → between p q ≡ some r
    → (pp_lt p r ≡ true) × (pp_lt r q ≡ true)
unfolding between
between-pp_lt p q r small h = elim (between-cases p q) [
  | inl (e, _) ↦ cc
  | inr (e, same, room) ↦
      let at : middle p q ≡ some r = sym e ∙ h in
      let block : p.block ≡ r.block = ground arith in
      let inst : (q.inst + p.inst) % 2 ^ 32 / 2 ≡ r.inst = ground arith in
      (
        (pp_lt_iff p r).1 (inr (block, omega arith)),
        (pp_lt_iff r q).1 (inr (sym block ∙ same, omega arith)),
      )
]

-- In one block a point is found exactly where the two are two numbers or more apart.
pub between-none :
    (p q : ProgramPoint) → p.block ≡ q.block → (between p q ≡ none) ↔ (q.inst ≤ p.inst + 1)
unfolding between
between-none p q same = elim (between-cases p q) [
  | inl (e, far) ↦ ((λ _. ground arith), λ _. e)
  | inr (e, _, room) ↦ ((λ k. ground arith), λ k. absurd (omega arith))
]

-- A point stays, or it is one of the block of `from` that is not before it.
pub moved-cases :
    (from p : ProgramPoint) (one_more : Bool)
    → from.inst + step + p.inst * step < 2 ^ 32
    → (((moved from one_more p).block ≡ p.block)
        × ((moved from one_more p).inst ≡ p.inst)
        × ((p.block ≢ from.block) ⊎ (p.inst < from.inst)))
      ⊎ (((moved from one_more p).block ≡ p.block)
          × ((moved from one_more p).inst
              ≡ from.inst + (if one_more then step else 0) + (p.inst - from.inst) * step)
          × (p.block ≡ from.block)
          × (from.inst ≤ p.inst))
unfolding moved
moved-cases from p one_more small = ground arith

-- The renumbering keeps the order of points, while they stay in the bounds of `u32`.
pub moved-pp_lt :
    (from p q : ProgramPoint) (one_more : Bool)
    → from.inst + step + p.inst * step < 2 ^ 32
    → from.inst + step + q.inst * step < 2 ^ 32
    → pp_lt p q ≡ true
    → pp_lt (moved from one_more p) (moved from one_more q) ≡ true
moved-pp_lt from p q one_more p_small q_small h =
    let before = (pp_lt_iff p q).0 h in
    let p_at = moved-cases from p one_more p_small in
    let q_at = moved-cases from q one_more q_small in
    (pp_lt_iff (moved from one_more p) (moved from one_more q)).1 (ground arith)

-- Between two different points of the block of `from` that are not before it, there is room after the
-- renumbering, while they stay in the bounds of `u32`.
pub between-moved :
    (from p q : ProgramPoint) (one_more : Bool)
    → from.inst + step + p.inst * step < 2 ^ 32
    → from.inst + step + q.inst * step < 2 ^ 32
    → p.block ≡ from.block
    → q.block ≡ from.block
    → from.inst ≤ p.inst
    → p.inst < q.inst
    → between (moved from one_more p) (moved from one_more q) ≢ none
between-moved from p q one_more p_small q_small p_in q_in after h none_there =
    let p_at = moved-cases from p one_more p_small in
    let q_at = moved-cases from q one_more q_small in
    let same : (moved from one_more p).block ≡ (moved from one_more q).block = ground arith in
    let close = (between-none (moved from one_more p) (moved from one_more q) same).0 none_there in
    ground arith
