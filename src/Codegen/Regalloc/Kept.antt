-- ===== src/Codegen/Regalloc/Kept.antt =====
-- src/codegen/pass/regalloc.rs: the invariant of an allocation, and that one more assignment keeps it.
use ola_lang.Prelude.{
  never, ℕ, ◌≡◌, refl, sym, ◌∙◌, ap, Bool, true, false, ◌||◌, some, ◌==◌, if◌then◌else◌, Bool-cases,
  Option-cases, ==_iff, inl, inr, ◌⊎◌, arith,
}
use ola_lang.Prelude.Map.{Map, insert}
use ola_lang.Prelude.Outcome.{Outcome, done, ◌>>=◌}
use ola_lang.Codegen.Liveness.{
  Liveness, LiveRange, interfere, merge, or_empty, reg_interferes, assign,
}
use ola_lang.Codegen.Liveness.Ranges.{interfere_sym, reg_interferes-assign}
use ola_lang.Codegen.Regalloc.{Allocation}

-- Of the start `l`: what is assigned keeps apart from one another and from what the registers were
-- taken for at the start.
pub record Apart (l : Liveness) (a : Allocation) : Type 0 where
  pub apart :
      (v w r : ℕ) (v_lr w_lr : LiveRange)
      → (v == w) ≡ false
      → a.assigned_regs v ≡ some r
      → a.assigned_regs w ≡ some r
      → l.vreg_lrs_map v ≡ some v_lr
      → l.vreg_lrs_map w ≡ some w_lr
      → interfere v_lr w_lr ≡ false
  pub from_start :
      (v r : ℕ) (v_lr : LiveRange)
      → a.assigned_regs v ≡ some r
      → l.vreg_lrs_map v ≡ some v_lr
      → reg_interferes l r v ≡ done false

-- `Apart`, with what keeps it: a register interferes with whatever it did at the start, and with
-- whatever one of its virtual registers does.
pub record Kept (l : Liveness) (a : Allocation) : Type 0 where
  pub is_apart : Apart l a
  pub ranges : (v : ℕ) → a.liveness.vreg_lrs_map v ≡ l.vreg_lrs_map v
  pub grows :
      (r w : ℕ) (w_lr : LiveRange)
      → l.vreg_lrs_map w ≡ some w_lr
      → reg_interferes l r w ≡ done true
      → reg_interferes a.liveness r w ≡ done true
  pub covers :
      (v r w : ℕ) (v_lr w_lr : LiveRange)
      → a.assigned_regs v ≡ some r
      → l.vreg_lrs_map v ≡ some v_lr
      → l.vreg_lrs_map w ≡ some w_lr
      → interfere w_lr v_lr ≡ true
      → reg_interferes a.liveness r w ≡ done true

pub reg_interferes-done :
    (l : Liveness) (r v : ℕ) (lr : LiveRange)
    → l.vreg_lrs_map v ≡ some lr
    → (b : Bool) × (reg_interferes l r v ≡ done b)
unfolding reg_interferes
reg_interferes-done l r v lr at = elim (Option-cases (l.reg_lrs_map r)) [
  | inl e ↦ (false, rw (e, reg_interferes) refl)
  | inr (x, e) ↦ (interfere lr x, rw (e, at, reg_interferes) refl)
]

or_true : (b : Bool) → (b || true) ≡ true
or_true b = ground arith

contrary : {m : Outcome Bool} → m ≡ done true → m ≡ done false → ⊥
contrary h k = let t = sym h ∙ k in cc

module _ (l : Liveness) (r v : ℕ) (lr : LiveRange) (at : l.vreg_lrs_map v ≡ some lr) where
  abbrev pub assigned : Liveness
  assigned = record l {
    reg_lrs_map = insert l.reg_lrs_map r (merge (or_empty (l.reg_lrs_map r)) lr);
  }

  pub assign-done : assign l r v ≡ done assigned
  unfolding assign
  assign-done = rw at refl

  module _ (u w : ℕ) (w_lr : LiveRange) (at_w : l.vreg_lrs_map w ≡ some w_lr) where
    still : reg_interferes l u w ≡ done true → reg_interferes assigned u w ≡ done true
    still h =
        let t = reg_interferes-assign l r v lr at u w w_lr true at_w h in
        let t' : reg_interferes assigned u w
            ≡ done (if u == r then true || interfere w_lr lr else true) =
          ap (λ o. o >>= λ l'. reg_interferes l' u w) (sym assign-done) ∙ t in
        t' ∙ elim (Bool-cases (u == r)) [ inl e ↦ rw e refl | inr e ↦ rw e refl ]

  now :
      (w : ℕ) (w_lr : LiveRange)
      → l.vreg_lrs_map w ≡ some w_lr
      → interfere w_lr lr ≡ true
      → reg_interferes assigned r w ≡ done true
  now w w_lr at_w meets =
      let (b, h) = reg_interferes-done l r w w_lr at_w in
      let t = reg_interferes-assign l r v lr at r w w_lr b at_w h in
      let t' : reg_interferes assigned r w ≡ done (if r == r then b || interfere w_lr lr else b) =
        ap (λ o. o >>= λ l'. reg_interferes l' r w) (sym assign-done) ∙ t in
      t' ∙ rw ((==_iff r r).1 refl, meets) (ap done (or_true b))

insert-cases :
    (m : Map ℕ) (v r x r' : ℕ)
    → insert m v r x ≡ some r'
    → ((x ≡ v) × (r' ≡ r)) ⊎ (((x == v) ≡ false) × (m x ≡ some r'))
insert-cases m v r x r' h = elim (Bool-cases (x == v)) [
  | inl e ↦ inl ((==_iff x v).0 e, ground arith)
  | inr e ↦ inr (e, ground arith)
]

some_eq : (x y : LiveRange) → some x ≡ some y → x ≡ y
some_eq x y h = cc

module _ (l : Liveness) (a : Allocation) (k : Kept l a) (r v : ℕ) (lr : LiveRange)
    (at : l.vreg_lrs_map v ≡ some lr) (free : reg_interferes a.liveness r v ≡ done false) where
  abbrev pub given : Allocation
  given = record {
    liveness = assigned a.liveness r v lr (k.ranges v ∙ at);
    assigned_regs = insert a.assigned_regs v r;
  }

  at_now : a.liveness.vreg_lrs_map v ≡ some lr
  at_now = k.ranges v ∙ at

  -- what has the register already does not interfere with the new one
  given-apart :
      (w : ℕ) (w_lr : LiveRange)
      → a.assigned_regs w ≡ some r
      → l.vreg_lrs_map w ≡ some w_lr
      → interfere lr w_lr ≡ false
  given-apart w w_lr has at_w = elim (Bool-cases (interfere lr w_lr)) [
    | inl e ↦ elim (contrary (k.covers w r v w_lr lr has at_w at e) free) [ ]
    | inr e ↦ e
  ]

  same_range : (x : ℕ) (x_lr : LiveRange) → x ≡ v → l.vreg_lrs_map x ≡ some x_lr → x_lr ≡ lr
  same_range x x_lr is_x at_x = some_eq x_lr lr (sym at_x ∙ ap l.vreg_lrs_map is_x ∙ at)

  free_at_start : reg_interferes l r v ≡ done false
  free_at_start =
      let (b, h) = reg_interferes-done l r v lr at in
      elim (Bool-cases b) [
        | inl e ↦ elim (contrary (k.grows r v lr at (h ∙ ap done e)) free) [ ]
        | inr e ↦ h ∙ ap done e
      ]

  given-Apart : Apart l given
  given-Apart = record {
    apart = λ x y r' x_lr y_lr differ has_x has_y at_x at_y.
        elim (insert-cases a.assigned_regs v r x r' has_x) [
          | inl (is_x, is_r) ↦ elim (insert-cases a.assigned_regs v r y r' has_y) [
            | inl (is_y, _) ↦ elim (never (sym differ ∙ (==_iff x y).1 (is_x ∙ sym is_y))) [ ]
            | inr (_, has_y') ↦
                ap (λ t. interfere t y_lr) (same_range x x_lr is_x at_x)
                ∙ given-apart y y_lr (has_y' ∙ ap some is_r) at_y
          ]
          | inr (_, has_x') ↦ elim (insert-cases a.assigned_regs v r y r' has_y) [
            | inl (is_y, is_r) ↦
                interfere_sym x_lr y_lr
                ∙ ap (λ t. interfere t x_lr) (same_range y y_lr is_y at_y)
                ∙ given-apart x x_lr (has_x' ∙ ap some is_r) at_x
            | inr (_, has_y') ↦ k.is_apart.apart x y r' x_lr y_lr differ has_x' has_y' at_x at_y
          ]
        ];
    from_start = λ x r' x_lr has at_x. elim (insert-cases a.assigned_regs v r x r' has) [
      | inl (is_x, is_r) ↦
          ap (λ t. reg_interferes l t x) is_r ∙ ap (reg_interferes l r) is_x ∙ free_at_start
      | inr (_, has') ↦ k.is_apart.from_start x r' x_lr has' at_x
    ];
  }

  pub given-Kept : Kept l given
  given-Kept = record {
    is_apart = given-Apart;
    ranges = k.ranges;
    grows = λ u w w_lr at_w h.
        still a.liveness r v lr at_now u w w_lr (k.ranges w ∙ at_w) (k.grows u w w_lr at_w h);
    covers = λ x r' w x_lr w_lr has at_x at_w meets.
        elim (insert-cases a.assigned_regs v r x r' has) [
          | inl (is_x, is_r) ↦
              ap (λ t. reg_interferes given.liveness t w) is_r
              ∙ now a.liveness r v lr at_now w w_lr (k.ranges w ∙ at_w)
                  (ap (interfere w_lr) (sym (same_range x x_lr is_x at_x)) ∙ meets)
          | inr (_, has') ↦
              still a.liveness r v lr at_now r' w w_lr (k.ranges w ∙ at_w)
                (k.covers x r' w x_lr w_lr has' at_x at_w meets)
        ];
  }
