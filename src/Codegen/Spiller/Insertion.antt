-- ===== src/Codegen/Spiller/Insertion.antt =====
-- src/codegen/pass/spiller.rs: where a new instruction comes to stand, in the list and in the order
-- of the points.
use ola_lang.Prelude.{
  ℕ, suc, ◌+◌, ◌*◌, ◌^◌, ◌<◌, ◌≡◌, refl, sym, ap, ◌∙◌, true, false, Option, none, some, List, [],
  ◌∷◌, ◌++◌, ◌==◌, Option-cases, inl, inr, arith,
}
use mathlib.Core.Path.{subst}
use ola_lang.Prelude.Map.{Map, insert}
use ola_lang.Prelude.Outcome.{Outcome, done, Returns, Returns-bind}
use ola_lang.Codegen.Layout as L
use ola_lang.Codegen.Layout.{Layout, InstNode, next_inst_of, prev_inst_of}
use ola_lang.Codegen.Layout.Segments.{
  Holds, Seg-left, Seg-right, node, head_or, last_or, last_or-snoc,
}
use ola_lang.Codegen.Layout.Edits.{Edited, ne_of_fresh, ne_sym}
use ola_lang.Codegen.Layout.Insertion.After.{insert_inst_after-Edited}
use ola_lang.Codegen.Layout.Insertion.Before.{insert_inst_before-Edited}
use ola_lang.Codegen.Liveness.{
  ProgramPoint, between, pp_lt, moved, step, each, recompute_program_points_after,
}
use ola_lang.Codegen.Liveness.Points.{moved-cases, between-pp_lt, between-moved}
use ola_lang.Codegen.Spiller.{
  Spiller, with_point, renumbered, place, insert_inst_after, insert_inst_before,
}

-- The recursion ends, without a panic, in a state with the property.
abbrev pub Ends : (Spiller → Type 0) → Outcome (Option Spiller) → Type 0
Ends P = Returns (λ o. elim o [ none ↦ ⊥ | some s ↦ P s ])

-- The points of the three instructions ascend.
abbrev pub Ascend : Map ProgramPoint → (x i z : ℕ) → Type 0
Ascend m x i z =
    (p : ProgramPoint) × (r : ProgramPoint) × (q : ProgramPoint) × (m x ≡ some p)
    × (m i ≡ some r)
    × (m z ≡ some q)
    × (pp_lt p r ≡ true)
    × (pp_lt r q ≡ true)

-- In the block, which held `x` and `z` one behind the other, `i` is between the two, in the list as
-- in the order of the points; the other blocks hold what they held.
abbrev pub Inserted : Layout → ℕ → (ys zs : List ℕ) → (x i z : ℕ) → Spiller → Type 0
Inserted l b ys zs x i z s =
    Edited l b ((ys ++ x ∷ []) ++ i ∷ z ∷ zs) s.layout × Ascend s.liveness.inst_to_pp x i z

neighbours :
    (l : Layout) (b : ℕ) (ys zs : List ℕ) (x z : ℕ)
    → Holds l b ((ys ++ x ∷ []) ++ z ∷ zs)
    → (l.instructions x ≡ some (node b (last_or none ys) (some z)))
      × (l.instructions z ≡ some (node b (some x) (head_or zs none)))
neighbours l b ys zs x z h =
    let m = l.instructions in
    let front = Seg-left m b none (ys ++ x ∷ []) (z ∷ zs) none h.seg in
    let (e, _) = Seg-right m b none ys (x ∷ []) (some z) front in
    let (e', _) = Seg-right m b none (ys ++ x ∷ []) (z ∷ zs) none h.seg in
    (e, e' ∙ ap (λ o. some (node b o (head_or zs none))) (last_or-snoc none ys x))

module _ (m : Map ProgramPoint) (x i z : ℕ) (p q r : ProgramPoint) (at_x : m x ≡ some p)
    (at_z : m z ≡ some q) where
  Ascend-insert :
      (x == i) ≡ false
      → (z == i) ≡ false
      → p.inst + q.inst < 2 ^ 32
      → between p q ≡ some r
      → Ascend (insert m i r) x i z
  Ascend-insert x_i z_i small found =
      let (before, after) = between-pp_lt p q r small found in
      (p, r, q, rw (x_i) at_x, ground arith, rw z_i at_z, before, after)

module _ (b i x z : ℕ) (ys zs : List ℕ) (s : Spiller) (p q : ProgramPoint)
    (h : Holds s.layout b ((ys ++ x ∷ []) ++ z ∷ zs)) (fresh : s.layout.instructions i ≡ none)
    (at_x : s.liveness.inst_to_pp x ≡ some p) (at_z : s.liveness.inst_to_pp z ≡ some q)
    (small : p.inst + q.inst < 2 ^ 32) where
  apart : (x == i) ≡ false × (z == i) ≡ false
  apart =
      let (e, e') = neighbours s.layout b ys zs x z h in
      (
        ne_sym i x (ne_of_fresh s.layout.instructions i x _ fresh e),
        ne_sym i z (ne_of_fresh s.layout.instructions i z _ fresh e'),
      )

  place-Inserted :
      (r : ProgramPoint) (linked : Layout → Outcome Layout) (again : Outcome (Option Spiller))
      → between p q ≡ some r
      → Returns (Edited s.layout b ((ys ++ x ∷ []) ++ i ∷ z ∷ zs)) (linked s.layout)
      → Ends (Inserted s.layout b ys zs x i z) (place i s linked again (between p q))
  place-Inserted r linked again found edited = rw found (
      Returns-bind (Edited s.layout b ((ys ++ x ∷ []) ++ i ∷ z ∷ zs)) _ (linked s.layout)
        (λ l. done (some (with_point i r s l))) edited
        (λ l e. (
          e,
          Ascend-insert s.liveness.inst_to_pp x i z p q r at_x at_z (apart.0) (apart.1) small found,
        )))

module _ (b i x z : ℕ) (ys zs : List ℕ) (s : Spiller) (p q : ProgramPoint)
    (h : Holds s.layout b ((ys ++ x ∷ []) ++ z ∷ zs)) (at_x : s.liveness.inst_to_pp x ≡ some p)
    (at_z : s.liveness.inst_to_pp z ≡ some q) where
  after-step :
      (fuel : ℕ)
      → insert_inst_after (suc fuel) x i b s
        ≡ place i s
            (L.insert_inst_after x i b)
            (insert_inst_after fuel x i b (renumbered p false s))
            (between p q)
  unfolding insert_inst_after next_inst_of
  after-step fuel = let (e, _) = neighbours s.layout b ys zs x z h in rw (at_x, e, at_z) refl

  pub before-step :
      (fuel : ℕ)
      → insert_inst_before (suc fuel) z i b s
        ≡ place i s
            (L.insert_inst_before z i b)
            (insert_inst_before fuel z i b (renumbered q false s))
            (between p q)
  unfolding insert_inst_before prev_inst_of
  before-step fuel = let (_, e) = neighbours s.layout b ys zs x z h in rw (at_z, e, at_x) refl

  at_x-moved : (renumbered p false s).liveness.inst_to_pp x ≡ some (moved p false p)
  unfolding recompute_program_points_after
  at_x-moved = rw (at_x, each) refl

  at_z_moved : (renumbered p false s).liveness.inst_to_pp z ≡ some (moved p false q)
  unfolding recompute_program_points_after
  at_z_moved = rw (at_z, each) refl

sum_moved :
    (p q : ProgramPoint)
    → p.block ≡ q.block
    → p.inst < q.inst
    → p.inst + step + q.inst * step < 2 ^ 32
    → (moved p false p).inst + (moved p false q).inst < 2 ^ 32
sum_moved p q same less small =
    let p_at = moved-cases p p false (omega arith) in
    let q_at = moved-cases p q false (omega arith) in ground arith

module _ (b i x z : ℕ) (ys zs : List ℕ) (s : Spiller) (p q : ProgramPoint)
    (h : Holds s.layout b ((ys ++ x ∷ []) ++ z ∷ zs)) (fresh : s.layout.instructions i ≡ none)
    (at_x : s.liveness.inst_to_pp x ≡ some p) (at_z : s.liveness.inst_to_pp z ≡ some q) where
  -- with a point between the two, or after the renumbering
  after_found :
      (fuel : ℕ) (r : ProgramPoint)
      → p.inst + q.inst < 2 ^ 32
      → between p q ≡ some r
      → Ends (Inserted s.layout b ys zs x i z) (insert_inst_after (suc fuel) x i b s)
  after_found fuel r sum found =
      subst (Ends (Inserted s.layout b ys zs x i z))
        (sym (after-step b i x z ys zs s p q h at_x at_z fuel))
        (place-Inserted b i x z ys zs s p q h fresh at_x at_z sum r (L.insert_inst_after x i b)
          (insert_inst_after fuel x i b (renumbered p false s)) found
          (insert_inst_after-Edited s.layout b i x fresh ys zs z h))

module _ (b i x z : ℕ) (ys zs : List ℕ) (s : Spiller) (p q : ProgramPoint)
    (h : Holds s.layout b ((ys ++ x ∷ []) ++ z ∷ zs)) (fresh : s.layout.instructions i ≡ none)
    (at_x : s.liveness.inst_to_pp x ≡ some p) (at_z : s.liveness.inst_to_pp z ≡ some q)
    (same : p.block ≡ q.block) (less : p.inst < q.inst)
    (small : p.inst + step + q.inst * step < 2 ^ 32) where
  -- With two calls of itself at most, `insert_inst_after` ends, and the new instruction stands between
  -- `x` and the instruction behind it, in the list and in the order of the points, where the points
  -- of the two ascend within one block and stay in the bounds of `u32`.
  pub insert_inst_after-Inserted :
      (fuel : ℕ)
      → Ends (Inserted s.layout b ys zs x i z) (insert_inst_after (suc (suc fuel)) x i b s)
  insert_inst_after-Inserted fuel = elim (Option-cases (between p q)) [
    | inr (r, found) ↦
        after_found b i x z ys zs s p q h fresh at_x at_z (suc fuel) r (omega arith) found
    | inl e ↦
        let s' = renumbered p false s in
        elim (Option-cases (between (moved p false p) (moved p false q))) [
          | inr (r, found) ↦
              subst (Ends (Inserted s.layout b ys zs x i z))
                (sym (
                  after-step b i x z ys zs s p q h at_x at_z (suc fuel)
                  ∙ ap
                      (place i s (L.insert_inst_after x i b)
                        (insert_inst_after (suc fuel) x i b s'))
                      e))
                (after_found b i x z ys zs s' (moved p false p) (moved p false q) h fresh
                  (at_x-moved b i x z ys zs s p q h at_x at_z)
                  (at_z_moved b i x z ys zs s p q h at_x at_z) fuel r
                  (sum_moved p q same less small) found)
          | inl e' ↦
              elim (between-moved p p q false (omega arith) (omega arith) refl (sym same)
                (omega arith) less e') [ ]
        ]
  ]

module _ (b i x z : ℕ) (ys zs : List ℕ) (s : Spiller) (p q : ProgramPoint)
    (h : Holds s.layout b ((ys ++ x ∷ []) ++ z ∷ zs)) (fresh : s.layout.instructions i ≡ none)
    (at_x : s.liveness.inst_to_pp x ≡ some p) (at_z : s.liveness.inst_to_pp z ≡ some q)
    (small : p.inst + q.inst < 2 ^ 32) where
  -- with a point between the two
  pub before_found :
      (fuel : ℕ) (r : ProgramPoint)
      → between p q ≡ some r
      → Ends (Inserted s.layout b ys zs x i z) (insert_inst_before (suc fuel) z i b s)
  before_found fuel r found =
      subst (Ends (Inserted s.layout b ys zs x i z))
        (sym (before-step b i x z ys zs s p q h at_x at_z fuel))
        (place-Inserted b i x z ys zs s p q h fresh at_x at_z small r (L.insert_inst_before z i b)
          (insert_inst_before fuel z i b (renumbered q false s)) found
          (insert_inst_before-Edited s.layout b i z zs fresh (ys ++ x ∷ []) h))
