-- ===== src/Codegen/Spiller/Endless.antt =====
-- src/codegen/pass/spiller.rs: when `insert_inst_before` comes to an end.
use ola_lang.Prelude.{
  ℕ, zero, suc, ◌+◌, ◌^◌, ◌<◌, ◌≤◌, ◌≡◌, refl, ap, ◌∙◌, false, none, some, List, [], ◌∷◌, ◌++◌,
  Option-cases, Bool-cases, ltb, ltb→lt, if◌then◌else◌, inl, inr, arith,
}
use ola_lang.Prelude.Outcome.{done}
use ola_lang.Codegen.Layout as L
use ola_lang.Codegen.Layout.Segments.{Holds}
use ola_lang.Codegen.Liveness.{ProgramPoint, between, moved, each, recompute_program_points_after}
use ola_lang.Codegen.Liveness.Points.{between-none}
use ola_lang.Codegen.Spiller.{Spiller, place, renumbered, insert_inst_before}
use ola_lang.Codegen.Spiller.Insertion.{Ends, Inserted, before-step, before_found}

-- a renumbering from the point `q` on leaves `q` and what is before it
moved-from : (q : ProgramPoint) → q.inst < 2 ^ 32 → moved q false q ≡ q
unfolding moved
moved-from q small = ground arith

moved-before : (p q : ProgramPoint) → p.inst < q.inst → moved q false p ≡ p
unfolding moved
moved-before p q less = ground arith

nothing_between : (p q : ProgramPoint) → q.inst ≤ p.inst + 1 → p.inst + 1 < q.inst → ⊥
nothing_between p q h k = omega arith

not_below : (m n : ℕ) → ltb m n ≡ false → n ≤ m
not_below m n h = ground arith

endless :
    (b i x z : ℕ) (ys zs : List ℕ) (p q : ProgramPoint)
    → p.inst < q.inst
    → q.inst < 2 ^ 32
    → between p q ≡ none
    → (fuel : ℕ) (s : Spiller) → Holds s.layout b ((ys ++ x ∷ []) ++ z ∷ zs)
    → s.liveness.inst_to_pp x ≡ some p
    → s.liveness.inst_to_pp z ≡ some q
    → insert_inst_before fuel z i b s ≡ done none
unfolding insert_inst_before recompute_program_points_after
endless b i x z ys zs p q less small e zero s h at_x at_z = refl
endless b i x z ys zs p q less small e (suc fuel) s h at_x at_z =
    let s' = renumbered q false s in
    before-step b i x z ys zs s p q h at_x at_z fuel
    ∙ ap (place i s (L.insert_inst_before z i b) (insert_inst_before fuel z i b s')) e
    ∙ endless b i x z ys zs p q less small e fuel s' h
        (rw (at_x, each) (ap some (moved-before p q less)))
        (rw (at_z, each) (ap some (moved-from q small)))

module _ (b i x z : ℕ) (ys zs : List ℕ) (s : Spiller) (p q : ProgramPoint)
    (h : Holds s.layout b ((ys ++ x ∷ []) ++ z ∷ zs)) (fresh : s.layout.instructions i ≡ none)
    (at_x : s.liveness.inst_to_pp x ≡ some p) (at_z : s.liveness.inst_to_pp z ≡ some q)
    (same : p.block ≡ q.block) (less : p.inst < q.inst) (small : p.inst + q.inst < 2 ^ 32) where
  -- The instruction `x` stands before `z` in its block, with a smaller point, and the sum of the two
  -- is below 2^32. Where a number is free between the two points, `insert_inst_before` ends at once,
  -- and the new instruction stands between `x` and `z`, in the list and in the order of the points.
  -- Where none is free, the function calls itself without end: no amount of fuel is enough.
  pub insert_inst_before-Inserted :
      (fuel : ℕ)
      → if ltb (p.inst + 1) q.inst
        then Ends (Inserted s.layout b ys zs x i z) (insert_inst_before (suc fuel) z i b s)
        else (insert_inst_before fuel z i b s ≡ done none)
  insert_inst_before-Inserted fuel = elim (Bool-cases (ltb (p.inst + 1) q.inst)) [
    | inl room ↦ rw room (elim (Option-cases (between p q)) [
      | inr (r, found) ↦ before_found b i x z ys zs s p q h fresh at_x at_z small fuel r found
      | inl e ↦
          let close = (between-none p q same).0 e in
          elim (nothing_between p q close (ltb→lt (p.inst + 1) q.inst room)) [ ]
    ])
    | inr none_free ↦ rw none_free (
        endless b i x z ys zs p q less (omega arith)
          ((between-none p q same).1 (not_below (p.inst + 1) q.inst none_free)) fuel s h at_x at_z)
  ]
