-- ===== src/Codegen/Liveness/Users/Bounds.antt =====
-- src/codegen/pass/liveness.rs: the computed range goes from the first definition to the last use.
use ola_lang.Prelude.{
  never, ℕ, ◌≡◌, refl, sym, ap, ◌∙◌, true, false, Option, none, some, List, [], ◌∷◌, Bool-cases,
  ==_iff, inl, inr,
}
use mathlib.Core.Path.{subst}
use mathlib.Core.List.{Memᴰ}
use mathlib.Core.List.Memᴰ.{head, tail}
use ola_lang.Prelude.Map.{Map}
use ola_lang.Prelude.Outcome.{unwrap, ◌>>=◌, Returns, Returns-mono, Returns-bind}
use ola_lang.Codegen.Liveness.{ProgramPoint, Liveness, LiveSegment, pp_lt}
use ola_lang.Codegen.Liveness.Users.{
  VRegUser, Extent, pick, pp_gt, extended, extent, with_range, compute_live_ranges,
}
use ola_lang.Codegen.Liveness.Users.First.{
  pp_lt_irrefl, pp_lt_asym, pp_lt_trans, reads_only, writes, Found, Found-nil, Found-skipped,
  Found-chosen, IsFirstOf, Found-IsFirstOf,
}

reads_only-write : (u : VRegUser) → u.write ≡ true → reads_only u ≡ false
reads_only-write u e = rw e refl

reads_only-other : (u : VRegUser) → u.write ≡ false → reads_only u ≡ u.read
reads_only-other u e = rw e refl

module _ (u : VRegUser) (p : ProgramPoint) (x : Extent) where
  def_pp-write : writes u ≡ true → (extended u p x).def_pp ≡ some (pick pp_lt x.def_pp p)
  def_pp-write e = rw e refl

  def_pp-other : writes u ≡ false → (extended u p x).def_pp ≡ x.def_pp
  def_pp-other e = elim (Bool-cases u.read) [ inl r ↦ rw (e, r) refl | inr r ↦ rw (e, r) refl ]

  use_pp-read : reads_only u ≡ true → (extended u p x).use_pp ≡ some (pick pp_gt x.use_pp p)
  use_pp-read h = elim (Bool-cases u.write) [
    | inl e ↦ elim (never (sym (reads_only-write u e) ∙ h)) [ ]
    | inr e ↦ rw (e, sym (reads_only-other u e) ∙ h) refl
  ]

  use_pp-other : reads_only u ≡ false → (extended u p x).use_pp ≡ x.use_pp
  use_pp-other h = elim (Bool-cases u.write) [
    | inl e ↦ rw e refl
    | inr e ↦ rw (e, sym (reads_only-other u e) ∙ h) refl
  ]

module _ (points : Map ProgramPoint) where
  abbrev FoundDef : List VRegUser → (o o' : Option ProgramPoint) → Type 0
  FoundDef = Found points writes pp_lt pp_lt_irrefl pp_lt_asym pp_lt_trans

  gt_asym : (p q : ProgramPoint) → pp_gt p q ≡ true → pp_gt q p ≡ false
  gt_asym p q = pp_lt_asym q p

  gt_trans : (p q r : ProgramPoint) → pp_gt q p ≡ false → pp_gt r q ≡ false → pp_gt r p ≡ false
  gt_trans p q r h k = pp_lt_trans r q p k h

  abbrev FoundUse : List VRegUser → (o o' : Option ProgramPoint) → Type 0
  FoundUse = Found points reads_only pp_gt pp_lt_irrefl gt_asym gt_trans

  module _ (u : VRegUser) (users : List VRegUser) (p : ProgramPoint) (x x' : Extent)
      (at : points u.inst_id ≡ some p) where
    def_turn :
        FoundDef users (extended u p x).def_pp x'.def_pp → FoundDef (u ∷ users) x.def_pp x'.def_pp
    def_turn f = elim (Bool-cases (writes u)) [
      | inl e ↦
          Found-chosen points writes pp_lt pp_lt_irrefl pp_lt_asym pp_lt_trans u users x.def_pp
            x'.def_pp p e at (subst (λ o. FoundDef users o x'.def_pp) (def_pp-write u p x e) f)
      | inr e ↦
          Found-skipped points writes pp_lt pp_lt_irrefl pp_lt_asym pp_lt_trans u users x.def_pp
            x'.def_pp e (subst (λ o. FoundDef users o x'.def_pp) (def_pp-other u p x e) f)
    ]

    use_turn :
        FoundUse users (extended u p x).use_pp x'.use_pp → FoundUse (u ∷ users) x.use_pp x'.use_pp
    use_turn f = elim (Bool-cases (reads_only u)) [
      | inl e ↦
          Found-chosen points reads_only pp_gt pp_lt_irrefl gt_asym gt_trans u users x.use_pp
            x'.use_pp p e at (subst (λ o. FoundUse users o x'.use_pp) (use_pp-read u p x e) f)
      | inr e ↦
          Found-skipped points reads_only pp_gt pp_lt_irrefl gt_asym gt_trans u users x.use_pp
            x'.use_pp e (subst (λ o. FoundUse users o x'.use_pp) (use_pp-other u p x e) f)
    ]

  abbrev Ranged : List VRegUser → Extent → Extent → Type 0
  Ranged users x x' = FoundDef users x.def_pp x'.def_pp × FoundUse users x.use_pp x'.use_pp

  extent-Ranged :
      (users : List VRegUser) (x : Extent)
      → ((u : VRegUser) → Memᴰ u users → (p : ProgramPoint) × (points u.inst_id ≡ some p))
      → Returns (Ranged users x) (extent points users x)
  unfolding extent
  extent-Ranged [] x known = (
    Found-nil points writes pp_lt pp_lt_irrefl pp_lt_asym pp_lt_trans x.def_pp,
    Found-nil points reads_only pp_gt pp_lt_irrefl gt_asym gt_trans x.use_pp,
  )
  extent-Ranged (u ∷ users) x known =
      let (p, at) = known u (head refl) in
      subst (Returns (Ranged (u ∷ users) x))
        (sym (ap (λ o. unwrap o >>= λ pp. extent points users (extended u pp x)) at))
        (Returns-mono (Ranged users (extended u p x)) (Ranged (u ∷ users) x)
          (extent points users (extended u p x))
          (extent-Ranged users (extended u p x) (λ w n. known w (tail n)))
          (λ x' (f, g). (def_turn u users p x x' at f, use_turn u users p x x' at g)))

module _ (l : Liveness) (vreg : ℕ) (users : List VRegUser) where
  abbrev pub FromFirstToLast : Liveness → Type 0
  FromFirstToLast l' =
      (s : LiveSegment) × (l'.vreg_lrs_map vreg ≡ some (s ∷ []))
      × IsFirstOf l.inst_to_pp writes pp_lt users s.start
      × IsFirstOf l.inst_to_pp reads_only pp_gt users s.end

  module _
      (known : (u : VRegUser)
        → Memᴰ u users
        → (p : ProgramPoint) × (l.inst_to_pp u.inst_id ≡ some p))
      (d : VRegUser) (d_in : Memᴰ d users) (d_writes : writes d ≡ true) (r : VRegUser)
      (r_in : Memᴰ r users) (r_reads : reads_only r ≡ true) where
    -- Of users that have points, of which some writes the register and some only reads it, the range
    -- is computed, as one segment from the first point of those that write it to the last point of
    -- those that only read it.
    pub compute_live_ranges-FromFirstToLast :
        Returns FromFirstToLast (compute_live_ranges l users vreg)
    unfolding compute_live_ranges
    compute_live_ranges-FromFirstToLast =
        let points = l.inst_to_pp in
        let empty : Extent = record { def_pp = none; use_pp = none } in
        Returns-bind (Ranged points users empty) FromFirstToLast (extent points users empty)
          (with_range l vreg) (extent-Ranged points users empty known)
          (λ x (f, g).
            let (d_pp, d_at) = known d d_in in
            let (r_pp, r_at) = known r r_in in
            let (start, e, _) = f.each d d_pp d_in d_writes d_at in
            let (end, e', _) = g.each r r_pp r_in r_reads r_at in
            rw (e, e')
              (
                record { start = start; end = end },
                rw ((==_iff vreg vreg).1 refl) refl,
                Found-IsFirstOf points writes pp_lt pp_lt_irrefl pp_lt_asym pp_lt_trans users
                    x.def_pp start f e,
                Found-IsFirstOf points reads_only pp_gt pp_lt_irrefl (gt_asym points)
                    (gt_trans points) users x.use_pp end g e',
              ))
