-- ===== src/Codegen/Liveness/Users/First.antt =====
-- src/codegen/pass/liveness.rs: the first of the points of the users that are chosen.
use ola_lang.Prelude.{
  never, ◌≡◌, refl, sym, ap, ◌∙◌, Bool, true, false, Option, none, some, List, [], ◌∷◌,
  if◌then◌else◌, Bool-cases, inl, inr, ◌⊎◌, arith,
}
use mathlib.Core.Path.{subst}
use mathlib.Core.List.{Memᴰ}
use mathlib.Core.List.Memᴰ.{head, tail, not-nil, cases_cons}
use ola_lang.Prelude.Map.{Map}
use ola_lang.Codegen.Liveness.{ProgramPoint, pp_lt}
use ola_lang.Codegen.Liveness.Users.{VRegUser, pick}

pub pp_lt_trans : (p q r : ProgramPoint) → pp_lt q p ≡ false → pp_lt r q ≡ false → pp_lt r p ≡ false
pp_lt_trans p q r h k = ground arith

pub pp_lt_irrefl : (p : ProgramPoint) → pp_lt p p ≡ false
pp_lt_irrefl p = ground arith

pub pp_lt_asym : (p q : ProgramPoint) → pp_lt p q ≡ true → pp_lt q p ≡ false
pp_lt_asym p q h = ground arith

nothing : (q : ProgramPoint) → none ≡ some q → ⊥
nothing q h = cc

same_point : (p q : ProgramPoint) → some p ≡ some q → p ≡ q
same_point p q h = cc

-- the users that are definitions, and those that are uses
abbrev pub reads_only : VRegUser → Bool
reads_only u = if u.write then false else u.read

abbrev pub writes : VRegUser → Bool
writes u = u.write

-- The point is that of a chosen user, and none of the others' goes before it.
abbrev pub IsFirstOf :
    Map ProgramPoint
    → (VRegUser → Bool)
    → (ProgramPoint → ProgramPoint → Bool)
    → List VRegUser
    → ProgramPoint
    → Type 0
IsFirstOf points sel before users q =
    ((u : VRegUser) × Memᴰ u users × (sel u ≡ true) × (points u.inst_id ≡ some q))
    × ((u : VRegUser) (p : ProgramPoint)
        → Memᴰ u users
        → sel u ≡ true
        → points u.inst_id ≡ some p
        → before p q ≡ false)

module _ (points : Map ProgramPoint) (sel : VRegUser → Bool)
    (before : ProgramPoint → ProgramPoint → Bool) (irrefl : (p : ProgramPoint) → before p p ≡ false)
    (asym : (p q : ProgramPoint) → before p q ≡ true → before q p ≡ false)
    (trans : (p q r : ProgramPoint)
      → before q p ≡ false
      → before r q ≡ false
      → before r p ≡ false) where
  -- From `o` on, `o'` is the first of the points of the chosen users.
  pub record Found (users : List VRegUser) (o o' : Option ProgramPoint) : Type 0 where
    pub kept :
        (p : ProgramPoint) → o ≡ some p → (q : ProgramPoint) × (o' ≡ some q) × (before p q ≡ false)
    pub each :
        (u : VRegUser) (p : ProgramPoint)
        → Memᴰ u users
        → sel u ≡ true
        → points u.inst_id ≡ some p
        → (q : ProgramPoint) × (o' ≡ some q) × (before p q ≡ false)
    pub one :
        (q : ProgramPoint)
        → o' ≡ some q
        → (o ≡ some q)
          ⊎ ((u : VRegUser) × Memᴰ u users × (sel u ≡ true) × (points u.inst_id ≡ some q))

  pick-new : (o : Option ProgramPoint) (p : ProgramPoint) → before p (pick before o p) ≡ false
  pick-new none p = irrefl p
  pick-new (some q) p = elim (Bool-cases (before p q)) [
    | inl e ↦ rw e (irrefl p)
    | inr e ↦ ap (λ t. before p (if t then p else q)) e ∙ e
  ]

  pick-old : (q p : ProgramPoint) → before q (pick before (some q) p) ≡ false
  pick-old q p = elim (Bool-cases (before p q)) [
    | inl e ↦ ap (λ t. before q (if t then p else q)) e ∙ asym p q e
    | inr e ↦ ap (λ t. before q (if t then p else q)) e ∙ irrefl q
  ]

  pick-cases :
      (o : Option ProgramPoint) (p : ProgramPoint)
      → (pick before o p ≡ p) ⊎ (o ≡ some (pick before o p))
  pick-cases none p = inl refl
  pick-cases (some q) p = elim (Bool-cases (before p q)) [
    | inl e ↦ inl (ap (λ t. if t then p else q) e)
    | inr e ↦ inr (ap (λ t. some (if t then p else q)) (sym e))
  ]

  pub Found-nil : (o : Option ProgramPoint) → Found [] o o
  Found-nil o = record {
    kept = λ p e. (p, e, irrefl p);
    each = λ u p n. elim (not-nil n) [ ];
    one = λ q e. inl e;
  }

  module _ (u : VRegUser) (users : List VRegUser) (o o' : Option ProgramPoint) where
    pub Found-skipped : sel u ≡ false → Found users o o' → Found (u ∷ users) o o'
    Found-skipped no_sel f = record {
      kept = f.kept;
      each = λ u' p n chosen at. elim (cases_cons n) [
        | inl e ↦ elim (never (sym no_sel ∙ ap sel (sym e) ∙ chosen)) [ ]
        | inr n' ↦ f.each u' p n' chosen at
      ];
      one = λ q e. elim (f.one q e) [ inl h ↦ inl h | inr (u', n, h, k) ↦ inr (u', tail n, h, k) ];
    }

    pub Found-chosen :
        (p : ProgramPoint)
        → sel u ≡ true
        → points u.inst_id ≡ some p
        → Found users (some (pick before o p)) o'
        → Found (u ∷ users) o o'
    Found-chosen p chosen at f =
        let (q, e, first) = f.kept (pick before o p) refl in
        record {
          kept = λ p' is. (
            q,
            e,
            trans q (pick before o p) p' first
                (subst (λ t. before p' (pick before t p) ≡ false) (sym is) (pick-old p' p)),
          );
          each = λ u' p' n chosen' at'. elim (cases_cons n) [
            | inl same ↦ (
              q,
              e,
              trans q (pick before o p) p' first (
                  subst (λ t. before t (pick before o p) ≡ false)
                    (sym (same_point p' p (sym at' ∙ ap (λ w. points w.inst_id) same ∙ at)))
                    (pick-new o p)),
            )
            | inr n' ↦ f.each u' p' n' chosen' at'
          ];
          one = λ r is. elim (f.one r is) [
            | inl h ↦ elim (pick-cases o p) [
              | inl new ↦ inr (u, head refl, chosen, at ∙ ap some (sym new) ∙ h)
              | inr old ↦ inl (old ∙ h)
            ]
            | inr (u', n, h, k) ↦ inr (u', tail n, h, k)
          ];
        }

  pub Found-IsFirstOf :
      (users : List VRegUser) (o : Option ProgramPoint) (q : ProgramPoint)
      → Found users none o
      → o ≡ some q
      → IsFirstOf points sel before users q
  Found-IsFirstOf users o q f e = (
    elim (f.one q e) [ inl h ↦ elim (nothing q h) [ ] | inr found ↦ found ],
    λ u p n chosen at.
        let (q', e', first) = f.each u p n chosen at in
        ap (before p) (same_point q q' (sym e ∙ e')) ∙ first,
  )
