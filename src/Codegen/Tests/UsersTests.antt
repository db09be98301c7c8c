-- ===== src/Codegen/Tests/UsersTests.antt =====
-- src/codegen/pass/liveness.rs: the range of a register that one instruction writes and two read.
use ola_lang.Prelude.{◌≡◌, refl, sym, true, false, none, some, List, [], ◌∷◌, inl, inr}
use mathlib.Core.Path.{subst}
use mathlib.Core.List.{Memᴰ}
use mathlib.Core.List.Memᴰ.{head, tail, not-nil, cases_cons}
use ola_lang.Prelude.Map.{insert}
use ola_lang.Prelude.Outcome.{done, ◌>>=◌, Returns}
use ola_lang.Codegen.Liveness.{Liveness, ProgramPoint}
use ola_lang.Codegen.Liveness.Users.{VRegUser, compute_live_ranges}
use ola_lang.Codegen.Liveness.Users.Bounds.{FromFirstToLast, compute_live_ranges-FromFirstToLast}
use ola_lang.Codegen.Tests.LivenessTests.{point, range}

abbrev writer : VRegUser
writer = record { inst_id = 1; read = false; write = true }

abbrev near : VRegUser
near = record { inst_id = 2; read = true; write = false }

abbrev far : VRegUser
far = record { inst_id = 3; read = true; write = false }

abbrev users : List VRegUser
users = far ∷ writer ∷ near ∷ []

abbrev numbered : Liveness
numbered = record {
  vreg_lrs_map = λ v. none;
  reg_lrs_map = λ r. none;
  inst_to_pp = insert (insert (insert (λ i. none) 1 (point 16)) 2 (point 32)) 3 (point 48);
}

to_the_far_one :
    (do l ← compute_live_ranges numbered users 7; done (l.vreg_lrs_map 7))
    ≡ done (some (range 16 48))
unfolding compute_live_ranges
to_the_far_one = refl

abbrev HasPoint : VRegUser → Type 0
HasPoint u = (p : ProgramPoint) × (numbered.inst_to_pp u.inst_id ≡ some p)

known : (u : VRegUser) → Memᴰ u users → HasPoint u
known u n = elim (cases_cons n) [
  | inl e ↦ subst HasPoint (sym e) (point 48, refl)
  | inr n' ↦ elim (cases_cons n') [
    | inl e ↦ subst HasPoint (sym e) (point 16, refl)
    | inr n'' ↦ elim (cases_cons n'') [
      | inl e ↦ subst HasPoint (sym e) (point 32, refl)
      | inr none_left ↦ elim (not-nil none_left) [ ]
    ]
  ]
]

compute_live_ranges-FromFirstToLast_example :
    Returns (FromFirstToLast numbered 7 users) (compute_live_ranges numbered users 7)
compute_live_ranges-FromFirstToLast_example =
    compute_live_ranges-FromFirstToLast numbered 7 users known writer (tail (head refl)) refl far
      (head refl) refl
