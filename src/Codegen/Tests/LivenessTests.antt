-- ===== src/Codegen/Tests/LivenessTests.antt =====
-- src/codegen/pass/liveness.rs on two ranges of one block.
use ola_lang.Prelude.{ℕ, ◌≡◌, refl, true, false, none, some, [], ◌∷◌}
use ola_lang.Prelude.Map.{insert}
use ola_lang.Prelude.Outcome.{done, ◌>>=◌}
use ola_lang.Codegen.Liveness.{
  ProgramPoint, LiveRange, between, interfere, meets, Liveness, reg_interferes, assign,
}
use ola_lang.Codegen.Liveness.Ranges.{reg_interferes-assign}

abbrev pub point : ℕ → ProgramPoint
point n = record { block = 0; inst = n }

abbrev pub range : ℕ → ℕ → LiveRange
range a b = record { start = point a; end = point b } ∷ []

abbrev pub two_vregs : Liveness
two_vregs = record {
  vreg_lrs_map = insert (insert (λ v. none) 1 (range 16 48)) 2 (range 32 64);
  reg_lrs_map = λ r. none;
  inst_to_pp = λ i. none;
}

between_at : between (point 16) (point 32) ≡ some (point 24)
unfolding between
between_at = refl

no_range : reg_interferes two_vregs 7 2 ≡ done false
unfolding reg_interferes
no_range = refl

reg_interferes-assign_example : (do l' ← assign two_vregs 7 1; reg_interferes l' 7 2) ≡ done true
unfolding interfere meets
reg_interferes-assign_example =
    reg_interferes-assign two_vregs 7 1 (range 16 48) refl 7 2 (range 32 64) false refl no_range
