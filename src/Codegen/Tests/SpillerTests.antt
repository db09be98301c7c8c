-- ===== src/Codegen/Tests/SpillerTests.antt =====
-- src/codegen/pass/spiller.rs on the instructions 1, 2 and 3, of which the first two have points
-- next to one another.
use ola_lang.Prelude.{ℕ, ◌+◌, ◌≡◌, refl, Option, none, some, if◌then◌else◌, ltb, [], ◌∷◌, arith}
use ola_lang.Prelude.Map.{insert}
use ola_lang.Prelude.Outcome.{done, ◌>>=◌}
use ola_lang.Codegen.Layout.{insert_inst_after as linked_after, next_inst_of, prev_inst_of}
use ola_lang.Codegen.Liveness.{ProgramPoint, between, recompute_program_points_after}
use ola_lang.Codegen.Spiller.{Spiller, insert_inst_after, insert_inst_before}
use ola_lang.Codegen.Spiller.Insertion.{Ends, Inserted, insert_inst_after-Inserted}
use ola_lang.Codegen.Spiller.Endless.{insert_inst_before-Inserted}
use ola_lang.Codegen.Tests.LayoutTests.{three, three_held}

abbrev at : ℕ → ProgramPoint
at n = record { block = 0; inst = n }

abbrev close : Spiller
close = record {
  layout = three;
  liveness = record {
    vreg_lrs_map = λ v. none;
    reg_lrs_map = λ r. none;
    inst_to_pp = insert (insert (insert (λ i. none) 1 (at 16)) 2 (at 17)) 3 (at 33);
  };
}

-- as `close`, where 2 has the point of another step
abbrev spaced : Spiller
spaced = record {
  layout = three;
  liveness = record {
    vreg_lrs_map = λ v. none;
    reg_lrs_map = λ r. none;
    inst_to_pp = insert (insert (λ i. none) 1 (at 16)) 2 (at 32);
  };
}

abbrev point_in : ℕ → Option Spiller → Option ProgramPoint
point_in i none = none
point_in i (some s) = s.liveness.inst_to_pp i

-- One renumbering moves 17 to 32 and makes room for 24.
after_renumbering :
    (do o ← insert_inst_after 2 1 4 0 close; done (point_in 4 o)) ≡ done (some (at 24))
unfolding insert_inst_after recompute_program_points_after between next_inst_of linked_after
after_renumbering = refl

-- The same place, from behind: the recursion does not end.
before_renumbering : insert_inst_before 20 2 4 0 close ≡ done none
unfolding insert_inst_before recompute_program_points_after between prev_inst_of
before_renumbering = refl

insert_inst_after-Inserted_example :
    Ends (Inserted three 0 [] (3 ∷ []) 1 4 2) (insert_inst_after 2 1 4 0 close)
insert_inst_after-Inserted_example =
    insert_inst_after-Inserted 0 4 1 2 [] (3 ∷ []) close (at 16) (at 17) three_held refl refl refl
      refl (omega arith) (omega arith) 0

insert_inst_before-Inserted_example :
    if ltb (16 + 1) 32
    then Ends (Inserted three 0 [] (3 ∷ []) 1 4 2) (insert_inst_before 2 2 4 0 spaced)
    else (insert_inst_before 1 2 4 0 spaced ≡ done none)
insert_inst_before-Inserted_example =
    insert_inst_before-Inserted 0 4 1 2 [] (3 ∷ []) spaced (at 16) (at 32) three_held refl refl refl
      refl (omega arith) (omega arith) 1
