-- ===== src/Codegen/Tests/LayoutTests.antt =====
-- src/codegen/function/layout/mod.rs on a block 0 with the instructions 1, 2 and 3.
use ola_lang.Prelude.{◌≡◌, refl, none, some, [], ◌∷◌, arith}
use ola_lang.Prelude.Map.{insert}
use ola_lang.Prelude.Outcome.{done, ◌>>=◌, Returns}
use ola_lang.Codegen.Layout.{
  BlockNode, Layout, new, append_block, append_inst, insert_inst_before, insert_inst_after,
  insert_inst_at_start, remove_inst, inst_iter, insts_from, block_iter,
}
use ola_lang.Codegen.Layout.Segments.{node, Holds}
use ola_lang.Codegen.Layout.Edits.{Edited}
use ola_lang.Codegen.Layout.Iteration.{inst_iter-Holds}
use ola_lang.Codegen.Layout.Insertion.Before.{insert_inst_before-Edited}
use ola_lang.Codegen.Layout.Insertion.After.{
  insert_inst_after-Edited, insert_inst_after_last-unseen,
}
use ola_lang.Codegen.Layout.Insertion.Ends.{append_inst-Edited}
use ola_lang.Codegen.Layout.Order.{Ordered, block_iter-Ordered}
use ola_lang.Codegen.Layout.Order.Append.{Appended, append_block-Appended}
use ola_lang.Codegen.Layout.Removal.Remove.{Removed, remove_inst-Removed}

abbrev block_node : BlockNode
block_node = record { prev = none; next = none; first_inst = some 1; last_inst = some 3 }

abbrev pub three : Layout
three = record {
  basic_blocks = insert (λ b. none) 0 block_node;
  instructions =
      insert (insert (insert (λ i. none) 1 (node 0 none (some 2))) 2 (node 0 (some 1) (some 3))) 3
        (node 0 (some 2) none);
  first_block = some 0;
  last_block = some 0;
}

abbrev pub three_held : Holds three 0 (1 ∷ 2 ∷ 3 ∷ [])
three_held = record {
  at = block_node;
  found = refl;
  first = refl;
  last = refl;
  seg = (refl, (refl, (refl, tt)));
  distinct = (refl, (refl, (refl, tt)));
}

-- The operations, run from the empty layout, give such a block.
built :
    (do
      l ← append_block 0 new
      l ← append_inst 3 0 l
      l ← insert_inst_at_start 1 0 l
      l ← insert_inst_before 3 2 0 l
      inst_iter 5 l 0)
    ≡ done (some (1 ∷ 2 ∷ 3 ∷ []))
unfolding new append_block append_inst insert_inst_at_start insert_inst_before inst_iter insts_from
built = refl

inst_iter-Holds_example : inst_iter 3 three 0 ≡ done (some (1 ∷ 2 ∷ 3 ∷ []))
inst_iter-Holds_example = inst_iter-Holds three 0 (1 ∷ 2 ∷ 3 ∷ []) 3 three_held (omega arith)

insert_inst_before-Edited_example :
    Returns (Edited three 0 (1 ∷ 4 ∷ 2 ∷ 3 ∷ [])) (insert_inst_before 2 4 0 three)
insert_inst_before-Edited_example =
    insert_inst_before-Edited three 0 4 2 (3 ∷ []) refl (1 ∷ []) three_held

insert_inst_after-Edited_example :
    Returns (Edited three 0 (1 ∷ 2 ∷ 4 ∷ 3 ∷ [])) (insert_inst_after 2 4 0 three)
insert_inst_after-Edited_example =
    insert_inst_after-Edited three 0 4 2 refl (1 ∷ []) [] 3 three_held

insert_inst_after_last-unseen_example :
    (do l ← insert_inst_after 3 4 0 three; inst_iter 3 l 0) ≡ done (some (1 ∷ 2 ∷ 3 ∷ []))
insert_inst_after_last-unseen_example =
    insert_inst_after_last-unseen three 0 4 3 refl (1 ∷ 2 ∷ []) 3 three_held (omega arith)

append_inst-Edited_example : Returns (Edited three 0 (1 ∷ 2 ∷ 3 ∷ 4 ∷ [])) (append_inst 4 0 three)
append_inst-Edited_example = append_inst-Edited three 0 4 refl (1 ∷ 2 ∷ 3 ∷ []) three_held

remove_inst-Removed_example : Returns (Removed three 0 2 (1 ∷ 3 ∷ [])) (remove_inst 2 three)
remove_inst-Removed_example = remove_inst-Removed three 0 2 (1 ∷ []) (3 ∷ []) three_held

abbrev three_Ordered : Ordered three (0 ∷ [])
three_Ordered = record {
  first = refl;
  last = refl;
  chain = (record { at = block_node; found = refl; prev = refl; next = refl }, tt);
  distinct = (refl, tt);
}

block_iter-Ordered_example : block_iter 1 three ≡ done (some (0 ∷ []))
block_iter-Ordered_example = block_iter-Ordered three (0 ∷ []) 1 three_Ordered (omega arith)

append_block-Appended_example : Returns (Appended three 5 (0 ∷ [])) (append_block 5 three)
append_block-Appended_example = append_block-Appended three 5 refl (0 ∷ []) three_Ordered
