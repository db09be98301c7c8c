-- ===== src/Codegen/Layout/Iteration.antt =====
-- src/codegen/function/layout/mod.rs: the iterator over the instructions of a block.
use ola_lang.Prelude.{
  ℕ, zero, suc, ◌≡◌, ◌≤◌, refl, false, Option, none, some, List, [], ◌∷◌, arith, length,
}
use ola_lang.Prelude.Outcome.{done}
use ola_lang.Codegen.Layout.{BlockNode, Layout, insts_from, inst_iter, is_some_of}
use ola_lang.Codegen.Layout.Segments.{Distinct, head_or, last_or, Seg, Holds}
use ola_lang.Codegen.Layout.Edits.{not_last, ne_sym}

module _ (l : Layout) (b : ℕ) (n : Option ℕ) (at : BlockNode)
    (found : l.basic_blocks b ≡ some at) where
  walk :
      (fuel : ℕ) (p : Option ℕ) (x : ℕ) (xs : List ℕ)
      → Seg l.instructions b p (x ∷ xs) n
      → Distinct (x ∷ xs)
      → at.last_inst ≡ last_or (some x) xs
      → length (x ∷ xs) ≤ fuel
      → insts_from fuel l b (some x) ≡ done (some (x ∷ xs))
  unfolding insts_from
  walk zero p x xs h d e enough = ground arith
  walk (suc fuel) p x [] (k, h) d e enough = ground arith
  walk (suc fuel) p x (y ∷ xs) (k, h) (out, d) e enough =
      let rest = walk fuel (some x) y xs h d e (omega arith) in
      let goes_on : is_some_of at.last_inst x ≡ false =
        rw e (not_last (some y) xs x (ground arith) (ne_sym x y (ground arith))) in
      rw (found, goes_on, k, rest) refl

  no_walk : (fuel : ℕ) → insts_from fuel l b none ≡ done (some [])
  unfolding insts_from
  no_walk zero = refl
  no_walk (suc fuel) = refl

  pub walk_all :
      (fuel : ℕ) (xs : List ℕ)
      → Seg l.instructions b none xs n
      → Distinct xs
      → at.last_inst ≡ last_or none xs
      → length xs ≤ fuel
      → insts_from fuel l b (head_or xs none) ≡ done (some xs)
  walk_all fuel [] h d e enough = no_walk fuel
  walk_all fuel (x ∷ xs) h d e enough = walk fuel none x xs h d e enough

-- The iterator gives the instructions that the block holds, in their order, once each.
pub inst_iter-Holds :
    (l : Layout) (b : ℕ) (xs : List ℕ) (fuel : ℕ)
    → Holds l b xs
    → length xs ≤ fuel
    → inst_iter fuel l b ≡ done (some xs)
unfolding inst_iter
inst_iter-Holds l b xs fuel h enough =
    rw (h.found, h.first) (walk_all l b none h.at h.found fuel xs h.seg h.distinct h.last enough)
