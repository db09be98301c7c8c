-- ===== src/Codegen/Layout/Order.antt =====
-- src/codegen/function/layout/mod.rs: the order of the blocks, and `block_iter`.
pub mod Append
use ola_lang.Prelude.{
  ℕ, zero, suc, ◌≡◌, ◌≤◌, refl, true, false, Option, none, some, List, [], ◌∷◌, ◌++◌, ◌==◌, arith,
  Bool-cases, inl, inr, sym, ap, ◌∙◌, length,
}
use ola_lang.Prelude.Map.{Map, insert}
use ola_lang.Prelude.Outcome.{done, Returns}
use ola_lang.Codegen.Layout.{BlockNode, Layout, append_block, blocks_from, block_iter}
use ola_lang.Codegen.Layout.Segments.{
  has, Distinct, Distinct-snoc, head_or, last_or, last_or-snoc, has-append, Holds, snoc-cases,
  snoc-head, head_or-snoc, has-snoc,
}
use ola_lang.Codegen.Layout.Edits.{ne_sym}

-- The node of a block with these neighbours, whatever its instructions
pub record Between (m : Map BlockNode) (x : ℕ) (p n : Option ℕ) : Type 0 where
  pub at : BlockNode
  pub found : m x ≡ some at
  pub prev : at.prev ≡ p
  pub next : at.next ≡ n

abbrev pub Chain : Map BlockNode → Option ℕ → List ℕ → Option ℕ → Type 0
Chain m p [] n = Unit
Chain m p (x ∷ xs) n = Between m x p (head_or xs n) × Chain m (some x) xs n

-- The function has the blocks `bs`, in this order.
pub record Ordered (l : Layout) (bs : List ℕ) : Type 0 where
  pub first : l.first_block ≡ head_or bs none
  pub last : l.last_block ≡ last_or none bs
  pub chain : Chain l.basic_blocks none bs none
  pub distinct : Distinct bs

walk :
    (l : Layout) (fuel : ℕ) (p : Option ℕ) (bs : List ℕ)
    → Chain l.basic_blocks p bs none
    → length bs ≤ fuel
    → blocks_from fuel l (head_or bs none) ≡ done (some bs)
unfolding blocks_from
walk l zero p [] h enough = refl
walk l (suc fuel) p [] h enough = refl
walk l zero p (x ∷ bs) h enough = ground arith
walk l (suc fuel) p (x ∷ bs) (k, h) enough =
    rw (k.found, k.next, walk l fuel (some x) bs h (omega arith)) refl

-- The iterator gives the blocks in their order, once each.
pub block_iter-Ordered :
    (l : Layout) (bs : List ℕ) (fuel : ℕ)
    → Ordered l bs
    → length bs ≤ fuel
    → block_iter fuel l ≡ done (some bs)
unfolding block_iter
block_iter-Ordered l bs fuel h enough =
    ap (λ o. blocks_from fuel l o) h.first ∙ walk l fuel none bs h.chain enough
