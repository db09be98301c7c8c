-- ===== src/Codegen/Layout/Insertion/After.antt =====
-- src/codegen/function/layout/mod.rs: `insert_inst_after`.
use ola_lang.Prelude.{
  ℕ, ◌≡◌, refl, false, Option, none, some, List, [], ◌∷◌, ◌++◌, ◌==◌, arith, sym, ◌∙◌, ◌≤◌, length,
}
use ola_lang.Prelude.Map.{insert}
use ola_lang.Prelude.Outcome.{done, ◌>>=◌, Returns}
use ola_lang.Codegen.Layout.{BlockNode, InstNode, Layout, insert_inst_after, inst_iter}
use ola_lang.Codegen.Layout.Segments.{
  head_or, last_or, node, Seg-left, Seg-right, Holds, last_or-append, Distinct-apart,
  not-has_of_fresh, head_or-snoc, has-snoc, has-head, last_or-snoc,
}
use ola_lang.Codegen.Layout.Edits.{
  Relinked, Relinked-front, Linked, Edited, at_neighbour, ne_of_fresh,
}
use ola_lang.Codegen.Layout.Iteration.{walk_all}
use ola_lang.Codegen.Layout.Insertion.{Placed-Edited}

module _ (l : Layout) (b i x : ℕ) (at : BlockNode) (p : Option ℕ)
    (found : l.basic_blocks b ≡ some at) (fresh : l.instructions i ≡ none)
    (ne : (i == x) ≡ false) where
  module _ (z : ℕ) (v : InstNode) (there : l.instructions z ≡ some v) (apart : (x == z) ≡ false)
      (ne' : (i == z) ≡ false) where
    abbrev at_inner : Layout
    at_inner = record l {
      instructions =
          insert
            (insert
              (insert (insert l.instructions i (node b (some x) (some z))) i
                (node b (some x) (some z)))
              z (record v { prev = some i }))
            x (node b p (some i));
    }

    after_inner :
        l.instructions x ≡ some (node b p (some z)) → insert_inst_after x i b l ≡ done at_inner
    unfolding insert_inst_after
    after_inner e = ground arith

    after_inner-Linked :
        l.instructions x ≡ some (node b p (some z))
        → Linked l at_inner b i at (some x) (some z) (some i) (some i) at.first_inst at.last_inst
    after_inner-Linked e = record {
      links = record {
        before =
            at_neighbour l.instructions at_inner.instructions (λ v. record v { next = some i }) x
              (node b p (some z)) e (ground arith);
        behind =
            at_neighbour l.instructions at_inner.instructions (λ v. record v { prev = some i }) z v
              there (ground arith);
        rest = λ j k k1 k2. ground arith;
      };
      node = ground arith;
      blocks = λ c k. ground arith;
      ends = (refl, refl);
    }

    after_inner-new : at_inner.instructions i ≡ some (node b (some x) (some z))
    after_inner-new = ground arith

  abbrev at_tail : Layout
  at_tail = record l {
    instructions =
        insert (insert (insert l.instructions i (node b (some x) none)) i (node b (some x) none)) x
          (node b p (some i));
  }

  after_tail : l.instructions x ≡ some (node b p none) → insert_inst_after x i b l ≡ done at_tail
  unfolding insert_inst_after
  after_tail e = ground arith

  after_tail-Relinked :
      l.instructions x ≡ some (node b p none)
      → Relinked l.instructions at_tail.instructions i (some x) none (some i) (some i)
  after_tail-Relinked e = record {
    before =
        at_neighbour l.instructions at_tail.instructions (λ v. record v { next = some i }) x
          (node b p none) e (ground arith);
    behind = λ j v q k. cc;
    rest = λ j k k1 k2. ground arith;
  }

module _ (l : Layout) (b i x : ℕ) (fresh : l.instructions i ≡ none) where
  -- Behind an instruction `x` that is not the last of its block, the new one stands directly after `x`,
  -- the others as before, and the other blocks and the order of the blocks are untouched.
  pub insert_inst_after-Edited :
      (ys zs : List ℕ) (z : ℕ)
      → Holds l b ((ys ++ x ∷ []) ++ z ∷ zs)
      → Returns (Edited l b ((ys ++ x ∷ []) ++ i ∷ z ∷ zs)) (insert_inst_after x i b l)
  insert_inst_after-Edited ys zs z h =
      let m = l.instructions in
      let p = last_or none ys in
      let front = Seg-left m b none (ys ++ x ∷ []) (z ∷ zs) none h.seg in
      let (e', _) = Seg-right m b none ys (x ∷ []) (some z) front in
      let e : m x ≡ some (node b p (some z)) = e' in
      let (there, _) = Seg-right m b none (ys ++ x ∷ []) (z ∷ zs) none h.seg in
      let v = node b (last_or none (ys ++ x ∷ [])) (head_or zs none) in
      let ne = ne_of_fresh m i x (node b p (some z)) fresh e in
      let ne' = ne_of_fresh m i z v fresh there in
      let apart =
        has-head x z zs (Distinct-apart (ys ++ x ∷ []) (z ∷ zs) x h.distinct (has-snoc ys x)) in
      let at_first = h.first ∙ head_or-snoc ys x (z ∷ zs) in
      let at_last =
        last_or-append none (ys ++ x ∷ []) (i ∷ z ∷ zs)
        ∙ sym (last_or-append none (ys ++ x ∷ []) (z ∷ zs))
        ∙ sym h.last in
      let l' = at_inner l b i x h.at p h.found fresh ne z v there apart ne' in
      let k = after_inner-Linked l b i x h.at p h.found fresh ne z v there apart ne' e in
      rw (after_inner l b i x h.at p h.found fresh ne z v there apart ne' e) (
        Placed-Edited l l' b i (ys ++ x ∷ []) (z ∷ zs) h fresh (
          rw (last_or-snoc none ys x, head_or-snoc ys x (i ∷ z ∷ zs), sym at_first, at_last)
            (k, after_inner-new l b i x h.at p h.found fresh ne z v there apart ne')))

  -- Behind the last instruction of a block, the new one is not seen: the iterator gives what the block
  -- held before, since the block's last instruction is not updated.
  pub insert_inst_after_last-unseen :
      (ys : List ℕ) (fuel : ℕ)
      → Holds l b (ys ++ x ∷ [])
      → length (ys ++ x ∷ []) ≤ fuel
      → (do l' ← insert_inst_after x i b l; inst_iter fuel l' b) ≡ done (some (ys ++ x ∷ []))
  unfolding inst_iter
  insert_inst_after_last-unseen ys fuel h enough =
      let m = l.instructions in
      let p = last_or none ys in
      let (e', _) = Seg-right m b none ys (x ∷ []) none h.seg in
      let e : m x ≡ some (node b p none) = e' in
      let ne = ne_of_fresh m i x (node b p none) fresh e in
      let l' = at_tail l b i x h.at p h.found fresh ne in
      let k = after_tail-Relinked l b i x h.at p h.found fresh ne e in
      let seg =
        Relinked-front m l'.instructions b i (some x) none (some i) (some i) k none none
          (ys ++ x ∷ []) h.seg h.distinct (sym (last_or-snoc none ys x))
          (not-has_of_fresh l b (ys ++ x ∷ []) i h fresh) (λ j q. refl) in
      rw (after_tail l b i x h.at p h.found fresh ne e, h.found, h.first)
        (walk_all l' b (some i) h.at h.found fuel (ys ++ x ∷ []) seg h.distinct h.last enough)
