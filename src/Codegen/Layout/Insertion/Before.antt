-- ===== src/Codegen/Layout/Insertion/Before.antt =====
-- src/codegen/function/layout/mod.rs: `insert_inst_before`.
use ola_lang.Prelude.{
  ℕ, ◌≡◌, refl, false, Option, none, some, List, [], ◌∷◌, ◌++◌, ◌==◌, arith, inl, inr, sym, ◌∙◌,
}
use ola_lang.Prelude.Map.{insert}
use ola_lang.Prelude.Outcome.{done, Returns}
use ola_lang.Codegen.Layout.{BlockNode, InstNode, Layout, insert_inst_before}
use ola_lang.Codegen.Layout.Segments.{
  head_or, last_or, node, Seg-left, Seg-right, Holds, last_or-append, Distinct-apart, head_or-snoc,
  snoc-head, has-snoc, has-head, snoc-cases, last_or-snoc,
}
use ola_lang.Codegen.Layout.Edits.{Linked, Edited, at_neighbour, ne_of_fresh}
use ola_lang.Codegen.Layout.Insertion.{Placed-Edited}

module _ (l : Layout) (b i x : ℕ) (at : BlockNode) (n : Option ℕ)
    (found : l.basic_blocks b ≡ some at) (fresh : l.instructions i ≡ none)
    (ne : (i == x) ≡ false) where
  abbrev at_first : Layout
  at_first = record l {
    instructions =
        insert (insert (insert l.instructions i (node b none (some x))) i (node b none (some x))) x
          (node b (some i) n);
    basic_blocks = insert l.basic_blocks b (record at { first_inst = some i });
  }

  before_first :
      at.first_inst ≡ some x
      → l.instructions x ≡ some (node b none n)
      → insert_inst_before x i b l ≡ done at_first
  unfolding insert_inst_before
  before_first first e = ground arith

  before_first-Linked :
      l.instructions x ≡ some (node b none n)
      → Linked l at_first b i at none (some x) (some i) (some i) (some i) at.last_inst
  before_first-Linked e = record {
    links = record {
      before = λ j v q k. cc;
      behind = λ j v q k.
          at_neighbour l.instructions at_first.instructions (λ v. record v { prev = some i }) x
            (node b none n) e (ground arith) j v q k;
      rest = λ j k k1 k2. ground arith;
    };
    node = ground arith;
    blocks = λ c k. ground arith;
    ends = (refl, refl);
  }

  module _ (q : ℕ) (v : InstNode) (there : l.instructions q ≡ some v) (apart : (q == x) ≡ false)
      (ne' : (i == q) ≡ false) where
    abbrev at_later : Layout
    at_later = record l {
      instructions =
          insert
            (insert
              (insert (insert l.instructions i (node b (some q) (some x))) i
                (node b (some q) (some x)))
              q (record v { next = some i }))
            x (node b (some i) n);
    }

    before_later :
        (f : ℕ)
        → at.first_inst ≡ some f
        → (f == x) ≡ false
        → l.instructions x ≡ some (node b (some q) n)
        → insert_inst_before x i b l ≡ done at_later
    unfolding insert_inst_before
    before_later f first other e = ground arith

    before_later-Linked :
        l.instructions x ≡ some (node b (some q) n)
        → Linked l at_later b i at (some q) (some x) (some i) (some i) at.first_inst at.last_inst
    before_later-Linked e = record {
      links = record {
        before =
            at_neighbour l.instructions at_later.instructions (λ v. record v { next = some i }) q v
              there (ground arith);
        behind =
            at_neighbour l.instructions at_later.instructions (λ v. record v { prev = some i }) x
              (node b (some q) n) e (ground arith);
        rest = λ j k k1 k2. ground arith;
      };
      node = ground arith;
      blocks = λ c k. ground arith;
      ends = (refl, refl);
    }

    before_later-new : at_later.instructions i ≡ some (node b (some q) (some x))
    before_later-new = ground arith

module _ (l : Layout) (b i x : ℕ) (zs : List ℕ) (fresh : l.instructions i ≡ none) where
  insert_first : Holds l b (x ∷ zs) → Returns (Edited l b (i ∷ x ∷ zs)) (insert_inst_before x i b l)
  insert_first h =
      let (e, _) = h.seg in
      let ne = ne_of_fresh l.instructions i x (node b none (head_or zs none)) fresh e in
      let n = head_or zs none in
      rw (before_first l b i x h.at n h.found fresh ne h.first e) (
        Placed-Edited l (at_first l b i x h.at n h.found fresh ne) b i [] (x ∷ zs) h fresh
          (rw (sym h.last) (before_first-Linked l b i x h.at n h.found fresh ne e), ground arith))

  insert_later :
      (ys : List ℕ) (q : ℕ)
      → Holds l b ((ys ++ q ∷ []) ++ x ∷ zs)
      → Returns (Edited l b ((ys ++ q ∷ []) ++ i ∷ x ∷ zs)) (insert_inst_before x i b l)
  insert_later ys q h =
      let m = l.instructions in
      let n = head_or zs none in
      let front = Seg-left m b none (ys ++ q ∷ []) (x ∷ zs) none h.seg in
      let (there, _) = Seg-right m b none ys (q ∷ []) (some x) front in
      let back = Seg-right m b none (ys ++ q ∷ []) (x ∷ zs) none h.seg in
      let (e', _) = rw (last_or-snoc none ys q) at back in
      let e : m x ≡ some (node b (some q) n) = e' in
      let v = node b (last_or none ys) (some x) in
      let ne = ne_of_fresh m i x (node b (some q) n) fresh e in
      let ne' = ne_of_fresh m i q v fresh there in
      let q_x =
        has-head q x zs (Distinct-apart (ys ++ q ∷ []) (x ∷ zs) q h.distinct (has-snoc ys q)) in
      let (f, first, in_front) = snoc-head ys q in
      let f_x = has-head f x zs (Distinct-apart (ys ++ q ∷ []) (x ∷ zs) f h.distinct in_front) in
      let at_f = h.first ∙ head_or-snoc ys q (x ∷ zs) ∙ first in
      let at_first' = h.first ∙ head_or-snoc ys q (x ∷ zs) in
      let at_last =
        last_or-append none (ys ++ q ∷ []) (i ∷ x ∷ zs)
        ∙ sym (last_or-append none (ys ++ q ∷ []) (x ∷ zs))
        ∙ sym h.last in
      let l' = at_later l b i x h.at n h.found fresh ne q v there q_x ne' in
      let k = before_later-Linked l b i x h.at n h.found fresh ne q v there q_x ne' e in
      rw (before_later l b i x h.at n h.found fresh ne q v there q_x ne' f at_f f_x e) (
        Placed-Edited l l' b i (ys ++ q ∷ []) (x ∷ zs) h fresh (
          rw (last_or-snoc none ys q, head_or-snoc ys q (i ∷ x ∷ zs), sym at_first', at_last)
            (k, before_later-new l b i x h.at n h.found fresh ne q v there q_x ne')))

  -- In a block that holds the instruction `x`, the new one stands directly before `x` afterwards, the
  -- others as before, and the other blocks and the order of the blocks are untouched.
  pub insert_inst_before-Edited :
      (ys : List ℕ)
      → Holds l b (ys ++ x ∷ zs)
      → Returns (Edited l b (ys ++ i ∷ x ∷ zs)) (insert_inst_before x i b l)
  insert_inst_before-Edited ys h = elim (snoc-cases ys) [
    | inl e ↦ let h' = rw e at h in rw e (insert_first h')
    | inr (ys', q, e) ↦ let h' = rw e at h in rw e (insert_later ys' q h')
  ]
