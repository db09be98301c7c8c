-- ===== src/Codegen/Layout/Insertion/Ends.antt =====
-- src/codegen/function/layout/mod.rs: `append_inst` and `insert_inst_at_start`.
use ola_lang.Prelude.{
  ℕ, ◌≡◌, refl, false, none, some, List, [], ◌∷◌, ◌++◌, ◌==◌, arith, inl, inr, sym, ap, ◌∙◌,
}
use ola_lang.Prelude.Map.{Map, insert}
use ola_lang.Prelude.Outcome.{done, Returns}
use ola_lang.Codegen.Layout.{BlockNode, InstNode, Layout, append_inst, insert_inst_at_start}
use ola_lang.Codegen.Layout.Segments.{
  head_or, last_or, node, Seg-right, Holds, head_or-snoc, snoc-head, snoc-cases, last_or-snoc,
}
use ola_lang.Codegen.Layout.Edits.{Linked, Edited, at_neighbour, ne_of_fresh}
use ola_lang.Codegen.Layout.Insertion.{Placed-Edited}

++-nil : (xs : List ℕ) → xs ++ [] ≡ xs
++-nil [] = refl
++-nil (x ∷ xs) = ap (λ t. x ∷ t) (++-nil xs)

abbrev Holds-nil : (l : Layout) (b : ℕ) (xs : List ℕ) → Holds l b xs → Holds l b (xs ++ [])
Holds-nil l b xs h = record {
  at = h.at;
  found = h.found;
  first = rw (++-nil xs) h.first;
  last = rw (++-nil xs) h.last;
  seg = rw (++-nil xs) h.seg;
  distinct = rw (++-nil xs) h.distinct;
}

module _ (l : Layout) (b i : ℕ) (at : BlockNode) (found : l.basic_blocks b ≡ some at)
    (fresh : l.instructions i ≡ none) where
  -- the block has no instruction yet
  abbrev only : (later : Map BlockNode) → Layout
  only later = record l {
    instructions = insert (insert l.instructions i (node b none none)) i (node b none none);
    basic_blocks = later;
  }

  abbrev last_then_first : Map BlockNode
  last_then_first =
      insert (insert l.basic_blocks b (record at { last_inst = some i })) b
        (record at { first_inst = some i; last_inst = some i })

  abbrev first_then_last : Map BlockNode
  first_then_last =
      insert (insert l.basic_blocks b (record at { first_inst = some i })) b
        (record at { first_inst = some i; last_inst = some i })

  append_only :
      at.first_inst ≡ none → at.last_inst ≡ none → append_inst i b l ≡ done (only last_then_first)
  unfolding append_inst
  append_only f t = ground arith

  start_only :
      at.first_inst ≡ none
      → at.last_inst ≡ none
      → insert_inst_at_start i b l ≡ done (only first_then_last)
  unfolding insert_inst_at_start
  start_only f t = ground arith

  only-Linked :
      (later : Map BlockNode)
      → later b ≡ some (record at { first_inst = some i; last_inst = some i })
      → ((c : ℕ) → (c == b) ≡ false → later c ≡ l.basic_blocks c)
      → Linked l (only later) b i at none none (some i) (some i) (some i) (some i)
  only-Linked later e same = record {
    links = record {
      before = λ j v q k. cc;
      behind = λ j v q k. cc;
      rest = λ j k k1 k2. ground arith;
    };
    node = e;
    blocks = same;
    ends = (refl, refl);
  }

  module _ (q : ℕ) (v : InstNode) (there : l.instructions q ≡ some v) (ne : (i == q) ≡ false) where
    abbrev at_end : Layout
    at_end = record l {
      instructions =
          insert
            (insert
              (insert (insert l.instructions i (node b (some q) none)) i (node b (some q) none)) q
              (record v { next = some i }))
            i (node b (some q) none);
      basic_blocks = insert l.basic_blocks b (record at { last_inst = some i });
    }

    append_end :
        (f : ℕ) → at.first_inst ≡ some f → at.last_inst ≡ some q → append_inst i b l ≡ done at_end
    unfolding append_inst
    append_end f first last = ground arith

    append_end-Linked :
        Linked l at_end b i at (some q) none (some i) (some i) at.first_inst (some i)
    append_end-Linked = record {
      links = record {
        before =
            at_neighbour l.instructions at_end.instructions (λ v. record v { next = some i }) q v
              there (ground arith);
        behind = λ j v q k. cc;
        rest = λ j k k1 k2. ground arith;
      };
      node = ground arith;
      blocks = λ c k. ground arith;
      ends = (refl, refl);
    }

    append_end-new : at_end.instructions i ≡ some (node b (some q) none)
    append_end-new = ground arith

    abbrev at_start : Layout
    at_start = record l {
      instructions =
          insert
            (insert (insert (insert l.instructions i (node b none none)) i (node b none none)) q
              (record v { prev = some i }))
            i (node b none (some q));
      basic_blocks = insert l.basic_blocks b (record at { first_inst = some i });
    }

    start :
        (t : ℕ)
        → at.first_inst ≡ some q
        → at.last_inst ≡ some t
        → insert_inst_at_start i b l ≡ done at_start
    unfolding insert_inst_at_start
    start t first last = ground arith

    start-Linked : Linked l at_start b i at none (some q) (some i) (some i) (some i) at.last_inst
    start-Linked = record {
      links = record {
        before = λ j v q k. cc;
        behind =
            at_neighbour l.instructions at_start.instructions (λ v. record v { prev = some i }) q v
              there (ground arith);
        rest = λ j k k1 k2. ground arith;
      };
      node = ground arith;
      blocks = λ c k. ground arith;
      ends = (refl, refl);
    }

    start-new : at_start.instructions i ≡ some (node b none (some q))
    start-new = ground arith

last-some : (q : ℕ) (ys : List ℕ) → (t : ℕ) × (last_or (some q) ys ≡ some t)
last-some q [] = (q, refl)
last-some q (y ∷ ys) = last-some y ys

module _ (l : Layout) (b i : ℕ) (fresh : l.instructions i ≡ none) where
  append_first : Holds l b [] → Returns (Edited l b (i ∷ [])) (append_inst i b l)
  append_first h = rw (append_only l b i h.at h.found fresh h.first h.last) (
      Placed-Edited l (only l b i h.at h.found fresh (last_then_first l b i h.at h.found fresh)) b i
        [] [] h fresh
        (
          only-Linked l b i h.at h.found fresh (last_then_first l b i h.at h.found fresh)
              (ground arith) (λ c k. ground arith),
          ground arith,
        ))

  append_later :
      (ys : List ℕ) (q : ℕ)
      → Holds l b (ys ++ q ∷ [])
      → Returns (Edited l b ((ys ++ q ∷ []) ++ i ∷ [])) (append_inst i b l)
  append_later ys q h =
      let m = l.instructions in
      let (there, _) = Seg-right m b none ys (q ∷ []) none h.seg in
      let v = node b (last_or none ys) none in
      let ne = ne_of_fresh m i q v fresh there in
      let (f, first, in_front) = snoc-head ys q in
      let at_last = h.last ∙ last_or-snoc none ys q in
      let l' = at_end l b i h.at h.found fresh q v there ne in
      let k = append_end-Linked l b i h.at h.found fresh q v there ne in
      let whole = Holds-nil l b (ys ++ q ∷ []) h in
      rw (append_end l b i h.at h.found fresh q v there ne f (h.first ∙ first) at_last) (
        Placed-Edited l l' b i (ys ++ q ∷ []) [] whole fresh (
          rw
            (
              last_or-snoc none ys q,
              head_or-snoc ys q (i ∷ []),
              last_or-snoc none (ys ++ q ∷ []) i,
              sym h.first,
            )
            (k, append_end-new l b i h.at h.found fresh q v there ne)))

  -- The new instruction stands behind those that the block holds.
  pub append_inst-Edited :
      (xs : List ℕ) → Holds l b xs → Returns (Edited l b (xs ++ i ∷ [])) (append_inst i b l)
  append_inst-Edited xs h = elim (snoc-cases xs) [
    | inl e ↦ let h' = rw e at h in rw e (append_first h')
    | inr (ys', q, e) ↦ let h' = rw e at h in rw e (append_later ys' q h')
  ]

  -- The new instruction stands before those that the block holds.
  pub insert_inst_at_start-Edited :
      (xs : List ℕ) → Holds l b xs → Returns (Edited l b (i ∷ xs)) (insert_inst_at_start i b l)
  insert_inst_at_start-Edited [] h = rw (start_only l b i h.at h.found fresh h.first h.last) (
      Placed-Edited l (only l b i h.at h.found fresh (first_then_last l b i h.at h.found fresh)) b i
        [] [] h fresh
        (
          only-Linked l b i h.at h.found fresh (first_then_last l b i h.at h.found fresh)
              (ground arith) (λ c k. ground arith),
          ground arith,
        ))
  insert_inst_at_start-Edited (q ∷ xs) h =
      let m = l.instructions in
      let (there, _) = h.seg in
      let v = node b none (head_or xs none) in
      let ne = ne_of_fresh m i q v fresh there in
      let (t, some_last) = last-some q xs in
      rw (start l b i h.at h.found fresh q v there ne t h.first (h.last ∙ some_last)) (
        Placed-Edited l (at_start l b i h.at h.found fresh q v there ne) b i [] (q ∷ xs) h fresh (
          rw (sym h.last) (
            start-Linked l b i h.at h.found fresh q v there ne,
            start-new l b i h.at h.found fresh q v there ne,
          )))
