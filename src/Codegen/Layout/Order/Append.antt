-- ===== src/Codegen/Layout/Order/Append.antt =====
-- src/codegen/function/layout/mod.rs: a new block behind the others, `append_block`.
use ola_lang.Prelude.{
  ℕ, ◌≡◌, refl, true, false, Option, none, some, List, [], ◌∷◌, ◌++◌, ◌==◌, arith, Bool-cases, inl,
  inr, sym, ◌∙◌,
}
use ola_lang.Prelude.Map.{Map, insert}
use ola_lang.Prelude.Outcome.{done, Returns}
use ola_lang.Codegen.Layout.{BlockNode, Layout, append_block}
use ola_lang.Codegen.Layout.Segments.{
  has, Distinct, Distinct-snoc, last_or-snoc, has-append, Holds, snoc-cases, snoc-head,
  head_or-snoc, has-snoc,
}
use ola_lang.Codegen.Layout.Edits.{ne_sym}
use ola_lang.Codegen.Layout.Order.{Between, Chain, Ordered}

Chain-has :
    (m : Map BlockNode) (p : Option ℕ) (bs : List ℕ) (n : Option ℕ) (i : ℕ)
    → Chain m p bs n
    → has i bs ≡ true
    → (v : BlockNode) × (m i ≡ some v)
Chain-has m p [] n i h k = cc
Chain-has m p (x ∷ bs) n i (e, h) k = elim (Bool-cases (i == x)) [
  | inl q ↦ let same : i ≡ x = ground arith in (e.at, rw same e.found)
  | inr q ↦ Chain-has m (some x) bs n i h (ground arith)
]

Chain-frame :
    (m m' : Map BlockNode) (p : Option ℕ) (bs : List ℕ) (n : Option ℕ)
    → Chain m p bs n
    → ((i : ℕ) → has i bs ≡ true → m' i ≡ m i)
    → Chain m' p bs n
Chain-frame m m' p [] n h same = tt
Chain-frame m m' p (x ∷ xs) n (e, h) same = (
  record { at = e.at; found = same x (ground arith) ∙ e.found; prev = e.prev; next = e.next },
  Chain-frame m m' (some x) xs n h λ i k. same i (ground arith),
)

-- A block goes to the end.
Chain-snoc :
    (m m' : Map BlockNode) (p : Option ℕ) (ys : List ℕ) (q b : ℕ)
    → Chain m p (ys ++ q ∷ []) none
    → Distinct (ys ++ q ∷ [])
    → ((i : ℕ) → has i (ys ++ q ∷ []) ≡ true → (i == q) ≡ false → m' i ≡ m i)
    → ((v : BlockNode) → m q ≡ some v → m' q ≡ some (record v { next = some b }))
    → Between m' b (some q) none
    → Chain m' p ((ys ++ q ∷ []) ++ b ∷ []) none
Chain-snoc m m' p [] q b (e, h) d same upd new = (
  record {
    at = record e.at { next = some b };
    found = upd e.at e.found;
    prev = e.prev;
    next = refl;
  },
  (new, tt),
)
Chain-snoc m m' p (y ∷ ys) q b (e, h) (out, d) same upd new = (
  record {
    at = e.at;
    found = same y (ground arith) (ground (arith, has-append y ys (q ∷ []))) ∙ e.found;
    prev = e.prev;
    next = e.next ∙ sym (head_or-snoc ys q (b ∷ []));
  },
  Chain-snoc m m' (some y) ys q b h d (λ i k. same i (ground arith)) upd new,
)

-- What appending a block leaves: it comes last and is empty, and all other blocks hold what they held.
pub record Appended (l : Layout) (b : ℕ) (bs : List ℕ) (l' : Layout) : Type 0 where
  pub order : Ordered l' (bs ++ b ∷ [])
  pub empty : Holds l' b []
  pub others : (c : ℕ) (xs : List ℕ) → (c == b) ≡ false → Holds l c xs → Holds l' c xs

module _ (l : Layout) (b : ℕ) (fresh : l.basic_blocks b ≡ none) where
  abbrev first_node : BlockNode
  first_node = record { prev = none; next = none; first_inst = none; last_inst = none }

  abbrev only : Layout
  only = record l {
    basic_blocks = insert l.basic_blocks b first_node;
    first_block = some b;
    last_block = some b;
  }

  append_only : l.first_block ≡ none → l.last_block ≡ none → append_block b l ≡ done only
  unfolding append_block
  append_only f t = ground arith

  only-Holds : (c : ℕ) (xs : List ℕ) → (c == b) ≡ false → Holds l c xs → Holds only c xs
  only-Holds c xs ne h = record {
    at = h.at;
    found = ground (arith, h.found);
    first = h.first;
    last = h.last;
    seg = h.seg;
    distinct = h.distinct;
  }

  append_first : Ordered l [] → Returns (Appended l b []) (append_block b l)
  append_first h = rw (append_only h.first h.last) (record {
    order = record {
      first = refl;
      last = refl;
      chain = (record { at = first_node; found = ground arith; prev = refl; next = refl }, tt);
      distinct = (refl, tt);
    };
    empty = record {
      at = first_node;
      found = ground arith;
      first = refl;
      last = refl;
      seg = tt;
      distinct = tt;
    };
    others = only-Holds;
  })

  module _ (q f : ℕ) (v : BlockNode) (there : l.basic_blocks q ≡ some v)
      (ne : (b == q) ≡ false) where
    abbrev last_node : BlockNode
    last_node = record { prev = some q; next = none; first_inst = none; last_inst = none }

    abbrev extended : Layout
    extended = record l {
      basic_blocks =
          insert (insert (insert l.basic_blocks b last_node) q (record v { next = some b })) b
            last_node;
      last_block = some b;
    }

    append_last : l.first_block ≡ some f → l.last_block ≡ some q → append_block b l ≡ done extended
    unfolding append_block
    append_last first last = ground arith

    new-Between : Between extended.basic_blocks b (some q) none
    new-Between = record { at = last_node; found = ground arith; prev = refl; next = refl }

    updated :
        (w : BlockNode)
        → l.basic_blocks q ≡ some w
        → extended.basic_blocks q ≡ some (record w { next = some b })
    updated w e = ground arith

    untouched :
        (i : ℕ) → (i == b) ≡ false → (i == q) ≡ false → extended.basic_blocks i ≡ l.basic_blocks i
    untouched i k1 k2 = ground arith

    at_last-Holds : (xs : List ℕ) → Holds l q xs → Holds extended q xs
    at_last-Holds xs h = record {
      at = record h.at { next = some b };
      found = updated h.at h.found;
      first = h.first;
      last = h.last;
      seg = h.seg;
      distinct = h.distinct;
    }

    others-Holds : (c : ℕ) (xs : List ℕ) → (c == b) ≡ false → Holds l c xs → Holds extended c xs
    others-Holds c xs c_b h = elim (Bool-cases (c == q)) [
      | inl e ↦
          let same : c ≡ q = ground arith in let h' = rw same at h in rw same (at_last-Holds xs h')
      | inr e ↦ record {
        at = h.at;
        found = untouched c c_b e ∙ h.found;
        first = h.first;
        last = h.last;
        seg = h.seg;
        distinct = h.distinct;
      }
    ]

  append_later :
      (ys : List ℕ) (q : ℕ)
      → Ordered l (ys ++ q ∷ [])
      → Returns (Appended l b (ys ++ q ∷ [])) (append_block b l)
  append_later ys q h =
      let m = l.basic_blocks in
      let (v, there) = Chain-has m none (ys ++ q ∷ []) none q h.chain (has-snoc ys q) in
      let out : (i : ℕ) → has i (ys ++ q ∷ []) ≡ true → (i == b) ≡ false =
        λ i e. not_new (ys ++ q ∷ []) h.chain i e in
      let ne = ne_sym q b (out q (has-snoc ys q)) in
      let (f, first, in_front) = snoc-head ys q in
      let at_last = h.last ∙ last_or-snoc none ys q in
      let at_first = h.first ∙ first in
      rw (append_last q f v there ne at_first at_last) (record {
        order = record {
          first = h.first ∙ sym (head_or-snoc ys q (b ∷ []));
          last = sym (last_or-snoc none (ys ++ q ∷ []) b);
          chain =
              Chain-snoc m (extended q f v there ne).basic_blocks none ys q b h.chain h.distinct
                (λ i e k. untouched q f v there ne i (out i e) k) (updated q f v there ne)
                (new-Between q f v there ne);
          distinct = Distinct-snoc (ys ++ q ∷ []) b h.distinct (absent (ys ++ q ∷ []) h.chain);
        };
        empty = record {
          at = last_node q f v there ne;
          found = ground arith;
          first = refl;
          last = refl;
          seg = tt;
          distinct = tt;
        };
        others = others-Holds q f v there ne;
      })
    where
      not_new :
          (bs : List ℕ)
          → Chain l.basic_blocks none bs none
          → (i : ℕ) → has i bs ≡ true
          → (i == b) ≡ false
      not_new bs h i e = elim (Bool-cases (i == b)) [
        | inl k ↦
            let same : i ≡ b = ground arith in
            let (v, at) = Chain-has l.basic_blocks none bs none i h e in let t = rw same at at in cc
        | inr k ↦ k
      ]

      absent : (bs : List ℕ) → Chain l.basic_blocks none bs none → has b bs ≡ false
      absent bs h = elim (Bool-cases (has b bs)) [
        | inl k ↦ let (v, at) = Chain-has l.basic_blocks none bs none b h k in cc
        | inr k ↦ k
      ]

  -- A block that the layout does not have yet comes behind those that it has, without instructions; the
  -- others hold the instructions that they held.
  pub append_block-Appended :
      (bs : List ℕ) → Ordered l bs → Returns (Appended l b bs) (append_block b l)
  append_block-Appended bs h = elim (snoc-cases bs) [
    | inl e ↦ let h' = rw e at h in rw e (append_first h')
    | inr (ys', q, e) ↦ let h' = rw e at h in rw e (append_later ys' q h')
  ]
