-- ===== src/Codegen/Layout/Removal.antt =====
-- src/codegen/function/layout/mod.rs: what is left when an instruction goes.
pub mod Cases
pub mod Remove
use ola_lang.Prelude.{
  ℕ, zero, suc, ◌≡◌, ◌≢◌, refl, Bool, true, false, ◌||◌, Option, none, some, List, [], ◌∷◌, ◌++◌,
  ◌==◌, if◌then◌else◌, arith, Bool-cases, inl, inr, sym, ap, ◌∙◌,
}
use ola_lang.Prelude.Map.{Map, insert}
use ola_lang.Prelude.Outcome.{Outcome, done, panic, ◌>>=◌, Returns}
use ola_lang.Codegen.Layout.{BlockNode, InstNode, Layout, remove_inst}
use ola_lang.Codegen.Layout.Segments.{
  has, Distinct, head_or, last_or, node, Seg, Seg-append, Seg-left, Seg-right, Seg-frame,
  Seg-relink, Seg-has, Holds, has-append, last_or-append, Distinct-apart, Distinct-left,
  Distinct-right, Distinct-remove, not-has_of_fresh, head_or-snoc, snoc-head, has-snoc, has-head,
  has-tail, snoc-cases, last_or-snoc,
}
use ola_lang.Codegen.Layout.Edits.{
  Relinked, Relinked-back, Relinked-front, Linked, Edited, OnlyIn, Linked-Edited, not_last,
  at_neighbour, ne_of_fresh,
}
use ola_lang.Codegen.Layout.Insertion.{OnlyIn-first, OnlyIn-last, head-apart, Distinct-apart-back}

abbrev pub blank : InstNode
blank = record { block = none; prev = none; next = none }

-- The list without `i`
module _ (l l' : Layout) (b i : ℕ) (ys zs : List ℕ) (h : Holds l b (ys ++ i ∷ zs)) where
  abbrev pub Unlinked : Type 0
  Unlinked =
      Linked l l' b i h.at (last_or none ys) (head_or zs none) (last_or none ys) (head_or zs none)
        (head_or (ys ++ zs) none) (last_or none (ys ++ zs))

  pub front : Seg l.instructions b none ys (some i)
  front = Seg-left l.instructions b none ys (i ∷ zs) none h.seg

  pub back : Seg l.instructions b (last_or none ys) (i ∷ zs) none
  back = Seg-right l.instructions b none ys (i ∷ zs) none h.seg

  pub apart_front : (j : ℕ) → has j ys ≡ true → has j (i ∷ zs) ≡ false
  apart_front j e = Distinct-apart ys (i ∷ zs) j h.distinct e

  apart_back : (j : ℕ) → has j (i ∷ zs) ≡ true → has j ys ≡ false
  apart_back j e = Distinct-apart-back ys (i ∷ zs) j h.distinct e

  pub Unlinked-Edited : Unlinked → Edited l b (ys ++ zs) l'
  Unlinked-Edited k =
      let m = l.instructions in
      let m' = l'.instructions in
      let (at_i, later) = back in
      let (out, distinct) = Distinct-right ys (i ∷ zs) h.distinct in
      let p = last_or none ys in
      let n = head_or zs none in
      Linked-Edited l l' b i h.at p n p n (head_or (ys ++ zs) none) (last_or none (ys ++ zs)) k
        h.found (λ v e. ground arith) (OnlyIn-last m b none ys (some i) front tt)
        (OnlyIn-first m b (some i) zs none later) (ys ++ zs)
        (Seg-append m' b none ys zs none
          (Relinked-front m m' b i p n p n k.links none (some i) ys front
            (Distinct-left ys (i ∷ zs) h.distinct) refl (apart_back i (ground arith))
            λ j e. head-apart zs j (has-tail j i zs (apart_front j e)))
          (Relinked-back m m' b i p n p n k.links (some i) zs later distinct refl out
            λ j e. not_last none ys j (apart_back j (ground arith)) refl))
        (Distinct-remove ys zs i h.distinct) refl refl
