-- ===== src/Codegen/Layout/Insertion.antt =====
-- src/codegen/function/layout/mod.rs: insertions.
pub mod After
pub mod Before
pub mod Ends
use ola_lang.Prelude.{
  ℕ, zero, suc, ◌≡◌, ◌≢◌, refl, Bool, true, false, ◌||◌, Option, none, some, List, [], ◌∷◌, ◌++◌,
  ◌==◌, if◌then◌else◌, arith, Bool-cases, inl, inr, sym, ap, ◌∙◌,
}
use ola_lang.Prelude.Map.{Map, insert}
use ola_lang.Prelude.Outcome.{Outcome, done, panic, ◌>>=◌, Returns}
use ola_lang.Codegen.Layout.{
  BlockNode, InstNode, Layout, insert_inst_before, insert_inst_after, insert_inst_at_start,
  append_inst, is_some_of,
}
use ola_lang.Codegen.Layout.Segments.{
  has, Distinct, head_or, last_or, node, Seg, Seg-append, Seg-left, Seg-right, Seg-frame,
  Seg-relink, Seg-has, Holds, has-append, last_or-append, Distinct-apart, Distinct-left,
  Distinct-right, Distinct-insert, not-has_of_fresh,
}
use ola_lang.Codegen.Layout.Edits.{
  Relinked, Relinked-back, Relinked-front, Linked, Edited, OnlyIn, Linked-Edited, ne_sym, not_last,
}

pub OnlyIn-first :
    (m : Map InstNode) (b : ℕ) (p : Option ℕ) (zs : List ℕ) (n : Option ℕ)
    → Seg m b p zs n
    → OnlyIn m b (head_or zs none)
OnlyIn-first m b p [] n h = tt
OnlyIn-first m b p (z ∷ zs) n (e, h) = λ v k. ground arith

pub OnlyIn-last :
    (m : Map InstNode) (b : ℕ) (p : Option ℕ) (ys : List ℕ) (n : Option ℕ)
    → Seg m b p ys n
    → OnlyIn m b p
    → OnlyIn m b (last_or p ys)
OnlyIn-last m b p [] n h o = o
OnlyIn-last m b p (y ∷ ys) n (e, h) o = OnlyIn-last m b (some y) ys n h λ v k. ground arith

pub head-apart : (zs : List ℕ) (j : ℕ) → has j zs ≡ false → is_some_of (head_or zs none) j ≡ false
head-apart [] j h = refl
head-apart (z ∷ zs) j h = ne_sym j z (ground arith)

pub Distinct-apart-back :
    (ys zs : List ℕ) (j : ℕ) → Distinct (ys ++ zs) → has j zs ≡ true → has j ys ≡ false
Distinct-apart-back ys zs j d e = elim (Bool-cases (has j ys)) [
  | inl q ↦ let t = Distinct-apart ys zs j d q in cc
  | inr q ↦ q
]

-- The neighbours of an insertion are linked to the new instruction: the list has it there.
module _ (l l' : Layout) (b i : ℕ) (ys zs : List ℕ) (h : Holds l b (ys ++ zs))
    (fresh : l.instructions i ≡ none) where
  abbrev Placed : Type 0
  Placed =
      Linked l l' b i h.at (last_or none ys) (head_or zs none) (some i) (some i)
        (head_or (ys ++ i ∷ zs) none) (last_or none (ys ++ i ∷ zs))
      × (l'.instructions i ≡ some (node b (last_or none ys) (head_or zs none)))

  pub Placed-Edited : Placed → Edited l b (ys ++ i ∷ zs) l'
  Placed-Edited (k, new) =
      let out = not-has_of_fresh l b (ys ++ zs) i h fresh in
      let split = has-append i ys zs in
      let front = Seg-left l.instructions b none ys zs none h.seg in
      let back = Seg-right l.instructions b none ys zs none h.seg in
      Linked-Edited l l' b i h.at (last_or none ys) (head_or zs none) (some i) (some i)
        (head_or (ys ++ i ∷ zs) none) (last_or none (ys ++ i ∷ zs)) k h.found (λ v e. cc)
        (OnlyIn-last l.instructions b none ys (head_or zs none) front tt)
        (OnlyIn-first l.instructions b (last_or none ys) zs none back) (ys ++ i ∷ zs)
        (Seg-append l'.instructions b none ys (i ∷ zs) none
          (Relinked-front l.instructions l'.instructions b i (last_or none ys) (head_or zs none)
            (some i) (some i) k.links none (head_or zs none) ys front
            (Distinct-left ys zs h.distinct) refl (ground arith)
            λ j e. head-apart zs j (Distinct-apart ys zs j h.distinct e))
          (
            new,
            Relinked-back l.instructions l'.instructions b i (last_or none ys) (head_or zs none)
                (some i) (some i) k.links (last_or none ys) zs back
                (Distinct-right ys zs h.distinct) refl (ground arith)
                λ j e. not_last none ys j (Distinct-apart-back ys zs j h.distinct e) refl,
          ))
        (Distinct-insert ys zs i h.distinct out) refl refl
