-- ===== src/Codegen/Layout/Removal/Remove.antt =====
-- src/codegen/function/layout/mod.rs: `remove_inst`.
use ola_lang.Prelude.{ℕ, ◌≡◌, refl, Option, none, some, List, [], ◌∷◌, ◌++◌, inl, inr, sym, ◌∙◌}
use ola_lang.Prelude.Outcome.{Returns}
use ola_lang.Codegen.Layout.{Layout, remove_inst}
use ola_lang.Codegen.Layout.Segments.{
  head_or, last_or, node, Seg, Seg-right, Holds, last_or-append, Distinct-right, head_or-snoc,
  has-snoc, has-head, has-tail, snoc-cases, last_or-snoc,
}
use ola_lang.Codegen.Layout.Edits.{Edited, ne_sym}
use ola_lang.Codegen.Layout.Removal.{blank, Unlinked-Edited, front, back, apart_front}
use ola_lang.Codegen.Layout.Removal.Cases.{
  alone, remove_alone, alone-Linked, alone-blank, at_front, remove_at_front, at_front-Linked,
  at_front-blank, at_back, remove_at_back, at_back-Linked, at_back-blank, inside, remove_between,
  inside-Linked, inside-blank,
}

-- What `remove_inst` gives: success, the layout without the instruction, and its links cleared.
abbrev pub Removed : Layout → ℕ → ℕ → List ℕ → Option (Unit {0}) × Layout → Type 0
Removed l b i xs (r, l') = (r ≡ some tt) × Edited l b xs l' × (l'.instructions i ≡ some blank)

module _ (l : Layout) (b i : ℕ) where
  remove_only : Holds l b (i ∷ []) → Returns (Removed l b i []) (remove_inst i l)
  remove_only h =
      let (e, _) = h.seg in
      rw (remove_alone l b i h.at h.found e) (
        refl,
        Unlinked-Edited l (alone l b i h.at h.found) b i [] [] h (alone-Linked l b i h.at h.found),
        alone-blank l b i h.at h.found,
      )

  remove_first :
      (z : ℕ) (zs : List ℕ)
      → Holds l b (i ∷ z ∷ zs)
      → Returns (Removed l b i (z ∷ zs)) (remove_inst i l)
  remove_first z zs h =
      let (e, later) = h.seg in
      let (behind, _) = later in
      let w = node b (some i) (head_or zs none) in
      let i_z = (let (out, _) = h.distinct in has-head i z zs out) in
      rw (remove_at_front l b i h.at h.found z w behind i_z e) (
        refl,
        Unlinked-Edited l (at_front l b i h.at h.found z w behind i_z) b i [] (z ∷ zs) h
            (rw (sym h.last) (at_front-Linked l b i h.at h.found z w behind i_z)),
        at_front-blank l b i h.at h.found z w behind i_z,
      )

  module _ (ys : List ℕ) (q : ℕ) where
    abbrev before : List ℕ
    before = ys ++ q ∷ []

    left_node :
        Seg l.instructions b none before (some i)
        → l.instructions q ≡ some (node b (last_or none ys) (some i))
    left_node s = let (there, _) = Seg-right l.instructions b none ys (q ∷ []) (some i) s in there

    right_node :
        (zs : List ℕ)
        → Seg l.instructions b (last_or none before) (i ∷ zs) none
        → l.instructions i ≡ some (node b (some q) (head_or zs none))
    right_node zs s = let (there, _) = rw (last_or-snoc none ys q) at s in there

    remove_last :
        Holds l b (before ++ i ∷ []) → Returns (Removed l b i (before ++ [])) (remove_inst i l)
    remove_last h =
        let v = node b (last_or none ys) (some i) in
        let there = left_node (front l l b i before [] h) in
        let e = right_node [] (back l l b i before [] h) in
        let i_q =
          ne_sym q i (has-head q i [] (apart_front l l b i before [] h q (has-snoc ys q))) in
        let at_first = h.first ∙ head_or-snoc ys q (i ∷ []) in
        let l' = at_back l b i h.at h.found q v there i_q in
        let k = at_back-Linked l b i h.at h.found q v there i_q in
        rw (remove_at_back l b i h.at h.found q v there i_q e) (
          refl,
          Unlinked-Edited l l' b i before [] h (
              rw
                (
                  last_or-append none before [],
                  last_or-snoc none ys q,
                  head_or-snoc ys q [],
                  sym at_first,
                )
                k),
          at_back-blank l b i h.at h.found q v there i_q,
        )

    remove_inside :
        (z : ℕ) (zs : List ℕ)
        → Holds l b (before ++ i ∷ z ∷ zs)
        → Returns (Removed l b i (before ++ z ∷ zs)) (remove_inst i l)
    remove_inside z zs h =
        let v = node b (last_or none ys) (some i) in
        let w = node b (some i) (head_or zs none) in
        let there = left_node (front l l b i before (z ∷ zs) h) in
        let e = right_node (z ∷ zs) (back l l b i before (z ∷ zs) h) in
        let (_, later) = back l l b i before (z ∷ zs) h in
        let (behind, _) = later in
        let (out, _) = Distinct-right before (i ∷ z ∷ zs) h.distinct in
        let i_z = has-head i z zs out in
        let q_out = apart_front l l b i before (z ∷ zs) h q (has-snoc ys q) in
        let i_q = ne_sym q i (has-head q i (z ∷ zs) q_out) in
        let q_z = has-head q z zs (has-tail q i (z ∷ zs) q_out) in
        let at_first = h.first ∙ head_or-snoc ys q (i ∷ z ∷ zs) in
        let at_last =
          last_or-append none before (z ∷ zs)
          ∙ sym (last_or-append none before (i ∷ z ∷ zs))
          ∙ sym h.last in
        let l' = inside l b i h.at h.found q v there i_q z w behind i_z q_z in
        let k = inside-Linked l b i h.at h.found q v there i_q z w behind i_z q_z in
        rw (remove_between l b i h.at h.found q v there i_q z w behind i_z q_z e) (
          refl,
          Unlinked-Edited l l' b i before (z ∷ zs) h
              (rw (last_or-snoc none ys q, head_or-snoc ys q (z ∷ zs), sym at_first, at_last) k),
          inside-blank l b i h.at h.found q v there i_q z w behind i_z q_z,
        )

  -- The instruction is taken out of the list of its block, its own links are cleared, and the other
  -- blocks and the order of the blocks are untouched.
  pub remove_inst-Removed :
      (ys zs : List ℕ)
      → Holds l b (ys ++ i ∷ zs)
      → Returns (Removed l b i (ys ++ zs)) (remove_inst i l)
  remove_inst-Removed ys [] h = elim (snoc-cases ys) [
    | inl e ↦ let h' = rw e at h in rw e (remove_only h')
    | inr (ys', q, e) ↦ let h' = rw e at h in rw e (remove_last ys' q h')
  ]
  remove_inst-Removed ys (z ∷ zs) h = elim (snoc-cases ys) [
    | inl e ↦ let h' = rw e at h in rw e (remove_first z zs h')
    | inr (ys', q, e) ↦ let h' = rw e at h in rw e (remove_inside ys' q z zs h')
  ]
