-- ===== src/Codegen/Liveness/Propagation/Recursion.antt =====
-- src/codegen/pass/liveness.rs: `propagate_reg` returns and keeps the invariant.
use ola_lang.Prelude.{
  ℕ, zero, suc, ◌<◌, ◌≡◌, refl, sym, ◌∙◌, ap, true, false, Option, none, some, List, Bool-cases,
  inl, inr, ◌⊎◌, arith,
}
use mathlib.Core.Path.{subst}
use ola_lang.Prelude.Map.{Map}
use ola_lang.Prelude.Outcome.{Outcome, done, Returns, Returns-mono}
use ola_lang.Prelude.Loops.{for_each, for_each-Through}
use mathlib.Core.List.{Memᴰ}
use ola_lang.Codegen.Liveness.Propagation.{
  Reg, BlockData, Function, or_new, skips, to_pred, propagate_reg,
}
use ola_lang.Codegen.Liveness.Propagation.Growth.{
  in_of, out_of, Grows, Grows-refl, Grows-trans, with_in, with_out, with_in_self, with_in-Grows,
  with_out_self, with_out-Grows, missing, missing-Grows, missing-less,
}
use ola_lang.Codegen.Liveness.Propagation.Alive.{Entered, Wanted, leads, Plus, Inv}
use ola_lang.Codegen.Liveness.Propagation.Steps.{shut_out, shut_in, enter_in, enter_out}

nothing_less : (a : ℕ) → a < 0 → ⊥
nothing_less a h = omega arith

module _ (fuel : ℕ) (f : Function) (r : Reg) (phi_pred : Option ℕ) (b : ℕ) (m : Map BlockData)
    (d : BlockData) (k : m b ≡ some d) where
  propagate_reg-written : d.def r ≡ true → propagate_reg (suc fuel) f r phi_pred b m ≡ done m
  unfolding propagate_reg
  propagate_reg-written e = rw (k, e) refl

  propagate_reg-seen :
      d.def r ≡ false → d.live_in r ≡ true → propagate_reg (suc fuel) f r phi_pred b m ≡ done m
  unfolding propagate_reg
  propagate_reg-seen e e' = rw (k, e, e') refl

  propagate_reg-loop :
      (ps : List ℕ)
      → f.preds b ≡ some ps
      → d.def r ≡ false
      → d.live_in r ≡ false
      → propagate_reg (suc fuel) f r phi_pred b m
        ≡ for_each
            (to_pred (λ p m. propagate_reg fuel f r none p m) r phi_pred)
            ps
            (with_in m b d r)
  unfolding propagate_reg
  propagate_reg-loop ps e' e e'' = rw (k, e, e'', e') refl

module _ (again : ℕ → Map BlockData → Outcome (Map BlockData)) (r : Reg) (phi_pred : Option ℕ)
    (p : ℕ) (m : Map BlockData) where
  to_pred-skips : skips phi_pred p ≡ true → to_pred again r phi_pred p m ≡ done m
  to_pred-skips e = rw e refl

  module _ (d : BlockData) (e : skips phi_pred p ≡ false) (k : m p ≡ some d) where
    to_pred-seen : d.live_out r ≡ true → to_pred again r phi_pred p m ≡ done m
    to_pred-seen e' = rw (e, k, e') refl

    to_pred-again : d.live_out r ≡ false → to_pred again r phi_pred p m ≡ again p (with_out m p d r)
    to_pred-again e' = rw (e, k, e') refl

module _ (f : Function) (blocks : List ℕ) (preds : ℕ → List ℕ) (Uses : ℕ → Reg → Type 0)
    (From : ℕ → Reg → ℕ → Type 0) (Writes : ℕ → Reg → Type 0)
    (found : (b : ℕ) → Memᴰ b blocks → f.preds b ≡ some (preds b))
    (inside : (b p : ℕ) → Memᴰ b blocks → Memᴰ p (preds b) → Memᴰ p blocks) where
  -- what a call of `propagate_reg` gives
  abbrev pub Propagated :
      (open_in open_out : ℕ → Reg → Type 0) → Reg → ℕ → Map BlockData → Map BlockData → Type 0
  Propagated open_in open_out r b m m' =
      Inv preds Uses From Writes blocks open_in open_out m'
      × Grows m m'
      × (Writes b r ⊎ (in_of m' b r ≡ true))

  -- the recursive call, with less fuel
  abbrev Again : ℕ → Type 1
  Again fuel =
      (open_in open_out : ℕ → Reg → Type 0) (r : Reg) (phi_pred : Option ℕ) (b : ℕ)
      (m : Map BlockData)
      → Memᴰ b blocks
      → ((Writes b r → ⊥) → Entered preds Uses From Writes r b)
      → ((p : ℕ)
          → (Writes b r → ⊥)
          → skips phi_pred p ≡ false
          → Wanted preds Uses From Writes r b p)
      → (phi_pred ≡ none) ⊎ open_in b r
      → missing r m blocks < fuel
      → Inv preds Uses From Writes blocks open_in (Plus open_out b r) m
      → Returns (Propagated open_in open_out r b m) (propagate_reg fuel f r phi_pred b m)

  module _ (fuel : ℕ) (again : Again fuel) (open_in open_out : ℕ → Reg → Type 0) (r : Reg)
      (phi_pred : Option ℕ) (b : ℕ) (in_blocks : Memᴰ b blocks)
      (live : Entered preds Uses From Writes r b)
      (hands : (p : ℕ) → skips phi_pred p ≡ false → Wanted preds Uses From Writes r b p) where
    abbrev Going : Map BlockData → Type 0
    Going m =
        Inv preds Uses From Writes blocks (Plus open_in b r) open_out m
        × (missing r m blocks < suc fuel)

    abbrev Handed : ℕ → Map BlockData → Type 0
    Handed p m = (skips phi_pred p ≡ true) ⊎ (out_of m p r ≡ true)

    abbrev Turn : ℕ → Map BlockData → Map BlockData → Type 0
    Turn p m m' = Going m' × Grows m m' × Handed p m'

    hand_on :
        (p : ℕ) (m : Map BlockData) (d : BlockData)
        → Memᴰ p (preds b)
        → Going m
        → skips phi_pred p ≡ false
        → m p ≡ some d
        → d.live_out r ≡ false
        → Returns (Turn p m) (propagate_reg fuel f r none p (with_out m p d r))
    hand_on p m d n (i, left) kept k e =
        let g = with_out-Grows m p d r k in
        let self = with_out_self m p d r k in
        let less =
          missing-less r m (with_out m p d r) g blocks p (inside b p in_blocks n)
            (ap (λ o. (or_new o).live_out r) k ∙ e) self in
        Returns-mono (Propagated (Plus open_in b r) open_out r p (with_out m p d r)) (Turn p m)
          (propagate_reg fuel f r none p (with_out m p d r))
          (again (Plus open_in b r) open_out r none p (with_out m p d r) (inside b p in_blocks n)
            (λ w. inl (leads preds Uses From Writes (hands p kept) n w))
            (λ _ w _. inl (leads preds Uses From Writes (hands p kept) n w)) (inl refl)
            (omega arith)
            (enter_out preds Uses From Writes blocks (Plus open_in b r) open_out m p r d k i
              (b, hands p kept, n)))
          (λ m' (i', g', _).
            let fewer = missing-Grows r (with_out m p d r) m' g' blocks in
            ((i', omega arith), Grows-trans m (with_out m p d r) m' g g', inr (g'.outs p r self)))

    turn :
        (p : ℕ) (m : Map BlockData)
        → Memᴰ p (preds b)
        → Going m
        → Returns (Turn p m) (to_pred (λ p m. propagate_reg fuel f r none p m) r phi_pred p m)
    turn p m n (i, left) =
        let (d, k) = i.known p (inside b p in_blocks n) in
        let again' : ℕ → Map BlockData → Outcome (Map BlockData) =
          λ p m. propagate_reg fuel f r none p m in
        elim (Bool-cases (skips phi_pred p)) [
          | inl e ↦
              subst (Returns (Turn p m)) (sym (to_pred-skips again' r phi_pred p m e))
                ((i, left), Grows-refl m, inl e)
          | inr e ↦ elim (Bool-cases (d.live_out r)) [
            | inl e' ↦
                subst (Returns (Turn p m)) (sym (to_pred-seen again' r phi_pred p m d e k e'))
                  ((i, left), Grows-refl m, inr (ap (λ o. (or_new o).live_out r) k ∙ e'))
            | inr e' ↦
                subst (Returns (Turn p m)) (sym (to_pred-again again' r phi_pred p m d e k e'))
                  (hand_on p m d n (i, left) e k e')
          ]
        ]

    loop :
        (m : Map BlockData)
        → Going m
        → Returns
            (λ m'. Going m' × Grows m m' × ((p : ℕ) → Memᴰ p (preds b) → Handed p m'))
            (for_each (to_pred (λ p m. propagate_reg fuel f r none p m) r phi_pred) (preds b) m)
    loop m g =
        for_each-Through (to_pred (λ p m. propagate_reg fuel f r none p m) r phi_pred) Going Grows
          Handed Grows-refl Grows-trans
          (λ p s t le h. elim h [ inl e ↦ inl e | inr e ↦ inr (le.outs p r e) ]) (preds b) m turn g

  module _ (fuel : ℕ) (again : Again fuel) (open_in open_out : ℕ → Reg → Type 0) (r : Reg)
      (phi_pred : Option ℕ) (b : ℕ) (m : Map BlockData) (n : Memᴰ b blocks) (d : BlockData)
      (k : m b ≡ some d) (i : Inv preds Uses From Writes blocks open_in (Plus open_out b r) m) where
    stop :
        (Writes b r ⊎ (in_of m b r ≡ true))
        → propagate_reg (suc fuel) f r phi_pred b m ≡ done m
        → Returns (Propagated open_in open_out r b m) (propagate_reg (suc fuel) f r phi_pred b m)
    stop h e =
        subst (Returns (Propagated open_in open_out r b m)) (sym e)
          (shut_out preds Uses From Writes blocks open_in open_out m b r i h, Grows-refl m, h)

    go_on :
        Entered preds Uses From Writes r b
        → ((p : ℕ) → skips phi_pred p ≡ false → Wanted preds Uses From Writes r b p)
        → (phi_pred ≡ none) ⊎ open_in b r
        → missing r m blocks < suc fuel
        → d.def r ≡ false
        → d.live_in r ≡ false
        → Returns (Propagated open_in open_out r b m) (propagate_reg (suc fuel) f r phi_pred b m)
    go_on live hands phi left e e' =
        let g = with_in-Grows m b d r k in
        let fewer = missing-Grows r m (with_in m b d r) g blocks in
        subst (Returns (Propagated open_in open_out r b m))
          (sym (propagate_reg-loop fuel f r phi_pred b m d k (preds b) (found b n) e e'))
          (Returns-mono _ (Propagated open_in open_out r b m) _
            (loop fuel again open_in open_out r phi_pred b n live hands (with_in m b d r) (
              enter_in preds Uses From Writes blocks open_in open_out m b r d k i live,
              omega arith,
            ))
            (λ m' ((i', _), g', all). (
              shut_in preds Uses From Writes blocks open_in open_out m' b r i' (elim phi [
                | inl none_at ↦ inr (λ p q. elim (all p q) [
                  | inl s ↦ let s' : false ≡ true = sym (ap (λ o. skips o p) none_at) ∙ s in cc
                  | inr o ↦ o
                ])
                | inr o ↦ inl o
              ]),
              Grows-trans m (with_in m b d r) m' g g',
              inr (g'.ins b r (with_in_self m b d r k)),
            )))

  pub propagate_reg-Propagated : (fuel : ℕ) → Again fuel
  propagate_reg-Propagated zero open_in open_out r phi_pred b m n live hands phi left i =
      elim (nothing_less (missing r m blocks) left) [ ]
  propagate_reg-Propagated (suc fuel) open_in open_out r phi_pred b m n live hands phi left i =
      let again = propagate_reg-Propagated fuel in
      let (d, k) = i.known b n in
      elim (Bool-cases (d.def r)) [
        | inl e ↦
            stop fuel again open_in open_out r phi_pred b m n d k i
              (inl (i.defs_sound b r n (ap (λ o. (or_new o).def r) k ∙ e)))
              (propagate_reg-written fuel f r phi_pred b m d k e)
        | inr e ↦ elim (Bool-cases (d.live_in r)) [
          | inl e' ↦
              stop fuel again open_in open_out r phi_pred b m n d k i
                (inr (ap (λ o. (or_new o).live_in r) k ∙ e'))
                (propagate_reg-seen fuel f r phi_pred b m d k e e')
          | inr e' ↦
              let unwritten : Writes b r → ⊥ = λ w.
                let w' : false ≡ true =
                  sym (ap (λ o. (or_new o).def r) k ∙ e) ∙ i.defs_complete b r n w in
                cc in
              go_on fuel again open_in open_out r phi_pred b m n d k i (live unwritten)
                (λ p s. hands p unwritten s) phi left e e'
        ]
      ]
