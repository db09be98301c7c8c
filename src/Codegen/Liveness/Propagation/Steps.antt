-- ===== src/Codegen/Liveness/Propagation/Steps.antt =====
-- src/codegen/pass/liveness.rs: what a register that is entered at a block leaves of the invariant.
use ola_lang.Prelude.{ℕ, ◌≡◌, sym, ◌∙◌, true, some, List, inl, inr, ◌⊎◌}
use mathlib.Core.Path.{subst₂}
use ola_lang.Prelude.Map.{Map}
use mathlib.Core.List.{Memᴰ}
use ola_lang.Codegen.Liveness.Propagation.{Reg, BlockData}
use ola_lang.Codegen.Liveness.Propagation.Growth.{
  in_of, out_of, with_in, with_out, with_in_self, with_in-Grows, with_in-cases, with_in-out,
  with_out-Grows, with_out-cases, with_out-in,
}
use ola_lang.Codegen.Liveness.Propagation.Alive.{Entered, LiveOut, Plus, Inv}

module _ (preds : ℕ → List ℕ) (Uses : ℕ → Reg → Type 0) (From : ℕ → Reg → ℕ → Type 0)
    (Writes : ℕ → Reg → Type 0) (blocks : List ℕ) (open_in open_out : ℕ → Reg → Type 0)
    (m : Map BlockData) (b : ℕ) (r : Reg) where
  -- A pair is no longer open when it has what was missing.
  pub shut_out :
      Inv preds Uses From Writes blocks open_in (Plus open_out b r) m
      → (Writes b r ⊎ (in_of m b r ≡ true))
      → Inv preds Uses From Writes blocks open_in open_out m
  shut_out i h = record {
    known = i.known;
    defs_sound = i.defs_sound;
    defs_complete = i.defs_complete;
    sound_in = i.sound_in;
    sound_out = i.sound_out;
    closed_in = i.closed_in;
    closed_out = λ p x e. elim (i.closed_out p x e) [
      | inl (inl (e', e'')) ↦
          inr (subst₂ (λ c y. Writes c y ⊎ (in_of m c y ≡ true)) (sym e') (sym e'') h)
      | inl (inr o) ↦ inl o
      | inr o ↦ inr o
    ];
  }

  pub shut_in :
      Inv preds Uses From Writes blocks (Plus open_in b r) open_out m
      → (open_in b r ⊎ ((p : ℕ) → Memᴰ p (preds b) → out_of m p r ≡ true))
      → Inv preds Uses From Writes blocks open_in open_out m
  shut_in i h = record {
    known = i.known;
    defs_sound = i.defs_sound;
    defs_complete = i.defs_complete;
    sound_in = i.sound_in;
    sound_out = i.sound_out;
    closed_out = i.closed_out;
    closed_in = λ c x e. elim (i.closed_in c x e) [
      | inl (inl (e', e'')) ↦
          subst₂ (λ c y. open_in c y ⊎ ((p : ℕ) → Memᴰ p (preds c) → out_of m p y ≡ true)) (sym e')
            (sym e'') h
      | inl (inr o) ↦ inl o
      | inr o ↦ inr o
    ];
  }

  module _ (d : BlockData) (k : m b ≡ some d) where
    pub enter_in :
        Inv preds Uses From Writes blocks open_in (Plus open_out b r) m
        → Entered preds Uses From Writes r b
        → Inv preds Uses From Writes blocks (Plus open_in b r) open_out (with_in m b d r)
    enter_in i live =
        let g = with_in-Grows m b d r k in
        let out = with_in-out m b d r k in
        record {
          known = λ c h. g.known c (i.known c h);
          defs_sound = λ c x h e. i.defs_sound c x h (sym (g.defs c x) ∙ e);
          defs_complete = λ c x h w. g.defs c x ∙ i.defs_complete c x h w;
          sound_in = λ c x e. elim (with_in-cases m b d r k c x e) [
            | inl (e', e'') ↦
                subst₂ (λ c y. Entered preds Uses From Writes y c) (sym e') (sym e'') live
            | inr h ↦ i.sound_in c x h
          ];
          sound_out = λ c x e. i.sound_out c x (sym (out c x) ∙ e);
          closed_in = λ c x e. elim (with_in-cases m b d r k c x e) [
            | inl here ↦ inl (inl here)
            | inr h ↦ elim (i.closed_in c x h) [
              | inl o ↦ inl (inr o)
              | inr all ↦ inr (λ p n. out p x ∙ all p n)
            ]
          ];
          closed_out = λ p x e. elim (i.closed_out p x (sym (out p x) ∙ e)) [
            | inl (inl (e', e'')) ↦ inr (
                inr (
                  subst₂ (λ c y. in_of (with_in m b d r) c y ≡ true) (sym e') (sym e'')
                    (with_in_self m b d r k)))
            | inl (inr o) ↦ inl o
            | inr (inl w) ↦ inr (inl w)
            | inr (inr h) ↦ inr (inr (g.ins p x h))
          ];
        }

    pub enter_out :
        Inv preds Uses From Writes blocks open_in open_out m
        → LiveOut preds Uses From Writes r b
        → Inv preds Uses From Writes blocks open_in (Plus open_out b r) (with_out m b d r)
    enter_out i live =
        let g = with_out-Grows m b d r k in
        let same = with_out-in m b d r k in
        record {
          known = λ c h. g.known c (i.known c h);
          defs_sound = λ c x h e. i.defs_sound c x h (sym (g.defs c x) ∙ e);
          defs_complete = λ c x h w. g.defs c x ∙ i.defs_complete c x h w;
          sound_in = λ c x e. i.sound_in c x (sym (same c x) ∙ e);
          sound_out = λ c x e. elim (with_out-cases m b d r k c x e) [
            | inl (e', e'') ↦
                subst₂ (λ c y. LiveOut preds Uses From Writes y c) (sym e') (sym e'') live
            | inr h ↦ i.sound_out c x h
          ];
          closed_in = λ c x e. elim (i.closed_in c x (sym (same c x) ∙ e)) [
            | inl o ↦ inl o
            | inr all ↦ inr (λ p n. g.outs p x (all p n))
          ];
          closed_out = λ p x e. elim (with_out-cases m b d r k p x e) [
            | inl here ↦ inl (inl here)
            | inr h ↦ elim (i.closed_out p x h) [
              | inl o ↦ inl (inr o)
              | inr (inl w) ↦ inr (inl w)
              | inr (inr h') ↦ inr (inr (same p x ∙ h'))
            ]
          ];
        }
