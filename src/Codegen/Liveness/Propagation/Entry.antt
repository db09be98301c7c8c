-- ===== src/Codegen/Liveness/Propagation/Entry.antt =====
-- src/codegen/pass/liveness.rs: registers entered as definitions of a block, and blocks entered with
-- no data.
use ola_lang.Prelude.{
  ℕ, ◌≡◌, refl, sym, ◌∙◌, ap, true, none, some, List, [], ◌∷◌, ◌==◌, Bool-cases, ==_iff,
  Option-cases, inl, inr, ◌⊎◌,
}
use mathlib.Core.Path.{subst}
use mathlib.Core.List.{Memᴰ}
use mathlib.Core.List.Memᴰ.{head, tail, not-nil, cases_cons}
use ola_lang.Prelude.Map.{Map, insert}
use ola_lang.Codegen.Layout.{or_insert}
use ola_lang.Codegen.Instruction.{InstructionData}
use ola_lang.Codegen.Liveness.Propagation.{Reg, add, BlockData, new, or_new, entry, define}
use ola_lang.Codegen.Liveness.Propagation.Growth.{
  def_of, in_of, out_of, Known, insert-Known, field-same, field_self, field-grows, field-entered,
}

pub same_inst : (x y : InstructionData) → some x ≡ some y → x ≡ y
same_inst x y h = cc

-- The blocks and their definitions become more, and no register enters or leaves.
pub record Defines (m m' : Map BlockData) : Type 0 where
  pub known : (b : ℕ) → Known m b → Known m' b
  pub defs : (b : ℕ) (x : Reg) → def_of m b x ≡ true → def_of m' b x ≡ true
  pub ins : (b : ℕ) (x : Reg) → in_of m' b x ≡ in_of m b x
  pub outs : (b : ℕ) (x : Reg) → out_of m' b x ≡ out_of m b x

pub Defines-refl : (m : Map BlockData) → Defines m m
Defines-refl m = record {
  known = λ b k. k;
  defs = λ b x e. e;
  ins = λ b x. refl;
  outs = λ b x. refl;
}

pub Defines-trans : (l m n : Map BlockData) → Defines l m → Defines m n → Defines l n
Defines-trans l m n g h = record {
  known = λ b k. h.known b (g.known b k);
  defs = λ b x e. h.defs b x (g.defs b x e);
  ins = λ b x. h.ins b x ∙ g.ins b x;
  outs = λ b x. h.outs b x ∙ g.outs b x;
}

module _ (b : ℕ) where
  abbrev with_def : Map BlockData → Reg → Map BlockData
  with_def m r = insert m b (record (entry m b) { def = add (entry m b).def r })

  with_def-Defines : (m : Map BlockData) (r : Reg) → Defines m (with_def m r)
  with_def-Defines m r = record {
    known = insert-Known m b _;
    defs = field-grows m b (entry m b) _ refl (λ t. t.def) r refl;
    ins = λ c x. ap (λ t. t x) (field-same m b (entry m b) _ refl (λ t. t.live_in) refl c);
    outs = λ c x. ap (λ t. t x) (field-same m b (entry m b) _ refl (λ t. t.live_out) refl c);
  }

  pub define-Defines : (rs : List Reg) (m : Map BlockData) → Defines m (define b rs m)
  define-Defines [] m = Defines-refl m
  define-Defines (r ∷ rs) m =
      Defines-trans m (with_def m r) _ (with_def-Defines m r) (define-Defines rs (with_def m r))

  pub define-def :
      (rs : List Reg) (m : Map BlockData) (x : Reg) → Memᴰ x rs → def_of (define b rs m) b x ≡ true
  define-def [] m x n = elim (not-nil n) [ ]
  define-def (r ∷ rs) m x n = elim (cases_cons n) [
    | inl e ↦ (define-Defines rs (with_def m r)).defs b x (
        subst (λ y. def_of (with_def m r) b y ≡ true) (sym e)
          (field_self m b (entry m b) _ refl (λ t. t.def) r refl))
    | inr n' ↦ define-def rs (with_def m r) x n'
  ]

  pub define-cases :
      (rs : List Reg) (m : Map BlockData) (c : ℕ) (x : Reg)
      → def_of (define b rs m) c x ≡ true
      → ((c ≡ b) × Memᴰ x rs) ⊎ (def_of m c x ≡ true)
  define-cases [] m c x h = inr h
  define-cases (r ∷ rs) m c x h = elim (define-cases rs (with_def m r) c x h) [
    | inl (e, n) ↦ inl (e, tail n)
    | inr h' ↦ elim (field-entered m b (entry m b) _ refl (λ t. t.def) r refl c x h') [
      | inl (e, e') ↦ inl (e, head e')
      | inr h'' ↦ inr h''
    ]
  ]

  module _ (m : Map BlockData) where
    or_insert-none : m b ≡ none → or_insert m b new ≡ insert m b new
    or_insert-none e = rw (e, or_insert) refl

    or_insert-some : (d : BlockData) → m b ≡ some d → or_insert m b new ≡ m
    or_insert-some d e = rw (e, or_insert) refl

    insert-entry : m b ≡ none → (c : ℕ) → entry (insert m b new) c ≡ entry m c
    insert-entry e c = elim (Bool-cases (c == b)) [
      | inl h ↦ rw h (sym (ap or_new (ap m ((==_iff c b).0 h) ∙ e)))
      | inr h ↦ rw h refl
    ]

    pub or_insert-entry : (c : ℕ) → entry (or_insert m b new) c ≡ entry m c
    or_insert-entry c = elim (Option-cases (m b)) [
      | inl e ↦ ap (λ t. entry t c) (or_insert-none e) ∙ insert-entry e c
      | inr (d, e) ↦ ap (λ t. entry t c) (or_insert-some d e)
    ]

    pub or_insert-Known : Known (or_insert m b new) b
    or_insert-Known = elim (Option-cases (m b)) [
      | inl e ↦ subst (λ t. Known t b) (sym (or_insert-none e)) (new, rw ((==_iff b b).1 refl) refl)
      | inr (d, e) ↦ subst (λ t. Known t b) (sym (or_insert-some d e)) (d, e)
    ]

    or_insert-keeps : (c : ℕ) → Known m c → Known (or_insert m b new) c
    or_insert-keeps c k = elim (Option-cases (m b)) [
      | inl e ↦ subst (λ t. Known t c) (sym (or_insert-none e)) (insert-Known m b new c k)
      | inr (d, e) ↦ subst (λ t. Known t c) (sym (or_insert-some d e)) k
    ]

    pub or_insert-Defines : Defines m (or_insert m b new)
    or_insert-Defines = record {
      known = or_insert-keeps;
      defs = λ c x e. ap (λ t. t.def x) (or_insert-entry c) ∙ e;
      ins = λ c x. ap (λ t. t.live_in x) (or_insert-entry c);
      outs = λ c x. ap (λ t. t.live_out x) (or_insert-entry c);
    }
