-- ===== src/Codegen/Liveness/Propagation/Growth.antt =====
-- src/codegen/pass/liveness.rs: how the data of the blocks grows when a register is entered, and
-- the count of the blocks that a register does not leave yet.
use ola_lang.Prelude.{
  ℕ, suc, ◌≤◌, ◌<◌, ◌≡◌, refl, sym, ◌∙◌, ap, Bool, true, false, some, List, [], ◌∷◌, ◌==◌,
  if◌then◌else◌, ==_iff, Bool-cases, inl, inr, ◌⊎◌, arith, length,
}
use ola_lang.Prelude.Map.{Map, insert}
use mathlib.Core.List.{Memᴰ}
use mathlib.Core.List.Memᴰ.{not-nil, cases_cons}
use ola_lang.Codegen.Liveness.Propagation.{Reg, phys, virt, reg_eq, add, BlockData, or_new, entry}

abbrev pub def_of : Map BlockData → ℕ → Reg → Bool
def_of m b r = (entry m b).def r

abbrev pub in_of : Map BlockData → ℕ → Reg → Bool
in_of m b r = (entry m b).live_in r

abbrev pub out_of : Map BlockData → ℕ → Reg → Bool
out_of m b r = (entry m b).live_out r

abbrev pub Known : Map BlockData → ℕ → Type 0
Known m b = (d : BlockData) × (m b ≡ some d)

pub reg_eq_refl : (r : Reg) → reg_eq r r ≡ true
reg_eq_refl (phys n) = ground arith
reg_eq_refl (virt n) = ground arith

pub reg_eq-eq : (x r : Reg) → reg_eq x r ≡ true → x ≡ r
reg_eq-eq (phys a) (phys b) h = ap phys (ground arith)
reg_eq-eq (virt a) (virt b) h = ap virt (ground arith)
reg_eq-eq (phys a) (virt b) h = cc
reg_eq-eq (virt a) (phys b) h = cc

-- Nothing is taken out, and the definitions are left.
pub record Grows (m m' : Map BlockData) : Type 0 where
  pub known : (b : ℕ) → Known m b → Known m' b
  pub defs : (b : ℕ) (x : Reg) → def_of m' b x ≡ def_of m b x
  pub ins : (b : ℕ) (x : Reg) → in_of m b x ≡ true → in_of m' b x ≡ true
  pub outs : (b : ℕ) (x : Reg) → out_of m b x ≡ true → out_of m' b x ≡ true

pub Grows-refl : (m : Map BlockData) → Grows m m
Grows-refl m = record { known = λ b k. k; defs = λ b x. refl; ins = λ b x e. e; outs = λ b x e. e }

pub Grows-trans : (l m n : Map BlockData) → Grows l m → Grows m n → Grows l n
Grows-trans l m n g h = record {
  known = λ b k. h.known b (g.known b k);
  defs = λ b x. h.defs b x ∙ g.defs b x;
  ins = λ b x e. h.ins b x (g.ins b x e);
  outs = λ b x e. h.outs b x (g.outs b x e);
}

pub add_self : (s : Reg → Bool) (r : Reg) → add s r r ≡ true
add_self s r = rw (reg_eq_refl r) refl

pub add-other : (s : Reg → Bool) (r x : Reg) → s x ≡ true → add s r x ≡ true
add-other s r x h = elim (Bool-cases (reg_eq x r)) [ inl e ↦ rw e refl | inr e ↦ rw e h ]

pub add-cases : (s : Reg → Bool) (r x : Reg) → add s r x ≡ true → (x ≡ r) ⊎ (s x ≡ true)
add-cases s r x h = elim (Bool-cases (reg_eq x r)) [
  | inl e ↦ inl (reg_eq-eq x r e)
  | inr e ↦ inr (let h' = rw e at h in h')
]

abbrev pub with_in : Map BlockData → ℕ → BlockData → Reg → Map BlockData
with_in m b d r = insert m b (record d { live_in = add d.live_in r })

abbrev pub with_out : Map BlockData → ℕ → BlockData → Reg → Map BlockData
with_out m b d r = insert m b (record d { live_out = add d.live_out r })

module _ (m : Map BlockData) (b : ℕ) (d : BlockData) where
  insert-here : (c : ℕ) → (c == b) ≡ true → entry (insert m b d) c ≡ d
  insert-here c e = rw e refl

  insert-away : (c : ℕ) → (c == b) ≡ false → entry (insert m b d) c ≡ entry m c
  insert-away c e = rw e refl

  pub insert-Known : (c : ℕ) → Known m c → Known (insert m b d) c
  insert-Known c (e, k) = elim (Bool-cases (c == b)) [
    | inl h ↦ (d, rw h refl)
    | inr h ↦ (e, rw h k)
  ]

module _ (m : Map BlockData) (b : ℕ) (d d' : BlockData) (k : entry m b ≡ d) where
  -- A field of the block's data is what it was or what is written.
  field-cases {ℓ} :
      {V : Type ℓ} (field : BlockData → V) (c : ℕ)
      → ((c ≡ b) × (field (entry (insert m b d') c) ≡ field d') × (field (entry m c) ≡ field d))
        ⊎ (field (entry (insert m b d') c) ≡ field (entry m c))
  field-cases field c = elim (Bool-cases (c == b)) [
    | inl h ↦ inl (
      (==_iff c b).0 h,
      ap field (insert-here m b d' c h),
      ap field (ap (entry m) ((==_iff c b).0 h) ∙ k),
    )
    | inr h ↦ inr (ap field (insert-away m b d' c h))
  ]

  -- A field that is written as it was is as it was.
  pub field-same {ℓ} :
      {V : Type ℓ} (field : BlockData → V)
      → field d' ≡ field d
      → (c : ℕ) → field (entry (insert m b d') c) ≡ field (entry m c)
  field-same field e c = elim (field-cases field c) [ inl (_, n, o) ↦ n ∙ e ∙ sym o | inr h ↦ h ]

  -- A set to which a register is added keeps the others, and has no others.
  module _ (field : BlockData → Reg → Bool) (r : Reg) (e : field d' ≡ add (field d) r) where
    pub field_self : field (entry (insert m b d') b) r ≡ true
    field_self =
        ap (λ t. field t r) (insert-here m b d' b ((==_iff b b).1 refl))
        ∙ ap (λ t. t r) e
        ∙ add_self (field d) r

    pub field-grows :
        (c : ℕ) (x : Reg) → field (entry m c) x ≡ true → field (entry (insert m b d') c) x ≡ true
    field-grows c x h = elim (field-cases field c) [
      | inl (_, n, o) ↦
          ap (λ t. t x) n ∙ ap (λ t. t x) e ∙ add-other (field d) r x (ap (λ t. t x) (sym o) ∙ h)
      | inr h' ↦ ap (λ t. t x) h' ∙ h
    ]

    pub field-entered :
        (c : ℕ) (x : Reg)
        → field (entry (insert m b d') c) x ≡ true
        → ((c ≡ b) × (x ≡ r)) ⊎ (field (entry m c) x ≡ true)
    field-entered c x h = elim (field-cases field c) [
      | inl (here, n, o) ↦
          elim (add-cases (field d) r x (ap (λ t. t x) (sym e) ∙ ap (λ t. t x) (sym n) ∙ h)) [
            | inl e' ↦ inl (here, e')
            | inr h' ↦ inr (ap (λ t. t x) o ∙ h')
          ]
      | inr h' ↦ inr (ap (λ t. t x) (sym h') ∙ h)
    ]

module _ (m : Map BlockData) (b : ℕ) (d : BlockData) (r : Reg) (k : m b ≡ some d) where
  pub with_in_self : in_of (with_in m b d r) b r ≡ true
  with_in_self = field_self m b d _ (ap or_new k) (λ t. t.live_in) r refl

  pub with_in-Grows : Grows m (with_in m b d r)
  with_in-Grows = record {
    known = insert-Known m b _;
    defs = λ c x. ap (λ t. t x) (field-same m b d _ (ap or_new k) (λ t. t.def) refl c);
    ins = field-grows m b d _ (ap or_new k) (λ t. t.live_in) r refl;
    outs = λ c x h. ap (λ t. t x) (field-same m b d _ (ap or_new k) (λ t. t.live_out) refl c) ∙ h;
  }

  pub with_in-cases :
      (c : ℕ) (x : Reg)
      → in_of (with_in m b d r) c x ≡ true
      → ((c ≡ b) × (x ≡ r)) ⊎ (in_of m c x ≡ true)
  with_in-cases = field-entered m b d _ (ap or_new k) (λ t. t.live_in) r refl

  pub with_in-out : (c : ℕ) (x : Reg) → out_of (with_in m b d r) c x ≡ out_of m c x
  with_in-out c x = ap (λ t. t x) (field-same m b d _ (ap or_new k) (λ t. t.live_out) refl c)

  pub with_out_self : out_of (with_out m b d r) b r ≡ true
  with_out_self = field_self m b d _ (ap or_new k) (λ t. t.live_out) r refl

  pub with_out-Grows : Grows m (with_out m b d r)
  with_out-Grows = record {
    known = insert-Known m b _;
    defs = λ c x. ap (λ t. t x) (field-same m b d _ (ap or_new k) (λ t. t.def) refl c);
    ins = λ c x h. ap (λ t. t x) (field-same m b d _ (ap or_new k) (λ t. t.live_in) refl c) ∙ h;
    outs = field-grows m b d _ (ap or_new k) (λ t. t.live_out) r refl;
  }

  pub with_out-cases :
      (c : ℕ) (x : Reg)
      → out_of (with_out m b d r) c x ≡ true
      → ((c ≡ b) × (x ≡ r)) ⊎ (out_of m c x ≡ true)
  with_out-cases = field-entered m b d _ (ap or_new k) (λ t. t.live_out) r refl

  pub with_out-in : (c : ℕ) (x : Reg) → in_of (with_out m b d r) c x ≡ in_of m c x
  with_out-in c x = ap (λ t. t x) (field-same m b d _ (ap or_new k) (λ t. t.live_in) refl c)

-- the blocks of the list whose end the register does not reach yet
abbrev pub missing : Reg → Map BlockData → List ℕ → ℕ
missing r m [] = 0
missing r m (b ∷ bs) = if out_of m b r then missing r m bs else suc (missing r m bs)

module _ (r : Reg) (m m' : Map BlockData) (g : Grows m m') where
  pub missing-Grows : (bs : List ℕ) → missing r m' bs ≤ missing r m bs
  missing-Grows [] = omega arith
  missing-Grows (b ∷ bs) =
      let rest = missing-Grows bs in
      elim (Bool-cases (out_of m b r)) [
        | inl e ↦ rw (e, g.outs b r e) rest
        | inr e ↦ elim (Bool-cases (out_of m' b r)) [
          | inl e' ↦ rw (e, e') (omega arith)
          | inr e' ↦ rw (e, e') (omega arith)
        ]
      ]

  pub missing-less :
      (bs : List ℕ) (p : ℕ)
      → Memᴰ p bs
      → out_of m p r ≡ false
      → out_of m' p r ≡ true
      → missing r m' bs < missing r m bs
  missing-less [] p i old new = elim (not-nil i) [ ]
  missing-less (b ∷ bs) p i old new = elim (cases_cons i) [
    | inl e ↦
        let rest = missing-Grows bs in
        rw (ap (λ c. out_of m c r) (sym e) ∙ old, ap (λ c. out_of m' c r) (sym e) ∙ new)
          (omega arith)
    | inr j ↦
        let rest = missing-less bs p j old new in
        elim (Bool-cases (out_of m b r)) [
          | inl e' ↦ rw (e', g.outs b r e') rest
          | inr e' ↦ elim (Bool-cases (out_of m' b r)) [
            | inl e'' ↦ rw (e', e'') (omega arith)
            | inr e'' ↦ rw (e', e'') (omega arith)
          ]
        ]
  ]

pub missing-length : (r : Reg) (m : Map BlockData) (bs : List ℕ) → missing r m bs ≤ length bs
missing-length r m [] = omega arith
missing-length r m (b ∷ bs) =
    let rest = missing-length r m bs in
    elim (Bool-cases (out_of m b r)) [ inl e ↦ rw e (omega arith) | inr e ↦ rw e (omega arith) ]
