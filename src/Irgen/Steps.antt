-- ===== src/Irgen/Steps.antt =====
-- Single calls of the builder, and what they leave.
use ola_lang.Prelude.{
  ℕ, suc, ◌≤◌, ◌<◌, ◌≡◌, refl, Bool, true, false, Option, none, some, List, [], ◌∷◌, ◌++◌, ◌==◌,
  get_last?, drop_last, length, length-append, arith,
}
use ola_lang.Prelude.Run.{Run, ok, and_then}
use ola_lang.Irgen.Builder.{
  Binary, Emit, Call, append_basic_block, position_at_end, build_unconditional_branch,
  build_conditional_branch, build_return, instruction, call, append_block, push_loop, pop_loop,
  last_loop, Progress, fill, accept, accept_all, nothing_yet,
}

-- The code returns, and its value and what it has emitted have the property.
pub data Sure {A : Type 0} (P : A → Binary → Type 0) : Run Binary A → Type 0 where
  sure : {a : A} {b : Binary} → P a b → Sure P (ok a b)

module _ {A : Type 0} {P : A → Binary → Type 0} where
  infixl 1 ◌⟫◌
  pub ◌⟫◌ :
      {B : Type 0} {Q : B → Binary → Type 0} {r : Run Binary A} {f : A → Emit B}
      → Sure P r
      → ((a : A) (b : Binary) → P a b → Sure Q (f a b))
      → Sure Q (and_then r f)
  unfolding and_then
  sure h ⟫ k = k _ _ h

  pub with_value :
      {Q : A → Binary → Type 0} {r : Run Binary A}
      → ((a : A) (b : Binary) → P a b → Q a b)
      → Sure P r
      → Sure Q r
  with_value k (sure h) = sure (k _ _ h)

-- The calls so far are allowed and have left `p`; at least `n` blocks are appended, and at least `d`
-- loops are around.
pub record At (b : Binary) (p : Progress) (n d : ℕ) : Type 0 where
  pub accepted : accept_all b.calls nothing_yet ≡ some p
  pub blocks : n ≤ b.blocks
  pub depth : d ≤ length b.loops

abbrev pub state : Bool → List ℕ → Progress
state o es = record { open_block = o; empty = es }

accept_one : (c : Call) (p r : Progress) → accept c p ≡ some r → accept_all (c ∷ []) p ≡ some r
unfolding accept_all
accept_one c p r k = rw (k, accept_all) refl

pub accept_all-append :
    (cs : List Call) (c : Call) (p q r : Progress)
    → accept_all cs p ≡ some q
    → accept c q ≡ some r
    → accept_all (cs ++ c ∷ []) p ≡ some r
unfolding accept_all
accept_all-append [] c p q r h k = let e : p ≡ q = cc in rw e (accept_one c q r k)
accept_all-append (c' ∷ cs) c p q r h k =
    more (accept c' p) h (λ p' e. accept_all-append cs c p' q r e k)
  where
    more :
        (o : Option Progress)
        → (elim o [ none ↦ none | some p' ↦ accept_all cs p' ]) ≡ some q
        → ((p' : Progress) → accept_all cs p' ≡ some q → accept_all (cs ++ c ∷ []) p' ≡ some r)
        → (elim o [ none ↦ none | some p' ↦ accept_all (cs ++ c ∷ []) p' ]) ≡ some r
    more none h go = cc
    more (some p') h go = go p' h

pub fill-here : (h : ℕ) (ms : List ℕ) → fill h (h ∷ ms) ≡ some ms
unfolding fill
fill-here h ms = ground arith

-- behind a block that was appended later
pub fill-there :
    {h m : ℕ} (ms : List ℕ) {ms' : List ℕ}
    → h < m
    → fill h ms ≡ some ms'
    → fill h (m ∷ ms) ≡ some (m ∷ ms')
unfolding fill
fill-there {h} {m} ms l e = rw (other m h l, e) refl
  where
    other : (m h : ℕ) → h < m → (m == h) ≡ false
    other m h l = ground arith

module _ {b : Binary} {n d : ℕ} where
  -- any call that the checker allows
  calls :
      (c : Call) {p q : Progress}
      → At b p n d
      → accept c p ≡ some q
      → Sure (λ _ b'. At b' q n d) (call c b)
  unfolding call
  calls c h e = sure (record {
    accepted = accept_all-append b.calls c nothing_yet _ _ h.accepted e;
    blocks = h.blocks;
    depth = h.depth;
  })

  module _ {es : List ℕ} where
    pub branches :
        (t : ℕ)
        → At b (state true es) n d
        → Sure (λ _ b'. At b' (state false es) n d) (call (build_unconditional_branch t) b)
    unfolding accept
    branches t h = calls (build_unconditional_branch t) h refl

    pub forks :
        (t u : ℕ)
        → At b (state true es) n d
        → Sure (λ _ b'. At b' (state false es) n d) (call (build_conditional_branch t u) b)
    unfolding accept
    forks t u h = calls (build_conditional_branch t u) h refl

    pub returns :
        At b (state true es) n d → Sure (λ _ b'. At b' (state false es) n d) (call build_return b)
    unfolding accept
    returns h = calls build_return h refl

    pub instructs :
        At b (state true es) n d → Sure (λ _ b'. At b' (state true es) n d) (call instruction b)
    unfolding accept
    instructs h = calls instruction h refl

    pub positions :
        (t : ℕ) {es' : List ℕ}
        → fill t es ≡ some es'
        → At b (state false es) n d
        → Sure (λ _ b'. At b' (state true es') n d) (call (position_at_end t) b)
    unfolding accept
    positions t e h = calls (position_at_end t) h (rw e refl)

    -- the new block is none of those before
    pub appends :
        {o : Bool}
        → At b (state o es) n d
        → Sure (λ t b'. (n ≤ t) × At b' (state o (t ∷ es)) (suc t) d) (append_block b)
    unfolding append_block accept
    appends h = sure (
      h.blocks,
      record {
        accepted =
            accept_all-append b.calls (append_basic_block b.blocks) nothing_yet _ _ h.accepted refl;
        blocks = omega arith;
        depth = h.depth;
      },
    )

  pub pushes :
      (t u : ℕ) {p : Progress} → At b p n d → Sure (λ _ b'. At b' p n (suc d)) (push_loop t u b)
  unfolding push_loop
  pushes t u h = sure (record {
    accepted = h.accepted;
    blocks = h.blocks;
    depth = let e = length-append b.loops ((t, u) ∷ []) in let k = h.depth in omega arith;
  })

length-drop_last : {A : Type 0} (xs : List A) → length xs ≤ suc (length (drop_last xs))
length-drop_last [] = omega arith
length-drop_last (x ∷ []) = omega arith
length-drop_last (x ∷ y ∷ xs) = omega (arith, length-drop_last (y ∷ xs))

get_last?-some : {A : Type 0} (xs : List A) → 0 < length xs → (x : A) × (get_last? xs ≡ some x)
get_last?-some [] h = absurd (omega arith)
get_last?-some (x ∷ []) h = (x, refl)
get_last?-some (x ∷ y ∷ xs) h = get_last?-some (y ∷ xs) (omega arith)

pub pops :
    {b : Binary} {n d : ℕ} {p : Progress}
    → At b p n (suc d)
    → Sure (λ _ b'. At b' p n d) (pop_loop b)
unfolding pop_loop
pops {b} h = sure (record {
  accepted = h.accepted;
  blocks = h.blocks;
  depth = let e = length-drop_last b.loops in let k = h.depth in omega arith;
})

pub finds_loop :
    {b : Binary} {n d : ℕ} {p : Progress}
    → 0 < d
    → At b p n d
    → Sure (λ _ b'. At b' p n d) (last_loop b)
unfolding last_loop
finds_loop {b} l h =
    let (x, e) = get_last?-some b.loops (let k = h.depth in omega arith) in rw e (sure h)

-- fewer blocks and loops
pub At-less : {b : Binary} {p : Progress} {n d m : ℕ} → m ≤ n → At b p n d → At b p m d
At-less l h = record {
  accepted = h.accepted;
  blocks = let k = h.blocks in omega arith;
  depth = h.depth;
}

-- The calls so far are not allowed, and no further call mends that.
abbrev pub Refused : Binary → Type 0
Refused b = accept_all b.calls nothing_yet ≡ none

accept_all-refused :
    (cs : List Call) (c : Call) (p : Progress)
    → accept_all cs p ≡ none
    → accept_all (cs ++ c ∷ []) p ≡ none
unfolding accept_all
accept_all-refused [] c p h = cc
accept_all-refused (c' ∷ cs) c p h = more (accept c' p) h (λ p'. accept_all-refused cs c p')
  where
    more :
        (o : Option Progress)
        → (elim o [ none ↦ none | some p' ↦ accept_all cs p' ]) ≡ none
        → ((p' : Progress) → accept_all cs p' ≡ none → accept_all (cs ++ c ∷ []) p' ≡ none)
        → (elim o [ none ↦ none | some p' ↦ accept_all (cs ++ c ∷ []) p' ]) ≡ none
    more none h go = refl
    more (some p') h go = go p' h

pub call-Refused : (b : Binary) (c : Call) → Refused b → Sure (λ _ b'. Refused b') (call c b)
unfolding call
call-Refused b c h = sure (accept_all-refused b.calls c nothing_yet h)

accept_all-stops :
    (cs : List Call) (c : Call) (p q : Progress)
    → accept_all cs p ≡ some q
    → accept c q ≡ none
    → accept_all (cs ++ c ∷ []) p ≡ none
unfolding accept_all
accept_all-stops [] c p q h k = let e : p ≡ q = cc in rw e (rw (k, accept_all) refl)
accept_all-stops (c' ∷ cs) c p q h k = more (accept c' p) h (λ p' e. accept_all-stops cs c p' q e k)
  where
    more :
        (o : Option Progress)
        → (elim o [ none ↦ none | some p' ↦ accept_all cs p' ]) ≡ some q
        → ((p' : Progress) → accept_all cs p' ≡ some q → accept_all (cs ++ c ∷ []) p' ≡ none)
        → (elim o [ none ↦ none | some p' ↦ accept_all (cs ++ c ∷ []) p' ]) ≡ none
    more none h go = refl
    more (some p') h go = go p' h

-- behind a terminator nothing is allowed in the block
pub refuses :
    {b : Binary} {p : Progress} {n d : ℕ} (c : Call)
    → At b p n d
    → accept c p ≡ none
    → Sure (λ _ b'. Refused b') (call c b)
unfolding call
refuses {b} {p} c h e = sure (accept_all-stops b.calls c nothing_yet p h.accepted e)
