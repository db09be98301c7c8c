-- ===== src/Irgen/Statements/Compiled.antt =====
-- src/irgen/statements.rs: every statement, by recursion on it.
use ola_lang.Prelude.{
  ℕ, suc, ◌≤◌, ◌<◌, ◌+◌, ◌≡◌, refl, sym, ap, ◌∙◌, Bool, true, false, ◌&&◌, ◌||◌, none, some, List,
  ◌∷◌, arith, Bool-cases, inl, inr, ◌⊎◌,
}
use ola_lang.Prelude.Run.{Run}
use ola_lang.Sema.Ast.Statements.{
  Statement, block, variable_decl, if_else, while, for, do_while, delete, destructure, expression,
  continue, break, return, Statements, nil, cons, reachable, all_reachable,
}
use ola_lang.Sema.Flow.{breaks_of, breaks_in, continues_of, continues_in}
use ola_lang.Sema.Flow.Tidy.{IsTidy, AreTidy, OnlyLast}
use ola_lang.Irgen.Builder.{Binary, Emit, Progress}
use ola_lang.Irgen.Statements.{Emitter, target, statement, block_of, statements, when}
use ola_lang.Irgen.Statements.Emits.{
  IsCompilable, AreCompilable, emits, when_branches, condition-Sure, next_of-Sure, variable-Sure,
  returned-Sure, first_to_end, else-Sure,
}
use ola_lang.Irgen.Steps.{
  Sure, sure, ◌⟫◌, with_value, At, state, fill-here, fill-there, branches, forks, returns,
  instructs, positions, appends, pushes, pops, finds_loop, At-less,
}

-- The jumps that stand in no loop inside have `d` loops around them.
abbrev pub Within : (jumps d : ℕ) → Type 0
Within jumps d = (jumps ≡ 0) ⊎ (0 < d)

fewer : (m m' d : ℕ) → m' ≤ m → Within m d → Within m' d
fewer m m' d l (inl e) = inl (omega arith)
fewer m m' d l (inr k) = inr k

some_around : (m d : ℕ) → 0 < m → Within m d → 0 < d
some_around m d l (inl e) = absurd (omega arith)
some_around m d l (inr k) = k

and_true : (b : Bool) → b ≡ (b && true)
and_true true = refl
and_true false = refl

if_all : (r : Bool) (b : Bool) → r ≡ true → b ≡ (r && b)
if_all r b e = rw e refl

or_true : (b : Bool) → (b || true) ≡ true
or_true true = refl
or_true false = refl

or_both : {r a c : Bool} (b : Bool) → r ≡ (true && a) → r ≡ c → (a || b) ≡ (c || b)
or_both b p q = ap (λ x. x || b) (sym p ∙ q)

from_true : (ss : Statements) → OnlyLast true ss
from_true nil = tt
from_true (cons s ss) = refl

when_next :
    {P : Unit {0} → Binary → Type 0} {r : Bool} (m : Emit (Unit {0})) {b : Binary}
    → r ≡ true
    → Sure P (m b)
    → Sure P (when r m b)
unfolding when
when_next m e h = rw e h

-- `with_value`, the call first
gives :
    {A : Type 0} {P Q : A → Binary → Type 0} {r : Run Binary A}
    → Sure P r
    → ((a : A) (b : Binary) → P a b → Q a b)
    → Sure Q r
gives h k = with_value k h

flagged :
    {b : Binary} {es : List ℕ} {f g : Bool} {n m d : ℕ}
    → f ≡ g
    → n ≤ m
    → At b (state g es) m d
    → At b (state f es) n d
flagged e l h = rw e (At-less l h)

-- a `do` leaves its loop among those around
fewer_loops : {b : Binary} {p : Progress} {n d : ℕ} → At b p n (suc d) → At b p n d
fewer_loops h = record {
  accepted = h.accepted;
  blocks = h.blocks;
  depth = let k = h.depth in omega arith;
}

-- the jumps of a statement or of a list
abbrev jumps_of : Statement → ℕ
jumps_of s = breaks_of s + continues_of s

abbrev pub jumps_in : Statements → ℕ
jumps_in ss = breaks_in ss + continues_in ss

module _ (E : Emitter) where
  -- what is proved of a statement, and of a list of statements
  abbrev pub Compiles : Bool → Emit (Unit {0}) → ℕ → Type 0
  Compiles r m jumps =
      (b : Binary) (es : List ℕ) (n d : ℕ)
      → Within jumps d
      → At b (state true es) n d
      → Sure (λ _ b'. At b' (state r es) n d) (m b)

  mutual
    unfolding statement reachable breaks_of continues_of

    statement-Compiles :
        (s : Statement)
        → IsTidy s
        → IsCompilable E s
        → Compiles (reachable s) (statement E s) (jumps_of s)
    statement-Compiles (while l f c body) (t, ts) (e, k) b es n d w h = appends h ⟫ λ x _ (l1, h1).
        appends h1 ⟫ λ y _ (l2, h2). appends h2 ⟫ λ z _ (l3, h3). branches y h3 ⟫ λ _ _ h4.
        positions y (fill-there (y ∷ x ∷ es) l3 (fill-here y (x ∷ es))) h4 ⟫ λ _ _ h5.
        condition-Sure E c x z e h5 ⟫ λ _ _ h6.
        positions x (fill-there (x ∷ es) (omega arith) (fill-here x es)) h6 ⟫ λ _ _ h7.
        pushes z y h7 ⟫ λ _ b8 h8.
        statements-Compiles body true b8 (z ∷ es) _ (suc d) (inr (omega arith)) ts k
          (from_true body) h8
        ⟫ λ r _ (h9, _). when_branches E r y h9 ⟫ λ _ _ h10. pops h10 ⟫ λ _ _ h11.
            gives (positions z (fill-here z es) h11) (λ _ _ h12. flagged t (omega arith) h12)
    statement-Compiles (do_while l f body c) (t, ts) (e, k) b es n d w h =
        appends h ⟫ λ x _ (l1, h1). appends h1 ⟫ λ y _ (l2, h2). appends h2 ⟫ λ z _ (l3, h3).
        branches x h3 ⟫ λ _ _ h4.
        positions x
          (fill-there (y ∷ x ∷ es) (omega arith) (fill-there (x ∷ es) l2 (fill-here x es))) h4
        ⟫ λ _ _ h5. pushes z y h5 ⟫ λ _ b6 h6.
            statements-Compiles body true b6 (z ∷ y ∷ es) _ (suc d) (inr (omega arith)) ts k
              (from_true body) h6
            ⟫ λ r _ (h7, _). when_branches E r y h7 ⟫ λ _ _ h8.
                positions y (fill-there (y ∷ es) l3 (fill-here y es)) h8 ⟫ λ _ _ h9.
                condition-Sure E c x z e h9 ⟫ λ _ _ h10.
                gives (positions z (fill-here z es) h10)
                  (λ _ _ h11. fewer_loops (flagged t (omega arith) h11))
    statement-Compiles (block l ss) t k b es n d w h = block-Compiles ss t k b es n d w h
    statement-Compiles (variable_decl l i p o) t k b es n d w h = variable-Sure E l i p o k h
    statement-Compiles (delete l t x) tidy (k, stays) b es n d w h =
        emits E x k h ⟫ λ _ b1 h1. stays b1 es n d h1
    statement-Compiles (destructure l fs x) t k b es n d w h = k b es n d h
    statement-Compiles (expression l f x) t k b es n d w h =
        with_value (λ _ _ h1. rw (← t) at h1) (k b es n d h)
    statement-Compiles (continue l) t k b es n d w h =
        finds_loop (some_around 1 d (omega arith) w) h ⟫ λ (end, next) _ h1. branches next h1
    statement-Compiles (break l) t k b es n d w h =
        finds_loop (some_around 1 d (omega arith) w) h ⟫ λ (end, next) _ h1. branches end h1
    statement-Compiles (return l none) t k b es n d w h = returns h
    statement-Compiles (return l (some x)) t k b es n d w h =
        k b es n d h ⟫ λ m _ (l1, h1). returned-Sure E m l1 h1
    statement-Compiles (if_else l f c ts nil) (t, tidy, _) (e, k, _) b es n d w h =
        emits E c e h ⟫ λ _ _ h1. instructs h1 ⟫ λ _ _ h2. appends h2 ⟫ λ x _ (l1, h3).
        appends h3 ⟫ λ y _ (l2, h4). forks x y h4 ⟫ λ _ _ h5.
        positions x (fill-there (x ∷ es) l2 (fill-here x es)) h5 ⟫ λ _ b6 h6.
        statements-Compiles ts true b6 (y ∷ es) _ d (fewer _ _ d (omega arith) w) tidy k
          (from_true ts) h6
        ⟫ λ r _ (h7, _). when_branches E r y h7 ⟫ λ _ _ h8.
            gives (positions y (fill-here y es) h8)
              (λ _ _ h9. flagged (t ∙ or_true (all_reachable ts)) (omega arith) h9)
    statement-Compiles (if_else l f c ts (cons s ss)) (t, tidy, tidy') (e, k, k') b es n d w h =
        emits E c e h ⟫ λ _ _ h1. instructs h1 ⟫ λ _ _ h2. appends h2 ⟫ λ x _ (l1, h3).
        appends h3 ⟫ λ y _ (l2, h4). forks x y h4 ⟫ λ _ _ h5.
        positions x (fill-there (x ∷ es) l2 (fill-here x es)) h5 ⟫ λ _ b6 h6.
        statements-Compiles ts true b6 (y ∷ es) _ d (fewer _ _ d (omega arith) w) tidy k
          (from_true ts) h6
        ⟫ λ r _ (h7, is). first_to_end E r h7 ⟫ λ o _ (es', h8, end, some_if).
            gives
              (else-Sure E y (all_reachable (cons s ss)) (statements E (cons s ss) true) o end
                (λ b' es'' h'.
                  statements-Compiles (cons s ss) true b' es'' _ d (fewer _ _ d (omega arith) w)
                    tidy' k' refl h')
                h8)
              (λ _ _ h9.
                flagged (t ∙ or_both (all_reachable (cons s ss)) is some_if) (omega arith) h9)
    statement-Compiles (for l f init (some c) next body) (t, ti, tb) (e, kn, ri, ki, kb) b es n d w
          h =
        appends h ⟫ λ x _ (l1, h1). appends h1 ⟫ λ y _ (l2, h2). appends h2 ⟫ λ z _ (l3, h3).
        appends h3 ⟫ λ u b4 (l4, h4).
        statements-Compiles init true b4 (u ∷ z ∷ y ∷ x ∷ es) _ d w ti ki (from_true init) h4
        ⟫ λ r _ (h5, is). branches x (rw (is ∙ ri) at h5) ⟫ λ _ _ h6.
            positions x
              (fill-there (z ∷ y ∷ x ∷ es) (omega arith)
                (fill-there (y ∷ x ∷ es) (omega arith) (fill-there (x ∷ es) l2 (fill-here x es))))
              h6
            ⟫ λ _ _ h7. emits E c e h7 ⟫ λ _ _ h8. forks y u h8 ⟫ λ _ _ h9.
                positions y
                  (fill-there (z ∷ y ∷ es) (omega arith) (fill-there (y ∷ es) l3 (fill-here y es)))
                  h9
                ⟫ λ _ _ h10. pushes u z h10 ⟫ λ _ b11 h11.
                    statements-Compiles body true b11 (u ∷ z ∷ es) _ (suc d) (inr (omega arith)) tb
                      kb (from_true body) h11
                    ⟫ λ r' _ (h12, _). when_branches E r' z h12 ⟫ λ _ _ h13. pops h13 ⟫ λ _ _ h14.
                        positions z (fill-there (z ∷ es) l4 (fill-here z es)) h14 ⟫ λ _ _ h15.
                        next_of-Sure E x next kn h15 ⟫ λ _ _ h16.
                        gives (positions u (fill-here u es) h16)
                          (λ _ _ h17. flagged t (omega arith) h17)
    statement-Compiles (for l f init none next body) (t, ti, tb) (ft, kn, ri, rb, ki, kb) b es n d w
          h =
        appends h ⟫ λ y _ (l2, h2). appends h2 ⟫ λ z _ (l3, h3). appends h3 ⟫ λ u b4 (l4, h4).
        statements-Compiles init true b4 (u ∷ z ∷ y ∷ es) _ d w ti ki (from_true init) h4
        ⟫ λ r _ (h5, is). branches y (rw (is ∙ ri) at h5) ⟫ λ _ _ h6.
            positions y
              (fill-there (z ∷ y ∷ es) (omega arith) (fill-there (y ∷ es) l3 (fill-here y es))) h6
            ⟫ λ _ _ h7. pushes u (target E y next z) h7 ⟫ λ _ b8 h8.
                statements-Compiles body true b8 (u ∷ z ∷ es) _ (suc d) (inr (omega arith)) tb kb
                  (from_true body) h8
                ⟫ λ r' _ (h9, is'). when_branches E r' z h9 ⟫ λ _ _ h10. pops h10 ⟫ λ _ b11 h11.
                    when_next _ (is' ∙ rb) (
                      positions z (fill-there (z ∷ es) l4 (fill-here z es)) h11 ⟫ λ _ _ h12.
                      next_of-Sure E y next kn h12)
                    ⟫ λ _ _ h13.
                        gives (positions u (fill-here u es) h13)
                          (λ _ _ h14. flagged ft (omega arith) h14)

    pub block-Compiles :
        (ss : Statements)
        → AreTidy ss
        → AreCompilable E ss
        → Compiles (all_reachable ss) (block_of E ss) (jumps_in ss)
    block-Compiles nil t k b es n d w h = sure h
    block-Compiles (cons s ss) (t, last, ts) (k, ks) b es n d w h =
        statement-Compiles s t k b es n d (fewer _ _ d (omega arith) w) h ⟫ λ _ b1 h1.
        elim (Bool-cases (reachable s)) [
          | inl e ↦
              rw (e, when)
                (block-Compiles ss ts ks b1 es n d (fewer _ _ d (omega arith) w) (rw e at h1))
          | inr e ↦ rw (e, when) (sure (rw e at h1))
        ]

    statements-Compiles :
        (ss : Statements) (r : Bool) (b : Binary) (es : List ℕ) (n d : ℕ)
        → Within (jumps_in ss) d
        → AreTidy ss
        → AreCompilable E ss
        → OnlyLast r ss
        → At b (state r es) n d
        → Sure
            (λ r' b'. At b' (state r' es) n d × (r' ≡ (r && all_reachable ss)))
            (statements E ss r b)
    statements-Compiles nil r b es n d w t k o h = sure (h, and_true r)
    statements-Compiles (cons s ss) r b es n d w (t, last, ts) (k, ks) o h =
        statement-Compiles s t k b es n d (fewer _ _ d (omega arith) w) (rw o at h) ⟫ λ _ b1 h1.
        with_value (λ r' _ (h2, e). (h2, e ∙ if_all r _ o))
          (statements-Compiles ss (reachable s) b1 es n d (fewer _ _ d (omega arith) w) ts ks last
            h1)

  pub block_of-Allowed :
      (ss : Statements)
      → AreTidy ss
      → AreCompilable E ss
      → (b : Binary) (es : List ℕ) (n d : ℕ) → Within (jumps_in ss) d
      → At b (state true es) n d
      → Sure (λ _ b'. At b' (state (all_reachable ss) es) n d) (block_of E ss b)
  block_of-Allowed = block-Compiles
