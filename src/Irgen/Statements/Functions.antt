-- ===== src/Irgen/Statements/Functions.antt =====
-- `gen_function` of src/irgen/functions.rs: for which functions its calls are allowed.
use ola_lang.Prelude.{
  ℕ, ◌≡◌, refl, Bool, true, false, ◌&&◌, Option, none, some, List, [], ◌∷◌, inl, inr, arith,
  Bool-cases, if◌then◌else◌,
}
use ola_lang.Prelude.Run.{Run, panic, pure, and_then, ◌>>◌}
use ola_lang.Sema.Ast.{Identifier, Ty}
use ola_lang.Sema.Ast.Statements.{Parameter, Statements, nil, cons, reachable, all_reachable}
use ola_lang.Sema.Flow.Tidy.{AreTidy}
use ola_lang.Irgen.Builder.{
  Binary, Progress, accept, accept_all, nothing_yet, build_return, instruction, call,
}
use ola_lang.Irgen.Statements.{
  Emitter, gen_function, last_reachable, when, available, implicit_returns, is_empty,
  populate_arguments, populate_named_returns, named_return, add_return,
}
use ola_lang.Irgen.Statements.Compiled.{jumps_in, block_of-Allowed}
use ola_lang.Irgen.Statements.Emits.{AreCompilable, Defaults}
use ola_lang.Irgen.Steps.{
  Sure, sure, ◌⟫◌, with_value, At, state, fill-here, returns, instructs, positions, appends,
  Refused, call-Refused, refuses,
}

-- before the first call for a function
abbrev pub fresh : Binary
fresh = record { calls = []; blocks = 0; loops = [] }

last_reachable-all : (ss : Statements) → AreTidy ss → last_reachable ss ≡ all_reachable ss
unfolding all_reachable
last_reachable-all nil h = refl
last_reachable-all (cons s nil) h = and_true (reachable s)
  where
    and_true : (b : Bool) → b ≡ (b && true)
    and_true true = refl
    and_true false = refl
last_reachable-all (cons s (cons s' ss)) (_, reached, h) =
    rw reached (last_reachable-all (cons s' ss) h)

-- What becomes of a function: every block has its one terminator, or a call is not allowed, or the
-- generation of code panics.
pub data Verdict : Type 0 where
  terminated malformed panics : Verdict

abbrev pub all_in : List Bool → Bool
all_in [] = true
all_in (t ∷ ts) = t && all_in ts

-- By whether the end of the body is reached, and which returns have their variable.
abbrev pub verdict : (reached : Bool) → (in_table : List Bool) → Verdict
verdict false [] = malformed
verdict false (t ∷ ts) = terminated
verdict true [] = terminated
verdict true (true ∷ []) = terminated
verdict true (false ∷ []) = panics
verdict true (t ∷ u ∷ ts) = if t && (u && all_in ts) then malformed else panics

abbrev pub Meets : Verdict → Run Binary (Unit {0}) → Type 0
Meets terminated r = Sure (λ _ b. accept_all b.calls nothing_yet ≡ some (state false [])) r
Meets malformed r = Sure (λ _ b. Refused b) r
Meets panics r = r ≡ panic

then_Meets :
    (v : Verdict) {A : Type 0} {P : A → Binary → Type 0} {r : Run Binary A}
    (f : A → Binary → Run Binary (Unit {0}))
    → Sure P r
    → ((a : A) (b : Binary) → P a b → Meets v (f a b))
    → Meets v (and_then r f)
unfolding and_then
then_Meets v f (sure h) k = k _ _ h

module _ (more : Binary → Run Binary (Unit {0})) where
  -- the loop panics at the first return without a variable
  implicit_returns-panics :
      (ts : List Bool) (b : Binary)
      → all_in ts ≡ false
      → and_then (implicit_returns ts b) (λ _. more) ≡ panic
  unfolding implicit_returns available and_then call
  implicit_returns-panics [] b h = cc
  implicit_returns-panics (false ∷ ts) b h = refl
  implicit_returns-panics (true ∷ ts) b h = implicit_returns-panics ts _ h

still : {b : Binary} → Refused b → Sure (λ _ b'. Refused b') (pure tt b)
still h = sure h

implicit_returns-Refused :
    (ts : List Bool) (b : Binary)
    → all_in ts ≡ true
    → Refused b
    → Sure (λ _ b'. Refused b') (implicit_returns ts b)
unfolding implicit_returns available
implicit_returns-Refused [] b e h = sure h
implicit_returns-Refused (false ∷ ts) b e h = cc
implicit_returns-Refused (true ∷ ts) b e h = still h ⟫ λ _ b0 h0.
    call-Refused b0 instruction h0 ⟫ λ _ b1 h1.
    call-Refused b1 build_return h1 ⟫ λ _ b2 h2. implicit_returns-Refused ts b2 e h2

idle : {b : Binary} {n d : ℕ} {p : Progress} → At b p n d → Sure (λ _ b'. At b' p n d) (pure tt b)
idle h = sure h

-- no further call
abbrev none_left : List Bool → Bool
none_left [] = true
none_left (_ ∷ _) = false

module _ {b : Binary} {n d : ℕ} where
  behind :
      (r : Bool) (ts : List Bool)
      → At b (state r []) n d
      → Meets
          (verdict r ts)
          ((do when r (implicit_returns ts); when (none_left ts) (call build_return)) b)
  unfolding when accept implicit_returns available
  behind false [] h = idle h ⟫ λ _ _ h1. refuses build_return h1 refl
  behind false (t ∷ ts) h = idle h ⟫ λ _ _ h1. sure h1.accepted
  behind true [] h = idle h ⟫ λ _ _ h1. with_value (λ _ _ h2. h2.accepted) (returns h1)
  behind true (true ∷ []) h =
      (idle h ⟫ λ _ _ h0. instructs h0 ⟫ λ _ _ h1. returns h1 ⟫ λ _ _ h2. idle h2) ⟫ λ _ _ h3.
      sure h3.accepted
  behind true (false ∷ []) h = implicit_returns-panics (pure tt) (false ∷ []) b refl
  behind true (false ∷ u ∷ ts) h = implicit_returns-panics (pure tt) (false ∷ u ∷ ts) b refl
  behind true (true ∷ false ∷ ts) h = implicit_returns-panics (pure tt) (true ∷ false ∷ ts) b refl
  behind true (true ∷ true ∷ ts) h = elim (Bool-cases (all_in ts)) [
    | inl e ↦ rw e (
        (idle h ⟫ λ _ _ h0. instructs h0 ⟫ λ _ _ h1. returns h1 ⟫ λ _ b2 h2. idle h2 ⟫ λ _ _ h3.
        refuses instruction h3 refl ⟫ λ _ b4 h4.
        call-Refused b4 build_return h4 ⟫ λ _ b5 h5. implicit_returns-Refused ts b5 e h5)
        ⟫ λ _ _ h6. sure h6)
    | inr e ↦ rw e (implicit_returns-panics (pure tt) (true ∷ true ∷ ts) b e)
  ]

at_first : At fresh nothing_yet 0 0
unfolding accept_all
at_first = record { accepted = refl; blocks = omega arith; depth = omega arith }

module _ (E : Emitter) (gives : Ty → Bool) where
  abbrev is_given : Option Identifier → Ty → Bool
  is_given none t = false
  is_given (some name) t = gives t

  -- the returns for which `populate_named_returns` makes a variable
  abbrev pub in_table : List Parameter → List Bool
  in_table [] = []
  in_table (r ∷ rs) = is_given r.id r.ty ∷ in_table rs

  in_table-none_left : (rs : List Parameter) → is_empty rs ≡ none_left (in_table rs)
  in_table-none_left [] = refl
  in_table-none_left (r ∷ rs) = refl

  populate_arguments-Sure :
      (args : List (Option Ty)) {b : Binary} {es : List ℕ} {n d : ℕ}
      → At b (state true es) n d
      → Sure (λ _ b'. At b' (state true es) n d) (populate_arguments E args b)
  unfolding populate_arguments when
  populate_arguments-Sure [] h = sure h
  populate_arguments-Sure (none ∷ args) h = populate_arguments-Sure args h
  populate_arguments-Sure (some t ∷ args) h = instructs h ⟫ λ _ _ h1. instructs h1 ⟫ λ _ b2 h2.
      elim (Bool-cases (E.is_reference_type t)) [
        | inl e ↦ rw e (instructs h2 ⟫ λ _ _ h3. populate_arguments-Sure args h3)
        | inr e ↦ rw e (idle h2 ⟫ λ _ _ h3. populate_arguments-Sure args h3)
      ]

  add_return-Sure :
      (g : Bool) {b : Binary} {es : List ℕ} {n d : ℕ}
      → At b (state true es) n d
      → Sure (λ _ b'. At b' (state true es) n d) (add_return E g b)
  unfolding add_return
  add_return-Sure false h = idle h
  add_return-Sure true h = instructs h ⟫ λ _ _ h1. instructs h1

  abbrev IsNamed : Option Identifier → Ty → Type 0
  IsNamed none t = Unit
  IsNamed (some name) t = Defaults E (gives t) t

  -- the defaults of the returns that have a name
  abbrev pub AreNamed : List Parameter → Type 0
  AreNamed [] = Unit
  AreNamed (r ∷ rs) = IsNamed r.id r.ty × AreNamed rs

  named_return-Sure :
      (o : Option Identifier) (t : Ty)
      → IsNamed o t
      → {b : Binary} {es : List ℕ} {n d : ℕ} → At b (state true es) n d
      → Sure (λ g b'. (g ≡ is_given o t) × At b' (state true es) n d) (named_return E o t b)
  unfolding named_return
  named_return-Sure none t k h = sure (refl, h)
  named_return-Sure (some name) t k {b} {es} {n} {d} h =
      k b es n d h ⟫ λ g _ (is, h1). add_return-Sure g h1 ⟫ λ _ _ h2. sure (is, h2)

  populate_named_returns-Sure :
      (rs : List Parameter)
      → AreNamed rs
      → {b : Binary} {es : List ℕ} {n d : ℕ} → At b (state true es) n d
      → Sure
          (λ ts b'. (ts ≡ in_table rs) × At b' (state true es) n d)
          (populate_named_returns E rs b)
  unfolding populate_named_returns
  populate_named_returns-Sure [] k h = sure (refl, h)
  populate_named_returns-Sure (r ∷ rs) (k, ks) h = named_return-Sure r.id r.ty k h ⟫ λ t _ (is, h1).
      populate_named_returns-Sure rs ks h1 ⟫ λ ts _ (are, h2). sure (rw (is, are) refl, h2)

  -- Of a tidy and compilable body that no break and no continue leaves, where the types of the named
  -- returns have a default or not as `gives` says: if the end of the body is not reached, every block
  -- of the function gets its one terminator where there is a return value, and a call is not allowed
  -- where there is none; if it is reached, every block gets its one terminator where there is no
  -- return value or one that has a variable; else the generation of code panics where some return has
  -- no variable (it has no name or its type no default), and a call is not allowed where all have one.
  pub gen_function-Terminated :
      (ss : Statements) (arguments : List (Option Ty)) (returns : List Parameter)
      → AreTidy ss
      → AreCompilable E ss
      → jumps_in ss ≡ 0
      → AreNamed returns
      → Meets
          (verdict (all_reachable ss) (in_table returns))
          (gen_function E ss arguments returns fresh)
  unfolding gen_function
  gen_function-Terminated ss args rs t c none_out named =
      let v = verdict (all_reachable ss) (in_table rs) in
      then_Meets v _ (appends at_first) λ entry _ (l, h1).
        then_Meets v _ (positions entry (fill-here entry []) h1) λ _ b2 h2.
          then_Meets v _ (populate_arguments-Sure args h2) λ _ b3 h3.
            then_Meets v _ (populate_named_returns-Sure rs named h3) λ ts b4 (is, h4).
              then_Meets v _ (block_of-Allowed E ss t c b4 [] _ 0 (inl none_out) h4) λ _ b5 h5.
                rw (last_reachable-all ss t, is, in_table-none_left rs)
                  (behind (all_reachable ss) (in_table rs) h5)
