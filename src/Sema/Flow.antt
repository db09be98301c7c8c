-- ===== src/Sema/Flow.antt =====
-- The ways in which control can leave the resolved statements of src/sema/ast.rs: a description by
-- itself, against which src/sema/statements.rs and src/irgen/statements.rs are compared. A condition
-- may come out either way; an expression ends unless its type is `Unreachable`.
pub mod Jumps
pub mod Tidy
pub mod Exact
use ola_lang.Prelude.{ℕ, ◌+◌, ◌≡◌, ◌≢◌, Bool, true, false, Option, none, some, List}
use ola_lang.Sema.Ast.{Loc, Ty, unreachable, Expression}
use ola_lang.Sema.Ast.Statements.{
  Parameter, DestructureField, Statement, block, variable_decl, if_else, while, for, do_while,
  delete, destructure, expression, continue, break, return, Statements, nil, cons,
}
use ola_lang.Sema.Casts.{ty_of}

pub data Exit : Type 0 where
  falls breaks continues returns : Exit

abbrev pub is_unreachable : Option Ty → Bool
is_unreachable (some unreachable) = true
is_unreachable _ = false

abbrev pub Ends : Expression → Type 0
Ends e = is_unreachable (ty_of e) ≡ false

abbrev pub NextEnds : Option Expression → Type 0
NextEnds none = Unit
NextEnds (some e) = Ends e

-- How a loop is left by a body that is left so; `none`: the loop goes on.
abbrev pub after_body : Exit → Option Exit
after_body falls = none
after_body continues = none
after_body breaks = some falls
after_body returns = some returns

mutual
  pub data Way : Statement → Exit → Type 0 where
    in_block : {l : Loc} {ss : Statements} {x : Exit} → Ways ss x → Way (block l ss) x
    declares :
        {l : Loc} {n : ℕ} {p : Parameter} {e : Option Expression}
        → Way (variable_decl l n p e) falls
    deletes : {l : Loc} {t : Ty} {e : Expression} → Way (delete l t e) falls
    destructures :
        {l : Loc} {fs : List DestructureField} {e : Expression} → Way (destructure l fs e) falls
    evaluates : {l : Loc} {r : Bool} {e : Expression} → Ends e → Way (expression l r e) falls
    jumps_out : {l : Loc} → Way (break l) breaks
    jumps_on : {l : Loc} → Way (continue l) continues
    leaves : {l : Loc} {e : Option Expression} → Way (return l e) returns
    first_branch :
        {l : Loc} {r : Bool} {c : Expression} {ts es : Statements} {x : Exit}
        → Ways ts x
        → Way (if_else l r c ts es) x
    second_branch :
        {l : Loc} {r : Bool} {c : Expression} {ts es : Statements} {x : Exit}
        → Ways es x
        → Way (if_else l r c ts es) x
    turns :
        {l : Loc} {r : Bool} {c : Expression} {body : Statements} {x : Exit}
        → Rounds (some c) none body x
        → Way (while l r c body) x
    body_first :
        {l : Loc} {r : Bool} {c : Expression} {body : Statements} {x y : Exit}
        → Ways body x
        → after_body x ≡ some y
        → Way (do_while l r body c) y
    body_then :
        {l : Loc} {r : Bool} {c : Expression} {body : Statements} {x y : Exit}
        → Ways body x
        → after_body x ≡ none
        → Rounds (some c) none body y
        → Way (do_while l r body c) y
    in_init :
        {l : Loc} {r : Bool} {c n : Option Expression} {init body : Statements} {x : Exit}
        → Ways init x
        → x ≢ falls
        → Way (for l r init c n body) x
    behind_init :
        {l : Loc} {r : Bool} {c n : Option Expression} {init body : Statements} {x : Exit}
        → Ways init falls
        → Rounds c n body x
        → Way (for l r init c n body) x

  pub data Ways : Statements → Exit → Type 0 where
    done : Ways nil falls
    next :
        {s : Statement} {ss : Statements} {x : Exit} → Way s falls → Ways ss x → Ways (cons s ss) x
    stops : {s : Statement} {ss : Statements} {x : Exit} → Way s x → x ≢ falls → Ways (cons s ss) x

  -- from the test of a loop on: its condition, what is evaluated between two rounds, and its body
  pub data Rounds : Option Expression → Option Expression → Statements → Exit → Type 0 where
    fails :
        {c : Expression} {n : Option Expression} {body : Statements} → Rounds (some c) n body falls
    out :
        {c n : Option Expression} {body : Statements} {x y : Exit}
        → Ways body x
        → after_body x ≡ some y
        → Rounds c n body y
    again :
        {c n : Option Expression} {body : Statements} {x y : Exit}
        → Ways body x
        → after_body x ≡ none
        → NextEnds n
        → Rounds c n body y
        → Rounds c n body y

-- the breaks, and the continues, that stand in no loop inside
unfoldable mutual
  pub breaks_of : Statement → ℕ
  breaks_of (break _) = 1
  breaks_of (block _ ss) = breaks_in ss
  breaks_of (if_else _ _ _ ts es) = breaks_in ts + breaks_in es
  breaks_of (for _ _ init _ _ _) = breaks_in init
  breaks_of _ = 0

  pub breaks_in : Statements → ℕ
  breaks_in nil = 0
  breaks_in (cons s ss) = breaks_of s + breaks_in ss

unfoldable mutual
  pub continues_of : Statement → ℕ
  continues_of (continue _) = 1
  continues_of (block _ ss) = continues_in ss
  continues_of (if_else _ _ _ ts es) = continues_in ts + continues_in es
  continues_of (for _ _ init _ _ _) = continues_in init
  continues_of _ = 0

  pub continues_in : Statements → ℕ
  continues_in nil = 0
  continues_in (cons s ss) = continues_of s + continues_in ss
