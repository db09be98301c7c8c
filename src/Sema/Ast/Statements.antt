-- ===== src/Sema/Ast/Statements.antt =====
-- src/sema/ast.rs: the statements as the semantic analysis resolves them, which src/irgen compiles.
use ola_lang.Prelude.{ℕ, Bool, true, false, ◌&&◌, Option, List}
use ola_lang.Sema.Ast.{Loc, Identifier, Ty, Expression}

pub record Parameter : Type 0 where
  pub loc : Loc
  pub id : Option Identifier
  pub ty : Ty
  pub ty_loc : Option Loc
  pub infinite_size : Bool
  pub recursive : Bool

pub data DestructureField : Type 0 where
  nothing : DestructureField
  expression : Expression → DestructureField
  variable_decl : ℕ → Parameter → DestructureField

mutual
  pub data Statement : Type 0 where
    block : Loc → Statements → Statement
    variable_decl : Loc → ℕ → Parameter → Option Expression → Statement
    if_else : Loc → (reachable : Bool) → Expression → Statements → Statements → Statement
    while : Loc → (reachable : Bool) → Expression → Statements → Statement
    for :
        Loc
        → (reachable : Bool) → (init : Statements) → (cond next : Option Expression)
        → (body : Statements) → Statement
    do_while : Loc → (reachable : Bool) → Statements → Expression → Statement
    delete : Loc → Ty → Expression → Statement
    destructure : Loc → List DestructureField → Expression → Statement
    expression : Loc → (reachable : Bool) → Expression → Statement
    continue break : Loc → Statement
    return : Loc → Option Expression → Statement

  -- `Vec<Statement>`
  pub data Statements : Type 0 where
    nil : Statements
    cons : Statement → Statements → Statements

-- `push`, one after another
infixl 65 ◌⊕◌
abbrev pub ◌⊕◌ : Statements → Statements → Statements
nil ⊕ ts = ts
cons s ss ⊕ ts = cons s (ss ⊕ ts)

-- `Statement::reachable`
unfoldable mutual
  pub reachable : Statement → Bool
  reachable (block _ ss) = all_reachable ss
  reachable (variable_decl _ _ _ _) = true
  reachable (delete _ _ _) = true
  reachable (destructure _ _ _) = true
  reachable (continue _) = false
  reachable (break _) = false
  reachable (return _ _) = false
  reachable (if_else _ r _ _ _) = r
  reachable (while _ r _ _) = r
  reachable (do_while _ r _ _) = r
  reachable (expression _ r _) = r
  reachable (for _ r _ _ _ _) = r

  pub all_reachable : Statements → Bool
  all_reachable nil = true
  all_reachable (cons s ss) = reachable s && all_reachable ss
