-- ===== src/Sema/Program.antt =====
-- ola-parser/src/program.rs: the statements of the parsed program. Of its expressions the variants
-- that src/sema/statements.rs tells apart; `other` stands for the rest, and its number tells them
-- from one another.
use ola_lang.Prelude.{ℕ, Option}
use ola_lang.Sema.Ast.{Loc, Identifier}
use ola_lang.Sema.Symtable.{StorageLocation}

-- A `Vec` or an `Option` of a type of the block is a type of the block.
mutual
  pub data Expression : Type 0 where
    delete : Loc → Expression → Expression
    function_call : Loc → Expression → Expressions → Expression
    named_function_call : Loc → Expression → NamedArguments → Expression
    assign : Loc → Expression → Expression → Expression
    list : Loc → ParameterList → Expression
    other : ℕ → Loc → Expression

  pub data Expressions : Type 0 where
    no_expressions : Expressions
    one_more : Expression → Expressions → Expressions

  -- location, name and value
  pub data NamedArguments : Type 0 where
    no_arguments : NamedArguments
    argument : Loc → Identifier → Expression → NamedArguments → NamedArguments

  -- `Vec<(Loc, Option<Parameter>)>`; a parameter has a location, a type and a name.
  pub data ParameterList : Type 0 where
    no_parameters : ParameterList
    absent : Loc → ParameterList → ParameterList
    parameter : Loc → Loc → Expression → Option Identifier → ParameterList → ParameterList

pub record VariableDeclaration : Type 0 where
  pub loc : Loc
  pub ty : Expression
  pub storage : Option StorageLocation
  pub name : Option Identifier

mutual
  pub data Statement : Type 0 where
    block : Loc → Statements → Statement
    args : Loc → NamedArguments → Statement
    if_else : Loc → Expression → Statement → OptionalStatement → Statement
    while : Loc → Expression → Statement → Statement
    expression : Loc → Expression → Statement
    variable_definition : Loc → VariableDeclaration → Option Expression → Statement
    for :
        Loc
        → (init : OptionalStatement) → (cond next : Option Expression) → (body : OptionalStatement)
        → Statement
    do_while : Loc → Statement → Expression → Statement
    continue break error : Loc → Statement
    return : Loc → Option Expression → Statement

  pub data Statements : Type 0 where
    nil : Statements
    cons : Statement → Statements → Statements

  pub data OptionalStatement : Type 0 where
    missing : OptionalStatement
    present : Statement → OptionalStatement

-- `loc()`
abbrev pub loc_of : Statement → Loc
loc_of (block l _) = l
loc_of (args l _) = l
loc_of (if_else l _ _ _) = l
loc_of (while l _ _) = l
loc_of (expression l _) = l
loc_of (variable_definition l _ _) = l
loc_of (for l _ _ _ _) = l
loc_of (do_while l _ _) = l
loc_of (continue l) = l
loc_of (break l) = l
loc_of (error l) = l
loc_of (return l _) = l

abbrev pub expression_loc : Expression → Loc
expression_loc (delete l _) = l
expression_loc (function_call l _ _) = l
expression_loc (named_function_call l _ _) = l
expression_loc (assign l _ _) = l
expression_loc (list l _) = l
expression_loc (other _ l) = l
