-- ===== src/Lib.antt =====
-- The compiler of the language ola, from the resolved syntax to assembly: the parts of it that carry
-- its own logic, as definitions that run, and what is proved of them.
--
-- The program. `ola-parser` makes a syntax tree of a source file. `src/sema` resolves it into a
-- `Namespace` of typed expressions and statements, with the diagnostics that it collects.
-- `src/irgen` makes LLVM IR of the namespace, and `src/codegen` makes machine instructions of the IR
-- and prints them. `src/abi` describes the interface of a contract.
--
-- What stands where:
-- Prelude: Booleans, tests on numbers, lists by index, integers, maps as functions, and the outcome of
--   Rust code that may panic.
-- Sema.Ast: the types and expressions of src/sema/ast.rs and the locations of
--   ola-parser/src/program.rs. Variants of `Expression` which the modelled code treats alike are one
--   constructor.
-- Sema.Program: the statements that the parser gives, and of its expressions the variants that
--   `statement` tells apart; Sema.Ast.Statements: the resolved statements and `reachable`.
-- Sema.BigInt: the crate num-bigint, which is not part of the repository, as a record of operations
--   with the laws that the code relies on; Sema.BigInt.Example instantiates it.
-- Sema.Diagnostics: ola-parser/src/diagnostics.rs and the list with its error flag of
--   src/sema/diagnostics.rs. A text that `format!` makes is kept as its format and its arguments.
-- Sema.File: the line table of src/sema/file.rs, `File::new`, `offset_to_line_column`, `get_offset`.
-- Sema.Symtable and Sema.LoopScopes: src/sema/symtable.rs. A Rust function that changes `self` gives
--   the new state; `Namespace` is the part of it that the function uses.
-- Sema.Eval: src/sema/eval.rs. Eval.Const has `eval_const_number`, Eval.Fold
--   `eval_constants_in_expression`, `overflow_check` and `check_term_for_constant_overflow`. The
--   evaluation writes diagnostics, and returns, fails or panics: Eval.Monad. It goes on through the
--   initializers of constants, which the source does not bound: `fuel` bounds how many constants stand
--   inside one another, and Eval.Terminates says how much is enough.
-- Sema.Integers: the common type of two operands and the type of a number,
--   src/sema/expression/integers.rs. `is_integer` goes through user types by fuel.
-- Sema.Casts: `Expression::cast` and `cast_types` of src/sema/expression/mod.rs, with `ty` of
--   src/sema/expression/retrieve_type.rs. The recursion is on the type, of which each load takes a
--   reference off; the text of a type in a message is kept as the type.
-- Sema.Types: the elements and the length of arrays and the storage slots of types, src/sema/types.rs.
--   The recursion through the fields of structs has at most `fuel` structs inside one another.
-- Sema.Statements: the function `statement` of src/sema/statements.rs, and in Statements.Body
--   `resolve_function_body`. The mutable arguments are the
--   state of Statements.Monad. The resolution of expressions and types, destructuring, and what
--   records their use are the record `Resolver`, about which Statements.Reports says what is relied
--   on; nothing is relied on by Statements.Sound. The recursion is on the parsed statement.
-- Sema.Flow: the ways in which control can leave resolved statements, as a relation, with the breaks
--   and continues that stand in no inner loop; Flow.Tidy says which flags fit.
-- Irgen.Builder: the calls of the LLVM builder with the blocks as numbers, and which sequences of
--   calls are well formed. Irgen.Statements: `statement` of src/irgen/statements.rs and `gen_function`
--   of src/irgen/functions.rs, as the calls that they make; what is emitted for an expression is the
--   record `Emitter`, and Statements.Emits says what is asked of the calls for the expressions of the
--   body at hand, since not each expression has it.
-- Codegen.Layout: the doubly linked lists of blocks and instructions of
--   src/codegen/function/layout/mod.rs, over maps from the ids. An iterator is run by fuel, of which
--   the length of the list is enough.
-- Codegen.Instruction: the operands of the instructions of src/codegen/isa/ola/instruction/mod.rs.
-- Codegen.Liveness: program points, live ranges and their interference, of
--   src/codegen/pass/liveness.rs. The sums and products of `u32` wrap around. Liveness.Propagation is
--   the analysis of the same file: `set_def`, `visit` and `propagate_reg`, over the iterators of
--   Codegen.Layout. Its fuel, which bounds the recursion and the iterators, is enough when it is more
--   than the blocks and no less than the instructions of a block; running out counts as a panic.
--   Propagation.Shape says what alive means, as a relation on instructions, Propagation.Alive what is
--   followed where a block counts as a whole, Propagation.Exposed where the two agree, and
--   Propagation.Exact compares with the code.
--   Liveness.Users is the range of a register that the spiller makes.
-- Codegen.Regalloc: the scan of src/codegen/pass/regalloc.rs that gives each virtual register the
--   first register that it does not interfere with, up to the first that must be spilled. The order
--   of the worklist, the preferred registers and whether the first block calls are arguments.
-- Codegen.Spiller: the insertions of src/codegen/pass/spiller.rs, over Codegen.Layout and
--   Codegen.Liveness. Its fuel bounds the calls that `insert_inst_after` and `insert_inst_before` make
--   of themselves: the first needs one renumbering at most, so two calls; the second needs one call
--   where there is a point, and its fuel is arbitrary where there is none.
--
-- Not modelled: the parser, which a generator makes of a grammar; the resolution of expressions
-- (but for the casts), of declarations and of destructuring; the LLVM IR of expressions, types and
-- storage, whose every line calls the bindings of LLVM; instruction selection, the passes on the
-- IR, the computation of live ranges from what is alive, the scan behind the first spill, the
-- choice of what is spilled, and printing; reading files and the command line. Machine integers
-- that count (lines, variables, ids) are numbers without a bound, where the source cannot reach
-- 2^64 of them.
pub mod Codegen
pub mod Irgen
pub mod Prelude
pub mod Sema
