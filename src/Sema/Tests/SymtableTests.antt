-- ===== src/Sema/Tests/SymtableTests.antt =====
-- Runs of src/sema/symtable.rs, and its theorems at concrete inputs.
use ola_lang.Prelude.{
  ◌+◌, ◌≡◌, refl, String, none, some, [], ◌∷◌, arith, str_eq, str_eq_iff, Bool-cases, inl, inr, sym,
  if◌then◌else◌,
}
use ola_lang.Prelude.Map.{insert, str_insert}
use ola_lang.Prelude.Outcome.{done, Returns}
use ola_lang.Sema.Ast.{Loc, uint}
use ola_lang.Sema.Diagnostics
use ola_lang.Sema.Symtable.{
  Symtable, Ns, Declaration, declared, ola, local_variable, already_declared, find, find_pos,
  bind_last, add, new, empty_scope,
}
use ola_lang.Sema.Symtable.Blocks.{declare, block, end, run_block, run_block-restores}
use ola_lang.Sema.Symtable.Declare.{IsValid, Accepted, add-Accepted, add_taken-refused}

abbrev ns : Ns
ns = record { next_id = 0; diagnostics = Diagnostics.empty }

abbrev local : String → Declaration
local name = record {
  id = record { loc = Loc.file 0 1 2; name = name };
  ty = uint 32;
  initializer = ola none;
  usage_type = local_variable;
  storage_location = none;
}

new-IsValid : IsValid new 0
unfolding new find_pos
new-IsValid = record { scoped = λ e. cc; resolved = λ name. tt }

add-Accepted_example : Returns (Accepted (local "a") new ns) (add (local "a") new ns)
unfolding find new find_pos
add-Accepted_example = add-Accepted (local "a") new ns new-IsValid (λ e. cc) refl

-- the table behind the declaration of `a`
abbrev one_name : Symtable
one_name = record {
  vars = insert (λ p. none) 0 (declared (local "a") 0);
  names = str_insert empty_scope "a" 0 ∷ [];
  arguments = [];
  returns = [];
}

abbrev next : Ns
next = record { next_id = 1; diagnostics = Diagnostics.empty }

declares_a : add (local "a") new ns ≡ done (some 0, one_name, next)
unfolding add find new find_pos bind_last
declares_a = refl

names_of_one :
    (name : String) → find_pos one_name.names name ≡ (if str_eq name "a" then some 0 else none)
unfolding find_pos
names_of_one name = ground arith

one_name-IsValid : IsValid one_name 1
one_name-IsValid = record {
  scoped = λ e. cc;
  resolved = λ name. rw (names_of_one name) (elim (Bool-cases (str_eq name "a")) [
    | inl e ↦
        rw e (omega arith, declared (local "a") 0, refl, sym ((str_eq_iff name "a").0 e), refl)
    | inr e ↦ rw e tt
  ]);
}

add_taken-refused_example :
    Returns
      (λ (r, st', ns').
        (r ≡ none)
        × (st'.names ≡ one_name.names)
        × ((j : String) → find st' j ≡ find one_name j)
        × (ns'.next_id ≡ 1 + 1)
        × (ns'.diagnostics
            ≡ Diagnostics.push Diagnostics.empty
                (already_declared (local "a") (declared (local "a") 0))))
      (add (local "a") one_name next)
unfolding find find_pos
add_taken-refused_example =
    add_taken-refused (local "a") one_name next one_name-IsValid (declared (local "a") 0) (λ e. cc)
      refl

run_block-restores_example :
    Returns
      (λ (st', ns').
        (st'.names ≡ one_name.names)
        × ((name : String) → find st' name ≡ find one_name name)
        × IsValid st' ns'.next_id)
      (run_block (declare (local "b") (block (declare (local "a") end) end)) one_name next)
run_block-restores_example =
    run_block-restores (declare (local "b") (block (declare (local "a") end) end)) one_name next
      one_name-IsValid
