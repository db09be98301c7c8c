-- ===== src/Sema/Statements/Monad.antt =====
-- src/sema/statements.rs: the mutable arguments of the functions that resolve statements.
use ola_lang.Prelude.Run.{ok, err, panic, M}
use ola_lang.Sema.Diagnostics as D
use ola_lang.Sema.Diagnostics.{Diagnostics, Diagnostic}
use ola_lang.Sema.LoopScopes.{LoopScopes}
use ola_lang.Sema.Symtable.{Symtable, Ns}

module _ (N : Type 0) where
  -- `ns`, in the parts that the modelled code uses and the rest, `symtable` and `diagnostics`
  pub record Env : Type 0 where
    pub namespace : N
    pub ns : Ns
    pub symtable : Symtable
    pub diagnostics : Diagnostics

  -- what `statement` changes; the expressions do not get `loops`
  pub record State : Type 0 where
    pub env : Env
    pub loops : LoopScopes

module _ {N : Type 0} where
  -- a call that does not get `loops`
  abbrev pub lift : {A : Type 0} → M (Env N) A → M (State N) A
  lift op s = elim (op s.env) [
    | ok a e ↦ ok a (record s { env = e })
    | err e ↦ err (record s { env = e })
    | panic ↦ panic
  ]

  -- `diagnostics.push`
  abbrev pub report : Diagnostic → M (Env N) (Unit {0})
  report d e = ok tt (record e { diagnostics = D.push e.diagnostics d })

  -- `ns.diagnostics.push`
  abbrev pub report_ns : Diagnostic → M (Env N) (Unit {0})
  report_ns d e = ok tt (record e { ns = record e.ns { diagnostics = D.push e.ns.diagnostics d } })

  abbrev pub modify_symtable : (Symtable → Symtable) → M (Env N) (Unit {0})
  modify_symtable f e = ok tt (record e { symtable = f e.symtable })
