-- ===== src/Sema/Symtable/Reports.antt =====
-- src/sema/symtable.rs: a declaration takes no error out of the diagnostics.
use ola_lang.Prelude.{
  ◌≡◌, refl, Bool, true, false, Option, none, some, not, str_eq, ℕ, ◌+◌, if◌then◌else◌, List,
}
use ola_lang.Prelude.Map.{insert}
use ola_lang.Prelude.Outcome.{Outcome, done, panic, ◌>>=◌}
use ola_lang.Sema.Diagnostics as D
use ola_lang.Sema.Symtable.{
  Symtable, Ns, Variable, Scope, Declaration, declared, find, bind_last, bind_name, add,
}

abbrev pub Keeps : Ns → Outcome (Option ℕ × Symtable × Ns) → Type 0
Keeps ns (done (p, st, ns')) = ns.diagnostics.has_error ≡ true → ns'.diagnostics.has_error ≡ true
Keeps ns panic = Unit

bind_name-Keeps :
    (d : Declaration) (p : ℕ) (st : Symtable) (ns : Ns) (o : Option Variable)
    → Keeps ns (bind_name d p st ns o)
unfolding bind_name D.push
bind_name-Keeps d p st ns (some v) = λ h. refl
bind_name-Keeps d p st ns none = bound (bind_last st.names d.id.name p)
  where
    bound :
        (o : Outcome (List Scope))
        → Keeps ns (o >>= λ names. done (some p, record st { names = names }, ns))
    bound (done names) = λ h. h
    bound panic = tt

pub add-Keeps : (d : Declaration) (st : Symtable) (ns : Ns) → Keeps ns (add d st ns)
unfolding add
add-Keeps d st ns = named (not (str_eq d.id.name ""))
  where
    named :
        (b : Bool)
        → Keeps ns (
            if b
            then bind_name d ns.next_id
                (record st { vars = insert st.vars ns.next_id (declared d ns.next_id) })
                (record ns { next_id = ns.next_id + 1 })
                (find
                  (record st { vars = insert st.vars ns.next_id (declared d ns.next_id) })
                  d.id.name)
            else done (
              some ns.next_id,
              record st { vars = insert st.vars ns.next_id (declared d ns.next_id) },
              record ns { next_id = ns.next_id + 1 },
            ))
    named true = bind_name-Keeps d ns.next_id _ (record ns { next_id = ns.next_id + 1 }) _
    named false = λ h. h
