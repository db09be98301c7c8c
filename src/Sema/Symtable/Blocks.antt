-- ===== src/Sema/Symtable/Blocks.antt =====
-- src/sema/symtable.rs: the end of a block takes back what the block has declared, as the blocks of
-- src/sema/statements.rs use the table: `new_scope`, declarations and blocks, `leave_scope`.
use ola_lang.Prelude.{
  ℕ, ◌+◌, ◌<◌, ◌≤◌, ◌≡◌, ◌≢◌, refl, String, Option, none, some, List, [], ◌∷◌, ◌++◌, ◌∙◌, ap, sym,
  drop_last, drop_last-append, str_eq, str_eq_iff, arith, Option-cases, inl, inr, Bool-cases,
}
use ola_lang.Prelude.Outcome.{Outcome, done, ◌>>=◌, Returns, Returns-bind, Returns-mono}
use ola_lang.Sema.Symtable.{
  Variable, Symtable, Ns, Scope, empty_scope, find_pos, find, at_pos, bind_last, new_scope,
  leave_scope, Declaration, add, exclusive_add,
}
use ola_lang.Sema.Symtable.Lookup.{find_pos-push, find_pos-drop_last, Bound, bind_last-Bound}
use ola_lang.Sema.Symtable.Declare.{
  Resolved, IsValid, with_variable, find_pos-none, add_free, add_unnamed, add_taken, Resolved-at,
  IsValid-insert, IsValid-insert_same,
}

-- What a statement leaves of the table: all scopes but the last, and the variables that had a
-- number. The table stays valid.
pub record Extends (st : Symtable) (ns : Ns) (r : Symtable × Ns) : Type 0 where
  pub outer : drop_last r.0.names ≡ drop_last st.names
  pub ids : ns.next_id ≤ r.1.next_id
  pub kept : (p : ℕ) → p < ns.next_id → r.0.vars p ≡ st.vars p
  pub valid : IsValid r.0 r.1.next_id

abbrev state : Option ℕ × Symtable × Ns → Symtable × Ns
state (r, st, ns) = (st, ns)

module _ (d : Declaration) (st : Symtable) (ns : Ns) (valid : IsValid st ns.next_id) where
  -- every path but that of a new name
  Extends-same :
      (ns' : Ns) → ns'.next_id ≡ ns.next_id + 1 → Extends st ns (with_variable d st ns.next_id, ns')
  Extends-same ns' e = record {
    outer = refl;
    ids = omega arith;
    kept = λ p h. ground arith;
    valid = rw e (IsValid-insert_same d st ns valid);
  }

  add_free-Extends :
      d.id.name ≢ ""
      → find_pos st.names d.id.name ≡ none
      → Returns (λ r. Extends st ns (state r)) (add d st ns)
  add_free-Extends named fresh = rw (add_free d st ns named fresh) (
      Returns-bind (Bound st.names d.id.name ns.next_id) (λ r. Extends st ns (state r))
        (bind_last st.names d.id.name ns.next_id) _
        (bind_last-Bound st.names d.id.name ns.next_id valid.scoped fresh)
        λ names (looks, init, ne). record {
          outer = init;
          ids = omega arith;
          kept = λ p h. ground arith;
          valid = IsValid-insert d st ns valid names ne looks;
        })

  add-Extends : Returns (λ r. Extends st ns (state r)) (add d st ns)
  add-Extends = elim (Bool-cases (str_eq d.id.name "")) [
    | inl e ↦
        rw (add_unnamed d st ns (ground (arith, str_eq_iff d.id.name ""))) (Extends-same _ refl)
    | inr e ↦
        let named : d.id.name ≢ "" = ground (arith, str_eq_iff d.id.name "") in
        elim (Option-cases (find st d.id.name)) [
          | inl free ↦ add_free-Extends named (find_pos-none st ns.next_id d.id.name valid free)
          | inr (prev, at) ↦ rw (add_taken d st ns prev valid named at) (Extends-same _ refl)
        ]
  ]

  exclusive_add-Extends : Returns (λ r. Extends st ns (state r)) (exclusive_add d st ns)
  unfolding exclusive_add
  exclusive_add-Extends = elim (Option-cases (find st d.id.name)) [
    | inl free ↦ rw free add-Extends
    | inr (var, at) ↦
        rw at (record { outer = refl; ids = omega arith; kept = λ p h. refl; valid = valid })
  ]

-- The statements that use the table: declarations of both kinds, and blocks, in which statements
-- stand.
pub data Body : Type 0 where
  end : Body
  declare : Declaration → Body → Body
  declare_exclusive : Declaration → Body → Body
  block : Body → Body → Body

unfoldable pub run : Body → Symtable → Ns → Outcome (Symtable × Ns)
run end st ns = done (st, ns)
run (declare d rest) st ns = do (_, st', ns') ← add d st ns; run rest st' ns'
run (declare_exclusive d rest) st ns = do (_, st', ns') ← exclusive_add d st ns; run rest st' ns'
run (block inner rest) st ns = do
  (st', ns') ← run inner (new_scope st) ns
  run rest (leave_scope st') ns'

Extends-trans :
    (st : Symtable) (ns : Ns) (r s : Symtable × Ns)
    → Extends st ns r
    → Extends r.0 r.1 s
    → Extends st ns s
Extends-trans st ns r s a b = record {
  outer = b.outer ∙ a.outer;
  ids = omega (arith, a.ids, b.ids);
  kept = λ p h. b.kept p (omega (arith, a.ids)) ∙ a.kept p h;
  valid = b.valid;
}

append-ne-nil : (scopes : List Scope) (scope : Scope) → scopes ++ scope ∷ [] ≢ []
append-ne-nil [] scope e = cc
append-ne-nil (s ∷ scopes) scope e = cc

-- A new scope, and its end behind statements that extend the table.
new_scope-IsValid : (st : Symtable) (n : ℕ) → IsValid st n → IsValid (new_scope st) n
unfolding new_scope
new_scope-IsValid st n valid = record {
  scoped = append-ne-nil st.names empty_scope;
  resolved = λ j. rw (find_pos-push st.names j) (valid.resolved j);
}

leave_scope-IsValid :
    (st : Symtable) (n : ℕ) → IsValid st n → drop_last st.names ≢ [] → IsValid (leave_scope st) n
unfolding leave_scope
leave_scope-IsValid st n valid ne = record {
  scoped = ne;
  resolved = λ j. elim (Option-cases (find_pos (drop_last st.names) j)) [
    | inl e ↦ rw e tt
    | inr (p, e) ↦ rw e (Resolved-at st n j p valid (find_pos-drop_last st.names j p e))
  ];
}

module _ (st : Symtable) (ns : Ns) (r : Symtable × Ns) (valid : IsValid st ns.next_id)
    (e : Extends (new_scope st) ns r) where
  leave_scope-names : drop_last r.0.names ≡ st.names
  unfolding new_scope
  leave_scope-names = e.outer ∙ drop_last-append st.names empty_scope

  leave_scope-Extends : Extends st ns (leave_scope r.0, r.1)
  unfolding leave_scope new_scope
  leave_scope-Extends = record {
    outer = ap drop_last leave_scope-names;
    ids = e.ids;
    kept = λ p h. e.kept p h;
    valid =
        leave_scope-IsValid r.0 r.1.next_id e.valid (λ h. valid.scoped (sym leave_scope-names ∙ h));
  }

run-Extends :
    (b : Body) (st : Symtable) (ns : Ns)
    → IsValid st ns.next_id
    → Returns (Extends st ns) (run b st ns)
unfolding run
run-Extends end st ns valid = record {
  outer = refl;
  ids = omega arith;
  kept = λ p h. refl;
  valid = valid;
}
run-Extends (declare d rest) st ns valid =
    Returns-bind (λ r. Extends st ns (state r)) (Extends st ns) (add d st ns) _
      (add-Extends d st ns valid)
      λ (r, st', ns') a.
        Returns-mono (Extends st' ns') (Extends st ns) (run rest st' ns')
          (run-Extends rest st' ns' a.valid) λ s b. Extends-trans st ns (st', ns') s a b
run-Extends (declare_exclusive d rest) st ns valid =
    Returns-bind (λ r. Extends st ns (state r)) (Extends st ns) (exclusive_add d st ns) _
      (exclusive_add-Extends d st ns valid)
      λ (r, st', ns') a.
        Returns-mono (Extends st' ns') (Extends st ns) (run rest st' ns')
          (run-Extends rest st' ns' a.valid) λ s b. Extends-trans st ns (st', ns') s a b
run-Extends (block inner rest) st ns valid =
    Returns-bind (Extends (new_scope st) ns) (Extends st ns) (run inner (new_scope st) ns) _
      (run-Extends inner (new_scope st) ns (new_scope-IsValid st ns.next_id valid))
      λ (st', ns') a.
        let c = leave_scope-Extends st ns (st', ns') valid a in
        Returns-mono (Extends (leave_scope st') ns') (Extends st ns)
          (run rest (leave_scope st') ns') (run-Extends rest (leave_scope st') ns' c.valid)
          λ s b. Extends-trans st ns (leave_scope st', ns') s c b

at_pos-kept :
    (st : Symtable) (ns : Ns) (vars : ℕ → Option Variable) (name : String) (o : Option ℕ)
    → ((p : ℕ) → p < ns.next_id → vars p ≡ st.vars p)
    → Resolved st ns.next_id name o
    → at_pos vars o ≡ at_pos st.vars o
at_pos-kept st ns vars name none kept h = refl
at_pos-kept st ns vars name (some p) kept h = kept p h.0

-- The statements of a block on their own, as `Statement::Block` is resolved.
unfoldable pub run_block : Body → Symtable → Ns → Outcome (Symtable × Ns)
run_block inner st ns = do (st', ns') ← run inner (new_scope st) ns; done (leave_scope st', ns')

-- A block does not panic, and behind it the scopes are those from before it, every name resolves to
-- the variable that it resolved to before, and the table is valid.
pub run_block-restores :
    (inner : Body) (st : Symtable) (ns : Ns)
    → IsValid st ns.next_id
    → Returns
        (λ (st', ns').
          (st'.names ≡ st.names)
          × ((name : String) → find st' name ≡ find st name)
          × IsValid st' ns'.next_id)
        (run_block inner st ns)
unfolding run_block find leave_scope
run_block-restores inner st ns valid =
    Returns-bind (Extends (new_scope st) ns) _ (run inner (new_scope st) ns) _
      (run-Extends inner (new_scope st) ns (new_scope-IsValid st ns.next_id valid))
      λ (st', ns') a.
        let c = leave_scope-Extends st ns (st', ns') valid a in
        let same = leave_scope-names st ns (st', ns') valid a in
        (
          same,
          λ name. rw same (at_pos-kept st ns st'.vars name _ c.kept (valid.resolved name)),
          c.valid,
        )
