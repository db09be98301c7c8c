-- ===== src/Sema/Symtable/Declare.antt =====
-- src/sema/symtable.rs: what a declaration makes visible, on each of its paths.
use ola_lang.Prelude.{
  ℕ, ◌+◌, ◌<◌, ◌≡◌, ◌≢◌, refl, String, false, Option, none, some, List, [], if◌then◌else◌, str_eq,
  str_eq_iff, arith, Option-cases, inl, inr, Bool-cases,
}
use ola_lang.Prelude.Map.{insert}
use ola_lang.Prelude.Outcome.{done, ◌>>=◌, Returns, Returns-bind}
use ola_lang.Sema.Diagnostics
use ola_lang.Sema.Symtable.{
  Variable, Symtable, Ns, Scope, find_pos, find, at_pos, bind_last, Declaration, declared,
  already_declared, bind_name, add,
}
use ola_lang.Sema.Symtable.Lookup.{Bound, bind_last-Bound}

-- A name resolves to a variable that has been declared under that name and number.
abbrev pub Resolved : Symtable → ℕ → String → Option ℕ → Type 0
Resolved st n name none = Unit
Resolved st n name (some p) =
    (p < n) × (v : Variable) × (st.vars p ≡ some v) × (v.id.name ≡ name) × (v.pos ≡ p)

-- The table has a scope, and each name that is bound resolves. The number is the next free one.
pub record IsValid (st : Symtable) (n : ℕ) : Type 0 where
  pub scoped : st.names ≢ []
  pub resolved : (name : String) → Resolved st n name (find_pos st.names name)

-- A declaration that is accepted: its name resolves to the new variable, every other name and every
-- variable declared before stays, and nothing is reported.
pub record Accepted (d : Declaration) (st : Symtable) (ns : Ns) (r : Option ℕ × Symtable × Ns)
    : Type 0 where
  pub position : r.0 ≡ some ns.next_id
  pub lookups :
      (j : String)
      → find r.1 j ≡ (if str_eq j d.id.name then some (declared d ns.next_id) else find st j)
  pub next : r.2.next_id ≡ ns.next_id + 1
  pub silent : r.2.diagnostics ≡ ns.diagnostics

-- The table and the namespace in which `add` looks the name up.
abbrev pub with_variable : Declaration → Symtable → ℕ → Symtable
with_variable d st pos = record st { vars = insert st.vars pos (declared d pos) }

abbrev pub count_up : Ns → Ns
count_up ns = record ns { next_id = ns.next_id + 1 }

named-not : (name : String) → name ≢ "" → str_eq name "" ≡ false
named-not name named = ground (arith, str_eq_iff name "")

pub Resolved-at :
    (st : Symtable) (n : ℕ) (name : String) (p : ℕ)
    → IsValid st n
    → find_pos st.names name ≡ some p
    → Resolved st n name (some p)
Resolved-at st n name p valid e = rw e at (valid.resolved name)

pub find_pos-none :
    (st : Symtable) (n : ℕ) (name : String)
    → IsValid st n
    → find st name ≡ none
    → find_pos st.names name ≡ none
unfolding find
find_pos-none st n name valid h = elim (Option-cases (find_pos st.names name)) [
  | inl e ↦ e
  | inr (p, e) ↦ let (lt, v, at, _, _) = Resolved-at st n name p valid e in absurd (ground arith)
]

Resolved-insert :
    (st : Symtable) (n : ℕ) (name : String) (v : Variable) (o : Option ℕ)
    → Resolved st n name o
    → Resolved (record st { vars = insert st.vars n v }) (n + 1) name o
Resolved-insert st n name v none h = tt
Resolved-insert st n name v (some p) (lt, w, at, named, pos) =
    (omega arith, w, ground arith, named, pos)

-- A variable with a new number changes nothing that resolves.
at_pos-insert :
    (st : Symtable) (n : ℕ) (name : String) (v : Variable) (o : Option ℕ)
    → Resolved st n name o
    → at_pos (insert st.vars n v) o ≡ at_pos st.vars o
at_pos-insert st n name v none h = refl
at_pos-insert st n name v (some p) (lt, _, _, _, _) = ground arith

find-insert :
    (st : Symtable) (n : ℕ) (v : Variable) (names : List Scope) (name j : String)
    → IsValid st n
    → find_pos names j ≡ (if str_eq j name then some n else find_pos st.names j)
    → at_pos (insert st.vars n v) (find_pos names j) ≡ (if str_eq j name then some v else find st j)
unfolding find
find-insert st n v names name j valid looks = rw looks (elim (Bool-cases (str_eq j name)) [
  | inl e ↦ rw e (ground arith)
  | inr e ↦ rw e (at_pos-insert st n j v _ (valid.resolved j))
])

-- `add` on its three paths: a name that is free, a variable with no name, a name that is taken.
module _ (d : Declaration) (st : Symtable) (ns : Ns) where
  pub add_free :
      d.id.name ≢ ""
      → find_pos st.names d.id.name ≡ none
      → add d st ns ≡ (
          bind_last st.names d.id.name ns.next_id >>= λ names.
          done (
            some ns.next_id,
            record (with_variable d st ns.next_id) { names = names },
            count_up ns,
          ))
  unfolding add bind_name find
  add_free named free = rw (named-not d.id.name named, free)

  pub add_unnamed :
      d.id.name ≡ ""
      → add d st ns ≡ done (some ns.next_id, with_variable d st ns.next_id, count_up ns)
  unfolding add
  add_unnamed e = ground (arith, str_eq_iff d.id.name "")

  pub add_taken :
      (prev : Variable)
      → IsValid st ns.next_id
      → d.id.name ≢ ""
      → find st d.id.name ≡ some prev
      → add d st ns
        ≡ done (
          none,
          with_variable d st ns.next_id,
          record (count_up ns) {
            diagnostics = Diagnostics.push ns.diagnostics (already_declared d prev);
          },
        )
  unfolding add bind_name find
  add_taken prev valid named h = elim (Option-cases (find_pos st.names d.id.name)) [
    | inl e ↦ absurd (ground arith)
    | inr (p, e) ↦
        let (lt, v, at, _, _) = Resolved-at st ns.next_id d.id.name p valid e in
        let same : insert st.vars ns.next_id (declared d ns.next_id) p ≡ some prev = ground arith in
        rw (named-not d.id.name named, e, same)
  ]

module _ (d : Declaration) (st : Symtable) (ns : Ns) (valid : IsValid st ns.next_id) where
  -- A variable whose name is free is accepted.
  pub add-Accepted :
      d.id.name ≢ "" → find st d.id.name ≡ none → Returns (Accepted d st ns) (add d st ns)
  unfolding find
  add-Accepted named free =
      let fresh = find_pos-none st ns.next_id d.id.name valid free in
      rw (add_free d st ns named fresh) (
        Returns-bind (Bound st.names d.id.name ns.next_id) (Accepted d st ns)
          (bind_last st.names d.id.name ns.next_id) _
          (bind_last-Bound st.names d.id.name ns.next_id valid.scoped fresh)
          λ names (looks, init, ne). record {
            position = refl;
            lookups = λ j. find-insert st ns.next_id _ names d.id.name j valid (looks j);
            next = refl;
            silent = refl;
          })

  -- A named variable whose name resolves is refused: one error, which names the variable that has the
  -- name, and every name resolves as before. Its number is used up.
  pub add_taken-refused :
      (prev : Variable)
      → d.id.name ≢ ""
      → find st d.id.name ≡ some prev
      → Returns
          (λ (r, st', ns').
            (r ≡ none)
            × (st'.names ≡ st.names)
            × ((j : String) → find st' j ≡ find st j)
            × (ns'.next_id ≡ ns.next_id + 1)
            × (ns'.diagnostics ≡ Diagnostics.push ns.diagnostics (already_declared d prev)))
          (add d st ns)
  unfolding find
  add_taken-refused prev named h =
      rw (add_taken d st ns prev valid named h)
        (refl, refl, λ j. at_pos-insert st ns.next_id j _ _ (valid.resolved j), refl, refl)

  pub IsValid-insert :
      (names : List Scope)
      → names ≢ []
      → ((j : String)
          → find_pos names j
            ≡ (if str_eq j d.id.name then some ns.next_id else find_pos st.names j))
      → IsValid (record (with_variable d st ns.next_id) { names = names }) (ns.next_id + 1)
  IsValid-insert names ne looks = record {
    scoped = ne;
    resolved = λ j. rw (looks j) (elim (Bool-cases (str_eq j d.id.name)) [
      | inl e ↦ rw e (
        omega arith,
        declared d ns.next_id,
        ground arith,
        ground (arith, str_eq_iff j d.id.name),
        refl,
      )
      | inr e ↦ rw e (Resolved-insert st ns.next_id j _ _ (valid.resolved j))
    ]);
  }

  -- A new variable with no name.
  pub IsValid-insert_same : IsValid (with_variable d st ns.next_id) (ns.next_id + 1)
  IsValid-insert_same = record {
    scoped = valid.scoped;
    resolved = λ j. Resolved-insert st ns.next_id j _ _ (valid.resolved j);
  }
