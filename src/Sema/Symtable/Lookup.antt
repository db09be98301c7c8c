-- ===== src/Sema/Symtable/Lookup.antt =====
-- src/sema/symtable.rs: what scopes and their names resolve to, operation by operation.
use ola_lang.Prelude.{
  ℕ, ◌≡◌, ◌≢◌, refl, String, none, some, List, [], ◌∷◌, ◌++◌, ◌∙◌, ap, if◌then◌else◌, drop_last,
  str_eq, str_eq_iff, arith,
}
use ola_lang.Prelude.Outcome.{done, Returns, Returns-bind}
use ola_lang.Sema.Symtable.{Scope, empty_scope, find_pos, bind_last}

-- Behind the scope that `push` adds nothing new resolves.
pub find_pos-push :
    (scopes : List Scope) (name : String)
    → find_pos (scopes ++ empty_scope ∷ []) name ≡ find_pos scopes name
unfolding find_pos
find_pos-push [] name = refl
find_pos-push (scope ∷ scopes) name = ground (arith, find_pos-push scopes name)

-- What resolves without the last scope resolves to the same with it.
pub find_pos-drop_last :
    (scopes : List Scope) (name : String) (p : ℕ)
    → find_pos (drop_last scopes) name ≡ some p
    → find_pos scopes name ≡ some p
unfolding find_pos
find_pos-drop_last [] name p h = h
find_pos-drop_last (scope ∷ []) name p h = cc
find_pos-drop_last (scope ∷ next ∷ scopes) name p h =
    ground (arith, find_pos-drop_last (next ∷ scopes) name p)

drop_last-cons :
    (scope : Scope) (scopes : List Scope)
    → scopes ≢ []
    → drop_last (scope ∷ scopes) ≡ scope ∷ drop_last scopes
drop_last-cons scope [] ne = absurd (ne refl)
drop_last-cons scope (next ∷ scopes) ne = refl

-- A name that is not bound is bound in the last scope, and no other name changes.
abbrev pub Bound : List Scope → String → ℕ → List Scope → Type 0
Bound scopes name pos scopes' =
    ((j : String) → find_pos scopes' j ≡ (if str_eq j name then some pos else find_pos scopes j))
    × (drop_last scopes' ≡ drop_last scopes)
    × (scopes' ≢ [])

pub bind_last-Bound :
    (scopes : List Scope) (name : String) (pos : ℕ)
    → scopes ≢ []
    → find_pos scopes name ≡ none
    → Returns (Bound scopes name pos) (bind_last scopes name pos)
unfolding bind_last find_pos
bind_last-Bound [] name pos ne free = absurd (ne refl)
bind_last-Bound (scope ∷ []) name pos ne free = (λ j. ground arith, refl, λ e. cc)
bind_last-Bound (scope ∷ next ∷ scopes) name pos ne free =
    Returns-bind (Bound (next ∷ scopes) name pos) (Bound (scope ∷ next ∷ scopes) name pos)
      (bind_last (next ∷ scopes) name pos) (λ rest. done (scope ∷ rest))
      (bind_last-Bound (next ∷ scopes) name pos (λ e. cc) (ground arith))
      λ rest (looks, init, ne'). (
        λ j. ground (arith, looks j, str_eq_iff j name),
        drop_last-cons scope rest ne' ∙ ap (λ t. scope ∷ t) init,
        λ e. cc,
      )
