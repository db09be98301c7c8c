-- ===== src/Sema/LoopScopes.antt =====
-- src/sema/symtable.rs: the stack of loops around a statement, which counts the breaks and the
-- continues of each. The top of the `Vec` is its last element.
pub mod Counts
use ola_lang.Prelude.{
  ℕ, ◌+◌, Bool, true, false, Option, none, some, List, [], ◌∷◌, ◌++◌, get_last?, drop_last,
}
use ola_lang.Prelude.Outcome.{Outcome, done, unwrap, ◌>>=◌}

pub record LoopScope : Type 0 where
  pub no_breaks : ℕ
  pub no_continues : ℕ

abbrev pub LoopScopes : Type 0
LoopScopes = List LoopScope

unfoldable pub new : LoopScopes
new = []

unfoldable pub new_scope : LoopScopes → LoopScopes
new_scope loops = loops ++ record { no_breaks = 0; no_continues = 0 } ∷ []

-- `self.0.pop().unwrap()`
unfoldable pub leave_scope : LoopScopes → Outcome (LoopScope × LoopScopes)
leave_scope loops = do scope ← unwrap (get_last? loops); done (scope, drop_last loops)

-- `Some(scope) = self.0.last_mut()` and an update of `scope`: whether there is a loop, and the stack.
abbrev pub update_last : (LoopScope → LoopScope) → LoopScopes → Bool × LoopScopes
update_last f [] = (false, [])
update_last f (scope ∷ []) = (true, f scope ∷ [])
update_last f (scope ∷ next ∷ rest) =
    let (inside, loops) = update_last f (next ∷ rest) in (inside, scope ∷ loops)

unfoldable pub do_break : LoopScopes → Bool × LoopScopes
do_break = update_last (λ scope. record scope { no_breaks = scope.no_breaks + 1 })

unfoldable pub do_continue : LoopScopes → Bool × LoopScopes
do_continue = update_last (λ scope. record scope { no_continues = scope.no_continues + 1 })
