-- ===== src/Sema/LoopScopes/Counts.antt =====
-- src/sema/symtable.rs: the counts that `leave_scope` gives back are those of the loop's own breaks
-- and continues, as src/sema/statements.rs uses the stack.
use ola_lang.Prelude.{
  ℕ, ◌+◌, ◌≡◌, refl, Bool, true, [], ◌∷◌, ◌++◌, ◌&&◌, get_last?-append, drop_last-append, arith,
}
use ola_lang.Prelude.Outcome.{Outcome, done, ◌>>=◌}
use ola_lang.Sema.LoopScopes.{
  LoopScope, LoopScopes, new_scope, leave_scope, update_last, do_break, do_continue,
}

-- What a statement does with the stack: breaks, continues and loops, in order.
pub data Body : Type 0 where
  end : Body
  break_then continue_then : Body → Body
  loop_then : Body → Body → Body

-- The stack behind the body, and whether each break and each continue found a loop.
unfoldable pub run : Body → LoopScopes → Outcome (Bool × LoopScopes)
run end loops = done (true, loops)
run (break_then rest) loops =
    let (inside, loops') = do_break loops in
    do (all, out) ← run rest loops'; done (inside && all, out)
run (continue_then rest) loops =
    let (inside, loops') = do_continue loops in
    do (all, out) ← run rest loops'; done (inside && all, out)
run (loop_then inner rest) loops = do
  (all, loops') ← run inner (new_scope loops)
  (scope, loops'') ← leave_scope loops'
  (all', out) ← run rest loops''
  done (all && all', out)

-- The breaks and the continues that stand in the body and in no loop of it.
unfoldable pub breaks : Body → ℕ
breaks end = 0
breaks (break_then rest) = 1 + breaks rest
breaks (continue_then rest) = breaks rest
breaks (loop_then inner rest) = breaks rest

unfoldable pub continues : Body → ℕ
continues end = 0
continues (break_then rest) = continues rest
continues (continue_then rest) = 1 + continues rest
continues (loop_then inner rest) = continues rest

update_last-append :
    (f : LoopScope → LoopScope) (loops : LoopScopes) (scope : LoopScope)
    → update_last f (loops ++ scope ∷ []) ≡ (true, loops ++ f scope ∷ [])
update_last-append f [] scope = refl
update_last-append f (x ∷ []) scope = refl
update_last-append f (x ∷ y ∷ r) scope = rw (update_last-append f (y ∷ r) scope)

abbrev counted : Body → LoopScope → LoopScope
counted b scope = record {
  no_breaks = scope.no_breaks + breaks b;
  no_continues = scope.no_continues + continues b;
}

same_end :
    (loops : LoopScopes) {r s : LoopScope}
    → r.no_breaks ≡ s.no_breaks
    → r.no_continues ≡ s.no_continues
    → ◌≡◌ {A = Outcome (Bool × LoopScopes)}
        (done (true, loops ++ r ∷ []))
        (done (true, loops ++ s ∷ []))
same_end loops {r} {s} p q = let e : r ≡ s = ground arith in rw e

-- Within a loop a body counts up the innermost loop, and each of its breaks and continues is inside.
run-append :
    (b : Body) (loops : LoopScopes) (scope : LoopScope)
    → run b (loops ++ scope ∷ []) ≡ done (true, loops ++ counted b scope ∷ [])
unfolding run breaks continues do_break do_continue new_scope leave_scope
run-append end loops scope = same_end loops (omega arith) (omega arith)
run-append (break_then rest) loops scope =
    rw (update_last-append _ loops scope)
      (rw (run-append rest loops _) (same_end loops (omega arith) (omega arith)))
run-append (continue_then rest) loops scope =
    rw (update_last-append _ loops scope)
      (rw (run-append rest loops _) (same_end loops (omega arith) (omega arith)))
run-append (loop_then inner rest) loops scope =
    rw
      (
        run-append inner (loops ++ scope ∷ []) (record { no_breaks = 0; no_continues = 0 }),
        get_last?-append (loops ++ scope ∷ []) _,
        drop_last-append (loops ++ scope ∷ []) _,
        run-append rest loops scope,
      )
      (same_end loops refl refl)

-- A loop with its body: whether each break and continue was inside, and what `leave_scope` gives.
unfoldable pub run_loop : Body → LoopScopes → Outcome (Bool × LoopScope × LoopScopes)
run_loop b loops = do
  (all, loops') ← run b (new_scope loops)
  (scope, loops'') ← leave_scope loops'
  done (all, scope, loops'')

-- Leaving a loop whose body has run gives the numbers of its own breaks and continues, loops inside
-- not counted, and the stack from before the loop; every break and continue was inside a loop.
pub run_loop-counts :
    (b : Body) (loops : LoopScopes)
    → run_loop b loops
      ≡ done (true, record { no_breaks = breaks b; no_continues = continues b }, loops)
unfolding run_loop new_scope leave_scope
run_loop-counts b loops =
    rw
      (
        run-append b loops (record { no_breaks = 0; no_continues = 0 }),
        get_last?-append loops _,
        drop_last-append loops _,
      )
      (ground arith)
