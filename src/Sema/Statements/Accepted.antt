-- ===== src/Sema/Statements/Accepted.antt =====
-- src/sema/statements.rs: what the resolution of a statement gives where no error is reported, and
-- that it fails only with an error reported.
use ola_lang.Prelude.{
  ℕ, ◌≡◌, refl, sym, ap, ◌∙◌, Bool, Bool-cases, true, false, ◌||◌, ◌&&◌, Option, none, some, ltb,
  if◌then◌else◌, never, ◌⊎◌, inl, inr,
}
use ola_lang.Prelude.Outcome.{Outcome, done}
use ola_lang.Prelude.Run.{
  Run, M, pure, ok, panic, Ensures, returns, throws, panics, ◌⟫◌, weaken, Ensures-if, both,
}
use ola_lang.Sema.Ast.{Loc, bool}
use ola_lang.Sema.Ast.Statements.{
  Statement, break, continue, Statements, nil, cons, ◌⊕◌, all_reachable,
}
use ola_lang.Sema.Diagnostics as D
use ola_lang.Sema.Diagnostics.{Diagnostic}
use ola_lang.Sema.Flow.Tidy.{AreTidy, OnlyLast, AreTidy-append, all_reachable-append}
use ola_lang.Sema.Integers.{to_type}
use ola_lang.Sema.LoopScopes.{LoopScope, LoopScopes, new_scope, leave_scope, do_break, do_continue}
use ola_lang.Sema.Program as P
use ola_lang.Sema.Statements.{
  Resolver, ExprContext, Resolved, one, statement, statements, else_branch, optional, jump, enter,
  leave, enter_loop, leave_loop, mark_unreachable, variable_definition, return_nothing,
  return_values, expression_statement, condition, next_expression, cast_at, unreachable_statement,
  no_block,
}
use ola_lang.Sema.Statements.Counted.{Counted, leave_scope-Counted, Counted-at}
use ola_lang.Sema.Statements.Monad.{Env, State, lift, report, report_ns}
use ola_lang.Sema.Statements.Post.{lifted}
use ola_lang.Sema.Statements.Reports.{
  reported, Reports, IsReporting, report_ns-reports, report-reports, cast_at-Reports,
}
use ola_lang.Sema.Statements.Sound.{optional-Sound}
use ola_lang.Sema.Statements.Tidy.{
  Good, GoodOp, condition-Reports, variable_definition-Good, expression_statement-Good,
  return_nothing-Good, return_values-Good,
}

and_true : (b : Bool) → b ≡ (b && true)
and_true true = refl
and_true false = refl

reached_OnlyLast : {r : Bool} (ss : Statements) → r ≡ true → OnlyLast r ss
reached_OnlyLast nil e = tt
reached_OnlyLast (cons s ss) e = e

module _ (R : Resolver) (laws : IsReporting R) (context : ExprContext) where
  -- no error is reported
  abbrev pub Clean : State R.Namespace → Type 0
  Clean s = reported s.env ≡ false

  abbrev pub Erred : State R.Namespace → Type 0
  Erred s = reported s.env ≡ true

  -- a step that keeps errors and the loops
  abbrev Step : {A : Type 0} → State R.Namespace → Run (State R.Namespace) A → Type 0
  Step s = Ensures (λ _ t. (Clean t → Clean s) × (t.loops ≡ s.loops)) Erred

  abbrev Accepts : State R.Namespace → Run (State R.Namespace) Resolved → Type 0
  Accepts s = Ensures (λ res t. Clean t → Clean s × Good res) Erred

  step :
      {A : Type 0} (op : M (Env R.Namespace) A) (s : State R.Namespace)
      → Reports s.env (op s.env)
      → Step s (lift op s)
  step op s h =
      lifted (λ a e. reported e ≡ false → reported s.env ≡ false) (λ e. reported e ≡ true) op s h

  leaf :
      (op : M (Env R.Namespace) Resolved) (s : State R.Namespace)
      → GoodOp s.env (op s.env)
      → Accepts s (lift op s)
  leaf op s h =
      weaken (λ res t ((c, g), _) k. (c k, g))
        (lifted (λ res e. (reported e ≡ false → reported s.env ≡ false) × Good res)
          (λ e. reported e ≡ true) op s h)

  enter-Step : (s : State R.Namespace) → Step s (enter R context s)
  unfolding enter
  enter-Step s = returns ((λ h. h), refl)

  leave-Step : (s : State R.Namespace) → Step s (leave R context s)
  unfolding leave
  leave-Step s = returns ((λ h. h), refl)

  enter_loop-Step :
      (s : State R.Namespace)
      → Ensures
          (λ _ t. (Clean t → Clean s) × (t.loops ≡ new_scope s.loops))
          Erred
          (enter_loop R context s)
  unfolding enter_loop
  enter_loop-Step s = returns ((λ h. h), refl)

  leave_loop-Step :
      (s : State R.Namespace) → Ensures (λ _ t. Clean t → Clean s) Erred (leave_loop R context s)
  unfolding leave_loop
  leave_loop-Step s = left (leave_scope s.loops)
    where
      left :
          (o : Outcome (LoopScope × LoopScopes))
          → Ensures
              (λ _ t. Clean t → Clean s)
              Erred
              (elim o [
                | done (scope, loops) ↦ ok scope (record s { loops = loops })
                | Outcome.panic ↦ panic
              ])
      left (done (scope, loops)) = returns (λ h. h)
      left Outcome.panic = panics

  leave_loop-gives :
      {b c : ℕ} (l : LoopScopes) (s : State R.Namespace)
      → Counted b c (new_scope l) s.loops
      → Ensures
          (λ scope t. (Clean t → Clean s) × (scope.no_breaks ≡ b))
          Erred
          (leave_loop R context s)
  unfolding leave_loop
  leave_loop-gives l s h = rw (leave_scope-Counted l h, leave_loop) (returns ((λ h. h), refl))

  jump-Accepts :
      (loc : Loc) (do_jump : LoopScopes → Bool × LoopScopes) (make : Loc → Statement)
      (d : Diagnostic) (s : State R.Namespace)
      → d.level ≡ D.error
      → Good (false, one (make loc))
      → Accepts s (jump R context loc do_jump make d s)
  unfolding jump
  jump-Accepts loc do_jump make d s error good = elim (Bool-cases (do_jump s.loops).0) [
    | inl e ↦ rw e (returns (λ h. (h, good)))
    | inr e ↦ rw e (
        lifted (λ _ e. reported e ≡ true) (λ e. reported e ≡ true) (report d) s
          (report-reports d error s.env)
        ⟫ λ _ t (h, _). throws h)
  ]

  -- the report on a statement behind an unreachable one
  mark-Step :
      (loc : Loc) (r already : Bool) (s : State R.Namespace)
      → (already ≡ true → Clean s → ⊥)
      → Ensures
          (λ already' t. (Clean t → Clean s × (r ≡ true)) × (already' ≡ true → Clean t → ⊥))
          Erred
          (mark_unreachable R context loc r already s)
  unfolding mark_unreachable
  mark-Step loc true already s h = returns ((λ c. (c, refl)), h)
  mark-Step loc false true s h = returns ((λ c. elim (h refl c) [ ]), h)
  mark-Step loc false false s h =
      lifted (λ _ e. reported e ≡ true) (λ e. reported e ≡ true)
        (report_ns (unreachable_statement loc)) s (report_ns-reports _ refl s.env)
      ⟫ λ _ t (k, _). returns ((λ c. elim (never (sym c ∙ k)) [ ]), λ _ c. never (sym c ∙ k))

  next-Reports :
      (o : Option P.Expression) (e : Env R.Namespace) → Reports e (next_expression R context o e)
  unfolding next_expression
  next-Reports none e = returns (λ h. h)
  next-Reports (some x) e = laws.expression x context (to_type bool) e ⟫ λ expr e1 c1. returns c1

  -- what is known of the loop of a block: its result is that of the list if its start is reached, and
  -- behind a start that is not reached nothing stands
  Rest : Bool → State R.Namespace → Resolved → State R.Namespace → Type 0
  Rest r s (r', out) t =
      Clean t → Clean s × AreTidy out × (r' ≡ (r && all_reachable out)) × OnlyLast r out

  mutual
    unfolding statement all_reachable Rest

    pub statement-Accepts :
        (stmt : P.Statement) (s : State R.Namespace) → Accepts s (statement R context stmt s)
    statement-Accepts (P.variable_definition loc decl init) s =
        leaf (variable_definition R context loc decl init) s
          (variable_definition-Good R laws context loc decl init s.env)
    statement-Accepts (P.block loc ss) s = enter-Step s ⟫ λ _ s1 (c1, _).
        statements-Accepts ss true false s1 (λ e _. never e) ⟫ λ (r, out) s2 k.
        leave-Step s2 ⟫ λ _ s3 (c3, _).
        returns (λ c. let (c2, tidy, e, _) = k (c3 c) in (c1 c2, ((tidy, tt, tt), e ∙ and_true _)))
    statement-Accepts (P.break loc) s =
        jump-Accepts loc do_break break _ s refl ((tt, tt, tt), refl)
    statement-Accepts (P.continue loc) s =
        jump-Accepts loc do_continue continue _ s refl ((tt, tt, tt), refl)
    statement-Accepts (P.while loc c body) s =
        step (condition R context c) s (condition-Reports R laws context c s.env)
        ⟫ λ cond s1 (c1, _). enter-Step s1 ⟫ λ _ s2 (c2, _). enter_loop-Step s2 ⟫ λ _ s3 (c3, _).
            statement-Accepts body s3 ⟫ λ (r, out) s4 k. leave-Step s4 ⟫ λ _ s5 (c5, _).
            leave_loop-Step s5 ⟫ λ control s6 c6. returns (λ c.
              let (c4, (tidy, _)) = k (c5 (c6 c)) in
              (c1 (c2 (c3 c4)), (((refl, tidy), tt, tt), refl)))
    statement-Accepts (P.do_while loc body c) s =
        step (condition R context c) s (condition-Reports R laws context c s.env)
        ⟫ λ cond s1 (c1, _). enter-Step s1 ⟫ λ _ s2 (c2, _). enter_loop-Step s2 ⟫ λ _ s3 (c3, _).
            statement-Accepts body s3 ⟫ λ (r, out) s4 k. leave-Step s4 ⟫ λ _ s5 (c5, _).
            leave_loop-Step s5 ⟫ λ control s6 c6. returns (λ c.
              let (c4, (tidy, _)) = k (c5 (c6 c)) in
              (c1 (c2 (c3 c4)), (((refl, tidy), tt, tt), refl)))
    statement-Accepts (P.if_else loc c then_stmt else_stmt) s =
        step (condition R context c) s (condition-Reports R laws context c s.env)
        ⟫ λ cond s1 (c1, _). enter-Step s1 ⟫ λ _ s2 (c2, _).
            statement-Accepts then_stmt s2 ⟫ λ (r, out) s3 k. leave-Step s3 ⟫ λ _ s4 (c4, _).
            else_branch-Accepts else_stmt s4 ⟫ λ (r', out') s5 k'. returns (λ c.
              let (c4', (tidy', e')) = k' c in
              let (c3, (tidy, e)) = k (c4 c4') in
              (c1 (c2 c3), (((rw (e, e') refl, tidy, tidy'), tt, tt), and_true _)))
    statement-Accepts (P.args loc _) s =
        lifted (λ _ e. reported e ≡ true) (λ e. reported e ≡ true) (report_ns (no_block loc)) s
          (report_ns-reports _ refl s.env)
        ⟫ λ _ t (h, _). throws h
    statement-Accepts (P.for loc init none after body) s = enter-Step s ⟫ λ _ s1 (c1, _).
        optional-Accepts init s1 ⟫ λ (r, out) s2 k. enter_loop-Step s2 ⟫ λ _ s3 (c3, e3).
        both (optional-Accepts body s3) (optional-Sound R context body s3)
        ⟫ λ (r', out') s4 (k', (counted, _)).
            leave_loop-gives s2.loops s4 (Counted-at counted refl refl e3 refl)
            ⟫ λ control s5 (c5, e5).
                step (next_expression R context after) s5 (next-Reports after s5.env)
                ⟫ λ next_out s6 (c6, _). leave-Step s6 ⟫ λ _ s7 (c7, _). returns (λ c.
                  let (c4, (tidy', _)) = k' (c5 (c6 (c7 c))) in
                  let (c2, (tidy, _)) = k (c3 c4) in
                  (c1 c2, (((ap (λ n. ltb 0 n) e5, tidy, tidy'), tt, tt), and_true _)))
    statement-Accepts (P.for loc init (some x) after body) s = enter-Step s ⟫ λ _ s1 (c1, _).
        optional-Accepts init s1 ⟫ λ (r, out) s2 k.
        step (R.expression x context (to_type bool)) s2
          (laws.expression x context (to_type bool) s2.env)
        ⟫ λ expr s3 (c3, _).
            step (cast_at R context (P.expression_loc x) bool expr) s3
              (cast_at-Reports R context (P.expression_loc x) bool expr s3.env)
            ⟫ λ cond s4 (c4, _). enter_loop-Step s4 ⟫ λ _ s5 (c5, _).
                optional-Accepts body s5 ⟫ λ (r', out') s6 k'. leave_loop-Step s6 ⟫ λ control s7 c7.
                step
                  (if r' || ltb 0 control.no_continues
                    then next_expression R context after
                    else pure none)
                  s7
                  (Ensures-if (r' || ltb 0 control.no_continues) _ _ s7.env
                    (next-Reports after s7.env) (returns (λ h. h)))
                ⟫ λ next_out s8 (c8, _). leave-Step s8 ⟫ λ _ s9 (c9, _). returns (λ c.
                  let (c6, (tidy', _)) = k' (c7 (c8 (c9 c))) in
                  let (c2, (tidy, _)) = k (c3 (c4 (c5 c6))) in
                  (c1 c2, (((refl, tidy, tidy'), tt, tt), refl)))
    statement-Accepts (P.return loc none) s =
        leaf (return_nothing R context loc) s (return_nothing-Good R laws context loc s.env)
    statement-Accepts (P.return loc (some x)) s =
        leaf (return_values R context loc x) s (return_values-Good R laws context loc x s.env)
    statement-Accepts (P.expression loc x) s =
        leaf (expression_statement R context loc x) s
          (expression_statement-Good R laws context loc x s.env)
    statement-Accepts (P.error _) s = panics

    statements-Accepts :
        (ss : P.Statements) (r already : Bool) (s : State R.Namespace)
        → (already ≡ true → Clean s → ⊥)
        → Ensures (Rest r s) Erred (statements R context ss r already s)
    statements-Accepts P.nil r already s h = returns (λ c. (c, tt, and_true r, tt))
    statements-Accepts (P.cons stmt rest) r already s h =
        mark-Step (P.loc_of stmt) r already s h ⟫ λ already' s1 (c1, h').
        statement-Accepts stmt s1 ⟫ λ (r', out) s2 k.
        statements-Accepts rest r' already' s2 (λ e c. h' e (k c).0) ⟫ λ (r'', out') s3 k'.
        returns (λ c.
          let (c2, tidy', e', last') = k' c in
          let (c1', (tidy, e)) = k c2 in
          let (c0, start) = c1 c1' in
          (
            c0,
            AreTidy-append out out' tidy (rw e at last') tidy',
            rw (start, e', e, all_reachable-append out out') refl,
            reached_OnlyLast (out ⊕ out') start,
          ))

    else_branch-Accepts :
        (o : P.OptionalStatement) (s : State R.Namespace) → Accepts s (else_branch R context o s)
    else_branch-Accepts P.missing s = returns {a = (true, nil)} {s = s} (λ c. (c, (tt, refl)))
    else_branch-Accepts (P.present stmt) s = enter-Step s ⟫ λ _ s1 (c1, _).
        statement-Accepts stmt s1 ⟫ λ (r, out) s2 k.
        leave-Step s2 ⟫ λ _ s3 (c3, _). returns (λ c. let (c2, g) = k (c3 c) in (c1 c2, g))

    optional-Accepts :
        (o : P.OptionalStatement) (s : State R.Namespace) → Accepts s (optional R context o s)
    optional-Accepts P.missing s = returns {a = (true, nil)} {s = s} (λ c. (c, (tt, refl)))
    optional-Accepts (P.present stmt) s = statement-Accepts stmt s

  -- Where the calls out of the file keep errors and fail only with one reported: a statement that is
  -- resolved has reported an error, or its resolved statements are tidy (none stands behind one whose
  -- end is not reached, and the flags fit their parts) and the result says whether the end of all is
  -- reached; a statement that is not resolved has reported an error.
  pub statement-TidyOrReported :
      (stmt : P.Statement) (s : State R.Namespace)
      → Ensures
          (λ (r, out) t. Erred t ⊎ (AreTidy out × (r ≡ all_reachable out)))
          Erred
          (statement R context stmt s)
  statement-TidyOrReported stmt s =
      weaken
        (λ (r, out) t k. elim (Bool-cases (reported t.env)) [ inl e ↦ inl e | inr c ↦ inr (k c).1 ])
        (statement-Accepts stmt s)
