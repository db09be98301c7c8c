-- ===== src/Sema/Statements/Sound.antt =====
-- src/sema/statements.rs: no way out of the resolved statements is overlooked.
use ola_lang.Prelude.{
  ℕ, ◌+◌, if◌then◌else◌, ◌≡◌, refl, sym, ◌∙◌, Bool, true, false, ◌||◌, none, some, [], ◌∷◌, ◌++◌,
  ltb, inl, inr, Bool-cases, arith,
}
use ola_lang.Prelude.Run.{
  Run, M, pure, Ensures, returns, throws, panics, ◌⟫◌, weaken, Anything, called,
}
use ola_lang.Sema.Ast.{Loc, bool}
use ola_lang.Sema.Ast.Statements.{Statement, break, continue, Statements}
use ola_lang.Sema.Diagnostics.{Diagnostic}
use ola_lang.Sema.Flow.{
  Exit, falls, breaks, continues, Way, Ways, breaks_in, continues_in, breaks_of, continues_of,
}
use ola_lang.Sema.Flow.Jumps.{Ways-Needs, Ways-append, breaks_in-append, continues_in-append}
use ola_lang.Sema.Integers.{to_type}
use ola_lang.Sema.LoopScopes
use ola_lang.Sema.LoopScopes.{LoopScope, LoopScopes, new_scope, do_break, do_continue}
use ola_lang.Sema.Program as P
use ola_lang.Sema.Statements.{
  Resolver, ExprContext, Resolved, unreachable_statement, cast_at, statement, statements,
  else_branch, optional, jump, variable_definition, return_nothing, return_values,
  expression_statement, enter, leave, enter_loop, leave_loop, condition, next_expression,
  mark_unreachable,
}
use ola_lang.Sema.Statements.Counted.{
  Counted, Counted-none, Counted-then, Counted-at, added, bump-append, do_break-Counted,
  do_continue-Counted, leave_scope-Counted,
}
use ola_lang.Sema.Statements.Monad.{Env, State, lift, report_ns}
use ola_lang.Sema.Statements.Post.{lift-keeps, lift-called}
use ola_lang.Sema.Statements.Leaves.{
  FallsIf, Leaf, OfOp, Ways-one, for_falls, block_falls, never_falls, never_goes_on, either_falls,
  lt→ltb, variable_definition-Leaf, expression_statement-Leaf, return_nothing-Leaf,
  return_values-Leaf,
}

module _ (R : Resolver) (context : ExprContext) where
  -- what is proved of each part: the loops counted, and no way through overlooked
  abbrev pub Accounted : LoopScopes → Resolved → State R.Namespace → Type 0
  Accounted loops (reachable, out) t =
      Counted (breaks_in out) (continues_in out) loops t.loops × FallsIf reachable out

  abbrev pub Sound : LoopScopes → Run (State R.Namespace) Resolved → Type 0
  Sound loops = Ensures (Accounted loops) (Anything (State R.Namespace))

  leaf :
      (op : M (Env R.Namespace) Resolved) (s : State R.Namespace)
      → OfOp Leaf (op s.env)
      → Sound s.loops (lift op s)
  leaf op s h =
      weaken (λ (r, out) t ((b, c, w), e). (rw (b, c) (Counted-none e), w)) (lift-keeps Leaf op s h)

  jump-Sound :
      (loc : Loc) (do_jump : LoopScopes → Bool × LoopScopes) (make : Loc → Statement)
      (d : Diagnostic) (s : State R.Namespace)
      → ((do_jump s.loops).0 ≡ true
          → Counted
              (breaks_of (make loc) + 0)
              (continues_of (make loc) + 0)
              s.loops
              (do_jump s.loops).1)
      → (Way (make loc) falls → ⊥)
      → Sound s.loops (jump R context loc do_jump make d s)
  unfolding jump breaks_of continues_of
  jump-Sound loc do_jump make d s counted never_falls = elim (Bool-cases (do_jump s.loops).0) [
    | inl e ↦ rw e (returns (counted e, λ w. elim (never_falls (Ways-one w)) [ ]))
    | inr e ↦ rw e (called _ ⟫ λ _ _ _. throws tt)
  ]

  abbrev Loops : LoopScopes → Run (State R.Namespace) (Unit {0}) → Type 0
  Loops l = Ensures (λ _ t. t.loops ≡ l) (Anything (State R.Namespace))

  enter-Loops : (s : State R.Namespace) → Loops s.loops (enter R context s)
  unfolding enter
  enter-Loops s = returns refl

  leave-Loops : (s : State R.Namespace) → Loops s.loops (leave R context s)
  unfolding leave
  leave-Loops s = returns refl

  enter_loop-Loops : (s : State R.Namespace) → Loops (new_scope s.loops) (enter_loop R context s)
  unfolding enter_loop
  enter_loop-Loops s = returns refl

  mark-Loops :
      (loc : Loc) (r already : Bool) (s : State R.Namespace)
      → Ensures
          (λ _ t. t.loops ≡ s.loops)
          (Anything (State R.Namespace))
          (mark_unreachable R context loc r already s)
  unfolding mark_unreachable
  mark-Loops loc true true s = returns refl
  mark-Loops loc true false s = returns refl
  mark-Loops loc false true s = returns refl
  mark-Loops loc false false s =
      lift-called (report_ns (unreachable_statement loc)) s ⟫ λ _ t e. returns e

  leave_loop-gives :
      {b c : ℕ} (l : LoopScopes) (s : State R.Namespace)
      → Counted b c (new_scope l) s.loops
      → Ensures
          (λ scope t. (scope ≡ record { no_breaks = b; no_continues = c }) × (t.loops ≡ l))
          (Anything (State R.Namespace))
          (leave_loop R context s)
  unfolding leave_loop
  leave_loop-gives l s h = rw (leave_scope-Counted l h, leave_loop) (returns (refl, refl))

  mutual
    unfolding statement breaks_of continues_of

    pub statement-Sound :
        (stmt : P.Statement) (s : State R.Namespace) → Sound s.loops (statement R context stmt s)
    statement-Sound (P.variable_definition loc decl init) s =
        leaf (variable_definition R context loc decl init) s
          (variable_definition-Leaf R context loc decl init s.env)
    statement-Sound (P.block loc ss) s = enter-Loops s ⟫ λ _ s1 e1.
        statements-Sound ss true false s1 ⟫ λ (r, out) s2 (k, w). leave-Loops s2 ⟫ λ _ s3 e3.
        returns
          (Counted-at k (omega arith) (omega arith) e1 e3, λ v. w refl (block_falls (Ways-one v)))
    statement-Sound (P.break loc) s =
        jump-Sound loc do_break break _ s
          (λ h. Counted-at (do_break-Counted s.loops h) (omega arith) (omega arith) refl refl)
          (λ w. never_falls w refl)
    statement-Sound (P.continue loc) s =
        jump-Sound loc do_continue continue _ s
          (λ h. Counted-at (do_continue-Counted s.loops h) (omega arith) (omega arith) refl refl)
          (λ w. never_goes_on w refl)
    statement-Sound (P.while loc c body) s = lift-called (condition R context c) s ⟫ λ cond s1 e1.
        enter-Loops s1 ⟫ λ _ s2 e2. enter_loop-Loops s2 ⟫ λ _ s3 e3.
        statement-Sound body s3 ⟫ λ (r, out) s4 (k, w). leave-Loops s4 ⟫ λ _ s5 e5.
        leave_loop-gives s2.loops s5 (Counted-at k refl refl e3 e5) ⟫ λ control s6 (_, e6).
        returns (Counted-none (e6 ∙ e2 ∙ e1), λ w. refl)
    statement-Sound (P.do_while loc body c) s =
        lift-called (condition R context c) s ⟫ λ cond s1 e1. enter-Loops s1 ⟫ λ _ s2 e2.
        enter_loop-Loops s2 ⟫ λ _ s3 e3. statement-Sound body s3 ⟫ λ (r, out) s4 (k, w).
        leave-Loops s4 ⟫ λ _ s5 e5.
        leave_loop-gives s2.loops s5 (Counted-at k refl refl e3 e5) ⟫ λ control s6 (_, e6).
        returns (Counted-none (e6 ∙ e2 ∙ e1), λ w. refl)
    statement-Sound (P.if_else loc c then_stmt else_stmt) s =
        lift-called (condition R context c) s ⟫ λ cond s1 e1. enter-Loops s1 ⟫ λ _ s2 e2.
        statement-Sound then_stmt s2 ⟫ λ (r, out) s3 (k, w). leave-Loops s3 ⟫ λ _ s4 e4.
        else_branch-Sound else_stmt s4 ⟫ λ (r', out') s5 (k', w'). returns (
          Counted-at (Counted-then k (Counted-at k' refl refl e4 refl)) (omega arith) (omega arith)
              (e2 ∙ e1) refl,
          λ v. either_falls w w' (Ways-one v),
        )
    statement-Sound (P.args loc _) s = called _ ⟫ λ _ t _. throws tt
    statement-Sound (P.for loc init none after body) s = enter-Loops s ⟫ λ _ s1 e1.
        optional-Sound init s1 ⟫ λ (r, out) s2 (k, w). enter_loop-Loops s2 ⟫ λ _ s3 e3.
        optional-Sound body s3 ⟫ λ (r', out') s4 (k', w').
        leave_loop-gives s2.loops s4 (Counted-at k' refl refl e3 refl) ⟫ λ control s5 (ec, e5).
        lift-called (next_expression R context after) s5 ⟫ λ next_out s6 e6.
        leave-Loops s6 ⟫ λ _ s7 e7. returns (
          Counted-at k (omega arith) (omega arith) e1 (e7 ∙ e6 ∙ e5),
          λ v. rw ec (lt→ltb (for_falls (Ways-one v) refl)),
        )
    statement-Sound (P.for loc init (some c) after body) s = enter-Loops s ⟫ λ _ s1 e1.
        optional-Sound init s1 ⟫ λ (r, out) s2 (k, w).
        lift-called (R.expression c context (to_type bool)) s2 ⟫ λ expr s3 e3.
        lift-called (cast_at R context (P.expression_loc c) bool expr) s3 ⟫ λ cond s4 e4.
        enter_loop-Loops s4 ⟫ λ _ s5 e5. optional-Sound body s5 ⟫ λ (r', out') s6 (k', w').
        leave_loop-gives s4.loops s6 (Counted-at k' refl refl e5 refl) ⟫ λ control s7 (_, e7).
        lift-called
          (if r' || ltb 0 control.no_continues then next_expression R context after else pure none)
          s7
        ⟫ λ next_out s8 e8. leave-Loops s8 ⟫ λ _ s9 e9.
            returns
              (Counted-at k (omega arith) (omega arith) e1 (e9 ∙ e8 ∙ e7 ∙ e4 ∙ e3), λ v. refl)
    statement-Sound (P.return loc none) s =
        leaf (return_nothing R context loc) s (return_nothing-Leaf R context loc s.env)
    statement-Sound (P.return loc (some e)) s =
        leaf (return_values R context loc e) s (return_values-Leaf R context loc e s.env)
    statement-Sound (P.expression loc e) s =
        leaf (expression_statement R context loc e) s
          (expression_statement-Leaf R context loc e s.env)
    statement-Sound (P.error _) s = panics

    -- The end of a list is reached if its start is and a way falls through it.
    statements-Sound :
        (ss : P.Statements) (r already : Bool) (s : State R.Namespace)
        → Ensures
            (λ (r', out) t.
              Counted (breaks_in out) (continues_in out) s.loops t.loops
              × (r ≡ true → FallsIf r' out))
            (Anything (State R.Namespace))
            (statements R context ss r already s)
    statements-Sound P.nil r already s = returns (Counted-none refl, λ e w. e)
    statements-Sound (P.cons stmt rest) r already s =
        mark-Loops (P.loc_of stmt) r already s ⟫ λ already' s1 e1.
        statement-Sound stmt s1 ⟫ λ (r', out) s2 (k, w).
        statements-Sound rest r' already' s2 ⟫ λ (r'', out') s3 (k', w'). returns (
          Counted-at (Counted-then k k') (sym (breaks_in-append out out'))
              (sym (continues_in-append out out')) e1 refl,
          λ e v. elim (Ways-append out v) [
            | inl (a, b) ↦ w' (w a) b
            | inr (a, n) ↦ elim (n refl) [ ]
          ],
        )

    else_branch-Sound :
        (o : P.OptionalStatement) (s : State R.Namespace)
        → Sound s.loops (else_branch R context o s)
    else_branch-Sound P.missing s = returns (Counted-none refl, λ w. refl)
    else_branch-Sound (P.present stmt) s = enter-Loops s ⟫ λ _ s1 e1.
        statement-Sound stmt s1 ⟫ λ (r, out) s2 (k, w).
        leave-Loops s2 ⟫ λ _ s3 e3. returns (Counted-at k refl refl e1 e3, w)

    pub optional-Sound :
        (o : P.OptionalStatement) (s : State R.Namespace) → Sound s.loops (optional R context o s)
    optional-Sound P.missing s = returns (Counted-none refl, λ w. refl)
    optional-Sound (P.present stmt) s = statement-Sound stmt s

  -- what the result of a statement outside of loops says of a way out
  abbrev pub Allowed : Bool → Exit → Type 0
  Allowed reachable falls = reachable ≡ true
  Allowed reachable Exit.returns = Unit
  Allowed reachable breaks = ⊥
  Allowed reachable continues = ⊥

  allowed :
      {r : Bool} {out : Statements} {l : LoopScopes}
      → Counted (breaks_in out) (continues_in out) [] l
      → FallsIf r out
      → (x : Exit) → Ways out x
      → Allowed r x
  allowed k f falls w = f w
  allowed k f Exit.returns w = tt
  allowed k f breaks w = let (a, b) = k.fits in let n = Ways-Needs w in omega arith
  allowed k f continues w = let (a, b) = k.fits in let n = Ways-Needs w in omega arith

  -- Whatever the resolution of expressions does, a statement that is resolved outside of loops is
  -- left by no break and by no continue, and control falls through it only if the result is true.
  pub statement-Allowed :
      (stmt : P.Statement) (env : Env R.Namespace)
      → Ensures
          (λ (r, out) t. (x : Exit) → Ways out x → Allowed r x)
          (Anything (State R.Namespace))
          (statement R context stmt (record { env = env; loops = LoopScopes.new }))
  unfolding LoopScopes.new
  statement-Allowed stmt env =
      weaken (λ (r, out) t (k, f). allowed k f)
        (statement-Sound stmt (record { env = env; loops = [] }))

  -- Within loops, of which `scope` is the innermost, a statement that is resolved has added to its
  -- counts the breaks and continues that stand in it and in no loop inside; the loops around are as
  -- before.
  pub statement-counts :
      (stmt : P.Statement) (env : Env R.Namespace) (outer : LoopScopes) (scope : LoopScope)
      → Ensures
          (λ (r, out) t. t.loops ≡ outer ++ added (breaks_in out) (continues_in out) scope ∷ [])
          (Anything (State R.Namespace))
          (statement R context stmt (record { env = env; loops = outer ++ scope ∷ [] }))
  statement-counts stmt env outer scope =
      weaken
        (λ (r, out) t (k, f). k.bumped ∙ bump-append (breaks_in out) (continues_in out) outer scope)
        (statement-Sound stmt (record { env = env; loops = outer ++ scope ∷ [] }))
