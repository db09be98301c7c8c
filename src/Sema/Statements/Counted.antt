-- ===== src/Sema/Statements/Counted.antt =====
-- src/sema/symtable.rs: the counts of the loops around a list of statements, before it and behind it.
use ola_lang.Prelude.{
  ℕ, ◌+◌, ◌≡◌, refl, ap, Bool, true, false, [], ◌∷◌, ◌++◌, get_last?-append, drop_last-append,
  arith,
}
use ola_lang.Prelude.Outcome.{done}
use ola_lang.Sema.LoopScopes.{
  LoopScope, LoopScopes, new_scope, leave_scope, update_last, do_break, do_continue,
}

abbrev pub added : (breaks continues : ℕ) → LoopScope → LoopScope
added b c scope = record { no_breaks = scope.no_breaks + b; no_continues = scope.no_continues + c }

-- the innermost loop with so many more breaks and continues
pub bump : (breaks continues : ℕ) → LoopScopes → LoopScopes
bump b c [] = []
bump b c (scope ∷ []) = added b c scope ∷ []
bump b c (scope ∷ next ∷ rest) = scope ∷ bump b c (next ∷ rest)

-- where there is no loop there are none
abbrev pub Fits : (breaks continues : ℕ) → LoopScopes → Type 0
Fits b c [] = (b ≡ 0) × (c ≡ 0)
Fits b c (scope ∷ rest) = Unit {0}

-- From the first stack to the second the innermost loop got so many more.
pub record Counted (b c : ℕ) (before behind : LoopScopes) : Type 0 where
  pub bumped : behind ≡ bump b c before
  pub fits : Fits b c before

LoopScope-eq :
    {r s : LoopScope} → r.no_breaks ≡ s.no_breaks → r.no_continues ≡ s.no_continues → r ≡ s
LoopScope-eq p q = ground arith

added-zero : (r : LoopScope) → added 0 0 r ≡ r
added-zero r = LoopScope-eq (omega arith) (omega arith)

added-added :
    (b c b' c' : ℕ) (r : LoopScope) → added b' c' (added b c r) ≡ added (b + b') (c + c') r
added-added b c b' c' r = LoopScope-eq (omega arith) (omega arith)

bump-zero : (l : LoopScopes) → bump 0 0 l ≡ l
unfolding bump
bump-zero [] = refl
bump-zero (r ∷ []) = ap (λ t. t ∷ []) (added-zero r)
bump-zero (r ∷ n ∷ l) = ap (λ t. r ∷ t) (bump-zero (n ∷ l))

bump-bump : (b c b' c' : ℕ) (l : LoopScopes) → bump b' c' (bump b c l) ≡ bump (b + b') (c + c') l
unfolding bump
bump-bump b c b' c' [] = refl
bump-bump b c b' c' (r ∷ []) = ap (λ t. t ∷ []) (added-added b c b' c' r)
bump-bump b c b' c' (r ∷ n ∷ []) = ap (λ t. r ∷ t ∷ []) (added-added b c b' c' n)
bump-bump b c b' c' (r ∷ n ∷ m ∷ l) = ap (λ t. r ∷ t) (bump-bump b c b' c' (n ∷ m ∷ l))

Fits-bump :
    (b c b' c' : ℕ) (l : LoopScopes)
    → Fits b c l
    → Fits b' c' (bump b c l)
    → Fits (b + b') (c + c') l
unfolding bump
Fits-bump b c b' c' [] f g = omega arith
Fits-bump b c b' c' (r ∷ l) f g = tt

pub Counted-none : {l m : LoopScopes} → m ≡ l → Counted 0 0 l m
Counted-none {l} e = record { bumped = rw (bump-zero l) e; fits = none_fit l }
  where
    none_fit : (l : LoopScopes) → Fits 0 0 l
    none_fit [] = (refl, refl)
    none_fit (r ∷ l) = tt

pub Counted-then :
    {b c b' c' : ℕ} {l m n : LoopScopes}
    → Counted b c l m
    → Counted b' c' m n
    → Counted (b + b') (c + c') l n
Counted-then {b} {c} {b'} {c'} {l} {m} {n} h k = record {
  bumped = rw (k.bumped, h.bumped) (bump-bump b c b' c' l);
  fits = Fits-bump b c b' c' l h.fits (rw h.bumped at k.fits);
}

-- the same, of equal numbers and stacks
pub Counted-at :
    {b c b' c' : ℕ} {l m l' m' : LoopScopes}
    → Counted b c l m
    → b ≡ b'
    → c ≡ c'
    → l ≡ l'
    → m' ≡ m
    → Counted b' c' l' m'
Counted-at h p q u v = rw (← p, ← q, ← u, v) h

is_inside : LoopScopes → Bool
is_inside [] = false
is_inside (r ∷ l) = true

update_last_lem :
    (f : LoopScope → LoopScope) (b c : ℕ) (l : LoopScopes)
    → ((r : LoopScope) → f r ≡ added b c r)
    → update_last f l ≡ (is_inside l, bump b c l)
unfolding bump is_inside
update_last_lem f b c [] e = refl
update_last_lem f b c (r ∷ []) e = rw (e r) refl
update_last_lem f b c (r ∷ n ∷ l) e = rw (update_last_lem f b c (n ∷ l) e) refl

inside-Fits : (b c : ℕ) (l : LoopScopes) → is_inside l ≡ true → Fits b c l
unfolding is_inside
inside-Fits b c [] h = cc
inside-Fits b c (r ∷ l) h = tt

module _ (l : LoopScopes) where
  pub do_break-Counted : (do_break l).0 ≡ true → Counted 1 0 l (do_break l).1
  unfolding do_break
  do_break-Counted h =
      let e =
        update_last_lem (λ r. record r { no_breaks = r.no_breaks + 1 }) 1 0 l
          (λ r. LoopScope-eq refl (omega arith)) in
      record { bumped = ap (λ p. p.1) e; fits = inside-Fits 1 0 l (rw e at h) }

  pub do_continue-Counted : (do_continue l).0 ≡ true → Counted 0 1 l (do_continue l).1
  unfolding do_continue
  do_continue-Counted h =
      let e =
        update_last_lem (λ r. record r { no_continues = r.no_continues + 1 }) 0 1 l
          (λ r. LoopScope-eq (omega arith) refl) in
      record { bumped = ap (λ p. p.1) e; fits = inside-Fits 0 1 l (rw e at h) }

pub bump-append :
    (b c : ℕ) (l : LoopScopes) (r : LoopScope) → bump b c (l ++ r ∷ []) ≡ l ++ added b c r ∷ []
unfolding bump
bump-append b c [] r = refl
bump-append b c (x ∷ []) r = refl
bump-append b c (x ∷ y ∷ l) r = ap (λ t. x ∷ t) (bump-append b c (y ∷ l) r)

-- A loop is left with the numbers of its body, and with the loops from before it.
pub leave_scope-Counted :
    {b c : ℕ} (l : LoopScopes) {m : LoopScopes}
    → Counted b c (new_scope l) m
    → leave_scope m ≡ done (record { no_breaks = b; no_continues = c }, l)
unfolding new_scope leave_scope
leave_scope-Counted {b} {c} l h =
    rw
      (
        h.bumped,
        bump-append b c l (record { no_breaks = 0; no_continues = 0 }),
        get_last?-append l (added b c (record { no_breaks = 0; no_continues = 0 })),
        drop_last-append l (added b c (record { no_breaks = 0; no_continues = 0 })),
      )
      (ap (λ t. done (t, l)) (LoopScope-eq (omega arith) (omega arith)))
