-- ===== src/Sema/Flow/Jumps.antt =====
-- Where a way leaves by a break or a continue, one stands in the statement and in no loop inside.
use ola_lang.Prelude.{ℕ, ◌+◌, ◌<◌, ◌≡◌, ◌≢◌, Option, none, some, ◌⊎◌, inl, inr, arith}
use ola_lang.Sema.Ast.{Expression}
use ola_lang.Sema.Ast.Statements.{Statement, Statements, nil, cons, ◌⊕◌}
use ola_lang.Sema.Flow.{
  Exit, falls, breaks, continues, returns, after_body, Way, in_block, declares, deletes,
  destructures, evaluates, jumps_out, jumps_on, leaves, first_branch, second_branch, turns,
  body_first, body_then, in_init, behind_init, Ways, done, next, stops, Rounds, fails, out, again,
  breaks_of, breaks_in, continues_of, continues_in,
}

-- what an exit needs of the numbers of breaks and continues
abbrev pub Needs : Exit → (breaks continues : ℕ) → Type 0
Needs breaks b c = 0 < b
Needs continues b c = 0 < c
Needs _ b c = Unit

Needs-left : (x : Exit) (b c b' c' : ℕ) → Needs x b c → Needs x (b + b') (c + c')
Needs-left falls b c b' c' h = h
Needs-left breaks b c b' c' h = omega arith
Needs-left continues b c b' c' h = omega arith
Needs-left returns b c b' c' h = h

Needs-right : (x : Exit) (b c b' c' : ℕ) → Needs x b' c' → Needs x (b + b') (c + c')
Needs-right falls b c b' c' h = h
Needs-right breaks b c b' c' h = omega arith
Needs-right continues b c b' c' h = omega arith
Needs-right returns b c b' c' h = h

-- No loop is left by a break or a continue of its body.
after_body-Needs : (x y : Exit) (b c : ℕ) → after_body x ≡ some y → Needs y b c
after_body-Needs x falls b c h = tt
after_body-Needs x returns b c h = tt
after_body-Needs falls breaks b c h = cc
after_body-Needs breaks breaks b c h = cc
after_body-Needs continues breaks b c h = cc
after_body-Needs returns breaks b c h = cc
after_body-Needs falls continues b c h = cc
after_body-Needs breaks continues b c h = cc
after_body-Needs continues continues b c h = cc
after_body-Needs returns continues b c h = cc

Rounds-Needs :
    {c n : Option Expression} {body : Statements} {x : Exit} (b k : ℕ)
    → Rounds c n body x
    → Needs x b k
Rounds-Needs b k fails = tt
Rounds-Needs b k (out {x} {y} w e) = after_body-Needs x y b k e
Rounds-Needs b k (again w e n r) = Rounds-Needs b k r

mutual
  unfolding breaks_of continues_of

  pub Way-Needs : {s : Statement} {x : Exit} → Way s x → Needs x (breaks_of s) (continues_of s)
  Way-Needs (in_block w) = Ways-Needs w
  Way-Needs declares = tt
  Way-Needs deletes = tt
  Way-Needs destructures = tt
  Way-Needs (evaluates e) = tt
  Way-Needs jumps_out = omega arith
  Way-Needs jumps_on = omega arith
  Way-Needs leaves = tt
  Way-Needs (first_branch {x} w) = Needs-left x _ _ _ _ (Ways-Needs w)
  Way-Needs (second_branch {x} w) = Needs-right x _ _ _ _ (Ways-Needs w)
  Way-Needs (turns r) = Rounds-Needs _ _ r
  Way-Needs (body_first {x} {y} w e) = after_body-Needs x y _ _ e
  Way-Needs (body_then w e r) = Rounds-Needs _ _ r
  Way-Needs (in_init w n) = Ways-Needs w
  Way-Needs (behind_init w r) = Rounds-Needs _ _ r

  pub Ways-Needs :
      {ss : Statements} {x : Exit} → Ways ss x → Needs x (breaks_in ss) (continues_in ss)
  Ways-Needs done = tt
  Ways-Needs (next {x} w ws) = Needs-right x _ _ _ _ (Ways-Needs ws)
  Ways-Needs (stops {x} w n) = Needs-left x _ _ _ _ (Way-Needs w)

-- A loop without a condition is left by a break of its body alone.
pub Rounds-breaks :
    {n : Option Expression} {body : Statements} → Rounds none n body falls → 0 < breaks_in body
Rounds-breaks (out {x = breaks} w e) = Ways-Needs w
Rounds-breaks (out {x = falls} w e) = cc
Rounds-breaks (out {x = continues} w e) = cc
Rounds-breaks (out {x = returns} w e) = cc
Rounds-breaks (again w e n r) = Rounds-breaks r

-- the parts of a list
pub Ways-append :
    (ss : Statements) {ts : Statements} {x : Exit}
    → Ways (ss ⊕ ts) x
    → (Ways ss falls × Ways ts x) ⊎ (Ways ss x × (x ≢ falls))
Ways-append nil w = inl (done, w)
Ways-append (cons s ss) (next w ws) = elim (Ways-append ss ws) [
  | inl (a, b) ↦ inl (next w a, b)
  | inr (a, n) ↦ inr (next w a, n)
]
Ways-append (cons s ss) (stops w n) = inr (stops w n, n)

mutual
  unfolding breaks_of continues_of

  pub breaks_in-append : (ss ts : Statements) → breaks_in (ss ⊕ ts) ≡ breaks_in ss + breaks_in ts
  breaks_in-append nil ts = omega arith
  breaks_in-append (cons s ss) ts = omega (arith, breaks_in-append ss ts)

  pub continues_in-append :
      (ss ts : Statements) → continues_in (ss ⊕ ts) ≡ continues_in ss + continues_in ts
  continues_in-append nil ts = omega arith
  continues_in-append (cons s ss) ts = omega (arith, continues_in-append ss ts)
