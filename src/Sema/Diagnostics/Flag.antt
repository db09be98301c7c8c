-- ===== src/Sema/Diagnostics/Flag.antt =====
-- src/sema/diagnostics.rs: the flag `has_error` tells whether an error is in the list, whatever
-- operations made the list.
use ola_lang.Prelude.{◌≡◌, refl, List, [], ◌∷◌, ◌++◌, ◌||◌, arith}
use ola_lang.Sema.Diagnostics.{
  Diagnostic, Diagnostics, push, extend, any_error, non_casting, add_others, extend_non_casting,
  append,
}

any_error-append : (ds es : List Diagnostic) → any_error (ds ++ es) ≡ (any_error ds || any_error es)
unfolding any_error
any_error-append [] es = refl
any_error-append (d ∷ ds) es = ground (arith, any_error-append ds es)

-- The calls that change a list of diagnostics.
pub data Call : Type 0 where
  pushed : Diagnostic → Call
  extended : Diagnostics → Call
  extended_non_casting : Diagnostics → Call
  appended : List Diagnostic → Call

abbrev pub call : Diagnostics → Call → Diagnostics
call ds (pushed d) = push ds d
call ds (extended other) = extend ds other
call ds (extended_non_casting other) = (extend_non_casting ds other).0
call ds (appended new) = (append ds new).0

abbrev pub calls : Diagnostics → List Call → Diagnostics
calls ds [] = ds
calls ds (c ∷ cs) = calls (call ds c) cs

-- The flag is right.
abbrev pub IsFlagged : Diagnostics → Type 0
IsFlagged ds = ds.has_error ≡ any_error ds.contents

-- The lists that the calls are given are flagged.
abbrev pub AreFlagged : List Call → Type 0
AreFlagged [] = Unit
AreFlagged (pushed d ∷ cs) = AreFlagged cs
AreFlagged (extended other ∷ cs) = IsFlagged other × AreFlagged cs
AreFlagged (extended_non_casting other ∷ cs) = AreFlagged cs
AreFlagged (appended new ∷ cs) = AreFlagged cs

push-IsFlagged : (ds : Diagnostics) (d : Diagnostic) → IsFlagged ds → IsFlagged (push ds d)
unfolding push any_error
push-IsFlagged ds d h = ground (arith, any_error-append ds.contents (d ∷ []))

extend-IsFlagged :
    (ds other : Diagnostics) → IsFlagged ds → IsFlagged other → IsFlagged (extend ds other)
unfolding extend
extend-IsFlagged ds other h k = ground (arith, any_error-append ds.contents other.contents)

append-IsFlagged :
    (ds : Diagnostics) (new : List Diagnostic) → IsFlagged ds → IsFlagged (append ds new).0
unfolding append
append-IsFlagged ds new h = ground (arith, any_error-append ds.contents new)

add_others-IsFlagged :
    (ds : Diagnostics) (new : List Diagnostic) → IsFlagged ds → IsFlagged (add_others ds new).0
unfolding add_others
add_others-IsFlagged ds [] h = h
add_others-IsFlagged ds (d ∷ new) h = ground (arith, any_error-append ds.contents (d ∷ new))

-- From an empty list on, and from any flagged one, each sequence of calls keeps the flag right.
pub calls-IsFlagged :
    (ds : Diagnostics) (cs : List Call) → IsFlagged ds → AreFlagged cs → IsFlagged (calls ds cs)
unfolding extend_non_casting
calls-IsFlagged ds [] h k = h
calls-IsFlagged ds (pushed d ∷ cs) h k = calls-IsFlagged (push ds d) cs (push-IsFlagged ds d h) k
calls-IsFlagged ds (extended other ∷ cs) h (k, ks) =
    calls-IsFlagged (extend ds other) cs (extend-IsFlagged ds other h k) ks
calls-IsFlagged ds (extended_non_casting other ∷ cs) h k =
    calls-IsFlagged _ cs (add_others-IsFlagged ds (non_casting other.contents) h) k
calls-IsFlagged ds (appended new ∷ cs) h k = calls-IsFlagged _ cs (append-IsFlagged ds new h) k
