-- ===== src/Sema/Eval/Total.antt =====
-- src/sema/eval.rs: folding ends on every expression, without a panic.
use ola_lang.Prelude.{◌≡◌}
use ola_lang.Sema.Diagnostics.{Diagnostics}
use ola_lang.Sema.Eval.Monad.{ok, M}
use ola_lang.Sema.Eval.Fold.{Folded}

-- Folding a subterm ends, without a panic and with a literal or nothing.
abbrev IsTotal : M Folded → Type 0
IsTotal m = (ds : Diagnostics) → (r : Folded) × (ds' : Diagnostics) × (m ds ≡ ok r ds')
