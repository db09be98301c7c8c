-- ===== src/Sema/Casts/Reports.antt =====
-- src/sema/expression/mod.rs: a cast reports nothing where it gives an expression, and reports one
-- error where it fails, also where a reference makes it panic.
use ola_lang.Prelude.{
  ◌≡◌, refl, Bool, true, false, some, if◌then◌else◌, ◌||◌, inl, inr, Option-cases,
}
use ola_lang.Sema.Ast.{Loc, Ty, ref, storage_ref, Expression, load, storage_load}
use ola_lang.Sema.BigInt.{BigIntOps}
use ola_lang.Sema.Diagnostics as D
use ola_lang.Sema.Diagnostics.{Diagnostics, Diagnostic}
use ola_lang.Sema.Eval.Monad.{M, Run, ok, err, panic}
use ola_lang.Sema.Integers.{ty_eq}
use ola_lang.Sema.Casts.{
  ty_of, is_fixed_reference_type, is_unresolved, is_slot_of_bytes, cast_value, unless_same,
  through_ref, cast_from, cast_to,
}
use ola_lang.Sema.Casts.Answers.{Answers, cast_value-Answers}

pub data Tells (ds : Diagnostics) : Run Expression → Type 0 where
  gives : {e : Expression} → Tells ds (ok e ds)
  fails : (d : Diagnostic) → d.level ≡ D.error → Tells ds (err (D.push ds d))
  panics : Tells ds panic

module _ (loc : Loc) (B : BigIntOps) (ds : Diagnostics) where
  Tells-if :
      (b : Bool) (m n : M Expression)
      → Tells ds (m ds)
      → Tells ds (n ds)
      → Tells ds ((if b then m else n) ds)
  Tells-if true m n h k = h
  Tells-if false m n h k = k

  Answers-Tells : (wanted : Ty) (m : M Expression) → Answers wanted m ds → Tells ds (m ds)
  Answers-Tells wanted m (inl (e, at, _)) = rw at gives
  Answers-Tells wanted m (inr (d, at, (level, _))) = rw at (fails d level)

  unless_same-Tells :
      (from to : Ty) (e : Expression) (rest : M Expression)
      → Tells ds (rest ds)
      → Tells ds (unless_same loc B e from to rest ds)
  unless_same-Tells from to e rest h =
      Tells-if (ty_eq from to) _ _ gives
        (Tells-if (is_unresolved from || is_unresolved to) _ rest gives h)

  through_ref-Tells :
      (r to : Ty) (e : Expression) (loaded : M Expression) (b : Bool)
      → Tells ds (loaded ds)
      → Tells ds (through_ref loc B e r to loaded b ds)
  through_ref-Tells r to e loaded true h = Tells-if (ty_eq r to) _ _ gives (fails _ refl)
  through_ref-Tells r to e loaded false h = h

  cast_from-Tells :
      (from to : Ty) (e : Expression)
      → ty_of e ≡ some from
      → Tells ds (cast_from loc B from to e ds)
  unfolding cast_from
  cast_from-Tells (ref r) to e h =
      unless_same-Tells (ref r) to e _ (elim (Option-cases (is_fixed_reference_type r)) [
        | inl unknown ↦ rw unknown panics
        | inr (b, is) ↦
            rw is (through_ref-Tells r to e _ b (cast_from-Tells r to (load loc r e) refl))
      ])
  cast_from-Tells (storage_ref r) to e h =
      unless_same-Tells (storage_ref r) to e _
        (Tells-if (is_slot_of_bytes e) _ _ gives (cast_from-Tells r to (storage_load loc r e) refl))
  cast_from-Tells from to e h =
      unless_same-Tells from to e (cast_value loc B e from to)
        (Answers-Tells to (cast_value loc B e from to) (cast_value-Answers loc ds B e from to h))

  pub cast_to-Tells : (to : Ty) (e : Expression) → Tells ds (cast_to loc B to e ds)
  unfolding cast_to
  cast_to-Tells to e = elim (Option-cases (ty_of e)) [
    | inl unknown ↦ rw unknown panics
    | inr (from, is) ↦ rw is (cast_from-Tells from to e is)
  ]
