-- ===== src/Sema/Eval/Agreement.antt =====
-- src/sema/eval.rs: where folding gives a number, `eval_const_number` gives the same.
use ola_lang.Prelude.{
  ℕ, zero, suc, ◌+◌, ◌<◌, ◌≤◌, ◌≡◌, refl, Bool, true, false, Option, none, some, inl, inr, arith,
  Bool-cases, ap, ◌∙◌, ltb, ◌^◌,
}
use native.Mathlib.Numerals.{add-one}
use ola_lang.Prelude.Int.{ℤ, pos, negsuc, is_zero}
use ola_lang.Sema.Ast.{
  Loc, Ty, Expression, number_literal, add, subtract, multiply, divide, modulo, power, bitwise_or,
  bitwise_and, bitwise_xor, shift_left, shift_right, zero_ext,
}
use ola_lang.Sema.BigInt.{BigIntOps}
use ola_lang.Sema.Diagnostics.{Diagnostics}
use ola_lang.Sema.Eval.Monad.{Run, ok, err, panic, deep, M, pure, and_then, ◌>>=◌}
use ola_lang.Sema.Eval.Const.{
  Value, Initializers, eval_with, eval_const_number, power_loop, const_power, const_shift,
}
use ola_lang.Sema.Eval.Fold.{
  Folded, literal, both, folded_to, operands, widened, eval_constants, fold_divide, fold_modulo,
  fold_power, fold_shift_left, fold_shift_right,
}

-- The fold gives this number, from some diagnostics and with some behind it.
abbrev FoldsTo : M Folded → Value → Type 0
FoldsTo m x =
    (ds : Diagnostics) × (r : Folded) × (ds' : Diagnostics) × (m ds ≡ ok r ds')
    × (literal r.0 ≡ some x)

-- The evaluation gives this value and reports nothing.
abbrev pub Evaluates : M Value → Value → Type 0
Evaluates m x = (ds : Diagnostics) → m ds ≡ ok x ds

and_then-ok {ℓ κ} :
    {A : Type ℓ} {B : Type κ} (m : Run A) (f : A → M B) (b : B) (ds : Diagnostics)
    → and_then m f ≡ ok b ds
    → (a : A) × (ds' : Diagnostics) × (m ≡ ok a ds') × (f a ds' ≡ ok b ds)
and_then-ok (ok a ds') f b ds h = (a, ds', refl, h)
and_then-ok (err _) f b ds h = cc
and_then-ok panic f b ds h = cc
and_then-ok deep f b ds h = cc

both-literal :
    (l r : Option (Value)) (k : Value → Value → M Folded) (ds ds' : Diagnostics) (out : Folded)
    (x : Value)
    → both l r k ds ≡ ok out ds'
    → literal out.0 ≡ some x
    → (a b : Value) × (l ≡ some a) × (r ≡ some b) × (k a b ds ≡ ok out ds')
both-literal (some a) (some b) k ds ds' out x h e = (a, b, refl, refl, h)
both-literal (some a) none k ds ds' out x h e = ground arith
both-literal none r k ds ds' out x h e = ground arith

-- An operation folds to a number only where its operands do.
operands-literal :
    (m n : M Folded) (k : Value → Value → M Folded) (x : Value)
    → FoldsTo (operands m n k) x
    → (a b : Value) × FoldsTo m a × FoldsTo n b × FoldsTo (k a b) x
operands-literal m n k x (ds, out, ds', h, e) =
    let (l, ds₁, hl, h₁) = and_then-ok (m ds) _ out ds' h in
    let (r, ds₂, hr, h₂) = and_then-ok (n ds₁) _ out ds' h₁ in
    let (a, b, el, er, hk) = both-literal (literal l.0) (literal r.0) k ds₂ ds' out x h₂ e in
    (a, b, (ds, l, ds₁, hl, el), (ds₁, r, ds₂, hr, er), (ds₂, out, ds', hk, e))

folded_to-literal :
    (loc : Loc) (ty : Ty) (v : ℤ) (x : Value) → FoldsTo (folded_to loc ty v) x → x ≡ (loc, v)
folded_to-literal loc ty v x (ds, out, ds', h, e) = ground arith

widened-literal :
    (loc : Loc) (ty : Ty) (o : Option Value) (x : Value)
    → FoldsTo (widened loc ty o) x
    → (a : Value) × (o ≡ some a) × (x ≡ (loc, a.1))
widened-literal loc ty (some a) x (ds, out, ds', h, e) = (a, refl, ground arith)
widened-literal loc ty none x (ds, out, ds', h, e) = ground arith

-- An operation whose operands are evaluated in order, and then its arm.
binary :
    {m n : M Folded} {k : Value → Value → M Folded} {p q : M Value} {f : Value → Value → M Value}
    (x : Value)
    → FoldsTo (operands m n k) x
    → ((a : Value) → FoldsTo m a → Evaluates p a)
    → ((b : Value) → FoldsTo n b → Evaluates q b)
    → ((a b : Value) → FoldsTo (k a b) x → Evaluates (f a b) x)
    → Evaluates (do a ← p; b ← q; f a b) x
binary {m} {n} {k} x h left right step ds =
    let (a, b, ha, hb, hk) = operands-literal m n k x h in
    rw (left a ha, right b hb) (step a b hk ds)

-- The arm of an operation that does not fail.
arm :
    (loc : Loc) (ty : Ty) (op : ℤ → ℤ → ℤ) (x a b : Value)
    → FoldsTo (folded_to loc ty (op a.1 b.1)) x
    → Evaluates (pure (loc, op a.1 b.1)) x
arm loc ty op x a b h ds = rw (folded_to-literal loc ty _ x h)

module _ (B : BigIntOps) where
  fold_divide-literal :
      (loc : Loc) (ty : Ty) (l r : ℤ) (x : Value)
      → FoldsTo (fold_divide B loc ty l r) x
      → (is_zero r ≡ false) × (x ≡ (loc, B.div l r))
  unfolding fold_divide
  fold_divide-literal loc ty l r x (ds, out, ds', h, e) = ground arith

  fold_modulo-literal :
      (loc : Loc) (ty : Ty) (l r : ℤ) (x : Value)
      → FoldsTo (fold_modulo B loc ty l r) x
      → (is_zero r ≡ false) × (x ≡ (loc, B.rem l r))
  unfolding fold_modulo
  fold_modulo-literal loc ty l r x (ds, out, ds', h, e) = ground arith

  fold_power-literal :
      (loc right_loc : Loc) (ty : Ty) (l r : ℤ) (x : Value)
      → FoldsTo (fold_power B loc ty l (right_loc, r)) x
      → (n : ℕ) × (r ≡ pos n) × (n < 2 ^ 16) × (x ≡ (loc, B.pow l n))
  unfolding fold_power
  fold_power-literal loc right_loc ty l (negsuc n) x (ds, out, ds', h, e) = ground arith
  fold_power-literal loc right_loc ty l (pos n) x (ds, out, ds', h, e) =
      elim (Bool-cases (ltb 16 (B.bits (pos n)))) [
        | inl over ↦ ground arith
        | inr fits ↦
            let lt = (B.bits-le (pos n) 16).0 (ground arith) in
            (n, refl, lt, ground (arith, B.to_u16-some n lt))
      ]

  fold_shift_left-literal :
      (loc right_loc : Loc) (ty : Ty) (l r : ℤ) (x : Value)
      → FoldsTo (fold_shift_left B loc ty l (right_loc, r)) x
      → (n : ℕ) × (r ≡ pos n) × (n < 2 ^ 64) × (x ≡ (loc, B.shl l n))
  unfolding fold_shift_left
  fold_shift_left-literal loc right_loc ty l (negsuc n) x (ds, out, ds', h, e) = ground arith
  fold_shift_left-literal loc right_loc ty l (pos n) x (ds, out, ds', h, e) =
      elim (Bool-cases (ltb 64 (B.bits (pos n)))) [
        | inl over ↦ ground arith
        | inr fits ↦
            let lt = (B.bits-le (pos n) 64).0 (ground arith) in
            (n, refl, lt, ground (arith, B.to_u64-some n lt))
      ]

  fold_shift_right-literal :
      (loc right_loc : Loc) (ty : Ty) (l r : ℤ) (x : Value)
      → FoldsTo (fold_shift_right B loc ty l (right_loc, r)) x
      → (n : ℕ) × (r ≡ pos n) × (n < 2 ^ 64) × (x ≡ (loc, B.shr l n))
  unfolding fold_shift_right
  fold_shift_right-literal loc right_loc ty l (negsuc n) x (ds, out, ds', h, e) = ground arith
  fold_shift_right-literal loc right_loc ty l (pos n) x (ds, out, ds', h, e) =
      elim (Bool-cases (ltb 64 (B.bits (pos n)))) [
        | inl over ↦ ground arith
        | inr fits ↦
            let lt = (B.bits-le (pos n) 64).0 (ground arith) in
            (n, refl, lt, ground (arith, B.to_u64-some n lt))
      ]

  power_loop-zero : (f : ℕ) (b res : ℤ) → power_loop B (suc f) b (pos 0) res ≡ some res
  unfolding power_loop
  power_loop-zero f b res = refl

  power_loop-suc :
      (f n : ℕ) (b res : ℤ)
      → power_loop B (suc f) b (pos (suc n)) res ≡ power_loop B f b (pos n) (B.mul res b)
  unfolding power_loop
  power_loop-suc f n b res = rw (B.sub-one n)

  -- The loop ends in the rounds that it is given, and multiplies as often as `pow` does.
  power_loop-pow :
      (f n k : ℕ) (b : ℤ)
      → n ≤ f
      → power_loop B (suc f) b (pos n) (B.pow b (suc k)) ≡ some (B.pow b (suc n + k))
  power_loop-pow f zero k b h =
      power_loop-zero f b _ ∙ ap (λ (t : ℕ). some (B.pow b t)) (omega arith)
  power_loop-pow zero (suc n) k b h = absurd (omega arith)
  power_loop-pow (suc f) (suc n) k b h =
      rw (power_loop-suc, ← B.pow-suc)
        (power_loop-pow f n (suc k) b (omega arith)
          ∙ ap (λ (t : ℕ). some (B.pow b t)) (omega arith))

  pub const_power-pow :
      (loc : Loc) (b : ℤ) (n : ℕ) → Evaluates (const_power B loc b (pos n)) (loc, B.pow b n)
  unfolding const_power
  const_power-pow loc b zero ds = rw (B.pow-zero b)
  const_power-pow loc b (suc n) ds =
      let count : suc n + 0 ≡ suc n = omega arith in
      let loop : power_loop B (suc (suc n)) b (pos n) b ≡ some (B.pow b (suc n)) =
        rw (B.pow-one, count) at (power_loop-pow (suc n) n 0 b (omega arith)) in
      let e : power_loop B (suc n + 1) b (B.sub (pos (suc n)) (pos 1)) b ≡ some (B.pow b (suc n)) =
        rw (add-one, B.sub-one n) loop in
      rw e (ground arith)

  const_shift-shl :
      (loc : Loc) (l : ℤ) (n : ℕ)
      → n < 2 ^ 64
      → Evaluates (const_shift B loc true l (pos n)) (loc, B.shl l n)
  unfolding const_shift
  const_shift-shl loc l n h ds = rw (B.to_usize-some n h)

  const_shift-shr :
      (loc : Loc) (l : ℤ) (n : ℕ)
      → n < 2 ^ 64
      → Evaluates (const_shift B loc false l (pos n)) (loc, B.shr l n)
  unfolding const_shift
  const_shift-shr loc l n h ds = rw (B.to_usize-some n h)

  module _ (ns : Initializers) (rec : Expression → M Value) where
    agree :
        (e : Expression) (x : Value)
        → FoldsTo (eval_constants B e) x
        → Evaluates (eval_with B ns rec e) x
    unfolding eval_constants eval_with
    agree (add loc ty l r) x h = binary x h (agree l) (agree r) (arm loc ty B.add x)
    agree (subtract loc ty l r) x h = binary x h (agree l) (agree r) (arm loc ty B.sub x)
    agree (multiply loc ty l r) x h = binary x h (agree l) (agree r) (arm loc ty B.mul x)
    agree (bitwise_and loc ty l r) x h = binary x h (agree l) (agree r) (arm loc ty B.bit_and x)
    agree (bitwise_or loc ty l r) x h = binary x h (agree l) (agree r) (arm loc ty B.bit_or x)
    agree (bitwise_xor loc ty l r) x h = binary x h (agree l) (agree r) (arm loc ty B.bit_xor x)
    agree (divide loc ty l r) x h =
        let (a, b, ha, hb, hk) = operands-literal _ _ _ x h in
        let (nz, ex) = fold_divide-literal loc ty a.1 b.1 x hk in
        λ ds. rw (agree r b hb, nz, agree l a ha, ex)
    agree (modulo loc ty l r) x h =
        let (a, b, ha, hb, hk) = operands-literal _ _ _ x h in
        let (nz, ex) = fold_modulo-literal loc ty a.1 b.1 x hk in
        λ ds. rw (agree r b hb, nz, agree l a ha, ex)
    agree (power loc ty l r) x h = binary x h (agree l) (agree r) λ a b hk ds.
        let (n, en, lt, ex) = fold_power-literal loc b.0 ty a.1 b.1 x hk in
        rw (en, const_power-pow loc a.1 n ds, ex)
    agree (shift_left loc ty l r) x h = binary x h (agree l) (agree r) λ a b hk ds.
        let (n, en, lt, ex) = fold_shift_left-literal loc b.0 ty a.1 b.1 x hk in
        rw (en, const_shift-shl loc a.1 n lt ds, ex)
    agree (shift_right loc ty l r) x h = binary x h (agree l) (agree r) λ a b hk ds.
        let (n, en, lt, ex) = fold_shift_right-literal loc b.0 ty a.1 b.1 x hk in
        rw (en, const_shift-shr loc a.1 n lt ds, ex)
    agree (zero_ext loc ty e) x (ds, out, ds', h, ex) =
        let (v, ds₁, hv, h₁) = and_then-ok (eval_constants B e ds) _ out ds' h in
        let (a, ea, xa) = widened-literal loc ty (literal v.0) x (ds₁, out, ds', h₁, ex) in
        λ ds₂. rw (agree e a (ds, v, ds₁, hv, ea), xa)
    agree (number_literal loc ty v) x (ds, out, ds', h, e) = λ ds₁. ground arith
    agree _ x (ds, out, ds', h, e) = ground arith

  -- If folding an expression gives a number literal, then `eval_const_number` gives the number of
  -- that literal at its location, and reports nothing: whatever was reported before, whatever the
  -- constants are, and whatever bound is set on the recursion through them.
  pub eval_constants-eval_const_number :
      (e : Expression) (loc : Loc) (ty : Ty) (v : ℤ) (go : Bool) (ds ds' : Diagnostics)
      → eval_constants B e ds ≡ ok (some (number_literal loc ty v), go) ds'
      → (fuel : ℕ) (ns : Initializers) (ds₁ : Diagnostics)
      → eval_const_number B fuel ns e ds₁ ≡ ok (loc, v) ds₁
  unfolding eval_const_number
  eval_constants-eval_const_number e loc ty v go ds ds' h zero ns =
      agree ns _ e (loc, v) (ds, _, ds', h, refl)
  eval_constants-eval_const_number e loc ty v go ds ds' h (suc fuel) ns =
      agree ns _ e (loc, v) (ds, _, ds', h, refl)
