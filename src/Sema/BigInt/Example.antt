-- ===== src/Sema/BigInt/Example.antt =====
-- Operations that meet the laws of `BigIntOps`, for the tests: those of the integers, but that the
-- bit operations work on magnitudes.
use Prim.Native.Nat.{bit_and, bit_or, bit_xor}
use native.Mathlib.Nat.{pow-suc}
use ola_lang.Prelude.{
  ℕ, zero, suc, ◌+◌, ◌-◌, ◌*◌, ◌/◌, ◌%◌, ◌^◌, ◌≤◌, ◌<◌, ◌≡◌, refl, ◌↔◌, Bool, true, false, Option,
  none, some, arith, ltb, leb, ◌==◌, if◌then◌else◌, Bool-cases, inl, inr,
}
use ola_lang.Prelude.Int.{ℤ, pos, negsuc, abs, is_neg}
use ola_lang.Sema.BigInt.{BigIntOps}

-- a - b, as an integer
sub_ℕ : ℕ → ℕ → ℤ
sub_ℕ a b = if leb b a then pos (a - b) else negsuc (b - a - 1)

abbrev pos_part : ℤ → ℕ
pos_part (pos n) = n
pos_part (negsuc n) = 0

abbrev neg_part : ℤ → ℕ
neg_part (pos n) = 0
neg_part (negsuc n) = suc n

-- an integer by its sign and magnitude
signed : Bool → ℕ → ℤ
unfolding sub_ℕ
signed negative n = if negative then sub_ℕ 0 n else pos n

abbrev xor : Bool → Bool → Bool
xor true false = true
xor false true = true
xor _ _ = false

unfoldable pub int_mul : ℤ → ℤ → ℤ
unfolding signed
int_mul a b = signed (xor (is_neg a) (is_neg b)) (abs a * abs b)

unfoldable pub int_pow : ℤ → ℕ → ℤ
unfolding int_mul
int_pow b zero = pos 1
int_pow b (suc zero) = b
int_pow b (suc (suc n)) = int_mul (int_pow b (suc n)) b

-- the bits of a number, in at most `fuel` halvings
bit_length : ℕ → ℕ → ℕ
bit_length zero n = 0
bit_length (suc fuel) n = let rest = bit_length fuel (n / 2) in if n == 0 then 0 else suc rest

pow_pos : (k : ℕ) → 0 < 2 ^ k
pow_pos zero = omega arith
pow_pos (suc k) = omega (arith, pow-suc 2 k, pow_pos k)

bit_length-le : (fuel n k : ℕ) → n ≤ fuel → (bit_length fuel n ≤ k) ↔ (n < 2 ^ k)
unfolding bit_length
bit_length-le zero n k h = ((λ _. omega (arith, pow_pos k)), (λ _. omega arith))
bit_length-le (suc fuel) n zero h = ((λ e. ground arith), (λ e. ground arith))
bit_length-le (suc fuel) n (suc k) h =
    let (to, from) = bit_length-le fuel (n / 2) k (omega arith) in
    elim (Bool-cases (n == 0)) [
      | inl e ↦ ((λ le. ground (arith, pow_pos (suc k))), (λ lt. rw e (omega arith)))
      | inr e ↦ rw e (
        (λ le. let lt = to (omega arith) in omega (arith, pow-suc 2 k, lt)),
        (λ lt. let le = from (omega (arith, pow-suc 2 k, lt)) in omega (arith, le)),
      )
    ]

unfoldable pub in_range : ℕ → ℤ → Option ℕ
in_range bound (pos n) = if ltb n bound then some n else none
in_range bound (negsuc n) = none

pub in_range-some : (bound n : ℕ) → n < bound → in_range bound (pos n) ≡ some n
unfolding in_range
in_range-some bound n h = ground arith

pub in_range-none : (bound n : ℕ) → bound ≤ n → in_range bound (pos n) ≡ none
unfolding in_range
in_range-none bound n h = ground arith

unfoldable pub int_sub : ℤ → ℤ → ℤ
unfolding sub_ℕ
int_sub a b = sub_ℕ (pos_part a + neg_part b) (neg_part a + pos_part b)

pub int_sub-one : (n : ℕ) → int_sub (pos (suc n)) (pos 1) ≡ pos n
unfolding int_sub
int_sub-one n = ground arith

unfoldable pub int_bits : ℤ → ℕ
unfolding bit_length
int_bits n = bit_length (abs n) (abs n)

pub int_bits-le : (n : ℤ) (k : ℕ) → (int_bits n ≤ k) ↔ (abs n < 2 ^ k)
unfolding int_bits
int_bits-le n k = bit_length-le (abs n) (abs n) k (omega arith)

pub int_pow-suc : (b : ℤ) (n : ℕ) → int_pow b (suc n) ≡ int_mul (int_pow b n) b
unfolding int_pow
int_pow-suc b zero = one_mul b
  where
    one_mul : (b : ℤ) → b ≡ int_mul (pos 1) b
    one_mul (pos n) = ground arith
    one_mul (negsuc n) = ground arith
int_pow-suc b (suc n) = refl

unfoldable pub ops : BigIntOps
unfolding sub_ℕ signed int_mul int_pow bit_length in_range int_sub int_bits
ops = record {
  add = λ a b. sub_ℕ (pos_part a + pos_part b) (neg_part a + neg_part b);
  sub = int_sub;
  mul = int_mul;
  div = λ a b. signed (xor (is_neg a) (is_neg b)) (abs a / abs b);
  rem = λ a b. signed (is_neg a) (abs a % abs b);
  bit_and = λ a b. pos (bit_and (abs a) (abs b));
  bit_or = λ a b. pos (bit_or (abs a) (abs b));
  bit_xor = λ a b. pos (bit_xor (abs a) (abs b));
  complement = λ a. int_sub (negsuc 0) a;
  shl = λ a n. signed (is_neg a) (abs a * 2 ^ n);
  shr = λ a n. signed (is_neg a) (abs a / 2 ^ n);
  pow = int_pow;
  bits = int_bits;
  to_u16 = in_range (2 ^ 16);
  to_u64 = in_range (2 ^ 64);
  to_usize = in_range (2 ^ 64);
  mul-pos = λ m n. refl;
  sub-one = int_sub-one;
  pow-zero = λ b. refl;
  pow-one = λ b. refl;
  pow-suc = int_pow-suc;
  bits-le = int_bits-le;
  to_u16-some = in_range-some (2 ^ 16);
  to_u64-some = in_range-some (2 ^ 64);
  to_u64-none = in_range-none (2 ^ 64);
  to_usize-some = in_range-some (2 ^ 64);
}
