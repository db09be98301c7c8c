-- ===== src/Sema/BigInt.antt =====
-- What src/sema uses of the crate num-bigint (`BigInt`) and of num-traits, which are not part of the
-- repository: operations on integers of any size. A value is the integer that it stands for; the
-- operations are parameters, with the documented laws that the code relies on.
pub mod Example
use ola_lang.Prelude.{ℕ, suc, ◌≤◌, ◌<◌, ◌*◌, ◌^◌, ◌≡◌, ◌↔◌, Option, none, some}
use ola_lang.Prelude.Int.{ℤ, pos, negsuc, abs}

pub record BigIntOps : Type 0 where
  -- `+ - * / % & | ^` and `!`
  pub add : ℤ → ℤ → ℤ
  pub sub : ℤ → ℤ → ℤ
  pub mul : ℤ → ℤ → ℤ
  pub div : ℤ → ℤ → ℤ
  pub rem : ℤ → ℤ → ℤ
  pub bit_and : ℤ → ℤ → ℤ
  pub bit_or : ℤ → ℤ → ℤ
  pub bit_xor : ℤ → ℤ → ℤ
  pub complement : ℤ → ℤ
  -- `<<` and `>>` by a machine integer, and `pow`
  pub shl : ℤ → ℕ → ℤ
  pub shr : ℤ → ℕ → ℤ
  pub pow : ℤ → ℕ → ℤ
  -- the bits of the magnitude, and the conversions, which fail out of range
  pub bits : ℤ → ℕ
  pub to_u16 : ℤ → Option ℕ
  pub to_u64 : ℤ → Option ℕ
  pub to_usize : ℤ → Option ℕ
  -- subtracting one from a positive integer
  -- multiplying numbers that are not negative
  pub mul-pos : (m n : ℕ) → mul (pos m) (pos n) ≡ pos (m * n)
  pub sub-one : (n : ℕ) → sub (pos (suc n)) (pos 1) ≡ pos n
  pub pow-zero : (b : ℤ) → pow b 0 ≡ pos 1
  pub pow-one : (b : ℤ) → pow b 1 ≡ b
  pub pow-suc : (b : ℤ) (n : ℕ) → pow b (suc n) ≡ mul (pow b n) b
  pub bits-le : (n : ℤ) (k : ℕ) → (bits n ≤ k) ↔ (abs n < 2 ^ k)
  pub to_u16-some : (n : ℕ) → n < 2 ^ 16 → to_u16 (pos n) ≡ some n
  pub to_u64-some : (n : ℕ) → n < 2 ^ 64 → to_u64 (pos n) ≡ some n
  pub to_u64-none : (n : ℕ) → 2 ^ 64 ≤ n → to_u64 (pos n) ≡ none
  -- on the targets of the compiler `usize` has 64 bits
  pub to_usize-some : (n : ℕ) → n < 2 ^ 64 → to_usize (pos n) ≡ some n
