-- ===== src/Examples.antt =====
-- Concrete parameters and inputs for the theorems: a toy cipher suite, and fixed-point numbers with
-- two digits in place of doubles.
pub mod Licenses
pub mod Engines
pub mod Systems
pub mod Device
pub mod Envelopes
pub mod Links
pub mod Manager
pub mod Gates
pub mod Issued
use vor.Common.{
  ℕ, zero, suc, ◌+◌, ◌-◌, ◌*◌, ◌/◌, Bool, true, false, Option, none, some, List, [], ◌∷◌, ◌≡◌, refl,
  ltb, arith, replicate, Text, text_eq, Floats, OrderLaws, codes, Bytes, int, pos,
}
use vor.Crypto.{Noble}

abbrev pub toy_noble : Noble
toy_noble = record {
  sha256 = λ b. b;
  bytes_to_hex = λ b. b;
  hex_to_bytes = λ t. some t;
  public_key = λ sk. sk;
  sign = λ message sk. replicate 64 7;
  verify = λ sig message pk. text_eq sig (replicate 64 7);
}

abbrev pub toy_dec : ℕ → ℕ → Option ℕ
toy_dec n zero = some (n * 100)
toy_dec n (suc zero) = some (n * 10)
toy_dec n (suc (suc zero)) = some n
toy_dec n (suc (suc (suc d))) = some 0

abbrev pub on_numbers : (ℕ → ℕ → ℕ) → Option ℕ → Option ℕ → Option ℕ
on_numbers f none b = none
on_numbers f (some a) none = none
on_numbers f (some a) (some b) = some (f a b)

abbrev pub toy_is_nan : Option ℕ → Bool
toy_is_nan none = true
toy_is_nan (some a) = false

abbrev pub toy_lt : Option ℕ → Option ℕ → Bool
toy_lt none b = false
toy_lt (some a) none = false
toy_lt (some a) (some b) = ltb a b

abbrev pub toy_floats : Floats
toy_floats = record {
  F = Option ℕ;
  dec = toy_dec;
  add = on_numbers (λ a b. a + b);
  sub = on_numbers (λ a b. a - b);
  mul = on_numbers (λ a b. a * b / 100);
  div = on_numbers (λ a b. a * 100 / b);
  abs = λ a. a;
  exp = λ a. on_numbers (λ x y. x + y) a (some 100);
  round = λ a. a;
  not_a_number = none;
  is_nan = toy_is_nan;
  lt = toy_lt;
}

pub toy_dec_is_number : (n d : ℕ) → toy_is_nan (toy_dec n d) ≡ false
toy_dec_is_number n zero = refl
toy_dec_is_number n (suc zero) = refl
toy_dec_is_number n (suc (suc zero)) = refl
toy_dec_is_number n (suc (suc (suc d))) = refl

pub toy_lt_irrefl : (a : Option ℕ) → toy_lt a a ≡ false
toy_lt_irrefl none = refl
toy_lt_irrefl (some a) = ground arith

pub toy_lt_asymm : (a b : Option ℕ) → toy_lt a b ≡ true → toy_lt b a ≡ false
toy_lt_asymm none b h = ground arith
toy_lt_asymm (some a) none h = refl
toy_lt_asymm (some a) (some b) h = ground arith

pub toy_not_lt_trans :
    (a b c : Option ℕ)
    → toy_is_nan b ≡ false
    → toy_lt a b ≡ false
    → toy_lt b c ≡ false
    → toy_lt a c ≡ false
toy_not_lt_trans none b c n h k = refl
toy_not_lt_trans (some a) b none n h k = refl
toy_not_lt_trans (some a) none (some c) n h k = ground arith
toy_not_lt_trans (some a) (some b) (some c) n h k = ground arith

pub toy_lt_trans : (a b c : Option ℕ) → toy_lt a b ≡ true → toy_lt b c ≡ true → toy_lt a c ≡ true
toy_lt_trans none b c h k = cc
toy_lt_trans (some a) none c h k = cc
toy_lt_trans (some a) (some b) none h k = cc
toy_lt_trans (some a) (some b) (some c) h k = ground arith

abbrev pub toy_laws : OrderLaws toy_floats
toy_laws = record {
  nan_is_nan = refl;
  dec_is_number = toy_dec_is_number;
  lt_irrefl = toy_lt_irrefl;
  lt_asymm = toy_lt_asymm;
  lt_trans = toy_lt_trans;
  not_lt_trans = toy_not_lt_trans;
  zero_lt_one = refl;
  zero_lt_hundred = refl;
}
