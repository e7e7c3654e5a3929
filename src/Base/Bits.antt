-- ===== src/Base/Bits.antt =====
-- Facts about the bit operations: a law for the lowest digit, fields and masks of any width,
-- and tables over all bytes.
use Prim.Native.Nat.{ℕ, zero, suc, ◌+◌, ◌-◌, ◌*◌, ◌/◌, ◌%◌, ◌^◌, ◌≤◌, ◌<◌, min, max}
use Prim.Native.Nat.{bit_and, bit_or, bit_xor, digits, differ}
use Prim.Native.Nat.{bit_and-bitwise, bit_or-bitwise, bit_xor-bitwise}
use mathlib.Core.Path.{◌≡◌, refl, ap}
use mathlib.Core.Bool.{Bool, true, ◌&&◌}
use native.Mathlib.Nat.{pow-suc, one-le-pow}
use native.Mathlib.Omega.{arith}

abbrev pub shl : ℕ → ℕ → ℕ
shl x k = x * 2 ^ k

abbrev pub shr : ℕ → ℕ → ℕ
shr x k = x / 2 ^ k

abbrev pub u8 : ℕ → ℕ
u8 n = n % 2 ^ 8

abbrev pub u16 : ℕ → ℕ
u16 n = n % 2 ^ 16

abbrev pub u32 : ℕ → ℕ
u32 n = n % 2 ^ 32

-- `test` succeeds at every number below a bound.
unfoldable pub all_below : ℕ → (ℕ → Bool) → Bool
all_below zero test = true
all_below (suc bound) test = all_below bound test && test bound

pub all_below_sound :
    (bound : ℕ) (test : ℕ → Bool) (x : ℕ) → x < bound → all_below bound test ≡ true → test x ≡ true
unfolding all_below
all_below_sound zero test x below all = absurd (omega arith)
all_below_sound (suc bound) test x below all = ground (arith, all_below_sound bound test x)

-- The digit recursion does not depend on its fuel, once that covers the first number.
module _ (rest : ℕ → ℕ) (digit : ℕ → ℕ → ℕ) where
  abbrev run_digits : ℕ → ℕ → ℕ → ℕ
  run_digits = digits rest digit

  any_fuel :
      (a fuel other b : ℕ) → a ≤ fuel → a ≤ other → run_digits fuel a b ≡ run_digits other a b
  any_fuel zero zero zero b enough too = refl
  any_fuel zero (suc fuel) zero b enough too = refl
  any_fuel zero zero (suc other) b enough too = refl
  any_fuel zero (suc fuel) (suc other) b enough too = refl
  any_fuel (suc a) zero other b enough too = absurd (omega arith)
  any_fuel (suc a) (suc fuel) zero b enough too = absurd (omega arith)
  any_fuel (suc a) (suc fuel) (suc other) b enough too =
      let halved = any_fuel (suc a / 2) fuel other (b / 2) (omega arith) (omega arith) in
      omega arith

  lowest_digit :
      (a b : ℕ)
      → run_digits (suc a) (suc a) b
        ≡ run_digits (suc a / 2) (suc a / 2) (b / 2) * 2 + digit (suc a % 2) (b % 2)
  lowest_digit a b =
      let halved = any_fuel (suc a / 2) a (suc a / 2) (b / 2) (omega arith) (omega arith) in
      omega arith

differ_digits : (x y : ℕ) → x < 2 → y < 2 → differ x y ≡ (x + y) % 2
differ_digits zero y h k = omega arith
differ_digits (suc zero) zero h k = omega arith
differ_digits (suc zero) (suc zero) h k = omega arith
differ_digits (suc zero) (suc (suc y)) h k = absurd (omega arith)
differ_digits (suc (suc x)) y h k = absurd (omega arith)

-- The lowest digit of each operation, and the others.
pub bit_or-halves : (a b : ℕ) → bit_or a b ≡ bit_or (a / 2) (b / 2) * 2 + max (a % 2) (b % 2)
bit_or-halves zero b = omega (arith, bit_or-bitwise 0 b, bit_or-bitwise 0 (b / 2))
bit_or-halves (suc a) b = omega (
  arith,
  bit_or-bitwise (suc a) b,
  bit_or-bitwise (suc a / 2) (b / 2),
  lowest_digit (λ y. y) max a b,
)

pub bit_and-halves : (a b : ℕ) → bit_and a b ≡ bit_and (a / 2) (b / 2) * 2 + min (a % 2) (b % 2)
bit_and-halves zero b = omega (arith, bit_and-bitwise 0 b, bit_and-bitwise 0 (b / 2))
bit_and-halves (suc a) b = omega (
  arith,
  bit_and-bitwise (suc a) b,
  bit_and-bitwise (suc a / 2) (b / 2),
  lowest_digit (λ y. 0) min a b,
)

pub bit_xor-halves : (a b : ℕ) → bit_xor a b ≡ bit_xor (a / 2) (b / 2) * 2 + (a % 2 + b % 2) % 2
bit_xor-halves zero b = omega (arith, bit_xor-bitwise 0 b, bit_xor-bitwise 0 (b / 2))
bit_xor-halves (suc a) b = omega (
  arith,
  bit_xor-bitwise (suc a) b,
  bit_xor-bitwise (suc a / 2) (b / 2),
  lowest_digit (λ y. y) differ a b,
  differ_digits (suc a % 2) (b % 2) (omega arith) (omega arith),
)

bit_or-zero_below : (n a : ℕ) → a ≤ n → bit_or a 0 ≡ a
bit_or-zero_below n zero h = bit_or-bitwise 0 0
bit_or-zero_below zero (suc a) h = absurd (omega arith)
bit_or-zero_below (suc n) (suc a) h =
    omega (arith, bit_or-halves (suc a) 0, bit_or-zero_below n (suc a / 2) (omega arith))

bit_and-zero_below : (n a : ℕ) → a ≤ n → bit_and a 0 ≡ 0
bit_and-zero_below n zero h = bit_and-bitwise 0 0
bit_and-zero_below zero (suc a) h = absurd (omega arith)
bit_and-zero_below (suc n) (suc a) h =
    omega (arith, bit_and-halves (suc a) 0, bit_and-zero_below n (suc a / 2) (omega arith))

-- An exclusive or with the same number twice gives the number back.
bit_xor-twice_below : (n a b : ℕ) → a ≤ n → b ≤ n → bit_xor (bit_xor a b) b ≡ a
bit_xor-twice_below zero zero zero h k = refl
bit_xor-twice_below zero (suc a) b h k = absurd (omega arith)
bit_xor-twice_below zero a (suc b) h k = absurd (omega arith)
bit_xor-twice_below (suc n) a b h k =
    let e = bit_xor-halves a b in
    let high : bit_xor a b / 2 ≡ bit_xor (a / 2) (b / 2) = omega arith in
    let low : bit_xor a b % 2 ≡ (a % 2 + b % 2) % 2 = omega arith in
    let whole = rw (high, low) at (bit_xor-halves (bit_xor a b) b) in
    omega (arith, whole, bit_xor-twice_below n (a / 2) (b / 2) (omega arith) (omega arith))

pub bit_xor-twice : (a b : ℕ) → bit_xor (bit_xor a b) b ≡ a
bit_xor-twice a b = bit_xor-twice_below (a + b) a b (omega arith) (omega arith)

-- `(q << k) | r` is a sum where `r` has k bits.
pub bit_or-shl : (k q r : ℕ) → r < 2 ^ k → bit_or (shl q k) r ≡ q * 2 ^ k + r
bit_or-shl zero q r h = ground (arith, bit_or-zero_below q q)
bit_or-shl (suc k) q r h =
    let double : q * 2 ^ suc k ≡ 2 * (q * 2 ^ k) =
      omega (arith, ap (λ (t : ℕ). q * t) (pow-suc 2 k)) in
    ground (
      arith,
      double,
      bit_or-halves (q * 2 ^ suc k) r,
      pow-suc 2 k,
      bit_or-shl k q (r / 2) (omega (arith, pow-suc 2 k)),
    )

low_field : (k q r : ℕ) → r < 2 ^ k → bit_and (q * 2 ^ k + r) (2 ^ k - 1) ≡ r
low_field zero q r h = omega (arith, bit_and-zero_below (q * 1 + r) (q * 1 + r) (omega arith))
low_field (suc k) q r h =
    let double : q * 2 ^ suc k ≡ 2 * (q * 2 ^ k) =
      omega (arith, ap (λ (t : ℕ). q * t) (pow-suc 2 k)) in
    ground (
      arith,
      double,
      bit_and-halves (q * 2 ^ suc k + r) (2 ^ suc k - 1),
      pow-suc 2 k,
      one-le-pow k 2,
      low_field k q (r / 2) (omega (arith, pow-suc 2 k)),
    )

-- A mask of k low ones is the remainder by `2 ^ k`.
pub bit_and-low_mask : (k a : ℕ) → bit_and a (2 ^ k - 1) ≡ a % 2 ^ k
bit_and-low_mask k a = ground (arith, one-le-pow k 2, low_field k (a / 2 ^ k) (a % 2 ^ k))
