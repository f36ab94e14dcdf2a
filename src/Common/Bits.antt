-- ===== src/Common/Bits.antt =====
-- Laws of `&` and `|` at variables: one equation for the lowest digit, then masks and single bits.
use Prim.Native.Nat.{
  ℕ, zero, suc, ◌+◌, ◌-◌, ◌*◌, ◌/◌, ◌%◌, ◌^◌, ◌≤◌, ◌<◌, min, max, bit_and, bit_or, digits,
  bit_and-bitwise, bit_or-bitwise,
}
use mathlib.Core.Path.{◌≡◌, refl, ap}
use mathlib.Core.Logic.{◌≢◌}
use mathlib.Core.Logic.{◌≢◌}
use native.Mathlib.Omega.{arith}
use native.Mathlib.Decide.{ℕ_discrete}
use native.Mathlib.Nat.{
  pow-le-pow_right, mod-eq_of_lt, pow-suc, one-le-pow, div-div-eq-div-mul, mod-eq-sub-div-mul,
  div-mul-le_self,
}

-- The native operations are a recursion on digits over fuel; any fuel above the number will do.
enough_fuel :
    (z : ℕ → ℕ) (f : ℕ → ℕ → ℕ) (k l x y : ℕ) → x ≤ k → x ≤ l → digits z f k x y ≡ digits z f l x y
enough_fuel z f zero zero x y p q = refl
enough_fuel z f zero (suc l) zero y p q = refl
enough_fuel z f zero (suc l) (suc x) y p q = elim p [ ]
enough_fuel z f (suc k) zero zero y p q = refl
enough_fuel z f (suc k) zero (suc x) y p q = elim q [ ]
enough_fuel z f (suc k) (suc l) zero y p q = refl
enough_fuel z f (suc k) (suc l) (suc x) y p q =
    omega (arith, enough_fuel z f k l (suc x / 2) (y / 2) (omega arith) (omega arith))

pub bit_and-digit : (a b : ℕ) → bit_and a b ≡ bit_and (a / 2) (b / 2) * 2 + min (a % 2) (b % 2)
bit_and-digit zero b = omega (arith, bit_and-bitwise 0 b, bit_and-bitwise 0 (b / 2))
bit_and-digit (suc a) b = omega (
  arith,
  bit_and-bitwise (suc a) b,
  bit_and-bitwise (suc a / 2) (b / 2),
  enough_fuel (λ y. zero) min a (suc a / 2) (suc a / 2) (b / 2) (omega arith) (omega arith),
)

pub bit_or-digit : (a b : ℕ) → bit_or a b ≡ bit_or (a / 2) (b / 2) * 2 + max (a % 2) (b % 2)
bit_or-digit zero b = omega (arith, bit_or-bitwise 0 b, bit_or-bitwise 0 (b / 2))
bit_or-digit (suc a) b = omega (
  arith,
  bit_or-bitwise (suc a) b,
  bit_or-bitwise (suc a / 2) (b / 2),
  enough_fuel (λ y. y) max a (suc a / 2) (suc a / 2) (b / 2) (omega arith) (omega arith),
)

-- bit `i` of `x`, as 0 or 1
abbrev pub test_bit : ℕ → ℕ → ℕ
test_bit x i = x / 2 ^ i % 2

pub test_bit-suc : (x i : ℕ) → test_bit x (suc i) ≡ test_bit (x / 2) i
test_bit-suc x i = omega (arith, div-div-eq-div-mul x 2 (2 ^ i), ap (λ (t : ℕ). x / t) (pow-two i))
  where
    pow-two : (i : ℕ) → 2 ^ suc i ≡ 2 * 2 ^ i
    pow-two i = omega (arith, pow-suc 2 i)

pub test_bit-bit_and : (i a b : ℕ) → test_bit (bit_and a b) i ≡ min (test_bit a i) (test_bit b i)
test_bit-bit_and zero a b = omega (arith, bit_and-digit a b)
test_bit-bit_and (suc i) a b = omega (
  arith,
  test_bit-suc (bit_and a b) i,
  test_bit-suc a i,
  test_bit-suc b i,
  test_bit-bit_and i (a / 2) (b / 2),
  ap (λ (t : ℕ). test_bit t i) (half-bit_and a b),
)
  where
    half-bit_and : (a b : ℕ) → bit_and a b / 2 ≡ bit_and (a / 2) (b / 2)
    half-bit_and a b = omega (arith, bit_and-digit a b)

pub test_bit-bit_or : (i a b : ℕ) → test_bit (bit_or a b) i ≡ max (test_bit a i) (test_bit b i)
test_bit-bit_or zero a b = omega (arith, bit_or-digit a b)
test_bit-bit_or (suc i) a b = omega (
  arith,
  test_bit-suc (bit_or a b) i,
  test_bit-suc a i,
  test_bit-suc b i,
  test_bit-bit_or i (a / 2) (b / 2),
  ap (λ (t : ℕ). test_bit t i) (half-bit_or a b),
)
  where
    half-bit_or : (a b : ℕ) → bit_or a b / 2 ≡ bit_or (a / 2) (b / 2)
    half-bit_or a b = omega (arith, bit_or-digit a b)

-- `x & 0`
bit_and-zero_below : (k a : ℕ) → a ≤ k → bit_and a 0 ≡ 0
bit_and-zero_below k zero h = bit_and-bitwise 0 0
bit_and-zero_below zero (suc a) h = elim h [ ]
bit_and-zero_below (suc k) (suc a) h =
    omega (arith, bit_and-digit (suc a) 0, bit_and-zero_below k (suc a / 2) (omega arith))

pub bit_and-zero : (a : ℕ) → bit_and a 0 ≡ 0
bit_and-zero a = bit_and-zero_below a a (omega arith)

bit_or-zero_below : (k a : ℕ) → a ≤ k → bit_or a 0 ≡ a
bit_or-zero_below k zero h = bit_or-bitwise 0 0
bit_or-zero_below zero (suc a) h = elim h [ ]
bit_or-zero_below (suc k) (suc a) h =
    omega (arith, bit_or-digit (suc a) 0, bit_or-zero_below k (suc a / 2) (omega arith))

pub bit_or-zero : (a : ℕ) → bit_or a 0 ≡ a
bit_or-zero a = bit_or-zero_below a a (omega arith)

pow-double : (k : ℕ) → 2 ^ suc k ≡ 2 * 2 ^ k
pow-double k = omega (arith, pow-suc 2 k)

pub pow-pos : (k : ℕ) → 0 < 2 ^ k
pow-pos k = one-le-pow k 2 (omega arith)

half-pow : (k : ℕ) → 2 ^ suc k / 2 ≡ 2 ^ k
half-pow k = omega (arith, pow-double k)

half-mask : (k : ℕ) → (2 ^ suc k - 1) / 2 ≡ 2 ^ k - 1
half-mask k = omega (arith, pow-double k, pow-pos k)

pub div-pow_suc : (a k : ℕ) → a / 2 ^ suc k ≡ a / 2 / 2 ^ k
div-pow_suc a k =
    omega (arith, div-div-eq-div-mul a 2 (2 ^ k), ap (λ (t : ℕ). a / t) (pow-double k))

pub mod-pow_suc : (a k : ℕ) → a % 2 ^ suc k ≡ 2 * (a / 2 % 2 ^ k) + a % 2
mod-pow_suc a k = omega (
  arith,
  mod-eq-sub-div-mul a (2 ^ suc k),
  mod-eq-sub-div-mul (a / 2) (2 ^ k),
  div-mul-le_self (a / 2) (2 ^ k),
  ap (λ (t : ℕ). t * 2 ^ suc k) (div-pow_suc a k),
  ap (λ (t : ℕ). a / 2 / 2 ^ k * t) (pow-double k),
)

-- `x & (2^k - 1)` is the remainder by `2^k`.
pub bit_and-mask : (k a : ℕ) → bit_and a (2 ^ k - 1) ≡ a % 2 ^ k
bit_and-mask zero a = omega (arith, bit_and-zero a)
bit_and-mask (suc k) a = omega (
  arith,
  bit_and-digit a (2 ^ suc k - 1),
  ap (λ (t : ℕ). bit_and (a / 2) t) (half-mask k),
  pow-double k,
  pow-pos k,
  bit_and-mask k (a / 2),
  mod-pow_suc a k,
)

-- `x | (2^k - 1)` fills the digits below `2^k`.
pub bit_or-mask : (k a : ℕ) → bit_or a (2 ^ k - 1) ≡ a / 2 ^ k * 2 ^ k + (2 ^ k - 1)
bit_or-mask zero a = omega (arith, bit_or-zero a)
bit_or-mask (suc k) a = omega (
  arith,
  bit_or-digit a (2 ^ suc k - 1),
  ap (λ (t : ℕ). bit_or (a / 2) t) (half-mask k),
  pow-double k,
  pow-pos k,
  bit_or-mask k (a / 2),
  ap (λ (t : ℕ). t * 2 ^ suc k) (div-pow_suc a k),
  ap (λ (t : ℕ). a / 2 / 2 ^ k * t) (pow-double k),
)

bit_and-one : (a : ℕ) → bit_and a 1 ≡ a % 2
bit_and-one a = omega (arith, bit_and-digit a 1, bit_and-zero (a / 2))

-- `x & 2^k` keeps bit `k`.
pub bit_and-pow : (k a : ℕ) → bit_and a (2 ^ k) ≡ test_bit a k * 2 ^ k
bit_and-pow zero a = omega (arith, bit_and-one a)
bit_and-pow (suc k) a = omega (
  arith,
  bit_and-digit a (2 ^ suc k),
  ap (λ (t : ℕ). bit_and (a / 2) t) (half-pow k),
  pow-double k,
  bit_and-pow k (a / 2),
  ap (λ (t : ℕ). t * 2 ^ suc k) (test_bit-suc a k),
  ap (λ (t : ℕ). test_bit (a / 2) k * t) (pow-double k),
)

-- `x | 2^k` sets bit `k` of a number below `2^k`.
pub bit_or-pow : (k a : ℕ) → a < 2 ^ k → bit_or a (2 ^ k) ≡ a + 2 ^ k
bit_or-pow zero zero h = bit_or-bitwise 0 1
bit_or-pow zero (suc a) h = absurd (omega arith)
bit_or-pow (suc k) a h = omega (
  arith,
  bit_or-digit a (2 ^ suc k),
  ap (λ (t : ℕ). bit_or (a / 2) t) (half-pow k),
  pow-double k,
  bit_or-pow k (a / 2) (omega (arith, pow-double k)),
)

bit_and_self_below : (k a : ℕ) → a ≤ k → bit_and a a ≡ a
bit_and_self_below k zero h = bit_and-bitwise 0 0
bit_and_self_below zero (suc a) h = elim h [ ]
bit_and_self_below (suc k) (suc a) h =
    omega (arith, bit_and-digit (suc a) (suc a), bit_and_self_below k (suc a / 2) (omega arith))

pub bit_and_self : (a : ℕ) → bit_and a a ≡ a
bit_and_self a = bit_and_self_below a a (omega arith)

-- `x & (x - 1)` is zero only at zero and at powers of two.
pub pow_of_bit_and-pred : (f x : ℕ) → x ≤ f → 0 < x → bit_and x (x - 1) ≡ 0 → (k : ℕ) × (x ≡ 2 ^ k)
pow_of_bit_and-pred zero x below pos e = absurd (omega arith)
pow_of_bit_and-pred (suc f) x below pos e = elim (ℕ_discrete (x % 2) 0) [
  | yes even ↦
      let (k, q) = pow_of_bit_and-pred f (x / 2) (omega arith) (omega arith) (
        omega
          (arith, bit_and-digit x (x - 1), ap (λ (t : ℕ). bit_and (x / 2) t) (half-pred even))) in
      (suc k, omega (arith, pow-double k))
  | no odd ↦ (
    0,
    omega (
      arith,
      bit_and-digit x (x - 1),
      ap (λ (t : ℕ). bit_and (x / 2) t) (half-odd odd),
      bit_and_self (x / 2),
    ),
  )
]
  where
    half-pred : x % 2 ≡ 0 → (x - 1) / 2 ≡ x / 2 - 1
    half-pred even = omega arith

    half-odd : x % 2 ≢ 0 → (x - 1) / 2 ≡ x / 2
    half-odd odd = omega arith

half-mod_pow : (a n : ℕ) → a % 2 ^ suc n / 2 ≡ a / 2 % 2 ^ n
half-mod_pow a n = omega (arith, mod-pow_suc a n)

-- Truncation to `n` bits keeps the bits below `n`.
pub mod-mod_pow : (k n a : ℕ) → k ≤ n → a % 2 ^ n % 2 ^ k ≡ a % 2 ^ k
mod-mod_pow zero n a h = omega arith
mod-mod_pow (suc k) zero a h = elim h [ ]
mod-mod_pow (suc k) (suc n) a h = omega (
  arith,
  mod-pow_suc (a % 2 ^ suc n) k,
  mod-pow_suc a k,
  mod-pow_suc a n,
  ap (λ (t : ℕ). t % 2 ^ k) (half-mod_pow a n),
  mod-mod_pow k n (a / 2) (omega arith),
)

pub test_bit-mod_pow : (k n a : ℕ) → k < n → test_bit (a % 2 ^ n) k ≡ test_bit a k
test_bit-mod_pow k zero a h = elim h [ ]
test_bit-mod_pow zero (suc n) a h = omega (arith, mod-pow_suc a n)
test_bit-mod_pow (suc k) (suc n) a h = omega (
  arith,
  test_bit-suc (a % 2 ^ suc n) k,
  test_bit-suc a k,
  ap (λ (t : ℕ). test_bit t k) (half-mod_pow a n),
  test_bit-mod_pow k n (a / 2) (omega arith),
)

-- Clearing the low `k` bits of a number below `2 ^ n`.
pub bit_and-high : (k n x : ℕ) → k ≤ n → x < 2 ^ n → bit_and x (2 ^ n - 2 ^ k) ≡ x / 2 ^ k * 2 ^ k
bit_and-high zero n x le lt = omega (arith, bit_and-mask n x, mod-eq_of_lt {n = x} {m = 2 ^ n} lt)
bit_and-high (suc k) zero x le lt = absurd (omega arith)
bit_and-high (suc k) (suc n) x le lt = omega (
  arith,
  bit_and-digit x (2 ^ suc n - 2 ^ suc k),
  pow-suc 2 n,
  pow-suc 2 k,
  pow-le-pow_right {n = 2} (omega arith) {i = k} {j = n} (omega arith),
  ap (bit_and (x / 2)) half,
  bit_and-high k n (x / 2) (omega arith) (omega (arith, pow-suc 2 n)),
  ap (λ (y : ℕ). y * 2 ^ suc k) (div-pow_suc x k),
  double (x / 2 / 2 ^ k),
)
  where
    half : (2 ^ suc n - 2 ^ suc k) / 2 ≡ 2 ^ n - 2 ^ k
    half = omega (arith, pow-suc 2 n, pow-suc 2 k)

    double : (y : ℕ) → y * 2 ^ suc k ≡ 2 * (y * 2 ^ k)
    double y = omega (arith, ap (λ (z : ℕ). y * z) (pow-suc 2 k))
