-- ===== src/Bitmap/Words.antt =====
-- The bits of a bitmap as a set of positions.
use libut.Common.{
  ℕ, zero, suc, ◌+◌, ◌-◌, ◌*◌, ◌/◌, ◌^◌, ◌<◌, ◌≡◌, refl, ap, ◌∙◌, ◌≢◌, Bool, true, false, arith,
  ℕ_discrete, ltb, ◌==◌, if◌then◌else◌,
}
use libut.Common.Bits.{
  test_bit, test_bit-suc, test_bit-bit_and, test_bit-bit_or, bit_and-pow, pow-pos,
}
use native.Mathlib.Nat.{pow-suc, div-eq_of_lt, pow-le-pow_right}
use libut.Bitmap.{
  pos_idx, pos_shift, complement, bit_of, set, clear, test, test_and_set, init, atomic_set,
  atomic_clear, atomic_test,
}

-- 1 if the bit at a position is set, 0 if not
abbrev pub bit : (ℕ → ℕ) → ℕ → ℕ
bit bits p = test_bit (bits (pos_idx p)) (pos_shift p)

pub test_bit_small : (x j : ℕ) → x < 2 ^ j → test_bit x j ≡ 0
test_bit_small x j small = omega (arith, div-eq_of_lt {n = x} {m = 2 ^ j} small)

-- The complement within `k` bits has the other bits.
pub test_bit-complement :
    (j k x : ℕ) → x < 2 ^ k → j < k → test_bit (2 ^ k - 1 - x) j ≡ 1 - test_bit x j
test_bit-complement j zero x small lt = absurd (omega arith)
test_bit-complement zero (suc k) x small lt = omega (arith, pow-suc 2 k, pow-pos k)
test_bit-complement (suc j) (suc k) x small lt = omega (
  arith,
  test_bit-suc (2 ^ suc k - 1 - x) j,
  test_bit-suc x j,
  ap (λ (y : ℕ). test_bit y j) half,
  test_bit-complement j k (x / 2) (omega (arith, pow-suc 2 k)) (omega arith),
)
  where
    half : (2 ^ suc k - 1 - x) / 2 ≡ 2 ^ k - 1 - x / 2
    half = omega (arith, pow-suc 2 k)

pub test_bit-pow : (k : ℕ) → test_bit (2 ^ k) k ≡ 1
test_bit-pow zero = refl
test_bit-pow (suc k) =
    omega (arith, test_bit-suc (2 ^ suc k) k, ap (λ (y : ℕ). test_bit y k) (half k), test_bit-pow k)
  where
    half : (k : ℕ) → 2 ^ suc k / 2 ≡ 2 ^ k
    half k = omega (arith, pow-suc 2 k)

pub test_bit-pow_other : (k s : ℕ) → k ≢ s → test_bit (2 ^ k) s ≡ 0
test_bit-pow_other zero zero ne = absurd (ne refl)
test_bit-pow_other zero (suc s) ne =
    test_bit_small 1 (suc s) (omega (arith, pow-suc 2 s, pow-pos s))
test_bit-pow_other (suc k) zero ne = omega (arith, pow-suc 2 k)
test_bit-pow_other (suc k) (suc s) ne = omega (
  arith,
  test_bit-suc (2 ^ suc k) s,
  ap (λ (y : ℕ). test_bit y s) (half k),
  test_bit-pow_other k s (λ e. ne (ap suc e)),
)
  where
    half : (k : ℕ) → 2 ^ suc k / 2 ≡ 2 ^ k
    half k = omega (arith, pow-suc 2 k)

-- the bits of the word that holds a position
pub shifted : (p q : ℕ) → p ≢ q → pos_idx p ≡ pos_idx q → pos_shift p ≢ pos_shift q
shifted p q ne e s = ne (omega (arith, e, s))

pow-small : (p : ℕ) → bit_of p < 2 ^ 64
pow-small p =
    omega (arith, pow-le-pow_right {n = 2} (omega arith) {i = pos_shift p} {j = 63} (omega arith))

-- A bitmap with one bit set differs at that position only, where it is set.
pub set_lem : (bits : ℕ → ℕ) (p q : ℕ) → bit (set bits p) q ≡ (if p == q then 1 else bit bits q)
unfolding set
set_lem bits p q = elim (ℕ_discrete p q) [
  | yes same ↦ ground (
    arith,
    ap pos_idx same,
    ap pos_shift same,
    test_bit-bit_or (pos_shift q) (bits (pos_idx p)) (bit_of p),
    test_bit-pow (pos_shift p),
    ap (test_bit (bit_of p)) (ap pos_shift same),
  )
  | no other ↦ ground (
    arith,
    test_bit-bit_or (pos_shift q) (bits (pos_idx p)) (bit_of p),
    test_bit-pow_other (pos_shift p) (pos_shift q),
    shifted p q other,
    ap bits,
  )
]

-- A bitmap with one bit cleared differs at that position only, where it is clear.
pub clear_lem : (bits : ℕ → ℕ) (p q : ℕ) → bit (clear bits p) q ≡ (if p == q then 0 else bit bits q)
unfolding clear
clear_lem bits p q = elim (ℕ_discrete p q) [
  | yes same ↦ ground (
    arith,
    ap pos_idx same,
    test_bit-bit_and (pos_shift q) (bits (pos_idx p)) (complement (bit_of p)),
    test_bit-complement (pos_shift q) 64 (bit_of p) (pow-small p) (omega arith),
    test_bit-pow (pos_shift p),
    ap (test_bit (bit_of p)) (ap pos_shift same),
  )
  | no other ↦ ground (
    arith,
    test_bit-bit_and (pos_shift q) (bits (pos_idx p)) (complement (bit_of p)),
    test_bit-complement (pos_shift q) 64 (bit_of p) (pow-small p) (omega arith),
    test_bit-pow_other (pos_shift p) (pos_shift q),
    shifted p q other,
    ap bits,
  )
]

-- `bitmap_test` tells whether the bit is set.
pub test_lem : (bits : ℕ → ℕ) (p : ℕ) → test bits p ≡ (bit bits p == 1)
unfolding test
test_lem bits p = elim (ℕ_discrete (bit bits p) 0) [
  | yes e ↦
      ground (arith, bit_and-pow (pos_shift p) (bits (pos_idx p)), ap (λ (y : ℕ). y * bit_of p) e)
  | no ne ↦
      let one : bit bits p ≡ 1 = omega arith in
      ground (
        arith,
        bit_and-pow (pos_shift p) (bits (pos_idx p)),
        ap (λ (y : ℕ). y * bit_of p) one,
        pow-pos (pos_shift p),
      )
]

-- The atomic operations change and read the same bits.
pub atomic_lem :
    (bits : ℕ → ℕ) (p : ℕ)
    → (atomic_set bits p ≡ set bits p)
      × (atomic_clear bits p ≡ clear bits p)
      × (atomic_test bits p ≡ test bits p)
unfolding atomic_set set atomic_clear clear atomic_test test
atomic_lem bits p = (refl, refl, refl)

-- The test and set answers with the old bit, and sets it.
pub test_and_set_lem : (bits : ℕ → ℕ) (p : ℕ) → test_and_set bits p ≡ (test bits p, set bits p)
unfolding test_and_set test set
test_and_set_lem bits p = refl

-- every bit of the word of ones
pub full : (j : ℕ) → j < 64 → test_bit (2 ^ 64 - 1) j ≡ 1
full j lt =
    omega (arith, test_bit-complement j 64 0 (omega arith) lt, test_bit_small 0 j (pow-pos j))

covered : (nbits q : ℕ) → q < nbits → ltb (pos_idx q) ((nbits + 64 - 1) / 64) ≡ true
covered nbits q inside = ground arith

-- A new bitmap has each of its bits in the state asked for.
pub init_lem :
    (bits : ℕ → ℕ) (nbits : ℕ) (state : Bool) (q : ℕ)
    → q < nbits
    → bit (init bits nbits state) q ≡ (if state then 1 else 0)
unfolding init
init_lem bits nbits true q inside =
    ap (λ (b : Bool). test_bit (if b then 2 ^ 64 - 1 else bits (pos_idx q)) (pos_shift q))
      (covered nbits q inside)
    ∙ full (pos_shift q) (omega arith)
init_lem bits nbits false q inside =
    ap (λ (b : Bool). test_bit (if b then 0 else bits (pos_idx q)) (pos_shift q))
      (covered nbits q inside)
    ∙ test_bit_small 0 (pos_shift q) (pow-pos (pos_shift q))
