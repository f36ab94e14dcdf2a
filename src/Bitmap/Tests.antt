-- ===== src/Bitmap/Tests.antt =====
-- The bitmap at concrete inputs, with a search for the least bit in place of `__builtin_ffsl`.
use libut.Common.{
  ℕ, zero, suc, ◌-◌, ◌/◌, ◌%◌, ◌^◌, ◌≤◌, ◌<◌, ◌≡◌, refl, ap, ◌∙◌, arith, ℕ_discrete, ◌==◌,
  if◌then◌else◌,
}
use libut.Common.Bits.{test_bit, test_bit-suc}
use native.Mathlib.Nat.{pow-suc}
use libut.Bitmap.{find_loop, find_next, find_next_set, find_next_cleared}
use libut.Bitmap.Find.{IsFfsl, IsNext, find_next_lem}

abbrev least : ℕ → ℕ → ℕ
least zero x = 0
least (suc k) x = let rest : ℕ = least k (x / 2) in if x % 2 == 1 then 1 else suc rest

least-inside : (k x : ℕ) → 0 < x → x < 2 ^ k → (0 < least k x) × (least k x ≤ k)
least-inside zero x p h = absurd (omega arith)
least-inside (suc k) x p h = ground (arith, pow-suc 2 k, least-inside k (x / 2))

least-odd : (k x : ℕ) → x % 2 ≡ 1 → least (suc k) x ≡ 1
least-odd k x h = ground arith

least-even : (k x : ℕ) → x % 2 ≡ 0 → least (suc k) x ≡ suc (least k (x / 2))
least-even k x h = ground arith

least-hit : (k x : ℕ) → 0 < x → x < 2 ^ k → test_bit x (least k x - 1) ≡ 1
least-hit zero x p h = absurd (omega arith)
least-hit (suc k) x p h = elim (ℕ_discrete (x % 2) 1) [
  | yes odd ↦
      let at : least (suc k) x - 1 ≡ 0 = omega (arith, least-odd k x odd) in
      ap (test_bit x) at ∙ odd_bit x odd
  | no even ↦
      let inside = least-inside k (x / 2) (omega arith) (omega (arith, pow-suc 2 k)) in
      let at : least (suc k) x - 1 ≡ suc (least k (x / 2) - 1) =
        omega (arith, least-even k x (omega arith), inside.0) in
      ap (test_bit x) at
      ∙ test_bit-suc x (least k (x / 2) - 1)
      ∙ least-hit k (x / 2) (omega arith) (omega (arith, pow-suc 2 k))
]
  where
    odd_bit : (x : ℕ) → x % 2 ≡ 1 → test_bit x 0 ≡ 1
    odd_bit x h = omega arith

least-first : (k x j : ℕ) → 0 < x → x < 2 ^ k → suc j < least k x → test_bit x j ≡ 0
least-first zero x j p h lt = absurd (omega arith)
least-first (suc k) x zero p h lt = elim (ℕ_discrete (x % 2) 1) [
  | yes odd ↦ absurd (omega (arith, least-odd k x odd))
  | no even ↦ omega arith
]
least-first (suc k) x (suc j) p h lt = elim (ℕ_discrete (x % 2) 1) [
  | yes odd ↦ absurd (omega (arith, least-odd k x odd))
  | no even ↦
      test_bit-suc x j
      ∙ least-first k (x / 2) j (omega arith) (omega (arith, pow-suc 2 k))
          (omega (arith, least-even k x (omega arith)))
]

abbrev ffsl : ℕ → ℕ
ffsl x = least 64 x

ffsl-IsFfsl : IsFfsl ffsl
ffsl-IsFfsl = record {
  positive = λ x p h. (least-inside 64 x p h).0;
  inside = λ x p h. (least-inside 64 x p h).1;
  hit = λ x p h. least-hit 64 x p h;
  first = λ x j p h lt. least-first 64 x j p h lt;
}

-- bits 1, 3 and 70
abbrev sample : ℕ → ℕ
sample i = if i == 0 then 10 else if i == 1 then 64 else 0

next_of_four : find_next_set ffsl sample 128 4 ≡ 70
unfolding find_next_set find_next find_loop
next_of_four = refl

cleared_of_three : find_next_cleared ffsl sample 128 3 ≡ 4
unfolding find_next_cleared find_next find_loop
cleared_of_three = refl

sample-small : (i : ℕ) → sample i < 2 ^ 64
sample-small i = ground arith

find_next_lem_example :
    IsNext sample 128 4 1 (find_next_set ffsl sample 128 4)
    × IsNext sample 128 4 0 (find_next_cleared ffsl sample 128 4)
find_next_lem_example =
    find_next_lem ffsl ffsl-IsFfsl sample sample-small 128 4 (omega arith) (omega arith)
