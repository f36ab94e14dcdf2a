-- ===== src/Common/Totals.antt =====
-- Sums of weights over the first `n` elements of an array. Two arrays hold the same elements, as often,
-- if they have the same sum for every weight.
use Prim.Native.Nat.{ℕ, zero, suc, ◌+◌, ◌≤◌, ◌<◌}
use mathlib.Core.Path.{◌≡◌, refl}
use native.Mathlib.Omega.{arith}
use native.Mathlib.Numerals.{towards_suc}
use native.Mathlib.Decide.{dec_lt}
use libut.Common.Lists.{update}
use mathlib.Core.List.{List, [], ◌∷◌, ◌++◌}

module _ {ℓ} {A : Type ℓ} (w : A → ℕ) where
  unfoldable pub total : (ℕ → A) → ℕ → ℕ
  total f zero = 0
  total f (suc n) = total f n + w (f n)

  pub total-suc : (f : ℕ → A) (n : ℕ) → total f (n + 1) ≡ total f n + w (f n)
  unfolding total
  total-suc f n = simp towards_suc

  -- Past the end, a store changes nothing.
  total-update_beyond :
      (count : ℕ) (slots : ℕ → A) (at : ℕ) (new : A)
      → count ≤ at
      → total (update slots at new) count ≡ total slots count
  unfolding total
  total-update_beyond zero slots at new beyond = refl
  total-update_beyond (suc count) slots at new beyond =
      ground (arith, total-update_beyond count slots at new)

  -- A store trades the weight of the old element for that of the new one.
  pub total-update :
      (count : ℕ) (slots : ℕ → A) (at : ℕ) (new : A)
      → at < count
      → total (update slots at new) count + w (slots at) ≡ total slots count + w new
  unfolding total
  total-update zero slots at new inside = elim inside [ ]
  total-update (suc count) slots at new inside = elim (dec_lt at count) [
    | yes below ↦ ground (arith, total-update count slots at new below)
    | no last ↦ ground (arith, total-update_beyond count slots at new)
  ]

  -- Arrays that agree below `n` have one sum.
  pub total-ext : (n : ℕ) (f g : ℕ → A) → ((i : ℕ) → i < n → f i ≡ g i) → total f n ≡ total g n
  unfolding total
  total-ext zero f g h = refl
  total-ext (suc n) f g h =
      ground (arith, total-ext n f g (λ i lt. h i (omega arith)), h n (omega arith))

  -- Arrays whose elements weigh the same below `n` have one sum.
  pub total-same :
      (n : ℕ) (f g : ℕ → A) → ((i : ℕ) → i < n → w (f i) ≡ w (g i)) → total f n ≡ total g n
  unfolding total
  total-same zero f g h = refl
  total-same (suc n) f g h =
      omega (arith, total-same n f g (λ i lt. h i (omega arith)), h n (omega arith))

  -- An element weighs no more than the sum.
  pub total-ge : (n : ℕ) (f : ℕ → A) (i : ℕ) → i < n → w (f i) ≤ total f n
  unfolding total
  total-ge zero f i h = elim h [ ]
  total-ge (suc n) f i h = elim (dec_lt i n) [
    | yes inside ↦ omega (arith, total-ge n f i inside)
    | no last ↦ ground arith
  ]

  pub total-zero : (n : ℕ) (f : ℕ → A) → ((i : ℕ) → i < n → w (f i) ≡ 0) → total f n ≡ 0
  unfolding total
  total-zero zero f h = refl
  total-zero (suc n) f h =
      omega (arith, total-zero n f (λ i lt. h i (omega arith)), h n (omega arith))

  -- the sum over a list
  unfoldable pub weight : List A → ℕ
  weight [] = 0
  weight (x ∷ xs) = w x + weight xs

  pub weight-nil : weight [] ≡ 0
  unfolding weight
  weight-nil = refl

  pub weight-cons : (x : A) (xs : List A) → weight (x ∷ xs) ≡ w x + weight xs
  unfolding weight
  weight-cons x xs = refl

  pub weight-append : (xs ys : List A) → weight (xs ++ ys) ≡ weight xs + weight ys
  unfolding weight
  weight-append [] ys = omega arith
  weight-append (x ∷ xs) ys = omega (arith, weight-append xs ys)
