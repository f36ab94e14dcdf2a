-- ===== src/Sched/Ring.antt =====
-- A queue in an array of `size` slots, at positions that count up modulo 2^32.
use libut.Common.{
  ℕ, zero, suc, ◌+◌, ◌-◌, ◌%◌, ◌^◌, ◌<◌, ◌≡◌, refl, ap, ap₂, ◌∙◌, ◌≢◌, List, [], ◌∷◌, ◌++◌, arith,
  length, update, update_self, update_ne,
}
use libut.Common.Words.{add32}

first : (tail : ℕ) → tail < 2 ^ 32 → tail ≡ add32 tail 0
first tail small = omega arith

next : (tail j : ℕ) → add32 (add32 tail 1) j ≡ add32 tail (suc j)
next tail j = omega arith

module _ {ℓ} {A : Type ℓ} (size : ℕ) where
  -- the `n` elements from position `tail` on
  unfoldable pub ring : (ℕ → A) → ℕ → ℕ → List A
  ring f tail zero = []
  ring f tail (suc n) = f (tail % size) ∷ ring f (add32 tail 1) n

  pub length-ring : (f : ℕ → A) (tail n : ℕ) → length (ring f tail n) ≡ n
  unfolding ring
  length-ring f tail zero = refl
  length-ring f tail (suc n) = ap suc (length-ring f (add32 tail 1) n)

  -- A store in a slot that no position of the queue has.
  pub ring-update :
      (f : ℕ → A) (tail n slot : ℕ) (x : A)
      → tail < 2 ^ 32
      → ((j : ℕ) → j < n → slot ≢ add32 tail j % size)
      → ring (update f slot x) tail n ≡ ring f tail n
  unfolding ring
  ring-update f tail zero slot x small other = refl
  ring-update f tail (suc n) slot x small other =
      ap₂ (λ a l. a ∷ l)
        (update_ne f slot (tail % size) x
          (λ e. other 0 (omega arith) (e ∙ ap (λ (t : ℕ). t % size) (first tail small))))
        (ring-update f (add32 tail 1) n slot x (omega arith)
          (λ j lt e. other (suc j) (omega arith) (e ∙ ap (λ (t : ℕ). t % size) (next tail j))))

  -- A queue is its first `m` elements, then the others.
  pub ring-append :
      (f : ℕ → A) (m n k tail : ℕ)
      → tail < 2 ^ 32
      → m + n ≡ k
      → ring f tail k ≡ ring f tail m ++ ring f (add32 tail m) n
  unfolding ring
  ring-append f zero n k tail small e = ap₂ (ring f) (first tail small) (omega (arith, e))
  ring-append f (suc m) n zero tail small e = absurd (omega (arith, e))
  ring-append f (suc m) n (suc k) tail small e =
      ap (λ l. f (tail % size) ∷ l)
        (ring-append f m n k (add32 tail 1) (omega arith) (omega (arith, e))
          ∙ ap (λ (t : ℕ). ring f (add32 tail 1) m ++ ring f t n) (next tail m))

  -- One element more at the end.
  pub ring-snoc :
      (f : ℕ → A) (tail n : ℕ)
      → tail < 2 ^ 32
      → ring f tail (suc n) ≡ ring f tail n ++ f (add32 tail n % size) ∷ []
  unfolding ring
  ring-snoc f tail n small = ring-append f n 1 (suc n) tail small (omega arith)

  -- A store behind the end is the new last element.
  pub ring-push :
      (f : ℕ → A) (tail n : ℕ) (x : A)
      → tail < 2 ^ 32
      → ((j : ℕ) → j < n → add32 tail n % size ≢ add32 tail j % size)
      → ring (update f (add32 tail n % size) x) tail (suc n) ≡ ring f tail n ++ x ∷ []
  ring-push f tail n x small other =
      let slot : ℕ = add32 tail n % size in
      ring-snoc (update f slot x) tail n small
      ∙ ap₂ (λ l a. l ++ a ∷ []) (ring-update f tail n slot x small other) (update_self f slot x)

  -- The first element and the others.
  pub ring-uncons :
      (f : ℕ → A) (tail n : ℕ) (x : A) (rest : List A)
      → ring f tail n ≡ x ∷ rest
      → (f (tail % size) ≡ x) × (ring f (add32 tail 1) (n - 1) ≡ rest) × (0 < n)
  unfolding ring
  ring-uncons f tail zero x rest e = absurd (cc)
  ring-uncons f tail (suc n) x rest e =
      (cc, ap (ring f (add32 tail 1)) (omega arith) ∙ ap tl e, omega arith)
    where
      tl : List A → List A
      tl [] = []
      tl (y ∷ ys) = ys

-- 32 slots divide the range of the positions, so that no two of 32 positions in a row share a slot.
pub apart_32 : (tail n j : ℕ) → n < 32 → j < n → add32 tail n % 32 ≢ add32 tail j % 32
apart_32 tail n j h lt e = omega (arith)

-- 7 slots do not: positions must not wrap.
pub apart_7 :
    (tail n j : ℕ) → n < 7 → tail + n < 2 ^ 32 → j < n → add32 tail n % 7 ≢ add32 tail j % 7
apart_7 tail n j h small lt e = omega (arith)
