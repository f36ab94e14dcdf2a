-- ===== src/Common/Lists.antt =====
-- Lists measured and indexed by native numbers, under the library's names, and C arrays as functions
-- of their index.
use Prim.Native.Nat.{min, ◌<◌, ℕ, zero, suc, ◌+◌}
use mathlib.Core.Path.{◌≡◌, refl, sym, ap, ◌∙◌, subst}
use native.Mathlib.Decide.{ℕ_discrete}
use mathlib.Core.Logic.{◌≢◌}
use mathlib.Core.List.{List, [], ◌∷◌, ◌++◌}
use mathlib.Core.Option.{Option, none, some}
use mathlib.Core.Logic.{◌⊎◌, inl, inr}
use native.Mathlib.Omega.{arith}
use libut.Common.Tests.{◌==◌, if◌then◌else◌}

module _ {ℓ} {A : Type ℓ} where
  abbrev pub length : List A → ℕ
  length [] = 0
  length (x ∷ xs) = suc (length xs)

  abbrev pub get_elem? : List A → ℕ → Option A
  get_elem? [] i = none
  get_elem? (x ∷ xs) zero = some x
  get_elem? (x ∷ xs) (suc i) = get_elem? xs i

  abbrev pub take : ℕ → List A → List A
  take zero xs = []
  take (suc n) [] = []
  take (suc n) (x ∷ xs) = x ∷ take n xs

  abbrev pub drop : ℕ → List A → List A
  drop zero xs = xs
  drop (suc n) [] = []
  drop (suc n) (x ∷ xs) = drop n xs

  pub length-append : (xs ys : List A) → length (xs ++ ys) ≡ length xs + length ys
  length-append [] ys = omega arith
  length-append (x ∷ xs) ys = omega (arith, length-append xs ys)

  -- `a[p] = v`
  abbrev pub update : (ℕ → A) → ℕ → A → ℕ → A
  update f p v q = if p == q then v else f q

  -- the `n` elements of an array from index `i` on
  abbrev pub slice : (ℕ → A) → ℕ → ℕ → List A
  slice f i zero = []
  slice f i (suc n) = f i ∷ slice f (suc i) n

module _ {ℓ} {A : Type ℓ} where
  pub length-slice : (f : ℕ → A) (i n : ℕ) → length (slice f i n) ≡ n
  length-slice f i zero = refl
  length-slice f i (suc n) = ap suc (length-slice f (suc i) n)

  pub update_self : (f : ℕ → A) (p : ℕ) (v : A) → update f p v p ≡ v
  update_self f p v = ground arith

  pub update_ne : (f : ℕ → A) (p q : ℕ) (v : A) → p ≢ q → update f p v q ≡ f q
  update_ne f p q v h = ground arith

  pub take-append-drop : (n : ℕ) (xs : List A) → take n xs ++ drop n xs ≡ xs
  take-append-drop zero xs = refl
  take-append-drop (suc n) [] = refl
  take-append-drop (suc n) (x ∷ xs) = ap (λ r. x ∷ r) (take-append-drop n xs)

module _ {ℓ} {A : Type ℓ} where
  -- An element of a list with one more at its end is an old one, or the new one.
  pub get_elem?-snoc :
      (xs : List A) (x m : A) (j : ℕ)
      → get_elem? (xs ++ x ∷ []) j ≡ some m
      → (get_elem? xs j ≡ some m) × (j < length xs) ⊎ (j ≡ length xs) × (x ≡ m)
  get_elem?-snoc [] x m zero h = inr (refl, cc)
  get_elem?-snoc [] x m (suc j) h = absurd (cc)
  get_elem?-snoc (y ∷ xs) x m zero h = inl (h, omega arith)
  get_elem?-snoc (y ∷ xs) x m (suc j) h = elim (get_elem?-snoc xs x m j h) [
    | inl p ↦ inl (p.0, omega (arith, p.1))
    | inr p ↦ inr (ap suc p.0, p.1)
  ]

  pub length-take : (n : ℕ) (xs : List A) → length (take n xs) ≡ min n (length xs)
  length-take zero xs = omega arith
  length-take (suc n) [] = omega arith
  length-take (suc n) (x ∷ xs) = omega (arith, length-take n xs)

  pub take_all : (xs : List A) → take (length xs) xs ≡ xs
  take_all [] = refl
  take_all (x ∷ xs) = ap (λ r. x ∷ r) (take_all xs)

  pub get_elem?-append_some :
      (xs ys : List A) (p : ℕ) (t : A) → get_elem? xs p ≡ some t → get_elem? (xs ++ ys) p ≡ some t
  get_elem?-append_some [] ys p t e = cc
  get_elem?-append_some (x ∷ xs) ys zero t e = e
  get_elem?-append_some (x ∷ xs) ys (suc p) t e = get_elem?-append_some xs ys p t e

-- A store that keeps a field of the element keeps that field everywhere.
pub update-field {ℓ κ} :
    {A : Type ℓ} {B : Type κ} (field : A → B) (f : ℕ → A) (p : ℕ) (v : A)
    → field v ≡ field (f p)
    → (q : ℕ) → field (update f p v q) ≡ field (f q)
update-field field f p v same q = elim (ℕ_discrete p q) [
  | yes here ↦
      subst (λ x. field (update f p v x) ≡ field (f x)) here (ap field (update_self f p v) ∙ same)
  | no there ↦ ap field (update_ne f p q v there)
]

-- What holds of the new element and of all others holds after the store.
pub update-all {ℓ κ} :
    {A : Type ℓ} (P : A → Type κ) (f : ℕ → A) (p : ℕ) (v : A) (q : ℕ)
    → P v
    → (p ≢ q → P (f q))
    → P (update f p v q)
update-all P f p v q new old = elim (ℕ_discrete p q) [
  | yes here ↦ subst (λ x. P (update f p v x)) here (subst P (sym (update_self f p v)) new)
  | no there ↦ subst P (sym (update_ne f p q v there)) (old there)
]

-- The same of a property that names the place.
pub update-each {ℓ κ} :
    {A : Type ℓ} (P : ℕ → A → Type κ) (f : ℕ → A) (p : ℕ) (v : A)
    → P p v
    → ((q : ℕ) → p ≢ q → P q (f q))
    → (q : ℕ) → P q (update f p v q)
update-each P f p v new old q = elim (ℕ_discrete p q) [
  | yes here ↦ subst (λ x. P x (update f p v x)) here (subst (P p) (sym (update_self f p v)) new)
  | no there ↦ subst (P q) (sym (update_ne f p q v there)) (old q there)
]
