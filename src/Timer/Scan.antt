-- ===== src/Timer/Scan.antt =====
-- The inner loop of `sift_down` finds the child with the least deadline, if one lies below the bound.
use libut.Common.{
  ℕ, zero, suc, ◌+◌, ◌≤◌, ◌<◌, ◌≡◌, refl, ap, ◌⊎◌, inl, Option, none, some, arith, dec_lt,
  ℕ_discrete,
}
use libut.Timer.{State, key, scan}

-- What the scan of the children of a slot comes to: none lies below `w`, or the least one does.
pub record IsLeast (s : State) (n lo hi w : ℕ) (c : ℕ) : Type 0 where
  pub inside : c < n
  pub child : (lo ≤ c) × (c < hi)
  pub below : key s c < w
  pub least : (j : ℕ) → lo ≤ j → j < hi → j < n → key s c ≤ key s j

-- The scan goes over the slots from `lo` to below `hi`, as far as they lie below `n`.
pub data Found (s : State) (n lo hi w : ℕ) : Option ℕ → Type 0 where
  nothing : ((j : ℕ) → lo ≤ j → j < hi → j < n → w ≤ key s j) → Found s n lo hi w none
  least : (c : ℕ) → IsLeast s n lo hi w c → Found s n lo hi w (some c)

-- From a candidate `r`, the scan ends with a slot that is no worse.
record IsBetter (s : State) (n lo hi r : ℕ) (o : Option ℕ) : Type 0 where
  best : ℕ
  result : o ≡ some best
  origin : (best ≡ r) ⊎ (lo ≤ best) × (best < hi) × (best < n)
  no_worse : key s best ≤ key s r
  least_of : (j : ℕ) → lo ≤ j → j < hi → j < n → key s best ≤ key s j

module _ (s : State) (n : ℕ) where
  scan-past : (left j w : ℕ) (c : Option ℕ) → n ≤ j → scan (suc left) s n j w c ≡ c
  unfolding scan
  scan-past left j w c h = ground arith

  scan-lower :
      (left j w : ℕ) (c : Option ℕ)
      → j < n
      → key s j < w
      → scan (suc left) s n j w c ≡ scan left s n (j + 1) (key s j) (some j)
  unfolding scan
  scan-lower left j w c h l = ground arith

  scan-higher :
      (left j w : ℕ) (c : Option ℕ)
      → j < n
      → w ≤ key s j
      → scan (suc left) s n j w c ≡ scan left s n (j + 1) w c
  unfolding scan
  scan-higher left j w c h l = ground arith

  scan-IsBetter :
      (left j hi r : ℕ) → hi ≡ j + left → IsBetter s n j hi r (scan left s n j (key s r) (some r))
  unfolding scan
  scan-IsBetter zero j hi r e = record {
    best = r;
    result = refl;
    origin = inl refl;
    no_worse = omega arith;
    least_of = λ i low high inside. absurd (omega arith);
  }
  scan-IsBetter (suc left) j hi r e = elim (dec_lt j n) [
    | no past ↦ record {
      best = r;
      result = ground arith;
      origin = inl refl;
      no_worse = omega arith;
      least_of = λ i low high inside. absurd (omega arith);
    }
    | yes here ↦ elim (dec_lt (key s j) (key s r)) [
      | yes lower ↦
          let b = scan-IsBetter left (j + 1) hi j (omega arith) in
          record {
            best = b.best;
            result = ground (arith, b.result);
            origin = ground (arith, b.origin);
            no_worse = omega (arith, b.no_worse);
            least_of = λ i low high inside. ground (arith, b.no_worse, b.least_of i);
          }
      | no higher ↦
          let b = scan-IsBetter left (j + 1) hi r (omega arith) in
          record {
            best = b.best;
            result = ground (arith, b.result);
            origin = ground (arith, b.origin);
            no_worse = b.no_worse;
            least_of = λ i low high inside. ground (arith, b.no_worse, b.least_of i);
          }
    ]
  ]

  Found-widen :
      {j hi w : ℕ} {o : Option ℕ} → w ≤ key s j → Found s n (j + 1) hi w o → Found s n j hi w o
  Found-widen {j} h (nothing f) = nothing λ i low high inside. elim (ℕ_discrete i j) [
    | yes same ↦ ground (arith, ap (key s) same)
    | no other ↦ f i (omega arith) high inside
  ]
  Found-widen {j} h (least c b) = least c (record {
    inside = b.inside;
    child = omega (arith, b.child);
    below = b.below;
    least = λ i low high inside. elim (ℕ_discrete i j) [
      | yes same ↦ omega (arith, ap (key s) same, b.below)
      | no other ↦ b.least i (omega arith) high inside
    ];
  })

  -- The scan finds the least of the slots whose deadline lies below `w`, if there is one.
  pub scan-Found : (left j hi w : ℕ) → hi ≡ j + left → Found s n j hi w (scan left s n j w none)
  unfolding scan
  scan-Found zero j hi w e = nothing λ i low high inside. absurd (omega arith)
  scan-Found (suc left) j hi w e = elim (dec_lt j n) [
    | no past ↦
        rw (scan-past left j w none (omega arith))
          (nothing λ i low high inside. absurd (omega arith))
    | yes here ↦ elim (dec_lt (key s j) w) [
      | yes lower ↦
          let b = scan-IsBetter left (j + 1) hi j (omega arith) in
          rw (scan-lower left j w none here lower, b.result)
            (least b.best (record {
              inside = ground (arith, b.origin);
              child = ground (arith, b.origin);
              below = omega (arith, b.no_worse);
              least = λ i low high inside. ground (arith, b.no_worse, b.least_of i);
            }))
      | no higher ↦
          rw (scan-higher left j w none here (omega arith))
            (Found-widen (omega arith) (scan-Found left (j + 1) hi w (omega arith)))
    ]
  ]
