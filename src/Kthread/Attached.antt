-- ===== src/Kthread/Attached.antt =====
-- The array of attached kthreads.
use libut.Common.{
  ℕ, zero, suc, ◌+◌, ◌-◌, ◌≤◌, ◌<◌, ◌≡◌, refl, ap, ◌∙◌, fun_ext, ◌≢◌, Bool, true, false, some,
  arith, dec_lt, ℕ_discrete, if◌then◌else◌, update, update_self,
}
use libut.Common.Totals.{total, total-update}
use libut.Kthread.{Kthread, Runtime, put, find, attach}

-- 1 for a kthread that is attached
abbrev pub counts : Bool → ℕ
counts detached = if detached then 0 else 1

-- `ks[0..n)` names exactly the kthreads below `m` that are not detached, each once.
pub record Attached (m : ℕ) (ks : ℕ → ℕ) (n : ℕ) (detached : ℕ → Bool) : Type 0 where
  pub known : (p : ℕ) → p < n → ks p < m
  pub live : (p : ℕ) → p < n → detached (ks p) ≡ false
  pub once : (p q : ℕ) → p < n → q < n → ks p ≡ ks q → p ≡ q
  pub listed : (i : ℕ) → i < m → detached i ≡ false → (p : ℕ) × (p < n) × (ks p ≡ i)
  pub counted : total counts detached m ≡ n

abbrev pub IsAttached : Runtime → Type 0
IsAttached w = Attached w.maxks w.ks w.nrks (λ i. (w.kthread i).detached)

pub Attached-ext :
    {m n : ℕ} {ks : ℕ → ℕ} {d e : ℕ → Bool}
    → ((i : ℕ) → d i ≡ e i)
    → Attached m ks n d
    → Attached m ks n e
Attached-ext {d = d} {e = e} same a = let q : d ≡ e = fun_ext same in rw (← q) a

total-le : (d : ℕ → Bool) (m : ℕ) → total counts d m ≤ m
unfolding total
total-le d zero = omega arith
total-le d (suc m) = ground (arith, total-le d m)

-- A kthread that is not attached leaves room for one more.
total-lt : (d : ℕ → Bool) (m i : ℕ) → i < m → d i ≡ true → total counts d m < m
unfolding total
total-lt d zero i h e = elim h [ ]
total-lt d (suc m) i h e = elim (dec_lt i m) [
  | yes below ↦ ground (arith, total-lt d m i below e)
  | no last ↦ let q : i ≡ m = omega arith in ground (arith, total-le d m, ap d q)
]

still : (d : ℕ → Bool) (r j : ℕ) → update d r true j ≡ false → (d j ≡ false) × (j ≢ r)
still d r j h = (ground arith, λ e. ground (arith, h, e))

kept_false : (d : ℕ → Bool) (i j : ℕ) → update d i false j ≡ false → i ≢ j → d j ≡ false
kept_false d i j h ne = ground arith

module _ {m n : ℕ} {ks : ℕ → ℕ} {d : ℕ → Bool} (a : Attached m ks n d) where
  pub room : (i : ℕ) → i < m → d i ≡ true → n < m
  room i h e = omega (arith, total-lt d m i h e, a.counted)

  not_listed : (i : ℕ) → d i ≡ true → (q : ℕ) → q < n → i ≢ ks q
  not_listed i e q lt s = ground (arith, ap d s, a.live q lt)

  apart : (p q : ℕ) → p < n → q < n → p ≢ q → ks p ≢ ks q
  apart p q hp hq ne s = ne (a.once p q hp hq s)

  -- where the kthread at `p` is once the last one has taken the place `at`
  new_place :
      (at : ℕ)
      → at < n
      → (p j : ℕ) → p < n
      → ks p ≡ j
      → j ≢ ks at
      → (x : ℕ) × (x < n - 1) × (update ks at (ks (n - 1)) x ≡ j)
  new_place at h p j lt s ne = elim (ℕ_discrete p (n - 1)) [
    | yes moved ↦ (at, ground (arith, ap ks moved, apart at p h lt), ground (arith, ap ks moved))
    | no kept ↦ (p, omega arith, ground arith)
  ]

  pub add-Attached :
      (i : ℕ) → i < m → d i ≡ true → Attached m (update ks n i) (n + 1) (update d i false)
  add-Attached i h e = record {
    known = λ p q. ground (arith, a.known p);
    live = λ p q. ground (arith, a.live p);
    once = λ p q hp hq. ground (arith, a.once p q, not_listed i e p, not_listed i e q);
    listed = λ j hj dj. elim (ℕ_discrete i j) [
      | yes new ↦ (n, omega arith, ground arith)
      | no old ↦
          let (p, lt, s) = a.listed j hj (kept_false d i j dj old) in (p, omega arith, ground arith)
    ];
    counted = ground (arith, total-update counts m d i false h, a.counted);
  }

  pub drop-Attached :
      (at : ℕ) → at < n → Attached m (update ks at (ks (n - 1))) (n - 1) (update d (ks at) true)
  drop-Attached at h = record {
    known = λ p q. ground (arith, a.known p, a.known (n - 1));
    live = λ p lt. ground (arith, a.live p, a.live (n - 1), apart at p h, apart at (n - 1) h);
    once = λ p q hp hq. ground (arith, a.once p q, a.once p (n - 1), a.once (n - 1) q);
    listed = λ j hj dj.
        let (dj', ne) = still d (ks at) j dj in
        let (p, lt, s) = a.listed j hj dj' in new_place at h p j lt s ne;
    counted =
        ground (arith, total-update counts m d (ks at) true (a.known at h), a.counted, a.live at h);
  }

-- The search ends at a place of `r`, if there is one.
pub find_lem :
    (r : ℕ) (ks : ℕ → ℕ) (i count p : ℕ)
    → i ≤ p
    → p < i + count
    → ks p ≡ r
    → (at : ℕ) × (find r ks i count ≡ some at) × (at < i + count) × (ks at ≡ r)
unfolding find
find_lem r ks i zero p low high h = absurd (omega arith)
find_lem r ks i (suc count) p low high h = elim (ℕ_discrete (ks i) r) [
  | yes found ↦ (i, ground arith, omega arith, found)
  | no other ↦
      let differs : i ≢ p = λ e. other (ap ks e ∙ h) in
      let (at, e, lt, s) = find_lem r ks (i + 1) count p (omega arith) (omega arith) h in
      (at, ground (arith, e), omega arith, s)
]

-- A detached kthread that is not parked can be attached, there is room for it in the array, and the
-- array then names the attached kthreads again, each once.
pub attach_lem :
    (i : ℕ) (w : Runtime)
    → IsAttached w
    → i < w.maxks
    → (w.kthread i).parked ≡ false
    → (w.kthread i).detached ≡ true
    → (w' : Runtime) × (attach i w ≡ some w')
      × IsAttached w'
      × (w'.nrks ≡ w.nrks + 1)
      × ((w'.kthread i).parked ≡ false)
      × ((w'.kthread i).detached ≡ false)
unfolding attach
attach_lem i w a h awake off = (
  record (put i (record (w.kthread i) { detached = false }) w) {
    ks = update w.ks w.nrks i;
    nrks = w.nrks + 1;
  },
  ground (arith, room a i h off),
  Attached-ext (λ j. ground arith) (add-Attached a i h off),
  refl,
  ap (λ (k : Kthread). k.parked)
        (update_self w.kthread i (record (w.kthread i) { detached = false }))
      ∙ awake,
  ap (λ (k : Kthread). k.detached)
      (update_self w.kthread i (record (w.kthread i) { detached = false })),
)
