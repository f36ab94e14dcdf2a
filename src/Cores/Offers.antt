-- ===== src/Cores/Offers.antt =====
-- The cores that `pick_core_for_proc` may pick.
use libut.Common.Totals.{total-ge}
use libut.Cores.Running.{ones}
use libut.Common.{
  ℕ, zero, suc, ◌+◌, ◌≤◌, ◌<◌, ◌≡◌, refl, ap, ◌∙◌, ◌≢◌, inl, inr, Bool, true, false, not, ◌&&◌,
  ◌||◌, Option, none, some, arith, dec_lt, ℕ_discrete, ◌==◌, Bool-cases, Option-cases, length,
}
use libut.Common.Counts.{top-some, times-top}
use libut.Cores.{World, Thread}
use libut.Cores.Alloc.{
  lowest, is_none, can_preempt, pick_any_core, pick_busy_core, pick_core_from, pick_core_for_proc,
}
use libut.Cores.Placed.{exists}
use libut.Cores.Picks.{IsAssigned}

-- A core that may be given: it is available, or it is busy and promised to no thread.
pub data Offered (w : World) (c : ℕ) : Type 0 where
  idle : w.cores.avail_cores c ≡ true → Offered w c
  busy :
      (th : Thread)
      → w.cores.avail_cores c ≡ false
      → w.cores.current c ≡ some th
      → w.cores.next c ≡ none
      → Offered w c

-- A core that `pick_core_for_proc` may pick: an available one; or, when no core is available, one that is
-- promised to no thread and runs a thread of a process that uses more than its share.
pub data Fair (w : World) (c : ℕ) : Type 0 where
  ready_core : w.cores.avail_cores c ≡ true → Fair w c
  preempts :
      (th : Thread)
      → w.cores.current c ≡ some th
      → (w.proc (w.p_of th)).bursting ≡ true
      → w.cores.next c ≡ none
      → ((d : ℕ) → w.cores.avail_cores d ≡ false)
      → Fair w c

pub Fair-Offered : {w : World} {c : ℕ} → Fair w c → Offered w c
Fair-Offered (ready_core h) = idle h
Fair-Offered {c = c} (preempts th cur over alone taken) = busy th (taken c) cur alone

lowest_holds : (f : ℕ → Bool) (i count c : ℕ) → lowest f i count ≡ some c → f c ≡ true
unfolding lowest
lowest_holds f i zero c e = absurd (cc)
lowest_holds f i (suc count) c e = elim (Bool-cases (f i)) [
  | inl h ↦ ground (arith, e, h)
  | inr h ↦ lowest_holds f (i + 1) count c (ground (arith, e, h))
]

lowest-none :
    (f : ℕ → Bool) (i count c : ℕ) → lowest f i count ≡ none → i ≤ c → c < i + count → f c ≡ false
unfolding lowest
lowest-none f i zero c e ge lt = absurd (omega (arith, ge, lt))
lowest-none f i (suc count) c e ge lt = elim (ℕ_discrete i c) [
  | yes here ↦ ground (arith, e, here, ap f here)
  | no there ↦
      lowest-none f (i + 1) count c (ground (arith, e)) (omega (arith, ge, there))
        (omega (arith, lt))
]

lowest-some :
    (f : ℕ → Bool) (count c : ℕ) → f c ≡ true → c < count → (d : ℕ) × (lowest f 0 count ≡ some d)
lowest-some f count c h lt = elim (Option-cases (lowest f 0 count)) [
  | inl e ↦ absurd (ground (arith, h, lowest-none f 0 count c e (omega arith) (omega (arith, lt))))
  | inr found ↦ found
]

-- A core below `n` that is available, or that runs a thread of a process which is bursting, and is
-- promised to no thread.
pub record IsCandidate (w : World) (n c : ℕ) : Type 0 where
  pub below : c < n
  pub fit : (w.cores.avail_cores c || can_preempt w c) ≡ true

module _ (w : World) (n : ℕ) (s : IsAssigned w n) where
  preempt-Fair :
      (c : ℕ) → ((d : ℕ) → w.cores.avail_cores d ≡ false) → can_preempt w c ≡ true → Fair w c
  preempt-Fair c taken h = elim (Option-cases (w.cores.current c)) [
    | inl e ↦ absurd (ground (arith, h, e))
    | inr (th, e) ↦ elim (Option-cases (w.cores.next c)) [
      | inl e' ↦ preempts th e (ground (arith, h, e)) e' taken
      | inr (m, e') ↦ absurd (ground (arith, h, e'))
    ]
  ]

  none_free : lowest w.cores.avail_cores 0 n ≡ none → (c : ℕ) → w.cores.avail_cores c ≡ false
  none_free e c = elim (dec_lt c n) [
    | yes lt ↦ lowest-none w.cores.avail_cores 0 n c e (omega arith) (omega (arith, lt))
    | no ge ↦ (s.running.outside c (omega (arith, ge))).0
  ]

  none_avail : w.cores.nr_avail_cores ≡ 0 → (c : ℕ) → w.cores.avail_cores c ≡ false
  none_avail full c = elim (dec_lt c n) [
    | yes lt ↦ ground (arith, full, s.running.counted, total-ge ones n w.cores.avail_cores c lt)
    | no ge ↦ (s.running.outside c (omega (arith, ge))).0
  ]

  module _ (cand : ℕ) (fits : IsCandidate w n cand) where
    any_core_lem : (c : ℕ) × (pick_any_core n w ≡ some c) × Fair w c
    unfolding pick_any_core
    any_core_lem = elim (Option-cases (lowest w.cores.avail_cores 0 n)) [
      | inr (c, e) ↦ (c, rw e refl, ready_core (lowest_holds w.cores.avail_cores 0 n c e))
      | inl e ↦
          let taken = none_free e in
          let (c, e') =
            lowest-some (can_preempt w) n cand (ground (arith, fits.fit, taken cand)) fits.below in
          (c, rw (e, e') refl, preempt-Fair c taken (lowest_holds (can_preempt w) 0 n c e'))
    ]

    module _ (p core : ℕ) (taken : w.cores.avail_cores core ≡ false)
        (alone : w.cores.next core ≡ none) where
      busy_core_lem :
          (o : Option Thread)
          → w.cores.current core ≡ o
          → o ≢ none
          → w.cores.nr_avail_cores ≡ 0
          → (c : ℕ) × (pick_busy_core n p core o w ≡ some c) × Fair w c
      unfolding pick_busy_core
      busy_core_lem none e some_there full = absurd (some_there refl)
      busy_core_lem (some th) e some_there full =
          elim (Bool-cases (not (w.p_of th == p) && (w.proc (w.p_of th)).bursting)) [
            | inl h ↦ (core, rw h refl, preempts th e (ground (arith, h)) alone (none_avail full))
            | inr h ↦ let (c, e', o) = any_core_lem in (c, rw h e', o)
          ]

    homed_busy :
        (t : Thread)
        → exists w t ≡ true
        → w.cores.avail_cores (w.threads.core t) ≡ false
        → w.cores.current (w.threads.core t) ≢ none
    homed_busy t there taken e = ground (arith, s.running.homed t there, taken, e)

    core_from_lem :
        (p : ℕ) (t : Thread)
        → exists w t ≡ true
        → (c : ℕ) × (pick_core_from n p (some t) w ≡ some c) × Fair w c
    unfolding pick_core_from
    core_from_lem p t there =
        let core : ℕ = w.threads.core t in
        elim (Bool-cases (w.cores.avail_cores core)) [
          | inl there' ↦ (core, rw there' refl, ready_core there')
          | inr taken ↦
              elim (Bool-cases ((w.cores.nr_avail_cores == 0) && is_none (w.cores.next core))) [
                | inl h ↦ elim (Option-cases (w.cores.next core)) [
                  | inl alone ↦
                      let (c, e, o) =
                        busy_core_lem p core taken alone (w.cores.current core) refl
                          (λ e. homed_busy t there taken e) (ground (arith, h)) in
                      (c, rw (taken, h) e, o)
                  | inr (m, e) ↦ absurd (ground (arith, h, e))
                ]
                | inr h ↦ let (c, e, o) = any_core_lem in (c, rw (taken, h) e, o)
              ]
        ]

    pub pick_core_lem :
        (p : ℕ)
        → 0 < length (w.proc p).idle_threads
        → (c : ℕ) × (pick_core_for_proc n p w ≡ some c) × Fair w c
    unfolding pick_core_for_proc
    pick_core_lem p h =
        let (t, e) = top-some (w.proc p).idle_threads h in
        let (c, e', o) =
          core_from_lem p t
            (ground (arith, s.placed.idle p t, times-top t (w.proc p).idle_threads e)) in
        (c, ap (λ (x : Option Thread). pick_core_from n p x w) e ∙ e', o)
