-- ===== src/Cores/Grant.antt =====
-- Spare cores go to the processes that want more.
use libut.Common.{
  ℕ, zero, suc, ◌+◌, ◌≤◌, ◌<◌, ◌≡◌, refl, ap, ◌∙◌, ◌≢◌, inl, inr, Bool, true, false, Option, some,
  List, [], ◌∷◌, arith, ℕ_discrete, ◌==◌, if◌then◌else◌, Bool-cases, >>=-some, length,
}
use libut.Common.Totals.{total}
use libut.Cores.{World, Thread, ncpu}
use libut.Cores.Alloc.{cores_add_core}
use libut.Cores.Adjust.{grant, grown_world}
use libut.Cores.Running.{ones}
use libut.Cores.Picks.{IsAssigned}
use libut.Cores.Adding.{cores_add_core_lem}

free_below : (f : ℕ → Bool) (n : ℕ) → total ones f n ≢ 0 → (c : ℕ) × (c < n) × (f c ≡ true)
unfolding total
free_below f zero h = absurd (h refl)
free_below f (suc n) h = elim (Bool-cases (f n)) [
  | inl e ↦ (n, omega arith, e)
  | inr e ↦ let (c, lt, e') = free_below f n (ground (arith, h, e)) in (c, omega (arith, lt), e')
]

if_no : (b : Bool) (x y : Option World) → b ≡ false → (if b then x else y) ≡ y
if_no b x y e = rw e refl

-- Every thread that was awake still is.
abbrev pub Awake : World → World → Type 0
Awake w v = (x : Thread) → w.threads.parked x ≡ false → v.threads.parked x ≡ false

module _ (pinned : Bool) (n : ℕ) where
  -- one process
  add_step :
      (p : ℕ) (w : World)
      → IsAssigned w n
      → w.cores.nr_avail_cores ≢ 0
      → w.threads.ts.count < ncpu
      → (v : World) × (grown_world (cores_add_core pinned n p w) ≡ some v)
        × IsAssigned v n
        × Awake w v
        × (v.threads.ts.count ≤ w.threads.ts.count + 1)
  add_step p w s spare room =
      let (c, lt, free) = free_below w.cores.avail_cores n (λ e. spare (s.running.counted ∙ e)) in
      let (full, more) =
        cores_add_core_lem pinned n p w s room c
          record { below = lt; fit = ground (arith, free) } in
      elim (ℕ_discrete (w.proc p).active.count (w.proc p).thread_count) [
        | yes e ↦ (w, ap grown_world (full e), s, (λ x h. h), omega arith)
        | no ne ↦
            let (th, v, e, g) = more ne in
            (
              v,
              ap grown_world e,
              g.assigned,
              (λ x h. ap (λ (f : Thread → Bool). f x) g.changed ∙ ground (arith, h)),
              g.crowd,
            )
      ]

  -- Granting spare cores to processes fails no check, ends, and keeps cores and threads assigned to each
  -- other; it parks no thread. The array of polled threads must have room for one thread of each process.
  pub grant_lem :
      (ps : List ℕ) (w : World)
      → IsAssigned w n
      → w.threads.ts.count + length ps ≤ ncpu
      → (v : World) × (grant pinned n ps w ≡ some v) × IsAssigned v n × Awake w v
  unfolding grant
  grant_lem [] w s room = (w, refl, s, (λ x h. h))
  grant_lem (p ∷ ps) w s room = elim (ℕ_discrete w.cores.nr_avail_cores 0) [
    | yes none_left ↦ (w, ground (arith, none_left), s, (λ x h. h))
    | no spare ↦
        let (v, e, a, awake, crowd) = add_step p w s spare (omega (arith, room)) in
        let (u, e', a', awake') = grant_lem ps v a (omega (arith, room, crowd)) in
        (
          u,
          if_no (w.cores.nr_avail_cores == 0) _ _ (ground (arith, spare))
              ∙ >>=-some (grant pinned n ps) e
              ∙ e',
          a',
          (λ x h. awake' x (awake x h)),
        )
  ]
