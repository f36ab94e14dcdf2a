-- ===== src/Kthread/Park.antt =====
-- `kthread_park`: what a kthread tells the core allocator, and what it leaves.
use libut.Common.{
  ℕ, ◌+◌, ◌-◌, ◌≤◌, ◌<◌, ◌≡◌, refl, sym, ap, ◌∙◌, inl, inr, Bool, true, false, ◌||◌, none, some,
  arith, ltb, leb, if◌then◌else◌, Bool-cases, update_self, update-field,
}
use libut.Timer.{State, key}
use libut.Kthread.{
  Kthread, Runtime, put, timer_state, Cmd, txcmd_parked, txcmd_parked_last, Payload, self, after,
  park_cmd, park, unpark, Parking, woken, with_runningks, attach,
}
use libut.Kthread.Attached.{IsAttached, Attached-ext, attach_lem}

-- What the last running kthread tells the core allocator about its timers.
abbrev pub Wakeup : ℕ → State → Cmd × Payload → Type 0
Wakeup now s (txcmd_parked_last, after d) =
    (0 < d) × (now + d ≡ key s 0) × ((j : ℕ) → j < s.timern → now + d ≤ key s j)
Wakeup now s (txcmd_parked, self) = key s 0 ≤ now
Wakeup now s _ = ⊥

module _ (voluntary : Bool) (i spinks seen runningks now : ℕ) (w : Runtime)
    (awake : (w.kthread i).parked ≡ false) where
  park_stays :
      (leb seen spinks || ltb runningks (spinks + 1)) ≡ true
      → park voluntary i spinks seen runningks now w
        ≡ some (record { sent = none; runningks = runningks; runtime = w })
  unfolding park
  park_stays stays = ground (arith, awake, stays)

  park_parks :
      (leb seen spinks || ltb runningks (spinks + 1)) ≡ false
      → park voluntary i spinks seen runningks now w
        ≡ some (record {
          sent = some (park_cmd voluntary (runningks - 1) now (timer_state i w));
          runningks = runningks - 1;
          runtime = put i (record (w.kthread i) { parked = true }) w;
        })
  unfolding park
  park_parks parks = ground (arith, awake, parks)

-- Parking never leaves fewer than `spinks` kthreads running, if there were so many. The array of attached
-- kthreads, and which kthreads are detached, stay as they are. A kthread that parks is counted off once, and
-- one that stays sends nothing.
pub park_lem :
    (voluntary : Bool) (i spinks seen runningks now : ℕ) (w : Runtime)
    → IsAttached w
    → (w.kthread i).parked ≡ false
    → spinks ≤ runningks
    → (p : Parking) × (park voluntary i spinks seen runningks now w ≡ some p)
      × (spinks ≤ p.runningks)
      × IsAttached p.runtime
      × ((p.runtime.ks ≡ w.ks)
          × (p.runtime.nrks ≡ w.nrks)
          × ((j : ℕ) → (p.runtime.kthread j).detached ≡ (w.kthread j).detached))
      × ((p.runtime.kthread i).parked ≡ true → p.runningks + 1 ≡ runningks)
      × ((p.runtime.kthread i).parked ≡ false → (p.runningks ≡ runningks) × (p.sent ≡ none))
park_lem voluntary i spinks seen runningks now w a awake h =
    elim (Bool-cases (leb seen spinks || ltb runningks (spinks + 1))) [
      | inl stays ↦ (
        record { sent = none; runningks = runningks; runtime = w },
        park_stays voluntary i spinks seen runningks now w awake stays,
        h,
        a,
        (refl, refl, (λ j. refl)),
        λ q. ground (arith, q, awake),
        λ q. (refl, refl),
      )
      | inr parks ↦ (
        record {
          sent = some (park_cmd voluntary (runningks - 1) now (timer_state i w));
          runningks = runningks - 1;
          runtime = put i (record (w.kthread i) { parked = true }) w;
        },
        park_parks voluntary i spinks seen runningks now w awake parks,
        ground (arith, parks),
        Attached-ext
            (λ j. sym (
              update-field (λ k. k.detached) w.kthread i (record (w.kthread i) { parked = true })
                refl j))
            a,
        (
          refl,
          refl,
          update-field (λ k. k.detached) w.kthread i (record (w.kthread i) { parked = true }) refl,
        ),
        λ q. ground (arith, parks),
        λ q. ground (arith, q),
      )
    ]

module _ (i runningks : ℕ) (w : Runtime) where
  woken-detached : (j : ℕ) → ((woken i w).kthread j).detached ≡ (w.kthread j).detached
  woken-detached j =
      update-field (λ k. k.detached) w.kthread i (record (w.kthread i) { parked = false }) refl j

  woken-parked : ((woken i w).kthread i).parked ≡ false
  woken-parked =
      ap (λ (k : Kthread). k.parked)
        (update_self w.kthread i (record (w.kthread i) { parked = false }))

  woken-Attached : IsAttached w → IsAttached (woken i w)
  woken-Attached a = Attached-ext (λ j. sym (woken-detached j)) a

  unpark-if :
      (b : Bool)
      → (w.kthread i).detached ≡ b
      → unpark i runningks w
        ≡ with_runningks (runningks + 1) (if b then attach i (woken i w) else some (woken i w))
  unfolding unpark
  unpark-if b e =
      ap
        (λ (b : Bool).
          with_runningks (runningks + 1) (if b then attach i (woken i w) else some (woken i w)))
        e

-- A parked kthread that wakes up is attached, whether it was detached meanwhile or not, and counts as
-- running again.
pub unpark_lem :
    (i runningks : ℕ) (w : Runtime)
    → IsAttached w
    → i < w.maxks
    → (w.kthread i).parked ≡ true
    → (w' : Runtime) × (unpark i runningks w ≡ some (runningks + 1, w'))
      × IsAttached w'
      × ((w'.kthread i).parked ≡ false)
      × ((w'.kthread i).detached ≡ false)
unpark_lem i runningks w a h asleep = elim (Bool-cases (w.kthread i).detached) [
  | inl off ↦
      let (w', e, a', _, p, d) =
        attach_lem i (woken i w) (woken-Attached i runningks w a) h (woken-parked i runningks w)
          (woken-detached i runningks w i ∙ off) in
      (w', unpark-if i runningks w true off ∙ ap (with_runningks (runningks + 1)) e, a', p, d)
  | inr on ↦ (
    woken i w,
    unpark-if i runningks w false on,
    woken-Attached i runningks w a,
    woken-parked i runningks w,
    woken-detached i runningks w i ∙ on,
  )
]
