-- ===== src/Timer/Start.antt =====
-- The invariant of a kthread's timers, and that `timer_start_locked` keeps it.
use libut.Common.{
  ℕ, ◌+◌, ◌<◌, ◌≡◌, sym, ap, ap₂, ◌∙◌, ◌≢◌, true, false, some, arith, dec_lt, update, update_self,
}
use mathlib.Core.Path.{subst}
use libut.Common.Totals.{total, total-suc, total-ext}
use libut.Timer.{TimerIdx, TimerEntry, State, max_timers, sift_up, start_locked}
use libut.Timer.Kept.{Linked, Kept-field}
use libut.Timer.Order.{HeapFrom}
use libut.Timer.Up.{UpInv, Sifted, sift_up-Sifted}

-- The timers of kthread `k` are a heap, and their entries are armed and lead back to them.
pub record IsValid (k : ℕ) (s : State) : Type 0 where
  pub small : s.timern < max_timers
  pub order : HeapFrom 0 s.timern s
  pub linked : Linked s.timern s
  pub home : (j : ℕ) → j < s.timern → (s.entry (s.timers j).e).localk ≡ k
  pub armed : (j : ℕ) → j < s.timern → (s.entry (s.timers j).e).armed ≡ true

-- the sum of a weight over the pending timers
abbrev pub pending : State → (TimerIdx → ℕ) → ℕ
pending s w = total w s.timers s.timern

module _ (k : ℕ) (s : State) (e d : ℕ) (v : IsValid k s) (idle : (s.entry e).armed ≡ false) where
  -- the state before the sift
  abbrev queued : State
  queued = record {
    timern = s.timern + 1;
    timers = update s.timers s.timern (record { deadline_us = d; e = e });
    entry = update s.entry e (record (s.entry e) { idx = s.timern; localk = k });
  }

  -- An entry that is not armed is in no slot.
  absent : (j : ℕ) → j < s.timern → (s.timers j).e ≢ e
  absent j h q = ground (arith, v.armed j h, idle, ap (λ (x : ℕ). (s.entry x).armed) q)

  queued-Linked : Linked (s.timern + 1) queued
  queued-Linked j h = elim (dec_lt j s.timern) [
    | yes old ↦ ground (arith, v.linked j old, absent j old)
    | no new ↦ ground arith
  ]

  queued-UpInv : UpInv (s.timern + 1) queued s.timern
  queued-UpInv = record {
    inside = omega arith;
    edges = λ c p q ne. ground (arith, v.order c p);
    bridged = λ c p q r. absurd (omega arith);
  }

  sifted : Sifted 0 (s.timern + 1) queued (sift_up queued s.timern)
  sifted = sift_up-Sifted (s.timern + 1) queued s.timern queued-Linked queued-UpInv

  abbrev started : State
  started = record (sift_up queued s.timern) {
    entry =
        update (sift_up queued s.timern).entry e
          (record ((sift_up queued s.timern).entry e) { armed = true });
  }

  started-Linked : Linked (s.timern + 1) started
  started-Linked j h = ground (arith, sifted.kept.linked j h)

  queued-home : (j : ℕ) → j < s.timern + 1 → (queued.entry (queued.timers j).e).localk ≡ k
  queued-home j h = ground (arith, v.home j)

  sifted-home :
      (j : ℕ)
      → j < s.timern + 1
      → ((sift_up queued s.timern).entry ((sift_up queued s.timern).timers j).e).localk ≡ k
  sifted-home = Kept-field (λ (t : TimerEntry). t.localk) k sifted.kept queued-home

  started-home : (j : ℕ) → j < s.timern + 1 → (started.entry (started.timers j).e).localk ≡ k
  started-home j h = ground (arith, sifted-home j h)

  started-armed : (j : ℕ) → j < s.timern + 1 → (started.entry (started.timers j).e).armed ≡ true
  started-armed j h =
      let (i, hi, q) = sifted.kept.origin j h in
      ground (
        arith,
        q,
        v.armed i,
        ap (λ (t : TimerEntry). t.armed)
            (sifted.kept.fields ((sift_up queued s.timern).timers j).e),
      )

  started-total :
      (w : TimerIdx → ℕ)
      → total w started.timers (s.timern + 1) ≡ pending s w + w (record { deadline_us = d; e = e })
  started-total w =
      sifted.kept.same w
      ∙ total-suc w queued.timers s.timern
      ∙ ap₂ ◌+◌ (total-ext w s.timern queued.timers s.timers (λ i lt. ground arith))
          (ap w (update_self s.timers s.timern (record { deadline_us = d; e = e })))

  started-IsValid : s.timern + 1 < max_timers → IsValid k started
  started-IsValid room = record {
    small = subst (λ (n : ℕ). n < max_timers) (sym sifted.kept.size) room;
    order = subst (λ (n : ℕ). HeapFrom 0 n started) (sym sifted.kept.size) sifted.order;
    linked = subst (λ (n : ℕ). Linked n started) (sym sifted.kept.size) started-Linked;
    home = λ j h. started-home j (subst (λ (n : ℕ). j < n) sifted.kept.size h);
    armed = λ j h. started-armed j (subst (λ (n : ℕ). j < n) sifted.kept.size h);
  }

  -- Arming a timer that is not armed, while there is room, leaves the timers valid, with that timer
  -- and its deadline beside the ones that were pending, and with its entry armed.
  pub start_lem :
      s.timern + 1 < max_timers
      → (s' : State) × (start_locked k s e d ≡ some s')
        × IsValid k s'
        × ((w : TimerIdx → ℕ) → pending s' w ≡ pending s w + w (record { deadline_us = d; e = e }))
        × ((s'.entry e).armed ≡ true)
  unfolding start_locked
  start_lem room = (
    started,
    ground (arith, idle),
    started-IsValid room,
    λ w. ap (total w started.timers) sifted.kept.size ∙ started-total w,
    ground arith,
  )
