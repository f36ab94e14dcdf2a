-- ===== src/Kthread/Timely.antt =====
-- The timers of all kthreads together.
use mathlib.Core.Path.{subst}
use libut.Common.{ℕ, ◌+◌, ◌≤◌, ◌<◌, ◌≡◌, sym, ap, ap₂, ◌∙◌, ◌≢◌, arith, update, update_ne}
use libut.Common.Totals.{total, total-update, total-ge}
use libut.Timer.{TimerIdx, TimerEntry, State, max_timers}
use libut.Timer.Start.{IsValid}
use libut.Kthread.{Kthread, Runtime, timer_state}

abbrev pub timern_of : Kthread → ℕ
timern_of k = k.timern

-- the sum of a weight over the pending timers of a kthread, and of all kthreads
abbrev pub timers_of : (TimerIdx → ℕ) → Kthread → ℕ
timers_of f k = total f k.timers k.timern

abbrev pub all_timers : (TimerIdx → ℕ) → Runtime → ℕ
all_timers f w = total (timers_of f) w.kthread w.maxks

-- Each kthread has a valid heap, and one heap has room for all timers of the program.
pub record IsTimely (w : Runtime) : Type 0 where
  pub valid : (j : ℕ) → j < w.maxks → IsValid j (timer_state j w)
  pub room : total timern_of w.kthread w.maxks < max_timers

-- A heap stays valid while the entries of its timers do not change.
pub IsValid-ext :
    (j : ℕ) (s t : State)
    → t.timers ≡ s.timers
    → t.timern ≡ s.timern
    → ((p : ℕ) → p < s.timern → t.entry (s.timers p).e ≡ s.entry (s.timers p).e)
    → IsValid j s
    → IsValid j t
IsValid-ext j s t same size kept v = subst (IsValid j) whole (record {
  small = v.small;
  order = v.order;
  linked = λ p h. ap (λ (e : TimerEntry). e.idx) (kept p h) ∙ v.linked p h;
  home = λ p h. ap (λ (e : TimerEntry). e.localk) (kept p h) ∙ v.home p h;
  armed = λ p h. ap (λ (e : TimerEntry). e.armed) (kept p h) ∙ v.armed p h;
})
  where
    whole : record s { entry = t.entry } ≡ t
    whole = ap₂ (λ f (n : ℕ). record t { timers = f; timern = n }) (sym same) (sym size)

-- A heap without timers is valid.
pub IsValid-empty : (j : ℕ) (s : State) → s.timern ≡ 0 → IsValid j s
IsValid-empty j s e = record {
  small = omega (arith, e);
  order = λ c p h. absurd (omega (arith, e));
  linked = λ p h. absurd (omega (arith, e));
  home = λ p h. absurd (omega (arith, e));
  armed = λ p h. absurd (omega (arith, e));
}

-- Two kthreads have no more timers than there are.
pub pair-le :
    (kt : ℕ → Kthread) (m i r : ℕ)
    → i < m
    → r < m
    → r ≢ i
    → (kt i).timern + (kt r).timern ≤ total timern_of kt m
pair-le kt m i r hi hr ne =
    let none : Kthread = record (kt r) { timern = 0 } in
    omega (
      arith,
      total-update timern_of m kt r none hr,
      total-ge timern_of m (update kt r none) i hi,
      ap timern_of (update_ne kt r i none ne),
    )
