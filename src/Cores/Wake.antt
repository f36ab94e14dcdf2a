-- ===== src/Cores/Wake.antt =====
-- A thread that is woken on an available core.
use libut.Common.{
  ℕ, ◌+◌, ◌≤◌, ◌<◌, ◌≡◌, refl, sym, ap, ◌∙◌, fun_ext, inl, inr, Bool, true, false, none, some,
  arith, if◌then◌else◌, Option-cases, >>=-some, update, update_self, subst,
}
use libut.Cores.{
  World, Thread, Threads, Cores, core_reserve, is_other, thread_reserve, unparked, ncpu,
}
use libut.Cores.Alloc.{wake_kthread_on_core, pin}
use libut.Cores.Dense.{poll-count}
use libut.Cores.Flags.{Marked}
use libut.Cores.Placed.{exists, IsPlaced, Kept, marked-IsPlaced}
use libut.Cores.Reserve.{thread_reserve_lem}
use libut.Cores.Running.{started, start-IsRunning}
use libut.Cores.Picks.{IsAssigned, IsReady}

-- Which threads there are does not change.
pub Kept-exists : {w v : World} {t : Threads} → Kept w v t → exists v ≡ exists w
Kept-exists {w} {v} k = fun_ext (λ x. rw (k.p_of, k.index, k.size (w.p_of x)) refl)

pub marked-exists : {w v : World} → Marked w v → exists v ≡ exists w
marked-exists {w} {v} m = fun_ext (λ x. rw (m.p_of, m.index, (m.proc (w.p_of x)).size) refl)

pub marked-IsAssigned : {w v : World} {n : ℕ} → Marked w v → IsAssigned w n → IsAssigned v n
marked-IsAssigned {w} {v} {n} m s = record {
  placed = marked-IsPlaced m s.placed;
  running = rw (m.threads, m.cores, marked-exists m) s.running;
}

-- The cores, and what is pinned, are not part of where threads are.
pub with_cores : (w : World) (c : Cores) → IsPlaced w → IsPlaced (record w { cores = c })
with_cores w c s = record {
  dense = s.dense;
  polls = s.polls;
  total = s.total;
  small = s.small;
  idle = s.idle;
  active = s.active;
  polled = s.polled;
  available = s.available;
}

pub pinned-IsAssigned :
    (b : Bool) (th : Thread) (w : World) (n : ℕ) → IsAssigned w n → IsAssigned (pin b th w) n
pinned-IsAssigned b th w n s = record {
  placed = record {
    dense = s.placed.dense;
    polls = s.placed.polls;
    total = s.placed.total;
    small = s.placed.small;
    idle = s.placed.idle;
    active = s.placed.active;
    polled = s.placed.polled;
    available = s.placed.available;
  };
  running = s.running;
}

-- An available core is promised to no thread.
pub free_alone :
    (w : World) (n c : ℕ) → IsAssigned w n → w.cores.avail_cores c ≡ true → w.cores.next c ≡ none
free_alone w n c s free = elim (Option-cases (w.cores.next c)) [
  | inl e ↦ e
  | inr (m, e) ↦ absurd (ground (arith, s.running.waits c m e, free))
]

module _ (pinned : Bool) (th : Thread) (c n : ℕ) (w : World) (s : IsAssigned w n)
    (ready : IsReady w th) (free : w.cores.avail_cores c ≡ true)
    (room : w.threads.ts.count < ncpu) where
  alone : w.cores.next c ≡ none
  alone = free_alone w n c s free

  abbrev after : Cores
  after =
      started (exists w) w.threads.parked w.threads.core w.cores n s.running c th free alone ready.0
        ready.1

  reserve_lem : core_reserve c th w.cores ≡ some after
  unfolding core_reserve
  reserve_lem = rw (free, ap (is_other th) alone) refl

  abbrev reserved : World
  reserved = record w { cores = after }

  wake_steps :
      (v : World)
      → thread_reserve th c reserved ≡ some v
      → wake_kthread_on_core pinned th c w ≡ some (pin pinned th v)
  unfolding wake_kthread_on_core
  wake_steps v e = >>=-some _ reserve_lem ∙ >>=-some (λ (v : World). some (pin pinned th v)) placed
    where
      placed :
          (if w.threads.parked th then thread_reserve th c reserved else some reserved) ≡ some v
      placed = ground (arith, ready.1, e)

  woken : (v : World) → IsPlaced v → Kept reserved v (unparked th c w.threads) → IsAssigned v n
  woken v pl kept = record {
    placed = pl;
    running =
        rw (Kept-exists kept, kept.threads, kept.cores)
          (start-IsRunning (exists w) w.threads.parked w.threads.core w.cores n s.running c th free
            alone ready.0 ready.1);
  }

  -- The thread then runs on the core.
  pub wake_lem :
      (v : World) × (wake_kthread_on_core pinned th c w ≡ some v)
      × IsAssigned v n
      × (v.cores.current c ≡ some th)
      × (v.threads.parked ≡ update w.threads.parked th false)
      × (v.threads.ts.count ≤ w.threads.ts.count + 1)
  wake_lem =
      let (v, e, pl, kept) =
        thread_reserve_lem th c reserved (with_cores w after s.placed) ready.0 ready.1 room in
      (
        pin pinned th v,
        wake_steps v e,
        pinned-IsAssigned pinned th v n (woken v pl kept),
        ap (λ (k : Cores). k.current c) kept.cores ∙ update_self w.cores.current c (some th),
        ap (λ (t : Threads). t.parked) kept.threads,
        subst (λ (t : Threads). t.ts.count ≤ w.threads.ts.count + 1) (sym kept.threads)
            (poll-count th w.threads.ts),
      )
