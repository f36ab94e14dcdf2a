-- ===== src/Cores/Given.antt =====
-- A core that is given to a thread.
use libut.Common.{
  ℕ, ◌+◌, ◌%◌, ◌^◌, ◌≤◌, ◌<◌, ◌≡◌, refl, sym, ap, ◌∙◌, Bool, true, false, not, Option, none, some,
  if◌then◌else◌, ◌>>=◌, >>=-some, update, update_self, subst,
}
use libut.Cores.{
  World, Thread, Threads, Cores, Proc, set_proc, thread_reserve, unparked, proc_set_overloaded,
  ncpu,
}
use libut.Cores.Alloc.{is_none, add_on, wait_for, wake_kthread_on_core}
use libut.Cores.Dense.{poll-count}
use libut.Cores.Flags.{Marked, marked_store, marked_trans, set_overloaded-Marked}
use libut.Cores.Placed.{exists, IsPlaced, Kept, marked-IsPlaced}
use libut.Cores.Reserve.{thread_reserve_lem}
use libut.Cores.Running.{promised_to, wait-IsRunning}
use libut.Cores.Picks.{IsAssigned, IsReady}
use libut.Cores.Wake.{Kept-exists, marked-exists, with_cores, wake_lem}
use libut.Cores.Offers.{Offered, idle, busy}

-- What giving core `c` to thread `th` comes to: it runs there, or it waits for the thread that does.
pub data Added (w v : World) (th : Thread) (c : ℕ) : Type 0 where
  runs : w.cores.avail_cores c ≡ true → v.cores.current c ≡ some th → Added w v th c
  waits :
      w.cores.avail_cores c ≡ false
      → w.cores.next c ≡ none
      → v.cores.current c ≡ w.cores.current c
      → v.cores.next c ≡ some th
      → Added w v th c

module _ (pinned : Bool) (th : Thread) (c n : ℕ) (w : World) (s : IsAssigned w n)
    (ready : IsReady w th) (room : w.threads.ts.count < ncpu) where
  available_lem : w.threads.available th ≡ true
  available_lem = s.placed.available th ready.0 ∙ ready.1

  -- The core is busy, and runs `on_it`.
  module _ (on_it : Thread) (taken : w.cores.avail_cores c ≡ false)
      (cur : w.cores.current c ≡ some on_it) (alone : w.cores.next c ≡ none) (v : World)
      (step : thread_reserve th c w ≡ some v) (pl : IsPlaced v)
      (kept : Kept w v (unparked th c w.threads)) where
    abbrev marked : World
    marked =
        let u : World = proc_set_overloaded (v.p_of on_it) v in
        let q : Proc = u.proc (v.p_of on_it) in
        set_proc (v.p_of on_it)
          (record q { inflight_preempts = (q.inflight_preempts + 1) % 2 ^ 32 }) u

    marked_lem : Marked v marked
    marked_lem = marked_trans (set_overloaded-Marked (v.p_of on_it) v) (
        marked_store (proc_set_overloaded (v.p_of on_it) v) (v.p_of on_it) _
          record { active = refl; idle = refl; size = refl; gone = refl })

    abbrev waiting_cores : Cores
    waiting_cores = record marked.cores { next = update marked.cores.next c (some th) }

    abbrev waiting_world : World
    waiting_world = record marked { cores = waiting_cores }

    cores_same :
        waiting_cores
        ≡ promised_to
            (exists w)
            w.threads.parked
            w.threads.core
            w.cores
            n
            s.running
            c
            on_it
            taken
            cur
            th
            alone
            ready.0
            ready.1
    cores_same =
        ap (λ (k : Cores). record k { next = update k.next c (some th) })
          (marked_lem.cores ∙ kept.cores)

    wait_lem : wait_for th c (v.cores.current c) v ≡ some waiting_world
    wait_lem =
        ap (λ (o : Option Thread). wait_for th c o v)
          (ap (λ (k : Cores). k.current c) kept.cores ∙ cur)
        ∙ ap (λ (o : Option Thread). if not (is_none o) then none else some waiting_world)
            (ap (λ (k : Cores). k.next c) kept.cores ∙ alone)

    waiting-IsAssigned : IsAssigned waiting_world n
    waiting-IsAssigned = record {
      placed = with_cores marked waiting_cores (marked-IsPlaced marked_lem pl);
      running =
          rw
            (
              cores_same,
              marked-exists marked_lem,
              Kept-exists kept,
              marked_lem.threads,
              kept.threads,
            )
            (wait-IsRunning (exists w) w.threads.parked w.threads.core w.cores n s.running c on_it
              taken cur th alone ready.0 ready.1);
    }

  abbrev on_core : Option World
  on_core =
      if w.cores.avail_cores c
      then wake_kthread_on_core pinned th c w
      else (thread_reserve th c w >>= λ v. wait_for th c (v.cores.current c) v)

  add_steps : (v : World) → on_core ≡ some v → add_on pinned c (some th, w) ≡ some (some th, v)
  add_steps v e =
      ap (λ (b : Bool). if not b then none else (on_core >>= λ v. some (some th, v))) available_lem
      ∙ >>=-some (λ (v : World). some (some th, v)) e

  pub add_on_lem :
      Offered w c
      → (v : World) × (add_on pinned c (some th, w) ≡ some (some th, v))
        × IsAssigned v n
        × Added w v th c
        × (v.threads.parked ≡ update w.threads.parked th false)
        × (v.threads.ts.count ≤ w.threads.ts.count + 1)
  add_on_lem (idle free) =
      let (v, e, a, on, changed, crowd) = wake_lem pinned th c n w s ready free room in
      (
        v,
        add_steps v (
            ap
              (λ (b : Bool).
                if b
                then wake_kthread_on_core pinned th c w
                else (thread_reserve th c w >>= λ v. wait_for th c (v.cores.current c) v))
              free
            ∙ e),
        a,
        runs free on,
        changed,
        crowd,
      )
  add_on_lem (busy on_it taken cur alone) =
      let (v, step, pl, kept) = thread_reserve_lem th c w s.placed ready.0 ready.1 room in
      let end : World = waiting_world on_it taken cur alone v step pl kept in
      let same = cores_same on_it taken cur alone v step pl kept in
      (
        end,
        add_steps end (
            ap
              (λ (b : Bool).
                if b
                then wake_kthread_on_core pinned th c w
                else (thread_reserve th c w >>= λ v. wait_for th c (v.cores.current c) v))
              taken
            ∙ >>=-some _ step
            ∙ wait_lem on_it taken cur alone v step pl kept),
        waiting-IsAssigned on_it taken cur alone v step pl kept,
        waits taken alone (ap (λ (k : Cores). k.current c) same)
            (ap (λ (k : Cores). k.next c) same ∙ update_self w.cores.next c (some th)),
        ap (λ (t : Threads). t.parked)
            ((marked_lem on_it taken cur alone v step pl kept).threads ∙ kept.threads),
        subst (λ (t : Threads). t.ts.count ≤ w.threads.ts.count + 1)
            (sym ((marked_lem on_it taken cur alone v step pl kept).threads ∙ kept.threads))
            (poll-count th w.threads.ts),
      )
