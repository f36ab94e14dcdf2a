-- ===== src/Cores/Alloc.antt =====
-- hwalloc/cores.c: cores and threads that are picked for each other, and given and taken.
use libut.Common.{
  ℕ, zero, suc, ◌+◌, Bool, true, false, not, ◌&&◌, ◌||◌, Option, none, some, ltb, ◌==◌,
  if◌then◌else◌, ◌>>=◌, update,
}
use libut.Common.Words.{add32, sub32}
use libut.Common.Counts.{list_top, list_tail}
use libut.Cores.{
  World, Thread, Proc, set_proc, core_reserve, core_cede, thread_reserve, thread_cede,
  proc_set_overloaded, ncpu,
}

abbrev pub or_else : Option ℕ → Option ℕ → Option ℕ
or_else (some x) other = some x
or_else none other = other

-- A thread that ran on a core before, if it is of process `p` and parked.
unfoldable pub recent : ℕ → World → Option Thread → Option Thread
recent p w none = none
recent p w (some th) = if (w.p_of th == p) && w.threads.parked th then some th else none

-- `pick_thread_for_proc`
unfoldable pub pick_thread_for_proc : ℕ → ℕ → World → Option Thread × World
pick_thread_for_proc p core w =
    let q : Proc = w.proc p in
    let top : Option Thread = list_top q.idle_threads in
    if q.launched
    then (top, set_proc p (record q { launched = false }) w)
    else (if q.overloaded && (q.active.count == 0) then (top, w) else (
      or_else (recent p w (w.cores.current core))
          (or_else (recent p w (w.cores.prev core)) (list_tail q.idle_threads)),
      w,
    ))

-- The first number from `i` on, of `count`, that has the property.
unfoldable pub lowest : (ℕ → Bool) → ℕ → ℕ → Option ℕ
lowest f i zero = none
lowest f i (suc count) =
    let rest : Option ℕ = lowest f (i + 1) count in if f i then some i else rest

abbrev pub is_none {ℓ} : {A : Type ℓ} → Option A → Bool
is_none none = true
is_none (some a) = false

-- whether the process of a thread is using more cores than it has reserved
abbrev pub is_bursting : World → Option Thread → Bool
is_bursting w none = false
is_bursting w (some th) = (w.proc (w.p_of th)).bursting

-- a test of the last loop of `pick_core_for_proc`
abbrev pub can_preempt : World → ℕ → Bool
can_preempt w i = is_bursting w (w.cores.current i) && is_none (w.cores.next i)

-- `pick_core_for_proc` from the lowest available core on; `none` is BUG.
unfoldable pub pick_any_core : ℕ → World → Option ℕ
pick_any_core cpu_count w =
    or_else (lowest w.cores.avail_cores 0 cpu_count) (lowest (can_preempt w) 0 cpu_count)

-- The core that a thread of `p` ran on is busy, and runs `current`. `none` is BUG, or a null pointer.
unfoldable pub pick_busy_core : ℕ → ℕ → ℕ → Option Thread → World → Option ℕ
pick_busy_core cpu_count p core none w = none
pick_busy_core cpu_count p core (some th) w =
    if not (w.p_of th == p) && (w.proc (w.p_of th)).bursting
    then some core
    else pick_any_core cpu_count w

unfoldable pub pick_core_from : ℕ → ℕ → Option Thread → World → Option ℕ
pick_core_from cpu_count p none w = none
pick_core_from cpu_count p (some t) w =
    let core : ℕ = w.threads.core t in
    if w.cores.avail_cores core
    then some core
    else (if (w.cores.nr_avail_cores == 0) && is_none (w.cores.next core)
        then pick_busy_core cpu_count p core (w.cores.current core) w
        else pick_any_core cpu_count w)

-- `pick_core_for_proc`, without hyperthreads
unfoldable pub pick_core_for_proc : ℕ → ℕ → World → Option ℕ
pick_core_for_proc cpu_count p w = pick_core_from cpu_count p (list_top (w.proc p).idle_threads) w

-- The process of a thread, if it still is there and wants more cores.
abbrev pub wanting : World → Option Thread → Option ℕ
wanting w none = none
wanting w (some th) =
    let q : Proc = w.proc (w.p_of th) in
    if not q.removed && q.overloaded then some (w.p_of th) else none

abbrev pub pick_thread_if : ℕ → World → Option ℕ → Option Thread × World
pick_thread_if core w none = (none, w)
pick_thread_if core w (some p) = pick_thread_for_proc p core w

-- `top` is the first overloaded process, if there is one.
abbrev pub pick_top : ℕ → World → Option ℕ → Option Thread × World
pick_top core w none = (none, w)
pick_top core w (some top) = pick_thread_if core w (
    or_else (wanting w (w.cores.current core)) (or_else (wanting w (w.cores.prev core)) (some top)))

-- `pick_thread_for_core` when no thread waits for the core
unfoldable pub pick_overloaded : ℕ → World → Option Thread × World
pick_overloaded core w = pick_top core w (list_top w.overloaded_procs)

-- `inflight_preempts` one less, of the process of a thread
abbrev pub preempted : Thread → World → World
preempted th w =
    let q : Proc = w.proc (w.p_of th) in
    set_proc (w.p_of th) (record q { inflight_preempts = sub32 q.inflight_preempts 1 }) w

abbrev pub pick_waiting : Thread → Option Thread → World → Option (Option Thread × World)
pick_waiting n none w = none
pick_waiting n (some th) w = some (some n, preempted th w)

abbrev pub pick_for : ℕ → Option Thread → World → Option (Option Thread × World)
pick_for core none w = some (pick_overloaded core w)
pick_for core (some n) w =
    if not (w.proc (w.p_of n)).removed
    then pick_waiting n (w.cores.current core) w
    else some (pick_overloaded core w)

-- `pick_thread_for_core`, without hyperthreads; `none` is a null pointer.
unfoldable pub pick_thread_for_core : ℕ → World → Option (Option Thread × World)
pick_thread_for_core core w = pick_for core (w.cores.next core) w

-- the pinning in `wake_kthread_on_core`; `pinned` tells whether the system did it.
abbrev pub pin : Bool → Thread → World → World
pin pinned th w = record w {
  threads = record w.threads {
    reaffinitize = update w.threads.reaffinitize th (w.threads.reaffinitize th && not pinned);
  };
}

-- `wake_kthread_on_core`, less the write that wakes it; `none` is BUG or a failed assertion.
unfoldable pub wake_kthread_on_core : Bool → Thread → ℕ → World → Option World
wake_kthread_on_core pinned th core w = core_reserve core th w.cores >>= λ c.
    (if w.threads.parked th
      then thread_reserve th core (record w { cores = c })
      else some (record w { cores = c }))
    >>= λ v. some (pin pinned th v)

abbrev pub wake_picked : Bool → ℕ → Option Thread × World → Option World
wake_picked pinned core (none, w) = some w
wake_picked pinned core (some th, w) = wake_kthread_on_core pinned th core w

-- `cores_park_kthread` from the point where core and thread are given back
unfoldable pub give_back : Bool → Thread → ℕ → World → Option World
give_back pinned th core w = core_cede core w.cores >>= λ c.
    thread_cede th (record w { cores = c }) >>= λ v.
    pick_thread_for_core core v >>= λ picked. wake_picked pinned core picked

abbrev pub stays_parked : Option World → Option (Bool × World)
stays_parked none = none
stays_parked (some w) = some (true, w)

-- `cores_park_kthread`. `in_flight` tells whether the thread's channel still holds commands; it is then
-- woken again. `none` is BUG or a failed assertion.
unfoldable pub cores_park_kthread : Bool → Bool → Thread → Bool → World → Option (Bool × World)
cores_park_kthread pinned in_flight th force w =
    let core : ℕ = w.threads.core th in
    if not (ltb (w.index th) ncpu) || w.cores.avail_cores core || w.threads.available th
    then none
    else (if is_none (w.cores.next core) && not force && in_flight
        then some (false, w)
        else stays_parked (give_back pinned th core w))

-- The end of `cores_add_core`, on a core that runs `current`.
abbrev pub wait_for : Thread → ℕ → Option Thread → World → Option World
wait_for th core none w = none
wait_for th core (some current) w =
    let v : World = proc_set_overloaded (w.p_of current) w in
    let q : Proc = v.proc (w.p_of current) in
    let u : World =
      set_proc (w.p_of current) (record q { inflight_preempts = add32 q.inflight_preempts 1 }) v in
    if not (is_none (w.cores.next core))
    then none
    else some (record u { cores = record u.cores { next = update u.cores.next core (some th) } })

-- `cores_add_core` on `core`, once it has picked a thread
abbrev pub add_on : Bool → ℕ → Option Thread × World → Option (Option Thread × World)
add_on pinned core (none, w) = none
add_on pinned core (some th, w) =
    if not (w.threads.available th)
    then none
    else ((if w.cores.avail_cores core
          then wake_kthread_on_core pinned th core w
          else (thread_reserve th core w >>= λ v. wait_for th core (v.cores.current core) v))
        >>= λ v. some (some th, v))

-- `cores_add_core` once it has picked a core
abbrev pub pick_both : Bool → ℕ → Option ℕ → World → Option (Option Thread × World)
pick_both pinned p none w = none
pick_both pinned p (some core) w = add_on pinned core (pick_thread_for_proc p core w)

-- `cores_add_core`, less the signal to the thread that is preempted
unfoldable pub cores_add_core : Bool → ℕ → ℕ → World → Option (Option Thread × World)
cores_add_core pinned cpu_count p w =
    let v : World = set_proc p (record (w.proc p) { pending_timer = false }) w in
    if (w.proc p).active.count == (w.proc p).thread_count
    then some (none, w)
    else pick_both pinned p (pick_core_for_proc cpu_count p v) v
