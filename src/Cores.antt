-- ===== src/Cores.antt =====
-- hwalloc/cores.c and hwalloc/defs.h: which core runs which kernel thread of which runtime.
pub mod Dense
pub mod Flags
pub mod Alloc
pub mod Running
pub mod Placed
pub mod Reserve
pub mod Cede
pub mod Picks
pub mod Wanted
pub mod Wake
pub mod Parking
pub mod Offers
pub mod Given
pub mod Adding
pub mod Init
pub mod Setup
pub mod Fresh
pub mod Started
pub mod Adjust
pub mod Congested
pub mod Grant
mod Tests
use libut.Common.{
  ℕ, zero, suc, ◌+◌, ◌-◌, ◌*◌, ◌/◌, ◌%◌, ◌^◌, ◌≤◌, ◌<◌, min, max, bit_and, bit_or, ◌≡◌, refl, sym,
  ap, ap₂, ◌∙◌, fun_ext, ◌≢◌, ◌↔◌, ◌⊎◌, inl, inr, Bool, true, false, not, ◌&&◌, ◌||◌, Option, none,
  some, List, [], ◌∷◌, ◌++◌, map, append-nil, append_assoc, arith, dec_lt, ℕ_discrete, ltb, leb,
  ◌==◌, if◌then◌else◌, ltb→lt, lt→ltb, leb→le, ==_iff, Bool-cases, Option-cases, ◌>>=◌, >>=-some,
  length, get_elem?, take, drop, update, slice, length-append, length-slice, update_self, update_ne,
  get_elem?-snoc, length-take, take_all, get_elem?-append_some, update-field, update-all,
  take-append-drop, ◌≡⟨◌⟩◌, ◌∎,
}
use libut.Common.Words.{add32, sub32}
use libut.Common.Counts.{del}

-- a `struct thread *`; a `struct proc *` is a number as well
abbrev pub Thread : Type 0
Thread = ℕ

-- `NCPU`
abbrev pub ncpu : ℕ
ncpu = 256

-- the index -1 of a thread that is not polled
abbrev pub no_idx : ℕ
no_idx = 2 ^ 32 - 1

-- An array of threads without gaps, in which each thread knows its index: `ts`, `nrts` and `ts_idx`, or
-- the `active_threads`, `active_thread_count` and `at_idx` of a process.
pub record Slots : Type 0 where
  pub slots : ℕ → Thread
  pub count : ℕ
  pub at : Thread → ℕ

-- A thread is stored behind the last one.
unfoldable pub add : Thread → Slots → Slots
add th s = record {
  slots = update s.slots s.count th;
  count = s.count + 1;
  at = update s.at th s.count;
}

-- The last thread takes the place of `th`. There is one, as `th` is in the array.
unfoldable pub remove : Thread → Slots → Slots
remove th s =
    let last : Thread = s.slots (s.count - 1) in
    record {
      slots = update s.slots (s.at th) last;
      count = s.count - 1;
      at = update s.at last (s.at th);
    }

-- `poll_thread`, less the reference that it takes
unfoldable pub poll_thread : Thread → Slots → Slots
poll_thread th ts = if not (ts.at th == no_idx) then ts else add th ts

-- `unpoll_thread`
unfoldable pub unpoll_thread : Thread → Slots → Slots
unpoll_thread th ts =
    if ts.at th == no_idx
    then ts
    else (let ts' : Slots = remove th ts in record ts' { at = update ts'.at th no_idx })

-- `struct proc`, as far as the assignment of cores reads it
pub record Proc : Type 0 where
  pub removed : Bool
  pub overloaded : Bool
  pub bursting : Bool
  pub launched : Bool
  pub pending_timer : Bool
  pub guaranteed_cores : ℕ
  pub thread_count : ℕ
  pub inflight_preempts : ℕ
  pub active : Slots
  pub idle_threads : List Thread

-- The fields of `struct thread`, and the array of those that are polled. `available` holds the bits of
-- `available_threads`, at the thread in place of its number in its process.
pub record Threads : Type 0 where
  pub parked : Thread → Bool
  pub waking : Thread → Bool
  pub reaffinitize : Thread → Bool
  pub available : Thread → Bool
  pub core : Thread → ℕ
  pub ts : Slots

-- `avail_cores` and `core_history`, by the number of the core
pub record Cores : Type 0 where
  pub avail_cores : ℕ → Bool
  pub nr_avail_cores : ℕ
  pub current : ℕ → Option Thread
  pub prev : ℕ → Option Thread
  pub next : ℕ → Option Thread

-- The allocator. `p_of` is the field `p` of a thread, `index` its place in `threads` of its process.
pub record World : Type 0 where
  pub p_of : Thread → ℕ
  pub index : Thread → ℕ
  pub proc : ℕ → Proc
  pub threads : Threads
  pub cores : Cores
  pub overloaded_procs : List ℕ
  pub bursting_procs : List ℕ

-- whether a core waits for a thread, and for another one than `th`
abbrev pub is_other : Thread → Option Thread → Bool
is_other th none = false
is_other th (some n) = not (th == n)

-- `core_reserve`; `none` is a failed assertion or BUG.
unfoldable pub core_reserve : ℕ → Thread → Cores → Option Cores
core_reserve core th c =
    if not (c.avail_cores core)
    then none
    else (if is_other th (c.next core)
        then none
        else some record {
          avail_cores = update c.avail_cores core false;
          nr_avail_cores = sub32 c.nr_avail_cores 1;
          current = update c.current core (some th);
          prev = update c.prev core (c.current core);
          next = update c.next core none;
        })

-- `core_cede`
unfoldable pub core_cede : ℕ → Cores → Option Cores
core_cede core c =
    if c.avail_cores core
    then none
    else some (record c {
      avail_cores = update c.avail_cores core true;
      nr_avail_cores = add32 c.nr_avail_cores 1;
    })

abbrev pub set_proc : ℕ → Proc → World → World
set_proc p q w = record w { proc = update w.proc p q }

-- `proc_set_overloaded`
unfoldable pub proc_set_overloaded : ℕ → World → World
proc_set_overloaded p w =
    if (w.proc p).overloaded
    then w
    else record (set_proc p (record (w.proc p) { overloaded = true }) w) {
      overloaded_procs = p ∷ w.overloaded_procs;
    }

-- `proc_clear_overloaded`
unfoldable pub proc_clear_overloaded : ℕ → World → World
proc_clear_overloaded p w =
    if not (w.proc p).overloaded
    then w
    else record (set_proc p (record (w.proc p) { overloaded = false }) w) {
      overloaded_procs = del p w.overloaded_procs;
    }

-- `proc_set_bursting`
unfoldable pub proc_set_bursting : ℕ → World → World
proc_set_bursting p w =
    if (w.proc p).bursting
    then w
    else record (set_proc p (record (w.proc p) { bursting = true }) w) {
      bursting_procs = p ∷ w.bursting_procs;
    }

-- `proc_clear_bursting`
unfoldable pub proc_clear_bursting : ℕ → World → World
proc_clear_bursting p w =
    if not (w.proc p).bursting
    then w
    else record (set_proc p (record (w.proc p) { bursting = false }) w) {
      bursting_procs = del p w.bursting_procs;
    }

-- what `thread_reserve` and `thread_cede` do to the thread
abbrev pub unparked : Thread → ℕ → Threads → Threads
unparked th core t = record {
  parked = update t.parked th false;
  waking = update t.waking th true;
  reaffinitize = if not (core == t.core th) then update t.reaffinitize th true else t.reaffinitize;
  available = update t.available th false;
  core = update t.core th core;
  ts = poll_thread th t.ts;
}

abbrev pub ceded : Thread → Threads → Threads
ceded th t = record t {
  parked = update t.parked th true;
  available = update t.available th true;
  ts = unpoll_thread th t.ts;
}

-- and to its process
abbrev pub activated : Thread → Proc → Proc
activated th q = record q { active = add th q.active; idle_threads = del th q.idle_threads }

abbrev pub idled : Thread → Proc → Proc
idled th q = record q { active = remove th q.active; idle_threads = th ∷ q.idle_threads }

-- `thread_reserve`
unfoldable pub thread_reserve : Thread → ℕ → World → Option World
thread_reserve th core w =
    let p : ℕ = w.p_of th in
    let q : Proc = activated th (w.proc p) in
    let v : World = record (set_proc p q w) { threads = unparked th core w.threads } in
    if not (w.threads.parked th)
    then none
    else some (
        proc_clear_overloaded p
          (if ltb q.guaranteed_cores q.active.count then proc_set_bursting p v else v))

-- `thread_cede`
unfoldable pub thread_cede : Thread → World → Option World
thread_cede th w =
    let p : ℕ = w.p_of th in
    let q : Proc = idled th (w.proc p) in
    let v : World = record (set_proc p q w) { threads = ceded th w.threads } in
    if w.threads.parked th
    then none
    else some (if q.active.count == q.guaranteed_cores then proc_clear_bursting p v else v)
