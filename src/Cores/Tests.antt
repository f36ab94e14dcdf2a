-- ===== src/Cores/Tests.antt =====
-- Runs of the core allocator.
use libut.Common.{
  ◌&&◌, ℕ, ◌+◌, ◌<◌, ◌≡◌, refl, ◌≢◌, inl, Bool, true, false, not, ◌||◌, none, some, [], ◌∷◌, arith,
  ltb, ◌==◌, if◌then◌else◌,
}
use libut.Common.Totals.{total}
use libut.Cores.{
  World, Thread, Proc, no_idx, thread_cede, core_reserve, core_cede, proc_clear_bursting,
  unpoll_thread, remove,
}
use libut.Cores.Alloc.{
  cores_park_kthread, cores_add_core, give_back, pick_thread_for_core, pick_overloaded,
  wake_kthread_on_core, pick_thread_for_proc,
}
use libut.Cores.Adjust.{Reading, Watch, cores_is_proc_congested, grant}
use libut.Cores.Init.{cores_init_proc}
use libut.Cores.Placed.{IsPlaced}
use libut.Cores.Picks.{IsAssigned}
use libut.Cores.Parking.{Parked, cores_park_kthread_lem}
use libut.Cores.Offers.{IsCandidate}
use libut.Cores.Adding.{Grown, cores_add_core_lem}
use libut.Cores.Started.{cores_init_proc_lem}
use libut.Cores.Congested.{before, any, is_behind, cores_is_proc_congested_lem}
use libut.Cores.Grant.{Awake, grant_lem}

abbrev at_first : Thread → ℕ
at_first x = if x == 0 then 0 else no_idx

abbrev no_proc : Proc
no_proc = record {
  removed = false;
  overloaded = false;
  bursting = false;
  launched = false;
  pending_timer = false;
  guaranteed_cores = 1;
  thread_count = 0;
  inflight_preempts = 0;
  active = record { slots = λ i. 0; count = 0; at = λ x. no_idx };
  idle_threads = [];
}

-- a process of two threads, of which thread 0 runs
abbrev one_proc : Proc
one_proc = record no_proc {
  thread_count = 2;
  active = record { slots = λ i. 0; count = 1; at = at_first };
  idle_threads = 1 ∷ [];
}

-- two cores, of which core 0 is busy
abbrev sample : World
sample = record {
  p_of = λ x. if ltb x 2 then 0 else 1;
  index = λ x. x;
  proc = λ q. if q == 0 then one_proc else no_proc;
  threads = record {
    parked = λ x. not (x == 0);
    waking = λ x. false;
    reaffinitize = λ x. false;
    available = λ x. not (x == 0);
    core = λ x. 0;
    ts = record { slots = λ i. 0; count = 1; at = at_first };
  };
  cores = record {
    avail_cores = λ c. c == 1;
    nr_avail_cores = 1;
    current = λ c. if c == 0 then some 0 else none;
    prev = λ c. none;
    next = λ c. none;
  };
  overloaded_procs = [];
  bursting_procs = [];
}

sample-IsPlaced : IsPlaced sample
sample-IsPlaced = record {
  dense = λ q. record { fits = ground arith; knows = λ i lt. ground (arith, lt) };
  polls = record {
    dense = record { fits = ground arith; knows = λ i lt. ground (arith, lt) };
    lost = λ x h. ground (arith, h);
  };
  total = λ q. ground arith;
  small = λ q. ground arith;
  idle = λ q x. ground arith;
  active = λ q x. ground arith;
  polled = λ x. ground arith;
  available = λ x h. refl;
}

sample-IsAssigned : IsAssigned sample 2
unfolding total
sample-IsAssigned = record {
  placed = sample-IsPlaced;
  running = record {
    few = omega arith;
    counted = refl;
    outside = λ c ge. ground (arith, ge);
    runs = λ c x a b. ground (arith, a, b);
    waits = λ c x a. absurd (cc);
    has_core = λ x a b. ground (arith, a, b);
    homed = λ x a. ground (arith, a);
    known = λ c x a. ground (arith, a);
  };
}

-- the same cores, with no process
abbrev empty : World
empty = record sample {
  proc = λ q. no_proc;
  threads = record sample.threads {
    parked = λ x. true;
    available = λ x. true;
    ts = record { slots = λ i. 0; count = 0; at = λ x. no_idx };
  };
  cores = record sample.cores {
    avail_cores = λ c. ltb c 2;
    nr_avail_cores = 2;
    current = λ c. none;
  };
}

empty-IsAssigned : IsAssigned empty 2
unfolding total
empty-IsAssigned = record {
  placed = record {
    dense = λ q. record { fits = ground arith; knows = λ i lt. absurd (omega (arith, lt)) };
    polls = record {
      dense = record { fits = ground arith; knows = λ i lt. absurd (omega (arith, lt)) };
      lost = λ x h. refl;
    };
    total = λ q. refl;
    small = λ q. omega arith;
    idle = λ q x. ground arith;
    active = λ q x. ground arith;
    polled = λ x. ground arith;
    available = λ x h. refl;
  };
  running = record {
    few = omega arith;
    counted = refl;
    outside = λ c ge. ground (arith, ge);
    runs = λ c x a b. absurd (cc);
    waits = λ c x a. absurd (cc);
    has_core = λ x a b. absurd (ground (arith, b));
    homed = λ x a. ground (arith);
    known = λ c x a. ground (arith, a);
  };
}

core_1 : IsCandidate sample 2 1
core_1 = record { below = omega arith; fit = refl }

cores_park_kthread_lem_example :
    (v : World) × (cores_park_kthread true false 0 false sample ≡ some (true, v))
    × IsAssigned v 2
    × Parked sample v 0 0 true
cores_park_kthread_lem_example =
    cores_park_kthread_lem true 0 0 2 sample sample-IsAssigned
      record { there = refl; awake = refl; here = refl; current = refl } false false
      (λ m e. absurd (cc))

cores_add_core_lem_example :
    ((sample.proc 0).active.count ≡ (sample.proc 0).thread_count
      → cores_add_core true 2 0 sample ≡ some (none, sample))
    × ((sample.proc 0).active.count ≢ (sample.proc 0).thread_count
        → (th : Thread) × (v : World) × (cores_add_core true 2 0 sample ≡ some (some th, v))
          × Grown sample v 0 2 th)
cores_add_core_lem_example =
    cores_add_core_lem true 2 0 sample sample-IsAssigned (omega arith) 1 core_1

grant_lem_example :
    (v : World) × (grant true 2 (0 ∷ []) sample ≡ some v) × IsAssigned v 2 × Awake sample v
grant_lem_example = grant_lem true 2 (0 ∷ []) sample sample-IsAssigned (omega arith)

abbrev is_pair : Thread → Bool
is_pair x = ltb x 2

cores_init_proc_lem_example :
    (u : World) × (cores_init_proc true 2 0 0 1 (0 ∷ 1 ∷ []) empty ≡ some (some 0, u))
    × IsAssigned u 2
    × (u.threads.parked 0 ≡ false)
    × ((x : Thread)
        → ltb 0 ((if 0 == x then 1 else 0) + ((if 1 == x then 1 else 0) + 0)) ≡ true
        → x ≢ 0
        → u.threads.parked x ≡ true)
cores_init_proc_lem_example =
    cores_init_proc_lem true 0 0 1 2 0 (1 ∷ []) empty empty-IsAssigned (λ x h. ground (arith))
      (λ x h. ground (arith, h)) (λ x. ground arith) (omega arith) (inl refl) (omega arith) 0
      record { below = omega arith; fit = refl }

-- Thread 0 had something to do that it has not done.
abbrev all_stuck : Thread → Reading
all_stuck x = record { rq_tail = 5; rq_head = 9; rxq_tail = 0; rxq_head = 0 }

abbrev seen : Watch
seen = record { last_rq_head = λ x. 7; last_rxq_head = λ x. 0; waking = λ x. false }

cores_is_proc_congested_lem_example :
    ((cores_is_proc_congested all_stuck false (0 ∷ 1 ∷ []) seen).0
      ≡ false || any (is_behind all_stuck seen) (0 ∷ 1 ∷ []))
    × ((x : Thread)
        → 0 < (if 0 == x then 1 else 0) + ((if 1 == x then 1 else 0) + 0)
        → ((cores_is_proc_congested all_stuck false (0 ∷ 1 ∷ []) seen).1.last_rq_head x ≡ 9)
          × ((cores_is_proc_congested all_stuck false (0 ∷ 1 ∷ []) seen).1.last_rxq_head x ≡ 0)
          × ((cores_is_proc_congested all_stuck false (0 ∷ 1 ∷ []) seen).1.waking x
              ≡ (false && any (is_behind all_stuck seen) (before x (0 ∷ 1 ∷ [])))))
cores_is_proc_congested_lem_example =
    cores_is_proc_congested_lem all_stuck false (0 ∷ 1 ∷ []) seen (λ x. ground arith)

-- Thread 0 runs on core 0, which thread 2 of another process waits for; that process is removed, and the
-- one of thread 0 is overloaded.
abbrev waiter_removed : World
waiter_removed = record sample {
  p_of = λ x. if ltb x 2 then 0 else 1;
  index = λ x. if ltb x 2 then x else 0;
  proc = λ q.
      if q == 0
      then record one_proc { overloaded = true }
      else record no_proc { removed = true; thread_count = 1 };
  threads = record sample.threads { parked = λ x. x == 1; available = λ x. x == 1 };
  cores = record sample.cores { next = λ c. if c == 0 then some 2 else none };
  overloaded_procs = 0 ∷ [];
}

-- When thread 0 parks, it is picked again for its core, and the check for the waiting thread fails.
removed_waiter_bugs : cores_park_kthread true false 0 false waiter_removed ≡ none
unfolding cores_park_kthread give_back core_cede core_reserve thread_cede pick_thread_for_core
    pick_overloaded pick_thread_for_proc wake_kthread_on_core unpoll_thread remove
    proc_clear_bursting
removed_waiter_bugs = refl
