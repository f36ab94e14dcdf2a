-- ===== src/Sync/Tests.antt =====
-- The synchronisation objects at concrete inputs.
use libut.Common.{
  ℕ, ◌≤◌, ◌<◌, ◌≡◌, refl, ◌⊎◌, true, false, some, List, [], ◌∷◌, ◌++◌, arith, length,
}
use libut.Common.Int.{wrap_int, pos, negsuc, ◌+ℤ◌, pos_part}
use libut.Sync.Ready.{Thread, ready_all, here}
use libut.Sync.Mutex
use libut.Sync.RwMutex
use libut.Sync.RwMutex.{RwMutex}
use libut.Sync.RwMutex.World as Rw
use libut.Sync.WaitGroup
use libut.Sync.Barrier
use libut.Sync.CondVar

-- Thread 1 owns the mutex, and threads 2 and 3 wait for it.
abbrev contended : Mutex.World
contended = record {
  mutex = record { held = true; waiters = 2 ∷ 3 ∷ [] };
  owners = 1 ∷ [];
  ready = [];
}

contended-Reach : Mutex.Reach contended
unfolding Mutex.lock Mutex.init
contended-Reach =
    Mutex.next (Mutex.next (Mutex.next Mutex.start (Mutex.acquire 1)) (Mutex.acquire 2))
      (Mutex.acquire 3)

mutual_exclusion_example : 1 ≤ 1
mutual_exclusion_example = Mutex.mutual_exclusion contended-Reach

-- A thread has locked the mutex and released it.
idle-Reach :
    Mutex.Reach (record { mutex = record { held = false; waiters = [] }; owners = []; ready = [] })
unfolding Mutex.lock Mutex.init Mutex.unlock
idle-Reach = Mutex.next (Mutex.next Mutex.start (Mutex.acquire 1)) (Mutex.release 1 (here []))

abbrev handed_on : Mutex.World
handed_on = record {
  mutex = record { held = true; waiters = 3 ∷ [] };
  owners = 2 ∷ [];
  ready = 2 ∷ [];
}

contended-Step : Mutex.Step contended handed_on
unfolding Mutex.unlock
contended-Step = Mutex.release 1 (here [])

no_overtaking_example : Mutex.Moved 3 1 contended handed_on (Mutex.is_release contended-Step)
no_overtaking_example = Mutex.no_overtaking 1 3 contended-Step refl

-- Thread 1 writes, threads 2 and 3 wait to read, thread 4 to write.
abbrev writing : Rw.World
writing = record {
  lock = record {
    count = negsuc 0;
    read_waiters = 2 ∷ 3 ∷ [];
    write_waiters = 4 ∷ [];
    read_waiter_count = pos 2;
  };
  readers = [];
  writers = 1 ∷ [];
  ready = [];
}

writing-Reach : Rw.Reach writing
unfolding RwMutex.init RwMutex.rdlock RwMutex.wrlock
writing-Reach =
    Rw.next
      (Rw.next (Rw.next (Rw.next Rw.start (Rw.write 1)) (Rw.read 2 (omega arith)))
        (Rw.read 3 (omega arith)))
      (Rw.write 4)

exclusion_example : (1 ≤ 1) × ((◌≡◌ {A = ℕ} 1 0) ⊎ (◌≡◌ {A = ℕ} 0 0))
exclusion_example = Rw.exclusion writing-Reach

abbrev readers_in : RwMutex
readers_in = record {
  count = pos 2;
  read_waiters = [];
  write_waiters = 4 ∷ [];
  read_waiter_count = pos 0;
}

abbrev workload : List WaitGroup.Event
workload =
    WaitGroup.adds (pos 2)
    ∷ WaitGroup.waits 7
    ∷ WaitGroup.adds (negsuc 0)
    ∷ WaitGroup.waits 8
    ∷ WaitGroup.adds (negsuc 0)
    ∷ []

run-workload :
    WaitGroup.run WaitGroup.fresh workload
    ≡ some (record {
      group = record { cnt = pos 0; waiters = [] };
      ready = 7 ∷ 8 ∷ [];
      parked = 7 ∷ 8 ∷ [];
    })
unfolding WaitGroup.run WaitGroup.event WaitGroup.add WaitGroup.wait ready_all ◌+ℤ◌ wrap_int
run-workload = refl

wait_group_example :
    (w : WaitGroup.World) × (WaitGroup.run WaitGroup.fresh workload ≡ some w)
    × (w.group.cnt ≡ WaitGroup.total (pos 0) workload)
    × (w.ready ++ w.group.waiters ≡ w.parked)
    × ((0 < pos_part w.group.cnt) ⊎ (w.group.waiters ≡ []))
unfolding WaitGroup.dips ◌+ℤ◌
wait_group_example = WaitGroup.run_counts workload refl

abbrev arrivals : List Thread
arrivals = 1 ∷ 2 ∷ 3 ∷ 4 ∷ 5 ∷ []

barrier_example :
    (length (Barrier.run (Barrier.fresh 2) arrivals).leaders ≡ 2)
    × (length (Barrier.run (Barrier.fresh 2) arrivals).barrier.waiters ≡ 1)
    × ((Barrier.run (Barrier.fresh 2) arrivals).ready
          ++ (Barrier.run (Barrier.fresh 2) arrivals).barrier.waiters
        ≡ (Barrier.run (Barrier.fresh 2) arrivals).parked)
barrier_example = Barrier.barrier_counts 2 arrivals (omega arith)

leaders-arrivals : (Barrier.run (Barrier.fresh 2) arrivals).leaders ≡ 2 ∷ 4 ∷ []
unfolding Barrier.run Barrier.arrive Barrier.wait ready_all
leaders-arrivals = refl

-- Thread 1 has waited on the variable, and thread 2 has signalled it.
signalled-Reach : CondVar.Reach (record {
  base = record { mutex = record { held = false; waiters = [] }; owners = []; ready = [] };
  condvar = record { waiters = [] };
  woken = 1 ∷ [];
  parked = 1 ∷ [];
})
unfolding Mutex.lock Mutex.init Mutex.unlock CondVar.init CondVar.wait CondVar.signal
signalled-Reach =
    CondVar.next
      (CondVar.next (CondVar.next CondVar.start (CondVar.locks (Mutex.acquire 1)))
        (CondVar.waits 1 (here [])))
      CondVar.signals

waits_served_example : (0 ≤ 1) × (◌≡◌ {A = List ℕ} ((1 ∷ []) ++ []) (1 ∷ []))
waits_served_example = CondVar.waits_served signalled-Reach
