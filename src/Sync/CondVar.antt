-- ===== src/Sync/CondVar.antt =====
-- The condition variable, over the mutex that its waiters hold.
use libut.Common.{
  ◌≤◌, ◌≡◌, refl, sym, ap, ◌∙◌, Option, none, some, List, [], ◌∷◌, ◌++◌, append-nil, append_assoc,
  length,
}
use libut.Sync.Ready.{Thread, Ready, thread_ready, ready_all, ready_all-append, Without}
use libut.Sync.Mutex
use libut.Sync.Mutex.{Mutex}

-- `struct condvar`, less its spin lock
pub record CondVar : Type 0 where
  pub waiters : List Thread

unfoldable pub init : CondVar
init = record { waiters = [] }

-- `condvar_wait` up to the park: the mutex is released, and the caller queued. When it is made ready
-- it calls `mutex_lock`.
unfoldable pub wait : CondVar → Mutex → Thread → Ready → Ready × Mutex × CondVar
wait cv m myth log =
    let (log', m') = Mutex.unlock m log in (log', m', record { waiters = cv.waiters ++ myth ∷ [] })

-- `list_pop`: the oldest waiter, and the rest
abbrev pub list_pop : List Thread → Option Thread × List Thread
list_pop [] = (none, [])
list_pop (th ∷ ths) = (some th, ths)

-- `if (waketh) thread_ready(waketh)`
abbrev pub ready_if : Option Thread → Ready → Ready
ready_if none log = log
ready_if (some waketh) log = thread_ready log waketh

unfoldable pub signal : CondVar → Ready → Ready × CondVar
signal cv log =
    let (waketh, rest) = list_pop cv.waiters in (ready_if waketh log, record { waiters = rest })

-- The thread to swap to, if one waits.
unfoldable pub signal_and_swap : CondVar → Option Thread × CondVar
signal_and_swap cv = let (waketh, rest) = list_pop cv.waiters in (waketh, record { waiters = rest })

unfoldable pub broadcast : CondVar → Ready → Ready × CondVar
broadcast cv log = (ready_all log cv.waiters, record { waiters = [] })

-- A condition variable with its mutex. `woken` logs the threads that have been taken off the queue of
-- the variable, `parked` those that have been put there.
pub record World : Type 0 where
  pub base : Mutex.World
  pub condvar : CondVar
  pub woken : List Thread
  pub parked : List Thread

-- An owner of the mutex may wait; anyone may signal or broadcast; a thread that has been woken locks
-- the mutex, and all else that may happen to a mutex may happen.
pub data Step (w : World) : World → Type 0 where
  waits :
      (t : Thread) {rest : List Thread}
      → Without t w.base.owners rest
      → Step w (record w {
        base = record {
          mutex = (wait w.condvar w.base.mutex t w.base.ready).1;
          owners = Mutex.handed w.base.mutex.waiters rest;
          ready = (wait w.condvar w.base.mutex t w.base.ready).0;
        };
        condvar = (wait w.condvar w.base.mutex t w.base.ready).2;
        parked = w.parked ++ t ∷ [];
      })
  signals :
      Step w
        (record w { condvar = (signal w.condvar w.woken).1; woken = (signal w.condvar w.woken).0 })
  swaps : Step w (record w {
    condvar = (signal_and_swap w.condvar).1;
    woken = ready_if (signal_and_swap w.condvar).0 w.woken;
  })
  broadcasts : Step w (record w {
    condvar = (broadcast w.condvar w.woken).1;
    woken = (broadcast w.condvar w.woken).0;
  })
  locks : {b : Mutex.World} → Mutex.Step w.base b → Step w (record w { base = b })

pub data Reach : World → Type 0 where
  start : Reach (record {
    base = record { mutex = Mutex.init; owners = []; ready = [] };
    condvar = init;
    woken = [];
    parked = [];
  })
  next : {w w' : World} → Reach w → Step w w' → Reach w'

signal-order : (ws log : List Thread) → ready_if (list_pop ws).0 log ++ (list_pop ws).1 ≡ log ++ ws
signal-order [] log = refl
signal-order (th ∷ ths) log = append_assoc log (th ∷ []) ths

-- A step on the variable is a step of its mutex, or leaves the mutex alone.
Step-base : {w w' : World} → Step w w' → Mutex.Reach w.base → Mutex.Reach w'.base
unfolding wait
Step-base (waits t out) r = Mutex.next r (Mutex.release t out)
Step-base signals r = r
Step-base swaps r = r
Step-base broadcasts r = r
Step-base (locks s) r = Mutex.next r s

Reach-base : {w : World} → Reach w → Mutex.Reach w.base
Reach-base start = Mutex.start
Reach-base (next r s) = Step-base s (Reach-base r)

Step-served :
    {w w' : World}
    → Step w w'
    → w.woken ++ w.condvar.waiters ≡ w.parked
    → w'.woken ++ w'.condvar.waiters ≡ w'.parked
unfolding wait signal signal_and_swap broadcast
Step-served {w} (waits t out) h =
    sym (append_assoc w.woken w.condvar.waiters (t ∷ []))
    ∙ ap (λ (ts : List Thread). ts ++ t ∷ []) h
Step-served {w} signals h = signal-order w.condvar.waiters w.woken ∙ h
Step-served {w} swaps h = signal-order w.condvar.waiters w.woken ∙ h
Step-served {w} broadcasts h =
    append-nil (ready_all w.woken w.condvar.waiters)
    ∙ ready_all-append w.woken w.condvar.waiters
    ∙ h
Step-served (locks s) h = h

Reach-served : {w : World} → Reach w → w.woken ++ w.condvar.waiters ≡ w.parked
unfolding init
Reach-served start = refl
Reach-served (next r s) = Step-served s (Reach-served r)

-- Threads that wait on a condition variable, signal and broadcast never break mutual exclusion on its
-- mutex; every thread that waited has been woken once or still waits, in the order in which they
-- began to wait.
pub waits_served :
    {w : World} → Reach w → (length w.base.owners ≤ 1) × (w.woken ++ w.condvar.waiters ≡ w.parked)
waits_served r = (Mutex.mutual_exclusion (Reach-base r), Reach-served r)
