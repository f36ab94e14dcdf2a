-- ===== src/Sync/Mutex.antt =====
-- `mutex_try_lock`, `mutex_lock`, `mutex_unlock`, `mutex_init`, and what threads that use them see.
use libut.Common.{
  ℕ, zero, suc, ◌≤◌, ◌≡◌, refl, ap, Bool, true, false, not, some, List, [], ◌∷◌, ◌++◌, arith,
  if◌then◌else◌, length, get_elem?, get_elem?-append_some,
}
use libut.Sync.Ready.{Thread, Ready, thread_ready, Without, length-Without}

-- `struct libut_mutex`, less its spin lock
pub record Mutex : Type 0 where
  pub held : Bool
  pub waiters : List Thread

unfoldable pub init : Mutex
init = record { held = false; waiters = [] }

-- `mutex_held`
abbrev pub mutex_held : Mutex → Bool
mutex_held m = m.held

unfoldable pub try_lock : Mutex → Bool × Mutex
try_lock m = if m.held then (false, m) else (true, record m { held = true })

-- Whether the call returns at once; if not, the thread parks.
unfoldable pub lock : Mutex → Thread → Bool × Mutex
lock m myth =
    if not m.held
    then (true, record m { held = true })
    else (false, record m { waiters = m.waiters ++ myth ∷ [] })

unlock_with : Mutex → List Thread → Ready → Ready × Mutex
unlock_with m [] log = (log, record m { held = false; waiters = [] })
unlock_with m (waketh ∷ rest) log = (thread_ready log waketh, record m { waiters = rest })

-- `list_pop` takes the oldest waiter, which then owns the mutex.
unfoldable pub unlock : Mutex → Ready → Ready × Mutex
unfolding unlock_with
unlock m log = unlock_with m m.waiters log

-- A mutex and the threads that have acquired it and not released it.
pub record World : Type 0 where
  pub mutex : Mutex
  pub owners : List Thread
  pub ready : Ready

-- The owners once a call of `t` has returned, and those once a release has woken the oldest waiter.
abbrev pub acquired : Bool → Thread → List Thread → List Thread
acquired got t owners = if got then t ∷ owners else owners

abbrev pub handed : List Thread → List Thread → List Thread
handed [] owners = owners
handed (waketh ∷ rest) owners = waketh ∷ owners

-- Any thread may try to lock; an owner may unlock, and the thread that it wakes owns the mutex.
pub data Step (w : World) : World → Type 0 where
  try :
      (t : Thread)
      → Step w (record w {
        mutex = (try_lock w.mutex).1;
        owners = acquired (try_lock w.mutex).0 t w.owners;
      })
  acquire :
      (t : Thread)
      → Step w
          (record w { mutex = (lock w.mutex t).1; owners = acquired (lock w.mutex t).0 t w.owners })
  release :
      (t : Thread) {rest : List Thread}
      → Without t w.owners rest
      → Step w (record {
        mutex = (unlock w.mutex w.ready).1;
        owners = handed w.mutex.waiters rest;
        ready = (unlock w.mutex w.ready).0;
      })

pub data Reach : World → Type 0 where
  start : Reach (record { mutex = init; owners = []; ready = [] })
  next : {w w' : World} → Reach w → Step w w' → Reach w'

pub record IsSound (w : World) : Type 0 where
  pub owned : length w.owners ≡ (if w.mutex.held then 1 else 0)
  pub no_idle_wait : w.mutex.held ≡ false → w.mutex.waiters ≡ []

Step-IsSound : {w w' : World} → Step w w' → IsSound w → IsSound w'
unfolding try_lock lock unlock
Step-IsSound (try t) v = ground arith
Step-IsSound (acquire t) v = ground arith
Step-IsSound {w} (release t out) v = ground (arith, length-Without out)

Reach-IsSound : {w : World} → Reach w → IsSound w
unfolding init
Reach-IsSound start = record { owned = refl; no_idle_wait = λ e. refl }
Reach-IsSound (next r s) = Step-IsSound s (Reach-IsSound r)

-- Whatever threads do, at most one owns the mutex.
pub mutual_exclusion : {w : World} → Reach w → length w.owners ≤ 1
mutual_exclusion r = ground (arith, Reach-IsSound r)

-- While no thread owns the mutex, none waits for it: no wakeup is lost.
pub no_lost_wakeup : {w : World} → Reach w → w.owners ≡ [] → w.mutex.waiters ≡ []
no_lost_wakeup {w} r e =
    (Reach-IsSound r).no_idle_wait (ground (arith, Reach-IsSound r, ap length e))

-- whether a step is a release
abbrev pub is_release : {w w' : World} → Step w w' → Bool
is_release (try t) = false
is_release (acquire t) = false
is_release (release t out) = true

-- Where a waiter at position `p` of the queue stands after a step, which is a release or not.
pub data Moved (t : Thread) (p : ℕ) (w w' : World) : Bool → Type 0 where
  stays : get_elem? w'.mutex.waiters p ≡ some t → Moved t p w w' false
  advances : (q : ℕ) → p ≡ suc q → get_elem? w'.mutex.waiters q ≡ some t → Moved t p w w' true
  owns :
      p ≡ 0
      → w'.mutex.held ≡ w.mutex.held
      → get_elem? w'.owners 0 ≡ some t
      → w'.ready ≡ w.ready ++ t ∷ []
      → Moved t p w w' true

release-Moved :
    (w : World) (ws rest : List Thread) (p : ℕ) (t : Thread)
    → get_elem? ws p ≡ some t
    → Moved t p w
        (record {
          mutex = (unlock_with w.mutex ws w.ready).1;
          owners = handed ws rest;
          ready = (unlock_with w.mutex ws w.ready).0;
        })
        true
unfolding unlock_with
release-Moved w [] rest p t e = absurd (cc)
release-Moved w (x ∷ xs) rest zero t e = owns refl refl e (cc)
release-Moved w (x ∷ xs) rest (suc p) t e = advances p refl e

-- Waiters are served in the order of their arrival: no step moves one back. A release moves each one
-- up, and makes the first one ready, which then owns the mutex; other steps leave it where it is.
pub no_overtaking :
    {w w' : World} (p : ℕ) (t : Thread) (step : Step w w')
    → get_elem? w.mutex.waiters p ≡ some t
    → Moved t p w w' (is_release step)
unfolding try_lock lock unlock
no_overtaking {w} p t (try u) e = stays (ground arith)
no_overtaking {w} p t (acquire u) e =
    stays (ground (arith, get_elem?-append_some w.mutex.waiters (u ∷ []) p t e))
no_overtaking {w} p t (release u {rest} out) e = release-Moved w w.mutex.waiters rest p t e
