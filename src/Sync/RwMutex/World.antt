-- ===== src/Sync/RwMutex/World.antt =====
-- Threads that use one read-write mutex: whatever they do, readers and writers exclude one another.
use libut.Common.{
  ◌^◌, ◌+◌, ◌-◌, ◌≤◌, ◌<◌, ◌≡◌, refl, ap, ◌⊎◌, inr, Bool, some, List, [], ◌∷◌, ◌++◌, arith,
  if◌then◌else◌, length, length-append, length-take,
}
use mathlib.Core.Path.{subst}
use libut.Common.Int.{wrap_int, ℤ, pos, pos_part, neg_part, ◌+ℤ◌}
use libut.Sync.Ready.{Thread, Ready, Without, length-Without}
use libut.Sync.RwMutex.{RwMutex, init, rdlock, try_rdlock, wrlock, try_wrlock, drop_one, unlock}
use libut.Sync.RwMutex.Release.{
  left, Released, to_readers, to_writer, to_nobody, kept, release-Released, unlock-some,
}

-- An rwmutex, the threads that read and write under it, and the threads made ready.
pub record World : Type 0 where
  pub lock : RwMutex
  pub readers : List Thread
  pub writers : List Thread
  pub ready : Ready

abbrev admit : Bool → Thread → List Thread → List Thread
admit got t ts = if got then t ∷ ts else ts

-- The state after a release: threads that have left a waiter queue hold the lock.
abbrev released : World → List Thread → List Thread → RwMutex → Ready → World
released w readers writers m log = record {
  lock = m;
  readers = left w.lock.read_waiters m.read_waiters ++ readers;
  writers = left w.lock.write_waiters m.write_waiters ++ writers;
  ready = log;
}

-- One more reader, or thread that waits to read, can be counted in an `int`.
abbrev pub HasRoom : World → Type 0
HasRoom w = length w.readers + length w.lock.read_waiters + 1 < 2 ^ 31

-- Any thread may lock, to read if there is room; a reader or a writer may unlock.
pub data Step (w : World) : World → Type 0 where
  read :
      (t : Thread)
      → HasRoom w
      → Step w
          (record w { lock = (rdlock w.lock t).1; readers = admit (rdlock w.lock t).0 t w.readers })
  try_read :
      (t : Thread)
      → HasRoom w
      → Step w (record w {
        lock = (try_rdlock w.lock).1;
        readers = admit (try_rdlock w.lock).0 t w.readers;
      })
  write :
      (t : Thread)
      → Step w
          (record w { lock = (wrlock w.lock t).1; writers = admit (wrlock w.lock t).0 t w.writers })
  try_write :
      (t : Thread)
      → Step w (record w {
        lock = (try_wrlock w.lock).1;
        writers = admit (try_wrlock w.lock).0 t w.writers;
      })
  end_read :
      (t : Thread) {rest : List Thread} {m : RwMutex} {log : Ready}
      → Without t w.readers rest
      → unlock w.lock w.ready ≡ some (log, m)
      → Step w (released w rest w.writers m log)
  end_write :
      (t : Thread) {rest : List Thread} {m : RwMutex} {log : Ready}
      → Without t w.writers rest
      → unlock w.lock w.ready ≡ some (log, m)
      → Step w (released w w.readers rest m log)

pub data Reach : World → Type 0 where
  start : Reach (record { lock = init; readers = []; writers = []; ready = [] })
  next : {w w' : World} → Reach w → Step w w' → Reach w'

pub record IsSound (w : World) : Type 0 where
  pub reading : pos_part w.lock.count ≡ length w.readers
  pub writing : neg_part w.lock.count ≡ length w.writers
  pub few : length w.readers + length w.lock.read_waiters < 2 ^ 31
  pub single : length w.writers ≤ 1
  pub counted : w.lock.read_waiter_count ≡ pos (length w.lock.read_waiters)
  pub readers_wait : (0 < length w.writers) ⊎ (length w.lock.read_waiters ≡ 0)
  pub writers_wait : (0 < length w.writers + length w.readers) ⊎ (length w.lock.write_waiters ≡ 0)

length-left :
    (old new ts : List Thread)
    → length new ≤ length old
    → length (left old new ++ ts) ≡ length old - length new + length ts
length-left old new ts h =
    omega (arith, length-append (left old new) ts, length-take (length old - length new) old)

module _ {w : World} (v : IsSound w) (c : ℤ) (readers writers : List Thread) where
  -- The soundness of the state after a release, from the count `c` that the caller leaves.
  released-IsSound :
      {log log' : Ready} {m : RwMutex}
      → pos_part c ≡ length readers
      → neg_part c ≡ 0
      → length writers ≡ 0
      → (length readers ≡ 0) ⊎ (length w.lock.read_waiters ≡ 0)
      → length readers + length w.lock.read_waiters < 2 ^ 31
      → Released (record w.lock { count = c }) log log' m
      → IsSound (released w readers writers m log')
  released-IsSound p n none_write alone few (to_readers z some_wait) = ground (
    arith,
    length-left w.lock.read_waiters [] readers,
    length-left w.lock.write_waiters w.lock.write_waiters writers,
  )
  released-IsSound p n none_write alone few (to_writer th rest z none_wait e) = ground (
    arith,
    ap length e,
    length-left w.lock.read_waiters w.lock.read_waiters readers,
    length-left w.lock.write_waiters rest writers,
  )
  released-IsSound p n none_write alone few (to_nobody z none_wait e) = ground (
    arith,
    ap length e,
    length-left w.lock.read_waiters w.lock.read_waiters readers,
    length-left w.lock.write_waiters [] writers,
  )
  released-IsSound p n none_write alone few (kept busy) = ground (
    arith,
    length-left w.lock.read_waiters w.lock.read_waiters readers,
    length-left w.lock.write_waiters w.lock.write_waiters writers,
  )

end_read-IsSound :
    {w : World} (v : IsSound w) (t : Thread) (rest : List Thread) {m : RwMutex} {log : Ready}
    → Without t w.readers rest
    → unlock w.lock w.ready ≡ some (log, m)
    → IsSound (released w rest w.writers m log)
unfolding drop_one ◌+ℤ◌ wrap_int
end_read-IsSound {w} v t rest {m} {log} out e =
    let u = unlock-some w.lock w.ready log m e in
    subst (λ (r : Ready × RwMutex). IsSound (released w rest w.writers r.1 r.0)) (u.1)
      (released-IsSound v _ rest w.writers (ground (arith, length-Without out)) (ground arith)
        (ground (arith, length-Without out)) (ground (arith, length-Without out))
        (ground (arith, length-Without out)) (release-Released (drop_one w.lock) w.ready))

end_write-IsSound :
    {w : World} (v : IsSound w) (t : Thread) (rest : List Thread) {m : RwMutex} {log : Ready}
    → Without t w.writers rest
    → unlock w.lock w.ready ≡ some (log, m)
    → IsSound (released w w.readers rest m log)
unfolding drop_one ◌+ℤ◌ wrap_int
end_write-IsSound {w} v t rest {m} {log} out e =
    let u = unlock-some w.lock w.ready log m e in
    subst (λ (r : Ready × RwMutex). IsSound (released w w.readers rest r.1 r.0)) (u.1)
      (released-IsSound v _ w.readers rest (ground (arith, length-Without out)) (ground arith)
        (ground (arith, length-Without out)) (ground (arith, length-Without out))
        (ground (arith, length-Without out)) (release-Released (drop_one w.lock) w.ready))

Step-IsSound : {w w' : World} → Step w w' → IsSound w → IsSound w'
unfolding rdlock try_rdlock wrlock try_wrlock
Step-IsSound {w} (read t room) v = ground (arith, length-append w.lock.read_waiters (t ∷ []))
Step-IsSound (try_read t room) v = ground arith
Step-IsSound {w} (write t) v = ground (arith, length-append w.lock.write_waiters (t ∷ []))
Step-IsSound (try_write t) v = ground arith
Step-IsSound {w} (end_read t {rest} {m} {log} out e) v = end_read-IsSound v t rest out e
Step-IsSound {w} (end_write t {rest} {m} {log} out e) v = end_write-IsSound v t rest out e

Reach-IsSound : {w : World} → Reach w → IsSound w
unfolding init
Reach-IsSound start = record {
  reading = refl;
  writing = refl;
  few = omega arith;
  single = omega arith;
  counted = refl;
  readers_wait = inr refl;
  writers_wait = inr refl;
}
Reach-IsSound (next r s) = Step-IsSound s (Reach-IsSound r)

-- Whatever threads do, as long as fewer than 2^31 of them read or wait to read at a time, at most one
-- writes, and no thread reads while one writes.
pub exclusion :
    {w : World}
    → Reach w
    → (length w.writers ≤ 1) × ((length w.writers ≡ 0) ⊎ (length w.readers ≡ 0))
exclusion r = ground (arith, Reach-IsSound r)

pub no_idle_wait :
    {w : World}
    → Reach w
    → ((0 < length w.writers) ⊎ (length w.lock.read_waiters ≡ 0))
      × ((0 < length w.writers + length w.readers) ⊎ (length w.lock.write_waiters ≡ 0))
no_idle_wait r = ((Reach-IsSound r).readers_wait, (Reach-IsSound r).writers_wait)
