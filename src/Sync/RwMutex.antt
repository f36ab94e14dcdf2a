-- ===== src/Sync/RwMutex.antt =====
-- The read-write mutex. `count` is -1 for a writer, and otherwise the number of readers; it and
-- `read_waiter_count` are `int`s and wrap.
pub mod Release
pub mod World
use libut.Common.{
  ℕ, zero, suc, ◌+◌, ◌-◌, ◌*◌, ◌/◌, ◌%◌, ◌^◌, ◌≤◌, ◌<◌, min, max, bit_and, bit_or, ◌≡◌, refl, sym,
  ap, ap₂, ◌∙◌, fun_ext, ◌≢◌, ◌↔◌, ◌⊎◌, inl, inr, Bool, true, false, not, ◌&&◌, ◌||◌, Option, none,
  some, List, [], ◌∷◌, ◌++◌, map, append-nil, append_assoc, arith, dec_lt, ℕ_discrete, ltb, leb,
  ◌==◌, if◌then◌else◌, ltb→lt, lt→ltb, leb→le, ==_iff, Bool-cases, Option-cases, length, get_elem?,
  take, drop, update, slice, length-append, length-slice, update_self, update_ne, get_elem?-snoc,
  length-take, take_all, get_elem?-append_some, ◌≡⟨◌⟩◌, ◌∎,
}
use libut.Common.Int.{ℤ, pos, negsuc, pos_part, neg_part, wrap_int, ltb_ℤ, ◌≤ℤ◌, ◌+ℤ◌}
use mathlib.Core.Path.{subst}
use libut.Sync.Ready.{
  Thread, Ready, thread_ready, ready_all, ready_all-append, Without, length-Without,
}

-- `struct rwmutex`, less its spin lock
pub record RwMutex : Type 0 where
  pub count : ℤ
  pub read_waiters : List Thread
  pub write_waiters : List Thread
  pub read_waiter_count : ℤ

unfoldable pub init : RwMutex
init = record { count = pos 0; read_waiters = []; write_waiters = []; read_waiter_count = pos 0 }

-- `m->count >= 0`
abbrev pub open_to_readers : RwMutex → Bool
open_to_readers m = not (ltb_ℤ m.count (pos 0))

abbrev pub is_zero : ℤ → Bool
is_zero (pos n) = n == 0
is_zero (negsuc n) = false

-- Whether the call returns at once; if not, the thread parks.
unfoldable pub rdlock : RwMutex → Thread → Bool × RwMutex
unfolding ◌+ℤ◌ wrap_int
rdlock m myth =
    if open_to_readers m then (true, record m { count = wrap_int (m.count +ℤ pos 1) }) else (
      false,
      record m {
        read_waiter_count = wrap_int (m.read_waiter_count +ℤ pos 1);
        read_waiters = m.read_waiters ++ myth ∷ [];
      },
    )

unfoldable pub try_rdlock : RwMutex → Bool × RwMutex
unfolding ◌+ℤ◌ wrap_int
try_rdlock m =
    if open_to_readers m
    then (true, record m { count = wrap_int (m.count +ℤ pos 1) })
    else (false, m)

unfoldable pub wrlock : RwMutex → Thread → Bool × RwMutex
wrlock m myth =
    if is_zero m.count
    then (true, record m { count = negsuc 0 })
    else (false, record m { write_waiters = m.write_waiters ++ myth ∷ [] })

unfoldable pub try_wrlock : RwMutex → Bool × RwMutex
try_wrlock m = if is_zero m.count then (true, record m { count = negsuc 0 }) else (false, m)

-- the first lines of `rwmutex_unlock`: the count without the caller
unfoldable pub drop_one : RwMutex → RwMutex
unfolding ◌+ℤ◌ wrap_int
drop_one m = record m {
  count = if ltb_ℤ m.count (pos 0) then pos 0 else wrap_int (m.count +ℤ negsuc 0);
}

-- no reader waits: the oldest writer gets the lock
unfoldable pub wake_writer : RwMutex → List Thread → Ready → Ready × RwMutex
wake_writer m [] log = (log, record m { write_waiters = [] })
wake_writer m (th ∷ rest) log =
    (thread_ready log th, record m { count = negsuc 0; write_waiters = rest })

unfoldable pub release : RwMutex → Ready → Ready × RwMutex
release m log =
    if is_zero m.count && ltb_ℤ (pos 0) m.read_waiter_count
    then (
      ready_all log m.read_waiters,
      record m { count = m.read_waiter_count; read_waiter_count = pos 0; read_waiters = [] },
    )
    else (if is_zero m.count then wake_writer m m.write_waiters log else (log, m))

-- `none` is the failed assertion that somebody holds the lock.
unfoldable pub unlock : RwMutex → Ready → Option (Ready × RwMutex)
unlock m log = if is_zero m.count then none else some (release (drop_one m) log)
