-- ===== src/Sched.antt =====
-- runtime/sched.c: the queues of runnable threads that each kthread keeps, and how a thread goes from one
-- to the next.
pub mod Ring
pub mod Queue
pub mod Drain
pub mod Refine
pub mod Once
pub mod Bulk
pub mod Sound
pub mod Granted
pub mod Stolen
pub mod Steal
pub mod Join
pub mod Round
pub mod Search
pub mod Local
pub mod Next
mod Tests
use libut.Common.{
  ℕ, zero, suc, ◌+◌, ◌-◌, ◌*◌, ◌/◌, ◌%◌, ◌^◌, ◌≤◌, ◌<◌, min, max, bit_and, bit_or, ◌≡◌, refl, sym,
  ap, ap₂, ◌∙◌, fun_ext, ◌≢◌, ◌↔◌, ◌⊎◌, inl, inr, Bool, true, false, not, ◌&&◌, ◌||◌, Option, none,
  some, List, [], ◌∷◌, ◌++◌, map, append-nil, append_assoc, arith, dec_lt, ℕ_discrete, ltb, leb,
  ◌==◌, if◌then◌else◌, ltb→lt, lt→ltb, leb→le, ==_iff, Bool-cases, Option-cases, ◌>>=◌, >>=-some,
  length, get_elem?, take, drop, update, slice, length-append, length-slice, update_self, update_ne,
  get_elem?-snoc, length-take, take_all, get_elem?-append_some, update-field, update-all,
  take-append-drop, ◌≡⟨◌⟩◌, ◌∎,
}
use libut.Common.Int.{ℤ, pos, negsuc}
use libut.Common.Words.{add32, sub32}
use libut.Lrpc.{Shared, ChanIn}
use libut.Softirq.{Work, softirq_run_thread}
use libut.Kthread.{
  Thread, ThreadState, running, runnable, sleeping, Kthread, Runtime, put, set_state, timer_state,
  detach,
}

-- `RUNTIME_RQ_SIZE`
abbrev pub rq_size : ℕ
rq_size = 32

-- `RUNTIME_RRQ_SIZE`
abbrev pub rrq_size : ℕ
rrq_size = 7

-- `RUNTIME_SOFTIRQ_BUDGET`
abbrev pub softirq_budget : ℕ
softirq_budget = 16

-- Storing a thread at the head of the runqueue.
abbrev pub store_rq : Thread → Kthread → Kthread
store_rq th k = record k {
  rq = update k.rq (k.rq_head % rq_size) th;
  rq_head = add32 k.rq_head 1;
  q_head = add32 k.q_head 1;
}

-- `thread_ready`, as far as it touches the kthread; `none` is a failed assertion.
pub push : Thread → Kthread → Option Kthread
push th k =
    let used : ℕ = sub32 k.rq_head k.rq_tail in
    if leb rq_size used
    then (if used == rq_size
        then some (record k { rq_overflow = k.rq_overflow ++ th ∷ [] })
        else none)
    else some (store_rq th k)

-- `thread_ready` by kthread `i`
pub thread_ready : ℕ → Thread → Runtime → Option Runtime
thread_ready i th w = elim (w.state th) [
  | sleeping ↦ push th (w.kthread i) >>= λ k. some (set_state th runnable (put i k w))
  | _ ↦ none
]

-- The loop of `drain_overflow`, over the overflow list.
unfoldable pub drain_loop : List Thread → Kthread → Kthread
drain_loop [] k = record k { rq_overflow = [] }
drain_loop (th ∷ more) k =
    let rest : Kthread = drain_loop more (store_rq th k) in
    if ltb (sub32 k.rq_head k.rq_tail) rq_size then rest else record k { rq_overflow = th ∷ more }

pub drain_overflow : Kthread → Kthread
drain_overflow k = drain_loop k.rq_overflow k

-- The oldest thread of the runqueue, at the end of `schedule` and in the fast path of `enter_schedule`.
pub pop_rq : Kthread → Thread × Kthread
pop_rq k = (
  k.rq (k.rq_tail % rq_size),
  record k { rq_tail = add32 k.rq_tail 1; q_tail = add32 k.q_tail 1 },
)

-- the oldest thread of the queue of threads that asked for this kthread
pub pop_rrq : Kthread → Thread × Kthread
pop_rrq k = (k.rrq (k.rrq_tail % rrq_size), record k { rrq_tail = add32 k.rrq_tail 1 })

-- What `thread_throw` does to the kthread that it throws to, under its lock.
pub throw_to : Thread → Kthread → Kthread
throw_to th k =
    if leb rrq_size (sub32 k.rrq_head k.rrq_tail)
    then record k { rq_overflow = k.rq_overflow ++ th ∷ [] }
    else record k { rrq = update k.rrq (k.rrq_head % rrq_size) th; rrq_head = add32 k.rrq_head 1 }

-- `thread_throw` by kthread `i`. `locked` tells whether the wanted kthread exists and its lock was free.
-- `none` is a failed assertion, or an index out of range.
pub thread_throw : Bool → ℕ → Thread → ℤ → Runtime → Option Runtime
thread_throw locked i th (negsuc zero) w = thread_ready i th w
thread_throw locked i th (negsuc (suc n)) w = none
thread_throw locked i th (pos n) w =
    let wants : Runtime = record w { kthread_wanted = update w.kthread_wanted th (pos n) } in
    let r : ℕ = n % w.maxks in
    let k : Kthread = w.kthread r in
    if (i == r) || not (locked && not (k.detached || k.parked))
    then thread_ready i th wants
    else some (set_state th runnable (put r (throw_to th k) wants))

-- The copying loop of `steal_work`: `count` threads from position `tail` of the remote queue on go to the
-- slots of the local one from `i` on.
unfoldable pub copy : ℕ → ℕ → ℕ → (ℕ → Thread) → (ℕ → Thread) → ℕ → Thread
copy zero i tail remote rq = rq
copy (suc count) i tail remote rq =
    copy count (i + 1) (add32 tail 1) remote (update rq i (remote (tail % rq_size)))

-- `div_up(avail, 2)`
abbrev pub half : ℕ → ℕ
half avail = add32 avail 1 / 2

-- what stealing `n` threads from the runqueue of `r` makes of the thief `l`
abbrev pub thief : ℕ → Kthread → Kthread → Kthread
thief n l r = record l { rq = copy n 0 r.rq_tail r.rq l.rq; rq_head = n; q_head = add32 l.q_head n }

-- and of `r`
abbrev pub robbed : ℕ → Kthread → Kthread
robbed n r = record r { rq_tail = add32 r.rq_tail n; q_tail = add32 r.q_tail n }

-- What is outside the program in one attempt to steal: whether the lock was free, the thread that the
-- allocator would give to a softirq, and the clock.
pub record Try : Type 0 where
  pub locked : Bool
  pub granted : Option Thread
  pub now : ℕ

abbrev pub is_some {ℓ} : {A : Type ℓ} → Option A → Bool
is_some none = false
is_some (some a) = true

abbrev pub with_work : Option Thread → Option Work → Option Thread
with_work granted none = none
with_work granted (some work) = granted

abbrev pub made_runnable : Option Thread → Runtime → Runtime
made_runnable none w = w
made_runnable (some th) w = set_state th runnable w

-- what `softirq_run_thread` leaves of kthread `r` and of the thread that it has been granted
abbrev pub started :
    Option Thread → ℕ → Runtime → Option Work × ChanIn × Shared → Option Thread × Runtime
started granted r w (work, rxq, rx) = (
  with_work granted work,
  made_runnable (with_work granted work) (put r (record (w.kthread r) { rxq = rxq; rx = rx }) w),
)

-- `softirq_run_thread` on kthread `r`: the thread that will handle its events, if there is any. What that
-- thread carries is left out.
pub softirq_thread : Option Thread → ℕ → ℕ → Runtime → Option Thread × Runtime
softirq_thread granted now r w = started granted r w (
    softirq_run_thread (is_some granted) softirq_budget now (timer_state r w) (w.kthread r).rxq
      (w.kthread r).rx)

-- the label `done` of `steal_work`, with a thread
abbrev pub enqueue_stolen : ℕ → Thread → Runtime → Runtime
enqueue_stolen i th w =
    let l : Kthread = w.kthread i in
    put i
      (record l {
        rq = update l.rq l.rq_head th;
        rq_head = add32 l.rq_head 1;
        q_head = add32 l.q_head 1;
      })
      w

abbrev pub answered : Bool → Option Runtime → Option (Bool × Runtime)
answered b none = none
answered b (some w) = some (b, w)

-- `steal_work` from the check for softirqs on
pub steal_softirq : ℕ → ℕ → Option Thread × Runtime → Option (Bool × Runtime)
steal_softirq i r (some th, w) = some (true, enqueue_stolen i th w)
steal_softirq i r (none, w) =
    if (w.kthread r).parked then answered false (detach i r w) else some (false, w)

-- `steal_work` from the check for overflow tasks on
pub steal_single : ℕ → ℕ → Try → List Thread → Runtime → Option (Bool × Runtime)
steal_single i r t (th ∷ more) w =
    some (true, enqueue_stolen i th (put r (record (w.kthread r) { rq_overflow = more }) w))
steal_single i r t [] w = steal_softirq i r (softirq_thread t.granted t.now r w)

-- `steal_work` of kthread `i` from kthread `r`; `none` is BUG or a failed assertion.
pub steal_work : ℕ → ℕ → Try → Runtime → Option (Bool × Runtime)
steal_work i r t w =
    let l : Kthread = w.kthread i in
    let k : Kthread = w.kthread r in
    let avail : ℕ = sub32 k.rq_head k.rq_tail in
    if not ((l.rq_head == 0) && (l.rq_tail == 0))
    then none
    else (if not t.locked || k.detached
        then some (false, w)
        else (if avail == 0
            then steal_single i r t k.rq_overflow w
            else (if leb (half avail) (half rq_size)
                then some (true, put i (thief (half avail) l k) (put r (robbed (half avail) k) w))
                else none)))
