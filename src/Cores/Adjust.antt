-- ===== src/Cores/Adjust.antt =====
-- hwalloc/cores.c: which processes get more cores, and when.
use libut.Common.{
  ℕ, ◌^◌, Bool, true, false, not, ◌||◌, Option, none, some, List, [], ◌∷◌, ltb, leb, ◌==◌,
  if◌then◌else◌, ◌>>=◌, update, slice,
}
use libut.Common.Words.{sub32}
use libut.Cores.{World, Thread, Proc, proc_clear_overloaded, proc_set_overloaded}
use libut.Cores.Alloc.{cores_add_core}

-- `wraps_lt`: the sign of a difference of 32 bits
abbrev pub wraps_lt : ℕ → ℕ → Bool
wraps_lt a b = leb (2 ^ 31) (sub32 a b)

-- What is read of the queues of a thread: the ends of its runqueue, and of its channel of commands.
pub record Reading : Type 0 where
  pub rq_tail : ℕ
  pub rq_head : ℕ
  pub rxq_tail : ℕ
  pub rxq_head : ℕ

-- The fields of the threads that `cores_is_proc_congested` reads and writes. `waking` marks a thread that
-- has been woken; its first look without congestion before it clears the mark.
pub record Watch : Type 0 where
  pub last_rq_head : Thread → ℕ
  pub last_rxq_head : Thread → ℕ
  pub waking : Thread → Bool

-- Something that was in a queue of the thread at the last look is still there.
abbrev pub stuck : Reading → ℕ → ℕ → Bool
stuck r last_rq_head last_rxq_head =
    wraps_lt r.rq_tail last_rq_head || wraps_lt r.rxq_tail last_rxq_head

-- the updates of the queue positions
abbrev pub looked_at : Thread → Reading → Watch → Watch
looked_at th r s = record s {
  last_rq_head = update s.last_rq_head th r.rq_head;
  last_rxq_head = update s.last_rxq_head th r.rxq_head;
}

-- one round of the loop of `cores_is_proc_congested`
unfoldable pub look : Thread → Reading → Bool → Watch → Bool × Watch
look th r congested s =
    let s' : Watch = looked_at th r s in
    if congested
    then (true, s')
    else (if s.waking th
        then (false, record s' { waking = update s.waking th false })
        else (stuck r (s.last_rq_head th) (s.last_rxq_head th), s'))

-- the loop, over the active threads
unfoldable pub scan : (Thread → Reading) → List Thread → Bool × Watch → Bool × Watch
scan read [] (b, s) = (b, s)
scan read (th ∷ ths) (b, s) = scan read ths (look th (read th) b s)

-- `cores_is_proc_congested`; `due` tells whether a pending timer of the process is.
unfoldable pub cores_is_proc_congested :
    (Thread → Reading) → Bool → List Thread → Watch → Bool × Watch
cores_is_proc_congested read due ths s = let (b, s') = scan read ths (false, s) in (due || b, s')

-- the active threads of a process
abbrev pub active_threads : Proc → List Thread
active_threads q = slice q.active.slots 0 q.active.count

-- The queue positions that are remembered, and what is read in this round: of the threads, and whether a
-- timer of a process is due.
pub record Round : Type 0 where
  pub read : Thread → Reading
  pub due : ℕ → Bool
  pub pinned : Bool
  pub cpu_count : ℕ

abbrev pub with_watch : Watch → World → World
with_watch s w = record w { threads = record w.threads { waking = s.waking } }

abbrev pub watch_of : Watch → World → Watch
watch_of s w = record s { waking = w.threads.waking }

abbrev pub grown_world : Option (Option Thread × World) → Option World
grown_world none = none
grown_world (some (th, w)) = some w

-- the first loop of `cores_adjust_assignments`, on a process that is congested or not
abbrev pub if_congested : Round → ℕ → Bool × Watch → World → Option (World × Watch)
if_congested r p (false, s) w = some (with_watch s w, s)
if_congested r p (true, s) w =
    let v : World = with_watch s w in
    let q : Proc = v.proc p in
    if ltb q.active.count q.guaranteed_cores
    then (grown_world (cores_add_core r.pinned r.cpu_count p v) >>= λ u. some (u, s))
    else some (proc_set_overloaded p v, s)

abbrev pub adjust_proc : Round → ℕ → World × Watch → Option (World × Watch)
adjust_proc r p (w, s) =
    let q : Proc = w.proc p in
    let v : World =
      if not (sub32 q.active.count q.inflight_preempts == 0)
      then proc_clear_overloaded p w
      else w in
    if_congested r p (cores_is_proc_congested r.read (r.due p) (active_threads q) (watch_of s v)) v

-- the first loop, over the clients
unfoldable pub adjust_procs : Round → List ℕ → World × Watch → Option (World × Watch)
adjust_procs r [] x = some x
adjust_procs r (p ∷ ps) x = adjust_proc r p x >>= λ y. adjust_procs r ps y

-- The second loop, over the list of overloaded processes as it was before. A process leaves the list when
-- it gets a core, and those that join it do so at its front.
unfoldable pub grant : Bool → ℕ → List ℕ → World → Option World
grant pinned cpu_count [] w = some w
grant pinned cpu_count (p ∷ ps) w =
    let more : Option World =
      grown_world (cores_add_core pinned cpu_count p w) >>= λ v. grant pinned cpu_count ps v in
    if w.cores.nr_avail_cores == 0 then some w else more

-- `cores_adjust_assignments`
unfoldable pub cores_adjust_assignments : Round → List ℕ → World × Watch → Option (World × Watch)
cores_adjust_assignments r clients x = adjust_procs r clients x >>= λ y.
    grant r.pinned r.cpu_count y.0.overloaded_procs y.0 >>= λ v. some (v, y.1)
