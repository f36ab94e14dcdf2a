-- ===== src/Kthread.antt =====
-- runtime/defs.h and runtime/kthread.c: the kernel threads of the runtime, the array of those that are
-- attached, and how one parks.
pub mod Attached
pub mod Timely
pub mod Detach
pub mod Park
pub mod Samples
mod Tests
use libut.Common.{
  ℕ, zero, suc, ◌+◌, ◌-◌, ◌*◌, ◌/◌, ◌%◌, ◌^◌, ◌≤◌, ◌<◌, min, max, bit_and, bit_or, ◌≡◌, refl, sym,
  ap, ap₂, ◌∙◌, fun_ext, ◌≢◌, ◌↔◌, ◌⊎◌, inl, inr, Bool, true, false, not, ◌&&◌, ◌||◌, Option, none,
  some, List, [], ◌∷◌, ◌++◌, map, append-nil, append_assoc, arith, dec_lt, ℕ_discrete, ltb, leb,
  ◌==◌, if◌then◌else◌, ltb→lt, lt→ltb, leb→le, ==_iff, Bool-cases, Option-cases, ◌>>=◌, >>=-some,
  length, get_elem?, take, drop, update, slice, length-append, length-slice, update_self, update_ne,
  get_elem?-snoc, length-take, take_all, get_elem?-append_some, update-field, update-all,
  take-append-drop, ◌≡⟨◌⟩◌, ◌∎,
}
use libut.Common.Int.{ℤ, pos, negsuc}
use libut.Common.Words.{add32, sub32, sub64}
use libut.Lrpc.{Shared, ChanIn, ChanOut, is_empty, cached_length, poll_send_tail}
use libut.Timer.{TimerIdx, TimerEntry, State, earliest_deadline, merge}

-- a `thread_t *`
abbrev pub Thread : Type 0
Thread = ℕ

-- the states of a `struct libut_thread`
pub data ThreadState : Type 0 where
  running runnable sleeping : ThreadState

-- `struct kthread`, less its locks and statistics. `rx` and `tx` are the memory of its two channels,
-- `q_head` and `q_tail` the counters that it shows to the core allocator through `q_ptrs`.
pub record Kthread : Type 0 where
  pub rq_head : ℕ
  pub rq_tail : ℕ
  pub rq_overflow : List Thread
  pub rxq : ChanIn
  pub rx : Shared
  pub parked : Bool
  pub detached : Bool
  pub q_head : ℕ
  pub q_tail : ℕ
  pub txq : ChanOut
  pub tx : Shared
  pub rq : ℕ → Thread
  pub rrq : ℕ → Thread
  pub rrq_head : ℕ
  pub rrq_tail : ℕ
  pub timern : ℕ
  pub timers : ℕ → TimerIdx

-- The runtime: its kthreads by their place in `allks`, the attached ones `ks[0..nrks)`, the fields of
-- the threads that the scheduler reads, and the timer entries of the program.
pub record Runtime : Type 0 where
  pub kthread : ℕ → Kthread
  pub maxks : ℕ
  pub ks : ℕ → ℕ
  pub nrks : ℕ
  pub state : Thread → ThreadState
  pub kthread_wanted : Thread → ℤ
  pub entry : ℕ → TimerEntry

-- `allks[i]` with new contents
abbrev pub put : ℕ → Kthread → Runtime → Runtime
put i k w = record w { kthread = update w.kthread i k }

abbrev pub set_state : Thread → ThreadState → Runtime → Runtime
set_state th s w = record w { state = update w.state th s }

abbrev pub is_cons {ℓ} : {A : Type ℓ} → List A → Bool
is_cons [] = false
is_cons (x ∷ xs) = true

-- `kthread_attach`; `none` is a failed assertion.
pub attach : ℕ → Runtime → Option Runtime
attach i w =
    let k : Kthread = w.kthread i in
    if k.parked || not k.detached || leb w.maxks w.nrks
    then none
    else some (record (put i (record k { detached = false }) w) {
      ks = update w.ks w.nrks i;
      nrks = w.nrks + 1;
    })

-- The search of `kthread_detach`: the first of `count` places from `i` on that names kthread `r`.
unfoldable pub find : ℕ → (ℕ → ℕ) → ℕ → ℕ → Option ℕ
find r ks i zero = none
find r ks i (suc count) = let rest = find r ks (i + 1) count in if ks i == r then some i else rest

-- the timer fields of a kthread, as timer.c sees them
abbrev pub timer_state : ℕ → Runtime → State
timer_state i w = record {
  timers = (w.kthread i).timers;
  timern = (w.kthread i).timern;
  entry = w.entry;
}

-- The assertions at the end of `kthread_detach`, and its last store.
pub detached_from : Kthread → Option Kthread
detached_from k =
    if not (k.rq_head == k.rq_tail) || is_cons k.rq_overflow || not (k.timern == 0)
    then none
    else some (record k { detached = true })

-- Kthread `i` has the timers `s`, kthread `r` is `k`, and the last of `ks` has taken the place `at`.
abbrev pub removed : ℕ → ℕ → ℕ → Runtime → State → Kthread → Runtime
removed i r at w s k = record w {
  kthread =
      update (update w.kthread i (record (w.kthread i) { timers = s.timers; timern = s.timern })) r
        k;
  ks = update w.ks at (w.ks (w.nrks - 1));
  nrks = w.nrks - 1;
  entry = s.entry;
}

-- `kthread_detach` from the label `found` on, with `at` the place of `r` in `ks`
pub remove : ℕ → ℕ → ℕ → Runtime → Option Runtime
remove i r at w = elim (merge i (w.kthread r).timers (w.kthread r).timern (timer_state i w)) [
  | none ↦ none
  | some (s, left) ↦ elim (detached_from (record (w.kthread r) { timern = left })) [
    | none ↦ none
    | some k ↦ some (removed i r at w s k)
  ]
]

-- `lrpc_poll_send_tail(&r->txq)`
abbrev pub polled_txq : Kthread → ChanOut
polled_txq k = (poll_send_tail k.txq k.tx).1

abbrev pub polled : ℕ → Runtime → Runtime
polled r w = put r (record (w.kthread r) { txq = polled_txq (w.kthread r) }) w

-- `kthread_detach` of kthread `r` by kthread `i`. It returns early if commands of `r` are still on
-- their way. `none` is BUG, or a failed assertion.
pub detach : ℕ → ℕ → Runtime → Option Runtime
detach i r w =
    let k : Kthread = w.kthread r in
    if (r == i) || not k.parked || k.detached
    then none
    else (if ltb 0 (cached_length (polled_txq k))
        then some (polled r w)
        else (if not (is_empty k.rxq k.rx) then some (polled r w) else elim (find r w.ks 0 w.nrks) [
          | none ↦ none
          | some at ↦ remove i r at (polled r w)
        ]))

-- `TXCMD_PARKED` and `TXCMD_PARKED_LAST`
pub data Cmd : Type 0 where
  txcmd_parked txcmd_parked_last : Cmd

-- The payload of a park command: 0, the kthread's address, or the time until its first timer.
pub data Payload : Type 0 where
  nothing self : Payload
  after : ℕ → Payload

-- the sign of a 64-bit word read as an `int64_t`, or its being 0
abbrev pub not_positive : ℕ → Bool
not_positive x = x == 0 || leb (2 ^ 63) x

-- the command of a kthread that parks with `remaining` others running and its timers in `s`
pub park_cmd : Bool → ℕ → ℕ → State → Cmd × Payload
park_cmd voluntary remaining now s =
    let deadline : ℕ = earliest_deadline s in
    let wait : ℕ = sub64 deadline now in
    if not voluntary
    then (txcmd_parked, self)
    else (if s.timern == 0
        then (txcmd_parked, nothing)
        else (if not (remaining == 0)
            then (txcmd_parked, self)
            else (if deadline == 0
                then (txcmd_parked_last, nothing)
                else (if not_positive wait
                    then (txcmd_parked, self)
                    else (txcmd_parked_last, after wait)))))

-- What a call of `kthread_park` does before it sleeps: whether it parks, with which command, and the
-- number of running kthreads that it leaves.
pub record Parking : Type 0 where
  pub sent : Option (Cmd × Payload)
  pub runningks : ℕ
  pub runtime : Runtime

-- `kthread_park` of kthread `i`, until it waits for the core allocator. `seen` is what it first reads
-- of `runningks`, and `runningks` the value at its atomic decrement.
pub park : Bool → ℕ → ℕ → ℕ → ℕ → ℕ → Runtime → Option Parking
park voluntary i spinks seen runningks now w =
    let k : Kthread = w.kthread i in
    let staying : Parking = record { sent = none; runningks = runningks; runtime = w } in
    if k.parked
    then none
    else (if leb seen spinks
        then some staying
        else (if ltb runningks (spinks + 1)
            then some staying
            else some record {
              sent = some (park_cmd voluntary (runningks - 1) now (timer_state i w));
              runningks = runningks - 1;
              runtime = put i (record k { parked = true }) w;
            }))

-- kthread `i` with `parked` cleared
abbrev pub woken : ℕ → Runtime → Runtime
woken i w = put i (record (w.kthread i) { parked = false }) w

abbrev pub with_runningks : ℕ → Option Runtime → Option (ℕ × Runtime)
with_runningks n none = none
with_runningks n (some w) = some (n, w)

-- `kthread_park` from there on: the core allocator has woken kthread `i`.
pub unpark : ℕ → ℕ → Runtime → Option (ℕ × Runtime)
unpark i runningks w =
    with_runningks (runningks + 1)
      (if (w.kthread i).detached then attach i (woken i w) else some (woken i w))
