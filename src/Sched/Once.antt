-- ===== src/Sched/Once.antt =====
-- Every thread that is runnable stands in exactly one queue of one kthread, once, and no other thread
-- stands in any.
use libut.Common.{
  ℕ, suc, ◌+◌, ◌-◌, ◌%◌, ◌^◌, ◌<◌, ◌≡◌, refl, ap, inl, inr, Bool, not, ◌&&◌, ◌||◌, some, List, [],
  ◌∷◌, ◌++◌, arith, ◌==◌, if◌then◌else◌, Bool-cases, >>=-some, length, take, drop, update,
  update-all, take-append-drop,
}
use libut.Common.Int.{pos}
use libut.Common.Totals.{total, total-update, weight, weight-append}
use native.Mathlib.Nat.{mod-lt}
use libut.Kthread.{Thread, ThreadState, runnable, sleeping, Kthread, Runtime, put, set_state}
use libut.Sched.{rq_size, push, thread_ready, throw_to, thread_throw}
use libut.Sched.Queue.{IsQueued, Queues, queues, pushed, thrown, drained, push_lem, throw_to_lem}

-- 1 for the thread `t`
abbrev pub is_thread : Thread → Thread → ℕ
is_thread t th = if th == t then 1 else 0

-- how often `t` is in a list
abbrev pub times : Thread → List Thread → ℕ
times t = weight (is_thread t)

abbrev pub in_queues : Thread → Queues → ℕ
in_queues t q = times t q.ready + times t q.overflow + times t q.targeted

abbrev pub load : Thread → Kthread → ℕ
load t k = in_queues t (queues k)

abbrev pub waiting : ThreadState → ℕ
waiting runnable = 1
waiting _ = 0

-- The queues hold the runnable threads, but for those in `carried`, which are on their way from one queue
-- to another.
pub record Once (carried : List Thread) (w : Runtime) : Type 0 where
  pub queued : (j : ℕ) → j < w.maxks → IsQueued (w.kthread j)
  pub once : (t : Thread) → total (load t) w.kthread w.maxks + times t carried ≡ waiting (w.state t)

times-snoc : (t th : Thread) (l : List Thread) → times t (l ++ th ∷ []) ≡ times t l + is_thread t th
unfolding weight
times-snoc t th l = omega (arith, weight-append (is_thread t) l (th ∷ []))

pub in-pushed :
    (t th : Thread) (q : Queues) → in_queues t (pushed th q) ≡ in_queues t q + is_thread t th
in-pushed t th q = ground (arith, times-snoc t th q.ready, times-snoc t th q.overflow)

pub in-thrown :
    (t th : Thread) (q : Queues) → in_queues t (thrown th q) ≡ in_queues t q + is_thread t th
in-thrown t th q = ground (arith, times-snoc t th q.targeted, times-snoc t th q.overflow)

pub in-drained : (t : Thread) (q : Queues) → in_queues t (drained q) ≡ in_queues t q
in-drained t q =
    let free : ℕ = rq_size - length q.ready in
    omega (
      arith,
      weight-append (is_thread t) q.ready (take free q.overflow),
      weight-append (is_thread t) (take free q.overflow) (drop free q.overflow),
      ap (times t) (take-append-drop free q.overflow),
    )

-- The step that all operations are made of: kthread `i` becomes `k`.
pub exchange :
    {c c' : List Thread} {w : Runtime} (i : ℕ) (k : Kthread) (state : Thread → ThreadState)
    → Once c w
    → i < w.maxks
    → IsQueued k
    → ((t : Thread)
        → load t k + times t c' + waiting (w.state t)
          ≡ load t (w.kthread i) + times t c + waiting (state t))
    → Once c' (record w { kthread = update w.kthread i k; state = state })
exchange {w = w} i k state o h v balance = record {
  queued = λ j lt. update-all IsQueued w.kthread i k j v (λ ne. o.queued j lt);
  once = λ t. omega (arith, balance t, o.once t, total-update (load t) w.maxks w.kthread i k h);
}

-- a thread that starts to wait
pub waiting-update :
    (state : Thread → ThreadState) (th t : Thread)
    → waiting (state th) ≡ 0
    → waiting (update state th runnable t) ≡ waiting (state t) + is_thread t th
waiting-update state th t e = ground (arith, e)

pub ready-some :
    (i : ℕ) (th : Thread) (w : Runtime) (k : Kthread)
    → w.state th ≡ sleeping
    → push th (w.kthread i) ≡ some k
    → thread_ready i th w ≡ some (set_state th runnable (put i k w))
unfolding thread_ready
ready-some i th w k e a =
    rw (e, thread_ready) (>>=-some (λ k. some (set_state th runnable (put i k w))) a)

pub ready_lem :
    (i : ℕ) (th : Thread) {c : List Thread} (w : Runtime)
    → Once c w
    → i < w.maxks
    → w.state th ≡ sleeping
    → (w' : Runtime) × (thread_ready i th w ≡ some w')
      × Once c w'
      × (w'.state ≡ update w.state th runnable)
      × (w'.maxks ≡ w.maxks)
ready_lem i th w o h e =
    let (k, a, v, q) = push_lem (w.kthread i) (o.queued i h) th in
    (
      set_state th runnable (put i k w),
      ready-some i th w k e a,
      exchange i k (update w.state th runnable) o h v (λ t. omega (
        arith,
        ap (in_queues t) q,
        in-pushed t th (queues (w.kthread i)),
        waiting-update w.state th t (ap waiting e),
      )),
      refl,
      refl,
    )

throw_away :
    (i : ℕ) (th : Thread) (n : ℕ) {c : List Thread} (w : Runtime)
    → Once c w
    → n % w.maxks < w.maxks
    → w.state th ≡ sleeping
    → suc (w.kthread (n % w.maxks)).rrq_head < 2 ^ 32
    → Once c (set_state th runnable (put (n % w.maxks) (throw_to th (w.kthread (n % w.maxks))) w))
throw_away i th n w o h e small =
    let (v, q) = throw_to_lem (w.kthread (n % w.maxks)) (o.queued (n % w.maxks) h) th small in
    exchange (n % w.maxks) (throw_to th (w.kthread (n % w.maxks))) (update w.state th runnable) o h
      v
      (λ t. omega (
        arith,
        ap (in_queues t) q,
        in-thrown t th (queues (w.kthread (n % w.maxks))),
        waiting-update w.state th t (ap waiting e),
      ))

-- the test of `thread_throw`
abbrev keeps : Bool → ℕ → ℕ → Runtime → Bool
keeps locked i n w =
    let k : Kthread = w.kthread (n % w.maxks) in
    (i == n % w.maxks) || not (locked && not (k.detached || k.parked))

-- Throwing a sleeping thread at a kthread, whether it goes there or stays, makes it runnable and puts it
-- in exactly one queue, as long as the positions of the queue of targeted threads have not wrapped: the
-- tail is not above the head, and the head is below 2^32 - 1.
pub throw_lem :
    (locked : Bool) (i : ℕ) (th : Thread) (n : ℕ) {c : List Thread} (w : Runtime)
    → Once c w
    → i < w.maxks
    → w.state th ≡ sleeping
    → suc (w.kthread (n % w.maxks)).rrq_head < 2 ^ 32
    → (w' : Runtime) × (thread_throw locked i th (pos n) w ≡ some w')
      × Once c w'
      × (w'.state ≡ update w.state th runnable)
unfolding thread_throw
throw_lem locked i th n {c} w o h e small = elim (Bool-cases (keeps locked i n w)) [
  | inl stays ↦
      let wants : Runtime = record w { kthread_wanted = update w.kthread_wanted th (pos n) } in
      let o' : Once c wants = record { queued = o.queued; once = o.once } in
      let (w', a, b, s, _) = ready_lem i th wants o' h e in (w', rw stays a, b, s)
  | inr goes ↦
      let wants : Runtime = record w { kthread_wanted = update w.kthread_wanted th (pos n) } in
      let o' : Once c wants = record { queued = o.queued; once = o.once } in
      (
        set_state th runnable (put (n % w.maxks) (throw_to th (w.kthread (n % w.maxks))) wants),
        rw goes refl,
        throw_away i th n wants o' (omega (arith, mod-lt n {m = w.maxks} (omega (arith, h)))) e
            small,
        refl,
      )
]
