-- ===== src/Sched/Sound.antt =====
-- What holds of the runtime between two steps of the scheduler.
use mathlib.Core.Path.{subst}
use libut.Common.{
  ◌∙◌, update_self, ℕ, ◌+◌, ◌≤◌, ◌<◌, ◌≡◌, refl, sym, ap, Bool, some, List, ◌∷◌, arith, update,
  update-field,
}
use libut.Common.Totals.{total, total-update, total-same, weight-cons}
use libut.Timer.{TimerIdx}
use libut.Timer.Start.{IsValid}
use libut.Kthread.{
  Thread, ThreadState, running, runnable, sleeping, set_state, Kthread, Runtime, put, timer_state,
}
use libut.Kthread.Attached.{IsAttached, Attached-ext}
use libut.Kthread.Timely.{all_timers, timers_of, timern_of, IsTimely}
use libut.Kthread.Detach.{Kept, erased}
use libut.Sched.{push, thread_ready}
use libut.Sched.Queue.{IsQueued, queues, push_lem}
use libut.Sched.Once.{
  Once, exchange, times, load, waiting, is_thread, in_queues, in-pushed, waiting-update, ready-some,
}

-- Every runnable thread is in one queue, once, or is carried; the array of attached kthreads is right; and
-- each kthread has a valid heap of timers.
pub record IsSound (carried : List Thread) (w : Runtime) : Type 0 where
  pub once : Once carried w
  pub attached : IsAttached w
  pub timely : IsTimely w

-- the fields of a kthread that moving threads leaves alone
pub record Fixed : Type 0 where
  pub detached : Bool
  pub timers : ℕ → TimerIdx
  pub timern : ℕ

abbrev pub fixed : Kthread → Fixed
fixed k = record { detached = k.detached; timers = k.timers; timern = k.timern }

put_state :
    (i : ℕ) (k : Kthread) (w : Runtime)
    → fixed k ≡ fixed (w.kthread i)
    → (j : ℕ) → timer_state j (put i k w) ≡ timer_state j w
put_state i k w e j =
    update-field (λ k. record { timers = k.timers; timern = k.timern; entry = w.entry }) w.kthread i
      k (ap (λ (x : Fixed). record { timers = x.timers; timern = x.timern; entry = w.entry }) e) j

put-Timely :
    (i : ℕ) (k : Kthread) (w : Runtime)
    → i < w.maxks
    → fixed k ≡ fixed (w.kthread i)
    → IsTimely w
    → IsTimely (put i k w)
put-Timely i k w h e t = record {
  valid = λ j lt. subst (IsValid j) (sym (put_state i k w e j)) (t.valid j lt);
  room = omega (
    arith,
    t.room,
    total-update timern_of w.maxks w.kthread i k h,
    ap (λ (x : Fixed). x.timern) e,
  );
}

-- Moving threads moves no timer.
pub put-timers :
    (i : ℕ) (k : Kthread) (w : Runtime)
    → i < w.maxks
    → fixed k ≡ fixed (w.kthread i)
    → (f : TimerIdx → ℕ) → all_timers f (put i k w) ≡ all_timers f w
put-timers i k w h e f = omega (
  arith,
  total-update (timers_of f) w.maxks w.kthread i k h,
  ap (λ (x : Fixed). total f x.timers x.timern) e,
)

-- The step that all operations are made of: kthread `i` becomes `k`, and threads change their state.
pub move :
    {c c' : List Thread} {w : Runtime} (i : ℕ) (k : Kthread) (state : Thread → ThreadState)
    → IsSound c w
    → i < w.maxks
    → fixed k ≡ fixed (w.kthread i)
    → IsQueued k
    → ((t : Thread)
        → load t k + times t c' + waiting (w.state t)
          ≡ load t (w.kthread i) + times t c + waiting (state t))
    → IsSound c' (record w { kthread = update w.kthread i k; state = state })
move {w = w} i k state s h e v balance =
    let t = put-Timely i k w h e s.timely in
    record {
      once = exchange i k state s.once h v balance;
      attached =
          Attached-ext
            (λ j.
              sym
                (update-field (λ k. k.detached) w.kthread i k (ap (λ (x : Fixed). x.detached) e) j))
            s.attached;
      timely = record { valid = t.valid; room = t.room };
    }

erased-Queued : (k : Kthread) → IsQueued k → IsQueued (erased k)
erased-Queued k v = record {
  head = v.head;
  tail = v.tail;
  fits = v.fits;
  rrq_head = v.rrq_head;
  rrq_order = v.rrq_order;
  rrq_fits = v.rrq_fits;
}

Queued-erased : (k : Kthread) → IsQueued (erased k) → IsQueued k
Queued-erased k v = record {
  head = v.head;
  tail = v.tail;
  fits = v.fits;
  rrq_head = v.rrq_head;
  rrq_order = v.rrq_order;
  rrq_fits = v.rrq_fits;
}

-- Detaching a kthread moves no thread.
pub Kept-Sound : {c : List Thread} {w w' : Runtime} → IsSound c w → Kept w w' → IsSound c w'
Kept-Sound {c} {w} {w'} s k = record {
  once = record {
    queued = λ j h. Queued-erased (w'.kthread j) (
        subst IsQueued (sym (k.same j))
          (erased-Queued (w.kthread j) (s.once.queued j (omega (arith, h, k.maxks)))));
    once = λ t. omega (
      arith,
      s.once.once t,
      total-same (load t) w.maxks w'.kthread w.kthread (λ j h. ap (load t) (k.same j)),
      ap (total (load t) w'.kthread) k.maxks,
      ap (λ (f : Thread → ThreadState). waiting (f t)) k.state,
    );
  };
  attached = k.attached;
  timely = k.timely;
}

waiting-le : (s : ThreadState) → waiting s ≤ 1
waiting-le runnable = omega arith
waiting-le running = omega arith
waiting-le sleeping = omega arith

waiting_pos : (s : ThreadState) → 0 < waiting s → s ≡ runnable
waiting_pos runnable h = refl
waiting_pos running h = absurd (omega (arith, h))
waiting_pos sleeping h = absurd (omega (arith, h))

-- A thread on its way is runnable.
pub carried-runnable :
    {c : List Thread} {w : Runtime} (th : Thread) → IsSound (th ∷ c) w → w.state th ≡ runnable
carried-runnable {c} {w} th v =
    waiting_pos (w.state th) (ground (arith, v.once.once th, weight-cons (is_thread th) th c))

-- Once it is marked otherwise, no queue has to hold it.
pub settle :
    {c : List Thread} {w : Runtime} (th : Thread) (s : ThreadState)
    → waiting s ≡ 0
    → IsSound (th ∷ c) w
    → IsSound c (set_state th s w)
settle {c} {w} th s e v = record {
  once = record {
    queued = v.once.queued;
    once = λ t. ground (
      arith,
      v.once.once t,
      weight-cons (is_thread t) th c,
      waiting-le (w.state th),
      e,
      ap w.state {x = th} {y = t},
    );
  };
  attached = v.attached;
  timely = record { valid = v.timely.valid; room = v.timely.room };
}

push-fixed : (th : Thread) (k k' : Kthread) → push th k ≡ some k' → fixed k' ≡ fixed k
unfolding push
push-fixed th k k' e = ground (arith, e)

-- `thread_ready` in a sound runtime, which leaves the thread in the queues of kthread `i`
pub ready-Sound :
    (i : ℕ) (th : Thread) {c : List Thread} (w : Runtime)
    → IsSound c w
    → i < w.maxks
    → w.state th ≡ sleeping
    → (w' : Runtime) × (thread_ready i th w ≡ some w')
      × IsSound c w'
      × (w'.maxks ≡ w.maxks)
      × ((t : Thread) → load t (w'.kthread i) ≡ load t (w.kthread i) + is_thread t th)
ready-Sound i th {c} w s h e =
    let (k, a, v, q) = push_lem (w.kthread i) (s.once.queued i h) th in
    (
      set_state th runnable (put i k w),
      ready-some i th w k e a,
      move i k (update w.state th runnable) s h (push-fixed th (w.kthread i) k a) v (λ t. omega (
        arith,
        ap (in_queues t) q,
        in-pushed t th (queues (w.kthread i)),
        waiting-update w.state th t (ap waiting e),
      )),
      refl,
      λ t.
          ap (load t) (update_self w.kthread i k)
          ∙ omega (arith, ap (in_queues t) q, in-pushed t th (queues (w.kthread i))),
    )
