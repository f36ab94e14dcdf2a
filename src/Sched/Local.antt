-- ===== src/Sched/Local.antt =====
-- The local part of a round of `schedule`: which thread it takes, and what it leaves.
use libut.Common.{
  ℕ, ◌<◌, ◌≡◌, refl, sym, ap, ap₂, ◌∙◌, ◌≢◌, ◌⊎◌, inl, inr, Option, none, some, List, [], ◌∷◌,
  arith, update, update_self,
}
use libut.Common.Totals.{weight-nil, weight-cons}
use libut.Kthread.{Thread, sleeping, runnable, Kthread, Runtime, put, set_state}
use libut.Sched.{drain_loop, drain_overflow, pop_rq, pop_rrq, softirq_thread, store_rq}
use libut.Sched.Queue.{IsQueued, Queues, queues, drained, runq, wanted, pop_rq_lem, pop_rrq_lem}
use libut.Sched.Drain.{drain_lem}
use libut.Sched.Refine.{empty_ring, empty_wanted, some_ring, some_wanted}
use libut.Sched.Ring.{ring}
use libut.Sched.Once.{times, is_thread, in_queues, in-drained, load, waiting, waiting-update}
use libut.Sched.Sound.{IsSound, fixed, move}
use libut.Sched.Granted.{idle, busy, softirq_cases, taken}
use libut.Sched.Round.{pick_local, local_thread}
use libut.Sched.Search.{CanSearch}

-- The thread that goes first: the oldest targeted one, then the oldest of the runqueue.
abbrev pub front : List Thread → List Thread → Option Thread
front (th ∷ rest) ready = some th
front [] (th ∷ rest) = some th
front [] [] = none

abbrev pub first_choice : Queues → Option Thread
first_choice q = front q.targeted (drained q).ready

-- What the local part comes to.
pub data Local (granted : Option Thread) (now i : ℕ) (w : Runtime) : Type 0 where
  found :
      (th : Thread) (u : Runtime)
      → local_thread granted now i w ≡ (some th, u)
      → IsSound (th ∷ []) u
      → u.maxks ≡ w.maxks
      → (first_choice (queues (w.kthread i)) ≡ none)
        ⊎ (first_choice (queues (w.kthread i)) ≡ some th)
      → Local granted now i w
  nothing :
      (u : Runtime)
      → local_thread granted now i w ≡ (none, u)
      → CanSearch i u
      → u.state ≡ w.state
      → u.nrks ≡ w.nrks
      → u.maxks ≡ w.maxks
      → first_choice (queues (w.kthread i)) ≡ none
      → Local granted now i w

drain_loop-fixed : (l : List Thread) (k : Kthread) → fixed (drain_loop l k) ≡ fixed k
unfolding drain_loop
drain_loop-fixed [] k = refl
drain_loop-fixed (th ∷ more) k = ground (arith, drain_loop-fixed more (store_rq th k))

pub drain-fixed : (k : Kthread) → fixed (drain_overflow k) ≡ fixed k
unfolding drain_overflow
drain-fixed k = drain_loop-fixed k.rq_overflow k

pub pop_rq-fixed : (k : Kthread) → fixed (pop_rq k).1 ≡ fixed k
unfolding pop_rq
pop_rq-fixed k = refl

pop_rrq-fixed : (k : Kthread) → fixed (pop_rrq k).1 ≡ fixed k
unfolding pop_rrq
pop_rrq-fixed k = refl

-- with the queue of targeted threads reset, and with both
abbrev reset_rrq : Kthread → Kthread
reset_rrq k = record k { rrq_head = 0; rrq_tail = 0 }

abbrev reset_rq : Kthread → Kthread
reset_rq k = record k { rrq_head = 0; rrq_tail = 0; rq_head = 0; rq_tail = 0 }

module _ (granted : Option Thread) (now i : ℕ) (k : Kthread) (w : Runtime) where
  pick_targeted :
      k.rrq_head ≢ k.rrq_tail
      → pick_local granted now i k w ≡ (some (pop_rrq k).0, put i (pop_rrq k).1 w)
  unfolding pick_local
  pick_targeted ne = ground (arith, ne)

  pick_ready :
      k.rrq_head ≡ k.rrq_tail
      → k.rq_head ≢ k.rq_tail
      → pick_local granted now i k w
        ≡ (some (pop_rq (reset_rrq k)).0, put i (pop_rq (reset_rrq k)).1 w)
  unfolding pick_local
  pick_ready e ne = ground (arith, e, ne)

  pick_softirq :
      k.rrq_head ≡ k.rrq_tail
      → k.rq_head ≡ k.rq_tail
      → pick_local granted now i k w ≡ softirq_thread granted now i (put i (reset_rq k) w)
  unfolding pick_local
  pick_softirq e e' = ground (arith, e, e')

reset_rrq-IsQueued : (k : Kthread) → IsQueued k → IsQueued (reset_rrq k)
reset_rrq-IsQueued k v = record {
  head = v.head;
  tail = v.tail;
  fits = v.fits;
  rrq_head = omega arith;
  rrq_order = omega arith;
  rrq_fits = omega arith;
}

reset_rq-IsQueued : (k : Kthread) → IsQueued (reset_rq k)
reset_rq-IsQueued k = record {
  head = omega arith;
  tail = omega arith;
  fits = omega arith;
  rrq_head = omega arith;
  rrq_order = omega arith;
  rrq_fits = omega arith;
}

-- A queue that has been reset holds nothing.
empty_wanted-load : (k : Kthread) (t : Thread) → times t (wanted (reset_rrq k)) ≡ 0
unfolding ring
empty_wanted-load k t = weight-nil (is_thread t)

empty_runq-load : (k : Kthread) (t : Thread) → times t (runq (reset_rq k)) ≡ 0
unfolding ring
empty_runq-load k t = weight-nil (is_thread t)

-- A pop gives the front of its queue.
some_pair :
    {a b : Thread} {u : Runtime} → a ≡ b → ◌≡◌ {A = Option Thread × Runtime} (some a, u) (some b, u)
some_pair {u = u} e = ap (λ (x : Thread). (some x, u)) e

module _ (granted : Option Thread) (now i : ℕ) (w : Runtime) (s : IsSound [] w) (hi : i < w.maxks)
    (fresh : (th : Thread) → granted ≡ some th → w.state th ≡ sleeping) where
  unfoldable k : Kthread
  k = drain_overflow (w.kthread i)

  k-IsQueued : IsQueued k
  unfolding k
  k-IsQueued = (drain_lem (w.kthread i) (s.once.queued i hi)).0

  k-queues : queues k ≡ drained (queues (w.kthread i))
  unfolding k
  k-queues = (drain_lem (w.kthread i) (s.once.queued i hi)).1

  k-load : (t : Thread) → load t k ≡ load t (w.kthread i)
  k-load t = ap (in_queues t) k-queues ∙ in-drained t (queues (w.kthread i))

  k-fixed : fixed k ≡ fixed (w.kthread i)
  unfolding k
  k-fixed = drain-fixed (w.kthread i)

  k-front : first_choice (queues (w.kthread i)) ≡ front (wanted k) (runq k)
  k-front = ap (λ (q : Queues). front q.targeted q.ready) (sym k-queues)

  targeted_first : (th : Thread) (rest : List Thread) → wanted k ≡ th ∷ rest → Local granted now i w
  unfolding local_thread k
  targeted_first th rest e =
      let (a, v, q) = pop_rrq_lem k k-IsQueued th rest e in
      found th (put i (pop_rrq k).1 w)
        (pick_targeted granted now i k w (some_wanted k th rest k-IsQueued e) ∙ some_pair a)
        (move i (pop_rrq k).1 w.state s hi (pop_rrq-fixed k ∙ k-fixed) v (λ t. omega (
          arith,
          ap (in_queues t) q,
          ap (times t) e,
          k-load t,
          weight-cons (is_thread t) th rest,
          weight-cons (is_thread t) th [],
          weight-nil (is_thread t),
        )))
        refl (inr (k-front ∙ ap (λ l. front l (runq k)) e))

  ready_first :
      (th : Thread) (rest : List Thread)
      → wanted k ≡ []
      → runq k ≡ th ∷ rest
      → Local granted now i w
  unfolding local_thread k
  ready_first th rest none_wanted e =
      let r : Kthread = reset_rrq k in
      let vr : IsQueued r = reset_rrq-IsQueued k k-IsQueued in
      let (a, v, q) = pop_rq_lem r vr th rest e in
      found th (put i (pop_rq r).1 w)
        (pick_ready granted now i k w (empty_wanted k k-IsQueued none_wanted)
            (some_ring k th rest k-IsQueued e)
          ∙ some_pair a)
        (move i (pop_rq r).1 w.state s hi (pop_rq-fixed r ∙ k-fixed) v (λ t. omega (
          arith,
          ap (in_queues t) q,
          ap (times t) e,
          k-load t,
          ap (times t) none_wanted,
          empty_wanted-load k t,
          weight-cons (is_thread t) th rest,
          weight-cons (is_thread t) th [],
          weight-nil (is_thread t),
        )))
        refl (inr (k-front ∙ ap₂ front none_wanted e))

  u : Runtime
  u = put i (reset_rq k) w

  u-same : u.kthread i ≡ reset_rq k
  unfolding u
  u-same = update_self w.kthread i (reset_rq k)

  u-Sound : wanted k ≡ [] → runq k ≡ [] → IsSound [] u
  unfolding u
  u-Sound none_wanted none_ready =
      move i (reset_rq k) w.state s hi k-fixed (reset_rq-IsQueued k) (λ t. omega (
        arith,
        k-load t,
        ap (times t) none_wanted,
        ap (times t) none_ready,
        empty_wanted-load k t,
        empty_runq-load k t,
        weight-nil (is_thread t),
      ))

  u_last :
      wanted k ≡ [] → runq k ≡ [] → local_thread granted now i w ≡ softirq_thread granted now i u
  unfolding local_thread k u
  u_last none_wanted none_ready =
      pick_softirq granted now i k w (empty_wanted k k-IsQueued none_wanted)
        (empty_ring k k-IsQueued none_ready)

  softirq_last : wanted k ≡ [] → runq k ≡ [] → Local granted now i w
  unfolding u
  softirq_last none_wanted none_ready = elim (softirq_cases granted now i u) [
    | idle e ↦
        nothing u (u_last none_wanted none_ready ∙ e)
          (record {
            sound = u-Sound none_wanted none_ready;
            caller = hi;
            no_head = ap (λ (x : Kthread). x.rq_head) u-same;
            no_tail = ap (λ (x : Kthread). x.rq_tail) u-same;
          })
          refl refl refl (k-front ∙ ap₂ front none_wanted none_ready)
    | busy th rxq rx g e ↦
        let v = (u-Sound none_wanted none_ready).once.queued i hi in
        found th (set_state th runnable (taken i rxq rx u)) (u_last none_wanted none_ready ∙ e)
          (move i (record (u.kthread i) { rxq = rxq; rx = rx }) (update w.state th runnable)
            (u-Sound none_wanted none_ready) hi refl
            (record {
              head = v.head;
              tail = v.tail;
              fits = v.fits;
              rrq_head = v.rrq_head;
              rrq_order = v.rrq_order;
              rrq_fits = v.rrq_fits;
            })
            (λ t. omega (
              arith,
              waiting-update w.state th t (ap waiting (fresh th g)),
              weight-cons (is_thread t) th [],
              weight-nil (is_thread t),
            )))
          refl (inl (k-front ∙ ap₂ front none_wanted none_ready))
  ]

  by_queues : (a b : List Thread) → wanted k ≡ a → runq k ≡ b → Local granted now i w
  by_queues (th ∷ rest) b e e' = targeted_first th rest e
  by_queues [] (th ∷ rest) e e' = ready_first th rest e e'
  by_queues [] [] e e' = softirq_last e e'

  pub local_lem : Local granted now i w
  local_lem = by_queues (wanted k) (runq k) refl refl
