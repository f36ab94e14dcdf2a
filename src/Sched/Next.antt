-- ===== src/Sched/Next.antt =====
-- A whole round of `schedule`.
use libut.Common.{
  ℕ, ◌<◌, ◌≡◌, refl, sym, ap, ◌∙◌, ◌⊎◌, inl, inr, Bool, true, false, Option, none, some, List, [],
  ◌∷◌, ◌≢◌, ◌>>=◌, arith, >>=-some, update_self,
}
use libut.Common.Totals.{weight-nil, weight-cons}
use libut.Kthread.{Thread, ThreadState, running, sleeping, Kthread, Runtime, put, set_state}
use libut.Sched.{drain_overflow, pop_rq}
use libut.Sched.Queue.{queues, pop_rq_lem, runq}
use libut.Sched.Drain.{drain_lem}
use libut.Sched.Refine.{empty_ring}
use libut.Sched.Once.{times, is_thread, in_queues, in-drained}
use libut.Sched.Sound.{IsSound, move, settle, carried-runnable}
use libut.Sched.Stolen.{Tried}
use libut.Sched.Round.{Env, enter, enter_some, pop_stolen, after_local, round}
use libut.Sched.Search.{EnvFits, steal_round_lem}
use libut.Sched.Local.{found, nothing, first_choice, local_lem, drain-fixed, pop_rq-fixed}

-- Entering a thread that is on its way fails no assertion, and takes it off the queues.
enter_lem :
    (i : ℕ) (th : Thread) (w : Runtime)
    → IsSound (th ∷ []) w
    → i < w.maxks
    → (v : Runtime) × (enter i th w ≡ some v) × IsSound [] v × (v.state th ≡ running)
unfolding enter
enter_lem i th w s h =
    let k : Kthread = drain_overflow (w.kthread i) in
    let (v, q) = drain_lem (w.kthread i) (s.once.queued i h) in
    (
      set_state th running (put i k w),
      rw (carried-runnable th s, enter) refl,
      settle th running refl (
          move i k w.state s h (drain-fixed (w.kthread i)) v
            (λ t. omega (arith, ap (in_queues t) q, in-drained t (queues (w.kthread i))))),
      update_self w.state th running,
    )

-- What a round leaves: a runtime as sound as before, and a thread that runs, if it has found one.
pub record Rounded (i iters : ℕ) (env : Env) (w : Runtime) : Type 0 where
  pub out : Option Thread
  pub after : Runtime
  pub answer : round i iters env w ≡ some (out, after)
  pub sound : IsSound [] after
  pub runs : (th : Thread) → out ≡ some th → after.state th ≡ running
  pub own_first : (th : Thread) → first_choice (queues (w.kthread i)) ≡ some th → out ≡ some th

some-inj : {a b : Thread} → ◌≡◌ {A = Option Thread} (some a) (some b) → a ≡ b
some-inj {a} {b} e = ap from_some e
  where
    from_some : Option Thread → Thread
    from_some none = a
    from_some (some x) = x

module _ (i iters : ℕ) (env : Env) (w : Runtime) where
  entered :
      (th : Thread) (u : Runtime)
      → IsSound (th ∷ []) u
      → i < u.maxks
      → round i iters env w ≡ enter_some i (some th, u)
      → ((t : Thread) → first_choice (queues (w.kthread i)) ≡ some t → t ≡ th)
      → Rounded i iters env w
  unfolding enter_some
  entered th u s hu r own =
      let (v, e', s', q) = enter_lem i th u s hu in
      record {
        out = some th;
        after = v;
        answer = r ∙ >>=-some (λ x. some (some th, x)) e';
        sound = s';
        runs = λ t same. ap v.state (sym (some-inj same)) ∙ q;
        own_first = λ t f. ap some (sym (own t f));
      }

  no_own :
      first_choice (queues (w.kthread i)) ≡ none
      → {A : Type 0} (th : Thread) → first_choice (queues (w.kthread i)) ≡ some th
      → A
  no_own e th f = absurd (cc)

  popped :
      (v : Runtime)
      → (v.kthread i).rq_head ≢ (v.kthread i).rq_tail
      → pop_stolen i (true, v)
        ≡ some (some (pop_rq (v.kthread i)).0, put i (pop_rq (v.kthread i)).1 v)
  unfolding pop_stolen
  popped v work = ground (arith, work)

  with_thread :
      (v : Runtime)
      → IsSound [] v
      → i < v.maxks
      → first_choice (queues (w.kthread i)) ≡ none
      → round i iters env w ≡ (pop_stolen i (true, v) >>= enter_some i)
      → (v.kthread i).rq_head ≢ (v.kthread i).rq_tail
      → (th : Thread) (rest : List Thread) → runq (v.kthread i) ≡ th ∷ rest
      → Rounded i iters env w
  unfolding pop_stolen
  with_thread v s hv none_own r work th rest e =
      let (a, q, same) = pop_rq_lem (v.kthread i) (s.once.queued i hv) th rest e in
      entered th (put i (pop_rq (v.kthread i)).1 v)
        (move i (pop_rq (v.kthread i)).1 v.state s hv (pop_rq-fixed (v.kthread i)) q (λ t. omega (
          arith,
          ap (in_queues t) same,
          ap (times t) e,
          weight-cons (is_thread t) th rest,
          weight-cons (is_thread t) th [],
          weight-nil (is_thread t),
        )))
        hv
        (r
          ∙ >>=-some (enter_some i) (popped v work)
          ∙ ap (λ (x : Thread). enter_some i (some x, put i (pop_rq (v.kthread i)).1 v)) a)
        (λ t f. no_own none_own t f)

  stolen :
      (u v : Runtime) (b : Bool)
      → Tried i u b v
      → i < v.maxks
      → first_choice (queues (w.kthread i)) ≡ none
      → round i iters env w ≡ (pop_stolen i (b, v) >>= enter_some i)
      → Rounded i iters env w
  unfolding pop_stolen enter_some
  stolen u v false t hv none_own r = record {
    out = none;
    after = v;
    answer = r ∙ >>=-some {a = (none, v)} (enter_some i) refl;
    sound = t.sound;
    runs = λ th e. absurd (cc);
    own_first = λ th f. no_own none_own th f;
  }
  stolen u v true t hv none_own r = by_runq (runq (v.kthread i)) refl
    where
      by_runq : (l : List Thread) → runq (v.kthread i) ≡ l → Rounded i iters env w
      by_runq [] e =
          absurd (t.has_work refl (empty_ring (v.kthread i) (t.sound.once.queued i hv) e))
      by_runq (th ∷ rest) e = with_thread v t.sound hv none_own r (t.has_work refl) th rest e

  positive : IsSound [] w → i < w.maxks → (w.kthread i).detached ≡ false → 0 < w.nrks
  positive s h live = let (p, lt, e) = s.attached.listed i h live in omega (arith, lt)

  fits_same :
      (u : Runtime) → u.state ≡ w.state → u.maxks ≡ w.maxks → EnvFits i env w → EnvFits i env u
  fits_same u e m f = record {
    recent = λ cpu r q. omega (arith, f.recent cpu r q, m);
    fresh = λ phase n th g. ap (λ (x : Thread → ThreadState). x th) e ∙ f.fresh phase n th g;
  }

-- A round of `schedule` by an attached kthread fails no assertion, as long as all kthreads together have
-- fewer timers than one heap has room for, and the positions of the queues of targeted threads have not
-- wrapped: the thread that it jumps to is runnable and then runs, and every runnable thread is still in
-- exactly one queue. The threads that could be allocated for softirqs must not be in use, and the cpus that
-- it looks at must name kthreads. If the kthread has threads of its own, the round takes the oldest one that asked for it, and otherwise the oldest of its
-- runqueue.
pub round_lem :
    (i iters : ℕ) (env : Env) (w : Runtime)
    → IsSound [] w
    → i < w.maxks
    → (w.kthread i).detached ≡ false
    → EnvFits i env w
    → ((th : Thread) → env.granted ≡ some th → w.state th ≡ sleeping)
    → Rounded i iters env w
unfolding round
round_lem i iters env w s h live fits fresh = elim (local_lem env.granted env.now i w s h fresh) [
  | found th u e s' m own ↦
      entered i iters env w th u s' (omega (arith, m, h)) (ap (after_local i iters env) e)
        (own_lem th own)
  | nothing u e c st nr m none_own ↦
      let (b, v, e', t) =
        steal_round_lem i iters env u c (fits_same i iters env w u st m fits)
          (omega (arith, nr, positive i iters env w s h live)) in
      stolen i iters env w u v b t (omega (arith, t.maxks, m, h)) none_own
        (ap (after_local i iters env) e ∙ >>=-some (λ p. pop_stolen i p >>= enter_some i) e')
]
  where
    own_lem :
        (th : Thread)
        → (first_choice (queues (w.kthread i)) ≡ none)
          ⊎ (first_choice (queues (w.kthread i)) ≡ some th)
        → (t : Thread) → first_choice (queues (w.kthread i)) ≡ some t
        → t ≡ th
    own_lem th (inl e) t f = absurd (cc)
    own_lem th (inr e) t f = some-inj (sym f ∙ e)
