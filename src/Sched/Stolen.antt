-- ===== src/Sched/Stolen.antt =====
-- What `steal_work` takes from another kthread, in the runtime: half of its runqueue, one thread of its
-- overflow list, or a softirq thread.
use mathlib.Core.Path.{subst}
use libut.Common.{
  ℕ, ◌%◌, ◌≤◌, ◌<◌, ◌≡◌, refl, sym, ap, ap₂, ◌∙◌, ◌≢◌, Bool, true, false, not, ◌||◌, none, some,
  List, [], ◌∷◌, arith, update, update_self, update_ne,
}
use libut.Common.Words.{add32, sub32}
use libut.Common.Totals.{weight-append, weight-nil, weight-cons}
use libut.Lrpc.{ChanIn, Shared}
use libut.Kthread.{Thread, runnable, sleeping, Kthread, Runtime, put, set_state, detach}
use libut.Kthread.Detach.{Detachable, Names}
use libut.Sched.Ring.{ring}
use libut.Sched.{store_rq, rq_size, thief, robbed, Try, enqueue_stolen, answered, steal_softirq}
use libut.Sched.Queue.{IsQueued, runq, store_rq-runq, store_rq-IsQueued, overflow-IsQueued}
use libut.Sched.Once.{times, is_thread, load, waiting, waiting-update}
use libut.Timer.{TimerIdx}
use libut.Kthread.Timely.{all_timers}
use libut.Sched.Sound.{put-timers, IsSound, fixed, move}
use libut.Sched.Granted.{taken}
use libut.Sched.Bulk.{steal-runq}

-- An attempt of kthread `i` on kthread `r`: `i` has nothing to run, and an allocated thread is not in use.
pub record CanTry (i r : ℕ) (t : Try) (w : Runtime) : Type 0 where
  pub sound : IsSound [] w
  pub caller : i < w.maxks
  pub known : r < w.maxks
  pub other : r ≢ i
  pub no_head : (w.kthread i).rq_head ≡ 0
  pub no_tail : (w.kthread i).rq_tail ≡ 0
  pub fresh : (th : Thread) → t.granted ≡ some th → w.state th ≡ sleeping

-- What the attempt leaves: on success kthread `i` has a thread to run, and otherwise it can go on.
pub record Tried (i : ℕ) (w : Runtime) (b : Bool) (w' : Runtime) : Type 0 where
  pub sound : IsSound [] w'
  pub maxks : w'.maxks ≡ w.maxks
  pub timers : (f : TimerIdx → ℕ) → all_timers f w' ≡ all_timers f w
  pub has_work : b ≡ true → (w'.kthread i).rq_head ≢ (w'.kthread i).rq_tail
  pub no_head : b ≡ false → (w'.kthread i).rq_head ≡ 0
  pub no_tail : b ≡ false → (w'.kthread i).rq_tail ≡ 0
  pub state : b ≡ false → w'.state ≡ w.state
  pub names : b ≡ false → (n : ℕ) → w.nrks ≤ n → Names n w → Names n w'
  pub fewer : b ≡ false → w'.nrks ≤ w.nrks

-- An empty runqueue holds nothing.
empty_runq : (k : Kthread) (th : Thread) → k.rq_head ≡ 0 → k.rq_tail ≡ 0 → times th (runq k) ≡ 0
unfolding ring
empty_runq k th h e =
    ap₂ (λ (a b : ℕ). times th (ring rq_size k.rq k.rq_tail (sub32 a b))) h e
    ∙ weight-nil (is_thread th)

-- the thread that `steal_work` has got goes to the empty runqueue
enqueue-Sound :
    (i : ℕ) (th : Thread) (w : Runtime)
    → IsSound (th ∷ []) w
    → i < w.maxks
    → (w.kthread i).rq_head ≡ 0
    → (w.kthread i).rq_tail ≡ 0
    → IsSound [] (enqueue_stolen i th w)
unfolding enqueue_stolen
enqueue-Sound i th w s h e e' =
    let room : sub32 (w.kthread i).rq_head (w.kthread i).rq_tail < rq_size = omega (arith, e, e') in
    let slot : (w.kthread i).rq_head % rq_size ≡ (w.kthread i).rq_head = omega (arith, e) in
    subst
      (λ (n : ℕ). IsSound [] (
        put i
          (record (w.kthread i) {
            rq = update (w.kthread i).rq n th;
            rq_head = add32 (w.kthread i).rq_head 1;
            q_head = add32 (w.kthread i).q_head 1;
          })
          w))
      slot
      (move i (store_rq th (w.kthread i)) w.state s h refl
        (store_rq-IsQueued (w.kthread i) (s.once.queued i h) th room)
        (λ t. omega (
          arith,
          ap (times t) (store_rq-runq (w.kthread i) (s.once.queued i h) th room),
          weight-append (is_thread t) (runq (w.kthread i)) (th ∷ []),
          weight-nil (is_thread t),
        )))

enqueue-timers :
    (i : ℕ) (th : Thread) (w : Runtime)
    → i < w.maxks
    → (f : TimerIdx → ℕ) → all_timers f (enqueue_stolen i th w) ≡ all_timers f w
enqueue-timers i th w h f = put-timers i _ w h refl f

pub enqueue_work :
    (i : ℕ) (th : Thread) (w : Runtime)
    → (w.kthread i).rq_head ≡ 0
    → (w.kthread i).rq_tail ≡ 0
    → ((enqueue_stolen i th w).kthread i).rq_head ≢ ((enqueue_stolen i th w).kthread i).rq_tail
unfolding enqueue_stolen
enqueue_work i th w h e q =
    let l : Kthread = w.kthread i in
    let here = update_self w.kthread i (record l {
      rq = update l.rq l.rq_head th;
      rq_head = add32 l.rq_head 1;
      q_head = add32 l.q_head 1;
    }) in
    omega
      (arith, q, h, e, ap (λ (k : Kthread). k.rq_head) here, ap (λ (k : Kthread). k.rq_tail) here)

module _ (i r : ℕ) (w : Runtime) where
  pub found_step :
      (th : Thread) (u : Runtime)
      → steal_softirq i r (some th, u) ≡ some (true, enqueue_stolen i th u)
  unfolding steal_softirq
  found_step th u = refl

  pub parked_step :
      (w.kthread r).parked ≡ true → steal_softirq i r (none, w) ≡ answered false (detach i r w)
  unfolding steal_softirq
  parked_step h = rw h refl

  pub awake_step : (w.kthread r).parked ≡ false → steal_softirq i r (none, w) ≡ some (false, w)
  unfolding steal_softirq
  awake_step h = rw h refl

pub head_tail : (k : Kthread) → IsQueued k → sub32 k.rq_head k.rq_tail ≡ 0 → k.rq_head ≡ k.rq_tail
head_tail k v e = omega (arith, e, v.head, v.tail)

pub is_live : (locked detached : Bool) → (not locked || detached) ≡ false → detached ≡ false
is_live true detached h = h
is_live false detached h = absurd (cc)

module _ (i r : ℕ) (t : Try) (w : Runtime) (c : CanTry i r t w) where
  unfoldable pub bulk : ℕ → Runtime
  bulk n = put i (thief n (w.kthread i) (w.kthread r)) (put r (robbed n (w.kthread r)) w)

  pub bulk-Sound :
      (n : ℕ) → n ≤ sub32 (w.kthread r).rq_head (w.kthread r).rq_tail → IsSound [] (bulk n)
  unfolding bulk
  bulk-Sound n h =
      let (e, vt, vr) =
        steal-runq n (w.kthread i) (w.kthread r) (c.sound.once.queued i c.caller)
          (c.sound.once.queued r c.known) c.no_tail h in
      let got : List Thread = runq (thief n (w.kthread i) (w.kthread r)) in
      let same : (put r (robbed n (w.kthread r)) w).kthread i ≡ w.kthread i =
        update_ne w.kthread r i (robbed n (w.kthread r)) c.other in
      let s : IsSound got (put r (robbed n (w.kthread r)) w) =
        move r (robbed n (w.kthread r)) w.state c.sound c.known refl vr (λ th. omega (
          arith,
          ap (times th) e,
          weight-append (is_thread th) got (runq (robbed n (w.kthread r))),
          weight-nil (is_thread th),
        )) in
      move i (thief n (w.kthread i) (w.kthread r)) w.state s c.caller (ap fixed (sym same)) vt
        (λ th. omega (
          arith,
          ap (load th) same,
          empty_runq (w.kthread i) th c.no_head c.no_tail,
          weight-nil (is_thread th),
        ))

  pub bulk_work : (n : ℕ) → 0 < n → ((bulk n).kthread i).rq_head ≢ ((bulk n).kthread i).rq_tail
  unfolding bulk
  bulk_work n pos q =
      let here =
        update_self (put r (robbed n (w.kthread r)) w).kthread i
          (thief n (w.kthread i) (w.kthread r)) in
      omega (
        arith,
        q,
        pos,
        c.no_tail,
        ap (λ (k : Kthread). k.rq_head) here,
        ap (λ (k : Kthread). k.rq_tail) here,
      )

  pub bulk-timers : (n : ℕ) (f : TimerIdx → ℕ) → all_timers f (bulk n) ≡ all_timers f w
  unfolding bulk
  bulk-timers n f =
      put-timers i (thief n (w.kthread i) (w.kthread r)) (put r (robbed n (w.kthread r)) w) c.caller
        (ap fixed (sym (update_ne w.kthread r i (robbed n (w.kthread r)) c.other))) f
      ∙ put-timers r (robbed n (w.kthread r)) w c.known refl f

  pub bulk-maxks : (n : ℕ) → (bulk n).maxks ≡ w.maxks
  unfolding bulk
  bulk-maxks n = refl

  unfoldable pub single : Thread → List Thread → Runtime
  single th more = put r (record (w.kthread r) { rq_overflow = more }) w

  pub single-timers :
      (th : Thread) (more : List Thread) (f : TimerIdx → ℕ)
      → all_timers f (enqueue_stolen i th (single th more)) ≡ all_timers f w
  unfolding single
  single-timers th more f =
      enqueue-timers i th (single th more) c.caller f
      ∙ put-timers r (record (w.kthread r) { rq_overflow = more }) w c.known refl f

  pub softirq-timers :
      (th : Thread) (rxq : ChanIn) (rx : Shared) (f : TimerIdx → ℕ)
      → all_timers f (enqueue_stolen i th (set_state th runnable (taken r rxq rx w)))
        ≡ all_timers f w
  softirq-timers th rxq rx f =
      enqueue-timers i th (set_state th runnable (taken r rxq rx w)) c.caller f
      ∙ put-timers r (record (w.kthread r) { rxq = rxq; rx = rx }) w c.known refl f

  pub single-Sound :
      (th : Thread) (more : List Thread)
      → (w.kthread r).rq_overflow ≡ th ∷ more
      → IsSound [] (enqueue_stolen i th (single th more))
  unfolding single
  single-Sound th more e =
      let same : (single th more).kthread i ≡ w.kthread i =
        update_ne w.kthread r i (record (w.kthread r) { rq_overflow = more }) c.other in
      enqueue-Sound i th (single th more)
        (move r (record (w.kthread r) { rq_overflow = more }) w.state c.sound c.known refl
          (overflow-IsQueued (w.kthread r) (c.sound.once.queued r c.known) more)
          (λ x. omega (
            arith,
            ap (times x) e,
            weight-cons (is_thread x) th more,
            weight-cons (is_thread x) th [],
            weight-nil (is_thread x),
          )))
        c.caller (ap (λ (k : Kthread). k.rq_head) same ∙ c.no_head)
        (ap (λ (k : Kthread). k.rq_tail) same ∙ c.no_tail)

  pub softirq-Sound :
      (th : Thread) (rxq : ChanIn) (rx : Shared)
      → t.granted ≡ some th
      → IsSound [] (enqueue_stolen i th (set_state th runnable (taken r rxq rx w)))
  softirq-Sound th rxq rx g =
      let k : Kthread = record (w.kthread r) { rxq = rxq; rx = rx } in
      let same : (taken r rxq rx w).kthread i ≡ w.kthread i = update_ne w.kthread r i k c.other in
      let q = c.sound.once.queued r c.known in
      enqueue-Sound i th (set_state th runnable (taken r rxq rx w))
        (move r k (update w.state th runnable) c.sound c.known refl
          (record {
            head = q.head;
            tail = q.tail;
            fits = q.fits;
            rrq_head = q.rrq_head;
            rrq_order = q.rrq_order;
            rrq_fits = q.rrq_fits;
          })
          (λ x. omega (
            arith,
            waiting-update w.state th x (ap waiting (c.fresh th g)),
            weight-cons (is_thread x) th [],
            weight-nil (is_thread x),
          )))
        c.caller (ap (λ (k : Kthread). k.rq_head) same ∙ c.no_head)
        (ap (λ (k : Kthread). k.rq_tail) same ∙ c.no_tail)

  -- the detach of a parked kthread with nothing left
  pub detachable :
      (w.kthread r).parked ≡ true
      → (w.kthread r).detached ≡ false
      → (w.kthread r).rq_head ≡ (w.kthread r).rq_tail
      → (w.kthread r).rq_overflow ≡ []
      → Detachable i r w
  detachable p live h o = record {
    attached = c.sound.attached;
    timely = c.sound.timely;
    caller = c.caller;
    known = c.known;
    other = c.other;
    parked = p;
    live = live;
    no_threads = h;
    no_overflow = o;
  }
