-- ===== src/Sched/Steal.antt =====
-- `steal_work` in the runtime: no thread is lost or doubled, whatever the attempt finds.
use libut.Common.{
  ℕ, ◌≡◌, refl, ap, ◌∙◌, ◌≢◌, inl, inr, Bool, true, false, not, ◌||◌, some, List, [], ◌∷◌, arith,
  ℕ_discrete, Bool-cases, update_ne,
}
use libut.Common.Words.{sub32}
use libut.Lrpc.{ChanIn, Shared}
use libut.Kthread.{Thread, runnable, Kthread, Runtime, set_state}
use libut.Kthread.Detach.{Kept, either_way, detach_lem}
use libut.Timer.{TimerIdx}
use libut.Kthread.Timely.{all_timers}
use libut.Sched.{half, Try, enqueue_stolen, answered, steal_softirq, steal_single, steal_work}
use libut.Sched.Sound.{IsSound, Kept-Sound}
use libut.Sched.Granted.{taken, idle, busy, softirq_cases}
use libut.Sched.Stolen.{
  CanTry, Tried, enqueue_work, found_step, parked_step, awake_step, head_tail, is_live, bulk,
  bulk-Sound, bulk_work, bulk-timers, single-timers, softirq-timers, bulk-maxks, single,
  single-Sound, softirq-Sound, detachable,
}

module _ (i r : ℕ) (t : Try) (w : Runtime) (c : CanTry i r t w) where
  -- An attempt that finds nothing.
  failed : Tried i w false w
  failed = record {
    sound = c.sound;
    maxks = refl;
    timers = λ f. refl;
    has_work = λ e. absurd (cc);
    no_head = λ e. c.no_head;
    no_tail = λ e. c.no_tail;
    state = λ e. refl;
    names = λ e n h a. a;
    fewer = λ e. omega arith;
  }

  -- An attempt that finds threads.
  succeeded :
      (w' : Runtime)
      → IsSound [] w'
      → w'.maxks ≡ w.maxks
      → ((f : TimerIdx → ℕ) → all_timers f w' ≡ all_timers f w)
      → (w'.kthread i).rq_head ≢ (w'.kthread i).rq_tail
      → Tried i w true w'
  succeeded w' s m same h = record {
    sound = s;
    maxks = m;
    timers = same;
    has_work = λ e. h;
    no_head = λ e. absurd (cc);
    no_tail = λ e. absurd (cc);
    state = λ e. absurd (cc);
    names = λ e. absurd (cc);
    fewer = λ e. absurd (cc);
  }

  -- A kthread that has been detached, or not yet.
  after_detach : (w' : Runtime) → Kept w w' → Tried i w false w'
  after_detach w' k = record {
    sound = Kept-Sound c.sound k;
    maxks = k.maxks;
    timers = k.timers;
    has_work = λ e. absurd (cc);
    no_head = λ e. ap (λ (k : Kthread). k.rq_head) (k.same i) ∙ c.no_head;
    no_tail = λ e. ap (λ (k : Kthread). k.rq_tail) (k.same i) ∙ c.no_tail;
    state = λ e. k.state;
    names = λ e. k.names;
    fewer = λ e. k.fewer;
  }

  steal-closed :
      (not t.locked || (w.kthread r).detached) ≡ true → steal_work i r t w ≡ some (false, w)
  unfolding steal_work
  steal-closed h = ground (arith, h, c.no_head, c.no_tail)

  steal-bulk :
      (not t.locked || (w.kthread r).detached) ≡ false
      → sub32 (w.kthread r).rq_head (w.kthread r).rq_tail ≢ 0
      → steal_work i r t w
        ≡ some (true, bulk i r t w c (half (sub32 (w.kthread r).rq_head (w.kthread r).rq_tail)))
  unfolding steal_work bulk
  steal-bulk h ne =
      ground (arith, h, ne, c.no_head, c.no_tail, (c.sound.once.queued r c.known).fits)

  steal-rest :
      (not t.locked || (w.kthread r).detached) ≡ false
      → sub32 (w.kthread r).rq_head (w.kthread r).rq_tail ≡ 0
      → steal_work i r t w ≡ steal_single i r t (w.kthread r).rq_overflow w
  unfolding steal_work
  steal-rest h e = ground (arith, h, e, c.no_head, c.no_tail)

  module _ (th : Thread) (more : List Thread) where
    single-same : (single i r t w c th more).kthread i ≡ w.kthread i
    unfolding single
    single-same = update_ne w.kthread r i (record (w.kthread r) { rq_overflow = more }) c.other

    single_head : ((single i r t w c th more).kthread i).rq_head ≡ 0
    single_head = ap (λ (k : Kthread). k.rq_head) single-same ∙ c.no_head

    single_tail : ((single i r t w c th more).kthread i).rq_tail ≡ 0
    single_tail = ap (λ (k : Kthread). k.rq_tail) single-same ∙ c.no_tail

  module _ (rxq : ChanIn) (rx : Shared) where
    taken-same : (taken r rxq rx w).kthread i ≡ w.kthread i
    taken-same = update_ne w.kthread r i (record (w.kthread r) { rxq = rxq; rx = rx }) c.other

    taken_head : ((taken r rxq rx w).kthread i).rq_head ≡ 0
    taken_head = ap (λ (k : Kthread). k.rq_head) taken-same ∙ c.no_head

    taken_tail : ((taken r rxq rx w).kthread i).rq_tail ≡ 0
    taken_tail = ap (λ (k : Kthread). k.rq_tail) taken-same ∙ c.no_tail

  -- with an empty runqueue
  rest_lem :
      (l : List Thread)
      → (w.kthread r).rq_overflow ≡ l
      → (w.kthread r).rq_head ≡ (w.kthread r).rq_tail
      → (w.kthread r).detached ≡ false
      → (b : Bool) × (w' : Runtime) × (steal_single i r t l w ≡ some (b, w')) × Tried i w b w'
  unfolding steal_single single
  rest_lem (th ∷ more) e nil live = (
    true,
    enqueue_stolen i th (single i r t w c th more),
    refl,
    succeeded _ (single-Sound i r t w c th more e) refl (single-timers i r t w c th more)
        (enqueue_work i th (single i r t w c th more) (single_head th more) (single_tail th more)),
  )
  rest_lem [] e nil live = elim (softirq_cases t.granted t.now r w) [
    | busy th rxq rx g found ↦ (
      true,
      enqueue_stolen i th (set_state th runnable (taken r rxq rx w)),
      ap (steal_softirq i r) found ∙ found_step i r w th (set_state th runnable (taken r rxq rx w)),
      succeeded _ (softirq-Sound i r t w c th rxq rx g) refl (softirq-timers i r t w c th rxq rx) (
          enqueue_work i th (set_state th runnable (taken r rxq rx w)) (taken_head rxq rx)
            (taken_tail rxq rx)),
    )
    | idle nothing ↦ elim (Bool-cases (w.kthread r).parked) [
      | inl asleep ↦
          let (w', d, cases) = detach_lem i r w (detachable i r t w c asleep live nil e) in
          (
            false,
            w',
            ap (steal_softirq i r) nothing ∙ parked_step i r w asleep ∙ ap (answered false) d,
            after_detach w' (either_way i r w (detachable i r t w c asleep live nil e) w' cases),
          )
      | inr awake ↦ (false, w, ap (steal_softirq i r) nothing ∙ awake_step i r w awake, failed)
    ]
  ]

-- An attempt to steal fails no assertion, for a runtime in which all kthreads together have fewer timers
-- than one heap has room for, and the positions of the queues of targeted threads have not wrapped. It
-- leaves every runnable thread in exactly one queue, the attached kthreads in the array, once each, and
-- the timers, none more and none less, in valid heaps, whether it takes half of the
-- runqueue, one thread of the overflow list, a softirq thread, or nothing, and whether it detaches the
-- kthread or not. If it answers true, the thief has a thread to run.
pub steal_lem :
    (i r : ℕ) (t : Try) (w : Runtime)
    → CanTry i r t w
    → (b : Bool) × (w' : Runtime) × (steal_work i r t w ≡ some (b, w')) × Tried i w b w'
steal_lem i r t w c = elim (Bool-cases (not t.locked || (w.kthread r).detached)) [
  | inl closed ↦ (false, w, steal-closed i r t w c closed, failed i r t w c)
  | inr open_ ↦ elim (ℕ_discrete (sub32 (w.kthread r).rq_head (w.kthread r).rq_tail) 0) [
    | yes nil ↦
        let (b, w', e, q) =
          rest_lem i r t w c (w.kthread r).rq_overflow refl
            (head_tail (w.kthread r) (c.sound.once.queued r c.known) nil)
            (is_live t.locked (w.kthread r).detached open_) in
        (b, w', steal-rest i r t w c open_ nil ∙ e, q)
    | no some_left ↦
        let n : ℕ = half (sub32 (w.kthread r).rq_head (w.kthread r).rq_tail) in
        let fits = (c.sound.once.queued r c.known).fits in
        (
          true,
          bulk i r t w c n,
          steal-bulk i r t w c open_ some_left,
          succeeded i r t w c (bulk i r t w c n) (bulk-Sound i r t w c n (omega (arith, fits)))
              (bulk-maxks i r t w c n) (bulk-timers i r t w c n)
              (bulk_work i r t w c n (omega (arith, fits, some_left))),
        )
  ]
]
