-- ===== src/Sched/Join.antt =====
-- `join_kthread`: a parked kthread is emptied and detached at once, and its threads wake up elsewhere.
use libut.Common.{
  ℕ, ◌+◌, ◌-◌, ◌%◌, ◌^◌, ◌≤◌, ◌<◌, ◌≡◌, refl, sym, ap, ◌∙◌, ◌≢◌, inl, inr, Bool, true, false, not,
  ◌||◌, update_ne, ◌⊎◌, Option, some, List, [], ◌∷◌, ◌++◌, arith, ◌==◌, if◌then◌else◌, Bool-cases,
  ◌>>=◌, >>=-some, update_self,
}
use libut.Common.Totals.{weight-cons, weight-append, weight-nil}
use libut.Common.Words.{sub32}
use libut.Kthread.{Thread, sleeping, Kthread, Runtime, put, set_state, detach}
use libut.Kthread.Detach.{Detachable, either_way, detach_lem}
use libut.Sched.{rq_size, thread_ready}
use libut.Sched.Ring.{ring}
use libut.Sched.Once.{load, times, is_thread}
use libut.Sched.Sound.{IsSound, move, Kept-Sound, settle, ready-Sound}

-- The two loops that fill the list `tmp`: positions from `rq_tail` up to `rq_head`, then the overflow list.
abbrev pub drained_threads : Kthread → List Thread
drained_threads k = ring rq_size k.rq k.rq_tail (k.rq_head - k.rq_tail) ++ k.rq_overflow

-- the kthread after them
abbrev pub emptied : Kthread → Kthread
emptied k = record k {
  rq_head = 0;
  rq_tail = 0;
  q_tail = (k.q_tail + (k.rq_head - k.rq_tail)) % 2 ^ 32;
  rq_overflow = [];
}

-- the loop that wakes the threads of `tmp`
unfoldable pub wake_all : ℕ → List Thread → Runtime → Option Runtime
wake_all i [] w = some w
wake_all i (th ∷ tmp) w = thread_ready i th (set_state th sleeping w) >>= wake_all i tmp

-- `join_kthread` of kthread `r` by kthread `i`; `locked` tells whether the lock was free.
pub join_kthread : Bool → ℕ → ℕ → Runtime → Option Runtime
join_kthread locked i r w =
    let k : Kthread = w.kthread r in
    if not locked || k.detached || not k.parked || (r == i)
    then some w
    else (detach i r (put r (emptied k) w) >>= wake_all i (drained_threads k))

-- Waking the threads on the list puts each in a queue.
pub wake_all_lem :
    (i : ℕ) (tmp : List Thread) (w : Runtime)
    → IsSound tmp w
    → i < w.maxks
    → (w' : Runtime) × (wake_all i tmp w ≡ some w')
      × IsSound [] w'
      × (w'.maxks ≡ w.maxks)
      × ((t : Thread) → load t (w'.kthread i) ≡ load t (w.kthread i) + times t tmp)
unfolding wake_all
wake_all_lem i [] w s h = (w, refl, s, refl, λ t. omega (arith, weight-nil (is_thread t)))
wake_all_lem i (th ∷ tmp) w s h =
    let (w1, e1, s1, m1, l1) =
      ready-Sound i th (set_state th sleeping w) (settle th sleeping refl s) h
        (update_self w.state th sleeping) in
    let (w2, e2, s2, m2, l2) = wake_all_lem i tmp w1 s1 (omega (arith, m1, h)) in
    (
      w2,
      >>=-some (wake_all i tmp) e1 ∙ e2,
      s2,
      m2 ∙ m1,
      λ t. omega (arith, l1 t, l2 t, weight-cons (is_thread t) th tmp),
    )

-- what the early returns leave
goes_lem :
    (a b c : Bool) (r i : ℕ)
    → (not a || b || not c || (r == i)) ≡ false
    → (b ≡ false) × (c ≡ true) × (r ≢ i)
goes_lem true false true r i h = (refl, refl, λ e. ground (arith, h, e))
goes_lem true false false r i h = absurd (cc)
goes_lem true true c r i h = absurd (cc)
goes_lem false b c r i h = absurd (cc)

module _ (i r : ℕ) (w : Runtime) (s : IsSound [] w) (hi : i < w.maxks) (hr : r < w.maxks)
    (order : (w.kthread r).rq_tail ≤ (w.kthread r).rq_head) where
  -- Kthread `i` has the threads of kthread `r` in its queues, besides its own.
  abbrev Taken : Runtime → Type 0
  Taken w' =
      (t : Thread)
      → load t (w'.kthread i) ≡ load t (w.kthread i) + times t (drained_threads (w.kthread r))

  unfoldable without : Runtime
  without = put r (emptied (w.kthread r)) w

  at_r : without.kthread r ≡ emptied (w.kthread r)
  unfolding without
  at_r = update_self w.kthread r (emptied (w.kthread r))

  without-Sound : IsSound (drained_threads (w.kthread r)) without
  unfolding without ring
  without-Sound =
      let v = s.once.queued r hr in
      move r (emptied (w.kthread r)) w.state s hr refl
        (record {
          head = omega arith;
          tail = omega arith;
          fits = omega arith;
          rrq_head = v.rrq_head;
          rrq_order = v.rrq_order;
          rrq_fits = v.rrq_fits;
        })
        (λ t. omega (
          arith,
          ap (λ (n : ℕ). times t (ring rq_size (w.kthread r).rq (w.kthread r).rq_tail n))
              (straight v.head),
          weight-append (is_thread t)
              (ring rq_size (w.kthread r).rq (w.kthread r).rq_tail
                ((w.kthread r).rq_head - (w.kthread r).rq_tail))
              (w.kthread r).rq_overflow,
          weight-nil (is_thread t),
        ))
    where
      straight :
          (w.kthread r).rq_head < 2 ^ 32
          → sub32 (w.kthread r).rq_head (w.kthread r).rq_tail
            ≡ (w.kthread r).rq_head - (w.kthread r).rq_tail
      straight h = omega (arith, order, h)

  without-Detachable :
      (w.kthread r).detached ≡ false → (w.kthread r).parked ≡ true → r ≢ i → Detachable i r without
  unfolding without
  without-Detachable live asleep other = record {
    attached = without-Sound.attached;
    timely = without-Sound.timely;
    caller = hi;
    known = hr;
    other = other;
    parked = ap (λ (k : Kthread). k.parked) at_r ∙ asleep;
    live = ap (λ (k : Kthread). k.detached) at_r ∙ live;
    no_threads = ap (λ (k : Kthread). k.rq_head) at_r ∙ sym (ap (λ (k : Kthread). k.rq_tail) at_r);
    no_overflow = ap (λ (k : Kthread). k.rq_overflow) at_r;
  }

  own_lem : r ≢ i → without.kthread i ≡ w.kthread i
  unfolding without
  own_lem other = update_ne w.kthread r i (emptied (w.kthread r)) other

  caller_lem : i < without.maxks
  unfolding without
  caller_lem = hi

  join_rest :
      (w.kthread r).detached ≡ false
      → (w.kthread r).parked ≡ true
      → r ≢ i
      → (w' : Runtime) × ((detach i r without >>= wake_all i (drained_threads (w.kthread r)))
          ≡ some w')
        × IsSound [] w'
        × Taken w'
  join_rest live asleep other =
      let (u, d, cases) = detach_lem i r without (without-Detachable live asleep other) in
      let kept = either_way i r without (without-Detachable live asleep other) u cases in
      let (w', e, s', _, l) =
        wake_all_lem i (drained_threads (w.kthread r)) u (Kept-Sound without-Sound kept)
          (omega (arith, kept.maxks, caller_lem)) in
      (
        w',
        >>=-some (wake_all i (drained_threads (w.kthread r))) d ∙ e,
        s',
        λ t.
            l t
            ∙ ap (λ (n : ℕ). n + times t (drained_threads (w.kthread r)))
                (ap (load t) (kept.same i) ∙ ap (load t) (own_lem other)),
      )

-- the early return of `join_kthread`
abbrev pub is_refused : Bool → ℕ → ℕ → Runtime → Bool
is_refused locked i r w =
    not locked || (w.kthread r).detached || not (w.kthread r).parked || (r == i)

-- Joining a kthread fails no assertion, and leaves every runnable thread in exactly one queue. If the lock
-- is taken, or the kthread is detached, not parked, or the caller itself, nothing changes. Otherwise all
-- threads that it had in its runqueue and its overflow list wake up in the queues of the caller, which
-- keeps its own. The positions of its runqueue must not have wrapped, those of the queues of targeted
-- threads neither, and all kthreads together must have fewer timers than one heap has room for.
pub join_lem :
    (locked : Bool) (i r : ℕ) (w : Runtime)
    → IsSound [] w
    → i < w.maxks
    → r < w.maxks
    → (w.kthread r).rq_tail ≤ (w.kthread r).rq_head
    → (w' : Runtime) × (join_kthread locked i r w ≡ some w')
      × IsSound [] w'
      × ((is_refused locked i r w ≡ true) × (w' ≡ w)
          ⊎ (is_refused locked i r w ≡ false)
            × ((t : Thread)
                → load t (w'.kthread i)
                  ≡ load t (w.kthread i) + times t (drained_threads (w.kthread r))))
unfolding join_kthread without
join_lem locked i r w s hi hr order =
    elim (Bool-cases
      (not locked || (w.kthread r).detached || not (w.kthread r).parked || (r == i))) [
        | inl stays ↦ (w, rw stays refl, s, inl (stays, refl))
        | inr goes ↦
            let (live, asleep, other) =
              goes_lem locked (w.kthread r).detached (w.kthread r).parked r i goes in
            let (w', e, s', l) = join_rest i r w s hi hr order live asleep other in
            (w', rw (goes, join_kthread) e, s', inr (goes, l))
      ]
