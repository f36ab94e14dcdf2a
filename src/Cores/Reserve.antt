-- ===== src/Cores/Reserve.antt =====
-- `thread_reserve` keeps threads in their places.
use libut.Common.{
  ℕ, ◌+◌, ◌<◌, ◌≡◌, refl, ap, true, false, not, ◌&&◌, some, arith, ltb, ◌==◌, if◌then◌else◌, length,
  update, update-field, update-all, update-each,
}
use libut.Common.Counts.{times, del, times-del, length-del}
use libut.Cores.{
  World, Thread, Proc, set_proc, thread_reserve, unparked, activated, add, ncpu, proc_set_bursting,
  proc_clear_overloaded,
}
use libut.Cores.Dense.{has, IsDense, has-add, add-IsDense, poll-add, poll-IsPolled}
use libut.Cores.Flags.{
  Marked, marked_refl, marked_trans, marked_if, set_bursting-Marked, clear_overloaded-Marked,
}
use libut.Cores.Placed.{belongs, exists, IsPlaced, marked-IsPlaced, Kept, Kept-marked, Kept-store}

module _ (th : Thread) (c : ℕ) (w : World) (s : IsPlaced w) (ex : exists w th ≡ true)
    (pk : w.threads.parked th ≡ true) (room : w.threads.ts.count < ncpu) where
  abbrev reserved : World
  reserved = record (set_proc (w.p_of th) (activated th (w.proc (w.p_of th))) w) {
    threads = unparked th c w.threads;
  }

  size_kept : (q : ℕ) → (reserved.proc q).thread_count ≡ (w.proc q).thread_count
  size_kept =
      update-field (λ (r : Proc). r.thread_count) w.proc (w.p_of th)
        (activated th (w.proc (w.p_of th))) refl

  belongs_kept : (q : ℕ) (x : Thread) → belongs reserved q x ≡ belongs w q x
  belongs_kept q x = ap (λ (n : ℕ). (q == w.p_of x) && ltb (w.index x) n) (size_kept (w.p_of x))

  was_idle : times th (w.proc (w.p_of th)).idle_threads ≡ 1
  was_idle = ground (arith, s.idle (w.p_of th) th, ex, pk)

  was_inactive : has (w.proc (w.p_of th)).active th ≡ false
  was_inactive = ground (arith, s.active (w.p_of th) th, ex, pk)

  was_unpolled : has w.threads.ts th ≡ false
  was_unpolled = ground (arith, s.polled th, ex, pk)

  one_less :
      length (del th (w.proc (w.p_of th)).idle_threads) + 1
      ≡ length (w.proc (w.p_of th)).idle_threads
  one_less = length-del th (w.proc (w.p_of th)).idle_threads (omega (arith, was_idle))

  added_count : (add th (w.proc (w.p_of th)).active).count ≡ (w.proc (w.p_of th)).active.count + 1
  unfolding add
  added_count = refl

  count_fits : (w.proc (w.p_of th)).active.count < ncpu
  count_fits = omega (arith, s.total (w.p_of th), s.small (w.p_of th), one_less)

  reserved_idle :
      (q : ℕ) (x : Thread)
      → times x (reserved.proc q).idle_threads
        ≡ (if belongs w q x && update w.threads.parked th false x then 1 else 0)
  reserved_idle =
      update-each
        (λ q (r : Proc).
          (x : Thread)
          → times x r.idle_threads
            ≡ (if belongs w q x && update w.threads.parked th false x then 1 else 0))
        w.proc (w.p_of th) (activated th (w.proc (w.p_of th)))
        (λ x. ground (
          arith,
          times-del th x (w.proc (w.p_of th)).idle_threads,
          s.idle (w.p_of th) x,
          was_idle,
          pk,
          ex,
        ))
        (λ q ne x. ground (arith, s.idle q x, ne, pk))

  reserved_active :
      (q : ℕ) (x : Thread)
      → has (reserved.proc q).active x ≡ belongs w q x && not (update w.threads.parked th false x)
  reserved_active =
      update-each
        (λ q (r : Proc).
          (x : Thread) → has r.active x ≡ belongs w q x && not (update w.threads.parked th false x))
        w.proc (w.p_of th) (activated th (w.proc (w.p_of th)))
        (λ x. ground (
          arith,
          has-add th (w.proc (w.p_of th)).active (s.dense (w.p_of th)) was_inactive x,
          s.active (w.p_of th) x,
          ex,
          pk,
        ))
        (λ q ne x. ground (arith, s.active q x, ne))

  reserved-IsPlaced : IsPlaced reserved
  reserved-IsPlaced = record {
    dense = λ q.
        update-all (λ (r : Proc). IsDense r.active) w.proc (w.p_of th)
          (activated th (w.proc (w.p_of th))) q
          (add-IsDense th _ (s.dense (w.p_of th)) was_inactive count_fits) (λ ne. s.dense q);
    polls = poll-IsPolled th w.threads.ts s.polls was_unpolled room;
    total = λ q.
        update-all (λ (r : Proc). length r.idle_threads + r.active.count ≡ r.thread_count) w.proc
          (w.p_of th) (activated th (w.proc (w.p_of th))) q
          (omega (arith, s.total (w.p_of th), one_less, added_count)) (λ ne. s.total q);
    small = λ q. rw (size_kept q) (s.small q);
    idle = λ q x. rw (belongs_kept q x) (reserved_idle q x);
    active = λ q x. rw (belongs_kept q x) (reserved_active q x);
    polled = λ x.
        rw (poll-add th w.threads.ts s.polls was_unpolled, belongs_kept (w.p_of x) x)
          (ground (arith, has-add th w.threads.ts s.polls.dense was_unpolled x, s.polled x, ex));
    available = λ x e. ground (arith, s.available x, e, belongs_kept (w.p_of x) x);
  }

  -- Reserving a parked thread unparks it.
  pub thread_reserve_lem :
      (v : World) × (thread_reserve th c w ≡ some v)
      × IsPlaced v
      × Kept w v (unparked th c w.threads)
  unfolding thread_reserve
  thread_reserve_lem =
      let q : Proc = activated th (w.proc (w.p_of th)) in
      let u : World =
        if ltb q.guaranteed_cores q.active.count
        then proc_set_bursting (w.p_of th) reserved
        else reserved in
      let m : Marked reserved (proc_clear_overloaded (w.p_of th) u) =
        marked_trans
          (marked_if (ltb q.guaranteed_cores q.active.count) reserved _ reserved
            (set_bursting-Marked (w.p_of th) reserved) (marked_refl reserved))
          (clear_overloaded-Marked (w.p_of th) u) in
      (
        proc_clear_overloaded (w.p_of th) u,
        rw pk refl,
        marked-IsPlaced m reserved-IsPlaced,
        Kept-marked (Kept-store w (w.p_of th) q (unparked th c w.threads) refl refl) m,
      )
