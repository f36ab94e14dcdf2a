-- ===== src/Cores/Cede.antt =====
-- `thread_cede` keeps threads in their places.
use libut.Common.{
  ℕ, ◌+◌, ◌≡◌, refl, ap, true, false, not, ◌&&◌, some, arith, ltb, ◌==◌, if◌then◌else◌, length,
  update, update-field, update-all, update-each,
}
use libut.Common.Counts.{times}
use libut.Cores.{
  World, Thread, Proc, set_proc, thread_cede, ceded, idled, remove, proc_clear_bursting,
}
use libut.Cores.Dense.{
  has, IsDense, has-remove, remove-IsDense, has-unpoll, unpoll-IsPolled, has-pos,
}
use libut.Cores.Flags.{Marked, marked_refl, marked_if, clear_bursting-Marked}
use libut.Cores.Placed.{belongs, exists, IsPlaced, marked-IsPlaced, Kept, Kept-marked, Kept-store}

module _ (th : Thread) (w : World) (s : IsPlaced w) (ex : exists w th ≡ true)
    (pk : w.threads.parked th ≡ false) where
  abbrev given : World
  given = record (set_proc (w.p_of th) (idled th (w.proc (w.p_of th))) w) {
    threads = ceded th w.threads;
  }

  size_kept : (q : ℕ) → (given.proc q).thread_count ≡ (w.proc q).thread_count
  size_kept =
      update-field (λ (r : Proc). r.thread_count) w.proc (w.p_of th) (idled th (w.proc (w.p_of th)))
        refl

  belongs_kept : (q : ℕ) (x : Thread) → belongs given q x ≡ belongs w q x
  belongs_kept q x = ap (λ (n : ℕ). (q == w.p_of x) && ltb (w.index x) n) (size_kept (w.p_of x))

  was_active : has (w.proc (w.p_of th)).active th ≡ true
  was_active = ground (arith, s.active (w.p_of th) th, ex, pk)

  was_polled : has w.threads.ts th ≡ true
  was_polled = ground (arith, s.polled th, ex, pk)

  was_not_idle : times th (w.proc (w.p_of th)).idle_threads ≡ 0
  was_not_idle = ground (arith, s.idle (w.p_of th) th, ex, pk)

  removed_count :
      (remove th (w.proc (w.p_of th)).active).count + 1 ≡ (w.proc (w.p_of th)).active.count
  unfolding remove
  removed_count = omega (arith, has-pos (w.proc (w.p_of th)).active th was_active)

  given_idle :
      (q : ℕ) (x : Thread)
      → times x (given.proc q).idle_threads
        ≡ (if belongs w q x && update w.threads.parked th true x then 1 else 0)
  given_idle =
      update-each
        (λ q (r : Proc).
          (x : Thread)
          → times x r.idle_threads
            ≡ (if belongs w q x && update w.threads.parked th true x then 1 else 0))
        w.proc (w.p_of th) (idled th (w.proc (w.p_of th)))
        (λ x. ground (arith, s.idle (w.p_of th) x, was_not_idle, pk, ex))
        (λ q ne x. ground (arith, s.idle q x, ne, pk))

  given_active :
      (q : ℕ) (x : Thread)
      → has (given.proc q).active x ≡ belongs w q x && not (update w.threads.parked th true x)
  given_active =
      update-each
        (λ q (r : Proc).
          (x : Thread) → has r.active x ≡ belongs w q x && not (update w.threads.parked th true x))
        w.proc (w.p_of th) (idled th (w.proc (w.p_of th)))
        (λ x. ground (
          arith,
          has-remove th (w.proc (w.p_of th)).active (s.dense (w.p_of th)) was_active x,
          s.active (w.p_of th) x,
          ex,
          pk,
        ))
        (λ q ne x. ground (arith, s.active q x, ne))

  given-IsPlaced : IsPlaced given
  given-IsPlaced = record {
    dense = λ q.
        update-all (λ (r : Proc). IsDense r.active) w.proc (w.p_of th)
          (idled th (w.proc (w.p_of th))) q (remove-IsDense th _ (s.dense (w.p_of th)) was_active)
          (λ ne. s.dense q);
    polls = unpoll-IsPolled th w.threads.ts s.polls was_polled;
    total = λ q.
        update-all (λ (r : Proc). length r.idle_threads + r.active.count ≡ r.thread_count) w.proc
          (w.p_of th) (idled th (w.proc (w.p_of th))) q
          (omega (arith, s.total (w.p_of th), removed_count)) (λ ne. s.total q);
    small = λ q. rw (size_kept q) (s.small q);
    idle = λ q x. rw (belongs_kept q x) (given_idle q x);
    active = λ q x. rw (belongs_kept q x) (given_active q x);
    polled = λ x.
        rw (belongs_kept (w.p_of x) x)
          (ground (arith, has-unpoll th w.threads.ts s.polls was_polled x, s.polled x, ex));
    available = λ x e. ground (arith, s.available x, e, belongs_kept (w.p_of x) x);
  }

  -- Ceding a thread that is not parked parks it.
  pub thread_cede_lem :
      (v : World) × (thread_cede th w ≡ some v) × IsPlaced v × Kept w v (ceded th w.threads)
  unfolding thread_cede
  thread_cede_lem =
      let q : Proc = idled th (w.proc (w.p_of th)) in
      let u : World =
        if q.active.count == q.guaranteed_cores
        then proc_clear_bursting (w.p_of th) given
        else given in
      let m : Marked given u =
        marked_if (q.active.count == q.guaranteed_cores) given _ given
          (clear_bursting-Marked (w.p_of th) given) (marked_refl given) in
      (
        u,
        rw pk refl,
        marked-IsPlaced m given-IsPlaced,
        Kept-marked (Kept-store w (w.p_of th) q (ceded th w.threads) refl refl) m,
      )
