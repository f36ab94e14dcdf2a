-- ===== src/Cores/Parking.antt =====
-- `cores_park_kthread`: a thread gives its core back.
use libut.Common.{
  sym, ℕ, ◌<◌, ◌≡◌, refl, ap, ◌∙◌, inl, inr, Bool, true, false, not, ◌&&◌, ◌||◌, Option, none, some,
  arith, ltb, if◌then◌else◌, Bool-cases, Option-cases, >>=-some, update, update_self, subst,
}
use libut.Cores.{
  World, Thread, Threads, Cores, core_cede, core_reserve, thread_cede, thread_reserve, ceded, ncpu,
}
use libut.Cores.Alloc.{
  cores_park_kthread, give_back, stays_parked, pick_thread_for_core, pick_for, pick_waiting,
  pick_overloaded, preempted, wake_picked, wake_kthread_on_core, pin, is_none,
}
use libut.Cores.Dense.{has, unpoll_room}
use libut.Cores.Placed.{exists, marked-IsPlaced, IsPlaced, Kept}
use libut.Cores.Cede.{thread_cede_lem}
use libut.Cores.Running.{yielded, yield-IsRunning, passed, pass-IsRunning}
use libut.Cores.Wanted.{Unwanted, MayHave, pick_overloaded-none, pick_overloaded-some}
use libut.Cores.Picks.{IsAssigned, IsReady, Picked, pick_overloaded_lem, preempted-Marked}
use libut.Cores.Wake.{
  Kept-exists, marked-exists, marked-IsAssigned, with_cores, pinned-IsAssigned, wake_lem,
}

-- What parking thread `th` of core `c` comes to.
pub data Parked (w v : World) (th : Thread) (c : ℕ) : Bool → Type 0 where
  stayed : v ≡ w → Parked w v th c false
  handed :
      (m : Thread)
      → w.cores.next c ≡ some m
      → v.cores.current c ≡ some m
      → v.threads.parked ≡ update w.threads.parked th true
      → Parked w v th c true
  reused :
      (x : Thread) (k : Cores) (m : World)
      → core_cede c w.cores ≡ some k
      → thread_cede th (record w { cores = k }) ≡ some m
      → MayHave m c (m.p_of x)
      → w.cores.next c ≡ none
      → v.cores.current c ≡ some x
      → update w.threads.parked th true x ≡ true
      → v.threads.parked ≡ update (update w.threads.parked th true) x false
      → Parked w v th c true
  left :
      w.cores.next c ≡ none
      → v.cores.avail_cores c ≡ true
      → Unwanted v c
      → v.threads.parked ≡ update w.threads.parked th true
      → Parked w v th c true

-- `th` runs on core `c`.
pub record RunsOn (w : World) (th : Thread) (c : ℕ) : Type 0 where
  pub there : exists w th ≡ true
  pub awake : w.threads.parked th ≡ false
  pub here : w.threads.core th ≡ c
  pub current : w.cores.current c ≡ some th

module _ (pinned : Bool) (th : Thread) (c n : ℕ) (w : World) (s : IsAssigned w n)
    (on : RunsOn w th c) where
  taken : w.cores.avail_cores c ≡ false
  taken =
      subst (λ (d : ℕ). w.cores.avail_cores d ≡ false) on.here
        (s.running.has_core th on.there on.awake).0

  was_polled : has w.threads.ts th ≡ true
  was_polled = ground (arith, s.placed.polled th, on.there, on.awake)

  abbrev free_cores : Cores
  free_cores =
      yielded (exists w) w.threads.parked w.threads.core w.cores n s.running c th taken on.current

  abbrev freed : World
  freed = record w { cores = free_cores }

  cede_lem : core_cede c w.cores ≡ some free_cores
  unfolding core_cede
  cede_lem = rw taken refl

  ceded_lem :
      (v : World) × (thread_cede th freed ≡ some v) × IsPlaced v × Kept freed v (ceded th w.threads)
  ceded_lem = thread_cede_lem th freed (with_cores w free_cores s.placed) on.there on.awake

  module _ (v : World) (step : thread_cede th freed ≡ some v) (pl : IsPlaced v)
      (kept : Kept freed v (ceded th w.threads)) where
    unparked_none : v.threads.parked ≡ update w.threads.parked th true
    unparked_none = ap (λ (t : Threads). t.parked) kept.threads

    back_lem :
        (o : Option Thread) (u u' : World)
        → pick_thread_for_core c v ≡ some (o, u)
        → wake_picked pinned c (o, u) ≡ some u'
        → give_back pinned th c w ≡ some u'
    unfolding give_back
    back_lem o u u' picked woke = >>=-some _ cede_lem ∙ >>=-some _ step ∙ >>=-some _ picked ∙ woke

    -- No thread waits for the core.
    module _ (alone : w.cores.next c ≡ none) where
      assigned : IsAssigned v n
      assigned = record {
        placed = pl;
        running =
            rw (Kept-exists kept, kept.threads, kept.cores)
              (yield-IsRunning (exists w) w.threads.parked w.threads.core w.cores n s.running c th
                taken on.current alone);
      }

      picked_lem : pick_thread_for_core c v ≡ some (pick_overloaded c v)
      unfolding pick_thread_for_core
      picked_lem =
          ap (λ (o : Option Thread). pick_for c o v)
            (ap (λ (k : Cores). k.next c) kept.cores ∙ alone)

      module _ (o : Option Thread) (u : World) (p : Picked v u o) where
        still_free : u.cores.avail_cores c ≡ true
        still_free =
            ap (λ (k : Cores). k.avail_cores c) (p.marked.cores ∙ kept.cores)
            ∙ update_self w.cores.avail_cores c true

        still_parked : u.threads.parked ≡ update w.threads.parked th true
        still_parked = ap (λ (t : Threads). t.parked) p.marked.threads ∙ unparked_none

        still-IsReady : (x : Thread) → o ≡ some x → IsReady u x
        still-IsReady x e = (
          ap (λ (f : Thread → Bool). f x) (marked-exists p.marked) ∙ (p.ready x e).0,
          ap (λ (t : Threads). t.parked x) p.marked.threads ∙ (p.ready x e).1,
        )

        room : u.threads.ts.count < ncpu
        room =
            rw (p.marked.threads, kept.threads)
              (unpoll_room th w.threads.ts s.placed.polls was_polled)

      idle_lem :
          (o : Option Thread) (u : World)
          → pick_overloaded c v ≡ (o, u)
          → Picked v u o
          → (u' : World) × (give_back pinned th c w ≡ some u')
            × IsAssigned u' n
            × Parked w u' th c true
      idle_lem none u e p = (
        u,
        back_lem none u u (picked_lem ∙ ap some e) refl,
        marked-IsAssigned p.marked assigned,
        left alone (still_free none u p)
            (subst (λ (y : Option Thread × World). Unwanted y.1 c) e
              (pick_overloaded-none v n assigned c (ap (λ (y : Option Thread × World). y.0) e)))
            (still_parked none u p),
      )
      idle_lem (some x) u e p =
          let (u', woke, a, runs, changed, moved) =
            wake_lem pinned x c n u (marked-IsAssigned p.marked assigned)
              (still-IsReady (some x) u p x refl) (still_free (some x) u p) (room (some x) u p) in
          (
            u',
            back_lem (some x) u u' (picked_lem ∙ ap some e) woke,
            a,
            reused x free_cores v cede_lem step
                (pick_overloaded-some v n assigned c x (ap (λ (y : Option Thread × World). y.0) e))
                alone runs
                (ap (λ (f : Thread → Bool). f x) (sym (still_parked (some x) u p))
                  ∙ (still-IsReady (some x) u p x refl).1)
                (changed
                  ∙ ap (λ (f : Thread → Bool). update f x false) (still_parked (some x) u p)),
          )

    -- Thread `m` waits for the core.
    module _ (m : Thread) (promised : w.cores.next c ≡ some m)
        (stays : (w.proc (w.p_of m)).removed ≡ false) where
      m_awake : v.threads.parked m ≡ false
      m_awake =
          ap (λ (f : Thread → Bool). f m) unparked_none
          ∙ ground (arith, s.running.waits c m promised, on.current)

      abbrev handed_cores : Cores
      handed_cores =
          passed (exists w) w.threads.parked w.threads.core w.cores n s.running c th taken
            on.current m promised

      abbrev handed_world : World
      handed_world = record (preempted th v) { cores = handed_cores }

      still_there : (v.proc (v.p_of m)).removed ≡ false
      still_there =
          ap (λ (f : Thread → ℕ). (v.proc (f m)).removed) kept.p_of ∙ kept.gone (w.p_of m) ∙ stays

      picked_waiting : pick_thread_for_core c v ≡ some (some m, preempted th v)
      unfolding pick_thread_for_core
      picked_waiting =
          ap (λ (o : Option Thread). pick_for c o v)
            (ap (λ (k : Cores). k.next c) kept.cores ∙ promised)
          ∙ ap
              (λ (b : Bool).
                if not b then pick_waiting m (v.cores.current c) v else some (pick_overloaded c v))
              still_there
          ∙ ap (λ (o : Option Thread). pick_waiting m o v)
              (ap (λ (k : Cores). k.current c) kept.cores ∙ on.current)

      reserve_free : core_reserve c m free_cores ≡ some handed_cores
      unfolding core_reserve
      reserve_free = ground (arith, promised)

      wake_waiting :
          wake_kthread_on_core pinned m c (preempted th v) ≡ some (pin pinned m handed_world)
      unfolding wake_kthread_on_core
      wake_waiting =
          >>=-some _ (ap (core_reserve c m) kept.cores ∙ reserve_free)
          ∙ >>=-some {a = handed_world} (λ (x : World). some (pin pinned m x))
              (ap (λ (b : Bool). if b then thread_reserve m c handed_world else some handed_world)
                m_awake)

      handed_lem :
          (u' : World) × (give_back pinned th c w ≡ some u')
          × IsAssigned u' n
          × Parked w u' th c true
      handed_lem = (
        pin pinned m handed_world,
        back_lem (some m) (preempted th v) (pin pinned m handed_world) picked_waiting wake_waiting,
        pinned-IsAssigned pinned m handed_world n record {
          placed =
              with_cores (preempted th v) handed_cores (marked-IsPlaced (preempted-Marked th v) pl);
          running =
              rw (marked-exists (preempted-Marked th v), Kept-exists kept, kept.threads)
                (pass-IsRunning (exists w) w.threads.parked w.threads.core w.cores n s.running c th
                  taken on.current m promised);
        },
        handed m promised (update_self w.cores.current c (some m)) unparked_none,
      )

  back-Parked :
      ((m : Thread) → w.cores.next c ≡ some m → (w.proc (w.p_of m)).removed ≡ false)
      → (u' : World) × (give_back pinned th c w ≡ some u') × IsAssigned u' n × Parked w u' th c true
  back-Parked stays =
      let (v, step, pl, kept) = ceded_lem in
      elim (Option-cases (w.cores.next c)) [
        | inl alone ↦
            idle_lem v step pl kept alone (pick_overloaded c v).0 (pick_overloaded c v).1 refl
              (pick_overloaded_lem v n (assigned v step pl kept alone) c)
        | inr (m, promised) ↦ handed_lem v step pl kept m promised (stays m promised)
      ]

  guards : (ltb (w.index th) ncpu ≡ true) × (w.threads.available th ≡ false)
  guards = (
    ground (arith, on.there, s.placed.small (w.p_of th)),
    s.placed.available th on.there ∙ on.awake,
  )

  module _ (in_flight force : Bool) where
    -- commands are still in flight, nothing forces the thread to park, and no other one waits
    abbrev pub is_race : Bool
    is_race = is_none (w.cores.next c) && not force && in_flight

    past_guards :
        cores_park_kthread pinned in_flight th force w
        ≡ (if is_race then some (false, w) else stays_parked (give_back pinned th c w))
    unfolding cores_park_kthread
    past_guards =
        ap
          (λ (d : ℕ).
            if not (ltb (w.index th) ncpu) || w.cores.avail_cores d || w.threads.available th
            then none
            else (if is_none (w.cores.next d) && not force && in_flight
                then some (false, w)
                else stays_parked (give_back pinned th d w)))
          on.here
        ∙ rw (guards.0, guards.1, taken) refl

    -- A thread that runs on core `c` can park. If commands for it were still in flight, no thread waits for
    -- the core and nothing forces it to park, nothing changes. Otherwise it parks. Its core goes to the
    -- thread that waits for it. If none does, it goes to a parked thread of a process that may have it, which
    -- is the first process that waits for cores, or one that waits and has a thread that ran there. It becomes
    -- available only if no process waits for cores, or the one that may have it has no parked thread. No
    -- other thread is parked or woken. Cores and threads stay assigned to each other. The process of a
    -- thread that waits for the core must not be removed.
    pub cores_park_kthread_lem :
        ((m : Thread) → w.cores.next c ≡ some m → (w.proc (w.p_of m)).removed ≡ false)
        → (v : World) × (cores_park_kthread pinned in_flight th force w ≡ some (not is_race, v))
          × IsAssigned v n
          × Parked w v th c (not is_race)
    cores_park_kthread_lem stays = elim (Bool-cases is_race) [
      | inl e ↦ (w, past_guards ∙ rw (e) refl, s, rw e (stayed refl))
      | inr e ↦
          let (v, back, a, p) = back-Parked stays in
          (v, past_guards ∙ rw e (ap stays_parked back), a, rw e p)
    ]
