-- ===== src/Cores/Fresh.antt =====
-- A new process, and its first thread.
use libut.Common.{
  ℕ, ◌+◌, ◌≤◌, ◌<◌, ◌≡◌, refl, sym, ap, ◌∙◌, ◌≢◌, ◌⊎◌, inl, inr, Bool, true, false, not, ◌&&◌, ◌||◌,
  Option, none, some, List, arith, ◌==◌, if◌then◌else◌, Bool-cases, length, update, update_self,
  update-all, update-each, subst,
}
use libut.Common.Counts.{times, list_top}
use libut.Cores.{World, Thread, Proc, Cores, ncpu}
use libut.Cores.Init.{init_threads, fresh_proc, set_up}
use libut.Cores.Dense.{has, IsDense, IsPolled}
use libut.Cores.Placed.{belongs, exists, IsPlaced}
use libut.Cores.Running.{IsRunning}
use libut.Cores.Picks.{IsAssigned, launched_pick}
use libut.Cores.Setup.{is_new, Set, set_lem}
use libut.Cores.Alloc.{pick_thread_for_proc, is_bursting, is_none}
use libut.Cores.Offers.{IsCandidate}
use libut.Cores.Adding.{no_timer}

module _ (p home guaranteed n : ℕ) (ths : List Thread) (w : World) (s : IsAssigned w n)
    (new : (x : Thread) → is_new ths x ≡ true → exists w x ≡ false)
    (own : (x : Thread) → w.p_of x ≡ p → is_new ths x ≡ true)
    (once : (x : Thread) → times x ths ≤ 1) (few : length ths ≤ ncpu)
    (online : (w.cores.avail_cores home ≡ true) ⊎ (w.cores.current home ≢ none)) where
  abbrev v : World
  v = set_up p home guaranteed ths w

  abbrev fresh : Proc
  fresh = fresh_proc guaranteed ths (w.proc p)

  z : Set p home 0 ths w (init_threads p home 0 ths w)
  z = set_lem p home 0 ths w

  procs : v.proc ≡ update w.proc p fresh
  procs = ap (λ (f : ℕ → Proc). update f p fresh) z.proc

  sizes :
      (q : ℕ) → (v.proc q).thread_count ≡ (if p == q then length ths else (w.proc q).thread_count)
  sizes q = ap (λ (f : ℕ → Proc). (f q).thread_count) procs ∙ ground arith

  belongs_new : (q : ℕ) (x : Thread) → is_new ths x ≡ true → belongs v q x ≡ (q == p)
  belongs_new q x h = ground (arith, h, z.p_of x, z.index_new x h, sizes (v.p_of x))

  belongs_old : (q : ℕ) (x : Thread) → is_new ths x ≡ false → belongs v q x ≡ belongs w q x
  belongs_old q x h = ground (arith, h, z.p_of x, z.index_old x h, sizes (v.p_of x), own x)

  not_of_p : (x : Thread) → is_new ths x ≡ false → belongs w p x ≡ false
  not_of_p x h = ground (arith, h, own x)

  new_nowhere : (q : ℕ) (x : Thread) → is_new ths x ≡ true → belongs w q x ≡ false
  new_nowhere q x h = ground (arith, new x h)

  old_exists : (x : Thread) → exists w x ≡ true → is_new ths x ≡ false
  old_exists x h = ground (arith, new x, h)

  set_idle :
      (q : ℕ) (x : Thread)
      → times x (update w.proc p fresh q).idle_threads
        ≡ (if belongs v q x && v.threads.parked x then 1 else 0)
  set_idle =
      update-each
        (λ q (r : Proc).
          (x : Thread)
          → times x r.idle_threads ≡ (if belongs v q x && v.threads.parked x then 1 else 0))
        w.proc p fresh
        (λ x. elim (Bool-cases (is_new ths x)) [
          | inl h ↦ ground (arith, h, belongs_new p x h, z.parked x, once x)
          | inr h ↦ ground (arith, h, belongs_old p x h, not_of_p x h)
        ])
        (λ q ne x. elim (Bool-cases (is_new ths x)) [
          | inl h ↦ ground (arith, h, belongs_new q x h, ne, new_nowhere q x h, s.placed.idle q x)
          | inr h ↦ ground (arith, h, belongs_old q x h, z.parked x, s.placed.idle q x)
        ])

  set_active :
      (q : ℕ) (x : Thread)
      → has (update w.proc p fresh q).active x ≡ belongs v q x && not (v.threads.parked x)
  set_active =
      update-each
        (λ q (r : Proc). (x : Thread) → has r.active x ≡ belongs v q x && not (v.threads.parked x))
        w.proc p fresh
        (λ x. elim (Bool-cases (is_new ths x)) [
          | inl h ↦ ground (arith, h, z.parked x)
          | inr h ↦ ground (arith, h, belongs_old p x h, not_of_p x h)
        ])
        (λ q ne x. elim (Bool-cases (is_new ths x)) [
          | inl h ↦ ground (arith, h, z.parked x, new_nowhere q x h, s.placed.active q x)
          | inr h ↦ ground (arith, h, belongs_old q x h, z.parked x, s.placed.active q x)
        ])

  was_polled : (x : Thread) → has w.threads.ts x ≡ true → is_new ths x ≡ false
  was_polled x h = ground (arith, new x, s.placed.polled x, h)

  set_polled : (x : Thread) → has v.threads.ts x ≡ exists v x && not (v.threads.parked x)
  set_polled x = elim (Bool-cases (is_new ths x)) [
    | inl h ↦ ground (arith, h, z.at x, z.parked x, z.count, s.placed.polls.dense.fits)
    | inr h ↦ ground (
      arith,
      h,
      z.at x,
      z.parked x,
      z.count,
      ap (λ (f : ℕ → Thread). f (w.threads.ts.at x)) z.slots,
      belongs_old (v.p_of x) x h,
      z.p_of x,
      s.placed.polled x,
    )
  ]

  old_has : (x : Thread) → is_new ths x ≡ false → has v.threads.ts x ≡ has w.threads.ts x
  old_has x h =
      ground (arith, h, z.at x, z.count, ap (λ (f : ℕ → Thread). f (w.threads.ts.at x)) z.slots)

  each_proc : (P : Proc → Type 0) → P fresh → ((q : ℕ) → P (w.proc q)) → (q : ℕ) → P (v.proc q)
  each_proc P new old q =
      subst (λ (f : ℕ → Proc). P (f q)) (sym procs)
        (update-all P w.proc p fresh q new (λ ne. old q))

  set_knows : (i : ℕ) → i < w.threads.ts.count → v.threads.ts.at (w.threads.ts.slots i) ≡ i
  set_knows i lt =
      let y : Thread = w.threads.ts.slots i in
      let e = s.placed.polls.dense.knows i lt in
      z.at y ∙ ground (arith, was_polled y (ground (arith, e, lt)), e)

  set-IsPolled : IsPolled v.threads.ts
  set-IsPolled = record {
    dense = record {
      fits = rw z.count s.placed.polls.dense.fits;
      knows = λ i lt. rw z.slots (set_knows i (subst (λ (m : ℕ). i < m) z.count lt));
    };
    lost = λ x h. elim (Bool-cases (is_new ths x)) [
      | inl e ↦ ground (arith, e, z.at x)
      | inr e ↦ z.at x ∙ ground (arith, e, s.placed.polls.lost x (sym (old_has x e) ∙ h))
    ];
  }

  set-IsPlaced : IsPlaced v
  set-IsPlaced = record {
    dense = λ q.
        each_proc (λ (r : Proc). IsDense r.active)
          record { fits = omega arith; knows = λ i lt. absurd (omega (arith, lt)) } s.placed.dense
          q;
    polls = set-IsPolled;
    total = λ q.
        each_proc (λ (r : Proc). length r.idle_threads + r.active.count ≡ r.thread_count)
          (omega arith) s.placed.total q;
    small = λ q. each_proc (λ (r : Proc). r.thread_count ≤ ncpu) few s.placed.small q;
    idle = λ q x. ap (λ (f : ℕ → Proc). times x (f q).idle_threads) procs ∙ set_idle q x;
    active = λ q x. ap (λ (f : ℕ → Proc). has (f q).active x) procs ∙ set_active q x;
    polled = set_polled;
    available = λ x e. elim (Bool-cases (is_new ths x)) [
      | inl h ↦ ground (arith, h, z.available x, z.parked x)
      | inr h ↦ ground (
        arith,
        h,
        z.available x,
        z.parked x,
        s.placed.available x,
        belongs_old (v.p_of x) x h,
        z.p_of x,
        e,
      )
    ];
  }

  old_kept :
      (x : Thread)
      → exists w x ≡ true
      → (exists v x ≡ true)
        × (v.threads.parked x ≡ w.threads.parked x)
        × (v.threads.core x ≡ w.threads.core x)
  old_kept x e =
      let h = old_exists x e in
      (
        ground (arith, belongs_old (v.p_of x) x h, z.p_of x, h, e),
        ground (arith, h, z.parked x),
        ground (arith, h, z.core x),
      )

  awake_old : (x : Thread) → exists v x ≡ true → v.threads.parked x ≡ false → exists w x ≡ true
  awake_old x e b = elim (Bool-cases (is_new ths x)) [
    | inl h ↦ absurd (ground (arith, h, z.parked x, b))
    | inr h ↦ ground (arith, belongs_old (v.p_of x) x h, z.p_of x, h, e)
  ]

  abbrev Homed : ℕ → Type 0
  Homed c = (w.cores.avail_cores c ≡ true) ⊎ (w.cores.current c ≢ none)

  set-Homed : (x : Thread) → exists v x ≡ true → Homed (v.threads.core x)
  set-Homed x e = elim (Bool-cases (is_new ths x)) [
    | inl h ↦ subst Homed (sym (ground (arith, h, z.core x))) online
    | inr h ↦
        let there : exists w x ≡ true =
          ground (arith, belongs_old (v.p_of x) x h, z.p_of x, h, e) in
        subst Homed (sym (old_kept x there).2) (s.running.homed x there)
  ]

  set_has_core :
      (x : Thread)
      → exists v x ≡ true
      → v.threads.parked x ≡ false
      → (w.cores.avail_cores (v.threads.core x) ≡ false)
        × ((w.cores.current (v.threads.core x) ≡ some x)
            ⊎ (w.cores.next (v.threads.core x) ≡ some x))
  set_has_core x a b =
      let there = awake_old x a b in
      let (e, parked, core) = old_kept x there in
      subst
        (λ (c : ℕ).
          (w.cores.avail_cores c ≡ false)
          × ((w.cores.current c ≡ some x) ⊎ (w.cores.next c ≡ some x)))
        (sym core) (s.running.has_core x there (sym parked ∙ b))

  set-IsRunning : IsRunning (exists v) v.threads.parked v.threads.core v.cores n
  set-IsRunning = rw z.cores record {
    few = s.running.few;
    counted = s.running.counted;
    outside = s.running.outside;
    runs = λ c x a b.
        let (e, parked, core) = old_kept x (s.running.known c x (inl b)) in
        let (awake, here) = s.running.runs c x a b in (parked ∙ awake, core ∙ here);
    waits = λ c x a.
        let (there, taken, awake, here, other, some_there) = s.running.waits c x a in
        let (e, parked, core) = old_kept x there in
        (e, taken, parked ∙ awake, core ∙ here, other, some_there);
    has_core = λ x a b. set_has_core x a b;
    homed = λ x a. set-Homed x a;
    known = λ c x a. (old_kept x (s.running.known c x a)).0;
  }

  pub set-IsAssigned : IsAssigned v n
  set-IsAssigned = record { placed = set-IsPlaced; running = set-IsRunning }

  old_bursting :
      (o : Option Thread)
      → ((x : Thread) → o ≡ some x → exists w x ≡ true)
      → is_bursting v o ≡ is_bursting w o
  old_bursting none known = refl
  old_bursting (some x) known =
      let h = old_exists x (known x refl) in
      ground (arith, h, z.p_of x, own x, ap (λ (f : ℕ → Proc). (f (v.p_of x)).bursting) procs)

  pub still_fits : (cand : ℕ) → IsCandidate w n cand → IsCandidate v n cand
  still_fits cand f = record {
    below = f.below;
    fit =
        ap
          (λ (k : Cores).
            k.avail_cores cand || (is_bursting v (k.current cand) && is_none (k.next cand)))
          z.cores
        ∙ ap (λ (b : Bool). w.cores.avail_cores cand || (b && is_none (w.cores.next cand)))
            (old_bursting (w.cores.current cand) (λ x e. s.running.known cand x (inl e)))
        ∙ f.fit;
  }

  pub still_room : w.threads.ts.count < ncpu → v.threads.ts.count < ncpu
  still_room h = rw z.count h

  started_proc : (no_timer p v).proc p ≡ record fresh { pending_timer = false }
  started_proc =
      update_self v.proc p (record (v.proc p) { pending_timer = false })
      ∙ ap (λ (r : Proc). record r { pending_timer = false })
          (ap (λ (f : ℕ → Proc). f p) procs ∙ update_self w.proc p fresh)

  -- The pick for a process that starts is its first thread.
  pub first_pick : (c : ℕ) → (pick_thread_for_proc p c (no_timer p v)).0 ≡ list_top ths
  first_pick c =
      launched_pick p c (no_timer p v) (ap (λ (r : Proc). r.launched) started_proc)
      ∙ ap (λ (r : Proc). list_top r.idle_threads) started_proc

  pub not_full : 0 < length ths → (v.proc p).active.count ≢ (v.proc p).thread_count
  not_full h e =
      let f : v.proc p ≡ fresh = ap (λ (g : ℕ → Proc). g p) procs ∙ update_self w.proc p fresh in
      omega (arith, h, e, ap (λ (r : Proc). r.active.count) f, ap (λ (r : Proc). r.thread_count) f)
