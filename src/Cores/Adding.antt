-- ===== src/Cores/Adding.antt =====
-- `cores_add_core`: a process gets one more core.
use libut.Common.{
  ℕ, ◌+◌, ◌≤◌, ◌<◌, ◌≡◌, refl, sym, ap, ◌∙◌, ◌≢◌, Bool, false, ◌&&◌, ◌||◌, Option, none, some, List,
  arith, ◌==◌, if◌then◌else◌, length, update, update-field, subst,
}
use libut.Cores.{World, Thread, Threads, Cores, Proc, set_proc, ncpu}
use libut.Cores.Alloc.{
  is_none, is_bursting, pick_core_for_proc, pick_thread_for_proc, cores_add_core, pick_both, add_on,
}
use libut.Cores.Flags.{Marked, marked_store, marked_trans}
use libut.Cores.Picks.{IsAssigned, IsReady, IsOf, pick_thread_lem, pick_thread_some}
use libut.Cores.Wake.{marked-exists, marked-IsAssigned}
use libut.Cores.Offers.{
  Fair, ready_core, preempts, Fair-Offered, Offered, idle, busy, IsCandidate, pick_core_lem,
}
use libut.Cores.Given.{Added, runs, waits, add_on_lem}

Offered-marked : {w u : World} {c : ℕ} → Marked w u → Offered w c → Offered u c
Offered-marked {w} {u} {c} m (idle free) = idle (ap (λ (k : Cores). k.avail_cores c) m.cores ∙ free)
Offered-marked {w} {u} {c} m (busy th taken cur alone) =
    busy th (ap (λ (k : Cores). k.avail_cores c) m.cores ∙ taken)
      (ap (λ (k : Cores). k.current c) m.cores ∙ cur) (ap (λ (k : Cores). k.next c) m.cores ∙ alone)

Added-marked : {w u v : World} {th c : ℕ} → Marked w u → Added u v th c → Added w v th c
Added-marked {w} {u} {v} {th} {c} m (runs free on) =
    runs (sym (ap (λ (k : Cores). k.avail_cores c) m.cores) ∙ free) on
Added-marked {w} {u} {v} {th} {c} m (waits taken alone cur next) =
    waits (sym (ap (λ (k : Cores). k.avail_cores c) m.cores) ∙ taken)
      (sym (ap (λ (k : Cores). k.next c) m.cores) ∙ alone)
      (cur ∙ ap (λ (k : Cores). k.current c) m.cores) next

-- `cores_add_core` cancels a pending timer.
abbrev pub no_timer : ℕ → World → World
no_timer p w = set_proc p (record (w.proc p) { pending_timer = false }) w

-- A process that was given a core has a thread of its own on it, which was parked.
pub record Grown (w v : World) (p n : ℕ) (th : Thread) : Type 0 where
  pub assigned : IsAssigned v n
  pub chosen : IsOf w p th
  pub given :
      (c : ℕ) × Fair w c × Added w v th c × ((pick_thread_for_proc p c (no_timer p w)).0 ≡ some th)
  pub changed : v.threads.parked ≡ update w.threads.parked th false
  pub crowd : v.threads.ts.count ≤ w.threads.ts.count + 1

module _ (pinned : Bool) (n p : ℕ) (w : World) (s : IsAssigned w n)
    (room : w.threads.ts.count < ncpu) (cand : ℕ) (fits : IsCandidate w n cand) where
  no_timer-Marked : Marked w (no_timer p w)
  no_timer-Marked =
      marked_store w p _ record { active = refl; idle = refl; size = refl; gone = refl }

  bursting_kept : (o : Option Thread) → is_bursting (no_timer p w) o ≡ is_bursting w o
  bursting_kept none = refl
  bursting_kept (some th) =
      update-field (λ (q : Proc). q.bursting) w.proc p (record (w.proc p) { pending_timer = false })
        refl (w.p_of th)

  fits_still : IsCandidate (no_timer p w) n cand
  fits_still = record {
    below = fits.below;
    fit =
        ap (λ (b : Bool). w.cores.avail_cores cand || (b && is_none (w.cores.next cand)))
          (bursting_kept (w.cores.current cand))
        ∙ fits.fit;
  }

  fair_before : (c : ℕ) → Fair (no_timer p w) c → Fair w c
  fair_before c (ready_core h) = ready_core h
  fair_before c (preempts th cur over alone taken) =
      preempts th cur
        (sym (
            update-field (λ (q : Proc). q.bursting) w.proc p
              (record (w.proc p) { pending_timer = false }) refl (w.p_of th))
          ∙ over)
        alone taken

  grow_lem :
      (c : ℕ) (u : World) (th : Thread)
      → (pick_thread_for_proc p c (no_timer p w)).0 ≡ some th
      → Fair (no_timer p w) c
      → Marked (no_timer p w) u
      → IsOf (no_timer p w) p th
      → (v : World) × (add_on pinned c (some th, u) ≡ some (some th, v)) × Grown w v p n th
  grow_lem c u th picked off m ((there, parked), owner) =
      let all : Marked w u = marked_trans no_timer-Marked m in
      let ready : IsReady u th = (
        ap (λ (f : Thread → Bool). f th) (marked-exists m) ∙ there,
        ap (λ (t : Threads). t.parked th) m.threads ∙ parked,
      ) in
      let room_left : u.threads.ts.count < ncpu =
        subst (λ (t : Threads). t.ts.count < ncpu) (sym m.threads) room in
      let (v, e, a, added, changed, crowd) =
        add_on_lem pinned th c n u (marked-IsAssigned all s) ready room_left
          (Offered-marked m (Fair-Offered off)) in
      (
        v,
        e,
        record {
          assigned = a;
          chosen = (
            (
              sym (ap (λ (f : Thread → Bool). f th) (marked-exists no_timer-Marked)) ∙ there,
              parked,
            ),
            owner,
          );
          given = (c, fair_before c off, Added-marked all added, picked);
          changed = changed ∙ ap (λ (t : Threads). update t.parked th false) m.threads;
          crowd = subst (λ (t : Threads). v.threads.ts.count ≤ t.ts.count + 1) m.threads crowd;
        },
      )

  has_idle :
      (w.proc p).active.count ≢ (w.proc p).thread_count
      → 0 < length ((no_timer p w).proc p).idle_threads
  has_idle ne =
      subst (λ (l : List Thread). 0 < length l) (sym (no_timer-Marked.proc p).idle)
        (omega (arith, s.placed.total p, ne))

  not_full :
      (w.proc p).active.count ≢ (w.proc p).thread_count
      → ((w.proc p).active.count == (w.proc p).thread_count) ≡ false
  not_full ne = ground (arith, ne)

  -- A process with all its threads active gets no core, and nothing changes. Any other one gets one, if a
  -- core is available, or runs a thread of a process that uses more than its share and is promised to
  -- nobody: a parked thread of the process runs on an available core, or, if none is available, waits for
  -- one that is promised to nobody and runs a thread of a process that uses more than its share. No other thread is parked or
  -- woken, and cores and threads stay assigned to each other. The array of polled threads must have room.
  pub cores_add_core_lem :
      ((w.proc p).active.count ≡ (w.proc p).thread_count
        → cores_add_core pinned n p w ≡ some (none, w))
      × ((w.proc p).active.count ≢ (w.proc p).thread_count
          → (th : Thread) × (v : World) × (cores_add_core pinned n p w ≡ some (some th, v))
            × Grown w v p n th)
  unfolding cores_add_core
  cores_add_core_lem = (
    (λ e. ground (arith, e)),
    (λ ne.
        let s' = marked-IsAssigned no_timer-Marked s in
        let (c, core_picked, off) =
          pick_core_lem (no_timer p w) n s' cand fits_still p (has_idle ne) in
        let (th, picked) = pick_thread_some (no_timer p w) n s' p c (has_idle ne) in
        let (m, f) = pick_thread_lem (no_timer p w) n s' p c in
        let u : World = (pick_thread_for_proc p c (no_timer p w)).1 in
        let (v, e, g) = grow_lem c u th picked off m (f th picked) in
        (
          th,
          v,
          ap
                (λ (b : Bool).
                  if b
                  then some (none, w)
                  else pick_both pinned p (pick_core_for_proc n p (no_timer p w)) (no_timer p w))
                (not_full ne)
              ∙ ap (λ (o : Option ℕ). pick_both pinned p o (no_timer p w)) core_picked
              ∙ ap (λ (o : Option Thread). add_on pinned c (o, u)) picked
              ∙ e,
          g,
        )),
  )
