-- ===== src/Cores/Picks.antt =====
-- What `pick_thread_for_proc`, `pick_thread_for_core` and `pick_core_for_proc` may pick.
use libut.Common.{
  List, [], ◌∷◌, ap, update-field, ℕ, ◌<◌, ◌≡◌, refl, ◌⊎◌, inl, inr, Bool, true, false, Option,
  none, some, arith, if◌then◌else◌, length,
}
use libut.Common.Counts.{times, list_top, list_tail, times-top, times-tail, top-some, tail-some}
use libut.Cores.{World, Thread, Proc}
use libut.Cores.Alloc.{
  or_else, recent, pick_thread_for_proc, wanting, pick_thread_if, pick_overloaded, pick_top,
  preempted,
}
use libut.Cores.Flags.{Marked, marked_refl, marked_store}
use libut.Cores.Placed.{exists, IsPlaced}
use libut.Cores.Running.{IsRunning}

-- The allocator's state, with `n` cores.
pub record IsAssigned (w : World) (n : ℕ) : Type 0 where
  pub placed : IsPlaced w
  pub running : IsRunning (exists w) w.threads.parked w.threads.core w.cores n

-- a thread that may be woken
abbrev pub IsReady : World → Thread → Type 0
IsReady w th = (exists w th ≡ true) × (w.threads.parked th ≡ true)

-- one of process `p`
abbrev pub IsOf : World → ℕ → Thread → Type 0
IsOf w p th = IsReady w th × (w.p_of th ≡ p)

-- A pick changes marks only, and picks a thread that may be woken, if any.
pub record Picked (w v : World) (o : Option Thread) : Type 0 where
  pub marked : Marked w v
  pub ready : (th : Thread) → o ≡ some th → IsReady w th

or_else-some : (a b : Option ℕ) (x : ℕ) → or_else a b ≡ some x → (a ≡ some x) ⊎ (b ≡ some x)
or_else-some none b x h = inr h
or_else-some (some a) b x h = inl h

or_else_full : (a b : Option ℕ) → ((x : ℕ) × (b ≡ some x)) → (x : ℕ) × (or_else a b ≡ some x)
or_else_full none b h = h
or_else_full (some a) b h = (a, refl)

module _ (w : World) (n : ℕ) (s : IsAssigned w n) where
  idle-IsOf : (p : ℕ) (th : Thread) → 0 < times th (w.proc p).idle_threads → IsOf w p th
  idle-IsOf p th h = (
    (ground (arith, h, s.placed.idle p th), ground (arith, h, s.placed.idle p th)),
    ground (arith, h, s.placed.idle p th),
  )

  recent-IsOf :
      (p : ℕ) (o : Option Thread) (th : Thread)
      → ((x : Thread) → o ≡ some x → exists w x ≡ true)
      → recent p w o ≡ some th
      → IsOf w p th
  unfolding recent
  recent-IsOf p none th known e = absurd (cc)
  recent-IsOf p (some x) th known e =
      ((ground (arith, e, known x refl), ground (arith, e)), ground (arith, e))

  top-IsOf : (p : ℕ) (th : Thread) → list_top (w.proc p).idle_threads ≡ some th → IsOf w p th
  top-IsOf p th e = idle-IsOf p th (times-top th (w.proc p).idle_threads e)

  tail-IsOf : (p : ℕ) (th : Thread) → list_tail (w.proc p).idle_threads ≡ some th → IsOf w p th
  tail-IsOf p th e = idle-IsOf p th (times-tail th (w.proc p).idle_threads e)

  history-IsOf :
      (p c : ℕ) (th : Thread)
      → or_else
          (recent p w (w.cores.current c))
          (or_else (recent p w (w.cores.prev c)) (list_tail (w.proc p).idle_threads))
        ≡ some th
      → IsOf w p th
  history-IsOf p c th e = elim (or_else-some _ _ th e) [
    | inl now ↦ recent-IsOf p (w.cores.current c) th (λ x h. s.running.known c x (inl h)) now
    | inr e' ↦ elim (or_else-some _ _ th e') [
      | inl before ↦ recent-IsOf p (w.cores.prev c) th (λ x h. s.running.known c x (inr h)) before
      | inr last ↦ tail-IsOf p th last
    ]
  ]

  -- What holds of both branches of a choice.
  either_branch :
      (P : Option Thread × World → Type 0) (b : Bool) (x y : Option Thread × World)
      → P x
      → P y
      → P (if b then x else y)
  either_branch P true x y px py = px
  either_branch P false x y px py = py

  abbrev WasPicked : ℕ → Option Thread × World → Type 0
  WasPicked p (o, v) = Marked w v × ((th : Thread) → o ≡ some th → IsOf w p th)

  pub pick_thread_lem :
      (p c : ℕ)
      → Marked w (pick_thread_for_proc p c w).1
        × ((th : Thread) → (pick_thread_for_proc p c w).0 ≡ some th → IsOf w p th)
  unfolding pick_thread_for_proc
  pick_thread_lem p c =
      either_branch (WasPicked p) (w.proc p).launched _ _
        (
          marked_store w p _ record { active = refl; idle = refl; size = refl; gone = refl },
          top-IsOf p,
        )
        (either_branch (WasPicked p) _ _ _ (marked_refl w, top-IsOf p)
          (marked_refl w, history-IsOf p c))

  abbrev Full : Option Thread × World → Type 0
  Full (o, v) = (x : Thread) × (o ≡ some x)

  -- A process with an idle thread gets one.
  pub pick_thread_some :
      (p c : ℕ)
      → 0 < length (w.proc p).idle_threads
      → (x : Thread) × ((pick_thread_for_proc p c w).0 ≡ some x)
  unfolding pick_thread_for_proc
  pick_thread_some p c h =
      let top = top-some (w.proc p).idle_threads h in
      either_branch Full (w.proc p).launched _ _ top (
        either_branch Full _ _ _ top (
          or_else_full (recent p w (w.cores.current c)) _
            (or_else_full (recent p w (w.cores.prev c)) _ (tail-some (w.proc p).idle_threads h))))

  abbrev pub Shows : Option Thread × World → Type 0
  Shows (o, v) =
      (v.overloaded_procs ≡ w.overloaded_procs)
      × (v.cores ≡ w.cores)
      × (v.p_of ≡ w.p_of)
      × ((q : ℕ)
          → ((v.proc q).overloaded ≡ (w.proc q).overloaded)
            × ((v.proc q).removed ≡ (w.proc q).removed)
            × ((v.proc q).idle_threads ≡ (w.proc q).idle_threads))

  pub pick_thread-Shows : (p c : ℕ) → Shows (pick_thread_for_proc p c w)
  unfolding pick_thread_for_proc
  pick_thread-Shows p c =
      either_branch Shows (w.proc p).launched _ _
        (
          refl,
          refl,
          refl,
          λ q. (
            update-field (λ (x : Proc). x.overloaded) w.proc p _ refl q,
            update-field (λ (x : Proc). x.removed) w.proc p _ refl q,
            update-field (λ (x : Proc). x.idle_threads) w.proc p _ refl q,
          ),
        )
        (either_branch Shows _ _ _ (refl, refl, refl, λ q. (refl, refl, refl))
          (refl, refl, refl, λ q. (refl, refl, refl)))

  -- A process that has got nothing has no parked thread.
  pub pick_thread_none :
      (p c : ℕ) → (pick_thread_for_proc p c w).0 ≡ none → (w.proc p).idle_threads ≡ []
  pick_thread_none p c e = by_list (w.proc p).idle_threads refl
    where
      by_list : (l : List Thread) → (w.proc p).idle_threads ≡ l → l ≡ []
      by_list [] h = refl
      by_list (x ∷ l) h =
          let (y, e') = pick_thread_some p c (ground (arith, ap length h)) in absurd (cc)

  pick_if_lem : (c : ℕ) (o : Option ℕ) → Picked w (pick_thread_if c w o).1 (pick_thread_if c w o).0
  pick_if_lem c none = record { marked = marked_refl w; ready = λ th e. absurd (cc) }
  pick_if_lem c (some p) =
      let (m, f) = pick_thread_lem p c in record { marked = m; ready = λ th e. (f th e).0 }

  pick_top_lem : (c : ℕ) (o : Option ℕ) → Picked w (pick_top c w o).1 (pick_top c w o).0
  pick_top_lem c none = record { marked = marked_refl w; ready = λ th e. absurd (cc) }
  pick_top_lem c (some p) =
      pick_if_lem c
        (or_else (wanting w (w.cores.current c)) (or_else (wanting w (w.cores.prev c)) (some p)))

  pub pick_overloaded_lem : (c : ℕ) → Picked w (pick_overloaded c w).1 (pick_overloaded c w).0
  unfolding pick_overloaded
  pick_overloaded_lem c = pick_top_lem c (list_top w.overloaded_procs)

pub preempted-Marked : (th : Thread) (w : World) → Marked w (preempted th w)
preempted-Marked th w =
    marked_store w (w.p_of th) _ record { active = refl; idle = refl; size = refl; gone = refl }

if_first : (b : Bool) (x y : Option Thread × World) → b ≡ true → (if b then x else y).0 ≡ x.0
if_first b x y e = rw e refl

-- A process that has just started gets its first idle thread.
pub launched_pick :
    (p c : ℕ) (w : World)
    → (w.proc p).launched ≡ true
    → (pick_thread_for_proc p c w).0 ≡ list_top (w.proc p).idle_threads
unfolding pick_thread_for_proc
launched_pick p c w e = if_first _ _ _ e
