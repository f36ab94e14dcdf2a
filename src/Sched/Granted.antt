-- ===== src/Sched/Granted.antt =====
-- `softirq_run_thread`: the thread that will handle the events of a kthread.
use libut.Common.{
  ℕ, ◌≡◌, refl, ap, ◌∙◌, fun_ext, inl, inr, Bool, true, false, not, ◌&&◌, Option, none, some,
  if◌then◌else◌, Bool-cases, update-field,
}
use libut.Lrpc.{ChanIn, Shared, is_empty}
use libut.Timer.{State, needed}
use libut.Softirq.{gather, softirq_run_thread}
use libut.Kthread.{Thread, runnable, Kthread, Runtime, put, set_state, timer_state}
use libut.Sched.{started, softirq_budget, softirq_thread}

-- A runtime with a kthread put back as it was.
put_same : (r : ℕ) (w : Runtime) → put r (w.kthread r) w ≡ w
put_same r w =
    ap (λ (f : ℕ → Kthread). record w { kthread = f })
      (fun_ext λ j. update-field (λ k. k) w.kthread r (w.kthread r) refl j)

-- kthread `r` after a softirq thread has taken its messages
abbrev pub taken : ℕ → ChanIn → Shared → Runtime → Runtime
taken r rxq rx w = put r (record (w.kthread r) { rxq = rxq; rx = rx }) w

-- A softirq thread is the one that was granted, or there is none and nothing has changed.
pub data Softirq (granted : Option Thread) (now r : ℕ) (w : Runtime) : Type 0 where
  idle : softirq_thread granted now r w ≡ (none, w) → Softirq granted now r w
  busy :
      (th : Thread) (rxq : ChanIn) (rx : Shared)
      → granted ≡ some th
      → softirq_thread granted now r w ≡ (some th, set_state th runnable (taken r rxq rx w))
      → Softirq granted now r w

module _ (budget now : ℕ) (s : State) (inn : ChanIn) (sh : Shared) where
  run_idle :
      (b : Bool)
      → (is_empty inn sh && not (needed s now)) ≡ true
      → softirq_run_thread b budget now s inn sh ≡ (none, inn, sh)
  unfolding softirq_run_thread
  run_idle b h = rw h refl

  run_busy :
      (b : Bool)
      → (is_empty inn sh && not (needed s now)) ≡ false
      → softirq_run_thread b budget now s inn sh ≡ (
          if not b
          then (none, inn, sh)
          else (some (gather inn sh budget).0, (gather inn sh budget).1, (gather inn sh budget).2))
  unfolding softirq_run_thread
  run_busy b h = rw h refl

  run_denied : softirq_run_thread false budget now s inn sh ≡ (none, inn, sh)
  run_denied = elim (Bool-cases (is_empty inn sh && not (needed s now))) [
    | inl h ↦ run_idle false h
    | inr h ↦ run_busy false h
  ]

pub softirq_cases : (granted : Option Thread) (now r : ℕ) (w : Runtime) → Softirq granted now r w
unfolding softirq_thread
softirq_cases none now r w = idle (
    ap (started none r w)
      (run_denied softirq_budget now (timer_state r w) (w.kthread r).rxq (w.kthread r).rx)
    ∙ ap (λ u. (none, u)) (put_same r w))
softirq_cases (some th) now r w =
    elim (Bool-cases
      (is_empty (w.kthread r).rxq (w.kthread r).rx && not (needed (timer_state r w) now))) [
        | inl quiet ↦ idle (
            ap (started (some th) r w) (
              run_idle softirq_budget now (timer_state r w) (w.kthread r).rxq (w.kthread r).rx true
                quiet)
            ∙ ap (λ u. (none, u)) (put_same r w))
        | inr loud ↦
            let g = gather (w.kthread r).rxq (w.kthread r).rx softirq_budget in
            busy th g.1 g.2 refl (
              ap (started (some th) r w) (
                run_busy softirq_budget now (timer_state r w) (w.kthread r).rxq (w.kthread r).rx
                  true loud))
      ]
