-- ===== src/Softirq/Run.antt =====
-- `softirq_run` on a channel that holds a queue, over a valid heap of timers.
use libut.Common.{
  ℕ, zero, suc, min, ◌≡◌, refl, sym, ◌∙◌, inl, inr, Bool, true, false, not, ◌&&◌, List, [], ◌∷◌,
  arith, Bool-cases, take, drop,
}
use mathlib.Core.Path.{subst}
use libut.Lrpc.{Msg, Shared, ChanIn, is_empty}
use libut.Lrpc.Inv.{Chan, Holds}
use libut.Lrpc.Recv.{is_nil, is_empty_refines}
use libut.Timer.{TimerIdx, State, needed}
use libut.Timer.Start.{IsValid}
use libut.Timer.Softirq.{Due, softirq-Ran}
use libut.Softirq.{Work, Outcome, max_budget, gather, softirq_fn, softirq_run}
use libut.Softirq.Gather.{joins_of, gather_lem}

-- What a run comes to, on kthread `n`, for a channel that held `q`.
pub record Handled (k n budget : ℕ) (clock : ℕ → ℕ) (c : Chan) (q : List Msg) (o : Outcome)
    : Type 0 where
  pub joined : o.joined ≡ joins_of (take (min budget max_budget) q)
  pub holds : Holds k (record c { inn = o.inn; shared = o.shared }) (drop (min budget max_budget) q)
  pub valid : IsValid n o.timers
  pub due : Due (λ i. clock (suc (suc i))) o.fired

fn-Ran :
    (n : ℕ) (handler : ℕ → State → State)
    → ((e : ℕ) (t : State) → IsValid n t → IsValid n (handler e t))
    → (w : Work) (clock : ℕ → ℕ) (s : State) → IsValid n s
    → IsValid n (softirq_fn handler w clock s).1
      × Due (λ i. clock (suc i)) (softirq_fn handler w clock s).0
unfolding softirq_fn
fn-Ran n handler keeps w clock s v = elim (Bool-cases (needed s (clock 0))) [
  | inl busy ↦
      let r = softirq-Ran n handler keeps w.timer_budget (λ i. clock (suc i)) s v in
      rw busy (r.valid, r.due)
  | inr idle ↦ rw idle (v, tt)
]

module _ (handler : ℕ → State → State) (budget : ℕ) (clock : ℕ → ℕ) (s : State) (inn : ChanIn)
    (sh : Shared) where
  abbrev done : List TimerIdx × State
  done = softirq_fn handler (gather inn sh budget).0 (λ i. clock (suc i)) s

  run-idle :
      (is_empty inn sh && not (needed s (clock 0))) ≡ true
      → softirq_run handler budget clock s inn sh
        ≡ record { fired = []; timers = s; joined = []; inn = inn; shared = sh }
  unfolding softirq_run
  run-idle h = rw h refl

  run-busy :
      (is_empty inn sh && not (needed s (clock 0))) ≡ false
      → softirq_run handler budget clock s inn sh ≡ record {
        fired = done.0;
        timers = done.1;
        joined = (gather inn sh budget).0.join_reqs;
        inn = (gather inn sh budget).1;
        shared = (gather inn sh budget).2;
      }
  unfolding softirq_run
  run-busy h = rw h refl

nothing_to_do : (b : Bool) (c : Bool) → (b && not c) ≡ true → b ≡ true
nothing_to_do true c h = refl
nothing_to_do false c h = h

no_messages : (q : List Msg) → is_nil q ≡ true → q ≡ []
unfolding is_nil
no_messages [] h = refl
no_messages (m ∷ q) h = ground (arith, h)

nothing_taken : (b : ℕ) (q : List Msg) → q ≡ [] → ([] ≡ joins_of (take b q)) × (q ≡ drop b q)
unfolding joins_of
nothing_taken zero q e = (refl, refl)
nothing_taken (suc b) [] e = (refl, refl)
nothing_taken (suc b) (m ∷ q) e = ground (arith, e)

-- A run joins the kthreads that the oldest messages ask for, in their order, and takes those messages
-- off the channel, no more than the budget and 128. It fires only timers that are due, and keeps the
-- heap valid if handlers do.
pub softirq_run_lem :
    {k : ℕ} (n budget : ℕ) (handler : ℕ → State → State)
    → ((e : ℕ) (t : State) → IsValid n t → IsValid n (handler e t))
    → (clock : ℕ → ℕ) (s : State) → IsValid n s
    → (q : List Msg) {c : Chan} → Holds k c q
    → Handled k n budget clock c q (softirq_run handler budget clock s c.inn c.shared)
softirq_run_lem {k} n budget handler keeps clock s v q {c} h =
    elim (Bool-cases (is_empty c.inn c.shared && not (needed s (clock 0)))) [
      | inl idle ↦
          let e = no_messages q (
            sym (is_empty_refines q h)
            ∙ nothing_to_do (is_empty c.inn c.shared) (needed s (clock 0)) idle) in
          let t = nothing_taken (min budget max_budget) q e in
          rw (run-idle handler budget clock s c.inn c.shared idle)
            record { joined = t.0; holds = subst (Holds k c) t.1 h; valid = v; due = tt }
      | inr busy ↦
          let g = gather_lem budget q h in
          let r =
            fn-Ran n handler keeps (gather c.inn c.shared budget).0 (λ i. clock (suc i)) s v in
          rw (run-busy handler budget clock s c.inn c.shared busy)
            record { joined = g.0; holds = g.2; valid = r.0; due = r.1 }
    ]
