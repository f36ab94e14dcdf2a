-- ===== src/Timer/Softirq.antt =====
-- The loop of `timer_softirq`, round after round.
use libut.Common.{
  ℕ, zero, suc, ◌+◌, ◌≤◌, ◌<◌, ◌≡◌, refl, sym, ◌⊎◌, inl, inr, true, false, List, [], ◌∷◌, arith,
  ltb, if◌then◌else◌, Bool-cases, length,
}
use mathlib.Core.Path.{subst}
use libut.Common.Totals.{total-ge, total-zero}
use libut.Timer.{TimerIdx, State, key, expire, needed, softirq}
use libut.Timer.Start.{IsValid, pending}
use libut.Timer.Expire.{expire_lem}

-- Each timer was due when its round read the clock.
abbrev pub Due : (ℕ → ℕ) → List TimerIdx → Type 0
Due clock [] = Unit
Due clock (t ∷ ts) = (t.deadline_us ≤ clock 0) × Due (λ n. clock (suc n)) ts

-- The deadlines do not fall, from `b` on.
abbrev pub Ascending : ℕ → List TimerIdx → Type 0
Ascending b [] = Unit
Ascending b (t ∷ ts) = (b ≤ t.deadline_us) × Ascending t.deadline_us ts

abbrev pub weight : (TimerIdx → ℕ) → List TimerIdx → ℕ
weight w [] = 0
weight w (t ∷ ts) = w t + weight w ts

needed-pos : (s : State) (now : ℕ) → needed s now ≡ true → (0 < s.timern) × (key s 0 ≤ now)
unfolding needed
needed-pos s now h = ground arith

module _ (handler : ℕ → State → State) (budget : ℕ) (clock : ℕ → ℕ) (s : State) where
  abbrev next : List TimerIdx × State
  next = softirq handler budget (λ n. clock (suc n)) (handler (expire s).0 (expire s).1)

  softirq-stop : needed s (clock 0) ≡ false → softirq handler (suc budget) clock s ≡ ([], s)
  unfolding softirq
  softirq-stop h = rw h

  softirq-next :
      needed s (clock 0) ≡ true
      → softirq handler (suc budget) clock s ≡ (s.timers 0 ∷ next.0, next.1)
  unfolding softirq
  softirq-next h = rw h

softirq-out :
    (handler : ℕ → State → State) (clock : ℕ → ℕ) (s : State) → softirq handler 0 clock s ≡ ([], s)
unfolding softirq
softirq-out handler clock s = refl

-- What a run of the softirq comes to.
pub record Ran (k budget : ℕ) (clock : ℕ → ℕ) (out : List TimerIdx × State) : Type 0 where
  pub valid : IsValid k out.1
  pub due : Due clock out.0
  pub within : length out.0 ≤ budget
  pub drained : (length out.0 ≡ budget) ⊎ (needed out.1 (clock (length out.0)) ≡ false)

-- If handlers keep the timers valid, a softirq keeps them valid, fires only timers that are due, no
-- more than its budget, and stops before the budget is spent only when no timer is due.
pub softirq-Ran :
    (k : ℕ) (handler : ℕ → State → State)
    → ((e : ℕ) (t : State) → IsValid k t → IsValid k (handler e t))
    → (budget : ℕ) (clock : ℕ → ℕ) (s : State) → IsValid k s
    → Ran k budget clock (softirq handler budget clock s)
softirq-Ran k handler keeps zero clock s v =
    rw (softirq-out handler clock s)
      record { valid = v; due = tt; within = omega arith; drained = inl refl }
softirq-Ran k handler keeps (suc budget) clock s v = elim (Bool-cases (needed s (clock 0))) [
  | inr idle ↦
      rw (softirq-stop handler budget clock s idle)
        record { valid = v; due = tt; within = omega arith; drained = inr idle }
  | inl busy ↦
      let p = needed-pos s (clock 0) busy in
      let x = expire_lem k s v p.0 in
      let valid = subst (λ (r : ℕ × State). IsValid k r.1) (sym x.answer) x.valid in
      let r =
        softirq-Ran k handler keeps budget (λ n. clock (suc n)) (handler (expire s).0 (expire s).1)
          (keeps _ _ valid) in
      rw (softirq-next handler budget clock s busy) record {
        valid = r.valid;
        due = (p.1, r.due);
        within = omega (arith, r.within);
        drained = ground (arith, r.drained);
      }
]

-- the handlers that leave the timers alone
abbrev pub quiet : ℕ → State → State
quiet e s = s

-- 1 for a timer that is due before `b`
abbrev before : ℕ → TimerIdx → ℕ
before b t = if ltb t.deadline_us b then 1 else 0

none_before : (s : State) (b : ℕ) → 0 < s.timern → pending s (before b) ≡ 0 → b ≤ key s 0
none_before s b pos h = ground (arith, total-ge (before b) s.timern s.timers 0 pos)

all_from : (s : State) (b : ℕ) → ((j : ℕ) → j < s.timern → b ≤ key s j) → pending s (before b) ≡ 0
all_from s b h = total-zero (before b) s.timern s.timers (λ j hj. ground (arith, h j hj))

-- What a run of the softirq under which nothing else touches the timers comes to.
pub record Served (b : ℕ) (s : State) (out : List TimerIdx × State) : Type 0 where
  pub ascending : Ascending b out.0
  pub conserved : (w : TimerIdx → ℕ) → pending out.1 w + weight w out.0 ≡ pending s w

softirq-Served_from :
    (k budget b : ℕ) (clock : ℕ → ℕ) (s : State)
    → IsValid k s
    → pending s (before b) ≡ 0
    → Served b s (softirq quiet budget clock s)
softirq-Served_from k zero b clock s v h =
    rw (softirq-out quiet clock s) record { ascending = tt; conserved = λ w. omega arith }
softirq-Served_from k (suc budget) b clock s v h = elim (Bool-cases (needed s (clock 0))) [
  | inr idle ↦
      rw (softirq-stop quiet budget clock s idle)
        record { ascending = tt; conserved = λ w. omega arith }
  | inl busy ↦
      let p = needed-pos s (clock 0) busy in
      let x = expire_lem k s v p.0 in
      let later = all_from s (key s 0) x.earliest in
      let r =
        softirq-Served_from k budget (key s 0) (λ n. clock (suc n)) x.state x.valid
          (omega (arith, x.removed (before (key s 0)))) in
      rw (softirq-next quiet budget clock s busy) (
        subst
          (λ (y : ℕ × State). Served b s (
            s.timers 0 ∷ (softirq quiet budget (λ n. clock (suc n)) y.1).0,
            (softirq quiet budget (λ n. clock (suc n)) y.1).1,
          ))
          (sym x.answer)
          (record {
            ascending = (none_before s b p.0 h, r.ascending);
            conserved = λ w. omega (arith, r.conserved w, x.removed w);
          }))
]

-- While nothing else touches the timers, a softirq fires them in the order of their deadlines, and the
-- timers that it fired and those still pending are the ones that were pending, each once.
pub softirq-Served :
    (k budget : ℕ) (clock : ℕ → ℕ) (s : State)
    → IsValid k s
    → Served 0 s (softirq quiet budget clock s)
softirq-Served k budget clock s v =
    softirq-Served_from k budget 0 clock s v (all_from s 0 (λ j hj. omega arith))
