-- ===== src/Timer/Tests.antt =====
-- The timer heap at concrete inputs.
use libut.Common.{
  ℕ, ◌+◌, ◌-◌, ◌*◌, ◌<◌, ◌≡◌, refl, true, false, some, List, [], ◌∷◌, arith, ltb, ◌==◌,
  if◌then◌else◌,
}
use libut.Timer.{
  TimerIdx, TimerEntry, State, key, is_valid_heap, sift_up, sift_up_loop, sift_down, sift_down_loop,
  scan, place, start_locked, cancel, expire, needed, softirq, merge,
}
use libut.Timer.Start.{IsValid, pending, start_lem}
use libut.Timer.Cancel.{IsPending, Cancelled, cancel_lem}
use libut.Timer.Softirq.{Served, quiet, softirq-Served}
use libut.Timer.Merge.{Incoming, merge_lem}
use libut.Common.Totals.{total}

-- Entry `e`, in slot `e` of kthread 0.
abbrev entries : ℕ → TimerEntry
entries e = record { armed = ltb e 3; idx = e; fn = 0; arg = 0; localk = 0 }

abbrev slots : ℕ → TimerIdx
slots i = record { deadline_us = 10 + 5 * i; e = i }

-- Three timers, due at 10, 15 and 20.
abbrev three : State
three = record { timers = slots; timern = 3; entry = entries }

three-IsValid : IsValid 0 three
three-IsValid = record {
  small = omega arith;
  order = λ c p q low. omega arith;
  linked = λ j h. refl;
  home = λ j h. refl;
  armed = λ j h. ground arith;
}

-- What a caller sees of the heap: the deadlines of the first four slots.
abbrev deadlines : State → List ℕ
deadlines s = key s 0 ∷ key s 1 ∷ key s 2 ∷ key s 3 ∷ []

cancel-three : deadlines (cancel three 0).1 ≡ 15 ∷ 20 ∷ 20 ∷ 25 ∷ []
unfolding cancel sift_up sift_up_loop sift_down sift_down_loop scan place
cancel-three = refl

-- At time 16 the first two timers fire.
softirq-three : (softirq quiet 8 (λ n. 16) three).0 ≡ slots 0 ∷ slots 1 ∷ []
unfolding softirq needed expire sift_down sift_down_loop scan place
softirq-three = refl

start_example :
    (s' : State) × (start_locked 0 three 3 12 ≡ some s')
    × IsValid 0 s'
    × ((w : TimerIdx → ℕ) → pending s' w ≡ pending three w + w (record { deadline_us = 12; e = 3 }))
    × ((s'.entry 3).armed ≡ true)
start_example = start_lem 0 three 3 12 three-IsValid refl (omega arith)

one-IsPending : IsPending three 1
one-IsPending = record { inside = omega arith; there = refl }

cancel_example : Cancelled 0 three 1 three-IsValid one-IsPending
cancel_example = cancel_lem 0 three 1 three-IsValid one-IsPending

nonempty : 0 < three.timern
nonempty = omega arith

softirq-Served_example : Served 0 three (softirq quiet 8 (λ n. 16) three)
softirq-Served_example = softirq-Served 0 8 (λ n. 16) three three-IsValid

-- Two timers of kthread 1, beside those of kthread 0.
abbrev two_kthreads : State
two_kthreads = record three {
  entry = λ e.
      if ltb e 3
      then entries e
      else record { armed = true; idx = e - 10; fn = 0; arg = 0; localk = 1 };
}

abbrev remote : ℕ → TimerIdx
remote i = record { deadline_us = 12; e = 10 + i }

two_kthreads-IsValid : IsValid 0 two_kthreads
two_kthreads-IsValid = record {
  small = omega arith;
  order = λ c p q low. omega arith;
  linked = λ j h. ground arith;
  home = λ j h. ground arith;
  armed = λ j h. ground arith;
}

remote-Incoming : Incoming 1 remote 0 2 two_kthreads
remote-Incoming = record {
  linked = λ j low high. ground arith;
  home = λ j low high. ground arith;
  armed = λ j low high. ground arith;
}

merge_example :
    (s' : State) × (merge 0 remote 2 two_kthreads ≡ some (s', 0))
    × IsValid 0 s'
    × ((w : TimerIdx → ℕ) → pending s' w ≡ pending two_kthreads w + total w remote 2)
merge_example =
    merge_lem 0 1 remote 2 two_kthreads (λ q. omega (arith, q)) two_kthreads-IsValid remote-Incoming
      (omega arith)

-- The check refuses slot 2 before its parent, and accepts slot 1 before it.
abbrev pair : ℕ → ℕ → State
pair a b = record three {
  timers = λ i. record { deadline_us = if i == 1 then a else if i == 2 then b else 10; e = i };
}

check_rejects : is_valid_heap (pair 20 5) 3 ≡ false
unfolding is_valid_heap
check_rejects = refl
