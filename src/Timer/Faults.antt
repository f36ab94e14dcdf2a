-- ===== src/Timer/Faults.antt =====
-- The check of the heap, and what becomes of an entry whose timer has fired.
use libut.Common.{
  ℕ, zero, suc, ◌+◌, ◌*◌, ◌≤◌, ◌<◌, ◌≡◌, refl, sym, ap, ◌∙◌, ◌↔◌, inl, inr, true, none, arith,
  ℕ_discrete, ◌==◌, Bool-cases, Option-cases,
}
use libut.Common.Words.{sub32}
use libut.Timer.{
  TimerIdx, State, key, parent, place, sift_up_loop, sift_up, sift_down_loop, sift_down, scan,
  is_valid_heap, start_locked, cancel, expire,
}
use mathlib.Core.Path.{subst}
use libut.Timer.Start.{IsValid}
use libut.Timer.Expire.{expire_lem}

-- Every slot from 2 on is not due before its parent.
abbrev pub OrderedFromTwo : ℕ → State → Type 0
OrderedFromTwo n s = (c : ℕ) → 1 < c → c < n → key s (parent c) ≤ key s c

check_sound : (n : ℕ) (s : State) → is_valid_heap s n ≡ true → OrderedFromTwo n s
unfolding is_valid_heap
check_sound zero s h c low high = elim high [ ]
check_sound (suc n) s h c low high = elim (ℕ_discrete c n) [
  | yes same ↦ ground (arith, ap (key s) same, ap (λ (x : ℕ). key s (parent x)) same)
  | no other ↦ check_sound n s (ground arith) c low (omega arith)
]

check_complete : (n : ℕ) (s : State) → OrderedFromTwo n s → is_valid_heap s n ≡ true
unfolding is_valid_heap
check_complete zero s h = refl
check_complete (suc n) s h =
    ground (arith, h n, check_complete n s (λ c low high. h c low (omega arith)))

-- `is_valid_heap` accepts exactly the arrays in which every slot from 2 on is not due before its
-- parent. It says nothing of slot 1.
pub check_iff : (n : ℕ) (s : State) → (is_valid_heap s n ≡ true) ↔ OrderedFromTwo n s
check_iff n s = (check_sound n s, check_complete n s)

-- Two timers pass the check of the heap whatever their deadlines are.
pub check_accepts_two : (s : State) → is_valid_heap s 2 ≡ true
check_accepts_two s = check_complete 2 s (λ c low high. absurd (omega arith))

sift_up_loop-timern :
    (rounds : ℕ) (tmp : TimerIdx) (s : State) (i : ℕ)
    → (sift_up_loop rounds tmp s i).timern ≡ s.timern
unfolding sift_up_loop place
sift_up_loop-timern zero tmp s i = refl
sift_up_loop-timern (suc rounds) tmp s i = ground (
  arith,
  sift_up_loop-timern rounds tmp (place (place s i (s.timers (parent i))) (parent i) tmp)
      (parent i),
)

placed : (s : State) (i c : ℕ) (a b : TimerIdx) → (place (place s i a) c b).timern ≡ s.timern
unfolding place
placed s i c a b = refl

sift_down_loop-timern :
    (rounds : ℕ) (tmp : TimerIdx) (s : State) (i n : ℕ)
    → (sift_down_loop rounds tmp s i n).timern ≡ s.timern
unfolding sift_down_loop
sift_down_loop-timern zero tmp s i n = refl
sift_down_loop-timern (suc rounds) tmp s i n =
    elim (Option-cases (scan 4 s n (i * 4 + 1) tmp.deadline_us none)) [
      | inl e ↦ rw (e, sift_down_loop)
      | inr (c, e) ↦
          rw (e, sift_down_loop)
            (sift_down_loop-timern rounds tmp (place (place s i (s.timers c)) c tmp) c n
              ∙ placed s i c (s.timers c) tmp)
    ]

sift_up-timern : (s : State) (i : ℕ) → (sift_up s i).timern ≡ s.timern
unfolding sift_up
sift_up-timern s i = sift_up_loop-timern i (s.timers i) s i

sift_down-timern : (s : State) (i n : ℕ) → (sift_down s i n).timern ≡ s.timern
unfolding sift_down
sift_down-timern s i n = sift_down_loop-timern n (s.timers i) s i n

place-timern : (s : State) (i : ℕ) (a : TimerIdx) → (place s i a).timern ≡ s.timern
unfolding place
place-timern s i a = refl

removed-timern :
    (s : State) (v : TimerIdx) (i j n : ℕ)
    → (sift_down (sift_up (place s i v) i) j n).timern ≡ s.timern
removed-timern s v i j n =
    sift_down-timern (sift_up (place s i v) i) j n
    ∙ sift_up-timern (place s i v) i
    ∙ place-timern s i v

-- Cancelling an armed entry shortens the heap, whether or not its timer is in it.
cancel-armed :
    (s : State) (e : ℕ)
    → (s.entry e).armed ≡ true
    → ((cancel s e).0 ≡ true) × ((cancel s e).1.timern ≡ sub32 s.timern 1)
unfolding cancel
cancel-armed s e h = elim (Bool-cases ((s.entry e).idx == sub32 s.timern 1)) [
  | inl q ↦ rw (h, q) (refl, refl)
  | inr q ↦ rw (h, q) (refl, removed-timern _ _ _ _ _)
]

start_locked-armed :
    (k : ℕ) (s : State) (e d : ℕ) → (s.entry e).armed ≡ true → start_locked k s e d ≡ none
unfolding start_locked
start_locked-armed k s e d h = rw (h) refl

-- A timer that has fired leaves its entry armed. So cancelling it afterwards returns true and drops
-- the last timer from the heap, and arming it again is a BUG.
pub fired_stays_armed :
    (k : ℕ) (s : State)
    → IsValid k s
    → 0 < s.timern
    → (k' d : ℕ)
    → ((cancel (expire s).1 (expire s).0).0 ≡ true)
      × ((cancel (expire s).1 (expire s).0).1.timern ≡ sub32 (expire s).1.timern 1)
      × (start_locked k' (expire s).1 (expire s).0 d ≡ none)
fired_stays_armed k s v pos k' d =
    let x = expire_lem k s v pos in
    let armed : (x.state.entry (s.timers 0).e).armed ≡ true =
      x.entries (s.timers 0).e ∙ v.armed 0 pos in
    subst
      (λ (a : ℕ × State).
        ((cancel a.1 a.0).0 ≡ true)
        × ((cancel a.1 a.0).1.timern ≡ sub32 a.1.timern 1)
        × (start_locked k' a.1 a.0 d ≡ none))
      (sym x.answer)
      (let c = cancel-armed x.state (s.timers 0).e armed in
        (c.0, c.1, start_locked-armed k' x.state (s.timers 0).e d armed))
