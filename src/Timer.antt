-- ===== src/Timer.antt =====
-- runtime/timer.c and inc/runtime/timer.h: the timer heap of a kthread, a 4-ary heap of deadlines
-- whose entries know their place in it.
pub mod Scan
pub mod Kept
pub mod Order
pub mod Up
pub mod Down
pub mod Start
pub mod Remove
pub mod Cancel
pub mod Expire
pub mod Softirq
pub mod Merge
pub mod Faults
mod Tests
use libut.Common.{
  ℕ, zero, suc, ◌+◌, ◌-◌, ◌*◌, ◌/◌, ◌%◌, ◌^◌, ◌≤◌, ◌<◌, min, max, bit_and, bit_or, ◌≡◌, refl, sym,
  ap, ap₂, ◌∙◌, fun_ext, ◌≢◌, ◌↔◌, ◌⊎◌, inl, inr, Bool, true, false, not, ◌&&◌, ◌||◌, Option, none,
  some, List, [], ◌∷◌, ◌++◌, map, append-nil, append_assoc, arith, dec_lt, ℕ_discrete, ltb, leb,
  ◌==◌, if◌then◌else◌, ltb→lt, lt→ltb, leb→le, ==_iff, Bool-cases, Option-cases, length, get_elem?,
  take, drop, update, slice, length-append, length-slice, update_self, update_ne, get_elem?-snoc,
  length-take, take_all, get_elem?-append_some, ◌≡⟨◌⟩◌, ◌∎,
}
use libut.Common.Words.{sub32}

-- `struct timer_idx`; `e` names a `struct timer_entry`.
pub record TimerIdx : Type 0 where
  pub deadline_us : ℕ
  pub e : ℕ

-- `struct timer_entry`; `localk` names a kthread.
pub record TimerEntry : Type 0 where
  pub armed : Bool
  pub idx : ℕ
  pub fn : ℕ
  pub arg : ℕ
  pub localk : ℕ

-- The timer fields of a kthread, and the entries of the program.
pub record State : Type 0 where
  pub timers : ℕ → TimerIdx
  pub timern : ℕ
  pub entry : ℕ → TimerEntry

-- `RUNTIME_MAX_TIMERS`
abbrev pub max_timers : ℕ
max_timers = 4096

-- the parent of a slot, `(i - 1) / D`
abbrev pub parent : ℕ → ℕ
parent i = (i - 1) / 4

abbrev pub key : State → ℕ → ℕ
key s i = (s.timers i).deadline_us

-- `timer_init`
unfoldable pub init : TimerEntry → ℕ → ℕ → TimerEntry
init e fn arg = record e { armed = false; fn = fn; arg = arg }

-- `heap[i] = v; heap[i].e->idx = i;`
unfoldable pub place : State → ℕ → TimerIdx → State
place s i v = record s {
  timers = update s.timers i v;
  entry = update s.entry v.e (record (s.entry v.e) { idx = i });
}

-- The loop of `sift_up`. Each round goes from `i` to its parent, so `i` rounds are enough.
unfoldable pub sift_up_loop : ℕ → TimerIdx → State → ℕ → State
sift_up_loop zero tmp s i = s
sift_up_loop (suc rounds) tmp s i =
    let p : ℕ = parent i in
    let rest : State = sift_up_loop rounds tmp (place (place s i (s.timers p)) p tmp) p in
    if ltb 0 i then (if leb (key s p) tmp.deadline_us then s else rest) else s

unfoldable pub sift_up : State → ℕ → State
sift_up s i = sift_up_loop i (s.timers i) s i

-- The inner loop of `sift_down`: the child below `w` with the least deadline. `none` is INT_MAX.
unfoldable pub scan : ℕ → State → ℕ → ℕ → ℕ → Option ℕ → Option ℕ
scan zero s n j w c = c
scan (suc left) s n j w c =
    let rest : Option ℕ =
      scan left s n (j + 1) (if ltb (key s j) w then key s j else w)
        (if ltb (key s j) w then some j else c) in
    if leb n j then c else rest

-- The loop of `sift_down`. Each round goes to a child, so `n` rounds are enough.
unfoldable pub sift_down_loop : ℕ → TimerIdx → State → ℕ → ℕ → State
sift_down_loop zero tmp s i n = s
sift_down_loop (suc rounds) tmp s i n = elim (scan 4 s n (i * 4 + 1) tmp.deadline_us none) [
  | none ↦ s
  | some c ↦ sift_down_loop rounds tmp (place (place s i (s.timers c)) c tmp) c n
]

unfoldable pub sift_down : State → ℕ → ℕ → State
sift_down s i n = sift_down_loop n (s.timers i) s i n

-- The loop of `is_valid_heap`, from `i` down to 2.
unfoldable pub is_valid_heap : State → ℕ → Bool
is_valid_heap s zero = true
is_valid_heap s (suc i) =
    let rest : Bool = is_valid_heap s i in
    if ltb 1 i then (if ltb (key s i) (key s (parent i)) then false else rest) else true

-- `timer_start_locked`, on kthread `k`; `none` is BUG.
unfoldable pub start_locked : ℕ → State → ℕ → ℕ → Option State
start_locked k s e deadline_us =
    let i : ℕ = s.timern in
    let queued : State = record s {
      timern = i + 1;
      timers = update s.timers i (record { deadline_us = deadline_us; e = e });
      entry = update s.entry e (record (s.entry e) { idx = i; localk = k });
    } in
    let sifted : State = sift_up queued i in
    if (s.entry e).armed
    then none
    else (if leb max_timers (i + 1)
        then none
        else some (record sifted {
          entry = update sifted.entry e (record (sifted.entry e) { armed = true });
        }))

-- `timer_cancel`, once it holds the lock of the kthread that owns the entry.
unfoldable pub cancel : State → ℕ → Bool × State
cancel s e =
    let last : ℕ = sub32 s.timern 1 in
    let idx : ℕ = (s.entry e).idx in
    let disarmed : State = record s {
      timern = last;
      entry = update s.entry e (record (s.entry e) { armed = false });
    } in
    let raised : State = sift_up (place disarmed idx (s.timers last)) idx in
    if not (s.entry e).armed
    then (false, s)
    else (if idx == last
        then (true, disarmed)
        else (true, sift_down raised (raised.entry e).idx last))

-- `timer_earliest_deadline`
unfoldable pub earliest_deadline : State → ℕ
earliest_deadline s = if s.timern == 0 then 0 else key s 0

-- `timer_needed`, at time `now`
unfoldable pub needed : State → ℕ → Bool
needed s now = ltb 0 s.timern && leb (key s 0) now

-- The part of a round of `timer_softirq` under the lock: the root leaves the heap.
unfoldable pub expire : State → ℕ × State
expire s =
    let i : ℕ = s.timern - 1 in
    let popped : State = record s { timern = i } in
    ((s.timers 0).e, if ltb 0 i then sift_down (place popped 0 (s.timers i)) 0 i else popped)

-- The loop of `timer_softirq`. `clock` gives the readings of `microtime` from this round on, and
-- `handler` what happens while an expired timer's handler runs without the lock. The result is the
-- timers that fired, in order, and the last state. The heap check that a build with DEBUG makes first is
-- `is_valid_heap`; it changes nothing.
module _ (handler : ℕ → State → State) where
  unfoldable pub softirq : ℕ → (ℕ → ℕ) → State → List TimerIdx × State
  softirq zero clock s = ([], s)
  softirq (suc budget) clock s =
      let fired : ℕ × State = expire s in
      let rest : List TimerIdx × State =
        softirq budget (λ n. clock (suc n)) (handler fired.0 fired.1) in
      if needed s (clock 0) then (s.timers 0 ∷ rest.0, rest.1) else ([], s)

-- The copying loop of `timer_merge`: `count` timers of another kthread, from its slot `i` on, go to
-- the end of the array of kthread `k`. `none` is BUG.
unfoldable pub absorb : ℕ → (ℕ → TimerIdx) → ℕ → ℕ → State → Option State
absorb k remote i zero s = some s
absorb k remote i (suc count) s =
    let t : TimerIdx = remote i in
    let moved : State = record s {
      timers = update s.timers s.timern t;
      timern = s.timern + 1;
      entry = update s.entry t.e (record (s.entry t.e) { idx = s.timern; localk = k });
    } in
    let rest : Option State = absorb k remote (i + 1) count moved in
    if leb max_timers (s.timern + 1) then none else rest

-- The loop that restores the heap order, from `i` down to 0.
unfoldable pub heapify : ℕ → State → State
heapify zero s = sift_down s 0 s.timern
heapify (suc i) s = heapify i (sift_down s (suc i) s.timern)

-- `timer_merge`: the heap of kthread `k` once it has absorbed `n` timers of another kthread, and the
-- `timern` of that kthread.
unfoldable pub merge : ℕ → (ℕ → TimerIdx) → ℕ → State → Option (State × ℕ)
merge k remote n s =
    if n == 0
    then some (s, n)
    else elim (absorb k remote 0 n s) [ none ↦ none | some t ↦ some (heapify (t.timern / 4) t, 0) ]
