-- ===== src/Softirq.antt =====
-- runtime/softirq.c: one round of a kthread's pending events, over its command channel and its timers.
pub mod Gather
pub mod Run
mod Tests
use libut.Common.{
  ℕ, zero, suc, ◌+◌, ◌-◌, ◌*◌, ◌/◌, ◌%◌, ◌^◌, ◌≤◌, ◌<◌, min, max, bit_and, bit_or, ◌≡◌, refl, sym,
  ap, ap₂, ◌∙◌, fun_ext, ◌≢◌, ◌↔◌, ◌⊎◌, inl, inr, Bool, true, false, not, ◌&&◌, ◌||◌, Option, none,
  some, List, [], ◌∷◌, ◌++◌, map, append-nil, append_assoc, arith, dec_lt, ℕ_discrete, ltb, leb,
  ◌==◌, if◌then◌else◌, ltb→lt, lt→ltb, leb→le, ==_iff, Bool-cases, Option-cases, length, get_elem?,
  take, drop, update, slice, length-append, length-slice, update_self, update_ne, get_elem?-snoc,
  length-take, take_all, get_elem?-append_some, ◌≡⟨◌⟩◌, ◌∎,
}
use libut.Common.Int.{ℤ, pos, negsuc}
use libut.Lrpc.{Msg, Shared, ChanIn, recv, is_empty}
use libut.Timer.{TimerIdx, State, needed, softirq}

-- `RXCMD_JOIN`
abbrev pub rxcmd_join : ℕ
rxcmd_join = 0

-- `SOFTIRQ_MAX_BUDGET`
abbrev pub max_budget : ℕ
max_budget = 128

-- What `struct softirq_work` carries from the gathering on; the requests name kthreads.
pub record Work : Type 0 where
  pub join_reqs : List ℕ
  pub timer_budget : ℕ

-- The variables of `softirq_gather_work` at the end of its loop.
pub record Gathered : Type 0 where
  pub joins : List ℕ
  pub budget_left : ℤ
  pub inn : ChanIn
  pub shared : Shared

-- one case of the `switch`; other commands are logged
abbrev pub with_cmd : Msg → List ℕ → List ℕ
with_cmd m joins = if m.cmd == rxcmd_join then joins ++ m.payload ∷ [] else joins

-- `while (budget_left--)`
unfoldable pub gather_loop : ℕ → List ℕ → ChanIn → Shared → Gathered
gather_loop zero joins inn sh = record {
  joins = joins;
  budget_left = negsuc 0;
  inn = inn;
  shared = sh;
}
gather_loop (suc left) joins inn sh = elim (recv inn sh).0 [
  | none ↦ record {
    joins = joins;
    budget_left = pos left;
    inn = (recv inn sh).1;
    shared = (recv inn sh).2;
  }
  | some m ↦ gather_loop left (with_cmd m joins) (recv inn sh).1 (recv inn sh).2
]

-- an `int` as an `unsigned int`
abbrev pub to_unsigned : ℤ → ℕ
to_unsigned (pos n) = n % 2 ^ 32
to_unsigned (negsuc n) = 2 ^ 32 - 1 - n % 2 ^ 32

-- `softirq_gather_work`
unfoldable pub gather : ChanIn → Shared → ℕ → Work × ChanIn × Shared
gather inn sh budget =
    let g : Gathered = gather_loop (min budget max_budget) [] inn sh in
    (record { join_reqs = g.joins; timer_budget = to_unsigned g.budget_left }, g.inn, g.shared)

-- What a run leaves: the timers that fired, the timers after, the kthreads that were joined, in order,
-- and the channel.
pub record Outcome : Type 0 where
  pub fired : List TimerIdx
  pub timers : State
  pub joined : List ℕ
  pub inn : ChanIn
  pub shared : Shared

-- `handler` is what happens while the handler of an expired timer runs; `clock` gives the readings of
-- `microtime`.
module _ (handler : ℕ → State → State) where
  -- `softirq_fn`, up to its calls of `join_kthread`
  unfoldable pub softirq_fn : Work → (ℕ → ℕ) → State → List TimerIdx × State
  softirq_fn w clock s =
      if needed s (clock 0) then softirq handler w.timer_budget (λ n. clock (suc n)) s else ([], s)

  -- `softirq_run`
  unfoldable pub softirq_run : ℕ → (ℕ → ℕ) → State → ChanIn → Shared → Outcome
  softirq_run budget clock s inn sh =
      let (w, inn', sh') = gather inn sh budget in
      let done : List TimerIdx × State = softirq_fn w (λ n. clock (suc n)) s in
      if is_empty inn sh && not (needed s (clock 0))
      then record { fired = []; timers = s; joined = []; inn = inn; shared = sh }
      else record {
        fired = done.0;
        timers = done.1;
        joined = w.join_reqs;
        inn = inn';
        shared = sh';
      }

-- `softirq_run_thread`, where `granted` tells whether a thread can be made; `none` is NULL. The thread
-- carries the work that `softirq_fn` will do.
unfoldable pub softirq_run_thread :
    Bool → ℕ → ℕ → State → ChanIn → Shared → Option Work × ChanIn × Shared
softirq_run_thread granted budget now s inn sh =
    let (w, inn', sh') = gather inn sh budget in
    if is_empty inn sh && not (needed s now)
    then (none, inn, sh)
    else (if not granted then (none, inn, sh) else (some w, inn', sh'))
