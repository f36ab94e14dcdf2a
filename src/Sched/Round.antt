-- ===== src/Sched/Round.antt =====
-- One round of `schedule`: where it looks for a thread to run, and in which order.
use libut.Common.{
  ℕ, zero, suc, ◌+◌, ◌-◌, ◌%◌, Bool, true, false, not, Option, none, some, List, [], ◌∷◌, leb, ◌==◌,
  if◌then◌else◌, ◌>>=◌,
}
use libut.Kthread.{Thread, running, runnable, Kthread, Runtime, put, set_state}
use libut.Sched.{Try, softirq_thread, drain_overflow, pop_rq, pop_rrq, steal_work}

-- `RUNTIME_MAX_SIBLINGS`
abbrev pub max_siblings : ℕ
max_siblings = 7

-- What is outside the scheduler in one round: the record of the current cpu in `cpu_map`, with the
-- kthread that ran last on each cpu, a random number, and one answer for each attempt to steal.
pub record Env : Type 0 where
  pub sibling_core : ℕ → ℕ
  pub recent_kthread : ℕ → Option ℕ
  pub random : ℕ
  pub tries : ℕ → ℕ → Try
  pub granted : Option Thread
  pub now : ℕ

-- The siblings from place `i` on, up to a zero or the end; `count` places are left.
unfoldable pub siblings : Env → ℕ → ℕ → List (Option ℕ)
siblings env zero i = []
siblings env (suc count) i =
    let rest = siblings env count (i + 1) in
    if env.sibling_core i == 0 then [] else env.recent_kthread (env.sibling_core i - 1) ∷ rest

-- the place where that walk ends
unfoldable pub sibling_end : Env → ℕ → ℕ → ℕ
sibling_end env zero i = i
sibling_end env (suc count) i =
    let rest = sibling_end env count (i + 1) in if env.sibling_core i == 0 then i else rest

-- `r != l && steal_work(l, r)`
abbrev pub attempt : ℕ → ℕ → Try → Runtime → Option (Bool × Runtime)
attempt i r t w = if r == i then some (false, w) else steal_work i r t w

-- Go on only if nothing has been stolen.
abbrev pub or_else : (Runtime → Option (Bool × Runtime)) → Bool × Runtime → Option (Bool × Runtime)
or_else f (true, w) = some (true, w)
or_else f (false, w) = f w

-- The loops over siblings.
unfoldable pub try_siblings : ℕ → List (Option ℕ) → (ℕ → Try) → Runtime → Option (Bool × Runtime)
try_siblings i [] t w = some (false, w)
try_siblings i (none ∷ rest) t w = try_siblings i rest (λ n. t (suc n)) w
try_siblings i (some r ∷ rest) t w =
    attempt i r (t 0) w >>= or_else (try_siblings i rest (λ n. t (suc n)))

-- The loop over `ks`, from place `p` on, with `count` places left. `ks` is read as it is by then.
unfoldable pub sweep : ℕ → ℕ → ℕ → (ℕ → Try) → Runtime → Option (Bool × Runtime)
sweep i p zero t w = some (false, w)
sweep i p (suc count) t w =
    attempt i (w.ks p) (t 0) w >>= or_else (sweep i (p + 1) count (λ n. t (suc n)))

-- `RUNTIME_SCHED_POLL_LVL1` and up: cache siblings, then a random kthread.
unfoldable pub level_1 : ℕ → Env → ℕ → Runtime → Option (Bool × Runtime)
level_1 i env last w =
    let far : ℕ = sibling_end env max_siblings 0 + 1 in
    try_siblings i (siblings env (max_siblings - far) far) (env.tries 1) w
    >>= or_else (λ u. attempt i (u.ks (env.random % last)) (env.tries 2 0) u)

-- What `schedule` does to steal, `iters` rounds after the first.
unfoldable pub steal_round : ℕ → ℕ → Env → Runtime → Option (Bool × Runtime)
steal_round i iters env w =
    let last : ℕ = w.nrks in
    try_siblings i (siblings env max_siblings 0) (env.tries 0) w
    >>= or_else (λ u. if leb 1 iters then level_1 i env last u else some (false, u))
    >>= or_else (λ u. if leb 3 iters then sweep i 0 last (env.tries 3) u else some (false, u))

-- The local part of a round, with the overflow list drained: targeted threads first, then the runqueue,
-- then softirqs. Empty queues are reset.
unfoldable pub pick_local : Option Thread → ℕ → ℕ → Kthread → Runtime → Option Thread × Runtime
pick_local granted now i k w =
    let reset : Kthread = record k { rrq_head = 0; rrq_tail = 0 } in
    if not (k.rrq_head == k.rrq_tail)
    then (some (pop_rrq k).0, put i (pop_rrq k).1 w)
    else (if not (k.rq_head == k.rq_tail)
        then (some (pop_rq reset).0, put i (pop_rq reset).1 w)
        else softirq_thread granted now i (put i (record reset { rq_head = 0; rq_tail = 0 }) w))

unfoldable pub local_thread : Option Thread → ℕ → ℕ → Runtime → Option Thread × Runtime
local_thread granted now i w = pick_local granted now i (drain_overflow (w.kthread i)) w

-- from the label `done` on, with the thread to run; `none` is the failed assertion of `jmp_thread`
unfoldable pub enter : ℕ → Thread → Runtime → Option Runtime
enter i th w = elim (w.state th) [
  | runnable ↦ some (set_state th running (put i (drain_overflow (w.kthread i)) w))
  | _ ↦ none
]

-- the thread of a successful round
unfoldable pub pop_stolen : ℕ → Bool × Runtime → Option (Option Thread × Runtime)
pop_stolen i (false, w) = some (none, w)
pop_stolen i (true, w) =
    if (w.kthread i).rq_head == (w.kthread i).rq_tail
    then none
    else some (some (pop_rq (w.kthread i)).0, put i (pop_rq (w.kthread i)).1 w)

unfoldable pub enter_some : ℕ → Option Thread × Runtime → Option (Option Thread × Runtime)
enter_some i (none, w) = some (none, w)
enter_some i (some th, w) = enter i th w >>= λ u. some (some th, u)

abbrev pub after_local : ℕ → ℕ → Env → Option Thread × Runtime → Option (Option Thread × Runtime)
after_local i iters env (some th, u) = enter_some i (some th, u)
after_local i iters env (none, u) =
    steal_round i iters env u >>= λ p. pop_stolen i p >>= enter_some i

-- One round of `schedule` by kthread `i`: the thread that it goes on to run, or none, if it is to look
-- again or to park.
unfoldable pub round : ℕ → ℕ → Env → Runtime → Option (Option Thread × Runtime)
round i iters env w = after_local i iters env (local_thread env.granted env.now i w)
