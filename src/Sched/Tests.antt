-- ===== src/Sched/Tests.antt =====
-- Runs of the scheduler on two kthreads.
use libut.Common.{
  false, ℕ, ◌+◌, ◌⊎◌, ◌+◌, ◌-◌, ◌^◌, ◌≡◌, refl, Bool, true, none, some, List, [], ◌∷◌, arith, ◌==◌,
  if◌then◌else◌, length, update,
}
use libut.Common.Totals.{total, weight}
use libut.Common.Int.{pos}
use libut.Kthread.{Thread, ThreadState, runnable, sleeping, Kthread, Runtime}
use libut.Kthread.Samples.{blank, two, two-Attached, two-Timely}
use libut.Sched.{push, throw_to, pop_rq, pop_rrq, Try, thread_throw, steal_work}
use libut.Sched.Ring.{ring}
use libut.Sched.Queue.{IsQueued, queues, runq}
use libut.Sched.Refine.{step, Op, ready, throw, next, next_wanted, run, list_run, run_list_lem}
use libut.Sched.Once.{load, times, Once, throw_lem}
use libut.Sched.Sound.{IsSound}
use libut.Sched.Stolen.{Tried}
use libut.Sched.Steal.{steal_lem}
use libut.Sched.Join.{is_refused, join_kthread, join_lem, drained_threads, emptied}
use libut.Sched.Round.{Env}
use libut.Sched.Next.{Rounded, round_lem}

-- a kthread without threads
blank-IsQueued : IsQueued blank
blank-IsQueued = ground arith

abbrev some_ops : List Op
some_ops = ready 7 ∷ throw 9 ∷ ready 8 ∷ next ∷ next_wanted ∷ next ∷ next ∷ []

ops_in_order : run some_ops blank ≡ some (none ∷ none ∷ none ∷ some 7 ∷ some 9 ∷ some 8 ∷ none ∷ [])
unfolding run step push throw_to pop_rq pop_rrq
ops_in_order = refl

run_list_lem_example : run some_ops blank ≡ some (list_run some_ops (queues blank))
run_list_lem_example = run_list_lem some_ops blank blank-IsQueued (omega arith)

-- threads 7 and 8 wait on the second kthread; no other is runnable
abbrev waits : Thread → ThreadState
waits t = if t == 7 then runnable else if t == 8 then runnable else sleeping

abbrev loaded : Kthread
loaded = record blank { rq = λ p. 7 + p; rq_head = 2 }

abbrev w0 : Runtime
w0 = two loaded waits

w0-Sound : IsSound [] w0
unfolding total weight ring
w0-Sound = record {
  once = record { queued = λ j h. ground arith; once = λ t. ground arith };
  attached = two-Attached loaded waits refl;
  timely = two-Timely loaded waits refl;
}

throw_lem_example :
    (w' : Runtime) × (thread_throw true 1 9 (pos 4) w0 ≡ some w')
    × Once [] w'
    × (w'.state ≡ update w0.state 9 runnable)
throw_lem_example = throw_lem true 1 9 4 w0 w0-Sound.once (omega arith) refl (omega arith)

abbrev open_try : Try
open_try = record { locked = true; granted = none; now = 0 }

steal_lem_example :
    (b : Bool) × (w' : Runtime) × (steal_work 0 1 open_try w0 ≡ some (b, w')) × Tried 0 w0 b w'
steal_lem_example = steal_lem 0 1 open_try w0 (record {
  sound = w0-Sound;
  caller = omega arith;
  known = omega arith;
  other = omega arith;
  no_head = refl;
  no_tail = refl;
  fresh = λ th e. absurd (cc);
})

abbrev env0 : Env
env0 = record {
  sibling_core = λ p. 0;
  recent_kthread = λ c. none;
  random = 0;
  tries = λ p n. open_try;
  granted = none;
  now = 0;
}

round_lem_example : Rounded 0 3 env0 w0
round_lem_example =
    round_lem 0 3 env0 w0 w0-Sound (omega arith) refl
      (record { recent = λ c r e. absurd (cc); fresh = λ p n th e. absurd (cc) })
      (λ th e. absurd (cc))

abbrev w1 : Runtime
w1 = two (record loaded { parked = true }) waits

w1-Sound : IsSound [] w1
unfolding total weight ring
w1-Sound = record {
  once = record { queued = λ j h. ground arith; once = λ t. ground arith };
  attached = two-Attached (record loaded { parked = true }) waits refl;
  timely = two-Timely (record loaded { parked = true }) waits refl;
}

join_lem_example :
    (w' : Runtime) × (join_kthread true 0 1 w1 ≡ some w')
    × IsSound [] w'
    × ((is_refused true 0 1 w1 ≡ true) × (w' ≡ w1)
        ⊎ (is_refused true 0 1 w1 ≡ false)
          × ((t : ℕ)
              → load t (w'.kthread 0)
                ≡ load t (w1.kthread 0) + times t (drained_threads (w1.kthread 1))))
join_lem_example = join_lem true 0 1 w1 w1-Sound (omega arith) (omega arith) (omega arith)

-- The loop of `join_kthread` compares positions with `<`: once they have wrapped it takes nothing, although
-- two threads are waiting, and then resets the queue.
abbrev wrapped : Kthread
wrapped = record loaded { rq_tail = 2 ^ 32 - 1; rq_head = 1 }

join_wrapped :
    (drained_threads wrapped ≡ [])
    × (length (runq wrapped) ≡ 2)
    × (length (runq (emptied wrapped)) ≡ 0)
unfolding ring
join_wrapped = (refl, refl, refl)
