-- ===== src/Sched/Refine.antt =====
-- Any sequence of operations on the queues of one kthread, against the lists.
use libut.Common.{
  suc, ◌+◌, ◌^◌, ◌≤◌, ◌<◌, ◌≡◌, refl, ap, ◌∙◌, ◌≢◌, Option, none, some, List, [], ◌∷◌, arith, ◌==◌,
  if◌then◌else◌, ◌>>=◌, >>=-some, length,
}
use libut.Kthread.{Thread, Kthread}
use libut.Sched.{push, drain_overflow, pop_rq, pop_rrq, throw_to}
use libut.Sched.Queue.{
  IsQueued, Queues, queues, pushed, thrown, drained, runq, wanted, length-runq, length-wanted,
  push_lem, pop_rq_lem, pop_rrq_lem, throw_to_lem,
}
use libut.Sched.Drain.{
  push-rrq_head, drain-rrq_head, throw_to-rrq_head, pop_rq-rrq_head, pop_rrq-rrq_head, drain_lem,
}

-- What happens to the queues of a kthread: `ready` from its own threads, `throw` from another kthread,
-- `drain`, `next` and `next_wanted` from its scheduler.
pub data Op : Type 0 where
  ready throw : Thread → Op
  drain next next_wanted : Op

abbrev pushed_out : Option Kthread → Option (Option Thread × Kthread)
pushed_out none = none
pushed_out (some k) = some (none, k)

-- The thread that comes out, if any, and the kthread after.
unfoldable pub step : Op → Kthread → Option (Option Thread × Kthread)
step (ready th) k = pushed_out (push th k)
step (throw th) k = some (none, throw_to th k)
step drain k = some (none, drain_overflow k)
step next k =
    if k.rq_head == k.rq_tail then some (none, k) else some (some (pop_rq k).0, (pop_rq k).1)
step next_wanted k =
    if k.rrq_head == k.rrq_tail then some (none, k) else some (some (pop_rrq k).0, (pop_rrq k).1)

-- The same on lists: two bounded queues, whose overflow waits in a third.
unfoldable pub list_step : Op → Queues → Option Thread × Queues
list_step (ready th) q = (none, pushed th q)
list_step (throw th) q = (none, thrown th q)
list_step drain q = (none, drained q)
list_step next q = elim q.ready [
  | [] ↦ (none, q)
  | th ∷ rest ↦ (some th, record q { ready = rest })
]
list_step next_wanted q = elim q.targeted [
  | [] ↦ (none, q)
  | th ∷ rest ↦ (some th, record q { targeted = rest })
]

-- What came out at each step.
unfoldable pub run : List Op → Kthread → Option (List (Option Thread))
run [] k = some []
run (op ∷ ops) k = do (out, k') ← step op k; outs ← run ops k'; some (out ∷ outs)

unfoldable pub list_run : List Op → Queues → List (Option Thread)
list_run [] q = []
list_run (op ∷ ops) q = (list_step op q).0 ∷ list_run ops (list_step op q).1

-- One step agrees with its list version, and moves the head of the targeted queue by at most one.
pub record Agrees (op : Op) (k : Kthread) : Type 0 where
  pub after : Kthread
  pub answer : step op k ≡ some ((list_step op (queues k)).0, after)
  pub queued : IsQueued after
  pub same : queues after ≡ (list_step op (queues k)).1
  pub moved : after.rrq_head ≤ suc k.rrq_head

pub empty_ring : (k : Kthread) → IsQueued k → runq k ≡ [] → k.rq_head ≡ k.rq_tail
empty_ring k v e = omega (arith, v.head, v.tail, length-runq k v, ap length e)

pub empty_wanted : (k : Kthread) → IsQueued k → wanted k ≡ [] → k.rrq_head ≡ k.rrq_tail
empty_wanted k v e = omega (arith, v.rrq_order, length-wanted k v, ap length e)

pub some_ring :
    (k : Kthread) (th : Thread) (rest : List Thread)
    → IsQueued k
    → runq k ≡ th ∷ rest
    → k.rq_head ≢ k.rq_tail
some_ring k th rest v e q = omega (arith, q, v.head, length-runq k v, ap length e)

pub some_wanted :
    (k : Kthread) (th : Thread) (rest : List Thread)
    → IsQueued k
    → wanted k ≡ th ∷ rest
    → k.rrq_head ≢ k.rrq_tail
some_wanted k th rest v e q = omega (arith, q, length-wanted k v, ap length e)

step-next : (k : Kthread) → IsQueued k → (l : List Thread) → runq k ≡ l → Agrees next k
unfolding step list_step
step-next k v [] e = record {
  after = k;
  answer = rw e ground (arith, empty_ring k v e);
  queued = v;
  same = rw e refl;
  moved = omega arith;
}
step-next k v (th ∷ rest) e =
    let (a, b, c) = pop_rq_lem k v th rest e in
    record {
      after = (pop_rq k).1;
      answer = rw e ground (arith, some_ring k th rest v e, a);
      queued = b;
      same = rw e c;
      moved = omega (arith, pop_rq-rrq_head k);
    }

step-next_wanted :
    (k : Kthread) → IsQueued k → (l : List Thread) → wanted k ≡ l → Agrees next_wanted k
unfolding step list_step
step-next_wanted k v [] e = record {
  after = k;
  answer = rw e ground (arith, empty_wanted k v e);
  queued = v;
  same = rw e refl;
  moved = omega arith;
}
step-next_wanted k v (th ∷ rest) e =
    let (a, b, c) = pop_rrq_lem k v th rest e in
    record {
      after = (pop_rrq k).1;
      answer = rw e ground (arith, some_wanted k th rest v e, a);
      queued = b;
      same = rw e c;
      moved = omega (arith, pop_rrq-rrq_head k);
    }

step-Agrees : (op : Op) (k : Kthread) → IsQueued k → suc k.rrq_head < 2 ^ 32 → Agrees op k
unfolding step list_step
step-Agrees (ready th) k v small =
    let (k', e, v', q) = push_lem k v th in
    record {
      after = k';
      answer = ap pushed_out e;
      queued = v';
      same = q;
      moved = omega (arith, push-rrq_head th k k' e);
    }
step-Agrees (throw th) k v small =
    let (v', q) = throw_to_lem k v th small in
    record {
      after = throw_to th k;
      answer = refl;
      queued = v';
      same = q;
      moved = throw_to-rrq_head th k;
    }
step-Agrees drain k v small =
    let (v', q) = drain_lem k v in
    record {
      after = drain_overflow k;
      answer = refl;
      queued = v';
      same = q;
      moved = omega (arith, drain-rrq_head k);
    }
step-Agrees next k v small = step-next k v (runq k) refl
step-Agrees next_wanted k v small = step-next_wanted k v (wanted k) refl

-- Whatever happens to the queues of a kthread, in whatever order, no assertion fails, and the threads
-- come out as from the two lists: each queue is first in first out, and threads that find it full wait
-- in the overflow list. The positions of the targeted queue must not reach 2^32 on the way.
pub run_list_lem :
    (ops : List Op) (k : Kthread)
    → IsQueued k
    → k.rrq_head + length ops < 2 ^ 32
    → run ops k ≡ some (list_run ops (queues k))
unfolding run list_run
run_list_lem [] k v small = refl
run_list_lem (op ∷ ops) k v small =
    let a = step-Agrees op k v (omega (arith, small)) in
    let rest = run_list_lem ops a.after a.queued (omega (arith, small, a.moved)) in
    >>=-some (λ r. run ops r.1 >>= λ outs. some (r.0 ∷ outs)) a.answer
    ∙ >>=-some (λ outs. some ((list_step op (queues k)).0 ∷ outs)) rest
    ∙ ap (λ q. some ((list_step op (queues k)).0 ∷ list_run ops q)) a.same
