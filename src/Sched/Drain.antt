-- ===== src/Sched/Drain.antt =====
-- `drain_overflow`, and what the operations on the queues leave alone.
use libut.Common.{
  ℕ, zero, suc, ◌-◌, ◌≤◌, ◌<◌, ◌≡◌, refl, sym, ap, ap₂, ◌∙◌, some, List, [], ◌∷◌, ◌++◌, append-nil,
  append_assoc, arith, dec_lt, length, take, drop, length-append,
}
use libut.Common.Words.{sub32}
use libut.Kthread.{Thread, Kthread}
use libut.Sched.{rq_size, store_rq, push, drain_loop, drain_overflow, pop_rq, pop_rrq, throw_to}
use libut.Sched.Queue.{
  IsQueued, Queues, queues, drained, runq, length-runq, store_rq-runq, store_rq-IsQueued,
  overflow-IsQueued,
}

filled : ℕ → Queues → Queues
filled free q = record q {
  ready = q.ready ++ take free q.overflow;
  overflow = drop free q.overflow;
}

filled_nil :
    (free : ℕ) (q : Queues) → record q { overflow = [] } ≡ filled free (record q { overflow = [] })
unfolding filled
filled_nil zero q = ap (λ l. record q { ready = l; overflow = [] }) (sym (append-nil q.ready))
filled_nil (suc free) q = ap (λ l. record q { ready = l; overflow = [] }) (sym (append-nil q.ready))

filled_none : (free : ℕ) (q : Queues) → free ≡ 0 → q ≡ filled free q
unfolding filled
filled_none zero q e = ap (λ l. record q { ready = l }) (sym (append-nil q.ready))
filled_none (suc free) q e = absurd (omega (arith, e))

filled_step :
    (free m : ℕ) (th : Thread) (more : List Thread) (q : Queues)
    → free ≡ suc m
    → filled m (record q { ready = q.ready ++ th ∷ []; overflow = more })
      ≡ filled free (record q { overflow = th ∷ more })
unfolding filled
filled_step zero m th more q e = absurd (omega (arith, e))
filled_step (suc free) m th more q e =
    ap₂ (λ (n : ℕ) l. record q { ready = l; overflow = drop n more }) (omega (arith, e))
      (append_assoc q.ready (th ∷ []) (take m more)
        ∙ ap (λ (n : ℕ). q.ready ++ th ∷ take n more) (omega (arith, e)))

drain_step :
    (th : Thread) (more : List Thread) (k : Kthread)
    → sub32 k.rq_head k.rq_tail < rq_size
    → drain_loop (th ∷ more) k ≡ drain_loop more (store_rq th k)
unfolding drain_loop
drain_step th more k room = ground (arith)

drain_stop :
    (th : Thread) (more : List Thread) (k : Kthread)
    → rq_size ≤ sub32 k.rq_head k.rq_tail
    → drain_loop (th ∷ more) k ≡ record k { rq_overflow = th ∷ more }
unfolding drain_loop
drain_stop th more k full = ground (arith)

-- What the loop of `drain_overflow` does for the rest `l` of the overflow list.
drain_loop_lem :
    (l : List Thread) (k : Kthread)
    → IsQueued k
    → IsQueued (drain_loop l k)
      × (queues (drain_loop l k) ≡ drained (record (queues k) { overflow = l }))
unfolding drain_loop filled
drain_loop_lem [] k v =
    (overflow-IsQueued k v [], filled_nil (rq_size - length (runq k)) (queues k))
drain_loop_lem (th ∷ more) k v = elim (dec_lt (sub32 k.rq_head k.rq_tail) rq_size) [
  | yes room ↦
      let (a, b) = drain_loop_lem more (store_rq th k) (store_rq-IsQueued k v th room) in
      let m : ℕ = rq_size - suc (length (runq k)) in
      let step : drained (record (queues (store_rq th k)) { overflow = more })
          ≡ drained (record (queues k) { overflow = th ∷ more }) =
        ap (λ l. drained (record (queues k) { ready = l; overflow = more }))
          (store_rq-runq k v th room)
        ∙ ap
            (λ (n : ℕ). filled n (record (queues k) { ready = runq k ++ th ∷ []; overflow = more }))
            (omega (arith, length-append (runq k) (th ∷ [])))
        ∙ filled_step (rq_size - length (runq k)) m th more (queues k)
            (omega (arith, length-runq k v)) in
      rw (drain_step th more k room) (a, b ∙ step)
  | no full ↦ rw (drain_stop th more k (omega arith)) (
    overflow-IsQueued k v (th ∷ more),
    filled_none (rq_size - length (runq k)) (record (queues k) { overflow = th ∷ more })
        (omega (arith, length-runq k v)),
  )
]

-- `drain_overflow` fills the runqueue from the front of the overflow list.
pub drain_lem :
    (k : Kthread)
    → IsQueued k
    → IsQueued (drain_overflow k) × (queues (drain_overflow k) ≡ drained (queues k))
unfolding drain_overflow
drain_lem k v = drain_loop_lem k.rq_overflow k v

-- Only what comes from other kthreads moves the head of the targeted queue.
pub push-rrq_head : (th : Thread) (k k' : Kthread) → push th k ≡ some k' → k'.rrq_head ≡ k.rrq_head
unfolding push
push-rrq_head th k k' e = ground (arith, e)

drain_loop-rrq_head : (l : List Thread) (k : Kthread) → (drain_loop l k).rrq_head ≡ k.rrq_head
unfolding drain_loop
drain_loop-rrq_head [] k = refl
drain_loop-rrq_head (th ∷ more) k = ground (arith, drain_loop-rrq_head more (store_rq th k))

pub drain-rrq_head : (k : Kthread) → (drain_overflow k).rrq_head ≡ k.rrq_head
unfolding drain_overflow
drain-rrq_head k = drain_loop-rrq_head k.rq_overflow k

pub throw_to-rrq_head : (th : Thread) (k : Kthread) → (throw_to th k).rrq_head ≤ suc k.rrq_head
unfolding throw_to
throw_to-rrq_head th k = ground arith

pub pop_rq-rrq_head : (k : Kthread) → (pop_rq k).1.rrq_head ≡ k.rrq_head
unfolding pop_rq
pop_rq-rrq_head k = refl

pub pop_rrq-rrq_head : (k : Kthread) → (pop_rrq k).1.rrq_head ≡ k.rrq_head
unfolding pop_rrq
pop_rrq-rrq_head k = refl
