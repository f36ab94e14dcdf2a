-- ===== src/Sched/Bulk.antt =====
-- Stealing half of a runqueue: the copying loop of `steal_work`, as lists.
use libut.Common.{
  ℕ, zero, suc, ◌+◌, ◌%◌, ◌^◌, ◌≤◌, ◌<◌, ◌≡◌, refl, sym, ap, ap₂, ◌∙◌, ◌∷◌, ◌++◌, arith, update,
  update_self, update_ne,
}
use libut.Common.Words.{add32, sub32}
use libut.Kthread.{Thread, Kthread}
use libut.Sched.{rq_size, copy, thief, robbed}
use libut.Sched.Ring.{ring, ring-append}
use libut.Sched.Queue.{IsQueued, runq}

-- The loop leaves the slots before `i`.
copy_before :
    (count i tail p : ℕ) (remote rq : ℕ → Thread) → p < i → copy count i tail remote rq p ≡ rq p
unfolding copy
copy_before zero i tail p remote rq h = refl
copy_before (suc count) i tail p remote rq h =
    copy_before count (i + 1) (add32 tail 1) p remote (update rq i (remote (tail % rq_size)))
      (omega (arith, h))
    ∙ update_ne rq i p (remote (tail % rq_size)) (λ e. omega (arith, e, h))

-- Slot `i + j` gets the thread at position `tail + j`.
copy_lem :
    (count i tail j at : ℕ) (remote rq : ℕ → Thread)
    → j < count
    → at ≡ i + j
    → copy count i tail remote rq at ≡ remote (add32 tail j % rq_size)
unfolding copy
copy_lem zero i tail j at remote rq h e = elim h [ ]
copy_lem (suc count) i tail zero at remote rq h e =
    copy_before count (i + 1) (add32 tail 1) at remote (update rq i (remote (tail % rq_size)))
      (omega (arith, e))
    ∙ ap (update rq i (remote (tail % rq_size))) {x = at} {y = i} (omega (arith, e))
    ∙ update_self rq i (remote (tail % rq_size))
    ∙ ap remote (omega arith)
copy_lem (suc count) i tail (suc j) at remote rq h e =
    copy_lem count (i + 1) (add32 tail 1) j at remote (update rq i (remote (tail % rq_size)))
      (omega (arith, h)) (omega (arith, e))
    ∙ ap remote (omega arith)

-- Queues with the same elements at each position are one list.
ring-ext :
    (f g : ℕ → Thread) (n t u : ℕ)
    → t < 2 ^ 32
    → u < 2 ^ 32
    → ((j : ℕ) → j < n → f (add32 t j % rq_size) ≡ g (add32 u j % rq_size))
    → ring rq_size f t n ≡ ring rq_size g u n
unfolding ring
ring-ext f g zero t u ht hu h = refl
ring-ext f g (suc n) t u ht hu h =
    ap₂ (λ a l. a ∷ l)
      (ap f {x = t % rq_size} {y = add32 t 0 % rq_size} (omega arith)
        ∙ h 0 (omega arith)
        ∙ ap g {x = add32 u 0 % rq_size} {y = u % rq_size} (omega arith))
      (ring-ext f g n (add32 t 1) (add32 u 1) (omega arith) (omega arith) (λ j lt.
        ap f {x = add32 (add32 t 1) j % rq_size} {y = add32 t (suc j) % rq_size} (omega arith)
        ∙ h (suc j) (omega (arith, lt))
        ∙ ap g {x = add32 u (suc j) % rq_size} {y = add32 (add32 u 1) j % rq_size} (omega arith)))

copy-ring :
    (n tail : ℕ) (remote rq : ℕ → Thread)
    → n ≤ rq_size
    → tail < 2 ^ 32
    → ring rq_size (copy n 0 tail remote rq) 0 n ≡ ring rq_size remote tail n
copy-ring n tail remote rq h small =
    ring-ext (copy n 0 tail remote rq) remote n 0 tail (omega arith) small
      (λ j lt. copy_lem n 0 tail j (add32 0 j % rq_size) remote rq lt (omega (arith, h)))

-- The thief takes the `n` oldest threads of the runqueue, in order, and the others stay.
pub steal-runq :
    (n : ℕ) (l r : Kthread)
    → IsQueued l
    → IsQueued r
    → l.rq_tail ≡ 0
    → n ≤ sub32 r.rq_head r.rq_tail
    → (runq r ≡ runq (thief n l r) ++ runq (robbed n r))
      × IsQueued (thief n l r)
      × IsQueued (robbed n r)
steal-runq n l r vl vr e h =
    let whole : l.rq_tail ≡ 0 → n ≡ sub32 n l.rq_tail = λ e. omega (arith, e, vr.fits, h) in
    (
      ring-append rq_size r.rq n (sub32 r.rq_head (add32 r.rq_tail n)) (sub32 r.rq_head r.rq_tail)
            r.rq_tail vr.tail (omega (arith, vr.head, vr.tail, vr.fits, h))
          ∙ ap (λ l. l ++ runq (robbed n r))
              (sym (copy-ring n r.rq_tail r.rq l.rq (omega (arith, vr.fits, h)) vr.tail)
                ∙ ap₂ (ring rq_size (copy n 0 r.rq_tail r.rq l.rq)) (sym e) (whole e)),
      record {
        head = omega (arith, vr.fits, h);
        tail = vl.tail;
        fits = omega (arith, e, vr.fits, h);
        rrq_head = vl.rrq_head;
        rrq_order = vl.rrq_order;
        rrq_fits = vl.rrq_fits;
      },
      record {
        head = vr.head;
        tail = omega arith;
        fits = omega (arith, vr.head, vr.tail, vr.fits, h);
        rrq_head = vr.rrq_head;
        rrq_order = vr.rrq_order;
        rrq_fits = vr.rrq_fits;
      },
    )
