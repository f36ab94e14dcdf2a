-- ===== src/Sched/Queue.antt =====
-- The queues of one kthread as three lists, and what each operation of sched.c does to them.
use libut.Common.{
  ℕ, suc, ◌+◌, ◌-◌, ◌%◌, ◌^◌, ◌≤◌, ◌<◌, ◌≡◌, sym, ap, ap₂, ◌∙◌, some, List, [], ◌∷◌, ◌++◌, arith,
  dec_lt, ltb, if◌then◌else◌, length, take, drop, update,
}
use libut.Common.Words.{add32, sub32}
use libut.Kthread.{Thread, Kthread}
use libut.Sched.{rq_size, rrq_size, store_rq, push, pop_rq, pop_rrq, throw_to}
use libut.Sched.Ring.{ring, length-ring, ring-push, ring-uncons, apart_32, apart_7}

-- No queue holds more than its array, and the positions of the targeted queue have not wrapped.
pub record IsQueued (k : Kthread) : Type 0 where
  pub head : k.rq_head < 2 ^ 32
  pub tail : k.rq_tail < 2 ^ 32
  pub fits : sub32 k.rq_head k.rq_tail ≤ rq_size
  pub rrq_head : k.rrq_head < 2 ^ 32
  pub rrq_order : k.rrq_tail ≤ k.rrq_head
  pub rrq_fits : k.rrq_head ≤ k.rrq_tail + rrq_size

-- What a kthread has to run: its runqueue, the overflow of it, and the threads that asked for it.
pub record Queues : Type 0 where
  pub ready : List Thread
  pub overflow : List Thread
  pub targeted : List Thread

abbrev pub runq : Kthread → List Thread
runq k = ring rq_size k.rq k.rq_tail (sub32 k.rq_head k.rq_tail)

abbrev pub wanted : Kthread → List Thread
wanted k = ring rrq_size k.rrq k.rrq_tail (k.rrq_head - k.rrq_tail)

abbrev pub queues : Kthread → Queues
queues k = record { ready = runq k; overflow = k.rq_overflow; targeted = wanted k }

-- The operations on lists.
abbrev pub pushed : Thread → Queues → Queues
pushed th q =
    if ltb (length q.ready) rq_size
    then record q { ready = q.ready ++ th ∷ [] }
    else record q { overflow = q.overflow ++ th ∷ [] }

abbrev pub thrown : Thread → Queues → Queues
thrown th q =
    if ltb (length q.targeted) rrq_size
    then record q { targeted = q.targeted ++ th ∷ [] }
    else record q { overflow = q.overflow ++ th ∷ [] }

abbrev pub drained : Queues → Queues
drained q =
    let free : ℕ = rq_size - length q.ready in
    record q { ready = q.ready ++ take free q.overflow; overflow = drop free q.overflow }

pushed_room :
    (th : Thread) (q : Queues)
    → length q.ready < rq_size
    → pushed th q ≡ record q { ready = q.ready ++ th ∷ [] }
pushed_room th q h = ground arith

pushed_full :
    (th : Thread) (q : Queues)
    → rq_size ≤ length q.ready
    → pushed th q ≡ record q { overflow = q.overflow ++ th ∷ [] }
pushed_full th q h = ground arith

thrown_room :
    (th : Thread) (q : Queues)
    → length q.targeted < rrq_size
    → thrown th q ≡ record q { targeted = q.targeted ++ th ∷ [] }
thrown_room th q h = ground arith

thrown_full :
    (th : Thread) (q : Queues)
    → rrq_size ≤ length q.targeted
    → thrown th q ≡ record q { overflow = q.overflow ++ th ∷ [] }
thrown_full th q h = ground arith

head_lem : (h t : ℕ) → h < 2 ^ 32 → t < 2 ^ 32 → h ≡ add32 t (sub32 h t)
head_lem h t a b = omega arith

count_lem :
    (h t : ℕ) → h < 2 ^ 32 → t < 2 ^ 32 → sub32 h t < 32 → sub32 (add32 h 1) t ≡ suc (sub32 h t)
count_lem h t a b c = omega arith

module _ (k : Kthread) (v : IsQueued k) where
  pub length-runq : length (runq k) ≡ sub32 k.rq_head k.rq_tail
  length-runq = length-ring rq_size k.rq k.rq_tail (sub32 k.rq_head k.rq_tail)

  pub length-wanted : length (wanted k) ≡ k.rrq_head - k.rrq_tail
  length-wanted = length-ring rrq_size k.rrq k.rrq_tail (k.rrq_head - k.rrq_tail)

  module _ (th : Thread) (room : sub32 k.rq_head k.rq_tail < rq_size) where
    pub store_rq-runq : runq (store_rq th k) ≡ runq k ++ th ∷ []
    store_rq-runq =
        ap₂ (λ (h m : ℕ). ring rq_size (update k.rq (h % rq_size) th) k.rq_tail m)
          (head_lem k.rq_head k.rq_tail v.head v.tail)
          (count_lem k.rq_head k.rq_tail v.head v.tail room)
        ∙ ring-push rq_size k.rq k.rq_tail (sub32 k.rq_head k.rq_tail) th v.tail
            (λ j lt. apart_32 k.rq_tail (sub32 k.rq_head k.rq_tail) j room lt)

    pub store_rq-IsQueued : IsQueued (store_rq th k)
    store_rq-IsQueued = record {
      head = omega arith;
      tail = v.tail;
      fits = omega (arith, v.head, v.tail);
      rrq_head = v.rrq_head;
      rrq_order = v.rrq_order;
      rrq_fits = v.rrq_fits;
    }

  pub overflow-IsQueued : (l : List Thread) → IsQueued (record k { rq_overflow = l })
  overflow-IsQueued l = record {
    head = v.head;
    tail = v.tail;
    fits = v.fits;
    rrq_head = v.rrq_head;
    rrq_order = v.rrq_order;
    rrq_fits = v.rrq_fits;
  }

  -- `thread_ready` finds a slot or goes to the overflow list, and its assertion holds.
  pub push_lem :
      (th : Thread)
      → (k' : Kthread) × (push th k ≡ some k') × IsQueued k' × (queues k' ≡ pushed th (queues k))
  unfolding push
  push_lem th = elim (dec_lt (sub32 k.rq_head k.rq_tail) rq_size) [
    | yes room ↦ (
      store_rq th k,
      ground arith,
      store_rq-IsQueued th room,
      ap (λ l. record (queues k) { ready = l }) (store_rq-runq th room)
          ∙ sym (pushed_room th (queues k) (omega (arith, length-runq))),
    )
    | no full ↦ (
      record k { rq_overflow = k.rq_overflow ++ th ∷ [] },
      ground (arith, v.fits),
      overflow-IsQueued (k.rq_overflow ++ th ∷ []),
      sym (pushed_full th (queues k) (omega (arith, length-runq))),
    )
  ]

  pub pop_rq_lem :
      (th : Thread) (rest : List Thread)
      → runq k ≡ th ∷ rest
      → ((pop_rq k).0 ≡ th)
        × IsQueued (pop_rq k).1
        × (queues (pop_rq k).1 ≡ record (queues k) { ready = rest })
  unfolding pop_rq
  pop_rq_lem th rest e =
      let (a, b, c) = ring-uncons rq_size k.rq k.rq_tail (sub32 k.rq_head k.rq_tail) th rest e in
      (
        a,
        record {
          head = v.head;
          tail = omega arith;
          fits = omega (arith, v.head, v.tail, v.fits, c);
          rrq_head = v.rrq_head;
          rrq_order = v.rrq_order;
          rrq_fits = v.rrq_fits;
        },
        ap (λ l. record (queues k) { ready = l })
            (ap (ring rq_size k.rq (add32 k.rq_tail 1)) (omega (arith, v.head, v.tail, c)) ∙ b),
      )

  pub pop_rrq_lem :
      (th : Thread) (rest : List Thread)
      → wanted k ≡ th ∷ rest
      → ((pop_rrq k).0 ≡ th)
        × IsQueued (pop_rrq k).1
        × (queues (pop_rrq k).1 ≡ record (queues k) { targeted = rest })
  unfolding pop_rrq
  pop_rrq_lem th rest e =
      let (a, b, c) = ring-uncons rrq_size k.rrq k.rrq_tail (k.rrq_head - k.rrq_tail) th rest e in
      (
        a,
        record {
          head = v.head;
          tail = v.tail;
          fits = v.fits;
          rrq_head = v.rrq_head;
          rrq_order = omega (arith, v.rrq_head, c);
          rrq_fits = omega (arith, v.rrq_head, v.rrq_fits, c);
        },
        ap (λ l. record (queues k) { targeted = l })
            (ap (ring rrq_size k.rrq (add32 k.rrq_tail 1)) (omega (arith, v.rrq_head, c)) ∙ b),
      )

  throw_to-room :
      (th : Thread)
      → suc k.rrq_head < 2 ^ 32
      → k.rrq_head - k.rrq_tail < rrq_size
      → throw_to th k
        ≡ record k { rrq = update k.rrq (k.rrq_head % rrq_size) th; rrq_head = suc k.rrq_head }
  unfolding throw_to
  throw_to-room th small room = ground (arith, v.rrq_order)

  throw_to-full :
      (th : Thread)
      → rrq_size ≤ k.rrq_head - k.rrq_tail
      → throw_to th k ≡ record k { rq_overflow = k.rq_overflow ++ th ∷ [] }
  unfolding throw_to
  throw_to-full th full = ground (arith, v.rrq_order, v.rrq_head)

  wanted-snoc :
      (th : Thread)
      → suc k.rrq_head < 2 ^ 32
      → k.rrq_head - k.rrq_tail < rrq_size
      → ring rrq_size
          (update k.rrq (k.rrq_head % rrq_size) th)
          k.rrq_tail
          (suc k.rrq_head - k.rrq_tail)
        ≡ wanted k ++ th ∷ []
  wanted-snoc th small room =
      let n : ℕ = k.rrq_head - k.rrq_tail in
      let at : k.rrq_head ≡ add32 k.rrq_tail n = omega (arith, v.rrq_order, small) in
      let longer : suc k.rrq_head - k.rrq_tail ≡ suc n = omega (arith, v.rrq_order) in
      ap₂ (λ (h m : ℕ). ring rrq_size (update k.rrq (h % rrq_size) th) k.rrq_tail m) at longer
      ∙ ring-push rrq_size k.rrq k.rrq_tail n th (omega (arith, v.rrq_order, v.rrq_head))
          (λ j lt. apart_7 k.rrq_tail n j room (omega (arith, v.rrq_order, v.rrq_head)) lt)

  pub throw_to_lem :
      (th : Thread)
      → suc k.rrq_head < 2 ^ 32
      → IsQueued (throw_to th k) × (queues (throw_to th k) ≡ thrown th (queues k))
  throw_to_lem th small = elim (dec_lt (k.rrq_head - k.rrq_tail) rrq_size) [
    | yes room ↦ rw (throw_to-room th small room) (
      record {
        head = v.head;
        tail = v.tail;
        fits = v.fits;
        rrq_head = small;
        rrq_order = omega (arith, v.rrq_order);
        rrq_fits = omega (arith, room);
      },
      ap (λ l. record (queues k) { targeted = l }) (wanted-snoc th small room)
          ∙ sym (thrown_room th (queues k) (omega (arith, length-wanted))),
    )
    | no full ↦ rw (throw_to-full th (omega arith)) (
      overflow-IsQueued (k.rq_overflow ++ th ∷ []),
      sym (thrown_full th (queues k) (omega (arith, length-wanted))),
    )
  ]
