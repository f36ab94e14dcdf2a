-- ===== src/Sync/WaitGroup.antt =====
-- `waitgroup_add`, `waitgroup_done`, `waitgroup_wait` and `waitgroup_init`.
use libut.Common.{
  ◌^◌, ◌<◌, ◌≡◌, refl, sym, ap, ◌∙◌, ◌⊎◌, inl, inr, Bool, true, false, not, ◌||◌, Option, none,
  some, List, [], ◌∷◌, ◌++◌, append-nil, append_assoc, arith, ◌==◌, if◌then◌else◌, Option-cases,
}
use libut.Common.Int.{ℤ, pos, negsuc, pos_part, neg_part, wrap_int, wrap_small, ltb_ℤ, ◌+ℤ◌}
use libut.Sync.Ready.{Thread, Ready, ready_all, ready_all-append}

-- `struct waitgroup`, less its spin lock; `cnt` is an `int` and wraps.
pub record WaitGroup : Type 0 where
  pub cnt : ℤ
  pub waiters : List Thread

unfoldable pub init : WaitGroup
init = record { cnt = pos 0; waiters = [] }

abbrev is_zero : ℤ → Bool
is_zero (pos n) = n == 0
is_zero (negsuc n) = false

-- `none` is BUG_ON.
unfoldable pub add : WaitGroup → ℤ → Ready → Option (Ready × WaitGroup)
add wg cnt log =
    let sum : ℤ = wrap_int (wg.cnt +ℤ cnt) in
    if ltb_ℤ sum (pos 0)
    then none
    else (if is_zero sum
        then some (ready_all log wg.waiters, record { cnt = sum; waiters = [] })
        else some (log, record wg { cnt = sum }))

-- `waitgroup_done`
unfoldable pub done : WaitGroup → Ready → Option (Ready × WaitGroup)
unfolding add
done wg log = add wg (negsuc 0) log

-- Whether the call returns at once; if not, the thread parks.
unfoldable pub wait : WaitGroup → Thread → Bool × WaitGroup
wait wg myth =
    if is_zero wg.cnt then (true, wg) else (false, record wg { waiters = wg.waiters ++ myth ∷ [] })

pub data Event : Type 0 where
  adds : ℤ → Event
  waits : Thread → Event

-- A wait group with the threads made ready, and those that have parked in `wait`, in order.
pub record World : Type 0 where
  pub group : WaitGroup
  pub ready : Ready
  pub parked : List Thread

unfoldable pub event : World → Event → Option World
event w (adds c) = elim (add w.group c w.ready) [
  | none ↦ none
  | some r ↦ some (record w { group = r.1; ready = r.0 })
]
event w (waits t) = some (record w {
  group = (wait w.group t).1;
  parked = if (wait w.group t).0 then w.parked else w.parked ++ t ∷ [];
})

unfoldable pub run : World → List Event → Option World
run w [] = some w
run w (e ∷ es) = elim (event w e) [ none ↦ none | some w' ↦ run w' es ]

abbrev pub fresh : World
fresh = record { group = record { cnt = pos 0; waiters = [] }; ready = []; parked = [] }

-- the sum of what is added, after `acc`
unfoldable pub total : ℤ → List Event → ℤ
total acc [] = acc
total acc (adds c ∷ es) = total (acc +ℤ c) es
total acc (waits t ∷ es) = total acc es

pub record IsSound (w : World) : Type 0 where
  pub nonneg : neg_part w.group.cnt ≡ 0
  pub waiting : (0 < pos_part w.group.cnt) ⊎ (w.group.waiters ≡ [])
  pub served : w.ready ++ w.group.waiters ≡ w.parked

event-IsSound : {w w' : World} (e : Event) → event w e ≡ some w' → IsSound w → IsSound w'
unfolding event add wait
event-IsSound {w} (adds c) q v =
    ground
      (arith, ready_all-append w.ready w.group.waiters, append-nil (w.ready ++ w.group.waiters))
event-IsSound {w} (waits t) q v = ground (arith, append_assoc w.ready w.group.waiters (t ∷ []))

-- not a count that an `int` holds
abbrev pub is_out : ℤ → Bool
is_out a = ltb_ℤ a (pos 0) || not (ltb_ℤ a (pos (2 ^ 31)))

-- whether the count falls below zero on the way, or to 2^31 or above
unfoldable pub dips : ℤ → List Event → Bool
dips acc [] = false
dips acc (adds c ∷ es) = is_out (acc +ℤ c) || dips (acc +ℤ c) es
dips acc (waits t ∷ es) = dips acc es

-- BUG_ON fires only on an event that drives the count out of its range.
event-none : (w : World) (e : Event) → event w e ≡ none → dips w.group.cnt (e ∷ []) ≡ true
unfolding event add wait dips
event-none w (adds c) h = ground (arith, h, wrap_small (w.group.cnt +ℤ c))
event-none w (waits t) h = cc

event-total :
    (w : World) (e : Event) {w' : World}
    → event w e ≡ some w'
    → dips w.group.cnt (e ∷ []) ≡ false
    → w'.group.cnt ≡ total w.group.cnt (e ∷ [])
unfolding event add wait total dips
event-total w (adds c) q fits = ground (arith, q, wrap_small (w.group.cnt +ℤ c))
event-total w (waits t) q fits = ground arith

dips-cons :
    (acc : ℤ) (e : Event) (es : List Event)
    → dips acc (e ∷ es) ≡ (dips acc (e ∷ []) || dips (total acc (e ∷ [])) es)
unfolding dips total
dips-cons acc (adds c) es = ground arith
dips-cons acc (waits t) es = refl

total-cons :
    (acc : ℤ) (e : Event) (es : List Event) → total acc (e ∷ es) ≡ total (total acc (e ∷ [])) es
unfolding total
total-cons acc (adds c) es = refl
total-cons acc (waits t) es = refl

-- What a run from `w` comes to.
record Outcome (w : World) (es : List Event) : Type 0 where
  last : World
  ends : run w es ≡ some last
  counted : last.group.cnt ≡ total w.group.cnt es
  sound : IsSound last

total-nil : (acc : ℤ) → total acc [] ≡ acc
unfolding total
total-nil acc = refl

module _ (w : World) (e : Event) (es : List Event) where
  -- the first event of a run that never dips
  first_fits : dips w.group.cnt (e ∷ es) ≡ false → dips w.group.cnt (e ∷ []) ≡ false
  first_fits h = ground (arith, dips-cons w.group.cnt e es)

  rest_fits :
      {w' : World}
      → event w e ≡ some w'
      → dips w.group.cnt (e ∷ es) ≡ false
      → dips w'.group.cnt es ≡ false
  rest_fits q h = ground (arith, dips-cons w.group.cnt e es, event-total w e q (first_fits h))

run-Outcome : (w : World) (es : List Event) → IsSound w → dips w.group.cnt es ≡ false → Outcome w es
unfolding run
run-Outcome w [] v h = record {
  last = w;
  ends = refl;
  counted = sym (total-nil w.group.cnt);
  sound = v;
}
run-Outcome w (e ∷ es) v h = elim (Option-cases (event w e)) [
  | inl n ↦ absurd (ground (arith, event-none w e n, first_fits w e es h))
  | inr (w1, s) ↦
      let o = run-Outcome w1 es (event-IsSound e s v) (rest_fits w e es s h) in
      record {
        last = o.last;
        ends = rw (s, run) o.ends;
        counted =
            o.counted
            ∙ ap (λ (c : ℤ). total c es) (event-total w e s (first_fits w e es h))
            ∙ sym (total-cons w.group.cnt e es);
        sound = o.sound;
      }
]

-- A run in which the count never falls below zero, nor to 2^31 or above, trips no BUG_ON. At its end the count is the sum of
-- what was added; every thread that parked has been made ready once or still waits, in the order in
-- which they parked; and if the count is zero none waits.
pub run_counts :
    (es : List Event)
    → dips (pos 0) es ≡ false
    → (w : World) × (run fresh es ≡ some w)
      × (w.group.cnt ≡ total (pos 0) es)
      × (w.ready ++ w.group.waiters ≡ w.parked)
      × ((0 < pos_part w.group.cnt) ⊎ (w.group.waiters ≡ []))
run_counts es h =
    let o = run-Outcome fresh es (record { nonneg = refl; waiting = inr refl; served = refl }) h in
    (o.last, o.ends, o.counted, o.sound.served, o.sound.waiting)
