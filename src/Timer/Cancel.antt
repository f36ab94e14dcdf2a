-- ===== src/Timer/Cancel.antt =====
-- `timer_cancel` on a timer that is pending.
use libut.Common.{
  ℕ, suc, ◌+◌, ◌-◌, ◌<◌, ◌≡◌, refl, sym, ap, ◌∙◌, ◌≢◌, true, false, arith, dec_lt, ◌==◌, update,
}
use mathlib.Core.Path.{subst}
use libut.Common.Words.{sub32}
use libut.Common.Totals.{total, total-suc}
use libut.Timer.{TimerIdx, TimerEntry, State, sift_up, sift_down, place, cancel}
use libut.Timer.Kept.{Linked, Kept-field}
use libut.Timer.Order.{HeapFrom}
use libut.Timer.Up.{Sifted}
use libut.Timer.Start.{IsValid, pending}
use libut.Timer.Remove.{moved, moved-timers, moved-total, distinct, remove-Sifted, raised-Kept}

-- The timer of entry `e` is in the heap.
pub record IsPending (s : State) (e : ℕ) : Type 0 where
  pub inside : (s.entry e).idx < s.timern
  pub there : (s.timers (s.entry e).idx).e ≡ e

module _ (k : ℕ) (s : State) (e : ℕ) (v : IsValid k s) (p : IsPending s e) where
  abbrev last : ℕ
  last = s.timern - 1

  abbrev i : ℕ
  i = (s.entry e).idx

  -- the entries once `e` is disarmed
  abbrev en : ℕ → TimerEntry
  en = update s.entry e (record (s.entry e) { armed = false })

  size : s.timern ≡ suc last
  size = omega (arith, p.inside)

  order : HeapFrom 0 (suc last) s
  order = subst (λ (n : ℕ). HeapFrom 0 n s) size v.order

  linked : Linked (suc last) s
  linked = subst (λ (n : ℕ). Linked n s) size v.linked

  indices : (x : ℕ) → (en x).idx ≡ (s.entry x).idx
  indices x = ground arith

  abbrev disarmed : State
  disarmed = record s { timern = last; entry = en }

  -- where the last timer has moved
  abbrev start : State
  start = moved s last en order linked indices i

  -- The entry that is cancelled is armed, and in no other slot.
  is_armed : (s.entry e).armed ≡ true
  is_armed = ground (arith, v.armed i p.inside, ap (λ (x : ℕ). (s.entry x).armed) p.there)

  elsewhere : (j : ℕ) → j < last → j ≢ i → (s.timers j).e ≢ e
  elsewhere j h ne q =
      distinct s last en order linked indices j i (omega arith) (omega (arith, p.inside)) ne
        (q ∙ sym p.there)

  last_e : i < last → (s.timers last).e ≢ e
  last_e h q =
      distinct s last en order linked indices last i (omega arith) (omega arith) (omega arith)
        (q ∙ sym p.there)

  not_in_start : i < last → (j : ℕ) → j < last → (start.timers j).e ≢ e
  not_in_start h j hj =
      ground (arith, moved-timers s last en order linked indices i j, elsewhere j hj, last_e h)

  start-entry : i < last → start.entry e ≡ record (s.entry e) { armed = false }
  unfolding place
  start-entry h = ground (arith, last_e h)

  -- The sift up leaves the cancelled entry alone, so its index still names the slot.
  raised-entry : i < last → (sift_up start i).entry e ≡ record (s.entry e) { armed = false }
  raised-entry h =
      (raised-Kept s last en order linked indices i h).loose e (not_in_start h) ∙ start-entry h

  abbrev after : State
  after = sift_down (sift_up start i) i last

  sifted : i < last → Sifted 0 last start after
  sifted h = remove-Sifted s last en order linked indices i h

  start-home : i < last → (j : ℕ) → j < last → (start.entry (start.timers j).e).localk ≡ k
  unfolding place
  start-home h j hj = ground (arith, v.home j, v.home last)

  start-armed : i < last → (j : ℕ) → j < last → (start.entry (start.timers j).e).armed ≡ true
  unfolding place
  start-armed h j hj = ground (arith, v.armed j, v.armed last, elsewhere j hj, last_e h)

  start-size : start.timern ≡ last
  unfolding place
  start-size = refl

  after-size : i < last → after.timern ≡ last
  after-size h = (sifted h).kept.size ∙ start-size

  after-IsValid : i < last → IsValid k after
  after-IsValid h =
      let r = sifted h in
      record {
        small = omega (arith, after-size h, v.small);
        order = subst (λ (n : ℕ). HeapFrom 0 n after) (sym (after-size h)) r.order;
        linked = subst (λ (n : ℕ). Linked n after) (sym (after-size h)) r.kept.linked;
        home = λ j hj.
            Kept-field (λ (t : TimerEntry). t.localk) k r.kept (start-home h) j
              (omega (arith, after-size h));
        armed = λ j hj.
            Kept-field (λ (t : TimerEntry). t.armed) true r.kept (start-armed h) j
              (omega (arith, after-size h));
      }

  disarmed-IsValid : i ≡ last → IsValid k disarmed
  disarmed-IsValid h = record {
    small = omega (arith, v.small);
    order = λ c a b low. v.order c a (omega arith) low;
    linked = λ j hj. ground (arith, v.linked j);
    home = λ j hj. ground (arith, v.home j);
    armed = λ j hj. ground (arith, v.armed j, elsewhere j hj);
  }

  pred : sub32 s.timern 1 ≡ last
  pred = omega (arith, v.small, p.inside)

  cancel-inside : i < last → cancel s e ≡ (true, after)
  unfolding cancel
  cancel-inside h =
      rw (pred, is_armed, not_last, ap (λ (t : TimerEntry). t.idx) (raised-entry h)) refl
    where
      not_last : ((s.entry e).idx == last) ≡ false
      not_last = ground arith

  cancel-last : i ≡ last → cancel s e ≡ (true, disarmed)
  unfolding cancel
  cancel-last h = rw (pred, is_armed, at_last) refl
    where
      at_last : ((s.entry e).idx == last) ≡ true
      at_last = ground arith

  last_removed : (w : TimerIdx → ℕ) → i ≡ last → pending disarmed w + w (s.timers i) ≡ pending s w
  last_removed w h = omega (
    arith,
    ap (λ (j : ℕ). w (s.timers j)) h,
    ap (total w s.timers) size,
    total-suc w s.timers last,
    ap (total w s.timers) plus_one,
  )
    where
      plus_one : suc last ≡ last + 1
      plus_one = omega arith

  -- What a cancel comes to.
  pub record Cancelled : Type 0 where
    pub state : State
    pub answer : cancel s e ≡ (true, state)
    pub valid : IsValid k state
    pub removed : (w : TimerIdx → ℕ) → pending state w + w (s.timers i) ≡ pending s w
    pub idle : (state.entry e).armed ≡ false

  -- Cancelling a pending timer returns true, takes exactly that timer out, keeps the timers valid, and
  -- disarms its entry.
  pub cancel_lem : Cancelled
  cancel_lem = elim (dec_lt i last) [
    | yes h ↦ record {
      state = after;
      answer = cancel-inside h;
      valid = after-IsValid h;
      removed = λ w.
          let r = sifted h in
          omega (
            arith,
            ap (total w after.timers) (after-size h),
            r.kept.same w,
            moved-total s last en order linked indices i h w,
            ap (total w s.timers) size,
          );
      idle =
          ap (λ (t : TimerEntry). t.armed) ((sifted h).kept.fields e)
          ∙ ap (λ (t : TimerEntry). t.armed) (start-entry h);
    }
    | no h ↦ record {
      state = disarmed;
      answer = cancel-last (omega (arith, p.inside));
      valid = disarmed-IsValid (omega (arith, p.inside));
      removed = λ w. last_removed w (omega (arith, p.inside));
      idle = ground arith;
    }
  ]
