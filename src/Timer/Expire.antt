-- ===== src/Timer/Expire.antt =====
-- `timer_softirq`: which timers fire, and in what order.
use libut.Common.{ℕ, suc, ◌+◌, ◌-◌, ◌≤◌, ◌<◌, ◌≡◌, refl, sym, ap, ◌∙◌, true, arith, dec_lt}
use mathlib.Core.Path.{subst}
use libut.Common.Totals.{total, total-suc}
use libut.Timer.{TimerIdx, TimerEntry, State, key, sift_down, place, expire}
use libut.Timer.Kept.{Linked, Kept-field}
use libut.Timer.Order.{HeapFrom, root_least}
use libut.Timer.Up.{Sifted}
use libut.Timer.Start.{IsValid, pending}
use libut.Timer.Remove.{moved, moved-total, remove_root-Sifted}

module _ (k : ℕ) (s : State) (v : IsValid k s) (some_timer : 0 < s.timern) where
  abbrev last : ℕ
  last = s.timern - 1

  size : s.timern ≡ suc last
  size = omega arith

  order : HeapFrom 0 (suc last) s
  order = subst (λ (n : ℕ). HeapFrom 0 n s) size v.order

  linked : Linked (suc last) s
  linked = subst (λ (n : ℕ). Linked n s) size v.linked

  abbrev start : State
  start = moved s last s.entry order linked (λ x. refl) 0

  abbrev popped : State
  popped = record s { timern = last }

  abbrev after : State
  after = sift_down start 0 last

  expire-many : 0 < last → expire s ≡ ((s.timers 0).e, after)
  unfolding expire
  expire-many h = ground arith

  expire-one : last ≡ 0 → expire s ≡ ((s.timers 0).e, popped)
  unfolding expire
  expire-one h = ground arith

  sifted : 0 < last → Sifted 0 last start after
  sifted h = remove_root-Sifted s last s.entry order linked (λ x. refl) h

  start-size : start.timern ≡ last
  unfolding place
  start-size = refl

  start-entries : (e : ℕ) → (start.entry e).armed ≡ (s.entry e).armed
  unfolding place
  start-entries e = ground arith

  after-size : 0 < last → after.timern ≡ last
  after-size h = (sifted h).kept.size ∙ start-size

  start-home : 0 < last → (j : ℕ) → j < last → (start.entry (start.timers j).e).localk ≡ k
  unfolding place
  start-home h j hj = ground (arith, v.home j, v.home last)

  start-armed : 0 < last → (j : ℕ) → j < last → (start.entry (start.timers j).e).armed ≡ true
  unfolding place
  start-armed h j hj = ground (arith, v.armed j, v.armed last)

  after-IsValid : 0 < last → IsValid k after
  after-IsValid h =
      let r = sifted h in
      record {
        small = omega (arith, after-size h, v.small);
        order = subst (λ (n : ℕ). HeapFrom 0 n after) (sym (after-size h)) r.order;
        linked = subst (λ (n : ℕ). Linked n after) (sym (after-size h)) r.kept.linked;
        home = λ j hj.
            Kept-field (λ (t : TimerEntry). t.localk) k r.kept (start-home h) j
              (omega (arith, after-size h));
        armed = λ j hj.
            Kept-field (λ (t : TimerEntry). t.armed) true r.kept (start-armed h) j
              (omega (arith, after-size h));
      }

  popped-IsValid : IsValid k popped
  popped-IsValid = record {
    small = omega (arith, v.small);
    order = λ c a b low. v.order c a (omega arith) low;
    linked = λ j hj. v.linked j (omega arith);
    home = λ j hj. v.home j (omega arith);
    armed = λ j hj. v.armed j (omega arith);
  }

  popped_removed : (w : TimerIdx → ℕ) → last ≡ 0 → pending popped w + w (s.timers 0) ≡ pending s w
  popped_removed w h = omega (
    arith,
    ap (λ (j : ℕ). w (s.timers j)) h,
    ap (total w s.timers) size,
    total-suc w s.timers last,
    ap (total w s.timers) plus_one,
  )
    where
      plus_one : suc last ≡ last + 1
      plus_one = omega arith

  -- What a round of the softirq does under the lock.
  pub record Expired : Type 0 where
    pub state : State
    pub answer : expire s ≡ ((s.timers 0).e, state)
    pub valid : IsValid k state
    pub removed : (w : TimerIdx → ℕ) → pending state w + w (s.timers 0) ≡ pending s w
    pub fewer : suc state.timern ≡ s.timern
    pub earliest : (j : ℕ) → j < s.timern → key s 0 ≤ key s j
    pub entries : (e : ℕ) → (state.entry e).armed ≡ (s.entry e).armed

  -- A round takes out the timer with the least deadline, exactly that one, and keeps the timers valid.
  -- It changes no entry's `armed`, the expired one's included.
  pub expire_lem : Expired
  expire_lem = elim (dec_lt 0 last) [
    | yes h ↦ record {
      state = after;
      answer = expire-many h;
      valid = after-IsValid h;
      removed = λ w.
          let r = sifted h in
          omega (
            arith,
            ap (total w after.timers) (after-size h),
            r.kept.same w,
            moved-total s last s.entry order linked (λ x. refl) 0 h w,
            ap (total w s.timers) size,
          );
      fewer = omega (arith, after-size h);
      earliest = λ j hj. root_least s.timern s j v.order hj;
      entries = λ e. ap (λ (t : TimerEntry). t.armed) ((sifted h).kept.fields e) ∙ start-entries e;
    }
    | no h ↦ record {
      state = popped;
      answer = expire-one (omega arith);
      valid = popped-IsValid;
      removed = λ w. popped_removed w (omega arith);
      fewer = omega arith;
      earliest = λ j hj. root_least s.timern s j v.order hj;
      entries = λ e. refl;
    }
  ]
