-- ===== src/Timer/Merge.antt =====
-- `timer_merge`: a kthread takes over the timers of another.
use libut.Common.{
  ℕ, zero, suc, ◌+◌, ◌/◌, ◌≤◌, ◌<◌, ◌≡◌, refl, sym, ap, ap₂, ◌∙◌, ◌≢◌, true, some, arith,
  ℕ_discrete, update, update_self, update_ne,
}
use mathlib.Core.Path.{subst}
use libut.Common.Totals.{total, total-suc, total-ext}
use libut.Timer.{TimerIdx, TimerEntry, State, max_timers, sift_down, absorb, heapify, merge}
use libut.Timer.Kept.{Linked, Kept-field, Kept-trans}
use libut.Timer.Order.{HeapFrom}
use libut.Timer.Up.{Sifted}
use libut.Timer.Down.{sift_down-Sifted}
use libut.Timer.Start.{IsValid, pending}

-- The timers of kthread `r` from its slot `i` on, with their entries as that kthread keeps them.
pub record Incoming (r : ℕ) (remote : ℕ → TimerIdx) (i count : ℕ) (s : State) : Type 0 where
  pub linked : (j : ℕ) → i ≤ j → j < i + count → (s.entry (remote j).e).idx ≡ j
  pub home : (j : ℕ) → i ≤ j → j < i + count → (s.entry (remote j).e).localk ≡ r
  pub armed : (j : ℕ) → i ≤ j → j < i + count → (s.entry (remote j).e).armed ≡ true

-- A kthread's timers, less the order of the heap.
pub record Loaded (k : ℕ) (s : State) : Type 0 where
  pub linked : Linked s.timern s
  pub home : (j : ℕ) → j < s.timern → (s.entry (s.timers j).e).localk ≡ k
  pub armed : (j : ℕ) → j < s.timern → (s.entry (s.timers j).e).armed ≡ true

-- the state after one round of the copying loop
abbrev moved_in : ℕ → TimerIdx → State → State
moved_in k t s = record s {
  timers = update s.timers s.timern t;
  timern = s.timern + 1;
  entry = update s.entry t.e (record (s.entry t.e) { idx = s.timern; localk = k });
}

module _ (k r : ℕ) (remote : ℕ → TimerIdx) (other : r ≢ k) (i count : ℕ) (s : State)
    (v : Loaded k s) (c : Incoming r remote i (suc count) s) where
  -- A timer of kthread `r` is none of kthread `k`'s.
  foreign : (j : ℕ) → j < s.timern → (s.timers j).e ≢ (remote i).e
  foreign j h q = other (
      sym (c.home i (omega arith) (omega arith))
      ∙ ap (λ (x : ℕ). (s.entry x).localk) (sym q)
      ∙ v.home j h)

  separate : (j : ℕ) → suc i ≤ j → j < i + suc count → (remote j).e ≢ (remote i).e
  separate j low high q = omega (
    arith,
    c.linked i (omega arith) (omega arith),
    c.linked j (omega arith) high,
    ap (λ (x : ℕ). (s.entry x).idx) q,
  )

  moved_in-Loaded : Loaded k (moved_in k (remote i) s)
  moved_in-Loaded = record {
    linked = λ j h. ground (arith, v.linked j, foreign j);
    home = λ j h. ground (arith, v.home j);
    armed = λ j h. ground (arith, v.armed j, c.armed i (omega arith) (omega arith));
  }

  moved_in-Incoming : Incoming r remote (i + 1) count (moved_in k (remote i) s)
  moved_in-Incoming = record {
    linked = λ j low high. ground (arith, c.linked j, separate j);
    home = λ j low high. ground (arith, c.home j, separate j);
    armed = λ j low high. ground (arith, c.armed j, separate j);
  }

  moved_in-total :
      (w : TimerIdx → ℕ) → pending (moved_in k (remote i) s) w ≡ pending s w + w (remote i)
  moved_in-total w =
      total-suc w (update s.timers s.timern (remote i)) s.timern
      ∙ ap₂ ◌+◌
          (total-ext w s.timern (update s.timers s.timern (remote i)) s.timers
            (λ j lt. ground arith))
          (ap w (update_self s.timers s.timern (remote i)))

-- What the copying loop comes to.
pub record Absorbed (k r : ℕ) (remote : ℕ → TimerIdx) (i count : ℕ) (s : State) : Type 0 where
  pub state : State
  pub answer : absorb k remote i count s ≡ some state
  pub loaded : Loaded k state
  pub size : state.timern ≡ s.timern + count
  pub all :
      (w : TimerIdx → ℕ)
      → pending state w + total w remote i ≡ pending s w + total w remote (i + count)
  pub others : (e : ℕ) → (s.entry e).localk ≢ r → state.entry e ≡ s.entry e

pub absorb-Absorbed :
    (k r : ℕ) (remote : ℕ → TimerIdx)
    → r ≢ k
    → (i count : ℕ) (s : State) → Loaded k s
    → Incoming r remote i count s
    → s.timern + count < max_timers
    → Absorbed k r remote i count s
unfolding absorb
absorb-Absorbed k r remote other i zero s v c room = record {
  state = s;
  answer = refl;
  loaded = v;
  size = omega arith;
  all = λ w. ap (λ (n : ℕ). pending s w + total w remote n) (omega arith);
  others = λ e ne. refl;
}
absorb-Absorbed k r remote other i (suc count) s v c room =
    let a =
      absorb-Absorbed k r remote other (i + 1) count (moved_in k (remote i) s)
        (moved_in-Loaded k r remote other i count s v c)
        (moved_in-Incoming k r remote other i count s v c) (omega arith) in
    record {
      state = a.state;
      answer = ground (arith, a.answer);
      loaded = a.loaded;
      size = omega (arith, a.size);
      all = λ w. omega (
        arith,
        a.all w,
        moved_in-total k r remote other i count s v c w,
        total-suc w remote i,
        ap (total w remote) (shift i count),
      );
      others = λ e ne.
          let theirs = c.home i (omega arith) (omega arith) in
          let kept : (moved_in k (remote i) s).entry e ≡ s.entry e =
            update_ne s.entry (remote i).e e _
              (λ same. ne (ap (λ (x : ℕ). (s.entry x).localk) (sym same) ∙ theirs)) in
          a.others e (λ q. ne (ap (λ (x : TimerEntry). x.localk) (sym kept) ∙ q)) ∙ kept;
    }
  where
    shift : (a b : ℕ) → a + 1 + b ≡ a + suc b
    shift a b = omega arith

-- The loop that restores the order: below `i` nothing is known of the edges.
pub heapify-Sifted :
    (i n : ℕ) (s : State)
    → s.timern ≡ n
    → i < n
    → Linked n s
    → HeapFrom (suc i) n s
    → Sifted 0 n s (heapify i s)
unfolding heapify
heapify-Sifted zero n s e h l o =
    subst (λ (m : ℕ). Sifted 0 n s (sift_down s 0 m)) (sym e)
      (sift_down-Sifted 0 n s 0 l (record {
        inside = h;
        edges = λ c p q low ne. o c p q (omega arith);
        bridged = λ c p q same pos. absurd (omega arith);
      }))
heapify-Sifted (suc i) n s e h l o =
    let d = sift_down-Sifted (suc i) n s (suc i) l (record {
      inside = h;
      edges = λ c p q low ne. o c p q (omega arith);
      bridged = λ c p q same pos low. absurd (omega arith);
    }) in
    let r =
      heapify-Sifted i n (sift_down s (suc i) n) (d.kept.size ∙ e) (omega arith) d.kept.linked
        d.order in
    subst (λ (m : ℕ). Sifted 0 n s (heapify i (sift_down s (suc i) m))) (sym e)
      (record { order = r.order; kept = Kept-trans d.kept r.kept })

-- The heap that `timer_merge` leaves, once the loop has copied something.
heapify-IsValid :
    (k : ℕ) (t : State)
    → Loaded k t
    → 0 < t.timern
    → t.timern < max_timers
    → IsValid k (heapify (t.timern / 4) t)
      × ((w : TimerIdx → ℕ) → pending (heapify (t.timern / 4) t) w ≡ pending t w)
      × ((heapify (t.timern / 4) t).timern ≡ t.timern)
      × ((e : ℕ) → (t.entry e).localk ≢ k → (heapify (t.timern / 4) t).entry e ≡ t.entry e)
heapify-IsValid k t v pos small =
    let r =
      heapify-Sifted (t.timern / 4) t.timern t refl (omega arith) v.linked
        (λ c p q low. absurd (omega arith)) in
    let h = heapify (t.timern / 4) t in
    (
      record {
        small = omega (arith, r.kept.size);
        order = subst (λ (m : ℕ). HeapFrom 0 m h) (sym r.kept.size) r.order;
        linked = subst (λ (m : ℕ). Linked m h) (sym r.kept.size) r.kept.linked;
        home = λ j hj.
            Kept-field (λ (e : TimerEntry). e.localk) k r.kept v.home j
              (omega (arith, r.kept.size));
        armed = λ j hj.
            Kept-field (λ (e : TimerEntry). e.armed) true r.kept v.armed j
              (omega (arith, r.kept.size));
      },
      λ w. ap (total w h.timers) r.kept.size ∙ r.kept.same w,
      r.kept.size,
      λ e ne.
          r.kept.loose e
            (λ j hj same. ne (ap (λ (x : ℕ). (t.entry x).localk) (sym same) ∙ v.home j hj)),
    )

merge-none :
    (k : ℕ) (remote : ℕ → TimerIdx) (n : ℕ) (s : State) → n ≡ 0 → merge k remote n s ≡ some (s, 0)
unfolding merge
merge-none k remote n s e = ground arith

merge-some :
    (k : ℕ) (remote : ℕ → TimerIdx) (n : ℕ) (s t : State)
    → n ≢ 0
    → absorb k remote 0 n s ≡ some t
    → merge k remote n s ≡ some (heapify (t.timern / 4) t, 0)
unfolding merge
merge-some k remote n s t ne e = ground (arith, e)

total-zero_slots : (w : TimerIdx → ℕ) (f : ℕ → TimerIdx) → total w f 0 ≡ 0
unfolding total
total-zero_slots w f = refl

-- What `timer_merge` comes to, the entries of other kthreads included.
pub record Merged (k r : ℕ) (remote : ℕ → TimerIdx) (n : ℕ) (s : State) : Type 0 where
  pub state : State
  pub answer : merge k remote n s ≡ some (state, 0)
  pub valid : IsValid k state
  pub all : (w : TimerIdx → ℕ) → pending state w ≡ pending s w + total w remote n
  pub size : state.timern ≡ s.timern + n
  pub others : (e : ℕ) → (s.entry e).localk ≢ k → (s.entry e).localk ≢ r → state.entry e ≡ s.entry e

pub merge-Merged :
    (k r : ℕ) (remote : ℕ → TimerIdx) (n : ℕ) (s : State)
    → r ≢ k
    → IsValid k s
    → Incoming r remote 0 n s
    → s.timern + n < max_timers
    → Merged k r remote n s
merge-Merged k r remote n s other v c room = elim (ℕ_discrete n 0) [
  | yes none_left ↦ record {
    state = s;
    answer = merge-none k remote n s none_left;
    valid = v;
    all = λ w. omega (arith, empty w none_left);
    size = omega (arith, none_left);
    others = λ e ne ne'. refl;
  }
  | no some_left ↦
      let a =
        absorb-Absorbed k r remote other 0 n s
          (record { linked = v.linked; home = v.home; armed = v.armed }) c room in
      let h = heapify-IsValid k a.state a.loaded (omega (arith, a.size)) (omega (arith, a.size)) in
      record {
        state = heapify (a.state.timern / 4) a.state;
        answer = merge-some k remote n s a.state some_left a.answer;
        valid = h.0;
        all = λ w.
            h.1 w ∙ omega (arith, a.all w, total-zero_slots w remote, ap (total w remote) zero_add);
        size = omega (arith, h.2, a.size);
        others = λ e ne ne'.
            let kept = a.others e ne' in
            h.3 e (λ q. ne (ap (λ (x : TimerEntry). x.localk) (sym kept) ∙ q)) ∙ kept;
      }
]
  where
    zero_add : 0 + n ≡ n
    zero_add = omega arith

    empty : (w : TimerIdx → ℕ) → n ≡ 0 → total w remote n ≡ 0
    empty w e = ap (total w remote) e ∙ total-zero_slots w remote

-- A kthread that absorbs the timers of another, with room for all, has a valid heap of exactly the
-- timers of both, and leaves the other with none.
pub merge_lem :
    (k r : ℕ) (remote : ℕ → TimerIdx) (n : ℕ) (s : State)
    → r ≢ k
    → IsValid k s
    → Incoming r remote 0 n s
    → s.timern + n < max_timers
    → (s' : State) × (merge k remote n s ≡ some (s', 0))
      × IsValid k s'
      × ((w : TimerIdx → ℕ) → pending s' w ≡ pending s w + total w remote n)
merge_lem k r remote n s other v c room =
    let m = merge-Merged k r remote n s other v c room in (m.state, m.answer, m.valid, m.all)
