-- ===== src/Timer/Kept.antt =====
-- What every rearrangement of the timer heap leaves alone: the timers in it, the entries but for
-- their indices, and the slots past its end.
use libut.Common.{
  ℕ, ◌≤◌, ◌<◌, ◌≡◌, refl, sym, ap, ◌∙◌, ◌≢◌, arith, ℕ_discrete, ◌==◌, if◌then◌else◌, update,
}
use libut.Common.Totals.{total, total-update}
use libut.Timer.{TimerIdx, TimerEntry, State, place}

-- The entry of each timer in the heap knows its slot.
abbrev pub Linked : ℕ → State → Type 0
Linked n s = (j : ℕ) → j < n → (s.entry (s.timers j).e).idx ≡ j

-- an entry, but for its index
abbrev pub unplaced : TimerEntry → TimerEntry
unplaced t = record t { idx = 0 }

pub record Kept (n : ℕ) (s s' : State) : Type 0 where
  pub linked : Linked n s'
  pub same : (w : TimerIdx → ℕ) → total w s'.timers n ≡ total w s.timers n
  pub origin : (j : ℕ) → j < n → (i : ℕ) × (i < n) × (s'.timers j ≡ s.timers i)
  pub size : s'.timern ≡ s.timern
  pub fields : (e : ℕ) → unplaced (s'.entry e) ≡ unplaced (s.entry e)
  pub frame : (j : ℕ) → n ≤ j → s'.timers j ≡ s.timers j
  pub loose : (e : ℕ) → ((j : ℕ) → j < n → (s.timers j).e ≢ e) → s'.entry e ≡ s.entry e

pub Kept-refl : (n : ℕ) (s : State) → Linked n s → Kept n s s
Kept-refl n s l = record {
  linked = l;
  same = λ w. refl;
  origin = λ j h. (j, h, refl);
  size = refl;
  fields = λ e. refl;
  frame = λ j h. refl;
  loose = λ e h. refl;
}

pub Kept-trans : {n : ℕ} {s t u : State} → Kept n s t → Kept n t u → Kept n s u
Kept-trans {n} {s} {t} {u} a b = record {
  linked = b.linked;
  same = λ w. b.same w ∙ a.same w;
  origin = λ j h.
      let (i, hi, e) = b.origin j h in let (i', hi', e') = a.origin i hi in (i', hi', e ∙ e');
  size = b.size ∙ a.size;
  fields = λ e. b.fields e ∙ a.fields e;
  frame = λ j h. b.frame j h ∙ a.frame j h;
  loose = λ e h.
      b.loose e (λ j hj q.
        let (i, hi, r) = a.origin j hj in h i hi (sym (ap (λ (x : TimerIdx). x.e) r) ∙ q))
      ∙ a.loose e h;
}

-- One round of a sift: the timers in slots `i` and `c` change places.
abbrev pub swap : State → ℕ → ℕ → State
swap s i c = place (place s i (s.timers c)) c (s.timers i)

module _ (n : ℕ) (s : State) (i c : ℕ) (hi : i < n) (hc : c < n) (apart : i ≢ c) where
  pub timers-swap :
      (j : ℕ)
      → (swap s i c).timers j
        ≡ (if c == j then s.timers i else if i == j then s.timers c else s.timers j)
  unfolding place
  timers-swap j = refl

  -- Linked timers in different slots have different entries.
  different : Linked n s → (j k : ℕ) → j < n → k < n → j ≢ k → (s.timers j).e ≢ (s.timers k).e
  different l j k hj hk ne e = ne (sym (l j hj) ∙ ap (λ (x : ℕ). (s.entry x).idx) e ∙ l k hk)

  swap-Linked : Linked n s → Linked n (swap s i c)
  unfolding place
  swap-Linked l j hj = ground (
    arith,
    l j hj,
    l i hi,
    l c hc,
    different l i c hi hc apart,
    different l i j hi hj,
    different l c j hc hj,
  )

  swap-same : (w : TimerIdx → ℕ) → total w (swap s i c).timers n ≡ total w s.timers n
  unfolding place
  swap-same w = ground (
    arith,
    total-update w n s.timers i (s.timers c) hi,
    total-update w n (update s.timers i (s.timers c)) c (s.timers i) hc,
  )

  swap-origin : (j : ℕ) → j < n → (k : ℕ) × (k < n) × ((swap s i c).timers j ≡ s.timers k)
  unfolding place
  swap-origin j hj = elim (ℕ_discrete c j) [
    | yes at_c ↦ (i, hi, ground arith)
    | no other ↦ elim (ℕ_discrete i j) [
      | yes at_i ↦ (c, hc, ground arith)
      | no neither ↦ (j, hj, ground arith)
    ]
  ]

  pub swap-Kept : Linked n s → Kept n s (swap s i c)
  unfolding place
  swap-Kept l = record {
    linked = swap-Linked l;
    same = swap-same;
    origin = swap-origin;
    size = refl;
    fields = λ e. ground arith;
    frame = λ j h. ground arith;
    loose = λ e h. ground (arith, h i hi, h c hc);
  }

-- A field that the entries of all the timers share is still theirs after a rearrangement.
pub Kept-field {ℓ} :
    {A : Type ℓ} (f : TimerEntry → A) (a : A) {n : ℕ} {s s' : State}
    → Kept n s s'
    → ((i : ℕ) → i < n → f (unplaced (s.entry (s.timers i).e)) ≡ a)
    → (j : ℕ) → j < n
    → f (unplaced (s'.entry (s'.timers j).e)) ≡ a
Kept-field f a {n} {s} {s'} k h j hj =
    let (i, hi, q) = k.origin j hj in
    ap f (k.fields (s'.timers j).e) ∙ ap (λ (x : TimerIdx). f (unplaced (s.entry x.e))) q ∙ h i hi
