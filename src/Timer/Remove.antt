-- ===== src/Timer/Remove.antt =====
-- Taking a timer out of slot `i`: the last timer moves there, and is sifted to its place.
use libut.Common.{
  ℕ, suc, ◌+◌, ◌≤◌, ◌<◌, ◌≡◌, refl, sym, ap, ◌∙◌, ◌≢◌, ◌⊎◌, inl, inr, arith, dec_lt, ◌==◌,
  if◌then◌else◌,
}
use mathlib.Core.Path.{subst}
use libut.Common.Totals.{total, total-update}
use libut.Timer.{TimerIdx, TimerEntry, State, key, parent, sift_up, sift_down, place}
use libut.Timer.Kept.{Linked, Kept, Kept-refl, Kept-trans}
use libut.Timer.Order.{HeapFrom}
use libut.Timer.Up.{UpInv, Sifted, sift_up-Sifted, sift_up-settled}
use libut.Timer.Down.{DownInv, sift_down-Sifted}

-- The heap of `s` has `suc last` timers, and entries `en` with the indices of `s`.
module _ (s : State) (last : ℕ) (en : ℕ → TimerEntry) (order : HeapFrom 0 (suc last) s)
    (linked : Linked (suc last) s) (indices : (x : ℕ) → (en x).idx ≡ (s.entry x).idx) where
  -- the state with the last timer in slot `i`
  abbrev pub moved : ℕ → State
  moved i = place (record s { timern = last; entry = en }) i (s.timers last)

  pub moved-timers : (i j : ℕ) → (moved i).timers j ≡ (if i == j then s.timers last else s.timers j)
  unfolding place
  moved-timers i j = refl

  -- Timers in different slots have different entries.
  pub distinct : (i j : ℕ) → i ≤ last → j ≤ last → i ≢ j → (s.timers i).e ≢ (s.timers j).e
  distinct i j hi hj ne q =
      ne (sym (linked i (omega arith)) ∙ ap (λ (x : ℕ). (s.entry x).idx) q ∙ linked j (omega arith))

  pub moved-Linked : (i : ℕ) → i < last → Linked last (moved i)
  unfolding place
  moved-Linked i hi j hj = ground (
    arith,
    linked j,
    indices (s.timers j).e,
    distinct j last (omega arith) (omega arith) (omega arith),
  )

  pub moved-key : (i j : ℕ) → key (moved i) j ≡ (if i == j then key s last else key s j)
  moved-key i j = ground (arith, moved-timers i j)

  -- A timer that moves to a slot below an earlier parent need not go up.
  pub moved-DownInv :
      (i : ℕ) → i < last → (i ≡ 0) ⊎ (key s (parent i) ≤ key s last) → DownInv 0 last (moved i) i
  moved-DownInv i hi settled = record {
    inside = hi;
    edges =
        λ c p q low ne. ground (arith, moved-key i c, moved-key i (parent c), order c p, settled);
    bridged = λ c p q e pos low.
        ground (arith, moved-key i c, moved-key i (parent i), order c p, order i pos);
  }

  pub moved-UpInv :
      (i : ℕ) → i < last → 0 < i → key s last < key s (parent i) → UpInv last (moved i) i
  moved-UpInv i hi pos early = record {
    inside = hi;
    edges =
        λ c p q ne. ground (arith, moved-key i c, moved-key i (parent c), order c p, order i pos);
    bridged = λ c p q e pos' low.
        ground (arith, moved-key i c, moved-key i (parent i), order c p, order i pos);
  }

  -- What is pending afterwards, with the timer taken out, is what was pending.
  pub moved-total :
      (i : ℕ)
      → i < last
      → (w : TimerIdx → ℕ)
      → total w (moved i).timers last + w (s.timers i) ≡ total w s.timers (suc last)
  unfolding place total
  moved-total i hi w = total-update w last s.timers i (s.timers last) hi

  -- Sifting it up, and then down, makes a heap again.
  abbrev raised : ℕ → State
  raised i = sift_up (moved i) i

  record Raised (i : ℕ) : Type 0 where
    kept : Kept last (moved i) (raised i)
    ready : DownInv 0 last (raised i) i

  HeapFrom-DownInv : (t : State) (i : ℕ) → i < last → HeapFrom 0 last t → DownInv 0 last t i
  HeapFrom-DownInv t i hi h = record {
    inside = hi;
    edges = λ c p q low ne. h c p q low;
    bridged = λ c p q e pos low.
        omega (arith, ap (key t) e, h c p q (omega arith), h i pos hi (omega arith));
  }

  moved-Raised : (i : ℕ) → i < last → Raised i
  moved-Raised i hi = elim (dec_lt (key s last) (key s (parent i))) [
    | no settled ↦ stays (inr (omega arith))
    | yes early ↦ elim (dec_lt 0 i) [
      | no root ↦ stays (inl (omega arith))
      | yes pos ↦
          let r =
            sift_up-Sifted last (moved i) i (moved-Linked i hi) (moved-UpInv i hi pos early) in
          record { kept = r.kept; ready = HeapFrom-DownInv (raised i) i hi r.order }
    ]
  ]
    where
      same : (i ≡ 0) ⊎ (key s (parent i) ≤ key s last) → raised i ≡ moved i
      same settled =
          sift_up-settled (moved i) i
            (ground (arith, settled, moved-key i i, moved-key i (parent i)))

      stays : (i ≡ 0) ⊎ (key s (parent i) ≤ key s last) → Raised i
      stays settled = record {
        kept =
            subst (λ (t : State). Kept last (moved i) t) (sym (same settled))
              (Kept-refl last (moved i) (moved-Linked i hi));
        ready =
            subst (λ (t : State). DownInv 0 last t i) (sym (same settled))
              (moved-DownInv i hi settled);
      }

  pub remove-Sifted :
      (i : ℕ) → i < last → Sifted 0 last (moved i) (sift_down (sift_up (moved i) i) i last)
  remove-Sifted i hi =
      let r = moved-Raised i hi in
      let d = sift_down-Sifted 0 last (raised i) i r.kept.linked r.ready in
      record { order = d.order; kept = Kept-trans r.kept d.kept }

  pub raised-Kept : (i : ℕ) → i < last → Kept last (moved i) (sift_up (moved i) i)
  raised-Kept i hi = (moved-Raised i hi).kept

  -- The root needs no sift up.
  pub remove_root-Sifted : 0 < last → Sifted 0 last (moved 0) (sift_down (moved 0) 0 last)
  remove_root-Sifted hi =
      sift_down-Sifted 0 last (moved 0) 0 (moved-Linked 0 hi) (moved-DownInv 0 hi (inl refl))
