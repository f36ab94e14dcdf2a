-- ===== src/Cores/Congested.antt =====
-- When a process is congested.
use libut.Common.{
  sym, ◌==◌, ◌≤◌, ◌<◌, ◌≡◌, refl, ap, ◌∙◌, ◌≢◌, Bool, true, false, not, ◌&&◌, ◌||◌, List, [], ◌∷◌,
  arith, ℕ_discrete, ltb, if◌then◌else◌,
}
use libut.Common.Counts.{times}
use libut.Cores.{Thread}
use libut.Cores.Adjust.{Reading, Watch, stuck, look, scan, cores_is_proc_congested}

-- A thread is not marked as waking, and something that it had to do at the last look is still to be done.
abbrev pub is_behind : (Thread → Reading) → Watch → Thread → Bool
is_behind read s th = not (s.waking th) && stuck (read th) (s.last_rq_head th) (s.last_rxq_head th)

abbrev pub any : (Thread → Bool) → List Thread → Bool
any f [] = false
any f (th ∷ ths) = f th || any f ths

-- the state after a round, in which only thread `th` has changed
look_other :
    (th x : Thread) (r : Reading) (b : Bool) (s : Watch)
    → th ≢ x
    → ((look th r b s).1.last_rq_head x ≡ s.last_rq_head x)
      × ((look th r b s).1.last_rxq_head x ≡ s.last_rxq_head x)
      × ((look th r b s).1.waking x ≡ s.waking x)
unfolding look
look_other th x r b s ne = ground (arith, ne)

look_self :
    (th : Thread) (r : Reading) (b : Bool) (s : Watch)
    → ((look th r b s).1.last_rq_head th ≡ r.rq_head)
      × ((look th r b s).1.last_rxq_head th ≡ r.rxq_head)
unfolding look
look_self th r b s = ground (arith)

look_answer :
    (th : Thread) (r : Reading) (b : Bool) (s : Watch)
    → (look th r b s).0
      ≡ b || (not (s.waking th) && stuck r (s.last_rq_head th) (s.last_rxq_head th))
unfolding look
look_answer th r b s = ground (arith)

-- Two states agree on a thread.
abbrev Agree : Watch → Watch → Thread → Type 0
Agree s t x =
    (t.last_rq_head x ≡ s.last_rq_head x)
    × (t.last_rxq_head x ≡ s.last_rxq_head x)
    × (t.waking x ≡ s.waking x)

same_behind :
    (read : Thread → Reading) (s t : Watch) (x : Thread)
    → Agree s t x
    → is_behind read t x ≡ is_behind read s x
same_behind read s t x (a, b, c) = rw (a, b, c) refl

or_assoc : (a b c : Bool) → (a || b) || c ≡ a || (b || c)
or_assoc true b c = refl
or_assoc false b c = refl

-- A look at one thread changes nothing of the others.
Agree-next :
    (read : Thread → Reading) (s : Watch) (th : Thread) (ths : List Thread) (b : Bool) (t : Watch)
    → times th (th ∷ ths) ≤ 1
    → ((x : Thread) → 0 < times x (th ∷ ths) → Agree s t x)
    → (x : Thread) → 0 < times x ths
    → Agree s (look th (read th) b t).1 x
Agree-next read s th ths b t once same x h =
    let ne : th ≢ x = λ e. ground (arith, e, h, once, ap (λ (q : Thread). times q ths) e) in
    let (p, q, r) = look_other th x (read th) b t ne in
    let (p', q', r') = same x (ground (arith, h)) in (p ∙ p', q ∙ q', r ∙ r')

module _ (read : Thread → Reading) (s : Watch) where
  scan_answer :
      (ths : List Thread) (b : Bool) (t : Watch)
      → ((x : Thread) → times x ths ≤ 1)
      → ((x : Thread) → 0 < times x ths → Agree s t x)
      → (scan read ths (b, t)).0 ≡ b || any (is_behind read s) ths
  unfolding scan
  scan_answer [] b t once same = ground arith
  scan_answer (th ∷ ths) b t once same =
      let y = look th (read th) b t in
      scan_answer ths y.0 y.1 (λ x. ground (arith, once x))
        (Agree-next read s th ths b t (once th) same)
      ∙ ap (λ (z : Bool). z || any (is_behind read s) ths)
          (look_answer th (read th) b t
            ∙ ap (λ (z : Bool). b || z) (same_behind read s t th (same th (ground arith))))
      ∙ or_assoc b (is_behind read s th) (any (is_behind read s) ths)

  scan_heads :
      (ths : List Thread) (y : Bool × Watch) (x : Thread)
      → ((scan read ths y).1.last_rq_head x
          ≡ (if ltb 0 (times x ths) then (read x).rq_head else y.1.last_rq_head x))
        × ((scan read ths y).1.last_rxq_head x
            ≡ (if ltb 0 (times x ths) then (read x).rxq_head else y.1.last_rxq_head x))
  unfolding scan
  scan_heads [] (b, t) x = (ground arith, ground arith)
  scan_heads (th ∷ ths) (b, t) x =
      let ih = scan_heads ths (look th (read th) b t) x in
      elim (ℕ_discrete th x) [
        | yes here ↦ ground (arith, ih, here, look_self th (read th) b t)
        | no there ↦ ground (arith, ih, there, look_other th x (read th) b t there)
      ]

-- the threads of a list before the first that is `x`
abbrev pub before : Thread → List Thread → List Thread
before x [] = []
before x (th ∷ ths) = let rest = before x ths in if th == x then [] else th ∷ rest

look_waking :
    (th : Thread) (r : Reading) (b : Bool) (s : Watch)
    → (look th r b s).1.waking th ≡ (s.waking th && b)
unfolding look
look_waking th r b s = ground (arith)

module _ (read : Thread → Reading) (s : Watch) (x : Thread) where
  -- A thread that is not looked at keeps its mark.
  scan_unseen :
      (ths : List Thread) (y : Bool × Watch)
      → times x ths ≡ 0
      → (scan read ths y).1.waking x ≡ y.1.waking x
  unfolding scan
  scan_unseen [] y h = refl
  scan_unseen (th ∷ ths) (b, t) h =
      scan_unseen ths (look th (read th) b t) (ground (arith, h))
      ∙ (look_other th x (read th) b t (λ e. ground (arith, e, h))).2

  scan_waking :
      (ths : List Thread) (b : Bool) (t : Watch)
      → ((y : Thread) → times y ths ≤ 1)
      → ((y : Thread) → 0 < times y ths → Agree s t y)
      → 0 < times x ths
      → (scan read ths (b, t)).1.waking x
        ≡ (s.waking x && (b || any (is_behind read s) (before x ths)))
  unfolding scan
  scan_waking [] b t once same h = absurd (omega (arith, h))
  scan_waking (th ∷ ths) b t once same h = elim (ℕ_discrete th x) [
    | yes here ↦
        scan_unseen ths (look th (read th) b t) (ground (arith, once x, here))
        ∙ ap (look th (read th) b t).1.waking (sym here)
        ∙ look_waking th (read th) b t
        ∙ ap (λ (z : Bool). z && b) ((same th (ground arith)).2 ∙ ap s.waking here)
        ∙ ap (λ (z : Bool). s.waking x && z) (ground (arith, here))
    | no there ↦
        let y = look th (read th) b t in
        scan_waking ths y.0 y.1 (λ q. ground (arith, once q))
          (Agree-next read s th ths b t (once th) same) (ground (arith, h, there))
        ∙ ap (λ (z : Bool). s.waking x && (z || any (is_behind read s) (before x ths)))
            (look_answer th (read th) b t
              ∙ ap (λ (z : Bool). b || z) (same_behind read s t th (same th (ground arith))))
        ∙ ap (λ (z : Bool). s.waking x && z)
            (or_assoc b (is_behind read s th) (any (is_behind read s) (before x ths))
              ∙ ap (λ (l : List Thread). b || any (is_behind read s) l) {x = th ∷ before x ths}
                  {y = before x (th ∷ ths)} (ground (arith, there)))
  ]

-- The daemon marks a thread as waking when it wakes it. A process, whose active threads are each listed
-- once, is congested exactly if a timer of it is due, or if a thread of it that is not marked has something
-- in a queue that was there at the last look. The positions of the queues of all its active threads are
-- remembered for the next look, whatever the answer. A thread loses its mark, unless one that is listed
-- before it makes the process congested: then it keeps it, and has its pass at the next look.
pub cores_is_proc_congested_lem :
    (read : Thread → Reading) (due : Bool) (ths : List Thread) (s : Watch)
    → ((x : Thread) → times x ths ≤ 1)
    → ((cores_is_proc_congested read due ths s).0 ≡ due || any (is_behind read s) ths)
      × ((x : Thread)
          → 0 < times x ths
          → ((cores_is_proc_congested read due ths s).1.last_rq_head x ≡ (read x).rq_head)
            × ((cores_is_proc_congested read due ths s).1.last_rxq_head x ≡ (read x).rxq_head)
            × ((cores_is_proc_congested read due ths s).1.waking x
                ≡ (s.waking x && any (is_behind read s) (before x ths))))
unfolding cores_is_proc_congested
cores_is_proc_congested_lem read due ths s once = (
  ap (λ (b : Bool). due || b) (scan_answer read s ths false s once (λ x h. (refl, refl, refl))),
  (λ x h.
      let heads = scan_heads read s ths (false, s) x in
      (
        ground (arith, heads, h),
        ground (arith, heads, h),
        scan_waking read s x ths false s once (λ x h. (refl, refl, refl)) h,
      )),
)
