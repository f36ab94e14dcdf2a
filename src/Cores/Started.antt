-- ===== src/Cores/Started.antt =====
-- `cores_init_proc`: a new process starts.
use libut.Common.{
  ℕ, ◌≤◌, ◌<◌, ◌≡◌, sym, ap, ◌∙◌, ◌≢◌, ◌⊎◌, Bool, true, false, none, some, List, ◌∷◌, arith,
  if◌then◌else◌, length, update, update_self, update_ne,
}
use libut.Common.Counts.{times}
use libut.Cores.{World, Thread, ncpu}
use libut.Cores.Init.{set_up, cores_init_proc}
use libut.Cores.Placed.{exists}
use libut.Cores.Picks.{IsAssigned}
use libut.Cores.Setup.{is_new, set_lem}
use libut.Cores.Offers.{IsCandidate}
use libut.Cores.Adding.{cores_add_core_lem}
use libut.Cores.Fresh.{set-IsAssigned, still_fits, still_room, first_pick, not_full}

module _ (pinned : Bool) (p home guaranteed n : ℕ) (th : Thread) (rest : List Thread) (w : World)
    (s : IsAssigned w n) (new : (x : Thread) → is_new (th ∷ rest) x ≡ true → exists w x ≡ false)
    (own : (x : Thread) → w.p_of x ≡ p → is_new (th ∷ rest) x ≡ true)
    (once : (x : Thread) → times x (th ∷ rest) ≤ 1) (few : length (th ∷ rest) ≤ ncpu)
    (online : (w.cores.avail_cores home ≡ true) ⊎ (w.cores.current home ≢ none))
    (room : w.threads.ts.count < ncpu) (cand : ℕ) (fits : IsCandidate w n cand) where
  -- A process whose threads are new, with at least one, starts: its first thread is the one that is given
  -- a core, if one can be given. Cores and threads stay assigned to each other, and of the threads of the
  -- process only the first is not parked. A thread that names the process must be one of these threads.
  pub cores_init_proc_lem :
      (u : World) × (cores_init_proc pinned n p home guaranteed (th ∷ rest) w ≡ some (some th, u))
      × IsAssigned u n
      × (u.threads.parked th ≡ false)
      × ((x : Thread) → is_new (th ∷ rest) x ≡ true → x ≢ th → u.threads.parked x ≡ true)
  unfolding cores_init_proc
  cores_init_proc_lem =
      let v : World = set_up p home guaranteed (th ∷ rest) w in
      let sv = set-IsAssigned p home guaranteed n (th ∷ rest) w s new own once few online in
      let free = still_room p home guaranteed n (th ∷ rest) w s new own once few online room in
      let fit = still_fits p home guaranteed n (th ∷ rest) w s new own once few online cand fits in
      let ne = not_full p home guaranteed n (th ∷ rest) w s new own once few online (omega arith) in
      let (x, u, e, g) = (cores_add_core_lem pinned n p v sv free cand fit).1 ne in
      let (c, fair, added, picked) = g.given in
      let both =
        sym picked ∙ first_pick p home guaranteed n (th ∷ rest) w s new own once few online c in
      let same : x ≡ th = cc in
      (
        u,
        e ∙ ap (λ (y : Thread). some (some y, u)) same,
        g.assigned,
        ap (λ (f : Thread → Bool). f th) g.changed
            ∙ ap (λ (y : Thread). update v.threads.parked y false th) same
            ∙ update_self v.threads.parked th false,
        (λ y hy ne.
            ap (λ (f : Thread → Bool). f y) g.changed
            ∙ ap (λ (q : Thread). update v.threads.parked q false y) same
            ∙ update_ne v.threads.parked th y false (λ h. ne (sym h))
            ∙ (set_lem p home 0 (th ∷ rest) w).parked y
            ∙ ap (λ (b : Bool). if b then true else w.threads.parked y) hy),
      )
