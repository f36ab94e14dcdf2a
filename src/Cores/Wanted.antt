-- ===== src/Cores/Wanted.antt =====
-- Whom a core may go to when `pick_thread_for_core` finds no thread that waits for it.
use libut.Common.{
  List, [], ◌∷◌, sym, ap, subst, ◌∙◌, ℕ, ◌≡◌, refl, ◌⊎◌, inl, inr, true, false, Option, none, some,
  arith,
}
use libut.Common.Counts.{list_top}
use libut.Cores.{World, Thread, Cores}
use libut.Cores.Alloc.{
  or_else, pick_thread_for_proc, wanting, pick_thread_if, pick_overloaded, pick_top,
}
use libut.Cores.Picks.{IsAssigned, pick_thread_lem, pick_thread-Shows, pick_thread_none}

-- Process `p` may have core `c`: it is the first that waits for cores, or it waits for one, is not removed,
-- and has a thread that runs or ran there.
pub data MayHave (w : World) (c p : ℕ) : Type 0 where
  first : list_top w.overloaded_procs ≡ some p → MayHave w c p
  ran :
      (th : Thread)
      → (w.cores.current c ≡ some th) ⊎ (w.cores.prev c ≡ some th)
      → w.p_of th ≡ p
      → (w.proc p).overloaded ≡ true
      → (w.proc p).removed ≡ false
      → MayHave w c p

-- Nobody wants core `c`: no process waits for cores, or the one that may have it has no parked thread.
pub data Unwanted (w : World) (c : ℕ) : Type 0 where
  none_waits : w.overloaded_procs ≡ [] → Unwanted w c
  none_parked : (p : ℕ) → MayHave w c p → (w.proc p).idle_threads ≡ [] → Unwanted w c

wanting-ran :
    (w : World) (c p : ℕ) (o : Option Thread)
    → ((th : Thread) → o ≡ some th → (w.cores.current c ≡ some th) ⊎ (w.cores.prev c ≡ some th))
    → wanting w o ≡ some p
    → MayHave w c p
wanting-ran w c p none at e = absurd (cc)
wanting-ran w c p (some th) at e =
    ran th (at th refl) (ground (arith, e))
      (ground (arith, e, ap (λ (q : ℕ). (w.proc q).overloaded) {x = w.p_of th} {y = p}))
      (ground (arith, e, ap (λ (q : ℕ). (w.proc q).removed) {x = w.p_of th} {y = p}))

module _ (w : World) (n : ℕ) (s : IsAssigned w n) (c : ℕ) where
  MayHave-kept : (p q : ℕ) → MayHave w c p → MayHave (pick_thread_for_proc q c w).1 c p
  MayHave-kept p q (first e) = first (ap list_top (pick_thread-Shows w n s q c).0 ∙ e)
  MayHave-kept p q (ran th at of over there) =
      let (l, k, f, same) = pick_thread-Shows w n s q c in
      ran th (subst (λ (x : Cores). (x.current c ≡ some th) ⊎ (x.prev c ≡ some th)) (sym k) at)
        (ap (λ (g : Thread → ℕ). g th) f ∙ of) ((same p).0 ∙ over) ((same p).1 ∙ there)

  chosen_lem :
      (p : ℕ)
      → MayHave w c p
      → (pick_thread_for_proc p c w).0 ≡ none
      → Unwanted (pick_thread_for_proc p c w).1 c
  chosen_lem p may e =
      none_parked p (MayHave-kept p p may)
        (((pick_thread-Shows w n s p c).3 p).2 ∙ pick_thread_none w n s p c e)

  from_choice :
      (a b : Option ℕ) (top : ℕ)
      → ((p : ℕ) → a ≡ some p → MayHave w c p)
      → ((p : ℕ) → b ≡ some p → MayHave w c p)
      → MayHave w c top
      → (pick_thread_if c w (or_else a (or_else b (some top)))).0 ≡ none
      → Unwanted (pick_thread_if c w (or_else a (or_else b (some top)))).1 c
  from_choice (some p) b top ma mb mt e = chosen_lem p (ma p refl) e
  from_choice none (some p) top ma mb mt e = chosen_lem p (mb p refl) e
  from_choice none none top ma mb mt e = chosen_lem top mt e

  top-none : (l : List ℕ) → list_top l ≡ none → l ≡ []
  top-none [] e = refl
  top-none (x ∷ l) e = absurd (cc)

  pick_top-none :
      (o : Option ℕ)
      → list_top w.overloaded_procs ≡ o
      → (pick_top c w o).0 ≡ none
      → Unwanted (pick_top c w o).1 c
  pick_top-none none e h = none_waits (top-none w.overloaded_procs e)
  pick_top-none (some top) e h =
      from_choice (wanting w (w.cores.current c)) (wanting w (w.cores.prev c)) top
        (λ p q. wanting-ran w c p (w.cores.current c) (λ th r. inl r) q)
        (λ p q. wanting-ran w c p (w.cores.prev c) (λ th r. inr r) q) (first e) h

  -- If no thread is picked for a core, nobody wants it.
  pub pick_overloaded-none : (pick_overloaded c w).0 ≡ none → Unwanted (pick_overloaded c w).1 c
  unfolding pick_overloaded
  pick_overloaded-none = pick_top-none (list_top w.overloaded_procs) refl

  -- A thread that is picked is one of a process that may have the core.
  owner_lem :
      (p : ℕ) (x : Thread)
      → MayHave w c p
      → (pick_thread_for_proc p c w).0 ≡ some x
      → MayHave w c (w.p_of x)
  owner_lem p x may e = subst (MayHave w c) (sym ((pick_thread_lem w n s p c).1 x e).1) may

  choice-some :
      (a b : Option ℕ) (top : ℕ) (x : Thread)
      → ((p : ℕ) → a ≡ some p → MayHave w c p)
      → ((p : ℕ) → b ≡ some p → MayHave w c p)
      → MayHave w c top
      → (pick_thread_if c w (or_else a (or_else b (some top)))).0 ≡ some x
      → MayHave w c (w.p_of x)
  choice-some (some p) b top x ma mb mt e = owner_lem p x (ma p refl) e
  choice-some none (some p) top x ma mb mt e = owner_lem p x (mb p refl) e
  choice-some none none top x ma mb mt e = owner_lem top x mt e

  pick_top-some :
      (o : Option ℕ) (x : Thread)
      → list_top w.overloaded_procs ≡ o
      → (pick_top c w o).0 ≡ some x
      → MayHave w c (w.p_of x)
  pick_top-some none x e h = absurd (cc)
  pick_top-some (some top) x e h =
      choice-some (wanting w (w.cores.current c)) (wanting w (w.cores.prev c)) top x
        (λ p q. wanting-ran w c p (w.cores.current c) (λ th r. inl r) q)
        (λ p q. wanting-ran w c p (w.cores.prev c) (λ th r. inr r) q) (first e) h

  pub pick_overloaded-some :
      (x : Thread) → (pick_overloaded c w).0 ≡ some x → MayHave w c (w.p_of x)
  unfolding pick_overloaded
  pick_overloaded-some x = pick_top-some (list_top w.overloaded_procs) x refl
