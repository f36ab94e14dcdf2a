-- ===== src/Cores/Flags.antt =====
-- What the marks of a process leave alone.
use libut.Common.{
  ℕ, ◌≡◌, refl, ◌∙◌, Bool, true, false, List, ◌∷◌, if◌then◌else◌, update, update-field,
}
use libut.Common.Counts.{del}
use libut.Cores.{
  World, Proc, set_proc, proc_set_overloaded, proc_clear_overloaded, proc_set_bursting,
  proc_clear_bursting,
}

-- two processes that differ in their marks at most
pub record SameProc (q r : Proc) : Type 0 where
  pub active : r.active ≡ q.active
  pub idle : r.idle_threads ≡ q.idle_threads
  pub size : r.thread_count ≡ q.thread_count
  pub gone : r.removed ≡ q.removed

pub record Marked (w v : World) : Type 0 where
  pub threads : v.threads ≡ w.threads
  pub cores : v.cores ≡ w.cores
  pub p_of : v.p_of ≡ w.p_of
  pub index : v.index ≡ w.index
  pub proc : (q : ℕ) → SameProc (w.proc q) (v.proc q)

same_refl : (q : Proc) → SameProc q q
same_refl q = record { active = refl; idle = refl; size = refl; gone = refl }

same_update :
    (w : World) (p : ℕ) (r : Proc)
    → SameProc (w.proc p) r
    → (q : ℕ) → SameProc (w.proc q) (update w.proc p r q)
same_update w p r s q = record {
  active = update-field (λ (x : Proc). x.active) w.proc p r s.active q;
  idle = update-field (λ (x : Proc). x.idle_threads) w.proc p r s.idle q;
  size = update-field (λ (x : Proc). x.thread_count) w.proc p r s.size q;
  gone = update-field (λ (x : Proc). x.removed) w.proc p r s.gone q;
}

pub marked_refl : (w : World) → Marked w w
marked_refl w = record {
  threads = refl;
  cores = refl;
  p_of = refl;
  index = refl;
  proc = λ q. same_refl (w.proc q);
}

pub marked_trans : {u v w : World} → Marked u v → Marked v w → Marked u w
marked_trans {u} {v} {w} a b = record {
  threads = b.threads ∙ a.threads;
  cores = b.cores ∙ a.cores;
  p_of = b.p_of ∙ a.p_of;
  index = b.index ∙ a.index;
  proc = λ q. record {
    active = (b.proc q).active ∙ (a.proc q).active;
    idle = (b.proc q).idle ∙ (a.proc q).idle;
    size = (b.proc q).size ∙ (a.proc q).size;
    gone = (b.proc q).gone ∙ (a.proc q).gone;
  };
}

-- a mark set or cleared, and the list of the processes with it changed
marked_by :
    (w : World) (p : ℕ) (r : Proc) (o b : List ℕ)
    → SameProc (w.proc p) r
    → Marked w (record (set_proc p r w) { overloaded_procs = o; bursting_procs = b })
marked_by w p r o b s = record {
  threads = refl;
  cores = refl;
  p_of = refl;
  index = refl;
  proc = same_update w p r s;
}

pub marked_store :
    (w : World) (p : ℕ) (r : Proc) → SameProc (w.proc p) r → Marked w (set_proc p r w)
marked_store w p r s = record {
  threads = refl;
  cores = refl;
  p_of = refl;
  index = refl;
  proc = same_update w p r s;
}

pub marked_if : (b : Bool) (u v w : World) → Marked u v → Marked u w → Marked u (if b then v else w)
marked_if true u v w x y = x
marked_if false u v w x y = y

module _ (p : ℕ) (w : World) where
  -- a change of marks of `p` and of the two lists
  marked_to :
      (o b : Bool) (os bs : List ℕ)
      → Marked w (record (set_proc p (record (w.proc p) { overloaded = o; bursting = b }) w) {
        overloaded_procs = os;
        bursting_procs = bs;
      })
  marked_to o b os bs =
      marked_by w p _ os bs record { active = refl; idle = refl; size = refl; gone = refl }

  pub set_overloaded-Marked : Marked w (proc_set_overloaded p w)
  unfolding proc_set_overloaded
  set_overloaded-Marked =
      marked_if _ w _ _ (marked_refl w)
        (marked_to true (w.proc p).bursting (p ∷ w.overloaded_procs) w.bursting_procs)

  pub clear_overloaded-Marked : Marked w (proc_clear_overloaded p w)
  unfolding proc_clear_overloaded
  clear_overloaded-Marked =
      marked_if _ w _ _ (marked_refl w)
        (marked_to false (w.proc p).bursting (del p w.overloaded_procs) w.bursting_procs)

  pub set_bursting-Marked : Marked w (proc_set_bursting p w)
  unfolding proc_set_bursting
  set_bursting-Marked =
      marked_if _ w _ _ (marked_refl w)
        (marked_to (w.proc p).overloaded true w.overloaded_procs (p ∷ w.bursting_procs))

  pub clear_bursting-Marked : Marked w (proc_clear_bursting p w)
  unfolding proc_clear_bursting
  clear_bursting-Marked =
      marked_if _ w _ _ (marked_refl w)
        (marked_to (w.proc p).overloaded false w.overloaded_procs (del p w.bursting_procs))
