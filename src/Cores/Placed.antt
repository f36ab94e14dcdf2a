-- ===== src/Cores/Placed.antt =====
-- Where each thread is: parked and idle, or active and polled.
use libut.Common.{
  ℕ, ◌+◌, ◌≤◌, ◌≡◌, refl, sym, ◌∙◌, Bool, true, not, ◌&&◌, ltb, ◌==◌, if◌then◌else◌, length,
  update-field, subst,
}
use libut.Common.Counts.{times}
use libut.Cores.{World, Thread, Proc, Threads, set_proc, ncpu}
use libut.Cores.Dense.{has, IsDense, IsPolled}
use libut.Cores.Flags.{Marked}

-- Thread `th` is one of process `q`.
abbrev pub belongs : World → ℕ → Thread → Bool
belongs w q th = (q == w.p_of th) && ltb (w.index th) (w.proc (w.p_of th)).thread_count

abbrev pub exists : World → Thread → Bool
exists w th = belongs w (w.p_of th) th

-- Every thread of a process is parked, available, and once in the list of the idle threads of its
-- process; or it is none of these, and in the array of the active threads of its process and in the
-- array of those that are polled.
pub record IsPlaced (w : World) : Type 0 where
  pub dense : (q : ℕ) → IsDense (w.proc q).active
  pub polls : IsPolled w.threads.ts
  pub total :
      (q : ℕ) → length (w.proc q).idle_threads + (w.proc q).active.count ≡ (w.proc q).thread_count
  pub small : (q : ℕ) → (w.proc q).thread_count ≤ ncpu
  pub idle :
      (q : ℕ) (th : Thread)
      → times th (w.proc q).idle_threads ≡ (if belongs w q th && w.threads.parked th then 1 else 0)
  pub active :
      (q : ℕ) (th : Thread) → has (w.proc q).active th ≡ belongs w q th && not (w.threads.parked th)
  pub polled : (th : Thread) → has w.threads.ts th ≡ exists w th && not (w.threads.parked th)
  pub available : (th : Thread) → exists w th ≡ true → w.threads.available th ≡ w.threads.parked th

-- Marks are not part of it.
pub marked-IsPlaced : {w v : World} → Marked w v → IsPlaced w → IsPlaced v
marked-IsPlaced {w} {v} m s = record {
  dense = λ q. subst IsDense (sym (m.proc q).active) (s.dense q);
  polls = subst (λ (t : Threads). IsPolled t.ts) (sym m.threads) s.polls;
  total = λ q. rw ((m.proc q).active, (m.proc q).idle, (m.proc q).size) (s.total q);
  small = λ q. rw ((m.proc q).size) (s.small q);
  idle = λ q th.
      rw ((m.proc q).idle, m.p_of, m.index, (m.proc (w.p_of th)).size, m.threads) (s.idle q th);
  active = λ q th.
      rw ((m.proc q).active, m.p_of, m.index, (m.proc (w.p_of th)).size, m.threads) (s.active q th);
  polled = λ th. rw (m.threads, m.p_of, m.index, (m.proc (w.p_of th)).size) (s.polled th);
  available = λ th. rw (m.threads, m.p_of, m.index, (m.proc (w.p_of th)).size) (s.available th);
}

-- What an operation on one thread leaves alone, where `t` are the threads after it.
pub record Kept (w v : World) (t : Threads) : Type 0 where
  pub threads : v.threads ≡ t
  pub cores : v.cores ≡ w.cores
  pub p_of : v.p_of ≡ w.p_of
  pub index : v.index ≡ w.index
  pub size : (q : ℕ) → (v.proc q).thread_count ≡ (w.proc q).thread_count
  pub gone : (q : ℕ) → (v.proc q).removed ≡ (w.proc q).removed

pub Kept-marked : {w u v : World} {t : Threads} → Kept w u t → Marked u v → Kept w v t
Kept-marked k m = record {
  threads = m.threads ∙ k.threads;
  cores = m.cores ∙ k.cores;
  p_of = m.p_of ∙ k.p_of;
  index = m.index ∙ k.index;
  size = λ q. (m.proc q).size ∙ k.size q;
  gone = λ q. (m.proc q).gone ∙ k.gone q;
}

-- a store to one process that keeps its size and whether it is gone
pub Kept-store :
    (w : World) (p : ℕ) (r : Proc) (t : Threads)
    → r.thread_count ≡ (w.proc p).thread_count
    → r.removed ≡ (w.proc p).removed
    → Kept w (record (set_proc p r w) { threads = t }) t
Kept-store w p r t size gone = record {
  threads = refl;
  cores = refl;
  p_of = refl;
  index = refl;
  size = update-field (λ (x : Proc). x.thread_count) w.proc p r size;
  gone = update-field (λ (x : Proc). x.removed) w.proc p r gone;
}
