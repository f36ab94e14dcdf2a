-- ===== src/Cores/Setup.antt =====
-- The loops over the threads of a new process.
use libut.Common.{
  ℕ, ◌+◌, ◌<◌, ◌≡◌, refl, inl, inr, Bool, true, false, List, [], ◌∷◌, arith, ltb, if◌then◌else◌,
  Bool-cases, length,
}
use libut.Common.Counts.{times}
use libut.Cores.{World, Thread, no_idx}
use libut.Cores.Init.{init_thread, init_threads}

-- whether a thread is one of the new ones
abbrev pub is_new : List Thread → Thread → Bool
is_new ths x = ltb 0 (times x ths)

-- What the loops over the threads leave.
pub record Set (p home i : ℕ) (ths : List Thread) (w v : World) : Type 0 where
  pub p_of : (x : Thread) → v.p_of x ≡ (if is_new ths x then p else w.p_of x)
  pub index_new : (x : Thread) → is_new ths x ≡ true → v.index x < i + length ths
  pub index_old : (x : Thread) → is_new ths x ≡ false → v.index x ≡ w.index x
  pub parked :
      (x : Thread) → v.threads.parked x ≡ (if is_new ths x then true else w.threads.parked x)
  pub available :
      (x : Thread) → v.threads.available x ≡ (if is_new ths x then true else w.threads.available x)
  pub core : (x : Thread) → v.threads.core x ≡ (if is_new ths x then home else w.threads.core x)
  pub at : (x : Thread) → v.threads.ts.at x ≡ (if is_new ths x then no_idx else w.threads.ts.at x)
  pub slots : v.threads.ts.slots ≡ w.threads.ts.slots
  pub count : v.threads.ts.count ≡ w.threads.ts.count
  pub proc : v.proc ≡ w.proc
  pub cores : v.cores ≡ w.cores

pub set_lem :
    (p home i : ℕ) (ths : List Thread) (w : World)
    → Set p home i ths w (init_threads p home i ths w)
unfolding init_threads
set_lem p home i [] w = record {
  p_of = λ x. ground arith;
  index_new = λ x h. absurd (ground (arith, h));
  index_old = λ x h. refl;
  parked = λ x. ground arith;
  available = λ x. ground arith;
  core = λ x. ground arith;
  at = λ x. ground arith;
  slots = refl;
  count = refl;
  proc = refl;
  cores = refl;
}
set_lem p home i (th ∷ ths) w =
    let s = set_lem p home (i + 1) ths (init_thread p home i th w) in
    record {
      p_of = λ x. ground (arith, s.p_of x);
      index_new = λ x h. elim (Bool-cases (is_new ths x)) [
        | inl later ↦ omega (arith, s.index_new x later)
        | inr now ↦ ground (arith, h, now, s.index_old x now)
      ];
      index_old = λ x h. ground (arith, h, s.index_old x);
      parked = λ x. ground (arith, s.parked x);
      available = λ x. ground (arith, s.available x);
      core = λ x. ground (arith, s.core x);
      at = λ x. ground (arith, s.at x);
      slots = s.slots;
      count = s.count;
      proc = s.proc;
      cores = s.cores;
    }
