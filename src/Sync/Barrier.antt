-- ===== src/Sync/Barrier.antt =====
-- `barrier_init` and `barrier_wait`.
use libut.Common.{
  ℕ, suc, ◌+◌, ◌*◌, ◌/◌, ◌%◌, ◌≤◌, ◌<◌, ◌≡◌, refl, sym, ap, ◌∙◌, Bool, true, false, not, List, [],
  ◌∷◌, ◌++◌, append-nil, append_assoc, arith, dec_lt, if◌then◌else◌, length, length-append,
}
use libut.Common.Int.{ℤ, pos, ltb_ℤ}
use libut.Sync.Ready.{Thread, Ready, ready_all, ready_all-append}
use mathlib.Core.Path.{subst}
use native.Mathlib.Nat.{div-eq_of_lt, mod-eq_of_lt, mul-add-div, add-mul-mod_self_left}

-- `struct barrier`, less its spin lock. `waiting` counts up from zero.
pub record Barrier : Type 0 where
  pub waiting : ℕ
  pub count : ℤ
  pub waiters : List Thread

unfoldable pub init : ℤ → Barrier
init count = record { waiting = 0; count = count; waiters = [] }

-- Whether the caller releases the barrier; if not, it parks.
unfoldable pub wait : Barrier → Thread → Ready → Bool × Ready × Barrier
wait b th log =
    let waiting : ℕ = b.waiting + 1 in
    if not (ltb_ℤ (pos waiting) b.count)
    then (true, ready_all log b.waiters, record b { waiters = []; waiting = 0 })
    else (false, log, record b { waiting = waiting; waiters = b.waiters ++ th ∷ [] })

-- A barrier, the threads made ready, those that have parked, and those that have released it.
pub record World : Type 0 where
  pub barrier : Barrier
  pub ready : Ready
  pub parked : List Thread
  pub leaders : List Thread

unfoldable pub arrive : World → Thread → World
arrive w th =
    let (leads, log, b) = wait w.barrier th w.ready in
    record w {
      barrier = b;
      ready = log;
      parked = if leads then w.parked else w.parked ++ th ∷ [];
      leaders = if leads then w.leaders ++ th ∷ [] else w.leaders;
    }

unfoldable pub run : World → List Thread → World
run w [] = w
run w (th ∷ ths) = run (arrive w th) ths

abbrev pub fresh : ℕ → World
fresh n = record {
  barrier = record { waiting = 0; count = pos n; waiters = [] };
  ready = [];
  parked = [];
  leaders = [];
}

-- `m` threads have arrived at a barrier for `n`.
pub record IsSound (n m : ℕ) (w : World) : Type 0 where
  pub size : w.barrier.count ≡ pos n
  pub waiting : w.barrier.waiting ≡ length w.barrier.waiters
  pub few : w.barrier.waiting < n
  pub arrived : m ≡ n * length w.leaders + w.barrier.waiting
  pub served : w.ready ++ w.barrier.waiters ≡ w.parked

module _ (n : ℕ) (w : World) (th : Thread) (size : w.barrier.count ≡ pos n) where
  -- the state after the arrival that releases the barrier, and after one that does not
  abbrev after_last : World
  after_last = record {
    barrier = record w.barrier { waiters = []; waiting = 0 };
    ready = ready_all w.ready w.barrier.waiters;
    parked = w.parked;
    leaders = w.leaders ++ th ∷ [];
  }

  abbrev after_early : World
  after_early = record {
    barrier = record w.barrier {
      waiting = w.barrier.waiting + 1;
      waiters = w.barrier.waiters ++ th ∷ [];
    };
    ready = w.ready;
    parked = w.parked ++ th ∷ [];
    leaders = w.leaders;
  }

  arrive-last : n ≤ w.barrier.waiting + 1 → arrive w th ≡ after_last
  unfolding arrive wait
  arrive-last h = rw (test) refl
    where
      test : not (ltb_ℤ (pos (w.barrier.waiting + 1)) w.barrier.count) ≡ true
      test = ground arith

  arrive-early : w.barrier.waiting + 1 < n → arrive w th ≡ after_early
  unfolding arrive wait
  arrive-early h = rw (test) refl
    where
      test : not (ltb_ℤ (pos (w.barrier.waiting + 1)) w.barrier.count) ≡ false
      test = ground arith

arrive-IsSound :
    (n m : ℕ) (w : World) (th : Thread) → IsSound n m w → IsSound n (m + 1) (arrive w th)
arrive-IsSound n m w th v = elim (dec_lt (w.barrier.waiting + 1) n) [
  | yes early ↦ rw (arrive-early n w th v.size early) record {
    size = v.size;
    waiting = omega (arith, length-append w.barrier.waiters (th ∷ []));
    few = early;
    arrived = omega arith;
    served =
        sym (append_assoc w.ready w.barrier.waiters (th ∷ []))
        ∙ ap (λ (ts : List Thread). ts ++ th ∷ []) v.served;
  }
  | no last ↦ rw (arrive-last n w th v.size (omega arith)) record {
    size = v.size;
    waiting = refl;
    few = omega arith;
    arrived = omega (arith, ap (λ (k : ℕ). n * k) (length-append w.leaders (th ∷ [])));
    served =
        append-nil (ready_all w.ready w.barrier.waiters)
        ∙ ready_all-append w.ready w.barrier.waiters
        ∙ v.served;
  }
]

run-IsSound :
    (n m : ℕ) (w : World) (ths : List Thread)
    → IsSound n m w
    → IsSound n (m + length ths) (run w ths)
unfolding run
run-IsSound n m w [] v = subst (λ (k : ℕ). IsSound n k w) (omega arith) v
run-IsSound n m w (th ∷ ths) v =
    rw (shift m (length ths)) (run-IsSound n (m + 1) (arrive w th) ths (arrive-IsSound n m w th v))
  where
    shift : (a b : ℕ) → a + suc b ≡ a + 1 + b
    shift a b = omega arith

start : (n : ℕ) → 0 < n → IsSound n 0 (fresh n)
start n h = record { size = refl; waiting = refl; few = h; arrived = omega arith; served = refl }

quotient : (n q r a : ℕ) → r < n → a ≡ n * q + r → a / n ≡ q
quotient n q r a h e =
    ap (λ (t : ℕ). t / n) e ∙ omega (arith, mul-add-div {m = n} (omega arith) q r, div-eq_of_lt h)

remainder : (n q r a : ℕ) → r < n → a ≡ n * q + r → a % n ≡ r
remainder n q r a h e =
    ap (λ (t : ℕ). t % n) e
    ∙ ap (λ (t : ℕ). t % n) (swap (n * q) r)
    ∙ add-mul-mod_self_left r n q
    ∙ mod-eq_of_lt h
  where
    swap : (a b : ℕ) → a + b ≡ b + a
    swap a b = omega arith

-- At a barrier for `n` threads, of `m` arrivals every `n`-th releases it and the rest park: `m / n`
-- have released it and `m % n` wait. Every thread that parked has been made ready once or still waits,
-- in the order of arrival.
pub barrier_counts :
    (n : ℕ) (ths : List Thread)
    → 0 < n
    → (length (run (fresh n) ths).leaders ≡ length ths / n)
      × (length (run (fresh n) ths).barrier.waiters ≡ length ths % n)
      × ((run (fresh n) ths).ready ++ (run (fresh n) ths).barrier.waiters
          ≡ (run (fresh n) ths).parked)
barrier_counts n ths h =
    let v = run-IsSound n 0 (fresh n) ths (start n h) in
    (
      sym (quotient n _ _ (length ths) v.few (zero_add ∙ v.arrived)),
      sym v.waiting ∙ sym (remainder n _ _ (length ths) v.few (zero_add ∙ v.arrived)),
      v.served,
    )
  where
    zero_add : length ths ≡ 0 + length ths
    zero_add = omega arith
