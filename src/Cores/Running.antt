-- ===== src/Cores/Running.antt =====
-- Which thread has which core.
use libut.Common.{
  ℕ, zero, suc, ◌≤◌, ◌<◌, ◌≡◌, ◌≢◌, ◌⊎◌, Bool, true, false, none, some, arith, dec_lt,
  if◌then◌else◌, update,
}
use libut.Common.Totals.{total, total-update}
use libut.Common.Words.{add32, sub32}
use libut.Cores.{Thread, Cores, ncpu}

abbrev pub ones : Bool → ℕ
ones b = if b then 1 else 0

-- A core that is not available runs the thread that it names, and may be promised to a second one; no
-- thread has two cores, and every thread that is not parked has one. The core that a thread ran on, if
-- busy, names a thread. `e` tells which threads there are.
pub record IsRunning (e parked : Thread → Bool) (core : Thread → ℕ) (k : Cores) (n : ℕ)
    : Type 0 where
  pub few : n ≤ ncpu
  pub counted : k.nr_avail_cores ≡ total ones k.avail_cores n
  pub outside :
      (c : ℕ) → n ≤ c → (k.avail_cores c ≡ false) × (k.current c ≡ none) × (k.next c ≡ none)
  pub runs :
      (c : ℕ) (th : Thread)
      → k.avail_cores c ≡ false
      → k.current c ≡ some th
      → (parked th ≡ false) × (core th ≡ c)
  pub waits :
      (c : ℕ) (th : Thread)
      → k.next c ≡ some th
      → (e th ≡ true)
        × (k.avail_cores c ≡ false)
        × (parked th ≡ false)
        × (core th ≡ c)
        × (k.current c ≢ some th)
        × (k.current c ≢ none)
  pub has_core :
      (th : Thread)
      → e th ≡ true
      → parked th ≡ false
      → (k.avail_cores (core th) ≡ false)
        × ((k.current (core th) ≡ some th) ⊎ (k.next (core th) ≡ some th))
  pub homed :
      (th : Thread) → e th ≡ true → (k.avail_cores (core th) ≡ true) ⊎ (k.current (core th) ≢ none)
  pub known : (c : ℕ) (th : Thread) → (k.current c ≡ some th) ⊎ (k.prev c ≡ some th) → e th ≡ true

total-le : (f : ℕ → Bool) (n : ℕ) → total ones f n ≤ n
unfolding total
total-le f zero = omega arith
total-le f (suc n) = ground (arith, total-le f n)

module _ (e parked : Thread → Bool) (core : Thread → ℕ) (k : Cores) (n : ℕ)
    (s : IsRunning e parked core k n) where
  pub count-le : k.nr_avail_cores ≤ ncpu
  count-le = omega (arith, s.counted, s.few, total-le k.avail_cores n)

  pub inside : (c : ℕ) → k.avail_cores c ≡ true → c < n
  inside c free = elim (dec_lt c n) [
    | yes lt ↦ lt
    | no ge ↦ absurd (ground (arith, s.outside c (omega (arith, ge)), free))
  ]

  pub inside_current : (c : ℕ) (th : Thread) → k.current c ≡ some th → c < n
  inside_current c th busy = elim (dec_lt c n) [
    | yes lt ↦ lt
    | no ge ↦ absurd (ground (arith, s.outside c (omega (arith, ge)), busy))
  ]

  module _ (c : ℕ) (x : Thread) (free : k.avail_cores c ≡ true) (alone : k.next c ≡ none)
      (there : e x ≡ true) (idle : parked x ≡ true) where
    abbrev pub started : Cores
    started = record {
      avail_cores = update k.avail_cores c false;
      nr_avail_cores = sub32 k.nr_avail_cores 1;
      current = update k.current c (some x);
      prev = update k.prev c (k.current c);
      next = update k.next c none;
    }

    -- A parked thread starts on an available core.
    pub start-IsRunning : IsRunning e (update parked x false) (update core x c) started n
    start-IsRunning = record {
      few = s.few;
      counted = ground (
        arith,
        total-update ones n k.avail_cores c false (inside c free),
        s.counted,
        free,
        s.few,
        total-le k.avail_cores n,
      );
      outside = λ d ge. ground (arith, inside c free, ge, s.outside d ge);
      runs = λ d th a b. ground (arith, a, b, idle, s.runs d th);
      waits = λ d th a. ground (arith, a, idle, s.waits d th, free);
      has_core = λ th a b. ground (arith, a, b, free, idle, alone, s.has_core th);
      homed = λ th a. ground (arith, a, s.homed th);
      known = λ d th a. ground (arith, a, there, s.known d th);
    }

  module _ (c : ℕ) (th : Thread) (taken : k.avail_cores c ≡ false)
      (busy : k.current c ≡ some th) where
    abbrev pub yielded : Cores
    yielded = record k {
      avail_cores = update k.avail_cores c true;
      nr_avail_cores = add32 k.nr_avail_cores 1;
    }

    below : c < n
    below = inside_current c th busy

    at_core : (parked th ≡ false) × (core th ≡ c)
    at_core = s.runs c th taken busy

    yielded_count : yielded.nr_avail_cores ≡ total ones yielded.avail_cores n
    yielded_count = ground (
      arith,
      total-update ones n k.avail_cores c true below,
      s.counted,
      taken,
      s.few,
      total-le k.avail_cores n,
    )

    -- A thread parks, and leaves its core available.
    pub yield-IsRunning : k.next c ≡ none → IsRunning e (update parked th true) core yielded n
    yield-IsRunning alone = record {
      few = s.few;
      counted = yielded_count;
      outside = λ d ge. ground (arith, below, ge, s.outside d ge);
      runs = λ d y a b. ground (arith, a, b, at_core, s.runs d y);
      waits = λ d y a. ground (arith, a, alone, at_core, s.waits d y);
      has_core = λ y a b. ground (arith, a, b, busy, alone, at_core, s.has_core y);
      homed = λ y a. ground (arith, a, busy, s.homed y);
      known = λ d y a. s.known d y a;
    }

    module _ (m : Thread) (promised : k.next c ≡ some m) where
      -- `c` goes from the thread that parks to the one that waits
      abbrev pub passed : Cores
      passed = record {
        avail_cores = update yielded.avail_cores c false;
        nr_avail_cores = sub32 yielded.nr_avail_cores 1;
        current = update k.current c (some m);
        prev = update k.prev c (k.current c);
        next = update k.next c none;
      }

      pub pass-IsRunning : IsRunning e (update parked th true) core passed n
      pass-IsRunning = record {
        few = s.few;
        counted = ground (
          arith,
          total-update ones n yielded.avail_cores c false below,
          yielded_count,
          s.few,
          total-le yielded.avail_cores n,
        );
        outside = λ d ge. ground (arith, below, ge, s.outside d ge);
        runs = λ d y a b. ground (arith, a, b, at_core, s.runs d y, s.waits c m promised, busy);
        waits = λ d y a. ground (arith, a, at_core, s.waits d y, s.waits c m promised);
        has_core = λ y a b.
            ground (arith, a, b, busy, promised, at_core, s.has_core y, s.waits c m promised);
        homed = λ y a. ground (arith, a, busy, s.homed y);
        known = λ d y a. ground (arith, a, s.waits c m promised, s.known d y);
      }

    module _ (x : Thread) (alone : k.next c ≡ none) (there : e x ≡ true)
        (idle : parked x ≡ true) where
      abbrev pub promised_to : Cores
      promised_to = record k { next = update k.next c (some x) }

      -- A parked thread is promised a core that is busy.
      pub wait-IsRunning : IsRunning e (update parked x false) (update core x c) promised_to n
      wait-IsRunning = record {
        few = s.few;
        counted = s.counted;
        outside = λ d ge. ground (arith, below, ge, s.outside d ge);
        runs = λ d y a b. ground (arith, a, b, idle, s.runs d y);
        waits = λ d y a. ground (arith, a, there, idle, taken, busy, at_core, s.waits d y);
        has_core = λ y a b. ground (arith, a, b, taken, alone, s.has_core y);
        homed = λ y a. ground (arith, a, busy, s.homed y);
        known = λ d y a. s.known d y a;
      }
