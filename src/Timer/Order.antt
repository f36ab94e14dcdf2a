-- ===== src/Timer/Order.antt =====
-- The heap order of the timers, and what the exchange of two slots does to the deadlines.
use libut.Common.{ℕ, zero, suc, ◌≤◌, ◌<◌, ◌≡◌, arith, ◌==◌, if◌then◌else◌}
use libut.Timer.{State, key, parent, place}
use libut.Timer.Kept.{swap}

-- Below `n`, every slot whose parent is at `lo` or later is not due before its parent.
abbrev pub HeapFrom : ℕ → ℕ → State → Type 0
HeapFrom lo n s = (c : ℕ) → 0 < c → c < n → lo ≤ parent c → key s (parent c) ≤ key s c

-- The children of `i` are not due before its parent.
abbrev pub Bridged : ℕ → ℕ → State → ℕ → Type 0
Bridged lo n s i =
    (c : ℕ) → 0 < c → c < n → parent c ≡ i → 0 < i → lo ≤ parent i → key s (parent i) ≤ key s c

pub key-swap :
    (s : State) (i c j : ℕ)
    → key (swap s i c) j ≡ (if c == j then key s i else if i == j then key s c else key s j)
unfolding place
key-swap s i c j = ground arith

least_below : (f n : ℕ) (s : State) (i : ℕ) → HeapFrom 0 n s → i < f → i < n → key s 0 ≤ key s i
least_below zero n s i h lt inside = elim lt [ ]
least_below (suc f) n s zero h lt inside = omega arith
least_below (suc f) n s (suc i) h lt inside = omega (
  arith,
  h (suc i) (omega arith) inside (omega arith),
  least_below f n s (parent (suc i)) h (omega arith) (omega arith),
)

-- The root of a heap has the least deadline.
pub root_least : (n : ℕ) (s : State) (i : ℕ) → HeapFrom 0 n s → i < n → key s 0 ≤ key s i
root_least n s i h inside = least_below (suc i) n s i h (omega arith) inside
