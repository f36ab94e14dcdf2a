-- ===== src/Common/Counts.antt =====
-- How often a number is in a list, and the lists that a node can be taken out of.
use Prim.Native.Nat.{◌-◌, ℕ, ◌+◌, ◌<◌}
use mathlib.Core.Path.{◌≡◌, refl}
use mathlib.Core.Option.{Option, none, some}
use mathlib.Core.List.{List, [], ◌∷◌, ◌++◌}
use native.Mathlib.Omega.{arith}
use libut.Common.Tests.{◌==◌, if◌then◌else◌}
use libut.Common.Lists.{length}

abbrev pub times : ℕ → List ℕ → ℕ
times p [] = 0
times p (q ∷ l) = (if q == p then 1 else 0) + times p l

-- `list_del`, on a node that is in the list once
abbrev pub del : ℕ → List ℕ → List ℕ
del p [] = []
del p (q ∷ l) = let rest : List ℕ = del p l in if q == p then l else q ∷ rest

-- `list_top` and `list_tail`
abbrev pub list_top : List ℕ → Option ℕ
list_top [] = none
list_top (p ∷ l) = some p

abbrev pub list_tail : List ℕ → Option ℕ
list_tail [] = none
list_tail (p ∷ []) = some p
list_tail (p ∷ q ∷ l) = list_tail (q ∷ l)

pub times-append : (p : ℕ) (l m : List ℕ) → times p (l ++ m) ≡ times p l + times p m
times-append p [] m = omega arith
times-append p (q ∷ l) m = ground (arith, times-append p l m)

pub times-del :
    (p q : ℕ) (l : List ℕ) → times q (del p l) ≡ (if p == q then times q l - 1 else times q l)
times-del p q [] = ground arith
times-del p q (r ∷ l) = ground (arith, times-del p q l)

pub length-del : (p : ℕ) (l : List ℕ) → 0 < times p l → length (del p l) + 1 ≡ length l
length-del p [] h = omega (arith, h)
length-del p (q ∷ l) h = ground (arith, length-del p l)

pub times-top : (p : ℕ) (l : List ℕ) → list_top l ≡ some p → 0 < times p l
times-top p [] e = cc
times-top p (q ∷ l) e = ground (arith, e)

pub times-tail : (p : ℕ) (l : List ℕ) → list_tail l ≡ some p → 0 < times p l
times-tail p [] e = cc
times-tail p (q ∷ []) e = ground (arith, e)
times-tail p (q ∷ r ∷ l) e = ground (arith, times-tail p (r ∷ l) e)

-- A list that is not empty has a first and a last element.
pub top-some : (l : List ℕ) → 0 < length l → (p : ℕ) × (list_top l ≡ some p)
top-some [] h = elim h [ ]
top-some (p ∷ l) h = (p, refl)

pub tail-some : (l : List ℕ) → 0 < length l → (p : ℕ) × (list_tail l ≡ some p)
tail-some [] h = elim h [ ]
tail-some (p ∷ []) h = (p, refl)
tail-some (p ∷ q ∷ l) h = tail-some (q ∷ l) (omega arith)
