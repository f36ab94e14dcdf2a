-- ===== src/Tcache/Tests.antt =====
-- A cache of magazines of two items, over a backing allocator that counts its items from 100 on.
use libut.Common.{
  ℕ, zero, suc, ◌+◌, ◌≡◌, refl, ap, inl, inr, true, Option, some, List, [], ◌∷◌, arith, length,
}
use libut.Common.Int.{pos, ◌+ℤ◌}
use libut.Tcache.{
  Tcache, Perthread, create, alloc, alloc_slow, alloc_shared, alloc_new, loaded_new, alloc_mag,
  chained, reload,
}
use libut.Tcache.Sound.{IsSound}
use libut.Tcache.Alloc.{Ran, alloc_lem}
use libut.Tcache.Free.{Freed, free_lem}

abbrev upwards : ℕ → ℕ → List ℕ
upwards start zero = []
upwards start (suc n) = start ∷ upwards (start + 1) n

upwards-fills : (start n : ℕ) → length (upwards start n) ≡ n
upwards-fills start zero = refl
upwards-fills start (suc n) = ap suc (upwards-fills (start + 1) n)

abbrev ops_alloc : ℕ → ℕ → Option (List ℕ) × ℕ
ops_alloc s n = (some (upwards s n), s + n)

abbrev ops_free : ℕ → List ℕ → ℕ
ops_free s items = s

abbrev cache : Tcache
cache = record {
  mags_allocated = pos 3;
  mag_size = 2;
  shared_mags = (5 ∷ 6 ∷ []) ∷ (7 ∷ 8 ∷ []) ∷ [];
}

abbrev handle : Perthread
handle = record { rounds = 2; capacity = 2; loaded = 1 ∷ 2 ∷ []; previous = 3 ∷ 4 ∷ [] }

handle-IsSound : IsSound handle cache
handle-IsSound = record {
  some_round = omega arith;
  small = omega arith;
  capacity = refl;
  rounds = refl;
  few = omega arith;
  spare = inr refl;
  shared = (refl, (refl, tt));
}

abbrev bare : Tcache
bare = record { mags_allocated = pos 0; mag_size = 2; shared_mags = [] }

abbrev idle : Perthread
idle = record { rounds = 0; capacity = 2; loaded = []; previous = [] }

idle-IsSound : IsSound idle bare
idle-IsSound = record {
  some_round = omega arith;
  small = omega arith;
  capacity = refl;
  rounds = refl;
  few = omega arith;
  spare = inl refl;
  shared = tt;
}

-- An idle handle of a bare cache has a magazine filled, and keeps the item that is left of it.
alloc_idle :
    alloc ops_alloc ops_free idle bare 100
    ≡ some (
      some 100,
      record idle { rounds = 1; loaded = 101 ∷ [] },
      record bare { mags_allocated = pos 1 },
      102,
    )
unfolding alloc alloc_slow alloc_shared alloc_new loaded_new alloc_mag chained reload ◌+ℤ◌
alloc_idle = refl

fills_lem :
    (n : ℕ) (items : List ℕ) (s' : ℕ) → ops_alloc 100 n ≡ (some items, s') → length items ≡ n
fills_lem n items s' e = ground (arith, e, upwards-fills 100 n)

alloc_lem_example : Ran ops_alloc ops_free idle bare 100 idle-IsSound
alloc_lem_example =
    alloc_lem ops_alloc ops_free idle bare 100 idle-IsSound (λ n items s' e. fills_lem n items s' e)

free_lem_example : Freed handle cache 9
free_lem_example = free_lem handle cache 9 handle-IsSound

create-bare : create true 2 16 ≡ some (some bare)
unfolding create
create-bare = refl
