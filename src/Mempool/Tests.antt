-- ===== src/Mempool/Tests.antt =====
-- A pool of four items of 24 bytes, in two pages of 64 bytes.
use libut.Common.{ℕ, ◌≡◌, refl, true, Option, some, List, [], ◌∷◌, arith, ◌==◌, if◌then◌else◌}
use libut.Common.Totals.{total, weight}
use libut.Mempool.{
  Mempool, Result, einval, enomem, ok, fill_page, fill_pages, populate, create, tcache_alloc,
}
use libut.Mempool.Sound.{IsSound, Fetched, tcache_alloc_lem}

abbrev zeroed : Mempool
zeroed = record {
  free_items = λ i. 0;
  allocated = 0;
  capacity = 0;
  buf = 0;
  len = 0;
  pgsize = 0;
  item_len = 0;
}

abbrev pool : Mempool
pool = record {
  free_items = λ i. if i == 0 then 1024 else if i == 1 then 1048 else if i == 2 then 1088 else 1112;
  allocated = 0;
  capacity = 4;
  buf = 1024;
  len = 128;
  pgsize = 64;
  item_len = 24;
}

abbrev items : Result → List ℕ
items einval = []
items enomem = []
items (ok m) = m.free_items 0 ∷ m.free_items 1 ∷ m.free_items 2 ∷ m.free_items 3 ∷ m.capacity ∷ []

create_pool : items (create true zeroed 1024 128 64 24) ≡ 1024 ∷ 1048 ∷ 1088 ∷ 1112 ∷ 4 ∷ []
unfolding create populate fill_pages fill_page
create_pool = refl

pool-IsSound : IsSound pool.free_items 4 pool []
unfolding weight total
pool-IsSound = record {
  size = refl;
  small = omega arith;
  out = refl;
  within = omega arith;
  checked = refl;
  conserved = λ w. omega arith;
}

-- the pool once its first item is handed out
abbrev pool_one : Mempool
pool_one = record pool { allocated = 1 }

pool_one-IsSound : IsSound pool.free_items 4 pool_one (1024 ∷ [])
unfolding weight total
pool_one-IsSound = record {
  size = refl;
  small = omega arith;
  out = refl;
  within = omega arith;
  checked = refl;
  conserved = λ w. omega arith;
}

tcache_alloc_example :
    (o : Option (List ℕ)) × (m' : Mempool) × (tcache_alloc pool [] 8 ≡ some (o, m'))
    × Fetched pool.free_items 4 8 [] [] m' o
tcache_alloc_example = tcache_alloc_lem 8 [] [] pool-IsSound
