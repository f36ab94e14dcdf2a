-- ===== src/Mempool.antt =====
-- base/mempool.c and inc/base/mempool.h: a preallocated pool of items of one size.
pub mod Sound
pub mod Create
mod Tests
use libut.Common.{
  ℕ, zero, suc, ◌+◌, ◌-◌, ◌*◌, ◌/◌, ◌%◌, ◌^◌, ◌≤◌, ◌<◌, min, max, bit_and, bit_or, ◌≡◌, refl, sym,
  ap, ap₂, ◌∙◌, fun_ext, ◌≢◌, ◌↔◌, ◌⊎◌, inl, inr, Bool, true, false, not, ◌&&◌, ◌||◌, Option, none,
  some, List, [], ◌∷◌, ◌++◌, map, append-nil, append_assoc, arith, dec_lt, ℕ_discrete, ltb, leb,
  ◌==◌, if◌then◌else◌, ltb→lt, lt→ltb, leb→le, ==_iff, Bool-cases, Option-cases, length, get_elem?,
  take, drop, update, slice, length-append, length-slice, update_self, update_ne, get_elem?-snoc,
  length-take, take_all, get_elem?-append_some, ◌≡⟨◌⟩◌, ◌∎,
}

-- `struct mempool`; items and buffers are addresses.
pub record Mempool : Type 0 where
  pub free_items : ℕ → ℕ
  pub allocated : ℕ
  pub capacity : ℕ
  pub buf : ℕ
  pub len : ℕ
  pub pgsize : ℕ
  pub item_len : ℕ

-- the assertions of `mempool_common_check`, which a build with DEBUG makes of each item
abbrev pub common_check : Mempool → ℕ → Bool
common_check m item =
    (leb m.buf item && ltb item (m.buf + m.len)) && (bit_and m.buf (m.pgsize - 1) % m.item_len == 0)

-- `mempool_alloc`, in a build with DEBUG, less the poison in the item. The outer `none` is a failed
-- assertion, the inner one NULL.
unfoldable pub alloc : Mempool → Option (Option ℕ × Mempool)
alloc m =
    if leb m.capacity m.allocated
    then some (none, m)
    else (if common_check m (m.free_items m.allocated)
        then some (some (m.free_items m.allocated), record m { allocated = m.allocated + 1 })
        else none)

-- `mempool_free`, in a build with DEBUG, less the poison in the item; `none` is a failed assertion.
unfoldable pub free : Mempool → ℕ → Option Mempool
free m item =
    let allocated : ℕ = (m.allocated + 2 ^ 64 - 1) % 2 ^ 64 in
    if not (common_check m item)
    then none
    else (if leb allocated m.capacity
        then some
            (record m { allocated = allocated; free_items = update m.free_items allocated item })
        else none)

-- the inner loop of `mempool_populate`, over the items of page `i` from `j` on
unfoldable pub fill_page : ℕ → ℕ → ℕ → ℕ → ℕ → ℕ → Mempool → Mempool
fill_page buf pgsize item_len i j zero m = m
fill_page buf pgsize item_len i j (suc left) m =
    fill_page buf pgsize item_len i (j + 1) left (record m {
      free_items = update m.free_items m.capacity (buf + pgsize * i + item_len * j);
      capacity = m.capacity + 1;
    })

-- the outer loop, over the pages from `i` on
unfoldable pub fill_pages : ℕ → ℕ → ℕ → ℕ → ℕ → Mempool → Mempool
fill_pages buf pgsize item_len i zero m = m
fill_pages buf pgsize item_len i (suc left) m =
    fill_pages buf pgsize item_len (i + 1) left
      (fill_page buf pgsize item_len i 0 (pgsize / item_len) m)

-- `mempool_populate`. `granted` tells whether `calloc` finds memory; `none` is -ENOMEM.
unfoldable pub populate : Bool → Mempool → ℕ → ℕ → ℕ → ℕ → Option Mempool
populate granted m buf len pgsize item_len =
    if granted
    then some (fill_pages buf pgsize item_len 0 (len / pgsize) (record m { free_items = λ i. 0 }))
    else none

-- `is_power_of_two`
abbrev pub is_power_of_two : ℕ → Bool
is_power_of_two x = not (x == 0) && (bit_and x (x - 1) == 0)

pub data Result : Type 0 where
  einval : Result
  enomem : Result
  ok : Mempool → Result

-- `mempool_create`
unfoldable pub create : Bool → Mempool → ℕ → ℕ → ℕ → ℕ → Result
create granted m buf len pgsize item_len =
    let made : Option Mempool =
      populate granted
        (record m { allocated = 0; buf = buf; len = len; pgsize = pgsize; item_len = item_len }) buf
        len pgsize item_len in
    if item_len == 0 || not (is_power_of_two pgsize) || not (len % pgsize == 0)
    then einval
    else elim made [ none ↦ enomem | some m' ↦ ok m' ]

-- the loop of `mempool_tcache_free`, under the lock
unfoldable pub tcache_free : Mempool → List ℕ → Option Mempool
tcache_free m [] = some m
tcache_free m (item ∷ items) = elim (free m item) [ none ↦ none | some m' ↦ tcache_free m' items ]

-- `mempool_tcache_alloc` for `nr` more items, after `got`. The first `none` is a failed assertion, the
-- second -ENOMEM, before which the items got so far are freed.
unfoldable pub tcache_alloc : Mempool → List ℕ → ℕ → Option (Option (List ℕ) × Mempool)
tcache_alloc m got zero = some (some got, m)
tcache_alloc m got (suc nr) =
    let rest : ℕ → Mempool → Option (Option (List ℕ) × Mempool) =
      λ item m'. tcache_alloc m' (got ++ item ∷ []) nr in
    elim (alloc m) [
      | none ↦ none
      | some (none, m') ↦ elim (tcache_free m' got) [ none ↦ none | some m'' ↦ some (none, m'') ]
      | some (some item, m') ↦ rest item m'
    ]
