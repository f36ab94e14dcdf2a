-- ===== src/Tcache.antt =====
-- base/tcache.c and inc/base/tcache.h: a cache of items per thread, in magazines of one size. A
-- magazine, a chain through `next_item`, is the list of its items; the empty list is NULL. So an item must
-- not be freed while a magazine holds it: that would close the chain of the source to a cycle.
pub mod Sound
pub mod Alloc
pub mod Free
mod Tests
use libut.Common.{
  ℕ, zero, suc, ◌+◌, ◌-◌, ◌*◌, ◌/◌, ◌%◌, ◌^◌, ◌≤◌, ◌<◌, min, max, bit_and, bit_or, ◌≡◌, refl, sym,
  ap, ap₂, ◌∙◌, fun_ext, ◌≢◌, ◌↔◌, ◌⊎◌, inl, inr, Bool, true, false, not, ◌&&◌, ◌||◌, Option, none,
  some, List, [], ◌∷◌, ◌++◌, map, append-nil, append_assoc, arith, dec_lt, ℕ_discrete, ltb, leb,
  ◌==◌, if◌then◌else◌, ltb→lt, lt→ltb, leb→le, ==_iff, Bool-cases, Option-cases, length, get_elem?,
  take, drop, update, slice, length-append, length-slice, update_self, update_ne, get_elem?-snoc,
  length-take, take_all, get_elem?-append_some, ◌≡⟨◌⟩◌, ◌∎,
}
use libut.Common.Int.{ℤ, pos, negsuc, ◌+ℤ◌}

-- `struct tcache`, less its lock, its name and its link. The magazines of the shared pool are a chain
-- through `next_mag`.
pub record Tcache : Type 0 where
  pub mags_allocated : ℤ
  pub mag_size : ℕ
  pub shared_mags : List (List ℕ)

-- `struct tcache_perthread`
pub record Perthread : Type 0 where
  pub rounds : ℕ
  pub capacity : ℕ
  pub loaded : List ℕ
  pub previous : List ℕ

-- `tcache_create`, where `granted` tells whether `malloc` finds memory. The outer `none` is a failed
-- assertion, the inner one NULL.
unfoldable pub create : Bool → ℕ → ℕ → Option (Option Tcache)
create granted mag_size item_size =
    if leb 16 item_size && leb mag_size 64
    then (if granted
        then some (some (record { mags_allocated = pos 0; mag_size = mag_size; shared_mags = [] }))
        else some none)
    else none

-- `tcache_init_perthread`
unfoldable pub init_perthread : Tcache → Perthread
init_perthread tc = record { rounds = 0; capacity = tc.mag_size; loaded = []; previous = [] }

abbrev pub is_null : List ℕ → Bool
is_null [] = true
is_null (item ∷ items) = false

-- The lines after the label `alloc` in `__tcache_alloc`. `none` is NULL: no magazine is loaded.
unfoldable pub reload : Perthread → List ℕ → Option ℕ × Perthread
reload ltc [] = (none, record ltc { loaded = [] })
reload ltc (item ∷ items) =
    (some item, record ltc { rounds = (ltc.capacity + 2 ^ 32 - 1) % 2 ^ 32; loaded = items })

-- The operations that back a cache, on a state of theirs: `alloc` of a number of items, where `none`
-- is an error, and `free`.
module _ {S : Type 0} (ops_alloc : S → ℕ → Option (List ℕ) × S) (ops_free : S → List ℕ → S) where
  -- `tcache_alloc_mag` once the call of `alloc` has answered
  unfoldable pub chained : Tcache → Option (List ℕ) × S → Option (List ℕ) × Tcache × S
  unfolding ◌+ℤ◌
  chained tc (none, s) = (none, tc, s)
  chained tc (some items, s) =
      (some items, record tc { mags_allocated = tc.mags_allocated +ℤ pos 1 }, s)

  -- `tcache_alloc_mag`; `none` is NULL.
  unfoldable pub alloc_mag : Tcache → S → Option (List ℕ) × Tcache × S
  unfolding chained
  alloc_mag tc s = chained tc (ops_alloc s tc.mag_size)

  -- `tcache_free_mag`; `none` is the failed assertion.
  unfoldable pub free_mag : Tcache → S → List ℕ → Option (Tcache × S)
  unfolding ◌+ℤ◌
  free_mag tc s items =
      if length items == tc.mag_size
      then some (record tc { mags_allocated = tc.mags_allocated +ℤ negsuc 0 }, ops_free s items)
      else none

  -- case 3 of `__tcache_alloc`, once it has asked for a magazine
  unfoldable pub loaded_new :
      Perthread → Option (List ℕ) × Tcache × S → Option ℕ × Perthread × Tcache × S
  loaded_new ltc (none, tc, s) = (none, record ltc { loaded = [] }, tc, s)
  loaded_new ltc (some mag, tc, s) = ((reload ltc mag).0, (reload ltc mag).1, tc, s)

  -- case 3 of `__tcache_alloc`
  unfoldable pub alloc_new : Perthread → Tcache → S → Option ℕ × Perthread × Tcache × S
  unfolding loaded_new
  alloc_new ltc tc s = loaded_new ltc (alloc_mag tc s)

  -- cases 2 and 3 of `__tcache_alloc`
  unfoldable pub alloc_shared :
      Perthread → Tcache → List (List ℕ) → S → Option ℕ × Perthread × Tcache × S
  alloc_shared ltc tc [] s = alloc_new ltc tc s
  alloc_shared ltc tc (mag ∷ mags) s =
      ((reload ltc mag).0, (reload ltc mag).1, record tc { shared_mags = mags }, s)

  -- `__tcache_alloc`; the outer `none` is a failed assertion.
  unfoldable pub alloc_slow : Perthread → Tcache → S → Option (Option ℕ × Perthread × Tcache × S)
  alloc_slow ltc tc s =
      let full : Option ℕ × Perthread = reload (record ltc { previous = [] }) ltc.previous in
      if ltc.rounds == 0 && is_null ltc.loaded
      then (if not (is_null ltc.previous)
          then some (full.0, full.1, tc, s)
          else some (alloc_shared ltc tc tc.shared_mags s))
      else none

  -- the fast path, of a loaded magazine; `none` is a read through NULL.
  unfoldable pub alloc_fast : Perthread → List ℕ → Option (ℕ × Perthread)
  alloc_fast ltc [] = none
  alloc_fast ltc (item ∷ items) =
      some (item, record ltc { rounds = ltc.rounds - 1; loaded = items })

  -- `tcache_alloc`
  unfoldable pub alloc : Perthread → Tcache → S → Option (Option ℕ × Perthread × Tcache × S)
  alloc ltc tc s =
      if ltc.rounds == 0
      then alloc_slow ltc tc s
      else elim (alloc_fast ltc ltc.loaded) [ none ↦ none | some r ↦ some (some r.0, r.1, tc, s) ]

  -- `tcache_reclaim`, of the chain `mags`
  unfoldable pub reclaim_chain : Tcache → S → List (List ℕ) → Option (Tcache × S)
  reclaim_chain tc s [] = some (tc, s)
  reclaim_chain tc s (hdr ∷ next) = elim (free_mag tc s hdr) [
    | none ↦ none
    | some r ↦ reclaim_chain r.0 r.1 next
  ]

  unfoldable pub reclaim : Tcache → S → Option (Tcache × S)
  reclaim tc s = reclaim_chain (record tc { shared_mags = [] }) s tc.shared_mags

-- `__tcache_free`; `none` is a failed assertion.
unfoldable pub free_slow : Perthread → Tcache → ℕ → Option (Perthread × Tcache)
free_slow ltc tc item =
    let fresh : Perthread = record ltc { rounds = 1; loaded = item ∷ []; previous = ltc.loaded } in
    if ltc.rounds == ltc.capacity && not (is_null ltc.loaded)
    then (if is_null ltc.previous
        then some (fresh, tc)
        else some (fresh, record tc { shared_mags = ltc.previous ∷ tc.shared_mags }))
    else none

-- `tcache_free`
unfoldable pub free : Perthread → Tcache → ℕ → Option (Perthread × Tcache)
free ltc tc item =
    if leb ltc.capacity ltc.rounds
    then free_slow ltc tc item
    else some (record ltc { rounds = ltc.rounds + 1; loaded = item ∷ ltc.loaded }, tc)
