-- ===== src/Mempool/Sound.antt =====
-- Whoever allocates and frees: every item of the pool is free or handed out, and never both.
use libut.Common.{
  if◌then◌else◌, true, ℕ, zero, suc, ◌+◌, ◌-◌, ◌%◌, ◌^◌, ◌≤◌, ◌<◌, ◌≡◌, refl, sym, ap, ◌∙◌, ◌⊎◌,
  inl, inr, false, Option, none, some, List, [], ◌∷◌, ◌++◌, append-nil, append_assoc, arith, dec_lt,
  leb, length, update, length-append,
}
use mathlib.Core.Path.{subst}
use libut.Common.Totals.{total, total-suc, total-update, total-ext, weight, weight-append}
use libut.Mempool.{Mempool, common_check, alloc, free, tcache_free, tcache_alloc}
use libut.Sync.Ready.{Without, here, later, length-Without}

weight-Without :
    (w : ℕ → ℕ) {x : ℕ} {xs ys : List ℕ} → Without x xs ys → weight w xs ≡ w x + weight w ys
unfolding weight
weight-Without w (here xs) = refl
weight-Without w (later x o) = omega (arith, weight-Without w o)

weight-cons : (w : ℕ → ℕ) (x : ℕ) (xs : List ℕ) → weight w (x ∷ xs) ≡ w x + weight w xs
unfolding weight
weight-cons w x xs = refl

-- an item that the debug checks refuse
abbrev pub bad : Mempool → ℕ → ℕ
bad m item = if common_check m item then 0 else 1

total_mono : (w : ℕ → ℕ) (f : ℕ → ℕ) (a b : ℕ) → a ≤ b → total w f a ≤ total w f b
unfolding total
total_mono w f a zero h = omega (arith, ap (total w f) (below a h))
  where
    below : (a : ℕ) → a ≤ 0 → a ≡ 0
    below a h = omega arith
total_mono w f a (suc b) h = elim (dec_lt b a) [
  | yes last ↦ omega (arith, ap (total w f) (same last))
  | no before ↦ omega (arith, total_mono w f a b (omega (arith, before)))
]
  where
    same : b < a → a ≡ suc b
    same last = omega (arith, h, last)

-- `owned` are the items of the pool `items` that are handed out. The debug checks accept all items.
pub record IsSound (items : ℕ → ℕ) (cap : ℕ) (m : Mempool) (owned : List ℕ) : Type 0 where
  pub size : m.capacity ≡ cap
  pub small : m.capacity < 2 ^ 64
  pub out : length owned ≡ m.allocated
  pub within : m.allocated ≤ m.capacity
  pub checked : total (bad m) items m.capacity ≡ 0
  pub conserved :
      (w : ℕ → ℕ)
      → total w m.free_items m.capacity + weight w owned
        ≡ total w items m.capacity + total w m.free_items m.allocated

module _ {items : ℕ → ℕ} {cap : ℕ} {m : Mempool} {owned : List ℕ}
    (v : IsSound items cap m owned) where
  taken :
      m.allocated < m.capacity
      → IsSound items cap
          (record m { allocated = m.allocated + 1 })
          (m.free_items m.allocated ∷ owned)
  taken room = record {
    size = v.size;
    small = v.small;
    out = omega (arith, v.out);
    within = omega arith;
    checked = v.checked;
    conserved = λ w. omega (
      arith,
      v.conserved w,
      total-suc w m.free_items m.allocated,
      weight-cons w (m.free_items m.allocated) owned,
    );
  }

  -- The debug checks accept the next free item, and those that are handed out.
  next_checked : m.allocated < m.capacity → common_check m (m.free_items m.allocated) ≡ true
  next_checked room = ground (
    arith,
    v.checked,
    v.conserved (bad m),
    total-suc (bad m) m.free_items m.allocated,
    total_mono (bad m) m.free_items (m.allocated + 1) m.capacity (omega (arith, room)),
  )

  owned_checked : (item : ℕ) (rest : List ℕ) → Without item owned rest → common_check m item ≡ true
  owned_checked item rest o = ground (
    arith,
    v.checked,
    v.conserved (bad m),
    weight-Without (bad m) o,
    total_mono (bad m) m.free_items m.allocated m.capacity v.within,
  )

  ltb_room : m.allocated < m.capacity → leb m.capacity m.allocated ≡ false
  ltb_room room = ground arith

  -- the pool that a free of `item` leaves
  abbrev returned : ℕ → Mempool
  returned item = record m {
    allocated = m.allocated - 1;
    free_items = update m.free_items (m.allocated - 1) item;
  }

  returned-IsSound :
      (item : ℕ) (rest : List ℕ) → Without item owned rest → IsSound items cap (returned item) rest
  returned-IsSound item rest o = record {
    size = v.size;
    small = v.small;
    out = omega (arith, v.out, length-Without o);
    within = omega (arith, v.within);
    checked = v.checked;
    conserved = λ w. omega (
      arith,
      v.conserved w,
      weight-Without w o,
      total-update w m.capacity m.free_items (m.allocated - 1) item
          (omega (arith, v.out, v.within, length-Without o)),
      total-ext w (m.allocated - 1) (returned item).free_items m.free_items (λ i lt. ground arith),
      total-suc w m.free_items (m.allocated - 1),
      ap (total w m.free_items) back,
    );
  }
    where
      back : m.allocated - 1 + 1 ≡ m.allocated
      back = omega (arith, v.out, length-Without o)

  -- An allocation fails exactly when every item is handed out; if not, it hands out one more.
  pub mempool_alloc_lem :
      ((alloc m ≡ some (none, m)) × (length owned ≡ cap))
      ⊎ ((item : ℕ) × (m' : Mempool) × (alloc m ≡ some (some item, m'))
          × (length owned < cap)
          × IsSound items cap m' (item ∷ owned))
  unfolding alloc
  mempool_alloc_lem = elim (dec_lt m.allocated m.capacity) [
    | yes room ↦ inr (
      m.free_items m.allocated,
      record m { allocated = m.allocated + 1 },
      rw (ltb_room room, next_checked room) refl,
      omega (arith, v.out, v.size),
      taken room,
    )
    | no full ↦ inl (ground (arith, full), omega (arith, v.out, v.within, v.size))
  ]

  -- A free of an item that is handed out fails no assertion and takes it back.
  pub mempool_free_lem :
      (item : ℕ) (rest : List ℕ)
      → Without item owned rest
      → (m' : Mempool) × (free m item ≡ some m') × IsSound items cap m' rest
  unfolding free
  mempool_free_lem item rest o = (
    returned item,
    rw (owned_checked item rest o, wrap) (ground (arith, v.within)),
    returned-IsSound item rest o,
  )
    where
      wrap : (m.allocated + 2 ^ 64 - 1) % 2 ^ 64 ≡ m.allocated - 1
      wrap = omega (arith, v.small, v.within, v.out, length-Without o)

-- Only the number of the items that are handed out counts, and how often each is among them.
pub IsSound-reorder :
    {items : ℕ → ℕ} {cap : ℕ} {m : Mempool} {xs ys : List ℕ}
    → IsSound items cap m xs
    → length ys ≡ length xs
    → ((w : ℕ → ℕ) → weight w ys ≡ weight w xs)
    → IsSound items cap m ys
IsSound-reorder v l e = record {
  size = v.size;
  small = v.small;
  out = l ∙ v.out;
  within = v.within;
  checked = v.checked;
  conserved = λ w. omega (arith, v.conserved w, e w);
}

-- A free of a list of items that are handed out fails no assertion and takes them all back.
pub tcache_free_lem :
    {items : ℕ → ℕ} {cap : ℕ} (got : List ℕ) {m : Mempool} {owned : List ℕ}
    → IsSound items cap m (got ++ owned)
    → (m' : Mempool) × (tcache_free m got ≡ some m') × IsSound items cap m' owned
unfolding tcache_free
tcache_free_lem [] {m} v = (m, refl, v)
tcache_free_lem (item ∷ got) {m} {owned} v =
    let (m1, e1, v1) = mempool_free_lem v item (got ++ owned) (here (got ++ owned)) in
    let (m2, e2, v2) = tcache_free_lem got {m = m1} v1 in (m2, rw (e1, tcache_free) e2, v2)

-- What `mempool_tcache_alloc` comes to: `nr` more items, or fewer than that were left.
pub data Fetched (items : ℕ → ℕ) (cap nr : ℕ) (got owned : List ℕ) (m : Mempool)
    : Option (List ℕ) → Type 0 where
  filled :
      (new : List ℕ)
      → length new ≡ nr
      → IsSound items cap m (got ++ (new ++ owned))
      → Fetched items cap nr got owned m (some (got ++ new))
  too_few :
      cap < nr + length got + length owned
      → IsSound items cap m owned
      → Fetched items cap nr got owned m none

snoc-IsSound :
    {items : ℕ → ℕ} {cap : ℕ} {m : Mempool} (x : ℕ) (got owned : List ℕ)
    → IsSound items cap m (x ∷ (got ++ owned))
    → IsSound items cap m ((got ++ x ∷ []) ++ owned)
unfolding weight
snoc-IsSound x got owned v =
    IsSound-reorder v
      (omega (
        arith,
        length-append (got ++ x ∷ []) owned,
        length-append got (x ∷ []),
        length-append got owned,
      ))
      (λ w. omega (
        arith,
        weight-append w (got ++ x ∷ []) owned,
        weight-append w got (x ∷ []),
        weight-append w got owned,
      ))

Fetched-next :
    {items : ℕ → ℕ} {cap nr : ℕ} (x : ℕ) (got owned : List ℕ) {m : Mempool} {o : Option (List ℕ)}
    → Fetched items cap nr (got ++ x ∷ []) owned m o
    → Fetched items cap (suc nr) got owned m o
Fetched-next {items} {cap} {nr} x got owned {m} (filled new l v) =
    subst (λ (xs : List ℕ). Fetched items cap (suc nr) got owned m (some xs))
      (sym (append_assoc got (x ∷ []) new))
      (filled (x ∷ new) (ap suc l)
        (subst (IsSound items cap m) (append_assoc got (x ∷ []) (new ++ owned)) v))
Fetched-next x got owned (too_few h v) = too_few (omega (arith, h, length-append got (x ∷ []))) v

tcache_alloc-none :
    (nr : ℕ) (m : Mempool) (got : List ℕ) (m' : Mempool)
    → alloc m ≡ some (none, m)
    → tcache_free m got ≡ some m'
    → tcache_alloc m got (suc nr) ≡ some (none, m')
unfolding tcache_alloc
tcache_alloc-none nr m got m' e freed = rw (e, freed, tcache_alloc) refl

tcache_alloc-some :
    (nr : ℕ) (m m' : Mempool) (got : List ℕ) (x : ℕ)
    → alloc m ≡ some (some x, m')
    → tcache_alloc m got (suc nr) ≡ tcache_alloc m' (got ++ x ∷ []) nr
unfolding tcache_alloc
tcache_alloc-some nr m m' got x e = rw (e, tcache_alloc) refl

-- Filling a magazine from a pool whose items lie in its buffer, which is aligned, trips no assertion. It takes the items asked for, all of them free before, or, if
-- fewer were left, it fails and hands out none.
pub tcache_alloc_lem :
    {items : ℕ → ℕ} {cap : ℕ} (nr : ℕ) {m : Mempool} (got owned : List ℕ)
    → IsSound items cap m (got ++ owned)
    → (o : Option (List ℕ)) × (m' : Mempool) × (tcache_alloc m got nr ≡ some (o, m'))
      × Fetched items cap nr got owned m' o
unfolding tcache_alloc
tcache_alloc_lem {items} {cap} zero {m} got owned v = (
  some got,
  m,
  refl,
  subst (λ (xs : List ℕ). Fetched items cap 0 got owned m (some xs)) (append-nil got)
      (filled [] refl v),
)
tcache_alloc_lem (suc nr) {m} got owned v = elim (mempool_alloc_lem v) [
  | inl (e, full) ↦
      let (m', freed, v') = tcache_free_lem got v in
      (
        none,
        m',
        tcache_alloc-none nr m got m' e freed,
        too_few (omega (arith, full, length-append got owned)) v',
      )
  | inr (x, m1, e, room, v') ↦
      let (o, m', r, f) = tcache_alloc_lem nr (got ++ x ∷ []) owned (snoc-IsSound x got owned v') in
      (o, m', tcache_alloc-some nr m m1 got x e ∙ r, Fetched-next x got owned f)
]
