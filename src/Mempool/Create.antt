-- ===== src/Mempool/Create.antt =====
-- `mempool_create`: the items of a fresh pool.
use libut.Common.{
  ℕ, zero, suc, ◌+◌, ◌-◌, ◌*◌, ◌/◌, ◌%◌, ◌^◌, ◌≤◌, ◌<◌, ◌≡◌, refl, sym, ap, ap₂, ◌∙◌, ◌⊎◌, inl, inr,
  Bool, true, not, ◌&&◌, [], arith, ℕ_discrete, ◌==◌, if◌then◌else◌, update,
}
use native.Mathlib.Nat.{mul-le-mul_left, div-mul-le_self}
use libut.Common.Totals.{total, weight}
use libut.Mempool.{
  common_check, Mempool, einval, enomem, ok, fill_page, fill_pages, populate, create,
  is_power_of_two,
}
use libut.Mempool.Sound.{bad, IsSound}

-- item `j` of page `i`
abbrev pub item_at : ℕ → ℕ → ℕ → ℕ → ℕ → ℕ
item_at buf pgsize item_len i j = buf + pgsize * i + item_len * j

-- What the inner loop comes to.
pub record Paged (buf pgsize item_len i j left : ℕ) (m m' : Mempool) : Type 0 where
  pub size : m'.capacity ≡ m.capacity + left
  pub out : m'.allocated ≡ m.allocated
  pub before : (x : ℕ) → x < m.capacity → m'.free_items x ≡ m.free_items x
  pub added :
      (x n : ℕ)
      → x < left
      → n ≡ m.capacity + x
      → m'.free_items n ≡ item_at buf pgsize item_len i (j + x)

-- the pool with one more item
abbrev with_item : Mempool → ℕ → Mempool
with_item m item = record m {
  free_items = update m.free_items m.capacity item;
  capacity = m.capacity + 1;
}

fill_page-Paged :
    (buf pgsize item_len i j left : ℕ) (m : Mempool)
    → Paged buf pgsize item_len i j left m (fill_page buf pgsize item_len i j left m)
unfolding fill_page
fill_page-Paged buf pgsize item_len i j zero m = record {
  size = omega arith;
  out = refl;
  before = λ x h. refl;
  added = λ x n h. absurd (omega arith);
}
fill_page-Paged buf pgsize item_len i j (suc left) m =
    let r =
      fill_page-Paged buf pgsize item_len i (j + 1) left
        (with_item m (item_at buf pgsize item_len i j)) in
    record {
      size = omega (arith, r.size);
      out = r.out;
      before = λ x h. r.before x (omega arith) ∙ ground arith;
      added = λ x n h e. elim (ℕ_discrete x 0) [
        | yes first ↦
            r.before n (omega arith)
            ∙ there m n (item_at buf pgsize item_len i j) (omega arith)
            ∙ ap (item_at buf pgsize item_len i) (omega arith)
        | no later ↦
            r.added (x - 1) n (omega arith) (omega arith)
            ∙ ap (item_at buf pgsize item_len i) (omega arith)
      ];
    }
  where
    there :
        (m : Mempool) (n item : ℕ) → n ≡ m.capacity → update m.free_items m.capacity item n ≡ item
    there m n item e = ground arith

-- What both loops come to, over `left` pages from `i` on, of `ipp` items each.
pub record Filled (buf pgsize item_len ipp i left : ℕ) (m m' : Mempool) : Type 0 where
  pub size : m'.capacity ≡ m.capacity + left * ipp
  pub out : m'.allocated ≡ m.allocated
  pub before : (x : ℕ) → x < m.capacity → m'.free_items x ≡ m.free_items x
  pub added :
      (a b n : ℕ)
      → a < left
      → b < ipp
      → n ≡ m.capacity + a * ipp + b
      → m'.free_items n ≡ item_at buf pgsize item_len (i + a) b

Filled-cons :
    {buf pgsize item_len ipp i left : ℕ} {m m1 m' : Mempool}
    → Paged buf pgsize item_len i 0 ipp m m1
    → Filled buf pgsize item_len ipp (i + 1) left m1 m'
    → Filled buf pgsize item_len ipp i (suc left) m m'
Filled-cons {buf} {pgsize} {item_len} {ipp} {i} {left} {m} {m1} {m'} p r = record {
  size = omega (arith, p.size, r.size);
  out = r.out ∙ p.out;
  before = λ x h. r.before x (omega (arith, p.size)) ∙ p.before x h;
  added = added;
}
  where
    added :
        (a b n : ℕ)
        → a < suc left
        → b < ipp
        → n ≡ m.capacity + a * ipp + b
        → m'.free_items n ≡ item_at buf pgsize item_len (i + a) b
    added zero b n ha hb e =
        r.before n (omega (arith, p.size))
        ∙ p.added b n hb (omega arith)
        ∙ ap₂ (item_at buf pgsize item_len) (omega arith) (omega arith)
    added (suc a) b n ha hb e =
        r.added a b n (omega arith) hb (omega (arith, p.size))
        ∙ ap (λ (x : ℕ). item_at buf pgsize item_len x b) (omega arith)

fill_pages-Filled :
    (buf pgsize item_len i left : ℕ) (m : Mempool)
    → Filled buf pgsize item_len
        (pgsize / item_len)
        i
        left
        m
        (fill_pages buf pgsize item_len i left m)
unfolding fill_pages
fill_pages-Filled buf pgsize item_len i zero m = record {
  size = omega arith;
  out = refl;
  before = λ x h. refl;
  added = λ a b n h. absurd (omega arith);
}
fill_pages-Filled buf pgsize item_len i (suc left) m =
    Filled-cons (fill_page-Paged buf pgsize item_len i 0 (pgsize / item_len) m) (
      fill_pages-Filled buf pgsize item_len (i + 1) left
        (fill_page buf pgsize item_len i 0 (pgsize / item_len) m))

-- the number of items in a buffer
abbrev pub items_in : ℕ → ℕ → ℕ → ℕ
items_in len pgsize item_len = len / pgsize * (pgsize / item_len)

abbrev pub accepts : ℕ → ℕ → ℕ → Bool
accepts len pgsize item_len = not (item_len == 0) && (is_power_of_two pgsize && (len % pgsize == 0))

-- the pool that the loops start from
abbrev cleared : Mempool → ℕ → ℕ → ℕ → ℕ → Mempool
cleared m buf len pgsize item_len = record m {
  allocated = 0;
  buf = buf;
  len = len;
  pgsize = pgsize;
  item_len = item_len;
  free_items = λ i. 0;
}

module _ (m : Mempool) (buf len pgsize item_len : ℕ) where
  abbrev pub made : Mempool
  made = fill_pages buf pgsize item_len 0 (len / pgsize) (cleared m buf len pgsize item_len)

  -- `mempool_create` refuses a zero item size, a page size that is no power of two, and a length that is
  -- no multiple of it. If not, and `calloc` finds no memory, it fails; else it starts from whatever
  -- capacity the structure held before.
  pub mempool_create_lem :
      (granted : Bool)
      → create granted m buf len pgsize item_len
        ≡ (if accepts len pgsize item_len then (if granted then ok made else enomem) else einval)
  unfolding create populate
  mempool_create_lem granted = ground arith

  filled :
      Filled buf pgsize item_len
        (pgsize / item_len)
        0
        (len / pgsize)
        (cleared m buf len pgsize item_len)
        made
  filled =
      fill_pages-Filled buf pgsize item_len 0 (len / pgsize) (cleared m buf len pgsize item_len)

  -- A second create of a pool adds its items to the capacity that the pool had, beyond the
  -- `items_in len pgsize item_len` slots that `calloc` was asked for.
  pub create_again :
      accepts len pgsize item_len ≡ true
      → 0 < m.capacity
      → (m' : Mempool) × (create true m buf len pgsize item_len ≡ ok m')
        × (items_in len pgsize item_len < m'.capacity)
  create_again good used =
      (made, mempool_create_lem true ∙ rw good refl, omega (arith, filled.size))

  -- A create over a zeroed structure leaves every item free: as many as whole items fit in each page,
  -- item `b` of page `a` at its place. The pool is sound if the debug checks accept all items.
  pub create_fresh :
      accepts len pgsize item_len ≡ true
      → m.capacity ≡ 0
      → items_in len pgsize item_len < 2 ^ 64
      → total (bad made) made.free_items (items_in len pgsize item_len) ≡ 0
      → (m' : Mempool) × (create true m buf len pgsize item_len ≡ ok m')
        × (m'.capacity ≡ items_in len pgsize item_len)
        × IsSound m'.free_items (items_in len pgsize item_len) m' []
        × ((a b : ℕ)
            → a < len / pgsize
            → b < pgsize / item_len
            → m'.free_items (a * (pgsize / item_len) + b) ≡ item_at buf pgsize item_len a b)
  unfolding weight total
  create_fresh good zeroed small checks = (
    made,
    mempool_create_lem true ∙ rw good refl,
    size,
    record {
      size = size;
      small = omega (arith, size);
      out = sym filled.out;
      within = omega (arith, filled.out);
      checked = ap (total (bad made) made.free_items) size ∙ checks;
      conserved = λ w.
          omega (arith, ap (total w made.free_items) size, ap (total w made.free_items) filled.out);
    },
    λ a b ha hb.
        filled.added a b _ ha hb (omega (arith, zeroed))
        ∙ ap (λ (x : ℕ). item_at buf pgsize item_len x b) (omega arith),
  )
    where
      size : made.capacity ≡ items_in len pgsize item_len
      size = omega (arith, filled.size, zeroed)

-- Every item lies in its page, and in the buffer.
pub item_inside :
    (buf len pgsize item_len a b : ℕ)
    → 0 < item_len
    → a < len / pgsize
    → b < pgsize / item_len
    → (buf + pgsize * a ≤ item_at buf pgsize item_len a b)
      × (item_at buf pgsize item_len a b + item_len ≤ buf + pgsize * a + pgsize)
      × (buf + pgsize * a + pgsize ≤ buf + len)
item_inside buf len pgsize item_len a b pos ha hb = (
  omega arith,
  omega (
    arith,
    mul-le-mul_left {m = b + 1} {n = pgsize / item_len} item_len (omega arith),
    div-mul-le_self pgsize item_len,
  ),
  omega (
    arith,
    mul-le-mul_left {m = a + 1} {n = len / pgsize} pgsize (omega arith),
    div-mul-le_self len pgsize,
  ),
)

-- The items of a pool do not overlap, and none straddles a page: each lies in its page, and in the
-- buffer, and ends before any later one begins.
pub items_apart :
    (buf len pgsize item_len a b a' b' : ℕ)
    → 0 < item_len
    → a < len / pgsize
    → b < pgsize / item_len
    → (a < a') ⊎ ((a ≡ a') × (b < b'))
    → (buf + pgsize * a ≤ item_at buf pgsize item_len a b)
      × (item_at buf pgsize item_len a b + item_len ≤ buf + pgsize * (a + 1))
      × (buf + pgsize * (a + 1) ≤ buf + len)
      × (item_at buf pgsize item_len a b + item_len ≤ item_at buf pgsize item_len a' b')
items_apart buf len pgsize item_len a b a' b' pos ha hb later =
    let (low, high, in_buf) = item_inside buf len pgsize item_len a b pos ha hb in
    (
      low,
      omega (arith, high),
      omega (arith, in_buf),
      elim later [
        | inl lt ↦ omega (arith, high, mul-le-mul_left {m = a + 1} {n = a'} pgsize (omega arith))
        | inr (same, lt) ↦ omega (
          arith,
          ap (λ (x : ℕ). pgsize * x) same,
          mul-le-mul_left {m = b + 1} {n = b'} item_len (omega arith),
        )
      ],
    )

-- Within the buffer, the debug check does not look at the place of an item.
check_ignores_place :
    (m : Mempool) (item item' : ℕ)
    → m.buf ≤ item
    → item < m.buf + m.len
    → m.buf ≤ item'
    → item' < m.buf + m.len
    → common_check m item ≡ common_check m item'
unfolding common_check
check_ignores_place m item item' low high low' high' = ground arith
