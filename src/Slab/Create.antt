-- ===== src/Slab/Create.antt =====
-- `slab_create`: the size of items, the kind of pages, and a node without pages.
use libut.Common.{
  ℕ, ◌+◌, ◌-◌, ◌*◌, ◌/◌, ◌%◌, ◌^◌, ◌≤◌, ◌<◌, ◌≡◌, refl, Bool, true, false, ◌||◌, [], arith, dec_lt,
  ltb, if◌then◌else◌, subst,
}
use libut.Common.Words.{align_up}
use libut.Common.Rounding.{align_up_line}
use libut.Common.Totals.{weight}
use libut.Page.{pgsize_4kb, pgsize_2mb}
use native.Mathlib.Nat.{div-mul-le_self, le-div_iff_mul-le}
use libut.Slab.{
  Result, e2big, enomem, ok, SlabNode, SlabPage, create_node, slab_4kb_limit, slab_2mb_limit,
  slab_create,
}
use libut.Slab.Inv.{IsSlab}

module _ (base page_of : ℕ → ℕ) (page : ℕ → SlabPage) where
  empty-IsSlab :
      (size : ℕ) (large : Bool) (nr_elems : ℕ)
      → 0 < size
      → 0 < nr_elems
      → nr_elems * size ≤ (if large then pgsize_2mb else pgsize_4kb)
      → IsSlab base page_of [] (create_node size 0 large nr_elems page)
  unfolding weight
  empty-IsSlab size large nr_elems pos some_elems fits = record {
    sized = pos;
    filled = some_elems;
    fits = omega (arith, fits);
    apart = λ pg. omega arith;
    shares = λ pg. refl;
    current = λ pg h. absurd (cc);
    listed = λ pg h. absurd (omega (arith, h));
    partial = λ pg h. absurd (omega (arith, h));
    chained = λ pg a h h'. absurd (omega (arith, h));
    once = λ a. omega arith;
  }

-- What asking for a slab comes to, for items of `size` bytes.
pub data Created (base page_of : ℕ → ℕ) (granted : Bool) (size : ℕ) (large : Bool)
    : Result → Type 0 where
  too_big : slab_2mb_limit < size → Created base page_of granted size large e2big
  no_memory :
      size ≤ slab_2mb_limit → granted ≡ false → Created base page_of granted size large enomem
  made :
      (n : SlabNode)
      → granted ≡ true
      → size ≤ n.size
      → n.size < size + 64
      → n.size % 64 ≡ 0
      → 8 ≤ n.nr_elems
      → n.large ≡ (large || ltb slab_4kb_limit size)
      → IsSlab base page_of [] n
      → Created base page_of granted size large (ok n)

module _ (base page_of : ℕ → ℕ) (page : ℕ → SlabPage) (size : ℕ) (some_size : 0 < size) where
  abbrev whole : ℕ
  whole = (size + 63) / 64 * 64

  made_lem :
      size ≤ slab_2mb_limit
      → (large lg : Bool) → lg ≡ (large || ltb slab_4kb_limit size)
      → Created base page_of true size large
          (ok (create_node whole 0 lg ((if lg then pgsize_2mb else pgsize_4kb) / whole) page))
  made_lem small large lg e = made _ refl (omega arith) (omega arith) (omega arith) many e (
      empty-IsSlab base page_of page whole lg _ (omega arith) (omega (arith, many))
        (div-mul-le_self (if lg then pgsize_2mb else pgsize_4kb) whole))
    where
      eight : 8 * ((size + 63) / 64 * 64) ≤ (if lg then pgsize_2mb else pgsize_4kb)
      eight = ground (arith, e, small)

      many : 8 ≤ (if lg then pgsize_2mb else pgsize_4kb) / ((size + 63) / 64 * 64)
      many =
          (le-div_iff_mul-le {k = (size + 63) / 64 * 64} {x = 8}
              {y = if lg then pgsize_2mb else pgsize_4kb} (omega arith)).1
            eight

  -- For items of at least one byte, and at most 2^64 - 64: a slab is refused as too big exactly for items
  -- above an eighth of a large page, and otherwise if there is no memory for its node. Else the size of its items is
  -- the next multiple of 64 from the size that was asked for, a page holds at least 8 of them, the pages are large
  -- ones if they were asked for or the items need it, and the node is sound: nothing is handed out.
  pub slab_create_lem :
      size ≤ 2 ^ 64 - 64
      → (granted large : Bool)
      → Created base page_of granted size large (slab_create granted size large page)
  unfolding slab_create
  slab_create_lem word granted large = elim (dec_lt slab_2mb_limit size) [
    | yes big ↦
        subst (Created base page_of granted size large) (ground (arith, big, line)) (too_big big)
    | no fits ↦
        subst (Created base page_of granted size large) (ground (arith, fits, line))
          (node_lem granted (omega (arith, fits)))
  ]
    where
      node_lem :
          (b : Bool)
          → size ≤ slab_2mb_limit
          → Created base page_of b size large (
              if b
              then ok (
                  create_node whole 0
                    (large || ltb slab_4kb_limit size)
                    ((if large || ltb slab_4kb_limit size then pgsize_2mb else pgsize_4kb) / whole)
                    page)
              else enomem)
      node_lem true small = made_lem small large (large || ltb slab_4kb_limit size) refl
      node_lem false small = no_memory small refl

      line : align_up size 64 ≡ (size + 63) / 64 * 64
      line = align_up_line size some_size word
