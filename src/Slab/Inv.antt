-- ===== src/Slab/Inv.antt =====
-- Where the items of a slab are: handed out, free, or not yet carved.
use libut.Common.{ℕ, ◌+◌, ◌*◌, ◌≤◌, ◌<◌, ◌≡◌, true, List, ◌==◌, if◌then◌else◌, length}
use libut.Common.Counts.{times}
use libut.Common.Totals.{weight}
use libut.Slab.{SlabNode, page_limit, is_current}

abbrev pub in_page : (ℕ → ℕ) → ℕ → ℕ → ℕ
in_page page_of pg item = if page_of item == pg then 1 else 0

-- how many of the items that are handed out belong to a page
abbrev pub out_of : (ℕ → ℕ) → ℕ → List ℕ → ℕ
out_of page_of pg = weight (in_page page_of pg)

-- in how many places of the node a page is
abbrev pub places : SlabNode → ℕ → ℕ
places n pg =
    (if is_current pg n.cur_pg then 1 else 0) + (times pg n.partial_list + times pg n.full_list)

-- `held` are the items that are handed out, `page_of` finds the page of an item.
module _ (base page_of : ℕ → ℕ) (held : List ℕ) where
  -- Of the items of the current page, `rem` are not yet carved: they stand from `pg_off` on, and are
  -- neither handed out nor free.
  pub record IsCurrent (n : SlabNode) (pg : ℕ) : Type 0 where
    pub rem : ℕ
    pub counted : (n.page pg).item_count ≡ length (n.page pg).next + rem
    pub room : 0 < rem → n.pg_off + rem * n.size ≡ n.offset + n.nr_elems * n.size
    pub unseen :
        0 < rem
        → (a : ℕ) → page_of a ≡ pg
        → base pg + n.pg_off ≤ a
        → times a held + times a (n.page pg).next ≡ 0

  -- A page is in one place at most; what it has handed out and what it has left make up its items; an item
  -- is handed out once, or in the chain of its page once, or neither.
  pub record IsSlab (n : SlabNode) : Type 0 where
    pub sized : 0 < n.size
    pub filled : 0 < n.nr_elems
    pub fits : n.offset + n.nr_elems * n.size ≤ page_limit n
    pub apart : (pg : ℕ) → places n pg ≤ 1
    pub shares :
        (pg : ℕ)
        → out_of page_of pg held + (if places n pg == 0 then 0 else (n.page pg).item_count)
          ≡ (if places n pg == 0 then 0 else n.nr_elems)
    pub current : (pg : ℕ) → is_current pg n.cur_pg ≡ true → IsCurrent n pg
    pub listed :
        (pg : ℕ)
        → 0 < times pg n.partial_list + times pg n.full_list
        → (n.page pg).item_count ≡ length (n.page pg).next
    pub partial : (pg : ℕ) → 0 < times pg n.partial_list → 0 < (n.page pg).item_count
    pub chained : (pg a : ℕ) → 0 < places n pg → 0 < times a (n.page pg).next → page_of a ≡ pg
    pub once :
        (a : ℕ)
        → times a held
            + (if places n (page_of a) == 0 then 0 else times a (n.page (page_of a)).next)
          ≤ 1
