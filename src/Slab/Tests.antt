-- ===== src/Slab/Tests.antt =====
-- Runs of a slab.
use libut.Common.{
  true, ℕ, ◌+◌, ◌*◌, ◌/◌, ◌^◌, ◌<◌, ◌≡◌, refl, false, Option, none, some, List, [], ◌∷◌, arith,
  ◌==◌, if◌then◌else◌,
}
use libut.Common.Totals.{weight}
use libut.Slab.{
  slab_create, page_limit, SlabNode, node_alloc, slab_node_free, alloc_from, alloc_new, take_new,
  get_page, take_item,
}
use libut.Slab.Inv.{IsSlab}
use libut.Slab.Alloc.{Allocated, node_alloc_lem}
use libut.Slab.Create.{Created, slab_create_lem}
use libut.Slab.Free.{Freed, slab_node_free_lem}

-- page `pg` of 4 KB starts at address `pg * 4096`
abbrev base : ℕ → ℕ
base pg = pg * 2 ^ 12

abbrev page_of : ℕ → ℕ
page_of item = item / 2 ^ 12

-- Page 3 is current: its first item is handed out, its second one is free, the other six are not carved.
abbrev sample : SlabNode
sample = record {
  size = 512;
  offset = 0;
  large = false;
  nr_elems = 8;
  pg_off = 1024;
  cur_pg = some 3;
  full_list = [];
  partial_list = [];
  nr_pages = 1;
  page = λ q. record { item_count = 7; next = (base 3 + 512) ∷ [] };
}

abbrev held : List ℕ
held = base 3 ∷ []

aligned : (pg off : ℕ) → off < page_limit sample → page_of (base pg + off) ≡ pg
aligned pg off h = omega (arith, h)

slab_create_lem_example :
    Created base page_of true 100 false
      (slab_create true 100 false (λ q. record { item_count = 0; next = [] }))
slab_create_lem_example =
    slab_create_lem base page_of (λ q. record { item_count = 0; next = [] }) 100 (omega arith)
      (omega arith) true false

sample-IsSlab : IsSlab base page_of held sample
unfolding weight
sample-IsSlab = record {
  sized = omega arith;
  filled = omega arith;
  fits = omega arith;
  apart = λ pg. ground arith;
  shares = λ pg. ground arith;
  current = λ pg h. record {
    rem = 6;
    counted = refl;
    room = λ h'. refl;
    unseen = λ h' a at_page above. ground (arith, h, at_page, above);
  };
  listed = λ pg h. absurd (omega (arith, h));
  partial = λ pg h. omega arith;
  chained = λ pg a h h'. ground (arith, h, h');
  once = λ a. ground arith;
}

node_alloc_lem_example :
    (o : Option ℕ) × (v : SlabNode) × (node_alloc base none sample ≡ some (o, v))
    × Allocated base page_of held none sample v o
node_alloc_lem_example =
    node_alloc_lem base page_of held none sample aligned sample-IsSlab (λ pg e. absurd (cc))

slab_node_free_lem_example : Freed base page_of [] (slab_node_free 3 (base 3) sample)
slab_node_free_lem_example =
    slab_node_free_lem base page_of held sample sample-IsSlab (base 3) (omega arith)

-- A page that is reused counts again: page 3 is full, page 5 has free items, and there are 2 pages.
abbrev reused : SlabNode
reused = record sample {
  partial_list = 5 ∷ [];
  nr_pages = 2;
  page = λ q. if q == 3 then record { item_count = 0; next = [] } else record {
    item_count = 4;
    next = base 5 ∷ (base 5 + 512) ∷ (base 5 + 1024) ∷ (base 5 + 1536) ∷ [];
  };
}

abbrev pages_of : Option (Option ℕ × SlabNode) → ℕ
pages_of none = 0
pages_of (some (o, v)) = v.nr_pages

counted_again : pages_of (node_alloc base none reused) ≡ 3
unfolding node_alloc alloc_from alloc_new take_new get_page take_item
counted_again = refl
