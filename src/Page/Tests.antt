-- ===== src/Page/Tests.antt =====
-- Runs of the page addresses and of the allocator of large pages.
use libut.Common.{
  ℕ, ◌+◌, ◌^◌, ◌≡◌, refl, true, false, Option, none, some, List, [], ◌∷◌, arith, ◌==◌,
  if◌then◌else◌,
}
use libut.Common.Totals.{weight}
use libut.Page.{
  Page, LgpageNode, created, destroyed, addr_to_page, page_check, pgsize_2mb, pgsize_4kb,
  page_to_addr, is_page_addr, addr_to_numa_node, lgpage_alloc_on_node, alloc_next, alloc_at,
}
use libut.Page.Address.{lgpage, smpage, lgpage_round_trip, smpage_round_trip}
use libut.Page.Alloc.{IsNode, Allocated, lgpage_alloc_lem}

abbrev all_large : ℕ → Page
all_large p = created

lgpage_round_trip_example :
    (addr_to_page 4096 all_large (page_to_addr 4096 all_large (lgpage 4096 40000) + 77)
      ≡ some (lgpage 4096 40000))
    × (is_page_addr (page_to_addr 4096 all_large (lgpage 4096 40000) + 77) ≡ true)
    × (addr_to_numa_node (page_to_addr 4096 all_large (lgpage 4096 40000) + 77) ≡ 1)
    × (page_check 4096 all_large (lgpage 4096 40000) pgsize_2mb ≡ true)
lgpage_round_trip_example =
    lgpage_round_trip 4096 40000 77 all_large (omega arith) (omega arith) (omega arith) refl refl

-- large page 5 is split
abbrev one_split : ℕ → Page
one_split p =
    if p == lgpage 4096 5
    then record { large = true; in_use = true; shattered = true }
    else record { large = false; in_use = true; shattered = false }

smpage_round_trip_example :
    (addr_to_page 4096 one_split (page_to_addr 4096 one_split (smpage (2 ^ 23 + 5) 300) + 9)
      ≡ some (smpage (2 ^ 23 + 5) 300))
    × (page_check 4096 one_split (smpage (2 ^ 23 + 5) 300) pgsize_4kb ≡ true)
smpage_round_trip_example =
    smpage_round_trip 4096 5 300 9 one_split (omega arith) (omega arith) (omega arith) (omega arith)
      refl refl refl refl

-- page 0 is in use, page 1 has been freed, and page 2 is new
abbrev some_node : LgpageNode
some_node = record { idx = 2; pages = 1 ∷ []; tbl = λ p. if p == 0 then created else destroyed }

some_node-IsNode : IsNode some_node
unfolding weight
some_node-IsNode = record { bounded = omega arith; apart = λ p. ground arith }

lgpage_alloc_lem_example :
    (out : Option ℕ) × (after : LgpageNode) × (lgpage_alloc_on_node true some_node
      ≡ some (out, after))
    × IsNode after
    × Allocated true some_node after out
lgpage_alloc_lem_example = lgpage_alloc_lem true some_node some_node-IsNode

abbrev left_over : Option (Option ℕ × LgpageNode) → Option (Option ℕ × List ℕ)
left_over none = none
left_over (some (out, node)) = some (out, node.pages)

-- A page that the system does not map is lost: its descriptor has left the list, and is not in use.
lost_page : left_over (lgpage_alloc_on_node false some_node) ≡ some (none, [])
unfolding lgpage_alloc_on_node alloc_next alloc_at
lost_page = refl
