-- ===== src/Page.antt =====
-- inc/base/page.h and base/page.c: the addresses of pages and of their descriptors, and the allocator of
-- large pages.
pub mod Address
pub mod Alloc
mod Tests
use libut.Common.{
  ℕ, zero, suc, ◌+◌, ◌-◌, ◌*◌, ◌/◌, ◌%◌, ◌^◌, ◌≤◌, ◌<◌, min, max, bit_and, bit_or, ◌≡◌, refl, sym,
  ap, ap₂, ◌∙◌, fun_ext, ◌≢◌, ◌↔◌, ◌⊎◌, inl, inr, Bool, true, false, not, ◌&&◌, ◌||◌, Option, none,
  some, List, [], ◌∷◌, ◌++◌, map, append-nil, append_assoc, arith, dec_lt, ℕ_discrete, ltb, leb,
  ◌==◌, if◌then◌else◌, ltb→lt, lt→ltb, leb→le, ==_iff, Bool-cases, Option-cases, ◌>>=◌, >>=-some,
  length, get_elem?, take, drop, update, slice, length-append, length-slice, update_self, update_ne,
  get_elem?-snoc, length-take, take_all, get_elem?-append_some, update-field, update-all,
  take-append-drop, ◌≡⟨◌⟩◌, ◌∎,
}
use libut.Common.Words.{add64, sub64, not64}

-- `PGSIZE_4KB` and `PGSIZE_2MB`
abbrev pub pgsize_4kb : ℕ
pgsize_4kb = 2 ^ 12

abbrev pub pgsize_2mb : ℕ
pgsize_2mb = 2 ^ 21

-- `sizeof(struct page)` on a 64-bit machine
abbrev pub page_len : ℕ
page_len = 64

-- `NNUMA`
abbrev pub nnuma : ℕ
nnuma = 4

-- `LGPAGE_META_ENTS`
abbrev pub lgpage_meta_ents : ℕ
lgpage_meta_ents = pgsize_2mb / page_len

-- `LGPAGE_NODE_ADDR_LEN`
abbrev pub lgpage_node_addr_len : ℕ
lgpage_node_addr_len = lgpage_meta_ents * pgsize_2mb

-- `PAGE_BASE_ADDR` and `PAGE_END_ADDR`
abbrev pub page_base_addr : ℕ
page_base_addr = 0x1000_0000_0000

abbrev pub page_end_addr : ℕ
page_end_addr = page_base_addr + lgpage_meta_ents * pgsize_2mb * nnuma

unfoldable pub is_page_addr : ℕ → Bool
is_page_addr addr = leb page_base_addr addr && ltb addr page_end_addr

-- as an `unsigned int`
unfoldable pub addr_to_numa_node : ℕ → ℕ
addr_to_numa_node addr = sub64 addr page_base_addr / lgpage_node_addr_len % 2 ^ 32

-- `PGADDR_2MB`
abbrev pub pgaddr_2mb : ℕ → ℕ
pgaddr_2mb la = bit_and la (not64 (pgsize_2mb - 1))

-- `LGPGN` and `PGN`
abbrev pub lgpgn : ℕ → ℕ
lgpgn addr = sub64 addr page_base_addr / pgsize_2mb

abbrev pub pgn : ℕ → ℕ
pgn addr = sub64 addr (pgaddr_2mb addr) / pgsize_4kb

-- Descriptors are addresses; those of large pages stand in an array at `page_tbl`.
module _ (page_tbl : ℕ) where
  unfoldable pub addr_to_lgpage : ℕ → ℕ
  addr_to_lgpage addr = add64 page_tbl (lgpgn addr * page_len)

  unfoldable pub lgpage_to_addr : ℕ → ℕ
  lgpage_to_addr pg = add64 page_base_addr (sub64 pg page_tbl / page_len * pgsize_2mb)

unfoldable pub addr_to_smpage : ℕ → ℕ
addr_to_smpage addr = add64 (pgaddr_2mb addr) (pgn addr * page_len)

unfoldable pub smpage_to_addr : ℕ → ℕ
smpage_to_addr pg = add64 (pgaddr_2mb pg) (sub64 pg (pgaddr_2mb pg) / page_len * pgsize_4kb)

-- The flags of a descriptor that the allocator of large pages reads.
pub record Page : Type 0 where
  pub large : Bool
  pub in_use : Bool
  pub shattered : Bool

-- `addr_to_page` and `page_to_addr`, where `pages` gives the flags at each descriptor; `none` is a failed
-- assertion.
unfoldable pub addr_to_page : ℕ → (ℕ → Page) → ℕ → Option ℕ
addr_to_page page_tbl pages addr =
    let pg : ℕ = addr_to_lgpage page_tbl addr in
    if not (pages pg).large
    then none
    else (if (pages pg).shattered then some (addr_to_smpage addr) else some pg)

unfoldable pub page_to_addr : ℕ → (ℕ → Page) → ℕ → ℕ
page_to_addr page_tbl pages pg =
    if (pages pg).large then lgpage_to_addr page_tbl pg else smpage_to_addr pg

unfoldable pub page_to_size : (ℕ → Page) → ℕ → ℕ
page_to_size pages pg = if (pages pg).large then pgsize_2mb else pgsize_4kb

-- `none` is a failed assertion.
unfoldable pub smpage_to_lgpage : ℕ → (ℕ → Page) → ℕ → Option ℕ
smpage_to_lgpage page_tbl pages pg =
    if (pages pg).large then none else some (addr_to_lgpage page_tbl pg)

-- the last assertion of `page_check`, on a signed difference of pointers
unfoldable pub is_in_table : ℕ → ℕ → Bool
is_in_table page_tbl pg =
    ltb (sub64 pg page_tbl) (2 ^ 63)
    && ltb (sub64 pg page_tbl / page_len) (lgpage_meta_ents * nnuma)

-- what `page_check` asks of the large page of a small one
unfoldable pub is_split : ℕ → (ℕ → Page) → Option ℕ → Bool
is_split page_tbl pages none = false
is_split page_tbl pages (some pg) =
    (pages pg).large && (pages pg).shattered && is_in_table page_tbl pg

-- false where an assertion fails
unfoldable pub page_check : ℕ → (ℕ → Page) → ℕ → ℕ → Bool
page_check page_tbl pages pg pgsize =
    (pages pg).in_use
    && ((pgsize == pgsize_4kb) || (pgsize == pgsize_2mb))
    && (page_to_size pages pg == pgsize)
    && (if pgsize == pgsize_4kb
        then not (pages pg).shattered
          && is_split page_tbl pages (smpage_to_lgpage page_tbl pages pg)
        else is_in_table page_tbl pg)

-- `struct lgpage_node`, with the descriptors of its node by their place in `tbl`
pub record LgpageNode : Type 0 where
  pub idx : ℕ
  pub pages : List ℕ
  pub tbl : ℕ → Page

-- `lgpage_create` and `lgpage_destroy` on a descriptor
abbrev pub created : Page
created = record { large = true; in_use = true; shattered = false }

abbrev pub destroyed : Page
destroyed = record { large = false; in_use = false; shattered = false }

-- `lgpage_alloc_on_node` once it has a descriptor; `granted` tells whether the system maps the page.
-- The outer `none` is a failed assertion, the inner one NULL.
unfoldable pub alloc_at : Bool → ℕ → LgpageNode → Option (Option ℕ × LgpageNode)
alloc_at granted pg node =
    if (node.tbl pg).in_use
    then none
    else (if granted
        then some (some pg, record node { tbl = update node.tbl pg created })
        else some (none, node))

unfoldable pub alloc_next : Bool → List ℕ → LgpageNode → Option (Option ℕ × LgpageNode)
alloc_next granted (pg ∷ rest) node = alloc_at granted pg (record node { pages = rest })
alloc_next granted [] node =
    if leb lgpage_meta_ents node.idx
    then some (none, node)
    else alloc_at granted node.idx (record node { idx = node.idx + 1 })

unfoldable pub lgpage_alloc_on_node : Bool → LgpageNode → Option (Option ℕ × LgpageNode)
lgpage_alloc_on_node granted node = alloc_next granted node.pages node

-- `lgpage_free` on the node that `addr_to_numa_node` tells
unfoldable pub lgpage_free : ℕ → LgpageNode → LgpageNode
lgpage_free pg node = record node { tbl = update node.tbl pg destroyed; pages = pg ∷ node.pages }
