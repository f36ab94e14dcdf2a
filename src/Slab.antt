-- ===== src/Slab.antt =====
-- base/slab.c: items of one size, carved from the pages of a NUMA node.
pub mod Inv
pub mod Create
pub mod Take
pub mod Pages
pub mod Alloc
pub mod Free
mod Tests
use libut.Common.{
  ℕ, zero, suc, ◌+◌, ◌-◌, ◌*◌, ◌/◌, ◌%◌, ◌^◌, ◌≤◌, ◌<◌, min, max, bit_and, bit_or, ◌≡◌, refl, sym,
  ap, ap₂, ◌∙◌, fun_ext, ◌≢◌, ◌↔◌, ◌⊎◌, inl, inr, Bool, true, false, not, ◌&&◌, ◌||◌, Option, none,
  some, List, [], ◌∷◌, ◌++◌, map, append-nil, append_assoc, arith, dec_lt, ℕ_discrete, ltb, leb,
  ◌==◌, if◌then◌else◌, ltb→lt, lt→ltb, leb→le, ==_iff, Bool-cases, Option-cases, ◌>>=◌, >>=-some,
  length, get_elem?, take, drop, update, slice, length-append, length-slice, update_self, update_ne,
  get_elem?-snoc, length-take, take_all, get_elem?-append_some, update-field, update-all,
  update-each, subst, take-append-drop, ◌≡⟨◌⟩◌, ◌∎,
}
use libut.Common.Words.{add32, sub32, align_up}
use libut.Common.Counts.{del}
use libut.Page.{pgsize_4kb, pgsize_2mb}

-- `SLAB_PARTIAL_THRESH`
abbrev pub slab_partial_thresh : ℕ
slab_partial_thresh = 4

-- The fields of `struct page` that a slab keeps. `next` is the chain of the free items of the page, which
-- goes through their headers.
pub record SlabPage : Type 0 where
  pub item_count : ℕ
  pub next : List ℕ

-- `struct slab_node`, with the pages by number; `large` is `SLAB_FLAG_LGPAGE`.
pub record SlabNode : Type 0 where
  pub size : ℕ
  pub offset : ℕ
  pub large : Bool
  pub nr_elems : ℕ
  pub pg_off : ℕ
  pub cur_pg : Option ℕ
  pub full_list : List ℕ
  pub partial_list : List ℕ
  pub nr_pages : ℕ
  pub page : ℕ → SlabPage

abbrev pub page_limit : SlabNode → ℕ
page_limit n = if n.large then pgsize_2mb else pgsize_4kb

-- `__slab_create_node`
abbrev pub create_node : ℕ → ℕ → Bool → ℕ → (ℕ → SlabPage) → SlabNode
create_node size offset large nr_elems page = record {
  size = size;
  offset = offset;
  large = large;
  nr_elems = nr_elems;
  pg_off = 0;
  cur_pg = none;
  full_list = [];
  partial_list = [];
  nr_pages = 0;
  page = page;
}

-- `SLAB_4KB_LIMIT` and `SLAB_2MB_LIMIT`: an eighth of a page, aligned down to 64
abbrev pub slab_4kb_limit : ℕ
slab_4kb_limit = 512

abbrev pub slab_2mb_limit : ℕ
slab_2mb_limit = 262144

-- What `slab_create` comes to: -E2BIG, -ENOMEM, a division by zero, or a node.
pub data Result : Type 0 where
  e2big : Result
  enomem : Result
  divided_by_zero : Result
  ok : SlabNode → Result

-- `slab_create` on a machine with one NUMA node, whose pages `page` describes. Both alignments,
-- `CACHE_LINE_SIZE` and `__WORD_SIZE`, are 64. `granted` tells whether `__slab_create` gets memory for
-- the node, and `large` is the flag that the caller passes.
unfoldable pub slab_create : Bool → ℕ → Bool → (ℕ → SlabPage) → Result
slab_create granted size large page =
    let aligned : ℕ = align_up size 64 in
    let lg : Bool = large || ltb slab_4kb_limit aligned in
    let pgsize : ℕ = if lg then pgsize_2mb else pgsize_4kb in
    if ltb slab_2mb_limit aligned
    then e2big
    else (if aligned == 0
        then divided_by_zero
        else (if granted then ok (create_node aligned 0 lg (pgsize / aligned) page) else enomem))

-- `__slab_node_get_page`; `granted` is the page that `page_alloc_on_node` would answer.
unfoldable pub get_page : Option ℕ → List ℕ → SlabNode → Option ℕ × SlabNode
get_page granted (pg ∷ rest) n = (some pg, record n { partial_list = rest })
get_page none [] n = (none, n)
get_page (some pg) [] n = (
  some pg,
  record n {
    pg_off = n.offset;
    page = update n.page pg record { item_count = n.nr_elems; next = [] };
  },
)

-- page `pg` with one item less, and its chain
abbrev pub taken : ℕ → List ℕ → SlabNode → SlabNode
taken pg next n = record n {
  page = update n.page pg record { item_count = (n.page pg).item_count - 1; next = next };
}

-- the current page joins the full ones
abbrev pub retired : Option ℕ → SlabNode → SlabNode
retired none n = n
retired (some pg) n = record n { full_list = pg ∷ n.full_list }

-- `base` is `page_to_addr`.
module _ (base : ℕ → ℕ) where
  -- the end of `__slab_node_alloc`, on the current page with its chain; `none` is a failed assertion.
  unfoldable pub take_item : ℕ → List ℕ → SlabNode → Option (Option ℕ × SlabNode)
  take_item pg (hdr ∷ rest) n = some (some hdr, taken pg rest n)
  take_item pg [] n =
      if ltb n.pg_off (page_limit n)
      then some (some (base pg + n.pg_off), record (taken pg [] n) { pg_off = n.pg_off + n.size })
      else none

  -- `__slab_node_alloc` once it has asked for a page
  unfoldable pub take_new : Option ℕ × SlabNode → Option (Option ℕ × SlabNode)
  take_new (none, n) = some (none, record n { cur_pg = none })
  take_new (some pg, n) =
      take_item pg (n.page pg).next (record n { cur_pg = some pg; nr_pages = add32 n.nr_pages 1 })

  unfoldable pub alloc_new : Option ℕ → SlabNode → Option (Option ℕ × SlabNode)
  alloc_new granted n = take_new (get_page granted n.partial_list (retired n.cur_pg n))

  unfoldable pub alloc_from : Option ℕ → Option ℕ → SlabNode → Option (Option ℕ × SlabNode)
  alloc_from granted none n = alloc_new granted n
  alloc_from granted (some pg) n =
      if (n.page pg).item_count == 0 then alloc_new granted n else take_item pg (n.page pg).next n

  -- `__slab_node_alloc`; the inner `none` is NULL.
  unfoldable pub node_alloc : Option ℕ → SlabNode → Option (Option ℕ × SlabNode)
  node_alloc granted n = alloc_from granted n.cur_pg n

-- an item is back in the chain of its page
abbrev pub returned : ℕ → ℕ → SlabNode → SlabNode
returned pg item n = record n {
  page =
      update n.page pg
        record { item_count = (n.page pg).item_count + 1; next = item ∷ (n.page pg).next };
}

-- `list_del` of a page that is in one of the two lists
abbrev pub unlisted : ℕ → SlabNode → SlabNode
unlisted pg n = record n { full_list = del pg n.full_list; partial_list = del pg n.partial_list }

abbrev pub is_current : ℕ → Option ℕ → Bool
is_current pg none = false
is_current pg (some c) = pg == c

-- `slab_node_free` of an item of page `pg`. It answers the page that is given back, if one is.
unfoldable pub slab_node_free : ℕ → ℕ → SlabNode → Option ℕ × SlabNode
slab_node_free pg item n =
    let m : SlabNode = returned pg item n in
    let count : ℕ = (n.page pg).item_count + 1 in
    if is_current pg n.cur_pg
    then (none, m)
    else (if count == slab_partial_thresh
        then (none, record (unlisted pg m) { partial_list = pg ∷ (unlisted pg m).partial_list })
        else (if count == n.nr_elems
            then (some pg, record (unlisted pg m) { nr_pages = sub32 m.nr_pages 1 })
            else (none, m)))
