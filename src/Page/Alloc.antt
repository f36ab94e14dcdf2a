-- ===== src/Page/Alloc.antt =====
-- The allocator of large pages of one NUMA node.
use libut.Common.{
  ℕ, ◌+◌, ◌≤◌, ◌<◌, ◌≡◌, refl, sym, ap, ◌∙◌, Bool, true, false, Option, none, some, List, [], ◌∷◌,
  arith, dec_lt, ℕ_discrete, ltb, ◌==◌, if◌then◌else◌, update,
}
use libut.Common.Totals.{weight, weight-cons, weight-nil}
use libut.Page.{
  Page, LgpageNode, created, destroyed, lgpage_meta_ents, alloc_at, alloc_next,
  lgpage_alloc_on_node, lgpage_free,
}

-- how often a descriptor is in a list
abbrev pub times : ℕ → List ℕ → ℕ
times p = weight (λ q. if q == p then 1 else 0)

abbrev pub used : Page → ℕ
used pg = if pg.in_use then 1 else 0

-- 1 for a descriptor that has been handed out before
abbrev pub issued : ℕ → ℕ → ℕ
issued idx p = if ltb p idx then 1 else 0

-- A descriptor that has been handed out is in use, or on the free list once, or lost; no other is either.
pub record IsNode (node : LgpageNode) : Type 0 where
  pub bounded : node.idx ≤ lgpage_meta_ents
  pub apart : (p : ℕ) → times p node.pages + used (node.tbl p) ≤ issued node.idx p

-- What an allocation comes to: a descriptor that was not in use and is now, or NULL because the system
-- does not map the page or because all pages have been handed out.
pub data Allocated (granted : Bool) (node after : LgpageNode) : Option ℕ → Type 0 where
  page :
      (pg : ℕ)
      → granted ≡ true
      → pg < lgpage_meta_ents
      → (node.tbl pg).in_use ≡ false
      → after.tbl ≡ update node.tbl pg created
      → Allocated granted node after (some pg)
  refused : granted ≡ false → after.tbl ≡ node.tbl → Allocated granted node after none
  full :
      node.pages ≡ []
      → lgpage_meta_ents ≤ node.idx
      → after ≡ node
      → Allocated granted node after none

-- `start` is the node before its descriptor was taken.
alloc_at_lem :
    (granted : Bool) (pg : ℕ) (start node : LgpageNode)
    → node.tbl ≡ start.tbl
    → pg < node.idx
    → IsNode node
    → times pg node.pages ≡ 0
    → (node.tbl pg).in_use ≡ false
    → (out : Option ℕ) × (after : LgpageNode) × (alloc_at granted pg node ≡ some (out, after))
      × IsNode after
      × Allocated granted start after out
unfolding alloc_at
alloc_at_lem true pg start node same lt v none_listed free = (
  some pg,
  record node { tbl = update node.tbl pg created },
  rw free refl,
  record {
    bounded = v.bounded;
    apart = λ p. elim (ℕ_discrete pg p) [
      | yes here ↦ ground (
        arith,
        v.apart p,
        none_listed,
        lt,
        here,
        ap (λ (q : ℕ). times q node.pages) here,
        ap (λ (q : ℕ). (node.tbl q).in_use) here,
      )
      | no there ↦ ground (arith, v.apart p, there)
    ];
  },
  page pg refl (omega (arith, lt, v.bounded))
      (ap (λ (t : ℕ → Page). (t pg).in_use) (sym same) ∙ free)
      (ap (λ (t : ℕ → Page). update t pg created) same),
)
alloc_at_lem false pg start node same lt v none_listed free =
    (none, node, rw free refl, v, refused refl same)

unused : (pg : Page) → used pg ≡ 0 → pg.in_use ≡ false
unused pg e = ground (arith, e)

issued-le : (idx p : ℕ) → issued idx p ≤ 1
issued-le idx p = ground arith

issued_mono : (idx p : ℕ) → issued idx p ≤ issued (idx + 1) p
issued_mono idx p = ground arith

issued_below : (idx p : ℕ) → 0 < issued idx p → p < idx
issued_below idx p h = ground (arith, h)

module _ (pg : ℕ) (rest : List ℕ) (node : LgpageNode) (e : node.pages ≡ pg ∷ rest)
    (v : IsNode node) where
  count : (p : ℕ) → times p node.pages ≡ (if pg == p then 1 else 0) + times p rest
  count p = ap (times p) e ∙ weight-cons (λ (q : ℕ). if q == p then 1 else 0) pg rest

  front : (times pg rest ≡ 0) × (used (node.tbl pg) ≡ 0) × (pg < node.idx)
  front = (
    ground (arith, count pg, v.apart pg, issued-le node.idx pg),
    ground (arith, count pg, v.apart pg, issued-le node.idx pg),
    issued_below node.idx pg (ground (arith, count pg, v.apart pg)),
  )

  rest-IsNode : IsNode (record node { pages = rest })
  rest-IsNode = record { bounded = v.bounded; apart = λ p. omega (arith, v.apart p, count p) }

next_lem :
    (granted : Bool) (l : List ℕ) (node : LgpageNode)
    → node.pages ≡ l
    → IsNode node
    → (out : Option ℕ) × (after : LgpageNode) × (alloc_next granted l node ≡ some (out, after))
      × IsNode after
      × Allocated granted node after out
unfolding alloc_next
next_lem granted (pg ∷ rest) node e v =
    let (listed, idle, lt) = front pg rest node e v in
    alloc_at_lem granted pg node (record node { pages = rest }) refl lt
      (rest-IsNode pg rest node e v) listed (unused (node.tbl pg) idle)
next_lem granted [] node e v = elim (dec_lt node.idx lgpage_meta_ents) [
  | yes room ↦
      let next : LgpageNode = record node { idx = node.idx + 1 } in
      let v' : IsNode next = record {
        bounded = omega (arith, room);
        apart = λ p. omega (arith, v.apart p, issued_mono node.idx p);
      } in
      let none_listed : times node.idx node.pages ≡ 0 =
        ap (times node.idx) e ∙ weight-nil (λ (q : ℕ). if q == node.idx then 1 else 0) in
      let (out, after, s, w, a) =
        alloc_at_lem granted node.idx node next refl (omega arith) v' none_listed
          (unused (node.tbl node.idx) (ground (arith, v.apart node.idx))) in
      (out, after, ground (arith, room) ∙ s, w, a)
  | no spent ↦ (none, node, ground (arith, spent), v, full e (omega (arith, spent)) refl)
]

-- Allocating a large page fails no assertion and hands out a descriptor that was not in use and is then,
-- unless the system does not map the page, or no descriptor is free and all have been handed out. No
-- descriptor is in use and on the free list at once, or on the list twice, before and so after.
pub lgpage_alloc_lem :
    (granted : Bool) (node : LgpageNode)
    → IsNode node
    → (out : Option ℕ) × (after : LgpageNode) × (lgpage_alloc_on_node granted node
        ≡ some (out, after))
      × IsNode after
      × Allocated granted node after out
unfolding lgpage_alloc_on_node
lgpage_alloc_lem granted node v = next_lem granted node.pages node refl v

-- Freeing a large page that is in use keeps the free list and the flags apart, and the page is the next
-- one to be handed out.
pub lgpage_free_lem :
    (pg : ℕ) (node : LgpageNode)
    → IsNode node
    → (node.tbl pg).in_use ≡ true
    → IsNode (lgpage_free pg node)
      × ((after : LgpageNode) × (lgpage_alloc_on_node true (lgpage_free pg node)
            ≡ some (some pg, after)))
unfolding lgpage_free lgpage_alloc_on_node alloc_next alloc_at
lgpage_free_lem pg node v busy = (
  record {
    bounded = v.bounded;
    apart = λ p. elim (ℕ_discrete pg p) [
      | yes here ↦ ground (
        arith,
        v.apart p,
        busy,
        here,
        weight-cons (λ (q : ℕ). if q == p then 1 else 0) pg node.pages,
        ap (λ (q : ℕ). (node.tbl q).in_use) here,
      )
      | no there ↦
          ground (
            arith,
            v.apart p,
            there,
            weight-cons (λ (q : ℕ). if q == p then 1 else 0) pg node.pages,
          )
    ];
  },
  (record node { tbl = update (update node.tbl pg destroyed) pg created }, ground (arith)),
)
