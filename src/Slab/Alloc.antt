-- ===== src/Slab/Alloc.antt =====
-- `__slab_node_alloc`: an item of the current page, of one that has free items again, or of a new one.
use libut.Common.{
  ℕ, ◌+◌, ◌<◌, ◌≡◌, refl, sym, ap, ◌∙◌, true, Option, none, some, List, [], ◌∷◌, arith, ℕ_discrete,
  subst,
}
use libut.Common.Counts.{times}
use libut.Common.Words.{add32}
use libut.Slab.{
  SlabNode, page_limit, is_current, retired, get_page, take_item, take_new, alloc_new, alloc_from,
  node_alloc,
}
use libut.Slab.Inv.{places, IsSlab}
use libut.Slab.Take.{take_lem}
use libut.Slab.Pages.{spent_lem, pop_lem, fresh_lem, renewed}

-- What asking for an item comes to.
pub data Allocated (base page_of : ℕ → ℕ) (held : List ℕ) (granted : Option ℕ) (n v : SlabNode)
    : Option ℕ → Type 0 where
  got :
      (a : ℕ)
      → IsSlab base page_of (a ∷ held) v
      → times a held ≡ 0
      → Allocated base page_of held granted n v (some a)
  out_of_memory :
      granted ≡ none
      → n.partial_list ≡ []
      → ((pg : ℕ) → n.cur_pg ≡ some pg → (n.page pg).item_count ≡ 0)
      → IsSlab base page_of held v
      → Allocated base page_of held granted n v none

module _ (base page_of : ℕ → ℕ) (held : List ℕ) (granted : Option ℕ) (n : SlabNode)
    (aligned : (pg off : ℕ) → off < page_limit n → page_of (base pg + off) ≡ pg) where
  abbrev Answer : Option (Option ℕ × SlabNode) → Type 0
  Answer x =
      (o : Option ℕ) × (v : SlabNode) × (x ≡ some (o, v))
      × Allocated base page_of held granted n v o

  -- the current page of `m` has items left
  take-Answer :
      (m : SlabNode)
      → page_limit m ≡ page_limit n
      → IsSlab base page_of held m
      → (pg : ℕ) → is_current pg m.cur_pg ≡ true
      → 0 < (m.page pg).item_count
      → Answer (take_item base pg (m.page pg).next m)
  take-Answer m same s pg cur left =
      let (a, v, e, t) =
        take_lem base page_of held m (λ p off h. aligned p off (subst (λ (x : ℕ). off < x) same h))
          s pg cur left (m.page pg).next refl in
      (some a, v, e, got a t.slab t.new)

  -- `r` is the node whose current page was put away
  module _ (r : SlabNode) (same : page_limit r ≡ page_limit n)
      (listed : r.partial_list ≡ n.partial_list)
      (spent : (pg : ℕ) → n.cur_pg ≡ some pg → (n.page pg).item_count ≡ 0)
      (s : IsSlab base page_of held (record r { cur_pg = none })) where
    new-Answer :
        (l : List ℕ)
        → r.partial_list ≡ l
        → (g : Option ℕ) → granted ≡ g
        → ((pg : ℕ) → g ≡ some pg → places (record r { cur_pg = none }) pg ≡ 0)
        → Answer (take_new base (get_page g l r))
    unfolding take_new get_page
    new-Answer (pg ∷ rest) e g eg unused =
        take-Answer
          (record r { partial_list = rest; cur_pg = some pg; nr_pages = add32 r.nr_pages 1 }) same
          (pop_lem base page_of held (record r { cur_pg = none }) s refl (add32 r.nr_pages 1) pg
            rest e)
          pg (ground arith) (s.partial pg (ground (arith, e)))
    new-Answer [] e none eg unused =
        (none, record r { cur_pg = none }, refl, out_of_memory eg (sym listed ∙ e) spent s)
    new-Answer [] e (some pg) eg unused =
        take-Answer
          (renewed base page_of held (record r { cur_pg = none }) s refl (add32 r.nr_pages 1) pg)
          same
          (fresh_lem base page_of held (record r { cur_pg = none }) s refl (add32 r.nr_pages 1) pg e
            (unused pg refl))
          pg (ground arith) (ground (arith, s.filled))

  -- The node must hold a sound slab, and a new page must not be one of its own.
  module _ (s : IsSlab base page_of held n)
      (unused : (pg : ℕ) → granted ≡ some pg → places n pg ≡ 0) where
    unused_still :
        (o : Option ℕ)
        → n.cur_pg ≡ o
        → (pg : ℕ) → granted ≡ some pg
        → places (record (retired o n) { cur_pg = none }) pg ≡ 0
    unused_still none e pg g = ground (arith, unused pg g, e)
    unused_still (some c) e pg g = ground (arith, unused pg g, e)

    new_lem :
        (o : Option ℕ)
        → n.cur_pg ≡ o
        → ((pg : ℕ) → o ≡ some pg → (n.page pg).item_count ≡ 0)
        → Answer (alloc_new base granted n)
    unfolding alloc_new
    new_lem none e spent =
        let (x, v, eq, a) =
          new-Answer n refl refl (λ pg h. absurd (cc))
            (spent_lem base page_of held n s none e spent) n.partial_list refl granted refl
            (unused_still none e) in
        (
          x,
          v,
          ap (λ (o : Option ℕ). take_new base (get_page granted n.partial_list (retired o n))) e
              ∙ eq,
          a,
        )
    new_lem (some c) e spent =
        let (x, v, eq, a) =
          new-Answer (retired (some c) n) refl refl (λ pg h. spent pg (sym e ∙ h))
            (spent_lem base page_of held n s (some c) e spent) n.partial_list refl granted refl
            (unused_still (some c) e) in
        (
          x,
          v,
          ap (λ (o : Option ℕ). take_new base (get_page granted n.partial_list (retired o n))) e
              ∙ eq,
          a,
        )

    from_lem : (o : Option ℕ) → n.cur_pg ≡ o → Answer (alloc_from base granted o n)
    unfolding alloc_from
    from_lem none e = new_lem none e (λ pg h. absurd (cc))
    from_lem (some c) e = elim (ℕ_discrete (n.page c).item_count 0) [
      | yes none_left ↦
          let (x, v, eq, a) = new_lem (some c) e (λ pg h. ground (arith, none_left, h)) in
          (x, v, ground (arith, none_left) ∙ eq, a)
      | no left ↦
          let (x, v, eq, a) = take-Answer n refl s c (ground (arith, e)) (omega (arith, left)) in
          (x, v, ground (arith, left) ∙ eq, a)
    ]

    -- Asking a sound slab for an item fails no assertion. It answers an item that is not handed out, and
    -- is then. Or it answers NULL, if the current page has no item left, no page is listed as partial, and the
    -- system grants no page; pages in the full list may still have a few free items. The slab stays sound.
    pub node_alloc_lem : Answer (node_alloc base granted n)
    unfolding node_alloc
    node_alloc_lem = from_lem n.cur_pg refl
