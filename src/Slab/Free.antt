-- ===== src/Slab/Free.antt =====
-- `slab_node_free`: an item goes back to its page.
use libut.Common.{
  ℕ, ◌+◌, ◌≤◌, ◌<◌, ◌≡◌, refl, sym, ap, ◌∙◌, Bool, true, false, Option, none, some, List, [], ◌∷◌,
  arith, ℕ_discrete, ◌==◌, if◌then◌else◌, length, subst,
}
use libut.Common.Counts.{times, del, times-del}
use libut.Common.Totals.{weight-cons}
use libut.Common.Words.{sub32}
use libut.Slab.{SlabNode, is_current, returned, unlisted, slab_node_free, slab_partial_thresh}
use libut.Slab.Inv.{in_page, out_of, places, IsCurrent, IsSlab}
use libut.Slab.Pages.{times-le-out}

-- An item less that is handed out counts for its page.
out_of-del :
    (page_of : ℕ → ℕ) (q a : ℕ) (l : List ℕ)
    → 0 < times a l
    → out_of page_of q (del a l) + in_page page_of q a ≡ out_of page_of q l
out_of-del page_of q a [] h = absurd (omega (arith, h))
out_of-del page_of q a (x ∷ l) h = elim (ℕ_discrete x a) [
  | yes e ↦ ground (arith, e, weight-cons (in_page page_of q) x l, ap page_of e)
  | no ne ↦ ground (
    arith,
    ne,
    h,
    out_of-del page_of q a l,
    weight-cons (in_page page_of q) x l,
    weight-cons (in_page page_of q) x (del a l),
  )
]

module _ (base page_of : ℕ → ℕ) (held : List ℕ) (n : SlabNode) (s : IsSlab base page_of held n)
    (a : ℕ) (out : 0 < times a held) where
  abbrev pg : ℕ
  pg = page_of a

  -- A page that has handed out an item is one of the slab.
  placed : places n pg ≡ 1
  placed = ground (arith, s.shares pg, times-le-out page_of a held, out, s.apart pg)

  abbrev back : SlabNode
  back = returned pg a n

  back_shares :
      (q : ℕ)
      → out_of page_of q (del a held) + (if places n q == 0 then 0 else (back.page q).item_count)
        ≡ (if places n q == 0 then 0 else n.nr_elems)
  back_shares q = elim (ℕ_discrete pg q) [
    | yes e ↦
        subst
          (λ (q : ℕ).
            out_of page_of q (del a held)
              + (if places n q == 0 then 0 else (back.page q).item_count)
            ≡ (if places n q == 0 then 0 else n.nr_elems))
          e (ground (arith, s.shares pg, out_of-del page_of pg a held out, placed))
    | no ne ↦ ground (arith, s.shares q, out_of-del page_of q a held out, ne)
  ]

  back_current : (q : ℕ) → is_current q n.cur_pg ≡ true → IsCurrent base page_of (del a held) back q
  back_current q h =
      let c = s.current q h in
      record {
        rem = c.rem;
        counted = ground (
          arith,
          c.counted,
          ap (λ (x : ℕ). (n.page x).item_count) {x = pg} {y = q},
          ap (λ (x : ℕ). length (n.page x).next) {x = pg} {y = q},
        );
        room = c.room;
        unseen = λ h' x at_page above. ground (
          arith,
          c.unseen h' x at_page above,
          times-del a x held,
          out,
          ap (λ (y : ℕ). times x (n.page y).next) {x = pg} {y = q},
          ap (λ (y : ℕ). times y held) {x = a} {y = x},
        );
      }

  back_listed :
      (q : ℕ)
      → 0 < times q n.partial_list + times q n.full_list
      → (back.page q).item_count ≡ length (back.page q).next
  back_listed q h = ground (
    arith,
    s.listed q h,
    ap (λ (x : ℕ). (n.page x).item_count) {x = pg} {y = q},
    ap (λ (x : ℕ). length (n.page x).next) {x = pg} {y = q},
  )

  back_chained : (q x : ℕ) → 0 < places n q → 0 < times x (back.page q).next → page_of x ≡ q
  back_chained q x h h' = elim (ℕ_discrete pg q) [
    | yes e ↦ elim (ℕ_discrete a x) [
      | yes it ↦ ap page_of (sym it) ∙ e
      | no other ↦ s.chained pg x (omega (arith, placed)) (ground (arith, h', e, other)) ∙ e
    ]
    | no ne ↦ ground (arith, s.chained q x h, h', ne)
  ]

  back_once :
      (x : ℕ)
      → times x (del a held)
          + (if places n (page_of x) == 0 then 0 else times x (back.page (page_of x)).next)
        ≤ 1
  back_once x = elim (ℕ_discrete a x) [
    | yes e ↦
        subst
          (λ (x : ℕ).
            times x (del a held)
              + (if places n (page_of x) == 0 then 0 else times x (back.page (page_of x)).next)
            ≤ 1)
          e (ground (arith, times-del a a held, s.once a, placed, out))
    | no ne ↦ ground (
      arith,
      times-del a x held,
      s.once x,
      ne,
      ap (λ (y : ℕ). times x (n.page y).next) {x = pg} {y = page_of x},
    )
  ]

  back-IsSlab : IsSlab base page_of (del a held) back
  back-IsSlab = record {
    sized = s.sized;
    filled = s.filled;
    fits = s.fits;
    apart = s.apart;
    shares = back_shares;
    current = back_current;
    listed = back_listed;
    partial = λ q h. ground (arith, s.partial q h);
    chained = back_chained;
    once = back_once;
  }

-- A page that is not the current one is taken out of the lists.
module _ (base page_of : ℕ → ℕ) (held : List ℕ) (m : SlabNode) (s : IsSlab base page_of held m)
    (pg : ℕ) (not_current : is_current pg m.cur_pg ≡ false) where
  abbrev moved : SlabNode
  moved = record (unlisted pg m) { partial_list = pg ∷ (unlisted pg m).partial_list }

  abbrev gone : ℕ → SlabNode
  gone nr = record (unlisted pg m) { nr_pages = nr }

  gone_places : (nr q : ℕ) → places (gone nr) q ≡ (if pg == q then 0 else places m q)
  gone_places nr q = ground (
    arith,
    times-del pg q m.partial_list,
    times-del pg q m.full_list,
    not_current,
    s.apart q,
    ap (λ (x : ℕ). is_current x m.cur_pg) {x = pg} {y = q},
  )

  moved_places : places m pg ≡ 1 → (q : ℕ) → places moved q ≡ places m q
  moved_places placed q = ground (
    arith,
    times-del pg q m.partial_list,
    times-del pg q m.full_list,
    not_current,
    placed,
    s.apart q,
    ap (places m) {x = pg} {y = q},
    ap (λ (x : ℕ). is_current x m.cur_pg) {x = pg} {y = q},
  )

  was_listed : places m pg ≡ 1 → 0 < times pg m.partial_list + times pg m.full_list
  was_listed placed = ground (arith, placed, not_current)

  less_listed :
      (q : ℕ)
      → 0 < times q (del pg m.partial_list) + times q (del pg m.full_list)
      → 0 < times q m.partial_list + times q m.full_list
  less_listed q h = ground (arith, times-del pg q m.partial_list, times-del pg q m.full_list, h)

  -- It joins the pages with free items.
  moved-IsSlab : places m pg ≡ 1 → 0 < (m.page pg).item_count → IsSlab base page_of held moved
  moved-IsSlab placed some_left = record {
    sized = s.sized;
    filled = s.filled;
    fits = s.fits;
    apart = λ q. omega (arith, moved_places placed q, s.apart q);
    shares = λ q. ground (arith, s.shares q, moved_places placed q);
    current = (λ q h.
        let c = s.current q h in
        record { rem = c.rem; counted = c.counted; room = c.room; unseen = c.unseen });
    listed = λ q h. elim (ℕ_discrete pg q) [
      | yes e ↦
          subst (λ (x : ℕ). (m.page x).item_count ≡ length (m.page x).next) e
            (s.listed pg (was_listed placed))
      | no ne ↦ s.listed q (less_listed q (ground (arith, h, ne)))
    ];
    partial = λ q h. elim (ℕ_discrete pg q) [
      | yes e ↦ subst (λ (x : ℕ). 0 < (m.page x).item_count) e some_left
      | no ne ↦ s.partial q (ground (arith, h, ne, times-del pg q m.partial_list))
    ];
    chained = λ q x h h'. s.chained q x (omega (arith, h, moved_places placed q)) h';
    once = λ x. ground (arith, s.once x, moved_places placed (page_of x));
  }

  -- It is given back, with all its items.
  gone-IsSlab :
      (nr : ℕ)
      → places m pg ≡ 1
      → (m.page pg).item_count ≡ m.nr_elems
      → IsSlab base page_of held (gone nr)
  gone-IsSlab nr placed whole = record {
    sized = s.sized;
    filled = s.filled;
    fits = s.fits;
    apart = λ q. ground (arith, gone_places nr q, s.apart q);
    shares = λ q. elim (ℕ_discrete pg q) [
      | yes e ↦
          ground (arith, gone_places nr q, e, none_out, ap (λ (x : ℕ). out_of page_of x held) e)
      | no ne ↦ ground (arith, gone_places nr q, ne, s.shares q)
    ];
    current = (λ q h.
        let c = s.current q h in
        record { rem = c.rem; counted = c.counted; room = c.room; unseen = c.unseen });
    listed = λ q h. s.listed q (less_listed q h);
    partial = λ q h. s.partial q (ground (arith, h, times-del pg q m.partial_list));
    chained = λ q x h h'. s.chained q x (ground (arith, h, gone_places nr q)) h';
    once = λ x. ground (arith, s.once x, gone_places nr (page_of x));
  }
    where
      none_out : out_of page_of pg held ≡ 0
      none_out = ground (arith, s.shares pg, placed, whole)

if_elim :
    {A : Type 0} (P : A → Type 0) (b : Bool) (x y : A)
    → (b ≡ true → P x)
    → (b ≡ false → P y)
    → P (if b then x else y)
if_elim P true x y px py = px refl
if_elim P false x y px py = py refl

-- What freeing an item comes to: a page that is given back is no longer one of the slab, and no item of
-- it is handed out.
pub data Freed (base page_of : ℕ → ℕ) (held : List ℕ) : Option ℕ × SlabNode → Type 0 where
  kept : (v : SlabNode) → IsSlab base page_of held v → Freed base page_of held (none, v)
  gave_back :
      (pg : ℕ) (v : SlabNode)
      → IsSlab base page_of held v
      → places v pg ≡ 0
      → out_of page_of pg held ≡ 0
      → Freed base page_of held (some pg, v)

module _ (base page_of : ℕ → ℕ) (held : List ℕ) (n : SlabNode) (s : IsSlab base page_of held n)
    (a : ℕ) (out : 0 < times a held) where
  abbrev m : SlabNode
  m = returned (page_of a) a n

  sm : IsSlab base page_of (del a held) m
  sm = back-IsSlab base page_of held n s a out

  placed_m : places m (page_of a) ≡ 1
  placed_m = placed base page_of held n s a out

  given_back :
      is_current (page_of a) n.cur_pg ≡ false
      → (m.page (page_of a)).item_count ≡ n.nr_elems
      → Freed base page_of
          (del a held)
          (some (page_of a), record (unlisted (page_of a) m) { nr_pages = sub32 m.nr_pages 1 })
  given_back off whole =
      gave_back (page_of a) _
        (gone-IsSlab base page_of (del a held) m sm (page_of a) off (sub32 m.nr_pages 1) placed_m
          whole)
        (gone_places base page_of (del a held) m sm (page_of a) off (sub32 m.nr_pages 1) (page_of a)
          ∙ ground arith)
        (ground (arith, sm.shares (page_of a), placed_m, whole))

  -- Freeing an item that is handed out takes it back. The slab stays sound, and a page is given back only
  -- when all its items are free.
  pub slab_node_free_lem : Freed base page_of (del a held) (slab_node_free (page_of a) a n)
  unfolding slab_node_free
  slab_node_free_lem =
      if_elim (Freed base page_of (del a held)) (is_current (page_of a) n.cur_pg) _ _
        (λ e. kept m sm)
        (λ off.
          if_elim (Freed base page_of (del a held))
            ((n.page (page_of a)).item_count + 1 == slab_partial_thresh) _ _
            (λ e.
              kept _ (
                moved-IsSlab base page_of (del a held) m sm (page_of a) off placed_m
                  (ground arith)))
            (λ ne.
              if_elim (Freed base page_of (del a held))
                ((n.page (page_of a)).item_count + 1 == n.nr_elems) _ _
                (λ e. given_back off (ground (arith, e))) (λ e. kept m sm)))
