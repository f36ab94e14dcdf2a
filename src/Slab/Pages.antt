-- ===== src/Slab/Pages.antt =====
-- A full page is put away, and another one becomes the current page.
use libut.Common.{
  ℕ, ◌+◌, ◌≤◌, ◌≡◌, refl, ap, true, Option, none, some, List, [], ◌∷◌, arith, ℕ_discrete, ◌==◌,
  if◌then◌else◌, length, update, subst,
}
use libut.Common.Counts.{times}
use libut.Common.Totals.{weight-cons}
use libut.Slab.{SlabNode, is_current, retired}
use libut.Slab.Inv.{in_page, out_of, places, IsCurrent, IsSlab}

-- An item that is handed out counts for its page.
pub times-le-out : (page_of : ℕ → ℕ) (a : ℕ) (l : List ℕ) → times a l ≤ out_of page_of (page_of a) l
times-le-out page_of a [] = omega arith
times-le-out page_of a (x ∷ l) = elim (ℕ_discrete x a) [
  | yes e ↦ ground (
    arith,
    e,
    ap page_of e,
    times-le-out page_of a l,
    weight-cons (in_page page_of (page_of a)) x l,
  )
  | no ne ↦
      ground (arith, ne, times-le-out page_of a l, weight-cons (in_page page_of (page_of a)) x l)
]

module _ (base page_of : ℕ → ℕ) (held : List ℕ) where
  -- The current page has no item left, and joins the full ones.
  module _ (n : SlabNode) (s : IsSlab base page_of held n) where
    abbrev put_away : SlabNode
    put_away = record (retired n.cur_pg n) { cur_pg = none }

    here_current : (c : ℕ) → n.cur_pg ≡ some c → is_current c n.cur_pg ≡ true
    here_current c e = ground (arith, e)

    pub spent_lem :
        (o : Option ℕ)
        → n.cur_pg ≡ o
        → ((pg : ℕ) → o ≡ some pg → (n.page pg).item_count ≡ 0)
        → IsSlab base page_of held (record (retired o n) { cur_pg = none })
    spent_lem none e spent = record {
      sized = s.sized;
      filled = s.filled;
      fits = s.fits;
      apart = λ q. ground (arith, s.apart q, e);
      shares = λ q. ground (arith, s.shares q, e);
      current = λ q h. absurd (ground (arith, h));
      listed = s.listed;
      partial = s.partial;
      chained = λ q x h h'. ground (arith, s.chained q x, h, h', e);
      once = λ x. ground (arith, s.once x, e);
    }
    spent_lem (some c) e spent = record {
      sized = s.sized;
      filled = s.filled;
      fits = s.fits;
      apart = λ q. ground (arith, s.apart q, e);
      shares = λ q. ground (arith, s.shares q, e);
      current = λ q h. absurd (ground (arith, h));
      listed = λ q h. elim (ℕ_discrete c q) [
        | yes here ↦
            subst (λ (x : ℕ). (n.page x).item_count ≡ length (n.page x).next) here
              (omega (arith, spent c refl, (s.current c (here_current c e)).counted))
        | no there ↦ s.listed q (ground (arith, h, there))
      ];
      partial = s.partial;
      chained = λ q x h h'. ground (arith, s.chained q x, h, h', e);
      once = λ x. ground (arith, s.once x, e);
    }

  -- `k` has no current page.
  module _ (k : SlabNode) (s : IsSlab base page_of held k) (alone : k.cur_pg ≡ none) (nr : ℕ) where
    is_it : (q pg : ℕ) → is_current q (some pg) ≡ true → pg ≡ q
    is_it q pg h = ground (arith, h)

    pop_places :
        (pg : ℕ) (rest : List ℕ)
        → k.partial_list ≡ pg ∷ rest
        → (q : ℕ)
        → places (record k { partial_list = rest; cur_pg = some pg; nr_pages = nr }) q ≡ places k q
    pop_places pg rest e q = ground (arith, e, alone)

    pop_current :
        (pg : ℕ) (rest : List ℕ)
        → k.partial_list ≡ pg ∷ rest
        → IsCurrent base page_of held
            (record k { partial_list = rest; cur_pg = some pg; nr_pages = nr })
            pg
    pop_current pg rest e = record {
      rem = 0;
      counted = omega (arith, s.listed pg (ground (arith, e)));
      room = λ h. absurd (omega (arith, h));
      unseen = λ h. absurd (omega (arith, h));
    }

    pub pop_lem :
        (pg : ℕ) (rest : List ℕ)
        → k.partial_list ≡ pg ∷ rest
        → IsSlab base page_of held
            (record k { partial_list = rest; cur_pg = some pg; nr_pages = nr })
    pop_lem pg rest e = record {
      sized = s.sized;
      filled = s.filled;
      fits = s.fits;
      apart = λ q. ground (arith, s.apart q, e, alone);
      shares = λ q. ground (arith, s.shares q, pop_places pg rest e q);
      current = λ q h.
          subst
            (IsCurrent base page_of held
              (record k { partial_list = rest; cur_pg = some pg; nr_pages = nr }))
            (is_it q pg h) (pop_current pg rest e);
      listed = λ q h. ground (arith, s.listed q, h, e);
      partial = λ q h. ground (arith, s.partial q, h, e);
      chained = λ q x h h'. ground (arith, s.chained q x, h, h', e, alone);
      once = λ x. ground (arith, s.once x, pop_places pg rest e (page_of x));
    }

    abbrev pub renewed : ℕ → SlabNode
    renewed pg = record k {
      pg_off = k.offset;
      page = update k.page pg record { item_count = k.nr_elems; next = [] };
      cur_pg = some pg;
      nr_pages = nr;
    }

    none_out : (pg : ℕ) → places k pg ≡ 0 → (x : ℕ) → page_of x ≡ pg → times x held ≡ 0
    none_out pg unused x e = ground (
      arith,
      s.shares pg,
      unused,
      times-le-out page_of x held,
      ap (λ (q : ℕ). out_of page_of q held) e,
    )

    renewed_current : (pg : ℕ) → places k pg ≡ 0 → IsCurrent base page_of held (renewed pg) pg
    renewed_current pg unused = record {
      rem = k.nr_elems;
      counted = ground arith;
      room = λ h. refl;
      unseen = λ h x at_page above. ground (arith, none_out pg unused x at_page);
    }

    places-renewed :
        (pg : ℕ)
        → places k pg ≡ 0
        → (q : ℕ) → places (renewed pg) q ≡ (if pg == q then 1 else places k q)
    places-renewed pg unused q =
        ground (arith, alone, unused, ap (λ (x : ℕ). times x k.partial_list + times x k.full_list))

    pub fresh_lem :
        (pg : ℕ) → k.partial_list ≡ [] → places k pg ≡ 0 → IsSlab base page_of held (renewed pg)
    fresh_lem pg e unused = record {
      sized = s.sized;
      filled = s.filled;
      fits = s.fits;
      apart = λ q. ground (arith, s.apart q, alone, unused);
      shares = λ q. ground (
        arith,
        s.shares q,
        unused,
        places-renewed pg unused q,
        ap (λ (x : ℕ). out_of page_of x held),
        s.shares pg,
      );
      current = λ q h.
          subst (IsCurrent base page_of held (renewed pg)) (is_it q pg h)
            (renewed_current pg unused);
      listed = λ q h. ground (arith, s.listed q h, h, unused, e);
      partial = λ q h. absurd (ground (arith, h, e));
      chained = λ q x h h'. ground (arith, s.chained q x, h, h', e, alone);
      once =
          λ x. ground (arith, s.once x, places-renewed pg unused (page_of x), none_out pg unused x);
    }
