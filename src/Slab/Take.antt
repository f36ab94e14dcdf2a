-- ===== src/Slab/Take.antt =====
-- An item is taken from the current page.
use libut.Common.{
  ℕ, zero, suc, ◌+◌, ◌-◌, ◌*◌, ◌≤◌, ◌<◌, ◌≡◌, refl, sym, ap, ◌∙◌, ◌≢◌, inl, inr, true, some, List,
  [], ◌∷◌, arith, ℕ_discrete, ◌==◌, if◌then◌else◌, Option-cases, length, subst,
}
use libut.Common.Counts.{times}
use libut.Common.Totals.{weight-cons}
use native.Mathlib.Nat.{suc-mul}
use libut.Slab.{SlabNode, page_limit, is_current, taken, take_item}
use libut.Slab.Inv.{in_page, out_of, places, IsCurrent, IsSlab}

mul_step : (r s : ℕ) → 0 < r → (r - 1) * s + s ≡ r * s
mul_step zero s h = elim h [ ]
mul_step (suc r) s h = ap (λ (x : ℕ). x * s + s) pred ∙ sym (suc-mul r s)
  where
    pred : suc r - 1 ≡ r
    pred = omega arith

-- Whatever is taken, the page has one item less, and hands out one more.
module _ (base page_of : ℕ → ℕ) (held : List ℕ) (n : SlabNode) (s : IsSlab base page_of held n)
    (pg : ℕ) (cur : is_current pg n.cur_pg ≡ true) where
  elsewhere : (q : ℕ) → 0 < times q n.partial_list + times q n.full_list → pg ≢ q
  elsewhere q h e = ground (
    arith,
    h,
    s.apart pg,
    cur,
    e,
    ap (λ (x : ℕ). times x n.partial_list) e,
    ap (λ (x : ℕ). times x n.full_list) e,
  )

  only_current : (q : ℕ) → is_current q n.cur_pg ≡ true → q ≡ pg
  only_current q h = elim (Option-cases n.cur_pg) [
    | inl e ↦ ground (arith, h, e)
    | inr (c, e) ↦ ground (arith, h, cur, e)
  ]

  placed_once : places n pg ≡ 1
  placed_once = ground (arith, cur, s.apart pg)

  module _ (some_left : 0 < (n.page pg).item_count) (a : ℕ) (of_page : page_of a ≡ pg)
      (rest : List ℕ) where
    abbrev Shared : ℕ → Type 0
    Shared q =
        out_of page_of q (a ∷ held)
          + (if places n q == 0 then 0 else ((taken pg rest n).page q).item_count)
        ≡ (if places n q == 0 then 0 else n.nr_elems)

    shared_here : Shared pg
    shared_here = ground (
      arith,
      weight-cons (in_page page_of pg) a held,
      of_page,
      placed_once,
      s.shares pg,
      some_left,
    )

    shares_kept :
        (q : ℕ)
        → out_of page_of q (a ∷ held)
            + (if places n q == 0 then 0 else ((taken pg rest n).page q).item_count)
          ≡ (if places n q == 0 then 0 else n.nr_elems)
    shares_kept q = elim (ℕ_discrete pg q) [
      | yes e ↦ subst Shared e shared_here
      | no ne ↦ ground (arith, weight-cons (in_page page_of q) a held, of_page, ne, s.shares q)
    ]

    listed_kept :
        (q : ℕ)
        → 0 < times q n.partial_list + times q n.full_list
        → ((taken pg rest n).page q).item_count ≡ length ((taken pg rest n).page q).next
    listed_kept q h = ground (arith, s.listed q h, elsewhere q h)

    partial_kept : (q : ℕ) → 0 < times q n.partial_list → 0 < ((taken pg rest n).page q).item_count
    partial_kept q h = ground (arith, s.partial q h, elsewhere q)

    chained_kept :
        ((x : ℕ) → 0 < times x rest → 0 < times x (n.page pg).next)
        → (q x : ℕ) → 0 < places n q
        → 0 < times x ((taken pg rest n).page q).next
        → page_of x ≡ q
    chained_kept less q x h h' = elim (ℕ_discrete pg q) [
      | yes e ↦ ground (arith, s.chained pg x (omega (arith, placed_once)), less x, h', e)
      | no ne ↦ ground (arith, s.chained q x h, h', ne)
    ]

    abbrev Once : ℕ → Type 0
    Once x =
        times x (a ∷ held)
          + (if places n (page_of x) == 0
              then 0
              else times x ((taken pg rest n).page (page_of x)).next)
        ≤ 1

    once_kept :
        times a held + times a rest ≡ 0
        → ((x : ℕ) → times x rest ≤ times x (n.page pg).next)
        → (x : ℕ)
        → times x (a ∷ held)
            + (if places n (page_of x) == 0
                then 0
                else times x ((taken pg rest n).page (page_of x)).next)
          ≤ 1
    once_kept new less x = elim (ℕ_discrete a x) [
      | yes e ↦ subst Once e (ground (arith, new, of_page))
      | no ne ↦ ground (arith, s.once x, less x, ne, ap (λ (q : ℕ). (n.page q).next))
    ]

-- The item was neither handed out nor free, and is handed out now.
pub record Took (base page_of : ℕ → ℕ) (held : List ℕ) (n v : SlabNode) (a : ℕ) : Type 0 where
  pub slab : IsSlab base page_of (a ∷ held) v
  pub new : times a held ≡ 0

module _ (base page_of : ℕ → ℕ) (held : List ℕ) (n : SlabNode)
    (aligned : (pg off : ℕ) → off < page_limit n → page_of (base pg + off) ≡ pg)
    (s : IsSlab base page_of held n) (pg : ℕ) (cur : is_current pg n.cur_pg ≡ true)
    (some_left : 0 < (n.page pg).item_count) where
  placed : places n pg ≡ 1
  placed = placed_once base page_of held n s pg cur

  chain_current :
      (hdr : ℕ) (rest : List ℕ)
      → (n.page pg).next ≡ hdr ∷ rest
      → IsCurrent base page_of (hdr ∷ held) (taken pg rest n) pg
  chain_current hdr rest e =
      let c = s.current pg cur in
      let counts : (x : ℕ) → times x (n.page pg).next ≡ (if hdr == x then 1 else 0) + times x rest =
        λ x. ap (times x) e in
      record {
        rem = c.rem;
        counted = ground (arith, c.counted, ap length e);
        room = c.room;
        unseen = λ h x at_page above. ground (arith, c.unseen h x at_page above, counts x);
      }

  from_chain :
      (hdr : ℕ) (rest : List ℕ)
      → (n.page pg).next ≡ hdr ∷ rest
      → Took base page_of held n (taken pg rest n) hdr
  from_chain hdr rest e =
      let c = s.current pg cur in
      let counts : (x : ℕ) → times x (n.page pg).next ≡ (if hdr == x then 1 else 0) + times x rest =
        λ x. ap (times x) e in
      let less : (x : ℕ) → times x rest ≤ times x (n.page pg).next =
        λ x. ground (arith, counts x) in
      let of_page : page_of hdr ≡ pg =
        s.chained pg hdr (omega (arith, placed)) (ground (arith, counts hdr)) in
      let new : times hdr held + times hdr rest ≡ 0 =
        ground (
          arith,
          s.once hdr,
          counts hdr,
          of_page,
          placed,
          ap (λ (q : ℕ). (n.page q).next) of_page,
        ) in
      record {
        slab = record {
          sized = s.sized;
          filled = s.filled;
          fits = s.fits;
          apart = s.apart;
          shares = shares_kept base page_of held n s pg cur some_left hdr of_page rest;
          current = λ q h.
              subst (IsCurrent base page_of (hdr ∷ held) (taken pg rest n))
                (sym (only_current base page_of held n s pg cur q h)) (chain_current hdr rest e);
          listed = listed_kept base page_of held n s pg cur some_left hdr of_page rest;
          partial = partial_kept base page_of held n s pg cur some_left hdr of_page rest;
          chained =
              chained_kept base page_of held n s pg cur some_left hdr of_page rest
                (λ x h. omega (arith, less x, h));
          once = once_kept base page_of held n s pg cur some_left hdr of_page rest new less;
        };
        new = omega (arith, new);
      }

  -- The page has no free item: the next one is carved.
  module _ (e : (n.page pg).next ≡ []) where
    abbrev c : IsCurrent base page_of held n pg
    c = s.current pg cur

    rem-pos : 0 < c.rem
    rem-pos = omega (arith, c.counted, ap length e, some_left)

    below_limit : n.pg_off + n.size ≤ page_limit n
    below_limit = omega (arith, c.room rem-pos, mul_step c.rem n.size rem-pos, s.fits)

    pub off-lt : n.pg_off < page_limit n
    off-lt = omega (arith, below_limit, s.sized)

    abbrev carved : SlabNode
    carved = record (taken pg [] n) { pg_off = n.pg_off + n.size }

    of_page : page_of (base pg + n.pg_off) ≡ pg
    of_page = aligned pg n.pg_off off-lt

    new : times (base pg + n.pg_off) held + times (base pg + n.pg_off) [] ≡ 0
    new = omega (arith, c.unseen rem-pos (base pg + n.pg_off) of_page (omega arith))

    rest_current : IsCurrent base page_of ((base pg + n.pg_off) ∷ held) carved pg
    rest_current = record {
      rem = c.rem - 1;
      counted = ground (arith, c.counted, ap length e);
      room = λ h. omega (arith, c.room rem-pos, mul_step c.rem n.size rem-pos);
      unseen = λ h x at_page above.
          ground (arith, c.unseen rem-pos x at_page (omega (arith, above)), above, s.sized);
    }

    pub from_rest : Took base page_of held n carved (base pg + n.pg_off)
    from_rest = record {
      slab = record {
        sized = s.sized;
        filled = s.filled;
        fits = s.fits;
        apart = s.apart;
        shares = shares_kept base page_of held n s pg cur some_left (base pg + n.pg_off) of_page [];
        current = λ q h.
            subst (IsCurrent base page_of ((base pg + n.pg_off) ∷ held) carved)
              (sym (only_current base page_of held n s pg cur q h)) rest_current;
        listed = listed_kept base page_of held n s pg cur some_left (base pg + n.pg_off) of_page [];
        partial =
            partial_kept base page_of held n s pg cur some_left (base pg + n.pg_off) of_page [];
        chained =
            chained_kept base page_of held n s pg cur some_left (base pg + n.pg_off) of_page []
              (λ x h. absurd (omega (arith, h)));
        once =
            once_kept base page_of held n s pg cur some_left (base pg + n.pg_off) of_page [] new
              (λ x. omega arith);
      };
      new = omega (arith, new);
    }

  -- The current page has items left: one is taken.
  pub take_lem :
      (chain : List ℕ)
      → (n.page pg).next ≡ chain
      → (a : ℕ) × (v : SlabNode) × (take_item base pg chain n ≡ some (some a, v))
        × Took base page_of held n v a
  unfolding take_item
  take_lem (hdr ∷ rest) e = (hdr, taken pg rest n, refl, from_chain hdr rest e)
  take_lem [] e = (base pg + n.pg_off, carved e, ground (arith, off-lt e), from_rest e)
