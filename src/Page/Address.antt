-- ===== src/Page/Address.antt =====
-- Descriptors and addresses lead to each other.
use libut.Common.{
  ℕ, ◌+◌, ◌*◌, ◌/◌, ◌^◌, ◌<◌, ◌≡◌, refl, ap, ◌∙◌, inl, inr, true, false, some, arith, lt→ltb,
  Bool-cases,
}
use libut.Common.Words.{add64, sub64}
use libut.Common.Bits.{bit_and-high}
use libut.Page.{
  Page, pgsize_4kb, pgsize_2mb, page_len, nnuma, lgpage_meta_ents, page_base_addr, is_page_addr,
  addr_to_numa_node, pgaddr_2mb, addr_to_lgpage, lgpage_to_addr, addr_to_smpage, smpage_to_addr,
  addr_to_page, page_to_addr, page_to_size, smpage_to_lgpage, is_in_table, is_split, page_check,
}

-- the descriptor of large page `i`, and its address
abbrev pub lgpage : ℕ → ℕ → ℕ
lgpage page_tbl i = page_tbl + i * page_len

lgpage_to_addr_lem :
    (page_tbl i : ℕ)
    → page_tbl < 2 ^ 63
    → i < lgpage_meta_ents * nnuma
    → lgpage_to_addr page_tbl (lgpage page_tbl i) ≡ page_base_addr + i * pgsize_2mb
unfolding lgpage_to_addr
lgpage_to_addr_lem page_tbl i small h = omega arith

addr_to_lgpage_lem :
    (page_tbl i off : ℕ)
    → page_tbl < 2 ^ 63
    → i < lgpage_meta_ents * nnuma
    → off < pgsize_2mb
    → addr_to_lgpage page_tbl (page_base_addr + i * pgsize_2mb + off) ≡ lgpage page_tbl i
unfolding addr_to_lgpage
addr_to_lgpage_lem page_tbl i off small h lt = omega arith

addr_to_numa_node_lem :
    (i off : ℕ)
    → i < lgpage_meta_ents * nnuma
    → off < pgsize_2mb
    → addr_to_numa_node (page_base_addr + i * pgsize_2mb + off) ≡ i / lgpage_meta_ents
unfolding addr_to_numa_node
addr_to_numa_node_lem i off h lt = omega arith

-- `PGADDR_2MB` rounds down.
pgaddr_2mb_lem : (a : ℕ) → a < 2 ^ 64 → pgaddr_2mb a ≡ a / 2 ^ 21 * 2 ^ 21
pgaddr_2mb_lem a h = bit_and-high 21 64 a (omega arith) h

-- A 2MB page starts at `big * 2 ^ 21`.
round_lem :
    (big off : ℕ) → big < 2 ^ 43 → off < 2 ^ 21 → pgaddr_2mb (big * 2 ^ 21 + off) ≡ big * 2 ^ 21
round_lem big off h lt = pgaddr_2mb_lem (big * 2 ^ 21 + off) (omega arith) ∙ omega arith

-- Small page `i` of large page `big`: its descriptor stands among the first bytes of the large page.
abbrev pub smpage : ℕ → ℕ → ℕ
smpage big i = big * pgsize_2mb + i * page_len

smpage_to_addr_lem :
    (big i : ℕ)
    → big < 2 ^ 43
    → i < 512
    → smpage_to_addr (smpage big i) ≡ big * pgsize_2mb + i * pgsize_4kb
unfolding smpage_to_addr
smpage_to_addr_lem big i h lt =
    ap (λ (b : ℕ). add64 b (sub64 (smpage big i) b / page_len * pgsize_4kb))
      (round_lem big (i * page_len) h (omega arith))
    ∙ omega arith

addr_to_smpage_lem :
    (big i off : ℕ)
    → big < 2 ^ 43
    → i < 512
    → off < pgsize_4kb
    → addr_to_smpage (big * pgsize_2mb + i * pgsize_4kb + off) ≡ smpage big i
unfolding addr_to_smpage
addr_to_smpage_lem big i off h lt small =
    let a : ℕ = big * pgsize_2mb + i * pgsize_4kb + off in
    ap (λ (b : ℕ). add64 b (sub64 a b / pgsize_4kb * page_len))
      (at_start ∙ round_lem big (i * pgsize_4kb + off) h (omega arith))
    ∙ omega arith
  where
    at_start :
        pgaddr_2mb (big * pgsize_2mb + i * pgsize_4kb + off)
        ≡ pgaddr_2mb (big * pgsize_2mb + (i * pgsize_4kb + off))
    at_start =
        ap pgaddr_2mb {x = big * pgsize_2mb + i * pgsize_4kb + off}
          {y = big * pgsize_2mb + (i * pgsize_4kb + off)} (omega arith)

is_in_table_lem :
    (page_tbl i : ℕ)
    → page_tbl < 2 ^ 63
    → i < lgpage_meta_ents * nnuma
    → is_in_table page_tbl (lgpage page_tbl i) ≡ true
unfolding is_in_table
is_in_table_lem page_tbl i small h =
    let near : sub64 (lgpage page_tbl i) page_tbl < 2 ^ 63 = omega arith in
    let inside : sub64 (lgpage page_tbl i) page_tbl / page_len < lgpage_meta_ents * nnuma =
      omega arith in
    rw (lt→ltb _ _ near, lt→ltb _ _ inside) refl

-- The descriptor of a small page lies in its large page.
smpage_to_lgpage_lem :
    (page_tbl i j : ℕ) (pages : ℕ → Page)
    → page_tbl < 2 ^ 63
    → i < lgpage_meta_ents * nnuma
    → j < 512
    → (pages (smpage (2 ^ 23 + i) j)).large ≡ false
    → smpage_to_lgpage page_tbl pages (smpage (2 ^ 23 + i) j) ≡ some (lgpage page_tbl i)
unfolding smpage_to_lgpage
smpage_to_lgpage_lem page_tbl i j pages small h hj little =
    let at_meta : smpage (2 ^ 23 + i) j ≡ page_base_addr + i * pgsize_2mb + j * page_len =
      omega arith in
    rw little (
      ap some (
        ap (addr_to_lgpage page_tbl) at_meta
        ∙ addr_to_lgpage_lem page_tbl i (j * page_len) small h (omega arith)))

lgpage-page_check :
    (page_tbl i : ℕ) (pages : ℕ → Page)
    → page_tbl < 2 ^ 63
    → i < lgpage_meta_ents * nnuma
    → (pages (lgpage page_tbl i)).large ≡ true
    → page_check page_tbl pages (lgpage page_tbl i) pgsize_2mb ≡ (pages (lgpage page_tbl i)).in_use
unfolding page_check page_to_size
lgpage-page_check page_tbl i pages small h big =
    rw (big, is_in_table_lem page_tbl i small h)
      (elim (Bool-cases (pages (lgpage page_tbl i)).in_use) [
        | inl e ↦ rw e refl
        | inr e ↦ rw e refl
      ])

smpage-page_check :
    (page_tbl i j : ℕ) (pages : ℕ → Page)
    → page_tbl < 2 ^ 63
    → i < lgpage_meta_ents * nnuma
    → j < 512
    → (pages (lgpage page_tbl i)).large ≡ true
    → (pages (lgpage page_tbl i)).shattered ≡ true
    → (pages (smpage (2 ^ 23 + i) j)).large ≡ false
    → (pages (smpage (2 ^ 23 + i) j)).shattered ≡ false
    → page_check page_tbl pages (smpage (2 ^ 23 + i) j) pgsize_4kb
      ≡ (pages (smpage (2 ^ 23 + i) j)).in_use
unfolding page_check page_to_size is_split
smpage-page_check page_tbl i j pages small h hj big split little whole =
    rw
      (
        little,
        whole,
        smpage_to_lgpage_lem page_tbl i j pages small h hj little,
        big,
        split,
        is_in_table_lem page_tbl i small h,
      )
      (elim (Bool-cases (pages (smpage (2 ^ 23 + i) j)).in_use) [
        | inl e ↦ rw e refl
        | inr e ↦ rw e refl
      ])

-- Any address inside a large page in one piece leads to its descriptor, which leads back to the start of
-- the page; the address lies in page memory, and tells the NUMA node of the descriptor. If the page is in
-- use, the checks of its descriptor pass.
pub lgpage_round_trip :
    (page_tbl i off : ℕ) (pages : ℕ → Page)
    → page_tbl < 2 ^ 63
    → i < lgpage_meta_ents * nnuma
    → off < pgsize_2mb
    → (pages (lgpage page_tbl i)).large ≡ true
    → (pages (lgpage page_tbl i)).shattered ≡ false
    → (addr_to_page page_tbl pages (page_to_addr page_tbl pages (lgpage page_tbl i) + off)
        ≡ some (lgpage page_tbl i))
      × (is_page_addr (page_to_addr page_tbl pages (lgpage page_tbl i) + off) ≡ true)
      × (addr_to_numa_node (page_to_addr page_tbl pages (lgpage page_tbl i) + off)
          ≡ i / lgpage_meta_ents)
      × (page_check page_tbl pages (lgpage page_tbl i) pgsize_2mb
          ≡ (pages (lgpage page_tbl i)).in_use)
unfolding addr_to_page page_to_addr is_page_addr
lgpage_round_trip page_tbl i off pages small h lt big whole =
    let start = lgpage_to_addr_lem page_tbl i small h in
    let there = addr_to_lgpage_lem page_tbl i off small h lt in
    rw (big, start, there, big, whole)
      (
        refl,
        ground arith,
        addr_to_numa_node_lem i off h lt,
        lgpage-page_check page_tbl i pages small h big,
      )

-- A small page of a large page that has been split: any address inside it leads to its descriptor, which
-- leads back to the start of the small page. If the page is in use and not itself split, the checks of its
-- descriptor pass.
pub smpage_round_trip :
    (page_tbl i j off : ℕ) (pages : ℕ → Page)
    → page_tbl < 2 ^ 63
    → i < lgpage_meta_ents * nnuma
    → j < 512
    → off < pgsize_4kb
    → (pages (lgpage page_tbl i)).large ≡ true
    → (pages (lgpage page_tbl i)).shattered ≡ true
    → (pages (smpage (2 ^ 23 + i) j)).large ≡ false
    → (pages (smpage (2 ^ 23 + i) j)).shattered ≡ false
    → (addr_to_page page_tbl pages (page_to_addr page_tbl pages (smpage (2 ^ 23 + i) j) + off)
        ≡ some (smpage (2 ^ 23 + i) j))
      × (page_check page_tbl pages (smpage (2 ^ 23 + i) j) pgsize_4kb
          ≡ (pages (smpage (2 ^ 23 + i) j)).in_use)
unfolding addr_to_page page_to_addr
smpage_round_trip page_tbl i j off pages small h hj lt big split little whole =
    let start = smpage_to_addr_lem (2 ^ 23 + i) j (omega arith) hj in
    let there : addr_to_lgpage page_tbl ((2 ^ 23 + i) * pgsize_2mb + j * pgsize_4kb + off)
        ≡ lgpage page_tbl i =
      ap (addr_to_lgpage page_tbl) {x = (2 ^ 23 + i) * pgsize_2mb + j * pgsize_4kb + off}
        {y = page_base_addr + i * pgsize_2mb + (j * pgsize_4kb + off)} (omega arith)
      ∙ addr_to_lgpage_lem page_tbl i (j * pgsize_4kb + off) small h (omega arith) in
    (
      rw (little, start, there, big, split)
          (ap some (addr_to_smpage_lem (2 ^ 23 + i) j off (omega arith) hj lt)),
      smpage-page_check page_tbl i j pages small h hj big split little whole,
    )
