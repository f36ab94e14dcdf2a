-- ===== src/Tcache/Alloc.antt =====
-- `tcache_alloc`, on each of its branches.
use libut.Common.{
  ℕ, ◌-◌, ◌<◌, ◌≡◌, refl, ap, ◌∙◌, ◌⊎◌, inl, inr, true, false, Option, none, some, List, [], ◌∷◌,
  arith, dec_lt, ◌==◌, Option-cases, length,
}
use mathlib.Core.Path.{subst}
use libut.Common.Int.{pos, ◌+ℤ◌}
use libut.Common.Totals.{weight}
use libut.Tcache.{
  Tcache, Perthread, is_null, reload, chained, loaded_new, alloc_mag, alloc_new, alloc_shared,
  alloc_slow, alloc_fast, alloc,
}
use libut.Tcache.Sound.{
  IsSound, AllFull, weights, held, weight-nil, weight-cons, weight-empty, reload-Reloaded,
  Allocated, cached, fetched, out_of_memory,
}

is_null-length : (xs : List ℕ) → length xs ≡ 0 → is_null xs ≡ true
is_null-length [] h = refl
is_null-length (x ∷ xs) h = absurd (omega (arith, h))

length-is_null : (xs : List ℕ) → 0 < length xs → is_null xs ≡ false
length-is_null [] h = absurd (omega (arith, h))
length-is_null (x ∷ xs) h = refl

List-cases : {A : Type 0} (xs : List A) → (xs ≡ []) ⊎ ((x : A) × (ys : List A) × (xs ≡ x ∷ ys))
List-cases [] = inl refl
List-cases (x ∷ xs) = inr (x, xs, refl)

module _ {S : Type 0} (ops_alloc : S → ℕ → Option (List ℕ) × S) (ops_free : S → List ℕ → S)
    (ltc : Perthread) (tc : Tcache) (s : S) (v : IsSound ltc tc) where
  -- What an allocation comes to.
  pub record Ran : Type 0 where
    pub item : Option ℕ
    pub handle : Perthread
    pub cache : Tcache
    pub backing : S
    pub answer : alloc ops_alloc ops_free ltc tc s ≡ some (item, handle, cache, backing)
    pub sound : IsSound handle cache
    pub how : Allocated ops_alloc ltc tc s handle cache item backing

  alloc_new-some :
      (mag : List ℕ) (s' : S)
      → ops_alloc s tc.mag_size ≡ (some mag, s')
      → alloc_new ops_alloc ops_free ltc tc s ≡ (
        (reload ltc mag).0,
        (reload ltc mag).1,
        record tc { mags_allocated = tc.mags_allocated +ℤ pos 1 },
        s',
      )
  unfolding alloc_new loaded_new alloc_mag chained
  alloc_new-some mag s' got =
      ap
        (λ (r : Option (List ℕ) × S).
          loaded_new ops_alloc ops_free ltc (chained ops_alloc ops_free tc r))
        got

  alloc_new-none :
      (s' : S)
      → ops_alloc s tc.mag_size ≡ (none, s')
      → alloc_new ops_alloc ops_free ltc tc s ≡ (none, record ltc { loaded = [] }, tc, s')
  unfolding alloc_new loaded_new alloc_mag chained
  alloc_new-none s' got =
      ap
        (λ (r : Option (List ℕ) × S).
          loaded_new ops_alloc ops_free ltc (chained ops_alloc ops_free tc r))
        got

  fast : (x : ℕ) (xs : List ℕ) → ltc.loaded ≡ x ∷ xs → Ran
  unfolding alloc alloc_fast
  fast x xs e = record {
    item = some x;
    handle = record ltc { rounds = ltc.rounds - 1; loaded = xs };
    cache = tc;
    backing = s;
    answer = rw (not_out, e, alloc_fast) refl;
    sound = record {
      some_round = v.some_round;
      small = v.small;
      capacity = v.capacity;
      rounds = omega (arith, v.rounds, ap (λ (ys : List ℕ). length ys) e);
      few = omega (arith, v.few);
      spare = v.spare;
      shared = v.shared;
    };
    how = cached x (λ w. omega (arith, ap (weight w) e, weight-cons w x xs));
  }
    where
      not_out : (ltc.rounds == 0) ≡ false
      not_out = ground (arith, v.rounds, ap (λ (ys : List ℕ). length ys) e)

  module _ (out : ltc.rounds ≡ 0) where
    is_out : (ltc.rounds == 0) ≡ true
    is_out = ground (arith, out)

    empty : length ltc.loaded ≡ 0
    empty = omega (arith, v.rounds)

    from_previous : 0 < length ltc.previous → Ran
    unfolding alloc alloc_slow
    from_previous full =
        let r =
          reload-Reloaded (record ltc { previous = [] }) ltc.previous full
            (ground (arith, v.spare, v.capacity)) (omega (arith, v.small, v.capacity)) in
        record {
          item = some r.item;
          handle = r.after;
          cache = tc;
          backing = s;
          answer =
              rw
                (
                  is_out,
                  is_null-length ltc.loaded empty,
                  length-is_null ltc.previous full,
                  r.answer,
                )
                refl;
          sound = record {
            some_round = v.some_round;
            small = v.small;
            capacity = r.capacity ∙ v.capacity;
            rounds = r.rounds;
            few = ground (arith, v.spare, r.one_less);
            spare = inl (ap (λ (ys : List ℕ). length ys) r.previous);
            shared = v.shared;
          };
          how = cached r.item (λ w. omega (
            arith,
            r.kept w,
            weight-empty w ltc.loaded empty,
            ap (weight w) r.previous,
            weight-nil w,
          ));
        }

    -- Nothing is loaded, and nothing spare.
    pooled :
        length ltc.previous ≡ 0
        → alloc ops_alloc ops_free ltc tc s
          ≡ some (alloc_shared ops_alloc ops_free ltc tc tc.shared_mags s)
    unfolding alloc alloc_slow
    pooled none_spare =
        rw (is_out, is_null-length ltc.loaded empty, is_null-length ltc.previous none_spare) refl

    from_shared :
        length ltc.previous ≡ 0
        → (mag : List ℕ) (mags : List (List ℕ)) → tc.shared_mags ≡ mag ∷ mags
        → Ran
    unfolding alloc_shared
    from_shared none_spare mag mags e =
        let full = subst (AllFull tc.mag_size) e v.shared in
        let r =
          reload-Reloaded ltc mag (omega (arith, full.0, v.some_round))
            (omega (arith, full.0, v.capacity)) (omega (arith, v.small, v.capacity)) in
        record {
          item = some r.item;
          handle = r.after;
          cache = record tc { shared_mags = mags };
          backing = s;
          answer = pooled none_spare ∙ rw (e, alloc_shared) (rw (r.answer) refl);
          sound = record {
            some_round = v.some_round;
            small = v.small;
            capacity = r.capacity ∙ v.capacity;
            rounds = r.rounds;
            few = omega (arith, full.0, r.one_less);
            spare = inl (ap (λ (ys : List ℕ). length ys) r.previous ∙ none_spare);
            shared = full.1;
          };
          how = cached r.item (λ w. omega (
            arith,
            r.kept w,
            weight-empty w ltc.loaded empty,
            ap (weight w) r.previous,
            ap (weights w) e,
          ));
        }

    nothing_held : length ltc.previous ≡ 0 → tc.shared_mags ≡ [] → (w : ℕ → ℕ) → held w ltc tc ≡ 0
    nothing_held none_spare e w = omega (
      arith,
      weight-empty w ltc.loaded empty,
      weight-empty w ltc.previous none_spare,
      ap (weights w) e,
    )

    shared_path :
        tc.shared_mags ≡ []
        → ◌≡◌ {A = Option (Option ℕ × Perthread × Tcache × S)}
            (some (alloc_shared ops_alloc ops_free ltc tc tc.shared_mags s))
            (some (alloc_new ops_alloc ops_free ltc tc s))
    unfolding alloc_shared
    shared_path e = ap (λ (l : List (List ℕ)). some (alloc_shared ops_alloc ops_free ltc tc l s)) e

    from_backing :
        length ltc.previous ≡ 0
        → tc.shared_mags ≡ []
        → (mag : List ℕ) (s' : S) → ops_alloc s tc.mag_size ≡ (some mag, s')
        → length mag ≡ tc.mag_size
        → Ran
    unfolding alloc_shared
    from_backing none_spare e mag s' got full =
        let r =
          reload-Reloaded ltc mag (omega (arith, full, v.some_round))
            (omega (arith, full, v.capacity)) (omega (arith, v.small, v.capacity)) in
        record {
          item = some r.item;
          handle = r.after;
          cache = record tc { mags_allocated = tc.mags_allocated +ℤ pos 1 };
          backing = s';
          answer =
              pooled none_spare
              ∙ shared_path e
              ∙ ap (λ (a : Option ℕ × Perthread × Tcache × S). some a)
                  (alloc_new-some mag s' got ∙ rw (r.answer) refl);
          sound = record {
            some_round = v.some_round;
            small = v.small;
            capacity = r.capacity ∙ v.capacity;
            rounds = r.rounds;
            few = omega (arith, full, r.one_less);
            spare = inl (ap (λ (ys : List ℕ). length ys) r.previous ∙ none_spare);
            shared = v.shared;
          };
          how = fetched r.item mag got (λ w.
              omega (arith, r.kept w, weight-empty w ltc.loaded empty, ap (weight w) r.previous));
        }

    exhausted :
        length ltc.previous ≡ 0
        → tc.shared_mags ≡ []
        → (s' : S) → ops_alloc s tc.mag_size ≡ (none, s')
        → Ran
    unfolding alloc_shared
    exhausted none_spare e s' got = record {
      item = none;
      handle = record ltc { loaded = [] };
      cache = tc;
      backing = s';
      answer =
          pooled none_spare
          ∙ shared_path e
          ∙ ap (λ (a : Option ℕ × Perthread × Tcache × S). some a) (alloc_new-none s' got);
      sound = record {
        some_round = v.some_round;
        small = v.small;
        capacity = v.capacity;
        rounds = out;
        few = v.few;
        spare = v.spare;
        shared = v.shared;
      };
      how = out_of_memory got (λ w.
          (nothing_held none_spare e w, omega (arith, nothing_held none_spare e w, weight-nil w)));
    }

  -- What the backing allocator promises: as many items as it is asked for, if it answers at all.
  abbrev pub Fills : Type 0
  Fills = (n : ℕ) (items : List ℕ) (s' : S) → ops_alloc s n ≡ (some items, s') → length items ≡ n

  from_pool : Fills → ltc.rounds ≡ 0 → length ltc.previous ≡ 0 → Ran
  from_pool fills out none_spare = elim (List-cases tc.shared_mags) [
    | inr (mag, mags, e) ↦ from_shared out none_spare mag mags e
    | inl e ↦ elim (Option-cases (ops_alloc s tc.mag_size).0) [
      | inr (mag, got) ↦
          let q = ap (λ (o : Option (List ℕ)). (o, (ops_alloc s tc.mag_size).1)) got in
          from_backing out none_spare e mag (ops_alloc s tc.mag_size).1 q
            (fills tc.mag_size mag (ops_alloc s tc.mag_size).1 q)
      | inl failed ↦
          exhausted out none_spare e (ops_alloc s tc.mag_size).1
            (ap (λ (o : Option (List ℕ)). (o, (ops_alloc s tc.mag_size).1)) failed)
    ]
  ]

  -- An allocation fails no assertion, reads nothing through NULL, and keeps the handle and the cache
  -- sound. It hands out one of the items held, or one of a magazine that it has the backing allocator
  -- fill; it fails only if nothing was held and the backing allocator failed.
  pub alloc_lem : Fills → Ran
  alloc_lem fills = elim (List-cases ltc.loaded) [
    | inr (x, xs, e) ↦ fast x xs e
    | inl e ↦
        let out : ltc.rounds ≡ 0 = v.rounds ∙ ap (λ (ys : List ℕ). length ys) e in
        elim (dec_lt 0 (length ltc.previous)) [
          | yes full ↦ from_previous out full
          | no none_spare ↦ from_pool fills out (omega arith)
        ]
  ]
