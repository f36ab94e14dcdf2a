-- ===== src/Tcache/Free.antt =====
-- `tcache_free` and `tcache_reclaim`, and the new cache and handle.
use libut.Common.{
  ℕ, ◌+◌, ◌≤◌, ◌<◌, ◌≡◌, refl, sym, ap, ◌∙◌, ◌⊎◌, inl, inr, Bool, true, false, Option, some, List,
  [], ◌∷◌, arith, dec_lt, length,
}
use libut.Common.Int.{ℤ, pos, negsuc, ◌+ℤ◌, pos_part, neg_part, +ℤ_parts}
use mathlib.Core.Path.{subst}
use libut.Tcache.{
  Tcache, Perthread, is_null, free_mag, reclaim_chain, reclaim, free_slow, free, create,
  init_perthread,
}
use libut.Tcache.Sound.{IsSound, AllFull, weights, held, weight-nil, weight-cons, weight-empty}

-- What a free comes to.
pub record Freed (ltc : Perthread) (tc : Tcache) (item : ℕ) : Type 0 where
  pub handle : Perthread
  pub cache : Tcache
  pub answer : free ltc tc item ≡ some (handle, cache)
  pub sound : IsSound handle cache
  pub kept : (w : ℕ → ℕ) → held w handle cache ≡ held w ltc tc + w item

module _ (ltc : Perthread) (tc : Tcache) (item : ℕ) (v : IsSound ltc tc) where
  free-fast : ltc.rounds < ltc.capacity → Freed ltc tc item
  unfolding free
  free-fast room = record {
    handle = record ltc { rounds = ltc.rounds + 1; loaded = item ∷ ltc.loaded };
    cache = tc;
    answer = ground arith;
    sound = record {
      some_round = v.some_round;
      small = v.small;
      capacity = v.capacity;
      rounds = omega (arith, v.rounds);
      few = omega (arith, v.capacity);
      spare = v.spare;
      shared = v.shared;
    };
    kept = λ w. omega (arith, weight-cons w item ltc.loaded);
  }

  abbrev fresh : Perthread
  fresh = record ltc { rounds = 1; loaded = item ∷ []; previous = ltc.loaded }

  fresh-IsSound :
      (tc' : Tcache)
      → tc'.mag_size ≡ tc.mag_size
      → ltc.rounds ≡ ltc.capacity
      → AllFull tc'.mag_size tc'.shared_mags
      → IsSound fresh tc'
  fresh-IsSound tc' e full a = record {
    some_round = omega (arith, v.some_round);
    small = omega (arith, v.small);
    capacity = v.capacity ∙ sym e;
    rounds = refl;
    few = omega (arith, v.some_round);
    spare = inr (sym v.rounds ∙ full ∙ v.capacity ∙ sym e);
    shared = a;
  }

  loaded_full : ltc.rounds ≡ ltc.capacity → is_null ltc.loaded ≡ false
  loaded_full full = not_null ltc.loaded (omega (arith, v.rounds, v.capacity, v.some_round))
    where
      not_null : (xs : List ℕ) → 0 < length xs → is_null xs ≡ false
      not_null [] h = absurd (omega (arith, h))
      not_null (x ∷ xs) h = refl

  free-keep :
      ltc.rounds ≡ ltc.capacity
      → is_null ltc.previous ≡ true
      → length ltc.previous ≡ 0
      → Freed ltc tc item
  unfolding free free_slow
  free-keep full null none_spare = record {
    handle = fresh;
    cache = tc;
    answer = ground (arith, loaded_full full);
    sound = fresh-IsSound tc refl full v.shared;
    kept = λ w.
        omega (arith, weight-cons w item [], weight-nil w, weight-empty w ltc.previous none_spare);
  }

  free-share :
      ltc.rounds ≡ ltc.capacity
      → is_null ltc.previous ≡ false
      → length ltc.previous ≡ tc.mag_size
      → Freed ltc tc item
  unfolding free free_slow
  free-share full not_null spare = record {
    handle = fresh;
    cache = record tc { shared_mags = ltc.previous ∷ tc.shared_mags };
    answer = ground (arith, loaded_full full);
    sound =
        fresh-IsSound (record tc { shared_mags = ltc.previous ∷ tc.shared_mags }) refl full
          (spare, v.shared);
    kept = λ w. omega (arith, weight-cons w item [], weight-nil w);
  }

  null_cases :
      (xs : List ℕ)
      → (length xs ≡ 0) ⊎ (length xs ≡ tc.mag_size)
      → ((is_null xs ≡ true) × (length xs ≡ 0)) ⊎ ((is_null xs ≡ false) × (length xs ≡ tc.mag_size))
  null_cases [] h = inl (refl, refl)
  null_cases (x ∷ xs) (inl h) = absurd (omega (arith, h))
  null_cases (x ∷ xs) (inr h) = inr (refl, h)

  -- A free fails no assertion and keeps the handle and the cache sound, which then hold the item
  -- beside what they held.
  pub free_lem : Freed ltc tc item
  free_lem = elim (dec_lt ltc.rounds ltc.capacity) [
    | yes room ↦ free-fast room
    | no full ↦
        let e : ltc.rounds ≡ ltc.capacity = omega (arith, v.few, v.capacity) in
        elim (null_cases ltc.previous v.spare) [
          | inl h ↦ free-keep e h.0 h.1
          | inr h ↦ free-share e h.0 h.1
        ]
  ]

-- A new cache with a new handle is sound, and holds nothing.
pub create_lem :
    (granted : Bool) (mag_size item_size : ℕ) {tc : Tcache}
    → 0 < mag_size
    → create granted mag_size item_size ≡ some (some tc)
    → IsSound (init_perthread tc) tc × ((w : ℕ → ℕ) → held w (init_perthread tc) tc ≡ 0)
unfolding create init_perthread
create_lem granted mag_size item_size {tc} some_round e =
    subst
      (λ (c : Tcache).
        IsSound (init_perthread c) c × ((w : ℕ → ℕ) → held w (init_perthread c) c ≡ 0))
      parts.1
      (
        record {
          some_round = some_round;
          small = parts.0;
          capacity = refl;
          rounds = refl;
          few = omega arith;
          spare = inl refl;
          shared = tt;
        },
        λ w. omega (arith, weight-nil w),
      )
  where
    parts :
        (mag_size ≤ 64)
        × (record { mags_allocated = pos 0; mag_size = mag_size; shared_mags = [] } ≡ tc)
    parts = ground (arith, e)

module _ {S : Type 0} (ops_alloc : S → ℕ → Option (List ℕ) × S) (ops_free : S → List ℕ → S) where
  abbrev pub give_back : S → List (List ℕ) → S
  give_back s [] = s
  give_back s (mag ∷ mags) = give_back (ops_free s mag) mags

  -- `a` is `n` less than `b`.
  abbrev pub IsLess : ℤ → ℕ → ℤ → Type 0
  IsLess a n b = pos_part a + n + neg_part b ≡ neg_part a + pos_part b

  free_mag-some :
      (tc : Tcache) (s : S) (mag : List ℕ)
      → length mag ≡ tc.mag_size
      → free_mag ops_alloc ops_free tc s mag
        ≡ some (record tc { mags_allocated = tc.mags_allocated +ℤ negsuc 0 }, ops_free s mag)
  unfolding free_mag
  free_mag-some tc s mag full = ground arith

  reclaim_chain_lem :
      (tc : Tcache) (s : S) (mags : List (List ℕ))
      → AllFull tc.mag_size mags
      → (tc' : Tcache) × (reclaim_chain ops_alloc ops_free tc s mags ≡ some (tc', give_back s mags))
        × (tc'.shared_mags ≡ tc.shared_mags)
        × (tc'.mag_size ≡ tc.mag_size)
        × IsLess tc'.mags_allocated (length mags) tc.mags_allocated
  unfolding reclaim_chain
  reclaim_chain_lem tc s [] a = (tc, refl, refl, refl, omega arith)
  reclaim_chain_lem tc s (mag ∷ mags) a =
      let tc1 : Tcache = record tc { mags_allocated = tc.mags_allocated +ℤ negsuc 0 } in
      let (tc', e, shared, size, less) = reclaim_chain_lem tc1 (ops_free s mag) mags a.1 in
      (
        tc',
        rw (free_mag-some tc s mag a.0, reclaim_chain) e,
        shared,
        size,
        omega (arith, less, +ℤ_parts tc.mags_allocated (negsuc 0)),
      )

  -- A reclaim fails no assertion: it gives each magazine of the shared pool back to the backing
  -- allocator, in their order, counts them off, and leaves the handle sound, with what it held itself.
  pub reclaim_lem :
      (ltc : Perthread) (tc : Tcache) (s : S)
      → IsSound ltc tc
      → (tc' : Tcache) × (reclaim ops_alloc ops_free tc s ≡ some (tc', give_back s tc.shared_mags))
        × IsSound ltc tc'
        × ((w : ℕ → ℕ) → held w ltc tc' + weights w tc.shared_mags ≡ held w ltc tc)
        × IsLess tc'.mags_allocated (length tc.shared_mags) tc.mags_allocated
  unfolding reclaim
  reclaim_lem ltc tc s v =
      let (tc', e, shared, size, less) =
        reclaim_chain_lem (record tc { shared_mags = [] }) s tc.shared_mags v.shared in
      (
        tc',
        e,
        record {
          some_round = omega (arith, size, v.some_round);
          small = omega (arith, size, v.small);
          capacity = v.capacity ∙ sym size;
          rounds = v.rounds;
          few = omega (arith, size, v.few);
          spare = ground (arith, v.spare, size);
          shared = subst (AllFull tc'.mag_size) (sym shared) tt;
        },
        λ w. omega (arith, ap (weights w) shared),
        less,
      )
