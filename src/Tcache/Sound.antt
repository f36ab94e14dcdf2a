-- ===== src/Tcache/Sound.antt =====
-- Whatever a thread allocates and frees through its cache, no assertion fails, no item is lost, and, as
-- long as nobody frees an item twice, none is handed out twice.
use libut.Common.{
  ℕ, suc, ◌+◌, ◌-◌, ◌%◌, ◌^◌, ◌≤◌, ◌<◌, ◌≡◌, refl, ◌⊎◌, Option, none, some, List, [], ◌∷◌, arith,
  length,
}
use libut.Common.Totals.{weight}
use libut.Tcache.{Tcache, Perthread, reload}

-- Every magazine of a list is full.
abbrev pub AllFull : ℕ → List (List ℕ) → Type 0
AllFull size [] = Unit
AllFull size (mag ∷ mags) = (length mag ≡ size) × AllFull size mags

-- A cache and the handle of one thread.
pub record IsSound (ltc : Perthread) (tc : Tcache) : Type 0 where
  pub some_round : 0 < tc.mag_size
  pub small : tc.mag_size ≤ 64
  pub capacity : ltc.capacity ≡ tc.mag_size
  pub rounds : ltc.rounds ≡ length ltc.loaded
  pub few : ltc.rounds ≤ tc.mag_size
  pub spare : (length ltc.previous ≡ 0) ⊎ (length ltc.previous ≡ tc.mag_size)
  pub shared : AllFull tc.mag_size tc.shared_mags

abbrev pub weights : (ℕ → ℕ) → List (List ℕ) → ℕ
weights w [] = 0
weights w (mag ∷ mags) = weight w mag + weights w mags

-- the sum over the items that a thread's handle and the shared pool hold
abbrev pub held : (ℕ → ℕ) → Perthread → Tcache → ℕ
held w ltc tc = weight w ltc.loaded + weight w ltc.previous + weights w tc.shared_mags

pub weight-nil : (w : ℕ → ℕ) → weight w [] ≡ 0
unfolding weight
weight-nil w = refl

pub weight-cons : (w : ℕ → ℕ) (x : ℕ) (xs : List ℕ) → weight w (x ∷ xs) ≡ w x + weight w xs
unfolding weight
weight-cons w x xs = refl

pub weight-empty : (w : ℕ → ℕ) (xs : List ℕ) → length xs ≡ 0 → weight w xs ≡ 0
weight-empty w [] h = weight-nil w
weight-empty w (x ∷ xs) h = absurd (omega (arith, h))

-- What a reload with a full magazine comes to.
pub record Reloaded (ltc : Perthread) (mag : List ℕ) : Type 0 where
  pub item : ℕ
  pub after : Perthread
  pub answer : reload ltc mag ≡ (some item, after)
  pub capacity : after.capacity ≡ ltc.capacity
  pub rounds : after.rounds ≡ length after.loaded
  pub one_less : suc after.rounds ≡ length mag
  pub previous : after.previous ≡ ltc.previous
  pub kept : (w : ℕ → ℕ) → weight w after.loaded + w item ≡ weight w mag

pub reload-Reloaded :
    (ltc : Perthread) (mag : List ℕ)
    → 0 < length mag
    → length mag ≡ ltc.capacity
    → ltc.capacity ≤ 64
    → Reloaded ltc mag
unfolding reload
reload-Reloaded ltc [] pos h small = absurd (omega (arith, pos))
reload-Reloaded ltc (x ∷ xs) pos h small = record {
  item = x;
  after = record ltc { rounds = (ltc.capacity + 2 ^ 32 - 1) % 2 ^ 32; loaded = xs };
  answer = refl;
  capacity = refl;
  rounds = omega (arith, h, small);
  one_less = omega (arith, h, small);
  previous = refl;
  kept = λ w. omega (arith, weight-cons w x xs);
}

-- What an allocation comes to: an item of those held, or of a magazine that the backing allocator has
-- filled, or nothing, and that only if nothing was held and the backing allocator failed.
pub data Allocated {S : Type 0} (ops_alloc : S → ℕ → Option (List ℕ) × S) (ltc : Perthread)
    (tc : Tcache) (s : S) (ltc' : Perthread) (tc' : Tcache) : Option ℕ → S → Type 0 where
  cached :
      (item : ℕ)
      → ((w : ℕ → ℕ) → held w ltc' tc' + w item ≡ held w ltc tc)
      → Allocated ops_alloc ltc tc s ltc' tc' (some item) s
  fetched :
      (item : ℕ) (items : List ℕ) {s' : S}
      → ops_alloc s tc.mag_size ≡ (some items, s')
      → ((w : ℕ → ℕ) → held w ltc' tc' + w item ≡ held w ltc tc + weight w items)
      → Allocated ops_alloc ltc tc s ltc' tc' (some item) s'
  out_of_memory :
      {s' : S}
      → ops_alloc s tc.mag_size ≡ (none, s')
      → ((w : ℕ → ℕ) → (held w ltc tc ≡ 0) × (held w ltc' tc' ≡ 0))
      → Allocated ops_alloc ltc tc s ltc' tc' none s'
