-- ===== src/Cores/Dense.antt =====
-- Arrays of threads without gaps, as sets.
use libut.Common.{
  ℕ, ◌+◌, ◌-◌, ◌≤◌, ◌<◌, ◌≡◌, refl, ◌≢◌, Bool, true, false, ◌&&◌, arith, ltb, ◌==◌, if◌then◌else◌,
  update,
}
use libut.Cores.{Thread, Slots, add, remove, poll_thread, unpoll_thread, ncpu, no_idx}

-- whether a thread is in the array
abbrev pub has : Slots → Thread → Bool
has s th = ltb (s.at th) s.count && (s.slots (s.at th) == th)

-- The array fits in its memory, and each thread in it knows its index.
pub record IsDense (s : Slots) : Type 0 where
  pub fits : s.count ≤ ncpu
  pub knows : (i : ℕ) → i < s.count → s.at (s.slots i) ≡ i

-- Threads that are in no place have the index -1.
pub record IsPolled (s : Slots) : Type 0 where
  pub dense : IsDense s
  pub lost : (th : Thread) → has s th ≡ false → s.at th ≡ no_idx

has_iff :
    (s : Slots) (th : Thread) → has s th ≡ true → (s.at th < s.count) × (s.slots (s.at th) ≡ th)
has_iff s th h = (ground (arith, h), ground (arith, h))

pub has-pos : (s : Slots) (th : Thread) → has s th ≡ true → 0 < s.count
has-pos s th h = ground (arith, h)

module _ (th : Thread) (s : Slots) (v : IsDense s) where
  pub has-add :
      has s th ≡ false → (x : Thread) → has (add th s) x ≡ (if x == th then true else has s x)
  unfolding add
  has-add h x = ground (arith, h)

  pub add-IsDense : has s th ≡ false → s.count < ncpu → IsDense (add th s)
  unfolding add
  add-IsDense h room = record {
    fits = omega (arith, room);
    knows = λ i lt. ground (arith, v.knows i, h, lt);
  }

  pub has-remove :
      has s th ≡ true → (x : Thread) → has (remove th s) x ≡ (if x == th then false else has s x)
  unfolding remove
  has-remove h x = ground (arith, h, v.knows (s.count - 1), has_iff s th h)

  pub remove-IsDense : has s th ≡ true → IsDense (remove th s)
  unfolding remove
  remove-IsDense h = record {
    fits = ground (arith, v.fits);
    knows = λ i lt. ground (arith, h, lt, v.knows i, v.knows (s.count - 1), has_iff s th h);
  }

module _ (th : Thread) (s : Slots) (v : IsPolled s) where
  polled_at : has s th ≡ true → s.at th ≢ no_idx
  polled_at h e = ground (arith, h, e, v.dense.fits)

  -- Polling a thread that is not polled adds it.
  pub poll-add : has s th ≡ false → poll_thread th s ≡ add th s
  unfolding poll_thread
  poll-add h = rw (v.lost th h) refl

  added-lost : has s th ≡ false → (x : Thread) → has (add th s) x ≡ false → (add th s).at x ≡ no_idx
  unfolding add
  added-lost h x e = ground (arith, h, e, v.lost x)

  pub poll-IsPolled : has s th ≡ false → s.count < ncpu → IsPolled (poll_thread th s)
  poll-IsPolled h room =
      rw (poll-add h)
        (record { dense = add-IsDense th s v.dense h room; lost = λ x e. added-lost h x e })

  -- Ceasing to poll a thread that is polled removes it.
  unpoll-remove :
      has s th ≡ true
      → unpoll_thread th s ≡ record (remove th s) { at = update (remove th s).at th no_idx }
  unfolding unpoll_thread
  unpoll-remove h = ground (arith, polled_at h)

  remove-fits : (remove th s).count ≤ ncpu
  unfolding remove
  remove-fits = omega (arith, v.dense.fits)

  pub has-unpoll :
      has s th ≡ true
      → (x : Thread) → has (unpoll_thread th s) x ≡ (if x == th then false else has s x)
  has-unpoll h x = rw (unpoll-remove h) (ground (arith, has-remove th s v.dense h x, remove-fits))

  removed-lost :
      has s th ≡ true
      → (x : Thread) → has (remove th s) x ≡ false
      → x ≢ th
      → (remove th s).at x ≡ no_idx
  unfolding remove
  removed-lost h x e ne =
      ground (arith, e, ne, h, v.lost x, v.dense.knows (s.count - 1), has_iff s th h)

  removed-knows : has s th ≡ true → (i : ℕ) → i < (remove th s).count → (remove th s).slots i ≢ th
  unfolding remove
  removed-knows h i lt =
      ground (arith, lt, h, v.dense.knows i, v.dense.knows (s.count - 1), has_iff s th h)

  pub unpoll-IsPolled : has s th ≡ true → IsPolled (unpoll_thread th s)
  unpoll-IsPolled h =
      let w = remove-IsDense th s v.dense h in
      rw (unpoll-remove h) (record {
        dense = record {
          fits = w.fits;
          knows = λ i lt. ground (arith, w.knows i lt, removed-knows h i lt);
        };
        lost = λ x e. ground (arith, e, removed-lost h x, remove-fits);
      })

  pub unpoll_room : has s th ≡ true → (unpoll_thread th s).count < ncpu
  unfolding remove
  unpoll_room h = rw (unpoll-remove h) less
    where
      less : (remove th s).count < ncpu
      less = ground (arith, has-pos s th h, v.dense.fits)

-- Polling a thread adds one at most.
pub poll-count : (th : Thread) (s : Slots) → (poll_thread th s).count ≤ s.count + 1
unfolding poll_thread add
poll-count th s = ground arith
