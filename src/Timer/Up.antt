-- ===== src/Timer/Up.antt =====
-- `sift_up` restores the order of a heap in which one timer may be due before its parent.
use libut.Common.{ℕ, zero, suc, ◌≤◌, ◌<◌, ◌≡◌, refl, ap, ◌≢◌, ◌⊎◌, arith, dec_lt, ℕ_discrete}
use mathlib.Core.Path.{subst}
use libut.Timer.{TimerIdx, State, key, parent, sift_up_loop, sift_up, place}
use libut.Timer.Kept.{Linked, Kept, Kept-refl, Kept-trans, swap, swap-Kept}
use libut.Timer.Order.{HeapFrom, Bridged, key-swap}

-- Only the edge above `i` may be out of order.
pub record UpInv (n : ℕ) (s : State) (i : ℕ) : Type 0 where
  pub inside : i < n
  pub edges : (c : ℕ) → 0 < c → c < n → c ≢ i → key s (parent c) ≤ key s c
  pub bridged : Bridged 0 n s i

swap-UpInv :
    (n : ℕ) (s : State) (i : ℕ)
    → UpInv n s i
    → 0 < i
    → key s i < key s (parent i)
    → UpInv n (swap s i (parent i)) (parent i)
swap-UpInv n s i v pos lower = record {
  inside = omega (arith, v.inside);
  edges = λ c p q ne. ground (
    arith,
    key-swap s i (parent i) c,
    key-swap s i (parent i) (parent c),
    v.edges c,
    v.bridged c,
  );
  bridged = λ c p q e pos' low. ground (
    arith,
    key-swap s i (parent i) c,
    key-swap s i (parent i) (parent (parent i)),
    v.edges c,
    v.edges (parent i),
  );
}

-- What a sift comes to: the order, and what it leaves alone.
pub record Sifted (lo n : ℕ) (s s' : State) : Type 0 where
  pub order : HeapFrom lo n s'
  pub kept : Kept n s s'

module _ (rounds : ℕ) (tmp : TimerIdx) (s : State) (i : ℕ) where
  loop-root : i ≡ 0 → sift_up_loop (suc rounds) tmp s i ≡ s
  unfolding sift_up_loop
  loop-root e = ground arith

  loop-settled : key s (parent i) ≤ tmp.deadline_us → sift_up_loop (suc rounds) tmp s i ≡ s
  unfolding sift_up_loop
  loop-settled h = ground arith

  loop-early :
      0 < i
      → tmp.deadline_us < key s (parent i)
      → sift_up_loop (suc rounds) tmp s i
        ≡ sift_up_loop rounds tmp
            (place (place s i (s.timers (parent i))) (parent i) tmp)
            (parent i)
  unfolding sift_up_loop
  loop-early pos h = ground arith

loop-out : (tmp : TimerIdx) (s : State) (i : ℕ) → sift_up_loop 0 tmp s i ≡ s
unfolding sift_up_loop
loop-out tmp s i = refl

-- the timer that is sifted stands where it was put
pub moved_to : (s : State) (i c : ℕ) → (swap s i c).timers c ≡ s.timers i
unfolding place
moved_to s i c = ground arith

sift_up_loop-Sifted :
    (rounds n : ℕ) (s : State) (i : ℕ)
    → i ≤ rounds
    → Linked n s
    → UpInv n s i
    → Sifted 0 n s (sift_up_loop rounds (s.timers i) s i)
sift_up_loop-Sifted zero n s i f l v =
    rw (loop-out (s.timers i) s i)
      record { order = λ c p q r. v.edges c p q (omega arith); kept = Kept-refl n s l }
sift_up_loop-Sifted (suc rounds) n s i f l v = elim (dec_lt 0 i) [
  | no root ↦
      rw (loop-root rounds (s.timers i) s i (omega arith))
        record { order = λ c p q r. v.edges c p q (omega arith); kept = Kept-refl n s l }
  | yes below ↦ elim (dec_lt (key s i) (key s (parent i))) [
    | no settled ↦ rw (loop-settled rounds (s.timers i) s i (omega arith)) record {
      order = λ c p q r. elim (ℕ_discrete c i) [
        | yes same ↦ ground (arith, ap (key s) same, ap (λ (x : ℕ). key s (parent x)) same)
        | no other ↦ v.edges c p q other
      ];
      kept = Kept-refl n s l;
    }
    | yes early ↦
        let p : ℕ = parent i in
        let k = swap-Kept n s i p v.inside (omega (arith, v.inside)) (omega arith) l in
        let r =
          sift_up_loop-Sifted rounds n (swap s i p) p (omega arith) k.linked
            (swap-UpInv n s i v below early) in
        rw (loop-early rounds (s.timers i) s i below early) (
          subst (λ (x : TimerIdx). Sifted 0 n s (sift_up_loop rounds x (swap s i p) p))
            (moved_to s i p) (record { order = r.order; kept = Kept-trans k r.kept }))
  ]
]

-- `sift_up` makes a heap again of the same timers.
pub sift_up-Sifted :
    (n : ℕ) (s : State) (i : ℕ) → Linked n s → UpInv n s i → Sifted 0 n s (sift_up s i)
unfolding sift_up
sift_up-Sifted n s i l v = sift_up_loop-Sifted i n s i (omega arith) l v

-- `sift_up` leaves a timer that is not due before its parent where it is.
pub sift_up-settled : (s : State) (i : ℕ) → (i ≡ 0) ⊎ (key s (parent i) ≤ key s i) → sift_up s i ≡ s
unfolding sift_up sift_up_loop
sift_up-settled s zero h = refl
sift_up-settled s (suc i) h = ground arith
