-- ===== src/Timer/Down.antt =====
-- `sift_down` restores the order of a heap in which one timer may be due after its children.
use libut.Common.{
  ℕ, zero, suc, ◌+◌, ◌*◌, ◌≤◌, ◌<◌, ◌≡◌, refl, ap, ◌≢◌, Option, none, some, arith, ℕ_discrete,
}
use mathlib.Core.Path.{subst}
use libut.Timer.{TimerIdx, State, key, parent, scan, sift_down_loop, sift_down, place}
use libut.Timer.Scan.{IsLeast, Found, nothing, least, scan-Found}
use libut.Timer.Kept.{Linked, Kept-refl, Kept-trans, swap, swap-Kept}
use libut.Timer.Order.{Bridged, key-swap}
use libut.Timer.Up.{Sifted, moved_to}

-- From `lo` on, only the edges below `i` may be out of order.
pub record DownInv (lo n : ℕ) (s : State) (i : ℕ) : Type 0 where
  pub inside : i < n
  pub edges : (c : ℕ) → 0 < c → c < n → lo ≤ parent c → parent c ≢ i → key s (parent c) ≤ key s c
  pub bridged : Bridged lo n s i

-- The children of `i` are the slots from `4 i + 1` to `4 i + 4`.
abbrev Child : ℕ → State → ℕ → ℕ → Type 0
Child n s i c = IsLeast s n (i * 4 + 1) (i * 4 + 5) (key s i) c

swap-DownInv :
    (lo n : ℕ) (s : State) (i c : ℕ)
    → DownInv lo n s i
    → Child n s i c
    → DownInv lo n (swap s i c) c
swap-DownInv lo n s i c v b = record {
  inside = b.inside;
  edges = λ x p q low ne. ground (
    arith,
    key-swap s i c x,
    key-swap s i c (parent x),
    v.edges x,
    v.bridged c,
    b.least x,
    b.child,
    b.below,
  );
  bridged = λ x p q e pos low.
      ground (arith, key-swap s i c x, key-swap s i c (parent c), v.edges x, b.child, b.below);
}

module _ (rounds n : ℕ) (tmp : TimerIdx) (s : State) (i : ℕ) where
  loop-done :
      scan 4 s n (i * 4 + 1) tmp.deadline_us none ≡ none → sift_down_loop (suc rounds) tmp s i n ≡ s
  unfolding sift_down_loop
  loop-done e = rw (e, sift_down_loop)

  loop-next :
      (c : ℕ)
      → scan 4 s n (i * 4 + 1) tmp.deadline_us none ≡ some c
      → sift_down_loop (suc rounds) tmp s i n
        ≡ sift_down_loop rounds tmp (place (place s i (s.timers c)) c tmp) c n
  unfolding sift_down_loop
  loop-next c e = rw (e, sift_down_loop)

-- One round, given what the next round does.
round-Sifted :
    (rounds lo n : ℕ) (s : State) (i : ℕ)
    → Linked n s
    → DownInv lo n s i
    → ((c : ℕ)
        → Child n s i c
        → Linked n (swap s i c)
        → Sifted lo n (swap s i c) (sift_down_loop rounds ((swap s i c).timers c) (swap s i c) c n))
    → {o : Option ℕ} → Found s n (i * 4 + 1) (i * 4 + 5) (key s i) o
    → scan 4 s n (i * 4 + 1) (key s i) none ≡ o
    → Sifted lo n s (sift_down_loop (suc rounds) (s.timers i) s i n)
round-Sifted rounds lo n s i l v rest (nothing f) e =
    rw (loop-done rounds n (s.timers i) s i e) record {
      order = λ c p q low. elim (ℕ_discrete (parent c) i) [
        | yes same ↦ omega (arith, f c (omega arith) (omega arith) q, ap (key s) same)
        | no other ↦ v.edges c p q low other
      ];
      kept = Kept-refl n s l;
    }
round-Sifted rounds lo n s i l v rest (least c b) e =
    let k = swap-Kept n s i c v.inside b.inside (omega (arith, b.child)) l in
    let r = rest c b k.linked in
    rw (loop-next rounds n (s.timers i) s i c e) (
      subst (λ (x : TimerIdx). Sifted lo n s (sift_down_loop rounds x (swap s i c) c n))
        (moved_to s i c) (record { order = r.order; kept = Kept-trans k r.kept }))

sift_down_loop-Sifted :
    (rounds lo n : ℕ) (s : State) (i : ℕ)
    → n ≤ rounds + i
    → Linked n s
    → DownInv lo n s i
    → Sifted lo n s (sift_down_loop rounds (s.timers i) s i n)
sift_down_loop-Sifted zero lo n s i f l v = absurd (omega (arith, v.inside))
sift_down_loop-Sifted (suc rounds) lo n s i f l v =
    round-Sifted rounds lo n s i l v
      (λ c b l'.
        sift_down_loop-Sifted rounds lo n (swap s i c) c (omega (arith, b.child)) l'
          (swap-DownInv lo n s i c v b))
      (scan-Found s n 4 (i * 4 + 1) (i * 4 + 5) (key s i) (omega arith)) refl

-- `sift_down` puts the edges from `lo` on in order again, with the same timers.
pub sift_down-Sifted :
    (lo n : ℕ) (s : State) (i : ℕ) → Linked n s → DownInv lo n s i → Sifted lo n s (sift_down s i n)
unfolding sift_down
sift_down-Sifted lo n s i l v = sift_down_loop-Sifted n lo n s i (omega arith) l v
