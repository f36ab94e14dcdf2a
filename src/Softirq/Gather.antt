-- ===== src/Softirq/Gather.antt =====
-- `softirq_gather_work` takes the commands off the channel, up to its budget.
use libut.Common.{
  ℕ, zero, suc, ◌-◌, ◌^◌, ◌≤◌, min, ◌≡◌, refl, sym, ap, ◌∙◌, none, some, List, [], ◌∷◌, ◌++◌,
  append-nil, append_assoc, arith, ltb, ◌==◌, if◌then◌else◌, length, take, drop,
}
use libut.Common.Int.{ℤ, pos, negsuc}
use libut.Lrpc.{Msg, recv}
use libut.Lrpc.Inv.{Chan, Holds}
use libut.Lrpc.Recv.{pop, received_from, recv_refines}
use libut.Softirq.{Gathered, with_cmd, rxcmd_join, gather_loop, gather, to_unsigned, max_budget}

-- the kthreads of the join commands among some messages
unfoldable pub joins_of : List Msg → List ℕ
joins_of [] = []
joins_of (m ∷ ms) =
    let rest : List ℕ = joins_of ms in if m.cmd == rxcmd_join then m.payload ∷ rest else rest

-- what is left of a budget after `n` messages
abbrev pub left_after : ℕ → ℕ → ℤ
left_after budget n = if ltb n budget then pos (budget - n - 1) else negsuc 0

-- the channel once `g` has been gathered from it
abbrev pub gathered_from : Chan → Gathered → Chan
gathered_from c g = record c { inn = g.inn; shared = g.shared }

joins_of-with_cmd :
    (m : Msg) (ms : List Msg) (joins : List ℕ)
    → with_cmd m joins ++ joins_of ms ≡ joins ++ joins_of (m ∷ ms)
unfolding joins_of
joins_of-with_cmd m ms joins = ground (arith, append_assoc joins (m.payload ∷ []) (joins_of ms))

module _ (left : ℕ) (joins : List ℕ) (c : Chan) where
  loop-stop :
      (recv c.inn c.shared).0 ≡ none
      → gather_loop (suc left) joins c.inn c.shared ≡ record {
        joins = joins;
        budget_left = pos left;
        inn = (received_from c).inn;
        shared = (received_from c).shared;
      }
  unfolding gather_loop
  loop-stop e = rw (e, gather_loop) refl

  loop-next :
      (m : Msg)
      → (recv c.inn c.shared).0 ≡ some m
      → gather_loop (suc left) joins c.inn c.shared
        ≡ gather_loop left (with_cmd m joins) (received_from c).inn (received_from c).shared
  unfolding gather_loop
  loop-next m e = rw (e, gather_loop) refl

-- What the loop comes to.
pub record Took (k left : ℕ) (joins : List ℕ) (c : Chan) (q : List Msg) (g : Gathered)
    : Type 0 where
  pub answer : g.joins ≡ joins ++ joins_of (take left q)
  pub budget : g.budget_left ≡ left_after left (length q)
  pub holds : Holds k (gathered_from c g) (drop left q)

gather_loop-Took :
    {k : ℕ} (left : ℕ) (joins : List ℕ) (q : List Msg) {c : Chan}
    → Holds k c q
    → Took k left joins c q (gather_loop left joins c.inn c.shared)
unfolding gather_loop joins_of pop
gather_loop-Took zero joins q {c} v = record {
  answer = sym (append-nil joins);
  budget = ground arith;
  holds = v;
}
gather_loop-Took (suc left) joins [] {c} v =
    let r = recv_refines [] v in
    rw (loop-stop left joins c r.0)
      record { answer = sym (append-nil joins); budget = ground arith; holds = r.1 }
gather_loop-Took (suc left) joins (m ∷ q) {c} v =
    let r = recv_refines (m ∷ q) v in
    let t = gather_loop-Took left (with_cmd m joins) q {c = received_from c} r.1 in
    let shift : left_after left (length q) ≡ left_after (suc left) (suc (length q)) =
      ground arith in
    rw (loop-next left joins c m r.0) record {
      answer = t.answer ∙ joins_of-with_cmd m (take left q) joins;
      budget = t.budget ∙ shift;
      holds = t.holds;
    }

-- Gathering takes the oldest messages off the channel, no more than the budget and 128, and keeps the
-- kthreads of the join commands, in their order. The timer budget is what the messages have left of
-- it, less one, but if they have used all of it, it is the largest unsigned number.
pub gather_lem :
    {k : ℕ} (budget : ℕ) (q : List Msg) {c : Chan}
    → Holds k c q
    → ((gather c.inn c.shared budget).0.join_reqs ≡ joins_of (take (min budget max_budget) q))
      × ((gather c.inn c.shared budget).0.timer_budget ≡ (
          if ltb (length q) (min budget max_budget)
          then min budget max_budget - length q - 1
          else 2 ^ 32 - 1))
      × Holds k
          (record c {
            inn = (gather c.inn c.shared budget).1;
            shared = (gather c.inn c.shared budget).2;
          })
          (drop (min budget max_budget) q)
unfolding gather
gather_lem budget q v =
    let t = gather_loop-Took (min budget max_budget) [] q v in
    (
      t.answer,
      ap to_unsigned t.budget ∙ unsigned (min budget max_budget) (length q) (omega arith),
      t.holds,
    )
  where
    unsigned :
        (b n : ℕ)
        → b ≤ 128
        → to_unsigned (left_after b n) ≡ (if ltb n b then b - n - 1 else 2 ^ 32 - 1)
    unsigned b n h = ground arith
