-- ===== src/Lrpc/Recv.antt =====
-- The receiver's side: `lrpc_recv` and `lrpc_empty` on a channel that holds a queue.
use libut.Common.{
  ℕ, suc, ◌+◌, ◌-◌, ◌*◌, ◌%◌, ◌^◌, ◌≤◌, ◌<◌, bit_and, ◌≡◌, refl, sym, ap, ◌∙◌, ◌≢◌, Bool, true,
  false, Option, none, some, List, [], ◌∷◌, arith, dec_lt, length, get_elem?,
}
use libut.Common.Words.{add32}
use libut.Common.Bits.{bit_and-pow, pow-pos, test_bit}
use native.Mathlib.Nat.{add-mod_right}
use libut.Lrpc.{Msg, recv, is_empty, done_parity, slot_of, parity}
use libut.Lrpc.Slots.{fresh_bit, slot_of_lem, parity_lem, read_mark, unmark, fresh_bit-next}
use libut.Lrpc.Inv.{Chan, Holds, slot, encode}

unfoldable pub pop : List Msg → Option Msg × List Msg
pop [] = (none, [])
pop (m ∷ q) = (some m, q)

-- `c` after a call of `recv`
abbrev pub received_from : Chan → Chan
received_from c = record c { inn = (recv c.inn c.shared).1; shared = (recv c.inn c.shared).2 }

module _ {k : ℕ} {c : Chan} {q : List Msg} (v : Holds k c q) where
  -- the slot that the receiver looks at, and the parity that it wants there
  slot_read : c.shared.tbl (slot_of c.inn.recv_head c.inn.size) ≡ slot k c v.received
  slot_read = rw (v.recv_head, v.in_size, slot_of_lem k v.received v.small)

  parity_wanted : parity c.inn.recv_head c.inn.size ≡ fresh_bit k v.received * done_parity
  parity_wanted = rw (v.recv_head, v.in_size, parity_lem k v.received v.small)

  slot-plus_zero : slot k c (v.received + 0) ≡ slot k c v.received
  slot-plus_zero = ap (slot k c) (omega arith)

module _ {k : ℕ} {c : Chan} (v : Holds k c []) where
  stale : bit_and (slot k c v.received).cmd done_parity ≢ fresh_bit k v.received * done_parity
  stale e = omega (
    arith,
    bit_and-pow 63 (slot k c v.received).cmd,
    v.free 0 (omega arith) (pow-pos k),
    ap (λ (w : Msg). test_bit w.cmd 63) (slot-plus_zero v),
    ap (fresh_bit k) (add_zero v.received),
  )
    where
      add_zero : (n : ℕ) → n + 0 ≡ n
      add_zero n = omega arith

  recv-nil : recv c.inn c.shared ≡ (none, c.inn, c.shared)
  unfolding recv
  recv-nil = rw (slot_read v, parity_wanted v) (ground (arith, stale))

  is_empty-nil : is_empty c.inn c.shared ≡ true
  unfolding is_empty
  is_empty-nil = rw (slot_read v, parity_wanted v) (ground (arith, stale))

module _ {k : ℕ} {c : Chan} {m : Msg} {q : List Msg} (v : Holds k c (m ∷ q)) where
  front : (slot k c v.received ≡ encode k v.received m) × (m.cmd < 2 ^ 63)
  front =
      let h = v.queued 0 m refl in
      (sym (slot-plus_zero v) ∙ h.0 ∙ ap (λ (n : ℕ). encode k n m) (omega arith), h.1)

  current : bit_and (slot k c v.received).cmd done_parity ≡ fresh_bit k v.received * done_parity
  current = rw (front.0) (read_mark (fresh_bit k v.received) m.cmd (omega arith) front.1)

  next_head : add32 c.inn.recv_head 1 ≡ (v.received + 1) % 2 ^ 32
  next_head = omega (arith, v.recv_head)

  -- what the receiver and the shared memory become
  abbrev advanced : Chan
  advanced = record c {
    inn = record c.inn { recv_head = (v.received + 1) % 2 ^ 32 };
    shared = record c.shared { recv_head_wb = (v.received + 1) % 2 ^ 32 };
  }

  recv-cons : recv c.inn c.shared ≡ (some m, advanced.inn, advanced.shared)
  unfolding recv
  recv-cons =
      rw (slot_read v, parity_wanted v)
        (ground (arith, front, current, next_head, unmark (fresh_bit k v.received) m.cmd))

  is_empty-cons : is_empty c.inn c.shared ≡ false
  unfolding is_empty
  is_empty-cons = rw (slot_read v, parity_wanted v) (ground (arith, current))

  advanced-queued :
      (j : ℕ) (x : Msg)
      → get_elem? q j ≡ some x
      → (slot k c (v.received + 1 + j) ≡ encode k (v.received + 1 + j) x) × (x.cmd < 2 ^ 63)
  advanced-queued j x e =
      let h = v.queued (suc j) x e in
      let same : v.received + 1 + j ≡ v.received + suc j = omega arith in
      (ap (slot k c) same ∙ h.0 ∙ ap (λ (n : ℕ). encode k n x) (sym same), h.1)

  advanced-free :
      (j : ℕ)
      → length q ≤ j
      → j < 2 ^ k
      → test_bit (slot k c (v.received + 1 + j)).cmd 63 ≡ 1 - fresh_bit k (v.received + 1 + j)
  advanced-free j low high = elim (dec_lt (suc j) (2 ^ k)) [
    | yes inside ↦
        let same : v.received + 1 + j ≡ v.received + suc j = omega arith in
        ap (λ (n : ℕ). test_bit (slot k c n).cmd 63) same
        ∙ v.free (suc j) (omega arith) inside
        ∙ ap (λ (n : ℕ). 1 - fresh_bit k n) (sym same)
    | no last ↦
        let same : v.received + 1 + j ≡ v.received + 2 ^ k = omega arith in
        ap (λ (n : ℕ). test_bit (slot k c n).cmd 63) same
        ∙ ap (λ (w : Msg). test_bit w.cmd 63) (round ∙ front.0)
        ∙ omega (arith, fresh_bit-next k v.received, front.1, ap (fresh_bit k) same)
  ]
    where
      round : slot k c (v.received + 2 ^ k) ≡ slot k c v.received
      round = ap c.shared.tbl (add-mod_right v.received (2 ^ k))

  advanced-Holds : Holds k advanced q
  advanced-Holds = record {
    received = v.received + 1;
    polled = v.polled;
    small = v.small;
    out_size = v.out_size;
    in_size = v.in_size;
    send_head = omega (arith, v.send_head);
    send_tail = v.send_tail;
    recv_head = refl;
    written_back = refl;
    behind = omega (arith, v.behind);
    room = omega (arith, v.room);
    queued = advanced-queued;
    free = advanced-free;
  }

-- A receive takes the oldest message out of the queue, with the command and payload that were sent,
-- and finds nothing exactly when the queue is empty.
pub recv_refines :
    {k : ℕ} {c : Chan} (q : List Msg)
    → Holds k c q
    → ((recv c.inn c.shared).0 ≡ (pop q).0) × Holds k (received_from c) (pop q).1
unfolding pop
recv_refines [] v = rw (recv-nil v) (refl, v)
recv_refines (m ∷ q) v = rw (recv-cons v) (refl, advanced-Holds v)

unfoldable pub is_nil : List Msg → Bool
is_nil [] = true
is_nil (m ∷ q) = false

-- `lrpc_empty` tells whether the queue is empty.
pub is_empty_refines :
    {k : ℕ} {c : Chan} (q : List Msg) → Holds k c q → is_empty c.inn c.shared ≡ is_nil q
unfolding is_nil
is_empty_refines [] v = is_empty-nil v
is_empty_refines (m ∷ q) v = is_empty-cons v
