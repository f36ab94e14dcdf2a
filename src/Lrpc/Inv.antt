-- ===== src/Lrpc/Inv.antt =====
-- What a channel holds: the relation between its two ends, the table, and a queue of messages.
use libut.Common.{
  ℕ, suc, ◌+◌, ◌-◌, ◌*◌, ◌%◌, ◌^◌, ◌≤◌, ◌<◌, ◌≡◌, refl, sym, ap, ◌∙◌, ◌≢◌, inl, inr, some, List, [],
  ◌∷◌, ◌++◌, arith, length, get_elem?, length-append, get_elem?-snoc,
}
use libut.Common.Words.{sub32}
use libut.Common.Bits.{test_bit}
use libut.Lrpc.{Msg, Shared, ChanOut, ChanIn, put, poll_send_tail, done_parity}
use libut.Lrpc.Slots.{fresh_bit, slot_of_lem, parity_lem, slot-ne, size_bound, mark}

-- both ends of a channel
pub record Chan : Type 0 where
  pub out : ChanOut
  pub shared : Shared
  pub inn : ChanIn

-- message `n` as it stands in its slot
abbrev pub encode : ℕ → ℕ → Msg → Msg
encode k n m = record { cmd = m.cmd + fresh_bit k n * done_parity; payload = m.payload }

abbrev pub slot : ℕ → Chan → ℕ → Msg
slot k c n = c.shared.tbl (n % 2 ^ k)

-- `q` is in flight, oldest first, after `received` messages; the sender last saw `polled` of these.
pub record Holds (k : ℕ) (c : Chan) (q : List Msg) : Type 0 where
  pub received : ℕ
  pub polled : ℕ
  pub small : k < 32
  pub out_size : c.out.size ≡ 2 ^ k
  pub in_size : c.inn.size ≡ 2 ^ k
  pub send_head : c.out.send_head ≡ (received + length q) % 2 ^ 32
  pub send_tail : c.out.send_tail ≡ polled % 2 ^ 32
  pub recv_head : c.inn.recv_head ≡ received % 2 ^ 32
  pub written_back : c.shared.recv_head_wb ≡ received % 2 ^ 32
  pub behind : polled ≤ received
  pub room : received + length q ≤ polled + 2 ^ k
  pub queued :
      (j : ℕ) (m : Msg)
      → get_elem? q j ≡ some m
      → (slot k c (received + j) ≡ encode k (received + j) m) × (m.cmd < 2 ^ 63)
  pub free :
      (j : ℕ)
      → length q ≤ j
      → j < 2 ^ k
      → test_bit (slot k c (received + j)).cmd 63 ≡ 1 - fresh_bit k (received + j)

-- what the sender subtracts is the number of messages since its last poll
pub since_poll :
    {k : ℕ} {c : Chan} {q : List Msg} (v : Holds k c q)
    → sub32 c.out.send_head c.out.send_tail ≡ v.received + length q - v.polled
since_poll {k} v = omega (arith, v.send_head, v.send_tail, v.behind, v.room, size_bound k v.small)

pub poll-Holds :
    {k : ℕ} {c : Chan} {q : List Msg}
    → (v : Holds k c q) → length q ≤ 2 ^ k
    → (w : Holds k (record c { out = (poll_send_tail c.out c.shared).1 }) q) × (w.polled
        ≡ w.received)
unfolding poll_send_tail
poll-Holds v fits = (
  record {
    received = v.received;
    polled = v.received;
    small = v.small;
    out_size = v.out_size;
    in_size = v.in_size;
    send_head = v.send_head;
    send_tail = v.written_back;
    recv_head = v.recv_head;
    written_back = v.written_back;
    behind = omega arith;
    room = omega arith;
    queued = v.queued;
    free = v.free;
  },
  refl,
)

module _ {k : ℕ} {c : Chan} {q : List Msg} (v : Holds k c q) (m : Msg)
    (legal : m.cmd < 2 ^ 63) where
  abbrev n : ℕ
  n = v.received + length q

  abbrev after : Chan
  after = record c {
    out = (put c.out c.shared m.cmd m.payload).0;
    shared = (put c.out c.shared m.cmd m.payload).1;
  }

  put-slot : slot k after n ≡ encode k n m
  unfolding put
  put-slot =
      rw (v.send_head, v.out_size, slot_of_lem k n v.small, parity_lem k n v.small)
        (ground (arith, mark (fresh_bit k n) m.cmd (omega arith) legal))

  put-slot_ne : (i : ℕ) → i % 2 ^ k ≢ n % 2 ^ k → slot k after i ≡ slot k c i
  unfolding put
  put-slot_ne i ne = rw (v.send_head, v.out_size, slot_of_lem k n v.small) (ground arith)

  after-queued :
      n < v.polled + 2 ^ k
      → (j : ℕ) (x : Msg) → get_elem? (q ++ m ∷ []) j ≡ some x
      → (slot k after (v.received + j) ≡ encode k (v.received + j) x) × (x.cmd < 2 ^ 63)
  after-queued lt j x e = elim (get_elem?-snoc q m x j e) [
    | inl (old, below) ↦
        let apart =
          slot-ne (2 ^ k) (v.received + j) (length q - j) (omega arith) (omega (arith, v.behind)) in
        (
          put-slot_ne (v.received + j)
                (λ same. apart (same ∙ ap (λ (i : ℕ). i % 2 ^ k) (omega arith)))
              ∙ (v.queued j x old).0,
          (v.queued j x old).1,
        )
    | inr (last, same) ↦ (ground (arith, put-slot), ground arith)
  ]

  after-free :
      n < v.polled + 2 ^ k
      → (j : ℕ) → length (q ++ m ∷ []) ≤ j
      → j < 2 ^ k
      → test_bit (slot k after (v.received + j)).cmd 63 ≡ 1 - fresh_bit k (v.received + j)
  after-free lt j low high =
      let past : suc (length q) ≤ j = omega (arith, length-append q (m ∷ [])) in
      let apart = slot-ne (2 ^ k) n (j - length q) (omega arith) (omega arith) in
      ap (λ (w : Msg). test_bit w.cmd 63)
        (put-slot_ne (v.received + j)
          (λ same. apart (sym same ∙ ap (λ (i : ℕ). i % 2 ^ k) (omega arith))))
      ∙ v.free j (omega arith) high

  pub put-Holds : n < v.polled + 2 ^ k → Holds k after (q ++ m ∷ [])
  unfolding put
  put-Holds lt = record {
    received = v.received;
    polled = v.polled;
    small = v.small;
    out_size = v.out_size;
    in_size = v.in_size;
    send_head = omega (arith, v.send_head, length-append q (m ∷ []));
    send_tail = v.send_tail;
    recv_head = v.recv_head;
    written_back = v.written_back;
    behind = v.behind;
    room = omega (arith, length-append q (m ∷ []));
    queued = after-queued lt;
    free = after-free lt;
  }
