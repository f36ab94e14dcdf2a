-- ===== src/Lrpc/Send.antt =====
-- The sender's side: what `lrpc_send` does to the queue, and what the cached counts say of it.
use libut.Common.{
  ℕ, ◌+◌, ◌^◌, ◌≤◌, ◌<◌, bit_and, ◌≡◌, Bool, true, false, some, List, [], ◌∷◌, ◌++◌, arith, dec_lt,
  ltb, if◌then◌else◌, length,
}
use libut.Common.Bits.{bit_and-pow}
use libut.Lrpc.{
  Msg, Shared, ChanOut, put, poll_send_tail, send, send_slow, cached_send_window, cached_length,
  done_parity,
}
use libut.Lrpc.Slots.{size_bound}
use libut.Lrpc.Inv.{Chan, Holds, since_poll, poll-Holds, put-Holds}

-- A first-in first-out queue of at most `cap` messages.
unfoldable pub push : ℕ → List Msg → Msg → Bool × List Msg
push cap q m = if ltb (length q) cap then (true, q ++ m ∷ []) else (false, q)

push-room : (cap : ℕ) (q : List Msg) (m : Msg) → length q < cap → push cap q m ≡ (true, q ++ m ∷ [])
unfolding push
push-room cap q m lt = ground arith

push-full : (cap : ℕ) (q : List Msg) (m : Msg) → cap ≤ length q → push cap q m ≡ (false, q)
unfolding push
push-full cap q m le = ground arith

-- no mark on the command
no_mark : (cmd : ℕ) → cmd < 2 ^ 63 → bit_and cmd done_parity ≡ 0
no_mark cmd lt = omega (arith, bit_and-pow 63 cmd)

-- The result of a send, from a channel that holds `q`.
pub record Sent (k : ℕ) (c : Chan) (q : List Msg) (m : Msg) : Type 0 where
  pub out : ChanOut
  pub shared : Shared
  pub answer : send c.out c.shared m.cmd m.payload ≡ some ((push (2 ^ k) q m).0, out, shared)
  pub holds : Holds k (record c { out = out; shared = shared }) (push (2 ^ k) q m).1

module _ {k : ℕ} {c : Chan} {q : List Msg} (v : Holds k c q) (m : Msg)
    (legal : m.cmd < 2 ^ 63) where
  -- `c` once the sender has polled
  abbrev polled : Chan
  polled = record c { out = record c.out { send_tail = c.shared.recv_head_wb } }

  polled-Holds : (w : Holds k polled q) × (w.polled ≡ w.received)
  unfolding poll_send_tail
  polled-Holds = poll-Holds v (omega (arith, v.behind, v.room))

  -- There is room since the last poll.
  send-fast : v.received + length q < v.polled + 2 ^ k → Sent k c q m
  unfolding send
  send-fast lt = record {
    out = (put c.out c.shared m.cmd m.payload).0;
    shared = (put c.out c.shared m.cmd m.payload).1;
    answer = ground (arith, no_mark m.cmd legal, since_poll v, v.out_size, v.behind, accepts);
    holds = rw accepts (put-Holds v m legal lt);
  }
    where
      accepts : push (2 ^ k) q m ≡ (true, q ++ m ∷ [])
      accepts = push-room (2 ^ k) q m (omega (arith, v.behind))

  -- The table looked full, and the poll showed room.
  send-polled : v.received + length q ≡ v.polled + 2 ^ k → length q < 2 ^ k → Sent k c q m
  unfolding send send_slow
  send-polled full lt = record {
    out = (put polled.out c.shared m.cmd m.payload).0;
    shared = (put polled.out c.shared m.cmd m.payload).1;
    answer = ground (
      arith,
      no_mark m.cmd legal,
      since_poll v,
      since_poll polled-Holds.0,
      polled-Holds.1,
      v.out_size,
      v.behind,
      accepts,
    );
    holds = rw accepts (put-Holds polled-Holds.0 m legal (omega (arith, polled-Holds.1)));
  }
    where
      accepts : push (2 ^ k) q m ≡ (true, q ++ m ∷ [])
      accepts = push-room (2 ^ k) q m lt

  -- The table is full.
  send-full : v.received + length q ≡ v.polled + 2 ^ k → length q ≡ 2 ^ k → Sent k c q m
  unfolding send send_slow
  send-full full all = record {
    out = polled.out;
    shared = c.shared;
    answer = ground (
      arith,
      no_mark m.cmd legal,
      since_poll v,
      since_poll polled-Holds.0,
      polled-Holds.1,
      v.out_size,
      v.behind,
      refuses,
    );
    holds = rw refuses polled-Holds.0;
  }
    where
      refuses : push (2 ^ k) q m ≡ (false, q)
      refuses = push-full (2 ^ k) q m (omega arith)

  -- No assertion of a send fails. It is accepted exactly when fewer than `size` messages are in
  -- flight, whatever the sender's cached tail, and then the message is the last of the queue.
  pub send_refines : Sent k c q m
  send_refines = elim (dec_lt (v.received + length q) (v.polled + 2 ^ k)) [
    | yes lt ↦ send-fast lt
    | no full ↦ elim (dec_lt (length q) (2 ^ k)) [
      | yes lt ↦ send-polled (omega (arith, v.room)) lt
      | no all ↦ send-full (omega (arith, v.room)) (omega (arith, v.room, v.behind))
    ]
  ]

-- The cached window and the cached length make up the size, the length is at least the number of
-- messages in flight, and after a poll it is that number.
pub cached_counts :
    {k : ℕ} {c : Chan} {q : List Msg}
    → Holds k c q
    → (cached_send_window c.out + cached_length c.out ≡ c.out.size)
      × (length q ≤ cached_length c.out)
      × (cached_length (poll_send_tail c.out c.shared).1 ≡ length q)
unfolding cached_send_window cached_length poll_send_tail
cached_counts {k} {c} {q} v = (
  omega (arith, v.send_head, v.send_tail, v.behind, v.room, v.out_size, size_bound k v.small),
  omega (arith, since_poll v, v.behind),
  omega (arith, v.send_head, v.written_back, v.behind, v.room, size_bound k v.small),
)
