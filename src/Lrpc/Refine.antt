-- ===== src/Lrpc/Refine.antt =====
-- A channel from `lrpc_init_out` and `lrpc_init_in` on, under any sequence of calls at its two ends,
-- against a bounded first-in first-out queue.
use libut.Common.{
  ℕ, ◌+◌, ◌-◌, ◌/◌, ◌%◌, ◌^◌, ◌<◌, bit_and, ◌≡◌, refl, ap, ◌≢◌, Bool, true, Option, none, some,
  List, [], ◌∷◌, arith, dec_lt,
}
use libut.Common.Bits.{pow_of_bit_and-pred}
use libut.Common.Words.{sub32}
use native.Mathlib.Nat.{pow-le-pow_right, div-eq_of_lt}
use libut.Lrpc.{
  Msg, ChanOut, ChanIn, init_out, init_in, is_power_of_two, send, poll_send_tail, recv, is_empty,
}
use libut.Lrpc.Inv.{Chan, Holds, poll-Holds}
use libut.Lrpc.Send.{push, send_refines}
use libut.Lrpc.Recv.{pop, is_nil, received_from, recv_refines, is_empty_refines}

-- `is_power_of_two` accepts an `unsigned int` exactly if it is one of the 32 powers.
pub is_power_of_two_sound :
    (x : ℕ) → x < 2 ^ 32 → is_power_of_two x ≡ true → (k : ℕ) × (x ≡ 2 ^ k) × (k < 32)
unfolding is_power_of_two
is_power_of_two_sound x small h =
    let (k, e) = pow_of_bit_and-pred x x (omega arith) (ground arith) masked in
    (
      k,
      e,
      elim (dec_lt k 32) [
        | yes lt ↦ lt
        | no ge ↦
            absurd
              (omega (arith, pow-le-pow_right {n = 2} (omega arith) {i = 32} {j = k} (omega arith)))
      ],
    )
  where
    pred : x ≢ 0 → sub32 x 1 ≡ x - 1
    pred ne = omega arith

    masked : bit_and x (x - 1) ≡ 0
    masked = ground (arith, pred, ap (bit_and x) (pred (ground arith)))

-- No slot of the table is marked.
abbrev pub Unmarked : (ℕ → Msg) → Type 0
Unmarked tbl = (i : ℕ) → (tbl i).cmd < 2 ^ 63

-- what `lrpc_init_out` and `lrpc_init_in` make
abbrev pub new : ℕ → (ℕ → Msg) → Chan
new size tbl = record {
  out = record { send_head = 0; send_tail = 0; size = size };
  shared = record { tbl = tbl; recv_head_wb = 0 };
  inn = record { recv_head = 0; size = size };
}

pub new-Holds : (k : ℕ) (tbl : ℕ → Msg) → k < 32 → Unmarked tbl → Holds k (new (2 ^ k) tbl) []
new-Holds k tbl small clean = record {
  received = 0;
  polled = 0;
  small = small;
  out_size = refl;
  in_size = refl;
  send_head = refl;
  send_tail = refl;
  recv_head = refl;
  written_back = refl;
  behind = omega arith;
  room = omega arith;
  queued = λ j m e. cc;
  free = λ j low high. omega (
    arith,
    clean ((0 + j) % 2 ^ k),
    div-eq_of_lt {n = j} {m = 2 ^ k} high,
    ap (λ (t : ℕ). t / 2 ^ k) (zero_add j),
  );
}
  where
    zero_add : (j : ℕ) → 0 + j ≡ j
    zero_add j = omega arith

init_out-some :
    (size : ℕ) (o : ChanOut)
    → init_out size ≡ some o
    → (is_power_of_two size ≡ true) × (record { send_head = 0; send_tail = 0; size = size } ≡ o)
unfolding init_out
init_out-some size o e = ground arith

init_in-some :
    (size : ℕ) (i : ChanIn) → init_in size ≡ some i → record { recv_head = 0; size = size } ≡ i
unfolding init_in
init_in-some size i e = ground arith

-- Both ends initialised with one size, over a table with no marks and a head of zero, hold nothing.
pub init-Holds :
    (size : ℕ) (tbl : ℕ → Msg) {o : ChanOut} {i : ChanIn}
    → size < 2 ^ 32
    → Unmarked tbl
    → init_out size ≡ some o
    → init_in size ≡ some i
    → (k : ℕ) × (size ≡ 2 ^ k)
      × Holds k (record { out = o; shared = record { tbl = tbl; recv_head_wb = 0 }; inn = i }) []
init-Holds size tbl {o} {i} small clean eo ei =
    let made = init_out-some size o eo in
    let (k, e, lt) = is_power_of_two_sound size small made.0 in
    (k, e, rw (← made.1, ← init_in-some size i ei, e) (new-Holds k tbl lt clean))

-- A call at one end or the other.
pub data Op : Type 0 where
  put : Msg → Op
  get : Op
  poll : Op
  ask : Op

pub data Reply : Type 0 where
  sent : Bool → Reply
  got : Option Msg → Reply
  polled : Reply
  asked : Bool → Reply

-- `none`: an assertion failed.
unfoldable pub call : Chan → Op → Option (Reply × Chan)
call c (put m) = elim (send c.out c.shared m.cmd m.payload) [
  | none ↦ none
  | some r ↦ some (sent r.0, record c { out = r.1; shared = r.2 })
]
call c get = some (got (recv c.inn c.shared).0, received_from c)
call c poll = some (polled, record c { out = (poll_send_tail c.out c.shared).1 })
call c ask = some (asked (is_empty c.inn c.shared), c)

unfoldable pub run : Chan → List Op → Option (List Reply × Chan)
run c [] = some ([], c)
run c (op ∷ ops) = elim (call c op) [
  | none ↦ none
  | some r ↦ elim (run r.1 ops) [ none ↦ none | some t ↦ some (r.0 ∷ t.0, t.1) ]
]

-- the same calls on a queue of at most `cap` messages
unfoldable pub call_queue : ℕ → List Msg → Op → Reply × List Msg
call_queue cap q (put m) = (sent (push cap q m).0, (push cap q m).1)
call_queue cap q get = (got (pop q).0, (pop q).1)
call_queue cap q poll = (polled, q)
call_queue cap q ask = (asked (is_nil q), q)

unfoldable pub run_queue : ℕ → List Msg → List Op → List Reply × List Msg
run_queue cap q [] = ([], q)
run_queue cap q (op ∷ ops) =
    let (r, q') = call_queue cap q op in let (rs, q'') = run_queue cap q' ops in (r ∷ rs, q'')

-- The commands that are sent leave the top bit clear, as `lrpc_send` asserts.
abbrev pub Legal : List Op → Type 0
Legal [] = Unit
Legal (put m ∷ ops) = (m.cmd < 2 ^ 63) × Legal ops
Legal (op ∷ ops) = Legal ops

call_refines :
    {k : ℕ} {c : Chan} {q : List Msg} (op : Op)
    → Holds k c q
    → Legal (op ∷ [])
    → (c' : Chan) × (call c op ≡ some ((call_queue (2 ^ k) q op).0, c'))
      × Holds k c' (call_queue (2 ^ k) q op).1
unfolding call call_queue
call_refines {c} (put m) v legal =
    let s = send_refines v m legal.0 in
    (record c { out = s.out; shared = s.shared }, rw (s.answer, call), s.holds)
call_refines {c} {q} get v legal =
    let r = recv_refines q v in
    (received_from c, ap (λ (a : Option Msg). some (got a, received_from c)) r.0, r.1)
call_refines {c} poll v legal = (_, refl, (poll-Holds v (omega (arith, v.behind, v.room))).0)
call_refines {c} {q} ask v legal =
    (c, ap (λ (b : Bool). some (asked b, c)) (is_empty_refines q v), v)

Legal-head : (op : Op) (ops : List Op) → Legal (op ∷ ops) → Legal (op ∷ []) × Legal ops
Legal-head (put m) ops l = ((l.0, tt), l.1)
Legal-head get ops l = (tt, l)
Legal-head poll ops l = (tt, l)
Legal-head ask ops l = (tt, l)

-- No sequence of calls fails an assertion, or tells a channel from the queue of at most `2 ^ k`
-- messages that it holds, and the channel still holds that queue at the end.
pub run_refines :
    (ops : List Op) {k : ℕ} {c : Chan} {q : List Msg}
    → Holds k c q
    → Legal ops
    → (c' : Chan) × (run c ops ≡ some ((run_queue (2 ^ k) q ops).0, c'))
      × Holds k c' (run_queue (2 ^ k) q ops).1
unfolding run run_queue
run_refines [] {c} v legal = (c, refl, v)
run_refines (op ∷ ops) v legal =
    let l = Legal-head op ops legal in
    let (c1, e1, v1) = call_refines op v l.0 in
    let (c2, e2, v2) = run_refines ops v1 l.1 in (c2, rw (e1, run) (rw (e2, run)), v2)
