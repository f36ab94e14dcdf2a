-- ===== src/Lrpc.antt =====
-- inc/base/lrpc.h and base/lrpc.c: a one-way message channel over a shared table, whose slots carry
-- a parity bit that tells a new message from an old one.
pub mod Slots
pub mod Inv
pub mod Send
pub mod Recv
pub mod Refine
mod Tests
use libut.Common.{
  ℕ, ◌+◌, ◌-◌, ◌%◌, ◌^◌, ◌≡◌, Bool, true, false, not, ◌&&◌, Option, none, some, List, [], ◌∷◌,
  bit_and, bit_or, update, ltb, leb, ◌==◌, if◌then◌else◌,
}
use libut.Common.Words.{add32, sub32}

-- `struct lrpc_msg`
pub record Msg : Type 0 where
  pub cmd : ℕ
  pub payload : ℕ

-- The memory that the two ends share: the table and the receiver's written-back head.
pub record Shared : Type 0 where
  pub tbl : ℕ → Msg
  pub recv_head_wb : ℕ

-- `struct lrpc_chan_out`, less its pointers into `Shared`
pub record ChanOut : Type 0 where
  pub send_head : ℕ
  pub send_tail : ℕ
  pub size : ℕ

-- `struct lrpc_chan_in`, less its pointers into `Shared`
pub record ChanIn : Type 0 where
  pub recv_head : ℕ
  pub size : ℕ

abbrev pub done_parity : ℕ
done_parity = 2 ^ 63

-- `~LRPC_DONE_PARITY` on 64 bits
abbrev pub cmd_mask : ℕ
cmd_mask = 2 ^ 63 - 1

-- the parity that a message at this head position carries
pub parity : ℕ → ℕ → ℕ
parity head size = if bit_and head size == 0 then done_parity else 0

pub slot_of : ℕ → ℕ → ℕ
slot_of head size = bit_and head (sub32 size 1)

-- What both senders do once there is room: fill the slot, and advance the head.
pub put : ChanOut → Shared → ℕ → ℕ → ChanOut × Shared
put chan sh cmd payload =
    let msg : Msg = record {
      cmd = bit_or cmd (parity chan.send_head chan.size);
      payload = payload;
    } in
    (
      record chan { send_head = add32 chan.send_head 1 },
      record sh { tbl = update sh.tbl (slot_of chan.send_head chan.size) msg },
    )

-- `lrpc_poll_send_tail`
pub poll_send_tail : ChanOut → Shared → ℕ × ChanOut
poll_send_tail chan sh = (sh.recv_head_wb, record chan { send_tail = sh.recv_head_wb })

-- `__lrpc_send`. `none` is a failed assertion.
pub send_slow : ChanOut → Shared → ℕ → ℕ → Option (Bool × ChanOut × Shared)
send_slow chan sh cmd payload =
    if sub32 chan.send_head chan.send_tail == chan.size
    then (let polled : ChanOut = record chan { send_tail = sh.recv_head_wb } in
        if sub32 polled.send_head polled.send_tail == polled.size
        then some (false, polled, sh)
        else some (true, (put polled sh cmd payload).0, (put polled sh cmd payload).1))
    else none

-- `lrpc_send`
pub send : ChanOut → Shared → ℕ → ℕ → Option (Bool × ChanOut × Shared)
send chan sh cmd payload =
    if bit_and cmd done_parity == 0
    then (if leb chan.size (sub32 chan.send_head chan.send_tail)
        then send_slow chan sh cmd payload
        else some (true, (put chan sh cmd payload).0, (put chan sh cmd payload).1))
    else none

-- `lrpc_get_cached_send_window`
pub cached_send_window : ChanOut → ℕ
cached_send_window chan = (sub32 chan.size chan.send_head + chan.send_tail) % 2 ^ 32

-- `lrpc_get_cached_length`
pub cached_length : ChanOut → ℕ
cached_length chan = sub32 chan.send_head chan.send_tail

-- `lrpc_recv`: what it stores through its pointers, if it returns true.
pub recv : ChanIn → Shared → Option Msg × ChanIn × Shared
recv chan sh =
    let m : Msg = sh.tbl (slot_of chan.recv_head chan.size) in
    let head : ℕ = add32 chan.recv_head 1 in
    if bit_and m.cmd done_parity == parity chan.recv_head chan.size
    then (
      some (record { cmd = bit_and m.cmd cmd_mask; payload = m.payload }),
      record chan { recv_head = head },
      record sh { recv_head_wb = head },
    )
    else (none, chan, sh)

-- `lrpc_empty`
pub is_empty : ChanIn → Shared → Bool
is_empty chan sh = not (
    bit_and (sh.tbl (slot_of chan.recv_head chan.size)).cmd done_parity
    == parity chan.recv_head chan.size)

-- `is_power_of_two` of an `unsigned int`
pub is_power_of_two : ℕ → Bool
is_power_of_two x = not (x == 0) && (bit_and x (sub32 x 1) == 0)

-- `lrpc_init_out`; `none` is -EINVAL.
pub init_out : ℕ → Option ChanOut
init_out size =
    if is_power_of_two size
    then some (record { send_head = 0; send_tail = 0; size = size })
    else none

-- `lrpc_init_in`; `none` is -EINVAL.
pub init_in : ℕ → Option ChanIn
init_in size = if is_power_of_two size then some (record { recv_head = 0; size = size }) else none
