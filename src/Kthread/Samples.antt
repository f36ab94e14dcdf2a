-- ===== src/Kthread/Samples.antt =====
-- Kthreads for the runs.
use libut.Common.{ℕ, ◌≡◌, refl, false, [], arith, ◌==◌, if◌then◌else◌}
use libut.Common.Int.{negsuc}
use libut.Common.Totals.{total}
use libut.Lrpc.{Shared}
use libut.Timer.{TimerEntry}
use libut.Kthread.{Thread, ThreadState, Kthread, Runtime, timer_state}
use libut.Kthread.Attached.{IsAttached}
use libut.Kthread.Timely.{IsTimely, IsValid-empty}

abbrev empty_channel : Shared
empty_channel = record { tbl = λ p. record { cmd = 0; payload = 0 }; recv_head_wb = 0 }

-- a kthread that has just been made, but attached
abbrev pub blank : Kthread
blank = record {
  rq_head = 0;
  rq_tail = 0;
  rq_overflow = [];
  rxq = record { recv_head = 0; size = 4 };
  rx = empty_channel;
  parked = false;
  detached = false;
  q_head = 0;
  q_tail = 0;
  txq = record { send_head = 0; send_tail = 0; size = 4 };
  tx = empty_channel;
  rq = λ p. 0;
  rrq = λ p. 0;
  rrq_head = 0;
  rrq_tail = 0;
  timern = 0;
  timers = λ p. record { deadline_us = 0; e = 0 };
}

abbrev pub entries : ℕ → TimerEntry
entries e = record { armed = false; idx = 0; fn = 0; arg = 0; localk = 0 }

-- two attached kthreads, of which the second is `k`
abbrev pub two : Kthread → (Thread → ThreadState) → Runtime
two k state = record {
  kthread = λ i. if i == 1 then k else blank;
  maxks = 2;
  ks = λ p. p;
  nrks = 2;
  state = state;
  kthread_wanted = λ t. negsuc 0;
  entry = entries;
}

pub two-Attached :
    (k : Kthread) (state : Thread → ThreadState) → k.detached ≡ false → IsAttached (two k state)
unfolding total
two-Attached k state e = record {
  known = λ p h. h;
  live = λ p h. ground (arith, e);
  once = λ p q h h' e. e;
  listed = λ i h e. (i, h, refl);
  counted = ground (arith, e);
}

pub two-Timely :
    (k : Kthread) (state : Thread → ThreadState) → k.timern ≡ 0 → IsTimely (two k state)
unfolding total
two-Timely k state e = record {
  valid = λ j h. IsValid-empty j (timer_state j (two k state)) (ground (arith, e));
  room = ground (arith, e);
}
