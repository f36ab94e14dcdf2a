-- ===== src/Softirq/Tests.antt =====
-- The softirq at concrete inputs: a channel that holds one message, and no timers.
use libut.Common.{◌^◌, false, [], ◌∷◌, arith}
use libut.Lrpc.{Msg}
use libut.Lrpc.Inv.{Chan, Holds}
use libut.Lrpc.Send.{Sent, send_refines, push}
use libut.Lrpc.Refine.{new, new-Holds}
use libut.Timer.{State}
use libut.Timer.Start.{IsValid}
use libut.Timer.Softirq.{quiet}
use libut.Softirq.{softirq_run}
use libut.Softirq.Run.{Handled, softirq_run_lem}

abbrev join_nine : Msg
join_nine = record { cmd = 0; payload = 9 }

abbrev empty : Chan
empty = new (2 ^ 1) (λ i. record { cmd = 0; payload = 0 })

empty-Holds : Holds 1 empty []
empty-Holds = new-Holds 1 (λ i. record { cmd = 0; payload = 0 }) (omega arith) (λ i. omega arith)

one-Sent : Sent 1 empty [] join_nine
one-Sent = send_refines empty-Holds join_nine (omega arith)

-- the channel once a join has been sent
abbrev one : Chan
one = record empty { out = one-Sent.out; shared = one-Sent.shared }

one-Holds : Holds 1 one (join_nine ∷ [])
unfolding push
one-Holds = one-Sent.holds

abbrev no_timers : State
no_timers = record {
  timers = λ i. record { deadline_us = 0; e = 0 };
  timern = 0;
  entry = λ e. record { armed = false; idx = 0; fn = 0; arg = 0; localk = 0 };
}

no_timers-IsValid : IsValid 0 no_timers
no_timers-IsValid = record {
  small = omega arith;
  order = λ c p q low. absurd (omega arith);
  linked = λ j h. absurd (omega arith);
  home = λ j h. absurd (omega arith);
  armed = λ j h. absurd (omega arith);
}

softirq_run_lem_example :
    Handled 1 0 16
      (λ i. 5)
      one
      (join_nine ∷ [])
      (softirq_run quiet 16 (λ i. 5) no_timers one.inn one.shared)
softirq_run_lem_example =
    softirq_run_lem 0 16 quiet (λ e t v. v) (λ i. 5) no_timers no_timers-IsValid (join_nine ∷ [])
      one-Holds
