-- ===== src/Lrpc/Tests.antt =====
-- The channel at concrete inputs.
use libut.Common.{ℕ, ◌+◌, ◌^◌, ◌≡◌, refl, true, false, none, some, List, [], ◌∷◌, arith}
use mathlib.Core.Option
use libut.Lrpc.{
  Msg, is_power_of_two, send, recv, is_empty, parity, slot_of, put, send_slow, poll_send_tail,
}
use libut.Lrpc.Inv.{Chan, Holds}
use libut.Lrpc.Send.{push, Sent, send_refines}
use libut.Lrpc.Refine.{Op, Reply, call, new, new-Holds, run, run_queue, run_refines}

abbrev blank : ℕ → Msg
blank i = record { cmd = 0; payload = 0 }

abbrev message : ℕ → Msg
message n = record { cmd = n; payload = n + 100 }

abbrev fresh : Chan
fresh = new (2 ^ 1) blank

fresh-Holds : Holds 1 fresh []
fresh-Holds = new-Holds 1 blank (omega arith) (λ i. omega arith)

-- three sends into two slots, then more than the messages that went in are taken out
abbrev script : List Op
script =
    Op.put (message 1)
    ∷ Op.put (message 2)
    ∷ Op.put (message 3)
    ∷ Op.get
    ∷ Op.put (message 4)
    ∷ Op.poll
    ∷ Op.get
    ∷ Op.ask
    ∷ Op.get
    ∷ Op.get
    ∷ []

abbrev replies : List Reply
replies =
    Reply.sent true
    ∷ Reply.sent true
    ∷ Reply.sent false
    ∷ Reply.got (some (message 1))
    ∷ Reply.sent true
    ∷ Reply.polled
    ∷ Reply.got (some (message 2))
    ∷ Reply.asked false
    ∷ Reply.got (some (message 4))
    ∷ Reply.got none
    ∷ []

run-fresh : Option.map (λ (r : List Reply × Chan). r.0) (run fresh script) ≡ some replies
unfolding run call send send_slow recv is_empty put parity slot_of poll_send_tail
run-fresh = refl

sizes :
    (is_power_of_two 0 ≡ false) × (is_power_of_two 6 ≡ false) × (is_power_of_two (2 ^ 31) ≡ true)
unfolding is_power_of_two
sizes = (refl, refl, refl)

run_refines_example :
    (c : Chan) × (run fresh script ≡ some ((run_queue (2 ^ 1) [] script).0, c))
    × Holds 1 c (run_queue (2 ^ 1) [] script).1
run_refines_example = run_refines script fresh-Holds (omega arith)

-- a channel in which message 5 is in flight
one-Sent : Sent 1 fresh [] (message 5)
one-Sent = send_refines fresh-Holds (message 5) (omega arith)

abbrev one : Chan
one = record fresh { out = one-Sent.out; shared = one-Sent.shared }

one-Holds : Holds 1 one (message 5 ∷ [])
unfolding push
one-Holds = one-Sent.holds
