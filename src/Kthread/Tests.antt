-- ===== src/Kthread/Tests.antt =====
-- Runs of attaching, parking and detaching on two kthreads.
use libut.Common.{ℕ, ◌+◌, ◌≤◌, ◌≡◌, refl, ◌⊎◌, true, false, none, some, arith}
use libut.Timer.{State, earliest_deadline}
use libut.Kthread.{
  sleeping, Runtime, detach, park, unpark, Parking, park_cmd, txcmd_parked_last, after,
}
use libut.Kthread.Attached.{IsAttached}
use libut.Kthread.{polled}
use libut.Kthread.Detach.{Detached, in_flight, detach_lem}
use libut.Kthread.Samples.{blank, two, two-Attached, two-Timely}
use libut.Kthread.Park.{park_lem, unpark_lem}

abbrev asleep : Runtime
asleep = two (record blank { parked = true }) (λ t. sleeping)

detach_lem_example :
    (w' : Runtime) × (detach 0 1 asleep ≡ some w')
    × ((in_flight (asleep.kthread 1) ≡ true) × (w' ≡ polled 1 asleep)
        ⊎ (in_flight (asleep.kthread 1) ≡ false) × Detached 0 1 asleep w')
detach_lem_example = detach_lem 0 1 asleep (record {
  attached = two-Attached (record blank { parked = true }) (λ t. sleeping) refl;
  timely = two-Timely (record blank { parked = true }) (λ t. sleeping) refl;
  caller = omega arith;
  known = omega arith;
  other = omega arith;
  parked = refl;
  live = refl;
  no_threads = refl;
  no_overflow = refl;
})

-- one timer, due at 50
abbrev one_timer : State
one_timer = record {
  timers = λ p. record { deadline_us = 50; e = 3 };
  timern = 1;
  entry = λ e. record { armed = true; idx = 0; fn = 0; arg = 0; localk = 0 };
}

park_once : park_cmd true 0 20 one_timer ≡ (txcmd_parked_last, after 30)
unfolding park_cmd earliest_deadline
park_once = refl

abbrev awake : Runtime
awake = two blank (λ t. sleeping)

park_lem_example :
    (p : Parking) × (park true 1 1 2 2 0 awake ≡ some p)
    × (1 ≤ p.runningks)
    × IsAttached p.runtime
    × ((p.runtime.ks ≡ awake.ks)
        × (p.runtime.nrks ≡ awake.nrks)
        × ((j : ℕ) → (p.runtime.kthread j).detached ≡ (awake.kthread j).detached))
    × ((p.runtime.kthread 1).parked ≡ true → p.runningks + 1 ≡ 2)
    × ((p.runtime.kthread 1).parked ≡ false → (p.runningks ≡ 2) × (p.sent ≡ none))
park_lem_example =
    park_lem true 1 1 2 2 0 awake (two-Attached blank (λ t. sleeping) refl) refl (omega arith)

unpark_lem_example :
    (w' : Runtime) × (unpark 1 1 asleep ≡ some (2, w'))
    × IsAttached w'
    × ((w'.kthread 1).parked ≡ false)
    × ((w'.kthread 1).detached ≡ false)
unpark_lem_example =
    unpark_lem 1 1 asleep (two-Attached (record blank { parked = true }) (λ t. sleeping) refl)
      (omega arith) refl
