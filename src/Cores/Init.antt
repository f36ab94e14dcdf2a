-- ===== src/Cores/Init.antt =====
-- hwalloc/control.c and hwalloc/cores.c: a process whose threads are new.
use libut.Common.{ℕ, ◌+◌, Bool, true, false, Option, List, [], ◌∷◌, length, update}
use libut.Cores.{World, Thread, Threads, Proc, set_proc, no_idx}
use libut.Cores.Alloc.{cores_add_core}

-- `control_create_proc` and `cores_init_proc` on the thread with number `i` of process `p`; `home` is the
-- first core that is online.
abbrev pub init_thread : ℕ → ℕ → ℕ → Thread → World → World
init_thread p home i th w =
    let t : Threads = w.threads in
    record w {
      p_of = update w.p_of th p;
      index = update w.index th i;
      threads = record {
        parked = update t.parked th true;
        waking = update t.waking th false;
        reaffinitize = update t.reaffinitize th true;
        available = update t.available th true;
        core = update t.core th home;
        ts = record t.ts { at = update t.ts.at th no_idx };
      };
    }

-- the loops over the threads of the process, from number `i` on
unfoldable pub init_threads : ℕ → ℕ → ℕ → List Thread → World → World
init_threads p home i [] w = w
init_threads p home i (th ∷ ths) w = init_threads p home (i + 1) ths (init_thread p home i th w)

-- the process that `control_create_proc` and `cores_init_proc` leave
abbrev pub fresh_proc : ℕ → List Thread → Proc → Proc
fresh_proc guaranteed ths q = record {
  removed = false;
  overloaded = false;
  bursting = false;
  launched = true;
  pending_timer = false;
  guaranteed_cores = guaranteed;
  thread_count = length ths;
  inflight_preempts = 0;
  active = record q.active { count = 0 };
  idle_threads = ths;
}

abbrev pub set_up : ℕ → ℕ → ℕ → List Thread → World → World
set_up p home guaranteed ths w =
    set_proc p (fresh_proc guaranteed ths (w.proc p)) (init_threads p home 0 ths w)

-- `cores_init_proc` of a process with the threads `ths`, less their pinning to the core of Linux
unfoldable pub cores_init_proc :
    Bool → ℕ → ℕ → ℕ → ℕ → List Thread → World → Option (Option Thread × World)
cores_init_proc pinned cpu_count p home guaranteed ths w =
    cores_add_core pinned cpu_count p (set_up p home guaranteed ths w)
