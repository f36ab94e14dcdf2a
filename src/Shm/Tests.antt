-- ===== src/Shm/Tests.antt =====
-- Runs of the layout.
use libut.Common.Words.{align_up}
use libut.Common.{◌+◌, ◌-◌, ◌*◌, ◌^◌, ◌≡◌, refl, none, some, List, [], ◌∷◌, arith, length}
use libut.Shm.{
  control_hdr_len, thread_spec_len, calculate_shm_space, ShmRegion, shmptr_to_ptr, ThreadSpec,
  ioqueues_shm_setup,
}
use libut.Shm.Layout.{Laid, ioqueues_shm_setup_lem, shmptr_to_ptr_lem}

abbrev blank : ThreadSpec
blank = record {
  rxq = record { msg_count = 0; msg_buf = 0; wb = 0 };
  txq = record { msg_count = 0; msg_buf = 0; wb = 0 };
  q_ptrs = 0;
}

-- two threads fit in one page
two_threads : calculate_shm_space 2 ≡ 2 ^ 21
unfolding calculate_shm_space align_up
two_threads = refl

ioqueues_shm_setup_lem_example :
    (done : List ThreadSpec) × (ioqueues_shm_setup (some (2 ^ 30)) (blank ∷ blank ∷ [])
      ≡ some (some (record { base = 2 ^ 30; len = calculate_shm_space 2 }, done)))
    × (length done ≡ 2)
    × Laid (control_hdr_len + thread_spec_len * 2) done (calculate_shm_space 2)
ioqueues_shm_setup_lem_example =
    ioqueues_shm_setup_lem (blank ∷ blank ∷ []) (omega arith) (2 ^ 30) refl
      (omega (arith, two_threads))

abbrev region : ShmRegion
region = record { base = 4096; len = 256 }

shmptr_to_ptr_lem_example : shmptr_to_ptr region 240 64 ≡ none
shmptr_to_ptr_lem_example =
    shmptr_to_ptr_lem region (omega arith) (omega arith) 240 64 (omega arith) (omega arith)

-- An object whose length wraps past the end is accepted.
wrapped_length : shmptr_to_ptr region 16 (2 ^ 64 - 16) ≡ some 4112
unfolding shmptr_to_ptr
wrapped_length = refl
