-- ===== src/Shm/Layout.antt =====
-- The pieces of the shared memory lie one after the other, in the region.
use libut.Common.{
  ℕ, ◌+◌, ◌-◌, ◌*◌, ◌/◌, ◌%◌, ◌^◌, ◌≤◌, ◌<◌, ◌≡◌, refl, ap, ◌∙◌, true, false, none, some, List, [],
  ◌∷◌, arith, leb, if◌then◌else◌, ◌>>=◌, >>=-some, length,
}
use libut.Common.Rounding.{align_up_line, align_up_2mb}
use libut.Common.Words.{add64, mul64, align_up}
use libut.Page.{pgsize_2mb}
use libut.Shm.{
  cache_line_size, lrpc_msg_len, q_ptrs_len, thread_spec_len, control_hdr_len, wb_len,
  command_queue_mcount, header_space, rx_space, tx_space, pointers_space, calculate_shm_space,
  ShmRegion, ptr_to_shmptr, shmptr_to_ptr, QueueSpec, ThreadSpec, ioqueue_alloc,
  queue_pointers_alloc, thread_setup, setup_loop, ioqueues_shm_setup,
}

line_65536 : align_up (mul64 lrpc_msg_len command_queue_mcount) cache_line_size ≡ 65536
line_65536 = omega (arith, align_up_line 65536)

line_4 : align_up wb_len cache_line_size ≡ 64
line_4 = omega (arith, align_up_line 4)

line_12 : align_up q_ptrs_len cache_line_size ≡ 64
line_12 = omega (arith, align_up_line 12)

-- The pieces of the threads from `start` to `stop`: two rings of messages, the counter that the daemon
-- writes back, and the pointers that the process shows, where its own counter is.
abbrev pub Laid : ℕ → List ThreadSpec → ℕ → Type 0
Laid start [] stop = start ≤ stop
Laid start (s ∷ rest) stop =
    (start ≤ s.rxq.msg_buf)
    × (s.rxq.msg_buf + 65536 ≤ s.txq.msg_buf)
    × (s.txq.msg_buf + 65536 ≤ s.txq.wb)
    × (s.txq.wb + 4 ≤ s.q_ptrs)
    × (s.rxq.wb ≡ s.q_ptrs)
    × Laid (s.q_ptrs + 12) rest stop

Laid-from :
    (start start' : ℕ) (l : List ThreadSpec) (stop : ℕ)
    → start' ≤ start
    → Laid start l stop
    → Laid start' l stop
Laid-from start start' [] stop h laid = omega (arith, h, laid)
Laid-from start start' (s ∷ rest) stop h (a, b, c, d, e, laid) =
    (omega (arith, h, a), b, c, d, e, laid)

Laid-to :
    (start : ℕ) (l : List ThreadSpec) (stop stop' : ℕ)
    → stop ≤ stop'
    → Laid start l stop
    → Laid start l stop'
Laid-to start [] stop stop' h laid = omega (arith, h, laid)
Laid-to start (s ∷ rest) stop stop' h (a, b, c, d, e, laid) =
    (a, b, c, d, e, Laid-to (s.q_ptrs + 12) rest stop stop' h laid)

abbrev header_end : ℕ → ℕ
header_end n = (control_hdr_len + thread_spec_len * n + 63) / 64 * 64

space_lem : (n : ℕ) → n ≤ 256 → header_end n + n * 131200 ≤ calculate_shm_space n
unfolding calculate_shm_space
space_lem n few = omega (arith, total, header)
  where
    header : header_space n ≡ header_end n
    header =
        ap (λ (x : ℕ). align_up x cache_line_size) (omega (arith, few))
        ∙ align_up_line (control_hdr_len + thread_spec_len * n) (omega arith) (omega arith)

    rx_all : mul64 rx_space n ≡ 65536 * n
    rx_all = ap (λ (x : ℕ). mul64 x n) line_65536 ∙ omega (arith, few)

    tx_all : mul64 tx_space n ≡ 65600 * n
    tx_all =
        ap (λ (x : ℕ). mul64 x n) {x = tx_space} {y = 65600} (omega (arith, line_65536, line_4))
        ∙ omega (arith, few)

    pointers_all : mul64 pointers_space n ≡ 64 * n
    pointers_all = ap (λ (x : ℕ). mul64 x n) line_12 ∙ omega (arith, few)

    total :
        align_up
          (add64
            (add64 (add64 (header_space n) (mul64 rx_space n)) (mul64 tx_space n))
            (mul64 pointers_space n))
          pgsize_2mb
        ≡ (header_end n + n * 131200 + (2 ^ 21 - 1)) / 2 ^ 21 * 2 ^ 21
    total =
        ap (λ (x : ℕ). align_up x pgsize_2mb)
          (omega (arith, header, rx_all, tx_all, pointers_all, few))
        ∙ align_up_2mb (header_end n + n * 131200) (omega arith) (omega arith)

-- A piece that lies in the region has an offset.
module _ (r : ShmRegion) (below : r.base + r.len < 2 ^ 64) where
  pub ptr_to_shmptr_lem :
      (off len : ℕ) → off + len ≤ r.len → ptr_to_shmptr r (r.base + off) len ≡ some off
  unfolding ptr_to_shmptr
  ptr_to_shmptr_lem off len inside = ground (arith, inside, below)

  rx_lem :
      (q : QueueSpec) (off : ℕ)
      → off + 65536 ≤ r.len
      → ioqueue_alloc r q (r.base + off) command_queue_mcount false
        ≡ some (record q { msg_count = 4096; msg_buf = off }, r.base + (off + 65536))
  unfolding ioqueue_alloc
  rx_lem q off inside =
      >>=-some _ (ptr_to_shmptr_lem off 65536 inside)
      ∙ ap (λ (x : ℕ). some (record q { msg_count = 4096; msg_buf = off }, x))
          (omega (arith, line_65536, inside, below))

  tx_lem :
      (q : QueueSpec) (off : ℕ)
      → off + 65600 ≤ r.len
      → ioqueue_alloc r q (r.base + off) command_queue_mcount true
        ≡ some
            (record { msg_count = 4096; msg_buf = off; wb = off + 65536 }, r.base + (off + 65600))
  unfolding ioqueue_alloc
  tx_lem q off inside =
      >>=-some _ (ptr_to_shmptr_lem off 65536 (omega arith))
      ∙ >>=-some _ (
          ap (λ (x : ℕ). ptr_to_shmptr r x 4) (omega (arith, line_65536))
          ∙ ptr_to_shmptr_lem (off + 65536) 4 (omega arith))
      ∙ ap (λ (x : ℕ). some (record { msg_count = 4096; msg_buf = off; wb = off + 65536 }, x))
          (omega (arith, line_65536, line_4))

  pointers_lem :
      (s : ThreadSpec) (off : ℕ)
      → off + 64 ≤ r.len
      → queue_pointers_alloc r s (r.base + off)
        ≡ some (record s { rxq = record s.rxq { wb = off }; q_ptrs = off }, r.base + (off + 64))
  unfolding queue_pointers_alloc
  pointers_lem s off inside =
      >>=-some _ (ptr_to_shmptr_lem off 12 (omega arith))
      ∙ ap (λ (x : ℕ). some (record s { rxq = record s.rxq { wb = off }; q_ptrs = off }, x))
          (omega (arith, line_12))

  -- what a round comes to
  abbrev filled : ThreadSpec → ℕ → ThreadSpec
  filled s off = record {
    rxq = record { msg_count = 4096; msg_buf = off; wb = off + 131136 };
    txq = record { msg_count = 4096; msg_buf = off + 65536; wb = off + 65536 + 65536 };
    q_ptrs = off + 131136;
  }

  thread_setup_lem :
      (s : ThreadSpec) (off : ℕ)
      → off + 131200 ≤ r.len
      → thread_setup r s (r.base + off) ≡ some (filled s off, r.base + (off + 131200))
  unfolding thread_setup
  thread_setup_lem s off inside =
      >>=-some _ (rx_lem s.rxq off (omega arith))
      ∙ >>=-some _ (tx_lem s.txq (off + 65536) (omega arith))
      ∙ ap
          (λ (x : ℕ).
            queue_pointers_alloc r
              (record s {
                rxq = record s.rxq { msg_count = 4096; msg_buf = off };
                txq = (filled s off).txq;
              })
              x)
          {x = r.base + (off + 65536 + 65600)} {y = r.base + (off + 131136)} (omega arith)
      ∙ pointers_lem _ (off + 131136) (omega arith)
      ∙ ap (λ (x : ℕ). some (filled s off, r.base + x)) (omega arith)

  setup_loop_lem :
      (specs : List ThreadSpec) (off : ℕ)
      → off + length specs * 131200 ≤ r.len
      → (done : List ThreadSpec) × (setup_loop r specs (r.base + off)
          ≡ some (done, r.base + (off + length specs * 131200)))
        × (length done ≡ length specs)
        × Laid off done (off + length specs * 131200)
  unfolding setup_loop
  setup_loop_lem [] off inside =
      ([], ap (λ (x : ℕ). some ([], r.base + x)) (omega arith), refl, omega arith)
  setup_loop_lem (s ∷ specs) off inside =
      let (done, e, n, laid) = setup_loop_lem specs (off + 131200) (omega (arith, inside)) in
      (
        filled s off ∷ done,
        >>=-some _ (thread_setup_lem s off (omega (arith, inside)))
            ∙ >>=-some _ e
            ∙ ap (λ (x : ℕ). some (filled s off ∷ done, x)) (omega arith),
        omega (arith, n),
        (
          omega arith,
          omega arith,
          omega arith,
          omega arith,
          refl,
          Laid-from (off + 131200) (off + 131136 + 12) done _ (omega arith)
              (Laid-to (off + 131200) done _ _ (omega arith) laid),
        ),
      )

-- For up to 256 threads, at a base that is aligned to cache lines and so low that no address wraps, no
-- assertion fails. Each thread gets its rings, counters and pointers; these lie one after the other,
-- behind the control header and the table of threads, and all of them in the region, and the daemon finds
-- the counter of a thread's incoming ring first among its pointers.
pub ioqueues_shm_setup_lem :
    (specs : List ThreadSpec)
    → length specs ≤ 256
    → (base : ℕ) → base % 64 ≡ 0
    → base + calculate_shm_space (length specs) < 2 ^ 64
    → (done : List ThreadSpec) × (ioqueues_shm_setup (some base) specs
        ≡ some (some (record { base = base; len = calculate_shm_space (length specs) }, done)))
      × (length done ≡ length specs)
      × Laid
          (control_hdr_len + thread_spec_len * length specs)
          done
          (calculate_shm_space (length specs))
unfolding ioqueues_shm_setup
ioqueues_shm_setup_lem specs few base aligned below =
    let (done, e, n, laid) =
      setup_loop_lem (record { base = base; len = calculate_shm_space (length specs) }) below specs
        (header_end (length specs)) room in
    (
      done,
      ap
            (λ (x : ℕ).
              setup_loop (record { base = base; len = calculate_shm_space (length specs) }) specs x
              >>= λ done.
                  some (
                    some
                      (record { base = base; len = calculate_shm_space (length specs) }, done.0)))
            start
          ∙ >>=-some _ e,
      n,
      Laid-from (header_end (length specs)) _ done _ (omega arith) (Laid-to _ done _ _ room laid),
    )
  where
    room : header_end (length specs) + length specs * 131200 ≤ calculate_shm_space (length specs)
    room = space_lem (length specs) few

    start :
        align_up
          (add64 base (add64 control_hdr_len (mul64 thread_spec_len (length specs))))
          cache_line_size
        ≡ base + header_end (length specs)
    start =
        ap (λ (x : ℕ). align_up x cache_line_size)
          {y = base + (control_hdr_len + thread_spec_len * length specs)}
          (omega (arith, few, room, below))
        ∙ align_up_line (base + (control_hdr_len + thread_spec_len * length specs)) (omega arith)
            (omega (arith, room, below, aligned))
        ∙ omega (arith, aligned)

-- An offset that comes from the other side is accepted exactly when the object lies in the region, for an
-- object that is no longer than the region.
pub shmptr_to_ptr_lem :
    (r : ShmRegion)
    → r.len < 2 ^ 63
    → r.base + r.len < 2 ^ 64
    → (shmptr len : ℕ) → shmptr < 2 ^ 64
    → len ≤ r.len
    → shmptr_to_ptr r shmptr len
      ≡ (if leb (shmptr + len) r.len then some (r.base + shmptr) else none)
unfolding shmptr_to_ptr
shmptr_to_ptr_lem r small below shmptr len word fits = ground (arith, small, below, word, fits)
