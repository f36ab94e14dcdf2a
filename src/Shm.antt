-- ===== src/Shm.antt =====
-- runtime/ioqueues.c and inc/hwalloc/shm.h: the layout of the memory that a process shares with the daemon.
pub mod Layout
mod Tests
use libut.Common.{
  ℕ, zero, suc, ◌+◌, ◌-◌, ◌*◌, ◌/◌, ◌%◌, ◌^◌, ◌≤◌, ◌<◌, min, max, bit_and, bit_or, ◌≡◌, refl, sym,
  ap, ap₂, ◌∙◌, fun_ext, ◌≢◌, ◌↔◌, ◌⊎◌, inl, inr, Bool, true, false, not, ◌&&◌, ◌||◌, Option, none,
  some, List, [], ◌∷◌, ◌++◌, map, append-nil, append_assoc, arith, dec_lt, ℕ_discrete, ltb, leb,
  ◌==◌, if◌then◌else◌, ltb→lt, lt→ltb, leb→le, ==_iff, Bool-cases, Option-cases, ◌>>=◌, >>=-some,
  length, get_elem?, take, drop, update, slice, length-append, length-slice, update_self, update_ne,
  get_elem?-snoc, length-take, take_all, get_elem?-append_some, update-field, update-all,
  update-each, subst, take-append-drop, ◌≡⟨◌⟩◌, ◌∎,
}
use libut.Common.Words.{add64, sub64, mul64, align_up}
use libut.Page.{pgsize_2mb}

abbrev pub cache_line_size : ℕ
cache_line_size = 64

-- the sizes of `struct lrpc_msg`, `struct q_ptrs`, `struct thread_spec`, `struct control_hdr` and `uint32_t`
abbrev pub lrpc_msg_len : ℕ
lrpc_msg_len = 16

abbrev pub q_ptrs_len : ℕ
q_ptrs_len = 12

abbrev pub thread_spec_len : ℕ
thread_spec_len = 64

abbrev pub control_hdr_len : ℕ
control_hdr_len = 96

abbrev pub wb_len : ℕ
wb_len = 4

abbrev pub command_queue_mcount : ℕ
command_queue_mcount = 4096

abbrev pub header_space : ℕ → ℕ
header_space thread_count =
    align_up (add64 control_hdr_len (mul64 thread_spec_len thread_count)) cache_line_size

abbrev pub rx_space : ℕ
rx_space = align_up (mul64 lrpc_msg_len command_queue_mcount) cache_line_size

abbrev pub tx_space : ℕ
tx_space =
    add64 (align_up (mul64 lrpc_msg_len command_queue_mcount) cache_line_size)
      (align_up wb_len cache_line_size)

abbrev pub pointers_space : ℕ
pointers_space = align_up q_ptrs_len cache_line_size

unfoldable pub calculate_shm_space : ℕ → ℕ
calculate_shm_space thread_count =
    let header : ℕ = header_space thread_count in
    let rx : ℕ = add64 header (mul64 rx_space thread_count) in
    let tx : ℕ = add64 rx (mul64 tx_space thread_count) in
    align_up (add64 tx (mul64 pointers_space thread_count)) pgsize_2mb

-- `struct shm_region`
pub record ShmRegion : Type 0 where
  pub base : ℕ
  pub len : ℕ

-- `ptr_to_shmptr`; `none` is a failed assertion.
unfoldable pub ptr_to_shmptr : ShmRegion → ℕ → ℕ → Option ℕ
ptr_to_shmptr r ptr len =
    if leb r.base ptr && leb (add64 ptr len) (add64 r.base r.len)
    then some (sub64 ptr r.base)
    else none

-- `shmptr_to_ptr`; `none` is NULL.
unfoldable pub shmptr_to_ptr : ShmRegion → ℕ → ℕ → Option ℕ
shmptr_to_ptr r shmptr len =
    if ltb (2 ^ 64 - 1 - shmptr) r.len || ltb r.len (add64 shmptr len)
    then none
    else some (add64 shmptr r.base)

-- `struct queue_spec`
pub record QueueSpec : Type 0 where
  pub msg_count : ℕ
  pub msg_buf : ℕ
  pub wb : ℕ

-- What `ioqueues_shm_setup` fills of `struct thread_spec`.
pub record ThreadSpec : Type 0 where
  pub rxq : QueueSpec
  pub txq : QueueSpec
  pub q_ptrs : ℕ

-- `ioqueue_alloc`; the number is the new `*ptr`.
unfoldable pub ioqueue_alloc : ShmRegion → QueueSpec → ℕ → ℕ → Bool → Option (QueueSpec × ℕ)
ioqueue_alloc r q ptr msg_count alloc_wb =
    let len : ℕ = mul64 lrpc_msg_len msg_count in
    let next : ℕ = add64 ptr (align_up len cache_line_size) in
    ptr_to_shmptr r ptr len >>= λ msg_buf.
    if alloc_wb
    then (ptr_to_shmptr r next wb_len >>= λ wb. some (
      record { msg_count = msg_count; msg_buf = msg_buf; wb = wb },
      add64 next (align_up wb_len cache_line_size),
    ))
    else some (record q { msg_count = msg_count; msg_buf = msg_buf }, next)

-- `queue_pointers_alloc`, which asks twice for the same place
unfoldable pub queue_pointers_alloc : ShmRegion → ThreadSpec → ℕ → Option (ThreadSpec × ℕ)
queue_pointers_alloc r tspec ptr = ptr_to_shmptr r ptr q_ptrs_len >>= λ place. some (
  record tspec { rxq = record tspec.rxq { wb = place }; q_ptrs = place },
  add64 ptr (align_up q_ptrs_len cache_line_size),
)

-- one round of the loop of `ioqueues_shm_setup`
unfoldable pub thread_setup : ShmRegion → ThreadSpec → ℕ → Option (ThreadSpec × ℕ)
thread_setup r tspec ptr = ioqueue_alloc r tspec.rxq ptr command_queue_mcount false >>= λ rx.
    ioqueue_alloc r tspec.txq rx.1 command_queue_mcount true >>= λ tx.
    queue_pointers_alloc r (record tspec { rxq = rx.0; txq = tx.0 }) tx.1

-- the loop, over the entries of `hwc.threads`
unfoldable pub setup_loop : ShmRegion → List ThreadSpec → ℕ → Option (List ThreadSpec × ℕ)
setup_loop r [] ptr = some ([], ptr)
setup_loop r (tspec ∷ rest) ptr = thread_setup r tspec ptr >>= λ this.
    setup_loop r rest this.1 >>= λ others. some (this.0 ∷ others.0, others.1)

-- `ioqueues_shm_setup` once it has its key, on the first entries of `hwc.threads`; `mapped` is what
-- `mem_map_shm` answers. The outer `none` is a failed assertion, the inner one an error.
unfoldable pub ioqueues_shm_setup :
    Option ℕ → List ThreadSpec → Option (Option (ShmRegion × List ThreadSpec))
ioqueues_shm_setup none specs = some none
ioqueues_shm_setup (some base) specs =
    let r : ShmRegion = record { base = base; len = calculate_shm_space (length specs) } in
    let ptr : ℕ = add64 base (add64 control_hdr_len (mul64 thread_spec_len (length specs))) in
    setup_loop r specs (align_up ptr cache_line_size) >>= λ done. some (some (r, done.0))
