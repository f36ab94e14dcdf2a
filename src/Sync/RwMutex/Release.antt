-- ===== src/Sync/RwMutex/Release.antt =====
-- What an unlock does on each of its branches, and whom it makes ready.
use libut.Common.{
  ℕ, suc, ◌+◌, ◌-◌, ◌≤◌, ◌<◌, ◌≡◌, refl, sym, ap, ap₂, ◌∙◌, ◌≢◌, ◌⊎◌, inl, inr, true, false, some,
  List, [], ◌∷◌, ◌++◌, append-nil, arith, Bool-cases, length, take, take_all,
}
use mathlib.Core.Path.{subst}
use libut.Common.Int.{ℤ, pos, negsuc, pos_part, ltb_ℤ}
use libut.Sync.Ready.{Thread, Ready, thread_ready, ready_all, ready_all-append}
use libut.Sync.RwMutex.{RwMutex, is_zero, drop_one, wake_writer, release, unlock}

-- the threads that have left the front of a queue
abbrev pub left : List Thread → List Thread → List Thread
left old new = take (length old - length new) old

-- What the second half of an unlock may do, to the mutex `d` that the caller has left.
pub data Released (d : RwMutex) (log : Ready) : Ready → RwMutex → Type 0 where
  to_readers :
      d.count ≡ pos 0
      → 0 < pos_part d.read_waiter_count
      → Released d log
          (ready_all log d.read_waiters)
          (record d { count = d.read_waiter_count; read_waiter_count = pos 0; read_waiters = [] })
  to_writer :
      (th : Thread) (rest : List Thread)
      → d.count ≡ pos 0
      → pos_part d.read_waiter_count ≡ 0
      → d.write_waiters ≡ th ∷ rest
      → Released d log (thread_ready log th) (record d { count = negsuc 0; write_waiters = rest })
  to_nobody :
      d.count ≡ pos 0
      → pos_part d.read_waiter_count ≡ 0
      → d.write_waiters ≡ []
      → Released d log log (record d { write_waiters = [] })
  kept : d.count ≢ pos 0 → Released d log log d

wake_writer-Released :
    (d : RwMutex) (ws : List Thread) (log : Ready)
    → d.write_waiters ≡ ws
    → d.count ≡ pos 0
    → pos_part d.read_waiter_count ≡ 0
    → Released d log (wake_writer d ws log).0 (wake_writer d ws log).1
unfolding wake_writer
wake_writer-Released d [] log e z n = to_nobody z n e
wake_writer-Released d (th ∷ rest) log e z n = to_writer th rest z n e

is_zero_sound : (c : ℤ) → is_zero c ≡ true → c ≡ pos 0
is_zero_sound c h = ground arith

is_zero_refl : (c : ℤ) → is_zero c ≡ false → c ≢ pos 0
is_zero_refl c h = ground arith

pub release-Released :
    (d : RwMutex) (log : Ready) → Released d log (release d log).0 (release d log).1
unfolding release
release-Released d log = elim (Bool-cases (is_zero d.count)) [
  | inr busy ↦ rw busy (kept (is_zero_refl d.count busy))
  | inl idle ↦ elim (Bool-cases (ltb_ℤ (pos 0) d.read_waiter_count)) [
    | inl some_wait ↦ rw (idle, some_wait) (to_readers (is_zero_sound d.count idle) (ground arith))
    | inr none_wait ↦
        rw (idle, none_wait)
          (wake_writer-Released d d.write_waiters log refl (is_zero_sound d.count idle)
            (ground arith))
  ]
]

-- After an unlock that fails no assertion the lock was held, and the rest is `release`.
pub unlock-some :
    (m : RwMutex) (log log' : Ready) (m' : RwMutex)
    → unlock m log ≡ some (log', m')
    → (m.count ≢ pos 0) × (release (drop_one m) log ≡ (log', m'))
unfolding unlock
unlock-some m log log' m' e = (ground arith, ground arith)

left_self : (xs : List Thread) → left xs xs ≡ []
left_self xs = ap (λ (n : ℕ). take n xs) {x = length xs - length xs} {y = 0} (omega arith)

left_all : (xs : List Thread) → left xs [] ≡ xs
left_all xs =
    ap (λ (n : ℕ). take n xs) {x = length xs - 0} {y = length xs} (omega arith) ∙ take_all xs

left_one : (th : Thread) (xs : List Thread) → left (th ∷ xs) xs ≡ th ∷ []
left_one th xs =
    ap (λ (n : ℕ). take n (th ∷ xs)) {x = suc (length xs) - length xs} {y = 1} (omega arith)

-- What a release does to the log and to the queues.
record Handover (m m' : RwMutex) (log log' : Ready) : Type 0 where
  order :
      log' ≡ log ++ (left m.read_waiters m'.read_waiters ++ left m.write_waiters m'.write_waiters)
  all_readers : (m'.read_waiters ≡ []) ⊎ (m'.read_waiters ≡ m.read_waiters)
  one_writer : length m.write_waiters ≤ length m'.write_waiters + 1

Released-Handover :
    (d : RwMutex) (log : Ready) {log' : Ready} {m : RwMutex}
    → Released d log log' m
    → Handover d m log log'
Released-Handover d log (to_readers z some_wait) = record {
  order =
      ready_all-append log d.read_waiters
      ∙ ap (λ (r : List Thread). log ++ r) (sym (append-nil d.read_waiters))
      ∙ ap₂ (λ (r s : List Thread). log ++ (r ++ s)) (sym (left_all d.read_waiters))
          (sym (left_self d.write_waiters));
  all_readers = inl refl;
  one_writer = omega arith;
}
Released-Handover d log (to_writer th rest z none_wait e) = record {
  order =
      ap₂ (λ (r s : List Thread). log ++ (r ++ s)) (sym (left_self d.read_waiters))
        (sym (ap (λ (ws : List Thread). left ws rest) e ∙ left_one th rest));
  all_readers = inr refl;
  one_writer = omega (arith, ap length e);
}
Released-Handover d log (to_nobody z none_wait e) = record {
  order =
      sym (append-nil log)
      ∙ ap₂ (λ (r s : List Thread). log ++ (r ++ s)) (sym (left_self d.read_waiters))
          (sym (ap (λ (ws : List Thread). left ws []) e));
  all_readers = inr refl;
  one_writer = omega (arith, ap length e);
}
Released-Handover d log (kept busy) = record {
  order =
      sym (append-nil log)
      ∙ ap₂ (λ (r s : List Thread). log ++ (r ++ s)) (sym (left_self d.read_waiters))
          (sym (left_self d.write_waiters));
  all_readers = inr refl;
  one_writer = omega arith;
}

-- An unlock makes ready exactly the threads that leave the queues, in the order of their arrival and
-- readers first; it lets every waiting reader in, or one waiting writer, or none.
pub unlock_order :
    (m : RwMutex) (log log' : Ready) (m' : RwMutex)
    → unlock m log ≡ some (log', m')
    → (log' ≡ log ++ (left m.read_waiters m'.read_waiters ++ left m.write_waiters m'.write_waiters))
      × ((m'.read_waiters ≡ []) ⊎ (m'.read_waiters ≡ m.read_waiters))
      × (length m.write_waiters ≤ length m'.write_waiters + 1)
unfolding drop_one
unlock_order m log log' m' e =
    let u = unlock-some m log log' m' e in
    let h =
      subst (λ (r : Ready × RwMutex). Handover (drop_one m) r.1 log r.0) (u.1)
        (Released-Handover (drop_one m) log (release-Released (drop_one m) log)) in
    (h.order, h.all_readers, h.one_writer)
