-- ===== src/Kthread/Detach.antt =====
-- `kthread_detach`: a parked kthread leaves the runtime, and another takes over its timers.
use libut.Common.{
  ℕ, ◌+◌, ◌-◌, ◌≤◌, ◌<◌, ◌≡◌, refl, sym, ap, ap₂, ◌∙◌, ◌≢◌, ◌⊎◌, inl, inr, Bool, true, false, not,
  ◌||◌, none, some, [], arith, ℕ_discrete, ltb, Bool-cases, update, update_self, update_ne,
  update-field, update-all,
}
use mathlib.Core.Path.{subst}
use libut.Lrpc.{ChanOut, cached_length, is_empty}
use libut.Timer.{TimerIdx, State, merge}
use libut.Timer.Start.{IsValid, pending}
use libut.Timer.Merge.{Incoming, Merged, merge-Merged}
use libut.Kthread.{
  Kthread, Runtime, timer_state, removed, detached_from, remove, detach, find, polled, polled_txq,
}
use libut.Common.Totals.{total, total-update}
use libut.Kthread.Timely.{
  timers_of, all_timers, timern_of, IsTimely, IsValid-ext, IsValid-empty, pair-le,
}
use libut.Kthread.Attached.{IsAttached, Attached-ext, drop-Attached, find_lem}

valid-Incoming :
    (r : ℕ) (s t : State) → IsValid r s → s.entry ≡ t.entry → Incoming r s.timers 0 s.timern t
valid-Incoming r s t v e = record {
  linked = λ j low high. ground (arith, v.linked j, ap (λ (f : ℕ → _). (f (s.timers j).e).idx) e);
  home = λ j low high. ground (arith, v.home j, ap (λ (f : ℕ → _). (f (s.timers j).e).localk) e);
  armed = λ j low high. ground (arith, v.armed j, ap (λ (f : ℕ → _). (f (s.timers j).e).armed) e);
}

-- commands of a kthread that are still on their way
pub in_flight : Kthread → Bool
in_flight k = ltb 0 (cached_length (polled_txq k)) || not (is_empty k.rxq k.rx)

-- a kthread, but for its outgoing channel, its timers, and whether it is detached
abbrev pub erased : Kthread → Kthread
erased k = record k {
  txq = record { send_head = 0; send_tail = 0; size = 0 };
  timers = λ p. record { deadline_us = 0; e = 0 };
  timern = 0;
  detached = false;
}

-- What `kthread_detach` asks of kthread `r`, and of kthread `i` that calls it.
pub record Detachable (i r : ℕ) (w : Runtime) : Type 0 where
  pub attached : IsAttached w
  pub timely : IsTimely w
  pub caller : i < w.maxks
  pub known : r < w.maxks
  pub other : r ≢ i
  pub parked : (w.kthread r).parked ≡ true
  pub live : (w.kthread r).detached ≡ false
  pub no_threads : (w.kthread r).rq_head ≡ (w.kthread r).rq_tail
  pub no_overflow : (w.kthread r).rq_overflow ≡ []

-- The first `n` places of `ks` name kthreads, attached or not.
abbrev pub Names : ℕ → Runtime → Type 0
Names n w = (p : ℕ) → p < n → w.ks p < w.maxks

-- What a call of `kthread_detach` leaves alone.
pub record Kept (w w' : Runtime) : Type 0 where
  pub attached : IsAttached w'
  pub timely : IsTimely w'
  pub same : (j : ℕ) → erased (w'.kthread j) ≡ erased (w.kthread j)
  pub state : w'.state ≡ w.state
  pub maxks : w'.maxks ≡ w.maxks
  pub names : (n : ℕ) → w.nrks ≤ n → Names n w → Names n w'
  pub fewer : w'.nrks ≤ w.nrks
  pub timers : (f : TimerIdx → ℕ) → all_timers f w' ≡ all_timers f w

-- Kthread `r` has left the runtime, and its timers are kthread `i`'s.
pub record Detached (i r : ℕ) (w w' : Runtime) : Type 0 where
  pub gone : (w'.kthread r).detached ≡ true
  pub no_timers : (w'.kthread r).timern ≡ 0
  pub moved :
      (f : TimerIdx → ℕ)
      → pending (timer_state i w') f ≡ pending (timer_state i w) f + pending (timer_state r w) f
  pub kept : Kept w w'

-- Polling the channel of kthread `r` changes no other field.
polled-field {ℓ} :
    {A : Type ℓ} (f : Kthread → A)
    → ((k : Kthread) (c : ChanOut) → f (record k { txq = c }) ≡ f k)
    → (r j : ℕ) (w : Runtime) → f ((polled r w).kthread j) ≡ f (w.kthread j)
polled-field f blind r j w =
    update-field f w.kthread r (record (w.kthread r) { txq = polled_txq (w.kthread r) })
      (blind (w.kthread r) (polled_txq (w.kthread r))) j

polled_state : (r j : ℕ) (w : Runtime) → timer_state j (polled r w) ≡ timer_state j w
polled_state r j w =
    polled-field (λ k. record { timers = k.timers; timern = k.timern; entry = w.entry })
      (λ k c. refl) r j w

polled-Attached : (r : ℕ) (w : Runtime) → IsAttached w → IsAttached (polled r w)
polled-Attached r w a =
    Attached-ext (λ j. sym (polled-field (λ k. k.detached) (λ k c. refl) r j w)) a

polled-Timely : (r : ℕ) (w : Runtime) → r < w.maxks → IsTimely w → IsTimely (polled r w)
polled-Timely r w known t = record {
  valid = λ j h. subst (IsValid j) (sym (polled_state r j w)) (t.valid j h);
  room = omega (
    arith,
    t.room,
    total-update timern_of w.maxks w.kthread r
        (record (w.kthread r) { txq = polled_txq (w.kthread r) }) known,
  );
}

polled-timers :
    (r : ℕ) (w : Runtime)
    → r < w.maxks
    → (f : TimerIdx → ℕ) → all_timers f (polled r w) ≡ all_timers f w
polled-timers r w known f = omega (
  arith,
  total-update (timers_of f) w.maxks w.kthread r
      (record (w.kthread r) { txq = polled_txq (w.kthread r) }) known,
)

polled-Detachable : (i r : ℕ) (w : Runtime) → Detachable i r w → Detachable i r (polled r w)
polled-Detachable i r w c = record {
  attached = polled-Attached r w c.attached;
  timely = polled-Timely r w c.known c.timely;
  caller = c.caller;
  known = c.known;
  other = c.other;
  parked = polled-field (λ k. k.parked) (λ k c. refl) r r w ∙ c.parked;
  live = polled-field (λ k. k.detached) (λ k c. refl) r r w ∙ c.live;
  no_threads =
      polled-field (λ k. k.rq_head) (λ k c. refl) r r w
      ∙ c.no_threads
      ∙ sym (polled-field (λ k. k.rq_tail) (λ k c. refl) r r w);
  no_overflow = polled-field (λ k. k.rq_overflow) (λ k c. refl) r r w ∙ c.no_overflow;
}

module _ (i r : ℕ) (w : Runtime) (c : Detachable i r w) where
  -- kthread `r` in the end
  gone : Kthread
  gone = record (w.kthread r) { timern = 0; detached = true }

  gone-some : detached_from (record (w.kthread r) { timern = 0 }) ≡ some gone
  unfolding detached_from gone
  gone-some = ground (arith, c.no_threads, c.no_overflow)

  remove-some :
      (at : ℕ) (s : State)
      → merge i (w.kthread r).timers (w.kthread r).timern (timer_state i w) ≡ some (s, 0)
      → remove i r at w ≡ some (removed i r at w s gone)
  unfolding remove
  remove-some at s e = rw (e, gone-some, remove) refl

  taken : State → ℕ → Kthread
  taken s = update w.kthread i (record (w.kthread i) { timers = s.timers; timern = s.timern })

  kept_state : (at : ℕ) (s : State) → timer_state i (removed i r at w s gone) ≡ s
  unfolding taken
  kept_state at s =
      ap (λ (k : Kthread). record { timers = k.timers; timern = k.timern; entry = s.entry })
        (update_ne (taken s) r i gone c.other
          ∙ update_self w.kthread i (record (w.kthread i) { timers = s.timers; timern = s.timern }))

  module _ (at : ℕ)
      (m : Merged i r (w.kthread r).timers (w.kthread r).timern (timer_state i w)) where
    after : Runtime
    after = removed i r at w m.state gone

    -- the kthreads that have no part in it
    after-other : (j : ℕ) → i ≢ j → r ≢ j → after.kthread j ≡ w.kthread j
    unfolding after taken
    after-other j ne ne' = update_ne (taken m.state) r j gone ne' ∙ update_ne w.kthread i j _ ne

    found_lem : remove i r at w ≡ some after
    unfolding after
    found_lem = remove-some at m.state m.answer

    after-own : timer_state i after ≡ m.state
    unfolding after
    after-own = kept_state at m.state

    after-gone : after.kthread r ≡ gone
    unfolding after taken
    after-gone = update_self (taken m.state) r gone

    after-valid : (j : ℕ) → j < w.maxks → IsValid j (timer_state j after)
    unfolding gone after
    after-valid j h = elim (ℕ_discrete r j) [
      | yes here ↦ IsValid-empty j (timer_state j after) (
          ap (λ (x : ℕ). (after.kthread x).timern) (sym here)
          ∙ ap (λ (k : Kthread). k.timern) after-gone)
      | no other ↦ elim (ℕ_discrete i j) [
        | yes own ↦
            subst (λ (x : ℕ). IsValid x (timer_state x after)) own
              (subst (IsValid i) (sym after-own) m.valid)
        | no ne ↦
            IsValid-ext j (timer_state j w) (timer_state j after)
              (ap (λ (k : Kthread). k.timers) (after-other j ne other))
              (ap (λ (k : Kthread). k.timern) (after-other j ne other))
              (λ p lt.
                m.others ((w.kthread j).timers p).e
                  (λ q. ne (sym q ∙ (c.timely.valid j h).home p lt))
                  (λ q. other (sym q ∙ (c.timely.valid j h).home p lt)))
              (c.timely.valid j h)
      ]
    ]

    after-room : total timern_of after.kthread w.maxks ≡ total timern_of w.kthread w.maxks
    unfolding gone taken after
    after-room = omega (
      arith,
      m.size,
      total-update timern_of w.maxks (taken m.state) r gone c.known,
      total-update timern_of w.maxks w.kthread i
          (record (w.kthread i) { timers = m.state.timers; timern = m.state.timern }) c.caller,
      ap timern_of (
          update_ne w.kthread i r
            (record (w.kthread i) { timers = m.state.timers; timern = m.state.timern })
            (λ e. c.other (sym e))),
    )

    after-timers : (f : TimerIdx → ℕ) → all_timers f after ≡ all_timers f w
    unfolding gone taken after total
    after-timers f = omega (
      arith,
      m.all f,
      total-update (timers_of f) w.maxks (taken m.state) r gone c.known,
      total-update (timers_of f) w.maxks w.kthread i
          (record (w.kthread i) { timers = m.state.timers; timern = m.state.timern }) c.caller,
      ap (timers_of f) (
          update_ne w.kthread i r
            (record (w.kthread i) { timers = m.state.timers; timern = m.state.timern })
            (λ e. c.other (sym e))),
    )

    after-same : (j : ℕ) → erased (after.kthread j) ≡ erased (w.kthread j)
    unfolding gone taken after
    after-same j =
        update-field erased (taken m.state) r gone
          (sym (
            update-field erased w.kthread i
              (record (w.kthread i) { timers = m.state.timers; timern = m.state.timern }) refl r))
          j
        ∙ update-field erased w.kthread i
            (record (w.kthread i) { timers = m.state.timers; timern = m.state.timern }) refl j

    after-Detached : at < w.nrks → w.ks at ≡ r → Detached i r w after
    unfolding gone after taken
    after-Detached lt e = record {
      gone = ap (λ (k : Kthread). k.detached) after-gone;
      no_timers = ap (λ (k : Kthread). k.timern) after-gone;
      moved = λ f. ap (λ (t : State). pending t f) after-own ∙ m.all f;
      kept = record {
        attached = Attached-ext (λ j. ground (arith, e)) (drop-Attached c.attached at lt);
        timely = record { valid = after-valid; room = omega (arith, after-room, c.timely.room) };
        same = after-same;
        state = refl;
        maxks = refl;
        names = λ n h all p le.
            update-all (λ (x : ℕ). x < w.maxks) w.ks at (w.ks (w.nrks - 1)) p
              (all (w.nrks - 1) (omega (arith, lt, h))) (λ ne. all p le);
        fewer = omega arith;
        timers = after-timers;
      };
    }

  -- With nothing on the way, `r` is found, and its timers merge.
  remove_lem :
      (w' : Runtime) × (elim (find r w.ks 0 w.nrks) [ none ↦ none | some at ↦ remove i r at w ]
        ≡ some w')
      × Detached i r w w'
  remove_lem =
      let (p, lt, e) = c.attached.listed r c.known c.live in
      let (at, found, below, named) =
        find_lem r w.ks 0 w.nrks p (omega arith) (omega (arith, lt)) e in
      let m =
        merge-Merged i r (w.kthread r).timers (w.kthread r).timern (timer_state i w) c.other
          (c.timely.valid i c.caller)
          (valid-Incoming r (timer_state r w) (timer_state i w) (c.timely.valid r c.known) refl)
          (omega (arith, pair-le w.kthread w.maxks i r c.caller c.known c.other, c.timely.room)) in
      (after at m, rw found (found_lem at m), after-Detached at m (omega (arith, below)) named)

module _ (i r : ℕ) (w : Runtime) (c : Detachable i r w) where
  busy-some : in_flight (w.kthread r) ≡ true → detach i r w ≡ some (polled r w)
  unfolding detach in_flight
  busy-some busy = ground (arith, c.other, c.parked, c.live, busy)

  idle-some :
      in_flight (w.kthread r) ≡ false
      → detach i r w
        ≡ elim (find r w.ks 0 w.nrks) [ none ↦ none | some at ↦ remove i r at (polled r w) ]
  unfolding detach in_flight
  idle-some idle = ground (arith, c.other, c.parked, c.live, idle)

  from_polled : (w' : Runtime) → Detached i r (polled r w) w' → Detached i r w w'
  from_polled w' d = record {
    gone = d.gone;
    no_timers = d.no_timers;
    moved = λ f.
        d.moved f
        ∙ ap₂ (λ (s t : State). pending s f + pending t f) (polled_state r i w)
            (polled_state r r w);
    kept = record {
      attached = d.kept.attached;
      timely = d.kept.timely;
      same = λ j. d.kept.same j ∙ polled-field erased (λ k c. refl) r j w;
      state = d.kept.state;
      maxks = d.kept.maxks;
      names = d.kept.names;
      fewer = d.kept.fewer;
      timers = λ f. d.kept.timers f ∙ polled-timers r w c.known f;
    };
  }

  polled-Kept : Kept w (polled r w)
  polled-Kept = record {
    attached = polled-Attached r w c.attached;
    timely = polled-Timely r w c.known c.timely;
    same = λ j. polled-field erased (λ k c. refl) r j w;
    state = refl;
    maxks = refl;
    names = λ n h all. all;
    fewer = omega arith;
    timers = polled-timers r w c.known;
  }

-- Detaching a parked kthread without threads never fails, as long as all kthreads together have fewer
-- timers than one heap has room for. If commands of it are still on their way, all that changes is the
-- tail of its channel that has been read, and it stays attached. Otherwise it leaves the array, which still names each attached kthread once, and its
-- timers, all of them, move to the kthread that detached it, whose heap stays valid, as do all others.
-- In either case the queues of threads stay as they are.
pub detach_lem :
    (i r : ℕ) (w : Runtime)
    → Detachable i r w
    → (w' : Runtime) × (detach i r w ≡ some w')
      × ((in_flight (w.kthread r) ≡ true) × (w' ≡ polled r w)
          ⊎ (in_flight (w.kthread r) ≡ false) × Detached i r w w')
detach_lem i r w c = elim (Bool-cases (in_flight (w.kthread r))) [
  | inl busy ↦ (polled r w, busy-some i r w c busy, inl (busy, refl))
  | inr idle ↦
      let (w', e, d) = remove_lem i r (polled r w) (polled-Detachable i r w c) in
      (w', idle-some i r w c idle ∙ e, inr (idle, from_polled i r w c w' d))
]

pub either_way :
    (i r : ℕ) (w : Runtime)
    → Detachable i r w
    → (w' : Runtime)
    → ((in_flight (w.kthread r) ≡ true) × (w' ≡ polled r w)
        ⊎ (in_flight (w.kthread r) ≡ false) × Detached i r w w')
    → Kept w w'
either_way i r w c w' (inl (b, e)) = subst (Kept w) (sym e) (polled-Kept i r w c)
either_way i r w c w' (inr (b, d)) = d.kept
