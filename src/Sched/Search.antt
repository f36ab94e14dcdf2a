-- ===== src/Sched/Search.antt =====
-- The attempts to steal of one round, one after the other.
use libut.Common.{
  ℕ, zero, suc, ◌+◌, ◌-◌, ◌%◌, ◌≤◌, ◌<◌, ◌≡◌, refl, ap, ◌∙◌, Bool, true, false, Option, none, some,
  List, [], ◌∷◌, arith, ℕ_discrete, leb, ◌==◌, if◌then◌else◌, ◌>>=◌, >>=-some,
}
use native.Mathlib.Nat.{mod-lt}
use libut.Kthread.{Thread, ThreadState, sleeping, Runtime}
use libut.Kthread.Detach.{Names}
use libut.Sched.{Try}
use libut.Sched.Sound.{IsSound}
use libut.Sched.Stolen.{Tried}
use libut.Sched.Steal.{steal_lem}
use libut.Sched.Round.{
  Env, max_siblings, siblings, sibling_end, attempt, or_else, try_siblings, sweep, level_1,
  steal_round,
}

module _ (i : ℕ) where
  -- Kthread `i` has nothing to run, and can look for it elsewhere.
  pub record CanSearch (w : Runtime) : Type 0 where
    pub sound : IsSound [] w
    pub caller : i < w.maxks
    pub no_head : (w.kthread i).rq_head ≡ 0
    pub no_tail : (w.kthread i).rq_tail ≡ 0

  -- A search ends without a failed assertion, and leaves what an attempt leaves.
  abbrev pub Answers : Runtime → Option (Bool × Runtime) → Type 0
  Answers w o = (b : Bool) × (u : Runtime) × (o ≡ some (b, u)) × Tried i w b u

  -- Threads that could be allocated are not in use.
  abbrev pub IsFresh : (ℕ → Try) → Runtime → Type 0
  IsFresh t w = (n : ℕ) (th : Thread) → (t n).granted ≡ some th → w.state th ≡ sleeping

  nothing : (w : Runtime) → CanSearch w → Answers w (some (false, w))
  nothing w c = (
    false,
    w,
    refl,
    record {
      sound = c.sound;
      maxks = refl;
      timers = λ f. refl;
      has_work = λ e. absurd (cc);
      no_head = λ e. c.no_head;
      no_tail = λ e. c.no_tail;
      state = λ e. refl;
      names = λ e n h a. a;
      fewer = λ e. omega arith;
    },
  )

  go_on : (w u : Runtime) → CanSearch w → Tried i w false u → CanSearch u
  go_on w u c t = record {
    sound = t.sound;
    caller = omega (arith, c.caller, t.maxks);
    no_head = t.no_head refl;
    no_tail = t.no_tail refl;
  }

  Tried-trans : (w u v : Runtime) (b : Bool) → Tried i w false u → Tried i u b v → Tried i w b v
  Tried-trans w u v b t s = record {
    sound = s.sound;
    maxks = s.maxks ∙ t.maxks;
    timers = λ f. s.timers f ∙ t.timers f;
    has_work = s.has_work;
    no_head = s.no_head;
    no_tail = s.no_tail;
    state = λ e. s.state e ∙ t.state refl;
    names = λ e n h a. s.names e n (omega (arith, h, t.fewer refl)) (t.names refl n h a);
    fewer = λ e. omega (arith, s.fewer e, t.fewer refl);
  }

  or_else-Answers :
      (w : Runtime) (o : Option (Bool × Runtime)) (f : Runtime → Option (Bool × Runtime))
      → Answers w o
      → ((u : Runtime) → Tried i w false u → Answers u (f u))
      → Answers w (o >>= or_else f)
  or_else-Answers w o f (true, u, e, t) next = (true, u, >>=-some (or_else f) e, t)
  or_else-Answers w o f (false, u, e, t) next =
      let (b, v, e', t') = next u t in (b, v, >>=-some (or_else f) e ∙ e', Tried-trans w u v b t t')

  fresh_after : (t : ℕ → Try) (w u : Runtime) → IsFresh t w → Tried i w false u → IsFresh t u
  fresh_after t w u f s n th e = ap (λ (g : Thread → ThreadState). g th) (s.state refl) ∙ f n th e

  attempt_lem :
      (r : ℕ) (t : Try) (w : Runtime)
      → CanSearch w
      → r < w.maxks
      → ((th : Thread) → t.granted ≡ some th → w.state th ≡ sleeping)
      → Answers w (attempt i r t w)
  attempt_lem r t w c h f = elim (ℕ_discrete r i) [
    | yes own ↦ let (b, u, e, s) = nothing w c in (b, u, ground (arith, own) ∙ e, s)
    | no other ↦
        let (b, u, e, s) = steal_lem i r t w (record {
          sound = c.sound;
          caller = c.caller;
          known = h;
          other = other;
          no_head = c.no_head;
          no_tail = c.no_tail;
          fresh = f;
        }) in
        (b, u, ground (arith, other) ∙ e, s)
  ]

  -- Every entry names a kthread.
  abbrev pub AreKnown : List (Option ℕ) → Runtime → Type 0
  AreKnown [] w = Unit
  AreKnown (none ∷ l) w = AreKnown l w
  AreKnown (some r ∷ l) w = (r < w.maxks) × AreKnown l w

  known_after :
      (l : List (Option ℕ)) (w u : Runtime) → u.maxks ≡ w.maxks → AreKnown l w → AreKnown l u
  known_after [] w u e k = tt
  known_after (none ∷ l) w u e k = known_after l w u e k
  known_after (some r ∷ l) w u e k = (omega (arith, k.0, e), known_after l w u e k.1)

  try_siblings_lem :
      (l : List (Option ℕ)) (t : ℕ → Try) (w : Runtime)
      → CanSearch w
      → AreKnown l w
      → IsFresh t w
      → Answers w (try_siblings i l t w)
  unfolding try_siblings
  try_siblings_lem [] t w c k f = nothing w c
  try_siblings_lem (none ∷ l) t w c k f = try_siblings_lem l (λ n. t (suc n)) w c k (λ n. f (suc n))
  try_siblings_lem (some r ∷ l) t w c k f =
      or_else-Answers w (attempt i r (t 0) w) (try_siblings i l (λ n. t (suc n)))
        (attempt_lem r (t 0) w c k.0 (f 0))
        (λ u s.
          try_siblings_lem l (λ n. t (suc n)) u (go_on w u c s) (known_after l w u s.maxks k.1)
            (fresh_after (λ n. t (suc n)) w u (λ n. f (suc n)) s))

  sweep_lem :
      (p count n : ℕ) (t : ℕ → Try) (w : Runtime)
      → CanSearch w
      → p + count ≤ n
      → w.nrks ≤ n
      → Names n w
      → IsFresh t w
      → Answers w (sweep i p count t w)
  unfolding sweep
  sweep_lem p zero n t w c h m a f = nothing w c
  sweep_lem p (suc count) n t w c h m a f =
      or_else-Answers w (attempt i (w.ks p) (t 0) w) (sweep i (p + 1) count (λ n. t (suc n)))
        (attempt_lem (w.ks p) (t 0) w c (a p (omega (arith, h))) (f 0))
        (λ u s.
          sweep_lem (p + 1) count n (λ n. t (suc n)) u (go_on w u c s) (omega (arith, h))
            (omega (arith, s.fewer refl, m)) (s.names refl n m a)
            (fresh_after (λ n. t (suc n)) w u (λ n. f (suc n)) s))

  -- The environment names kthreads, and allocates threads that are not in use.
  pub record EnvFits (env : Env) (w : Runtime) : Type 0 where
    pub recent : (cpu r : ℕ) → env.recent_kthread cpu ≡ some r → r < w.maxks
    pub fresh : (phase : ℕ) → IsFresh (env.tries phase) w

  cons_known :
      (w : Runtime) (o : Option ℕ) (l : List (Option ℕ))
      → ((r : ℕ) → o ≡ some r → r < w.maxks)
      → AreKnown l w
      → AreKnown (o ∷ l) w
  cons_known w none l h k = k
  cons_known w (some r) l h k = (h r refl, k)

  cut_known :
      (w : Runtime) (b : Bool) (l : List (Option ℕ))
      → AreKnown l w
      → AreKnown (if b then [] else l) w
  cut_known w true l k = tt
  cut_known w false l k = k

  siblings-AreKnown :
      (env : Env) (w : Runtime) → EnvFits env w → (count p : ℕ) → AreKnown (siblings env count p) w
  unfolding siblings
  siblings-AreKnown env w e zero p = tt
  siblings-AreKnown env w e (suc count) p =
      cut_known w (env.sibling_core p == 0)
        (env.recent_kthread (env.sibling_core p - 1) ∷ siblings env count (p + 1))
        (cons_known w (env.recent_kthread (env.sibling_core p - 1)) (siblings env count (p + 1))
          (e.recent (env.sibling_core p - 1)) (siblings-AreKnown env w e count (p + 1)))

  level_1_lem :
      (env : Env) (last : ℕ) (w : Runtime)
      → CanSearch w
      → EnvFits env w
      → 0 < last
      → w.nrks ≤ last
      → Names last w
      → Answers w (level_1 i env last w)
  unfolding level_1
  level_1_lem env last w c e pos m a =
      let far : ℕ = sibling_end env max_siblings 0 + 1 in
      or_else-Answers w (try_siblings i (siblings env (max_siblings - far) far) (env.tries 1) w)
        (λ u. attempt i (u.ks (env.random % last)) (env.tries 2 0) u)
        (try_siblings_lem (siblings env (max_siblings - far) far) (env.tries 1) w c
          (siblings-AreKnown env w e (max_siblings - far) far) (e.fresh 1))
        (λ u s.
          attempt_lem (u.ks (env.random % last)) (env.tries 2 0) u (go_on w u c s)
            (s.names refl last m a (env.random % last)
              (mod-lt env.random {m = last} (omega (arith, pos))))
            (λ th g. ap (λ (f : Thread → ThreadState). f th) (s.state refl) ∙ e.fresh 2 0 th g))

  fits_after : (env : Env) (w u : Runtime) → EnvFits env w → Tried i w false u → EnvFits env u
  fits_after env w u e s = record {
    recent = λ cpu r q. omega (arith, e.recent cpu r q, s.maxks);
    fresh = λ phase. fresh_after (env.tries phase) w u (e.fresh phase) s;
  }

  if-Answers :
      (b : Bool) (w : Runtime) (o : Option (Bool × Runtime))
      → CanSearch w
      → Answers w o
      → Answers w (if b then o else some (false, w))
  if-Answers true w o c a = a
  if-Answers false w o c a = nothing w c

  -- All that `schedule` tries in one round.
  pub steal_round_lem :
      (iters : ℕ) (env : Env) (w : Runtime)
      → CanSearch w
      → EnvFits env w
      → 0 < w.nrks
      → Answers w (steal_round i iters env w)
  unfolding steal_round
  steal_round_lem iters env w c e pos =
      let names : Names w.nrks w = c.sound.attached.known in
      let first : Runtime → Option (Bool × Runtime) =
        λ u. if leb 1 iters then level_1 i env w.nrks u else some (false, u) in
      let second : Runtime → Option (Bool × Runtime) =
        λ u. if leb 3 iters then sweep i 0 w.nrks (env.tries 3) u else some (false, u) in
      let o = try_siblings i (siblings env max_siblings 0) (env.tries 0) w in
      or_else-Answers w (o >>= or_else first) second
        (or_else-Answers w o first
          (try_siblings_lem (siblings env max_siblings 0) (env.tries 0) w c
            (siblings-AreKnown env w e max_siblings 0) (e.fresh 0))
          (λ u s. if-Answers (leb 1 iters) u (level_1 i env w.nrks u) (go_on w u c s) (
            level_1_lem env w.nrks u (go_on w u c s) (fits_after env w u e s) pos (s.fewer refl)
              (s.names refl w.nrks (omega arith) names))))
        (λ u s. if-Answers (leb 3 iters) u (sweep i 0 w.nrks (env.tries 3) u) (go_on w u c s) (
          sweep_lem 0 w.nrks w.nrks (env.tries 3) u (go_on w u c s) (omega arith) (s.fewer refl)
            (s.names refl w.nrks (omega arith) names) ((fits_after env w u e s).fresh 3)))
