-- ===== src/Kref/Release.antt =====
-- An object under a reference count, from its first reference to the last.
use libut.Common.{
  ℕ, ◌+◌, ◌-◌, ◌^◌, ◌<◌, ◌≡◌, refl, ap, ◌∙◌, not, ◌&&◌, Option, none, some, List, [], ◌∷◌, arith,
  ℕ_discrete, ◌==◌, if◌then◌else◌,
}
use libut.Kref.{Kref, init, get, put, is_released}

pub data Op : Type 0 where
  getting : Op
  putting : Op

-- The count, and how often `release` has been called. `none` is a failed assertion.
unfoldable pub step : Kref × ℕ → Op → Option (Kref × ℕ)
step (ref, released) getting = elim (get ref) [ none ↦ none | some ref' ↦ some (ref', released) ]
step (ref, released) putting = some ((put ref).1, if (put ref).0 then released + 1 else released)

unfoldable pub run : Kref × ℕ → List Op → Option (Kref × ℕ)
run s [] = some s
run s (op ∷ ops) = elim (step s op) [ none ↦ none | some s' ↦ run s' ops ]

-- the references that are held after some operations
abbrev pub holders : ℕ → List Op → ℕ
holders n [] = n
holders n (getting ∷ ops) = holders (n + 1) ops
holders n (putting ∷ ops) = holders (n - 1) ops

-- Only one who holds a reference gets another or puts it, and there are fewer than 2^31.
abbrev pub Legal : ℕ → List Op → Type 0
Legal n [] = Unit
Legal n (getting ∷ ops) = (0 < n) × (n + 1 < 2 ^ 31) × Legal (n + 1) ops
Legal n (putting ∷ ops) = (0 < n) × Legal (n - 1) ops

none_held : (n : ℕ) (ops : List Op) → n ≡ 0 → Legal n ops → ops ≡ []
none_held n [] e l = refl
none_held n (getting ∷ ops) e l = absurd (omega (arith, l.0))
none_held n (putting ∷ ops) e l = absurd (omega (arith, l.0))

module _ (n released : ℕ) (small : n < 2 ^ 31) (held : 0 < n) where
  step-getting :
      n + 1 < 2 ^ 31
      → step (record { cnt = n }, released) getting ≡ some (record { cnt = n + 1 }, released)
  unfolding step get
  step-getting room = ground arith

  step-putting :
      step (record { cnt = n }, released) putting
      ≡ some (record { cnt = n - 1 }, if n == 1 then released + 1 else released)
  unfolding step put
  step-putting = ground arith

run_from :
    (ops : List Op) (n released : ℕ)
    → n < 2 ^ 31
    → Legal n ops
    → run (record { cnt = n }, released) ops
      ≡ some (
        record { cnt = holders n ops },
        if (holders n ops == 0) && not (n == 0) then released + 1 else released,
      )
unfolding run
run_from [] n released small l = ground arith
run_from (getting ∷ ops) n released small l =
    rw (step-getting n released small l.0 l.1, run)
      (run_from ops (n + 1) released l.1 l.2 ∙ ground arith)
run_from (putting ∷ ops) n released small l =
    rw (step-putting n released small l.0, run)
      (elim (ℕ_discrete n 1) [
        | yes last ↦
            let nothing : holders (n - 1) ops ≡ n - 1 =
              ap (holders (n - 1)) (none_held (n - 1) ops (omega arith) l.1) in
            run_from ops (n - 1) (if n == 1 then released + 1 else released) (omega arith) l.1
            ∙ ground (arith, nothing)
        | no more ↦
            run_from ops (n - 1) (if n == 1 then released + 1 else released) (omega arith) l.1
            ∙ ground arith
      ])

-- From `kref_init` on, while only holders get and put references, and there are fewer than 2^31, no
-- assertion fails, the count is the number of references held, and `release` is called once, when
-- the last is put.
pub kref_lem :
    (ops : List Op)
    → Legal 1 ops
    → (ref : Kref) × (released : ℕ) × (run (init, 0) ops ≡ some (ref, released))
      × (ref.cnt ≡ holders 1 ops)
      × (released ≡ (if is_released ref then 1 else 0))
unfolding init is_released
kref_lem ops l =
    (record { cnt = holders 1 ops }, _, run_from ops 1 0 (omega arith) l, refl, ground arith)
