-- ===== src/Kref/Tests.antt =====
-- A reference count at concrete inputs.
use libut.Common.{ℕ, ◌≡◌, some, [], ◌∷◌, arith, if◌then◌else◌}
use libut.Kref.{Kref, init, is_released}
use libut.Kref.Release.{Op, run, kref_lem}

kref_lem_example :
    (ref : Kref) × (released : ℕ) × (run (init, 0) (Op.getting ∷ Op.putting ∷ Op.putting ∷ [])
      ≡ some (ref, released))
    × (ref.cnt ≡ 0)
    × (released ≡ (if is_released ref then 1 else 0))
kref_lem_example =
    kref_lem (Op.getting ∷ Op.putting ∷ Op.putting ∷ [])
      (omega arith, omega arith, (omega arith, (omega arith, tt)))
