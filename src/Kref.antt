-- ===== src/Kref.antt =====
-- inc/base/kref.h: reference counts. The count is the 32 bits of an `int`.
pub mod Release
mod Tests
use libut.Common.{
  ℕ, zero, suc, ◌+◌, ◌-◌, ◌*◌, ◌/◌, ◌%◌, ◌^◌, ◌≤◌, ◌<◌, min, max, bit_and, bit_or, ◌≡◌, refl, sym,
  ap, ap₂, ◌∙◌, fun_ext, ◌≢◌, ◌↔◌, ◌⊎◌, inl, inr, Bool, true, false, not, ◌&&◌, ◌||◌, Option, none,
  some, List, [], ◌∷◌, ◌++◌, map, append-nil, append_assoc, arith, dec_lt, ℕ_discrete, ltb, leb,
  ◌==◌, if◌then◌else◌, ltb→lt, lt→ltb, leb→le, ==_iff, Bool-cases, Option-cases, length, get_elem?,
  take, drop, update, slice, length-append, length-slice, update_self, update_ne, get_elem?-snoc,
  length-take, take_all, get_elem?-append_some, ◌≡⟨◌⟩◌, ◌∎,
}

-- `struct kref`
pub record Kref : Type 0 where
  pub cnt : ℕ

-- `kref_init`
unfoldable pub init : Kref
init = record { cnt = 1 }

-- `kref_initn`
unfoldable pub initn : ℕ → Kref
initn n = record { cnt = n % 2 ^ 32 }

-- `kref_get`; `none` is the failed assertion that the count, with its sign, is above zero.
unfoldable pub get : Kref → Option Kref
get ref =
    if ltb 0 ref.cnt && ltb ref.cnt (2 ^ 31)
    then some (record { cnt = (ref.cnt + 1) % 2 ^ 32 })
    else none

-- `kref_put`: whether it calls `release`.
unfoldable pub put : Kref → Bool × Kref
put ref = let cnt : ℕ = (ref.cnt + 2 ^ 32 - 1) % 2 ^ 32 in (cnt == 0, record { cnt = cnt })

-- `kref_released`
unfoldable pub is_released : Kref → Bool
is_released ref = ref.cnt == 0
