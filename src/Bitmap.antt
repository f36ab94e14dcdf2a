-- ===== src/Bitmap.antt =====
-- inc/base/bitmap.h and base/bitmap.c: bits in an array of 64-bit words. A position stands for an
-- `int` that is not negative.
pub mod Words
pub mod Find
mod Tests
use libut.Common.Words.{add32}
use libut.Common.{
  ℕ, zero, suc, ◌+◌, ◌-◌, ◌*◌, ◌/◌, ◌%◌, ◌^◌, ◌≤◌, ◌<◌, min, max, bit_and, bit_or, ◌≡◌, refl, sym,
  ap, ap₂, ◌∙◌, fun_ext, ◌≢◌, ◌↔◌, ◌⊎◌, inl, inr, Bool, true, false, not, ◌&&◌, ◌||◌, Option, none,
  some, List, [], ◌∷◌, ◌++◌, map, append-nil, append_assoc, arith, dec_lt, ℕ_discrete, ltb, leb,
  ◌==◌, if◌then◌else◌, ltb→lt, lt→ltb, leb→le, ==_iff, Bool-cases, Option-cases, length, get_elem?,
  take, drop, update, slice, length-append, length-slice, update_self, update_ne, get_elem?-snoc,
  length-take, take_all, get_elem?-append_some, ◌≡⟨◌⟩◌, ◌∎,
}

-- `BITMAP_POS_IDX`
abbrev pub pos_idx : ℕ → ℕ
pos_idx p = p / 64

-- `BITMAP_POS_SHIFT`
abbrev pub pos_shift : ℕ → ℕ
pos_shift p = p % 64

-- `~x` on 64 bits
abbrev pub complement : ℕ → ℕ
complement x = 2 ^ 64 - 1 - x

-- `1ul << BITMAP_POS_SHIFT(pos)`
abbrev pub bit_of : ℕ → ℕ
bit_of p = 2 ^ pos_shift p

-- `bitmap_set`
unfoldable pub set : (ℕ → ℕ) → ℕ → ℕ → ℕ
set bits p = update bits (pos_idx p) (bit_or (bits (pos_idx p)) (bit_of p))

-- `bitmap_clear`
unfoldable pub clear : (ℕ → ℕ) → ℕ → ℕ → ℕ
clear bits p = update bits (pos_idx p) (bit_and (bits (pos_idx p)) (complement (bit_of p)))

-- `bitmap_test`
unfoldable pub test : (ℕ → ℕ) → ℕ → Bool
test bits p = not (bit_and (bits (pos_idx p)) (bit_of p) == 0)

-- `bitmap_atomic_set`: the fetch and the store are one step.
unfoldable pub atomic_set : (ℕ → ℕ) → ℕ → ℕ → ℕ
atomic_set bits p = update bits (pos_idx p) (bit_or (bits (pos_idx p)) (bit_of p))

-- `bitmap_atomic_clear`
unfoldable pub atomic_clear : (ℕ → ℕ) → ℕ → ℕ → ℕ
atomic_clear bits p = update bits (pos_idx p) (bit_and (bits (pos_idx p)) (complement (bit_of p)))

-- `bitmap_atomic_test`
unfoldable pub atomic_test : (ℕ → ℕ) → ℕ → Bool
atomic_test bits p = not (bit_and (bits (pos_idx p)) (bit_of p) == 0)

-- `bitmap_atomic_test_and_set`: the fetch and the store are one step.
unfoldable pub test_and_set : (ℕ → ℕ) → ℕ → Bool × (ℕ → ℕ)
test_and_set bits p =
    let old : ℕ = bits (pos_idx p) in
    (not (bit_and old (bit_of p) == 0), update bits (pos_idx p) (bit_or old (bit_of p)))

-- `bitmap_init`: `BITMAP_LONG_SIZE(nbits)` words are filled.
unfoldable pub init : (ℕ → ℕ) → ℕ → Bool → ℕ → ℕ
init bits nbits state i =
    if ltb i ((nbits + 64 - 1) / 64) then (if state then 2 ^ 64 - 1 else 0) else bits i

-- `align_down` of an `unsigned int`
abbrev pub align_down : ℕ → ℕ → ℕ
align_down x align = bit_and x (2 ^ 32 - align)

-- `ffsl` is the compiler's `__builtin_ffsl`.
module _ (ffsl : ℕ → ℕ) where
  -- The loop of `bitmap_find_next`, from `idx` on, which is an `int` and wraps: from 2^31 on it is negative,
  -- and below `nbits`. Each round goes a word further, so `nbits` rounds are enough.
  unfoldable pub find_loop : ℕ → (ℕ → ℕ) → ℕ → ℕ → ℕ → Bool → ℕ
  find_loop zero bits nbits idx mask invert = nbits
  find_loop (suc rounds) bits nbits idx mask invert =
      let word : ℕ = bits (pos_idx idx) in
      let val : ℕ = bit_and (if invert then complement word else word) mask in
      let rest : ℕ = find_loop rounds bits nbits (add32 idx 64) (2 ^ 64 - 1) invert in
      if leb (2 ^ 31) idx || ltb idx nbits
      then (if not (val == 0) then min (idx + ffsl val - 1) nbits else rest)
      else nbits

  -- `bitmap_find_next`
  unfoldable pub find_next : (ℕ → ℕ) → ℕ → ℕ → Bool → ℕ
  find_next bits nbits p invert =
      find_loop nbits bits nbits (align_down p 64) (complement (2 ^ pos_shift p - 1)) invert

  -- `bitmap_find_next_cleared`
  unfoldable pub find_next_cleared : (ℕ → ℕ) → ℕ → ℕ → ℕ
  find_next_cleared bits nbits p = find_next bits nbits p true

  -- `bitmap_find_next_set`
  unfoldable pub find_next_set : (ℕ → ℕ) → ℕ → ℕ → ℕ
  find_next_set bits nbits p = find_next bits nbits p false
