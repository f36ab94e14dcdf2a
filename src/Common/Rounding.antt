-- ===== src/Common/Rounding.antt =====
-- What `align_up` answers at the alignments that the program uses.
use libut.Common.{ℕ, ◌+◌, ◌-◌, ◌*◌, ◌/◌, ◌^◌, ◌≤◌, ◌<◌, ◌≡◌, arith}
use libut.Common.Bits.{bit_or-mask}
use libut.Common.Words.{sub64, align_up}

pub align_up_line : (x : ℕ) → 0 < x → x ≤ 2 ^ 64 - 64 → align_up x 64 ≡ (x + 63) / 64 * 64
unfolding align_up
align_up_line x pos small = omega (arith, bit_or-mask 6 (sub64 x 1))

pub align_up_2mb :
    (x : ℕ)
    → 0 < x
    → x ≤ 2 ^ 64 - 2 ^ 21
    → align_up x (2 ^ 21) ≡ (x + (2 ^ 21 - 1)) / 2 ^ 21 * 2 ^ 21
unfolding align_up
align_up_2mb x pos small = omega (arith, bit_or-mask 21 (sub64 x 1))
