-- ===== src/Lrpc/Slots.antt =====
-- Where a message with a given serial number stands in the table, and the parity that it carries:
-- the arithmetic that the masks of lrpc.h stand for, at 32-bit heads that wrap.
use libut.Common.{
  ℕ, zero, suc, ◌+◌, ◌-◌, ◌*◌, ◌%◌, ◌^◌, ◌≤◌, ◌<◌, bit_and, bit_or, ◌≡◌, ap, ◌∙◌, ◌≢◌, arith,
  dec_lt,
}
use libut.Common.Words.{sub32}
use libut.Common.Bits.{
  bit_or-pow, bit_or-zero, test_bit, bit_and-mask, bit_and-pow, pow-pos, mod-mod_pow,
  test_bit-mod_pow,
}
use native.Mathlib.Nat.{
  pow-le-pow_right, add-div_right, mod-add-mod, mod-eq_of_lt, mod-lt, mod-eq-sub-mod,
}
use libut.Lrpc.{cmd_mask, parity, slot_of, done_parity}

-- 1 for a message whose slot has been used an even number of times before it
abbrev pub fresh_bit : ℕ → ℕ → ℕ
fresh_bit k n = 1 - test_bit n k

pub size_bound : (k : ℕ) → k < 32 → 2 ^ k ≤ 2 ^ 31
size_bound k h = pow-le-pow_right {n = 2} (omega arith) {i = k} {j = 31} (omega arith)

-- the slot of message `n`
pub slot_of_lem : (k n : ℕ) → k < 32 → slot_of (n % 2 ^ 32) (2 ^ k) ≡ n % 2 ^ k
unfolding slot_of
slot_of_lem k n h =
    ap (λ (t : ℕ). bit_and (n % 2 ^ 32) t) pred
    ∙ bit_and-mask k (n % 2 ^ 32)
    ∙ mod-mod_pow k 32 n (omega arith)
  where
    pred : sub32 (2 ^ k) 1 ≡ 2 ^ k - 1
    pred = omega (arith, size_bound k h, pow-pos k)

-- the parity of message `n`
pub parity_lem : (k n : ℕ) → k < 32 → parity (n % 2 ^ 32) (2 ^ k) ≡ fresh_bit k n * done_parity
unfolding parity
parity_lem k n h = ground (arith, bit_and-pow k (n % 2 ^ 32), test_bit-mod_pow k 32 n h, pow-pos k)

-- Two messages fewer than `size` apart do not share a slot.
pub slot-ne : (s a d : ℕ) → 0 < d → d < s → a % s ≢ (a + d) % s
slot-ne s a d pos lt e = elim (dec_lt (a % s + d) s) [
  | yes below ↦ omega (arith, mod-add-mod a s d, mod-eq_of_lt below)
  | no wraps ↦ omega (
    arith,
    mod-add-mod a s d,
    mod-lt a {m = s} (omega arith),
    mod-eq-sub-mod {n = a % s + d} {m = s} (omega arith),
    mod-eq_of_lt {n = a % s + d - s} {m = s} (omega (arith, mod-lt a {m = s} (omega arith))),
  )
]

-- One round later the parity has changed.
pub fresh_bit-next : (k n : ℕ) → fresh_bit k (n + 2 ^ k) ≡ 1 - fresh_bit k n
fresh_bit-next k n = omega (arith, add-div_right n (pow-pos k))

-- Marking a command with its parity, reading the mark back, and removing it.
pub mark :
    (b cmd : ℕ) → b ≤ 1 → cmd < done_parity → bit_or cmd (b * done_parity) ≡ cmd + b * done_parity
mark zero cmd h lt = omega (arith, bit_or-zero cmd)
mark (suc zero) cmd h lt = omega (arith, bit_or-pow 63 cmd lt)
mark (suc (suc b)) cmd h lt = absurd (omega arith)

pub read_mark :
    (b cmd : ℕ)
    → b ≤ 1
    → cmd < done_parity
    → bit_and (cmd + b * done_parity) done_parity ≡ b * done_parity
read_mark b cmd h lt = omega (arith, bit_and-pow 63 (cmd + b * done_parity))

pub unmark : (b cmd : ℕ) → cmd < done_parity → bit_and (cmd + b * done_parity) cmd_mask ≡ cmd
unmark b cmd lt = omega (arith, bit_and-mask 63 (cmd + b * done_parity))
