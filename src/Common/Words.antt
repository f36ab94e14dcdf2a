-- ===== src/Common/Words.antt =====
-- Unsigned machine words: values are numbers below `2 ^ w`, and each operation wraps.
use Prim.Native.Nat.{ℕ, ◌+◌, ◌-◌, ◌*◌, ◌%◌, ◌^◌, bit_or}

-- `uint32_t`
abbrev pub add32 : ℕ → ℕ → ℕ
add32 a b = (a + b) % 2 ^ 32

abbrev pub sub32 : ℕ → ℕ → ℕ
sub32 a b = (a + 2 ^ 32 - b) % 2 ^ 32

-- `uint64_t`, `unsigned long`, `size_t`
abbrev pub add64 : ℕ → ℕ → ℕ
add64 a b = (a + b) % 2 ^ 64

abbrev pub sub64 : ℕ → ℕ → ℕ
sub64 a b = (a + 2 ^ 64 - b) % 2 ^ 64

-- `~x` on 64 bits
abbrev pub not64 : ℕ → ℕ
not64 x = 2 ^ 64 - 1 - x

-- `1UL << n`
abbrev pub bit : ℕ → ℕ
bit n = 2 ^ n % 2 ^ 64

abbrev pub mul64 : ℕ → ℕ → ℕ
mul64 a b = a * b % 2 ^ 64

-- `align_up` of a `size_t`, for an `align` that is a power of two
unfoldable pub align_up : ℕ → ℕ → ℕ
align_up x align = add64 (bit_or (sub64 x 1) (align - 1)) 1
