-- ===== src/Bitmap/Find.antt =====
-- `bitmap_find_next`, against the bits.
use libut.Common.Words.{add32}
use libut.Common.{
  ap, ◌∙◌, ℕ, zero, suc, ◌+◌, ◌-◌, ◌*◌, ◌/◌, ◌%◌, ◌^◌, ◌≤◌, ◌<◌, min, bit_and, ◌≡◌, sym, ap, ◌∙◌,
  Bool, true, false, arith, dec_lt, ltb, if◌then◌else◌,
}
use libut.Common.Bits.{
  bit_and-high, test_bit, test_bit-bit_and, bit_and-digit, bit_and-zero, pow-pos,
}
use native.Mathlib.Nat.{pow-suc, pow-le-pow_right}
use mathlib.Core.Path.{subst}
use libut.Bitmap.{
  pos_idx, pos_shift, complement, align_down, find_loop, find_next, find_next_set,
  find_next_cleared,
}
use libut.Bitmap.Words.{bit, test_bit-complement, test_bit_small, full}

-- What `__builtin_ffsl` answers for a word that is not zero: one more than the place of its least bit.
pub record IsFfsl (ffsl : ℕ → ℕ) : Type 0 where
  pub positive : (x : ℕ) → 0 < x → x < 2 ^ 64 → 0 < ffsl x
  pub inside : (x : ℕ) → 0 < x → x < 2 ^ 64 → ffsl x ≤ 64
  pub hit : (x : ℕ) → 0 < x → x < 2 ^ 64 → test_bit x (ffsl x - 1) ≡ 1
  pub first : (x j : ℕ) → 0 < x → x < 2 ^ 64 → suc j < ffsl x → test_bit x j ≡ 0

-- The position `r` is the first from `p` on whose bit is `want`, or `nbits` if there is none.
pub record IsNext (bits : ℕ → ℕ) (nbits p want r : ℕ) : Type 0 where
  pub inside : r ≤ nbits
  pub found : r < nbits → (bit bits r ≡ want) × (p ≤ r)
  pub before : (q : ℕ) → p ≤ q → q < r → bit bits q ≡ 1 - want

-- the bit that the search is for
abbrev pub wanted : Bool → ℕ
wanted invert = if invert then 0 else 1

-- the word that the search looks at
abbrev looked : Bool → ℕ → ℕ → ℕ
looked invert word mask = bit_and (if invert then complement word else word) mask

looked-bit :
    (invert : Bool) (word mask j : ℕ)
    → word < 2 ^ 64
    → j < 64
    → test_bit (looked invert word mask) j
      ≡ min (if invert then 1 - test_bit word j else test_bit word j) (test_bit mask j)
looked-bit true word mask j small lt =
    test_bit-bit_and j (complement word) mask
    ∙ ap (λ (t : ℕ). min t (test_bit mask j)) (test_bit-complement j 64 word small lt)
looked-bit false word mask j small lt = test_bit-bit_and j word mask

zero_bits : (j : ℕ) → test_bit 0 j ≡ 0
zero_bits j = test_bit_small 0 j (pow-pos j)

-- The bits of a mask from `s` on are set, the others clear.
abbrev IsMask : ℕ → ℕ → Type 0
IsMask s mask = (j : ℕ) → j < 64 → test_bit mask j ≡ (if ltb j s then 0 else 1)

-- the mask of the first round, and that of the others
low-IsMask : (s : ℕ) → s < 64 → IsMask s (complement (2 ^ s - 1))
low-IsMask s hs j hj =
    test_bit-complement j 64 (2 ^ s - 1)
      (omega
        (arith, pow-pos s, pow-le-pow_right {n = 2} (omega arith) {i = s} {j = 64} (omega arith)))
      hj
    ∙ elim (dec_lt j s) [
      | yes below ↦ ground (
        arith,
        test_bit-complement j s 0 (pow-pos s) below,
        zero_bits j,
        ap (λ (y : ℕ). test_bit y j) (minus_zero (2 ^ s - 1)),
      )
      | no above ↦ ground (
        arith,
        test_bit_small (2 ^ s - 1) j (
            omega (
              arith,
              pow-pos s,
              pow-le-pow_right {n = 2} (omega arith) {i = s} {j = j} (omega arith),
            )),
      )
    ]
  where
    minus_zero : (y : ℕ) → y - 0 ≡ y
    minus_zero y = omega arith

full-IsMask : IsMask 0 (2 ^ 64 - 1)
full-IsMask j hj = ground (arith, full j hj)

is_wanted : (invert : Bool) (t : ℕ) → t < 2 → (if invert then 1 - t else t) ≡ 1 → t ≡ wanted invert
is_wanted true t lt h = omega arith
is_wanted false t lt h = omega arith

is_unwanted :
    (invert : Bool) (t : ℕ) → t < 2 → (if invert then 1 - t else t) ≡ 0 → t ≡ 1 - wanted invert
is_unwanted true t lt h = omega arith
is_unwanted false t lt h = omega arith

-- One round looks at the bits of one word, from `s` on.
module _ (bits : ℕ → ℕ) (idx s mask : ℕ) (invert : Bool) (words : (i : ℕ) → bits i < 2 ^ 64)
    (aligned : idx % 64 ≡ 0) (m : IsMask s mask) where
  abbrev val : ℕ
  val = looked invert (bits (pos_idx idx)) mask

  val-bit :
      (q : ℕ)
      → idx + s ≤ q
      → q < idx + 64
      → test_bit val (q - idx) ≡ (if invert then 1 - bit bits q else bit bits q)
  val-bit q low high = ground (
    arith,
    looked-bit invert (bits (pos_idx idx)) mask (q - idx) (words (pos_idx idx)) (omega arith),
    m (q - idx) (omega arith),
    ap bits word,
    place,
  )
    where
      word : pos_idx q ≡ pos_idx idx
      word = omega arith

      place : pos_shift q ≡ q - idx
      place = omega arith

  -- The word has the bit, which is the answer unless it stands past the end.
  here :
      (ffsl : ℕ → ℕ) (nbits : ℕ)
      → IsFfsl ffsl
      → idx < nbits
      → 0 < val
      → val < 2 ^ 64
      → s < 64
      → IsNext bits nbits (idx + s) (wanted invert) (min (idx + ffsl val - 1) nbits)
  here ffsl nbits f inside some_bit small low =
      let place : ℕ = ffsl val - 1 in
      let hit : test_bit val place ≡ 1 = f.hit val some_bit small in
      let pos = f.positive val some_bit small in
      let top = f.inside val some_bit small in
      let masked =
        looked-bit invert (bits (pos_idx idx)) mask place (words (pos_idx idx)) (omega arith) in
      let from : s ≤ place = ground (arith, masked, hit, m place (omega arith)) in
      record {
        inside = omega arith;
        found = λ lt.
            let at : min (idx + ffsl val - 1) nbits ≡ idx + place = omega arith in
            let offset : idx + place - idx ≡ place = omega arith in
            let b = val-bit (idx + place) (omega arith) (omega arith) in
            (
              ap (bit bits) at
                  ∙ is_wanted invert (bit bits (idx + place)) (omega arith)
                      (sym b ∙ ap (test_bit val) offset ∙ hit),
              omega arith,
            );
        before = λ q a b.
            is_unwanted invert (bit bits q) (omega arith) (
              sym (val-bit q a (omega arith)) ∙ f.first val (q - idx) some_bit small (omega arith));
      }

  -- The word has it not, and the answer is that of the rounds after.
  beyond :
      (nbits r : ℕ)
      → val ≡ 0
      → idx < nbits
      → s < 64
      → IsNext bits nbits (idx + 64 + 0) (wanted invert) r
      → IsNext bits nbits (idx + s) (wanted invert) r
  beyond nbits r none_there inside low n = record {
    inside = n.inside;
    found = λ lt. ((n.found lt).0, omega (arith, (n.found lt).1));
    before = λ q a b. elim (dec_lt q (idx + 64)) [
      | yes near ↦ is_unwanted invert (bit bits q) (omega arith) (
          sym (val-bit q a near)
          ∙ ap (λ (y : ℕ). test_bit y (q - idx)) none_there
          ∙ zero_bits (q - idx))
      | no far ↦ n.before q (omega arith) b
    ];
  }

zero_bit_and_below : (k b : ℕ) → b ≤ k → bit_and 0 b ≡ 0
zero_bit_and_below zero b h = ap (bit_and 0) (none_left b h) ∙ bit_and-zero 0
  where
    none_left : (b : ℕ) → b ≤ 0 → b ≡ 0
    none_left b h = omega arith
zero_bit_and_below (suc k) b h =
    omega (arith, bit_and-digit 0 b, zero_bit_and_below k (b / 2) (omega arith))

bit_and-below : (k a b : ℕ) → a < 2 ^ k → bit_and a b < 2 ^ k
bit_and-below zero a b h =
    omega (arith, ap (λ (x : ℕ). bit_and x b) (zero_of a h), zero_bit_and_below b b (omega arith))
  where
    zero_of : (a : ℕ) → a < 1 → a ≡ 0
    zero_of a h = omega arith
bit_and-below (suc k) a b h = omega (
  arith,
  bit_and-digit a b,
  pow-suc 2 k,
  bit_and-below k (a / 2) (b / 2) (omega (arith, pow-suc 2 k)),
)

looked-below : (invert : Bool) (word mask : ℕ) → word < 2 ^ 64 → looked invert word mask < 2 ^ 64
looked-below true word mask small = bit_and-below 64 (complement word) mask (omega arith)
looked-below false word mask small = bit_and-below 64 word mask small

module _ (ffsl : ℕ → ℕ) (rounds : ℕ) (bits : ℕ → ℕ) (nbits idx mask : ℕ) (invert : Bool) where
  loop-past :
      nbits ≤ idx → idx < 2 ^ 31 → find_loop ffsl (suc rounds) bits nbits idx mask invert ≡ nbits
  unfolding find_loop
  loop-past past small = ground (arith, past, small)

  loop-hit :
      idx < nbits
      → 0 < looked invert (bits (pos_idx idx)) mask
      → find_loop ffsl (suc rounds) bits nbits idx mask invert
        ≡ min (idx + ffsl (looked invert (bits (pos_idx idx)) mask) - 1) nbits
  unfolding find_loop
  loop-hit inside some_bit = ground arith

  loop-miss :
      idx < nbits
      → looked invert (bits (pos_idx idx)) mask ≡ 0
      → idx < 2 ^ 31
      → find_loop ffsl (suc rounds) bits nbits idx mask invert
        ≡ find_loop ffsl rounds bits nbits (idx + 64) (2 ^ 64 - 1) invert
  unfolding find_loop
  loop-miss inside no_bit small =
      ground (arith, inside, no_bit)
      ∙ ap (λ (x : ℕ). find_loop ffsl rounds bits nbits x (2 ^ 64 - 1) invert) {x = add32 idx 64}
          {y = idx + 64} (omega (arith, small))

find_loop-IsNext :
    (ffsl : ℕ → ℕ)
    → IsFfsl ffsl
    → (bits : ℕ → ℕ) → ((i : ℕ) → bits i < 2 ^ 64)
    → (rounds nbits idx s mask : ℕ) (invert : Bool) → idx % 64 ≡ 0
    → s < 64
    → IsMask s mask
    → nbits ≤ rounds + idx
    → nbits ≤ 2 ^ 31 - 64
    → idx < 2 ^ 31
    → IsNext bits nbits (idx + s) (wanted invert) (find_loop ffsl rounds bits nbits idx mask invert)
unfolding find_loop
find_loop-IsNext ffsl f bits words zero nbits idx s mask invert aligned low m enough few small =
    record {
      inside = omega arith;
      found = λ lt. absurd (omega arith);
      before = λ q a b. absurd (omega arith);
    }
find_loop-IsNext ffsl f bits words (suc rounds) nbits idx s mask invert aligned low m enough few
      small =
    elim (dec_lt idx nbits) [
      | no past ↦ rw (loop-past ffsl rounds bits nbits idx mask invert (omega arith) small) record {
        inside = omega arith;
        found = λ lt. absurd (omega arith);
        before = λ q a b. absurd (omega arith);
      }
      | yes inside ↦ elim (dec_lt 0 (looked invert (bits (pos_idx idx)) mask)) [
        | yes some_bit ↦ rw (loop-hit ffsl rounds bits nbits idx mask invert inside some_bit) (
            here bits idx s mask invert words aligned m ffsl nbits f inside some_bit
              (looked-below invert (bits (pos_idx idx)) mask (words (pos_idx idx))) low)
        | no no_bit ↦
            let none_there : looked invert (bits (pos_idx idx)) mask ≡ 0 = omega arith in
            rw (loop-miss ffsl rounds bits nbits idx mask invert inside none_there small) (
              beyond bits idx s mask invert words aligned m nbits _ none_there inside low (
                find_loop-IsNext ffsl f bits words rounds nbits (idx + 64) 0 (2 ^ 64 - 1) invert
                  (omega arith) (omega arith) full-IsMask (omega arith) few
                  (omega (arith, few, inside))))
      ]
    ]

aligned_down : (p : ℕ) → p < 2 ^ 32 → align_down p 64 ≡ p / 64 * 64
aligned_down p small = bit_and-high 6 32 p (omega arith) small

-- In a bitmap of at most 2^31 - 64 bits, from a position on, the search finds the first bit of the state
-- asked for, or the end if there is none, given what the compiler's `__builtin_ffsl` answers.
pub find_next_lem :
    (ffsl : ℕ → ℕ)
    → IsFfsl ffsl
    → (bits : ℕ → ℕ) → ((i : ℕ) → bits i < 2 ^ 64)
    → (nbits p : ℕ) → nbits ≤ 2 ^ 31 - 64
    → p < 2 ^ 31
    → IsNext bits nbits p 1 (find_next_set ffsl bits nbits p)
      × IsNext bits nbits p 0 (find_next_cleared ffsl bits nbits p)
unfolding find_next_set find_next_cleared find_next
find_next_lem ffsl f bits words nbits p few small = (from false, from true)
  where
    start : align_down p 64 + pos_shift p ≡ p
    start = omega (arith, aligned_down p (omega arith))

    from :
        (invert : Bool)
        → IsNext bits nbits p (wanted invert) (
            find_loop ffsl nbits bits nbits
              (align_down p 64)
              (complement (2 ^ pos_shift p - 1))
              invert)
    from invert =
        subst
          (λ (x : ℕ). IsNext bits nbits x (wanted invert) (
            find_loop ffsl nbits bits nbits (align_down p 64) (complement (2 ^ pos_shift p - 1))
              invert))
          start
          (find_loop-IsNext ffsl f bits words nbits nbits (align_down p 64) (pos_shift p)
            (complement (2 ^ pos_shift p - 1)) invert (omega (arith, aligned_down p (omega arith)))
            (omega arith) (low-IsMask (pos_shift p) (omega arith)) (omega arith) few
            (omega (arith, small, aligned_down p (omega arith))))
