-- ===== src/Packet/Checksum.antt =====
-- The Internet checksum: a block with its checksum written into it verifies.
use vpn_core.Base.{
  ℕ, zero, suc, ◌+◌, ◌*◌, ◌/◌, ◌%◌, ◌≤◌, ◌<◌, ◌≡◌, refl, ap, ap₂, ◌∙◌, inl, inr, [], ◌∷◌, ◌++◌,
  bit_or, arith,
}
use vpn_core.Base.Tests.{◌==◌, Bool-cases}
use vpn_core.Base.Lists.{length, take, drop, All-append, length-append, length-drop}
use vpn_core.Base.Bits.{shr, shl, low_bits, bit_or-shl}
use vpn_core.Base.Words.{Bytes, IsBytes, write_at, write_at-IsBytes, pack_u16}
use vpn_core.Base.Slices.{take-write_at_outside, drop-write_at_inside}
use vpn_core.Packet.{sum_words, fold_carry, pad, checksum}

-- The sum of the 16-bit words, the last one padded with zero bits.
abbrev pub word_sum : Bytes → ℕ
word_sum [] = 0
word_sum (a ∷ []) = a * 256
word_sum (a ∷ b ∷ rest) = a * 256 + b + word_sum rest

sum_words-even :
    (n : ℕ) (total : ℕ) (bytes : Bytes)
    → IsBytes bytes
    → length bytes ≡ n * 2
    → sum_words total bytes ≡ total + word_sum bytes
unfolding sum_words
sum_words-even n total [] h e = omega arith
sum_words-even n total (a ∷ []) h e = absurd (omega arith)
sum_words-even zero total (a ∷ b ∷ rest) h e = absurd (omega arith)
sum_words-even (suc n) total (a ∷ b ∷ rest) h e = omega (
  arith,
  bit_or-shl 8 a b h.1.0,
  sum_words-even n (total + bit_or (shl a 8) b) rest h.1.1 (omega arith),
)

word_sum-snoc :
    (n : ℕ) (bytes : Bytes) → length bytes ≡ n * 2 + 1 → word_sum (bytes ++ 0 ∷ []) ≡ word_sum bytes
word_sum-snoc n [] e = absurd (omega arith)
word_sum-snoc n (a ∷ []) e = omega arith
word_sum-snoc zero (a ∷ b ∷ rest) e = absurd (omega arith)
word_sum-snoc (suc n) (a ∷ b ∷ rest) e = omega (arith, word_sum-snoc n rest (omega arith))

pub sum_words-pad : (bytes : Bytes) → IsBytes bytes → sum_words 0 (pad bytes) ≡ word_sum bytes
unfolding pad
sum_words-pad bytes h = elim (Bool-cases (length bytes % 2 == 0)) [
  | inl even ↦ rw even (sum_words-even (length bytes / 2) 0 bytes h (ground arith) ∙ (omega arith))
  | inr odd ↦ rw odd (
      sum_words-even ((length bytes + 1) / 2) 0 (bytes ++ 0 ∷ [])
        (All-append _ bytes (0 ∷ []) h (omega arith)) (ground (arith, length-append bytes (0 ∷ [])))
      ∙ omega (arith, word_sum-snoc (length bytes / 2) bytes (ground arith)))
]

-- Folding keeps the residue by 65535, and ends below 65536 where the fuel is the sum.
fold_carry-mod : (fuel total : ℕ) → fold_carry fuel total % 65535 ≡ total % 65535
unfolding fold_carry
fold_carry-mod zero total = refl
fold_carry-mod (suc fuel) total =
    ground (arith, fold_carry-mod fuel (low_bits total 16 + shr total 16))

fold_carry-lt : (fuel total : ℕ) → total ≤ fuel → fold_carry fuel total < 65536
unfolding fold_carry
fold_carry-lt zero total h = omega arith
fold_carry-lt (suc fuel) total h =
    ground (arith, fold_carry-lt fuel (low_bits total 16 + shr total 16))

fold_carry-pos : (fuel total : ℕ) → 0 < total → 0 < fold_carry fuel total
unfolding fold_carry
fold_carry-pos zero total h = h
fold_carry-pos (suc fuel) total h =
    ground (arith, fold_carry-pos fuel (low_bits total 16 + shr total 16))

fold_carry-le : (fuel total : ℕ) → fold_carry fuel total ≤ total
unfolding fold_carry
fold_carry-le zero total = omega arith
fold_carry-le (suc fuel) total =
    ground (arith, fold_carry-le fuel (low_bits total 16 + shr total 16))

pub checksum-lt : (bytes : Bytes) → checksum bytes < 65536
unfolding checksum
checksum-lt bytes = omega arith

-- The words and the checksum add up to zero modulo 65535, and not to the number zero.
pub checksum_sum :
    (bytes : Bytes)
    → IsBytes bytes
    → ((word_sum bytes + checksum bytes) % 65535 ≡ 0) × (0 < word_sum bytes + checksum bytes)
unfolding checksum
checksum_sum bytes h = rw (sum_words-pad bytes h) (
    omega (
      arith,
      fold_carry-mod (word_sum bytes) (word_sum bytes),
      fold_carry-le (word_sum bytes) (word_sum bytes),
      fold_carry-lt (word_sum bytes) (word_sum bytes) (omega arith),
    ))

checksum-zero :
    (bytes : Bytes)
    → IsBytes bytes
    → word_sum bytes % 65535 ≡ 0
    → 0 < word_sum bytes
    → checksum bytes ≡ 0
unfolding checksum
checksum-zero bytes h e p = rw (sum_words-pad bytes h) (
    omega (
      arith,
      fold_carry-mod (word_sum bytes) (word_sum bytes),
      fold_carry-lt (word_sum bytes) (word_sum bytes) (omega arith),
      fold_carry-pos (word_sum bytes) (word_sum bytes) p,
    ))

abbrev pub double : ℕ → ℕ
double zero = 0
double (suc k) = suc (suc (double k))

word_sum-split :
    (k : ℕ) (bytes : Bytes)
    → word_sum bytes ≡ word_sum (take (double k) bytes) + word_sum (drop (double k) bytes)
word_sum-split zero bytes = omega arith
word_sum-split (suc k) [] = omega arith
word_sum-split (suc k) (a ∷ []) = omega arith
word_sum-split (suc k) (a ∷ b ∷ rest) = omega (arith, word_sum-split k rest)

-- To write a word at an even offset over the word zero adds it to the sum.
word_sum-write_word :
    (v : ℕ) (bytes : Bytes)
    → 2 ≤ length bytes
    → word_sum (write_at 0 (pack_u16 v) (write_at 0 (0 ∷ 0 ∷ []) bytes))
      ≡ word_sum (write_at 0 (0 ∷ 0 ∷ []) bytes) + v
unfolding write_at
word_sum-write_word v (a ∷ b ∷ rest) h = omega arith
word_sum-write_word v _ h = absurd (omega arith)

-- A block whose word at an even offset was cleared and then given the complement of the sum.
pub checksum-write :
    (k v : ℕ) (bytes cleared : Bytes)
    → IsBytes bytes
    → double k + 2 ≤ length bytes
    → cleared ≡ write_at (double k) (0 ∷ 0 ∷ []) bytes
    → v < 65536
    → (word_sum cleared + v) % 65535 ≡ 0
    → 0 < word_sum cleared + v
    → checksum (write_at (double k) (pack_u16 v) cleared) ≡ 0
checksum-write k v bytes cleared h fits e small whole positive =
    checksum-zero written written-IsBytes (rw total whole) (rw total positive)
  where
    written : Bytes
    written = write_at (double k) (pack_u16 v) cleared

    written-IsBytes : IsBytes written
    written-IsBytes =
        write_at-IsBytes (double k) (pack_u16 v) cleared (omega arith)
          (rw e (write_at-IsBytes (double k) (0 ∷ 0 ∷ []) bytes (omega arith) h))

    back : Bytes
    back = drop (double k) bytes

    cleared_back : drop (double k) cleared ≡ write_at 0 (0 ∷ 0 ∷ []) back
    cleared_back = rw e (drop-write_at_inside (double k) (double k) 0 _ bytes (omega arith))

    total : word_sum written ≡ word_sum cleared + v
    total =
        word_sum-split k written
        ∙ ap₂ ◌+◌
            (ap word_sum
              (take-write_at_outside (double k) (double k) (pack_u16 v) cleared (omega arith)))
            (ap word_sum (
                drop-write_at_inside (double k) (double k) 0 (pack_u16 v) cleared (omega arith)
                ∙ ap (write_at 0 (pack_u16 v)) cleared_back)
              ∙ word_sum-write_word v back (omega (arith, length-drop (double k) bytes)))
        ∙ omega (arith, word_sum-split k cleared, ap word_sum cleared_back)
