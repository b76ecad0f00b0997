-- ===== src/Wire/Cursor/Numbers.antt =====
-- `read_be_int` beside the number that bytes stand for, most significant first.
use native.Mathlib.Nat.{pow-suc, mod-eq_of_lt}
use native.Mathlib.Bridge.{le_by_compare, IsLe}
use bgp_flowspec_receiver.Prelude.{
  ℕ, zero, suc, ◌+◌, ◌*◌, ◌%◌, ◌^◌, ◌≤◌, ◌<◌, ◌≡◌, ap, ◌∙◌, List, [], ◌∷◌, arith, bit_or, length,
  All, IsByte, bit_or_byte,
}
use bgp_flowspec_receiver.Wire.Cursor.{be_int_from, read_be_int}

-- The number that the bytes stand for: each one counts 256 times as much as the next.
abbrev pub be_value : List ℕ → ℕ
be_value [] = 0
be_value (b ∷ bytes) = b * 256 ^ length bytes + be_value bytes

be_value-lt : (bytes : List ℕ) → All IsByte bytes → be_value bytes < 256 ^ length bytes
be_value-lt [] h = omega arith
be_value-lt (b ∷ bytes) h = grind (arith, be_value-lt bytes h.1, pow-suc 256 (length bytes))

shifted : (val b : ℕ) → val < 2 ^ 56 → b < 256 → bit_or (val * 256 % 2 ^ 64) b ≡ val * 256 + b
shifted val b h hb =
    rw (mod-eq_of_lt {n = val * 256} {m = 2 ^ 64} (omega arith)) (bit_or_byte val b hb)

-- The powers of 256 that fit a word before the last byte.
power-le : (k : ℕ) → k ≤ 7 → 256 ^ k ≤ 2 ^ 56
unfolding IsLe
power-le zero h = le_by_compare (256 ^ 0) (2 ^ 56) tt
power-le (suc zero) h = le_by_compare (256 ^ 1) (2 ^ 56) tt
power-le (suc (suc zero)) h = le_by_compare (256 ^ 2) (2 ^ 56) tt
power-le (suc (suc (suc zero))) h = le_by_compare (256 ^ 3) (2 ^ 56) tt
power-le (suc (suc (suc (suc zero)))) h = le_by_compare (256 ^ 4) (2 ^ 56) tt
power-le (suc (suc (suc (suc (suc zero))))) h = le_by_compare (256 ^ 5) (2 ^ 56) tt
power-le (suc (suc (suc (suc (suc (suc zero)))))) h = le_by_compare (256 ^ 6) (2 ^ 56) tt
power-le (suc (suc (suc (suc (suc (suc (suc zero))))))) h = le_by_compare (256 ^ 7) (2 ^ 56) tt
power-le (suc (suc (suc (suc (suc (suc (suc (suc k)))))))) h = absurd (omega arith)

be_int_from-be_value :
    (val k : ℕ) (bytes : List ℕ)
    → val < 256 ^ k
    → k + length bytes ≤ 8
    → All IsByte bytes
    → be_int_from val bytes ≡ val * 256 ^ length bytes + be_value bytes
unfolding be_int_from
be_int_from-be_value val k [] h fits q = omega arith
be_int_from-be_value val k (b ∷ bytes) h fits q =
    rw (shifted val b (omega (arith, power-le k (omega arith))) q.0) (
      be_int_from-be_value (val * 256 + b) (suc k) bytes (omega (arith, pow-suc 256 k, q.0))
        (omega arith) q.1
      ∙ (omega (arith, ap (λ (t : ℕ). val * t) (pow-suc 256 (length bytes)))))

-- Up to eight bytes are read as the number that they stand for: no bit is shifted out of the word.
pub read_be_int-be_value :
    (bytes : List ℕ) → length bytes ≤ 8 → All IsByte bytes → read_be_int bytes ≡ be_value bytes
unfolding read_be_int
read_be_int-be_value bytes h q =
    be_int_from-be_value 0 0 bytes (omega arith) (omega arith) q ∙ (omega arith)
