-- ===== src/Prelude/Bits.antt =====
-- `|` of a shifted word and a byte as a sum, and facts over all bytes by tables.
use Prim.Native.Nat.{
  ℕ, zero, suc, ◌+◌, ◌*◌, ◌/◌, ◌%◌, ◌≤◌, ◌<◌, max, bit_or, digits, bit_or-bitwise,
}
use mathlib.Core.Path.{◌≡◌, sym, ap, ◌∙◌}
use mathlib.Core.List.{List, [], ◌∷◌}
use bgp_flowspec_receiver.Prelude.Lists.{All}
use bgp_flowspec_receiver.Prelude.Tests.{ltb}
use mathlib.Core.Bool.{Bool, true, ◌&&◌}
use native.Mathlib.Omega.{arith}

abbrev pub IsByte : ℕ → Type 0
IsByte b = b < 256

-- Over a small range, every value is checked by evaluation.
abbrev pub all_below : ℕ → (ℕ → Bool) → Bool
all_below zero p = true
all_below (suc n) p = p n && all_below n p

pub all_below_sound : (n : ℕ) (p : ℕ → Bool) (x : ℕ) → all_below n p ≡ true → x < n → p x ≡ true
all_below_sound zero p x h lt = absurd (omega arith)
all_below_sound (suc n) p x h lt = ground (arith, all_below_sound n p x)

-- `n` with `k` zeros behind it.
abbrev pub with_zeros : ℕ → ℕ → ℕ
with_zeros zero n = n
with_zeros (suc k) n = 2 * with_zeros k n

-- The number has at most so many bits.
abbrev pub HasBits : ℕ → ℕ → Type 0
HasBits zero n = n ≡ 0
HasBits (suc width) n = HasBits width (n / 2)

-- The digit-wise disjunction with so many digits to go: `bit_or n m` has `n` of them.
abbrev ored : ℕ → ℕ → ℕ → ℕ
ored count n m = digits (λ y. y) max count n m

-- With a digit to go, the two lowest digits are joined, also when `n` has run out.
ored_next :
    (count n m : ℕ) → ored (suc count) n m ≡ max (n % 2) (m % 2) + 2 * ored count (n / 2) (m / 2)
ored_next zero zero m = omega arith
ored_next (suc count) zero m = omega arith
ored_next count (suc n) m = omega arith

ored-zero : (count n : ℕ) → n ≤ count → ored count n 0 ≡ n
ored-zero zero n h = omega arith
ored-zero (suc count) n h =
    omega (arith, ored_next count n 0, ored-zero count (n / 2) (omega arith))

-- The zeros behind a word take in any number of as many bits.
ored-with_zeros :
    (k count v b : ℕ)
    → with_zeros k v ≤ count
    → HasBits k b
    → ored count (with_zeros k v) b ≡ with_zeros k v + b
ored-with_zeros zero count v b h f = omega (arith, f, ap (ored count v) f ∙ ored-zero count v h)
ored-with_zeros (suc k) zero v b h f = omega arith
ored-with_zeros (suc k) (suc count) v b h f =
    let m = with_zeros k v in
    let half : (2 * m) / 2 ≡ m = omega arith in
    let rest : ored count ((2 * m) / 2) (b / 2) ≡ m + b / 2 =
      ap (λ n. ored count n (b / 2)) half ∙ ored-with_zeros k count v (b / 2) (omega arith) f in
    omega (arith, ored_next count (2 * m) b, rest)

-- `(v << 8) | b` of a byte `b` is a sum.
pub bit_or_byte : (v b : ℕ) → b < 256 → bit_or (v * 256) b ≡ v * 256 + b
bit_or_byte v b h =
    let word : with_zeros 8 v ≡ v * 256 = omega arith in
    let joined : bit_or (with_zeros 8 v) b ≡ with_zeros 8 v + b =
      bit_or-bitwise (with_zeros 8 v) b
      ∙ ored-with_zeros 8 (with_zeros 8 v) v b (omega arith) (omega arith) in
    ap (λ n. bit_or n b) (sym word) ∙ joined ∙ ap (λ n. n + b) word

abbrev bytes_only : List ℕ → Bool
bytes_only [] = true
bytes_only (b ∷ bs) = ltb b 256 && bytes_only bs

-- A list of numerals that the test accepts is a list of bytes.
pub bytes_only-All : (bs : List ℕ) → bytes_only bs ≡ true → All IsByte bs
bytes_only-All [] h = tt
bytes_only-All (b ∷ bs) h = (ground arith, bytes_only-All bs (ground arith))
