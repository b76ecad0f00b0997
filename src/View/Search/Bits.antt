-- ===== src/View/Search/Bits.antt =====
-- The masks of `prefix_match_len` beside the first bits of the addresses.
use Prim.Native.Nat.{digits, bit_and-bitwise}
use mathlib.Core.Path.{subst}
use bgp_flowspec_receiver.Prelude.{
  ℕ, zero, suc, ◌+◌, ◌-◌, ◌*◌, ◌/◌, ◌%◌, ◌≤◌, ◌≡◌, ◌↔◌, min, refl, sym, ap, ◌∙◌, Bool, true, false,
  ◌&&◌, bit_and, with_zeros, HasBits, none, some, leb, ◌==◌, ==_iff, all_below, all_below_sound,
  arith, if◌then◌else◌,
}
use bgp_flowspec_receiver.View.Search.{mask, match_len}

-- `n` without its low `k` bits.
abbrev pub without_low : ℕ → ℕ → ℕ
without_low zero n = n
without_low (suc k) n = without_low k (n / 2)

-- `len` ones.
abbrev pub ones : ℕ → ℕ
ones zero = 0
ones (suc len) = 1 + 2 * ones len

-- The digit-wise conjunction with so many digits to go: `bit_and n m` has `n` of them.
anded : ℕ → ℕ → ℕ → ℕ
anded count n m = digits (λ b. zero) min count n m

-- With a digit to go, the two lowest digits are joined, also when `n` has run out.
anded_next :
    (count n m : ℕ) → anded (suc count) n m ≡ min (n % 2) (m % 2) + 2 * anded count (n / 2) (m / 2)
unfolding anded
anded_next zero zero m = omega arith
anded_next (suc count) zero m = omega arith
anded_next count (suc n) m = omega arith

-- Ones keep a number that has no more digits than they are.
anded-ones : (len count n : ℕ) → n ≤ count → HasBits len n → anded count n (ones len) ≡ n
unfolding anded
anded-ones len zero n h f = omega arith
anded-ones zero (suc count) n h f = ap (λ n. anded (suc count) n 0) f ∙ sym f
anded-ones (suc len) (suc count) n h f =
    let half : ones (suc len) / 2 ≡ ones len = omega arith in
    let rest : anded count (n / 2) (ones (suc len) / 2) ≡ n / 2 =
      ap (anded count (n / 2)) half ∙ anded-ones len count (n / 2) (omega arith) f in
    omega (arith, anded_next count n (ones (suc len)), rest)

-- `k` more than `len`.
abbrev pub more : ℕ → ℕ → ℕ
more zero len = len
more (suc k) len = suc (more k len)

without_low-zero : (k n : ℕ) → n ≡ 0 → with_zeros k (without_low k n) ≡ 0
without_low-zero zero n e = e
without_low-zero (suc k) n e = omega (arith, without_low-zero k (n / 2) (omega arith))

-- Ones with `k` zeros behind them clear the `k` low digits.
anded-with_zeros :
    (k len count n : ℕ)
    → n ≤ count
    → HasBits (more k len) n
    → anded count n (with_zeros k (ones len)) ≡ with_zeros k (without_low k n)
unfolding anded
anded-with_zeros zero len count n h f = anded-ones len count n h f
anded-with_zeros (suc k) len zero n h f = sym (without_low-zero (suc k) n (omega arith))
anded-with_zeros (suc k) len (suc count) n h f =
    let m = with_zeros k (ones len) in
    let half : (2 * m) / 2 ≡ m = omega arith in
    let rest : anded count (n / 2) ((2 * m) / 2) ≡ with_zeros k (without_low k (n / 2)) =
      ap (anded count (n / 2)) half ∙ anded-with_zeros k len count (n / 2) (omega arith) f in
    omega (arith, anded_next count n (2 * m), rest)

bit_and-with_zeros :
    (k len n : ℕ)
    → HasBits (more k len) n
    → bit_and n (with_zeros k (ones len)) ≡ with_zeros k (without_low k n)
unfolding anded
bit_and-with_zeros k len n f =
    bit_and-bitwise n (with_zeros k (ones len)) ∙ anded-with_zeros k len n n (omega arith) f

with_zeros_inj : (k x y : ℕ) → with_zeros k x ≡ with_zeros k y → x ≡ y
with_zeros_inj zero x y e = e
with_zeros_inj (suc k) x y e = with_zeros_inj k x y (omega arith)

-- The masks of 32 and of 128 bits are `len` ones, and zeros behind them.
mask_is : ℕ → ℕ → Bool
mask_is width len =
    (mask width len == with_zeros (width - len) (ones len)) && (more (width - len) len == width)

mask_table : (all_below 33 (mask_is 32) ≡ true) × (all_below 129 (mask_is 128) ≡ true)
unfolding mask_is
mask_table = (refl, refl)

-- A width whose masks are such.
pub data Width : ℕ → Type 0 where
  ipv4 : Width 32
  ipv6 : Width 128

mask_lem :
    {width : ℕ} (len : ℕ)
    → Width width
    → len ≤ width
    → (mask width len ≡ with_zeros (width - len) (ones len)) × (more (width - len) len ≡ width)
unfolding mask_is
mask_lem len ipv4 h =
    let e = all_below_sound 33 (mask_is 32) len mask_table.0 (omega arith) in
    (ground (arith, e), ground (arith, e))
mask_lem len ipv6 h =
    let e = all_below_sound 129 (mask_is 128) len mask_table.1 (omega arith) in
    (ground (arith, e), ground (arith, e))

-- What the mask leaves of an address.
masked :
    {width : ℕ} (n len : ℕ)
    → Width width
    → len ≤ width
    → HasBits width n
    → bit_and n (mask width len) ≡ with_zeros (width - len) (without_low (width - len) n)
masked {width} n len w h f =
    let (m, size) = mask_lem len w h in
    ap (bit_and n) m
    ∙ bit_and-with_zeros (width - len) len n (subst (λ k. HasBits k n) (sym size) f)

taken : (b : Bool) (len : ℕ) → (if b then some len else none) ≡ some len → b ≡ true
taken true len e = refl
taken false len e = cc

-- For addresses of 32 or of 128 bits, a prefix of length `len` matches exactly when `len` is at most the width
-- and the first `len` bits of its network and of the address are the same.
pub match_len_iff :
    {width : ℕ} (net ip len : ℕ)
    → Width width
    → HasBits width net
    → HasBits width ip
    → (match_len width net ip len ≡ some len)
      ↔ ((len ≤ width) × (without_low (width - len) net ≡ without_low (width - len) ip))
unfolding match_len
match_len_iff {width} net ip len w f g =
    let a = bit_and net (mask width len) in
    let b = bit_and ip (mask width len) in
    (
      λ e.
          let both = taken (leb len width && a == b) len e in
          let h : len ≤ width = ground (arith, both) in
          let same : a ≡ b = ground (arith, both, ==_iff a b) in
          (
            h,
            with_zeros_inj (width - len) (without_low (width - len) net)
                (without_low (width - len) ip)
                (sym (masked net len w h f) ∙ same ∙ masked ip len w h g),
          ),
      λ (h, same).
          let equal : a ≡ b =
            masked net len w h f ∙ ap (with_zeros (width - len)) same ∙ sym (masked ip len w h g) in
          let yes : (leb len width && a == b) ≡ true = ground (arith, h, equal, ==_iff a b) in
          ap (λ b. if b then some len else none) yes,
    )
