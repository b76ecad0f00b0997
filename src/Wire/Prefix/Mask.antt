-- ===== src/Wire/Prefix/Mask.antt =====
-- `mask_prefix` on the bits of an address, the most significant bit of the first byte being bit 0.
use native.Mathlib.Nat.{suc-sub-suc, zero-div, add-zero}
use bgp_flowspec_receiver.Prelude.{
  ℕ, zero, suc, ◌+◌, ◌*◌, ◌-◌, ◌/◌, ◌%◌, ◌^◌, ◌<◌, ◌≤◌, ◌≡◌, refl, ◌∙◌, Bool, true, ◌&&◌, not, List,
  [], ◌∷◌, arith, ltb, leb, ◌==◌, ==_iff, length, replicate, modify, get_or, Bool-cases, inl, inr,
  lt→ltb, if◌then◌else◌, All, IsByte, all_below, all_below_sound,
}
use bgp_flowspec_receiver.Wire.Result.{ok, Ensures, returns}
use bgp_flowspec_receiver.Wire.Prefix.Total.{length-clear_from, length-modify}
use bgp_flowspec_receiver.Wire.Prefix.{clear_from, keep_high, mask_prefix}

abbrev pub bit_of : ℕ → ℕ → ℕ
bit_of b t = b / 2 ^ (7 - t) % 2

-- Bit `i` of an address; beyond its end the bits are 0.
abbrev pub bit_at : List ℕ → ℕ → ℕ
bit_at address i = bit_of (get_or address (i / 8) 0) (i % 8)

abbrev keeps_high : ℕ → ℕ → ℕ → Bool
keeps_high r t b = bit_of (keep_high r b) t == (if ltb t r then bit_of b t else 0)

keeps_high_table : all_below 8 (λ r. all_below 8 (λ t. all_below 256 (keeps_high r t))) ≡ true
keeps_high_table = refl

bit_of-keep_high :
    (r t b : ℕ)
    → r < 8
    → t < 8
    → b < 256
    → bit_of (keep_high r b) t ≡ (if ltb t r then bit_of b t else 0)
bit_of-keep_high r t b hr ht hb = (==_iff _ _).0 (
    all_below_sound 256 (keeps_high r t) b
      (all_below_sound 8 (λ t. all_below 256 (keeps_high r t)) t
        (all_below_sound 8 (λ r. all_below 8 (λ t. all_below 256 (keeps_high r t))) r
          keeps_high_table hr)
        ht)
      hb)

get_or-IsByte : (xs : List ℕ) (j : ℕ) → All IsByte xs → get_or xs j 0 < 256
get_or-IsByte [] j h = omega arith
get_or-IsByte (x ∷ xs) zero h = h.0
get_or-IsByte (x ∷ xs) (suc j) h = get_or-IsByte xs j h.1

get_or-replicate : (n j : ℕ) → get_or {A = ℕ} (replicate n 0) j 0 ≡ 0
get_or-replicate zero j = refl
get_or-replicate (suc n) zero = refl
get_or-replicate (suc n) (suc j) = get_or-replicate n j

get_or-clear_from :
    (i : ℕ) (xs : List ℕ) (j : ℕ)
    → get_or (clear_from i xs) j 0 ≡ (if ltb j i then get_or xs j 0 else 0)
get_or-clear_from zero xs j = ground (arith, get_or-replicate (length xs - 0) j)
get_or-clear_from (suc i) [] j = ground (arith, get_or-replicate (0 - suc i) j)
get_or-clear_from (suc i) (x ∷ xs) zero = ground arith
get_or-clear_from (suc i) (x ∷ xs) (suc j) =
    rw (suc-sub-suc (length xs) i) (ground (arith, get_or-clear_from i xs j))

get_or-modify :
    (xs : List ℕ) (q : ℕ) (f : ℕ → ℕ) (j : ℕ)
    → q < length xs
    → get_or (modify xs q f) j 0 ≡ (if j == q then f (get_or xs q 0) else get_or xs j 0)
get_or-modify [] q f j h = elim h [ ]
get_or-modify (x ∷ xs) zero f zero h = refl
get_or-modify (x ∷ xs) zero f (suc j) h = ground arith
get_or-modify (x ∷ xs) (suc q) f zero h = ground arith
get_or-modify (x ∷ xs) (suc q) f (suc j) h = ground (arith, get_or-modify xs q f j)

-- The bytes of the masked address.
abbrev pub masked : List ℕ → ℕ → List ℕ
masked address n = clear_from (n / 8 + (if n % 8 == 0 then 0 else 1)) (
    if not (n % 8 == 0) && ltb (n / 8) (length address)
    then modify address (n / 8) (keep_high (n % 8))
    else address)

abbrev pub KeepsBits : List ℕ → ℕ → List ℕ → Type 0
KeepsBits address n m = (i : ℕ) → bit_at m i ≡ (if ltb i n then bit_at address i else 0)

zero-bit : (t : ℕ) → bit_of 0 t ≡ 0
zero-bit t = ground (arith, zero-div (2 ^ (7 - t)))

whole_bytes :
    (address : List ℕ) (n : ℕ) → n % 8 ≡ 0 → KeepsBits address n (clear_from (n / 8) address)
whole_bytes address n e i =
    rw (get_or-clear_from (n / 8) address (i / 8)) (ground (arith, zero-bit (i % 8)))

split_byte :
    (address : List ℕ) (n : ℕ)
    → All IsByte address
    → 0 < n % 8
    → n / 8 < length address
    → KeepsBits address n (clear_from (n / 8 + 1) (modify address (n / 8) (keep_high (n % 8))))
split_byte address n q e h i =
    rw
      (
        get_or-clear_from (n / 8 + 1) (modify address (n / 8) (keep_high (n % 8))) (i / 8),
        get_or-modify address (n / 8) (keep_high (n % 8)) (i / 8) h,
      )
      (ground (
        arith,
        zero-bit (i % 8),
        bit_of-keep_high (n % 8) (i % 8) (get_or address (n / 8) 0) (omega arith) (omega arith)
            (get_or-IsByte address (n / 8) q),
      ))

masked-KeepsBits :
    (address : List ℕ) (n : ℕ)
    → All IsByte address
    → n ≤ 8 * length address
    → KeepsBits address n (masked address n)
masked-KeepsBits address n q h = elim (Bool-cases (n % 8 == 0)) [
  | inl whole ↦ rw (whole, add-zero (n / 8)) (whole_bytes address n (ground arith))
  | inr split ↦
      rw (split, lt→ltb (n / 8) (length address) (ground arith))
        (split_byte address n q (ground arith) (ground arith))
]

length-masked :
    (address : List ℕ) (n : ℕ) → n ≤ 8 * length address → length (masked address n) ≡ length address
length-masked address n h = elim (Bool-cases (n % 8 == 0)) [
  | inl whole ↦ rw whole (length-clear_from (n / 8 + 0) address (ground arith))
  | inr split ↦
      rw (split, lt→ltb (n / 8) (length address) (ground arith))
        (let size = length-modify address (n / 8) (keep_high (n % 8)) in
          length-clear_from (n / 8 + 1) (modify address (n / 8) (keep_high (n % 8))) (ground arith)
          ∙ size)
]

-- Within the address `mask_prefix` is `masked`.
pub mask_prefix-eq-masked :
    (address : List ℕ) (n : ℕ)
    → n ≤ 8 * length address
    → mask_prefix address n ≡ ok (masked address n)
unfolding mask_prefix
mask_prefix-eq-masked address n h =
    elim (Bool-cases (leb (n / 8 + (if n % 8 == 0 then 0 else 1)) (length address))) [
      | inl fits ↦ rw fits
      | inr out ↦ absurd (ground arith)
    ]

-- A prefix within the address is masked without a panic: the length stays, the bits of the prefix
-- stay, and every bit behind it is 0.
pub mask_prefix-KeepsBits :
    (address : List ℕ) (n : ℕ)
    → All IsByte address
    → n ≤ 8 * length address
    → Ensures (λ m. (length m ≡ length address) × KeepsBits address n m) (mask_prefix address n)
mask_prefix-KeepsBits address n q h =
    rw (mask_prefix-eq-masked address n h)
      (returns (masked address n) (length-masked address n h, masked-KeepsBits address n q h))
