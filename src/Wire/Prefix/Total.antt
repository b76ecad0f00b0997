-- ===== src/Wire/Prefix/Total.antt =====
-- How the decoders of prefixes end.
use bgp_flowspec_receiver.Prelude.{
  ℕ, suc, ◌+◌, ◌*◌, ◌-◌, ◌/◌, ◌%◌, ◌<◌, ◌≤◌, ◌≡◌, refl, ap, Bool, true, false, List, [], ◌∷◌,
  Option, String, arith, ltb, leb, ◌==◌, length, take, drop, replicate, modify, length-append,
  length-replicate, length-take, length-drop, Bool-cases, inl, inr, ltb→le, if◌then◌else◌,
}
use bgp_flowspec_receiver.Wire.Result.{
  Ensures, Settles, returns, refuses, Ensures-bind, Ensures-refuse_if, Ensures-map_err,
  Ensures-weaken,
}
use bgp_flowspec_receiver.Wire.Cursor.{take-Splits}
use bgp_flowspec_receiver.Wire.Cursor.Reads.{byte_at-Settles, u8_at-Took}
use bgp_flowspec_receiver.Wire.Cursor.Loop.{Advances, collect-Ensures}
use bgp_flowspec_receiver.Wire.Prefix.{
  afi_ipv4, afi_ipv6, max_bits, byte_count, clear_from, mask_prefix, padded, mask_if, prefix_string,
  parse_prefix, UnicastRoute, unicast_route, unicast, slice,
}

pub length-modify {ℓ} :
    {A : Type ℓ} (xs : List A) (i : ℕ) (f : A → A) → length (modify xs i f) ≡ length xs
length-modify [] i f = refl
length-modify (x ∷ xs) ℕ.zero f = refl
length-modify (x ∷ xs) (suc i) f = ap suc (length-modify xs i f)

pub length-clear_from : (i : ℕ) (xs : List ℕ) → i ≤ length xs → length (clear_from i xs) ≡ length xs
length-clear_from i xs h = omega (
  arith,
  length-append (take i xs) (replicate (length xs - i) 0),
  length-take i xs h,
  length-replicate {A = ℕ} (length xs - i) 0,
)

-- What holds of a buffer that the decoders fill.
abbrev pub HasLength : ℕ → List ℕ → Type 0
HasLength n xs = length xs ≡ n

pub mask_prefix-Settles :
    (address : List ℕ) (n : ℕ) → n ≤ 8 * length address → Settles (mask_prefix address n)
unfolding mask_prefix
mask_prefix-Settles address n h =
    elim (Bool-cases (leb (n / 8 + (if n % 8 == 0 then 0 else 1)) (length address))) [
      | inl fits ↦ rw fits (returns _ tt)
      | inr out ↦ absurd (ground arith)
    ]

padded-HasLength :
    (size : ℕ) (raw : List ℕ) → length raw ≤ size → Ensures (HasLength size) (padded size raw)
unfolding padded
padded-HasLength size raw h = elim (Bool-cases (leb (length raw) size)) [
  | inl fits ↦ rw fits (
      returns _ (
        omega (
          arith,
          length-append raw (replicate (size - length raw) 0),
          length-replicate {A = ℕ} (size - length raw) 0,
        )))
  | inr out ↦ absurd (ground arith)
]

mask_if-Settles :
    (mask : Bool) (buf : List ℕ) (n : ℕ) → n ≤ 8 * length buf → Settles (mask_if mask buf n)
mask_if-Settles true buf n h = mask_prefix-Settles buf n h
mask_if-Settles false buf n h = returns buf tt

-- A prefix within the bits of its family, and as many bytes as it needs, is written without a panic.
pub prefix_string-Settles :
    (raw : List ℕ) (bits afi : ℕ) (mask : Bool)
    → bits ≤ max_bits afi
    → length raw ≡ byte_count bits
    → Settles (prefix_string raw bits afi mask)
unfolding prefix_string
prefix_string-Settles raw bits afi mask h e = elim (Bool-cases (afi == afi_ipv6)) [
  | inl six ↦ rw six (
      Ensures-bind _ (padded-HasLength 16 raw (ground arith))
        λ buf n. Ensures-bind _ (mask_if-Settles mask buf bits (ground arith)) λ _ _. returns _ tt)
  | inr other ↦ rw other (elim (Bool-cases (afi == afi_ipv4)) [
    | inl four ↦ rw four (
        Ensures-bind _ (padded-HasLength 4 raw (ground arith)) λ buf n.
          Ensures-bind _ (mask_if-Settles mask buf bits (ground arith)) λ _ _. returns _ tt)
    | inr none ↦ rw none (refuses _)
  ])
]

abbrev Any : UnicastRoute → Type 0
Any r = Unit

unicast_route-Advances :
    (afi : ℕ) (hop : Option String) (bytes : List ℕ)
    → 0 < length bytes
    → Ensures (Advances Any bytes) (unicast_route afi hop bytes)
unfolding unicast_route
unicast_route-Advances afi hop bytes h = Ensures-bind _ (u8_at-Took bytes) λ b t.
    Ensures-bind _ (Ensures-refuse_if (ltb (max_bits afi) b.0) _) λ _ e.
      Ensures-bind _ (take-Splits b.1 (byte_count b.0)) λ r s.
        Ensures-bind _
          (Ensures-map_err _ (prefix_string-Settles r.0 b.0 afi true (ltb→le _ _ e) s.size))
          λ _ _. returns _ (tt, omega (arith, t, s.left))

-- Whatever the bytes, the routes of a unicast family are decoded or refused.
pub unicast-Settles :
    (bytes : List ℕ) (afi : ℕ) (hop : Option String) → Settles (unicast bytes afi hop)
unfolding unicast
unicast-Settles bytes afi hop =
    Ensures-weaken (λ _ _. tt)
      (collect-Ensures Any (unicast_route afi hop) (unicast_route-Advances afi hop) bytes)

slice-HasLength :
    (bytes : List ℕ) (i n : ℕ) → i + n ≤ length bytes → Ensures (HasLength n) (slice bytes i n)
slice-HasLength bytes i n h = elim (Bool-cases (ltb (length bytes) (i + n))) [
  | inl short ↦ absurd (ground arith)
  | inr enough ↦
      rw enough (returns _ (omega (arith, length-take n (drop i bytes), length-drop i bytes)))
]

-- `parse_prefix` never leaves its slice, and the bytes that it used are there to be taken.
pub parse_prefix-Ensures :
    (bytes : List ℕ) (offset afi : ℕ)
    → Ensures (λ r. (offset < r.1) × (r.1 ≤ length bytes)) (parse_prefix bytes offset afi)
unfolding parse_prefix
parse_prefix-Ensures bytes offset afi =
    Ensures-bind _ (Ensures-refuse_if (leb (length bytes) offset) _) λ _ inside.
      Ensures-bind _ (byte_at-Settles bytes offset (ground arith)) λ n _.
        Ensures-bind _ (Ensures-refuse_if (ltb (max_bits afi) n) _) λ _ fits.
          Ensures-bind _ (Ensures-refuse_if (ltb (length bytes) (offset + 1 + byte_count n)) _)
            λ _ enough.
              Ensures-bind _ (slice-HasLength bytes (offset + 1) (byte_count n) (ltb→le _ _ enough))
                λ raw size.
                  Ensures-bind _ (prefix_string-Settles raw n afi false (ltb→le _ _ fits) size)
                    λ _ _. returns _ (omega arith, ltb→le _ _ enough)
