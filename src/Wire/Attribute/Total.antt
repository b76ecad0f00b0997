-- ===== src/Wire/Attribute/Total.antt =====
-- How the decoder of an attribute ends.
use bgp_flowspec_receiver.Prelude.{
  ℕ, zero, suc, ◌*◌, ◌%◌, ◌<◌, ◌≤◌, ◌≡◌, refl, Bool, true, false, ◌||◌, ◌&&◌, List, String, arith,
  ◌==◌, ==_iff, length, chunks, Bool-cases, inl, inr, if◌then◌else◌,
}
use bgp_flowspec_receiver.Wire.Result.{
  ok, ◌>>=◌, Ensures, Settles, returns, refuses, Ensures-bind, map_results-Settles,
}
use bgp_flowspec_receiver.Wire.Cursor.{Wire, take-Splits, minus, slice_to, slice_from, read_be_int}
use bgp_flowspec_receiver.Wire.Cursor.Reads.{
  byte_at-Settles, slice_to-Ensures, slice_from-Ensures, array_of-Settles, minus-Ensures,
  u8_at-Took, u16_at-Took,
}
use bgp_flowspec_receiver.Wire.Cursor.Loop.{Advances, collect-Ensures}
use bgp_flowspec_receiver.Wire.Address.{next_hop_string}
use bgp_flowspec_receiver.Wire.Attribute.{
  Segment, aggregator, chunks_exact, segment, mp_header, attribute,
}

not_zero : (n : ℕ) → (suc n == 0) ≡ false
not_zero n = ground arith

chunks_exact-Settles : (width : ℕ) (raw : List ℕ) → 0 < width → Settles (chunks_exact width raw)
unfolding chunks_exact
chunks_exact-Settles zero raw h = elim h [ ]
chunks_exact-Settles (suc width) raw h = rw (not_zero width) (returns _ tt)

abbrev Any : Segment → Type 0
Any s = Unit

segment-Advances :
    (width : ℕ)
    → 0 < width
    → (bytes : List ℕ) → 0 < length bytes
    → Ensures (Advances Any bytes) (segment width bytes)
unfolding segment
segment-Advances width w bytes h = Ensures-bind _ (take-Splits bytes 2) λ r s.
    Ensures-bind _ (byte_at-Settles r.0 1 (omega (arith, s.size))) λ count _.
      Ensures-bind _ (take-Splits r.1 (count * width)) λ raw t.
        Ensures-bind _ (chunks_exact-Settles width raw.0 w) λ asns _.
          Ensures-bind _ (byte_at-Settles r.0 0 (omega (arith, s.size)))
            λ kind _. returns _ (tt, omega (arith, s.left, t.left))

-- One test of the chain.
Settles-if :
    {A : Type 0} (b : Bool) {x y : Wire A}
    → (b ≡ true → Settles x)
    → Settles y
    → Settles (if b then x else y)
Settles-if true hx hy = hx refl
Settles-if false hx hy = hy

-- Each length is read within its bounds.
next_hop_string-Settles : (bytes : List ℕ) → Settles (next_hop_string bytes)
unfolding next_hop_string
next_hop_string-Settles bytes =
    let n = length bytes in
    Settles-if (n == 0) (λ _. returns _ tt)
      (Settles-if (n == 4)
        (λ e.
          let four : n ≡ 4 = (==_iff n 4).0 e in
          Ensures-bind _ (byte_at-Settles bytes 0 (omega arith)) λ a _.
            Ensures-bind _ (byte_at-Settles bytes 1 (omega arith)) λ b _.
              Ensures-bind _ (byte_at-Settles bytes 2 (omega arith))
                λ c _. Ensures-bind _ (byte_at-Settles bytes 3 (omega arith)) λ d _. returns _ tt)
        (Settles-if (n == 16)
          (λ e. Ensures-bind _ (array_of-Settles 16 bytes ((==_iff n 16).0 e)) λ ip _. returns _ tt)
          (Settles-if (n == 32)
            (λ e.
              let all : n ≡ 32 = (==_iff n 32).0 e in
              Ensures-bind _ (slice_to-Ensures bytes 16 (omega arith)) λ front size.
                Ensures-bind _ (array_of-Settles 16 front size) λ global _.
                  Ensures-bind _ (slice_from-Ensures bytes 16 (omega arith)) λ back rest.
                    Ensures-bind _ (array_of-Settles 16 back (omega (arith, rest, all)))
                      λ link_local _. returns _ tt)
            (returns _ tt))))

-- The header of a multiprotocol attribute is read or refused.
pub mp_header-Settles : (code : ℕ) (bytes : List ℕ) → Settles (mp_header code bytes)
unfolding mp_header
mp_header-Settles code bytes = Ensures-bind _ (u16_at-Took bytes) λ afi _.
    Ensures-bind _ (u8_at-Took afi.1) λ safi _. elim (Bool-cases (code == 14)) [
      | inl announce ↦ rw announce (
          Ensures-bind _ (u8_at-Took safi.1) λ n _. Ensures-bind _ (take-Splits n.1 n.0) λ hop _.
            Ensures-bind _ (next_hop_string-Settles hop.0)
              λ _ _. Ensures-bind _ (take-Splits hop.1 1) λ _ _. returns _ tt)
      | inr withdraw ↦ rw withdraw (returns _ tt)
    ]

one_byte : (code n : ℕ) → code == 1 && n == 1 ≡ true → 0 < n
one_byte code n h = ground arith

width_pos : (code asn_len : ℕ) → 0 < asn_len → 0 < (if code == 17 then 4 else asn_len)
width_pos code asn_len h = ground arith

wide :
    (code n : ℕ) → ((code == 7 || code == 18) && n == (if code == 7 then 6 else 8)) ≡ true → 4 ≤ n
wide code n e = ground (arith, e)

-- The slices of an aggregator with four bytes at least are in range.
aggregator-Settles :
    (bytes : List ℕ)
    → 4 ≤ length bytes
    → Settles {E = String} (do
      width ← minus (length bytes) 4
      front ← slice_to bytes width
      back ← slice_from bytes width
      router_id ← next_hop_string back
      ok (aggregator (read_be_int front) router_id))
aggregator-Settles bytes h = Ensures-bind _ (minus-Ensures (length bytes) 4 h) λ width is.
    Ensures-bind _ (slice_to-Ensures bytes width (omega (arith, is))) λ front _.
      Ensures-bind _ (slice_from-Ensures bytes width (omega (arith, is)))
        λ back _. Ensures-bind _ (next_hop_string-Settles back) λ id _. returns _ tt

-- Every attribute of an UPDATE with a sound AS number width is decoded or refused.
pub attribute-Settles :
    (code : ℕ) (bytes : List ℕ) (asn_len : ℕ) → 0 < asn_len → Settles (attribute code bytes asn_len)
unfolding attribute
attribute-Settles code bytes asn_len w =
    let n = length bytes in
    Settles-if (code == 1 && n == 1)
      (λ e. Ensures-bind _ (byte_at-Settles bytes 0 (one_byte code n e)) λ _ _. returns _ tt)
      (Settles-if (code == 2 || code == 17)
        (λ _.
          Ensures-bind _
            (collect-Ensures Any _ (segment-Advances _ (width_pos code asn_len w)) bytes)
            λ _ _. returns _ tt)
        (Settles-if ((code == 3 || code == 9) && n == 4)
          (λ _. Ensures-bind _ (next_hop_string-Settles bytes) λ _ _. returns _ tt)
          (Settles-if ((code == 4 || code == 5) && n == 4) (λ _. returns _ tt)
            (Settles-if (code == 6 && n == 0) (λ _. returns _ tt)
              (Settles-if ((code == 7 || code == 18) && n == (if code == 7 then 6 else 8))
                (λ e. aggregator-Settles bytes (wide code n e))
                (Settles-if (code == 8 && n % 4 == 0) (λ _. returns _ tt)
                  (Settles-if (code == 10 && n % 4 == 0)
                    (λ _.
                      Ensures-bind _
                        (map_results-Settles next_hop_string next_hop_string-Settles
                          (chunks 4 bytes))
                        λ _ _. returns _ tt)
                    (Settles-if (code == 14 || code == 15)
                      (λ _. Ensures-bind _ (mp_header-Settles code bytes) λ _ _. returns _ tt)
                      (Settles-if (code == 16 && n % 8 == 0) (λ _. returns _ tt)
                        (Settles-if (code == 25 && n % 20 == 0) (λ _. returns _ tt)
                          (Settles-if (code == 32 && n % 12 == 0) (λ _. returns _ tt)
                            (refuses _))))))))))))
