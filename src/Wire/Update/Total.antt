-- ===== src/Wire/Update/Total.antt =====
-- How the decoder of an UPDATE ends.
use bgp_flowspec_receiver.Prelude.{
  ℕ, ◌<◌, ◌≡◌, false, ◌||◌, ◌&&◌, not, List, [], ◌∷◌, Option, String, arith, ◌==◌, length, has_bits,
  Bool-cases, inl, inr,
}
use bgp_flowspec_receiver.Wire.Result.{
  Ensures, Settles, returns, refuses, Ensures-bind, Ensures-refuse_if, Ensures-weaken,
}
use bgp_flowspec_receiver.Prelude.Dict.{Dict}
use bgp_flowspec_receiver.Wire.Cursor.{Wire, take-Splits}
use bgp_flowspec_receiver.Wire.Cursor.Reads.{byte_at-Settles, u8_at-Took, u16_at-Took}
use bgp_flowspec_receiver.Wire.Cursor.Loop.{Advances, while_bytes-Ensures}
use bgp_flowspec_receiver.Wire.Prefix.Total.{unicast-Settles}
use bgp_flowspec_receiver.Wire.FlowSpec.Total.{flowspec-Settles}
use bgp_flowspec_receiver.Wire.Attribute.{Value, MpHeader}
use bgp_flowspec_receiver.Wire.Attribute.Total.{attribute-Settles, mp_header-Settles}
use bgp_flowspec_receiver.Wire.Update.{
  State, Routes, attr_length, describe, known_family, family_routes, reach, path_attribute,
  add_ipv4, start, update, note_value,
}

attr_length-Below :
    (flags : ℕ) (bytes : List ℕ)
    → Ensures (λ r. length r.1 < length bytes) (attr_length flags bytes)
unfolding attr_length
attr_length-Below flags bytes = elim (Bool-cases (has_bits flags 16)) [
  | inl long ↦ rw long (Ensures-weaken (λ r t. omega (arith, t)) (u16_at-Took bytes))
  | inr short ↦ rw short (Ensures-weaken (λ r t. omega (arith, t)) (u8_at-Took bytes))
]

-- A refused attribute is kept in raw form.
describe-Settles :
    (flags code n : ℕ) (bytes : List ℕ) {r : Wire Value}
    → Settles r
    → Settles (describe flags code n bytes r)
unfolding describe
describe-Settles flags code n bytes (returns v _) = returns _ tt
describe-Settles flags code n bytes (refuses e) = returns _ tt

family_routes-Settles :
    (code : ℕ) (h : MpHeader) (nlri : List ℕ) (s : State) → Settles (family_routes code h nlri s)
unfolding family_routes
family_routes-Settles code h nlri s = elim (Bool-cases (h.safi == 133)) [
  | inl flow ↦ rw flow (Ensures-bind _ (flowspec-Settles nlri h.afi) λ _ _. returns _ tt)
  | inr plain ↦ rw plain (Ensures-bind _ (unicast-Settles nlri h.afi _) λ _ _. returns _ tt)
]

reach-Settles : (code : ℕ) (bytes : List ℕ) (s : State) → Settles (reach code bytes s)
unfolding reach
reach-Settles code bytes s = elim (Bool-cases (code == 14 || code == 15)) [
  | inl mp ↦ rw mp (
      Ensures-bind _ (mp_header-Settles code bytes) λ h _. elim (Bool-cases (known_family h.0)) [
        | inl known ↦ rw known (family_routes-Settles code h.0 h.1 s)
        | inr other ↦ rw other (returns s tt)
      ])
  | inr other ↦ rw other (returns s tt)
]

abbrev Any : State → Type 0
Any s = Unit

path_attribute-Advances :
    (asn_len : ℕ)
    → 0 < asn_len
    → (s : State) (attrs : List ℕ) → 0 < length attrs
    → Any s
    → Ensures (Advances Any attrs) (path_attribute asn_len s attrs)
unfolding path_attribute
path_attribute-Advances asn_len w s attrs h _ = Ensures-bind _ (take-Splits attrs 2) λ r t.
    Ensures-bind _ (byte_at-Settles r.0 0 (omega (arith, t.size))) λ flags _.
      Ensures-bind _ (byte_at-Settles r.0 1 (omega (arith, t.size))) λ code _.
        Ensures-bind _ (attr_length-Below flags r.1) λ n below.
          Ensures-bind _ (take-Splits n.1 n.0) λ bytes u.
            Ensures-bind _
              (describe-Settles flags code n.0 bytes.0 (attribute-Settles code bytes.0 asn_len w))
              λ attr _.
                Ensures-bind _ (reach-Settles code bytes.0 (note_value attr s))
                  λ s' _. returns _ (tt, omega (arith, t.left, below, u.left))

add_ipv4-Settles :
    (bytes : List ℕ) (hop : Option String) (m : Dict Routes) → Settles (add_ipv4 bytes hop m)
unfolding add_ipv4
add_ipv4-Settles [] hop m = returns m tt
add_ipv4-Settles (b ∷ bytes) hop m =
    Ensures-bind _ (unicast-Settles (b ∷ bytes) 1 hop) λ _ _. returns _ tt

sound_width : (n : ℕ) → not (n == 2) && not (n == 4) ≡ false → 0 < n
sound_width n h = ground arith

-- Whatever a peer sends as an UPDATE, and whatever width of AS numbers it is read with, `update` ends
-- in `Ok` or `Err`: no index or slice is out of range, no chunk is empty and every loop ends.
pub update-Settles : (body : List ℕ) (asn_len : ℕ) → Settles (update body asn_len)
unfolding update
update-Settles body asn_len =
    Ensures-bind _ (Ensures-refuse_if (not (asn_len == 2) && not (asn_len == 4)) _) λ _ sound.
      Ensures-bind _ (u16_at-Took body) λ a _. Ensures-bind _ (take-Splits a.1 a.0) λ withdrawn _.
        Ensures-bind _ (u16_at-Took withdrawn.1) λ b _.
          Ensures-bind _ (take-Splits b.1 b.0) λ attrs _.
            Ensures-bind _
              (while_bytes-Ensures Any (path_attribute asn_len)
                (path_attribute-Advances asn_len (sound_width asn_len sound)) start attrs.0 tt)
              λ s _.
                Ensures-bind _ (add_ipv4-Settles withdrawn.0 _ _)
                  λ w _. Ensures-bind _ (add_ipv4-Settles attrs.1 _ _) λ announce _. returns _ tt
