-- ===== src/Wire/Address.antt =====
-- Addresses and how they are written: the `Display` of Rust's `Ipv4Addr` and `Ipv6Addr`, and
-- `next_hop_string` and `hex_encode` of wire_helpers.rs. An address is the list of its bytes.
pub mod Hex
use Prim.Native.String
use bgp_flowspec_receiver.Prelude.{
  ℕ, suc, ◌+◌, ◌*◌, ◌/◌, ◌%◌, String, List, [], ◌∷◌, ◌++◌, map, bit_and, ltb, ◌==◌, length, list_eq,
  take, drop, replicate, format, join, hex_digit, decimal, hex, if◌then◌else◌,
}
use bgp_flowspec_receiver.Wire.Result.{ok, ◌>>=◌}
use bgp_flowspec_receiver.Wire.Cursor.{Wire, byte_at, array_of, slice_to, slice_from}

pub record Ipv4Addr : Type 0 where
  pub a : ℕ
  pub b : ℕ
  pub c : ℕ
  pub d : ℕ

abbrev pub octets : Ipv4Addr → List ℕ
octets ip = ip.a ∷ ip.b ∷ ip.c ∷ ip.d ∷ []

-- `Ipv4Addr::to_string`, of the four bytes
unfoldable pub ipv4_text : List ℕ → String
ipv4_text bytes = join "." (map decimal bytes)

-- The eight segments of sixteen bits.
abbrev segments : List ℕ → List ℕ
segments (hi ∷ lo ∷ bytes) = (hi * 256 + lo) ∷ segments bytes
segments _ = []

pub record Span : Type 0 where
  pub start : ℕ
  pub len : ℕ

-- The first longest run of zero segments; `i` is the index of the next segment.
longest_zeroes : Span → Span → ℕ → List ℕ → Span
longest_zeroes longest current i [] = longest
longest_zeroes longest current i (segment ∷ rest) =
    let start = if current.len == 0 then i else current.start in
    let grown : Span = record { start = start; len = suc current.len } in
    let none : Span = record { start = 0; len = 0 } in
    let current' = if segment == 0 then grown else none in
    longest_zeroes (if ltb longest.len current'.len then current' else longest) current' (suc i)
      rest

abbrev fmt_subslice : List ℕ → String
fmt_subslice chunk = join ":" (map hex chunk)

abbrev fmt_segments : List ℕ → Span → String
fmt_segments parts zeroes =
    if ltb 1 zeroes.len
    then format (
        fmt_subslice (take zeroes.start parts)
        ∷ "::"
        ∷ fmt_subslice (drop (zeroes.start + zeroes.len) parts)
        ∷ [])
    else fmt_subslice parts

-- `Ipv6Addr::to_string`, of the sixteen bytes: an IPv4-mapped address ends in dotted form, and the
-- first longest run of zero segments, of two at least, is written `::`.
unfoldable pub ipv6_text : List ℕ → String
unfolding longest_zeroes ipv4_text
ipv6_text bytes =
    let parts = segments bytes in
    let none : Span = record { start = 0; len = 0 } in
    if list_eq (take 12 bytes) (replicate 10 0 ++ 255 ∷ 255 ∷ [])
    then format ("::ffff:" ∷ ipv4_text (drop 12 bytes) ∷ [])
    else fmt_segments parts (longest_zeroes none none 0 parts)

unfoldable pub hex_encode : List ℕ → String
hex_encode [] = ""
hex_encode (b ∷ bytes) =
    String.◌∷◌ (hex_digit (b / 16)) (String.◌∷◌ (hex_digit (bit_and b 0x0f)) (hex_encode bytes))

unfoldable pub next_hop_string : List ℕ → Wire String
unfolding ipv4_text ipv6_text hex_encode byte_at array_of slice_to slice_from
next_hop_string bytes =
    if length bytes == 0
    then ok ""
    else if length bytes == 4
    then (do
      a ← byte_at bytes 0
      b ← byte_at bytes 1
      c ← byte_at bytes 2
      d ← byte_at bytes 3
      ok (ipv4_text (a ∷ b ∷ c ∷ d ∷ [])))
    else if length bytes == 16
    then (do ip ← array_of 16 bytes; ok (ipv6_text ip))
    else if length bytes == 32
    then (do
      front ← slice_to bytes 16
      global ← array_of 16 front
      back ← slice_from bytes 16
      link_local ← array_of 16 back
      ok (format (ipv6_text global ∷ "," ∷ ipv6_text link_local ∷ [])))
    else ok (hex_encode bytes)
