-- ===== src/Wire/Prefix.antt =====
-- `mask_prefix`, `prefix_string` and `parse_prefix` of wire_helpers.rs, and `unicast` of wire.rs.
pub mod Total
pub mod Mask
pub mod RoundTrip
use bgp_flowspec_receiver.Prelude.{
  ℕ, ◌+◌, ◌-◌, ◌*◌, ◌/◌, ◌%◌, ◌^◌, Bool, true, false, ◌&&◌, not, List, [], ◌∷◌, ◌++◌, Option, none,
  some, String, bit_and, ltb, leb, ◌==◌, length, take, drop, replicate, modify, format, decimal,
  if◌then◌else◌,
}
use bgp_flowspec_receiver.Wire.Result.{
  Result, ok, err, fault, panic, ◌>>=◌, ◌>>◌, refuse_if, map_err,
}
use bgp_flowspec_receiver.Wire.Cursor.{Wire, take as read, byte_at, u8_at}
use bgp_flowspec_receiver.Wire.Cursor.Loop.{collect}
use bgp_flowspec_receiver.Wire.Address.{ipv4_text, ipv6_text}

abbrev pub afi_ipv4 : ℕ
afi_ipv4 = 1

abbrev pub afi_ipv6 : ℕ
afi_ipv6 = 2

abbrev pub max_bits : ℕ → ℕ
max_bits afi = if afi == afi_ipv6 then 128 else 32

-- `bits.div_ceil(8)`
abbrev pub byte_count : ℕ → ℕ
byte_count bits = (bits + 7) / 8

-- `&= 0xff << (8 - remaining_bits)` on a u8
abbrev pub keep_high : ℕ → ℕ → ℕ
keep_high r b = bit_and b (0xff * 2 ^ (8 - r) % 256)

abbrev pub clear_from : ℕ → List ℕ → List ℕ
clear_from i address = take i address ++ replicate (length address - i) 0

-- The slice `address[zero_from..]` is out of range beyond the length.
unfoldable pub mask_prefix : List ℕ → ℕ → Result (Unit {0}) (List ℕ)
mask_prefix address prefix_len =
    let full = prefix_len / 8 in
    let rem = prefix_len % 8 in
    let masked =
      if not (rem == 0) && ltb full (length address)
      then modify address full (keep_high rem)
      else address in
    let zero_from = full + (if rem == 0 then 0 else 1) in
    if leb zero_from (length address) then ok (clear_from zero_from masked) else fault panic

-- `let mut buf = [0u8; size]; buf[..raw.len()].copy_from_slice(raw);`
unfoldable pub padded : ℕ → List ℕ → Result (Unit {0}) (List ℕ)
padded size raw =
    if leb (length raw) size then ok (raw ++ replicate (size - length raw) 0) else fault panic

abbrev pub mask_if : Bool → List ℕ → ℕ → Result (Unit {0}) (List ℕ)
mask_if true buf prefix_len = mask_prefix buf prefix_len
mask_if false buf prefix_len = ok buf

abbrev pub with_length : String → ℕ → String
with_length address prefix_len = format (address ∷ "/" ∷ decimal prefix_len ∷ [])

unfoldable pub prefix_string : List ℕ → ℕ → ℕ → Bool → Result (Unit {0}) String
unfolding padded mask_prefix
prefix_string raw prefix_len afi mask =
    if afi == afi_ipv6
    then (do
      buf ← padded 16 raw
      buf ← mask_if mask buf prefix_len
      ok (with_length (ipv6_text buf) prefix_len))
    else if afi == afi_ipv4
    then (do
      buf ← padded 4 raw
      buf ← mask_if mask buf prefix_len
      ok (with_length (ipv4_text buf) prefix_len))
    else err tt

-- The slice `data[offset..offset + num_bytes]`, which the tests before it keep in range.
abbrev slice : List ℕ → ℕ → ℕ → Result (Unit {0}) (List ℕ)
slice bytes from n =
    if ltb (length bytes) (from + n) then fault panic else ok (take n (drop from bytes))

unfoldable pub parse_prefix : List ℕ → ℕ → ℕ → Result (Unit {0}) (String × ℕ)
unfolding prefix_string byte_at
parse_prefix bytes offset afi = do
  refuse_if (leb (length bytes) offset) tt
  prefix_len ← byte_at bytes offset
  let after = offset + 1
  refuse_if (ltb (max_bits afi) prefix_len) tt
  let num_bytes = byte_count prefix_len
  refuse_if (ltb (length bytes) (after + num_bytes)) tt
  raw ← slice bytes after num_bytes
  text ← prefix_string raw prefix_len afi false
  ok (text, after + num_bytes)

-- `{"prefix": ..}`, with `"next_hop"` where one is given
pub record UnicastRoute : Type 0 where
  pub prefix : String
  pub next_hop : Option String

unfoldable pub unicast_route : ℕ → Option String → List ℕ → Wire (UnicastRoute × List ℕ)
unfolding u8_at read prefix_string
unicast_route afi next_hop bytes = do
  (bits, bytes) ← u8_at bytes
  refuse_if (ltb (max_bits afi) bits) "Invalid prefix length"
  (raw, bytes) ← read bytes (byte_count bits)
  prefix ← map_err (prefix_string raw bits afi true) "Invalid prefix"
  ok (record { prefix = prefix; next_hop = next_hop }, bytes)

unfoldable pub unicast : List ℕ → ℕ → Option String → Wire (List UnicastRoute)
unfolding unicast_route collect
unicast bytes afi next_hop = collect (unicast_route afi next_hop) bytes
