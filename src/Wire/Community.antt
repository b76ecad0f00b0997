-- ===== src/Wire/Community.antt =====
-- `parse_ext_communities`, `parse_ipv6_ext_communities`, `redirect_to_ip_action` and `read_f32` of
-- wire_helpers.rs. A community is a chunk of eight or twenty bytes, so its constant indices are in
-- range; a byte is read from the list with 0 beyond its end, which is never used.
pub mod Single
pub mod Actions
pub mod Fields
use Single.{Float, of_bits, le_zero, times_eight, float_text}
use bgp_flowspec_receiver.Prelude.{
  ℕ, ◌+◌, ◌*◌, ◌/◌, ◌%◌, ◌^◌, Bool, ◌&&◌, ◌||◌, not, List, [], ◌∷◌, map, String, bit_and, ltb, leb,
  ◌==◌, str_eq, has_bits, take, drop, get_or, chunks, format, decimal, hex4, if◌then◌else◌,
}
use bgp_flowspec_receiver.Wire.Address.{ipv4_text, ipv6_text, hex_encode}

abbrev pub nth : List ℕ → ℕ → ℕ
nth c i = get_or c i 0

abbrev pub be16_of : List ℕ → ℕ → ℕ
be16_of c i = nth c i * 256 + nth c (i + 1)

abbrev pub be32_of : List ℕ → ℕ → ℕ
be32_of c i = be16_of c i * 2 ^ 16 + be16_of c (i + 2)

unfoldable pub read_f32 : List ℕ → ℕ → Float
unfolding of_bits
read_f32 c i = of_bits (be32_of c i)

unfoldable pub redirect_to_ip_action : String → String → ℕ → String
unfolding hex4
redirect_to_ip_action family addr flags =
    let verb = if has_bits flags 0x0001 then "copy-to" else "redirect-to" in
    let extra =
      if flags == 0 || flags == 1 then "" else format ("(flags=0x" ∷ hex4 flags ∷ ")" ∷ []) in
    if str_eq addr "0.0.0.0" || str_eq addr "::"
    then format (verb ∷ "-next-hop" ∷ extra ∷ [])
    else format (verb ∷ "-" ∷ family ∷ "=" ∷ addr ∷ extra ∷ [])

abbrev truth : Bool → String
truth b = if b then "True" else "False"

-- The action of one community of eight bytes; the tests stand in the order of the source.
unfoldable pub ext_community : List ℕ → String
unfolding read_f32 le_zero times_eight float_text ipv4_text hex_encode redirect_to_ip_action decimal
ext_community c =
    let t = nth c 0 in
    let s = nth c 1 in
    if t == 0x80 && s == 0x06
    then (let rate = read_f32 c 4 in
        if le_zero rate
        then "discard"
        else format ("rate-limit=" ∷ float_text (times_eight rate) ∷ "bps" ∷ []))
    else if t == 0x80 && s == 0x0c
    then (let rate = read_f32 c 4 in
        if le_zero rate
        then "discard-packets"
        else format ("rate-limit=" ∷ float_text rate ∷ "pps" ∷ []))
    else if t == 0x80 && s == 0x07
    then format (
        "traffic-action(sample="
        ∷ truth (has_bits (nth c 7) 0x02)
        ∷ ",terminal="
        ∷ truth (has_bits (nth c 7) 0x01)
        ∷ ")"
        ∷ [])
    else if t == 0x80 && s == 0x08
    then format ("rt-redirect=" ∷ decimal (be16_of c 2) ∷ ":" ∷ decimal (be32_of c 4) ∷ [])
    else if t == 0x81 && s == 0x08
    then format ("rt-redirect=" ∷ ipv4_text (take 4 (drop 2 c)) ∷ ":" ∷ decimal (be16_of c 6) ∷ [])
    else if t == 0x82 && s == 0x08
    then format ("rt-redirect=" ∷ decimal (be32_of c 2) ∷ ":" ∷ decimal (be16_of c 6) ∷ [])
    else if t == 0x80 && s == 0x09
    then format ("mark-dscp=" ∷ decimal (bit_and (nth c 7) 0x3f) ∷ [])
    else if t == 0x01 && s == 0x0c
    then redirect_to_ip_action "ipv4" (ipv4_text (take 4 (drop 2 c))) (be16_of c 6)
    else if t == 0x08
    then "redirect-to-next-hop"
    else if t == 0x80 && s == 0x0b
    then format ("ec=" ∷ hex_encode c ∷ "(juniper-redirect-to-next-hop)" ∷ [])
    else if t == 0x80 || t == 0x81 || t == 0x82
    then format ("unknown-flowspec-ec=" ∷ hex_encode c ∷ [])
    else format ("ec=" ∷ hex_encode c ∷ [])

unfoldable pub parse_ext_communities : List ℕ → List String
unfolding ext_community chunks
parse_ext_communities bytes = map ext_community (chunks 8 bytes)

unfoldable pub ipv6_ext_community : List ℕ → String
unfolding ipv6_text hex_encode redirect_to_ip_action decimal
ipv6_ext_community c =
    let etype = be16_of c 0 in
    let ip = ipv6_text (take 16 (drop 2 c)) in
    let val = be16_of c 18 in
    if etype == 0x000c
    then redirect_to_ip_action "ipv6" ip val
    else if etype == 0x000d
    then format ("rt-redirect=[" ∷ ip ∷ "]:" ∷ decimal val ∷ [])
    else if leb 0x000c etype && ltb etype 0x0010
    then format ("unknown-flowspec-ipv6-ec=" ∷ hex_encode c ∷ [])
    else format ("ipv6-ec=" ∷ hex_encode c ∷ [])

unfoldable pub parse_ipv6_ext_communities : List ℕ → List String
unfolding ipv6_ext_community chunks
parse_ipv6_ext_communities bytes = map ipv6_ext_community (chunks 20 bytes)
