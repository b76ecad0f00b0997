-- ===== src/Wire/Attribute.antt =====
-- `attr_name` and `attribute` of wire.rs.
pub mod Total
use bgp_flowspec_receiver.Prelude.{
  ℕ, ◌+◌, ◌-◌, ◌*◌, ◌/◌, ◌%◌, Bool, true, ◌&&◌, ◌||◌, List, [], ◌∷◌, ◌++◌, map, Option, none, some,
  String, ltb, ◌==◌, length, take, drop, chunks, format, decimal, if◌then◌else◌,
}
use bgp_flowspec_receiver.Wire.Result.{ok, err, fault, panic, map_results, ◌>>=◌}
use bgp_flowspec_receiver.Wire.Cursor.{
  Wire, take as read, byte_at, slice_to, slice_from, minus, u8_at, u16_at, read_be_int,
}
use bgp_flowspec_receiver.Wire.Cursor.Loop.{collect}
use bgp_flowspec_receiver.Wire.Address.{next_hop_string}
use bgp_flowspec_receiver.Wire.Community.{parse_ext_communities, parse_ipv6_ext_communities}

unfoldable pub attr_name : ℕ → String
unfolding decimal
attr_name code =
    if code == 1
    then "ORIGIN"
    else if code == 2
    then "AS_PATH"
    else if code == 3
    then "NEXT_HOP"
    else if code == 4
    then "MULTI_EXIT_DISC"
    else if code == 5
    then "LOCAL_PREF"
    else if code == 6
    then "ATOMIC_AGGREGATE"
    else if code == 7
    then "AGGREGATOR"
    else if code == 8
    then "COMMUNITIES"
    else if code == 9
    then "ORIGINATOR_ID"
    else if code == 10
    then "CLUSTER_LIST"
    else if code == 14
    then "MP_REACH_NLRI"
    else if code == 15
    then "MP_UNREACH_NLRI"
    else if code == 16
    then "EXTENDED_COMMUNITIES"
    else if code == 17
    then "AS4_PATH"
    else if code == 18
    then "AS4_AGGREGATOR"
    else if code == 25
    then "IPV6_ADDRESS_SPECIFIC_EXTENDED_COMMUNITIES"
    else if code == 32
    then "LARGE_COMMUNITIES"
    else format ("ATTR_" ∷ decimal code ∷ [])

-- `{"type": .., "asns": ..}`
pub record Segment : Type 0 where
  pub kind : String
  pub asns : List ℕ

-- `{"afi": .., "safi": .., "next_hop": .., "nlri_length": ..}`, the next hop for a reach attribute
pub record MpInfo : Type 0 where
  pub afi : ℕ
  pub safi : ℕ
  pub next_hop : Option String
  pub nlri_length : ℕ

-- The JSON values that an attribute may have.
pub data Value : Type 0 where
  text : String → Value
  number : ℕ → Value
  present : Value
  texts : List String → Value
  path : List Segment → Value
  aggregator : ℕ → String → Value
  mp : MpInfo → Value

origin : ℕ → String
origin n =
    if n == 0
    then "igp"
    else if n == 1
    then "egp"
    else if n == 2
    then "incomplete"
    else format ("unknown-" ∷ decimal n ∷ [])

segment_kind : ℕ → String
segment_kind n =
    if n == 1
    then "AS_SET"
    else if n == 2
    then "AS_SEQUENCE"
    else if n == 3
    then "AS_CONFED_SEQUENCE"
    else if n == 4
    then "AS_CONFED_SET"
    else format ("SEGMENT_" ∷ decimal n ∷ [])

-- `chunks_exact(width)`, which panics at 0
unfoldable pub chunks_exact : ℕ → List ℕ → Wire (List (List ℕ))
unfolding chunks
chunks_exact width raw = if width == 0 then fault panic else ok (chunks width raw)

unfoldable pub segment : ℕ → List ℕ → Wire (Segment × List ℕ)
unfolding read byte_at chunks_exact read_be_int segment_kind
segment width bytes = do
  (h, bytes) ← read bytes 2
  count ← byte_at h 1
  (raw, bytes) ← read bytes (count * width)
  asns ← chunks_exact width raw
  kind ← byte_at h 0
  ok (record { kind = segment_kind kind; asns = map read_be_int asns }, bytes)

unfoldable pub community_text : List ℕ → String
unfolding read_be_int decimal
community_text c =
    let value = read_be_int c in
    if value == 0xffffff01
    then "NO_EXPORT"
    else if value == 0xffffff02
    then "NO_ADVERTISE"
    else if value == 0xffffff03
    then "NO_EXPORT_SUBCONFED"
    else if value == 0xffffff04
    then "NOPEER"
    else format (decimal (read_be_int (take 2 c)) ∷ ":" ∷ decimal (read_be_int (drop 2 c)) ∷ [])

large_community_text : List ℕ → String
large_community_text c = format (
    decimal (read_be_int (take 4 c))
    ∷ ":"
    ∷ decimal (read_be_int (take 4 (drop 4 c)))
    ∷ ":"
    ∷ decimal (read_be_int (drop 8 c))
    ∷ [])

-- The header of an MP_REACH_NLRI or MP_UNREACH_NLRI, up to its NLRI: `afi`, `safi` and, for a reach
-- attribute, the text of the next hop; the reserved byte behind its bytes is skipped.
pub record MpHeader : Type 0 where
  pub afi : ℕ
  pub safi : ℕ
  pub next_hop : Option String

unfoldable pub mp_header : ℕ → List ℕ → Wire (MpHeader × List ℕ)
unfolding u8_at u16_at read next_hop_string
mp_header code bytes = do
  (afi, bytes) ← u16_at bytes
  (safi, bytes) ← u8_at bytes
  if code == 14
      then (do
        (n, bytes) ← u8_at bytes
        (hop, bytes) ← read bytes n
        hop ← next_hop_string hop
        (_, bytes) ← read bytes 1
        ok (record { afi = afi; safi = safi; next_hop = some hop }, bytes))
      else ok (record { afi = afi; safi = safi; next_hop = none }, bytes)

unfoldable pub attribute : ℕ → List ℕ → ℕ → Wire Value
unfolding origin segment minus slice_to slice_from collect next_hop_string read_be_int
    community_text large_community_text chunks mp_header parse_ext_communities
    parse_ipv6_ext_communities
attribute code bytes asn_len =
    let n = length bytes in
    if code == 1 && n == 1
    then (do b ← byte_at bytes 0; ok (text (origin b)))
    else if code == 2 || code == 17
    then (do
      segments ← collect (segment (if code == 17 then 4 else asn_len)) bytes
      ok (path segments))
    else if (code == 3 || code == 9) && n == 4
    then (do hop ← next_hop_string bytes; ok (text hop))
    else if (code == 4 || code == 5) && n == 4
    then ok (number (read_be_int bytes))
    else if code == 6 && n == 0
    then ok present
    else if (code == 7 || code == 18) && n == (if code == 7 then 6 else 8)
    then (do
      width ← minus n 4
      front ← slice_to bytes width
      back ← slice_from bytes width
      router_id ← next_hop_string back
      ok (aggregator (read_be_int front) router_id))
    else if code == 8 && n % 4 == 0
    then ok (texts (map community_text (chunks 4 bytes)))
    else if code == 10 && n % 4 == 0
    then (do ids ← map_results next_hop_string (chunks 4 bytes); ok (texts ids))
    else if code == 14 || code == 15
    then (do
      (h, nlri) ← mp_header code bytes
      ok (
          mp (record {
            afi = h.afi;
            safi = h.safi;
            next_hop = h.next_hop;
            nlri_length = length nlri;
          })))
    else if code == 16 && n % 8 == 0
    then ok (texts (parse_ext_communities bytes))
    else if code == 25 && n % 20 == 0
    then ok (texts (parse_ipv6_ext_communities bytes))
    else if code == 32 && n % 12 == 0
    then ok (texts (map large_community_text (chunks 12 bytes)))
    else err "Unknown or malformed attribute"
