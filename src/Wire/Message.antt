-- ===== src/Wire/Message.antt =====
-- `header`, `message`, `build_open` and `open` of wire.rs.
pub mod Frames
pub mod Open
use bgp_flowspec_receiver.Prelude.{
  ℕ, ◌+◌, ◌-◌, ◌*◌, ◌/◌, ◌%◌, ◌^◌, Bool, true, false, ◌&&◌, ◌||◌, not, List, [], ◌∷◌, ◌++◌, String,
  ltb, leb, ◌==◌, length, list_eq, replicate, format, decimal, if◌then◌else◌,
}
use bgp_flowspec_receiver.Prelude.{take as list_take}
use bgp_flowspec_receiver.Wire.Result.{ok, err, ◌>>=◌, ◌>>◌, refuse_if}
use bgp_flowspec_receiver.Wire.Address.{Ipv4Addr, octets, ipv4_text}
use bgp_flowspec_receiver.Wire.Cursor.{Wire, take, byte_at, be16}
use bgp_flowspec_receiver.Wire.Cursor.Loop.{Body, while_bytes}

-- `x.to_be_bytes()` of a u16 and of a u32
abbrev pub be16_bytes : ℕ → List ℕ
be16_bytes x = x / 256 ∷ x % 256 ∷ []

abbrev pub be32_bytes : ℕ → List ℕ
be32_bytes x = x / 2 ^ 24 ∷ x / 2 ^ 16 % 256 ∷ x / 2 ^ 8 % 256 ∷ x % 256 ∷ []

-- `u16::from_be_bytes([data[i], data[i + 1]])`, and the like for four bytes
unfoldable pub be16_at : List ℕ → ℕ → Wire ℕ
unfolding byte_at
be16_at bytes i = do hi ← byte_at bytes i; lo ← byte_at bytes (i + 1); ok (be16 hi lo)

unfoldable pub be32_at : List ℕ → ℕ → Wire ℕ
unfolding be16_at
be32_at bytes i = do hi ← be16_at bytes i; lo ← be16_at bytes (i + 2); ok (hi * 2 ^ 16 + lo)

unfoldable pub ipv4_at : List ℕ → ℕ → Wire Ipv4Addr
unfolding byte_at
ipv4_at bytes i = do
  a ← byte_at bytes i
  b ← byte_at bytes (i + 1)
  c ← byte_at bytes (i + 2)
  d ← byte_at bytes (i + 3)
  ok (record { a = a; b = b; c = c; d = d })

abbrev pub marker : List ℕ
marker = replicate 16 255

unfoldable pub header : List ℕ → Wire (ℕ × ℕ)
unfolding be16_at
header bytes = do
  refuse_if (not (length bytes == 19) || not (list_eq (list_take 16 bytes) marker))
      "Invalid BGP header"
  length ← be16_at bytes 16
  refuse_if (not (leb 19 length && leb length 4096)) "Invalid BGP message length"
  kind ← byte_at bytes 18
  ok (kind, length - 19)

unfoldable pub message : ℕ → List ℕ → List ℕ
message kind body = marker ++ (be16_bytes ((length body + 19) % 2 ^ 16) ++ (kind ∷ body))

-- The capability of one family, and the loop over the families.
abbrev pub multiprotocol : ℕ → ℕ → List ℕ
multiprotocol afi safi = 1 ∷ 4 ∷ (be16_bytes afi ++ (0 ∷ safi ∷ []))

abbrev pub capabilities : ℕ → List ℕ
capabilities asn =
    multiprotocol 1 1
    ++ (multiprotocol 1 133
        ++ (multiprotocol 2 1 ++ (multiprotocol 2 133 ++ (65 ∷ 4 ∷ be32_bytes asn))))

-- The two-byte field: AS_TRANS stands for a number that does not fit.
abbrev pub my_as : ℕ → ℕ
my_as asn = if ltb 65535 asn then 23456 else asn

unfoldable pub open_body : ℕ → ℕ → Ipv4Addr → List ℕ
open_body asn hold router =
    let caps = capabilities asn in
    4
    ∷ (be16_bytes (my_as asn)
        ++ (be16_bytes hold
            ++ (octets router ++ ((length caps + 2) % 256 ∷ 2 ∷ length caps % 256 ∷ caps))))

unfoldable pub build_open : ℕ → ℕ → Ipv4Addr → List ℕ
unfolding message open_body
build_open asn hold router = message 1 (open_body asn hold router)

pub record OpenInfo : Type 0 where
  pub version : ℕ
  pub peer_as : ℕ
  pub hold_time : ℕ
  pub router_id : String
  pub supports_4byte_asn : Bool

-- The variables `asn` and `as4` of the two loops.
pub record Caps : Type 0 where
  pub asn : ℕ
  pub as4 : Bool

-- A capability of code 65 with four bytes sets both.
unfoldable pub store_asn : Caps → ℕ → List ℕ → List ℕ → Wire (Caps × List ℕ)
unfolding be32_at
store_asn s code val rest =
    if code == 65 && length val == 4
    then (do asn ← be32_at val 0; ok (record { asn = asn; as4 = true }, rest))
    else ok (s, rest)

unfoldable pub capability : Body Caps
unfolding take byte_at store_asn
capability s caps = do
  (h, caps) ← take caps 2
  len ← byte_at h 1
  (val, caps) ← take caps len
  code ← byte_at h 0
  store_asn s code val caps

-- A parameter that is no capability list is skipped.
unfoldable pub read_caps : Caps → ℕ → List ℕ → List ℕ → Wire (Caps × List ℕ)
unfolding capability while_bytes
read_caps s kind caps rest =
    if not (kind == 2) then ok (s, rest) else (do s' ← while_bytes capability s caps; ok (s', rest))

unfoldable pub parameter : Body Caps
unfolding take byte_at read_caps
parameter s params = do
  (h, params) ← take params 2
  len ← byte_at h 1
  (caps, params) ← take params len
  kind ← byte_at h 0
  read_caps s kind caps params

-- The version of the answer is the literal of the source; the byte has been compared with it.
unfoldable pub open_message : List ℕ → Wire OpenInfo
unfolding parameter ipv4_at ipv4_text
open_message body = do
  (base, body) ← take body 10
  asn ← be16_at base 1
  hold ← be16_at base 3
  version ← byte_at base 0
  refuse_if (not (version == 4) || (not (hold == 0) && ltb hold 3)) "Invalid BGP OPEN"
  len ← byte_at base 9
  (params, body) ← take body len
  s ← while_bytes parameter (record { asn = asn; as4 = false }) params
  router ← ipv4_at base 5
  ok (record {
    version = 4;
    peer_as = s.asn;
    hold_time = hold;
    router_id = ipv4_text (octets router);
    supports_4byte_asn = s.as4;
  })
