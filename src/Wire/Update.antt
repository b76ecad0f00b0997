-- ===== src/Wire/Update.antt =====
-- `update` of wire.rs: the UPDATE message. The JSON objects with fixed keys are records here, and
-- `announce` and `withdraw` are maps from the label of a family to its routes.
pub mod Total
use Prim.Native.String
use mathlib.Core.Option
use bgp_flowspec_receiver.Prelude.{
  ℕ, Bool, ◌&&◌, ◌||◌, not, List, [], ◌∷◌, ◌++◌, map, Option, none, some, String, ◌==◌, str_eq,
  has_bits, length, format, strip_suffix, if◌then◌else◌,
}
use bgp_flowspec_receiver.Prelude.Dict.{Dict, insert}
use bgp_flowspec_receiver.Wire.Result.{Result, ok, err, fault, ◌>>=◌, ◌>>◌, refuse_if}
use bgp_flowspec_receiver.Wire.Cursor.{Wire, take as read, byte_at, u8_at, u16_at}
use bgp_flowspec_receiver.Wire.Cursor.Loop.{Body, while_bytes}
use bgp_flowspec_receiver.Wire.Address.{hex_encode}
use bgp_flowspec_receiver.Wire.Prefix.{UnicastRoute, unicast}
use bgp_flowspec_receiver.Wire.FlowSpec.{Rule, flowspec}
use bgp_flowspec_receiver.Wire.Attribute.{
  Value, text, texts, MpHeader, mp_header, attr_name, attribute,
}

pub record Flags : Type 0 where
  pub optional : Bool
  pub transitive : Bool
  pub partial : Bool
  pub extended_length : Bool

-- An element of `path_attributes`: it has a value, or its bytes in hexadecimal as `raw`.
pub record Attr : Type 0 where
  pub code : ℕ
  pub name : String
  pub length : ℕ
  pub flags : Flags
  pub value : Option Value
  pub raw : Option String

pub data Routes : Type 0 where
  unicast_routes : List UnicastRoute → Routes
  flowspec_rules : List Rule → Routes

-- The variables of `update` that its loop over the attributes changes.
pub record State : Type 0 where
  pub announce : Dict Routes
  pub withdraw : Dict Routes
  pub attributes : List Attr
  pub actions : List String
  pub next_hop : String
  pub flow_next_hop : String

pub record Update : Type 0 where
  pub announce : Dict Routes
  pub withdraw : Dict Routes
  pub actions : List String
  pub path_attributes : List Attr

unfoldable pub attr_length : ℕ → List ℕ → Wire (ℕ × List ℕ)
unfolding u8_at u16_at
attr_length flags bytes = if has_bits flags 16 then u16_at bytes else u8_at bytes

abbrev attr_flags : ℕ → Flags
attr_flags flags = record {
  optional = has_bits flags 128;
  transitive = has_bits flags 64;
  partial = has_bits flags 32;
  extended_length = has_bits flags 16;
}

-- `attr["value"]` is set on `Ok`, `attr["raw"]` on `Err`.
unfoldable pub describe : ℕ → ℕ → ℕ → List ℕ → Wire Value → Wire Attr
unfolding attr_name hex_encode
describe flags code n bytes (ok v) = ok (record {
  code = code;
  name = attr_name code;
  length = n;
  flags = attr_flags flags;
  value = some v;
  raw = none;
})
describe flags code n bytes (err e) = ok (record {
  code = code;
  name = attr_name code;
  length = n;
  flags = attr_flags flags;
  value = none;
  raw = some (hex_encode bytes);
})
describe flags code n bytes (fault x) = fault x

-- `attr["value"].as_str().unwrap_or("")`
abbrev pub value_text : Option Value → String
value_text (some (text s)) = s
value_text _ = ""

-- `attr["value"].as_array()`, of an attribute whose arrays hold texts: codes 16 and 25.
abbrev pub value_texts : Option Value → List String
value_texts (some (texts ss)) = ss
value_texts _ = []

unfoldable pub note_value : Attr → State → State
note_value attr s = record s {
  next_hop = if attr.code == 3 then value_text attr.value else s.next_hop;
  actions =
      if attr.code == 16 || attr.code == 25 then s.actions ++ value_texts attr.value else s.actions;
}

abbrev pub known_family : MpHeader → Bool
known_family h = (h.afi == 1 || h.afi == 2) && (h.safi == 1 || h.safi == 133)

abbrev pub label : MpHeader → String
label h = format (
    "ipv"
    ∷ (if h.afi == 2 then "6" else "4")
    ∷ "-"
    ∷ (if h.safi == 133 then "flowspec" else "unicast")
    ∷ [])

-- `nh`, empty without a reach attribute.
abbrev hop_text : Option String → String
hop_text none = ""
hop_text (some hop) = hop

-- The routes of one family: announced by a reach attribute, withdrawn by the other.
unfoldable pub store_routes : ℕ → MpHeader → Routes → State → State
unfolding insert
store_routes code h routes s =
    if code == 14
    then record s { announce = insert (label h) routes s.announce }
    else record s { withdraw = insert (label h) routes s.withdraw }

abbrev keep_hop : String → State → State
keep_hop nh s = if str_eq nh "" then s else record s { flow_next_hop = nh }

unfoldable pub family_routes : ℕ → MpHeader → List ℕ → State → Wire State
unfolding flowspec unicast store_routes
family_routes code h nlri s =
    let nh = hop_text h.next_hop in
    if h.safi == 133
    then (do
      rules ← flowspec nlri h.afi
      ok (store_routes code h (flowspec_rules rules) (keep_hop nh s)))
    else (do
      routes ← unicast nlri h.afi (if code == 14 then some nh else none)
      ok (store_routes code h (unicast_routes routes) s))

unfoldable pub reach : ℕ → List ℕ → State → Wire State
unfolding mp_header family_routes
reach code bytes s =
    if code == 14 || code == 15
    then (do
      (h, nlri) ← mp_header code bytes
      if known_family h then family_routes code h nlri s else ok s)
    else ok s

unfoldable pub path_attribute : ℕ → Body State
unfolding read byte_at attr_length attribute describe note_value reach
path_attribute asn_len s attrs = do
  (h, attrs) ← read attrs 2
  flags ← byte_at h 0
  code ← byte_at h 1
  (n, attrs) ← attr_length flags attrs
  (bytes, attrs) ← read attrs n
  attr ← describe flags code n bytes (attribute code bytes asn_len)
  s' ← reach code bytes (note_value attr s)
  ok (record s' { attributes = s'.attributes ++ attr ∷ [] }, attrs)

unfoldable pub replacement : String → String → Option String
unfolding strip_suffix
replacement hop s =
    if str_eq s "redirect-to-next-hop"
    then some (format ("redirect-to-ipv4=" ∷ hop ∷ []))
    else if str_eq s "copy-to-next-hop"
    then some (format ("copy-to-ipv4=" ∷ hop ∷ []))
    else Option.map (λ p. format (p ∷ "(juniper-redirect-to-ipv4=" ∷ hop ∷ ")" ∷ []))
        (strip_suffix s "(juniper-redirect-to-next-hop)")

unfoldable pub replace_one : String → String → String
unfolding replacement
replace_one hop s = elim (replacement hop s) [ none ↦ s | some s' ↦ s' ]

-- The closure `replace`, for the next hop `hop`.
abbrev pub replace : String → List String → List String
replace hop values = map (replace_one hop) values

replace_value : String → Option Value → Option Value
replace_value hop (some (texts ss)) = some (texts (replace hop ss))
replace_value hop v = v

replace_attr : String → Attr → Attr
replace_attr hop attr =
    if attr.code == 16 then record attr { value = replace_value hop attr.value } else attr

unfoldable pub resolve_next_hop : State → State
unfolding replace_one replace_value replace_attr
resolve_next_hop s = if str_eq s.flow_next_hop "" then s else record s {
  actions = replace s.flow_next_hop s.actions;
  attributes = map (replace_attr s.flow_next_hop) s.attributes;
}

-- `if !bytes.is_empty() { map.insert("ipv4-unicast", unicast(bytes, 1, next_hop)?) }`
unfoldable pub add_ipv4 : List ℕ → Option String → Dict Routes → Wire (Dict Routes)
unfolding unicast insert
add_ipv4 [] next_hop m = ok m
add_ipv4 (b ∷ bytes) next_hop m = do
  routes ← unicast (b ∷ bytes) 1 next_hop
  ok (insert "ipv4-unicast" (unicast_routes routes) m)

abbrev pub start : State
start = record {
  announce = [];
  withdraw = [];
  attributes = [];
  actions = [];
  next_hop = "";
  flow_next_hop = "";
}

unfoldable pub update : List ℕ → ℕ → Wire Update
unfolding u16_at read path_attribute while_bytes resolve_next_hop add_ipv4
update body asn_len = do
  refuse_if (not (asn_len == 2) && not (asn_len == 4)) "Invalid ASN width"
  (len, body) ← u16_at body
  (withdrawn, body) ← read body len
  (len, body) ← u16_at body
  (attrs, body) ← read body len
  s ← while_bytes (path_attribute asn_len) start attrs
  let s' = resolve_next_hop s
  withdraw ← add_ipv4 withdrawn none s'.withdraw
  announce ← add_ipv4 body (some s'.next_hop) s'.announce
  ok (record {
    announce = announce;
    withdraw = withdraw;
    actions = s'.actions;
    path_attributes = s'.attributes;
  })
