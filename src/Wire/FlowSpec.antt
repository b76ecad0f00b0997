-- ===== src/Wire/FlowSpec.antt =====
-- `components` and `flowspec` of wire.rs, with the operators and names of wire_helpers.rs.
pub mod Total
pub mod RoundTrip
pub mod Operators
use bgp_flowspec_receiver.Prelude.{
  ℕ, zero, suc, ◌+◌, ◌*◌, ◌/◌, ◌%◌, ◌^◌, Bool, true, false, ◌||◌, ◌&&◌, List, [], ◌∷◌, ◌++◌, Option,
  none, some, String, bit_and, bit_or, ltb, ◌==◌, has_bits, length, format, join, decimal, hex,
  if◌then◌else◌,
}
use bgp_flowspec_receiver.Prelude.Dict.{Dict, insert}
use bgp_flowspec_receiver.Wire.Result.{ok, err, fault, out_of_fuel, ◌>>=◌, map_err}
use bgp_flowspec_receiver.Wire.Cursor.{Wire, take, u8_at, read_be_int}
use bgp_flowspec_receiver.Wire.Cursor.Loop.{Body, while_bytes, collect}
use bgp_flowspec_receiver.Wire.Prefix.{afi_ipv6, parse_prefix}

unfoldable pub component_name : ℕ → ℕ → Option String
component_name ftype afi =
    if afi == afi_ipv6 && ftype == 13
    then some "flow-label"
    else if ftype == 1
    then some "dst-prefix"
    else if ftype == 2
    then some "src-prefix"
    else if ftype == 3
    then some "ip-proto"
    else if ftype == 4
    then some "port"
    else if ftype == 5
    then some "dst-port"
    else if ftype == 6
    then some "src-port"
    else if ftype == 7
    then some "icmp-type"
    else if ftype == 8
    then some "icmp-code"
    else if ftype == 9
    then some "tcp-flags"
    else if ftype == 10
    then some "pkt-len"
    else if ftype == 11
    then some "dscp"
    else if ftype == 12
    then some "fragment"
    else none

-- An operator byte: whether it ends the list, the bytes of its value, and its symbol.
pub record Operator : Type 0 where
  pub end : Bool
  pub len : ℕ
  pub symbol : String

abbrev comparison : Bool → Bool → Bool → String
comparison true true true = "<>="
comparison true true false = "<>"
comparison true false true = "<="
comparison true false false = "<"
comparison false true true = ">="
comparison false true false = ">"
comparison false false true = "="
comparison false false false = "?"

-- `1 << ((op >> 4) & 0x03)`
abbrev value_length : ℕ → ℕ
value_length op = 2 ^ bit_and (op / 16) 0x03

unfoldable pub decode_op : ℕ → Operator
decode_op op = record {
  end = has_bits op 0x80;
  len = value_length op;
  symbol = comparison (has_bits op 0x04) (has_bits op 0x02) (has_bits op 0x01);
}

unfoldable pub decode_bitmask_op : ℕ → Operator
decode_bitmask_op op = record {
  end = has_bits op 0x80;
  len = value_length op;
  symbol =
      if has_bits op 0x01
      then (if has_bits op 0x02 then "not-all" else "all")
      else (if has_bits op 0x02 then "none" else "any");
}

protocol_name : ℕ → Option String
protocol_name value =
    if value == 1
    then some "icmp"
    else if value == 2
    then some "igmp"
    else if value == 6
    then some "tcp"
    else if value == 17
    then some "udp"
    else if value == 41
    then some "ipv6"
    else if value == 47
    then some "gre"
    else if value == 50
    then some "esp"
    else if value == 51
    then some "ah"
    else if value == 58
    then some "icmpv6"
    else if value == 89
    then some "ospf"
    else if value == 132
    then some "sctp"
    else none

named_protocol : ℕ → Option String → String
named_protocol value (some name) = format (name ∷ "(" ∷ decimal value ∷ ")" ∷ [])
named_protocol value none = decimal value

unfoldable pub format_numeric_value : ℕ → ℕ → String
unfolding protocol_name named_protocol decimal
format_numeric_value ftype value =
    if ftype == 3
    then named_protocol value (protocol_name value)
    else if ftype == 11
    then decimal (bit_and value 0x3f)
    else decimal value

-- The names of the bits that are set, in the order of the table.
flag_names : ℕ → List (ℕ × String) → List String
flag_names value [] = []
flag_names value ((bit, name) ∷ table) =
    let rest = flag_names value table in if has_bits value bit then name ∷ rest else rest

unfoldable pub tcp_flag_names : ℕ → List String
unfolding flag_names
tcp_flag_names value = flag_names value (
    (0x001, "fin")
    ∷ (0x002, "syn")
    ∷ (0x004, "rst")
    ∷ (0x008, "psh")
    ∷ (0x010, "ack")
    ∷ (0x020, "urg")
    ∷ (0x040, "ece")
    ∷ (0x080, "cwr")
    ∷ (0x100, "ns")
    ∷ [])

unfoldable pub fragment_flag_names : ℕ → List String
unfolding flag_names
fragment_flag_names value =
    flag_names value (
      (0x01, "df")
      ∷ (0x02, "is-fragment")
      ∷ (0x04, "first-fragment")
      ∷ (0x08, "last-fragment")
      ∷ [])

flags_text : String → ℕ → List String → String
flags_text opname value [] = format (opname ∷ "(0x" ∷ hex value ∷ ")" ∷ [])
flags_text opname value (name ∷ names) = format (opname ∷ "(" ∷ join "," (name ∷ names) ∷ ")" ∷ [])

unfoldable pub format_bitmask_value : ℕ → String → ℕ → String
unfolding tcp_flag_names fragment_flag_names flags_text hex
format_bitmask_value ftype opname value =
    flags_text opname value (if ftype == 9 then tcp_flag_names value else fragment_flag_names value)

-- The value of a component: the text of a prefix, or the texts of its operators.
pub data Component : Type 0 where
  text : String → Component
  texts : List String → Component

abbrev pub Rule : Type 0
Rule = Dict Component

abbrev pub is_bitmask : ℕ → Bool
is_bitmask kind = kind == 9 || kind == 12

abbrev pub operator_of : ℕ → ℕ → Operator
operator_of kind op = if is_bitmask kind then decode_bitmask_op op else decode_op op

abbrev pub operator_text : ℕ → String → ℕ → String
operator_text kind symbol value =
    if is_bitmask kind
    then format_bitmask_value kind symbol value
    else format (symbol ∷ format_numeric_value kind value ∷ [])

-- `loop { .. if end { break } }`; each round takes an operator and a value of a byte at least.
operator_loop : ℕ → ℕ → List String → List ℕ → Wire (List String × List ℕ)
operator_loop zero kind values bytes = fault out_of_fuel
operator_loop (suc fuel) kind values bytes = do
  (op, bytes) ← u8_at bytes
  (raw, bytes) ← take bytes (operator_of kind op).len
  let values' = values ++ operator_text kind (operator_of kind op).symbol (read_be_int raw) ∷ []
  elim (operator_of kind op).end [
    | true ↦ ok (values', bytes)
    | false ↦ operator_loop fuel kind values' bytes
  ]

unfoldable pub operators : ℕ → List ℕ → Wire (List String × List ℕ)
unfolding operator_loop u8_at take decode_op decode_bitmask_op format_numeric_value
    format_bitmask_value read_be_int
operators kind bytes = operator_loop (suc (length bytes)) kind [] bytes

unfoldable pub component_value : ℕ → ℕ → List ℕ → Wire (Component × List ℕ)
unfolding operators parse_prefix
component_value kind afi bytes =
    if kind == 1 || kind == 2
    then (do
      (prefix, used) ← map_err (parse_prefix bytes 0 afi) "Invalid FlowSpec prefix"
      (_, bytes) ← take bytes used
      ok (text prefix, bytes))
    else (do (values, bytes) ← operators kind bytes; ok (texts values, bytes))

abbrev name_or_type : ℕ → Option String → String
name_or_type kind (some name) = name
name_or_type kind none = format ("type" ∷ decimal kind ∷ [])

unfoldable pub component : ℕ → Body Rule
unfolding u8_at component_name component_value
component afi rule bytes = do
  (kind, bytes) ← u8_at bytes
  (value, bytes) ← component_value kind afi bytes
  ok (insert (name_or_type kind (component_name kind afi)) value rule, bytes)

unfoldable pub components : List ℕ → ℕ → Wire Rule
unfolding component while_bytes
components bytes afi = while_bytes (component afi) [] bytes

-- One byte below 240, or twelve bits in two bytes.
unfoldable pub rule_length : ℕ → List ℕ → Wire (ℕ × List ℕ)
unfolding u8_at
rule_length first bytes =
    if ltb first 240
    then ok (first, bytes)
    else (do (low, bytes) ← u8_at bytes; ok (bit_or (bit_and first 15 * 256) low, bytes))

unfoldable pub flowspec_rule : ℕ → List ℕ → Wire (Rule × List ℕ)
unfolding u8_at rule_length take components
flowspec_rule afi bytes = do
  (first, bytes) ← u8_at bytes
  (len, bytes) ← rule_length first bytes
  (raw, bytes) ← take bytes len
  rule ← components raw afi
  ok (rule, bytes)

unfoldable pub flowspec : List ℕ → ℕ → Wire (List Rule)
unfolding flowspec_rule collect
flowspec bytes afi = collect (flowspec_rule afi) bytes
