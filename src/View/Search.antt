-- ===== src/View/Search.antt =====
-- `prefix_match_len` and `search` of app.rs. Reading an address or a length from its text is Rust's
-- `parse`, and is a parameter; an address is a number.
pub mod Longest
pub mod Bits
use mathlib.Core.Option
use Prim.Native.Char.{code}
use Prim.Native.String
use bgp_flowspec_receiver.Prelude.{
  ℕ, ◌-◌, ◌*◌, ◌^◌, ◌%◌, Bool, true, false, ◌&&◌, String, Option, none, some, List, [], ◌∷◌, str_eq,
  leb, ◌==◌, bit_and, if◌then◌else◌,
}
use bgp_flowspec_receiver.Rib.{Route, Data, after_slash, ◌>>=◌}
use bgp_flowspec_receiver.Rib.Rows.{rows}

-- `IpAddr`
pub data IpAddr : Type 0 where
  v4 : ℕ → IpAddr
  v6 : ℕ → IpAddr

-- `s.split_once('/')`, the part before the first slash of a text that has one.
unfoldable pub before_slash : String → String
before_slash String.[] = String.[]
before_slash (String.◌∷◌ c s) = if code c == 47 then String.[] else String.◌∷◌ c (before_slash s)

-- `if len == 0 { 0 } else { MAX << (width - len) }`, in words of `width` bits.
abbrev pub mask : ℕ → ℕ → ℕ
mask width len = if len == 0 then 0 else (2 ^ width - 1) * 2 ^ (width - len) % 2 ^ width

unfoldable pub match_len : ℕ → ℕ → ℕ → ℕ → Option ℕ
match_len width net ip len =
    if leb len width && bit_and net (mask width len) == bit_and ip (mask width len)
    then some len
    else none

abbrev pub address_match_len : IpAddr → IpAddr → ℕ → Option ℕ
unfolding match_len
address_match_len (v4 net) (v4 ip) len = match_len 32 net ip len
address_match_len (v6 net) (v6 ip) len = match_len 128 net ip len
address_match_len (v4 net) (v6 ip) len = none
address_match_len (v6 net) (v4 ip) len = none

-- One step of `max_by_key`, which keeps the later of two equal keys.
abbrev pub better : Option (ℕ × Route) → Option (ℕ × Route) → Option (ℕ × Route)
better best none = best
better none (some c) = some c
better (some b) (some c) = if leb b.0 c.0 then some c else some b

module _ (parse_ip : String → Option IpAddr) (parse_u8 : String → Option ℕ) where
  unfoldable pub prefix_match_len : String → IpAddr → Option ℕ
  unfolding before_slash after_slash match_len
  prefix_match_len prefix ip = do
    length_text ← after_slash prefix
    len ← parse_u8 length_text
    net ← parse_ip (before_slash prefix)
    address_match_len net ip len

  -- A row that the two filters let through, with its length.
  unfoldable pub candidate : IpAddr → Route → Option (ℕ × Route)
  unfolding prefix_match_len
  candidate ip r =
      if str_eq r.family "unicast"
      then (do prefix ← r.prefix; len ← prefix_match_len prefix ip; some (len, r))
      else none

  unfoldable pub best_of : IpAddr → List Route → Option (ℕ × Route) → Option (ℕ × Route)
  unfolding candidate
  best_of ip [] best = best
  best_of ip (r ∷ rs) best = best_of ip rs (better best (candidate ip r))

  -- `none` stands for `{"match": false}`.
  unfoldable pub search : IpAddr → Data → Option (ℕ × Route)
  unfolding best_of
  search ip d = best_of ip (rows d.routes) none
