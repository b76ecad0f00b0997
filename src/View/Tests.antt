-- ===== src/View/Tests.antt =====
-- The theorems about the views at small tables.
use bgp_flowspec_receiver.Prelude.{
  ℕ, ◌-◌, ◌≤◌, ◌≡◌, ◌↔◌, ◌⊎◌, refl, min, String, Option, none, some, List, [], ◌∷◌, All, length,
  arith, str_eq, if◌then◌else◌,
}
use bgp_flowspec_receiver.Prelude.Dict.{Dict}
use bgp_flowspec_receiver.Rib.{Route, Data, empty}
use bgp_flowspec_receiver.Rib.Rows.{rows}
use bgp_flowspec_receiver.View.Page.{Page}
use bgp_flowspec_receiver.View.Page.Windows.{pages_from, pages-listing}
use bgp_flowspec_receiver.View.Search.{IpAddr, v4, candidate, match_len, search}
use bgp_flowspec_receiver.View.Search.Bits.{without_low, ipv4, match_len_iff}
use bgp_flowspec_receiver.View.Search.Longest.{AtMost, Comes, search-longest}
use bgp_flowspec_receiver.View.Stats.{top}
use bgp_flowspec_receiver.View.Stats.Top.{In, top-largest}

abbrev row : String → String → Route
row id prefix = record {
  id = id;
  family = "unicast";
  afi = "ipv4-unicast";
  peer = "192.0.2.1";
  received_at = "12:00";
  prefix = some prefix;
  next_hop = none;
  as_path = [];
  communities = [];
  match_rule = none;
  actions = [];
}

abbrev three : List Route
three = row "b" "10.0.0.0/8" ∷ row "a" "10.16.0.0/12" ∷ row "c" "0.0.0.0/0" ∷ []

pages-listing_example : pages_from 1 2 2 three ≡ three
pages-listing_example = pages-listing 2 2 three (omega arith) (omega arith)

abbrev by_id : Page
by_id = record {
  family = none;
  page = none;
  page_size = none;
  sort = some "id";
  order = some "asc";
}

-- Addresses and lengths of the test, read by a table.
abbrev parse_ip : String → Option IpAddr
parse_ip s =
    if str_eq s "10.0.0.0"
    then some (v4 167772160)
    else if str_eq s "10.16.0.0"
    then some (v4 168820736)
    else if str_eq s "0.0.0.0"
    then some (v4 0)
    else none

abbrev parse_u8 : String → Option ℕ
parse_u8 s =
    if str_eq s "8"
    then some 8
    else if str_eq s "12"
    then some 12
    else if str_eq s "0"
    then some 0
    else none

abbrev table : Data
unfolding empty
table = record empty {
  routes = (1, row "b" "10.0.0.0/8") ∷ (2, row "a" "10.16.0.0/12") ∷ (3, row "c" "0.0.0.0/0") ∷ [];
}

search-longest_example :
    All
      (λ r.
        AtMost
          (candidate parse_ip parse_u8 (v4 168820737) r)
          (search parse_ip parse_u8 (v4 168820737) table))
      (rows table.routes)
    × Comes parse_ip parse_u8
        (v4 168820737)
        (rows table.routes)
        (search parse_ip parse_u8 (v4 168820737) table)
search-longest_example = search-longest parse_ip parse_u8 (v4 168820737) table

abbrev ports : Dict ℕ
ports = ("=179", 3) ∷ ("=22", 9) ∷ ("=443", 9) ∷ ("=53", 1) ∷ ("=80", 4) ∷ ("=8080", 2) ∷ []

top-largest_example :
    (length (top ports) ≡ min 5 (length ports))
    × All (λ f. In f ports) (top ports)
    × All (λ g. In g (top ports) ⊎ All (λ f. g.1 ≤ f.1) (top ports)) ports
top-largest_example = top-largest ports

-- The order of the five, ties by text.
ports-ranked : top ports ≡ ("=22", 9) ∷ ("=443", 9) ∷ ("=80", 4) ∷ ("=179", 3) ∷ ("=8080", 2) ∷ []
unfolding top
ports-ranked = refl

found : search parse_ip parse_u8 (v4 168820737) table ≡ some (12, row "a" "10.16.0.0/12")
unfolding search table
found = refl

-- 10.0.0.0/8 and 10.1.2.3
match_len_iff_example :
    (match_len 32 167772160 167838211 8 ≡ some 8)
    ↔ ((8 ≤ 32) × (without_low (32 - 8) 167772160 ≡ without_low (32 - 8) 167838211))
match_len_iff_example = match_len_iff 167772160 167838211 8 ipv4 refl refl
