-- ===== src/Rib.antt =====
-- The routing table of app.rs: `Route` and `Data` with `metrics`, `count`, `insert`, `remove`, `clear`.
-- The fields of `Data` that these operations do not touch are the session's and the history's. The
-- interning pool is left out: it shares allocations and returns equal values. `none` is a panic: an
-- `unwrap` of `None`, or a `usize` that would go below 0. An `Instant` is a number.
pub mod Tally
pub mod Rows
pub mod Invariant
pub mod Removal
pub mod Apply
pub mod Reachable
mod Tests
use Prim.Native.Char.{code}
use Prim.Native.String
use Prim.Native.String.{◌++◌ as append}
use text.Mathlib.Text.{starts_with}
use mathlib.Core.Option
use bgp_flowspec_receiver.Prelude.{
  ℕ, suc, zero, ◌+◌, ◌-◌, Bool, true, false, List, [], ◌∷◌, ◌++◌, map, Option, none, some, String,
  ◌==◌, str_eq, decimal, concat, if◌then◌else◌,
}
use bgp_flowspec_receiver.Prelude.Dict
use bgp_flowspec_receiver.Prelude.Dict.{Dict}
use bgp_flowspec_receiver.Prelude.SeqMap
use bgp_flowspec_receiver.Prelude.SeqMap.{SeqMap}
use bgp_flowspec_receiver.Wire.FlowSpec.{Rule, Component}

infixl 10 ◌>>=◌
abbrev pub ◌>>=◌ {ℓ κ} : {A : Type ℓ} {B : Type κ} → Option A → (A → Option B) → Option B
none >>= f = none
some a >>= f = f a

pub record Route : Type 0 where
  pub id : String
  pub family : String
  pub afi : String
  pub peer : String
  pub received_at : String
  pub prefix : Option String
  pub next_hop : Option String
  pub as_path : List ℕ
  pub communities : List String
  pub match_rule : Option Rule
  pub actions : List String

pub record Data : Type 0 where
  pub routes : SeqMap Route
  pub ids : Dict ℕ
  pub sequence : ℕ
  pub counts : Dict ℕ
  pub analytics : Dict (Dict ℕ)
  pub dirty : Option ℕ

abbrev pub categories : List String
categories =
    "communities" ∷ "origin_as" ∷ "next_hops" ∷ "prefix_lengths" ∷ "actions" ∷ "protocols" ∷ "ports"
    ∷ []

abbrev no_counts : List String → Dict (Dict ℕ)
no_counts [] = []
no_counts (name ∷ names) = Dict.insert name [] (no_counts names)

-- The tables of `App::new`.
unfoldable pub empty : Data
empty = record {
  routes = [];
  ids = [];
  sequence = 0;
  counts = [];
  analytics = no_counts categories;
  dirty = none;
}

-- `s.split_once('/')`, the part behind the first slash
unfoldable pub after_slash : String → Option String
after_slash String.[] = none
after_slash (String.◌∷◌ c s) = if code c == 47 then some s else after_slash s

abbrev pub last : List ℕ → Option ℕ
last [] = none
last (n ∷ []) = some n
last (n ∷ m ∷ ns) = last (m ∷ ns)

-- What one field adds to the metrics: nothing, or one pair.
abbrev pub metric_of : {A : Type 0} → String → (A → String) → Option A → List (String × String)
metric_of name f none = []
metric_of name f (some a) = (name, f a) ∷ []

abbrev pub nonempty : Option String → Option String
nonempty none = none
nonempty (some s) = if str_eq s "" then none else some s

abbrev pub array_of : Option Component → List String
array_of (some (Component.texts ss)) = ss
array_of _ = []

abbrev pub lookup_rule : Option Rule → String → Option Component
lookup_rule none key = none
lookup_rule (some m) key = Dict.get key m

abbrev pub field_metrics : Option Rule → String → String → List (String × String)
field_metrics m name key = map (λ v. (name, v)) (array_of (lookup_rule m key))

-- The first branch of `metrics`.
unfoldable pub unicast_metrics : Route → List (String × String)
unfolding after_slash decimal
unicast_metrics r =
    map (λ c. ("communities", c)) r.communities
    ++ (metric_of "origin_as" decimal (last r.as_path)
        ++ (metric_of "next_hops" (λ s. s) (nonempty r.next_hop)
            ++ metric_of "prefix_lengths" (λ len. append "/" len)
                (Option.bind r.prefix after_slash)))

-- The second branch.
unfoldable pub flow_metrics : Route → List (String × String)
flow_metrics r =
    map (λ a. ("actions", a)) r.actions
    ++ (field_metrics r.match_rule "protocols" "ip-proto"
        ++ (field_metrics r.match_rule "ports" "port"
            ++ (field_metrics r.match_rule "ports" "src-port"
                ++ field_metrics r.match_rule "ports" "dst-port")))

unfoldable pub metrics : Route → List (String × String)
unfolding unicast_metrics flow_metrics
metrics r = if str_eq r.family "unicast" then unicast_metrics r else flow_metrics r

-- `*map.entry(key).or_default()`
abbrev pub entry : String → Dict ℕ → ℕ
entry key m = elim (Dict.get key m) [ none ↦ 0 | some n ↦ n ]

-- `*n += 1` or `*n -= 1`
unfoldable pub step : Bool → ℕ → Option ℕ
step true n = some (suc n)
step false zero = none
step false (suc n) = some n

-- The two keys that count a route.
unfoldable pub count_keys : Route → List String
count_keys r = r.family ∷ (if starts_with r.afi "ipv6" then "ipv6" else "ipv4") ∷ []

unfoldable pub count_all : Bool → List String → Dict ℕ → Option (Dict ℕ)
unfolding step
count_all add [] m = some m
count_all add (key ∷ keys) m = do
  n ← step add (entry key m)
  count_all add keys (Dict.insert key n m)

-- A count that reaches 0 is removed.
abbrev put_count : String → ℕ → Dict ℕ → Dict ℕ
put_count value n m = if n == 0 then Dict.remove value m else Dict.insert value n m

unfoldable pub analyse_all : Bool → List (String × String) → Dict (Dict ℕ) → Option (Dict (Dict ℕ))
unfolding step
analyse_all add [] a = some a
analyse_all add ((key, value) ∷ ms) a = do
  counts ← Dict.get key a
  n ← step add (entry value counts)
  analyse_all add ms (Dict.insert key (put_count value n counts) a)

unfoldable pub count : Route → Bool → Data → Option Data
unfolding count_all analyse_all metrics count_keys
count route add d = do
  counts ← count_all add (count_keys route) d.counts
  analytics ← analyse_all add (metrics route) d.analytics
  some (record d { counts = counts; analytics = analytics })

unfoldable pub insert : String → Route → ℕ → Data → Option Data
unfolding count
insert id route now d = do
  d ← count route true d
  let sequence = suc d.sequence
  some (record d {
    sequence = sequence;
    ids = Dict.insert id sequence d.ids;
    routes = SeqMap.insert sequence route d.routes;
    dirty = some now;
  })

-- The row and its entry in `ids` taken out.
abbrev pub taken : ℕ → String → Data → Data
taken seq id d = record d { ids = Dict.remove id d.ids; routes = SeqMap.remove seq d.routes }

unfoldable pub remove_at : ℕ → String → ℕ → Data → Option Data
unfolding count
remove_at seq id now d = do
  route ← SeqMap.get seq d.routes
  d ← count route false (taken seq id d)
  some (record d { dirty = some now })

unfoldable pub remove : String → ℕ → Data → Option (Data × Bool)
unfolding remove_at
remove id now d = elim (Dict.get id d.ids) [
  | none ↦ some (d, false)
  | some seq ↦ Option.map (λ d. (d, true)) (remove_at seq id now d)
]

-- `c.clear()` of every category
abbrev clear_all : Dict (Dict ℕ) → Dict (Dict ℕ)
clear_all [] = []
clear_all ((name, counts) ∷ a) = (name, []) ∷ clear_all a

unfoldable pub clear : ℕ → Data → Data
clear now d = record d {
  routes = [];
  ids = [];
  counts = [];
  analytics = clear_all d.analytics;
  dirty = elim d.routes [ [] ↦ d.dirty | r ∷ rs ↦ some now ];
}
