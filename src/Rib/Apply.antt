-- ===== src/Rib/Apply.antt =====
-- `apply_update` of app.rs: an UPDATE becomes removals and insertions of routes, and the rows of the
-- events that report it. serde_json and SHA-1, which make the id of a route, are the parameter
-- `digest`. The clocks `now()` and `Instant::now()` are read once here: `time` and `now`.

pub mod Spec
pub mod Paths
use mathlib.Core.Option
use bgp_flowspec_receiver.Prelude.{
  ℕ, ◌+◌, ◌-◌, ◌%◌, ◌^◌, Bool, true, false, ◌||◌, List, [], ◌∷◌, ◌++◌, map, Option, none, some,
  String, ◌==◌, str_eq, length, take, if◌then◌else◌, strip_suffix,
}
use bgp_flowspec_receiver.Prelude.Dict
use bgp_flowspec_receiver.Prelude.Dict.{Dict}
use bgp_flowspec_receiver.Wire.Prefix.{UnicastRoute}
use bgp_flowspec_receiver.Wire.FlowSpec.{Rule, Component}
use bgp_flowspec_receiver.Wire.Attribute.{Value, Segment}
use bgp_flowspec_receiver.Wire.Update.{Update, Attr, Routes}
use bgp_flowspec_receiver.Rib.{Route, Data, insert, remove, nonempty, ◌>>=◌}

abbrev segment_asns : List Segment → List ℕ
segment_asns [] = []
segment_asns (s ∷ segments) = map (λ n. n % 2 ^ 32) s.asns ++ segment_asns segments

-- `flat`: the numbers of an AS path attribute, of which only an array of segments has some.
abbrev pub flat : Value → List ℕ
flat (Value.path segments) = segment_asns segments
flat _ = []

abbrev value_strings : Value → List String
value_strings (Value.texts ss) = ss
value_strings _ = []

abbrev pub is_array : Value → Bool
is_array (Value.path segments) = true
is_array (Value.texts ss) = true
is_array _ = false

-- The three vectors that the loop over `path_attributes` fills.
pub record Gathered : Type 0 where
  pub path : List ℕ
  pub as4 : List ℕ
  pub communities : List String

unfoldable pub gather_value : String → Value → Gathered → Gathered
gather_value name v g =
    if str_eq name "AS4_PATH"
    then record g { as4 = flat v }
    else if str_eq name "AS_PATH"
    then record g { path = flat v }
    else if str_eq name "COMMUNITIES" || str_eq name "LARGE_COMMUNITIES"
    then record g { communities = g.communities ++ value_strings v }
    else g

unfoldable pub gather : List Attr → Gathered → Gathered
unfolding gather_value
gather [] g = g
gather (attr ∷ attrs) g =
    gather attrs
      (elim attr.value [ none ↦ g | some v ↦ if is_array v then gather_value attr.name v g else g ])

-- AS4_PATH takes the place of the end of AS_PATH.
unfoldable pub merge_paths : List ℕ → List ℕ → List ℕ
merge_paths path [] = path
merge_paths path (asn ∷ as4) = take (length path - length (asn ∷ as4)) path ++ asn ∷ as4

-- What of a route goes into its id.
pub data Identity : Type 0 where
  of_prefix : Option Component → Identity
  of_rule : Rule → Identity

-- A route as the JSON object that `update` gives.
abbrev pub object : UnicastRoute → Rule
object r = elim r.next_hop [
  | none ↦ ("prefix", Component.text r.prefix) ∷ []
  | some hop ↦ ("next_hop", Component.text hop) ∷ ("prefix", Component.text r.prefix) ∷ []
]

abbrev pub objects : Routes → List Rule
objects (Routes.unicast_routes routes) = map object routes
objects (Routes.flowspec_rules rules) = rules

abbrev as_str : Option Component → Option String
as_str (some (Component.text s)) = some s
as_str _ = none

abbrev pub family_of : String → String
family_of afi = elim (strip_suffix afi "-unicast") [ none ↦ "flowspec" | some s ↦ "unicast" ]

-- What the routes of an UPDATE share.
pub record Shared : Type 0 where
  pub peer : String
  pub time : String
  pub path : List ℕ
  pub communities : List String
  pub actions : List String

pub data Kind : Type 0 where
  announce : Kind
  withdraw : Kind

-- A row of an event: the entry, and its `route_id` unless that is null.
pub record Row : Type 0 where
  pub entry : Route
  pub route_id : Option String

abbrev pub insert_announced : Kind → Route → ℕ → Data → Option Data
insert_announced announce route now d = insert route.id route now d
insert_announced withdraw route now d = some d

abbrev pub is_announce : Kind → Bool
is_announce announce = true
is_announce withdraw = false

unfoldable pub apply_route : Kind → Route → ℕ → Data → Option (Data × Row)
unfolding remove insert
apply_route kind route now d = do
  (d, existed) ← remove route.id now d
  d ← insert_announced kind route now d
  some (
    d,
    record {
      entry = route;
      route_id = if is_announce kind || existed then some route.id else none;
    },
  )

unfoldable pub apply_routes : Kind → List Route → ℕ → Data → Option (Data × List Row)
unfolding apply_route
apply_routes kind [] now d = some (d, [])
apply_routes kind (route ∷ routes) now d = do
  (d, row) ← apply_route kind route now d
  (d, rows) ← apply_routes kind routes now d
  some (d, row ∷ rows)

unfoldable pub shared_of : String → String → Update → Shared
unfolding gather merge_paths
shared_of peer time u =
    let g = gather u.path_attributes (record { path = []; as4 = []; communities = [] }) in
    record {
      peer = peer;
      time = time;
      path = merge_paths g.path g.as4;
      communities = g.communities;
      actions = u.actions;
    }

module _ (digest : String → String → String → Identity → String) where
  unfoldable pub entry_of : Shared → String → Rule → Route
  unfolding strip_suffix Dict.get
  entry_of shared afi route =
      let family = family_of afi in
      let is_unicast = str_eq family "unicast" in
      let prefix = Dict.get "prefix" route in
      record {
        id = digest family afi shared.peer (if is_unicast then of_prefix prefix else of_rule route);
        family = family;
        afi = afi;
        peer = shared.peer;
        received_at = shared.time;
        prefix = if is_unicast then as_str prefix else none;
        next_hop = if is_unicast then nonempty (as_str (Dict.get "next_hop" route)) else none;
        as_path = shared.path;
        communities = shared.communities;
        match_rule = if is_unicast then none else some route;
        actions = if is_unicast then [] else shared.actions;
      }

  -- The entries of the routes of one kind, in the order of the loops.
  unfoldable pub entries : Shared → Dict Routes → List Route
  unfolding entry_of
  entries shared [] = []
  entries shared ((afi, routes) ∷ families) =
      map (entry_of shared afi) (objects routes) ++ entries shared families

  -- The rows of the two events come with the new data: first the announced, then the withdrawn.
  unfoldable pub apply_update :
      Update → String → String → ℕ → Data → Option (Data × List Row × List Row)
  unfolding entries shared_of apply_routes
  apply_update u peer time now d = do
    let shared = shared_of peer time u
    (d, announced) ← apply_routes announce (entries shared u.announce) now d
    (d, withdrawn) ← apply_routes withdraw (entries shared u.withdraw) now d
    some (d, announced, withdrawn)
