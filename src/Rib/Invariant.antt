-- ===== src/Rib/Invariant.antt =====
-- The invariant of `Data` between its tables, and `insert` on data that satisfies it.
use Prim.Native.String.{◌++◌ as append}
use mathlib.Core.Option
use bgp_flowspec_receiver.Wire.FlowSpec.{Rule}
use text.Mathlib.TextEquality.{eq_iff}
use bgp_flowspec_receiver.Prelude.{
  ℕ, suc, ◌≡◌, refl, sym, ◌∙◌, Bool, true, false, List, [], ◌∷◌, ◌++◌, map, Option, none, some,
  String, str_eq, arith, Bool-cases, inl, inr, ◌||◌, decimal,
}
use bgp_flowspec_receiver.Prelude.Dict
use bgp_flowspec_receiver.Prelude.Dict.{Dict, get-insert, get-remove}
use bgp_flowspec_receiver.Rib.{
  Route, Data, categories, last, nonempty, array_of, lookup_rule, field_metrics, after_slash,
  unicast_metrics, flow_metrics, metrics, metric_of, entry, count_keys, count_all, analyse_all,
  count, insert,
}
use bgp_flowspec_receiver.Rib.Tally.{
  occurrences, pair_occurrences, metric, Has, AllHave, count_all-add, analyse_all-add,
}
use bgp_flowspec_receiver.Rib.Rows.{
  rows, tally, seq_of, Distinct, Bounded, Bounded-mono, insert-above, rows-snoc, seq_of-snoc,
  Bounded-snoc, Distinct-snoc, tally-append,
}

abbrev pub is_category : String → List String → Bool
is_category c [] = false
is_category c (name ∷ names) = str_eq name c || is_category c names

-- How often a route counts under a key of `counts`, and under a value of a category.
abbrev pub in_counts : String → Route → ℕ
in_counts k r = occurrences k (count_keys r)

abbrev pub in_metrics : String → String → Route → ℕ
in_metrics c v r = pair_occurrences c v (metrics r)

-- The rows are the truth: `ids` has each row's key, the keys and ids are distinct and the keys are at
-- most `sequence`; every count and every metric is the number of rows that it counts, each as often
-- as it has the value; and every category has its table.
pub record Inv (d : Data) : Type 0 where
  pub bounded : Bounded d.sequence d.routes
  pub distinct : Distinct d.routes
  pub indexed : (id : String) → Dict.get id d.ids ≡ seq_of id d.routes
  pub counted : (k : String) → entry k d.counts ≡ tally (in_counts k) (rows d.routes)
  pub analysed : (c v : String) → metric c v d.analytics ≡ tally (in_metrics c v) (rows d.routes)
  pub tables : (c : String) → is_category c categories ≡ true → Has d.analytics c

AllHave-append :
    (a : Dict (Dict ℕ)) (xs ys : List (String × String))
    → AllHave a xs
    → AllHave a ys
    → AllHave a (xs ++ ys)
AllHave-append a [] ys hx hy = hy
AllHave-append a ((k, v) ∷ xs) ys hx hy = (hx.0, AllHave-append a xs ys hx.1 hy)

AllHave-map :
    (a : Dict (Dict ℕ)) (c : String) (vs : List String) → Has a c → AllHave a (map (λ v. (c, v)) vs)
AllHave-map a c [] h = tt
AllHave-map a c (v ∷ vs) h = (h, AllHave-map a c vs h)

AllHave-metric_of :
    {A : Type 0} (a : Dict (Dict ℕ)) (c : String) (f : A → String) (o : Option A)
    → Has a c
    → AllHave a (metric_of c f o)
AllHave-metric_of a c f none h = tt
AllHave-metric_of a c f (some x) h = (h, tt)

field_metrics-AllHave :
    (a : Dict (Dict ℕ)) (m : Option Rule) (c key : String)
    → Has a c
    → AllHave a (field_metrics m c key)
field_metrics-AllHave a m c key h = AllHave-map a c (array_of (lookup_rule m key)) h

unicast-AllHave :
    (a : Dict (Dict ℕ)) (r : Route)
    → ((c : String) → is_category c categories ≡ true → Has a c)
    → AllHave a (unicast_metrics r)
unfolding unicast_metrics
unicast-AllHave a r h =
    let hops = metric_of "next_hops" (λ s. s) (nonempty r.next_hop) in
    let lens =
      metric_of "prefix_lengths" (λ len. append "/" len) (Option.bind r.prefix after_slash) in
    let origins = metric_of "origin_as" decimal (last r.as_path) in
    AllHave-append a (map (λ c. ("communities", c)) r.communities) (origins ++ (hops ++ lens))
      (AllHave-map a "communities" r.communities (h "communities" refl))
      (AllHave-append a origins (hops ++ lens)
        (AllHave-metric_of a "origin_as" decimal (last r.as_path) (h "origin_as" refl))
        (AllHave-append a hops lens
          (AllHave-metric_of a "next_hops" (λ s. s) (nonempty r.next_hop) (h "next_hops" refl))
          (AllHave-metric_of a "prefix_lengths" (λ len. append "/" len)
            (Option.bind r.prefix after_slash) (h "prefix_lengths" refl))))

flow-AllHave :
    (a : Dict (Dict ℕ)) (r : Route)
    → ((c : String) → is_category c categories ≡ true → Has a c)
    → AllHave a (flow_metrics r)
unfolding flow_metrics
flow-AllHave a r h =
    let m = r.match_rule in
    let protocols = field_metrics m "protocols" "ip-proto" in
    let port = field_metrics m "ports" "port" in
    let src = field_metrics m "ports" "src-port" in
    let dst = field_metrics m "ports" "dst-port" in
    AllHave-append a (map (λ v. ("actions", v)) r.actions) (protocols ++ (port ++ (src ++ dst)))
      (AllHave-map a "actions" r.actions (h "actions" refl))
      (AllHave-append a protocols (port ++ (src ++ dst))
        (field_metrics-AllHave a m "protocols" "ip-proto" (h "protocols" refl))
        (AllHave-append a port (src ++ dst)
          (field_metrics-AllHave a m "ports" "port" (h "ports" refl))
          (AllHave-append a src dst (field_metrics-AllHave a m "ports" "src-port" (h "ports" refl))
            (field_metrics-AllHave a m "ports" "dst-port" (h "ports" refl)))))

pub metrics-AllHave :
    (a : Dict (Dict ℕ)) (r : Route)
    → ((c : String) → is_category c categories ≡ true → Has a c)
    → AllHave a (metrics r)
unfolding metrics
metrics-AllHave a r h = elim (Bool-cases (str_eq r.family "unicast")) [
  | inl unicast ↦ rw unicast (unicast-AllHave a r h)
  | inr flow ↦ rw flow (flow-AllHave a r h)
]

-- `count` when its two loops succeed.
pub count-eq :
    (r : Route) (add : Bool) (d : Data) (counts : Dict ℕ) (analytics : Dict (Dict ℕ))
    → count_all add (count_keys r) d.counts ≡ some counts
    → analyse_all add (metrics r) d.analytics ≡ some analytics
    → count r add d ≡ some (record d { counts = counts; analytics = analytics })
unfolding count
count-eq r add d counts analytics ec ea = rw (ec, ea) refl

-- What an operation that does not panic leaves.
abbrev pub Leaves : Option Data → List Route → Type 0
Leaves o rs = (d : Data) × (o ≡ some d) × Inv d × (rows d.routes ≡ rs)

-- `insert` of a route whose id has no row puts it behind the others.
pub insert-Leaves :
    (r : Route) (now : ℕ) (d : Data)
    → Inv d
    → Dict.get r.id d.ids ≡ none
    → Leaves (insert r.id r now d) (rows d.routes ++ r ∷ [])
unfolding insert
insert-Leaves r now d v fresh =
    let (counts, ec, hc) = count_all-add (count_keys r) d.counts in
    let (analytics, ea, ha, has) =
      analyse_all-add (metrics r) d.analytics (metrics-AllHave d.analytics r v.tables) in
    let seq = suc d.sequence in
    let routes = d.routes ++ (seq, r) ∷ [] in
    let put = insert-above d.sequence seq r d.routes v.bounded (omega arith) in
    let all = rows-snoc seq r d.routes in
    let after : Data = record d {
      sequence = seq;
      ids = Dict.insert r.id seq d.ids;
      routes = routes;
      dirty = some now;
      counts = counts;
      analytics = analytics;
    } in
    let done : insert r.id r now d ≡ some after =
      rw (count-eq r true d counts analytics ec ea, put) refl in
    let absent : seq_of r.id d.routes ≡ none = sym (v.indexed r.id) ∙ fresh in
    (
      after,
      done,
      record {
        bounded = Bounded-snoc seq r d.routes (Bounded-mono d.sequence d.routes v.bounded);
        distinct = Distinct-snoc d.sequence r d.routes v.bounded absent v.distinct;
        indexed = λ id. ground (
          arith,
          get-insert r.id id seq d.ids,
          seq_of-snoc seq r id d.routes,
          v.indexed id,
          absent,
          eq_iff r.id id,
        );
        counted = λ k.
            rw all (
              omega
                (arith, hc k, v.counted k, tally-append (in_counts k) (rows d.routes) (r ∷ [])));
        analysed = λ c w. rw all (
            omega (
              arith,
              ha c w,
              v.analysed c w,
              tally-append (in_metrics c w) (rows d.routes) (r ∷ []),
            ));
        tables = λ c k. has c (v.tables c k);
      },
      all,
    )
