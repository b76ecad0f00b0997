-- ===== src/Rib/Tests.antt =====
-- The theorems about the routing table at a concrete UPDATE: one route announced, withdrawn in the same
-- message, and announced beside another.
use bgp_flowspec_receiver.Prelude.{
  refl, ◌++◌, ◌≡◌, List, [], ◌∷◌, none, some, String, if◌then◌else◌, format,
}
use bgp_flowspec_receiver.Wire.Prefix.{UnicastRoute}
use bgp_flowspec_receiver.Wire.FlowSpec.{Component}
use bgp_flowspec_receiver.Wire.Update.{Update, Routes}
use bgp_flowspec_receiver.Rib.{Data, Route, empty}
use bgp_flowspec_receiver.Rib.Rows.{rows, has_id}
use bgp_flowspec_receiver.Rib.Invariant.{Inv}
use bgp_flowspec_receiver.Rib.Apply.{
  merge_paths, Kind, Row, Shared, Identity, of_prefix, of_rule, apply_update, entries, shared_of,
}
use bgp_flowspec_receiver.Rib.Apply.Spec.{
  settle_all, report_of, apply_update-settles, row_of, latest, apply_update-row_of,
}
use bgp_flowspec_receiver.Rib.Apply.Paths.{merge_paths-front}
use bgp_flowspec_receiver.Rib.Reachable.{Reachable, started, updated, empty-Inv, Reachable-Inv}

-- Ids that tell apart what the tests announce.
abbrev digest : String → String → String → Identity → String
digest family afi peer (of_prefix (some (Component.text prefix))) = format (afi ∷ " " ∷ prefix ∷ [])
digest family afi peer (of_prefix _) = afi
digest family afi peer (of_rule rule) = format (afi ∷ " rule" ∷ [])

abbrev route : String → UnicastRoute
route prefix = record { prefix = prefix; next_hop = some "192.0.2.1" }

abbrev both : Update
both = record {
  announce =
      ("ipv4-unicast", Routes.unicast_routes (route "10.0.0.0/8" ∷ route "10.16.0.0/12" ∷ [])) ∷ [];
  withdraw =
      (
        "ipv4-unicast",
        Routes.unicast_routes (record { prefix = "10.0.0.0/8"; next_hop = none } ∷ []),
      )
      ∷ [];
  actions = [];
  path_attributes = [];
}

abbrev shared : Shared
shared = shared_of "192.0.2.1" "12:00" both

abbrev announcing : List Route
announcing = entries digest shared both.announce

abbrev withdrawing : List Route
withdrawing = entries digest shared both.withdraw

apply_update-settles_example :
    (after : Data) × (apply_update digest both "192.0.2.1" "12:00" 7 empty
      ≡ some (
        after,
        report_of Kind.announce announcing (rows empty.routes),
        report_of Kind.withdraw withdrawing
            (settle_all Kind.announce announcing (rows empty.routes)),
      ))
    × Inv after
    × (rows after.routes
        ≡ settle_all Kind.withdraw withdrawing
            (settle_all Kind.announce announcing (rows empty.routes)))
apply_update-settles_example =
    apply_update-settles digest both "192.0.2.1" "12:00" 7 empty empty-Inv

apply_update-row_of_example :
    (out : Data × List Row × List Row) × (apply_update digest both "192.0.2.1" "12:00" 7 empty
      ≡ some out)
    × (row_of "ipv4-unicast 10.0.0.0/8" (rows out.0.routes) ≡ (
        if has_id "ipv4-unicast 10.0.0.0/8" withdrawing
        then none
        else elim (latest "ipv4-unicast 10.0.0.0/8" announcing) [
          | none ↦ row_of "ipv4-unicast 10.0.0.0/8" (rows empty.routes)
          | some r ↦ some r
        ]))
apply_update-row_of_example =
    apply_update-row_of digest both "192.0.2.1" "12:00" 7 empty "ipv4-unicast 10.0.0.0/8" empty-Inv

abbrev after_both : Data
after_both = (apply_update-settles digest both "192.0.2.1" "12:00" 7 empty empty-Inv).0

after_both-Reachable : Reachable digest after_both
after_both-Reachable =
    updated both "192.0.2.1" "12:00" 7 empty after_both
      (report_of Kind.announce announcing (rows empty.routes))
      (report_of Kind.withdraw withdrawing
        (settle_all Kind.announce announcing (rows empty.routes)))
      started (apply_update-settles digest both "192.0.2.1" "12:00" 7 empty empty-Inv).1

Reachable-Inv_example : Inv after_both
Reachable-Inv_example = Reachable-Inv digest after_both after_both-Reachable

merge_paths-front_example :
    merge_paths ((64512 ∷ []) ++ (23456 ∷ 3 ∷ [])) (65536 ∷ 3 ∷ [])
    ≡ (64512 ∷ []) ++ (65536 ∷ 3 ∷ [])
merge_paths-front_example = merge_paths-front (64512 ∷ []) (23456 ∷ 3 ∷ []) (65536 ∷ 3 ∷ []) refl
