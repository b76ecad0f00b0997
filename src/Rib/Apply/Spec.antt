-- ===== src/Rib/Apply/Spec.antt =====
-- `apply_update` beside a description by lists of routes.
use text.Mathlib.TextEquality.{eq_iff}
use bgp_flowspec_receiver.Prelude.{
  ℕ, ◌≡◌, refl, ap, ◌∙◌, false, List, [], ◌∷◌, ◌++◌, Option, none, some, String, str_eq, arith,
  if◌then◌else◌, ◌||◌,
}
use bgp_flowspec_receiver.Prelude.SeqMap.{SeqMap}
use bgp_flowspec_receiver.Wire.Update.{Update}
use bgp_flowspec_receiver.Rib.{Route, Data}
use bgp_flowspec_receiver.Rib.Rows.{rows, drop_id, has_id, seq_of}
use bgp_flowspec_receiver.Rib.Removal.{remove-Removes}
use bgp_flowspec_receiver.Rib.Invariant.{Inv, Leaves, insert-Leaves}
use bgp_flowspec_receiver.Rib.Apply.{
  Kind, Row, is_announce, insert_announced, apply_route, apply_routes, entries, shared_of,
  apply_update, Identity,
}

-- What one route of an event does to the rows.
abbrev pub settle : Kind → Route → List Route → List Route
settle Kind.announce r rs = drop_id r.id rs ++ r ∷ []
settle Kind.withdraw r rs = drop_id r.id rs

abbrev pub settle_all : Kind → List Route → List Route → List Route
settle_all kind [] rs = rs
settle_all kind (r ∷ routes) rs = settle_all kind routes (settle kind r rs)

-- The row that reports one route: its id is null when nothing was there to withdraw.
abbrev pub row_for : Kind → Route → List Route → Row
row_for kind r rs = record {
  entry = r;
  route_id = if is_announce kind || has_id r.id rs then some r.id else none;
}

abbrev pub report_of : Kind → List Route → List Route → List Row
report_of kind [] rs = []
report_of kind (r ∷ routes) rs = row_for kind r rs ∷ report_of kind routes (settle kind r rs)

has_id-drop_id : (id : String) (rs : List Route) → has_id id (drop_id id rs) ≡ false
has_id-drop_id id [] = refl
has_id-drop_id id (r ∷ rs) = ground (arith, has_id-drop_id id rs)

seq_of-has_id : (id : String) (m : SeqMap Route) → has_id id (rows m) ≡ false → seq_of id m ≡ none
seq_of-has_id id [] e = refl
seq_of-has_id id ((s, r) ∷ m) e = ground (arith, seq_of-has_id id m)

-- The data and the row that one route of an event leaves.
abbrev Settled : Kind → Route → Option (Data × Row) → List Route → Type 0
Settled kind r o rs =
    (d : Data) × (o ≡ some (d, row_for kind r rs)) × Inv d × (rows d.routes ≡ settle kind r rs)

insert_announced-Leaves :
    (kind : Kind) (r : Route) (now : ℕ) (d : Data) (rs : List Route)
    → Inv d
    → rows d.routes ≡ drop_id r.id rs
    → Leaves (insert_announced kind r now d) (settle kind r rs)
insert_announced-Leaves Kind.announce r now d rs v e =
    let gone = seq_of-has_id r.id d.routes (ap (has_id r.id) e ∙ has_id-drop_id r.id rs) in
    let (d', done, v', all) = insert-Leaves r now d v (v.indexed r.id ∙ gone) in
    (d', done, v', all ∙ ap (λ rs. rs ++ r ∷ []) e)
insert_announced-Leaves Kind.withdraw r now d rs v e = (d, refl, v, e)

apply_route-Settled :
    (kind : Kind) (r : Route) (now : ℕ) (d : Data)
    → Inv d
    → Settled kind r (apply_route kind r now d) (rows d.routes)
unfolding apply_route
apply_route-Settled kind r now d v =
    let (gone, removed, v', all) = remove-Removes r.id now d v in
    let (d', put, v'', all') = insert_announced-Leaves kind r now gone (rows d.routes) v' all in
    (d', rw (removed, put) refl, v'', all')

-- The data and the rows of the event that the routes of one kind leave.
abbrev AllSettled : Kind → List Route → Option (Data × List Row) → List Route → Type 0
AllSettled kind routes o rs =
    (d : Data) × (o ≡ some (d, report_of kind routes rs))
    × Inv d
    × (rows d.routes ≡ settle_all kind routes rs)

apply_routes-AllSettled :
    (kind : Kind) (routes : List Route) (now : ℕ) (d : Data)
    → Inv d
    → AllSettled kind routes (apply_routes kind routes now d) (rows d.routes)
unfolding apply_routes
apply_routes-AllSettled kind [] now d v = (d, refl, v, refl)
apply_routes-AllSettled kind (r ∷ routes) now d v =
    let (mid, one, v', all) = apply_route-Settled kind r now d v in
    let (d', rest, v'', all') = apply_routes-AllSettled kind routes now mid v' in
    (
      d',
      rw (one, rest)
          (ap (λ rs. some (d', row_for kind r (rows d.routes) ∷ report_of kind routes rs)) all),
      v'',
      all' ∙ ap (settle_all kind routes) all,
    )

module _ (digest : String → String → String → Identity → String) where
  -- On data that satisfies `Inv`, `apply_update` does not panic and leaves data that satisfies `Inv`.
  -- The rows are those that are left when first, for each announced route in order, the row of its id
  -- is dropped and the route appended, and then, for each withdrawn route, the row of its id is
  -- dropped. The rows of the two events are one for each route, with the route's id, or null for
  -- a withdrawn route that had no row.
  pub apply_update-settles :
      (u : Update) (peer time : String) (now : ℕ) (d : Data)
      → Inv d
      → let announcing = entries digest (shared_of peer time u) u.announce in
        let withdrawing = entries digest (shared_of peer time u) u.withdraw in
        let announced = settle_all Kind.announce announcing (rows d.routes) in
        (after : Data) × (apply_update digest u peer time now d
          ≡ some (
            after,
            report_of Kind.announce announcing (rows d.routes),
            report_of Kind.withdraw withdrawing announced,
          ))
        × Inv after
        × (rows after.routes ≡ settle_all Kind.withdraw withdrawing announced)
  unfolding apply_update
  apply_update-settles u peer time now d v =
      let announcing = entries digest (shared_of peer time u) u.announce in
      let withdrawing = entries digest (shared_of peer time u) u.withdraw in
      let (mid, one, v', all) = apply_routes-AllSettled Kind.announce announcing now d v in
      let (after, two, v'', all') = apply_routes-AllSettled Kind.withdraw withdrawing now mid v' in
      (
        after,
        rw (one, two)
            (ap
              (λ rs. some (
                after,
                report_of Kind.announce announcing (rows d.routes),
                report_of Kind.withdraw withdrawing rs,
              ))
              all),
        v'',
        all' ∙ ap (settle_all Kind.withdraw withdrawing) all,
      )

-- The row of an id.
abbrev pub row_of : String → List Route → Option Route
row_of id [] = none
row_of id (r ∷ rs) = if str_eq r.id id then some r else row_of id rs

-- The last route of an id.
abbrev pub latest : String → List Route → Option Route
latest id [] = none
latest id (r ∷ rs) = elim (latest id rs) [
  | none ↦ if str_eq r.id id then some r else none
  | some q ↦ some q
]

row_of-drop_id :
    (id j : String) (rs : List Route)
    → row_of id (drop_id j rs) ≡ (if str_eq j id then none else row_of id rs)
row_of-drop_id id j [] = ground arith
row_of-drop_id id j (r ∷ rs) =
    ground (arith, row_of-drop_id id j rs, eq_iff j id, eq_iff r.id id, eq_iff r.id j)

row_of-snoc :
    (id : String) (r : Route) (rs : List Route)
    → row_of id (rs ++ r ∷ [])
      ≡ elim (row_of id rs) [ none ↦ if str_eq r.id id then some r else none | some q ↦ some q ]
row_of-snoc id r [] = ground arith
row_of-snoc id r (q ∷ rs) = ground (arith, row_of-snoc id r rs)

row_of-announce :
    (id : String) (routes rs : List Route)
    → row_of id (settle_all Kind.announce routes rs)
      ≡ elim (latest id routes) [ none ↦ row_of id rs | some r ↦ some r ]
row_of-announce id [] rs = refl
row_of-announce id (r ∷ routes) rs = ground (
  arith,
  row_of-announce id routes (settle Kind.announce r rs),
  row_of-snoc id r (drop_id r.id rs),
  row_of-drop_id id r.id rs,
)

row_of-withdraw :
    (id : String) (routes rs : List Route)
    → row_of id (settle_all Kind.withdraw routes rs)
      ≡ (if has_id id routes then none else row_of id rs)
row_of-withdraw id [] rs = refl
row_of-withdraw id (r ∷ routes) rs =
    ground (arith, row_of-withdraw id routes (drop_id r.id rs), row_of-drop_id id r.id rs)

row_of-settle_all :
    (id : String) (announcing withdrawing rs : List Route)
    → row_of id (settle_all Kind.withdraw withdrawing (settle_all Kind.announce announcing rs)) ≡ (
        if has_id id withdrawing
        then none
        else elim (latest id announcing) [ none ↦ row_of id rs | some r ↦ some r ])
row_of-settle_all id announcing withdrawing rs =
    row_of-withdraw id withdrawing (settle_all Kind.announce announcing rs)
    ∙ ap (λ o. if has_id id withdrawing then none else o) (row_of-announce id announcing rs)

module _ (digest : String → String → String → Identity → String) where
  -- On data that satisfies `Inv`, `apply_update` does not panic. After it, no row has an id that the
  -- UPDATE withdraws, even if the UPDATE also announces it; otherwise the row of an id that it
  -- announces is the last announced route of that id; and the row of any other id is the one that
  -- was there.
  pub apply_update-row_of :
      (u : Update) (peer time : String) (now : ℕ) (d : Data) (id : String)
      → Inv d
      → let announcing = entries digest (shared_of peer time u) u.announce in
        let withdrawing = entries digest (shared_of peer time u) u.withdraw in
        (out : Data × List Row × List Row) × (apply_update digest u peer time now d ≡ some out)
        × (row_of id (rows out.0.routes) ≡ (
            if has_id id withdrawing then none else elim (latest id announcing) [
              | none ↦ row_of id (rows d.routes)
              | some r ↦ some r
            ]))
  apply_update-row_of u peer time now d id v =
      let announcing = entries digest (shared_of peer time u) u.announce in
      let withdrawing = entries digest (shared_of peer time u) u.withdraw in
      let (after, done, v', all) = apply_update-settles digest u peer time now d v in
      (
        (after, _, _),
        done,
        ap (row_of id) all ∙ row_of-settle_all id announcing withdrawing (rows d.routes),
      )
