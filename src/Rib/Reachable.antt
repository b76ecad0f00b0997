-- ===== src/Rib/Reachable.antt =====
-- The data that the program reaches: `App::new`, then UPDATE messages, `clear`, and `flush`, which resets
-- `dirty`, in any order.
use mathlib.Core.Option
use mathlib.Core.Path.{subst}
use bgp_flowspec_receiver.Wire.FlowSpec.{Rule}
use text.Mathlib.Text.{starts_with}
use bgp_flowspec_receiver.Prelude.{
  ℕ, ◌+◌, ◌≡◌, refl, sym, ap, ◌∙◌, List, [], ◌∷◌, ◌++◌, map, none, some, String, str_eq, arith,
  if◌then◌else◌, Bool-cases, inl, inr, length, All, All-append, ◌⊎◌, Option-cases, strip_suffix,
}
use bgp_flowspec_receiver.Prelude.Dict
use bgp_flowspec_receiver.Prelude.Dict.{Dict, get-insert}
use bgp_flowspec_receiver.Wire.Update.{Update, Routes}
use bgp_flowspec_receiver.Rib.{
  Route, Data, empty, clear, clear_all, no_counts, categories, entry, count_keys,
}
use bgp_flowspec_receiver.Rib.Rows.{rows, tally, drop_id}
use bgp_flowspec_receiver.Rib.Invariant.{Inv, is_category, in_counts}
use bgp_flowspec_receiver.Rib.Apply.{
  Kind, Row, Identity, Shared, apply_update, entry_of, entries, objects, family_of, shared_of,
}
use bgp_flowspec_receiver.Rib.Apply.Spec.{apply_update-settles, settle_all}

get-no_counts :
    (c : String) (names : List String)
    → Dict.get c (no_counts names) ≡ (if is_category c names then some [] else none)
unfolding Dict.get
get-no_counts c [] = refl
get-no_counts c (name ∷ names) =
    ground (arith, get-insert name c [] (no_counts names), get-no_counts c names)

pub empty-Inv : Inv empty
unfolding empty Dict.get
empty-Inv = record {
  bounded = tt;
  distinct = tt;
  indexed = λ id. refl;
  counted = λ k. refl;
  analysed = λ c v. ground (arith, get-no_counts c categories);
  tables = λ c k. ([], get-no_counts c categories ∙ ap (λ b. if b then some [] else none) k);
}

get-clear_all :
    (c : String) (a : Dict (Dict ℕ))
    → Dict.get c (clear_all a) ≡ Option.map (λ counts. []) (Dict.get c a)
unfolding Dict.get
get-clear_all c [] = refl
get-clear_all c ((name, counts) ∷ a) = ground (arith, get-clear_all c a)

-- `clear` leaves no row and data that satisfies `Inv`.
clear-Inv : (now : ℕ) (d : Data) → Inv d → Inv (clear now d)
unfolding clear Dict.get
clear-Inv now d v = record {
  bounded = tt;
  distinct = tt;
  indexed = λ id. refl;
  counted = λ k. refl;
  analysed = λ c w. ground (arith, get-clear_all c d.analytics);
  tables = λ c k.
      let (counts, e) = v.tables c k in
      ([], get-clear_all c d.analytics ∙ ap (Option.map (λ counts. [])) e);
}

saved-Inv : (d : Data) → Inv d → Inv (record d { dirty = none })
saved-Inv d v = record {
  bounded = v.bounded;
  distinct = v.distinct;
  indexed = v.indexed;
  counted = v.counted;
  analysed = v.analysed;
  tables = v.tables;
}

-- Every route is of one of the two families.
abbrev pub Known : Route → Type 0
Known r = (r.family ≡ "unicast") ⊎ (r.family ≡ "flowspec")

drop_id-Known : (id : String) (rs : List Route) → All Known rs → All Known (drop_id id rs)
drop_id-Known id [] h = tt
drop_id-Known id (r ∷ rs) h =
    let rest = drop_id-Known id rs h.1 in
    elim (Bool-cases (str_eq r.id id)) [ inl e ↦ rw e rest | inr e ↦ rw e (h.0, rest) ]

settle_all-Known :
    (kind : Kind) (routes rs : List Route)
    → All Known routes
    → All Known rs
    → All Known (settle_all kind routes rs)
settle_all-Known kind [] rs h k = k
settle_all-Known Kind.announce (r ∷ routes) rs h k =
    settle_all-Known Kind.announce routes (drop_id r.id rs ++ r ∷ []) h.1
      (All-append Known (drop_id r.id rs) (r ∷ []) (drop_id-Known r.id rs k) (h.0, tt))
settle_all-Known Kind.withdraw (r ∷ routes) rs h k =
    settle_all-Known Kind.withdraw routes (drop_id r.id rs) h.1 (drop_id-Known r.id rs k)

family_of-cases : (afi : String) → (family_of afi ≡ "unicast") ⊎ (family_of afi ≡ "flowspec")
family_of-cases afi = elim (Option-cases (strip_suffix afi "-unicast")) [
  | inl e ↦ inr (rw (e, family_of) refl)
  | inr (s, e) ↦ inl (rw (e, family_of) refl)
]

counted_once :
    (r : Route)
    → Known r
    → (in_counts "unicast" r + in_counts "flowspec" r ≡ 1)
      × (in_counts "ipv4" r + in_counts "ipv6" r ≡ 1)
unfolding count_keys
counted_once r k = elim (Bool-cases (starts_with r.afi "ipv6")) [
  | inl v6 ↦ elim k [ inl e ↦ rw (e, v6) (refl, refl) | inr e ↦ rw (e, v6) (refl, refl) ]
  | inr v4 ↦ elim k [ inl e ↦ rw (e, v4) (refl, refl) | inr e ↦ rw (e, v4) (refl, refl) ]
]

tallies :
    (rs : List Route)
    → All Known rs
    → (tally (in_counts "unicast") rs + tally (in_counts "flowspec") rs ≡ length rs)
      × (tally (in_counts "ipv4") rs + tally (in_counts "ipv6") rs ≡ length rs)
tallies [] h = (refl, refl)
tallies (r ∷ rs) h =
    let (families, versions) = tallies rs h.1 in
    let (one, two) = counted_once r h.0 in (omega arith, omega arith)

module _ (digest : String → String → String → Identity → String) where
  pub data Reachable : Data → Type 0 where
    started : Reachable empty
    updated :
        (u : Update) (peer time : String) (now : ℕ) (d after : Data)
        (announced withdrawn : List Row)
        → Reachable d
        → apply_update digest u peer time now d ≡ some (after, announced, withdrawn)
        → Reachable after
    cleared : (now : ℕ) (d : Data) → Reachable d → Reachable (clear now d)
    saved : (d : Data) → Reachable d → Reachable (record d { dirty = none })

  entry-Known :
      (shared : Shared) (afi : String) (rules : List Rule)
      → All Known (map (entry_of digest shared afi) rules)
  unfolding entry_of
  entry-Known shared afi [] = tt
  entry-Known shared afi (rule ∷ rules) = (family_of-cases afi, entry-Known shared afi rules)

  entries-Known : (shared : Shared) (m : Dict Routes) → All Known (entries digest shared m)
  unfolding entries
  entries-Known shared [] = tt
  entries-Known shared ((afi, routes) ∷ m) =
      All-append Known (map (entry_of digest shared afi) (objects routes)) (entries digest shared m)
        (entry-Known shared afi (objects routes)) (entries-Known shared m)

  -- What holds of all data that the program reaches.
  Sound : Data → Type 0
  Sound d = Inv d × All Known (rows d.routes)

  apply_update-Sound :
      (u : Update) (peer time : String) (now : ℕ) (d after : Data) (announced withdrawn : List Row)
      → Sound d
      → apply_update digest u peer time now d ≡ some (after, announced, withdrawn)
      → Sound after
  unfolding Sound
  apply_update-Sound u peer time now d after announced withdrawn (v, k) e =
      let (after', done, v', all) = apply_update-settles digest u peer time now d v in
      let same : after' ≡ after =
        ap (λ o. elim o [ none ↦ after' | some out ↦ out.0 ]) (sym done ∙ e) in
      let shared = shared_of peer time u in
      let announcing = entries digest shared u.announce in
      let withdrawing = entries digest shared u.withdraw in
      let known : All Known (rows after'.routes) = rw all (
        settle_all-Known Kind.withdraw withdrawing
          (settle_all Kind.announce announcing (rows d.routes)) (entries-Known shared u.withdraw)
          (settle_all-Known Kind.announce announcing (rows d.routes)
            (entries-Known shared u.announce) k)) in
      subst (λ d. Inv d × All Known (rows d.routes)) same (v', known)

  Reachable-Sound : (d : Data) → Reachable d → Sound d
  unfolding Sound empty clear
  Reachable-Sound _ started = (empty-Inv, tt)
  Reachable-Sound _ (updated u peer time now d after announced withdrawn r e) =
      apply_update-Sound u peer time now d after announced withdrawn (Reachable-Sound d r) e
  Reachable-Sound _ (cleared now d r) = (clear-Inv now d (Reachable-Sound d r).0, tt)
  Reachable-Sound _ (saved d r) = let (v, k) = Reachable-Sound d r in (saved-Inv d v, k)

  -- In all data that is reached from `App::new` by UPDATE messages, `clear` and the resetting of `dirty`,
  -- the tables agree with the rows as `Inv` states: keys and ids of rows are distinct, `ids` maps each id to the key of its
  -- row and nothing else, and `counts` and `analytics` are the sums over the rows.
  pub Reachable-Inv : (d : Data) → Reachable d → Inv d
  unfolding Sound
  Reachable-Inv d r = (Reachable-Sound d r).0

  -- In reached data, `apply_update` of any UPDATE does not panic.
  pub Reachable-apply_update :
      (u : Update) (peer time : String) (now : ℕ) (d : Data)
      → Reachable d
      → (out : Data × List Row × List Row) × (apply_update digest u peer time now d ≡ some out)
  Reachable-apply_update u peer time now d r =
      let (after, done, v, all) =
        apply_update-settles digest u peer time now d (Reachable-Inv d r) in
      ((after, _, _), done)

  -- In reached data, the counts of unicast and FlowSpec routes add up to the number of rows, and so do
  -- those of IPv4 and IPv6 routes.
  pub Reachable-totals :
      (d : Data)
      → Reachable d
      → (entry "unicast" d.counts + entry "flowspec" d.counts ≡ length (rows d.routes))
        × (entry "ipv4" d.counts + entry "ipv6" d.counts ≡ length (rows d.routes))
  unfolding Sound
  Reachable-totals d r =
      let (v, k) = Reachable-Sound d r in
      let (families, versions) = tallies (rows d.routes) k in
      (
        rw (v.counted "unicast", v.counted "flowspec") families,
        rw (v.counted "ipv4", v.counted "ipv6") versions,
      )
