-- ===== src/View/Search/Longest.antt =====
-- `search` beside the candidates of all rows.
use mathlib.Core.Path.{subst}
use bgp_flowspec_receiver.Prelude.{
  ℕ, ◌≤◌, ◌≡◌, ◌⊎◌, inl, inr, refl, ◌∙◌, sym, String, Option, none, some, List, [], ◌∷◌, leb, arith,
  Bool-cases, All,
}
use bgp_flowspec_receiver.Rib.{Route, Data}
use bgp_flowspec_receiver.Rib.Rows.{rows}
use bgp_flowspec_receiver.View.Search.{IpAddr, candidate, better, best_of, search}

-- The length of a candidate is at most that of the best one.
abbrev pub AtMost : Option (ℕ × Route) → Option (ℕ × Route) → Type 0
AtMost none best = Unit
AtMost (some c) none = ⊥
AtMost (some c) (some b) = c.0 ≤ b.0

AtMost-trans : (a b c : Option (ℕ × Route)) → AtMost a b → AtMost b c → AtMost a c
AtMost-trans none b c h k = tt
AtMost-trans (some a) none c h k = elim h [ ]
AtMost-trans (some a) (some b) none h k = elim k [ ]
AtMost-trans (some a) (some b) (some c) h k = omega arith

AtMost-better :
    (best c : Option (ℕ × Route)) → AtMost best (better best c) × AtMost c (better best c)
AtMost-better none none = (tt, tt)
AtMost-better none (some c) = (tt, omega arith)
AtMost-better (some b) none = (omega arith, tt)
AtMost-better (some b) (some c) = elim (Bool-cases (leb b.0 c.0)) [
  | inl e ↦ rw e (ground (arith, e), omega arith)
  | inr e ↦ rw e (omega arith, ground (arith, e))
]

module _ (parse_ip : String → Option IpAddr) (parse_u8 : String → Option ℕ) (ip : IpAddr) where
  -- A row of the list is the candidate.
  abbrev pub Among : List Route → ℕ × Route → Type 0
  Among [] b = ⊥
  Among (r ∷ rs) b = (candidate parse_ip parse_u8 ip r ≡ some b) ⊎ Among rs b

  -- The result is the candidate of a row, or there is none.
  abbrev pub Comes : List Route → Option (ℕ × Route) → Type 0
  Comes rs none = Unit
  Comes rs (some b) = Among rs b

  best_of-AtMost :
      (rs : List Route) (best : Option (ℕ × Route))
      → AtMost best (best_of parse_ip parse_u8 ip rs best)
        × All
            (λ r. AtMost (candidate parse_ip parse_u8 ip r) (best_of parse_ip parse_u8 ip rs best))
            rs
  unfolding best_of
  best_of-AtMost [] none = (tt, tt)
  best_of-AtMost [] (some b) = (omega arith, tt)
  best_of-AtMost (r ∷ rs) best =
      let c = candidate parse_ip parse_u8 ip r in
      let (kept, rest) = best_of-AtMost rs (better best c) in
      let (below_best, below_c) = AtMost-better best c in
      let result = best_of parse_ip parse_u8 ip rs (better best c) in
      (
        AtMost-trans best (better best c) result below_best kept,
        (AtMost-trans c (better best c) result below_c kept, rest),
      )

  -- Where the result of the loop comes from.
  Source : List Route → Option (ℕ × Route) → Option (ℕ × Route) → Type 0
  Source rs best result = (result ≡ best) ⊎ Comes rs result

  later :
      (r : Route) (rs : List Route) (result : Option (ℕ × Route))
      → Comes rs result
      → Comes (r ∷ rs) result
  later r rs none h = tt
  later r rs (some b) h = inr h

  better-cases : (best c : Option (ℕ × Route)) → (better best c ≡ best) ⊎ (better best c ≡ c)
  better-cases best none = inl refl
  better-cases none (some c) = inr refl
  better-cases (some b) (some c) = elim (Bool-cases (leb b.0 c.0)) [
    | inl e ↦ rw e (inr refl)
    | inr e ↦ rw e (inl refl)
  ]

  own :
      (r : Route) (rs : List Route) (result : Option (ℕ × Route))
      → result ≡ candidate parse_ip parse_u8 ip r
      → Comes (r ∷ rs) result
  own r rs none e = tt
  own r rs (some b) e = inl (sym e)

  best_of-Source :
      (rs : List Route) (best : Option (ℕ × Route))
      → Source rs best (best_of parse_ip parse_u8 ip rs best)
  unfolding best_of Source
  best_of-Source [] best = inl refl
  best_of-Source (r ∷ rs) best =
      let c = candidate parse_ip parse_u8 ip r in
      let result = best_of parse_ip parse_u8 ip rs (better best c) in
      elim (best_of-Source rs (better best c)) [
        | inr found ↦ inr (later r rs result found)
        | inl same ↦ elim (better-cases best c) [
          | inl kept ↦ inl (same ∙ kept)
          | inr taken ↦ inr (own r rs result (same ∙ taken))
        ]
      ]

  -- `search` finds a longest match: no row of the table has a prefix that contains the address and is
  -- longer, what it finds is a row with the length of its prefix, and it finds none only when no
  -- unicast row has a prefix that contains the address.
  pub search-longest :
      (d : Data)
      → All
          (λ r. AtMost (candidate parse_ip parse_u8 ip r) (search parse_ip parse_u8 ip d))
          (rows d.routes)
        × Comes (rows d.routes) (search parse_ip parse_u8 ip d)
  unfolding search Source
  search-longest d =
      let all = rows d.routes in
      (
        (best_of-AtMost all none).1,
        elim (best_of-Source all none) [
          | inr found ↦ found
          | inl same ↦ subst (Comes all) (sym same) tt
        ],
      )
