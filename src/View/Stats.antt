-- ===== src/View/Stats.antt =====
-- `Data::stats` of app.rs: the totals, and the five most frequent values of each category.
pub mod Top
use Prim.Native.String.{compare}
use Prim.Native.Nat.{Ordering}
use bgp_flowspec_receiver.Prelude.{
  ℕ, Bool, true, false, ◌||◌, ◌&&◌, String, List, [], ◌∷◌, ltb, ◌==◌, length, take, if◌then◌else◌,
}
use bgp_flowspec_receiver.Prelude.Dict.{Dict}
use bgp_flowspec_receiver.Rib.{Data, entry}
use bgp_flowspec_receiver.Rib.Rows.{rows}

abbrev is_less : Ordering → Bool
is_less Ordering.lt = true
is_less Ordering.eq = false
is_less Ordering.gt = false

-- `b.1.cmp(a.1).then(a.0.cmp(b.0))` is `Less`.
abbrev pub ranks_before : String × ℕ → String × ℕ → Bool
ranks_before a b = ltb b.1 a.1 || b.1 == a.1 && is_less (compare a.0 b.0)

unfoldable pub insert_ranked : String × ℕ → Dict ℕ → Dict ℕ
insert_ranked e [] = e ∷ []
insert_ranked e (f ∷ m) =
    let rest = insert_ranked e m in if ranks_before f e then f ∷ rest else e ∷ f ∷ m

unfoldable pub rank : Dict ℕ → Dict ℕ
unfolding insert_ranked
rank [] = []
rank (e ∷ m) = insert_ranked e (rank m)

-- `rows.sort_by(..); rows.truncate(5)`
unfoldable pub top : Dict ℕ → Dict ℕ
unfolding rank
top counts = take 5 (rank counts)

unfoldable pub tops : Dict (Dict ℕ) → Dict (Dict ℕ)
unfolding top
tops [] = []
tops ((name, counts) ∷ a) = (name, top counts) ∷ tops a

pub record Stats : Type 0 where
  pub total : ℕ
  pub unicast : ℕ
  pub flowspec : ℕ
  pub ipv4 : ℕ
  pub ipv6 : ℕ
  pub analytics : Dict (Dict ℕ)

unfoldable pub stats : Data → Stats
unfolding tops
stats d = record {
  total = length d.routes;
  unicast = entry "unicast" d.counts;
  flowspec = entry "flowspec" d.counts;
  ipv4 = entry "ipv4" d.counts;
  ipv6 = entry "ipv6" d.counts;
  analytics = tops d.analytics;
}
