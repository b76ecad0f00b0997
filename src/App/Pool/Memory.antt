-- ===== src/App/Pool/Memory.antt =====
-- The pool beside the handles that its users hold: the strong count of an allocation is the number of its
-- handles, in the pool and outside. `reclaim_memory` of app.rs.
pub mod Tidy
pub mod Reclaimed
use bgp_flowspec_receiver.Prelude.{ℕ, suc, ◌+◌, String, List, [], ◌∷◌, ◌==◌, if◌then◌else◌}
use bgp_flowspec_receiver.App.Pool.{Arc, ArcSet, Pool, Counts, collect}

-- How many of the handles are of the allocation at `n`.
abbrev pub handles {ℓ} : {A : Type ℓ} → ℕ → List (Arc A) → ℕ
handles n [] = 0
handles n (a ∷ held) = let rest = handles n held in if a.address == n then suc rest else rest

-- `Arc::strong_count`
abbrev pub strong_count {ℓ} : {A : Type ℓ} → List (Arc A) → ArcSet A → Arc A → ℕ
strong_count held s a = handles a.address s.entries + handles a.address held

-- The handles in the routes, and in the clones of routes and their parts.
pub record Held : Type 0 where
  pub as_path : List (Arc (List ℕ))
  pub communities : List (Arc (List String))
  pub strings : List (Arc String)

abbrev pub counts_of : Held → Pool → Counts
counts_of held p = record {
  as_path = strong_count held.as_path p.as_path;
  communities = strong_count held.communities p.communities;
  strings = strong_count held.strings p.strings;
}

-- Shrinking `ids` changes nothing that is seen here.
unfoldable pub reclaim_memory : Held → Pool → Pool
unfolding collect
reclaim_memory held p = collect (counts_of held p) p

-- `self.pool = Pool::default()` of `Data::clear`; the addresses that were used stay used.
unfoldable pub default_pool : Pool → Pool
default_pool p = record {
  as_path = record { entries = []; next = p.as_path.next };
  communities = record { entries = []; next = p.communities.next };
  strings = record { entries = []; next = p.strings.next };
}
