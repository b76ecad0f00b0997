-- ===== src/App/Pool.antt =====
-- `Pool` of app.rs: sets of shared allocations. An `Arc` is a value with the address of its allocation; the
-- strong counts, which Rust keeps, are a parameter of `collect`. Shrinking a set to fit changes nothing
-- that is seen here.
pub mod Shared
pub mod Memory
use bgp_flowspec_receiver.Prelude.{
  ℕ, suc, Bool, true, false, String, Option, none, some, List, [], ◌∷◌, ltb, str_eq, ◌==◌, list_eq,
  if◌then◌else◌,
}

pub record Arc {ℓ} (A : Type ℓ) : Type ℓ where
  pub address : ℕ
  pub value : A

-- A `HashSet<Arc<A>>`, whose order is not looked at, and the next free address.
pub record ArcSet {ℓ} (A : Type ℓ) : Type ℓ where
  pub entries : List (Arc A)
  pub next : ℕ

module _ {ℓ} {A : Type ℓ} where
  module _ (eq : A → A → Bool) where
    -- `set.get(v)`
    abbrev pub find : A → List (Arc A) → Option (Arc A)
    find v [] = none
    find v (a ∷ entries) = let rest = find v entries in if eq v a.value then some a else rest

    abbrev pub interned : A → ArcSet A → Option (Arc A) → Arc A × ArcSet A
    interned v s (some a) = (a, s)
    interned v s none =
        let a : Arc A = record { address = s.next; value = v } in
        (a, record { entries = a ∷ s.entries; next = suc s.next })

    unfoldable pub intern : A → ArcSet A → Arc A × ArcSet A
    intern v s = interned v s (find v s.entries)

  -- `set.retain(|v| Arc::strong_count(v) > 1)`
  abbrev pub retain : (Arc A → ℕ) → List (Arc A) → List (Arc A)
  retain strong_count [] = []
  retain strong_count (a ∷ entries) =
      let rest = retain strong_count entries in if ltb 1 (strong_count a) then a ∷ rest else rest

  unfoldable pub collect_set : (Arc A → ℕ) → ArcSet A → ArcSet A
  collect_set strong_count s = record s { entries = retain strong_count s.entries }

pub record Pool : Type 0 where
  pub as_path : ArcSet (List ℕ)
  pub communities : ArcSet (List String)
  pub strings : ArcSet String

abbrev pub texts_eq : List String → List String → Bool
texts_eq [] [] = true
texts_eq (s ∷ ss) (t ∷ ts) = if str_eq s t then texts_eq ss ts else false
texts_eq ss ts = false

unfoldable pub intern_as_path : List ℕ → Pool → Arc (List ℕ) × Pool
unfolding intern
intern_as_path v p = let (a, s) = intern list_eq v p.as_path in (a, record p { as_path = s })

unfoldable pub intern_communities : List String → Pool → Arc (List String) × Pool
unfolding intern
intern_communities v p =
    let (a, s) = intern texts_eq v p.communities in (a, record p { communities = s })

unfoldable pub intern_str : String → Pool → Arc String × Pool
unfolding intern
intern_str v p = let (a, s) = intern str_eq v p.strings in (a, record p { strings = s })

-- The strong counts of the three kinds of allocations.
pub record Counts : Type 0 where
  pub as_path : Arc (List ℕ) → ℕ
  pub communities : Arc (List String) → ℕ
  pub strings : Arc String → ℕ

unfoldable pub collect : Counts → Pool → Pool
unfolding collect_set
collect counts p = record {
  as_path = collect_set counts.as_path p.as_path;
  communities = collect_set counts.communities p.communities;
  strings = collect_set counts.strings p.strings;
}
