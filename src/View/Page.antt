-- ===== src/View/Page.antt =====
-- `family` and `routes` of app.rs: the rows of one page. `to_lowercase` of Rust follows the tables of
-- Unicode and is the parameter `to_lowercase`; the statistics beside the rows are left out.
pub mod Windows
use Prim.Native.String.{compare}
use Prim.Native.Nat.{Ordering}
use mathlib.Core.Option
use mathlib.Core.List.{reverse}
use bgp_flowspec_receiver.Prelude.{
  ℕ, suc, ◌+◌, ◌-◌, ◌*◌, ◌^◌, min, max, Bool, true, false, ◌||◌, not, String, Option, none, some,
  List, [], ◌∷◌, ◌++◌, str_eq, length, take, drop, if◌then◌else◌,
}
use bgp_flowspec_receiver.Wire.Result.{Result, ok, err, ◌>>=◌}
use bgp_flowspec_receiver.Rib.{Route, Data}
use bgp_flowspec_receiver.Rib.Rows.{rows}

-- An `i64`.
pub data ℤ : Type 0 where
  pos : ℕ → ℤ
  negsuc : ℕ → ℤ

-- The query of a request.
pub record Page : Type 0 where
  pub family : Option String
  pub page : Option ℤ
  pub page_size : Option ℤ
  pub sort : Option String
  pub order : Option String

abbrev pub or_default {ℓ} : {A : Type ℓ} → A → Option A → A
or_default a none = a
or_default a (some b) = b

abbrev pub is_one_of : String → List String → Bool
is_one_of s [] = false
is_one_of s (name ∷ names) = str_eq name s || is_one_of s names

unfoldable pub family : Page → Result String String
family q =
    let f = or_default "total" q.family in
    if is_one_of f ("total" ∷ "unicast" ∷ "flowspec" ∷ []) then ok f else err "invalid family"

-- `n.max(1)` and `n.clamp(1, 500)`
abbrev pub at_least_one : ℤ → ℕ
at_least_one (pos n) = max n 1
at_least_one (negsuc n) = 1

abbrev pub clamp_size : ℤ → ℕ
clamp_size (pos n) = min (max n 1) 500
clamp_size (negsuc n) = 1

abbrev pub of_family : String → List Route → List Route
of_family f [] = []
of_family f (r ∷ rs) =
    let rest = of_family f rs in if str_eq f "total" || str_eq r.family f then r ∷ rest else rest

-- The column to sort by.
abbrev pub sort_column : Option String → String
sort_column none = "received_at"
sort_column (some s) =
    if is_one_of s ("id" ∷ "family" ∷ "afi" ∷ "prefix" ∷ "next_hop" ∷ "peer" ∷ "received_at" ∷ [])
    then s
    else "received_at"

abbrev pub column : String → Route → String
column sort r =
    if str_eq sort "id"
    then r.id
    else if str_eq sort "family"
    then r.family
    else if str_eq sort "afi"
    then r.afi
    else if str_eq sort "prefix"
    then or_default "" r.prefix
    else if str_eq sort "next_hop"
    then or_default "" r.next_hop
    else if str_eq sort "peer"
    then r.peer
    else ""

-- A stable sort: a row goes in front of the first that is not before it.
unfoldable pub insert_row : (Route → String) → Route → List Route → List Route
insert_row key r [] = r ∷ []
insert_row key r (q ∷ rs) = elim (compare (key q) (key r)) [
  | Ordering.lt ↦ q ∷ insert_row key r rs
  | Ordering.eq ↦ r ∷ q ∷ rs
  | Ordering.gt ↦ r ∷ q ∷ rs
]

unfoldable pub sort_rows : (Route → String) → List Route → List Route
unfolding insert_row
sort_rows key [] = []
sort_rows key (r ∷ rs) = insert_row key r (sort_rows key rs)

abbrev pub is_ascending : Option String → Bool
is_ascending none = false
is_ascending (some s) = str_eq s "asc"

abbrev pub usize_max : ℕ
usize_max = 2 ^ 64 - 1

-- `rows.skip(page.saturating_sub(1).saturating_mul(size)).take(size)`
unfoldable pub window : ℕ → ℕ → List Route → List Route
window page size rows = take size (drop (min ((page - 1) * size) usize_max) rows)

-- The rows of a family in the order of a request.
module _ (to_lowercase : String → String) where
  unfoldable pub listing : Page → String → List Route → List Route
  unfolding sort_rows
  listing q f all =
      let chosen = of_family f all in
      let sort = sort_column q.sort in
      let sorted =
        if str_eq sort "received_at"
        then chosen
        else sort_rows (λ r. to_lowercase (column sort r)) chosen in
      if is_ascending q.order then sorted else reverse sorted

  pub record Answer : Type 0 where
    pub page : ℕ
    pub page_size : ℕ
    pub count : ℕ
    pub routes : List Route

  unfoldable pub routes : Page → Data → Result String Answer
  unfolding family listing window
  routes q d = do
    f ← family q
    let page = at_least_one (or_default (pos 1) q.page)
    let size = clamp_size (or_default (pos 50) q.page_size)
    let all = listing q f (rows d.routes)
    ok (record { page = page; page_size = size; count = length all; routes = window page size all })
