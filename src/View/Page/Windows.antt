-- ===== src/View/Page/Windows.antt =====
-- `window` and `listing` over all pages of a request.
use mathlib.Core.List.{reverse, reverse-cons}
use bgp_flowspec_receiver.Prelude.{
  ℕ, zero, suc, ◌+◌, ◌-◌, ◌*◌, ◌≤◌, ◌≡◌, refl, ap, sym, ◌∙◌, min, String, List, [], ◌∷◌, ◌++◌,
  length, take, drop, drop-beyond, drop-drop, arith, if◌then◌else◌, str_eq, leb, Bool-cases, inl,
  inr,
}
use bgp_flowspec_receiver.Rib.{Route}
use bgp_flowspec_receiver.Rib.Rows.{tally, tally-append}
use bgp_flowspec_receiver.View.Page.{
  Page, usize_max, window, insert_row, sort_rows, listing, of_family, column, sort_column,
  is_ascending,
}

-- The pages from number `page` on, `n` of them, one behind the other.
abbrev pub pages_from : ℕ → ℕ → ℕ → List Route → List Route
pages_from page zero size rows = []
pages_from page (suc n) size rows = window page size rows ++ pages_from (suc page) n size rows

take_nil : (k : ℕ) → take {A = Route} k [] ≡ []
take_nil zero = refl
take_nil (suc k) = refl

suc_mul : (p size : ℕ) → suc p * size ≡ p * size + size
suc_mul p size = omega arith

suc_mul_front : (p size : ℕ) → suc p * size ≡ size + p * size
suc_mul_front p size = omega arith

take-append-take : (a b : ℕ) (rs : List Route) → take a rs ++ take b (drop a rs) ≡ take (a + b) rs
take-append-take zero b rs = ap (λ k. take k rs) (omega arith)
take-append-take (suc a) b [] = take_nil b ∙ sym (take_nil (suc a + b))
take-append-take (suc a) b (r ∷ rs) =
    let shift : suc (a + b) ≡ suc a + b = omega arith in
    ap (λ qs. r ∷ qs) (take-append-take a b rs) ∙ ap (λ k. take k (r ∷ rs)) shift

take-all : (k : ℕ) (rs : List Route) → length rs ≤ k → take k rs ≡ rs
take-all zero [] h = refl
take-all zero (r ∷ rs) h = absurd (omega arith)
take-all (suc k) [] h = refl
take-all (suc k) (r ∷ rs) h = ap (λ qs. r ∷ qs) (take-all k rs (omega arith))

-- The product saturates only where nothing is left.
drop-saturated : (k top : ℕ) (rs : List Route) → length rs ≤ top → drop (min k top) rs ≡ drop k rs
drop-saturated k top rs h = elim (Bool-cases (leb k top)) [
  | inl below ↦ ap (λ k. drop k rs) (ground (arith, below))
  | inr above ↦
      let least : min k top ≡ top = ground (arith, above) in
      ap (λ k. drop k rs) least
      ∙ drop-beyond top rs h
      ∙ sym (drop-beyond k rs (ground (arith, above)))
]

pages-take :
    (p n size : ℕ) (rs : List Route)
    → length rs ≤ usize_max
    → pages_from (suc p) n size rs ≡ take (n * size) (drop (p * size) rs)
unfolding window
pages-take p zero size rs h =
    let none_left : 0 ≡ 0 * size = omega arith in ap (λ k. take k (drop (p * size) rs)) none_left
pages-take p (suc n) size rs h =
    let start : (suc p - 1) * size ≡ p * size = ap (λ k. k * size) (omega arith) in
    let first : window (suc p) size rs ≡ take size (drop (p * size) rs) =
      ap (take size)
        (drop-saturated ((suc p - 1) * size) usize_max rs h ∙ ap (λ k. drop k rs) start) in
    let next : drop (suc p * size) rs ≡ drop size (drop (p * size) rs) =
      ap (λ k. drop k rs) (suc_mul p size) ∙ sym (drop-drop (p * size) size rs) in
    let rest : pages_from (suc (suc p)) n size rs
        ≡ take (n * size) (drop size (drop (p * size) rs)) =
      pages-take (suc p) n size rs h ∙ ap (take (n * size)) next in
    rw (first, rest)
      (take-append-take size (n * size) (drop (p * size) rs)
        ∙ ap (λ k. take k (drop (p * size) rs)) (sym (suc_mul_front n size)))

-- The pages from the first on, as many as are needed, hold the rows of the listing once each and in its
-- order, for every page size: no row is shown twice and none is lost between two pages.
pub pages-listing :
    (n size : ℕ) (rs : List Route)
    → length rs ≤ usize_max
    → length rs ≤ n * size
    → pages_from 1 n size rs ≡ rs
pages-listing n size rs h enough =
    let from_start : 0 * size ≡ 0 = omega arith in
    pages-take 0 n size rs h
    ∙ ap (λ k. take (n * size) (drop k rs)) from_start
    ∙ take-all (n * size) rs enough

module _ (f : Route → ℕ) where
  insert_row-tally :
      (key : Route → String) (r : Route) (rs : List Route)
      → tally f (insert_row key r rs) ≡ f r + tally f rs
  unfolding insert_row
  insert_row-tally key r [] = refl
  insert_row-tally key r (q ∷ rs) = ground (arith, insert_row-tally key r rs)

  sort_rows-tally :
      (key : Route → String) (rs : List Route) → tally f (sort_rows key rs) ≡ tally f rs
  unfolding sort_rows
  sort_rows-tally key [] = refl
  sort_rows-tally key (r ∷ rs) =
      omega (arith, insert_row-tally key r (sort_rows key rs), sort_rows-tally key rs)

  reverse-tally : (rs : List Route) → tally f (reverse rs) ≡ tally f rs
  reverse-tally [] = refl
  reverse-tally (r ∷ rs) =
      ap (tally f) (reverse-cons r rs)
      ∙ omega (arith, tally-append f (reverse rs) (r ∷ []), reverse-tally rs)

-- Whatever is counted over the rows, a listing has as much of it as the rows of its family: it holds
-- each of them exactly as often, whatever the request sorts by, and in either order.
pub tally-listing :
    (to_lowercase : String → String) (f : Route → ℕ) (q : Page) (family : String) (rs : List Route)
    → tally f (listing to_lowercase q family rs) ≡ tally f (of_family family rs)
unfolding listing
tally-listing to_lowercase f q family rs =
    let chosen = of_family family rs in
    let key : Route → String = λ r. to_lowercase (column (sort_column q.sort) r) in
    let sorted =
      if str_eq (sort_column q.sort) "received_at" then chosen else sort_rows key chosen in
    let same : tally f sorted ≡ tally f chosen =
      elim (Bool-cases (str_eq (sort_column q.sort) "received_at")) [
        | inl by_time ↦ rw by_time refl
        | inr by_column ↦ rw by_column (sort_rows-tally f key chosen)
      ] in
    elim (Bool-cases (is_ascending q.order)) [
      | inl up ↦ rw up same
      | inr down ↦ rw down (reverse-tally f sorted ∙ same)
    ]
