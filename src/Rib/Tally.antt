-- ===== src/Rib/Tally.antt =====
-- Counting with `count_all` and `analyse_all` against the number of occurrences.
use text.Mathlib.TextEquality.{eq_iff}
use bgp_flowspec_receiver.Prelude.{
  ℕ, suc, zero, ◌+◌, ◌-◌, ◌≤◌, ◌<◌, ◌≡◌, refl, ap, ◌∙◌, true, false, List, [], ◌∷◌, none, some,
  String, str_eq, if◌then◌else◌, arith, Bool-cases, inl, inr, ◌&&◌,
}
use bgp_flowspec_receiver.Prelude.Dict
use bgp_flowspec_receiver.Prelude.Dict.{Dict, get-insert, get-remove}
use bgp_flowspec_receiver.Rib.{entry, step, count_all, put_count, analyse_all}

-- How often a text is in a list.
abbrev pub occurrences : String → List String → ℕ
occurrences k [] = 0
occurrences k (j ∷ js) = (if str_eq j k then 1 else 0) + occurrences k js

entry-insert :
    (j k : String) (n : ℕ) (m : Dict ℕ)
    → entry k (Dict.insert j n m) ≡ (if str_eq j k then n else entry k m)
entry-insert j k n m = ground (arith, get-insert j k n m)

entry-put_count :
    (j k : String) (n : ℕ) (m : Dict ℕ)
    → entry k (put_count j n m) ≡ (if str_eq j k then n else entry k m)
entry-put_count j k n m = ground (arith, get-insert j k n m, get-remove j k m)

-- Adding the keys succeeds and adds their occurrences.
pub count_all-add :
    (keys : List String) (m : Dict ℕ)
    → (m' : Dict ℕ) × (count_all true keys m ≡ some m')
      × ((k : String) → entry k m' ≡ entry k m + occurrences k keys)
unfolding count_all
count_all-add [] m = (m, refl, λ k. omega arith)
count_all-add (j ∷ keys) m =
    let (m', e, h) = count_all-add keys (Dict.insert j (suc (entry j m)) m) in
    (m', e, λ k. ground (arith, h k, entry-insert j k (suc (entry j m)) m, eq_iff j k))

step_down : (n : ℕ) → 0 < n → step false n ≡ some (n - 1)
unfolding step
step_down zero h = elim h [ ]
step_down (suc n) h = ap some (omega arith)

-- The first of the keys is counted, and the others still are when it has been taken off.
first_counted :
    (j : String) (keys : List String) (m : Dict ℕ)
    → ((k : String) → occurrences k (j ∷ keys) ≤ entry k m)
    → 0 < entry j m
first_counted j keys m h = ground (arith, h j, eq_iff j j)

rest_counted :
    (j : String) (keys : List String) (m : Dict ℕ)
    → ((k : String) → occurrences k (j ∷ keys) ≤ entry k m)
    → (k : String) → occurrences k keys ≤ entry k (Dict.insert j (entry j m - 1) m)
rest_counted j keys m h k = ground (arith, h k, entry-insert j k (entry j m - 1) m, eq_iff j k)

-- Subtracting keys that are all counted succeeds and subtracts their occurrences.
pub count_all-subtract :
    (keys : List String) (m : Dict ℕ)
    → ((k : String) → occurrences k keys ≤ entry k m)
    → (m' : Dict ℕ) × (count_all false keys m ≡ some m')
      × ((k : String) → entry k m' + occurrences k keys ≡ entry k m)
unfolding count_all
count_all-subtract [] m h = (m, refl, λ k. omega arith)
count_all-subtract (j ∷ keys) m h =
    let pos = first_counted j keys m h in
    let (m', e, g) =
      count_all-subtract keys (Dict.insert j (entry j m - 1) m) (rest_counted j keys m h) in
    (
      m',
      rw (step_down (entry j m) pos) e,
      λ k. ground (arith, pos, g k, entry-insert j k (entry j m - 1) m, eq_iff j k),
    )

-- How often a pair is in a list of metrics.
abbrev pub pair_occurrences : String → String → List (String × String) → ℕ
pair_occurrences c v [] = 0
pair_occurrences c v ((key, value) ∷ ms) =
    (if str_eq key c && str_eq value v then 1 else 0) + pair_occurrences c v ms

-- The count of a value in a category.
abbrev pub metric : String → String → Dict (Dict ℕ) → ℕ
metric c v a = elim (Dict.get c a) [ none ↦ 0 | some counts ↦ entry v counts ]

-- The category has a table.
abbrev pub Has : Dict (Dict ℕ) → String → Type 0
Has a c = (counts : Dict ℕ) × (Dict.get c a ≡ some counts)

-- Every metric of the list falls into a category that has a table.
abbrev pub AllHave : Dict (Dict ℕ) → List (String × String) → Type 0
AllHave a [] = Unit
AllHave a ((key, value) ∷ ms) = Has a key × AllHave a ms

Has-insert :
    (a : Dict (Dict ℕ)) (j c : String) (counts : Dict ℕ) → Has a c → Has (Dict.insert j counts a) c
Has-insert a j c counts (old, e) = elim (Bool-cases (str_eq j c)) [
  | inl same ↦ (counts, get-insert j c counts a ∙ (rw same))
  | inr other ↦ (old, get-insert j c counts a ∙ (rw other e))
]

AllHave-insert :
    (a : Dict (Dict ℕ)) (j : String) (counts : Dict ℕ) (ms : List (String × String))
    → AllHave a ms
    → AllHave (Dict.insert j counts a) ms
AllHave-insert a j counts [] h = tt
AllHave-insert a j counts ((key, value) ∷ ms) h =
    (Has-insert a j key counts h.0, AllHave-insert a j counts ms h.1)

metric-insert :
    (a : Dict (Dict ℕ)) (key value c v : String) (counts : Dict ℕ) (n : ℕ)
    → Dict.get key a ≡ some counts
    → metric c v (Dict.insert key (put_count value n counts) a)
      ≡ (if str_eq key c && str_eq value v then n else metric c v a)
metric-insert a key value c v counts n e = ground (
  arith,
  get-insert key c (put_count value n counts) a,
  entry-put_count value v n counts,
  eq_iff key c,
)

pub analyse_all-add :
    (ms : List (String × String)) (a : Dict (Dict ℕ))
    → AllHave a ms
    → (a' : Dict (Dict ℕ)) × (analyse_all true ms a ≡ some a')
      × ((c v : String) → metric c v a' ≡ metric c v a + pair_occurrences c v ms)
      × ((c : String) → Has a c → Has a' c)
unfolding analyse_all
analyse_all-add [] a h = (a, refl, λ c v. omega arith, λ c k. k)
analyse_all-add ((key, value) ∷ ms) a ((counts, e), h) =
    let n = suc (entry value counts) in
    let mid = Dict.insert key (put_count value n counts) a in
    let (a', e', g, has) =
      analyse_all-add ms mid (AllHave-insert a key (put_count value n counts) ms h) in
    (
      a',
      rw e e',
      λ c v.
          ground (
            arith,
            g c v,
            e,
            metric-insert a key value c v counts n e,
            eq_iff key c,
            eq_iff value v,
          ),
      λ c k. has c (Has-insert a key c (put_count value n counts) k),
    )

pair_counted :
    (key value : String) (ms : List (String × String)) (a : Dict (Dict ℕ)) (counts : Dict ℕ)
    → Dict.get key a ≡ some counts
    → ((c v : String) → pair_occurrences c v ((key, value) ∷ ms) ≤ metric c v a)
    → 0 < entry value counts
pair_counted key value ms a counts e h =
    ground (arith, h key value, e, eq_iff key key, eq_iff value value)

pairs_counted :
    (key value : String) (ms : List (String × String)) (a : Dict (Dict ℕ)) (counts : Dict ℕ)
    → Dict.get key a ≡ some counts
    → ((c v : String) → pair_occurrences c v ((key, value) ∷ ms) ≤ metric c v a)
    → (c v : String)
    → pair_occurrences c v ms
      ≤ metric c v (Dict.insert key (put_count value (entry value counts - 1) counts) a)
pairs_counted key value ms a counts e h c v = ground (
  arith,
  h c v,
  e,
  metric-insert a key value c v counts (entry value counts - 1) e,
  eq_iff key c,
  eq_iff value v,
)

pub analyse_all-subtract :
    (ms : List (String × String)) (a : Dict (Dict ℕ))
    → AllHave a ms
    → ((c v : String) → pair_occurrences c v ms ≤ metric c v a)
    → (a' : Dict (Dict ℕ)) × (analyse_all false ms a ≡ some a')
      × ((c v : String) → metric c v a' + pair_occurrences c v ms ≡ metric c v a)
      × ((c : String) → Has a c → Has a' c)
unfolding analyse_all
analyse_all-subtract [] a h le = (a, refl, λ c v. omega arith, λ c k. k)
analyse_all-subtract ((key, value) ∷ ms) a ((counts, e), h) le =
    let n = entry value counts - 1 in
    let pos = pair_counted key value ms a counts e le in
    let mid = Dict.insert key (put_count value n counts) a in
    let (a', e', g, has) =
      analyse_all-subtract ms mid (AllHave-insert a key (put_count value n counts) ms h)
        (pairs_counted key value ms a counts e le) in
    (
      a',
      rw (e, step_down (entry value counts) pos) e',
      λ c v. ground (
        arith,
        g c v,
        e,
        pos,
        metric-insert a key value c v counts n e,
        eq_iff key c,
        eq_iff value v,
      ),
      λ c k. has c (Has-insert a key c (put_count value n counts) k),
    )
