-- ===== src/Rib/Rows.antt =====
-- The rows of the table as a list of routes, and the map from sequence numbers under them.
use mathlib.Core.Path.{subst}
use text.Mathlib.TextEquality.{eq_iff}
use bgp_flowspec_receiver.Prelude.{
  ℕ, suc, ◌+◌, ◌≤◌, ◌<◌, ◌≡◌, ◌≢◌, refl, ap, Bool, true, false, List, [], ◌∷◌, ◌++◌, Option, none,
  some, String, ◌==◌, str_eq, if◌then◌else◌, arith, Bool-cases, inl, inr,
}
use bgp_flowspec_receiver.Prelude.SeqMap
use bgp_flowspec_receiver.Prelude.SeqMap.{SeqMap}
use bgp_flowspec_receiver.Rib.{Route}

abbrev pub rows : SeqMap Route → List Route
rows [] = []
rows ((s, r) ∷ m) = r ∷ rows m

-- The sum of `f` over the rows.
abbrev pub tally : (Route → ℕ) → List Route → ℕ
tally f [] = 0
tally f (r ∷ rs) = f r + tally f rs

-- The rows without those of one id.
abbrev pub drop_id : String → List Route → List Route
drop_id id [] = []
drop_id id (r ∷ rs) = let rest = drop_id id rs in if str_eq r.id id then rest else r ∷ rest

abbrev pub has_id : String → List Route → Bool
has_id id [] = false
has_id id (r ∷ rs) = if str_eq r.id id then true else has_id id rs

-- The sequence number of the row of an id.
abbrev pub seq_of : String → SeqMap Route → Option ℕ
seq_of id [] = none
seq_of id ((s, r) ∷ m) = if str_eq r.id id then some s else seq_of id m

-- Keys and ids occur once.
abbrev pub Distinct : SeqMap Route → Type 0
Distinct [] = Unit
Distinct ((s, r) ∷ m) = (SeqMap.get s m ≡ none) × (seq_of r.id m ≡ none) × Distinct m

abbrev pub Bounded : ℕ → SeqMap Route → Type 0
Bounded top [] = Unit
Bounded top ((s, r) ∷ m) = (s ≤ top) × Bounded top m

pub Bounded-mono : (top : ℕ) (m : SeqMap Route) → Bounded top m → Bounded (suc top) m
Bounded-mono top [] h = tt
Bounded-mono top ((s, r) ∷ m) h = (omega arith, Bounded-mono top m h.1)

pub get-above : (top k : ℕ) (m : SeqMap Route) → Bounded top m → top < k → SeqMap.get k m ≡ none
unfolding SeqMap.get
get-above top k [] h lt = refl
get-above top k ((s, r) ∷ m) h lt = ground (arith, get-above top k m h.1 lt)

-- A key above all others goes to the end.
pub insert-above :
    (top k : ℕ) (r : Route) (m : SeqMap Route)
    → Bounded top m
    → top < k
    → SeqMap.insert k r m ≡ m ++ (k, r) ∷ []
unfolding SeqMap.insert
insert-above top k r [] h lt = refl
insert-above top k r ((s, q) ∷ m) h lt = ground (arith, insert-above top k r m h.1 lt)

module _ (k : ℕ) (r : Route) where
  pub rows-snoc : (m : SeqMap Route) → rows (m ++ (k, r) ∷ []) ≡ rows m ++ r ∷ []
  rows-snoc [] = refl
  rows-snoc ((s, q) ∷ m) = ap (λ rs. q ∷ rs) (rows-snoc m)

  pub get-snoc :
      (s : ℕ) (m : SeqMap Route)
      → SeqMap.get s m ≡ none
      → s ≢ k
      → SeqMap.get s (m ++ (k, r) ∷ []) ≡ none
  unfolding SeqMap.get
  get-snoc s [] e ne = ground arith
  get-snoc s ((t, q) ∷ m) e ne = ground (arith, get-snoc s m)

  pub seq_of-snoc :
      (id : String) (m : SeqMap Route)
      → seq_of id (m ++ (k, r) ∷ [])
        ≡ elim (seq_of id m) [ none ↦ if str_eq r.id id then some k else none | some s ↦ some s ]
  seq_of-snoc id [] = ground arith
  seq_of-snoc id ((t, q) ∷ m) = ground (arith, seq_of-snoc id m)

  pub Bounded-snoc : (m : SeqMap Route) → Bounded k m → Bounded k (m ++ (k, r) ∷ [])
  Bounded-snoc [] h = (omega arith, tt)
  Bounded-snoc ((t, q) ∷ m) h = (h.0, Bounded-snoc m h.1)

get_nil : (k : ℕ) → SeqMap.get {V = Route} k [] ≡ none
unfolding SeqMap.get
get_nil k = refl

pub Distinct-snoc :
    (top : ℕ) (r : Route) (m : SeqMap Route)
    → Bounded top m
    → seq_of r.id m ≡ none
    → Distinct m
    → Distinct (m ++ (suc top, r) ∷ [])
Distinct-snoc top r [] h e d = (get_nil (suc top), refl, tt)
Distinct-snoc top r ((s, q) ∷ m) h e d = (
  get-snoc (suc top) r s m d.0 (omega arith),
  ground (arith, seq_of-snoc (suc top) r q.id m, d.1, eq_iff r.id q.id, eq_iff q.id r.id),
  Distinct-snoc top r m h.1 (ground arith) d.2,
)

module _ (f : Route → ℕ) where
  pub tally-append : (xs ys : List Route) → tally f (xs ++ ys) ≡ tally f xs + tally f ys
  tally-append [] ys = omega arith
  tally-append (x ∷ xs) ys = omega (arith, tally-append xs ys)

pub has_id-seq_of :
    (id : String) (m : SeqMap Route) → seq_of id m ≡ none → has_id id (rows m) ≡ false
has_id-seq_of id [] e = refl
has_id-seq_of id ((s, r) ∷ m) e = ground (arith, has_id-seq_of id m)

pub drop_id-absent :
    (id : String) (m : SeqMap Route) → seq_of id m ≡ none → drop_id id (rows m) ≡ rows m
drop_id-absent id [] e = refl
drop_id-absent id ((s, r) ∷ m) e = ground (arith, drop_id-absent id m)

-- The row of an id, taken out by its key.
abbrev pub Found : String → ℕ → SeqMap Route → Type 0
Found id s m =
    (r : Route) × (SeqMap.get s m ≡ some r)
    × (r.id ≡ id)
    × (rows (SeqMap.remove s m) ≡ drop_id id (rows m))
    × ((f : Route → ℕ) → tally f (rows (SeqMap.remove s m)) + f r ≡ tally f (rows m))
    × ((j : String) → seq_of j (SeqMap.remove s m) ≡ (if str_eq id j then none else seq_of j m))

remove-absent : (k : ℕ) (m : SeqMap Route) → SeqMap.get k m ≡ none → SeqMap.remove k m ≡ m
unfolding SeqMap.get SeqMap.remove
remove-absent k [] e = refl
remove-absent k ((s, r) ∷ m) e = ground (arith, remove-absent k m)

key_differs :
    (t s : ℕ) (m : SeqMap Route) (r : Route)
    → SeqMap.get t m ≡ none
    → SeqMap.get s m ≡ some r
    → (t == s) ≡ false
key_differs t s m r e f = ground arith

pub seq_of-Found :
    (id : String) (s : ℕ) (m : SeqMap Route) → Distinct m → seq_of id m ≡ some s → Found id s m
unfolding SeqMap.get SeqMap.remove
seq_of-Found id s [] d e = cc
seq_of-Found id s ((t, q) ∷ m) d e = elim (Bool-cases (str_eq q.id id)) [
  | inl this ↦
      let same : q.id ≡ id = (eq_iff q.id id).0 this in
      let key : t ≡ s = ground arith in
      let absent : seq_of id m ≡ none = subst (λ i. seq_of i m ≡ none) same d.1 in
      let gone = remove-absent s m (subst (λ k. SeqMap.get k m ≡ none) key d.0) in
      (
        q,
        ground arith,
        same,
        ground (arith, gone, drop_id-absent id m absent),
        λ f. ground (arith, gone, ap (λ m. tally f (rows m)) gone),
        λ j. ground (
          arith,
          gone,
          eq_iff id j,
          eq_iff q.id j,
          absent,
          ap (λ m. seq_of j m) gone,
          ap (λ i. seq_of i m) same,
        ),
      )
  | inr later ↦
      let (r, found, same, rest, sum, seqs) = seq_of-Found id s m d.2 (ground arith) in
      let other = key_differs t s m r d.0 found in
      (
        r,
        ground (arith, found, other),
        same,
        ground (arith, rest, other),
        λ f. ground (arith, sum f, other),
        λ j. ground (arith, seqs j, other, eq_iff id j, eq_iff q.id j, eq_iff q.id id),
      )
]

pub has_id-seq_of-some :
    (id : String) (s : ℕ) (m : SeqMap Route) → seq_of id m ≡ some s → has_id id (rows m) ≡ true
has_id-seq_of-some id s [] e = cc
has_id-seq_of-some id s ((t, q) ∷ m) e = ground (arith, has_id-seq_of-some id s m)

module _ (k : ℕ) where
  pub Bounded-remove :
      (top : ℕ) (m : SeqMap Route) → Bounded top m → Bounded top (SeqMap.remove k m)
  unfolding SeqMap.remove
  Bounded-remove top [] h = tt
  Bounded-remove top ((s, r) ∷ m) h =
      let rest = Bounded-remove top m h.1 in
      elim (Bool-cases (s == k)) [ inl e ↦ rw e rest | inr e ↦ rw e (h.0, rest) ]

  get-remove-none :
      (s : ℕ) (m : SeqMap Route) → SeqMap.get s m ≡ none → SeqMap.get s (SeqMap.remove k m) ≡ none
  unfolding SeqMap.get SeqMap.remove
  get-remove-none s [] e = e
  get-remove-none s ((t, q) ∷ m) e = ground (arith, get-remove-none s m)

  seq_of-remove-none :
      (id : String) (m : SeqMap Route) → seq_of id m ≡ none → seq_of id (SeqMap.remove k m) ≡ none
  unfolding SeqMap.remove
  seq_of-remove-none id [] e = e
  seq_of-remove-none id ((t, q) ∷ m) e = ground (arith, seq_of-remove-none id m)

  pub Distinct-remove : (m : SeqMap Route) → Distinct m → Distinct (SeqMap.remove k m)
  unfolding SeqMap.remove
  Distinct-remove [] h = tt
  Distinct-remove ((s, r) ∷ m) h =
      let rest = Distinct-remove m h.2 in
      elim (Bool-cases (s == k)) [
        | inl e ↦ rw e rest
        | inr e ↦ rw e (get-remove-none s m h.0, seq_of-remove-none r.id m h.1, rest)
      ]
