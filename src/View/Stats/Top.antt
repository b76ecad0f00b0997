-- ===== src/View/Stats/Top.antt =====
-- The order and the cut of `top`.
use bgp_flowspec_receiver.Prelude.{
  ℕ, zero, suc, ◌≤◌, ◌≡◌, ◌⊎◌, inl, inr, refl, ap, ◌∙◌, true, false, String, [], ◌∷◌, length, min,
  All-take, take, arith, All, Bool-cases,
}
use bgp_flowspec_receiver.Prelude.Dict.{Dict}
use bgp_flowspec_receiver.View.Stats.{ranks_before, insert_ranked, rank, top}

abbrev pub In : String × ℕ → Dict ℕ → Type 0
In e [] = ⊥
In e (f ∷ m) = (e ≡ f) ⊎ In e m

-- No count behind is larger.
abbrev Descending : Dict ℕ → Type 0
Descending [] = Unit
Descending (e ∷ m) = All (λ f. f.1 ≤ e.1) m × Descending m

All-insert :
    (P : String × ℕ → Type 0) (e : String × ℕ) (m : Dict ℕ)
    → P e
    → All P m
    → All P (insert_ranked e m)
unfolding insert_ranked
All-insert P e [] p h = (p, tt)
All-insert P e (f ∷ m) p h = elim (Bool-cases (ranks_before f e)) [
  | inl b ↦ rw b (h.0, All-insert P e m p h.1)
  | inr b ↦ rw b (p, h)
]

All-mono : (n k : ℕ) (m : Dict ℕ) → n ≤ k → All (λ f. f.1 ≤ n) m → All (λ f. f.1 ≤ k) m
All-mono n k [] le h = tt
All-mono n k (f ∷ m) le h = (omega arith, All-mono n k m le h.1)

before-le : (f e : String × ℕ) → ranks_before f e ≡ true → e.1 ≤ f.1
before-le f e h = ground arith

not_before-le : (f e : String × ℕ) → ranks_before f e ≡ false → f.1 ≤ e.1
not_before-le f e h = ground arith

insert_ranked-Descending :
    (e : String × ℕ) (m : Dict ℕ) → Descending m → Descending (insert_ranked e m)
unfolding insert_ranked
insert_ranked-Descending e [] d = (tt, tt)
insert_ranked-Descending e (f ∷ m) d = elim (Bool-cases (ranks_before f e)) [
  | inl b ↦
      rw b (All-insert (λ g. g.1 ≤ f.1) e m (before-le f e b) d.0, insert_ranked-Descending e m d.1)
  | inr b ↦ rw b ((not_before-le f e b, All-mono f.1 e.1 m (not_before-le f e b) d.0), d)
]

rank-Descending : (m : Dict ℕ) → Descending (rank m)
unfolding rank
rank-Descending [] = tt
rank-Descending (e ∷ m) = insert_ranked-Descending e (rank m) (rank-Descending m)

In-insert_ranked : (g e : String × ℕ) (m : Dict ℕ) → (g ≡ e) ⊎ In g m → In g (insert_ranked e m)
unfolding insert_ranked
In-insert_ranked g e [] h = h
In-insert_ranked g e (f ∷ m) h = elim (Bool-cases (ranks_before f e)) [
  | inl b ↦ rw b (elim h [
    | inl same ↦ inr (In-insert_ranked g e m (inl same))
    | inr (inl first) ↦ inl first
    | inr (inr deep) ↦ inr (In-insert_ranked g e m (inr deep))
  ])
  | inr b ↦ rw b h
]

In-rank : (g : String × ℕ) (m : Dict ℕ) → In g m → In g (rank m)
unfolding rank
In-rank g [] h = h
In-rank g (e ∷ m) (inl same) = In-insert_ranked g e (rank m) (inl same)
In-rank g (e ∷ m) (inr deep) = In-insert_ranked g e (rank m) (inr (In-rank g m deep))

count_of-In : (g : String × ℕ) (n : ℕ) (m : Dict ℕ) → All (λ f. f.1 ≤ n) m → In g m → g.1 ≤ n
count_of-In g n [] h i = elim i [ ]
count_of-In g n (f ∷ m) h (inl same) = rw same h.0
count_of-In g n (f ∷ m) h (inr deep) = count_of-In g n m h.1 deep

-- Of a descending list, what is not taken counts at most as much as all that is.
take-largest :
    (g : String × ℕ) (n : ℕ) (m : Dict ℕ)
    → Descending m
    → In g m
    → In g (take n m) ⊎ All (λ f. g.1 ≤ f.1) (take n m)
take-largest g zero m d i = inr tt
take-largest g (suc n) [] d i = inr tt
take-largest g (suc n) (f ∷ m) d (inl same) = inl (inl same)
take-largest g (suc n) (f ∷ m) d (inr deep) = elim (take-largest g n m d.1 deep) [
  | inl kept ↦ inl (inr kept)
  | inr above ↦ inr (count_of-In g f.1 m d.0 deep, above)
]

length-insert_ranked : (e : String × ℕ) (m : Dict ℕ) → length (insert_ranked e m) ≡ suc (length m)
unfolding insert_ranked
length-insert_ranked e [] = refl
length-insert_ranked e (f ∷ m) = ground (arith, length-insert_ranked e m)

length-rank : (m : Dict ℕ) → length (rank m) ≡ length m
unfolding rank
length-rank [] = refl
length-rank (e ∷ m) = length-insert_ranked e (rank m) ∙ ap suc (length-rank m)

All-rank : (P : String × ℕ → Type 0) (m : Dict ℕ) → All P m → All P (rank m)
unfolding rank
All-rank P [] h = tt
All-rank P (e ∷ m) h = All-insert P e (rank m) h.0 (All-rank P m h.1)

-- Every entry is in the map, with others in front of it.
All-In : (e : String × ℕ) (m fs : Dict ℕ) → All (λ f. In f m) fs → All (λ f. In f (e ∷ m)) fs
All-In e m [] h = tt
All-In e m (f ∷ fs) h = (inr h.0, All-In e m fs h.1)

In-self : (m : Dict ℕ) → All (λ f. In f m) m
In-self [] = tt
In-self (e ∷ m) = (inl refl, All-In e m m (In-self m))

length-take : (n : ℕ) (m : Dict ℕ) → length (take n m) ≡ min n (length m)
length-take zero m = omega arith
length-take (suc n) [] = omega arith
length-take (suc n) (e ∷ m) = omega (arith, length-take n m)

shown :
    (counts gs : Dict ℕ)
    → All (λ g. In g counts) gs
    → All (λ g. In g (top counts) ⊎ All (λ f. g.1 ≤ f.1) (top counts)) gs
unfolding top
shown counts [] h = tt
shown counts (g ∷ gs) h = (
  take-largest g 5 (rank counts) (rank-Descending counts) (In-rank g counts h.0),
  shown counts gs h.1,
)

-- Of the values of a category, `stats` shows five, or all when there are fewer, and each that it shows
-- has as many routes as in the category.
top-In :
    (counts : Dict ℕ)
    → (length (top counts) ≡ min 5 (length counts)) × All (λ f. In f counts) (top counts)
unfolding top
top-In counts = (
  length-take 5 (rank counts) ∙ ap (min 5) (length-rank counts),
  All-take (λ f. In f counts) 5 (rank counts) (All-rank (λ f. In f counts) counts (In-self counts)),
)

-- For each category, `stats` shows five values with their counts, or all when there are fewer, all of
-- them of the category; and a value that it does not show is at most as frequent as each that it
-- shows.
pub top-largest :
    (counts : Dict ℕ)
    → (length (top counts) ≡ min 5 (length counts))
      × All (λ f. In f counts) (top counts)
      × All (λ g. In g (top counts) ⊎ All (λ f. g.1 ≤ f.1) (top counts)) counts
top-largest counts =
    let (size, own) = top-In counts in (size, own, shown counts counts (In-self counts))
