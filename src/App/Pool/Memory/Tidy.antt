-- ===== src/App/Pool/Memory/Tidy.antt =====
-- A set of the pool and the handles outside it: one allocation for each address.
use mathlib.Core.Path.{subst}
use bgp_flowspec_receiver.Prelude.{
  ℕ, suc, ◌<◌, ◌≡◌, ◌≢◌, ◌⊎◌, inl, inr, refl, sym, ap, ◌∙◌, Bool, Option, none, some, List, [], ◌∷◌,
  ltb, Bool-cases, All, arith,
}
use bgp_flowspec_receiver.App.Pool.{Arc, ArcSet, find, interned, intern, retain, collect_set}

module _ {A : Type 0} where
  abbrev pub In : Arc A → List (Arc A) → Type 0
  In a [] = ⊥
  In a (b ∷ arcs) = (a ≡ b) ⊎ In a arcs

  pub All-In : (P : Arc A → Type 0) (a : Arc A) (arcs : List (Arc A)) → All P arcs → In a arcs → P a
  All-In P a [] h i = elim i [ ]
  All-In P a (b ∷ arcs) h (inl e) = subst P (sym e) h.0
  All-In P a (b ∷ arcs) h (inr i) = All-In P a arcs h.1 i

  pub All-of :
      (P : Arc A → Type 0) (arcs : List (Arc A)) → ((a : Arc A) → In a arcs → P a) → All P arcs
  All-of P [] h = tt
  All-of P (a ∷ arcs) h = (h a (inl refl), All-of P arcs (λ b i. h b (inr i)))

  pub All-weaken :
      (P Q : Arc A → Type 0) (arcs : List (Arc A))
      → ((a : Arc A) → P a → Q a)
      → All P arcs
      → All Q arcs
  All-weaken P Q arcs k h = All-of Q arcs (λ a i. k a (All-In P a arcs h i))

  abbrev pub Other : ℕ → Arc A → Type 0
  Other n a = a.address ≢ n

  abbrev pub Below : ℕ → Arc A → Type 0
  Below next a = a.address < next

  -- If they have one address, they are one.
  abbrev pub One : Arc A → Arc A → Type 0
  One a b = a.address ≡ b.address → a ≡ b

  abbrev pub Named : List (Arc A) → Arc A → Type 0
  Named entries a = All (One a) entries

  -- The allocations are apart from each other.
  abbrev pub Apart : List (Arc A) → Type 0
  Apart [] = Unit {0}
  Apart (a ∷ arcs) = All (Other a.address) arcs × Apart arcs

  -- The entries and the handles `held` are of allocations that have been made, and an entry with the
  -- address of a handle is its allocation.
  pub record Tidy (s : ArcSet A) (held : List (Arc A)) : Type 0 where
    pub apart : Apart s.entries
    pub stored : All (Below s.next) s.entries
    pub made : All (Below s.next) held
    pub named : All (Named s.entries) held

  Apart-Named :
      (a : Arc A) (entries : List (Arc A)) → Apart entries → In a entries → Named entries a
  Apart-Named a [] h i = elim i [ ]
  Apart-Named a (b ∷ entries) h (inl e) = (
    λ _. e,
    All-weaken (Other b.address) (One a) entries
        (λ c ne at. absurd (ne (sym at ∙ ap (λ (a : Arc A). a.address) e))) h.0,
  )
  Apart-Named a (b ∷ entries) h (inr i) =
      (λ at. absurd (All-In (Other b.address) a entries h.0 i at), Apart-Named a entries h.1 i)

  -- The users clone handles that they hold, and drop some.
  pub moved-Tidy :
      (s : ArcSet A) (held held' : List (Arc A))
      → All (λ a. In a held) held'
      → Tidy s held
      → Tidy s held'
  moved-Tidy s held held' from t =
      let has : Arc A → Type 0 = λ a. In a held in
      record {
        apart = t.apart;
        stored = t.stored;
        made = All-weaken has (Below s.next) held' (λ a. All-In (Below s.next) a held t.made) from;
        named =
            All-weaken has (Named s.entries) held' (λ a. All-In (Named s.entries) a held t.named)
              from;
      }

  find-In :
      (eq : A → A → Bool) (v : A) (entries : List (Arc A)) (a : Arc A)
      → find eq v entries ≡ some a
      → In a entries
  find-In eq v [] a e = cc
  find-In eq v (b ∷ entries) a e = elim (Bool-cases (eq v b.value)) [
    | inl y ↦ let first : b ≡ a = ground (arith, e, y) in inl (sym first)
    | inr n ↦ inr (find-In eq v entries a (ground (arith, e, n)))
  ]

  later : (next : ℕ) (arcs : List (Arc A)) → All (Below next) arcs → All (Below (suc next)) arcs
  later next arcs = All-weaken (Below next) (Below (suc next)) arcs (λ a lt. omega (arith, lt))

  interned-Tidy :
      (eq : A → A → Bool) (v : A) (s : ArcSet A) (held : List (Arc A)) (f : Option (Arc A))
      → find eq v s.entries ≡ f
      → Tidy s held
      → Tidy (interned eq v s f).1 ((interned eq v s f).0 ∷ held)
  interned-Tidy eq v s held (some a) e t =
      let i = find-In eq v s.entries a e in
      record {
        apart = t.apart;
        stored = t.stored;
        made = (All-In (Below s.next) a s.entries t.stored i, t.made);
        named = (Apart-Named a s.entries t.apart i, t.named);
      }
  interned-Tidy eq v s held none e t =
      let a : Arc A = record { address = s.next; value = v } in
      record {
        apart = (
          All-weaken (Below s.next) (Other s.next) s.entries
              (λ b lt at. absurd (omega (arith, lt, at))) t.stored,
          t.apart,
        );
        stored = (omega arith, later s.next s.entries t.stored);
        made = (omega arith, later s.next held t.made);
        named = (
          (
            λ _. refl,
            All-weaken (Below s.next) (One a) s.entries (λ b lt at. absurd (omega (arith, lt, at)))
                t.stored,
          ),
          All-of (Named (a ∷ s.entries)) held (λ b i. (
            λ at. absurd (omega (arith, at, All-In (Below s.next) b held t.made i)),
            All-In (Named s.entries) b held t.named i,
          )),
        );
      }

  pub intern-Tidy :
      (eq : A → A → Bool) (v : A) (s : ArcSet A) (held : List (Arc A))
      → Tidy s held
      → Tidy (intern eq v s).1 ((intern eq v s).0 ∷ held)
  unfolding intern
  intern-Tidy eq v s held t = interned-Tidy eq v s held (find eq v s.entries) refl t

  retain-All :
      (P : Arc A → Type 0) (count : Arc A → ℕ) (entries : List (Arc A))
      → All P entries
      → All P (retain count entries)
  retain-All P count [] h = tt
  retain-All P count (a ∷ entries) h =
      let rest = retain-All P count entries h.1 in
      elim (Bool-cases (ltb 1 (count a))) [ inl y ↦ rw y (h.0, rest) | inr n ↦ rw n rest ]

  retain-Apart :
      (count : Arc A → ℕ) (entries : List (Arc A)) → Apart entries → Apart (retain count entries)
  retain-Apart count [] h = tt
  retain-Apart count (a ∷ entries) h =
      let rest = retain-Apart count entries h.1 in
      elim (Bool-cases (ltb 1 (count a))) [
        | inl y ↦ rw y (retain-All (Other a.address) count entries h.0, rest)
        | inr n ↦ rw n rest
      ]

  pub collect_set-Tidy :
      (count : Arc A → ℕ) (s : ArcSet A) (held : List (Arc A))
      → Tidy s held
      → Tidy (collect_set count s) held
  unfolding collect_set
  collect_set-Tidy count s held t = record {
    apart = retain-Apart count s.entries t.apart;
    stored = retain-All (Below s.next) count s.entries t.stored;
    made = t.made;
    named =
        All-weaken (Named s.entries) (Named (retain count s.entries)) held
          (λ a. retain-All (One a) count s.entries) t.named;
  }
