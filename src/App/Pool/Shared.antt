-- ===== src/App/Pool/Shared.antt =====
-- What the users of a pool see of it: equal values, and one allocation as long as it is in use.
use bgp_flowspec_receiver.Prelude.{
  ℕ, ◌<◌, ◌≡◌, ◌↔◌, refl, sym, ap, ◌∙◌, Bool, true, Option, none, some, List, [], ◌∷◌, ltb,
  Bool-cases, inl, inr, arith,
}
use bgp_flowspec_receiver.App.Pool.{Arc, ArcSet, find, interned, intern, retain, collect_set}

-- What happens to a set.
pub data Use (A : Type 0) : Type 0 where
  interns : A → Use A
  collects : (Arc A → ℕ) → Use A

module _ {A : Type 0} (eq : A → A → Bool) (same : (x y : A) → (eq x y ≡ true) ↔ (x ≡ y)) where
  find-value :
      (v : A) (entries : List (Arc A)) (a : Arc A) → find eq v entries ≡ some a → a.value ≡ v
  find-value v [] a e = cc
  find-value v (b ∷ entries) a e = elim (Bool-cases (eq v b.value)) [
    | inl y ↦
        let first : b ≡ a = ground (arith, e, y) in
        sym (ap (λ (a : Arc A). a.value) first) ∙ sym ((same v b.value).0 y)
    | inr n ↦ find-value v entries a (ground (arith, e, n))
  ]

  -- The set finds the allocation again.
  abbrev Holds : Arc A → ArcSet A → Type 0
  Holds a s = find eq a.value s.entries ≡ some a

  interned-Holds :
      (v : A) (s : ArcSet A) (f : Option (Arc A))
      → find eq v s.entries ≡ f
      → ((interned eq v s f).0.value ≡ v) × Holds (interned eq v s f).0 (interned eq v s f).1
  interned-Holds v s (some a) e =
      let is = find-value v s.entries a e in (is, ap (λ v. find eq v s.entries) is ∙ e)
  interned-Holds v s none e = (refl, rw ((same v v).1 refl) refl)

  intern-Holds :
      (v : A) (s : ArcSet A)
      → ((intern eq v s).0.value ≡ v) × Holds (intern eq v s).0 (intern eq v s).1
  unfolding intern
  intern-Holds v s = interned-Holds v s (find eq v s.entries) refl

  interned_other :
      (a : Arc A) (w : A) (s : ArcSet A) (f : Option (Arc A))
      → find eq w s.entries ≡ f
      → Holds a s
      → Holds a (interned eq w s f).1
  interned_other a w s (some b) e h = h
  interned_other a w s none e h = elim (Bool-cases (eq a.value w)) [
    | inr n ↦ rw n h
    | inl y ↦
        let missing : find eq a.value s.entries ≡ none =
          ap (λ v. find eq v s.entries) ((same a.value w).0 y) ∙ e in
        cc
  ]

  intern_other : (a : Arc A) (w : A) (s : ArcSet A) → Holds a s → Holds a (intern eq w s).1
  unfolding intern
  intern_other a w s h = interned_other a w s (find eq w s.entries) refl h

  retain-find :
      (count : Arc A → ℕ) (a : Arc A) (v : A) (entries : List (Arc A))
      → 1 < count a
      → find eq v entries ≡ some a
      → find eq v (retain count entries) ≡ some a
  retain-find count a v [] used h = h
  retain-find count a v (b ∷ entries) used h = elim (Bool-cases (eq v b.value)) [
    | inl y ↦
        let first : b ≡ a = ground (arith, h, y) in
        let kept : ltb 1 (count b) ≡ true = rw first (ground (arith, used)) in
        rw (kept, y) (ap some first)
    | inr n ↦
        let later = retain-find count a v entries used (ground (arith, h, n)) in
        elim (Bool-cases (ltb 1 (count b))) [ inl k ↦ rw (k, n) later | inr k ↦ rw k later ]
  ]

  abbrev apply_use : Use A → ArcSet A → ArcSet A
  apply_use (interns w) s = (intern eq w s).1
  apply_use (collects count) s = collect_set count s

  abbrev pub uses : List (Use A) → ArcSet A → ArcSet A
  uses [] s = s
  uses (u ∷ us) s = uses us (apply_use u s)

  -- The allocation has a user besides the set whenever the set is collected.
  abbrev pub InUse : Arc A → List (Use A) → Type 0
  InUse a [] = Unit {0}
  InUse a (interns w ∷ us) = InUse a us
  InUse a (collects count ∷ us) = (1 < count a) × InUse a us

  uses-Holds :
      (us : List (Use A)) (a : Arc A) (s : ArcSet A) → InUse a us → Holds a s → Holds a (uses us s)
  unfolding collect_set
  uses-Holds [] a s i h = h
  uses-Holds (interns w ∷ us) a s i h = uses-Holds us a _ i (intern_other a w s h)
  uses-Holds (collects count ∷ us) a s i h =
      uses-Holds us a _ i.1 (retain-find count a a.value s.entries i.0 h)

  Holds-intern : (a : Arc A) (s : ArcSet A) → Holds a s → (intern eq a.value s).0 ≡ a
  unfolding intern
  Holds-intern a s h = rw h refl

  -- Interning gives an equal value, and as long as its allocation is in use at every collection, interning
  -- the value again gives the same allocation, whatever is interned and collected in between.
  pub intern-shared :
      (v : A) (us : List (Use A)) (s : ArcSet A)
      → InUse (intern eq v s).0 us
      → ((intern eq v s).0.value ≡ v)
        × ((intern eq v (uses us (intern eq v s).1)).0 ≡ (intern eq v s).0)
  intern-shared v us s i =
      let (is, h) = intern-Holds v s in
      let a = (intern eq v s).0 in
      let later = uses us (intern eq v s).1 in
      (
        is,
        ap (λ v. (intern eq v later).0) (sym is)
            ∙ Holds-intern a later (uses-Holds us a (intern eq v s).1 i h),
      )
