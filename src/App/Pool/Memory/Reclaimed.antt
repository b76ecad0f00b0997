-- ===== src/App/Pool/Memory/Reclaimed.antt =====
-- What `reclaim_memory` leaves of the pool, whatever has happened before.
use mathlib.Core.Path.{subst}
use bgp_flowspec_receiver.Prelude.{
  ℕ, ◌<◌, ◌≡◌, ◌↔◌, inl, inr, refl, sym, ap, String, List, [], ◌∷◌, ltb, ◌==◌, ==_iff, str_eq,
  list_eq, Bool-cases, All, arith,
}
use bgp_flowspec_receiver.App.Pool.{
  Arc, ArcSet, Pool, retain, collect_set, intern_as_path, intern_communities, intern_str, texts_eq,
  collect,
}
use bgp_flowspec_receiver.App.Pool.Memory.{
  handles, strong_count, Held, reclaim_memory, default_pool,
}
use bgp_flowspec_receiver.App.Pool.Memory.Tidy.{
  In, All-In, All-of, All-weaken, Other, One, Named, Apart, Tidy, moved-Tidy, intern-Tidy,
  collect_set-Tidy,
}

module _ {A : Type 0} where
  handles-none : (n : ℕ) (arcs : List (Arc A)) → All (Other n) arcs → handles n arcs ≡ 0
  handles-none n [] h = refl
  handles-none n (a ∷ arcs) h = elim (Bool-cases (a.address == n)) [
    | inl y ↦ absurd (h.0 ((==_iff a.address n).0 y))
    | inr m ↦ rw m (handles-none n arcs h.1)
  ]

  handles-entry :
      (a : Arc A) (entries : List (Arc A))
      → Apart entries
      → In a entries
      → handles a.address entries ≡ 1
  handles-entry a [] h i = elim i [ ]
  handles-entry a (b ∷ entries) h (inl e) =
      let at : b.address ≡ a.address = ap (λ (a : Arc A). a.address) (sym e) in
      let others : All (Other a.address) entries = subst (λ n. All (Other n) entries) at h.0 in
      ground (arith, at, handles-none a.address entries others)
  handles-entry a (b ∷ entries) h (inr i) =
      ground (arith, All-In (Other b.address) a entries h.0 i, handles-entry a entries h.1 i)

  handles-In : (a : Arc A) (held : List (Arc A)) → In a held → 0 < handles a.address held
  handles-In a [] i = elim i [ ]
  handles-In a (b ∷ held) (inl e) =
      let at : b.address ≡ a.address = ap (λ (a : Arc A). a.address) (sym e) in ground (arith, at)
  handles-In a (b ∷ held) (inr i) = ground (arith, handles-In a held i)

  In-handles :
      (a : Arc A) (held : List (Arc A))
      → All (λ (b : Arc A). One b a) held
      → 0 < handles a.address held
      → In a held
  In-handles a [] h lt = absurd (omega (arith, lt))
  In-handles a (b ∷ held) h lt = elim (Bool-cases (b.address == a.address)) [
    | inl y ↦ inl (sym (h.0 ((==_iff b.address a.address).0 y)))
    | inr n ↦ inr (In-handles a held h.1 (ground (arith, n, lt)))
  ]

  retain-In :
      (count : Arc A → ℕ) (a : Arc A) (entries : List (Arc A))
      → In a (retain count entries) ↔ (In a entries × (1 < count a))
  retain-In count a [] = (λ i. elim i [ ], λ i. elim i.0 [ ])
  retain-In count a (b ∷ entries) =
      let rest = retain-In count a entries in
      elim (Bool-cases (ltb 1 (count b))) [
        | inl y ↦ rw y (
          λ i. elim i [
            | inl e ↦ (inl e, rw e (ground (arith, y)))
            | inr i ↦ (inr (rest.0 i).0, (rest.0 i).1)
          ],
          λ (i, used). elim i [ inl e ↦ inl e | inr i ↦ inr (rest.1 (i, used)) ],
        )
        | inr n ↦ rw n (
          λ i. (inr (rest.0 i).0, (rest.0 i).1),
          λ (i, used). elim i [
            | inl e ↦
                let same : count a ≡ count b = ap count e in absurd (ground (arith, n, used, same))
            | inr i ↦ rest.1 (i, used)
          ],
        )
      ]

  -- Of a set, collecting keeps the entries that have a handle outside.
  collected-In :
      (s : ArcSet A) (held : List (Arc A)) (a : Arc A)
      → Tidy s held
      → In a (collect_set (strong_count held s) s).entries ↔ (In a s.entries × In a held)
  unfolding collect_set
  collected-In s held a t =
      let kept = retain-In (strong_count held s) a s.entries in
      (
        λ i.
            let (stored, used) = kept.0 i in
            let once = handles-entry a s.entries t.apart stored in
            let ones : All (λ (b : Arc A). One b a) held =
              All-weaken (Named s.entries) (λ b. One b a) held
                (λ b named. All-In (One b) a s.entries named stored) t.named in
            (stored, In-handles a held ones (omega (arith, used, once))),
        λ (stored, i).
            let once = handles-entry a s.entries t.apart stored in
            kept.1 (stored, omega (arith, once, handles-In a held i)),
      )

abbrev pub no_pool : Pool
no_pool = record {
  as_path = record { entries = []; next = 0 };
  communities = record { entries = []; next = 0 };
  strings = record { entries = []; next = 0 };
}

abbrev pub no_handles : Held
no_handles = record { as_path = []; communities = []; strings = [] }

-- What the program does with the pool and with handles: an UPDATE interns, the users clone and drop
-- handles, the memory is reclaimed, and `Data::clear` drops the pool.
pub data Reached : Pool → Held → Type 0 where
  starts : Reached no_pool no_handles
  interns_path :
      (v : List ℕ) {p : Pool} {h : Held}
      → Reached p h
      → Reached (intern_as_path v p).1 (record h { as_path = (intern_as_path v p).0 ∷ h.as_path })
  interns_communities :
      (v : List String) {p : Pool} {h : Held}
      → Reached p h
      → Reached
          (intern_communities v p).1
          (record h { communities = (intern_communities v p).0 ∷ h.communities })
  interns_text :
      (v : String) {p : Pool} {h : Held}
      → Reached p h
      → Reached (intern_str v p).1 (record h { strings = (intern_str v p).0 ∷ h.strings })
  moves :
      (h' : Held) {p : Pool} {h : Held}
      → Reached p h
      → All (λ a. In a h.as_path) h'.as_path
      → All (λ a. In a h.communities) h'.communities
      → All (λ a. In a h.strings) h'.strings
      → Reached p h'
  reclaims : {p : Pool} {h : Held} → Reached p h → Reached (reclaim_memory h p) h
  drops : {p : Pool} {h : Held} → Reached p h → Reached (default_pool p) h

-- The three sets are tidy.
abbrev pub AllTidy : Pool → Held → Type 0
AllTidy p h = Tidy p.as_path h.as_path × Tidy p.communities h.communities × Tidy p.strings h.strings

empty-Tidy :
    {A : Type 0} (s : ArcSet A) (held : List (Arc A))
    → Tidy s held
    → Tidy (record { entries = []; next = s.next }) held
empty-Tidy s held t = record {
  apart = tt;
  stored = tt;
  made = t.made;
  named = All-of (Named []) held (λ a i. tt);
}

fresh_Tidy : {A : Type 0} → Tidy {A = A} (record { entries = []; next = 0 }) []
fresh_Tidy = record { apart = tt; stored = tt; made = tt; named = tt }

Reached-AllTidy : {p : Pool} {h : Held} → Reached p h → AllTidy p h
unfolding intern_as_path intern_communities intern_str reclaim_memory collect default_pool
Reached-AllTidy starts = (fresh_Tidy, fresh_Tidy, fresh_Tidy)
Reached-AllTidy (interns_path v {p} {h} r) =
    let (a, c, s) = Reached-AllTidy r in (intern-Tidy list_eq v p.as_path h.as_path a, c, s)
Reached-AllTidy (interns_communities v {p} {h} r) =
    let (a, c, s) = Reached-AllTidy r in
    (a, intern-Tidy texts_eq v p.communities h.communities c, s)
Reached-AllTidy (interns_text v {p} {h} r) =
    let (a, c, s) = Reached-AllTidy r in (a, c, intern-Tidy str_eq v p.strings h.strings s)
Reached-AllTidy (moves h' {p} {h} r x y z) =
    let (a, c, s) = Reached-AllTidy r in
    (
      moved-Tidy p.as_path h.as_path h'.as_path x a,
      moved-Tidy p.communities h.communities h'.communities y c,
      moved-Tidy p.strings h.strings h'.strings z s,
    )
Reached-AllTidy (reclaims {p} {h} r) =
    let (a, c, s) = Reached-AllTidy r in
    (
      collect_set-Tidy (strong_count h.as_path p.as_path) p.as_path h.as_path a,
      collect_set-Tidy (strong_count h.communities p.communities) p.communities h.communities c,
      collect_set-Tidy (strong_count h.strings p.strings) p.strings h.strings s,
    )
Reached-AllTidy (drops {p} {h} r) =
    let (a, c, s) = Reached-AllTidy r in
    (
      empty-Tidy p.as_path h.as_path a,
      empty-Tidy p.communities h.communities c,
      empty-Tidy p.strings h.strings s,
    )

-- The entries are those of before that have a handle outside.
abbrev pub Exact : {A : Type 0} → ArcSet A → List (Arc A) → ArcSet A → Type 0
Exact {A} s held after = (a : Arc A) → In a after.entries ↔ (In a s.entries × In a held)

-- Whatever has been interned, cloned, dropped and collected since the start, `reclaim_memory` leaves in
-- each of the three sets exactly the entries whose allocation a route or a clone still has: none that
-- is in use is lost, and none that is not stays.
pub reclaim_memory-Exact :
    {p : Pool} {h : Held}
    → Reached p h
    → let after = reclaim_memory h p in
      Exact p.as_path h.as_path after.as_path
      × Exact p.communities h.communities after.communities
      × Exact p.strings h.strings after.strings
unfolding reclaim_memory collect
reclaim_memory-Exact {p} {h} r =
    let (a, c, s) = Reached-AllTidy r in
    (
      λ arc. collected-In p.as_path h.as_path arc a,
      λ arc. collected-In p.communities h.communities arc c,
      λ arc. collected-In p.strings h.strings arc s,
    )
