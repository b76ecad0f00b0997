-- ===== src/Prelude/Lists.antt =====
-- Lists measured and cut by native numbers, under the library's names; byte strings are such lists.
use Prim.Native.Nat.{◌<◌, ℕ, zero, suc, ◌+◌, ◌-◌, ◌≤◌}
use mathlib.Core.Path.{◌≡◌, refl, ap, sym, ◌∙◌}
use mathlib.Core.List.{List, [], ◌∷◌, ◌++◌, map}
use mathlib.Core.Bool.{Bool, true, false, ◌&&◌}
use mathlib.Core.Option.{Option, none, some}
use bgp_flowspec_receiver.Prelude.Tests.{◌==◌, ltb, lt→ltb, le→ltb, if◌then◌else◌}
use native.Mathlib.Omega.{arith}

module _ {ℓ} {A : Type ℓ} where
  abbrev pub length : List A → ℕ
  length [] = 0
  length (x ∷ xs) = suc (length xs)

  abbrev pub get_elem? : List A → ℕ → Option A
  get_elem? [] i = none
  get_elem? (x ∷ xs) zero = some x
  get_elem? (x ∷ xs) (suc i) = get_elem? xs i

  -- A write out of bounds changes nothing.
  abbrev pub set : List A → ℕ → A → List A
  set [] i v = []
  set (x ∷ xs) zero v = v ∷ xs
  set (x ∷ xs) (suc i) v = x ∷ set xs i v

  abbrev pub take : ℕ → List A → List A
  take zero xs = []
  take (suc n) [] = []
  take (suc n) (x ∷ xs) = x ∷ take n xs

  abbrev pub drop : ℕ → List A → List A
  drop zero xs = xs
  drop (suc n) [] = []
  drop (suc n) (x ∷ xs) = drop n xs

  abbrev pub replicate : ℕ → A → List A
  replicate zero a = []
  replicate (suc n) a = a ∷ replicate n a

  abbrev pub concat : List (List A) → List A
  concat [] = []
  concat (xs ∷ xss) = xs ++ concat xss

  abbrev pub All {κ} : (A → Type κ) → List A → Type κ
  All P [] = Unit {κ}
  All P (x ∷ xs) = P x × All P xs

module _ {ℓ} {A : Type ℓ} where
  pub length-append : (xs ys : List A) → length (xs ++ ys) ≡ length xs + length ys
  length-append [] ys = omega arith
  length-append (x ∷ xs) ys = omega (arith, length-append xs ys)

  pub length-take : (n : ℕ) (xs : List A) → n ≤ length xs → length (take n xs) ≡ n
  length-take zero xs h = refl
  length-take (suc n) [] h = absurd (omega arith)
  length-take (suc n) (x ∷ xs) h = ap suc (length-take n xs (omega arith))

  pub length-drop : (n : ℕ) (xs : List A) → length (drop n xs) ≡ length xs - n
  length-drop zero xs = omega arith
  length-drop (suc n) [] = omega arith
  length-drop (suc n) (x ∷ xs) = omega (arith, length-drop n xs)

  pub drop-beyond : (n : ℕ) (xs : List A) → length xs ≤ n → drop n xs ≡ []
  drop-beyond zero [] h = refl
  drop-beyond zero (x ∷ xs) h = absurd (omega arith)
  drop-beyond (suc n) [] h = refl
  drop-beyond (suc n) (x ∷ xs) h = drop-beyond n xs (omega arith)

  drop_nil : (n : ℕ) → drop {A = A} n [] ≡ []
  drop_nil zero = refl
  drop_nil (suc n) = refl

  pub drop-drop : (a b : ℕ) (xs : List A) → drop b (drop a xs) ≡ drop (a + b) xs
  drop-drop zero b xs = ap (λ n. drop n xs) (omega arith)
  drop-drop (suc a) b [] = drop_nil b ∙ sym (drop_nil (suc a + b))
  drop-drop (suc a) b (x ∷ xs) =
      let shift : suc (a + b) ≡ suc a + b = omega arith in
      drop-drop a b xs ∙ ap (λ n. drop n (x ∷ xs)) shift

  -- A part of the first list is dropped.
  pub drop-append_front :
      (n : ℕ) (xs ys : List A) → n ≤ length xs → drop n (xs ++ ys) ≡ drop n xs ++ ys
  drop-append_front zero xs ys h = refl
  drop-append_front (suc n) [] ys h = absurd (omega arith)
  drop-append_front (suc n) (x ∷ xs) ys h = drop-append_front n xs ys (omega arith)

  pub length-replicate : (n : ℕ) (a : A) → length (replicate n a) ≡ n
  length-replicate zero a = refl
  length-replicate (suc n) a = ap suc (length-replicate n a)

  pub length-map {κ} : {B : Type κ} (f : A → B) (xs : List A) → length (map f xs) ≡ length xs
  length-map f [] = refl
  length-map f (x ∷ xs) = ap suc (length-map f xs)

  pub take-append : (xs ys : List A) → take (length xs) (xs ++ ys) ≡ xs
  take-append [] ys = refl
  take-append (x ∷ xs) ys = ap (λ zs. x ∷ zs) (take-append xs ys)

  pub drop-append : (xs ys : List A) → drop (length xs) (xs ++ ys) ≡ ys
  drop-append [] ys = refl
  drop-append (x ∷ xs) ys = drop-append xs ys

  pub take-append-drop : (n : ℕ) (xs : List A) → take n xs ++ drop n xs ≡ xs
  take-append-drop zero xs = refl
  take-append-drop (suc n) [] = refl
  take-append-drop (suc n) (x ∷ xs) = ap (λ zs. x ∷ zs) (take-append-drop n xs)

  pub All-append {κ} : (P : A → Type κ) (xs ys : List A) → All P xs → All P ys → All P (xs ++ ys)
  All-append P [] ys hx hy = hy
  All-append P (x ∷ xs) ys hx hy = (hx.0, All-append P xs ys hx.1 hy)

  pub All-take {κ} : (P : A → Type κ) (n : ℕ) (xs : List A) → All P xs → All P (take n xs)
  All-take P zero xs h = tt
  All-take P (suc n) [] h = tt
  All-take P (suc n) (x ∷ xs) h = (h.0, All-take P n xs h.1)

  pub All-drop {κ} : (P : A → Type κ) (n : ℕ) (xs : List A) → All P xs → All P (drop n xs)
  All-drop P zero xs h = h
  All-drop P (suc n) [] h = tt
  All-drop P (suc n) (x ∷ xs) h = All-drop P n xs h.1

-- `==` of two byte slices
abbrev pub list_eq : List ℕ → List ℕ → Bool
list_eq [] [] = true
list_eq [] (y ∷ ys) = false
list_eq (x ∷ xs) [] = false
list_eq (x ∷ xs) (y ∷ ys) = x == y && list_eq xs ys

pub list_eq→eq : (xs ys : List ℕ) → list_eq xs ys ≡ true → xs ≡ ys
list_eq→eq [] [] h = refl
list_eq→eq [] (y ∷ ys) h = cc
list_eq→eq (x ∷ xs) [] h = cc
list_eq→eq (x ∷ xs) (y ∷ ys) h = ground (arith, list_eq→eq xs ys)

pub list_eq_self : (xs : List ℕ) → list_eq xs xs ≡ true
list_eq_self [] = refl
list_eq_self (x ∷ xs) = ground (arith, list_eq_self xs)

module _ {ℓ} {A : Type ℓ} where
  abbrev pub get_or : List A → ℕ → A → A
  get_or [] i d = d
  get_or (x ∷ xs) zero d = x
  get_or (x ∷ xs) (suc i) d = get_or xs i d

  -- `xs[i] = f(xs[i])`
  abbrev pub modify : List A → ℕ → (A → A) → List A
  modify [] i f = []
  modify (x ∷ xs) zero f = f x ∷ xs
  modify (x ∷ xs) (suc i) f = x ∷ modify xs i f

  -- `xs.as_chunks::<n>().0`: the whole chunks of `n`; what is left at the end is dropped. The first
  -- argument is fuel: a chunk has an element at least, so the length of the list is enough.
  chunks_loop : ℕ → ℕ → List A → List (List A)
  chunks_loop zero n xs = []
  chunks_loop (suc fuel) n xs =
      let rest = take n xs ∷ chunks_loop fuel n (drop n xs) in
      if ltb (length xs) n then [] else rest

  unfoldable pub chunks : ℕ → List A → List (List A)
  unfolding chunks_loop
  chunks n xs = chunks_loop (length xs) n xs

module _ {ℓ} {A : Type ℓ} where
  chunks_loop-concat :
      (fuel n : ℕ) (xss : List (List A))
      → 0 < n
      → All (λ xs. length xs ≡ n) xss
      → length (concat xss) ≤ fuel
      → chunks_loop fuel n (concat xss) ≡ xss
  unfolding chunks_loop
  chunks_loop-concat zero n [] pos h le = refl
  chunks_loop-concat zero n (xs ∷ xss) pos h le =
      absurd (omega (arith, h.0, length-append xs (concat xss)))
  chunks_loop-concat (suc fuel) n [] pos h le = rw (lt→ltb 0 n pos) refl
  chunks_loop-concat (suc fuel) n (xs ∷ xss) pos h le =
      let size = length-append xs (concat xss) in
      let front : take n (xs ++ concat xss) ≡ xs =
        ap (λ k. take k (xs ++ concat xss)) (sym h.0) ∙ take-append xs (concat xss) in
      let back : drop n (xs ++ concat xss) ≡ concat xss =
        ap (λ k. drop k (xs ++ concat xss)) (sym h.0) ∙ drop-append xs (concat xss) in
      rw (le→ltb (length (xs ++ concat xss)) n (omega (arith, h.0, size)), front, back)
        (ap (λ rest. xs ∷ rest) (chunks_loop-concat fuel n xss pos h.1 (omega (arith, h.0, size))))

  -- Chunks of one size are found again.
  pub chunks-concat :
      (n : ℕ) (xss : List (List A))
      → 0 < n
      → All (λ xs. length xs ≡ n) xss
      → chunks n (concat xss) ≡ xss
  unfolding chunks
  chunks-concat n xss pos h = chunks_loop-concat (length (concat xss)) n xss pos h (omega arith)
