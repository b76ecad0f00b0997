-- ===== src/Wire/Result.antt =====
-- `Result` of wire.rs, with a third outcome for what ends neither in `Ok` nor in `Err`: a panic (an
-- index or a slice out of range, an `unwrap`), or a loop of the model whose fuel ran out.
use mathlib.Core.Path.{subst}
use bgp_flowspec_receiver.Prelude.{◌≡◌, refl, Bool, true, false, List, [], ◌∷◌}

pub data Fault : Type 0 where
  panic out_of_fuel : Fault

pub data Result {ℓ} (E : Type 0) (A : Type ℓ) : Type ℓ where
  ok : A → Result E A
  err : E → Result E A
  fault : Fault → Result E A

infixl 10 ◌>>=◌ ◌>>◌
abbrev pub ◌>>=◌ {ℓ κ} :
    {E : Type 0} {A : Type ℓ} {B : Type κ} → Result E A → (A → Result E B) → Result E B
ok a >>= f = f a
err e >>= f = err e
fault x >>= f = fault x

abbrev pub ◌>>◌ {ℓ κ} :
    {E : Type 0} {A : Type ℓ} {B : Type κ} → Result E A → Result E B → Result E B
m >> k = m >>= λ _. k

-- `if bad { return Err(e) }`
abbrev pub refuse_if : {E : Type 0} → Bool → E → Result E (Unit {0})
refuse_if true e = err e
refuse_if false e = ok tt

-- `r.map_err(|_| e)`
abbrev pub map_err {ℓ} : {D E : Type 0} {A : Type ℓ} → Result D A → E → Result E A
map_err (ok a) e = ok a
map_err (err d) e = err e
map_err (fault x) e = fault x

-- The results of a list, or the first that is none: `iter().map(..).collect()` of calls that may panic.
abbrev pub map_results {ℓ κ} :
    {E : Type 0} {A : Type ℓ} {B : Type κ} → (A → Result E B) → List A → Result E (List B)
map_results f [] = ok []
map_results f (x ∷ xs) = do b ← f x; bs ← map_results f xs; ok (b ∷ bs)

-- The computation ends without a fault, and a value that it returns has the property `P`.
pub data Ensures {ℓ κ} {E : Type 0} {A : Type ℓ} (P : A → Type κ) : Result E A → Type (ℓ ⊔ κ) where
  returns : (a : A) → P a → Ensures P (ok a)
  refuses : (e : E) → Ensures P (err e)

-- The computation ends in `Ok` or `Err`, whatever the value.
abbrev pub Settles {ℓ} : {E : Type 0} {A : Type ℓ} → Result E A → Type ℓ
Settles r = Ensures (λ _. Unit {0}) r

module _ {ℓ κ} {E : Type 0} {A : Type ℓ} {B : Type κ} where
  pub Ensures-bind {ι μ} :
      {P : A → Type ι} {Q : B → Type μ} {m : Result E A} (f : A → Result E B)
      → Ensures P m
      → ((a : A) → P a → Ensures Q (f a))
      → Ensures Q (m >>= f)
  Ensures-bind f (returns a p) k = k a p
  Ensures-bind f (refuses e) k = refuses e

module _ {ℓ} {E : Type 0} {A : Type ℓ} where
  pub Ensures-weaken {ι μ} :
      {P : A → Type ι} {Q : A → Type μ} {m : Result E A}
      → ((a : A) → P a → Q a)
      → Ensures P m
      → Ensures Q m
  Ensures-weaken k (returns a p) = returns a (k a p)
  Ensures-weaken k (refuses e) = refuses e

  pub Ensures-map_err {ι} :
      {D : Type 0} {P : A → Type ι} {m : Result D A} (e : E) → Ensures P m → Ensures P (map_err m e)
  Ensures-map_err e (returns a p) = returns a p
  Ensures-map_err e (refuses d) = refuses e

  -- A returned value has the property that is ensured.
  pub ensured {ι} : {P : A → Type ι} {m : Result E A} → Ensures P m → (a : A) → m ≡ ok a → P a
  ensured {P = P} (returns b p) a e = subst P (cc) p
  ensured (refuses d) a e = cc

pub map_results-Settles :
    {E A B : Type 0} (f : A → Result E B)
    → ((a : A) → Settles (f a))
    → (xs : List A) → Settles (map_results f xs)
map_results-Settles f s [] = returns [] tt
map_results-Settles f s (x ∷ xs) =
    Ensures-bind _ (s x) λ b _. Ensures-bind _ (map_results-Settles f s xs) λ bs _. returns _ tt

pub Ensures-refuse_if : {E : Type 0} (b : Bool) (e : E) → Ensures (λ _. b ≡ false) (refuse_if b e)
Ensures-refuse_if true e = refuses e
Ensures-refuse_if false e = returns tt refl

pub >>=_assoc {ℓ κ μ} :
    {E : Type 0} {A : Type ℓ} {B : Type κ} {C : Type μ} (m : Result E A) (f : A → Result E B)
    (g : B → Result E C)
    → (m >>= λ a. f a >>= g) ≡ (m >>= f >>= g)
>>=_assoc (ok a) f g = refl
>>=_assoc (err e) f g = refl
>>=_assoc (fault x) f g = refl
