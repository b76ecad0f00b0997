-- ===== src/Wire/Cursor/Loop.antt =====
-- `while !data.is_empty() { ... }`: every decoder of wire.rs walks its slice by such a loop. A round
-- that takes a byte at least leaves enough fuel for the rest, so the length of the slice suffices.
use mathlib.Core.List.{foldl, append_assoc, append-nil}
use bgp_flowspec_receiver.Prelude.{
  ℕ, zero, suc, ◌≤◌, ◌<◌, ◌≡◌, refl, ◌∙◌, sym, ap, List, [], ◌∷◌, ◌++◌, map, arith, length, concat,
  All, length-append, All-append,
}
use bgp_flowspec_receiver.Wire.Result.{
  ok, fault, out_of_fuel, ◌>>=◌, Ensures, returns, Ensures-bind,
}
use bgp_flowspec_receiver.Wire.Cursor.{Wire}

abbrev pub Body : Type 0 → Type 0
Body S = S → List ℕ → Wire (S × List ℕ)

module _ {S : Type 0} where
  rounds : Body S → ℕ → S → List ℕ → Wire S
  rounds body fuel s [] = ok s
  rounds body zero s (b ∷ bytes) = fault out_of_fuel
  rounds body (suc fuel) s (b ∷ bytes) = do
    (s', rest) ← body s (b ∷ bytes)
    rounds body fuel s' rest

  unfoldable pub while_bytes : Body S → S → List ℕ → Wire S
  unfolding rounds
  while_bytes body s bytes = rounds body (length bytes) s bytes

  -- A round that keeps `P` and takes a byte at least.
  abbrev pub Advances : (S → Type 0) → List ℕ → S × List ℕ → Type 0
  Advances P bytes r = P r.0 × (length r.1 < length bytes)

  module _ (P : S → Type 0) (body : Body S)
      (keep : (s : S) (bytes : List ℕ)
        → 0 < length bytes
        → P s
        → Ensures (Advances P bytes) (body s bytes)) where
    rounds-Ensures :
        (fuel : ℕ) (s : S) (bytes : List ℕ)
        → length bytes ≤ fuel
        → P s
        → Ensures P (rounds body fuel s bytes)
    unfolding rounds
    rounds-Ensures fuel s [] h p = returns s p
    rounds-Ensures zero s (b ∷ bytes) h p = absurd (omega arith)
    rounds-Ensures (suc fuel) s (b ∷ bytes) h p =
        Ensures-bind _ (keep s (b ∷ bytes) (omega arith) p)
          λ r q. rounds-Ensures fuel r.0 r.1 (omega arith) q.0

    pub while_bytes-Ensures : (s : S) (bytes : List ℕ) → P s → Ensures P (while_bytes body s bytes)
    unfolding while_bytes
    while_bytes-Ensures s bytes p = rounds-Ensures (length bytes) s bytes (omega arith) p

  rounds_step :
      (body : Body S) (fuel : ℕ) {s s' : S} (bytes : List ℕ) {rest : List ℕ}
      → body s bytes ≡ ok (s', rest)
      → 0 < length bytes
      → rounds body (suc fuel) s bytes ≡ rounds body fuel s' rest
  unfolding rounds
  rounds_step body fuel [] e h = absurd (omega arith)
  rounds_step body fuel (b ∷ bytes) e h = rw e

  -- A slice that is a sequence of encoded items is read item by item.
  module _ {A : Type 0} (Q : A → Type 0) (encode : A → List ℕ) (step : S → A → S) (body : Body S)
      (some_byte : (a : A) → 0 < length (encode a))
      (reads : (s : S) (a : A) (rest : List ℕ)
        → Q a
        → body s (encode a ++ rest) ≡ ok (step s a, rest)) where
    rounds_read :
        (items : List A) (fuel : ℕ) (s : S)
        → All Q items
        → length (concat (map encode items)) ≤ fuel
        → rounds body fuel s (concat (map encode items)) ≡ ok (foldl step s items)
    unfolding rounds
    rounds_read [] fuel s q h = refl
    rounds_read (a ∷ items) zero s q h =
        absurd (omega (arith, some_byte a, length-append (encode a) (concat (map encode items))))
    rounds_read (a ∷ items) (suc fuel) s q h =
        rounds_step body fuel (encode a ++ concat (map encode items)) (reads s a _ q.0)
          (omega (arith, some_byte a, length-append (encode a) (concat (map encode items))))
        ∙ rounds_read items fuel (step s a) q.1
            (omega (arith, some_byte a, length-append (encode a) (concat (map encode items))))

    pub while_bytes_read :
        (items : List A) (s : S)
        → All Q items
        → while_bytes body s (concat (map encode items)) ≡ ok (foldl step s items)
    unfolding while_bytes
    while_bytes_read items s q =
        rounds_read items (length (concat (map encode items))) s q (omega arith)

-- A loop that pushes what each round reads onto a vector.
pushing : {A : Type 0} → (List ℕ → Wire (A × List ℕ)) → Body (List A)
pushing item out bytes = do (a, rest) ← item bytes; ok (out ++ a ∷ [], rest)

unfoldable pub collect : {A : Type 0} → (List ℕ → Wire (A × List ℕ)) → List ℕ → Wire (List A)
unfolding pushing while_bytes
collect item bytes = while_bytes (pushing item) [] bytes

module _ {A : Type 0} (P : A → Type 0) (item : List ℕ → Wire (A × List ℕ))
    (keep : (bytes : List ℕ) → 0 < length bytes → Ensures (Advances P bytes) (item bytes)) where
  pushing-Ensures :
      (out : List A) (bytes : List ℕ)
      → 0 < length bytes
      → All P out
      → Ensures (Advances (All P) bytes) (pushing item out bytes)
  unfolding pushing
  pushing-Ensures out bytes h p =
      Ensures-bind _ (keep bytes h) λ r q. returns _ (All-append P out (r.0 ∷ []) p (q.0, tt), q.1)

  -- The loop settles, and every item that it pushed has the property.
  pub collect-Ensures : (bytes : List ℕ) → Ensures (All P) (collect item bytes)
  unfolding collect
  collect-Ensures bytes = while_bytes-Ensures (All P) (pushing item) pushing-Ensures [] bytes tt

module _ {A B : Type 0} (Q : A → Type 0) (encode : A → List ℕ) (read : A → B)
    (item : List ℕ → Wire (B × List ℕ)) (some_byte : (a : A) → 0 < length (encode a))
    (reads : (a : A) (rest : List ℕ) → Q a → item (encode a ++ rest) ≡ ok (read a, rest)) where
  pushed :
      (items : List A) (out : List B)
      → foldl (λ out a. out ++ read a ∷ []) out items ≡ out ++ map read items
  pushed [] out = sym (append-nil out)
  pushed (a ∷ items) out =
      pushed items (out ++ read a ∷ []) ∙ append_assoc out (read a ∷ []) (map read items)

  pub collect_inverts :
      (items : List A)
      → All Q items
      → collect item (concat (map encode items)) ≡ ok (map read items)
  unfolding collect pushing
  collect_inverts items q =
      while_bytes_read Q encode (λ out a. out ++ read a ∷ []) (pushing item) some_byte
        (λ out a rest qa. rw (reads a rest qa)) items [] q
      ∙ ap ok (pushed items [])
