-- ===== src/Wire/Cursor/Reads.antt =====
-- The readers of one and two bytes: how they end and how much they take.
use bgp_flowspec_receiver.Prelude.{
  ℕ, suc, ◌+◌, ◌<◌, ◌≡◌, refl, List, ◌∷◌, arith, length, le→ltb, ◌-◌, ◌≤◌, take, drop, length-take,
  length-drop, ==_iff,
}
use bgp_flowspec_receiver.Wire.Result.{ok, Ensures, returns, Ensures-bind, Ensures-weaken, Settles}
use bgp_flowspec_receiver.Wire.Cursor.{
  byte_at, slice_to, slice_from, array_of, minus, u8_at, u16_at, take-Splits, byte_at-Ensures,
}

pub byte_at-Settles :
    {E : Type 0} (bytes : List ℕ) (i : ℕ) → i < length bytes → Settles (byte_at {E = E} bytes i)
byte_at-Settles bytes i h = Ensures-weaken (λ b e. tt) (byte_at-Ensures bytes i h)

-- `n` bytes were taken.
abbrev pub Took {ℓ} : {A : Type ℓ} → ℕ → List ℕ → A × List ℕ → Type 0
Took n bytes r = length r.1 + n ≡ length bytes

pub u8_at-Took : (bytes : List ℕ) → Ensures (Took 1 bytes) (u8_at bytes)
unfolding u8_at
u8_at-Took bytes =
    Ensures-bind _ (take-Splits bytes 1)
      λ r s. Ensures-bind _ (byte_at-Settles r.0 0 (omega (arith, s.size))) λ b _. returns _ s.left

pub u16_at-Took : (bytes : List ℕ) → Ensures (Took 2 bytes) (u16_at bytes)
unfolding u16_at
u16_at-Took bytes = Ensures-bind _ (take-Splits bytes 2) λ r s.
    Ensures-bind _ (byte_at-Settles r.0 0 (omega (arith, s.size))) λ hi _.
      Ensures-bind _ (byte_at-Settles r.0 1 (omega (arith, s.size))) λ lo _. returns _ s.left

pub u8_at-cons : (b : ℕ) (bytes : List ℕ) → u8_at (b ∷ bytes) ≡ ok (b, bytes)
unfolding u8_at
u8_at-cons b bytes = rw (le→ltb (suc (length bytes)) 1 (omega arith))

pub slice_to-Ensures :
    {E : Type 0} (bytes : List ℕ) (n : ℕ)
    → n ≤ length bytes
    → Ensures (λ xs. length xs ≡ n) (slice_to {E = E} bytes n)
unfolding slice_to
slice_to-Ensures bytes n h =
    rw (le→ltb (length bytes) n h) (returns (take n bytes) (length-take n bytes h))

pub slice_from-Ensures :
    {E : Type 0} (bytes : List ℕ) (n : ℕ)
    → n ≤ length bytes
    → Ensures (λ xs. length xs + n ≡ length bytes) (slice_from {E = E} bytes n)
unfolding slice_from
slice_from-Ensures bytes n h =
    rw (le→ltb (length bytes) n h) (returns (drop n bytes) (omega (arith, length-drop n bytes, h)))

pub array_of-Settles :
    {E : Type 0} (n : ℕ) (bytes : List ℕ) → length bytes ≡ n → Settles (array_of {E = E} n bytes)
unfolding array_of
array_of-Settles n bytes h = rw ((==_iff (length bytes) n).1 h) (returns bytes tt)

pub minus-Ensures : {E : Type 0} (a b : ℕ) → b ≤ a → Ensures (λ c. c ≡ a - b) (minus {E = E} a b)
unfolding minus
minus-Ensures a b h = rw (le→ltb a b h) (returns (a - b) refl)
