-- ===== src/Wire/Cursor.antt =====
-- `take`, `u16_at` and `read_be_int`: reading from the front of a byte slice. The `&mut &[u8]` of the
-- source is a slice that comes in and the rest of it that comes back.

pub mod Loop
pub mod Reads
pub mod Numbers
use bgp_flowspec_receiver.Prelude.{
  ℕ, zero, suc, ◌+◌, ◌-◌, ◌*◌, ◌%◌, ◌^◌, ◌≤◌, ◌<◌, ◌≡◌, refl, Bool, true, false, List, [], ◌∷◌,
  ◌++◌, String, Option, none, some, arith, ltb, ◌==◌, bit_or, length, get_elem?, length-append,
  length-take, length-drop, take-append, drop-append, take-append-drop, if◌then◌else◌, ltb→le,
  Bool-cases, inl, inr, le→ltb,
}
use bgp_flowspec_receiver.Prelude.{take as list_take, drop}
use bgp_flowspec_receiver.Wire.Result.{
  Result, ok, err, fault, panic, ◌>>=◌, ◌>>◌, Ensures, returns, refuses,
}

abbrev pub Wire {ℓ} : Type ℓ → Type ℓ
Wire A = Result String A

-- `take(&mut data, n)`: the first `n` bytes and what is left.
unfoldable pub take : List ℕ → ℕ → Wire (List ℕ × List ℕ)
take bytes n =
    if ltb (length bytes) n then err "Truncated BGP data" else ok (list_take n bytes, drop n bytes)

-- `data[i]`
unfoldable pub byte_at : {E : Type 0} → List ℕ → ℕ → Result E ℕ
byte_at bytes i = elim (get_elem? bytes i) [ none ↦ fault panic | some b ↦ ok b ]

-- `&data[..n]` and `&data[n..]`
unfoldable pub slice_to : {E : Type 0} → List ℕ → ℕ → Result E (List ℕ)
slice_to bytes n = if ltb (length bytes) n then fault panic else ok (list_take n bytes)

unfoldable pub slice_from : {E : Type 0} → List ℕ → ℕ → Result E (List ℕ)
slice_from bytes n = if ltb (length bytes) n then fault panic else ok (drop n bytes)

-- `<[u8; n]>::try_from(data).unwrap()`
unfoldable pub array_of : {E : Type 0} → ℕ → List ℕ → Result E (List ℕ)
array_of n bytes = if length bytes == n then ok bytes else fault panic

-- `a - b` of a usize. Without overflow checks it wraps around, and the slice up to it panics.
unfoldable pub minus : {E : Type 0} → ℕ → ℕ → Result E ℕ
minus a b = if ltb a b then fault panic else ok (a - b)

-- `u16::from_be_bytes([hi, lo])`
abbrev pub be16 : ℕ → ℕ → ℕ
be16 hi lo = hi * 256 + lo

unfoldable pub u16_at : List ℕ → Wire (ℕ × List ℕ)
unfolding take byte_at
u16_at bytes = do
  (raw, rest) ← take bytes 2
  hi ← byte_at raw 0
  lo ← byte_at raw 1
  ok (be16 hi lo, rest)

-- `take(&mut data, 1)?[0]`
unfoldable pub u8_at : List ℕ → Wire (ℕ × List ℕ)
unfolding take byte_at
u8_at bytes = do (raw, rest) ← take bytes 1; b ← byte_at raw 0; ok (b, rest)

-- A u64: the bits that leave it on the left are lost.
be_int_from : ℕ → List ℕ → ℕ
be_int_from val [] = val
be_int_from val (b ∷ bytes) = be_int_from (bit_or (val * 256 % 2 ^ 64) b) bytes

unfoldable pub read_be_int : List ℕ → ℕ
unfolding be_int_from
read_be_int bytes = be_int_from 0 bytes

-- What `take` promises: it splits the slice at `n`.
pub record Splits (bytes : List ℕ) (n : ℕ) (r : List ℕ × List ℕ) : Type 0 where
  pub whole : r.0 ++ r.1 ≡ bytes
  pub size : length r.0 ≡ n
  pub left : length r.1 + n ≡ length bytes

pub take-Splits : (bytes : List ℕ) (n : ℕ) → Ensures (Splits bytes n) (take bytes n)
unfolding take
take-Splits bytes n = elim (Bool-cases (ltb (length bytes) n)) [
  | inl short ↦ rw short (refuses _)
  | inr enough ↦
      let fits : n ≤ length bytes = ltb→le _ _ enough in
      rw enough (
        returns _ (record {
          whole = take-append-drop n bytes;
          size = length-take n bytes fits;
          left = omega (arith, length-drop n bytes);
        }))
]

pub take_front : (xs ys : List ℕ) {n : ℕ} → length xs ≡ n → take (xs ++ ys) n ≡ ok (xs, ys)
unfolding take
take_front xs ys e = rw (
  ← e,
  le→ltb (length (xs ++ ys)) (length xs) (omega (arith, length-append xs ys)),
  take-append xs ys,
  drop-append xs ys,
)

pub byte_at-Ensures :
    {E : Type 0} (bytes : List ℕ) (i : ℕ)
    → i < length bytes
    → Ensures (λ b. get_elem? bytes i ≡ some b) (byte_at {E = E} bytes i)
unfolding byte_at
byte_at-Ensures [] i h = elim h [ ]
byte_at-Ensures (b ∷ bytes) zero h = returns b refl
byte_at-Ensures (b ∷ bytes) (suc i) h = byte_at-Ensures bytes i (omega arith)
