-- ===== src/Wire/Community/Single.antt =====
-- `f32` as far as traffic rates use it, exactly: a finite value is a sign and a multiple of 2^-149.
use bgp_flowspec_receiver.Prelude.{
  ℕ, ◌+◌, ◌-◌, ◌*◌, ◌/◌, ◌%◌, ◌^◌, Bool, false, ◌||◌, ◌&&◌, not, String, [], ◌∷◌, ltb, leb, ◌==◌,
  format, decimal, if◌then◌else◌,
}

pub data Float : Type 0 where
  nan : Float
  infinite : Bool → Float
  finite : Bool → ℕ → Float

-- The units in 1.
abbrev pub unit : ℕ
unit = 2 ^ 149

-- `f32::from_bits`: a sign bit, eight bits of exponent, 23 of fraction.
unfoldable pub of_bits : ℕ → Float
of_bits bits =
    let negative = not (bits / 2 ^ 31 == 0) in
    let exponent = bits / 2 ^ 23 % 256 in
    let fraction = bits % 2 ^ 23 in
    if exponent == 255
    then (if fraction == 0 then infinite negative else nan)
    else if exponent == 0
    then finite negative fraction
    else finite negative ((fraction + 2 ^ 23) * 2 ^ (exponent - 1))

-- `x <= 0.0`
unfoldable pub le_zero : Float → Bool
le_zero nan = false
le_zero (infinite negative) = negative
le_zero (finite negative n) = negative || n == 0

-- `x * 8.0`, exact unless it overflows.
unfoldable pub times_eight : Float → Float
times_eight (finite negative n) =
    if leb (2 ^ 128 * unit) (n * 8) then infinite negative else finite negative (n * 8)
times_eight x = x

-- The whole number nearest to `n / unit`, an even one on a tie.
unfoldable pub round_half_even : ℕ → ℕ
round_half_even n =
    let whole = n / unit in
    let twice = n % unit * 2 in
    if ltb unit twice || (twice == unit && not (whole % 2 == 0)) then whole + 1 else whole

-- `{:.0}`
unfoldable pub float_text : Float → String
unfolding round_half_even decimal
float_text nan = "NaN"
float_text (infinite negative) = if negative then "-inf" else "inf"
float_text (finite negative n) =
    format ((if negative then "-" else "") ∷ decimal (round_half_even n) ∷ [])
