-- ===== src/Prelude/Texts.antt =====
-- How Rust's formatting writes numbers, and the operations on texts that the program uses.
use Prim.Native.Nat.{ℕ, zero, suc, ◌/◌, ◌%◌}
use Prim.Native.Char.{Char}
use Prim.Native.String.{String, char_at, ◌++◌}
use mathlib.Core.Path.{◌≡◌, refl}
use mathlib.Core.List.{List}
use mathlib.Core.Option
use mathlib.Core.Option.{Option, none, some}
use bgp_flowspec_receiver.Prelude.Tests.{ltb, str_eq, if◌then◌else◌}

-- `format!`, the literal and the substituted parts in order
abbrev pub format : List String → String
format List.[] = ""
format (List.◌∷◌ s parts) = s ++ format parts

-- `parts.join(separator)`
abbrev pub join : String → List String → String
join separator List.[] = ""
join separator (List.◌∷◌ s List.[]) = s
join separator (List.◌∷◌ s (List.◌∷◌ t parts)) = s ++ separator ++ join separator (List.◌∷◌ t parts)

abbrev pub hex_digit : ℕ → Char
hex_digit d = char_at "0123456789abcdef" d

-- The digits of `n` in `base`, before those of `text`. Each round divides by `base`, so a fuel of
-- `n + 1` is never used up for a base of 2 at least.
digits_loop : ℕ → ℕ → ℕ → String → String
digits_loop zero base n text = text
digits_loop (suc fuel) base n text =
    let text' = String.◌∷◌ (hex_digit (n % base)) text in
    let more = digits_loop fuel base (n / base) text' in if ltb n base then text' else more

-- `{}` and `{:x}` of an unsigned number
unfoldable pub decimal : ℕ → String
unfolding digits_loop
decimal n = digits_loop (suc n) 10 n ""

unfoldable pub hex : ℕ → String
unfolding digits_loop
hex n = digits_loop (suc n) 16 n ""

-- `{:04x}` of a number of 16 bits
unfoldable pub hex4 : ℕ → String
hex4 n = String.◌∷◌ (hex_digit (n / 4096)) (
    String.◌∷◌ (hex_digit (n / 256 % 16))
      (String.◌∷◌ (hex_digit (n / 16 % 16)) (String.◌∷◌ (hex_digit (n % 16)) "")))

-- `s.strip_suffix(suffix)`
unfoldable pub strip_suffix : String → String → Option String
strip_suffix String.[] suffix = if str_eq "" suffix then some "" else none
strip_suffix (String.◌∷◌ c s) suffix =
    let rest = Option.map (String.◌∷◌ c) (strip_suffix s suffix) in
    if str_eq (String.◌∷◌ c s) suffix then some "" else rest

texts_run :
    List.◌∷◌ (decimal 4200000000) (List.◌∷◌ (hex 255) List.[])
    ≡ List.◌∷◌ "4200000000" (List.◌∷◌ "ff" List.[])
unfolding decimal hex
texts_run = refl

strip_suffix_run : strip_suffix "ec=80(x)" "(x)" ≡ some "ec=80"
unfolding strip_suffix
strip_suffix_run = refl
