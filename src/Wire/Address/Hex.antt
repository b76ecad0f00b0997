-- ===== src/Wire/Address/Hex.antt =====
-- `hex_encode` with a decoder, and texts of addresses at concrete inputs.
use Prim.Native.Char.{Char, code}
use bgp_flowspec_receiver.Prelude.{
  ℕ, ◌+◌, ◌-◌, ◌*◌, ◌/◌, ◌<◌, ◌≡◌, refl, true, List, [], ◌∷◌, String, map, decimal, hex, bit_and,
  hex_digit, ltb, ◌==◌, ==_iff, if◌then◌else◌, All, IsByte, all_below, all_below_sound,
}
use bgp_flowspec_receiver.Wire.Result.{ok, map_results}
use bgp_flowspec_receiver.Wire.Address.{ipv6_text, hex_encode, next_hop_string}

-- An independent reading of hexadecimal text: two digits to a byte.
abbrev pub digit_value : Char → ℕ
digit_value c = if ltb (code c) 58 then code c - 48 else code c - 87

abbrev pub hex_decode : String → List ℕ
hex_decode (String.◌∷◌ hi (String.◌∷◌ lo text)) =
    (digit_value hi * 16 + digit_value lo) ∷ hex_decode text
hex_decode _ = []

abbrev decoded_byte : ℕ → ℕ
decoded_byte b = digit_value (hex_digit (b / 16)) * 16 + digit_value (hex_digit (bit_and b 0x0f))

decoded_table : all_below 256 (λ b. decoded_byte b == b) ≡ true
decoded_table = refl

decoded_byte_lem : (b : ℕ) → b < 256 → decoded_byte b ≡ b
decoded_byte_lem b h =
    (==_iff _ b).0 (all_below_sound 256 (λ b. decoded_byte b == b) b decoded_table h)

-- Every byte string is read back from its hexadecimal text, so a raw attribute loses nothing.
pub hex_decode-hex_encode :
    (bytes : List ℕ) → All IsByte bytes → hex_decode (hex_encode bytes) ≡ bytes
unfolding hex_encode
hex_decode-hex_encode [] h = refl
hex_decode-hex_encode (b ∷ bytes) h = cc (decoded_byte_lem b h.0, hex_decode-hex_encode bytes h.1)

texts_run :
    map ipv6_text (
      (32 ∷ 1 ∷ 13 ∷ 184 ∷ 0 ∷ 0 ∷ 0 ∷ 0 ∷ 0 ∷ 0 ∷ 0 ∷ 0 ∷ 0 ∷ 0 ∷ 0 ∷ 1 ∷ [])
      ∷ (0 ∷ 0 ∷ 0 ∷ 0 ∷ 0 ∷ 0 ∷ 0 ∷ 0 ∷ 0 ∷ 0 ∷ 0 ∷ 0 ∷ 0 ∷ 0 ∷ 0 ∷ 0 ∷ [])
      ∷ [])
    ≡ "2001:db8::1" ∷ "::" ∷ []
unfolding ipv6_text hex
texts_run = refl

next_hop_run :
    map_results next_hop_string ((192 ∷ 0 ∷ 2 ∷ 1 ∷ []) ∷ (1 ∷ 171 ∷ []) ∷ [])
    ≡ ok ("192.0.2.1" ∷ "01ab" ∷ [])
unfolding next_hop_string decimal
next_hop_run = refl
