-- ===== src/Wire/FlowSpec/RoundTrip.antt =====
-- FlowSpec NLRI as it is framed: `flowspec` on rules behind their lengths.
use bgp_flowspec_receiver.Prelude.{
  ℕ, ◌+◌, ◌/◌, ◌%◌, ◌<◌, ◌≤◌, ◌≡◌, refl, ap, true, List, ◌∷◌, ◌++◌, map, concat, All, arith, ltb,
  ◌==◌, ==_iff, length, le→ltb, ltb→le, bit_and, bit_or_byte, all_below_sound, if◌then◌else◌,
  Bool-cases, inl, inr,
}
use bgp_flowspec_receiver.Wire.Result.{ok}
use bgp_flowspec_receiver.Wire.Cursor.{take_front}
use bgp_flowspec_receiver.Wire.Cursor.Reads.{u8_at-cons}
use bgp_flowspec_receiver.Wire.Cursor.Loop.{collect_inverts}
use bgp_flowspec_receiver.Wire.FlowSpec.{Rule, components, rule_length, flowspec_rule, flowspec}

-- The length of a rule: one byte below 240, else two bytes that begin with 1111.
abbrev pub frame : List ℕ → List ℕ
frame raw =
    if ltb (length raw) 240
    then length raw ∷ raw
    else (240 + length raw / 256) ∷ length raw % 256 ∷ raw

low_nibble : (h : ℕ) → h < 16 → bit_and (240 + h) 15 ≡ h
low_nibble h lt = (==_iff _ h).0 (all_below_sound 16 (λ h. bit_and (240 + h) 15 == h) h refl lt)

rule_length-long :
    (n : ℕ) (rest : List ℕ)
    → n < 4096
    → 240 ≤ n
    → rule_length (240 + n / 256) (n % 256 ∷ rest) ≡ ok (n, rest)
unfolding rule_length
rule_length-long n rest h g =
    rw
      (
        le→ltb (240 + n / 256) 240 (omega arith),
        u8_at-cons (n % 256) rest,
        low_nibble (n / 256) (omega arith),
        bit_or_byte (n / 256) (n % 256) (omega arith),
      )
      (ap (λ m. ok (m, rest)) (omega arith))

rule_length-short : (n : ℕ) (rest : List ℕ) → ltb n 240 ≡ true → rule_length n rest ≡ ok (n, rest)
unfolding rule_length
rule_length-short n rest h = rw h

-- The bytes of a rule, with the rule that they decode to.
pub record Framed : Type 0 where
  pub raw : List ℕ
  pub rule : Rule

pub record IsFramed (afi : ℕ) (f : Framed) : Type 0 where
  pub decodes : components f.raw afi ≡ ok f.rule
  pub fits : length f.raw < 4096

flowspec_rule-frame :
    (afi : ℕ) (f : Framed) (rest : List ℕ)
    → IsFramed afi f
    → flowspec_rule afi (frame f.raw ++ rest) ≡ ok (f.rule, rest)
unfolding flowspec_rule
flowspec_rule-frame afi f rest w = elim (Bool-cases (ltb (length f.raw) 240)) [
  | inl short ↦ rw (
    short,
    u8_at-cons (length f.raw) (f.raw ++ rest),
    rule_length-short (length f.raw) (f.raw ++ rest) short,
    take_front f.raw rest refl,
    w.decodes,
  )
  | inr long ↦ rw (
    long,
    u8_at-cons (240 + length f.raw / 256) (length f.raw % 256 ∷ (f.raw ++ rest)),
    rule_length-long (length f.raw) (f.raw ++ rest) w.fits (ltb→le _ _ long),
    take_front f.raw rest refl,
    w.decodes,
  )
]

frame-pos : (raw : List ℕ) → 0 < length (frame raw)
frame-pos raw = ground arith

-- A field that holds the rules of one family, one behind the other, each framed by its length below
-- 4096, is decoded to the rules in that order.
pub flowspec_frames :
    (afi : ℕ) (fs : List Framed)
    → All (IsFramed afi) fs
    → flowspec (concat (map (λ f. frame f.raw) fs)) afi ≡ ok (map (λ f. f.rule) fs)
unfolding flowspec
flowspec_frames afi fs w =
    collect_inverts (IsFramed afi) (λ f. frame f.raw) (λ f. f.rule) (flowspec_rule afi)
      (λ f. frame-pos f.raw) (flowspec_rule-frame afi) fs w
