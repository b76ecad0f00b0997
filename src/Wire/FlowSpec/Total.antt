-- ===== src/Wire/FlowSpec/Total.antt =====
-- How the decoders of FlowSpec rules end.
use bgp_flowspec_receiver.Prelude.{
  ℕ, zero, suc, ◌<◌, ◌≤◌, ◌||◌, List, [], String, arith, ltb, ◌==◌, length, Bool-cases, inl, inr,
}
use bgp_flowspec_receiver.Wire.Result.{
  Ensures, Settles, returns, Ensures-bind, Ensures-map_err, Ensures-weaken,
}
use bgp_flowspec_receiver.Wire.Cursor.{take-Splits}
use bgp_flowspec_receiver.Wire.Cursor.Reads.{u8_at-Took}
use bgp_flowspec_receiver.Wire.Cursor.Loop.{Advances, while_bytes-Ensures, collect-Ensures}
use bgp_flowspec_receiver.Wire.Prefix.Total.{parse_prefix-Ensures}
use bgp_flowspec_receiver.Wire.FlowSpec.{
  Rule, operator_of, operator_loop, operators, component_value, component, components, rule_length,
  flowspec_rule, flowspec,
}

-- What is left is shorter than `n`.
abbrev pub Below {ℓ} : {A : Type ℓ} → ℕ → A × List ℕ → Type 0
Below n r = length r.1 < n

operator_loop-Below :
    (fuel kind : ℕ) (values : List String) (bytes : List ℕ)
    → length bytes < fuel
    → Ensures (Below fuel) (operator_loop fuel kind values bytes)
unfolding operator_loop
operator_loop-Below zero kind values bytes h = elim h [ ]
operator_loop-Below (suc fuel) kind values bytes h = Ensures-bind _ (u8_at-Took bytes) λ b t.
    Ensures-bind _ (take-Splits b.1 (operator_of kind b.0).len) λ r s.
      elim (Bool-cases (operator_of kind b.0).end) [
        | inl last ↦ rw last (returns _ (omega (arith, t, s.left)))
        | inr more ↦ rw more (
            Ensures-weaken (λ _ below. omega arith)
              (operator_loop-Below fuel kind _ r.1 (omega (arith, t, s.left))))
      ]

operators-Below :
    (kind : ℕ) (bytes : List ℕ) → Ensures (λ r. length r.1 ≤ length bytes) (operators kind bytes)
unfolding operators
operators-Below kind bytes =
    Ensures-weaken (λ r h. omega arith)
      (operator_loop-Below (suc (length bytes)) kind [] bytes (omega arith))

component_value-Below :
    (kind afi : ℕ) (bytes : List ℕ)
    → Ensures (λ r. length r.1 ≤ length bytes) (component_value kind afi bytes)
unfolding component_value
component_value-Below kind afi bytes = elim (Bool-cases (kind == 1 || kind == 2)) [
  | inl prefix ↦ rw prefix (
      Ensures-bind _ (Ensures-map_err _ (parse_prefix-Ensures bytes 0 afi))
        λ p _. Ensures-bind _ (take-Splits bytes p.1) λ r s. returns _ (omega (arith, s.left)))
  | inr numeric ↦ rw numeric (Ensures-bind _ (operators-Below kind bytes) λ r h. returns _ h)
]

abbrev Any : Rule → Type 0
Any r = Unit

component-Advances :
    (afi : ℕ) (rule : Rule) (bytes : List ℕ)
    → 0 < length bytes
    → Any rule
    → Ensures (Advances Any bytes) (component afi rule bytes)
unfolding component
component-Advances afi rule bytes h _ = Ensures-bind _ (u8_at-Took bytes) λ b t.
    Ensures-bind _ (component_value-Below b.0 afi b.1) λ r s. returns _ (tt, omega (arith, t, s))

components-Settles : (bytes : List ℕ) (afi : ℕ) → Settles (components bytes afi)
unfolding components
components-Settles bytes afi =
    while_bytes-Ensures Any (component afi) (component-Advances afi) [] bytes tt

rule_length-Below :
    (first : ℕ) (bytes : List ℕ)
    → Ensures (λ r. length r.1 ≤ length bytes) (rule_length first bytes)
unfolding rule_length
rule_length-Below first bytes = elim (Bool-cases (ltb first 240)) [
  | inl short ↦ rw short (returns _ (omega arith))
  | inr long ↦ rw long (Ensures-bind _ (u8_at-Took bytes) λ b t. returns _ (omega (arith, t)))
]

flowspec_rule-Advances :
    (afi : ℕ) (bytes : List ℕ)
    → 0 < length bytes
    → Ensures (Advances Any bytes) (flowspec_rule afi bytes)
unfolding flowspec_rule
flowspec_rule-Advances afi bytes h = Ensures-bind _ (u8_at-Took bytes) λ b t.
    Ensures-bind _ (rule_length-Below b.0 b.1) λ n u. Ensures-bind _ (take-Splits n.1 n.0) λ r s.
      Ensures-bind _ (components-Settles r.0 afi)
        λ rule _. returns _ (tt, omega (arith, t, u, s.left))

-- Whatever the bytes, the rules of a FlowSpec family are decoded or refused.
pub flowspec-Settles : (bytes : List ℕ) (afi : ℕ) → Settles (flowspec bytes afi)
unfolding flowspec
flowspec-Settles bytes afi =
    Ensures-weaken (λ _ _. tt)
      (collect-Ensures Any (flowspec_rule afi) (flowspec_rule-Advances afi) bytes)
