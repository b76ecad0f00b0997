-- ===== src/Wire/FlowSpec/Operators.antt =====
-- The operator bytes of a numeric or bit mask component.
use mathlib.Core.List.{append_assoc}
use bgp_flowspec_receiver.Prelude.{
  ℕ, zero, suc, ◌+◌, ◌*◌, ◌<◌, ◌≤◌, ◌≡◌, refl, ap, sym, ◌∙◌, Bool, true, false, ◌&&◌, List, [], ◌∷◌,
  ◌++◌, map, concat, All, String, str_eq, arith, ◌==◌, length, length-append, bit_and, all_below,
  all_below_sound, if◌then◌else◌, Bool-cases, inl, inr, has_bits,
}
use bgp_flowspec_receiver.Wire.Result.{ok}
use bgp_flowspec_receiver.Wire.Cursor.{take_front, read_be_int}
use bgp_flowspec_receiver.Wire.Cursor.Reads.{u8_at-cons}
use bgp_flowspec_receiver.Wire.FlowSpec.{
  Operator, decode_op, decode_bitmask_op, is_bitmask, operator_of, operator_text, operator_loop,
  operators, value_length,
}

-- An operator byte and the bytes of its value.
pub record Op : Type 0 where
  pub op : ℕ
  pub raw : List ℕ

-- Its value has the length that the byte says, and it ends the list or does not.
pub record IsOp (last : Bool) (o : Op) : Type 0 where
  pub end : has_bits o.op 0x80 ≡ last
  pub sized : length o.raw ≡ value_length o.op

abbrev pub encode : Op → List ℕ
encode o = o.op ∷ o.raw

abbrev pub op_text : ℕ → Op → String
op_text kind o = operator_text kind (operator_of kind o.op).symbol (read_be_int o.raw)

operator_fields :
    (kind op : ℕ)
    → ((operator_of kind op).end ≡ has_bits op 0x80) × ((operator_of kind op).len ≡ value_length op)
unfolding decode_op decode_bitmask_op
operator_fields kind op = elim (Bool-cases (is_bitmask kind)) [
  | inl mask ↦ rw mask (refl, refl)
  | inr numeric ↦ rw numeric (refl, refl)
]

operator_loop_read :
    (fuel kind : ℕ) (values : List String) (os : List Op) (o : Op) (rest : List ℕ)
    → length os < fuel
    → All (IsOp false) os
    → IsOp true o
    → operator_loop fuel kind values (concat (map encode os) ++ (encode o ++ rest))
      ≡ ok (values ++ (map (op_text kind) os ++ op_text kind o ∷ []), rest)
unfolding operator_loop
operator_loop_read zero kind values os o rest h q w = elim h [ ]
operator_loop_read (suc fuel) kind values [] o rest h q w =
    let f = operator_fields kind o.op in
    rw (u8_at-cons o.op (o.raw ++ rest), take_front o.raw rest (w.sized ∙ sym f.1), f.0, w.end)
operator_loop_read (suc fuel) kind values (p ∷ os) o rest h q w =
    let f = operator_fields kind p.op in
    let tail = concat (map encode os) in
    rw
      (
        append_assoc p.raw tail (encode o ++ rest),
        u8_at-cons p.op (p.raw ++ (tail ++ (encode o ++ rest))),
        take_front p.raw (tail ++ (encode o ++ rest)) (q.0.sized ∙ sym f.1),
        f.0,
        q.0.end,
      )
      (operator_loop_read fuel kind (values ++ op_text kind p ∷ []) os o rest (omega arith) q.1 w
        ∙ ap (λ texts. ok (texts, rest))
            (append_assoc values (op_text kind p ∷ [])
              (map (op_text kind) os ++ op_text kind o ∷ [])))

length-le-concat : (os : List Op) → length os ≤ length (concat (map encode os))
length-le-concat [] = omega arith
length-le-concat (p ∷ os) =
    omega (arith, length-le-concat os, length-append p.raw (concat (map encode os)))

-- A list of operators whose last byte alone has the end bit, each with a value of the length that its
-- byte says, is decoded to the operators' texts in that order, and what follows is left.
pub operators_read :
    (kind : ℕ) (os : List Op) (o : Op) (rest : List ℕ)
    → All (IsOp false) os
    → IsOp true o
    → operators kind (concat (map encode os) ++ (encode o ++ rest))
      ≡ ok (map (op_text kind) os ++ op_text kind o ∷ [], rest)
unfolding operators
operators_read kind os o rest q w =
    operator_loop_read (suc (length (concat (map encode os) ++ (encode o ++ rest)))) kind [] os o
      rest
      (omega
        (arith, length-le-concat os, length-append (concat (map encode os)) (encode o ++ rest)))
      q w

-- What an operator byte keeps: its symbol's bits, the length's exponent and the end bit.
abbrev symbol_bits : String → ℕ
symbol_bits s =
    if str_eq s "<>="
    then 7
    else if str_eq s "<>"
    then 6
    else if str_eq s "<="
    then 5
    else if str_eq s "<"
    then 4
    else if str_eq s ">="
    then 3
    else if str_eq s ">"
    then 2
    else if str_eq s "="
    then 1
    else 0

abbrev mask_bits : String → ℕ
mask_bits s =
    if str_eq s "not-all" then 3 else if str_eq s "none" then 2 else if str_eq s "all" then 1 else 0

abbrev exponent : ℕ → ℕ
exponent len = if len == 8 then 3 else if len == 4 then 2 else if len == 2 then 1 else 0

abbrev pub encode_op : Operator → ℕ
encode_op o = (if o.end then 128 else 0) + exponent o.len * 16 + symbol_bits o.symbol

abbrev pub encode_bitmask_op : Operator → ℕ
encode_bitmask_op o = (if o.end then 128 else 0) + exponent o.len * 16 + mask_bits o.symbol

abbrev read_back : ℕ → Bool
read_back op =
    encode_op (decode_op op) == bit_and op 0xb7
    && encode_bitmask_op (decode_bitmask_op op) == bit_and op 0xb3

read_back_table : all_below 256 read_back ≡ true
unfolding decode_op decode_bitmask_op
read_back_table = refl

both_equal : (a b c d : ℕ) → a == b && c == d ≡ true → (a ≡ b) × (c ≡ d)
both_equal a b c d h = ground arith

-- Decoding an operator byte forgets the AND bit (0x40) and the reserved bits and nothing else: the
-- rest of the byte is read back, for numeric operators and for bit masks.
pub encode_op-decode_op :
    (op : ℕ)
    → op < 256
    → (encode_op (decode_op op) ≡ bit_and op 0xb7)
      × (encode_bitmask_op (decode_bitmask_op op) ≡ bit_and op 0xb3)
encode_op-decode_op op h =
    both_equal (encode_op (decode_op op)) (bit_and op 0xb7)
      (encode_bitmask_op (decode_bitmask_op op)) (bit_and op 0xb3)
      (all_below_sound 256 read_back op read_back_table h)
