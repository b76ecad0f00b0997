-- ===== src/Session/Framing/Stream.antt =====
-- A stream of messages that `message` writes.
use bgp_flowspec_receiver.Prelude.{
  ℕ, ◌≤◌, ◌≡◌, refl, sym, ap, ◌∙◌, false, List, [], ◌∷◌, ◌++◌, length, take, drop, ltb, All, arith,
  length-append, take-append, drop-append,
}
use mathlib.Core.List.{append_assoc}
use bgp_flowspec_receiver.Wire.Result.{ok}
use bgp_flowspec_receiver.Wire.Message.{header, message}
use bgp_flowspec_receiver.Wire.Message.Frames.{header-message}
use bgp_flowspec_receiver.Session.Framing.{read_exact, read_message, read_messages}

-- The bytes of messages.
abbrev pub stream : List (ℕ × List ℕ) → List ℕ → List ℕ
stream [] rest = rest
stream ((kind, body) ∷ frames) rest = message kind body ++ stream frames rest

read_exact-append : (n : ℕ) (xs ys : List ℕ) → length xs ≡ n → read_exact n (xs ++ ys) ≡ ok (xs, ys)
read_exact-append n xs ys e =
    let enough : ltb (length (xs ++ ys)) n ≡ false = ground (arith, length-append xs ys) in
    let front : take n (xs ++ ys) ≡ xs = ap (λ n. take n (xs ++ ys)) (sym e) ∙ take-append xs ys in
    let back : drop n (xs ++ ys) ≡ ys = ap (λ n. drop n (xs ++ ys)) (sym e) ∙ drop-append xs ys in
    rw (enough, front, back) refl

-- The header of a message, and its body behind it.
header_part : (kind : ℕ) (body : List ℕ) → message kind body ≡ take 19 (message kind body) ++ body
unfolding message
header_part kind body = refl

header_length : (kind : ℕ) (body : List ℕ) → length (take 19 (message kind body)) ≡ 19
unfolding message
header_length kind body = refl

message_parts :
    (kind : ℕ) (body rest : List ℕ)
    → message kind body ++ rest ≡ take 19 (message kind body) ++ (body ++ rest)
message_parts kind body rest =
    ap (λ bytes. bytes ++ rest) (header_part kind body)
    ∙ append_assoc (take 19 (message kind body)) body rest

read_message-message :
    (kind : ℕ) (body rest : List ℕ)
    → length body ≤ 4077
    → read_message (message kind body ++ rest) ≡ ok ((kind, body), rest)
unfolding read_message
read_message-message kind body rest h =
    let head = take 19 (message kind body) in
    let split : read_exact 19 (message kind body ++ rest) ≡ ok (head, body ++ rest) =
      ap (read_exact 19) (message_parts kind body rest)
      ∙ read_exact-append 19 head (body ++ rest) (header_length kind body) in
    let info : header head ≡ ok (kind, length body) = header-message kind body h in
    let last : read_exact (length body) (body ++ rest) ≡ ok (body, rest) =
      read_exact-append (length body) body rest refl in
    rw (split, info, last) refl

-- From the bytes of messages with bodies of at most 4077 bytes, one after another, `read_message` reads them
-- back in order, each with its kind and body, and leaves the bytes behind the last one, whatever they are.
pub read_messages-stream :
    (frames : List (ℕ × List ℕ)) (rest : List ℕ)
    → All (λ f. length f.1 ≤ 4077) frames
    → read_messages (length frames) (stream frames rest) ≡ ok (frames, rest)
unfolding read_messages
read_messages-stream [] rest h = refl
read_messages-stream ((kind, body) ∷ frames) rest h =
    rw
      (
        read_message-message kind body (stream frames rest) h.0,
        read_messages-stream frames rest h.1,
      )
      refl
