-- ===== src/Capture/Finds.antt =====
-- `bgp_type` on packets that hold what `message` of wire.rs writes.
use bgp_flowspec_receiver.Prelude.{
  ℕ, suc, ◌≤◌, ◌≡◌, ◌≢◌, refl, ◌∙◌, String, none, some, List, [], ◌∷◌, ◌++◌, All, arith, length,
  length-append, take,
}
use bgp_flowspec_receiver.Wire.Message.{message}
use bgp_flowspec_receiver.Capture.{type_name, window_type, bgp_type}

length-message : (kind : ℕ) (body : List ℕ) → 19 ≤ length (message kind body)
unfolding message
length-message kind body = omega arith

window-first :
    (bytes : List ℕ) (name : String)
    → 19 ≤ length bytes
    → window_type (take 19 bytes) ≡ some name
    → bgp_type bytes ≡ some name
unfolding bgp_type
window-first [] name long e = absurd (omega arith)
window-first (b ∷ bytes) name long e = ground (arith, e)

message-window_type :
    (kind : ℕ) (body : List ℕ) → window_type (take 19 (message kind body)) ≡ type_name kind
unfolding message window_type
message-window_type kind body = refl

message-bgp_type :
    (kind : ℕ) (body : List ℕ) (name : String)
    → type_name kind ≡ some name
    → bgp_type (message kind body) ≡ some name
message-bgp_type kind body name e =
    window-first (message kind body) name (length-message kind body)
      (message-window_type kind body ∙ e)

other_window : (b : ℕ) (bytes : List ℕ) → b ≢ 255 → window_type (take 19 (b ∷ bytes)) ≡ none
unfolding window_type
other_window b bytes ne = ground arith

window-later :
    (b : ℕ) (bytes : List ℕ) (name : String)
    → 19 ≤ suc (length bytes)
    → window_type (take 19 (b ∷ bytes)) ≡ none
    → bgp_type bytes ≡ some name
    → bgp_type (b ∷ bytes) ≡ some name
unfolding bgp_type
window-later b bytes name long e rest = ground (arith, e, rest)

-- In the bytes of a packet where no byte before the message is 255, `flush` finds the message that
-- `message` writes, and its type if it is one of the four that have a name.
pub message-found :
    (before : List ℕ) (kind : ℕ) (body : List ℕ) (name : String)
    → All (λ b. b ≢ 255) before
    → type_name kind ≡ some name
    → bgp_type (before ++ message kind body) ≡ some name
message-found [] kind body name h e = message-bgp_type kind body name e
message-found (b ∷ before) kind body name h e =
    window-later b (before ++ message kind body) name
      (omega (arith, length-message kind body, length-append before (message kind body)))
      (other_window b (before ++ message kind body) h.0) (message-found before kind body name h.1 e)
