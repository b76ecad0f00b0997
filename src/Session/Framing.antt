-- ===== src/Session/Framing.antt =====
-- `read_message` of session.rs on the bytes that the peer sends before it closes the connection.
pub mod Stream
use bgp_flowspec_receiver.Prelude.{
  ℕ, zero, suc, String, List, [], ◌∷◌, length, take, drop, ltb, if◌then◌else◌,
}
use bgp_flowspec_receiver.Wire.Result.{Result, ok, err, fault, ◌>>=◌}
use bgp_flowspec_receiver.Wire.Message.{header}

-- `reader.read_exact(..)`: the bytes, and those that are left.
abbrev pub read_exact : ℕ → List ℕ → Result String (List ℕ × List ℕ)
read_exact n bytes =
    if ltb (length bytes) n then err "early eof" else ok (take n bytes, drop n bytes)

-- A message's kind and body, and the bytes that are left.
unfoldable pub read_message : List ℕ → Result String ((ℕ × List ℕ) × List ℕ)
unfolding header
read_message bytes = do
  head ← read_exact 19 bytes
  info ← header head.0
  body ← read_exact info.1 head.1
  ok ((info.0, body.0), body.1)

-- One message after another.
unfoldable pub read_messages : ℕ → List ℕ → Result String (List (ℕ × List ℕ) × List ℕ)
unfolding read_message
read_messages zero bytes = ok ([], bytes)
read_messages (suc n) bytes = do
  first ← read_message bytes
  more ← read_messages n first.1
  ok (first.0 ∷ more.0, more.1)
