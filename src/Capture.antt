-- ===== src/Capture.antt =====
-- capture.rs: `flush`, which finds the BGP message in the bytes of a packet and writes a line about it.
-- `Lines` has the reading of tcpdump's output.
pub mod Lines
pub mod Finds
mod Tests
use bgp_flowspec_receiver.Prelude.{
  ℕ, zero, suc, ◌<◌, ◌≤◌, ◌≡◌, Bool, true, false, ◌&&◌, String, Option, none, some, List, [], ◌∷◌,
  ◌++◌, length, take, list_eq, get_elem?, ltb, ◌==◌, decimal, format, if◌then◌else◌,
}
use bgp_flowspec_receiver.Wire.Message.{marker}

-- The name of a message type.
abbrev pub type_name : ℕ → Option String
type_name kind =
    if kind == 1
    then some "OPEN"
    else if kind == 2
    then some "UPDATE"
    else if kind == 3
    then some "NOTIFICATION"
    else if kind == 4
    then some "KEEPALIVE"
    else none

abbrev name_of : Option ℕ → Option String
name_of none = none
name_of (some kind) = type_name kind

-- A window of 19 bytes: a marker, and the type as its last byte.
unfoldable pub window_type : List ℕ → Option String
window_type w = if list_eq (take 16 w) marker then name_of (get_elem? w 18) else none

-- `bytes.windows(19).find_map(..)`: the first window that gives a type.
unfoldable pub bgp_type : List ℕ → Option String
unfolding window_type
bgp_type [] = none
bgp_type (b ∷ bytes) =
    let rest = bgp_type bytes in
    if ltb (length (b ∷ bytes)) 19
    then none
    else elim (window_type (take 19 (b ∷ bytes))) [ none ↦ rest | some name ↦ some name ]

-- The fields of the event about a packet.
pub record Packet : Type 0 where
  pub flags : String
  pub src : String
  pub direction : String
  pub dst : String
  pub length : ℕ
  pub tcp_event : Option String

abbrev suffix : Option String → String
suffix none = ""
suffix (some name) = format (" BGP " ∷ name ∷ [])

-- The message that `flush` emits, with the type that it adds to the packet.
unfoldable pub flush : Packet → List ℕ → String × Option String
unfolding bgp_type decimal
flush p bytes =
    let kind = bgp_type bytes in
    (
      format (
          "["
          ∷ p.flags
          ∷ "] "
          ∷ p.src
          ∷ " "
          ∷ p.direction
          ∷ " "
          ∷ p.dst
          ∷ " len="
          ∷ decimal p.length
          ∷ suffix kind
          ∷ []),
      kind,
    )
