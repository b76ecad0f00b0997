-- ===== src/Session/Connection.antt =====
-- `connected` of session.rs, and how `run` ends a connection. The socket and the clock give the events:
-- a message that has been read, a deadline that has passed, or a read or write that failed. The
-- events of the history are left out here. Times are seconds.

pub mod Invariant
pub mod Steps
pub mod Behaviour
use mathlib.Core.Option
use bgp_flowspec_receiver.Prelude.{
  ℕ, ◌+◌, ◌*◌, ◌/◌, min, max, Bool, true, false, ◌&&◌, not, String, Option, none, some, List, [],
  ◌∷◌, ◌++◌, ltb, leb, ◌==◌, decimal, format, if◌then◌else◌,
}
use bgp_flowspec_receiver.Wire.Result.{Result, ok, err, fault, panic, refuse_if, ◌>>=◌, ◌>>◌}
use bgp_flowspec_receiver.Wire.Address.{ipv4_text, octets}
use bgp_flowspec_receiver.Wire.Message.{OpenInfo, open_message, message, build_open}
use bgp_flowspec_receiver.Wire.Update.{update}
use bgp_flowspec_receiver.Rib
use bgp_flowspec_receiver.Rib.{Data}
use bgp_flowspec_receiver.Rib.Apply.{Row, Identity, apply_update}
use bgp_flowspec_receiver.Session.Config.{Config}

-- The variables of `connected`, what it shares through `App`, and the messages that it has written.
pub record Connection : Type 0 where
  pub hold : ℕ
  pub received_open : Bool
  pub established : Bool
  pub asn_len : ℕ
  pub deadline : ℕ
  pub next_keepalive : ℕ
  pub state : String
  pub peer_info : Option OpenInfo
  pub rib : Data
  pub written : List (List ℕ)

abbrev year : ℕ
year = 86400 * 365

abbrev pub keepalive_interval : ℕ → ℕ
keepalive_interval hold = max (hold / 3) 1

-- What comes before the loop, on the data of the program.
unfoldable pub connect : Config → ℕ → Data → Connection
unfolding build_open
connect config now rib = record {
  hold = config.hold_time;
  received_open = false;
  established = false;
  asn_len = 2;
  deadline = now + (if config.hold_time == 0 then year else config.hold_time);
  next_keepalive = now + year;
  state = "OPEN_SENT";
  peer_info = none;
  rib = rib;
  written = build_open config.local_as config.hold_time config.router_id ∷ [];
}

pub data Event : Type 0 where
  frame : ℕ → List ℕ → Event
  hold_timer : Event
  keepalive_timer : Event
  failed : String → Event

-- What an accepted OPEN leaves.
unfoldable pub opened : OpenInfo → ℕ → Connection → Connection
unfolding message
opened info now c =
    let hold = min c.hold info.hold_time in
    record c {
      hold = hold;
      asn_len = if info.supports_4byte_asn then 4 else c.asn_len;
      peer_info = some info;
      written = c.written ++ message 4 [] ∷ [];
      received_open = true;
      state = "OPEN_CONFIRMED";
      next_keepalive = now + keepalive_interval hold;
    }

-- The first arm of the `match`.
unfoldable pub on_open : Config → List ℕ → ℕ → Connection → Result String Connection
unfolding open_message opened
on_open config body now c = do
  info ← open_message body
  refuse_if (not (info.peer_as == config.peer_as)) "Peer ASN mismatch"
  ok (opened info now c)

abbrev pub on_keepalive : Connection → Connection
on_keepalive c = if c.established then c else record c { established = true; state = "ESTABLISHED" }

abbrev pub is_empty : List ℕ → Bool
is_empty [] = true
is_empty (b ∷ bytes) = false

abbrev byte_or_zero : List ℕ → String
byte_or_zero [] = "0"
byte_or_zero (b ∷ bytes) = decimal b

abbrev rest_of : List ℕ → List ℕ
rest_of [] = []
rest_of (b ∷ bytes) = bytes

-- What `apply_update` leaves, a panic of it included.
abbrev pub stored : Connection → Option (Data × List Row × List Row) → Result String Connection
stored c none = fault panic
stored c (some out) = ok (record c { rib = out.0 })

-- `if hold > 0 { deadline = .. }`
abbrev pub extend : ℕ → Connection → Connection
extend now c = record c { deadline = if ltb 0 c.hold then now + c.hold else c.deadline }

module _ (digest : String → String → String → Identity → String) (time : ℕ → String) where
  unfoldable pub on_update : Config → List ℕ → ℕ → Connection → Result String Connection
  unfolding update apply_update
  on_update config body now c = do
    u ← update body c.asn_len
    stored c (apply_update digest u (ipv4_text (octets config.peer_ip)) (time now) now c.rib)

  -- The `match` on the kind of a message.
  unfoldable pub on_frame : Config → ℕ → List ℕ → ℕ → Connection → Result String Connection
  unfolding on_open on_update
  on_frame config kind body now c =
      if kind == 1 && not c.received_open
      then on_open config body now c
      else if kind == 4 && (c.received_open && is_empty body)
      then ok (on_keepalive c)
      else if kind == 2 && c.established
      then on_update config body now c
      else if kind == 3
      then err (
          format ("BGP NOTIFICATION " ∷ byte_or_zero body ∷ "/" ∷ byte_or_zero (rest_of body) ∷ []))
      else err (format ("Unexpected BGP message " ∷ decimal kind ∷ []))

  -- One event. A timer whose branch is disabled or whose time has not come does nothing.
  unfoldable pub step : Config → Event → ℕ → Connection → Result String Connection
  unfolding on_frame message
  step config (frame kind body) now c = do c ← on_frame config kind body now c; ok (extend now c)
  step config hold_timer now c =
      if ltb 0 c.hold && leb c.deadline now then err "Hold timer expired" else ok c
  step config keepalive_timer now c =
      if c.received_open && (ltb 0 c.hold && leb c.next_keepalive now)
      then ok (record c {
        written = c.written ++ message 4 [] ∷ [];
        next_keepalive = now + keepalive_interval c.hold;
      })
      else ok c
  step config (failed e) now c = err e

  -- The loop, over the events and their times.
  unfoldable pub run_events : Config → List (Event × ℕ) → Connection → Result String Connection
  unfolding step
  run_events config [] c = ok c
  run_events config ((event, now) ∷ events) c = do
    c ← step config event now c
    run_events config events c
