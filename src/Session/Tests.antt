-- ===== src/Session/Tests.antt =====
-- The theorems about the session at the default configuration between two speakers.
use bgp_flowspec_receiver.Prelude.{
  List, length, ℕ, ◌≡◌, ◌↔◌, inr, refl, false, min, String, Option, none, some, str_eq,
  if◌then◌else◌, [], ◌∷◌, ◌++◌, map, drop, arith, ◌*◌, ◌^◌, ◌<◌, ◌≤◌, format,
}
use bgp_flowspec_receiver.Wire.Result.{Result, ok, err, Ensures, returns, refuses, Settles}
use bgp_flowspec_receiver.Wire.Address.{Ipv4Addr}
use bgp_flowspec_receiver.Wire.Message.{build_open}
use bgp_flowspec_receiver.Rib.{empty}
use bgp_flowspec_receiver.Rib.Apply.{Identity}
use bgp_flowspec_receiver.Rib.Reachable.{Reachable, started}
use bgp_flowspec_receiver.Session.Runs.{Visit, run_visits}
use bgp_flowspec_receiver.Session.Runs.Cleared.{run_visits-Ensures}
use bgp_flowspec_receiver.Session.Config.{Config, finite, validate, IsValid}
use bgp_flowspec_receiver.Json.{
  natural, Json, number, string, object, Members, end, member, get_member,
}
use bgp_flowspec_receiver.Session.Framing.{read_messages}
use bgp_flowspec_receiver.Session.Framing.Stream.{stream, read_messages-stream}
use bgp_flowspec_receiver.Session.Value.{from_value}
use bgp_flowspec_receiver.Session.Value.Resolved.{Read, from_value-Read}
use bgp_flowspec_receiver.Session.Valid.{validate_iff}
use bgp_flowspec_receiver.Session.Connection.{
  Connection, connect, frame, hold_timer, keepalive_timer, step, run_events,
}
use bgp_flowspec_receiver.Session.Connection.Invariant.{Sound, connect-Sound}
use bgp_flowspec_receiver.Session.Connection.Steps.{run_events-Ensures}
use bgp_flowspec_receiver.Session.Connection.Behaviour.{step-rib, silence-expires, handshake-up}

abbrev address : Ipv4Addr
address = record { a = 192; b = 0; c = 2; d = 1 }

abbrev config : Config
config = record {
  local_as = 64512;
  router_id = address;
  peer_ip = address;
  peer_as = 65536;
  hold_time = 90;
  reconnect_delay = finite false 0;
  connect_timeout = finite false (5 * 2 ^ 1074);
  active_retry_delay = finite false (2 ^ 1074);
  listen_port = 179;
  json_output = none;
}

abbrev digest : String → String → String → Identity → String
digest family afi peer identity = format (family ∷ afi ∷ peer ∷ [])

abbrev clock : ℕ → String
clock now = "12:00"

validate_iff_example : (validate config ≡ ok tt) ↔ IsValid config
validate_iff_example = validate_iff config

-- Data that no session has changed yet.
abbrev fresh : Connection
fresh = connect config 0 empty

fresh-Sound : Sound digest config fresh
unfolding empty
fresh-Sound = connect-Sound digest config 0 empty (inr (omega arith)) started refl

empty_routes : empty.routes ≡ []
unfolding empty
empty_routes = refl

run_events-Ensures_example : Ensures (Sound digest config) (
    run_events digest clock config
      ((frame 1 [], 1) ∷ (hold_timer, 9) ∷ [])
      (connect config 0 empty))
run_events-Ensures_example =
    run_events-Ensures digest clock config ((frame 1 [], 1) ∷ (hold_timer, 9) ∷ []) 0 empty
      (inr (omega arith)) started empty_routes

fresh-early : fresh.established ≡ false
unfolding connect
fresh-early = refl

step-rib_example :
    Ensures (λ c'. c'.rib ≡ fresh.rib) (step digest clock config (frame 4 []) 1 fresh)
    × (step digest clock config (frame 2 (0 ∷ 0 ∷ 0 ∷ 0 ∷ [])) 1 fresh
        ≡ err "Unexpected BGP message 2")
step-rib_example =
    step-rib digest clock config (frame 4 []) (0 ∷ 0 ∷ 0 ∷ 0 ∷ []) 1 fresh fresh-early

fresh-hold : 0 < fresh.hold
unfolding connect
fresh-hold = omega arith

fresh-deadline : fresh.deadline ≤ 90
unfolding connect
fresh-deadline = omega arith

silence-expires_example :
    run_events digest clock config
      (map (λ t. (keepalive_timer, t)) (30 ∷ 60 ∷ []) ++ (hold_timer, 90) ∷ (frame 4 [], 91) ∷ [])
      fresh
    ≡ err "Hold timer expired"
silence-expires_example =
    silence-expires digest clock config (30 ∷ 60 ∷ []) 90 ((frame 4 [], 91) ∷ []) fresh fresh-hold
      fresh-deadline

handshake-up_example :
    (c : Connection) × (run_events digest clock config
        ((frame 1 (drop 19 (build_open 65536 30 address)), 1) ∷ (frame 4 [], 2) ∷ [])
        (connect config 0 empty)
      ≡ ok c)
    × (c.state ≡ "ESTABLISHED")
    × (c.hold ≡ min 90 30)
    × (c.asn_len ≡ 4)
    × (c.rib ≡ empty)
handshake-up_example =
    handshake-up digest clock config 30 address 0 1 2 empty (omega arith) (omega arith)
      (inr (omega arith))

abbrev two_visits : List Visit
two_visits =
    record {
      start = 0;
      events =
          (frame 1 (drop 19 (build_open 65536 30 address)), 1)
          ∷ (frame 4 [], 2)
          ∷ (frame 3 (6 ∷ 2 ∷ []), 3)
          ∷ [];
      end = 4;
    }
    ∷ record { start = 9; events = (hold_timer, 99) ∷ []; end = 99 }
    ∷ []

run_visits-Ensures_example :
    Ensures
      (λ after. Reachable digest after × (after.routes ≡ []))
      (run_visits digest clock config two_visits empty)
run_visits-Ensures_example =
    run_visits-Ensures digest clock config two_visits empty (inr (omega arith)) started empty_routes

-- The reading of serde on one of the fields.
abbrev with_local_as : Option Json → Result String Config
with_local_as (some (number (natural n))) = ok (record config { local_as = n })
with_local_as none = err "missing field `local_as`"
with_local_as v = err "invalid type"

abbrev deserialize : Members → Result String Config
deserialize m = with_local_as (get_member "local_as" m)

with_local_as-Settles : (v : Option Json) → Settles (with_local_as v)
with_local_as-Settles (some (number (natural n))) = returns _ tt
with_local_as-Settles v = refuses _

abbrev parse : String → Option Json
parse s = if str_eq s "64512" then some (number (natural 64512)) else none

abbrev posted : Json
posted = object (member "json_output" (string "") (member "local_as" (string "64512") end))

from_value-Read_example :
    Ensures (Read parse deserialize posted) (from_value parse deserialize posted)
from_value-Read_example =
    from_value-Read parse deserialize posted (λ m. with_local_as-Settles (get_member "local_as" m))

abbrev frames : List (ℕ × List ℕ)
frames = (2, 0 ∷ 0 ∷ 0 ∷ 0 ∷ []) ∷ (4, []) ∷ []

read_messages-stream_example :
    read_messages (length frames) (stream frames (255 ∷ [])) ≡ ok (frames, 255 ∷ [])
read_messages-stream_example =
    read_messages-stream frames (255 ∷ []) (omega arith, (omega arith, tt))
