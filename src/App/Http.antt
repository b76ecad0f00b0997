-- ===== src/App/Http.antt =====
-- The table of `router` in app.rs, the handlers of POST /session/start and of the stream's snapshot. axum's
-- refusal of a body that is no JSON is its text; the JSON of the statistics and of the peer's data, and
-- the time as text, are parameters.
pub mod Requests
mod Tests
use bgp_flowspec_receiver.Prelude.{
  ℕ, Bool, true, false, String, Option, none, some, List, [], ◌∷◌, str_eq, if◌then◌else◌,
}
use bgp_flowspec_receiver.Wire.Result.{Result, ok, err, fault}
use bgp_flowspec_receiver.Wire.Message.{OpenInfo}
use bgp_flowspec_receiver.Rib.{Route, Data}
use bgp_flowspec_receiver.Rib.Apply.{Identity}
use bgp_flowspec_receiver.Session.Config.{Config}
use bgp_flowspec_receiver.Session.Value.{from_value}
use bgp_flowspec_receiver.Json.{Json, null, flag, string, object, Members, end, insert_member}
use bgp_flowspec_receiver.App.State.{App, Note}
use bgp_flowspec_receiver.App.Machine.{Label, asks, to_start, World, act}

pub data Method : Type 0 where
  get post delete : Method

pub data Handler : Type 0 where
  page start_session stop_session routes export search events health clear_log start_capture
        stop_capture :
      Handler

abbrev on_method : Method → Method → Handler → Option Handler
on_method get get h = some h
on_method post post h = some h
on_method delete delete h = some h
on_method m n h = none

-- A path that is not there, and a method that a path does not have, have no handler.
unfoldable pub router : Method → String → Option Handler
router m path =
    if str_eq path "/"
    then on_method get m page
    else if str_eq path "/session/start"
    then on_method post m start_session
    else if str_eq path "/session/stop"
    then on_method post m stop_session
    else if str_eq path "/routes"
    then on_method get m routes
    else if str_eq path "/routes/export"
    then on_method get m export
    else if str_eq path "/routes/search"
    then on_method get m search
    else if str_eq path "/events"
    then on_method get m events
    else if str_eq path "/health"
    then on_method get m health
    else if str_eq path "/log"
    then on_method delete m clear_log
    else if str_eq path "/capture/start"
    then on_method post m start_capture
    else if str_eq path "/capture/stop"
    then on_method post m stop_capture
    else none

-- `bad`: the status and the error.
abbrev pub bad : String → ℕ × String
bad message = (400, message)

module _ (config_json : Config → Members) (peer_json : OpenInfo → Json) (stats_json : Data → Json)
    (now_text : ℕ → String) where
  abbrev config_members : Option Config → Members
  config_members none = end
  config_members (some c) = config_json c

  abbrev peer_value : Option OpenInfo → Json
  peer_value none = object end
  peer_value (some info) = peer_json info

  -- The status of `snapshot`.
  unfoldable pub status : App → Members
  unfolding insert_member
  status app = insert_member "capture_running" (flag app.capturing) (
      insert_member "peer_info" (peer_value app.peer_info) (
        insert_member "state" (string app.state)
          (insert_member "running" (flag app.running) (config_members app.config))))

  unfoldable pub snapshot : ℕ → App → Json
  unfolding status insert_member
  snapshot now app = object (
      insert_member "ts" (string (now_text now)) (
        insert_member "type" (string "snapshot") (
          insert_member "level" (string "info") (
            insert_member "message" (string "snapshot") (
              insert_member "status" (object (status app))
                (insert_member "stats" (stats_json app.rib) end))))))

module _ (digest : String → String → String → Identity → String) (time : ℕ → String)
    (text_of : ℕ → Note → List ℕ) (to_json : Route → String) (config_json : Config → Members)
    (parse : String → Option Json) (deserialize : Members → Result String Config) where
  -- What a request for a session does before it waits for the tasks: the program, or none with a panic, and an
  -- error that is answered at once. The lock is free.
  abbrev pub requested : World → Result String Config → Option World × Option (ℕ × String)
  requested w (err m) = (some w, some (bad m))
  requested w (fault f) = (none, none)
  requested w (ok config) =
      (act digest time text_of to_json config_json (asks (to_start config)) w, none)

  unfoldable pub start_request : Result String Json → World → Option World × Option (ℕ × String)
  unfolding from_value act
  start_request (err m) w = (some w, some (bad m))
  start_request (fault f) w = (none, none)
  start_request (ok body) w = requested w (from_value parse deserialize body)
