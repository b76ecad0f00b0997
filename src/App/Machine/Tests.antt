-- ===== src/App/Machine/Tests.antt =====
-- The theorems about the tasks: a session is started, comes up, and is stopped while a capture runs.
use bgp_flowspec_receiver.Prelude.{
  ℕ, ◌*◌, ◌^◌, ◌≡◌, refl, true, false, String, none, some, List, [], ◌∷◌, ◌++◌, drop, format,
}
use bgp_flowspec_receiver.Wire.Address.{Ipv4Addr}
use bgp_flowspec_receiver.Wire.Message.{build_open}
use bgp_flowspec_receiver.Rib.{Route}
use bgp_flowspec_receiver.Rib.Apply.{Identity}
use bgp_flowspec_receiver.Session.Config.{Config, finite}
use bgp_flowspec_receiver.Session.Connection.{frame}
use bgp_flowspec_receiver.Json.{Members, end}
use bgp_flowspec_receiver.App.Flush.{done, failed}
use bgp_flowspec_receiver.App.State.{App, Io, Note, new, halt, health}
use bgp_flowspec_receiver.App.Machine.{
  Label, to_stop, to_start, to_capture, asks, session_gone, finishes, capture_ends, attempts,
  connects, receives, interrupts, clears, idles, ends, ticks, boot, run_labels,
}
use bgp_flowspec_receiver.App.Machine.{World, free}
use bgp_flowspec_receiver.App.Machine.Invariant.{Sound}
use bgp_flowspec_receiver.App.Machine.Kept.{Yields, yielded}
use bgp_flowspec_receiver.App.Machine.Stops.{Idle, stopping, stopping-Idle}
use bgp_flowspec_receiver.App.Machine.Sound.{run_labels-Sound}
use bgp_flowspec_receiver.App.Machine.Health.{Answers, run_labels-health}
use bgp_flowspec_receiver.App.Machine.Halt.{Halted, halt-Halted}

abbrev address : Ipv4Addr
address = record { a = 192; b = 0; c = 2; d = 1 }

abbrev config : Config
config = record {
  local_as = 64512;
  router_id = address;
  peer_ip = address;
  peer_as = 65536;
  hold_time = 90;
  reconnect_delay = finite false 0;
  connect_timeout = finite false (5 * 2 ^ 1074);
  active_retry_delay = finite false (2 ^ 1074);
  listen_port = 179;
  json_output = some "routes.json";
}

abbrev digest : String → String → String → Identity → String
digest family afi peer identity = format (family ∷ afi ∷ peer ∷ [])

abbrev clock : ℕ → String
clock now = "12:00"

abbrev text_of : ℕ → Note → List ℕ
text_of now note = 123 ∷ 125 ∷ []

abbrev to_json : Route → String
to_json r = format ("{\"id\":\"" ∷ r.id ∷ "\"}" ∷ [])

abbrev config_json : Config → Members
config_json c = end

abbrev quiet : ℕ → Io
quiet now = record { now = now; outcome = λ i. done; reason = "" }

abbrev coming_up : List Label
coming_up =
    asks (to_start config)
    ∷ session_gone
    ∷ finishes (quiet 1) true
    ∷ attempts 2
    ∷ connects 3
    ∷ receives (frame 1 (drop 19 (build_open 65536 30 address))) 4
    ∷ ticks (quiet 5)
    ∷ receives (frame 4 []) 6
    ∷ []

abbrev going_down : List Label
going_down =
    asks to_capture
    ∷ finishes (quiet 7) true
    ∷ asks to_stop
    ∷ interrupts
    ∷ clears 8
    ∷ idles 8
    ∷ ends (quiet 9)
    ∷ session_gone
    ∷ capture_ends 10
    ∷ finishes (quiet 11) true
    ∷ []

run_labels-Sound_example :
    Yields
      (Sound digest)
      (run_labels digest clock text_of to_json config_json (coming_up ++ going_down) (boot none []))
run_labels-Sound_example =
    run_labels-Sound digest clock text_of to_json config_json (coming_up ++ going_down) none []

run_labels-health_example :
    Yields
      (λ w. Answers (health w.app).0 w.session)
      (run_labels digest clock text_of to_json config_json coming_up (boot none []))
run_labels-health_example =
    run_labels-health digest clock text_of to_json config_json coming_up none []

abbrev full : Io
full = record { now = 3; outcome = λ i. failed 4; reason = "No space left on device" }

abbrev halt_start : App
halt_start = new (some "routes.json") (("routes.json", "{}") ∷ [])

halt_output : halt_start.output ≡ some "routes.json"
unfolding new
halt_output = refl

halt-Halted_example :
    Yields
      (Halted text_of to_json full "routes.json" halt_start)
      (halt text_of to_json full halt_start)
halt-Halted_example = halt-Halted text_of to_json full "routes.json" halt_start halt_output

-- The program with an established session.
abbrev live : World
live = elim (run_labels digest clock text_of to_json config_json coming_up (boot none [])) [
  | none ↦ boot none []
  | some w ↦ w
]

live-Sound : Sound digest live
live-Sound =
    yielded (boot none [])
      (run_labels-Sound digest clock text_of to_json config_json coming_up none [])

live-free : live.stage ≡ free
unfolding run_labels boot
live-free = refl

live-health : (health live.app).0 ≡ 200
unfolding run_labels boot health
live-health = refl

stopping-Idle_example : Yields Idle (
    run_labels digest clock text_of to_json config_json
      (stopping digest clock text_of to_json config_json 7 full)
      live)
stopping-Idle_example =
    stopping-Idle digest clock text_of to_json config_json 7 full live live-Sound live-free
