-- ===== src/App/State.antt =====
-- `App` of app.rs as a value, with what each of its operations does while it holds the lock: `emit`,
-- `set_state`, the parts of `stop` and `start` behind the two waits, the end of `run` in session.rs, a
-- tick of main.rs, and `health`. `sent` is every event that has gone to the broadcast channel, and
-- `disk` the files. The text of an event, which serde_json and the clock give, is the parameter
-- `text_of`. `none` is a panic.
use Prim.Native.String.{◌++◌ as append}
use bgp_flowspec_receiver.Prelude.{
  ℕ, Bool, true, false, ◌&&◌, String, Option, none, some, List, [], ◌∷◌, ◌++◌, str_eq,
  if◌then◌else◌,
}
use bgp_flowspec_receiver.Wire.Address.{ipv4_text, octets}
use bgp_flowspec_receiver.Wire.Message.{OpenInfo}
use bgp_flowspec_receiver.Rib.{Route, Data, empty, clear, ◌>>=◌}
use bgp_flowspec_receiver.History
use bgp_flowspec_receiver.History.{History, clear_history}
use bgp_flowspec_receiver.Session.Config.{Config}
use bgp_flowspec_receiver.Json.{Members, end, member, flag, string, insert_member}
use bgp_flowspec_receiver.App.Flush.{Disk, Outcome, Flushed, flush}

pub record App : Type 0 where
  pub config : Option Config
  pub running : Bool
  pub capturing : Bool
  pub state : String
  pub peer_info : Option OpenInfo
  pub history : History
  pub rib : Data
  pub output : Option String
  pub sent : List (List ℕ)
  pub disk : Disk

-- `App::new`
unfoldable pub new : Option String → Disk → App
unfolding empty
new output disk = record {
  config = none;
  running = false;
  capturing = false;
  state = "IDLE";
  peer_info = none;
  history = record { events = []; bytes = 0 };
  rib = empty;
  output = output;
  sent = [];
  disk = disk;
}

-- What `flush` meets: the time, how its calls end, and the text of its error.
pub record Io : Type 0 where
  pub now : ℕ
  pub outcome : ℕ → Outcome
  pub reason : String

-- The arguments of `emit`.
pub record Note : Type 0 where
  pub kind : String
  pub level : String
  pub message : String
  pub extra : Members

-- The status and the state that `health` answers with.
unfoldable pub health : App → ℕ × String × String
health app =
    if app.running && str_eq app.state "ESTABLISHED"
    then (200, "ok", app.state)
    else (503, "degraded", app.state)

abbrev pub failure : String → Note
failure e = record { kind = "error"; level = "error"; message = e; extra = end }

abbrev pub stopped : Note
stopped = record {
  kind = "session";
  level = "info";
  message = "BGP session stopped";
  extra = member "running" (flag false) (member "state" (string "IDLE") end);
}

module _ (text_of : ℕ → Note → List ℕ) where
  unfoldable pub emit : ℕ → Note → App → Option App
  unfolding History.emit
  emit now note app = do
    let event = text_of now note
    history ← History.emit event app.history
    some (record app { history = history; sent = app.sent ++ event ∷ [] })

  unfoldable pub set_state : ℕ → String → App → Option App
  unfolding emit
  set_state now state app =
      emit now
        (record {
          kind = "session";
          level = "info";
          message = append "State: " state;
          extra = member "running" (flag app.running) (member "state" (string state) end);
        })
        (record app { state = state })

  module _ (to_json : Route → String) where
    -- What `flush` leaves in the program.
    abbrev pub flushed : Flushed → App → App
    flushed r app = record app { rib = r.rib; disk = r.disk }

    abbrev pub report : Io → Bool → App → Option App
    report io true app = some app
    report io false app = emit io.now (failure io.reason) app

    abbrev pub flushing : Bool → Io → App → Flushed
    flushing force io app = flush to_json force app.output io.outcome io.now app.rib app.disk

    -- `if let Err(e) = app.flush(force) { app.emit(..) }`
    unfoldable pub save : Bool → Io → App → Option App
    unfolding flush emit
    save force io app = let r = flushing force io app in report io r.ok (flushed r app)

    -- `stop` behind the waits.
    unfoldable pub halt : Io → App → Option App
    unfolding emit save clear clear_history
    halt io app = do
      app ← emit io.now stopped (record app {
        history = clear_history app.history;
        running = false;
        state = "IDLE";
        peer_info = none;
        rib = clear io.now app.rib;
      })
      save true io app

    -- A round of `persistence`. What `reclaim_memory` gives back is not visible here.
    abbrev pub persist : Io → App → Option App
    persist io app = save false io app

    -- `run` behind its loop.
    unfoldable pub end_session : Io → App → Option App
    unfolding save clear
    end_session io app = save true io (record app {
      running = false;
      state = "IDLE";
      rib = clear io.now app.rib;
      peer_info = none;
    })

    module _ (config_json : Config → Members) where
      abbrev pub launched : Config → Io → App → Option App
      launched config io app =
          emit io.now
            (record {
              kind = "session";
              level = "info";
              message = append "Starting BGP session: " (ipv4_text (octets config.peer_ip));
              extra = insert_member "running" (flag true) (config_json config);
            })
            (record app {
              rib = clear io.now app.rib;
              output = config.json_output;
              config = some config;
              running = true;
              peer_info = none;
            })

      abbrev pub begun : Config → Io → Bool → App → Option (App × Bool)
      begun config io true app = do app ← launched config io app; some (app, true)
      begun config io false app = some (app, false)

      -- `start` behind the waits, and whether the session is spawned.
      unfoldable pub begin : Config → Io → App → Option (App × Bool)
      unfolding emit flush clear
      begin config io app = let r = flushing true io app in begun config io r.ok (flushed r app)
