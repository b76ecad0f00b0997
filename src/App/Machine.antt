-- ===== src/App/Machine.antt =====
-- The tasks of the program and the lock `control`: the handlers that start and stop the session and the
-- capture, `run` of session.rs between its awaits, the task of capture.rs, and the ticks of main.rs. A
-- label names what comes next, so that a list of labels is one interleaving; a label whose task is
-- not there does nothing. Two sections of a task without another between them are one label: those
-- of `stop` and of `start` behind the waits, and those of `run` behind its loop.
pub mod Invariant
pub mod Touched
pub mod Kept
pub mod Steps
pub mod Handlers
pub mod Sound
pub mod Health
pub mod Halt
pub mod Marks
pub mod Stops
mod Tests
use mathlib.Core.Option
use bgp_flowspec_receiver.Prelude.{
  ℕ, Bool, true, false, ◌&&◌, not, String, Option, none, some, List, [], ◌∷◌, if◌then◌else◌,
}
use bgp_flowspec_receiver.Wire.Result.{Result, ok, err, fault}
use bgp_flowspec_receiver.Rib.{Route, clear, ◌>>=◌}
use bgp_flowspec_receiver.Rib.Apply.{Identity}
use bgp_flowspec_receiver.History.{clear_history}
use bgp_flowspec_receiver.Session.Config.{Config, validate}
use bgp_flowspec_receiver.Session.Connection.{Connection, Event, connect, step}
use bgp_flowspec_receiver.Json.{Members, end, member, flag}
use bgp_flowspec_receiver.App.Flush.{Disk}
use bgp_flowspec_receiver.App.State.{
  App, Io, Note, new, emit, set_state, save, persist, halt, begin, end_session, failure,
}

-- Where `run` stands: before a connection, in one, behind one that has ended, behind the clearing of its
-- routes, and behind its loop.
pub data Run : Type 0 where
  connecting : Run
  up : Connection → Run
  dropped : Option String → Run
  cleared : Option String → Run
  leaving : Run

-- The handlers that take the lock: `stop`, `start`, and those of the capture.
pub data Job : Type 0 where
  to_stop : Job
  to_start : Config → Job
  to_capture : Job
  to_end_capture : Job

-- A handler that has the lock waits for the session's task, then for the capture's.
pub data Stage : Type 0 where
  free : Stage
  session_wait : Job → Stage
  capture_wait : Job → Stage

pub record World : Type 0 where
  pub app : App
  pub session : Option (Config × Run)
  pub capture : Bool
  pub stage : Stage

unfoldable pub boot : Option String → Disk → World
unfolding new
boot output disk = record { app = new output disk; session = none; capture = false; stage = free }

pub data Label : Type 0 where
  -- a task emits an event
  notes : ℕ → Note → Label
  -- `persistence` of main.rs
  ticks : Io → Label
  -- the handler of DELETE /log
  clears_log : Label
  -- a handler takes the lock, is done with a wait, and does what is behind the waits
  asks : Job → Label
  session_gone : Label
  finishes : Io → Bool → Label
  -- the task of the capture ends
  capture_ends : ℕ → Label
  -- `run`: a round of its loop begins, a connection is made, or ends at once since `set_nodelay` fails, it
  -- has an event, the loop is told to stop, the routes are cleared, the state is IDLE again, and the
  -- task ends
  attempts : ℕ → Label
  connects : ℕ → Label
  declines : String → Label
  receives : Event → ℕ → Label
  interrupts : Label
  clears : ℕ → Label
  idles : ℕ → Label
  ends : Io → Label

abbrev pub capture_note : String → Bool → Note
capture_note message running = record {
  kind = "capture";
  level = "info";
  message = message;
  extra = member "running" (flag running) end;
}

-- What `connected` shares with the program.
abbrev pub share : Connection → App → App
share c app = record app { state = c.state; peer_info = c.peer_info; rib = c.rib }

-- The stop signal has been sent to the session.
abbrev pub told : Stage → Bool
told (session_wait job) = true
told stage = false

-- The lock is free: `validate` comes before it, the look at `running` behind it.
abbrev pub ask : Job → World → Option World
ask to_stop w = some (record w { stage = session_wait to_stop })
ask (to_start config) w = elim (validate config) [
  | ok _ ↦ some (record w { stage = session_wait (to_start config) })
  | err e ↦ some w
  | fault f ↦ some w
]
ask to_capture w =
    if w.app.running
    then elim w.app.config [
      | none ↦ none
      | some config ↦ some (record w { stage = capture_wait to_capture })
    ]
    else some w
ask to_end_capture w = some (record w { stage = capture_wait to_end_capture })

module _ (digest : String → String → String → Identity → String) (time : ℕ → String)
    (text_of : ℕ → Note → List ℕ) (to_json : Route → String) (config_json : Config → Members) where
  abbrev pub on_app : (App → Option App) → World → Option World
  on_app f w = Option.map (λ app. record w { app = app }) (f w.app)

  -- The end of a wait, and the handler behind it.
  abbrev pub begun_in : Config → World → Option (App × Bool) → Option World
  begun_in config w none = none
  begun_in config w (some (app, true)) =
      some (record w { app = app; session = some (config, connecting); stage = free })
  begun_in config w (some (app, false)) = some (record w { app = app; stage = free })

  abbrev pub finish : Io → Bool → Job → World → Option World
  finish io spawned to_stop w = on_app (halt text_of to_json io) (record w { stage = free })
  finish io spawned (to_start config) w =
      begun_in config w (begin text_of to_json config_json config io w.app)
  finish io true to_capture w =
      on_app (emit text_of io.now (capture_note "Capture started" true))
        (record w { app = record w.app { capturing = true }; capture = true; stage = free })
  finish io false to_capture w = some (record w { stage = free })
  finish io spawned to_end_capture w = some (record w { stage = free })

  -- What an event of a connection leaves, whose routes are those of the program.
  abbrev pub received : Config → World → Connection → Result String Connection → Option World
  received config w c (ok c') =
      some (record w { app = share c' w.app; session = some (config, up c') })
  received config w c (err e) = some (record w { session = some (config, dropped (some e)) })
  received config w c (fault f) = none

  abbrev report_end : ℕ → Option String → App → Option App
  report_end now none app = some app
  report_end now (some e) app = emit text_of now (failure e) app

  abbrev after_idle : Option String → Run
  after_idle none = leaving
  after_idle (some e) = connecting

  -- The labels of `run`, on its configuration and where it stands.
  abbrev pub session_act : Label → Config → Run → World → Option World
  session_act (attempts now) config connecting w = on_app (set_state text_of now "CONNECT") w
  session_act (connects now) config connecting w =
      let c = connect config now w.app.rib in
      some (record w { app = share c w.app; session = some (config, up c) })
  session_act (declines e) config connecting w =
      some (record w { session = some (config, dropped (some e)) })
  session_act (receives event now) config (up c) w =
      let c = record c { rib = w.app.rib } in
      received config w c (step digest time config event now c)
  session_act interrupts config connecting w =
      some (if told w.stage then record w { session = some (config, leaving) } else w)
  session_act interrupts config (up c) w =
      some (if told w.stage then record w { session = some (config, dropped none) } else w)
  session_act (clears now) config (dropped e) w = some (record w {
    app = record w.app { rib = clear now w.app.rib; peer_info = none };
    session = some (config, cleared e);
  })
  session_act (idles now) config (cleared e) w =
      on_app (λ app. set_state text_of now "IDLE" app >>= report_end now e)
        (record w { session = some (config, after_idle e) })
  session_act (ends io) config leaving w =
      on_app (end_session text_of to_json io) (record w { session = none })
  session_act label config run w = some w

  abbrev of_session : Label → World → Option World
  of_session label w = elim w.session [
    | none ↦ some w
    | some (config, run) ↦ session_act label config run w
  ]

  unfoldable pub act : Label → World → Option World
  unfolding emit save clear_history halt begin set_state end_session step connect clear validate
  act (notes now note) w = on_app (emit text_of now note) w
  act (ticks io) w = on_app (persist text_of to_json io) w
  act clears_log w =
      some (record w { app = record w.app { history = clear_history w.app.history } })
  act (asks job) w = elim w.stage [
    | free ↦ ask job w
    | session_wait j ↦ some w
    | capture_wait j ↦ some w
  ]
  act session_gone w = elim w.stage [
    | session_wait job ↦ elim w.session [
      | none ↦ some (record w { stage = capture_wait job })
      | some session ↦ some w
    ]
    | free ↦ some w
    | capture_wait job ↦ some w
  ]
  act (finishes io spawned) w = elim w.stage [
    | capture_wait job ↦ elim w.capture [ false ↦ finish io spawned job w | true ↦ some w ]
    | free ↦ some w
    | session_wait job ↦ some w
  ]
  act (capture_ends now) w = elim w.capture [
    | true ↦
        on_app (emit text_of now (capture_note "Capture stopped" false))
          (record w { app = record w.app { capturing = false }; capture = false })
    | false ↦ some w
  ]
  act label w = of_session label w

  unfoldable pub run_labels : List Label → World → Option World
  unfolding act
  run_labels [] w = some w
  run_labels (label ∷ labels) w = do w ← act label w; run_labels labels w
