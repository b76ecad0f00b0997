-- ===== src/App/Machine/Invariant.antt =====
-- What holds of the program between two sections of its tasks.
use bgp_flowspec_receiver.Prelude.{◌≡◌, ◌≢◌, Bool, true, false, String, Option, none, some, []}
use bgp_flowspec_receiver.Wire.Result.{ok}
use bgp_flowspec_receiver.Wire.Message.{OpenInfo}
use bgp_flowspec_receiver.Wire.Message.Open.{IsHold}
use bgp_flowspec_receiver.Rib.{Data}
use bgp_flowspec_receiver.Rib.Apply.{Identity}
use bgp_flowspec_receiver.Rib.Reachable.{Reachable}
use bgp_flowspec_receiver.History.Bounds.{Bounded}
use bgp_flowspec_receiver.Session.Config.{Config, validate}
use bgp_flowspec_receiver.Session.Connection.Invariant as Conn
use bgp_flowspec_receiver.App.State.{App}
use bgp_flowspec_receiver.App.Machine.{
  Run, connecting, up, dropped, cleared, leaving, Job, to_stop, to_start, Stage, free, session_wait,
  capture_wait, World,
}

-- Without routes, and not ESTABLISHED.
abbrev pub Calm : String → Data → Type 0
Calm state rib = (rib.routes ≡ []) × (state ≢ "ESTABLISHED")

-- A handler that starts a session has validated its configuration.
abbrev pub Checked : Job → Type 0
Checked (to_start config) = validate config ≡ ok tt
Checked job = Unit {0}

-- Only a handler of the session has waited for its task.
abbrev pub Alone : Job → Option (Config × Run) → Type 0
Alone to_stop session = session ≡ none
Alone (to_start config) session = session ≡ none
Alone job session = Unit {0}

abbrev pub Waiting : Stage → Option (Config × Run) → Type 0
Waiting free session = Unit {0}
Waiting (session_wait job) session = Checked job
Waiting (capture_wait job) session = Checked job × Alone job session

module _ (digest : String → String → String → Identity → String) where
  abbrev pub Standing : Config → String → Option OpenInfo → Data → Run → Type 0
  Standing config state peer_info rib connecting = Calm state rib
  Standing config state peer_info rib (up c) =
      Conn.Sound digest config (record c { rib = rib })
      × (state ≡ c.state)
      × (peer_info ≡ c.peer_info)
  Standing config state peer_info rib (dropped e) = Unit {0}
  Standing config state peer_info rib (cleared e) = rib.routes ≡ []
  Standing config state peer_info rib leaving = Calm state rib

  -- Without a session the program does not say that it runs one, and with one it does.
  abbrev pub Serving :
      Bool → Option Config → String → Option OpenInfo → Data → Option (Config × Run) → Type 0
  Serving running config state peer_info rib none =
      (running ≡ false) × (state ≡ "IDLE") × (rib.routes ≡ [])
  Serving running config state peer_info rib (some (cfg, run)) =
      (running ≡ true)
      × (config ≡ some cfg)
      × IsHold cfg.hold_time
      × Standing cfg state peer_info rib run

  -- `Serving` of what a program keeps.
  abbrev pub Serves : App → Option (Config × Run) → Type 0
  Serves app session = Serving app.running app.config app.state app.peer_info app.rib session

  pub record Sound (w : World) : Type 0 where
    pub bounded : Bounded w.app.history
    pub reached : Reachable digest w.app.rib
    pub serves : Serves w.app w.session
    pub waiting : Waiting w.stage w.session
    pub captures : w.app.capturing ≡ w.capture
