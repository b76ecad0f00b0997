-- ===== src/App/Machine/Steps.antt =====
-- The labels of `run` on a sound program.
use mathlib.Core.Option
use mathlib.Core.Path.{subst}
use bgp_flowspec_receiver.Prelude.{
  ℕ, ◌≡◌, inl, inr, refl, sym, true, false, String, Option, none, some, List, [], Bool-cases,
}
use bgp_flowspec_receiver.Wire.Result.{Result, Ensures, returns, refuses}
use bgp_flowspec_receiver.Wire.Message.{OpenInfo}
use bgp_flowspec_receiver.Rib.{Route, Data, clear, ◌>>=◌}
use bgp_flowspec_receiver.Rib.Apply.{Identity}
use bgp_flowspec_receiver.Rib.Reachable.{cleared}
use bgp_flowspec_receiver.Session.Config.{Config}
use bgp_flowspec_receiver.Session.Connection.{Connection, connect, step}
use bgp_flowspec_receiver.Session.Connection.Invariant as Conn
use bgp_flowspec_receiver.Session.Connection.Invariant.{connect-Sound, Sound-rib}
use bgp_flowspec_receiver.Session.Connection.Steps.{step-Ensures}
use bgp_flowspec_receiver.Json.{Members}
use bgp_flowspec_receiver.App.State.{App, Io, Note, set_state, save, end_session, failure}
use bgp_flowspec_receiver.App.Machine.{
  Run, connecting, up, leaving, World, Label, attempts, connects, declines, receives, interrupts,
  clears, idles, ends, share, told, on_app, received, report_end, after_idle, session_act,
}
use bgp_flowspec_receiver.App.Machine.{dropped as dropped_run, cleared as cleared_run}
use bgp_flowspec_receiver.App.Machine.Invariant.{Standing, Serves, Sound}
use bgp_flowspec_receiver.App.Machine.Touched.{emit-Touched, set_state-Touched, save-Touched}
use bgp_flowspec_receiver.App.Machine.Kept.{
  Yields, Yields-bind, Yields-map, yields, apart, clear-routes, carried_app, carried-Sound,
  gone-Waiting, moved-Sound,
}

module _ (digest : String → String → String → Identity → String) where
  module _ (time : ℕ → String) (text_of : ℕ → Note → List ℕ) (to_json : Route → String)
      (config_json : Config → Members) where
    received-Sound :
        (config : Config) (w : World) (c : Connection) (r : Result String Connection)
        → Sound digest w
        → w.session ≡ some (config, up c)
        → Ensures (Conn.Sound digest config) r
        → Yields (Sound digest) (received digest time text_of to_json config_json config w c r)
    received-Sound config w c _ s e (returns c' cs) =
        let (on, o, h, _) = subst (Serves digest w.app) e s.serves in
        yields _ (
          moved-Sound digest w (config, up c) (config, up c') (share c' w.app) s e s.bounded
            cs.reached (on, o, h, (cs, refl, refl)) refl)
    received-Sound config w c _ s e (refuses m) =
        let (on, o, h, _) = subst (Serves digest w.app) e s.serves in
        yields _ (
          moved-Sound digest w (config, up c) (config, dropped_run (some m)) w.app s e s.bounded
            s.reached (on, o, h, tt) refl)

    idle-Standing :
        (config : Config) (x : Option String) (peer : Option OpenInfo) (rib : Data)
        → rib.routes ≡ []
        → Standing digest config "IDLE" peer rib
            (after_idle digest time text_of to_json config_json x)
    idle-Standing config none peer rib e = (e, apart "IDLE" "ESTABLISHED" refl)
    idle-Standing config (some m) peer rib e = (e, apart "IDLE" "ESTABLISHED" refl)

    reported :
        (now : ℕ) (x : Option String) (w : World)
        → Sound digest w
        → Yields
            (λ app. Sound digest (record w { app = app }))
            (report_end digest time text_of to_json config_json now x w.app)
    reported now none w s = yields w.app s
    reported now (some m) w s =
        carried_app digest w _ s (emit-Touched text_of now (failure m) w.app s.bounded)

    idle-Sound :
        (now : ℕ) (config : Config) (x : Option String) (w : World)
        → Sound digest w
        → w.session ≡ some (config, cleared_run x)
        → Yields (Sound digest) (
            Option.map
              (λ app. record w {
                app = app;
                session = some (config, after_idle digest time text_of to_json config_json x);
              })
              (set_state text_of now "IDLE" w.app
                >>= report_end digest time text_of to_json config_json now x))
    idle-Sound now config x w s e =
        let (on, o, h, empty) = subst (Serves digest w.app) e s.serves in
        let app : App = record w.app { state = "IDLE" } in
        let b : Config × Run = (config, after_idle digest time text_of to_json config_json x) in
        let s' =
          moved-Sound digest w (config, cleared_run x) b app s e s.bounded s.reached
            (on, o, h, idle-Standing config x app.peer_info app.rib empty) refl in
        let w' : World = record w { app = app; session = some b } in
        Yields-map (λ app. record w { app = app; session = some b })
          (Yields-bind (report_end digest time text_of to_json config_json now x)
            (carried_app digest w' (set_state text_of now "IDLE" w.app) s'
              (set_state-Touched text_of now "IDLE" w.app s.bounded))
            (λ app s. reported now x (record w' { app = app }) s))

    ended-Sound :
        (io : Io) (w : World)
        → Sound digest w
        → Yields (Sound digest) (
            on_app digest time text_of to_json config_json
              (end_session text_of to_json io)
              (record w { session = none }))
    unfolding end_session
    ended-Sound io w s =
        let app : App = record w.app {
          running = false;
          state = "IDLE";
          rib = clear io.now w.app.rib;
          peer_info = none;
        } in
        carried-Sound digest (record w { app = app; session = none })
          (save text_of to_json true io app)
          (record {
            bounded = s.bounded;
            reached = cleared io.now w.app.rib s.reached;
            serves = (refl, refl, clear-routes io.now w.app.rib);
            waiting = gone-Waiting digest w.stage w.session s.waiting;
            captures = s.captures;
          })
          (save-Touched text_of to_json true io app s.bounded)

    pub session_act-Sound :
        (label : Label) (config : Config) (run : Run) (w : World)
        → Sound digest w
        → w.session ≡ some (config, run)
        → Yields
            (Sound digest)
            (session_act digest time text_of to_json config_json label config run w)
    session_act-Sound (attempts now) config connecting w s e =
        let (on, o, h, calm) = subst (Serves digest w.app) e s.serves in
        let w' : World = record w { app = record w.app { state = "CONNECT" } } in
        carried-Sound digest w' (set_state text_of now "CONNECT" w.app)
          (record {
            bounded = s.bounded;
            reached = s.reached;
            serves =
                subst (Serves digest w'.app) (sym e)
                  (on, o, h, (calm.0, apart "CONNECT" "ESTABLISHED" refl));
            waiting = s.waiting;
            captures = s.captures;
          })
          (set_state-Touched text_of now "CONNECT" w.app s.bounded)
    session_act-Sound (connects now) config connecting w s e =
        let (on, o, h, calm) = subst (Serves digest w.app) e s.serves in
        let c = connect config now w.app.rib in
        let cs = connect-Sound digest config now w.app.rib h s.reached calm.0 in
        yields _ (
          moved-Sound digest w (config, connecting) (config, up c) (share c w.app) s e s.bounded
            cs.reached (on, o, h, (cs, refl, refl)) refl)
    session_act-Sound (declines m) config connecting w s e =
        let (on, o, h, _) = subst (Serves digest w.app) e s.serves in
        yields _ (
          moved-Sound digest w (config, connecting) (config, dropped_run (some m)) w.app s e
            s.bounded s.reached (on, o, h, tt) refl)
    session_act-Sound (receives event now) config (up c) w s e =
        let (on, o, h, (cs, st, p)) = subst (Serves digest w.app) e s.serves in
        let c' = record c { rib = w.app.rib } in
        received-Sound config w c (step digest time config event now c') s e
          (step-Ensures digest time config event now c' cs)
    session_act-Sound interrupts config connecting w s e = elim (Bool-cases (told w.stage)) [
      | inl t ↦ rw t (
          yields _ (
            moved-Sound digest w (config, connecting) (config, leaving) w.app s e s.bounded
              s.reached (subst (Serves digest w.app) e s.serves) refl))
      | inr t ↦ rw t (yields w s)
    ]
    session_act-Sound interrupts config (up c) w s e = elim (Bool-cases (told w.stage)) [
      | inl t ↦
          let (on, o, h, _) = subst (Serves digest w.app) e s.serves in
          rw t (
            yields _ (
              moved-Sound digest w (config, up c) (config, dropped_run none) w.app s e s.bounded
                s.reached (on, o, h, tt) refl))
      | inr t ↦ rw t (yields w s)
    ]
    session_act-Sound (clears now) config (dropped_run x) w s e =
        let (on, o, h, _) = subst (Serves digest w.app) e s.serves in
        let app : App = record w.app { rib = clear now w.app.rib; peer_info = none } in
        yields _ (
          moved-Sound digest w (config, dropped_run x) (config, cleared_run x) app s e s.bounded
            (cleared now w.app.rib s.reached) (on, o, h, clear-routes now w.app.rib) refl)
    session_act-Sound (idles now) config (cleared_run x) w s e = idle-Sound now config x w s e
    session_act-Sound (ends io) config leaving w s e = ended-Sound io w s
    session_act-Sound label config run w s e = yields w s
