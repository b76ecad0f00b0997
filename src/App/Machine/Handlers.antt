-- ===== src/App/Machine/Handlers.antt =====
-- The handlers that have the lock, on a sound program.
use mathlib.Core.Path.{subst}
use bgp_flowspec_receiver.Prelude.{
  ℕ, ◌≡◌, ◌≢◌, ◌⊎◌, refl, sym, Bool, true, false, String, Option, none, some, List, arith,
  if◌then◌else◌,
}
use bgp_flowspec_receiver.Wire.Result.{Result, ok, err, fault}
use bgp_flowspec_receiver.Wire.Message.Open.{IsHold}
use bgp_flowspec_receiver.Rib.{Route, clear, ◌>>=◌}
use bgp_flowspec_receiver.Rib.Apply.{Identity}
use bgp_flowspec_receiver.Rib.Reachable.{cleared}
use bgp_flowspec_receiver.History.{History, clear_history}
use bgp_flowspec_receiver.History.Bounds.{Bounded}
use bgp_flowspec_receiver.Session.Config.{Config, validate}
use bgp_flowspec_receiver.Session.Valid.{validate_iff}
use bgp_flowspec_receiver.Json.{Members}
use bgp_flowspec_receiver.App.Flush.{Flushed}
use bgp_flowspec_receiver.App.State.{App, Io, Note, halt, begin, flushing, flushed, begun}
use bgp_flowspec_receiver.App.Machine.{
  Run, connecting, Job, to_stop, to_start, to_capture, to_end_capture, Stage, free, session_wait,
  capture_wait, World, ask, begun_in, finish,
}
use bgp_flowspec_receiver.App.Machine.Invariant.{Checked, Waiting, Serving, Serves, Sound}
use bgp_flowspec_receiver.App.Machine.Touched.{
  same-Reachable, same-routes, flush-same, emit-Touched, save-Touched,
}
use bgp_flowspec_receiver.App.Machine.Kept.{
  Yields, Yields-bind, Yields-map, yields, clear-routes, apart, serves-same, carried_app,
  carried-Sound,
}

pub clear_history-Bounded : (h : History) → Bounded (clear_history h)
unfolding clear_history
clear_history-Bounded h = record { counted = refl; few = ground arith; small = ground arith }

pub validate-IsHold : (config : Config) → validate config ≡ ok tt → IsHold config.hold_time
validate-IsHold config e = let v = (validate_iff config).0 e in v.hold

module _ (digest : String → String → String → Identity → String) (time : ℕ → String)
    (text_of : ℕ → Note → List ℕ) (to_json : Route → String) (config_json : Config → Members) where
  pub halt-Sound :
      (io : Io) (w : World)
      → Sound digest w
      → w.session ≡ none
      → Yields (Sound digest) (finish digest time text_of to_json config_json io true to_stop w)
  unfolding halt
  halt-Sound io w s e =
      let app : App = record w.app {
        history = clear_history w.app.history;
        running = false;
        state = "IDLE";
        peer_info = none;
        rib = clear io.now w.app.rib;
      } in
      let w' : World = record w { app = app; stage = free } in
      let s' : Sound digest w' = record {
        bounded = clear_history-Bounded w.app.history;
        reached = cleared io.now w.app.rib s.reached;
        serves = subst (Serves digest app) (sym e) (refl, refl, clear-routes io.now w.app.rib);
        waiting = tt;
        captures = s.captures;
      } in
      Yields-map (λ app. record w { app = app; stage = free })
        (Yields-bind _ (carried_app digest w' _ s' (emit-Touched text_of io.now _ app s'.bounded))
          (λ app s.
            carried_app digest (record w' { app = app }) _ s
              (save-Touched text_of to_json true io app s.bounded)))

  pub spawned-Sound :
      (config : Config) (w : World) (r : Option App)
      → Yields
          (λ app.
            Sound digest
              (record w { app = app; session = some (config, connecting); stage = free }))
          r
      → Yields (Sound digest) (
          begun_in digest time text_of to_json config_json config w (r >>= λ app. some (app, true)))
  spawned-Sound config w _ (yields app s) = yields _ s

  pub begun-Sound :
      (config : Config) (io : Io) (w : World) (r : Flushed) (ok : Bool)
      → Sound digest w
      → w.session ≡ none
      → IsHold config.hold_time
      → (r.rib ≡ w.app.rib) ⊎ (r.rib ≡ record w.app.rib { dirty = none })
      → Yields (Sound digest) (
          begun_in digest time text_of to_json config_json config w
            (begun text_of to_json config_json config io ok (flushed text_of to_json r w.app)))
  begun-Sound config io w r true s e h same =
      let serves : Serves digest w.app none = subst (Serves digest w.app) e s.serves in
      let app : App = record (flushed text_of to_json r w.app) {
        rib = clear io.now r.rib;
        output = config.json_output;
        config = some config;
        running = true;
        peer_info = none;
      } in
      let w' : World = record w { app = app; session = some (config, connecting); stage = free } in
      let s' : Sound digest w' = record {
        bounded = s.bounded;
        reached = cleared io.now r.rib (same-Reachable w.app.rib r.rib s.reached same);
        serves = (
          refl,
          refl,
          h,
          (
            clear-routes io.now r.rib,
            subst (λ state. state ≢ "ESTABLISHED") (sym serves.1) (apart "IDLE" "ESTABLISHED" refl),
          ),
        );
        waiting = tt;
        captures = s.captures;
      } in
      spawned-Sound config w _
        (carried_app digest w' _ s' (emit-Touched text_of io.now _ app s.bounded))
  begun-Sound config io w r false s e h same =
      let reached = same-Reachable w.app.rib r.rib s.reached same in
      yields _ (record {
        bounded = s.bounded;
        reached = reached;
        serves =
            serves-same digest w.app.running w.app.config w.app.state w.app.peer_info w.app.rib
              r.rib w.session s.serves reached (same-routes w.app.rib r.rib same);
        waiting = tt;
        captures = s.captures;
      })

  pub begin-Sound :
      (config : Config) (io : Io) (w : World)
      → Sound digest w
      → w.session ≡ none
      → IsHold config.hold_time
      → Yields
          (Sound digest)
          (finish digest time text_of to_json config_json io true (to_start config) w)
  unfolding begin
  begin-Sound config io w s e h =
      let r = flushing text_of to_json true io w.app in
      begun-Sound config io w r r.ok s e h
        (flush-same to_json true w.app.output io w.app.rib w.app.disk)

  pub staged-Sound :
      (stage : Stage) (w : World)
      → Sound digest w
      → Waiting stage w.session
      → Sound digest (record w { stage = stage })
  staged-Sound stage w s waiting = record {
    bounded = s.bounded;
    reached = s.reached;
    serves = s.serves;
    waiting = waiting;
    captures = s.captures;
  }

  pub start-Sound :
      (config : Config) (w : World) (r : Result String (Unit {0}))
      → validate config ≡ r
      → Sound digest w
      → Yields (Sound digest) (elim r [
        | ok _ ↦ some (record w { stage = session_wait (to_start config) })
        | err e ↦ some w
        | fault f ↦ some w
      ])
  start-Sound config w (ok _) e s = yields _ (staged-Sound (session_wait (to_start config)) w s e)
  start-Sound config w (err m) e s = yields w s
  start-Sound config w (fault f) e s = yields w s

  -- A program that says that it runs a session has a configuration.
  pub capture-Sound :
      (w : World) (running : Bool) (config : Option Config) (session : Option (Config × Run))
      → Sound digest w
      → Serving digest running config w.app.state w.app.peer_info w.app.rib session
      → Yields (Sound digest) (
          if running
          then elim config [
            | none ↦ none
            | some config ↦ some (record w { stage = capture_wait to_capture })
          ]
          else some w)
  capture-Sound w false config session s v = yields w s
  capture-Sound w true (some config) session s v =
      yields _ (staged-Sound (capture_wait to_capture) w s (tt, tt))
  capture-Sound w true none none s v = let off = v.0 in cc
  capture-Sound w true none (some (cfg, run)) s v = let c = v.1 in cc

  pub ask-Sound :
      (job : Job) (w : World) → Sound digest w → w.stage ≡ free → Yields (Sound digest) (ask job w)
  ask-Sound to_stop w s e = yields _ (staged-Sound (session_wait to_stop) w s tt)
  ask-Sound (to_start config) w s e = start-Sound config w (validate config) refl s
  ask-Sound to_capture w s e = capture-Sound w w.app.running w.app.config w.session s s.serves
  ask-Sound to_end_capture w s e =
      yields _ (staged-Sound (capture_wait to_end_capture) w s (tt, tt))

  pub finish-Sound :
      (io : Io) (spawned : Bool) (job : Job) (w : World)
      → Sound digest w
      → w.stage ≡ capture_wait job
      → Yields (Sound digest) (finish digest time text_of to_json config_json io spawned job w)
  finish-Sound io spawned to_stop w s e =
      halt-Sound io w s (subst (λ stage. Waiting stage w.session) e s.waiting).1
  finish-Sound io spawned (to_start config) w s e =
      let (valid, gone) = subst (λ stage. Waiting stage w.session) e s.waiting in
      begin-Sound config io w s gone (validate-IsHold config valid)
  finish-Sound io true to_capture w s e =
      let w' : World = record w {
        app = record w.app { capturing = true };
        capture = true;
        stage = free;
      } in
      carried-Sound digest w' _
        (record {
          bounded = s.bounded;
          reached = s.reached;
          serves = s.serves;
          waiting = tt;
          captures = refl;
        })
        (emit-Touched text_of io.now _ w'.app s.bounded)
  finish-Sound io false to_capture w s e = yields _ (staged-Sound free w s tt)
  finish-Sound io spawned to_end_capture w s e = yields _ (staged-Sound free w s tt)

  pub alone :
      (job : Job) (session : Option (Config × Run))
      → Checked job
      → session ≡ none
      → Waiting (capture_wait job) session
  alone to_stop session c e = (c, e)
  alone (to_start config) session c e = (c, e)
  alone to_capture session c e = (c, tt)
  alone to_end_capture session c e = (c, tt)
