-- ===== src/App/Machine/Sound.antt =====
-- The invariant of the program over its labels.
use mathlib.Core.Path.{subst}
use bgp_flowspec_receiver.Prelude.{
  ℕ, ◌≡◌, refl, Bool, true, false, String, Option, none, some, List, ◌∷◌, [], arith,
}
use bgp_flowspec_receiver.Rib.{Route, empty}
use bgp_flowspec_receiver.Rib.Apply.{Identity}
use bgp_flowspec_receiver.Rib.Reachable.{started}
use bgp_flowspec_receiver.Session.Config.{Config}
use bgp_flowspec_receiver.Json.{Members}
use bgp_flowspec_receiver.App.Flush.{Disk}
use bgp_flowspec_receiver.App.State.{Io, Note, new, emit}
use bgp_flowspec_receiver.App.Machine.{
  Run, Job, Stage, free, session_wait, capture_wait, World, Label, notes, ticks, clears_log, asks,
  session_gone, finishes, capture_ends, capture_note, ask, on_app, session_act, finish, act, boot,
  run_labels,
}
use bgp_flowspec_receiver.App.Machine.Invariant.{Waiting, Sound}
use bgp_flowspec_receiver.App.Machine.Touched.{emit-Touched, save-Touched}
use bgp_flowspec_receiver.App.Machine.Kept.{Yields, Yields-bind, yields, carried-Sound}
use bgp_flowspec_receiver.App.Machine.Steps.{session_act-Sound}
use bgp_flowspec_receiver.App.Machine.Handlers.{
  clear_history-Bounded, staged-Sound, ask-Sound, finish-Sound, alone,
}

module _ (digest : String → String → String → Identity → String) (time : ℕ → String)
    (text_of : ℕ → Note → List ℕ) (to_json : Route → String) (config_json : Config → Members) where
  -- The look at the stage, at the session and at the capture of a label.
  asked-Sound :
      (job : Job) (w : World) (stage : Stage)
      → Sound digest w
      → w.stage ≡ stage
      → Yields
          (Sound digest)
          (elim stage [ free ↦ ask job w | session_wait j ↦ some w | capture_wait j ↦ some w ])
  asked-Sound job w free s e = ask-Sound digest time text_of to_json config_json job w s e
  asked-Sound job w (session_wait j) s e = yields w s
  asked-Sound job w (capture_wait j) s e = yields w s

  waited-Sound :
      (w : World) (stage : Stage) (session : Option (Config × Run))
      → Sound digest w
      → w.stage ≡ stage
      → w.session ≡ session
      → Yields (Sound digest) (elim stage [
        | session_wait job ↦ elim session [
          | none ↦ some (record w { stage = capture_wait job })
          | some session ↦ some w
        ]
        | free ↦ some w
        | capture_wait job ↦ some w
      ])
  waited-Sound w free session s e g = yields w s
  waited-Sound w (capture_wait job) session s e g = yields w s
  waited-Sound w (session_wait job) (some session) s e g = yields w s
  waited-Sound w (session_wait job) none s e g = yields _ (
      staged-Sound digest time text_of to_json config_json (capture_wait job) w s (
        alone digest time text_of to_json config_json job w.session
          (subst (λ stage. Waiting stage w.session) e s.waiting) g))

  finished-Sound :
      (io : Io) (spawned : Bool) (w : World) (stage : Stage) (capture : Bool)
      → Sound digest w
      → w.stage ≡ stage
      → Yields (Sound digest) (elim stage [
        | capture_wait job ↦ elim capture [
          | false ↦ finish digest time text_of to_json config_json io spawned job w
          | true ↦ some w
        ]
        | free ↦ some w
        | session_wait job ↦ some w
      ])
  finished-Sound io spawned w free capture s e = yields w s
  finished-Sound io spawned w (session_wait job) capture s e = yields w s
  finished-Sound io spawned w (capture_wait job) true s e = yields w s
  finished-Sound io spawned w (capture_wait job) false s e =
      finish-Sound digest time text_of to_json config_json io spawned job w s e

  captured-Sound :
      (now : ℕ) (w : World) (capture : Bool)
      → Sound digest w
      → Yields (Sound digest) (elim capture [
        | true ↦
            on_app digest time text_of to_json config_json
              (emit text_of now (capture_note "Capture stopped" false))
              (record w { app = record w.app { capturing = false }; capture = false })
        | false ↦ some w
      ])
  captured-Sound now w false s = yields w s
  captured-Sound now w true s =
      let w' : World = record w { app = record w.app { capturing = false }; capture = false } in
      carried-Sound digest w' _
        (record {
          bounded = s.bounded;
          reached = s.reached;
          serves = s.serves;
          waiting = s.waiting;
          captures = refl;
        })
        (emit-Touched text_of now _ w'.app s.bounded)

  session-Sound :
      (label : Label) (w : World) (session : Option (Config × Run))
      → Sound digest w
      → w.session ≡ session
      → Yields (Sound digest) (elim session [
        | none ↦ some w
        | some (config, run) ↦
            session_act digest time text_of to_json config_json label config run w
      ])
  session-Sound label w none s e = yields w s
  session-Sound label w (some (config, run)) s e =
      session_act-Sound digest time text_of to_json config_json label config run w s e

  pub act-Sound :
      (label : Label) (w : World)
      → Sound digest w
      → Yields (Sound digest) (act digest time text_of to_json config_json label w)
  unfolding act
  act-Sound (notes now note) w s =
      carried-Sound digest w _ s (emit-Touched text_of now note w.app s.bounded)
  act-Sound (ticks io) w s =
      carried-Sound digest w _ s (save-Touched text_of to_json false io w.app s.bounded)
  act-Sound clears_log w s = yields _ (record {
    bounded = clear_history-Bounded w.app.history;
    reached = s.reached;
    serves = s.serves;
    waiting = s.waiting;
    captures = s.captures;
  })
  act-Sound (asks job) w s = asked-Sound job w w.stage s refl
  act-Sound session_gone w s = waited-Sound w w.stage w.session s refl refl
  act-Sound (finishes io spawned) w s = finished-Sound io spawned w w.stage w.capture s refl
  act-Sound (capture_ends now) w s = captured-Sound now w w.capture s
  act-Sound label w s = session-Sound label w w.session s refl

  pub boot-Sound : (output : Option String) (disk : Disk) → Sound digest (boot output disk)
  unfolding boot new empty
  boot-Sound output disk = record {
    bounded = record { counted = refl; few = ground arith; small = ground arith };
    reached = started;
    serves = (refl, refl, refl);
    waiting = tt;
    captures = refl;
  }

  pub run-Sound :
      (labels : List Label) (w : World)
      → Sound digest w
      → Yields (Sound digest) (run_labels digest time text_of to_json config_json labels w)
  unfolding run_labels
  run-Sound [] w s = yields w s
  run-Sound (label ∷ labels) w s =
      Yields-bind (run_labels digest time text_of to_json config_json labels) (act-Sound label w s)
        (run-Sound labels)

  -- However the sections of the tasks follow one another from the start of the program on, none of them
  -- panics, and the program is sound after each: the history is within its bounds, the table is one
  -- that is reached, `running` says whether there is a session's task, `capturing` whether there is one
  -- of the capture, without a task the state is IDLE and the table has no row, and the state and the
  -- peer's data are those of the connection that the session has.
  pub run_labels-Sound :
      (labels : List Label) (output : Option String) (disk : Disk)
      → Yields
          (Sound digest)
          (run_labels digest time text_of to_json config_json labels (boot output disk))
  run_labels-Sound labels output disk = run-Sound labels (boot output disk) (boot-Sound output disk)
