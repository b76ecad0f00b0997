-- ===== src/App/Machine/Stops.antt =====
-- A run of `stop` from any sound program whose lock is free.
use mathlib.Core.Path.{subst}
use bgp_flowspec_receiver.Prelude.{
  ℕ, ◌≡◌, refl, ◌∙◌, Bool, true, false, String, Option, none, some, List, ◌∷◌, [], drop,
}
use bgp_flowspec_receiver.Rib.{Route}
use bgp_flowspec_receiver.Rib.Apply.{Identity}
use bgp_flowspec_receiver.Session.Config.{Config}
use bgp_flowspec_receiver.Json.{Members}
use bgp_flowspec_receiver.App.State.{Io, Note, emit}
use bgp_flowspec_receiver.App.Machine.{
  Run, connecting, up, dropped, cleared, leaving, to_stop, Stage, free, session_wait, capture_wait,
  World, Label, asks, session_gone, finishes, capture_ends, interrupts, clears, idles, ends, act,
  run_labels, on_app, finish, capture_note, to_start, to_capture, to_end_capture,
}
use bgp_flowspec_receiver.App.Machine.Invariant.{Sound, Serves}
use bgp_flowspec_receiver.App.Machine.Kept.{Yields, yields, Yields-bind}
use bgp_flowspec_receiver.App.Machine.Sound.{act-Sound}
use bgp_flowspec_receiver.App.Machine.Marks.{
  If, If-map, both, asked, over, At, Stopping, interrupts-heard, clears-emptied, idles-idle,
  interrupts-out, ends-over,
}

-- Stopped: no task is left, and the program says so.
pub record Idle (w : World) : Type 0 where
  pub unlocked : w.stage ≡ free
  pub session : w.session ≡ none
  pub capture : w.capture ≡ false
  pub running : w.app.running ≡ false
  pub capturing : w.app.capturing ≡ false
  pub state : w.app.state ≡ "IDLE"
  pub routes : w.app.rib.routes ≡ []

module _ (digest : String → String → String → Identity → String) (time : ℕ → String)
    (text_of : ℕ → Note → List ℕ) (to_json : Route → String) (config_json : Config → Members) where
  asked-At : (s : Option (Config × Run)) → At asked s
  asked-At none = tt
  asked-At (some (c, run)) = tt

  asked-stop :
      (w : World)
      → w.stage ≡ free
      → If (Stopping asked) (act digest time text_of to_json config_json (asks to_stop) w)
  unfolding act
  asked-stop w f = rw f (refl, asked-At w.session)

  over-none : (s : Option (Config × Run)) → At over s → s ≡ none
  over-none none a = refl
  over-none (some (c, connecting)) a = absurd a
  over-none (some (c, up k)) a = absurd a
  over-none (some (c, dropped x)) a = absurd a
  over-none (some (c, cleared x)) a = absurd a
  over-none (some (c, leaving)) a = absurd a

  -- The handler waits for the capture's task, and there is no session.
  abbrev Waits : World → Type 0
  Waits w = (w.stage ≡ capture_wait to_stop) × (w.session ≡ none)

  session_gone-Waits :
      (w : World) (stage : Stage) (s : Option (Config × Run))
      → stage ≡ session_wait to_stop
      → s ≡ none
      → w.session ≡ s
      → If Waits (elim stage [
        | session_wait job ↦ elim s [
          | none ↦ some (record w { stage = capture_wait job })
          | some session ↦ some w
        ]
        | free ↦ some w
        | capture_wait job ↦ some w
      ])
  session_gone-Waits w (session_wait to_stop) none st n e = (refl, e)
  session_gone-Waits w stage s st n e = cc

  abbrev Silent : World → Type 0
  Silent w = Waits w × (w.capture ≡ false)

  capture_ends-Silent :
      (now : ℕ) (w : World) (capture : Bool)
      → Waits w
      → w.capture ≡ capture
      → If Silent (elim capture [
        | true ↦
            on_app digest time text_of to_json config_json
              (emit text_of now (capture_note "Capture stopped" false))
              (record w { app = record w.app { capturing = false }; capture = false })
        | false ↦ some w
      ])
  capture_ends-Silent now w true h e = If-map Silent _ _ (λ app. (h, refl))
  capture_ends-Silent now w false h e = (h, e)

  abbrev Freed : World → Type 0
  Freed w = (w.stage ≡ free) × (w.session ≡ none) × (w.capture ≡ false)

  finishes-Freed :
      (io : Io) (w : World) (stage : Stage) (capture : Bool)
      → stage ≡ capture_wait to_stop
      → capture ≡ false
      → w.session ≡ none
      → w.capture ≡ capture
      → If Freed (elim stage [
        | capture_wait job ↦ elim capture [
          | false ↦ finish digest time text_of to_json config_json io true job w
          | true ↦ some w
        ]
        | free ↦ some w
        | session_wait job ↦ some w
      ])
  finishes-Freed io w (capture_wait to_stop) false st c n e = If-map Freed _ _ (λ app. (refl, n, e))
  finishes-Freed io w (capture_wait to_stop) true st c n e = cc
  finishes-Freed io w (capture_wait (to_start config)) capture st c n e = cc
  finishes-Freed io w (capture_wait to_capture) capture st c n e = cc
  finishes-Freed io w (capture_wait to_end_capture) capture st c n e = cc
  finishes-Freed io w free capture st c n e = cc
  finishes-Freed io w (session_wait job) capture st c n e = cc

  -- One label more.
  next :
      {P Q : World → Type 0} (label : Label) (labels : List Label) (w : World)
      → Sound digest w
      → If P (act digest time text_of to_json config_json label w)
      → ((w : World)
          → Sound digest w
          → P w
          → Yields Q (run_labels digest time text_of to_json config_json labels w))
      → Yields Q (run_labels digest time text_of to_json config_json (label ∷ labels) w)
  unfolding run_labels
  next label labels w s p k =
      Yields-bind (run_labels digest time text_of to_json config_json labels)
        (both (act-Sound digest time text_of to_json config_json label w s) p) (λ w h. k w h.0 h.1)

  abbrev pub stopping : ℕ → Io → List Label
  stopping now io =
      asks to_stop
      ∷ interrupts
      ∷ clears now
      ∷ idles now
      ∷ interrupts
      ∷ ends io
      ∷ session_gone
      ∷ capture_ends now
      ∷ finishes io true
      ∷ []

  all_ended : (w : World) → Sound digest w → Freed w → Idle w
  all_ended w s (unlocked, session, capture) =
      let (running, state, routes) = subst (Serves digest w.app) session s.serves in
      record {
        unlocked = unlocked;
        session = session;
        capture = capture;
        running = running;
        capturing = s.captures ∙ capture;
        state = state;
        routes = routes;
      }

  -- From any sound program whose lock is free, wherever the session's task and the capture's stand, `stop` can
  -- go through: in the run of these labels it takes the lock, the two tasks end one after the other,
  -- and when the lock is free again, no task is left, `running` and `capturing` are false, the state is
  -- IDLE and the table has no row.
  pub stopping-Idle :
      (now : ℕ) (io : Io) (w : World)
      → Sound digest w
      → w.stage ≡ free
      → Yields Idle (run_labels digest time text_of to_json config_json (stopping now io) w)
  unfolding act run_labels
  stopping-Idle now io w s f =
      let rest : ℕ → List Label = λ n. drop n (stopping now io) in
      next (asks to_stop) (rest 1) w s (asked-stop w f) (λ w s h.
        next interrupts (rest 2) w s
          (interrupts-heard digest time text_of to_json config_json w w.session refl h.0)
          (λ w s h.
            next (clears now) (rest 3) w s
              (clears-emptied digest time text_of to_json config_json now w w.session refl h.0 h.1)
              (λ w s h.
                next (idles now) (rest 4) w s
                  (idles-idle digest time text_of to_json config_json now w w.session refl h.0 h.1)
                  (λ w s h.
                    next interrupts (rest 5) w s
                      (interrupts-out digest time text_of to_json config_json w w.session refl h.0
                        h.1)
                      (λ w s h.
                        next (ends io) (rest 6) w s
                          (ends-over digest time text_of to_json config_json io w w.session refl h.0
                            h.1)
                          (λ w s h.
                            next session_gone (rest 7) w s
                              (session_gone-Waits w w.stage w.session h.0 (over-none w.session h.1)
                                refl)
                              (λ w s h.
                                next (capture_ends now) (rest 8) w s
                                  (capture_ends-Silent now w w.capture h refl)
                                  (λ w s h.
                                    next (finishes io true) [] w s
                                      (finishes-Freed io w w.stage w.capture h.0.0 h.1 h.0.1 refl)
                                      (λ w s h. yields w (all_ended w s h))))))))))
