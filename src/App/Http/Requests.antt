-- ===== src/App/Http/Requests.antt =====
-- POST /session/start on a program whose lock is free, and the status of a snapshot.
use mathlib.Core.Path.{subst}
use bgp_flowspec_receiver.Prelude.{ℕ, ◌≡◌, refl, sym, ◌∙◌, String, Option, none, some, List}
use bgp_flowspec_receiver.Wire.Result.{Result, ok, err, fault, Ensures, returns, refuses, Settles}
use bgp_flowspec_receiver.Wire.Message.{OpenInfo}
use bgp_flowspec_receiver.Rib.{Route, Data}
use bgp_flowspec_receiver.Rib.Apply.{Identity}
use bgp_flowspec_receiver.Session.Config.{Config, validate}
use bgp_flowspec_receiver.Session.Valid.{validate_iff}
use bgp_flowspec_receiver.Session.Value.{from_value}
use bgp_flowspec_receiver.Session.Value.Resolved.{Read, from_value-Read}
use bgp_flowspec_receiver.Json.{Json, flag, string, Members, get_member, get-insert_member}
use bgp_flowspec_receiver.App.State.{App, Note}
use bgp_flowspec_receiver.App.Machine.{
  asks, to_start, Stage, free, session_wait, capture_wait, World, ask, act,
}
use bgp_flowspec_receiver.App.Http.{status, bad, requested, start_request}

module _ (config_json : Config → Members) (peer_json : OpenInfo → Json) (stats_json : Data → Json)
    (now_text : ℕ → String) where
  -- The flags and the state of the program stand in the status under their names, whatever the configuration has.
  status-members :
      (app : App)
      → let m = status config_json peer_json stats_json now_text app in
        (get_member "running" m ≡ some (flag app.running))
        × (get_member "state" m ≡ some (string app.state))
        × (get_member "capture_running" m ≡ some (flag app.capturing))
  unfolding status
  status-members app = (simp get-insert_member, simp get-insert_member, simp get-insert_member)

if_free :
    (x : Option World) (w : World) (stage : Stage)
    → stage ≡ free
    → elim stage [ free ↦ x | session_wait j ↦ some w | capture_wait j ↦ some w ] ≡ x
if_free x w free e = refl
if_free x w (session_wait j) e = cc
if_free x w (capture_wait j) e = cc

if_valid :
    (config : Config) (w : World) (r : Result String (Unit {0}))
    → r ≡ ok tt
    → elim r [
      | ok _ ↦ some (record w { stage = session_wait (to_start config) })
      | err e ↦ some w
      | fault f ↦ some w
    ]
      ≡ some (record w { stage = session_wait (to_start config) })
if_valid config w (ok _) e = refl
if_valid config w (err m) e = cc
if_valid config w (fault f) e = cc

module _ (digest : String → String → String → Identity → String) (time : ℕ → String)
    (text_of : ℕ → Note → List ℕ) (to_json : Route → String) (config_json : Config → Members)
    (parse : String → Option Json) (deserialize : Members → Result String Config) where
  -- The outcome of a request.
  pub data Requested (body : Result String Json) (w : World)
      : Option World × Option (ℕ × String) → Type 0 where
    rejected : (m : String) → Requested body w (some w, some (bad m))
    waits :
        (v : Json) (config : Config)
        → body ≡ ok v
        → Read parse deserialize v config
        → Requested body w (some (record w { stage = session_wait (to_start config) }), none)

  asked :
      (config : Config) (w : World)
      → w.stage ≡ free
      → validate config ≡ ok tt
      → act digest time text_of to_json config_json (asks (to_start config)) w
        ≡ some (record w { stage = session_wait (to_start config) })
  unfolding act
  asked config w f v =
      if_free (ask (to_start config) w) w w.stage f ∙ if_valid config w (validate config) v

  value_requested :
      (v : Json) (w : World) (r : Result String Config)
      → w.stage ≡ free
      → Ensures (Read parse deserialize v) r
      → Requested (ok v) w (requested digest time text_of to_json config_json parse deserialize w r)
  value_requested v w _ f (returns config read) =
      subst (λ (o : Option World). Requested (ok v) w (o, none))
        (sym (asked config w f ((validate_iff config).1 read.valid))) (waits v config refl read)
  value_requested v w _ f (refuses m) = rejected m

  -- If serde reads every object or refuses it, a request for a session on a program whose lock is free never
  -- panics. Either it is refused with 400 and the program is as before, or its body is a JSON value
  -- that `from_value` reads as a valid configuration, and the handler has the lock, waits for the session's
  -- task and will start a session with this configuration.
  pub start_request-Requested :
      (body : Result String Json) (w : World)
      → Settles body
      → ((m : Members) → Settles (deserialize m))
      → w.stage ≡ free
      → Requested body w
          (start_request digest time text_of to_json config_json parse deserialize body w)
  unfolding start_request
  start_request-Requested _ w (returns v _) d f =
      value_requested v w (from_value parse deserialize v) f (from_value-Read parse deserialize v d)
  start_request-Requested _ w (refuses m) d f = rejected m
