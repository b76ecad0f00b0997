-- ===== src/App/Machine/Kept.antt =====
-- Results that are there and have a property, and what keeps a program sound.
use mathlib.Core.Option
use mathlib.Core.Path.{subst}
use text.Mathlib.TextEquality.{eq_iff}
use bgp_flowspec_receiver.Prelude.{
  ℕ, ◌≡◌, ◌≢◌, refl, sym, ◌∙◌, Bool, false, String, Option, none, some, [], arith, str_eq,
}
use bgp_flowspec_receiver.Wire.Message.{OpenInfo}
use bgp_flowspec_receiver.Rib.{Data, clear, ◌>>=◌}
use bgp_flowspec_receiver.Rib.Apply.{Identity}
use bgp_flowspec_receiver.Rib.Reachable.{Reachable}
use bgp_flowspec_receiver.History.Bounds.{Bounded}
use bgp_flowspec_receiver.Session.Config.{Config}
use bgp_flowspec_receiver.Session.Connection.Invariant.{Sound-rib}
use bgp_flowspec_receiver.App.State.{App}
use bgp_flowspec_receiver.App.Machine.{
  Run, connecting, up, leaving, to_stop, to_start, to_capture, to_end_capture, Stage, free,
  session_wait, capture_wait, World,
}
use bgp_flowspec_receiver.App.Machine.{dropped as dropped_run, cleared as cleared_run}
use bgp_flowspec_receiver.App.Machine.Invariant.{Waiting, Serving, Serves, Sound}
use bgp_flowspec_receiver.App.Machine.Touched.{Touched, same-Reachable, same-routes}

-- There is a result, and it has the property.
pub data Yields {ℓ κ} {A : Type ℓ} (P : A → Type κ) : Option A → Type (ℓ ⊔ κ) where
  yields : (a : A) → P a → Yields P (some a)

pub Yields-bind {ℓ κ ι μ} :
    {A : Type ℓ} {B : Type κ} {P : A → Type ι} {Q : B → Type μ} {m : Option A} (f : A → Option B)
    → Yields P m
    → ((a : A) → P a → Yields Q (f a))
    → Yields Q (m >>= f)
Yields-bind f (yields a p) k = k a p

pub yielded {ℓ κ} :
    {A : Type ℓ} {P : A → Type κ} {m : Option A} (d : A)
    → Yields P m
    → P (elim m [ none ↦ d | some a ↦ a ])
yielded d (yields a p) = p

pub Yields-weaken {ℓ κ ι} :
    {A : Type ℓ} {P : A → Type κ} {Q : A → Type ι} {m : Option A}
    → ((a : A) → P a → Q a)
    → Yields P m
    → Yields Q m
Yields-weaken k (yields a p) = yields a (k a p)

pub Yields-map {ℓ κ ι} :
    {A : Type ℓ} {B : Type κ} {P : B → Type ι} {m : Option A} (f : A → B)
    → Yields (λ a. P (f a)) m
    → Yields P (Option.map f m)
Yields-map f (yields a p) = yields (f a) p

pub apart : (s t : String) → str_eq s t ≡ false → s ≢ t
apart s t ne e = ground (arith, eq_iff s t)

pub clear-routes : (now : ℕ) (d : Data) → (clear now d).routes ≡ []
unfolding clear
clear-routes now d = refl

module _ (digest : String → String → String → Identity → String) where
  pub serves-same :
      (running : Bool) (config : Option Config) (state : String) (peer : Option OpenInfo)
      (rib rib' : Data) (session : Option (Config × Run))
      → Serving digest running config state peer rib session
      → Reachable digest rib'
      → rib'.routes ≡ rib.routes
      → Serving digest running config state peer rib' session
  serves-same running config state peer rib rib' none s r e = (s.0, s.1, e ∙ s.2)
  serves-same running config state peer rib rib' (some (cfg, connecting)) (on, c, h, calm) r e =
      (on, c, h, (e ∙ calm.0, calm.1))
  serves-same running config state peer rib rib' (some (cfg, up c)) (on, o, h, (s, st, p)) r e =
      (on, o, h, (Sound-rib digest cfg (record c { rib = rib }) rib' s r e, st, p))
  serves-same running config state peer rib rib' (some (cfg, dropped_run x)) (on, c, h, s) r e =
      (on, c, h, tt)
  serves-same running config state peer rib rib' (some (cfg, cleared_run x)) (on, c, h, s) r e =
      (on, c, h, e ∙ s)
  serves-same running config state peer rib rib' (some (cfg, leaving)) (on, c, h, calm) r e =
      (on, c, h, (e ∙ calm.0, calm.1))

  -- What `emit` and `save` change keeps a program sound.
  pub carried_app :
      (w : World) (r : Option App)
      → Sound digest w
      → Touched w.app r
      → Yields (λ app. Sound digest (record w { app = app })) r
  carried_app w r s t =
      let app : App = record w.app {
        history = t.history;
        sent = t.sent;
        rib = t.rib;
        disk = t.disk;
      } in
      let reached = same-Reachable w.app.rib t.rib s.reached t.same in
      subst (Yields (λ app. Sound digest (record w { app = app }))) (sym t.is) (
        yields app (record {
          bounded = t.bounded;
          reached = reached;
          serves =
              serves-same w.app.running w.app.config w.app.state w.app.peer_info w.app.rib t.rib
                w.session s.serves reached (same-routes w.app.rib t.rib t.same);
          waiting = s.waiting;
          captures = s.captures;
        }))

  pub carried-Sound :
      (w : World) (r : Option App)
      → Sound digest w
      → Touched w.app r
      → Yields (Sound digest) (Option.map (λ app. record w { app = app }) r)
  carried-Sound w r s t = Yields-map (λ app. record w { app = app }) (carried_app w r s t)

  pub still-Waiting :
      (stage : Stage) (session : Option (Config × Run)) (a b : Config × Run)
      → Waiting stage session
      → session ≡ some a
      → Waiting stage (some b)
  still-Waiting free session a b s e = tt
  still-Waiting (session_wait job) session a b s e = s
  still-Waiting (capture_wait to_stop) session a b s e = let n = s.1 in cc
  still-Waiting (capture_wait (to_start config)) session a b s e = let n = s.1 in cc
  still-Waiting (capture_wait to_capture) session a b s e = (tt, tt)
  still-Waiting (capture_wait to_end_capture) session a b s e = (tt, tt)

  pub gone-Waiting :
      (stage : Stage) (session : Option (Config × Run)) → Waiting stage session → Waiting stage none
  gone-Waiting free session s = tt
  gone-Waiting (session_wait job) session s = s
  gone-Waiting (capture_wait to_stop) session s = (tt, refl)
  gone-Waiting (capture_wait (to_start config)) session s = (s.0, refl)
  gone-Waiting (capture_wait to_capture) session s = (tt, tt)
  gone-Waiting (capture_wait to_end_capture) session s = (tt, tt)

  -- `run` comes to stand elsewhere.
  pub moved-Sound :
      (w : World) (a b : Config × Run) (app : App)
      → Sound digest w
      → w.session ≡ some a
      → Bounded app.history
      → Reachable digest app.rib
      → Serves digest app (some b)
      → app.capturing ≡ w.app.capturing
      → Sound digest (record w { app = app; session = some b })
  moved-Sound w a b app s e bounded reached serves same = record {
    bounded = bounded;
    reached = reached;
    serves = serves;
    waiting = still-Waiting w.stage w.session a b s.waiting e;
    captures = same ∙ s.captures;
  }
