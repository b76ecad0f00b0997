-- ===== src/App/Machine/Health.antt =====
-- What GET /health answers, beside where the session stands.
use mathlib.Core.Path.{subst}
use text.Mathlib.TextEquality.{eq_iff}
use bgp_flowspec_receiver.Prelude.{
  ℕ, ◌≡◌, ◌≢◌, ◌⊎◌, inl, inr, refl, sym, ◌∙◌, Bool, true, false, ◌&&◌, String, Option, none, some,
  List, Bool-cases, arith, str_eq,
}
use bgp_flowspec_receiver.Wire.Message.{OpenInfo}
use bgp_flowspec_receiver.Rib.{Route, Data}
use bgp_flowspec_receiver.Rib.Apply.{Identity}
use bgp_flowspec_receiver.Session.Config.{Config}
use bgp_flowspec_receiver.Session.Connection.{Connection}
use bgp_flowspec_receiver.Session.Connection.Invariant as Conn
use bgp_flowspec_receiver.Session.Connection.Invariant.{opening, confirmed}
use bgp_flowspec_receiver.Json.{Members}
use bgp_flowspec_receiver.App.Flush.{Disk}
use bgp_flowspec_receiver.App.State.{App, Note, health}
use bgp_flowspec_receiver.App.Machine.{
  Run, connecting, up, dropped, cleared, leaving, World, Label, boot, run_labels,
}
use bgp_flowspec_receiver.App.Machine.Invariant.{Serving, Serves, Sound}
use bgp_flowspec_receiver.App.Machine.Kept.{Yields, Yields-weaken, apart}
use bgp_flowspec_receiver.App.Machine.Sound.{run_labels-Sound}

-- The session has a connection that is established, or one that has just ended.
pub data Lives : Option (Config × Run) → Type 0 where
  established :
      (config : Config) (c : Connection) → c.established ≡ true → Lives (some (config, up c))
  ended : (config : Config) (e : Option String) → Lives (some (config, dropped e))
  emptied : (config : Config) (e : Option String) → Lives (some (config, cleared e))

-- What the status says of the session.
pub record Answers (status : ℕ) (session : Option (Config × Run)) : Type 0 where
  pub only : status ≡ 200 → Lives session
  pub always :
      (config : Config) (c : Connection)
      → session ≡ some (config, up c)
      → c.established ≡ true
      → status ≡ 200

refused :
    (app : App) → (app.running && str_eq app.state "ESTABLISHED") ≡ false → (health app).0 ≡ 503
unfolding health
refused app n = rw n refl

health-ok : (app : App) → (health app).0 ≡ 200 → (app.running ≡ true) × (app.state ≡ "ESTABLISHED")
unfolding health
health-ok app e = elim (Bool-cases (app.running && str_eq app.state "ESTABLISHED")) [
  | inl y ↦ (ground (arith, y), ground (arith, y, eq_iff app.state "ESTABLISHED"))
  | inr n ↦ let bad = sym (refused app n) ∙ e in absurd (omega arith)
]

health-up : (app : App) → app.running ≡ true → app.state ≡ "ESTABLISHED" → (health app).0 ≡ 200
unfolding health
health-up app r s = rw (r, s) refl

module _ (digest : String → String → String → Identity → String) where
  up-established :
      (config : Config) (c : Connection)
      → Conn.Phase config c
      → (c.established ≡ true) ⊎ (c.state ≢ "ESTABLISHED")
  up-established config c (opening o e st r) =
      inr (subst (λ s. s ≢ "ESTABLISHED") (sym st) (apart "OPEN_SENT" "ESTABLISHED" refl))
  up-established config c (confirmed info o e st i p r) =
      inr (subst (λ s. s ≢ "ESTABLISHED") (sym st) (apart "OPEN_CONFIRMED" "ESTABLISHED" refl))
  up-established config c (Conn.up info o e st i p) = inl e

  established_state :
      (config : Config) (c : Connection)
      → Conn.Phase config c
      → c.established ≡ true
      → c.state ≡ "ESTABLISHED"
  established_state config c (opening o e st r) y = cc
  established_state config c (confirmed info o e st i p r) y = cc
  established_state config c (Conn.up info o e st i p) y = st

  lives :
      (running : Bool) (config : Option Config) (state : String) (peer : Option OpenInfo)
      (rib : Data) (session : Option (Config × Run))
      → Serving digest running config state peer rib session
      → running ≡ true
      → state ≡ "ESTABLISHED"
      → Lives session
  lives running config state peer rib none v r s = let off = v.0 in cc
  lives running config state peer rib (some (cfg, connecting)) (on, c, h, calm) r s =
      absurd (calm.1 s)
  lives running config state peer rib (some (cfg, up c)) (on, o, h, (cs, st, p)) r s =
      elim (up-established cfg (record c { rib = rib }) cs.phase) [
        | inl e ↦ established cfg c e
        | inr ne ↦ absurd (ne (sym st ∙ s))
      ]
  lives running config state peer rib (some (cfg, dropped e)) v r s = ended cfg e
  lives running config state peer rib (some (cfg, cleared e)) v r s = emptied cfg e
  lives running config state peer rib (some (cfg, leaving)) (on, c, h, calm) r s = absurd (calm.1 s)

  Sound-health : (w : World) → Sound digest w → Answers (health w.app).0 w.session
  Sound-health w s = record {
    only = λ e.
        let (on, st) = health-ok w.app e in
        lives w.app.running w.app.config w.app.state w.app.peer_info w.app.rib w.session s.serves on
          st;
    always = λ config c e y.
        let (on, o, h, (cs, st, p)) = subst (Serves digest w.app) e s.serves in
        health-up w.app on
          (st ∙ established_state config (record c { rib = w.app.rib }) cs.phase y);
  }

  module _ (time : ℕ → String) (text_of : ℕ → Note → List ℕ) (to_json : Route → String)
      (config_json : Config → Members) where
    -- After any sections of the tasks, /health answers 200 only if the session has an established
    -- connection, or one that has just ended and whose state is not IDLE yet; and as long as a
    -- connection is established, it does answer 200.
    pub run_labels-health :
        (labels : List Label) (output : Option String) (disk : Disk)
        → Yields
            (λ w. Answers (health w.app).0 w.session)
            (run_labels digest time text_of to_json config_json labels (boot output disk))
    run_labels-health labels output disk =
        Yields-weaken Sound-health
          (run_labels-Sound digest time text_of to_json config_json labels output disk)
