-- ===== src/Session/Runs/Cleared.antt =====
-- The table before and behind each connection of `run_visits`.
use bgp_flowspec_receiver.Prelude.{ℕ, ◌≡◌, refl, String, List, [], ◌∷◌}
use bgp_flowspec_receiver.Wire.Result.{Result, Ensures, returns, refuses, Ensures-bind}
use bgp_flowspec_receiver.Wire.Message.Open.{IsHold}
use bgp_flowspec_receiver.Rib.{Data, clear}
use bgp_flowspec_receiver.Rib.Apply.{Identity}
use bgp_flowspec_receiver.Rib.Reachable.{Reachable, cleared}
use bgp_flowspec_receiver.Session.Config.{Config}
use bgp_flowspec_receiver.Session.Connection.{Connection, Event, connect, step}
use bgp_flowspec_receiver.Session.Connection.Invariant.{Sound, connect-Sound}
use bgp_flowspec_receiver.Session.Connection.Steps.{step-Ensures}
use bgp_flowspec_receiver.Session.Runs.{Visit, disconnect, serve, run_visits}

module _ (digest : String → String → String → Identity → String) (time : ℕ → String)
    (config : Config) where
  after_step :
      (events : List (Event × ℕ)) (event : Event) (now : ℕ) (c : Connection)
      (r : Result String Connection)
      → step digest time config event now c ≡ r
      → Sound digest config c
      → Ensures (Sound digest config) r
      → ((c' : Connection)
          → Sound digest config c'
          → Ensures (λ ended. Sound digest config ended.last) (serve digest time config events c'))
      → Ensures
          (λ ended. Sound digest config ended.last)
          (serve digest time config ((event, now) ∷ events) c)
  unfolding serve
  after_step events event now c _ e s (returns c' s') k = rw (e, serve) (k c' s')
  after_step events event now c _ e s (refuses m) k = rw (e, serve) (returns _ s)

  serve-Ensures :
      (events : List (Event × ℕ)) (c : Connection)
      → Sound digest config c
      → Ensures (λ ended. Sound digest config ended.last) (serve digest time config events c)
  unfolding serve
  serve-Ensures [] c s = returns _ s
  serve-Ensures ((event, now) ∷ events) c s =
      after_step events event now c (step digest time config event now c) refl s
        (step-Ensures digest time config event now c s) (serve-Ensures events)

  disconnect-Reachable :
      (now : ℕ) (c : Connection)
      → Sound digest config c
      → Reachable digest (disconnect now c).rib × ((disconnect now c).rib.routes ≡ [])
  unfolding disconnect clear
  disconnect-Reachable now c s = (cleared now c.rib s.reached, refl)

  -- With a valid hold time, `run` serves any number of connections one after another on a table without
  -- routes, whatever their events are, and never panics. The table is without routes again after the
  -- last one, so that no route of a connection is left when it has ended, with whatever error.
  pub run_visits-Ensures :
      (visits : List Visit) (rib : Data)
      → IsHold config.hold_time
      → Reachable digest rib
      → rib.routes ≡ []
      → Ensures
          (λ after. Reachable digest after × (after.routes ≡ []))
          (run_visits digest time config visits rib)
  unfolding run_visits
  run_visits-Ensures [] rib h r e = returns rib (r, e)
  run_visits-Ensures (v ∷ visits) rib h r e =
      Ensures-bind _
        (serve-Ensures v.events (connect config v.start rib)
          (connect-Sound digest config v.start rib h r e))
        (λ ended s.
          let (r', e') = disconnect-Reachable v.end ended.last s in
          run_visits-Ensures visits (disconnect v.end ended.last).rib h r' e')
