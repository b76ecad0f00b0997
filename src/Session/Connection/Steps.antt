-- ===== src/Session/Connection/Steps.antt =====
-- The invariant of a connection over `on_frame`, `step` and `run_events`.
use bgp_flowspec_receiver.Prelude.{
  ℕ, ◌+◌, ◌≡◌, inl, inr, Bool, true, ◌&&◌, not, String, List, [], ◌∷◌, ◌++◌, ltb, leb, ◌==◌,
  if◌then◌else◌, arith, Bool-cases,
}
use bgp_flowspec_receiver.Wire.Result.{Ensures, returns, refuses, Ensures-bind}
use bgp_flowspec_receiver.Wire.Message.{message}
use bgp_flowspec_receiver.Wire.Message.Open.{IsHold}
use bgp_flowspec_receiver.Rib.{Data}
use bgp_flowspec_receiver.Rib.Apply.{Identity}
use bgp_flowspec_receiver.Rib.Reachable.{Reachable}
use bgp_flowspec_receiver.Session.Config.{Config}
use bgp_flowspec_receiver.Session.Connection.{
  Connection, connect, Event, frame, hold_timer, keepalive_timer, failed, on_frame, extend, step,
  run_events, is_empty, keepalive_interval,
}
use bgp_flowspec_receiver.Session.Connection.Invariant.{
  opening, confirmed, up, Sound, connect-Sound, on_open-Ensures, on_keepalive-Sound,
  on_update-Ensures,
}

and_left : (a b : Bool) → a && b ≡ true → a ≡ true
and_left a b h = ground arith

and_right : (a b : Bool) → a && b ≡ true → b ≡ true
and_right a b h = ground arith

module _ (digest : String → String → String → Identity → String) (time : ℕ → String)
    (config : Config) where
  pub on_frame-Ensures :
      (kind : ℕ) (body : List ℕ) (now : ℕ) (c : Connection)
      → Sound digest config c
      → Ensures (Sound digest config) (on_frame digest time config kind body now c)
  unfolding on_frame
  on_frame-Ensures kind body now c s = elim (Bool-cases (kind == 1 && not c.received_open)) [
    | inl first ↦ rw first (on_open-Ensures digest config body now c s (ground (arith, first)))
    | inr e1 ↦ elim (Bool-cases (kind == 4 && (c.received_open && is_empty body))) [
      | inl alive ↦
          rw (e1, alive)
            (returns _ (
              on_keepalive-Sound digest config c s
                (and_left c.received_open (is_empty body) (and_right (kind == 4) _ alive))))
      | inr e2 ↦ elim (Bool-cases (kind == 2 && c.established)) [
        | inl news ↦
            rw (e1, e2, news)
              (on_update-Ensures digest time config body now c s
                (and_right (kind == 2) c.established news))
        | inr e3 ↦ elim (Bool-cases (kind == 3)) [
          | inl e4 ↦ rw (e1, e2, e3, e4) (refuses _)
          | inr e4 ↦ rw (e1, e2, e3, e4) (refuses _)
        ]
      ]
    ]
  ]

  timed :
      (c : Connection) (deadline next : ℕ) (written : List (List ℕ))
      → Sound digest config c
      → Sound digest config
          (record c { deadline = deadline; next_keepalive = next; written = written })
  timed c deadline next written s = record {
    lowered = s.lowered;
    allowed = s.allowed;
    width = s.width;
    reached = s.reached;
    phase = elim s.phase [
      | opening r e st routes ↦ opening r e st routes
      | confirmed info r e st i p routes ↦ confirmed info r e st i p routes
      | up info r e st i p ↦ up info r e st i p
    ];
  }

  extend-Sound :
      (now : ℕ) (c : Connection) → Sound digest config c → Sound digest config (extend now c)
  extend-Sound now c s =
      timed c (if ltb 0 c.hold then now + c.hold else c.deadline) c.next_keepalive c.written s

  -- From a sound connection, every event, whatever the peer sends, leaves a sound connection or ends it
  -- with an error; it never panics. Sound means: the hold time is 0 or at least 3 and at most the
  -- configured one; the AS number width is 2 or 4; the routes are reachable ones; and the state is
  -- OPEN_SENT without an OPEN, OPEN_CONFIRMED with an OPEN of the configured AS but no KEEPALIVE,
  -- both without routes, or ESTABLISHED.
  pub step-Ensures :
      (event : Event) (now : ℕ) (c : Connection)
      → Sound digest config c
      → Ensures (Sound digest config) (step digest time config event now c)
  unfolding step
  step-Ensures (frame kind body) now c s =
      Ensures-bind _ (on_frame-Ensures kind body now c s) (λ c s. returns _ (extend-Sound now c s))
  step-Ensures hold_timer now c s = elim (Bool-cases (ltb 0 c.hold && leb c.deadline now)) [
    | inl e ↦ rw e (refuses _)
    | inr e ↦ rw e (returns _ s)
  ]
  step-Ensures keepalive_timer now c s =
      elim (Bool-cases (c.received_open && (ltb 0 c.hold && leb c.next_keepalive now))) [
        | inl e ↦ rw e (
            returns _ (
              timed c c.deadline (now + keepalive_interval c.hold) (c.written ++ message 4 [] ∷ [])
                s))
        | inr e ↦ rw e (returns _ s)
      ]
  step-Ensures (failed e) now c s = refuses e

  events-Ensures :
      (events : List (Event × ℕ)) (c : Connection)
      → Sound digest config c
      → Ensures (Sound digest config) (run_events digest time config events c)
  unfolding run_events
  events-Ensures [] c s = returns c s
  events-Ensures ((event, now) ∷ events) c s =
      Ensures-bind _ (step-Ensures event now c s) (λ c s. events-Ensures events c s)

  -- A connection that starts with a valid hold time and no routes never panics, whatever its events are,
  -- and it is sound as long as it lasts.
  pub run_events-Ensures :
      (events : List (Event × ℕ)) (now : ℕ) (rib : Data)
      → IsHold config.hold_time
      → Reachable digest rib
      → rib.routes ≡ []
      → Ensures
          (Sound digest config)
          (run_events digest time config events (connect config now rib))
  run_events-Ensures events now rib h r e =
      events-Ensures events (connect config now rib) (connect-Sound digest config now rib h r e)
