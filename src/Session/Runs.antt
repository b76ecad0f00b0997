-- ===== src/Session/Runs.antt =====
-- The loop of `run` in session.rs over the connections that it makes one after another: each is served until
-- it ends, then the table is cleared. Accepting, connecting and waiting are the sockets' and the clock's.
pub mod Cleared
use bgp_flowspec_receiver.Prelude.{ℕ, String, Option, none, some, List, [], ◌∷◌}
use bgp_flowspec_receiver.Wire.Result.{Result, ok, err, fault, Fault, ◌>>=◌}
use bgp_flowspec_receiver.Rib.{Data, clear}
use bgp_flowspec_receiver.Rib.Apply.{Identity}
use bgp_flowspec_receiver.Session.Config.{Config}
use bgp_flowspec_receiver.Session.Connection.{Connection, Event, connect, step}

-- How a connection ends: with the error of `connected`, or when `run` is told to stop.
pub record Ended : Type 0 where
  pub last : Connection
  pub error : Option String

-- What `run` does behind a connection.
unfoldable pub disconnect : ℕ → Connection → Connection
unfolding clear
disconnect now c = record c { rib = clear now c.rib; peer_info = none; state = "IDLE" }

-- The events of one connection, the time of its start, and that of its end.
pub record Visit : Type 0 where
  pub start : ℕ
  pub events : List (Event × ℕ)
  pub end : ℕ

module _ (digest : String → String → String → Identity → String) (time : ℕ → String)
    (config : Config) where
  -- What the rest of the loop does with the outcome of an event. An error leaves the connection as it was
  -- before the event.
  unfoldable pub serve : List (Event × ℕ) → Connection → Result Fault Ended
  unfolding step
  serve [] c = ok (record { last = c; error = none })
  serve ((event, now) ∷ events) c = elim (step digest time config event now c) [
    | ok c' ↦ serve events c'
    | err e ↦ ok (record { last = c; error = some e })
    | fault f ↦ fault f
  ]

  -- One connection after another, on the data of the program.
  unfoldable pub run_visits : List Visit → Data → Result Fault Data
  unfolding serve connect disconnect
  run_visits [] rib = ok rib
  run_visits (v ∷ visits) rib = do
    ended ← serve v.events (connect config v.start rib)
    run_visits visits (disconnect v.end ended.last).rib
