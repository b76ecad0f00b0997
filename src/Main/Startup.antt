-- ===== src/Main/Startup.antt =====
-- `main` of main.rs up to the tasks that it spawns. Whether the listener is bound is a parameter, with the
-- error's text if it is not; what `App::start` meets on the disk is an `Io`.
pub mod Outcome
use bgp_flowspec_receiver.Prelude.{ℕ, Bool, true, false, String, Option, none, some, List}
use bgp_flowspec_receiver.Wire.Result.{Result, ok, err, fault}
use bgp_flowspec_receiver.Rib.{Route}
use bgp_flowspec_receiver.Session.Config.{Config, validate}
use bgp_flowspec_receiver.Json.{Members}
use bgp_flowspec_receiver.App.Flush.{Disk}
use bgp_flowspec_receiver.App.State.{App, Io, Note, begin}
use bgp_flowspec_receiver.App.Machine.{World, connecting, free, boot}
use bgp_flowspec_receiver.Main.{Args, configure}

-- The files, and the program that serves or the error that `main` returns.
pub record Startup : Type 0 where
  pub disk : Disk
  pub result : Result String World

module _ (text_of : ℕ → Note → List ℕ) (to_json : Route → String)
    (config_json : Config → Members) where
  -- `app.start(config).await?`
  abbrev pub launch : Config → Io → World → Option (App × Bool) → Option Startup
  launch config io w none = none
  launch config io w (some (app, true)) =
      let w : World = record w { app = app; session = some (config, connecting); stage = free } in
      some (record { disk = app.disk; result = ok w })
  launch config io w (some (app, false)) = some (record { disk = app.disk; result = err io.reason })

  abbrev pub start_session : Config → Io → World → Option Startup
  start_session config io w = elim (validate config) [
    | err e ↦ some (record { disk = w.app.disk; result = err e })
    | fault f ↦ none
    | ok _ ↦ launch config io w (begin text_of to_json config_json config io w.app)
  ]

  -- Behind `App::new`: the listener, then the session.
  abbrev pub listening : Option Config → Option String → Io → World → Option Startup
  listening config (some e) io w = some (record { disk = w.app.disk; result = err e })
  listening none none io w = some (record { disk = w.app.disk; result = ok w })
  listening (some config) none io w = start_session config io w

  unfoldable pub start_up : Args → Disk → Option String → Io → Option Startup
  unfolding configure boot begin validate
  start_up args disk unbound io = elim (configure args) [
    | err e ↦ some (record { disk = disk; result = err e })
    | fault f ↦ none
    | ok config ↦ listening config unbound io (boot args.json_output disk)
  ]
