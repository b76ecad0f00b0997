-- ===== src/Main/Startup/Outcome.antt =====
-- How `start_up` ends.
use mathlib.Core.Path.{subst}
use bgp_flowspec_receiver.Prelude.{
  ℕ, ◌<◌, ◌≡◌, inl, inr, refl, sym, ap, ◌∙◌, Bool, true, false, String, Option, none, some, List,
  arith,
}
use bgp_flowspec_receiver.Prelude.Dict
use bgp_flowspec_receiver.Wire.Result.{Result, ok, err, fault, Settles}
use bgp_flowspec_receiver.Rib.{Route, empty, ◌>>=◌}
use bgp_flowspec_receiver.Rib.Apply.{Identity}
use bgp_flowspec_receiver.Session.Config.{Config, validate}
use bgp_flowspec_receiver.Json.{Members}
use bgp_flowspec_receiver.App.Flush.{Disk, Flushed, flush}
use bgp_flowspec_receiver.App.Flush.Atomic.{flush-Saved}
use bgp_flowspec_receiver.App.State.{App, Io, Note, new, begin, begun, flushing, flushed, launched}
use bgp_flowspec_receiver.App.Machine.{World, Label, run_labels, Run, connecting, boot, begun_in}
use bgp_flowspec_receiver.App.Machine.Invariant.{Sound}
use bgp_flowspec_receiver.App.Machine.Kept.{Yields, yields}
use bgp_flowspec_receiver.App.Machine.Handlers.{begin-Sound, validate-IsHold}
use bgp_flowspec_receiver.App.Machine.Sound.{boot-Sound, run-Sound}
use bgp_flowspec_receiver.Session.Valid.{validate-Settles}
use bgp_flowspec_receiver.Main.{Args, configure}
use bgp_flowspec_receiver.Main.Options.{Fits, given, configure-Fits}
use bgp_flowspec_receiver.Main.Startup.{Startup, launch, listening, start_up}

-- Why `main` returns the error `e`.
pub data Refusal (to_json : Route → String) (args : Args) (disk : Disk) (unbound : Option String)
    (io : Io) (e : String) : Type 0 where
  incomplete : 0 < given args → given args < 4 → Refusal to_json args disk unbound io e
  not_bound : unbound ≡ some e → Refusal to_json args disk unbound io e
  not_valid :
      (config : Config)
      → configure args ≡ ok (some config)
      → validate config ≡ err e
      → Refusal to_json args disk unbound io e
  not_saved :
      (config : Config)
      → configure args ≡ ok (some config)
      → e ≡ io.reason
      → (flush to_json true args.json_output io.outcome io.now empty disk).ok ≡ false
      → Refusal to_json args disk unbound io e

-- The session that the options ask for.
abbrev pub Asked : Args → Option (Config × Run) → Type 0
Asked args none = given args ≡ 0
Asked args (some (config, run)) =
    (configure args ≡ ok (some config)) × (validate config ≡ ok tt) × (run ≡ connecting)

-- The file that the options name is as before.
abbrev pub Unchanged : Option String → Disk → Disk → Type 0
Unchanged none disk after = Unit {0}
Unchanged (some path) disk after = Dict.get path after ≡ Dict.get path disk

same_file : (output : Option String) (disk : Disk) → Unchanged output disk disk
same_file none disk = tt
same_file (some path) disk = refl

module _ (digest : String → String → String → Identity → String) (time : ℕ → String)
    (text_of : ℕ → Note → List ℕ) (to_json : Route → String) (config_json : Config → Members)
    (args : Args) (disk : Disk) (unbound : Option String) (io : Io) where
  -- Sound, whatever sections of the tasks follow.
  abbrev pub Lasting : World → Type 0
  Lasting w =
      (labels : List Label)
      → Yields (Sound digest) (run_labels digest time text_of to_json config_json labels w)

  lasting : (w : World) → Sound digest w → Lasting w
  lasting w s labels = run-Sound digest time text_of to_json config_json labels w s

  booted-Lasting : Lasting (boot args.json_output disk)
  booted-Lasting =
      lasting (boot args.json_output disk)
        (boot-Sound digest time text_of to_json config_json args.json_output disk)

  abbrev pub Ends : Startup → Type 0
  Ends s = elim s.result as (λ r. Type 0) [
    | ok w ↦ Lasting w × (w.app.disk ≡ s.disk) × (unbound ≡ none) × Asked args w.session
    | err e ↦ Refusal to_json args disk unbound io e × Unchanged args.json_output disk s.disk
    | fault f ↦ ⊥
  ]

  abbrev booted : World
  booted = boot args.json_output disk

  spawned-Ends :
      (config : Config) (m : Option App)
      → configure args ≡ ok (some config)
      → validate config ≡ ok tt
      → unbound ≡ none
      → Yields (Sound digest) (
          begun_in digest time text_of to_json config_json config booted
            (m >>= λ app. some (app, true)))
      → Yields Ends
          (launch text_of to_json config_json config io booted (m >>= λ app. some (app, true)))
  spawned-Ends config none c v u y = elim y [ ]
  spawned-Ends config (some app) c v u (yields w s) = yields _ (lasting w s, refl, u, (c, v, refl))

  -- A `flush` that fails leaves the file as it is.
  unsaved :
      (output : Option String)
      → (flush to_json true output io.outcome io.now empty disk).ok ≡ false
      → Unchanged output disk (flush to_json true output io.outcome io.now empty disk).disk
  unsaved none bad = tt
  unsaved (some path) bad =
      elim (flush-Saved to_json true path io.outcome io.now empty disk refl).file [
        | inl (old, rest) ↦ old
        | inr (new, (good, rest)) ↦ absurd (ground (arith, good, bad))
      ]

  begun-Ends :
      (config : Config) (r : Flushed) (saved : Bool)
      → r ≡ flush to_json true args.json_output io.outcome io.now empty disk
      → r.ok ≡ saved
      → configure args ≡ ok (some config)
      → validate config ≡ ok tt
      → unbound ≡ none
      → Yields (Sound digest) (
          begun_in digest time text_of to_json config_json config booted (
            begun text_of to_json config_json config io saved
              (flushed text_of to_json r booted.app)))
      → Yields Ends (
          launch text_of to_json config_json config io booted (
            begun text_of to_json config_json config io saved
              (flushed text_of to_json r booted.app)))
  begun-Ends config r true is e c v u s =
      spawned-Ends config
        (launched text_of to_json config_json config io (flushed text_of to_json r booted.app)) c v
        u s
  begun-Ends config r false is e c v u s =
      let bad : (flush to_json true args.json_output io.outcome io.now empty disk).ok ≡ false =
        ap (λ (r : Flushed). r.ok) (sym is) ∙ e in
      yields _ (
        not_saved config c refl bad,
        subst (λ (r : Flushed). Unchanged args.json_output disk r.disk) (sym is)
            (unsaved args.json_output bad),
      )

  started-Ends :
      (config : Config)
      → configure args ≡ ok (some config)
      → validate config ≡ ok tt
      → unbound ≡ none
      → Yields Ends (
          launch text_of to_json config_json config io booted
            (begin text_of to_json config_json config io booted.app))
  unfolding begin boot new
  started-Ends config c v u =
      let r = flushing text_of to_json true io booted.app in
      begun-Ends config r r.ok refl refl c v u (
        begin-Sound digest time text_of to_json config_json config io booted
          (boot-Sound digest time text_of to_json config_json args.json_output disk) refl
          (validate-IsHold config v))

  validated-Ends :
      (config : Config) (r : Result String (Unit {0}))
      → configure args ≡ ok (some config)
      → validate config ≡ r
      → unbound ≡ none
      → Settles r
      → Yields Ends (elim r [
        | err e ↦ some (record { disk = booted.app.disk; result = err e })
        | fault f ↦ none
        | ok _ ↦
            launch text_of to_json config_json config io booted
              (begin text_of to_json config_json config io booted.app)
      ])
  unfolding boot new
  validated-Ends config (ok tt) c v u d = started-Ends config c v u
  validated-Ends config (err e) c v u d =
      yields _ (not_valid config c v, same_file args.json_output disk)
  validated-Ends config (fault f) c v u d = elim d [ ]

  listening-Ends :
      (config : Option Config) (bound : Option String)
      → configure args ≡ ok config
      → unbound ≡ bound
      → Fits (given args) (ok config)
      → Yields Ends (listening text_of to_json config_json config bound io booted)
  unfolding boot new
  listening-Ends config (some e) c u f = yields _ (not_bound u, same_file args.json_output disk)
  listening-Ends none none c u f = yields _ (booted-Lasting, refl, u, f)
  listening-Ends (some config) none c u f =
      validated-Ends config (validate config) c refl u (validate-Settles config)

  configured-Ends :
      (r : Result String (Option Config))
      → configure args ≡ r
      → Fits (given args) r
      → Yields Ends (elim r [
        | err e ↦ some (record { disk = disk; result = err e })
        | fault f ↦ none
        | ok config ↦ listening text_of to_json config_json config unbound io booted
      ])
  configured-Ends (err e) c f = yields _ (incomplete f.0 f.1, same_file args.json_output disk)
  configured-Ends (fault x) c f = elim f [ ]
  configured-Ends (ok config) c f = listening-Ends config unbound c refl f

  -- `main` does not panic before it serves. Either it serves: the listener is bound, the program is
  -- sound and stays so whatever sections of its tasks follow, and a session is there exactly when all
  -- four options are given, with their configuration, which is valid. Or it returns an error: some of
  -- the four options are given and some are not, the listener is not bound, the configuration is not
  -- valid or the first `flush` fails; and then the file that the options name is as before.
  pub start_up-Ends : Yields Ends (start_up text_of to_json config_json args disk unbound io)
  unfolding start_up
  start_up-Ends = configured-Ends (configure args) refl (configure-Fits args)
