-- ===== src/Main/Tests.antt =====
-- The theorem about the start of the program at a command line with the four options, which names a file.
use bgp_flowspec_receiver.Prelude.{ℕ, ◌≡◌, refl, String, Option, none, some, List, [], ◌∷◌, format}
use bgp_flowspec_receiver.Wire.Address.{Ipv4Addr}
use bgp_flowspec_receiver.Wire.Result.{ok, err, fault}
use bgp_flowspec_receiver.Rib.{Route}
use bgp_flowspec_receiver.Rib.Apply.{Identity}
use bgp_flowspec_receiver.Session.Config.{Config}
use bgp_flowspec_receiver.Json.{Members, end}
use bgp_flowspec_receiver.App.Flush.{Disk, failed}
use bgp_flowspec_receiver.App.State.{Io, Note}
use bgp_flowspec_receiver.App.Machine.Kept.{Yields}
use bgp_flowspec_receiver.Main.{Args, default_args}
use bgp_flowspec_receiver.Main.Startup.{Startup, start_up}
use bgp_flowspec_receiver.Main.Startup.Outcome.{Ends, start_up-Ends}

abbrev address : Ipv4Addr
address = record { a = 192; b = 0; c = 2; d = 1 }

abbrev four_options : Args
four_options = record default_args {
  local_as = some 64512;
  router_id = some address;
  peer_ip = some address;
  peer_as = some 65536;
  json_output = some "routes.json";
}

abbrev digest : String → String → String → Identity → String
digest family afi peer identity = format (family ∷ afi ∷ peer ∷ [])

abbrev clock : ℕ → String
clock now = "12:00"

abbrev text_of : ℕ → Note → List ℕ
text_of now note = 123 ∷ 125 ∷ []

abbrev to_json : Route → String
to_json r = r.id

abbrev config_json : Config → Members
config_json c = end

-- The first call on a file fails.
abbrev no_space : Io
no_space = record { now = 0; outcome = λ i. failed 0; reason = "No space left on device" }

abbrev disk : Disk
disk = ("routes.json", "old") ∷ []

start_up-Ends_example :
    Yields
      (Ends digest clock text_of to_json config_json four_options disk none no_space)
      (start_up text_of to_json config_json four_options disk none no_space)
start_up-Ends_example =
    start_up-Ends digest clock text_of to_json config_json four_options disk none no_space

-- The error of a start, or the empty text.
abbrev error_of : Option Startup → String
error_of none = "panic"
error_of (some s) = elim s.result [ ok w ↦ "" | err e ↦ e | fault f ↦ "panic" ]

full_disk :
    error_of (start_up text_of to_json config_json four_options disk none no_space)
    ≡ "No space left on device"
unfolding start_up default_args
full_disk = refl

port_in_use :
    error_of (
      start_up text_of to_json config_json four_options disk
        (some "Address already in use")
        no_space)
    ≡ "Address already in use"
unfolding start_up default_args
port_in_use = refl
