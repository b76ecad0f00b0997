-- ===== src/App/Http/Tests.antt =====
-- The theorem about a request for a session at a body that lacks everything but an AS number.
use bgp_flowspec_receiver.Prelude.{
  ℕ, ◌≡◌, refl, String, Option, none, some, List, [], ◌∷◌, str_eq, format, if◌then◌else◌,
}
use bgp_flowspec_receiver.Wire.Result.{Result, ok, err, Settles, returns, refuses}
use bgp_flowspec_receiver.Rib.{Route}
use bgp_flowspec_receiver.Rib.Apply.{Identity}
use bgp_flowspec_receiver.Session.Config.{Config}
use bgp_flowspec_receiver.Json.{
  natural, Json, number, string, object, Members, end, member, get_member,
}
use bgp_flowspec_receiver.App.State.{Note}
use bgp_flowspec_receiver.App.Machine.{free, boot}
use bgp_flowspec_receiver.App.Http.{get, delete, clear_log, start_request, router}
use bgp_flowspec_receiver.App.Http.Requests.{Requested, start_request-Requested}

abbrev digest : String → String → String → Identity → String
digest family afi peer identity = format (family ∷ afi ∷ peer ∷ [])

abbrev clock : ℕ → String
clock now = "12:00"

abbrev text_of : ℕ → Note → List ℕ
text_of now note = 123 ∷ 125 ∷ []

abbrev to_json : Route → String
to_json r = r.id

abbrev config_json : Config → Members
config_json c = end

abbrev parse : String → Option Json
parse s = if str_eq s "64512" then some (number (natural 64512)) else none

-- The reading of serde on its second field.
abbrev peer_as_of : Option Json → Result String Config
peer_as_of none = err "missing field `peer_as`"
peer_as_of (some v) = err "missing field `router_id`"

abbrev deserialize : Members → Result String Config
deserialize m = peer_as_of (get_member "peer_as" m)

peer_as_of-Settles : (v : Option Json) → Settles (peer_as_of v)
peer_as_of-Settles none = refuses _
peer_as_of-Settles (some v) = refuses _

abbrev posted : Result String Json
posted = ok (object (member "local_as" (string "64512") end))

boot_free : (boot none []).stage ≡ free
unfolding boot
boot_free = refl

start_request-Requested_example :
    Requested digest clock text_of to_json config_json parse deserialize posted (boot none []) (
      start_request digest clock text_of to_json config_json parse deserialize posted
        (boot none []))
start_request-Requested_example =
    start_request-Requested digest clock text_of to_json config_json parse deserialize posted
      (boot none []) (returns _ tt) (λ m. peer_as_of-Settles (get_member "peer_as" m)) boot_free

router_run : router delete "/log" ∷ router get "/log" ∷ [] ≡ some clear_log ∷ none ∷ []
unfolding router
router_run = refl
