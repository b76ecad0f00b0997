-- ===== src/Session/Config.antt =====
-- `Config::validate` of session.rs. A time in seconds is an `f64`: NaN, an infinity, or exactly a sign and
-- a multiple of 2^-1074. `from_value`, which reads the JSON, calls serde_json and is left out.
use bgp_flowspec_receiver.Prelude.{
  ℕ, ◌*◌, ◌^◌, ◌<◌, ◌≤◌, ◌≡◌, Bool, true, false, ◌||◌, ◌&&◌, not, String, Option, [], ◌∷◌, ltb,
  ◌==◌, format, if◌then◌else◌,
}
use bgp_flowspec_receiver.Wire.Result.{Result, refuse_if, ◌>>◌}
use bgp_flowspec_receiver.Wire.Address.{Ipv4Addr}
use bgp_flowspec_receiver.Wire.Message.Open.{IsHold}

pub data Double : Type 0 where
  nan : Double
  infinite : Bool → Double
  finite : Bool → ℕ → Double

-- 86400.0 in these units.
unfoldable pub day : ℕ
day = 86400 * 2 ^ 1074

pub record Config : Type 0 where
  pub local_as : ℕ
  pub router_id : Ipv4Addr
  pub peer_ip : Ipv4Addr
  pub peer_as : ℕ
  pub hold_time : ℕ
  pub reconnect_delay : Double
  pub connect_timeout : Double
  pub active_retry_delay : Double
  pub listen_port : ℕ
  pub json_output : Option String

-- `!v.is_finite() || v < 0.0 || (!allow_zero && v == 0.0) || v > 86400.0`; -0.0 is not below 0.0.
unfoldable pub refused_delay : Bool → Double → Bool
unfolding day
refused_delay allow_zero nan = true
refused_delay allow_zero (infinite negative) = true
refused_delay allow_zero (finite negative units) =
    negative && not (units == 0) || not allow_zero && units == 0 || not negative && ltb (day) units

-- One round of the loop over the three delays.
abbrev pub check_delay : String → Double → Bool → Result String (Unit {0})
check_delay name value allow_zero = refuse_if (refused_delay allow_zero value) (
    format (
      "Invalid "
      ∷ name
      ∷ ": expected "
      ∷ (if allow_zero then "0" else "positive")
      ∷ "..86400 seconds"
      ∷ []))

unfoldable pub validate : Config → Result String (Unit {0})
unfolding refused_delay
validate c = do
  refuse_if (c.local_as == 0 || c.peer_as == 0) "AS numbers must be positive"
  refuse_if (not (c.hold_time == 0) && ltb c.hold_time 3)
      "Hold time must be zero or at least 3 seconds"
  refuse_if (c.listen_port == 0) "Listen port must be positive"
  check_delay "reconnect_delay" c.reconnect_delay true
  check_delay "connect_timeout" c.connect_timeout false
  check_delay "active_retry_delay" c.active_retry_delay false

-- A time of at most a day: not negative, unless it is -0.0.
pub data Within (least : ℕ) : Double → Type 0 where
  positive : (units : ℕ) → least ≤ units → units ≤ day → Within least (finite false units)
  minus_zero : least ≡ 0 → Within least (finite true 0)

pub record IsValid (c : Config) : Type 0 where
  pub local : 0 < c.local_as
  pub peer : 0 < c.peer_as
  pub hold : IsHold c.hold_time
  pub port : 0 < c.listen_port
  pub reconnect : Within 0 c.reconnect_delay
  pub connect : Within 1 c.connect_timeout
  pub retry : Within 1 c.active_retry_delay
