-- ===== src/Main.antt =====
-- main.rs: the options that clap reads, and the configuration that `main` makes of them.
pub mod Options
pub mod Startup
mod Tests
use bgp_flowspec_receiver.Prelude.{ℕ, ◌*◌, ◌^◌, false, String, Option, none, some}
use bgp_flowspec_receiver.Wire.Result.{Result, ok, err}
use bgp_flowspec_receiver.Wire.Address.{Ipv4Addr}
use bgp_flowspec_receiver.Session.Config.{Config, Double, finite}

-- Without the address of the web page and the level of the log.
pub record Args : Type 0 where
  pub local_as : Option ℕ
  pub router_id : Option Ipv4Addr
  pub peer_ip : Option Ipv4Addr
  pub peer_as : Option ℕ
  pub hold_time : ℕ
  pub reconnect_delay : Double
  pub connect_timeout : Double
  pub active_retry_delay : Double
  pub listen_port : ℕ
  pub json_output : Option String

-- A whole number of seconds as an `f64`.
abbrev seconds : ℕ → Double
seconds n = finite false (n * 2 ^ 1074)

-- What clap gives without any option.
unfoldable pub default_args : Args
default_args = record {
  local_as = none;
  router_id = none;
  peer_ip = none;
  peer_as = none;
  hold_time = 90;
  reconnect_delay = seconds 5;
  connect_timeout = seconds 5;
  active_retry_delay = seconds 1;
  listen_port = 179;
  json_output = none;
}

-- The `match` of `main` on the four options.
abbrev pub choose :
    Args → Option ℕ → Option Ipv4Addr → Option Ipv4Addr → Option ℕ → Result String (Option Config)
choose args (some local_as) (some router_id) (some peer_ip) (some peer_as) = ok (
    some (record {
      local_as = local_as;
      router_id = router_id;
      peer_ip = peer_ip;
      peer_as = peer_as;
      hold_time = args.hold_time;
      reconnect_delay = args.reconnect_delay;
      connect_timeout = args.connect_timeout;
      active_retry_delay = args.active_retry_delay;
      listen_port = args.listen_port;
      json_output = args.json_output;
    }))
choose args none none none none = ok none
choose args local_as router_id peer_ip peer_as =
    err "Provide all four BGP options: --local-as, --router-id, --peer-ip, --peer-as"

unfoldable pub configure : Args → Result String (Option Config)
configure args = choose args args.local_as args.router_id args.peer_ip args.peer_as
