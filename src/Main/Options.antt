-- ===== src/Main/Options.antt =====
-- `configure` beside how many of the four options are given.
use bgp_flowspec_receiver.Prelude.{
  ℕ, ◌+◌, ◌≤◌, ◌<◌, ◌≡◌, refl, inr, String, Option, none, some, arith,
}
use bgp_flowspec_receiver.Wire.Result.{Result, ok, err}
use bgp_flowspec_receiver.Wire.Address.{Ipv4Addr}
use bgp_flowspec_receiver.Session.Config.{Config, day, IsValid, positive}
use bgp_flowspec_receiver.Main.{Args, default_args, choose, configure}

abbrev pub one_if : {A : Type 0} → Option A → ℕ
one_if none = 0
one_if (some a) = 1

abbrev pub given : Args → ℕ
given args =
    one_if args.local_as + one_if args.router_id + one_if args.peer_ip + one_if args.peer_as

-- What the outcome says of the number of options.
abbrev pub Fits : ℕ → Result String (Option Config) → Type 0
Fits n (ok none) = n ≡ 0
Fits n (ok (some config)) = n ≡ 4
Fits n (err e) = (0 < n) × (n < 4)
Fits n (Result.fault f) = ⊥

at_most_one : {A : Type 0} (a : Option A) → one_if a ≤ 1
at_most_one none = omega arith
at_most_one (some a) = omega arith

choose-Fits :
    (args : Args) (a : Option ℕ) (b c : Option Ipv4Addr) (d : Option ℕ)
    → Fits (one_if a + one_if b + one_if c + one_if d) (choose args a b c d)
choose-Fits args (some a) (some b) (some c) (some d) = refl
choose-Fits args none none none none = refl
choose-Fits args a b c d = (
  omega (arith, at_most_one a, at_most_one b, at_most_one c, at_most_one d),
  omega (arith, at_most_one a, at_most_one b, at_most_one c, at_most_one d),
)

-- `main` gets a configuration when all four options are given, none when none of them is, and its error
-- exactly when some are given and some are not.
pub configure-Fits : (args : Args) → Fits (given args) (configure args)
unfolding configure
configure-Fits args = choose-Fits args args.local_as args.router_id args.peer_ip args.peer_as

-- With the defaults of the other options, positive AS numbers and two addresses give a configuration that
-- `validate` accepts.
defaults-IsValid :
    (local_as peer_as : ℕ) (router_id peer_ip : Ipv4Addr)
    → 0 < local_as
    → 0 < peer_as
    → (config : Config) × (configure (record default_args {
      local_as = some local_as;
      router_id = some router_id;
      peer_ip = some peer_ip;
      peer_as = some peer_as;
    })
        ≡ ok (some config))
      × IsValid config
unfolding configure default_args day
defaults-IsValid local_as peer_as router_id peer_ip l p = (
  _,
  refl,
  record {
    local = l;
    peer = p;
    hold = inr (omega arith);
    port = omega arith;
    reconnect = positive _ (omega arith) (omega arith);
    connect = positive _ (omega arith) (omega arith);
    retry = positive _ (omega arith) (omega arith);
  },
)
