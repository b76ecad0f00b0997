-- ===== src/Session/Valid.antt =====
-- `validate` beside the description `IsValid`.
use bgp_flowspec_receiver.Prelude.{
  ℕ, zero, suc, ◌≡◌, ◌↔◌, refl, Bool, true, false, ◌||◌, ◌&&◌, not, String, ltb, ◌==◌,
  if◌then◌else◌, arith,
}
use bgp_flowspec_receiver.Wire.Result.{
  Result, ok, Ensures, returns, refuses, Settles, Ensures-weaken, Ensures-refuse_if, refuse_if,
  ◌>>◌,
}
use bgp_flowspec_receiver.Wire.Message.Open.{hold_accepted}
use bgp_flowspec_receiver.Session.Config.{
  Config, Double, nan, infinite, finite, refused_delay, check_delay, validate, Within, positive,
  minus_zero, IsValid,
}

delay_accepted :
    (least : ℕ) (allow_zero : Bool) (v : Double)
    → least ≡ (if allow_zero then 0 else 1)
    → refused_delay allow_zero v ≡ false
    → Within least v
unfolding refused_delay
delay_accepted least allow_zero nan e h = cc
delay_accepted least allow_zero (infinite negative) e h = cc
delay_accepted least true (finite true zero) e h = minus_zero e
delay_accepted least true (finite true (suc units)) e h = absurd (ground arith)
delay_accepted least false (finite true zero) e h = cc
delay_accepted least false (finite true (suc units)) e h = absurd (ground arith)
delay_accepted least true (finite false units) e h = positive units (ground arith) (ground arith)
delay_accepted least false (finite false units) e h = positive units (ground arith) (ground arith)

delay_refused :
    (least : ℕ) (allow_zero : Bool) (v : Double)
    → least ≡ (if allow_zero then 0 else 1)
    → Within least v
    → refused_delay allow_zero v ≡ false
unfolding refused_delay
delay_refused least true _ e (positive units lo hi) = ground arith
delay_refused least false _ e (positive units lo hi) = ground arith
delay_refused least true _ e (minus_zero z) = refl
delay_refused least false _ e (minus_zero z) = ground arith

-- What the six guards of `validate` say.
record Guards (c : Config) : Type 0 where
  numbers : c.local_as == 0 || c.peer_as == 0 ≡ false
  hold : not (c.hold_time == 0) && ltb c.hold_time 3 ≡ false
  port : (c.listen_port == 0) ≡ false
  reconnect : refused_delay true c.reconnect_delay ≡ false
  connect : refused_delay false c.connect_timeout ≡ false
  retry : refused_delay false c.active_retry_delay ≡ false

Guards-validate : (c : Config) → Guards c → validate c ≡ ok tt
unfolding validate
Guards-validate c g = rw (g.numbers, g.hold, g.port, g.reconnect, g.connect, g.retry) refl

validate-Guards : (c : Config) → validate c ≡ ok tt → Guards c
unfolding validate
validate-Guards c h = record {
  numbers = ground arith;
  hold = ground arith;
  port = ground arith;
  reconnect = ground arith;
  connect = ground arith;
  retry = ground arith;
}

-- `validate` accepts a configuration exactly when both AS numbers and the port are positive, the hold
-- time is 0 or at least 3, and the three delays are finite, at most a day, and not below 0, the
-- connect timeout and the retry delay not 0 either.
pub validate_iff : (c : Config) → (validate c ≡ ok tt) ↔ IsValid c
validate_iff c = (
  λ h.
      let g = validate-Guards c h in
      record {
        local = ground (arith, g.numbers);
        peer = ground (arith, g.numbers);
        hold = ground (arith, g.hold);
        port = ground (arith, g.port);
        reconnect = delay_accepted 0 true c.reconnect_delay refl g.reconnect;
        connect = delay_accepted 1 false c.connect_timeout refl g.connect;
        retry = delay_accepted 1 false c.active_retry_delay refl g.retry;
      },
  λ v. Guards-validate c (record {
    numbers = ground (arith, v.local, v.peer);
    hold = hold_accepted c.hold_time v.hold;
    port = ground (arith, v.port);
    reconnect = delay_refused 0 true c.reconnect_delay refl v.reconnect;
    connect = delay_refused 1 false c.connect_timeout refl v.connect;
    retry = delay_refused 1 false c.active_retry_delay refl v.retry;
  }),
)

guarded :
    (b : Bool) (e : String) {m : Result String (Unit {0})}
    → Settles m
    → Settles (refuse_if b e >> m)
guarded true e s = refuses e
guarded false e s = s

delay-Settles :
    (name : String) (v : Double) (zero_allowed : Bool) → Settles (check_delay name v zero_allowed)
delay-Settles name v zero_allowed =
    Ensures-weaken (λ _ _. tt) (Ensures-refuse_if (refused_delay zero_allowed v) _)

delay-guarded :
    (name : String) (v : Double) (zero_allowed : Bool) {m : Result String (Unit {0})}
    → Settles m
    → Settles (check_delay name v zero_allowed >> m)
delay-guarded name v zero_allowed s = guarded (refused_delay zero_allowed v) _ s

pub validate-Settles : (c : Config) → Settles (validate c)
unfolding validate
validate-Settles c = guarded (c.local_as == 0 || c.peer_as == 0) "AS numbers must be positive" (
    guarded (not (c.hold_time == 0) && ltb c.hold_time 3)
      "Hold time must be zero or at least 3 seconds"
      (guarded (c.listen_port == 0) "Listen port must be positive" (
        delay-guarded "reconnect_delay" c.reconnect_delay true (
          delay-guarded "connect_timeout" c.connect_timeout false
            (delay-Settles "active_retry_delay" c.active_retry_delay false)))))

accepted :
    (c : Config) (r : Result String (Unit {0}))
    → validate c ≡ r
    → Settles r
    → Ensures (λ _. IsValid c) r
accepted c _ e (returns tt _) = returns tt ((validate_iff c).0 e)
accepted c _ e (refuses m) = refuses m

-- `validate` does not panic, and a configuration that it accepts is valid.
pub validate-Ensures : (c : Config) → Ensures (λ _. IsValid c) (validate c)
validate-Ensures c = accepted c (validate c) refl (validate-Settles c)
