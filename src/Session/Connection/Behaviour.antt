-- ===== src/Session/Connection/Behaviour.antt =====
-- The routes, the timers and the handshake of a connection, over `step` and `run_events`.
use bgp_flowspec_receiver.Prelude.{
  decimal, drop, ◌^◌, ==_iff, ℕ, ◌+◌, ◌<◌, ◌≤◌, ◌≡◌, ◌⊎◌, inl, inr, refl, ap, ◌∙◌, min, true, false,
  ◌&&◌, not, String, List, [], ◌∷◌, map, ◌++◌, ltb, leb, ◌==◌, if◌then◌else◌, arith, Bool-cases,
}
use bgp_flowspec_receiver.Wire.Result.{
  ok, err, Ensures, returns, refuses, Ensures-bind, Ensures-refuse_if,
}
use bgp_flowspec_receiver.Wire.Address.{ipv4_text, octets}
use bgp_flowspec_receiver.Wire.Message.{OpenInfo, open_message}
use bgp_flowspec_receiver.Wire.Message.Open.{IsHold, open-IsHold}
use bgp_flowspec_receiver.Rib.{Data}
use bgp_flowspec_receiver.Rib.Apply.{Identity}
use bgp_flowspec_receiver.Session.Config.{Config}
use bgp_flowspec_receiver.Session.Connection.{
  Connection, connect, Event, frame, hold_timer, keepalive_timer, failed, on_open, on_keepalive,
  on_frame, extend, step, run_events, is_empty, opened, keepalive_interval,
}
use bgp_flowspec_receiver.Session.Connection.Invariant.{Sound}
use bgp_flowspec_receiver.Session.Connection.Steps.{on_frame-Ensures}
use bgp_flowspec_receiver.Wire.Message.{build_open, message}
use bgp_flowspec_receiver.Wire.Message.Open.{open-build_open}
use bgp_flowspec_receiver.Wire.Address.{Ipv4Addr}

module _ (digest : String → String → String → Identity → String) (time : ℕ → String)
    (config : Config) where
  on_open-rib :
      (body : List ℕ) (now : ℕ) (c : Connection)
      → Ensures (λ c'. c'.rib ≡ c.rib) (on_open config body now c)
  unfolding on_open opened
  on_open-rib body now c = Ensures-bind _ (open-IsHold body) (λ info h.
      Ensures-bind _ (Ensures-refuse_if (not (info.peer_as == config.peer_as)) "Peer ASN mismatch")
        (λ _ same. returns _ refl))

  on_keepalive-rib : (c : Connection) → (on_keepalive c).rib ≡ c.rib
  on_keepalive-rib c = elim (Bool-cases c.established) [
    | inl e ↦
        ap (λ b. (if b then c else record c { established = true; state = "ESTABLISHED" }).rib) e
    | inr e ↦
        ap (λ b. (if b then c else record c { established = true; state = "ESTABLISHED" }).rib) e
  ]

  on_frame-rib :
      (kind : ℕ) (body : List ℕ) (now : ℕ) (c : Connection)
      → c.established ≡ false
      → Ensures (λ c'. c'.rib ≡ c.rib) (on_frame digest time config kind body now c)
  unfolding on_frame
  on_frame-rib kind body now c early = elim (Bool-cases (kind == 1 && not c.received_open)) [
    | inl first ↦ rw first (on_open-rib body now c)
    | inr e1 ↦ elim (Bool-cases (kind == 4 && (c.received_open && is_empty body))) [
      | inl alive ↦ rw (e1, alive) (returns _ (on_keepalive-rib c))
      | inr e2 ↦ elim (Bool-cases (kind == 2 && c.established)) [
        | inl news ↦ absurd (ground (arith, news, early))
        | inr e3 ↦ elim (Bool-cases (kind == 3)) [
          | inl e4 ↦ rw (e1, e2, e3, e4) (refuses _)
          | inr e4 ↦ rw (e1, e2, e3, e4) (refuses _)
        ]
      ]
    ]
  ]

  extend-rib : (now : ℕ) (c : Connection) → (extend now c).rib ≡ c.rib
  extend-rib now c = refl

  step_rib :
      (event : Event) (now : ℕ) (c : Connection)
      → c.established ≡ false
      → Ensures (λ c'. c'.rib ≡ c.rib) (step digest time config event now c)
  unfolding step
  step_rib (frame kind body) now c early =
      Ensures-bind _ (on_frame-rib kind body now c early)
        (λ c' e. returns _ (extend-rib now c' ∙ e))
  step_rib hold_timer now c early = elim (Bool-cases (ltb 0 c.hold && leb c.deadline now)) [
    | inl e ↦ rw e (refuses _)
    | inr e ↦ rw e (returns _ refl)
  ]
  step_rib keepalive_timer now c early =
      elim (Bool-cases (c.received_open && (ltb 0 c.hold && leb c.next_keepalive now))) [
        | inl e ↦ rw e (returns _ refl)
        | inr e ↦ rw e (returns _ refl)
      ]
  step_rib (failed e) now c early = refuses e

  early_update :
      (body : List ℕ) (now : ℕ) (c : Connection)
      → c.established ≡ false
      → step digest time config (frame 2 body) now c ≡ err "Unexpected BGP message 2"
  unfolding step on_frame decimal
  early_update body now c early = rw early refl

  -- While a connection is not ESTABLISHED, no event makes it panic, and one that it survives leaves the
  -- routes as they are. An UPDATE that comes too early is none that it survives: it ends the connection
  -- with the error of an unexpected message.
  pub step-rib :
      (event : Event) (body : List ℕ) (now : ℕ) (c : Connection)
      → c.established ≡ false
      → Ensures (λ c'. c'.rib ≡ c.rib) (step digest time config event now c)
        × (step digest time config (frame 2 body) now c ≡ err "Unexpected BGP message 2")
  step-rib event body now c early = (step_rib event now c early, early_update body now c early)

  -- The connection with a KEEPALIVE written.
  abbrev sent : ℕ → Connection → Connection
  sent now c = record c {
    written = c.written ++ message 4 [] ∷ [];
    next_keepalive = now + keepalive_interval c.hold;
  }

  -- Sending a KEEPALIVE does not move the deadline.
  keepalive_timer-deadline :
      (now : ℕ) (c : Connection)
      → (c' : Connection) × (step digest time config keepalive_timer now c ≡ ok c')
        × (c'.hold ≡ c.hold)
        × (c'.deadline ≡ c.deadline)
  unfolding step
  keepalive_timer-deadline now c =
      elim (Bool-cases (c.received_open && (ltb 0 c.hold && leb c.next_keepalive now))) [
        | inl e ↦ (sent now c, rw e refl, refl, refl)
        | inr e ↦ (c, rw e refl, refl, refl)
      ]

  hold_timer-expires :
      (now : ℕ) (c : Connection)
      → 0 < c.hold
      → c.deadline ≤ now
      → step digest time config hold_timer now c ≡ err "Hold timer expired"
  unfolding step
  hold_timer-expires now c pos late = ground arith

  -- With a hold time above 0, a peer that sends nothing until the deadline loses the connection, however
  -- many KEEPALIVE messages were sent to it meanwhile, and no later event is read.
  pub silence-expires :
      (times : List ℕ) (now : ℕ) (later : List (Event × ℕ)) (c : Connection)
      → 0 < c.hold
      → c.deadline ≤ now
      → run_events digest time config
          (map (λ t. (keepalive_timer, t)) times ++ (hold_timer, now) ∷ later)
          c
        ≡ err "Hold timer expired"
  unfolding run_events
  silence-expires [] now later c pos late = rw (hold_timer-expires now c pos late) refl
  silence-expires (t ∷ times) now later c pos late =
      let (c', done, same_hold, same_deadline) = keepalive_timer-deadline t c in
      rw done (silence-expires times now later c' (omega arith) (omega arith))

  extend-deadline :
      (now : ℕ) (c : Connection)
      → ((extend now c).hold ≡ 0) ⊎ ((extend now c).deadline ≡ now + (extend now c).hold)
  extend-deadline now c = elim (Bool-cases (ltb 0 c.hold)) [
    | inl e ↦ rw e (inr refl)
    | inr e ↦ rw e (inl (ground arith))
  ]

  -- Every message that a sound connection accepts puts the deadline one hold time behind the message,
  -- unless the hold time is 0.
  pub frame-deadline :
      (kind : ℕ) (body : List ℕ) (now : ℕ) (c : Connection)
      → Sound digest config c
      → Ensures
          (λ c'. (c'.hold ≡ 0) ⊎ (c'.deadline ≡ now + c'.hold))
          (step digest time config (frame kind body) now c)
  unfolding step
  frame-deadline kind body now c s =
      Ensures-bind _ (on_frame-Ensures digest time config kind body now c s)
        (λ c' _. returns _ (extend-deadline now c'))

  on_open-opened :
      (body : List ℕ) (info : OpenInfo) (now : ℕ) (c : Connection)
      → open_message body ≡ ok info
      → info.peer_as ≡ config.peer_as
      → on_open config body now c ≡ ok (opened info now c)
  unfolding on_open
  on_open-opened body info now c read same =
      rw (read, (==_iff info.peer_as config.peer_as).1 same) refl

  step-first :
      (body : List ℕ) (now : ℕ) (c c' : Connection)
      → c.received_open ≡ false
      → on_open config body now c ≡ ok c'
      → step digest time config (frame 1 body) now c ≡ ok (extend now c')
  unfolding step on_frame
  step-first body now c c' first done = rw (first, done) refl

  step-second :
      (now : ℕ) (c : Connection)
      → c.received_open ≡ true
      → step digest time config (frame 4 []) now c ≡ ok (extend now (on_keepalive c))
  unfolding step on_frame
  step-second now c second = rw second refl

  -- When the peer sends the OPEN that `build_open` writes for the configured AS and a valid hold time, and
  -- then a KEEPALIVE, the connection comes up: it is ESTABLISHED, its hold time is the smaller of the
  -- two, AS numbers have four bytes, and the routes are those from before.
  pub handshake-up :
      (hold : ℕ) (router : Ipv4Addr) (t0 t1 t2 : ℕ) (rib : Data)
      → config.peer_as < 2 ^ 32
      → hold < 2 ^ 16
      → IsHold hold
      → (c : Connection) × (run_events digest time config
            ((frame 1 (drop 19 (build_open config.peer_as hold router)), t1)
              ∷ (frame 4 [], t2)
              ∷ [])
            (connect config t0 rib)
          ≡ ok c)
        × (c.state ≡ "ESTABLISHED")
        × (c.hold ≡ min config.hold_time hold)
        × (c.asn_len ≡ 4)
        × (c.rib ≡ rib)
  unfolding run_events connect opened
  handshake-up hold router t0 t1 t2 rib ha hs hh =
      let body = drop 19 (build_open config.peer_as hold router) in
      let info : OpenInfo = record {
        version = 4;
        peer_as = config.peer_as;
        hold_time = hold;
        router_id = ipv4_text (octets router);
        supports_4byte_asn = true;
      } in
      let start = connect config t0 rib in
      let mid = extend t1 (opened info t1 start) in
      let first = step-first body t1 start (opened info t1 start) refl (
        on_open-opened body info t1 start (open-build_open config.peer_as hold router ha hs hh)
          refl) in
      let second = step-second t2 mid refl in
      (extend t2 (on_keepalive mid), rw (first, second) refl, refl, refl, refl, refl)
