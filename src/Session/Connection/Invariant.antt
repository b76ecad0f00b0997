-- ===== src/Session/Connection/Invariant.antt =====
-- What holds of a connection between two events.
use mathlib.Core.Path.{subst}
use bgp_flowspec_receiver.Prelude.{
  ℕ, ◌≤◌, ◌≡◌, ◌⊎◌, inl, inr, refl, sym, ap, ◌∙◌, min, Bool, true, false, not, String, some, List,
  [], ◌==◌, if◌then◌else◌, arith, Bool-cases,
}
use bgp_flowspec_receiver.Wire.Result.{Ensures, returns, Ensures-bind, Ensures-refuse_if}
use bgp_flowspec_receiver.Wire.Address.{ipv4_text, octets}
use bgp_flowspec_receiver.Wire.Message.{OpenInfo}
use bgp_flowspec_receiver.Wire.Message.Open.{IsHold, open-IsHold}
use bgp_flowspec_receiver.Wire.Update.Total.{update-Settles}
use bgp_flowspec_receiver.Rib.{Data}
use bgp_flowspec_receiver.Rib.Apply.{Identity}
use bgp_flowspec_receiver.Rib.Reachable.{Reachable, updated, Reachable-apply_update}
use bgp_flowspec_receiver.Session.Config.{Config}
use bgp_flowspec_receiver.Session.Connection.{
  Connection, connect, on_open, on_keepalive, on_update, stored, opened,
}

-- The three states and the flags that go with them. Before the first KEEPALIVE there are no routes.
pub data Phase (config : Config) (c : Connection) : Type 0 where
  opening :
      c.received_open ≡ false
      → c.established ≡ false
      → c.state ≡ "OPEN_SENT"
      → c.rib.routes ≡ []
      → Phase config c
  confirmed :
      (info : OpenInfo)
      → c.received_open ≡ true
      → c.established ≡ false
      → c.state ≡ "OPEN_CONFIRMED"
      → c.peer_info ≡ some info
      → info.peer_as ≡ config.peer_as
      → c.rib.routes ≡ []
      → Phase config c
  up :
      (info : OpenInfo)
      → c.received_open ≡ true
      → c.established ≡ true
      → c.state ≡ "ESTABLISHED"
      → c.peer_info ≡ some info
      → info.peer_as ≡ config.peer_as
      → Phase config c

-- Before the OPEN.
not_yet :
    {config : Config} {c : Connection}
    → Phase config c
    → c.received_open ≡ false
    → (c.established ≡ false) × (c.rib.routes ≡ [])
not_yet (opening r e s routes) first = (e, routes)
not_yet (confirmed info r e s i p routes) first = cc
not_yet (up info r e s i p) first = cc

up_info :
    {config : Config} {c : Connection}
    → Phase config c
    → c.established ≡ true
    → (info : OpenInfo) × (c.received_open ≡ true)
      × (c.state ≡ "ESTABLISHED")
      × (c.peer_info ≡ some info)
      × (info.peer_as ≡ config.peer_as)
up_info (opening r e s routes) y = cc
up_info (confirmed info r e s i p routes) y = cc
up_info (up info r e s i p) y = (info, r, s, i, p)

-- Before the first KEEPALIVE.
pub quiet :
    {config : Config} {c : Connection} → Phase config c → c.established ≡ false → c.rib.routes ≡ []
quiet (opening r e s routes) n = routes
quiet (confirmed info r e s i p routes) n = routes
quiet (up info r e s i p) n = cc

abbrev raised : Connection → Connection
raised c = record c { established = true; state = "ESTABLISHED" }

on_keepalive-eq :
    (c : Connection) (b : Bool) → c.established ≡ b → (if b then c else raised c) ≡ on_keepalive c
on_keepalive-eq c b e = sym (ap (λ b. if b then c else raised c) e)

-- A KEEPALIVE behind the OPEN.
risen :
    {config : Config} (c : Connection)
    → Phase config c
    → c.received_open ≡ true
    → Phase config (on_keepalive c)
risen c (opening r e s routes) o = cc
risen {config} c (confirmed info r e s i p routes) o =
    subst (Phase config) (on_keepalive-eq c false e) (up info r refl refl i p)
risen {config} c (up info r e s i p) o =
    subst (Phase config) (on_keepalive-eq c true e) (up info r e s i p)

min-IsHold : (a b : ℕ) → IsHold a → IsHold b → IsHold (min a b)
min-IsHold a b h k = ground arith

wider :
    (info : OpenInfo) {width : ℕ}
    → (width ≡ 2) ⊎ (width ≡ 4)
    → ((if info.supports_4byte_asn then 4 else width) ≡ 2)
      ⊎ ((if info.supports_4byte_asn then 4 else width) ≡ 4)
wider info w = elim (Bool-cases info.supports_4byte_asn) [
  | inl e ↦ rw e (inr refl)
  | inr e ↦ rw e w
]

module _ (digest : String → String → String → Identity → String) where
  -- The hold time is one that RFC 4271 allows and at most the configured one, the width of AS numbers is
  -- 2 or 4, and the routes are reachable ones.
  pub record Sound (config : Config) (c : Connection) : Type 0 where
    pub lowered : c.hold ≤ config.hold_time
    pub allowed : IsHold c.hold
    pub width : (c.asn_len ≡ 2) ⊎ (c.asn_len ≡ 4)
    pub reached : Reachable digest c.rib
    pub phase : Phase config c

  pub connect-Sound :
      (config : Config) (now : ℕ) (rib : Data)
      → IsHold config.hold_time
      → Reachable digest rib
      → rib.routes ≡ []
      → Sound config (connect config now rib)
  unfolding connect
  connect-Sound config now rib h r e = record {
    lowered = omega arith;
    allowed = h;
    width = inl refl;
    reached = r;
    phase = opening refl refl refl e;
  }

  pub on_open-Ensures :
      (config : Config) (body : List ℕ) (now : ℕ) (c : Connection)
      → Sound config c
      → c.received_open ≡ false
      → Ensures (Sound config) (on_open config body now c)
  unfolding on_open opened
  on_open-Ensures config body now c s first = Ensures-bind _ (open-IsHold body) (λ info h.
      Ensures-bind _ (Ensures-refuse_if (not (info.peer_as == config.peer_as)) "Peer ASN mismatch")
        (λ _ same. returns _ (record {
          lowered = omega (arith, s.lowered);
          allowed = min-IsHold c.hold info.hold_time s.allowed h.hold;
          width = wider info s.width;
          reached = s.reached;
          phase =
              confirmed info refl (not_yet s.phase first).0 refl refl (ground (arith, same))
                (not_yet s.phase first).1;
        })))

  pub on_keepalive-Sound :
      (config : Config) (c : Connection)
      → Sound config c
      → c.received_open ≡ true
      → Sound config (on_keepalive c)
  on_keepalive-Sound config c s o =
      let phase = risen c s.phase o in
      elim (Bool-cases c.established) [
        | inl e ↦ subst (Sound config) (on_keepalive-eq c true e) s
        | inr e ↦ subst (Sound config) (on_keepalive-eq c false e) (record {
          lowered = s.lowered;
          allowed = s.allowed;
          width = s.width;
          reached = s.reached;
          phase = subst (Phase config) (sym (on_keepalive-eq c false e)) phase;
        })
      ]

  pub on_update-Ensures :
      (time : ℕ → String) (config : Config) (body : List ℕ) (now : ℕ) (c : Connection)
      → Sound config c
      → c.established ≡ true
      → Ensures (Sound config) (on_update digest time config body now c)
  unfolding on_update
  on_update-Ensures time config body now c s up_now =
      Ensures-bind _ (update-Settles body c.asn_len) (λ u _.
        let peer = ipv4_text (octets config.peer_ip) in
        let (out, done) = Reachable-apply_update digest u peer (time now) now c.rib s.reached in
        let (info, r, st, i, p) = up_info s.phase up_now in
        subst (λ o. Ensures (Sound config) (stored c o)) (sym done)
          (returns _ (record {
            lowered = s.lowered;
            allowed = s.allowed;
            width = s.width;
            reached = updated u peer (time now) now c.rib out.0 out.1 out.2 s.reached done;
            phase = up info r up_now st i p;
          })))

  -- The routes are those of the program, which `flush` may have saved in between.
  pub Sound-rib :
      (config : Config) (c : Connection) (rib : Data)
      → Sound config c
      → Reachable digest rib
      → rib.routes ≡ c.rib.routes
      → Sound config (record c { rib = rib })
  Sound-rib config c rib s r same = record {
    lowered = s.lowered;
    allowed = s.allowed;
    width = s.width;
    reached = r;
    phase = elim s.phase [
      | opening o e st routes ↦ opening o e st (same ∙ routes)
      | confirmed info o e st i p routes ↦ confirmed info o e st i p (same ∙ routes)
      | up info o e st i p ↦ up info o e st i p
    ];
  }
