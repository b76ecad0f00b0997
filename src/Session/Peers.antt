-- ===== src/Session/Peers.antt =====
-- `incoming` and `active` of session.rs, on what the sockets give: the connections that the listener
-- accepts, and the outcomes of the attempts to connect. A stream is a number. The waits between them
-- are the clock's.
use mathlib.Core.Path.{subst}
use bgp_flowspec_receiver.Prelude.{
  ℕ, ◌≡◌, inl, inr, sym, Bool, true, ◌&&◌, Option, none, some, List, [], ◌∷◌, ◌==◌, ==_iff,
  if◌then◌else◌, Bool-cases, arith,
}
use bgp_flowspec_receiver.Wire.Address.{Ipv4Addr}

-- `accept`: the address of the other side with the stream, or an error.
pub data Accepted : Type 0 where
  from_ipv4 : Ipv4Addr → ℕ → Accepted
  from_ipv6 : ℕ → Accepted
  failed : Accepted

abbrev pub same_address : Ipv4Addr → Ipv4Addr → Bool
same_address x y = x.a == y.a && (x.b == y.b && (x.c == y.c && x.d == y.d))

-- The first stream of the peer, if there is one. Without a listener none is accepted.
unfoldable pub incoming : Ipv4Addr → List Accepted → Option ℕ
incoming peer [] = none
incoming peer (from_ipv4 address stream ∷ rest) =
    let later = incoming peer rest in if same_address address peer then some stream else later
incoming peer (from_ipv6 stream ∷ rest) = incoming peer rest
incoming peer (failed ∷ rest) = incoming peer rest

-- An attempt to connect gives a stream, fails, or takes longer than the timeout.
pub data Attempt : Type 0 where
  connected : ℕ → Attempt
  refused late : Attempt

unfoldable pub active : List Attempt → Option ℕ
active [] = none
active (connected stream ∷ rest) = some stream
active (refused ∷ rest) = active rest
active (late ∷ rest) = active rest

-- A connection of the peer is among those that were accepted.
data FromPeer (peer : Ipv4Addr) (stream : ℕ) : List Accepted → Type 0 where
  here : (rest : List Accepted) → FromPeer peer stream (from_ipv4 peer stream ∷ rest)
  later :
      (a : Accepted) (rest : List Accepted)
      → FromPeer peer stream rest
      → FromPeer peer stream (a ∷ rest)

same_address_lem : (x y : Ipv4Addr) → same_address x y ≡ true → x ≡ y
same_address_lem x y e =
    ground (arith, ==_iff x.a y.a, ==_iff x.b y.b, ==_iff x.c y.c, ==_iff x.d y.d)

-- `incoming` gives only streams of the configured peer.
incoming-FromPeer :
    (peer : Ipv4Addr) (accepted : List Accepted) (stream : ℕ)
    → incoming peer accepted ≡ some stream
    → FromPeer peer stream accepted
unfolding incoming
incoming-FromPeer peer [] stream e = cc
incoming-FromPeer peer (from_ipv6 s ∷ rest) stream e =
    later (from_ipv6 s) rest (incoming-FromPeer peer rest stream e)
incoming-FromPeer peer (failed ∷ rest) stream e =
    later failed rest (incoming-FromPeer peer rest stream e)
incoming-FromPeer peer (from_ipv4 address s ∷ rest) stream e =
    elim (Bool-cases (same_address address peer)) [
      | inl y ↦
          let first : s ≡ stream = ground (arith, e, y) in
          subst (λ t. FromPeer peer t (from_ipv4 address s ∷ rest)) first
            (subst (λ x. FromPeer peer s (from_ipv4 x s ∷ rest))
              (sym (same_address_lem address peer y)) (here rest))
      | inr n ↦
          later (from_ipv4 address s) rest
            (incoming-FromPeer peer rest stream (ground (arith, e, n)))
    ]
