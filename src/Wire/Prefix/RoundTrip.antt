-- ===== src/Wire/Prefix/RoundTrip.antt =====
-- `unicast` on a field that is a sequence of networks.
use bgp_flowspec_receiver.Prelude.{
  ℕ, ◌*◌, ◌-◌, ◌≤◌, ◌≡◌, ap, ◌∙◌, true, List, ◌∷◌, ◌++◌, map, concat, All, Option, String, arith,
  length, length-append, length-replicate, replicate, ◌==◌, ◌⊎◌, inl, inr, le→ltb, if◌then◌else◌,
}
use bgp_flowspec_receiver.Wire.Result.{ok, ◌>>=◌, >>=_assoc}
use bgp_flowspec_receiver.Wire.Cursor.{take_front}
use bgp_flowspec_receiver.Wire.Cursor.Reads.{u8_at-cons}
use bgp_flowspec_receiver.Wire.Cursor.Loop.{collect_inverts}
use bgp_flowspec_receiver.Wire.Address.{ipv4_text, ipv6_text}
use bgp_flowspec_receiver.Wire.Prefix.Mask.{masked, mask_prefix-eq-masked}
use bgp_flowspec_receiver.Wire.Prefix.{
  afi_ipv6, byte_count, max_bits, padded, mask_if, with_length, prefix_string, unicast_route,
  unicast,
}

-- A network: as many bits as its length says, in as many bytes as they need.
pub record Network : Type 0 where
  pub bits : ℕ
  pub raw : List ℕ

pub record IsNetwork (afi : ℕ) (net : Network) : Type 0 where
  pub bounded : net.bits ≤ max_bits afi
  pub sized : length net.raw ≡ byte_count net.bits

-- The field of one network.
abbrev pub encode : Network → List ℕ
encode net = net.bits ∷ net.raw

-- The address of a network, filled up with zeros, its host bits cleared.
abbrev network_address : ℕ → Network → List ℕ
network_address size net = masked (net.raw ++ replicate (size - length net.raw) 0) net.bits

abbrev pub network_text : ℕ → Network → String
network_text afi net =
    if afi == afi_ipv6
    then with_length (ipv6_text (network_address 16 net)) net.bits
    else with_length (ipv4_text (network_address 4 net)) net.bits

padded_fits :
    (size : ℕ) (raw : List ℕ)
    → length raw ≤ size
    → padded size raw ≡ ok (raw ++ replicate (size - length raw) 0)
unfolding padded
padded_fits size raw h = ground arith

length-filled :
    (size : ℕ) (raw : List ℕ)
    → length raw ≤ size
    → length (raw ++ replicate (size - length raw) 0) ≡ size
length-filled size raw h = omega (
  arith,
  length-append raw (replicate (size - length raw) 0),
  length-replicate {A = ℕ} (size - length raw) 0,
)

-- The buffer of a network, filled and masked.
buffer :
    (size : ℕ) (net : Network)
    → net.bits ≤ 8 * size
    → length net.raw ≡ byte_count net.bits
    → (padded size net.raw >>= λ buf. mask_if true buf net.bits) ≡ ok (network_address size net)
buffer size net h e =
    let fits : length net.raw ≤ size = omega arith in
    rw (padded_fits size net.raw fits)
      (mask_prefix-eq-masked _ net.bits (omega (arith, length-filled size net.raw fits)))

prefix_string-network :
    (afi : ℕ) (net : Network)
    → (afi ≡ 1) ⊎ (afi ≡ 2)
    → IsNetwork afi net
    → prefix_string net.raw net.bits afi true ≡ ok (network_text afi net)
unfolding prefix_string
prefix_string-network afi net (inl e) w = rw e (
    >>=_assoc (padded 4 net.raw) (λ buf. mask_if true buf net.bits)
      (λ buf. ok (with_length (ipv4_text buf) net.bits))
    ∙ ap (λ m. m >>= λ buf. ok (with_length (ipv4_text buf) net.bits))
        (buffer 4 net (ground arith) w.sized))
prefix_string-network afi net (inr e) w = rw e (
    >>=_assoc (padded 16 net.raw) (λ buf. mask_if true buf net.bits)
      (λ buf. ok (with_length (ipv6_text buf) net.bits))
    ∙ ap (λ m. m >>= λ buf. ok (with_length (ipv6_text buf) net.bits))
        (buffer 16 net (ground arith) w.sized))

unicast_route-network :
    (afi : ℕ) (hop : Option String)
    → (afi ≡ 1) ⊎ (afi ≡ 2)
    → (net : Network) (rest : List ℕ) → IsNetwork afi net
    → unicast_route afi hop (encode net ++ rest)
      ≡ ok (record { prefix = network_text afi net; next_hop = hop }, rest)
unfolding unicast_route
unicast_route-network afi hop f net rest w = rw (
  u8_at-cons net.bits (net.raw ++ rest),
  le→ltb (max_bits afi) net.bits w.bounded,
  take_front net.raw rest w.sized,
  prefix_string-network afi net f w,
)

-- A field that holds the networks of one family, IPv4 or IPv6, one behind the other, is decoded to
-- their routes in that order: each has its network's text, the host bits cleared, and the next hop
-- that was given.
pub unicast_networks :
    (afi : ℕ) (hop : Option String) (nets : List Network)
    → (afi ≡ 1) ⊎ (afi ≡ 2)
    → All (IsNetwork afi) nets
    → unicast (concat (map encode nets)) afi hop
      ≡ ok (map (λ net. record { prefix = network_text afi net; next_hop = hop }) nets)
unfolding unicast
unicast_networks afi hop nets f w =
    collect_inverts (IsNetwork afi) encode
      (λ net. record { prefix = network_text afi net; next_hop = hop }) (unicast_route afi hop)
      (λ net. omega arith) (unicast_route-network afi hop f) nets w
