-- ===== src/Wire/Community/Actions.antt =====
-- The actions at concrete communities: those of the tests of wire_helpers.rs.
use bgp_flowspec_receiver.Prelude.{◌≡◌, refl, [], ◌∷◌}
use bgp_flowspec_receiver.Wire.Community.{parse_ext_communities}

-- 9600.0 and -1.0 as bytes and as packets per second
rates_run :
    parse_ext_communities (
      0x80 ∷ 0x06 ∷ 0 ∷ 0 ∷ 0x46 ∷ 0x16 ∷ 0 ∷ 0 ∷ 0x80 ∷ 0x0c ∷ 0 ∷ 0 ∷ 0x46 ∷ 0x16 ∷ 0 ∷ 0 ∷ 0x80
      ∷ 0x06 ∷ 0 ∷ 0 ∷ 0xbf ∷ 0x80 ∷ 0 ∷ 0 ∷ 8 ∷ 0 ∷ 0 ∷ 0 ∷ 0 ∷ 0 ∷ 0 ∷ 0 ∷ [])
    ≡ "rate-limit=76800bps" ∷ "rate-limit=9600pps" ∷ "discard" ∷ "redirect-to-next-hop" ∷ []
unfolding parse_ext_communities
rates_run = refl
