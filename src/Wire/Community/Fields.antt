-- ===== src/Wire/Community/Fields.antt =====
-- Fields of extended communities, one behind the other.
use bgp_flowspec_receiver.Prelude.{ℕ, ◌≡◌, ap, List, map, concat, All, length, chunks-concat, arith}
use bgp_flowspec_receiver.Wire.Community.{
  ext_community, parse_ext_communities, ipv6_ext_community, parse_ipv6_ext_communities,
}

-- A field of extended communities of eight bytes, or of IPv6 ones of twenty bytes, is decoded to one text
-- for each community, in their order.
pub communities_read :
    (cs vs : List (List ℕ))
    → All (λ c. length c ≡ 8) cs
    → All (λ v. length v ≡ 20) vs
    → (parse_ext_communities (concat cs) ≡ map ext_community cs)
      × (parse_ipv6_ext_communities (concat vs) ≡ map ipv6_ext_community vs)
unfolding parse_ext_communities parse_ipv6_ext_communities
communities_read cs vs h k = (
  ap (map ext_community) (chunks-concat 8 cs (omega arith) h),
  ap (map ipv6_ext_community) (chunks-concat 20 vs (omega arith) k),
)
