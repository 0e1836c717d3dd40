-- ===== src/Examples/Communities.antt =====
-- Extended communities, read by Server/src/bgp/ExtCommunity.cpp.
use sonic_bmp.Common.{◌≡◌, refl, List, [], ◌∷◌, ◌++◌, codes, length, ok, arith}
use sonic_bmp.Bgp.Attrs.{set_attr}
use sonic_bmp.Bgp.AttrType.{ext_community}
use sonic_bmp.Bgp.ExtCommunity.{parse_ext_communities, cost_point}
use sonic_bmp.Bgp.ExtCommunity.Numbers.{two_octet, address}
use sonic_bmp.Bgp.ExtCommunity.Print.{
  Community, route_target, route_origin, color, encode_communities, communities_text,
  parse_ext_communities-encode,
}
use sonic_bmp.Examples.Data.{host, parsed}

abbrev three : List Community
three =
    route_target (two_octet 65010 100)
    ∷ route_origin (address (10 ∷ 0 ∷ 0 ∷ 1 ∷ []) 7)
    ∷ color 0 0 200
    ∷ []

parse_ext_communities-encode_example :
    parse_ext_communities
      (λ n. [])
      host
      (length (encode_communities three))
      (encode_communities three ++ (9 ∷ []))
      parsed
    ≡ ok (record parsed { attrs = set_attr ext_community (communities_text host three) [] })
parse_ext_communities-encode_example =
    parse_ext_communities-encode (λ n. []) host three (9 ∷ []) parsed
      ((omega arith, omega arith), ((refl, omega arith), (omega arith, tt)))

-- The point of insertion that is not known is printed with no colon behind it.
unknown_point : cost_point 5 ≡ codes "unkn"
unfolding cost_point
unknown_point = refl
