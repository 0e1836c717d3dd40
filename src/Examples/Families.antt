-- ===== src/Examples/Families.antt =====
-- EVPN and BGP-LS routes, read by Server/src/bgp/EVPN.cpp and Server/src/bgp/linkstate/MPLinkState.cpp.
use sonic_bmp.Common.{
  ◌≡◌, refl, false, List, [], ◌∷◌, some, Bytes, length, map, ok, arith, replicate, Ends,
}
use sonic_bmp.Bgp.Evpn.{parse_evpn_nlri, evpn_round, fresh_tuple, segment_identifier, Others}
use sonic_bmp.Bgp.Evpn.Format.{
  Nlri, auto_discovery, mac_address, multicast, address_v4, encode_nlris, tuple_of, rd_of,
}
use sonic_bmp.Bgp.Evpn.RoundTrip.{parse_evpn_nlri-encode}
use sonic_bmp.Bgp.Evpn.SegmentRoute.{encode_segment_route, evpn_round-segment_route}
use sonic_bmp.Bgp.ExtCommunity.Numbers.{two_octet, address}
use sonic_bmp.Bgp.LinkState.Ends.{parse_link_state_nlri_data-Ends}
use sonic_bmp.Bgp.LinkState.Rows.{LsData}
use sonic_bmp.Bgp.LinkState.{parse_link_state_nlri_data}
use sonic_bmp.Bgp.Types.{ParsedData}
use sonic_bmp.Examples.Data.{host}

abbrev esi : Bytes
esi = 0 ∷ 1 ∷ 2 ∷ 3 ∷ 4 ∷ 5 ∷ 6 ∷ 7 ∷ 8 ∷ 9 ∷ []

abbrev tag : Bytes
tag = 0 ∷ 0 ∷ 0 ∷ 100 ∷ []

-- A MAC with an IPv4 address and two labels, the second of them in the upper half of the values.
abbrev mac_route : Nlri
mac_route = record {
  rd = two_octet 65010 7;
  route =
      mac_address esi tag 48 (2 ∷ 0 ∷ 0 ∷ 0 ∷ 0 ∷ 1 ∷ []) (address_v4 (10 ∷ 0 ∷ 0 ∷ 1 ∷ [])) 5000
        (some 9000000);
}

abbrev multicast_route : Nlri
multicast_route = record {
  rd = address (10 ∷ 0 ∷ 0 ∷ 2 ∷ []) 1;
  route = multicast tag (address_v4 (10 ∷ 0 ∷ 0 ∷ 2 ∷ []));
}

abbrev discovery_route : Nlri
discovery_route = record { rd = two_octet 65010 8; route = auto_discovery esi tag 16 }

abbrev three_routes : List Nlri
three_routes = mac_route ∷ multicast_route ∷ discovery_route ∷ []

abbrev no_routes : ParsedData (Others (Unit {0}))
no_routes = record {
  attrs = [];
  withdrawn = [];
  advertised = [];
  vpn = [];
  vpn_withdrawn = [];
  other = record { link_state = tt; evpn = []; evpn_withdrawn = [] };
}

parse_evpn_nlri-encode_example :
    parse_evpn_nlri host false
      (encode_nlris three_routes)
      (length (encode_nlris three_routes))
      no_routes
    ≡ ok (record no_routes {
      other = record {
        link_state = tt;
        evpn = map (tuple_of host) three_routes;
        evpn_withdrawn = [];
      };
    })
parse_evpn_nlri-encode_example = parse_evpn_nlri-encode host false three_routes no_routes (
  ((omega arith, omega arith), (refl, refl, refl, refl, omega arith, omega arith)),
  (
    ((refl, omega arith), (refl, refl)),
    (((omega arith, omega arith), (refl, refl, omega arith)), tt),
  ),
)

evpn_round-segment_route_example :
    evpn_round host 100 0
      (encode_segment_route (two_octet 65010 7) esi (address_v4 (4 ∷ 30 ∷ 0 ∷ 1 ∷ [])) [])
    ≡ ok (record {
      entry = record (fresh_tuple (rd_of host (two_octet 65010 7))) {
        ethernet_segment_identifier = segment_identifier esi;
        originating_router_ip_len = 32;
        originating_router_ip = 4 ∷ 30 ∷ 0 ∷ 1 ∷ replicate 12 0;
      };
      read = 25;
      rest = 4 ∷ 30 ∷ 0 ∷ 1 ∷ [];
    })
evpn_round-segment_route_example =
    evpn_round-segment_route host 100 0 (two_octet 65010 7) esi (address_v4 (4 ∷ 30 ∷ 0 ∷ 1 ∷ []))
      [] (omega arith, omega arith) refl refl (omega arith)

abbrev no_ls : LsData
no_ls = record { nodes = []; links = []; prefixes = [] }

parse_link_state_nlri_data-Ends_example :
    Ends
      (λ l. Unit {0})
      (parse_link_state_nlri_data (λ bs. bs) (0 ∷ 1 ∷ 0 ∷ 4 ∷ 1 ∷ []) 60000 no_ls)
parse_link_state_nlri_data-Ends_example =
    parse_link_state_nlri_data-Ends (λ bs. bs) (0 ∷ 1 ∷ 0 ∷ 4 ∷ 1 ∷ []) 60000 no_ls
