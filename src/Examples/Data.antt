-- ===== src/Examples/Data.antt =====
-- The host, the peers and the messages of the examples.
use sonic_bmp.Common.{ℕ, true, false, List, [], ◌∷◌, ◌≡◌, refl, All, ok, arith, to_dec, dec_onto}
use sonic_bmp.Bgp.AddPath.{is_add_path_enabled, find, entry_enabled, key_string, text_eq}
use sonic_bmp.Bgp.AsPath.RoundTrip.{Segment, IsSegment}
use sonic_bmp.Bgp.Attributes.Format.{
  Attr, IsAttr, origin, as_path, next_hop, atomic_aggregate, communities,
}
use sonic_bmp.Bgp.Nlri.RoundTrip.{Route, IsRoute}
use sonic_bmp.Bgp.Types.{Host, PeerInfo, ParsedData, Session, Callees}
use sonic_bmp.Bgp.Update.RoundTrip.{Update, IsUpdate}

-- An `inet_ntop` that prints an address as its bytes.
abbrev pub host : Host
host = record {
  inet_ntop = λ ipv4 bs. bs;
  junk_codes = record { sent_open = 7; received_open = 7 };
  junk_bin = [];
  junk_rd_type = 0;
}

abbrev pub peer : PeerInfo
peer = record {
  sent_four_octet_asn = true;
  recv_four_octet_asn = true;
  using_2_octet_asn = false;
  add_path_capability = [];
  peer_group = [];
  end_of_rib = false;
}

abbrev pub parsed : ParsedData (Unit {0})
parsed = record {
  attrs = [];
  withdrawn = [];
  advertised = [];
  vpn = [];
  vpn_withdrawn = [];
  other = tt;
}

abbrev pub session : Session (Unit {0})
session = record { info = peer; parsed = parsed }

-- Parsers that write nothing.
abbrev pub callees : Callees (Unit {0})
callees = record {
  parse_ext_communities = λ n d p. ok p;
  parse_v6_ext_communities = λ n d p. ok p;
  parse_attr_link_state = λ n d p. ok p;
  parse_reach_link_state = λ n p. ok p;
  parse_unreach_link_state = λ n p. ok p;
  parse_evpn_nlri = λ b d n p. ok p;
}

abbrev pub route_10_8 : Route
route_10_8 = record { path_id = 0; bits = 8; addr = 10 ∷ [] }

abbrev pub route_192_20 : Route
route_192_20 = record { path_id = 0; bits = 20; addr = 192 ∷ 168 ∷ 16 ∷ [] }

pub route_10_8-IsRoute : IsRoute false 4 route_10_8
route_10_8-IsRoute = record {
  fits = omega arith;
  addr_length = refl;
  id_small = omega arith;
  id_unused = λ e. refl;
}

pub route_192_20-IsRoute : IsRoute false 4 route_192_20
route_192_20-IsRoute = record {
  fits = omega arith;
  addr_length = refl;
  id_small = omega arith;
  id_unused = λ e. refl;
}

-- A route of a family that takes part in ADD-PATH.
abbrev pub route_v6 : Route
route_v6 = record { path_id = 300; bits = 32; addr = 32 ∷ 1 ∷ 13 ∷ 184 ∷ [] }

pub route_v6-IsRoute : IsRoute true 16 route_v6
route_v6-IsRoute = record {
  fits = omega arith;
  addr_length = refl;
  id_small = omega arith;
  id_unused = λ e. absurd (ground arith);
}

-- The key of IPv6 unicast, with send and receive codes that match.
abbrev pub peer_v6 : PeerInfo
peer_v6 = record peer {
  add_path_capability = (50 ∷ 95 ∷ 49 ∷ [], record { sent_open = 3; received_open = 3 }) ∷ [];
}

abbrev pub set_segment : Segment
set_segment = record { type = 1; asns = 65001 ∷ 4200000000 ∷ [] }

abbrev pub sequence_segment : Segment
sequence_segment = record { type = 2; asns = 64512 ∷ 64513 ∷ 64514 ∷ [] }

pub set_segment-IsSegment : IsSegment 4 set_segment
set_segment-IsSegment = record { asns_small = (omega arith, (omega arith, tt)) }

pub sequence_segment-IsSegment : IsSegment 2 sequence_segment
sequence_segment-IsSegment = record { asns_small = (omega arith, (omega arith, (omega arith, tt))) }

abbrev pub attributes : List Attr
attributes =
    record { flags = 64; value = origin 2 }
    ∷ record { flags = 80; value = as_path (set_segment ∷ []) }
    ∷ record { flags = 64; value = next_hop (192 ∷ 0 ∷ 2 ∷ 1 ∷ []) }
    ∷ record { flags = 64; value = atomic_aggregate }
    ∷ record {
      flags = 192;
      value =
          communities (record { asn = 65001; value = 7 } ∷ record { asn = 65001; value = 8 } ∷ []);
    }
    ∷ []

pub attributes-IsAttr : All (IsAttr false) attributes
attributes-IsAttr = (
  (tt, omega arith),
  (
    (((set_segment-IsSegment, tt), omega arith), omega arith),
    (
      (refl, omega arith),
      (
        (tt, omega arith),
        (
          (
            (omega arith, ((omega arith, omega arith), ((omega arith, omega arith), tt))),
            omega arith,
          ),
          tt,
        ),
      ),
    ),
  ),
)

abbrev pub update : Update
update = record {
  gone = route_192_20 ∷ [];
  attrs = attributes;
  routes = route_10_8 ∷ route_192_20 ∷ [];
}

pub update-IsUpdate : IsUpdate false false update
update-IsUpdate = record {
  are_gone = (route_192_20-IsRoute, tt);
  are_attrs = attributes-IsAttr;
  are_routes = (route_10_8-IsRoute, (route_192_20-IsRoute, tt));
  gone_short = omega arith;
  attrs_short = omega arith;
  routes_short = omega arith;
}

pub no_families : (afi safi : ℕ) → is_add_path_enabled afi safi peer.add_path_capability ≡ false
unfolding is_add_path_enabled
no_families afi safi = refl

pub enabled_v6 : is_add_path_enabled 2 1 peer_v6.add_path_capability ≡ true
unfolding is_add_path_enabled find entry_enabled key_string text_eq to_dec dec_onto
enabled_v6 = refl
