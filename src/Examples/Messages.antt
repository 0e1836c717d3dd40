-- ===== src/Examples/Messages.antt =====
-- Update, open and notification messages.
use sonic_bmp.Common.{true, false, [], ◌∷◌, ◌++◌, ◌≡◌, refl, map, Bytes, ok, arith, Ends, ◌≤◌}
use sonic_bmp.Bgp.Attributes.{parse_attributes}
use sonic_bmp.Bgp.Attributes.Format.{encode_attrs, apply_attrs}
use sonic_bmp.Bgp.Attributes.RoundTrip.{parse_attributes-encode_attrs}
use sonic_bmp.Bgp.MpReach.{set_next_hop, parse_reach_nlri_attr}
use sonic_bmp.Bgp.MpReach.RoundTrip.{encode_reach, parse_reach_nlri_attr-encode_reach}
use sonic_bmp.Bgp.MpUnreach.{parse_unreach_nlri_attr}
use sonic_bmp.Bgp.MpUnreach.RoundTrip.{
  encode_unreach, unreach_result, parse_unreach_nlri_attr-encode_unreach,
}
use sonic_bmp.Bgp.Nlri.RoundTrip.{encode_all, stored_unicast}
use sonic_bmp.Bgp.Open.{OpenState, parse_open_msg}
use sonic_bmp.Bgp.Open.Format.{
  four_octet, mpbgp, other, Entry, Param, IsParam, Header, IsHeader, encode_open, apply_params,
}
use sonic_bmp.Bgp.Open.Ends.{parse_open_msg-Ends}
use sonic_bmp.Bgp.Open.RoundTrip.{parse_open_msg-encode_open}
use sonic_bmp.Bgp.Update.{parse_update_msg}
use sonic_bmp.Bgp.Update.RoundTrip.{encode_update, update_result, parse_update_msg-encode_update}
use sonic_bmp.Examples.Data.{
  host, parsed, session, callees, route_v6, route_v6-IsRoute, peer_v6, attributes,
  attributes-IsAttr, update, update-IsUpdate, no_families, enabled_v6,
}

parse_update_msg-encode_update_example :
    parse_update_msg host callees (encode_update false false update (1 ∷ [])) 53 session
    ≡ ok (53, update_result host update session)
parse_update_msg-encode_update_example =
    parse_update_msg-encode_update host callees false update (1 ∷ []) session (no_families 1 1)
      update-IsUpdate

parse_attributes-encode_attrs_example :
    parse_attributes host callees (encode_attrs false attributes ++ (7 ∷ [])) 39 session
    ≡ ok (apply_attrs host attributes session)
parse_attributes-encode_attrs_example =
    parse_attributes-encode_attrs host callees attributes (7 ∷ []) session attributes-IsAttr

abbrev next_hop : Bytes
next_hop = 254 ∷ 128 ∷ 0 ∷ 0 ∷ 0 ∷ 0 ∷ 0 ∷ 0 ∷ 0 ∷ 0 ∷ 0 ∷ 0 ∷ 0 ∷ 0 ∷ 0 ∷ 1 ∷ []

parse_reach_nlri_attr-encode_reach_example :
    parse_reach_nlri_attr host callees peer_v6 30
      (encode_reach 2 1 next_hop (encode_all true (route_v6 ∷ []) ++ []))
      parsed
    ≡ ok (record (set_next_hop next_hop parsed) {
      advertised = map (stored_unicast host false) (route_v6 ∷ []);
    })
parse_reach_nlri_attr-encode_reach_example =
    parse_reach_nlri_attr-encode_reach host callees peer_v6 false true next_hop (route_v6 ∷ []) []
      parsed enabled_v6 (omega arith) (route_v6-IsRoute, tt) (omega arith)

parse_unreach_nlri_attr-encode_unreach_example :
    parse_unreach_nlri_attr host callees 12
      (encode_unreach 2 1 (encode_all true (route_v6 ∷ []) ++ []))
      (record session { info = peer_v6 })
    ≡ ok (unreach_result host false (route_v6 ∷ []) (record session { info = peer_v6 }))
parse_unreach_nlri_attr-encode_unreach_example =
    parse_unreach_nlri_attr-encode_unreach host callees false true (route_v6 ∷ []) []
      (record session { info = peer_v6 }) enabled_v6 (route_v6-IsRoute, tt) (omega arith)

abbrev start : OpenState
start = record { asn = 0; hold_time = 0; bgp_id = []; capabilities = []; add_path_capability = [] }

abbrev pub header : Header
header = record { version = 4; asn = 23456; hold_time = 180; bgp_id = 10 ∷ 0 ∷ 0 ∷ 1 ∷ [] }

pub header-IsHeader : IsHeader header
header-IsHeader = record { asn_small = omega arith; hold_small = omega arith; id_length = refl }

abbrev entry : Entry
entry = record { afi = 1; safi = 1; send_receive = 3 }

abbrev pub first_param : Param
first_param = record {
  caps = mpbgp 1 1 ∷ other 2 [] ∷ four_octet 4200000000 ∷ [];
  paths = entry ∷ [];
}

abbrev pub second_param : Param
second_param = record { caps = other 70 [] ∷ []; paths = [] }

pub first_param-IsParam : IsParam first_param
first_param-IsParam = record {
  has_some = omega arith;
  are_caps = (omega arith, ((refl, refl, refl), (omega arith, tt)));
  are_entries = (omega arith, tt);
}

pub second_param-IsParam : IsParam second_param
second_param-IsParam = record {
  has_some = omega arith;
  are_caps = ((refl, refl, refl), tt);
  are_entries = tt;
}

-- A message that is cut off inside its second capability
parse_open_msg-Ends_example :
    Ends
      (λ p. p.0 ≤ 16)
      (parse_open_msg host true
        (4 ∷ 1 ∷ 2 ∷ 0 ∷ 9 ∷ 10 ∷ 0 ∷ 0 ∷ 1 ∷ 9 ∷ 2 ∷ 7 ∷ 2 ∷ 0 ∷ 1 ∷ 4 ∷ [])
        16
        start)
parse_open_msg-Ends_example =
    parse_open_msg-Ends host true
      (4 ∷ 1 ∷ 2 ∷ 0 ∷ 9 ∷ 10 ∷ 0 ∷ 0 ∷ 1 ∷ 9 ∷ 2 ∷ 7 ∷ 2 ∷ 0 ∷ 1 ∷ 4 ∷ []) 16 start

parse_open_msg-encode_open_example :
    parse_open_msg host true (encode_open header (first_param ∷ second_param ∷ []) []) 36 start
    ≡ ok (
      36,
      apply_params host true
          (first_param ∷ second_param ∷ [])
          (record start { asn = 23456; hold_time = 180; bgp_id = 10 ∷ 0 ∷ 0 ∷ 1 ∷ [] }),
    )
parse_open_msg-encode_open_example =
    parse_open_msg-encode_open host true header (first_param ∷ second_param ∷ []) [] start
      header-IsHeader (first_param-IsParam, (second_param-IsParam, tt))
