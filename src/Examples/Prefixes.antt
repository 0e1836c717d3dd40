-- ===== src/Examples/Prefixes.antt =====
-- Prefixes, paths, labels and address families.
use sonic_bmp.Common.{
  true, false, List, [], ◌∷◌, ◌++◌, ◌≡◌, refl, map, Bytes, ok, fault, overwrite, Safe, Ends, arith,
  All,
}
use sonic_bmp.Bgp.AddPath.{is_add_path_enabled}
use sonic_bmp.Bgp.AddPath.Negotiated.{
  Capability, replay, last_code, negotiated, is_add_path_enabled-replay,
}
use sonic_bmp.Bgp.AsPath.{parse_attr_as_path}
use sonic_bmp.Bgp.AsPath.Bounds.{parse_attr_as_path-Safe}
use sonic_bmp.Bgp.AsPath.Fallback.{
  HoldsPath, parse_attr_as_path-encode_segments, parse_attr_as_path-two_octets,
}
use sonic_bmp.Bgp.AsPath.RoundTrip.{encode_segments}
use sonic_bmp.Bgp.Attrs.{Attrs}
use sonic_bmp.Bgp.Labels.{decode_label}
use sonic_bmp.Bgp.Labels.{parse_nlri_data_label}
use sonic_bmp.Bgp.Labels.Ends.{parse_nlri_data_label-Ends}
use sonic_bmp.Bgp.Labels.Stack.{Label, encode_stack, print_stack, decode_label-stack}
use sonic_bmp.Bgp.Nlri.{parse_nlri_data_v4, parse_nlri_data_ipv4_ipv6}
use sonic_bmp.Bgp.Nlri.Bounds.{IsV4, parse_nlri_data_v4-Safe}
use sonic_bmp.Bgp.Nlri.RoundTrip.{
  encode_all, stored_v4, stored_unicast, parse_nlri_data_v4-encode_all,
  parse_nlri_data_ipv4_ipv6-encode_all,
}
use sonic_bmp.Bgp.Nlri.Unicast.{parse_nlri_data_ipv4_ipv6-overwrite}
use sonic_bmp.Examples.Data.{
  host, peer, peer_v6, route_10_8, route_192_20, route_v6, route_10_8-IsRoute, route_192_20-IsRoute,
  route_v6-IsRoute, set_segment, sequence_segment, set_segment-IsSegment,
  sequence_segment-IsSegment, no_families, enabled_v6,
}

parse_nlri_data_v4-encode_all_example :
    parse_nlri_data_v4 host peer
      (encode_all false (route_10_8 ∷ route_192_20 ∷ []) ++ (255 ∷ []))
      6
      []
    ≡ ok ([] ++ map (stored_v4 host) (route_10_8 ∷ route_192_20 ∷ []))
parse_nlri_data_v4-encode_all_example =
    parse_nlri_data_v4-encode_all host peer false (route_10_8 ∷ route_192_20 ∷ []) (255 ∷ []) []
      (no_families 1 1) (route_10_8-IsRoute, (route_192_20-IsRoute, tt))

parse_nlri_data_ipv4_ipv6-encode_all_example :
    parse_nlri_data_ipv4_ipv6 host false (encode_all true (route_v6 ∷ []) ++ []) 9 peer_v6 []
    ≡ ok ([] ++ map (stored_unicast host false) (route_v6 ∷ []))
parse_nlri_data_ipv4_ipv6-encode_all_example =
    parse_nlri_data_ipv4_ipv6-encode_all host false peer_v6 true (route_v6 ∷ []) [] [] enabled_v6
      (route_v6-IsRoute, tt)

abbrev seventeen : Bytes
seventeen = 1 ∷ 2 ∷ 3 ∷ 4 ∷ 5 ∷ 6 ∷ 7 ∷ 8 ∷ 9 ∷ 10 ∷ 11 ∷ 12 ∷ 13 ∷ 14 ∷ 15 ∷ 16 ∷ 17 ∷ []

parse_nlri_data_ipv4_ipv6-overwrite_example :
    parse_nlri_data_ipv4_ipv6 host false (136 ∷ seventeen) 18 peer [] ≡ fault overwrite
parse_nlri_data_ipv4_ipv6-overwrite_example =
    parse_nlri_data_ipv4_ipv6-overwrite host false 136 18 seventeen peer [] (no_families 2 1)
      (omega arith) (omega arith) (omega arith)

parse_attr_as_path-encode_segments_example :
    (attrs' : Attrs) × (parse_attr_as_path peer 10 (encode_segments 4 (set_segment ∷ []) ++ []) []
      ≡ ok (peer, attrs'))
    × HoldsPath (set_segment ∷ []) [] attrs'
parse_attr_as_path-encode_segments_example =
    parse_attr_as_path-encode_segments peer (set_segment ∷ []) [] [] (set_segment-IsSegment, tt)
      (omega arith)

parse_attr_as_path-two_octets_example :
    (attrs' : Attrs) × (parse_attr_as_path peer 8
        (encode_segments 2 (sequence_segment ∷ []) ++ [])
        []
      ≡ ok (record peer { using_2_octet_asn = true }, attrs'))
    × HoldsPath (sequence_segment ∷ []) [] attrs'
parse_attr_as_path-two_octets_example =
    parse_attr_as_path-two_octets peer sequence_segment [] [] [] refl
      (sequence_segment-IsSegment, tt) (omega arith) (omega arith)

parse_attr_as_path-Safe_example :
    Safe (λ r. Unit) (parse_attr_as_path peer 8 (2 ∷ 3 ∷ 1 ∷ 2 ∷ 3 ∷ 4 ∷ 5 ∷ 6 ∷ 7 ∷ []) [])
parse_attr_as_path-Safe_example =
    parse_attr_as_path-Safe peer 8 (2 ∷ 3 ∷ 1 ∷ 2 ∷ 3 ∷ 4 ∷ 5 ∷ 6 ∷ 7 ∷ []) [] (omega arith)

abbrev calls : List Capability
calls =
    record { afi = 1; safi = 1; send_receive = 3; sent = true }
    ∷ record { afi = 1; safi = 1; send_receive = 2; sent = false }
    ∷ record { afi = 2; safi = 1; send_receive = 1; sent = true }
    ∷ []

is_add_path_enabled-replay_example :
    is_add_path_enabled 1 1 (replay host.junk_codes calls)
    ≡ negotiated host.junk_codes (last_code true 1 1 calls) (last_code false 1 1 calls)
is_add_path_enabled-replay_example =
    is_add_path_enabled-replay host.junk_codes 1 1 calls (omega arith) (omega arith)
      ((omega arith, omega arith), ((omega arith, omega arith), ((omega arith, omega arith), tt)))

abbrev label_16 : Label
label_16 = record { value = 16; exp = 5 }

abbrev label_3 : Label
label_3 = record { value = 3; exp = 0 }

decode_label-stack_example :
    decode_label (encode_stack (label_16 ∷ []) label_3 ++ (9 ∷ [])) 6
    ≡ ok (6, print_stack (label_16 ∷ []) label_3)
decode_label-stack_example =
    decode_label-stack (label_16 ∷ []) label_3 6 (9 ∷ [])
      ((omega arith, omega arith, ground arith, ground arith), tt) (omega arith, omega arith)
      (omega arith)

-- A labelled VPN route that announces more than there is
parse_nlri_data_label-Ends_example :
    Ends
      (λ r. Unit)
      (parse_nlri_data_label host true true (112 ∷ 0 ∷ 1 ∷ 1 ∷ 0 ∷ 0 ∷ 0 ∷ 5 ∷ 0 ∷ []) 15 peer)
parse_nlri_data_label-Ends_example =
    parse_nlri_data_label-Ends host true true (112 ∷ 0 ∷ 1 ∷ 1 ∷ 0 ∷ 0 ∷ 0 ∷ 5 ∷ 0 ∷ []) 15 peer

parse_nlri_data_v4-Safe_example :
    Safe (All IsV4) (parse_nlri_data_v4 host peer (24 ∷ 10 ∷ 1 ∷ 2 ∷ 3 ∷ 4 ∷ 5 ∷ []) 2 [])
parse_nlri_data_v4-Safe_example =
    parse_nlri_data_v4-Safe host peer (24 ∷ 10 ∷ 1 ∷ 2 ∷ 3 ∷ 4 ∷ 5 ∷ []) 2 (omega arith)
