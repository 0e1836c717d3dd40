-- ===== src/Bgp/Evpn.antt =====
-- EVPN of Server/src/bgp/EVPN.cpp: the routes of RFC 7432 in an MP_REACH_NLRI or MP_UNREACH_NLRI
-- attribute. parseRouteDistinguisher is in Labels.
mod Fields
pub mod Ends
pub mod Format
pub mod Reads
pub mod RoundTrip
pub mod SegmentRoute
use sonic_bmp.Common.{
  ℕ, zero, suc, ◌+◌, ◌/◌, Bool, ◌&&◌, List, [], ◌∷◌, ◌++◌, min, ◌==◌, ltb, leb, if◌then◌else◌, Text,
  codes, to_dec, hex_digit, Bytes, take, drop, Result, ok, stuck, ◌>>=◌, read_bytes, read_u8, ℤ,
  pos, to_int, int_text, shift_right,
}
use sonic_bmp.Bgp.ExtCommunity.{parse_mac}
use sonic_bmp.Bgp.Labels.{parse_route_distinguisher}
use sonic_bmp.Bgp.Types.{Host, RdTuple, ParsedData}
unfoldable pub use Fields.{
  hex_bytes, segment_value, segment_identifier, read_mpls, read_mpls_if, ip_bytes, read_ip,
}

-- evpn_tuple, without what it inherits and the code does not set.
pub record EvpnTuple : Type 0 where
  pub rd : RdTuple
  pub path_id : ℕ
  pub ethernet_segment_identifier : Text
  pub ethernet_tag_id_hex : Text
  pub mac_len : ℕ
  pub mac : Text
  pub ip_len : ℕ
  pub ip : Text
  pub mpls_label_1 : ℤ
  pub mpls_label_2 : ℤ
  pub originating_router_ip_len : ℕ
  pub originating_router_ip : Text

-- The tuple, data_read and data_pointer.
pub record EvpnState : Type 0 where
  pub entry : EvpnTuple
  pub read : ℕ
  pub rest : Bytes

-- EVPN_ROUTE_TYPE_ETHERNET_AUTO_DISCOVERY
unfoldable pub ethernet_ad : ℕ → EvpnState → Result EvpnState
ethernet_ad data_len s =
    if leb (s.read + 17) data_len
    then (do
      (esi, d1) ← read_bytes 10 s.rest
      (tag, d2) ← read_bytes 4 d1
      (label, d3) ← read_mpls d2
      ok (record {
        entry = record s.entry {
          ethernet_segment_identifier = segment_identifier esi;
          ethernet_tag_id_hex = hex_bytes tag;
          mpls_label_1 = label;
        };
        read = s.read + 17;
        rest = d3;
      }))
    else ok s

-- EVPN_ROUTE_TYPE_MAC_IP_ADVERTISMENT. `nlri_len` is the length in the route; `len`, which the code
-- counts down from it, is 3 where 3 bytes are left of it.
unfoldable pub mac_ip : Host → ℕ → ℕ → EvpnState → Result EvpnState
mac_ip h data_len nlri_len s =
    if leb (s.read + 25) data_len
    then (do
      (esi, d1) ← read_bytes 10 s.rest
      (tag, d2) ← read_bytes 4 d1
      (mac_len, d3) ← read_u8 d2
      (mac, d4) ← read_bytes 6 d3
      (ip_len, d5) ← read_u8 d4
      (ip, n, d6) ← read_ip h ip_len data_len (s.read + 22) d5
      (label_1, n1, d7) ← read_mpls_if (leb (s.read + 22 + n + 3) data_len) d6
      (label_2, n2, d8) ← read_mpls_if (nlri_len == 8 + 22 + n + n1 + 3) d7
      ok (record {
        entry = record s.entry {
          ethernet_segment_identifier = segment_identifier esi;
          ethernet_tag_id_hex = hex_bytes tag;
          mac_len = mac_len;
          mac = parse_mac mac;
          ip_len = ip_len;
          ip = ip;
          mpls_label_1 = label_1;
          mpls_label_2 = label_2;
        };
        read = s.read + 22 + n + n1 + n2;
        rest = d8;
      }))
    else ok s

-- EVPN_ROUTE_TYPE_INCLUSIVE_MULTICAST_ETHERNET_TAG
unfoldable pub inclusive_multicast : Host → ℕ → EvpnState → Result EvpnState
inclusive_multicast h data_len s =
    if leb (s.read + 5) data_len
    then (do
      (tag, d1) ← read_bytes 4 s.rest
      (ip_len, d2) ← read_u8 d1
      (ip, n, d3) ← read_ip h ip_len data_len (s.read + 5) d2
      ok (record {
        entry = record s.entry {
          ethernet_tag_id_hex = hex_bytes tag;
          originating_router_ip_len = ip_len;
          originating_router_ip = ip;
        };
        read = s.read + 5 + n;
        rest = d3;
      }))
    else ok s

-- EVPN_ROUTE_TYPE_ETHERNET_SEGMENT_ROUTE. The address is counted in data_read, but data_pointer stays
-- in front of it.
unfoldable pub segment_route : Host → ℕ → EvpnState → Result EvpnState
segment_route h data_len s =
    if leb (s.read + 11) data_len
    then (do
      (esi, d1) ← read_bytes 10 s.rest
      (ip_len, d2) ← read_u8 d1
      (ip, n, d3) ← read_ip h ip_len data_len (s.read + 11) d2
      ok (record {
        entry = record s.entry {
          ethernet_segment_identifier = segment_identifier esi;
          originating_router_ip_len = ip_len;
          originating_router_ip = ip;
        };
        read = s.read + 11 + n;
        rest = d2;
      }))
    else ok s

-- The tuple as a round starts with it.
abbrev pub fresh_tuple : RdTuple → EvpnTuple
fresh_tuple rd = record {
  rd = rd;
  path_id = 0;
  ethernet_segment_identifier = [];
  ethernet_tag_id_hex = [];
  mac_len = 0;
  mac = [];
  ip_len = 0;
  ip = [];
  mpls_label_1 = pos 0;
  mpls_label_2 = pos 0;
  originating_router_ip_len = 0;
  originating_router_ip = [];
}

abbrev pub fresh_rd : Host → RdTuple
fresh_rd h = record {
  rd_administrator_subfield = [];
  rd_assigned_number = [];
  rd_type = h.junk_rd_type;
}

-- The switch on the route's type; a type that is not known leaves what follows the distinguisher.
unfoldable pub read_route : Host → ℕ → ℕ → ℕ → EvpnState → Result EvpnState
read_route h data_len route_type nlri_len s =
    if route_type == 1
    then ethernet_ad data_len s
    else if route_type == 2
    then mac_ip h data_len nlri_len s
    else if route_type == 3
    then inclusive_multicast h data_len s
    else if route_type == 4
    then segment_route h data_len s
    else ok s

-- One round
unfoldable pub evpn_round : Host → ℕ → ℕ → Bytes → Result EvpnState
evpn_round h data_len read d = do
  (route_type, d1) ← read_u8 d
  (nlri_len, d2) ← read_u8 d1
  rd ← parse_route_distinguisher h d2 (fresh_rd h)
  read_route h data_len route_type nlri_len
      (record { entry = fresh_tuple rd; read = read + 10; rest = drop 8 d2 })

-- `while ((data_read + 10) < data_len)`
unfoldable pub evpn_loop : Host → ℕ → ℕ → ℕ → Bytes → List EvpnTuple → Result (List EvpnTuple)
unfolding evpn_round
evpn_loop h zero data_len read d out = stuck
evpn_loop h (suc f) data_len read d out =
    let round : Result (List EvpnTuple) = (do
      s ← evpn_round h data_len read d
      evpn_loop h f data_len s.read s.rest (out ++ (s.entry ∷ []))) in
    if ltb (read + 10) data_len then round else ok out

-- The tuples that parseNlriData pushes.
unfoldable pub parse_nlri_data : Host → Bytes → ℕ → Result (List EvpnTuple)
parse_nlri_data h d data_len = evpn_loop h (suc data_len) data_len 0 d []

-- What parsed_update_data holds besides: the link-state part and the EVPN tuples.
pub record Others (L : Type 0) : Type 0 where
  pub link_state : L
  pub evpn : List EvpnTuple
  pub evpn_withdrawn : List EvpnTuple

-- parseNlriData: the tuples are put behind those that are there, by isUnreach.
unfoldable pub parse_evpn_nlri :
    {L : Type 0} → Host → Bool → Bytes → ℕ → ParsedData (Others L) → Result (ParsedData (Others L))
parse_evpn_nlri h unreach d data_len p = do
  ts ← parse_nlri_data h d data_len
  ok (record p {
    other =
        if unreach
        then record p.other { evpn_withdrawn = p.other.evpn_withdrawn ++ ts }
        else record p.other { evpn = p.other.evpn ++ ts };
  })
