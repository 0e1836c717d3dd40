-- ===== src/Bgp/MpReach.antt =====
-- MPReachAttr of Server/src/bgp/MPReachAttr.cpp: the MP_REACH_NLRI attribute. attr_len is an int that
-- the code lets go below 0 before it tests it; here it stays what the caller passed, and the tests add
-- what has been taken away.
pub mod RoundTrip
use sonic_bmp.Common.{
  ℕ, ◌+◌, ◌-◌, ◌%◌, ◌^◌, Bool, true, false, List, ◌++◌, ◌==◌, ltb, if◌then◌else◌, Text, Bytes, drop,
  map, min, Result, ok, ◌>>=◌, read_bytes, read_u8, read_uint,
}
use sonic_bmp.Bgp.Attrs.{set_attr}
use sonic_bmp.Bgp.AttrType
use sonic_bmp.Bgp.Labels.{parse_nlri_data_label}
use sonic_bmp.Bgp.Nlri.{parse_nlri_data_ipv4_ipv6}
use sonic_bmp.Bgp.Types.{
  Host, PeerInfo, ParsedData, MpReachNlri, Callees, copy_into, afi_ipv4, afi_ipv6, afi_l2vpn,
  afi_bgpls, safi_unicast, safi_nlri_label, safi_mpls, safi_evpn,
}

-- The next hop: at most sixteen bytes of it, in a zeroed array, printed.
unfoldable pub next_hop_text : Host → Bool → ℕ → Bytes → Result Text
unfolding copy_into
next_hop_text h ipv4 nh_len next_hop = do
  (bs, rest) ← read_bytes (min nh_len 16) next_hop
  raw ← copy_into 16 bs
  ok (h.inet_ntop ipv4 raw)

module _ {X : Type 0} where
  unfoldable pub set_next_hop : Text → ParsedData X → ParsedData X
  set_next_hop text p = record p { attrs = set_attr AttrType.next_hop text p.attrs }

  -- parseAfi_IPv4IPv6; nh_len is an unsigned char.
  unfoldable pub reach_ipv4_ipv6 :
      Host → PeerInfo → Bool → MpReachNlri → ParsedData X → Result (ParsedData X)
  unfolding next_hop_text set_next_hop
  reach_ipv4_ipv6 h info ipv4 n p =
      if n.safi == safi_unicast
      then (do
        text ← next_hop_text h ipv4 n.nh_len n.next_hop
        let p' = set_next_hop text p
        adv ← parse_nlri_data_ipv4_ipv6 h ipv4 n.nlri_data n.nlri_len info p'.advertised
        ok (record p' { advertised = adv }))
      else if n.safi == safi_nlri_label
      then (do
        text ← next_hop_text h ipv4 n.nh_len n.next_hop
        let p' = set_next_hop text p
        entries ← parse_nlri_data_label h ipv4 false n.nlri_data n.nlri_len info
        ok (record p' { advertised = p'.advertised ++ map (λ e. e.tuple) entries }))
      else if n.safi == safi_mpls
      then (do
        text ←
            (if ipv4
              then next_hop_text h ipv4 ((n.nh_len + 256 - 8) % 256) (drop 8 n.next_hop)
              else next_hop_text h ipv4 n.nh_len n.next_hop)
        let p' = set_next_hop text p
        entries ← parse_nlri_data_label h ipv4 true n.nlri_data n.nlri_len info
        ok (record p' { vpn = p'.vpn ++ entries }))
      else ok p

  -- parseAfi
  unfoldable pub reach_afi :
      Host → Callees X → PeerInfo → MpReachNlri → ParsedData X → Result (ParsedData X)
  unfolding reach_ipv4_ipv6
  reach_afi h c info n p =
      if n.afi == afi_ipv6
      then reach_ipv4_ipv6 h info false n p
      else if n.afi == afi_ipv4
      then reach_ipv4_ipv6 h info true n p
      else if n.afi == afi_bgpls
      then c.parse_reach_link_state n p
      else if n.afi == afi_l2vpn
      then (do
        text ← next_hop_text h (n.nh_len == 4) n.nh_len n.next_hop
        let p' = set_next_hop text p
        if n.safi == safi_evpn then c.parse_evpn_nlri false n.nlri_data n.nlri_len p' else ok p')
      else ok p

  -- parseReachNlriAttr. The fields are read before attr_len is tested; nlri_len is a uint16_t.
  unfoldable pub parse_reach_nlri_attr :
      Host → Callees X → PeerInfo → ℕ → Bytes → ParsedData X → Result (ParsedData X)
  unfolding reach_afi
  parse_reach_nlri_attr h c info attr_len d p = do
    (afi, d1) ← read_uint 2 d
    (safi, d2) ← read_u8 d1
    (nh_len, next_hop) ← read_u8 d2
    (reserved, nlri_data) ← read_u8 (drop nh_len next_hop)
    if ltb attr_len (5 + nh_len)
        then ok p
        else reach_afi h c info
            (record {
              afi = afi;
              safi = safi;
              nh_len = nh_len;
              next_hop = next_hop;
              nlri_data = nlri_data;
              nlri_len = (attr_len - (5 + nh_len)) % 2 ^ 16;
            })
            p
