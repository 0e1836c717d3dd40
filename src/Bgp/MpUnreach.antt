-- ===== src/Bgp/MpUnreach.antt =====
-- MPUnReachAttr of Server/src/bgp/MPUnReachAttr.cpp: the MP_UNREACH_NLRI attribute.
pub mod RoundTrip
use sonic_bmp.Common.{
  ℕ, ◌+◌, ◌-◌, ◌%◌, ◌^◌, Bool, true, false, List, ◌++◌, ◌==◌, ltb, if◌then◌else◌, Bytes, map,
  Result, ok, ◌>>=◌, read_u8, read_uint,
}
use sonic_bmp.Bgp.Labels.{parse_nlri_data_label}
use sonic_bmp.Bgp.Nlri.{parse_nlri_data_ipv4_ipv6}
use sonic_bmp.Bgp.Types.{
  Host, PeerInfo, ParsedData, Session, MpUnreachNlri, Callees, afi_ipv4, afi_ipv6, afi_l2vpn,
  afi_bgpls, safi_unicast, safi_nlri_label, safi_mpls, safi_evpn,
}

module _ {X : Type 0} where
  -- parseAfi_IPv4IPv6
  unfoldable pub unreach_ipv4_ipv6 :
      Host → PeerInfo → Bool → MpUnreachNlri → ParsedData X → Result (ParsedData X)
  unreach_ipv4_ipv6 h info ipv4 n p =
      if n.safi == safi_unicast
      then (do
        gone ← parse_nlri_data_ipv4_ipv6 h ipv4 n.nlri_data n.nlri_len info p.withdrawn
        ok (record p { withdrawn = gone }))
      else if n.safi == safi_nlri_label
      then (do
        entries ← parse_nlri_data_label h ipv4 false n.nlri_data n.nlri_len info
        ok (record p { withdrawn = p.withdrawn ++ map (λ e. e.tuple) entries }))
      else if n.safi == safi_mpls
      then (do
        entries ← parse_nlri_data_label h ipv4 true n.nlri_data n.nlri_len info
        ok (record p { vpn_withdrawn = p.vpn_withdrawn ++ entries }))
      else ok p

  -- parseAfi
  unfoldable pub unreach_afi :
      Host → Callees X → PeerInfo → MpUnreachNlri → ParsedData X → Result (ParsedData X)
  unfolding unreach_ipv4_ipv6
  unreach_afi h c info n p =
      if n.afi == afi_ipv6
      then unreach_ipv4_ipv6 h info false n p
      else if n.afi == afi_ipv4
      then unreach_ipv4_ipv6 h info true n p
      else if n.afi == afi_bgpls
      then c.parse_unreach_link_state n p
      else if n.afi == afi_l2vpn
      then (if n.safi == safi_evpn then c.parse_evpn_nlri true n.nlri_data n.nlri_len p else ok p)
      else ok p

  -- parseUnReachNlriAttr: an attribute with no prefixes is the End-of-RIB marker.
  unfoldable pub parse_unreach_nlri_attr :
      Host → Callees X → ℕ → Bytes → Session X → Result (Session X)
  unfolding unreach_afi
  parse_unreach_nlri_attr h c attr_len d s = do
    (afi, d1) ← read_uint 2 d
    (safi, nlri_data) ← read_u8 d1
    let nlri_len = (attr_len - 3) % 2 ^ 16
    if ltb attr_len 3
        then ok s
        else if nlri_len == 0
        then ok (record s { info = record s.info { end_of_rib = true } })
        else (do
          p ←
              unreach_afi h c s.info
                (record { afi = afi; safi = safi; nlri_data = nlri_data; nlri_len = nlri_len })
                s.parsed
          ok (record s { parsed = p }))
