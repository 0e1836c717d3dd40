-- ===== src/Bgp/Types.antt =====
-- The data that the parsers share: bgp_common.h, BMPReader::peer_info and what the host supplies.
use sonic_bmp.Common.{
  ℕ, ◌+◌, ◌-◌, ◌/◌, ◌%◌, Bool, List, ◌++◌, ◌==◌, leb, if◌then◌else◌, Text, Bytes, length, replicate,
  Result, ok, fault, overwrite,
}
use sonic_bmp.Bgp.AddPath.{Codes, Container}
use sonic_bmp.Bgp.Attrs.{Attrs}

-- What the code takes from outside the repository: the C library's `inet_ntop`, for AF_INET (true)
-- and AF_INET6 (false), and what variables hold that the code does not initialise.
pub record Host : Type 0 where
  pub inet_ntop : Bool → Bytes → Text
  pub junk_codes : Codes
  pub junk_bin : Bytes
  pub junk_rd_type : ℕ

-- BGP_AFI, BGP_SAFI
abbrev pub afi_ipv4 : ℕ
afi_ipv4 = 1

abbrev pub afi_ipv6 : ℕ
afi_ipv6 = 2

abbrev pub afi_l2vpn : ℕ
afi_l2vpn = 25

abbrev pub afi_bgpls : ℕ
afi_bgpls = 16388

abbrev pub safi_unicast : ℕ
safi_unicast = 1

abbrev pub safi_nlri_label : ℕ
safi_nlri_label = 4

abbrev pub safi_evpn : ℕ
safi_evpn = 70

abbrev pub safi_mpls : ℕ
safi_mpls = 128

-- PREFIX_TYPE
pub data PrefixType : Type 0 where
  unicast_v4 unicast_v6 label_unicast_v4 label_unicast_v6 vpn_v4 vpn_v6 multicast_v4 : PrefixType

-- prefix_tuple; `type` of the source is `kind`.
pub record PrefixTuple : Type 0 where
  pub kind : PrefixType
  pub len : ℕ
  pub prefix : Text
  pub prefix_bin : Bytes
  pub path_id : ℕ
  pub is_ipv4 : Bool
  pub labels : Text

-- BMPReader::peer_info
pub record PeerInfo : Type 0 where
  pub sent_four_octet_asn : Bool
  pub recv_four_octet_asn : Bool
  pub using_2_octet_asn : Bool
  pub add_path_capability : Container
  pub peer_group : Text
  pub end_of_rib : Bool

-- rd_tuple
pub record RdTuple : Type 0 where
  pub rd_administrator_subfield : Text
  pub rd_assigned_number : Text
  pub rd_type : ℕ

-- vpn_tuple
pub record VpnTuple : Type 0 where
  pub tuple : PrefixTuple
  pub rd : RdTuple

-- parsed_update_data. `other` stands for the link-state and EVPN parts, ls_attrs, ls, ls_withdrawn,
-- evpn and evpn_withdrawn, which only the callees below write.
pub record ParsedData (X : Type 0) : Type 0 where
  pub attrs : Attrs
  pub withdrawn : List PrefixTuple
  pub advertised : List PrefixTuple
  pub vpn : List VpnTuple
  pub vpn_withdrawn : List VpnTuple
  pub other : X

-- The objects that a handler writes to: `*peer_info` and parsed_data.
pub record Session (X : Type 0) : Type 0 where
  pub info : PeerInfo
  pub parsed : ParsedData X

-- mp_reach_nlri; a pointer is the bytes from there on.
pub record MpReachNlri : Type 0 where
  pub afi : ℕ
  pub safi : ℕ
  pub nh_len : ℕ
  pub next_hop : Bytes
  pub nlri_data : Bytes
  pub nlri_len : ℕ

-- mp_unreach_nlri
pub record MpUnreachNlri : Type 0 where
  pub afi : ℕ
  pub safi : ℕ
  pub nlri_data : Bytes
  pub nlri_len : ℕ

-- The parsers of other classes that the parsers of attributes call: parseExtCommunities and
-- parsev6ExtCommunities of ExtCommunity, parseAttrLinkState of MPLinkStateAttr, parseReachLinkState and
-- parseUnReachLinkState of MPLinkState, and parseNlriData of EVPN for withdrawn (true) or advertised
-- routes. The theorems hold for any such functions, but for what they state of them.
pub record Callees (X : Type 0) : Type 0 where
  pub parse_ext_communities : ℕ → Bytes → ParsedData X → Result (ParsedData X)
  pub parse_v6_ext_communities : ℕ → Bytes → ParsedData X → Result (ParsedData X)
  pub parse_attr_link_state : ℕ → Bytes → ParsedData X → Result (ParsedData X)
  pub parse_reach_link_state : MpReachNlri → ParsedData X → Result (ParsedData X)
  pub parse_unreach_link_state : MpUnreachNlri → ParsedData X → Result (ParsedData X)
  pub parse_evpn_nlri : Bool → Bytes → ℕ → ParsedData X → Result (ParsedData X)

-- `addr_bytes = len / 8; if (len % 8) ++addr_bytes;`
abbrev pub addr_bytes : ℕ → ℕ
addr_bytes len = if len % 8 == 0 then len / 8 else len / 8 + 1

-- `bzero(array, size); memcpy(array, bs)` on an array of `size` bytes.
unfoldable pub copy_into : ℕ → Bytes → Result Bytes
copy_into size bs =
    if leb (length bs) size then ok (bs ++ replicate (size - length bs) 0) else fault overwrite
