-- ===== src/Bgp/LinkState.antt =====
-- MPLinkState of Server/src/bgp/linkstate/MPLinkState.cpp: the BGP-LS routes of an MP_REACH_NLRI or
-- MP_UNREACH_NLRI attribute.
pub mod Rows
pub mod Descriptors
pub mod Routes
pub mod DescriptorEnds
pub mod Ends
use sonic_bmp.Common.{
  ℕ, zero, suc, ◌+◌, ◌-◌, ◌%◌, ◌^◌, Bool, true, false, List, [], ◌∷◌, ◌++◌, Option, none, some,
  ◌==◌, ltb, leb, if◌then◌else◌, Text, Bytes, length, drop, Result, ok, fault, overwrite, stuck,
  ◌>>=◌, read_bytes, read_u8, read_uint,
}
use sonic_bmp.Bgp.Attrs.{set_attr}
use sonic_bmp.Bgp.AttrType
use sonic_bmp.Bgp.Evpn.{Others}
use sonic_bmp.Bgp.Types.{Host, ParsedData, MpReachNlri, MpUnreachNlri}
use sonic_bmp.Bgp.LinkState.Rows.{LsNode, LsLink, LsPrefix, LsData, LinkStateData}
use sonic_bmp.Bgp.LinkState.Routes.{parse_nlri_node, parse_nlri_link, parse_nlri_prefix}

-- push_back of what was parsed, if it was.
abbrev pub push_node : Option LsNode → LsData → LsData
push_node none l = l
push_node (some t) l = record l { nodes = l.nodes ++ (t ∷ []) }

abbrev pub push_link : Option LsLink → LsData → LsData
push_link none l = l
push_link (some t) l = record l { links = l.links ++ (t ∷ []) }

abbrev pub push_prefix : Option LsPrefix → LsData → LsData
push_prefix none l = l
push_prefix (some t) l = record l { prefixes = l.prefixes ++ (t ∷ []) }

-- The switch on NLRI_TYPES: none for a type that ends the loop.
unfoldable pub parse_by_type :
    (Bytes → Bytes) → ℕ → Bytes → ℕ → ℕ → ℕ → LsData → Result (Option LsData)
parse_by_type md5 type d n id proto l =
    if type == 1
    then (do t ← parse_nlri_node md5 d n id proto; ok (some (push_node t l)))
    else if type == 2
    then (do t ← parse_nlri_link md5 d n id proto; ok (some (push_link t l)))
    else if type == 3
    then (do t ← parse_nlri_prefix md5 true d n id proto; ok (some (push_prefix t l)))
    else if type == 4
    then (do t ← parse_nlri_prefix md5 false d n id proto; ok (some (push_prefix t l)))
    else ok none

-- A type that is not known ends the loop with what there is.
abbrev pub go_on : Option LsData → LsData → (LsData → Result LsData) → Result LsData
go_on none l next = ok l
go_on (some l') l next = next l'

-- parseLinkStateNlriData. nlri_len is tested against the length of all the data, and is a uint16_t that
-- wraps where nine bytes are taken off a shorter one; so is nlri_len_read. A round reads thirteen bytes.
unfoldable pub ls_nlri_loop : (Bytes → Bytes) → ℕ → ℕ → ℕ → Bytes → LsData → Result LsData
ls_nlri_loop md5 zero len read d l = stuck
ls_nlri_loop md5 (suc f) len read d l =
    let round : Result LsData = (do
      (type, d1) ← read_uint 2 d
      (nlri_len, d2) ← read_uint 2 d1
      let n = (nlri_len + 2 ^ 16 - 9) % 2 ^ 16
      let body : Result LsData = (do
        (proto, d3) ← read_u8 d2
        (id, d4) ← read_uint 8 d3
        parsed ← parse_by_type md5 type d4 n id proto l
        go_on parsed l λ l'. ls_nlri_loop md5 f len ((read + 13 + n) % 2 ^ 16) (drop n d4) l')
      if ltb len nlri_len then ok l else body) in
    if ltb read len then round else ok l

unfoldable pub parse_link_state_nlri_data : (Bytes → Bytes) → Bytes → ℕ → LsData → Result LsData
parse_link_state_nlri_data md5 d len l = ls_nlri_loop md5 (suc (length d)) len 0 d l

-- BGP_SAFI_BGPLS
abbrev pub safi_bgpls : ℕ
safi_bgpls = 71

abbrev pub with_link_state : {X : Type 0} → ParsedData (Others X) → X → ParsedData (Others X)
with_link_state p x = record p { other = record p.other { link_state = x } }

-- ip_char: the next hop is copied into the sixteen bytes of ip_raw whatever its length is, and printed as an
-- IPv4 address if it has four. Of a shorter one neither array is written, and ip_char is not initialised.
unfoldable pub ls_next_hop : Host → ℕ → Bytes → Result Text
ls_next_hop h nh_len next_hop =
    let copied : Result Text = (do
      (bs, rest) ← read_bytes nh_len next_hop
      if leb nh_len 16
          then ok (h.inet_ntop (nh_len == 4) (bs ++ drop nh_len h.junk_bin))
          else fault overwrite) in
    if leb 4 nh_len then copied else ok h.junk_bin

-- parseReachLinkState: the next hop is set whatever the SAFI is.
unfoldable pub parse_reach_link_state :
    Host
    → (Bytes → Bytes)
    → MpReachNlri
    → ParsedData (Others LinkStateData)
    → Result (ParsedData (Others LinkStateData))
unfolding ls_next_hop
parse_reach_link_state h md5 n p0 = do
  text ← ls_next_hop h n.nh_len n.next_hop
  let p = record p0 { attrs = set_attr AttrType.next_hop text p0.attrs }
  let s = p.other.link_state
  let reach : Result (ParsedData (Others LinkStateData)) = (do
    l ← parse_link_state_nlri_data md5 n.nlri_data n.nlri_len s.ls
    ok (with_link_state p (record s { ls = l })))
  if n.safi == safi_bgpls then reach else ok p

-- parseUnReachLinkState
unfoldable pub parse_unreach_link_state :
    (Bytes → Bytes)
    → MpUnreachNlri
    → ParsedData (Others LinkStateData)
    → Result (ParsedData (Others LinkStateData))
parse_unreach_link_state md5 n p =
    let s = p.other.link_state in
    let unreach : Result (ParsedData (Others LinkStateData)) = (do
      l ← parse_link_state_nlri_data md5 n.nlri_data n.nlri_len s.ls_withdrawn
      ok (with_link_state p (record s { ls_withdrawn = l }))) in
    if n.safi == safi_bgpls then unreach else ok p
