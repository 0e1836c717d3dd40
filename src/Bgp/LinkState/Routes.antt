-- ===== src/Bgp/LinkState/Routes.antt =====
-- The routes of BGP-LS: parseNlriNode, parseNlriLink and parseNlriPrefix of
-- Server/src/bgp/linkstate/MPLinkState.cpp.
use sonic_bmp.Common.{
  ℕ, suc, ◌+◌, ◌-◌, Bool, true, false, not, ◌&&◌, ◌++◌, Option, none, some, ◌==◌, ltb,
  if◌then◌else◌, Text, codes, Bytes, Result, ok, ◌>>=◌, read_uint, network, reverse, [],
}
use sonic_bmp.Bgp.LinkState.Rows.{LsNode, LsLink, LsPrefix, empty_node, empty_link, empty_prefix}
use sonic_bmp.Bgp.LinkState.Descriptors.{
  NodeDescriptor, empty_node_descriptor, empty_link_descriptor, empty_prefix_descriptor,
  descriptor_loop, fill_node, fill_link, fill_prefix,
}

-- decodeNlriProtocolId
unfoldable pub decode_protocol_id : ℕ → Text
decode_protocol_id proto =
    if proto == 4
    then codes "Direct"
    else if proto == 5
    then codes "Static"
    else if proto == 1
    then codes "IS-IS_L1"
    else if proto == 2
    then codes "IS-IS_L2"
    else if proto == 3
    then codes "OSPFv2"
    else if proto == 6
    then codes "OSPFv3"
    else if proto == 7
    then codes "EPE"
    else []

-- What genNodeHashId hashes; integers lie in memory last byte first.
abbrev pub node_key : NodeDescriptor → Bytes
node_key n =
    n.igp_router_id
    ++ (reverse (network 4 n.bgp_ls_id) ++ (reverse (network 4 n.asn) ++ n.ospf_area_id))

-- A node descriptor that has been read: its type, what it says, and the length and data behind it.
pub record NodePart : Type 0 where
  pub type : ℕ
  pub info : NodeDescriptor
  pub left : ℕ
  pub rest : Bytes

-- A node descriptor: none if it is longer than what is left of the NLRI, or if it must be the local one
-- and is not. data_len may go below 0 here, and any length is then too long.
unfoldable pub read_node_part : Bool → ℕ → Bytes → Result (Option NodePart)
read_node_part only_local data_len d = do
  (type, d1) ← read_uint 2 d
  (len, d2) ← read_uint 2 d1
  let part : Result (Option NodePart) = (do
    (n, d3, info) ← descriptor_loop fill_node (suc len) len 0 d2 empty_node_descriptor
    ok (some (record { type = type; info = info; left = data_len - 4 - n; rest = d3 })))
  if ltb data_len (len + 4)
      then ok none
      else if only_local && not (type == 256)
      then ok none
      else part

-- The two BGP-LS node descriptors of a link go to different fields; one of another type is dropped.
-- `md5` is the digest of the MD5 class.
unfoldable pub set_end : (Bytes → Bytes) → NodePart → LsLink → LsLink
set_end md5 p t =
    if p.type == 256
    then record t {
      local_node_hash_id = md5 (node_key p.info);
      ospf_area_id = p.info.ospf_area_id;
      bgp_ls_id = p.info.bgp_ls_id;
      local_node_asn = p.info.asn;
      igp_router_id = p.info.igp_router_id;
      local_bgp_router_id = p.info.bgp_router_id;
    }
    else if p.type == 257
    then record t {
      remote_node_hash_id = md5 (node_key p.info);
      remote_igp_router_id = p.info.igp_router_id;
      remote_node_asn = p.info.asn;
      remote_bgp_router_id = p.info.bgp_router_id;
    }
    else t

-- What follows a descriptor that may be missing: without it the NLRI is given up.
abbrev pub with_part :
    {A : Type 0} → Option NodePart → (NodePart → Result (Option A)) → Result (Option A)
with_part none f = ok none
with_part (some p) f = f p

-- parseNlriNode: the node, if there is one.
unfoldable pub parse_nlri_node : (Bytes → Bytes) → Bytes → ℕ → ℕ → ℕ → Result (Option LsNode)
parse_nlri_node md5 d data_len id proto =
    let node : Result (Option LsNode) = (do
      part ← read_node_part true data_len d
      with_part part λ p. ok (
          some (record empty_node {
            id = id;
            protocol = decode_protocol_id proto;
            is_ipv4 = true;
            hash_id = md5 (node_key p.info);
            asn = p.info.asn;
            ospf_area_id = p.info.ospf_area_id;
            bgp_ls_id = p.info.bgp_ls_id;
            igp_router_id = p.info.igp_router_id;
          }))) in
    if ltb data_len 4 then ok none else node

-- parseNlriLink
unfoldable pub parse_nlri_link : (Bytes → Bytes) → Bytes → ℕ → ℕ → ℕ → Result (Option LsLink)
parse_nlri_link md5 d data_len id proto =
    let start = record empty_link { id = id; protocol = decode_protocol_id proto } in
    let link : Result (Option LsLink) = (do
      first ← read_node_part false data_len d
      with_part first λ p. (do
        second ← read_node_part false p.left p.rest
        with_part second λ q. (do
          (n, rest, info) ←
              descriptor_loop fill_link (suc q.left) q.left 0 q.rest empty_link_descriptor
          ok (
              some (record (set_end md5 q (set_end md5 p start)) {
                is_ipv4 = info.is_ipv4;
                mt_id = info.mt_id;
                local_link_id = info.local_id;
                remote_link_id = info.remote_id;
                intf_addr = info.intf_addr;
                nei_addr = info.nei_addr;
              }))))) in
    if ltb data_len 4 then ok none else link

-- parseNlriPrefix
unfoldable pub parse_nlri_prefix :
    (Bytes → Bytes) → Bool → Bytes → ℕ → ℕ → ℕ → Result (Option LsPrefix)
parse_nlri_prefix md5 ipv4 d data_len id proto =
    let prefix : Result (Option LsPrefix) = (do
      part ← read_node_part true data_len d
      with_part part λ p. (do
        (n, rest, info) ←
            descriptor_loop (fill_prefix ipv4) (suc p.left) p.left 0 p.rest empty_prefix_descriptor
        ok (
            some (record empty_prefix {
              id = id;
              protocol = decode_protocol_id proto;
              is_ipv4 = ipv4;
              prefix_len = info.prefix_len;
              mt_id = info.mt_id;
              ospf_area_id = p.info.ospf_area_id;
              bgp_ls_id = p.info.bgp_ls_id;
              igp_router_id = p.info.igp_router_id;
              local_node_hash_id = md5 (node_key p.info);
              prefix_bin = info.prefix;
              prefix_bcast_bin = info.prefix_bcast;
              ospf_route_type = info.ospf_route_type;
            })))) in
    if ltb data_len 4 then ok none else prefix
