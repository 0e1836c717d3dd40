-- ===== src/Bgp/LinkState/Rows.antt =====
-- obj_ls_node, obj_ls_link and obj_ls_prefix of Server/src/MsgBusInterface.hpp, and parsed_ls_attrs_map and parsed_data_ls of
-- Server/src/bgp/UpdateMsg.h. A char array that snprintf fills is its text; any other array is its bytes.
use sonic_bmp.Common.{ℕ, Bool, false, List, [], Text, Bytes, replicate}

abbrev pub zeros : ℕ → Bytes
zeros n = replicate n 0

pub record LsNode : Type 0 where
  pub hash_id : Bytes
  pub id : ℕ
  pub is_ipv4 : Bool
  pub asn : ℕ
  pub bgp_ls_id : ℕ
  pub igp_router_id : Bytes
  pub ospf_area_id : Bytes
  pub protocol : Text
  pub router_id : Bytes
  pub isis_area_id : Bytes
  pub flags : Bytes
  pub name : Bytes
  pub mt_id : Bytes
  pub sr_capabilities_tlv : Bytes

-- `bzero(&node_tbl, sizeof(node_tbl))`
abbrev pub empty_node : LsNode
empty_node = record {
  hash_id = zeros 16;
  id = 0;
  is_ipv4 = false;
  asn = 0;
  bgp_ls_id = 0;
  igp_router_id = zeros 8;
  ospf_area_id = zeros 4;
  protocol = [];
  router_id = zeros 16;
  isis_area_id = zeros 9;
  flags = zeros 32;
  name = zeros 255;
  mt_id = zeros 255;
  sr_capabilities_tlv = zeros 255;
}

pub record LsLink : Type 0 where
  pub id : ℕ
  pub mt_id : ℕ
  pub bgp_ls_id : ℕ
  pub igp_router_id : Bytes
  pub remote_igp_router_id : Bytes
  pub ospf_area_id : Bytes
  pub router_id : Bytes
  pub remote_router_id : Bytes
  pub local_node_asn : ℕ
  pub remote_node_asn : ℕ
  pub local_bgp_router_id : ℕ
  pub remote_bgp_router_id : ℕ
  pub isis_area_id : Bytes
  pub protocol : Text
  pub intf_addr : Bytes
  pub nei_addr : Bytes
  pub local_link_id : ℕ
  pub remote_link_id : ℕ
  pub is_ipv4 : Bool
  pub local_node_hash_id : Bytes
  pub remote_node_hash_id : Bytes
  pub admin_group : ℕ
  pub max_link_bw : ℕ
  pub max_resv_bw : ℕ
  pub unreserved_bw : Bytes
  pub te_def_metric : ℕ
  pub protection_type : Bytes
  pub mpls_proto_mask : Bytes
  pub igp_metric : ℕ
  pub srlg : Bytes
  pub name : Bytes
  pub peer_node_sid : Bytes
  pub peer_adj_sid : Bytes

abbrev pub empty_link : LsLink
empty_link = record {
  id = 0;
  mt_id = 0;
  bgp_ls_id = 0;
  igp_router_id = zeros 8;
  remote_igp_router_id = zeros 8;
  ospf_area_id = zeros 4;
  router_id = zeros 16;
  remote_router_id = zeros 16;
  local_node_asn = 0;
  remote_node_asn = 0;
  local_bgp_router_id = 0;
  remote_bgp_router_id = 0;
  isis_area_id = zeros 9;
  protocol = [];
  intf_addr = zeros 16;
  nei_addr = zeros 16;
  local_link_id = 0;
  remote_link_id = 0;
  is_ipv4 = false;
  local_node_hash_id = zeros 16;
  remote_node_hash_id = zeros 16;
  admin_group = 0;
  max_link_bw = 0;
  max_resv_bw = 0;
  unreserved_bw = zeros 100;
  te_def_metric = 0;
  protection_type = zeros 60;
  mpls_proto_mask = zeros 32;
  igp_metric = 0;
  srlg = zeros 128;
  name = zeros 255;
  peer_node_sid = zeros 128;
  peer_adj_sid = zeros 128;
}

pub record LsPrefix : Type 0 where
  pub id : ℕ
  pub protocol : Text
  pub bgp_ls_id : ℕ
  pub igp_router_id : Bytes
  pub ospf_area_id : Bytes
  pub router_id : Bytes
  pub isis_area_id : Bytes
  pub local_node_hash_id : Bytes
  pub mt_id : ℕ
  pub metric : ℕ
  pub is_ipv4 : Bool
  pub prefix_len : ℕ
  pub ospf_route_type : Text
  pub prefix_bin : Bytes
  pub prefix_bcast_bin : Bytes
  pub igp_flags : Bytes
  pub route_tag : ℕ
  pub ext_route_tag : ℕ
  pub ospf_fwd_addr : Bytes
  pub sid_tlv : Bytes

abbrev pub empty_prefix : LsPrefix
empty_prefix = record {
  id = 0;
  protocol = [];
  bgp_ls_id = 0;
  igp_router_id = zeros 8;
  ospf_area_id = zeros 4;
  router_id = zeros 16;
  isis_area_id = zeros 9;
  local_node_hash_id = zeros 16;
  mt_id = 0;
  metric = 0;
  is_ipv4 = false;
  prefix_len = 0;
  ospf_route_type = [];
  prefix_bin = zeros 16;
  prefix_bcast_bin = zeros 16;
  igp_flags = zeros 32;
  route_tag = 0;
  ext_route_tag = 0;
  ospf_fwd_addr = zeros 16;
  sid_tlv = zeros 128;
}

-- parsed_data_ls
pub record LsData : Type 0 where
  pub nodes : List LsNode
  pub links : List LsLink
  pub prefixes : List LsPrefix

-- parsed_ls_attrs_map: arrays of 255 bytes by their type
abbrev pub LsAttrs : Type 0
LsAttrs = List (ℕ × Bytes)

-- The link-state part of parsed_update_data
pub record LinkStateData : Type 0 where
  pub ls_attrs : LsAttrs
  pub ls : LsData
  pub ls_withdrawn : LsData
