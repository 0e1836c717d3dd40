-- ===== src/Bgp/UpdateDb.antt =====
-- UpdateDB of Server/src/bgp/parseBGP.cpp: what an update message makes of the rows that go to the message
-- bus. The bus is an interface (Server/src/MsgBusInterface.hpp): its calls are events, and what
-- update_baseAttribute writes to the hash id of the attributes is a parameter.
pub mod PathAttr
pub mod Merge
pub mod Hashes
pub mod Numbers
pub mod Rows
pub mod Stored
use sonic_bmp.Common.{
  ℕ, ◌+◌, ◌*◌, Bool, true, false, List, [], ◌∷◌, ◌++◌, Option, none, some, ltb, if◌then◌else◌, Text,
  Bytes, length, take, map, replicate, Result, ok, fault, overwrite, ◌>>=◌, ℤ,
}
use sonic_bmp.Bgp.Attrs.{Attrs, get_attr}
use sonic_bmp.Bgp.AttrType
use sonic_bmp.Bgp.Evpn.{EvpnTuple, Others}
use sonic_bmp.Bgp.LastAddress.{last_address}
use sonic_bmp.Bgp.LinkState.Rows.{LsNode, LsLink, LsPrefix, LsData, LsAttrs, LinkStateData}
use sonic_bmp.Bgp.Types.{Host, PrefixTuple, RdTuple, VpnTuple, ParsedData}
use sonic_bmp.Bgp.UpdateDb.PathAttr.{BaseAttr, base_attr_of}
use sonic_bmp.Bgp.UpdateDb.Merge.{merge_nodes, merge_link, merge_prefix}

-- obj_rib, without the hash id that the bus writes.
pub record RibRow : Type 0 where
  pub path_attr_hash_id : Bytes
  pub peer_hash_id : Bytes
  pub is_ipv4 : Bool
  pub prefix : Text
  pub prefix_len : ℕ
  pub prefix_bin : Bytes
  pub prefix_bcast_bin : Bytes
  pub path_id : ℕ
  pub labels : Text

-- obj_vpn
pub record VpnRow : Type 0 where
  pub rib : RibRow
  pub rd : RdTuple

-- obj_evpn, without the fields of obj_rib that the code does not set.
pub record EvpnRow : Type 0 where
  pub path_attr_hash_id : Bytes
  pub peer_hash_id : Bytes
  pub path_id : ℕ
  pub rd : RdTuple
  pub originating_router_ip_len : ℕ
  pub originating_router_ip : Text
  pub ethernet_segment_identifier : Text
  pub ethernet_tag_id_hex : Text
  pub mac_len : ℕ
  pub mac : Text
  pub ip_len : ℕ
  pub ip : Text
  pub mpls_label_1 : ℤ
  pub mpls_label_2 : ℤ

-- *_ACTION_ADD and *_ACTION_DEL
pub data Action : Type 0 where
  add del : Action

-- `remove ? ..._DEL : ..._ADD`
abbrev pub action_of : Bool → Action
action_of remove = if remove then del else add

-- A call of the message bus.
pub data Event : Type 0 where
  base_attribute : BaseAttr → Event
  unicast_prefix : Action → List RibRow → Option BaseAttr → Event
  l3vpn : Action → List VpnRow → BaseAttr → Event
  evpn : Action → List EvpnRow → BaseAttr → Event
  ls_nodes : Action → List LsNode → BaseAttr → Event
  ls_links : Action → List LsLink → BaseAttr → Event
  ls_prefixes : Action → List LsPrefix → BaseAttr → Event

-- The members of parseBGP that UpdateDB uses.
pub record Store : Type 0 where
  pub base_attr : BaseAttr
  pub path_hash_id : Bytes
  pub peer_hash_id : Bytes

-- UpdateDBAttrs: without a next hop the hash id is zeroed and nothing is sent.
unfoldable pub update_db_attrs : (BaseAttr → Bytes) → Attrs → Store → Result (Store × List Event)
update_db_attrs attr_hash m s = do
  a ← base_attr_of m
  if ltb 0 (length (get_attr AttrType.next_hop m))
      then ok
          (record s { base_attr = a; path_hash_id = take 16 (attr_hash a) }, base_attribute a ∷ [])
      else ok (record s { base_attr = a; path_hash_id = replicate 16 0 }, [])

-- What the loops over prefixes set: the array of 46 bytes by strncpy, that of 255 by snprintf.
abbrev pub rib_row : Store → PrefixTuple → Bytes → RibRow
rib_row s t bcast = record {
  path_attr_hash_id = s.path_hash_id;
  peer_hash_id = s.peer_hash_id;
  is_ipv4 = t.is_ipv4;
  prefix = take 46 t.prefix;
  prefix_len = t.len;
  prefix_bin = take 16 t.prefix_bin;
  prefix_bcast_bin = bcast;
  path_id = t.path_id;
  labels = take 254 t.labels;
}

-- The loop of UpdateDBAdvPrefixes. rib_entry lives on from round to round, and prefix_bcast_bin is not
-- written as a whole.
unfoldable pub adv_rows : Store → Bytes → List PrefixTuple → List RibRow
adv_rows s bcast [] = []
adv_rows s bcast (t ∷ ts) =
    let last = last_address t.is_ipv4 t.len t.prefix_bin bcast in
    rib_row s t last ∷ adv_rows s last ts

-- The loop of UpdateDBL3Vpn
unfoldable pub vpn_rows : Store → Bytes → List VpnTuple → List VpnRow
vpn_rows s bcast [] = []
vpn_rows s bcast (t ∷ ts) =
    let last = last_address t.tuple.is_ipv4 t.tuple.len t.tuple.prefix_bin bcast in
    record { rib = rib_row s t.tuple last; rd = t.rd } ∷ vpn_rows s last ts

-- The loop of UpdateDBWdrawnPrefixes, which does not write prefix_bcast_bin.
unfoldable pub withdrawn_rows : Store → Bytes → List PrefixTuple → List RibRow
withdrawn_rows s bcast ts = map (λ t. rib_row s t bcast) ts

-- strcpy into an array of `size` bytes
abbrev pub strcpy : ℕ → Text → Result Text
strcpy size t = if ltb (length t) size then ok t else fault overwrite

-- A round of UpdateDBeVPN
unfoldable pub evpn_row : Store → EvpnTuple → Result EvpnRow
evpn_row s t = do
  tag ← strcpy 16 t.ethernet_tag_id_hex
  mac ← strcpy 255 t.mac
  ip ← strcpy 46 t.ip
  router ← strcpy 46 t.originating_router_ip
  esi ← strcpy 255 t.ethernet_segment_identifier
  ok (record {
    path_attr_hash_id = s.path_hash_id;
    peer_hash_id = s.peer_hash_id;
    path_id = t.path_id;
    rd = t.rd;
    originating_router_ip_len = t.originating_router_ip_len;
    originating_router_ip = router;
    ethernet_segment_identifier = esi;
    ethernet_tag_id_hex = tag;
    mac_len = t.mac_len;
    mac = mac;
    ip_len = t.ip_len;
    ip = ip;
    mpls_label_1 = t.mpls_label_1;
    mpls_label_2 = t.mpls_label_2;
  })

-- The loop of UpdateDBeVPN
unfoldable pub evpn_rows : Store → List EvpnTuple → Result (List EvpnRow)
evpn_rows s [] = ok []
evpn_rows s (t ∷ ts) = do r ← evpn_row s t; rs ← evpn_rows s ts; ok (r ∷ rs)

-- `if (rib_list.size() > 0)`
abbrev pub unless_empty : {A : Type 0} → List A → Event → List Event
unless_empty [] e = []
unless_empty (x ∷ xs) e = e ∷ []

-- UpdateDBAdvPrefixes
unfoldable pub update_db_adv_prefixes : Host → Store → List PrefixTuple → List Event
update_db_adv_prefixes h s ts =
    let rows = adv_rows s h.junk_bin ts in
    unless_empty rows (unicast_prefix add rows (some s.base_attr))

-- UpdateDBL3Vpn
unfoldable pub update_db_l3vpn : Host → Bool → Store → List VpnTuple → List Event
update_db_l3vpn h remove s ts =
    let rows = vpn_rows s h.junk_bin ts in
    unless_empty rows (l3vpn (action_of remove) rows s.base_attr)

-- UpdateDBeVPN
unfoldable pub update_db_evpn : Bool → Store → List EvpnTuple → Result (List Event)
update_db_evpn remove s ts = do
  rows ← evpn_rows s ts
  ok (unless_empty rows (evpn (action_of remove) rows s.base_attr))

-- UpdateDBWdrawnPrefixes
unfoldable pub update_db_withdrawn : Host → Store → List PrefixTuple → List Event
update_db_withdrawn h s ts =
    let rows = withdrawn_rows s h.junk_bin ts in unless_empty rows (unicast_prefix del rows none)

-- UpdateDbBgpLs; ls_attrs is empty behind it.
unfoldable pub update_db_bgp_ls : Bool → Store → LsData → LsAttrs → Result (List Event)
update_db_bgp_ls remove s d m = do
  nodes ← merge_nodes m d.nodes
  let links = map (merge_link m) d.links
  let prefixes = map (merge_prefix m) d.prefixes
  let action = action_of remove
  ok (
      unless_empty nodes (ls_nodes action nodes s.base_attr)
      ++ (unless_empty links (ls_links action links s.base_attr)
          ++ unless_empty prefixes (ls_prefixes action prefixes s.base_attr)))

-- UpdateDB, built for the Redis bus (true) or not: the members as it leaves them, and what it sends.
unfoldable pub update_db :
    Host
    → (BaseAttr → Bytes)
    → Bool
    → ParsedData (Others LinkStateData)
    → Store
    → Result (Store × List Event)
update_db h attr_hash redis p s =
    let full : Result (Store × List Event) = (do
      (s', sent) ← update_db_attrs attr_hash p.attrs s
      ls_add ← update_db_bgp_ls false s' p.other.link_state.ls p.other.link_state.ls_attrs
      ls_del ← update_db_bgp_ls true s' p.other.link_state.ls_withdrawn []
      evpn_add ← update_db_evpn false s' p.other.evpn
      evpn_del ← update_db_evpn true s' p.other.evpn_withdrawn
      ok (
        s',
        sent
            ++ (ls_add
                ++ (ls_del
                    ++ (update_db_adv_prefixes h s' p.advertised
                        ++ (update_db_l3vpn h false s' p.vpn
                            ++ (update_db_l3vpn h true s' p.vpn_withdrawn
                                ++ (evpn_add
                                    ++ (evpn_del ++ update_db_withdrawn h s' p.withdrawn))))))),
      )) in
    if redis
    then ok (s, update_db_adv_prefixes h s p.advertised ++ update_db_withdrawn h s p.withdrawn)
    else full

-- The call of UpdateDB by handleUpdate, if it comes to that.
unfoldable pub store_update :
    Host
    → (BaseAttr → Bytes)
    → Bool
    → Option (ParsedData (Others LinkStateData))
    → Store
    → Result (Store × List Event)
store_update h attr_hash redis none s = ok (s, [])
store_update h attr_hash redis (some p) s = update_db h attr_hash redis p s
