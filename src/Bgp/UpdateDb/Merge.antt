-- ===== src/Bgp/UpdateDb/Merge.antt =====
-- What UpdateDbBgpLs of Server/src/bgp/parseBGP.cpp takes over from the BGP-LS attributes into the rows.
use sonic_bmp.Common.{
  ℕ, Bool, true, false, not, List, [], ◌∷◌, Option, none, some, ◌==◌, if◌then◌else◌, Bytes, take,
  Result, ok, fault, overread, ◌>>=◌, little_endian,
}
use sonic_bmp.Bgp.LinkState.Descriptors.{overlay}
use sonic_bmp.Bgp.LinkState.Rows.{LsNode, LsLink, LsPrefix, LsAttrs}

-- `ls_attrs.find(type)`
unfoldable pub find_attr : ℕ → LsAttrs → Option Bytes
find_attr k [] = none
find_attr k ((j, v) ∷ m) = let rest = find_attr k m in if j == k then some v else rest

-- `if (ls_attrs.find(type) != ls_attrs.end())`
unfoldable pub when_found : {A : Type 0} → ℕ → LsAttrs → (Bytes → A → A) → A → A
unfolding find_attr
when_found k m f a = elim (find_attr k m) [ none ↦ a | some v ↦ f v a ]

-- The same, with what is tried if it does not apply.
abbrev pub found_or : {A : Type 0} → Bool → ℕ → LsAttrs → (Bytes → A → A) → (A → A) → A → A
found_or test k m f g a = elim (find_attr k m) [ none ↦ g a | some v ↦ if test then f v a else g a ]

-- The bytes that `strncpy(dst, src, strlen(src) + 1)` writes.
unfoldable pub c_string : Bytes → Result Bytes
c_string [] = fault overread
c_string (b ∷ bs) =
    let rest : Result Bytes = (do t ← c_string bs; ok (b ∷ t)) in
    if b == 0 then ok (0 ∷ []) else rest

-- The Multi-Topology ids of a node.
abbrev pub merge_mt_id : LsAttrs → LsNode → Result LsNode
merge_mt_id m n = elim (find_attr 263 m) [
  | none ↦ ok n
  | some v ↦ do t ← c_string v; ok (record n { mt_id = overlay t n.mt_id })
]

-- The loop body for nodes
unfoldable pub merge_node : LsAttrs → LsNode → Result LsNode
merge_node m n0 = do
  let n1 = when_found 1026 m (λ v n. record n { name = take 255 v }) n0
  let n2 = when_found 1028 m (λ v n. record n { router_id = overlay (take 4 v) n.router_id }) n1
  let n3 = when_found 1029 m (λ v n. record n { router_id = take 16 v; is_ipv4 = false }) n2
  n4 ← merge_mt_id m n3
  let n5 = when_found 1024 m (λ v n. record n { flags = take 32 v }) n4
  let n6 = when_found 1027 m (λ v n. record n { isis_area_id = take 9 v }) n5
  ok (when_found 1034 m (λ v n. record n { sr_capabilities_tlv = take 255 v }) n6)

unfoldable pub merge_nodes : LsAttrs → List LsNode → Result (List LsNode)
merge_nodes m [] = ok []
merge_nodes m (n ∷ ns) = do t ← merge_node m n; ts ← merge_nodes m ns; ok (t ∷ ts)

-- A uint32_t is copied in the host's order.
abbrev u32 : Bytes → ℕ
u32 v = little_endian (take 4 v)

-- The router ids of a link. The remote one goes by isIPv4 as the local one leaves it.
unfoldable pub merge_router_ids : LsAttrs → LsLink → LsLink
unfolding when_found
merge_router_ids m t0 =
    let local =
      found_or (not t0.is_ipv4) 1029 m (λ v t. record t { router_id = take 16 v })
        (when_found 1028 m
          (λ v t. record t { router_id = overlay (take 4 v) t.router_id; is_ipv4 = true }))
        t0 in
    found_or (not local.is_ipv4) 1031 m (λ v t. record t { remote_router_id = take 16 v })
      (when_found 1030 m
        (λ v t. record t { remote_router_id = overlay (take 4 v) t.remote_router_id }))
      local

-- The loop body for links
unfoldable pub merge_link : LsAttrs → LsLink → LsLink
unfolding merge_router_ids
merge_link m t0 =
    let t1 = merge_router_ids m t0 in
    let t2 = when_found 1027 m (λ v t. record t { isis_area_id = take 9 v }) t1 in
    let t3 = when_found 1088 m (λ v t. record t { admin_group = u32 v }) t2 in
    let t4 = when_found 1089 m (λ v t. record t { max_link_bw = u32 v }) t3 in
    let t5 = when_found 1090 m (λ v t. record t { max_resv_bw = u32 v }) t4 in
    let t6 = when_found 1091 m (λ v t. record t { unreserved_bw = take 100 v }) t5 in
    let t7 = when_found 1092 m (λ v t. record t { te_def_metric = u32 v }) t6 in
    let t8 = when_found 1093 m (λ v t. record t { protection_type = take 60 v }) t7 in
    let t9 = when_found 1094 m (λ v t. record t { mpls_proto_mask = take 32 v }) t8 in
    let t10 = when_found 1095 m (λ v t. record t { igp_metric = u32 v }) t9 in
    let t11 = when_found 1096 m (λ v t. record t { srlg = take 128 v }) t10 in
    let t12 = when_found 1098 m (λ v t. record t { name = take 255 v }) t11 in
    let t13 = when_found 1101 m (λ v t. record t { peer_node_sid = take 128 v }) t12 in
    when_found 1099 m (λ v t. record t { peer_adj_sid = take 128 v }) t13

-- The loop body for prefixes
unfoldable pub merge_prefix : LsAttrs → LsPrefix → LsPrefix
unfolding when_found
merge_prefix m t0 =
    let t1 =
      found_or (not t0.is_ipv4) 1029 m (λ v t. record t { router_id = take 16 v })
        (when_found 1028 m
          (λ v t. record t { router_id = overlay (take 4 v) t.router_id; is_ipv4 = true }))
        t0 in
    let t2 = when_found 1027 m (λ v t. record t { isis_area_id = take 9 v }) t1 in
    let t3 = when_found 1152 m (λ v t. record t { igp_flags = take 32 v }) t2 in
    let t4 = when_found 1153 m (λ v t. record t { route_tag = u32 v }) t3 in
    let t5 = when_found 1154 m (λ v t. record t { ext_route_tag = little_endian (take 8 v) }) t4 in
    let t6 = when_found 1155 m (λ v t. record t { metric = u32 v }) t5 in
    let t7 = when_found 1156 m (λ v t. record t { ospf_fwd_addr = take 16 v }) t6 in
    when_found 1158 m (λ v t. record t { sid_tlv = take 128 v }) t7
