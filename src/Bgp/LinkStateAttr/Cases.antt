-- ===== src/Bgp/LinkStateAttr/Cases.antt =====
-- The cases of parseAttrLinkStateTLV of Server/src/bgp/linkstate/MPLinkStateAttr.cpp come to an end and
-- keep the arrays of the map whole.
use sonic_bmp.Common.{
  ℕ, suc, ◌-◌, refl, inl, inr, ◌==◌, ltb, leb, ok, codes, to_dec, Bool-cases, [], ◌++◌, Bytes, drop,
  arith, Ends, Post-bind, AnyFault, read_bytes, read_u8, read_uint, read_bytes-Ends, read_uint-Ends,
  read_u8-Ends, ◌>>=◌,
}
use sonic_bmp.Bgp.LinkState.Rows.{LsData, LsAttrs, zeros}
use sonic_bmp.Bgp.Types.{Host}
use sonic_bmp.Bgp.LinkStateAttr.{
  node_flags, router_id, area_id, mt_loop, mt_ids, name, sr_loop, sr_capabilities, uint32,
  te_def_metric, bandwidth, unreserved_loop, unreserved_bandwidth, adjacency_sid, peer_node_sid,
  prefix_sid,
}
use sonic_bmp.Bgp.LinkStateAttr.Arrays.{ls_at, ls_copy, c_text, strncpy}
use sonic_bmp.Bgp.LinkStateAttr.Values.{
  flags_node_nlri, flags_peer_adj_sid_isis, flags_peer_adj_sid_ospf, flags_sr_cap_isis,
  flags_prefix_sid_isis, flags_prefix_sid_ospf, read_flags, by_protocol, front, parse_sid_value,
}
use sonic_bmp.Bgp.LinkStateAttr.Halts.{
  by_protocol-Halts, read_flags-Halts, parse_sid_value-Halts, c_text-Halts, strncpy-Halts,
  mt_loop-Halts, sr_loop-Halts, protocol_flags-Halts, unreserved_loop-Halts, front-Halts,
}
use sonic_bmp.Bgp.LinkStateAttr.Whole.{AreArrays, ls_copy_onto-Ends, ls_copy-Ends}

pub name-Ends :
    (k len : ℕ) (d : Bytes) (m : LsAttrs) → AreArrays m → Ends AreArrays (name k len d m)
unfolding name
name-Ends k len d m v =
    Post-bind AnyFault _ _ (strncpy len d) _ (strncpy-Halts len d)
      λ bs e. ls_copy_onto-Ends k (zeros 255) bs m refl v

pub node_flags-Ends : (d : Bytes) (m : LsAttrs) → AreArrays m → Ends AreArrays (node_flags d m)
unfolding node_flags
node_flags-Ends d m v =
    Post-bind AnyFault _ _ (read_flags flags_node_nlri d) _ (read_flags-Halts flags_node_nlri d)
      λ t e. ls_copy_onto-Ends 1024 (zeros 255) t m refl v

pub router_id-Ends :
    (n k len : ℕ) (d : Bytes) (m : LsAttrs) → AreArrays m → Ends AreArrays (router_id n k len d m)
unfolding router_id
router_id-Ends n k len d m v = elim (Bool-cases (len == n)) [
  | inl e ↦ rw e (
      Post-bind AnyFault _ _ (read_bytes n d) _ (read_bytes-Ends n d)
        (λ p e. ls_copy-Ends k p.0 m v))
  | inr e ↦ rw e v
]

pub area_id-Ends :
    (len : ℕ) (d : Bytes) (m : LsAttrs) → AreArrays m → Ends AreArrays (area_id len d m)
unfolding area_id
area_id-Ends len d m v = elim (Bool-cases (leb len 8)) [
  | inl e ↦ rw e (
      Post-bind AnyFault _ _ (read_bytes len d >>= λ p. ls_copy 1027 p.0 m) _
        (Post-bind AnyFault _ _ (read_bytes len d) _ (read_bytes-Ends len d)
          λ p e. ls_copy-Ends 1027 p.0 m v)
        (λ m' v'. ls_copy-Ends 1027 _ m' v'))
  | inr e ↦ rw e (ls_copy-Ends 1027 _ m v)
]

pub mt_ids-Ends :
    (len : ℕ) (d : Bytes) (m : LsAttrs) → AreArrays m → Ends AreArrays (mt_ids len d m)
unfolding mt_ids
mt_ids-Ends len d m v =
    Post-bind AnyFault _ _ (mt_loop (suc len) 0 len d []) _
      (mt_loop-Halts (suc len) 0 len d [] (omega arith)) λ t e. ls_copy-Ends 263 _ m v

pub sr_capabilities-Ends :
    (l : LsData) (len : ℕ) (d : Bytes) (m : LsAttrs)
    → AreArrays m
    → Ends AreArrays (sr_capabilities l len d m)
unfolding sr_capabilities
sr_capabilities-Ends l len d m v =
    Post-bind AnyFault _ _ (front l.nodes) _ (front-Halts l.nodes) λ row e.
      Post-bind AnyFault _ _
        (by_protocol row.protocol (read_flags flags_sr_cap_isis d)
          (read_u8 d >>= λ p. ok (to_dec p.0)))
        _
        (by_protocol-Halts row.protocol _ _ (read_flags-Halts flags_sr_cap_isis d)
          (Post-bind AnyFault _ _ (read_u8 d) _ (read_u8-Ends d) (λ p e. tt)))
        λ flags e.
          Post-bind AnyFault _ _ (sr_loop (suc len) 2 len (drop 2 d) (flags ++ codes " ")) _
            (sr_loop-Halts (suc len) 2 len (drop 2 d) (flags ++ codes " ") (omega arith))
            λ t e. ls_copy-Ends 1034 _ m v

pub adjacency_sid-Ends :
    (h : Host) (l : LsData) (len : ℕ) (d : Bytes) (m : LsAttrs)
    → AreArrays m
    → Ends AreArrays (adjacency_sid h l len d m)
unfolding adjacency_sid
adjacency_sid-Ends h l len d m v =
    Post-bind AnyFault _ _ (c_text (ls_at 1099 m)) _ (c_text-Halts (ls_at 1099 m)) λ old e.
      Post-bind AnyFault _ _ (front l.links) _ (front-Halts l.links) λ row e.
        Post-bind AnyFault _ _
          (by_protocol row.protocol (read_flags flags_peer_adj_sid_isis d)
            (read_flags flags_peer_adj_sid_ospf d))
          _ (protocol_flags-Halts row.protocol flags_peer_adj_sid_isis flags_peer_adj_sid_ospf d)
          λ flags e. Post-bind AnyFault _ _ (read_u8 (drop 1 d)) _ (read_u8-Ends (drop 1 d)) λ p e.
            Post-bind AnyFault _ _ (parse_sid_value h (drop 4 d) (len - 4)) _
              (parse_sid_value-Halts h (drop 4 d) (len - 4)) λ sid e. ls_copy-Ends 1099 _ m v

pub peer_node_sid-Ends :
    (h : Host) (len : ℕ) (d : Bytes) (m : LsAttrs)
    → AreArrays m
    → Ends AreArrays (peer_node_sid h len d m)
unfolding peer_node_sid
peer_node_sid-Ends h len d m v = Post-bind AnyFault _ _ (read_u8 d) _ (read_u8-Ends d) λ p e.
    Post-bind AnyFault _ _ (read_u8 p.1) _ (read_u8-Ends p.1) λ q e.
      Post-bind AnyFault _ _ (parse_sid_value h (drop 4 d) (len - 4)) _
        (parse_sid_value-Halts h (drop 4 d) (len - 4)) λ sid e. ls_copy-Ends 1101 _ m v

pub prefix_sid-Ends :
    (h : Host) (l : LsData) (len : ℕ) (d : Bytes) (m : LsAttrs)
    → AreArrays m
    → Ends AreArrays (prefix_sid h l len d m)
unfolding prefix_sid
prefix_sid-Ends h l len d m v =
    Post-bind AnyFault _ _ (c_text (ls_at 1158 m)) _ (c_text-Halts (ls_at 1158 m)) λ old e.
      Post-bind AnyFault _ _ (front l.prefixes) _ (front-Halts l.prefixes) λ row e.
        Post-bind AnyFault _ _
          (by_protocol row.protocol (read_flags flags_prefix_sid_isis d)
            (read_flags flags_prefix_sid_ospf d))
          _ (protocol_flags-Halts row.protocol flags_prefix_sid_isis flags_prefix_sid_ospf d)
          λ flags e. Post-bind AnyFault _ _ (read_u8 (drop 1 d)) _ (read_u8-Ends (drop 1 d)) λ p e.
            Post-bind AnyFault _ _ (parse_sid_value h (drop 4 d) (len - 4)) _
              (parse_sid_value-Halts h (drop 4 d) (len - 4)) λ sid e. ls_copy-Ends 1158 _ m v

pub uint32-Ends :
    (k len : ℕ) (d : Bytes) (m : LsAttrs) → AreArrays m → Ends AreArrays (uint32 k len d m)
unfolding uint32
uint32-Ends k len d m v =
    Post-bind AnyFault _ _ (read_bytes len d) _ (read_bytes-Ends len d) λ p e. ls_copy-Ends k _ m v

pub te_def_metric-Ends :
    (len : ℕ) (d : Bytes) (m : LsAttrs) → AreArrays m → Ends AreArrays (te_def_metric len d m)
unfolding te_def_metric
te_def_metric-Ends len d m v = elim (Bool-cases (ltb 4 len)) [
  | inl e ↦ rw e v
  | inr e ↦ rw e (
      Post-bind AnyFault _ _ (read_bytes len d) _ (read_bytes-Ends len d)
        (λ p e. ls_copy-Ends 1092 _ m v))
]

pub bandwidth-Ends :
    (wide : ℕ → ℕ) (k len : ℕ) (d : Bytes) (m : LsAttrs)
    → AreArrays m
    → Ends AreArrays (bandwidth wide k len d m)
unfolding bandwidth
bandwidth-Ends wide k len d m v = elim (Bool-cases (len == 4)) [
  | inl e ↦
      rw e (
        Post-bind AnyFault _ _ (read_uint 4 d) _ (read_uint-Ends 4 d) (λ p e. ls_copy-Ends k _ m v))
  | inr e ↦ rw e v
]

pub unreserved_bandwidth-Ends :
    (wide : ℕ → ℕ) (len : ℕ) (d : Bytes) (m : LsAttrs)
    → AreArrays m
    → Ends AreArrays (unreserved_bandwidth wide len d m)
unfolding unreserved_bandwidth
unreserved_bandwidth-Ends wide len d m v = elim (Bool-cases (len == 32)) [
  | inl e ↦ rw e (
      Post-bind AnyFault _ _ (unreserved_loop wide 8 d []) _ (unreserved_loop-Halts wide 8 d [])
        (λ t e. ls_copy-Ends 1091 _ m v))
  | inr e ↦ rw e v
]
