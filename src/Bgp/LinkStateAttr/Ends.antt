-- ===== src/Bgp/LinkStateAttr/Ends.antt =====
-- The parser of the BGP-LS attribute in Server/src/bgp/linkstate/MPLinkStateAttr.cpp ends on every input and
-- keeps the arrays of its map whole.
use sonic_bmp.Common.{
  ℕ, zero, suc, ◌-◌, ◌<◌, inl, inr, ltb, Bool-cases, Bytes, drop, arith, Ends, Post-bind, AnyFault,
  read_uint, read_uint-Ends, ltb→lt,
}
use sonic_bmp.Bgp.Evpn.{Others}
use sonic_bmp.Bgp.LinkState.Rows.{LsData, LsAttrs, LinkStateData}
use sonic_bmp.Bgp.Types.{Host, ParsedData}
use sonic_bmp.Bgp.LinkStateAttr.{
  parse_value, parse_attr_link_state_tlv, ls_attr_loop, parse_attr_link_state,
}
use sonic_bmp.Bgp.LinkStateAttr.Halts.{if-Ends}
use sonic_bmp.Bgp.LinkStateAttr.Whole.{AreArrays, ls_copy-Ends}
use sonic_bmp.Bgp.LinkStateAttr.Cases.{
  name-Ends, node_flags-Ends, router_id-Ends, area_id-Ends, mt_ids-Ends, sr_capabilities-Ends,
  adjacency_sid-Ends, peer_node_sid-Ends, prefix_sid-Ends, uint32-Ends, te_def_metric-Ends,
  bandwidth-Ends, unreserved_bandwidth-Ends,
}

parse_value-Ends :
    (h : Host) (wide : ℕ → ℕ) (l : LsData) (type len : ℕ) (d : Bytes) (m : LsAttrs)
    → AreArrays m
    → Ends AreArrays (parse_value h wide l type len d m)
unfolding parse_value
parse_value-Ends h wide l type len d m v =
    search
      (
        if-Ends, node_flags-Ends, router_id-Ends, area_id-Ends, mt_ids-Ends, name-Ends,
        sr_capabilities-Ends, uint32-Ends, bandwidth-Ends, adjacency_sid-Ends, te_def_metric-Ends,
        unreserved_bandwidth-Ends, peer_node_sid-Ends, prefix_sid-Ends, ls_copy-Ends,
      )
      depth 30

parse_attr_link_state_tlv-Ends :
    (h : Host) (wide : ℕ → ℕ) (l : LsData) (attr_len : ℕ) (d : Bytes) (m : LsAttrs)
    → AreArrays m
    → 0 < attr_len
    → Ends (λ r. (0 < r.0) × AreArrays r.1) (parse_attr_link_state_tlv h wide l attr_len d m)
unfolding parse_attr_link_state_tlv
parse_attr_link_state_tlv-Ends h wide l attr_len d m v pos = elim (Bool-cases (ltb attr_len 4)) [
  | inl short ↦ rw short (pos, v)
  | inr room ↦ rw room (
      Post-bind AnyFault _ _ (read_uint 2 d) _ (read_uint-Ends 2 d) λ p e.
        Post-bind AnyFault _ _ (read_uint 2 p.1) _ (read_uint-Ends 2 p.1) λ q e.
          Post-bind AnyFault _ _ (parse_value h wide l p.0 q.0 q.1 m) _
            (parse_value-Ends h wide l p.0 q.0 q.1 m v) (λ m' v'. (omega arith, v')))
]

ls_attr_loop-Ends :
    (h : Host) (wide : ℕ → ℕ) (l : LsData) (f attr_len : ℕ) (d : Bytes) (m : LsAttrs)
    → AreArrays m
    → attr_len < f
    → Ends AreArrays (ls_attr_loop h wide l f attr_len d m)
unfolding ls_attr_loop
ls_attr_loop-Ends h wide l zero attr_len d m v fuel = absurd (omega arith)
ls_attr_loop-Ends h wide l (suc f) attr_len d m v fuel = elim (Bool-cases (ltb 0 attr_len)) [
  | inl more ↦
      let pos = ltb→lt 0 attr_len more in
      rw more (
        Post-bind AnyFault _ _ (parse_attr_link_state_tlv h wide l attr_len d m) _
          (parse_attr_link_state_tlv-Ends h wide l attr_len d m v pos)
          λ r e.
            ls_attr_loop-Ends h wide l f (attr_len - r.0) (drop r.0 d) r.1 e.1
              (omega (arith, fuel, pos, e.0)))
  | inr done ↦ rw done v
]

-- parseAttrLinkState ends on every attribute and every announced length, and each array of the BGP-LS
-- attributes has its 255 bytes behind it if each had them before.
pub parse_attr_link_state-Ends :
    (h : Host) (wide : ℕ → ℕ) (attr_len : ℕ) (d : Bytes) (p : ParsedData (Others LinkStateData))
    → AreArrays p.other.link_state.ls_attrs
    → Ends (λ q. AreArrays q.other.link_state.ls_attrs) (parse_attr_link_state h wide attr_len d p)
unfolding parse_attr_link_state
parse_attr_link_state-Ends h wide attr_len d p v =
    let link_state = p.other.link_state in
    Post-bind AnyFault _ _
      (ls_attr_loop h wide link_state.ls (suc attr_len) attr_len d link_state.ls_attrs) _
      (ls_attr_loop-Ends h wide link_state.ls (suc attr_len) attr_len d link_state.ls_attrs v
        (omega arith))
      (λ m v'. v')
