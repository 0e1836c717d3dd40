-- ===== src/Bgp/LinkStateAttr.antt =====
-- MPLinkStateAttr of Server/src/bgp/linkstate/MPLinkStateAttr.cpp: the BGP-LS attribute.
pub mod Arrays
pub mod Values
mod Halts
pub mod Whole
mod Cases
pub mod Ends
pub mod Protocol
pub mod RoundTrip
use sonic_bmp.Common.{
  ℕ, zero, suc, ◌+◌, ◌-◌, ◌/◌, ◌%◌, [], ◌∷◌, ◌++◌, ◌==◌, ◌||◌, ltb, leb, if◌then◌else◌, Text, codes,
  to_dec, Bytes, length, take, drop, replicate, Result, ok, stuck, ◌>>=◌, read_bytes, read_u8,
  read_uint, swap_bytes, network, to_int, int_text,
}
use sonic_bmp.Bgp.Evpn.{Others}
use sonic_bmp.Bgp.LinkState.Rows.{LsData, LsAttrs, LinkStateData}
use sonic_bmp.Bgp.Types.{Host, ParsedData}
use Arrays.{ls_at, ls_put, ls_copy, ls_fill, ls_append, c_text, strncpy}
use Values.{
  ieee_float_to_kbps, parse_flags_to_string, read_flags, by_protocol, front, parse_sid_value,
  flags_node_nlri, flags_peer_adj_sid_isis, flags_peer_adj_sid_ospf, flags_sr_cap_isis,
  flags_prefix_sid_isis, flags_prefix_sid_ospf,
}

-- ATTR_NODE_FLAG
unfoldable pub node_flags : Bytes → LsAttrs → Result LsAttrs
node_flags d m = do t ← read_flags flags_node_nlri d; ls_fill 1024 t m

-- The router ids: `n` bytes
unfoldable pub router_id : ℕ → ℕ → ℕ → Bytes → LsAttrs → Result LsAttrs
router_id n k len d m = if len == n then (do (bs, rest) ← read_bytes n d; ls_copy k bs m) else ok m

-- ATTR_NODE_ISIS_AREA_ID: up to eight bytes, and the length in the ninth.
unfoldable pub area_id : ℕ → Bytes → LsAttrs → Result LsAttrs
area_id len d m = do
  m' ← if leb len 8 then (do (bs, rest) ← read_bytes len d; ls_copy 1027 bs m) else ok m
  ls_copy 1027 (take 8 (ls_at 1027 m') ++ (len % 256 ∷ [])) m'

-- The loop over Multi-Topology ids
unfoldable pub mt_loop : ℕ → ℕ → ℕ → Bytes → Text → Result Text
mt_loop zero i len d t = stuck
mt_loop (suc f) i len d t =
    let round : Result Text = (do
      (v, d') ← read_uint 2 d
      mt_loop f (i + 2) len d' (t ++ ((if i == 0 then [] else codes ", ") ++ to_dec v))) in
    if ltb i len then round else ok t

-- ATTR_NODE_MT_ID
unfoldable pub mt_ids : ℕ → Bytes → LsAttrs → Result LsAttrs
mt_ids len d m = do t ← mt_loop (suc len) 0 len d []; ls_copy 263 (t ++ (0 ∷ [])) m

-- ATTR_NODE_NAME, ATTR_LINK_NAME
unfoldable pub name : ℕ → ℕ → Bytes → LsAttrs → Result LsAttrs
name k len d m = do bs ← strncpy len d; ls_fill k bs m

-- The loop over ranges of ATTR_NODE_SR_CAPABILITIES, which ends at a sub-TLV that it does not know. The
-- pointer is not moved on over the label.
unfoldable pub sr_loop : ℕ → ℕ → ℕ → Bytes → Text → Result Text
sr_loop zero l len d t = stuck
sr_loop (suc f) l len d t =
    let round : Result Text = (do
      (range, d1) ← read_uint 3 d
      (type, d2) ← read_uint 2 d1
      (size, d3) ← read_uint 2 d2
      let t' = t ++ ((if leb 12 l then codes ", " else []) ++ to_dec range)
      let label : Result Text = (do
        (v, rest) ← read_uint size d3
        sr_loop f (l + (if size == 4 then 11 else 10)) len d3 (t' ++ (codes " " ++ to_dec v)))
      if type == 1161 then (if size == 3 || size == 4 then label else ok t') else ok t') in
    if ltb l len then round else ok t

-- ATTR_NODE_SR_CAPABILITIES
unfoldable pub sr_capabilities : LsData → ℕ → Bytes → LsAttrs → Result LsAttrs
sr_capabilities l len d m = do
  row ← front l.nodes
  flags ←
      by_protocol row.protocol (read_flags flags_sr_cap_isis d)
        (do (b, rest) ← read_u8 d; ok (to_dec b))
  t ← sr_loop (suc len) 2 len (drop 2 d) (flags ++ codes " ")
  ls_copy 1034 t m

-- An uint32_t of up to four bytes, swapped to the order of the host and copied whole.
unfoldable pub uint32 : ℕ → ℕ → Bytes → LsAttrs → Result LsAttrs
uint32 k len d m = do
  (bs, rest) ← read_bytes len d
  ls_copy k (swap_bytes bs ++ replicate (4 - len) 0) m

-- ATTR_LINK_TE_DEF_METRIC: as many bytes as there are
unfoldable pub te_def_metric : ℕ → Bytes → LsAttrs → Result LsAttrs
te_def_metric len d m =
    if ltb 4 len then ok m else (do (bs, rest) ← read_bytes len d; ls_copy 1092 (swap_bytes bs) m)

-- ATTR_LINK_MAX_LINK_BW, ATTR_LINK_MAX_RESV_BW
unfoldable pub bandwidth : (ℕ → ℕ) → ℕ → ℕ → Bytes → LsAttrs → Result LsAttrs
bandwidth wide k len d m =
    if len == 4
    then (do
      (v, rest) ← read_uint 4 d
      ls_copy k (swap_bytes (network 4 (ieee_float_to_kbps wide v))) m)
    else ok m

-- The loop over the eight priorities of ATTR_LINK_UNRESV_BW
unfoldable pub unreserved_loop : (ℕ → ℕ) → ℕ → Bytes → Text → Result Text
unreserved_loop wide zero d t = ok t
unreserved_loop wide (suc n) d t = do
  (v, d') ← read_uint 4 d
  unreserved_loop wide n d'
      (t ++ ((if n == 7 then [] else codes ", ") ++ int_text (to_int (ieee_float_to_kbps wide v))))

unfoldable pub unreserved_bandwidth : (ℕ → ℕ) → ℕ → Bytes → LsAttrs → Result LsAttrs
unreserved_bandwidth wide len d m =
    if len == 32 then (do t ← unreserved_loop wide 8 d []; ls_copy 1091 t m) else ok m

-- ", " behind a text that is there
abbrev pub separator : Text → Text
separator old = if ltb 0 (length old) then codes ", " else []

-- ATTR_LINK_ADJACENCY_SID
unfoldable pub adjacency_sid : Host → LsData → ℕ → Bytes → LsAttrs → Result LsAttrs
adjacency_sid h l len d m = do
  old ← c_text (ls_at 1099 m)
  row ← front l.links
  flags ←
      by_protocol row.protocol (read_flags flags_peer_adj_sid_isis d)
        (read_flags flags_peer_adj_sid_ospf d)
  (weight, rest) ← read_u8 (drop 1 d)
  sid ← parse_sid_value h (drop 4 d) (len - 4)
  ls_append 1099 old
      (separator old ++ (flags ++ (codes " " ++ (to_dec weight ++ (codes " " ++ sid))))) m

-- ATTR_LINK_PEER_EPE_NODE_SID
unfoldable pub peer_node_sid : Host → ℕ → Bytes → LsAttrs → Result LsAttrs
peer_node_sid h len d m = do
  (flags, d1) ← read_u8 d
  (weight, rest) ← read_u8 d1
  sid ← parse_sid_value h (drop 4 d) (len - 4)
  ls_copy 1101
      ((if flags / 128 % 2 == 1 then codes "V" else [])
        ++ ((if flags / 64 % 2 == 1 then codes "L" else [])
            ++ (codes " " ++ (to_dec weight ++ (codes " " ++ sid)))))
      m

-- ATTR_PREFIX_SID
unfoldable pub prefix_sid : Host → LsData → ℕ → Bytes → LsAttrs → Result LsAttrs
prefix_sid h l len d m = do
  old ← c_text (ls_at 1158 m)
  row ← front l.prefixes
  flags ←
      by_protocol row.protocol (read_flags flags_prefix_sid_isis d)
        (read_flags flags_prefix_sid_ospf d)
  (alg, rest) ← read_u8 (drop 1 d)
  sid ← parse_sid_value h (drop 4 d) (len - 4)
  ls_append 1158 old
      (separator old
        ++ (flags
            ++ (codes " "
                ++ ((if alg == 0
                      then codes "SPF "
                      else if alg == 1
                      then codes "strict-SPF "
                      else [])
                    ++ sid))))
      m

-- The switch of parseAttrLinkStateTLV, but for the cases that only log.
unfoldable pub parse_value : Host → (ℕ → ℕ) → LsData → ℕ → ℕ → Bytes → LsAttrs → Result LsAttrs
parse_value h wide l type len d m =
    if type == 1024
    then node_flags d m
    else if type == 1028
    then router_id 4 1028 len d m
    else if type == 1029
    then router_id 16 1029 len d m
    else if type == 1027
    then area_id len d m
    else if type == 263
    then mt_ids len d m
    else if type == 1026
    then name 1026 len d m
    else if type == 1034
    then sr_capabilities l len d m
    else if type == 1088
    then (if len == 4 then uint32 1088 len d m else ok m)
    else if type == 1095
    then (if leb len 4 then uint32 1095 len d m else ok m)
    else if type == 1030
    then router_id 4 1030 len d m
    else if type == 1031
    then router_id 16 1031 len d m
    else if type == 1089
    then bandwidth wide 1089 len d m
    else if type == 1090
    then bandwidth wide 1090 len d m
    else if type == 1098
    then name 1098 len d m
    else if type == 1099
    then adjacency_sid h l len d m
    else if type == 1092
    then te_def_metric len d m
    else if type == 1091
    then unreserved_bandwidth wide len d m
    else if type == 1101
    then peer_node_sid h len d m
    else if type == 1155
    then (if leb len 4 then uint32 1155 len d m else ls_copy 1155 (replicate 4 0) m)
    else if type == 1153
    then (if len == 4 then uint32 1153 len d m else ok m)
    else if type == 1158
    then prefix_sid h l len d m
    else ok m

-- parseAttrLinkStateTLV
unfoldable pub parse_attr_link_state_tlv :
    Host → (ℕ → ℕ) → LsData → ℕ → Bytes → LsAttrs → Result (ℕ × LsAttrs)
parse_attr_link_state_tlv h wide l attr_len d m = if ltb attr_len 4 then ok (attr_len, m) else (do
  (type, d1) ← read_uint 2 d
  (len, d2) ← read_uint 2 d1
  m' ← parse_value h wide l type len d2 m
  ok (len + 4, m'))

-- The loop of parseAttrLinkState
unfoldable pub ls_attr_loop : Host → (ℕ → ℕ) → LsData → ℕ → ℕ → Bytes → LsAttrs → Result LsAttrs
ls_attr_loop h wide l zero attr_len d m = stuck
ls_attr_loop h wide l (suc f) attr_len d m =
    let round : Result LsAttrs = (do
      (n, m') ← parse_attr_link_state_tlv h wide l attr_len d m
      ls_attr_loop h wide l f (attr_len - n) (drop n d) m') in
    if ltb 0 attr_len then round else ok m

-- parseAttrLinkState
unfoldable pub parse_attr_link_state :
    Host
    → (ℕ → ℕ)
    → ℕ
    → Bytes
    → ParsedData (Others LinkStateData)
    → Result (ParsedData (Others LinkStateData))
parse_attr_link_state h wide attr_len d p = do
  m ←
      ls_attr_loop h wide p.other.link_state.ls (suc attr_len) attr_len d
        p.other.link_state.ls_attrs
  ok (record p {
    other = record p.other { link_state = record p.other.link_state { ls_attrs = m } };
  })
