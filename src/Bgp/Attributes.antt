-- ===== src/Bgp/Attributes.antt =====
-- UpdateMsg::parseAttrData, parseAttr_Aggegator and parseAttributes of Server/src/bgp/UpdateMsg.cpp: the
-- path attributes of an update. A loop `for (i = 0; i < attr_len; i += n)` makes
-- (attr_len + n - 1) / n rounds, and is a recursion on the rounds left.
pub mod Format
pub mod Items
pub mod RoundTrip
use sonic_bmp.Common.{
  ℕ, zero, suc, ◌+◌, ◌-◌, ◌/◌, Bool, true, false, not, ◌&&◌, List, [], ◌∷◌, ◌++◌, ◌==◌, ltb, leb,
  if◌then◌else◌, Text, codes, to_dec, Bytes, drop, bit_and, Result, ok, stuck, ◌>>=◌, read_bytes,
  read_u8, read_uint,
}
use sonic_bmp.Bgp.AsPath.{parse_attr_as_path}
use sonic_bmp.Bgp.Attrs.{Attrs, set_attr}
use sonic_bmp.Bgp.AttrType
use sonic_bmp.Bgp.MpReach.{parse_reach_nlri_attr}
use sonic_bmp.Bgp.MpUnreach.{parse_unreach_nlri_attr}
use sonic_bmp.Bgp.Types.{Host, ParsedData, Session, Callees}

-- ATTR_TYPE_ORIGIN
unfoldable pub origin_text : ℕ → Text
origin_text v =
    if v == 0
    then codes "igp"
    else if v == 1
    then codes "egp"
    else if v == 2
    then codes "incomplete"
    else []

-- An IPv4 address of four bytes, printed: next hop, originator and clusters.
unfoldable pub read_ipv4 : Host → Bytes → Result (Text × Bytes)
read_ipv4 h d = do (raw, rest) ← read_bytes 4 d; ok (h.inet_ntop true raw, rest)

-- ATTR_TYPE_CLUSTER_LIST: each address with a space behind it.
unfoldable pub cluster_loop : Host → ℕ → Bytes → Text → Result Text
unfolding read_ipv4
cluster_loop h zero d out = ok out
cluster_loop h (suc n) d out = do
  (text, rest) ← read_ipv4 h d
  cluster_loop h n rest (out ++ (text ++ codes " "))

-- The numbers of one community, with colons between them: each takes the bytes that the list says.
unfoldable pub read_numbers : ℕ → List ℕ → Bytes → Result (Text × Bytes)
read_numbers size [] d = do (v, rest) ← read_uint size d; ok (to_dec v, rest)
read_numbers size (next ∷ sizes) d = do
  (v, rest) ← read_uint size d
  (text, rest') ← read_numbers next sizes rest
  ok (to_dec v ++ (codes ":" ++ text), rest')

-- ATTR_TYPE_COMMUNITIES (two numbers of two bytes) and ATTR_TYPE_LARGE_COMMUNITY (three of four):
-- spaces between the entries. `first` is `i == 0`.
unfoldable pub community_loop : ℕ → List ℕ → ℕ → Bool → Bytes → Text → Result Text
unfolding read_numbers
community_loop size sizes zero first d out = ok out
community_loop size sizes (suc n) first d out = do
  (text, rest) ← read_numbers size sizes d
  community_loop size sizes n false rest (out ++ ((if first then [] else codes " ") ++ text))

-- parseAttr_Aggegator
unfoldable pub parse_attr_aggregator : Host → ℕ → Bytes → Attrs → Result Attrs
unfolding read_ipv4
parse_attr_aggregator h attr_len d attrs =
    if attr_len == 8
    then (do
      (asn, rest) ← read_uint 4 d
      (ip, rest') ← read_ipv4 h rest
      ok (set_attr AttrType.aggregator (to_dec asn ++ (codes " " ++ ip)) attrs))
    else if attr_len == 6
    then (do
      (asn, rest) ← read_uint 2 d
      (ip, rest') ← read_ipv4 h rest
      ok (set_attr AttrType.aggregator (to_dec asn ++ (codes " " ++ ip)) attrs))
    else ok attrs

-- ATTR_FLAG_EXTENDED
abbrev pub is_extended : ℕ → Bool
is_extended flags = not (bit_and flags 0x10 == 0)

-- The attribute's length field: the length, read_size behind it, and data.
unfoldable pub read_attr_len : ℕ → ℕ → Bytes → Result (ℕ × ℕ × Bytes)
read_attr_len flags read d =
    if is_extended flags
    then (do (n, rest) ← read_uint 2 d; ok (n, read + 2, rest))
    else (do (n, rest) ← read_u8 d; ok (n, read + 1, rest))

module _ {X : Type 0} where
  -- `parsed_data.attrs[type] = text`
  unfoldable pub put : ℕ → Text → Session X → Session X
  put k text s = record s { parsed = record s.parsed { attrs = set_attr k text s.parsed.attrs } }

  -- The callees that write to parsed_data alone.
  abbrev into_parsed : Session X → Result (ParsedData X) → Result (Session X)
  into_parsed s m = do p ← m; ok (record s { parsed = p })

  -- The attributes whose value is one text.
  unfoldable pub parse_simple_attr : Host → ℕ → ℕ → Bytes → Session X → Result (Session X)
  unfolding origin_text read_ipv4 cluster_loop community_loop parse_attr_aggregator put
  parse_simple_attr h type attr_len d s =
      if type == AttrType.origin
      then (do (v, rest) ← read_u8 d; ok (put type (origin_text v) s))
      else if type == AttrType.next_hop
      then (do (text, rest) ← read_ipv4 h d; ok (put type text s))
      else if type == AttrType.med
      then (do (v, rest) ← read_uint 4 d; ok (put type (to_dec v) s))
      else if type == AttrType.local_pref
      then (do (v, rest) ← read_uint 4 d; ok (put type (to_dec v) s))
      else if type == AttrType.atomic_aggregate
      then ok (put type (codes "1") s)
      else if type == AttrType.originator_id
      then (do (text, rest) ← read_ipv4 h d; ok (put type text s))
      else if type == AttrType.cluster_list
      then (do text ← cluster_loop h ((attr_len + 3) / 4) d []; ok (put type text s))
      else if type == AttrType.communities
      then (do
        text ← community_loop 2 (2 ∷ []) ((attr_len + 3) / 4) true d []
        ok (put type text s))
      else if type == AttrType.large_community && leb 12 attr_len
      then (do
        text ← community_loop 4 (4 ∷ 4 ∷ []) ((attr_len + 11) / 12) true d []
        ok (put type text s))
      else ok s

  -- parseAttrData: the cases that call another parser, and those above. AS4_PATH, AS4_AGGREGATOR,
  -- AS_PATHLIMIT and the types that the code does not know change nothing.
  unfoldable pub parse_attr_data : Host → Callees X → ℕ → ℕ → Bytes → Session X → Result (Session X)
  unfolding parse_simple_attr
  parse_attr_data h c type attr_len d s =
      if type == AttrType.as_path
      then (do
        (info, attrs) ← parse_attr_as_path s.info attr_len d s.parsed.attrs
        ok (record { info = info; parsed = record s.parsed { attrs = attrs } }))
      else if type == AttrType.aggregator
      then (do
        attrs ← parse_attr_aggregator h attr_len d s.parsed.attrs
        ok (record s { parsed = record s.parsed { attrs = attrs } }))
      else if type == AttrType.ext_community
      then into_parsed s (c.parse_ext_communities attr_len d s.parsed)
      else if type == AttrType.ipv6_ext_community
      then into_parsed s (c.parse_v6_ext_communities attr_len d s.parsed)
      else if type == AttrType.mp_reach_nlri
      then into_parsed s (parse_reach_nlri_attr h c s.info attr_len d s.parsed)
      else if type == AttrType.mp_unreach_nlri
      then parse_unreach_nlri_attr h c attr_len d s
      else if type == AttrType.bgp_ls
      then into_parsed s (c.parse_attr_link_state attr_len d s.parsed)
      else parse_simple_attr h type attr_len d s

  -- The loop of parseAttributes. read_size counts the two bytes of flags and type at the end of the
  -- round, behind the test `read_size + attr_len <= len`.
  unfoldable pub attributes_loop :
      Host → Callees X → ℕ → ℕ → ℕ → Bytes → Session X → Result (Session X)
  unfolding read_attr_len
  attributes_loop h c zero len read d s = stuck
  attributes_loop h c (suc f) len read d s =
      let round : Result (Session X) = (do
        (flags, d1) ← read_u8 d
        (type, d2) ← read_u8 d1
        (attr_len, read', d3) ← read_attr_len flags read d2
        let skip = attributes_loop h c f len (read' + 2) d3 s
        let taken : Result (Session X) = (do
          s' ← parse_attr_data h c type attr_len d3 s
          attributes_loop h c f len (read' + attr_len + 2) (drop attr_len d3) s')
        if ltb 0 attr_len && leb (read' + attr_len) len
            then taken
            else if ltb 0 attr_len
            then ok s
            else skip) in
      if ltb read len then round else ok s

  -- parseAttributes
  unfoldable pub parse_attributes : Host → Callees X → Bytes → ℕ → Session X → Result (Session X)
  parse_attributes h c d len s = if ltb len 3 then ok s else attributes_loop h c (suc len) len 0 d s
