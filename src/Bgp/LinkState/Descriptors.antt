-- ===== src/Bgp/LinkState/Descriptors.antt =====
-- The descriptors of BGP-LS routes: parseDescrLocalRemoteNode, parseDescrLink and parseDescrPrefix of
-- Server/src/bgp/linkstate/MPLinkState.cpp, and the loops that call them.
use sonic_bmp.Common.{
  ℕ, zero, suc, ◌+◌, ◌-◌, ◌/◌, ◌^◌, Bool, true, false, [], ◌++◌, ◌==◌, ltb, if◌then◌else◌, Text,
  codes, Bytes, length, drop, Result, ok, stuck, ◌>>=◌, read_bytes, read_u8, read_uint,
  little_endian, network, reverse,
}
use sonic_bmp.Bgp.ExtCommunity.{uint_of}
use sonic_bmp.Bgp.LastAddress.{last_address}
use sonic_bmp.Bgp.Types.{copy_into}
use sonic_bmp.Bgp.LinkState.Rows.{zeros}

-- node_descriptor, without its hash
pub record NodeDescriptor : Type 0 where
  pub asn : ℕ
  pub bgp_ls_id : ℕ
  pub igp_router_id : Bytes
  pub ospf_area_id : Bytes
  pub bgp_router_id : ℕ

abbrev pub empty_node_descriptor : NodeDescriptor
empty_node_descriptor = record {
  asn = 0;
  bgp_ls_id = 0;
  igp_router_id = zeros 8;
  ospf_area_id = zeros 4;
  bgp_router_id = 0;
}

-- link_descriptor
pub record LinkDescriptor : Type 0 where
  pub local_id : ℕ
  pub remote_id : ℕ
  pub intf_addr : Bytes
  pub nei_addr : Bytes
  pub mt_id : ℕ
  pub is_ipv4 : Bool

abbrev pub empty_link_descriptor : LinkDescriptor
empty_link_descriptor = record {
  local_id = 0;
  remote_id = 0;
  intf_addr = zeros 16;
  nei_addr = zeros 16;
  mt_id = 0;
  is_ipv4 = false;
}

-- prefix_descriptor
pub record PrefixDescriptor : Type 0 where
  pub ospf_route_type : Text
  pub mt_id : ℕ
  pub prefix : Bytes
  pub prefix_bcast : Bytes
  pub prefix_len : ℕ

abbrev pub empty_prefix_descriptor : PrefixDescriptor
empty_prefix_descriptor = record {
  ospf_route_type = [];
  mt_id = 0;
  prefix = zeros 16;
  prefix_bcast = zeros 16;
  prefix_len = 0;
}

-- memcpy to the start of an array
abbrev pub overlay : Bytes → Bytes → Bytes
overlay bs old = bs ++ drop (length bs) old

-- What a descriptor is filled with: the type and length of a sub-TLV, and the bytes from its value on,
-- give the bytes read behind the header and the descriptor.
abbrev pub Filler : Type 0 → Type 0
Filler I = ℕ → ℕ → Bytes → I → Result (ℕ × I)

module _ {I : Type 0} where
  -- What the three functions start with: the bytes read, and the descriptor.
  unfoldable pub sub_tlv : Filler I → ℕ → Bytes → I → Result (ℕ × I)
  sub_tlv fill data_len d info =
      let tlv : Result (ℕ × I) = (do
        (type, d1) ← read_uint 2 d
        (len, d2) ← read_uint 2 d1
        let body : Result (ℕ × I) = (do (n, info') ← fill type len d2 info; ok (4 + n, info'))
        if ltb (data_len - 4) len then ok (data_len, info) else body) in
      if ltb data_len 4 then ok (data_len, info) else tlv

  -- `while (len > 0)`: the bytes read in all, what is behind them, and the descriptor.
  unfoldable pub descriptor_loop : Filler I → ℕ → ℕ → ℕ → Bytes → I → Result (ℕ × Bytes × I)
  descriptor_loop fill zero len read d info = stuck
  descriptor_loop fill (suc f) len read d info =
      let round : Result (ℕ × Bytes × I) = (do
        (n, info') ← sub_tlv fill len d info
        descriptor_loop fill f (len - n) (read + n) (drop n d) info') in
      if ltb 0 len then round else ok (read, d, info)

  -- A sub-TLV of a number of four bytes; any other length is skipped.
  unfoldable pub four_bytes : ℕ → Bytes → (ℕ → I) → I → Result (ℕ × I)
  four_bytes len d set info =
      let number : Result (ℕ × I) = (do (v, rest) ← read_uint 4 d; ok (4, set v)) in
      if len == 4 then number else ok (len, info)

  -- A sub-TLV of `size` raw bytes
  unfoldable pub raw_bytes : ℕ → ℕ → Bytes → (Bytes → I) → I → Result (ℕ × I)
  raw_bytes size len d set info =
      let raw : Result (ℕ × I) = (do (bs, rest) ← read_bytes size d; ok (size, set bs)) in
      if len == size then raw else ok (len, info)

-- parseDescrLocalRemoteNode: the switch. That len is at most data_len has been tested before.
unfoldable pub fill_node : Filler NodeDescriptor
fill_node type len d info =
    if type == 512
    then four_bytes len d (λ v. record info { asn = v }) info
    else if type == 513
    then four_bytes len d (λ v. record info { bgp_ls_id = v }) info
    else if type == 514
    then raw_bytes 4 len d (λ bs. record info { ospf_area_id = bs }) info
    else if type == 515
    then (if ltb 8 len then ok (len, info) else (do
      (bs, rest) ← read_bytes len d
      id ← copy_into 8 bs
      ok (len, record info { igp_router_id = id })))
    else if type == 516
    then raw_bytes 4 len d (λ bs. record info { bgp_router_id = little_endian bs }) info
    else ok (len, info)

-- The MT-ID: `len` bytes over the first of a uint32_t, which is swapped and shifted.
unfoldable pub read_mt_id : ℕ → Bytes → ℕ → Result (ℕ × ℕ)
read_mt_id len d old =
    let value : Result (ℕ × ℕ) = (do
      (bs, rest) ← read_bytes len d
      ok (len, uint_of (overlay bs (reverse (network 4 old))) / 2 ^ 16)) in
    if ltb len 2 then ok (len, old) else if ltb 4 len then ok (len, 0) else value

-- parseDescrLink: the switch.
unfoldable pub fill_link : Filler LinkDescriptor
fill_link type len d info =
    if type == 258
    then (if len == 8
        then (do
          (local_id, d1) ← read_uint 4 d
          (remote_id, d2) ← read_uint 4 d1
          ok (8, record info { local_id = local_id; remote_id = remote_id }))
        else ok (len, info))
    else if type == 263
    then (do (n, mt_id) ← read_mt_id len d info.mt_id; ok (n, record info { mt_id = mt_id }))
    else if type == 259
    then (let v4 = record info { is_ipv4 = true } in
        raw_bytes 4 len d (λ bs. record v4 { intf_addr = overlay bs info.intf_addr }) v4)
    else if type == 261
    then (let v6 = record info { is_ipv4 = false } in
        raw_bytes 16 len d (λ bs. record v6 { intf_addr = overlay bs info.intf_addr }) v6)
    else if type == 260
    then (let v4 = record info { is_ipv4 = true } in
        raw_bytes 4 len d (λ bs. record v4 { nei_addr = overlay bs info.nei_addr }) v4)
    else if type == 262
    then (let v6 = record info { is_ipv4 = false } in
        raw_bytes 16 len d (λ bs. record v6 { nei_addr = overlay bs info.nei_addr }) v6)
    else ok (len, info)

-- The switch on OSPF_ROUTE_TYPES
unfoldable pub ospf_text : ℕ → Text
ospf_text t =
    if t == 3
    then codes "Ext-1"
    else if t == 4
    then codes "Ext-2"
    else if t == 2
    then codes "Inter"
    else if t == 1
    then codes "Intra"
    else if t == 5
    then codes "NSSA-1"
    else if t == 6
    then codes "NSSA-2"
    else codes "Intra"

-- PREFIX_DESCR_IP_REACH_INFO: the bits, and the bytes of the prefix into an array of sixteen.
unfoldable pub read_reach_info : Bool → ℕ → Bytes → PrefixDescriptor → Result (ℕ × PrefixDescriptor)
read_reach_info ipv4 len d info = do
  (prefix_len, d1) ← read_u8 d
  (bs, d2) ← read_bytes (len - 1) d1
  prefix ← copy_into 16 bs
  ok (
    len,
    record info {
      prefix_len = prefix_len;
      prefix = prefix;
      prefix_bcast = last_address ipv4 prefix_len prefix info.prefix_bcast;
    },
  )

-- parseDescrPrefix: the switch. An OSPF route type counts as one byte, whatever its length.
unfoldable pub fill_prefix : Bool → Filler PrefixDescriptor
fill_prefix ipv4 type len d info =
    if type == 265
    then (if ltb len 1 then ok (len, info) else read_reach_info ipv4 len d info)
    else if type == 263
    then (do (n, mt_id) ← read_mt_id len d info.mt_id; ok (n, record info { mt_id = mt_id }))
    else if type == 264
    then (do (t, rest) ← read_u8 d; ok (1, record info { ospf_route_type = ospf_text t }))
    else ok (len, info)
