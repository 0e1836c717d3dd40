-- ===== src/Bgp/Nlri.antt =====
-- UpdateMsg::parseNlriData_v4 of Server/src/bgp/UpdateMsg.cpp and MPReachAttr::parseNlriData_IPv4IPv6 of
-- Server/src/bgp/MPReachAttr.cpp: lists of prefixes. `read` is the loop's read_size, `d` its data
-- pointer; a round reads a byte at least, so the loop ends within `len` rounds, and its fuel is one
-- more, for the last test.
pub mod Bounds
pub mod Ends
pub mod Unicast
pub mod RoundTrip
use sonic_bmp.Common.{
  ℕ, zero, suc, ◌+◌, ◌-◌, Bool, true, false, ◌&&◌, List, [], ◌∷◌, ◌++◌, ◌==◌, ltb, leb,
  if◌then◌else◌, Bytes, replicate, Result, ok, stuck, ◌>>=◌, read_bytes, read_u8, read_uint,
}
use sonic_bmp.Bgp.AddPath.{is_add_path_enabled}
use sonic_bmp.Bgp.Types.{
  Host, PrefixTuple, PrefixType, unicast_v4, unicast_v6, PeerInfo, addr_bytes, copy_into, afi_ipv4,
  afi_ipv6, safi_unicast,
}

-- `if (enabled and (len - read_size) >= 4) … else path_id = 0`: the path id, read_size and data.
unfoldable pub read_path_id : Bool → ℕ → ℕ → Bytes → Result (ℕ × ℕ × Bytes)
read_path_id enabled len read d =
    if enabled && leb 4 (len - read)
    then (do (v, d') ← read_uint 4 d; ok (v, read + 4, d'))
    else ok (0, read, d)

-- The tuple that the v4 loop stores for `raw`, the four bytes of the address.
unfoldable pub tuple_v4 : Host → ℕ → ℕ → Bytes → PrefixTuple
tuple_v4 h path_id bits raw = record {
  kind = unicast_v4;
  len = bits;
  prefix = h.inet_ntop true raw;
  prefix_bin = raw ++ replicate 12 0;
  path_id = path_id;
  is_ipv4 = true;
  labels = [];
}

-- One round: the new prefixes, read_size before the loop's `read_size++`, and data.
unfoldable pub nlri_v4_round :
    Host → Bool → ℕ → ℕ → Bytes → List PrefixTuple → Result (List PrefixTuple × ℕ × Bytes)
unfolding read_path_id tuple_v4 copy_into
nlri_v4_round h enabled len read d out = do
  (path_id, read', d') ← read_path_id enabled len read d
  (bits, rest) ← read_u8 d'
  if leb (addr_bytes bits) 4
      then (do
        (bs, rest') ← read_bytes (addr_bytes bits) rest
        raw ← copy_into 4 bs
        ok (out ++ (tuple_v4 h path_id bits raw ∷ []), read' + addr_bytes bits, rest'))
      else ok (out, read', rest)

unfoldable pub nlri_v4_loop :
    Host → Bool → ℕ → ℕ → ℕ → Bytes → List PrefixTuple → Result (List PrefixTuple)
unfolding nlri_v4_round
nlri_v4_loop h enabled zero len read d out = stuck
nlri_v4_loop h enabled (suc f) len read d out =
    let round = (do
      (out', read', d') ← nlri_v4_round h enabled len read d out
      nlri_v4_loop h enabled f len (read' + 1) d' out') in
    if ltb read len then round else ok out

-- parseNlriData_v4; `len` is a uint16_t and `out` the list that it appends to.
unfoldable pub parse_nlri_data_v4 :
    Host → PeerInfo → Bytes → ℕ → List PrefixTuple → Result (List PrefixTuple)
parse_nlri_data_v4 h info d len out =
    if len == 0
    then ok out
    else nlri_v4_loop h (is_add_path_enabled afi_ipv4 safi_unicast info.add_path_capability)
        (suc len) len 0 d out

-- The tuple that the loop over IPv4 or IPv6 prefixes stores for `raw`, all sixteen bytes.
unfoldable pub tuple_unicast : Host → Bool → ℕ → ℕ → Bytes → PrefixTuple
tuple_unicast h ipv4 path_id bits raw = record {
  kind = if ipv4 then unicast_v4 else unicast_v6;
  len = bits;
  prefix = h.inet_ntop ipv4 raw;
  prefix_bin = raw;
  path_id = path_id;
  is_ipv4 = ipv4;
  labels = [];
}

-- One round. The copy into `ip_raw` of sixteen bytes has no guard.
unfoldable pub nlri_unicast_round :
    Host → Bool → Bool → ℕ → ℕ → Bytes → Result (PrefixTuple × ℕ × Bytes)
unfolding read_path_id tuple_unicast copy_into
nlri_unicast_round h ipv4 enabled len read d = do
  (path_id, read', d') ← read_path_id enabled len read d
  (bits, rest) ← read_u8 d'
  (bs, rest') ← read_bytes (addr_bytes bits) rest
  raw ← copy_into 16 bs
  ok (tuple_unicast h ipv4 path_id bits raw, read' + addr_bytes bits, rest')

unfoldable pub nlri_unicast_loop :
    Host → Bool → Bool → ℕ → ℕ → ℕ → Bytes → List PrefixTuple → Result (List PrefixTuple)
unfolding nlri_unicast_round
nlri_unicast_loop h ipv4 enabled zero len read d out = stuck
nlri_unicast_loop h ipv4 enabled (suc f) len read d out =
    let round = (do
      (t, read', d') ← nlri_unicast_round h ipv4 enabled len read d
      nlri_unicast_loop h ipv4 enabled f len (read' + 1) d' (out ++ (t ∷ []))) in
    if ltb read len then round else ok out

-- MPReachAttr::parseNlriData_IPv4IPv6
unfoldable pub parse_nlri_data_ipv4_ipv6 :
    Host → Bool → Bytes → ℕ → PeerInfo → List PrefixTuple → Result (List PrefixTuple)
parse_nlri_data_ipv4_ipv6 h ipv4 d len info out =
    if len == 0
    then ok out
    else nlri_unicast_loop h ipv4
        (is_add_path_enabled (if ipv4 then afi_ipv4 else afi_ipv6) safi_unicast
          info.add_path_capability)
        (suc len) len 0 d out
