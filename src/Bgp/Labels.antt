-- ===== src/Bgp/Labels.antt =====
-- MPReachAttr::decodeLabel and parseNlriData_LabelIPv4IPv6 of Server/src/bgp/MPReachAttr.cpp, and
-- EVPN::parseRouteDistinguisher of Server/src/bgp/EVPN.cpp. The template's tuple is a VpnTuple, whose
-- route distinguisher the instance at prefix_tuple does not use; it is carried from round to round,
-- since a round does not write all of it.
pub mod Stack
pub mod Ends
use sonic_bmp.Common.{
  ℕ, zero, suc, ◌+◌, ◌-◌, ◌*◌, ◌/◌, ◌%◌, ◌^◌, Bool, true, false, not, ◌&&◌, ◌||◌, List, [], ◌∷◌,
  ◌++◌, ◌==◌, ltb, leb, if◌then◌else◌, Text, codes, to_dec, Bytes, drop, Result, ok, stuck, ◌>>=◌,
  read_bytes, read_u8, read_uint, swap_bytes, little_endian,
}
use sonic_bmp.Bgp.AddPath.{is_add_path_enabled}
use sonic_bmp.Bgp.Nlri.{read_path_id}
use sonic_bmp.Bgp.Types.{
  Host, PrefixTuple, PrefixType, label_unicast_v4, label_unicast_v6, RdTuple, VpnTuple, PeerInfo,
  addr_bytes, copy_into, afi_ipv4, afi_ipv6, safi_nlri_label, safi_mpls,
}

-- label.data: three bytes in a zeroed uint32_t whose four bytes are swapped.
unfoldable pub read_label : Bytes → Result (ℕ × Bytes)
read_label d = do
  (bs, rest) ← read_bytes 3 d
  ok (little_endian (swap_bytes (bs ++ (0 ∷ []))), rest)

-- label.decode.value and label.decode.bos
abbrev pub label_value : ℕ → ℕ
label_value word = word / 2 ^ 12

abbrev pub label_bos : ℕ → ℕ
label_bos word = word / 2 ^ 8 % 2

-- The test that ends the stack.
abbrev pub is_last_label : ℕ → Bool
is_last_label word = label_bos word == 1 || word == 0x80000000 || word == 0

-- `while (read_size <= len)`: the number of bytes read and the labels. A round reads three bytes.
unfoldable pub decode_label_loop : ℕ → ℕ → ℕ → Bytes → Text → Result (ℕ × Text)
unfolding read_label
decode_label_loop zero len read d labels = stuck
decode_label_loop (suc f) len read d labels =
    let round : Result (ℕ × Text) = (do
      (word, rest) ← read_label d
      let labels' = labels ++ to_dec (label_value word)
      let more = decode_label_loop f len (read + 3) rest (labels' ++ codes ",")
      if is_last_label word then ok (read + 3, labels') else more) in
    if leb read len then round else ok (read, labels)

-- decodeLabel
unfoldable pub decode_label : Bytes → ℕ → Result (ℕ × Text)
unfolding decode_label_loop
decode_label d len = decode_label_loop (len + 2) len 0 d []

-- parseRouteDistinguisher. `val_ss.clear()` keeps what the stream holds, so the second number is
-- printed behind the first.
unfoldable pub parse_route_distinguisher : Host → Bytes → RdTuple → Result RdTuple
parse_route_distinguisher h d rd = do
  (reserved, d1) ← read_u8 d
  (type, d2) ← read_u8 d1
  if type == 0
      then (do
        (admin, d3) ← read_uint 2 d2
        (number, d4) ← read_uint 4 d3
        ok (record {
          rd_administrator_subfield = to_dec number ++ to_dec admin;
          rd_assigned_number = to_dec number;
          rd_type = type;
        }))
      else if type == 1
      then (do
        (admin, d3) ← read_bytes 4 d2
        (number, d4) ← read_uint 2 d3
        ok (record {
          rd_administrator_subfield = h.inet_ntop true admin;
          rd_assigned_number = to_dec number;
          rd_type = type;
        }))
      else if type == 2
      then (do
        (admin, d3) ← read_uint 4 d2
        (number, d4) ← read_uint 2 d3
        ok (record {
          rd_administrator_subfield = to_dec number ++ to_dec admin;
          rd_assigned_number = to_dec number;
          rd_type = type;
        }))
      else ok (record rd { rd_type = type })

-- What the loop's variables are: the tuple, the bytes left of the address, read_size and data.
pub record LabelState : Type 0 where
  pub entry : VpnTuple
  pub bytes : ℕ
  pub read : ℕ
  pub rest : Bytes

-- `if (isVPN and addr_bytes >= 8)`: the route distinguisher.
unfoldable pub read_rd : Host → Bool → LabelState → Result LabelState
unfolding parse_route_distinguisher
read_rd h is_vpn s =
    if is_vpn && leb 8 s.bytes
    then (do
      rd ← parse_route_distinguisher h s.rest s.entry.rd
      ok (record {
        entry = record {
          tuple = record s.entry.tuple { len = (s.entry.tuple.len + 256 - 64) % 256 };
          rd = rd;
        };
        bytes = s.bytes - 8;
        read = s.read + 8;
        rest = drop 8 s.rest;
      }))
    else ok s

abbrev default_route : Bool → Text
default_route ipv4 = if ipv4 then codes "0.0.0.0" else codes "::"

-- `if (addr_bytes > 0)`: the address, or the default route, which leaves prefix_bin as it is.
unfoldable pub read_address : Host → Bool → LabelState → Result LabelState
unfolding copy_into
read_address h ipv4 s =
    if ltb 0 s.bytes
    then (do
      (bs, rest) ← read_bytes s.bytes s.rest
      raw ← copy_into 16 bs
      ok (record s {
        entry = record s.entry {
          tuple = record s.entry.tuple { prefix = h.inet_ntop ipv4 raw; prefix_bin = raw };
        };
        read = s.read + s.bytes;
        rest = rest;
      }))
    else ok (record s {
      entry = record s.entry { tuple = record s.entry.tuple { prefix = default_route ipv4 } };
    })

-- One round. addr_bytes is an int: where the labels are longer than the prefix it goes below 0, and
-- the tests `>= 8` and `> 0` fail as they do for 0. tuple.len is an unsigned char.
unfoldable pub label_round :
    Host → Bool → Bool → Bool → ℕ → ℕ → Bytes → VpnTuple → Result LabelState
unfolding read_path_id decode_label read_rd read_address
label_round h ipv4 is_vpn enabled len read d entry = do
  (path_id, read', d') ← read_path_id (not is_vpn && enabled) len read d
  (bits, rest) ← read_u8 d'
  (label_bytes, labels) ← decode_label rest (addr_bytes bits)
  s ← read_rd h is_vpn (record {
    entry = record entry {
      tuple = record entry.tuple {
        path_id = path_id;
        len = (bits + 512 - 8 * label_bytes) % 256;
        labels = labels;
      };
    };
    bytes = addr_bytes bits - label_bytes;
    read = read' + label_bytes;
    rest = drop label_bytes rest;
  })
  read_address h ipv4 s

unfoldable pub label_loop :
    Host
    → Bool
    → Bool
    → Bool
    → ℕ
    → ℕ
    → ℕ
    → Bytes
    → VpnTuple
    → List VpnTuple
    → Result (List VpnTuple)
unfolding label_round
label_loop h ipv4 is_vpn enabled zero len read d entry out = stuck
label_loop h ipv4 is_vpn enabled (suc f) len read d entry out =
    let round : Result (List VpnTuple) = (do
      s ← label_round h ipv4 is_vpn enabled len read d entry
      label_loop h ipv4 is_vpn enabled f len (s.read + 1) s.rest s.entry (out ++ (s.entry ∷ []))) in
    if ltb read len then round else ok out

-- The tuple as the function declares it: what it does not set is not initialised.
abbrev pub fresh_entry : Host → Bool → VpnTuple
fresh_entry h ipv4 = record {
  tuple = record {
    kind = if ipv4 then label_unicast_v4 else label_unicast_v6;
    len = 0;
    prefix = [];
    prefix_bin = h.junk_bin;
    path_id = 0;
    is_ipv4 = ipv4;
    labels = [];
  };
  rd = record { rd_administrator_subfield = []; rd_assigned_number = []; rd_type = h.junk_rd_type };
}

-- parseNlriData_LabelIPv4IPv6: the entries that it appends.
unfoldable pub parse_nlri_data_label :
    Host → Bool → Bool → Bytes → ℕ → PeerInfo → Result (List VpnTuple)
parse_nlri_data_label h ipv4 is_vpn d len info =
    if len == 0
    then ok []
    else label_loop h ipv4 is_vpn
        (is_add_path_enabled (if ipv4 then afi_ipv4 else afi_ipv6)
          (if is_vpn then safi_mpls else safi_nlri_label) info.add_path_capability)
        (suc len) len 0 d (fresh_entry h ipv4) []
