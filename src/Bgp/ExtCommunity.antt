-- ===== src/Bgp/ExtCommunity.antt =====
-- ExtCommunity of Server/src/bgp/ExtCommunity.cpp: the extended communities of a path, as text.
pub mod Numbers
pub mod Print
pub mod Version6
use sonic_bmp.Common.{
  ℕ, zero, suc, ◌+◌, ◌/◌, ◌%◌, Bool, true, false, not, [], ◌∷◌, ◌++◌, ◌==◌, if◌then◌else◌, Option,
  some, none, Text, codes, to_dec, to_hex, hex_digit, Bytes, bit_and, take, drop, Result, ok, ◌>>=◌,
  read_bytes, read_u8, little_endian, swap_bytes,
}
use sonic_bmp.Bgp.Attrs.{set_attr}
use sonic_bmp.Bgp.AttrType.{ext_community}
use sonic_bmp.Bgp.Types.{Host, ParsedData}

-- A variable that is copied from the bytes and swapped.
unfoldable pub uint_of : Bytes → ℕ
unfolding little_endian swap_bytes
uint_of bs = little_endian (swap_bytes bs)

-- val_16b, val_32b and ipv4_char of decodeType_common and decodeType_Generic. An IPv4 address leaves
-- val_32b in network order.
pub record Admin : Type 0 where
  pub val_16b : ℕ
  pub val_32b : ℕ
  pub ipv4_char : Text

unfoldable pub admin_of : Host → Bool → Bool → Bytes → Admin
unfolding little_endian
admin_of h true true v = record {
  val_16b = uint_of (drop 4 v);
  val_32b = little_endian (take 4 v);
  ipv4_char = h.inet_ntop true (take 4 v);
}
admin_of h true false v = record {
  val_16b = uint_of (drop 4 v);
  val_32b = uint_of (take 4 v);
  ipv4_char = [];
}
admin_of h false ipv4 v = record {
  val_16b = uint_of (take 2 v);
  val_32b = uint_of (drop 2 v);
  ipv4_char = [];
}

-- `a << ":" << b`
abbrev pub pair : Text → Text → Text
pair a b = a ++ (codes ":" ++ b)

abbrev pub hex_pair : Text → ℕ → Text
hex_pair a b = a ++ (codes ":0x" ++ to_hex b)

-- The administrator and the number: by AS number, by address too, and with the number in hexadecimal. The
-- last is what stands where a case does not ask for four bytes.
unfoldable pub as_number : Bool → Admin → Text
as_number four a =
    if four
    then pair (to_dec a.val_32b) (to_dec a.val_16b)
    else pair (to_dec a.val_16b) (to_dec a.val_32b)

unfoldable pub any_number : Bool → Bool → Admin → Text
any_number four ipv4 a = if ipv4 then pair a.ipv4_char (to_dec a.val_16b) else as_number four a

unfoldable pub hex_number : Bool → Bool → Admin → Text
hex_number four ipv4 a =
    if ipv4
    then hex_pair a.ipv4_char a.val_16b
    else if four
    then hex_pair (to_dec a.val_32b) a.val_16b
    else hex_pair (to_dec a.val_16b) a.val_32b

unfoldable pub two_or_ipv4 : Bool → Admin → Text
two_or_ipv4 ipv4 a =
    if ipv4 then pair a.ipv4_char (to_dec a.val_16b) else pair (to_dec a.val_16b) (to_dec a.val_32b)

-- decodeType_common
unfoldable pub decode_common : Host → ℕ → Bool → Bool → Bytes → Text
decode_common h low four ipv4 v =
    let a = admin_of h four ipv4 v in
    if low == 8
    then codes "colc=" ++ as_number four a
    else if low == 3
    then codes "soo=" ++ any_number four ipv4 a
    else if low == 2
    then codes "rt=" ++ any_number four ipv4 a
    else if low == 9
    then codes "sas=" ++ as_number four a
    else if low == 0x10
    then codes "vpn-id=" ++ hex_number four ipv4 a
    else if low == 0x0a
    then codes "vpn-id=" ++ hex_number four ipv4 a
    else if low == 4
    then codes "link-bw=" ++ as_number four a
    else if low == 5
    then codes "ospf-did=" ++ any_number four ipv4 a
    else if low == 0x0b
    then codes "import=" ++ two_or_ipv4 ipv4 a
    else if low == 0x12
    then codes "p2mp-nh=" ++ two_or_ipv4 ipv4 a
    else if low == 7
    then codes "ospf-rid=" ++ any_number four ipv4 a
    else []

-- bgp::parse_mac
unfoldable pub parse_mac : Bytes → Text
parse_mac [] = []
parse_mac (b ∷ []) = hex_digit (b / 16) ∷ hex_digit (b % 16) ∷ []
parse_mac (b ∷ bs) = hex_digit (b / 16) ∷ hex_digit (b % 16) ∷ (codes ":" ++ parse_mac bs)

-- decodeType_EVPN. A u_char is printed as a character.
unfoldable pub decode_evpn : ℕ → Bytes → Text
decode_evpn low v =
    if low == 0
    then codes "mac_mob_flags="
      ++ (take 1 v ++ (codes " mac_mob_seq_num=" ++ to_dec (uint_of (drop 2 v))))
    else if low == 1
    then codes "esi_label_flags="
      ++ (take 1 v ++ (codes " esi_label=" ++ to_dec (uint_of (drop 3 v))))
    else if low == 2
    then codes "es_import=" ++ parse_mac v
    else if low == 3
    then codes "router_mac=" ++ parse_mac v
    else []

-- The byte at a place
abbrev pub byte_at : ℕ → Bytes → ℕ
byte_at n v = uint_of (take 1 (drop n v))

unfoldable pub cost_point : ℕ → Text
cost_point poi =
    if poi == 128
    then codes "abs:"
    else if poi == 129
    then codes "igp:"
    else if poi == 130
    then codes "ext:"
    else if poi == 131
    then codes "bgp_id:"
    else codes "unkn"

unfoldable pub ospf_route_type : ℕ → Text
ospf_route_type t =
    if t == 1
    then codes "O:"
    else if t == 2
    then codes "O:"
    else if t == 3
    then codes "IA:"
    else if t == 5
    then codes "E:"
    else if t == 7
    then codes "N:"
    else codes "unkn:"

-- decodeType_Opaque
unfoldable pub decode_opaque : ℕ → Bytes → Text
decode_opaque low v =
    if low == 1
    then codes "cost="
      ++ (cost_point (byte_at 0 v) ++ pair (to_dec (byte_at 1 v)) (to_dec (uint_of (drop 2 v))))
    else if low == 3
    then codes "cp-orf"
    else if low == 6
    then codes "ospf-rt=area-"
      ++ (pair (to_dec (uint_of (take 4 v))) (ospf_route_type (byte_at 4 v))
          ++ to_dec (byte_at 5 v))
    else if low == 0x0b
    then codes "color=" ++ to_dec (uint_of (drop 2 v))
    else if low == 0x0c
    then codes "encap=" ++ to_dec (byte_at 5 v)
    else if low == 0x0d
    then codes "default-gw"
    else []

-- decodeType_Generic. `float_text` is what a stream prints for the float next to a number.
unfoldable pub decode_generic : (ℕ → Text) → Host → ℕ → Bool → Bool → Bytes → Text
decode_generic float_text h low four ipv4 v =
    let a = admin_of h four ipv4 v in
    if low == 10
    then codes "l2info="
      ++ ((if byte_at 0 v == 19 then codes "vpls:" else to_dec (byte_at 0 v) ++ codes ":")
          ++ (take 1 (drop 1 v) ++ (codes ":mtu:" ++ to_dec (uint_of (take 2 (drop 2 v))))))
    else if low == 6
    then codes "flow-rate=" ++ pair (to_dec a.val_16b) (float_text a.val_32b)
    else if low == 7
    then codes "flow-act="
      ++ ((if bit_and (byte_at 5 v) 0x02 == 0 then [] else codes "S")
          ++ (if bit_and (byte_at 5 v) 0x01 == 0 then [] else codes "T"))
    else if low == 8
    then codes "flow-redir=" ++ any_number four ipv4 a
    else if low == 9
    then codes "flow-remark=" ++ to_dec (byte_at 5 v)
    else []

-- The switch on the type: `high_type << 2 >> 2` is computed in an int and is the type itself.
unfoldable pub decode_type : (ℕ → Text) → Host → ℕ → ℕ → Bytes → Text
decode_type float_text h high low v =
    if high == 1
    then decode_common h low true true v
    else if high == 0
    then decode_common h low false false v
    else if high == 2
    then decode_common h low true false v
    else if high == 0x80
    then decode_generic float_text h low false false v
    else if high == 0x82
    then decode_generic float_text h low true false v
    else if high == 0x81
    then decode_generic float_text h low true true v
    else if high == 3
    then decode_opaque low v
    else if high == 6
    then decode_evpn low v
    else []

-- The loop, over the communities that are left, with what has been printed.
unfoldable pub communities_loop : (ℕ → Text) → Host → ℕ → Bytes → Text → Result Text
communities_loop float_text h zero d acc = ok acc
communities_loop float_text h (suc k) d acc = do
  (high, d1) ← read_u8 d
  (low, d2) ← read_u8 d1
  (v, d3) ← read_bytes 6 d2
  communities_loop float_text h k d3
      (acc ++ (decode_type float_text h high low v ++ (if k == 0 then [] else codes " ")))

-- parseExtCommunities
unfoldable pub parse_ext_communities :
    {X : Type 0} → (ℕ → Text) → Host → ℕ → Bytes → ParsedData X → Result (ParsedData X)
parse_ext_communities float_text h attr_len d p =
    if attr_len % 8 == 0
    then (do
      t ← communities_loop float_text h (attr_len / 8) d []
      ok (record p { attrs = set_attr ext_community t p.attrs }))
    else ok p
