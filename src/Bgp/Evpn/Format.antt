-- ===== src/Bgp/Evpn/Format.antt =====
-- EVPN routes as RFC 7432 (section 7) writes them, and the evpn_tuple that each of them means.
use sonic_bmp.Common.{
  ℕ, ◌+◌, ◌-◌, ◌^◌, ◌<◌, ◌≡◌, List, [], ◌∷◌, ◌++◌, Option, none, some, ltb, if◌then◌else◌, Text,
  to_dec, Bytes, length, replicate, network, ℤ, pos, negsuc, true, false,
}
use sonic_bmp.Bgp.ExtCommunity.Numbers.{
  Number, two_octet, four_octet, address, IsNumber, type_of, value_of,
}
use sonic_bmp.Bgp.ExtCommunity.{parse_mac}
use sonic_bmp.Bgp.Types.{Host, RdTuple}
use sonic_bmp.Bgp.Evpn.{EvpnTuple, fresh_tuple, hex_bytes, segment_identifier}

-- A route distinguisher: two bytes of type and six of value.
abbrev pub encode_rd : Number → Bytes
encode_rd a = 0 ∷ type_of a ∷ value_of a

-- What parseRouteDistinguisher makes of it: the stream that prints the administrator still holds the
-- number, but where the administrator is an address.
abbrev pub rd_of : Host → Number → RdTuple
rd_of h (two_octet asn n) = record {
  rd_administrator_subfield = to_dec n ++ to_dec asn;
  rd_assigned_number = to_dec n;
  rd_type = 0;
}
rd_of h (four_octet asn n) = record {
  rd_administrator_subfield = to_dec n ++ to_dec asn;
  rd_assigned_number = to_dec n;
  rd_type = 2;
}
rd_of h (address addr n) = record {
  rd_administrator_subfield = h.inet_ntop true addr;
  rd_assigned_number = to_dec n;
  rd_type = 1;
}

-- An address behind a byte that gives its bits.
pub data Address : Type 0 where
  no_address : Address
  address_v4 address_v6 : Bytes → Address

abbrev pub IsAddress : Address → Type 0
IsAddress no_address = Unit
IsAddress (address_v4 bs) = length bs ≡ 4
IsAddress (address_v6 bs) = length bs ≡ 16

abbrev pub address_bits : Address → ℕ
address_bits no_address = 0
address_bits (address_v4 bs) = 32
address_bits (address_v6 bs) = 128

abbrev pub address_bytes : Address → Bytes
address_bytes no_address = []
address_bytes (address_v4 bs) = bs
address_bytes (address_v6 bs) = bs

-- The array of 16 bytes, filled up with zeros, is printed.
abbrev pub padded : Bytes → Bytes
padded bs = bs ++ replicate (16 - length bs) 0

abbrev pub address_text : Host → Address → Text
address_text h no_address = []
address_text h (address_v4 bs) = h.inet_ntop true (padded bs)
address_text h (address_v6 bs) = h.inet_ntop false (padded bs)

-- A route; a label is the whole field of 24 bits.
pub data Route : Type 0 where
  auto_discovery : (esi tag : Bytes) (label : ℕ) → Route
  mac_address :
      (esi tag : Bytes) (mac_len : ℕ) (mac : Bytes) (addr : Address) (label : ℕ) (second : Option ℕ)
      → Route
  multicast : (tag : Bytes) (addr : Address) → Route

abbrev pub IsSecond : Option ℕ → Type 0
IsSecond none = Unit
IsSecond (some l) = l < 2 ^ 24

abbrev pub IsRoute : Route → Type 0
IsRoute (auto_discovery esi tag label) = (length esi ≡ 10) × (length tag ≡ 4) × (label < 2 ^ 24)
IsRoute (mac_address esi tag mac_len mac addr label second) =
    (length esi ≡ 10)
    × (length tag ≡ 4)
    × (length mac ≡ 6)
    × IsAddress addr
    × (label < 2 ^ 24)
    × IsSecond second
IsRoute (multicast tag addr) = (length tag ≡ 4) × IsAddress addr

abbrev pub route_code : Route → ℕ
route_code (auto_discovery esi tag label) = 1
route_code (mac_address esi tag mac_len mac addr label second) = 2
route_code (multicast tag addr) = 3

abbrev pub encode_second : Option ℕ → Bytes
encode_second none = []
encode_second (some l) = network 3 l

abbrev pub encode_route : Route → Bytes
encode_route (auto_discovery esi tag label) = esi ++ (tag ++ network 3 label)
encode_route (mac_address esi tag mac_len mac addr label second) =
    esi
    ++ (tag
        ++ (mac_len ∷ mac
            ++ (address_bits addr ∷ address_bytes addr
                ++ (network 3 label ++ encode_second second))))
encode_route (multicast tag addr) = tag ++ (address_bits addr ∷ address_bytes addr)

pub record Nlri : Type 0 where
  pub rd : Number
  pub route : Route

abbrev pub IsNlri : Nlri → Type 0
IsNlri n = IsNumber n.rd × IsRoute n.route

abbrev pub encode_nlri : Nlri → Bytes
encode_nlri n =
    route_code n.route ∷ (8 + length (encode_route n.route)) ∷ encode_rd n.rd
    ++ encode_route n.route

abbrev pub encode_nlris : List Nlri → Bytes
encode_nlris [] = []
encode_nlris (n ∷ ns) = encode_nlri n ++ encode_nlris ns

-- A label is shifted in a signed int: the upper half of the values comes out below zero.
abbrev pub label_int : ℕ → ℤ
label_int l = if ltb l (2 ^ 23) then pos l else negsuc (2 ^ 24 - 1 - l)

abbrev pub second_int : Option ℕ → ℤ
second_int none = pos 0
second_int (some l) = label_int l

abbrev pub route_tuple : Host → RdTuple → Route → EvpnTuple
route_tuple h rd (auto_discovery esi tag label) = record (fresh_tuple rd) {
  ethernet_segment_identifier = segment_identifier esi;
  ethernet_tag_id_hex = hex_bytes tag;
  mpls_label_1 = label_int label;
}
route_tuple h rd (mac_address esi tag mac_len mac addr label second) = record (fresh_tuple rd) {
  ethernet_segment_identifier = segment_identifier esi;
  ethernet_tag_id_hex = hex_bytes tag;
  mac_len = mac_len;
  mac = parse_mac mac;
  ip_len = address_bits addr;
  ip = address_text h addr;
  mpls_label_1 = label_int label;
  mpls_label_2 = second_int second;
}
route_tuple h rd (multicast tag addr) = record (fresh_tuple rd) {
  ethernet_tag_id_hex = hex_bytes tag;
  originating_router_ip_len = address_bits addr;
  originating_router_ip = address_text h addr;
}

abbrev pub tuple_of : Host → Nlri → EvpnTuple
tuple_of h n = route_tuple h (rd_of h n.rd) n.route
