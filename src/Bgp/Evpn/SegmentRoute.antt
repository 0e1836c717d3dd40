-- ===== src/Bgp/Evpn/SegmentRoute.antt =====
-- The Ethernet segment route of Server/src/bgp/EVPN.cpp, behind which the loop loses its place.
use sonic_bmp.Common.{
  ℕ, ◌+◌, ◌≤◌, ◌≡◌, ◌∷◌, ◌++◌, Bytes, length, arith, ok, read_bytes-length, read_u8, le→leb,
}
use sonic_bmp.Bgp.ExtCommunity.Numbers.{Number, IsNumber}
use sonic_bmp.Bgp.Types.{Host}
use sonic_bmp.Bgp.Evpn.{
  fresh_tuple, fresh_rd, segment_identifier, segment_route, read_route, evpn_round,
}
use sonic_bmp.Bgp.Evpn.Format.{
  encode_rd, rd_of, Address, IsAddress, address_bits, address_bytes, address_text,
}
use sonic_bmp.Bgp.Evpn.Reads.{read_ip-address, parse_route_distinguisher-encode}
use sonic_bmp.Bgp.Evpn.RoundTrip.{drop-encode_rd, state_eq}

-- RFC 7432, section 7.4
abbrev pub encode_segment_route : Number → Bytes → Address → Bytes → Bytes
encode_segment_route rd esi addr d =
    4 ∷ (19 + length (address_bytes addr)) ∷ encode_rd rd
    ++ (esi ++ (address_bits addr ∷ address_bytes addr ++ d))

-- A round of parseNlriData that reads an Ethernet segment route gives a tuple with its segment and its
-- originating router and counts the whole route as read, but the next round starts at the address of
-- the originating router instead of behind it.
pub evpn_round-segment_route :
    (h : Host) (data_len read : ℕ) (rd : Number) (esi : Bytes) (addr : Address) (d : Bytes)
    → IsNumber rd
    → length esi ≡ 10
    → IsAddress addr
    → read + 21 + length (address_bytes addr) ≤ data_len
    → evpn_round h data_len read (encode_segment_route rd esi addr d)
      ≡ ok (record {
        entry = record (fresh_tuple (rd_of h rd)) {
          ethernet_segment_identifier = segment_identifier esi;
          originating_router_ip_len = address_bits addr;
          originating_router_ip = address_text h addr;
        };
        read = read + 21 + length (address_bytes addr);
        rest = address_bytes addr ++ d;
      })
unfolding evpn_round read_route segment_route read_u8
evpn_round-segment_route h data_len read rd esi addr d vr le va room =
    let d1 : Bytes = esi ++ (address_bits addr ∷ address_bytes addr ++ d) in
    rw
      (
        parse_route_distinguisher-encode h rd d1 (fresh_rd h) vr,
        drop-encode_rd rd d1 vr,
        le→leb (read + 10 + 11) data_len (omega arith),
        read_bytes-length 10 esi (address_bits addr ∷ address_bytes addr ++ d) le,
        read_ip-address h addr data_len (read + 10 + 11) d va (omega arith),
      )
      (state_eq (omega arith))
