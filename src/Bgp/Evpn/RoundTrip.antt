-- ===== src/Bgp/Evpn/RoundTrip.antt =====
-- EVPN routes that are written one after another are read back by EVPN::parseNlriData of
-- Server/src/bgp/EVPN.cpp.
use sonic_bmp.Common.{
  ℕ, zero, suc, ◌+◌, ◌-◌, ◌≤◌, ◌<◌, ◌≡◌, refl, ap, Bool, if◌then◌else◌, List, [], All, ◌∷◌, ◌++◌,
  append_assoc, append-nil, map, Option, Bytes, length, length-append, length-network, drop,
  drop-append-length, arith, Result, ok, read_bytes-length, read_u8, network, le→leb, lt→ltb,
  le→ltb, subst,
}
use sonic_bmp.Bgp.ExtCommunity.Numbers.{Number, IsNumber, length-value_of}
use sonic_bmp.Bgp.Types.{Host, RdTuple, ParsedData}
use sonic_bmp.Bgp.Evpn.{
  EvpnTuple, EvpnState, fresh_tuple, fresh_rd, ethernet_ad, mac_ip, inclusive_multicast, read_route,
  evpn_round, evpn_loop, parse_nlri_data, Others, parse_evpn_nlri,
}
use sonic_bmp.Bgp.Evpn.Format.{
  encode_rd, rd_of, Address, address_bits, address_bytes, Route, auto_discovery, mac_address,
  multicast, IsRoute, route_code, encode_second, encode_route, Nlri, IsNlri, encode_nlri,
  encode_nlris, route_tuple, tuple_of,
}
use sonic_bmp.Bgp.Evpn.Reads.{
  read_mpls-network, read_mpls_if-network, read_mpls_if-second, read_ip-address,
  parse_route_distinguisher-encode,
}

-- The state behind a route.
abbrev behind : Host → RdTuple → Route → ℕ → Bytes → EvpnState
behind h rd r read d = record {
  entry = route_tuple h rd r;
  read = read + length (encode_route r);
  rest = d;
}

abbrev before : RdTuple → Route → ℕ → Bytes → EvpnState
before rd r read d = record { entry = fresh_tuple rd; read = read; rest = encode_route r ++ d }

pub state_eq :
    {t : EvpnTuple} {n m : ℕ} {d : Bytes}
    → n ≡ m
    → ◌≡◌ {A = Result EvpnState}
        (ok (record { entry = t; read = n; rest = d }))
        (ok (record { entry = t; read = m; rest = d }))
state_eq {t = t} {d = d} e = ap (λ (k : ℕ). ok (record { entry = t; read = k; rest = d })) e

module _ (h : Host) (rd : RdTuple) (data_len read : ℕ) (d : Bytes) where
  ethernet_ad-encode :
      (esi tag : Bytes) (label : ℕ)
      → IsRoute (auto_discovery esi tag label)
      → read + length (encode_route (auto_discovery esi tag label)) ≤ data_len
      → ethernet_ad data_len (before rd (auto_discovery esi tag label) read d)
        ≡ ok (behind h rd (auto_discovery esi tag label) read d)
  unfolding ethernet_ad
  ethernet_ad-encode esi tag label (le, lt, vl) room =
      let size : length (encode_route (auto_discovery esi tag label)) ≡ 17 = omega (
        arith,
        le,
        lt,
        length-append esi (tag ++ network 3 label),
        length-append tag (network 3 label),
        length-network 3 label,
      ) in
      rw
        (
          le→leb (read + 17) data_len (omega (arith, size)),
          append_assoc esi (tag ++ network 3 label) d,
          append_assoc tag (network 3 label) d,
          read_bytes-length 10 esi (tag ++ (network 3 label ++ d)) le,
          read_bytes-length 4 tag (network 3 label ++ d) lt,
          read_mpls-network label d vl,
        )
        (state_eq (omega (arith, size)))

  inclusive_multicast-encode :
      (tag : Bytes) (addr : Address)
      → IsRoute (multicast tag addr)
      → read + length (encode_route (multicast tag addr)) ≤ data_len
      → inclusive_multicast h data_len (before rd (multicast tag addr) read d)
        ≡ ok (behind h rd (multicast tag addr) read d)
  unfolding inclusive_multicast read_u8
  inclusive_multicast-encode tag addr (lt, va) room =
      let size : length (encode_route (multicast tag addr)) ≡ 5 + length (address_bytes addr) =
        omega (arith, lt, length-append tag (address_bits addr ∷ address_bytes addr)) in
      rw
        (
          le→leb (read + 5) data_len (omega (arith, size)),
          append_assoc tag (address_bits addr ∷ address_bytes addr) d,
          read_bytes-length 4 tag (address_bits addr ∷ (address_bytes addr ++ d)) lt,
          read_ip-address h addr data_len (read + 5) d va (omega (arith, size)),
        )
        (state_eq (omega (arith, size)))

  mac_ip-encode :
      (esi tag : Bytes) (mac_len : ℕ) (mac : Bytes) (addr : Address) (label : ℕ) (second : Option ℕ)
      → IsRoute (mac_address esi tag mac_len mac addr label second)
      → read + length (encode_route (mac_address esi tag mac_len mac addr label second)) ≤ data_len
      → mac_ip h data_len
          (8 + length (encode_route (mac_address esi tag mac_len mac addr label second)))
          (before rd (mac_address esi tag mac_len mac addr label second) read d)
        ≡ ok (behind h rd (mac_address esi tag mac_len mac addr label second) read d)
  unfolding mac_ip read_u8
  mac_ip-encode esi tag mac_len mac addr label second (le, lt, lm, va, vl, vs) room =
      let end : Bytes = network 3 label ++ encode_second second in
      let tail : Bytes = mac ++ (address_bits addr ∷ address_bytes addr ++ end) in
      let size : length (encode_route (mac_address esi tag mac_len mac addr label second))
          ≡ 25 + length (address_bytes addr) + length (encode_second second) =
        omega (
          arith,
          le,
          lt,
          lm,
          length-append esi (tag ++ (mac_len ∷ tail)),
          length-append tag (mac_len ∷ tail),
          length-append mac (address_bits addr ∷ address_bytes addr ++ end),
          length-append (address_bytes addr) end,
          length-append (network 3 label) (encode_second second),
          length-network 3 label,
        ) in
      let n = length (address_bytes addr) in
      rw
        (
          size,
          le→leb (read + 25) data_len (omega (arith, size)),
          append_assoc esi (tag ++ (mac_len ∷ tail)) d,
          append_assoc tag (mac_len ∷ tail) d,
          append_assoc mac (address_bits addr ∷ address_bytes addr ++ end) d,
          append_assoc (address_bytes addr) end d,
          append_assoc (network 3 label) (encode_second second) d,
          read_bytes-length 10 esi _ le,
          read_bytes-length 4 tag _ lt,
          read_bytes-length 6 mac _ lm,
          read_ip-address h addr data_len (read + 22) _ va (omega (arith, size)),
          le→leb (read + 22 + n + 3) data_len (omega (arith, size)),
          read_mpls_if-network label (encode_second second ++ d) vl,
          read_mpls_if-second second d (8 + (25 + n + length (encode_second second)))
              (8 + 22 + n + 3) vs (omega arith),
        )
        (state_eq (omega (arith, size)))

  read_route-encode :
      (r : Route)
      → IsRoute r
      → read + length (encode_route r) ≤ data_len
      → read_route h data_len (route_code r) (8 + length (encode_route r)) (before rd r read d)
        ≡ ok (behind h rd r read d)
  unfolding read_route
  read_route-encode (auto_discovery esi tag label) v room = ethernet_ad-encode esi tag label v room
  read_route-encode (mac_address esi tag mac_len mac addr label second) v room =
      mac_ip-encode esi tag mac_len mac addr label second v room
  read_route-encode (multicast tag addr) v room = inclusive_multicast-encode tag addr v room

length-encode_rd : (a : Number) → IsNumber a → length (encode_rd a) ≡ 8
length-encode_rd a v = omega (arith, length-value_of a v)

pub length-encode_nlri :
    (n : Nlri) → IsNlri n → length (encode_nlri n) ≡ 10 + length (encode_route n.route)
length-encode_nlri n (va, v) =
    omega (arith, length-encode_rd n.rd va, length-append (encode_rd n.rd) (encode_route n.route))

pub drop-encode_rd : (a : Number) (d : Bytes) → IsNumber a → drop 8 (encode_rd a ++ d) ≡ d
drop-encode_rd a d v =
    subst (λ (k : ℕ). drop k (encode_rd a ++ d) ≡ d) (length-encode_rd a v)
      (drop-append-length (encode_rd a) d)

evpn_round-encode :
    (h : Host) (data_len read : ℕ) (n : Nlri) (d : Bytes)
    → IsNlri n
    → read + 10 + length (encode_route n.route) ≤ data_len
    → evpn_round h data_len read (encode_nlri n ++ d)
      ≡ ok (behind h (rd_of h n.rd) n.route (read + 10) d)
unfolding evpn_round read_u8
evpn_round-encode h data_len read n d (va, v) room =
    rw
      (
        append_assoc (encode_rd n.rd) (encode_route n.route) d,
        parse_route_distinguisher-encode h n.rd (encode_route n.route ++ d) (fresh_rd h) va,
        drop-encode_rd n.rd (encode_route n.route ++ d) va,
      )
      (read_route-encode h (rd_of h n.rd) data_len (read + 10) d n.route v room)

encode_route_pos : (r : Route) → IsRoute r → 0 < length (encode_route r)
encode_route_pos (auto_discovery esi tag label) (le, lt, vl) =
    omega (arith, le, length-append esi (tag ++ network 3 label))
encode_route_pos (mac_address esi tag mac_len mac addr label second) v =
    omega (arith, v.0, length-append esi _)
encode_route_pos (multicast tag addr) (lt, v) = omega (arith, lt, length-append tag _)

evpn_loop-encode :
    (ns : List Nlri) (h : Host) (f data_len read : ℕ) (out : List EvpnTuple)
    → All IsNlri ns
    → read + length (encode_nlris ns) ≡ data_len
    → data_len - read < f
    → evpn_loop h f data_len read (encode_nlris ns) out ≡ ok (out ++ map (tuple_of h) ns)
unfolding evpn_loop
evpn_loop-encode ns h zero data_len read out v e fuel = absurd (omega arith)
evpn_loop-encode [] h (suc f) data_len read out v e fuel =
    rw (le→ltb (read + 10) data_len (omega (arith, e)), append-nil out)
evpn_loop-encode (n ∷ ns) h (suc f) data_len read out (vn, v) e fuel =
    let size = length-encode_nlri n vn in
    let some = encode_route_pos n.route vn.1 in
    let whole = length-append (encode_nlri n) (encode_nlris ns) in
    rw
      (
        lt→ltb (read + 10) data_len (omega (arith, e, size, some, whole)),
        evpn_round-encode h data_len read n (encode_nlris ns) vn (omega (arith, e, size, whole)),
        evpn_loop-encode ns h f data_len (read + 10 + length (encode_route n.route))
            (out ++ (tuple_of h n ∷ [])) v (omega (arith, e, size, whole))
            (omega (arith, e, size, fuel, whole)),
        append_assoc out (tuple_of h n ∷ []) (map (tuple_of h) ns),
      )
      refl

-- EVPN routes of the types Ethernet auto-discovery, MAC/IP advertisement and inclusive multicast, with
-- or without an address and a second label, that are written one after another as RFC 7432 says are
-- read by EVPN's parseNlriData: one tuple for each, in order, with the fields of its route, at the end of
-- the advertised or, in an MP_UNREACH_NLRI attribute, of the withdrawn ones, and nothing else changes. A
-- label of 2 ^ 23 or more becomes negative, and the printed administrator of a distinguisher has the
-- number in front unless it is an address.
pub parse_evpn_nlri-encode :
    {L : Type 0} (h : Host) (unreach : Bool) (ns : List Nlri) (p : ParsedData (Others L))
    → All IsNlri ns
    → parse_evpn_nlri h unreach (encode_nlris ns) (length (encode_nlris ns)) p
      ≡ ok (record p {
        other =
            if unreach
            then record p.other { evpn_withdrawn = p.other.evpn_withdrawn ++ map (tuple_of h) ns }
            else record p.other { evpn = p.other.evpn ++ map (tuple_of h) ns };
      })
unfolding parse_evpn_nlri parse_nlri_data
parse_evpn_nlri-encode h unreach ns p v =
    rw
      (evpn_loop-encode ns h (suc (length (encode_nlris ns))) (length (encode_nlris ns)) 0 [] v
        (omega arith) (omega arith))
      refl
