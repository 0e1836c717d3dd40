-- ===== src/Bgp/MpReach/RoundTrip.antt =====
-- An MP_REACH_NLRI attribute of unicast prefixes that is written as RFC 4760 (section 3) says is read
-- back, and one that is too short for its next hop changes nothing.
use sonic_bmp.Common.{
  ℕ, ◌+◌, ◌-◌, ◌%◌, ◌^◌, ◌≤◌, ◌<◌, ◌≡◌, refl, Bool, true, false, List, All, ◌∷◌, ◌++◌, map, min,
  ltb, if◌then◌else◌, Bytes, length, drop-append-length, arith, ok, read_u8, network,
  read_uint-network, read_bytes-length, lt→ltb, le→ltb,
}
use sonic_bmp.Bgp.AddPath.{is_add_path_enabled}
use sonic_bmp.Bgp.MpReach.{
  next_hop_text, set_next_hop, reach_ipv4_ipv6, reach_afi, parse_reach_nlri_attr,
}
use sonic_bmp.Bgp.Nlri.RoundTrip.{
  Route, IsRoute, encode_all, padded, copy_into-padded, stored_unicast,
  parse_nlri_data_ipv4_ipv6-encode_all,
}
use sonic_bmp.Bgp.Types.{Host, PeerInfo, ParsedData, Callees, afi_ipv4, afi_ipv6, safi_unicast}

abbrev pub family : Bool → ℕ
family ipv4 = if ipv4 then afi_ipv4 else afi_ipv6

-- The attribute's value: family, next hop, a reserved byte, prefixes.
abbrev pub encode_reach : ℕ → ℕ → Bytes → Bytes → Bytes
encode_reach afi safi hop nlri = network 2 afi ++ (safi ∷ length hop ∷ (hop ++ (0 ∷ nlri)))

next_hop_text-encode :
    (h : Host) (ipv4 : Bool) (hop d : Bytes)
    → length hop ≤ 16
    → next_hop_text h ipv4 (length hop) (hop ++ d) ≡ ok (h.inet_ntop ipv4 (padded 16 hop))
unfolding next_hop_text
next_hop_text-encode h ipv4 hop d small =
    let all : min (length hop) 16 ≡ length hop = omega arith in
    rw (all, read_bytes-length (length hop) hop d refl, copy_into-padded 16 hop small) refl

module _ {X : Type 0} where
  -- The MP_REACH_NLRI attribute of unicast prefixes of IPv4 or IPv6, with a next hop of at most
  -- sixteen bytes and path ids exactly if the family takes part in ADD-PATH, is read back by
  -- parseReachNlriAttr, whatever follows it: the next hop, filled up with zero bytes, is printed into
  -- its attribute, the prefixes are put behind those advertised so far, and nothing else changes.
  pub parse_reach_nlri_attr-encode_reach :
      (h : Host) (c : Callees X) (info : PeerInfo) (ipv4 enabled : Bool) (hop : Bytes)
      (rs : List Route) (d : Bytes) (p : ParsedData X)
      → is_add_path_enabled (family ipv4) safi_unicast info.add_path_capability ≡ enabled
      → length hop ≤ 16
      → All (IsRoute enabled 16) rs
      → length (encode_all enabled rs) < 2 ^ 16
      → parse_reach_nlri_attr h c info
          (5 + length hop + length (encode_all enabled rs))
          (encode_reach (family ipv4) safi_unicast hop (encode_all enabled rs ++ d))
          p
        ≡ ok (record (set_next_hop (h.inet_ntop ipv4 (padded 16 hop)) p) {
          advertised = p.advertised ++ map (stored_unicast h ipv4) rs;
        })
  unfolding parse_reach_nlri_attr reach_afi reach_ipv4_ipv6 set_next_hop read_u8
  parse_reach_nlri_attr-encode_reach h c info true enabled hop rs d p e small v short =
      let nlri = encode_all enabled rs in
      let n = length nlri in
      let tail = 0 ∷ (nlri ++ d) in
      let long : ltb (5 + length hop + n) (5 + length hop) ≡ false =
        le→ltb (5 + length hop + n) (5 + length hop) (omega arith) in
      let left : (5 + length hop + n - (5 + length hop)) % 2 ^ 16 ≡ n = omega (arith, short) in
      rw
        (
          read_uint-network 2 1 (1 ∷ length hop ∷ (hop ++ tail)) (omega arith),
          drop-append-length hop tail,
          long,
          left,
          next_hop_text-encode h true hop tail small,
          parse_nlri_data_ipv4_ipv6-encode_all h true info enabled rs d p.advertised e v,
        )
        refl
  parse_reach_nlri_attr-encode_reach h c info false enabled hop rs d p e small v short =
      let nlri = encode_all enabled rs in
      let n = length nlri in
      let tail = 0 ∷ (nlri ++ d) in
      let long : ltb (5 + length hop + n) (5 + length hop) ≡ false =
        le→ltb (5 + length hop + n) (5 + length hop) (omega arith) in
      let left : (5 + length hop + n - (5 + length hop)) % 2 ^ 16 ≡ n = omega (arith, short) in
      rw
        (
          read_uint-network 2 2 (1 ∷ length hop ∷ (hop ++ tail)) (omega arith),
          drop-append-length hop tail,
          long,
          left,
          next_hop_text-encode h false hop tail small,
          parse_nlri_data_ipv4_ipv6-encode_all h false info enabled rs d p.advertised e v,
        )
        refl

  -- An MP_REACH_NLRI attribute of any family whose announced length does not hold its next hop is
  -- ignored by parseReachNlriAttr.
  pub parse_reach_nlri_attr-short :
      (h : Host) (c : Callees X) (info : PeerInfo) (afi safi len : ℕ) (hop nlri : Bytes)
      (p : ParsedData X)
      → afi < 256 ^ 2
      → len < 5 + length hop
      → parse_reach_nlri_attr h c info len (encode_reach afi safi hop nlri) p ≡ ok p
  unfolding parse_reach_nlri_attr read_u8
  parse_reach_nlri_attr-short h c info afi safi len hop nlri p small short =
      rw
        (
          read_uint-network 2 afi (safi ∷ length hop ∷ (hop ++ (0 ∷ nlri))) small,
          drop-append-length hop (0 ∷ nlri),
          lt→ltb len (5 + length hop) short,
        )
        refl
