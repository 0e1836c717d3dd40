-- ===== src/Bgp/MpUnreach/RoundTrip.antt =====
-- An MP_UNREACH_NLRI attribute of unicast prefixes that is written as RFC 4760 (section 4) says is read
-- back, and one with no prefixes is the End-of-RIB marker.
use sonic_bmp.Common.{
  ℕ, ◌+◌, ◌-◌, ◌%◌, ◌^◌, ◌<◌, ◌≡◌, refl, Bool, true, false, List, [], All, ◌∷◌, ◌++◌, map, Bytes,
  length, arith, ok, read_u8, network, read_uint-network, le→ltb,
}
use sonic_bmp.Bgp.AddPath.{is_add_path_enabled}
use sonic_bmp.Bgp.MpReach.RoundTrip.{family}
use sonic_bmp.Bgp.MpUnreach.{unreach_ipv4_ipv6, unreach_afi, parse_unreach_nlri_attr}
use sonic_bmp.Bgp.Nlri.RoundTrip.{
  Route, IsRoute, encode_all, encode_all-ne-zero, stored_unicast,
  parse_nlri_data_ipv4_ipv6-encode_all,
}
use sonic_bmp.Bgp.Types.{Host, Session, Callees, safi_unicast}

abbrev pub encode_unreach : ℕ → ℕ → Bytes → Bytes
encode_unreach afi safi nlri = network 2 afi ++ (safi ∷ nlri)

module _ {X : Type 0} where
  -- What the attribute means: the End-of-RIB marker, or routes that are gone.
  abbrev pub unreach_result : Host → Bool → List Route → Session X → Session X
  unreach_result h ipv4 [] s = record s { info = record s.info { end_of_rib = true } }
  unreach_result h ipv4 (r ∷ rs) s = record s {
    parsed = record s.parsed {
      withdrawn = s.parsed.withdrawn ++ map (stored_unicast h ipv4) (r ∷ rs);
    };
  }

  -- The MP_UNREACH_NLRI attribute of unicast prefixes of IPv4 or IPv6, with path ids exactly if the
  -- family takes part in ADD-PATH, is read back by parseUnReachNlriAttr, whatever follows it: with no
  -- prefix it is the End-of-RIB marker, and otherwise the prefixes are put behind those withdrawn so
  -- far and nothing else changes.
  pub parse_unreach_nlri_attr-encode_unreach :
      (h : Host) (c : Callees X) (ipv4 enabled : Bool) (rs : List Route) (d : Bytes) (s : Session X)
      → is_add_path_enabled (family ipv4) safi_unicast s.info.add_path_capability ≡ enabled
      → All (IsRoute enabled 16) rs
      → length (encode_all enabled rs) < 2 ^ 16
      → parse_unreach_nlri_attr h c
          (3 + length (encode_all enabled rs))
          (encode_unreach (family ipv4) safi_unicast (encode_all enabled rs ++ d))
          s
        ≡ ok (unreach_result h ipv4 rs s)
  unfolding parse_unreach_nlri_attr unreach_afi unreach_ipv4_ipv6 read_u8
  parse_unreach_nlri_attr-encode_unreach h c true enabled [] d s e v short =
      rw (read_uint-network 2 1 (1 ∷ d) (omega arith)) refl
  parse_unreach_nlri_attr-encode_unreach h c false enabled [] d s e v short =
      rw (read_uint-network 2 2 (1 ∷ d) (omega arith)) refl
  parse_unreach_nlri_attr-encode_unreach h c true enabled (r ∷ rs) d s e v short =
      let n = length (encode_all enabled (r ∷ rs)) in
      let left : (3 + n - 3) % 2 ^ 16 ≡ n = omega (arith, short) in
      rw
        (
          read_uint-network 2 1 (1 ∷ (encode_all enabled (r ∷ rs) ++ d)) (omega arith),
          le→ltb (3 + n) 3 (omega arith),
          left,
          encode_all-ne-zero enabled r rs,
          parse_nlri_data_ipv4_ipv6-encode_all h true s.info enabled (r ∷ rs) d s.parsed.withdrawn e
              v,
        )
        refl
  parse_unreach_nlri_attr-encode_unreach h c false enabled (r ∷ rs) d s e v short =
      let n = length (encode_all enabled (r ∷ rs)) in
      let left : (3 + n - 3) % 2 ^ 16 ≡ n = omega (arith, short) in
      rw
        (
          read_uint-network 2 2 (1 ∷ (encode_all enabled (r ∷ rs) ++ d)) (omega arith),
          le→ltb (3 + n) 3 (omega arith),
          left,
          encode_all-ne-zero enabled r rs,
          parse_nlri_data_ipv4_ipv6-encode_all h false s.info enabled (r ∷ rs) d s.parsed.withdrawn
              e v,
        )
        refl
