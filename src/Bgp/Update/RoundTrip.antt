-- ===== src/Bgp/Update/RoundTrip.antt =====
-- An update message that is written as RFC 4271 (section 4.3) says is read back.
use sonic_bmp.Common.{
  ℕ, ◌+◌, ◌%◌, ◌^◌, ◌<◌, ◌≡◌, refl, ap, ◌∙◌, Bool, true, false, ◌&&◌, List, [], All, ◌∷◌, ◌++◌, map,
  ◌==◌, ltb, if◌then◌else◌, Bool-cases, inl, inr, Bytes, length, drop-append-length, append-nil,
  arith, Result, ok, ◌>>=◌, network, read_uint-network, le→ltb,
}
use sonic_bmp.Bgp.AddPath.{is_add_path_enabled}
use sonic_bmp.Bgp.Attributes.Format.{Attr, IsAttr, encode_attrs, apply_value, apply_attrs}
use sonic_bmp.Bgp.Attributes.RoundTrip.{
  apply_value-info, apply_value-advertised, parse_attributes-encode_attrs,
}
use sonic_bmp.Bgp.Nlri.RoundTrip.{
  Route, IsRoute, encode_all, stored_v4, encode_all-ne-zero, parse_nlri_data_v4-encode_all,
}
use sonic_bmp.Bgp.Types.{Host, Session, Callees, afi_ipv4, safi_unicast}
use sonic_bmp.Bgp.Update.{
  sub64, clear, withdrawn_part, attributes_part, nlri_part, parse_update_msg,
}

-- The message's parts: the withdrawn routes, the path attributes and the advertised routes.
pub record Update : Type 0 where
  pub gone : List Route
  pub attrs : List Attr
  pub routes : List Route

-- `enabled` says whether path ids are written, `two` whether AS paths have two octets for an ASN.
pub record IsUpdate (enabled two : Bool) (u : Update) : Type 0 where
  pub are_gone : All (IsRoute enabled 4) u.gone
  pub are_attrs : All (IsAttr two) u.attrs
  pub are_routes : All (IsRoute enabled 4) u.routes
  pub gone_short : length (encode_all enabled u.gone) < 256 ^ 2
  pub attrs_short : length (encode_attrs two u.attrs) < 256 ^ 2
  pub routes_short : length (encode_all enabled u.routes) < 2 ^ 16

abbrev pub encode_update : Bool → Bool → Update → Bytes → Bytes
encode_update enabled two u d =
    network 2 (length (encode_all enabled u.gone))
    ++ (encode_all enabled u.gone
        ++ (network 2 (length (encode_attrs two u.attrs))
            ++ (encode_attrs two u.attrs ++ (encode_all enabled u.routes ++ d))))

abbrev pub update_size : Bool → Bool → Update → ℕ
update_size enabled two u =
    4
    + length (encode_all enabled u.gone)
    + length (encode_attrs two u.attrs)
    + length (encode_all enabled u.routes)

abbrev is_nil {ℓ} : {A : Type ℓ} → List A → Bool
is_nil [] = true
is_nil (x ∷ xs) = false

encode_all-is_nil :
    (enabled : Bool) (rs : List Route) → (length (encode_all enabled rs) == 0) ≡ is_nil rs
encode_all-is_nil enabled [] = refl
encode_all-is_nil enabled (r ∷ rs) = encode_all-ne-zero enabled r rs

encode_attrs-is_nil :
    (two : Bool) (xs : List Attr) → (length (encode_attrs two xs) == 0) ≡ is_nil xs
encode_attrs-is_nil two [] = refl
encode_attrs-is_nil two (x ∷ xs) = ground arith

sub64-add : (a b : ℕ) → a < 2 ^ 64 → sub64 (b + a) b ≡ a
sub64-add a b h = omega arith

module _ {X : Type 0} where
  apply_attrs-info :
      (h : Host) (xs : List Attr) (s : Session X) → (apply_attrs h xs s).info ≡ s.info
  apply_attrs-info h [] s = refl
  apply_attrs-info h (x ∷ xs) s =
      apply_attrs-info h xs (apply_value h x.value s) ∙ apply_value-info h x.value s

  apply_attrs-advertised :
      (h : Host) (xs : List Attr) (s : Session X)
      → (apply_attrs h xs s).parsed.advertised ≡ s.parsed.advertised
  apply_attrs-advertised h [] s = refl
  apply_attrs-advertised h (x ∷ xs) s =
      apply_attrs-advertised h xs (apply_value h x.value s) ∙ apply_value-advertised h x.value s

  withdrawn_part-encode :
      (h : Host) (enabled : Bool) (rs : List Route) (d : Bytes) (s : Session X)
      → is_add_path_enabled afi_ipv4 safi_unicast s.info.add_path_capability ≡ enabled
      → All (IsRoute enabled 4) rs
      → withdrawn_part h (encode_all enabled rs ++ d) (length (encode_all enabled rs)) s
        ≡ ok (record s {
          parsed = record s.parsed { withdrawn = s.parsed.withdrawn ++ map (stored_v4 h) rs };
        })
  unfolding withdrawn_part
  withdrawn_part-encode h enabled [] d s e v = rw (append-nil s.parsed.withdrawn) refl
  withdrawn_part-encode h enabled (r ∷ rs) d s e v =
      let n = length (encode_all enabled (r ∷ rs)) in
      let some : ltb 0 n ≡ true = ground (arith, encode_all-ne-zero enabled r rs) in
      rw (some, parse_nlri_data_v4-encode_all h s.info enabled (r ∷ rs) d s.parsed.withdrawn e v)
        refl

  nlri_part-encode :
      (h : Host) (enabled : Bool) (rs : List Route) (d : Bytes) (s : Session X)
      → is_add_path_enabled afi_ipv4 safi_unicast s.info.add_path_capability ≡ enabled
      → All (IsRoute enabled 4) rs
      → length (encode_all enabled rs) < 2 ^ 16
      → nlri_part h (encode_all enabled rs ++ d) (length (encode_all enabled rs)) s
        ≡ ok (record s {
          parsed = record s.parsed { advertised = s.parsed.advertised ++ map (stored_v4 h) rs };
        })
  unfolding nlri_part
  nlri_part-encode h enabled [] d s e v small = rw (append-nil s.parsed.advertised) refl
  nlri_part-encode h enabled (r ∷ rs) d s e v small =
      let n = length (encode_all enabled (r ∷ rs)) in
      let some : ltb 0 n ≡ true = ground (arith, encode_all-ne-zero enabled r rs) in
      let whole : n % 2 ^ 16 ≡ n = omega (arith, small) in
      rw
        (
          some,
          whole,
          parse_nlri_data_v4-encode_all h s.info enabled (r ∷ rs) d s.parsed.advertised e v,
        )
        refl

  attributes_part-encode :
      (h : Host) (c : Callees X) (xs : List Attr) (d : Bytes) (s : Session X)
      → All (IsAttr s.info.using_2_octet_asn) xs
      → attributes_part h c
          (encode_attrs s.info.using_2_octet_asn xs ++ d)
          (length (encode_attrs s.info.using_2_octet_asn xs))
          s
        ≡ ok (apply_attrs h xs s)
  unfolding attributes_part
  attributes_part-encode h c [] d s v = refl
  attributes_part-encode h c (x ∷ xs) d s v =
      let n = length (encode_attrs s.info.using_2_octet_asn (x ∷ xs)) in
      let some : ltb 0 n ≡ true = ground arith in
      rw (some, parse_attributes-encode_attrs h c (x ∷ xs) d s v) refl

  -- What an update message means: the End-of-RIB marker when it has no part, and otherwise its three
  -- lists alone, whatever earlier messages left in them.
  abbrev pub update_result : Host → Update → Session X → Session X
  update_result h u s0 =
      let s = record s0 {
        parsed = record s0.parsed { attrs = []; withdrawn = []; advertised = [] };
      } in
      let s1 = record s { parsed = record s.parsed { withdrawn = map (stored_v4 h) u.gone } } in
      let s2 = apply_attrs h u.attrs s1 in
      if is_nil u.gone && (is_nil u.routes && is_nil u.attrs)
      then record s { info = record s.info { end_of_rib = true } }
      else record s2 { parsed = record s2.parsed { advertised = map (stored_v4 h) u.routes } }

  three_parts :
      (h : Host) (c : Callees X) (enabled : Bool) (u : Update) (m : ℕ) (a b d : Bytes)
      (s0 : Session X)
      → is_add_path_enabled afi_ipv4 safi_unicast s0.info.add_path_capability ≡ enabled
      → IsUpdate enabled s0.info.using_2_octet_asn u
      → (let two = s0.info.using_2_octet_asn in
          let gone = encode_all enabled u.gone in
          let attrs = encode_attrs two u.attrs in
          let routes = encode_all enabled u.routes in
          let s = clear s0 in
          let s1 = record s { parsed = record s.parsed { withdrawn = map (stored_v4 h) u.gone } } in
          let s2 = apply_attrs h u.attrs s1 in
          ◌≡◌ {A = Result (ℕ × Session X)}
            (withdrawn_part h (gone ++ a) (length gone) s >>= λ t1.
              attributes_part h c (attrs ++ b) (length attrs) t1 >>= λ t2.
              nlri_part h (routes ++ d) (length routes) t2 >>= λ t3. ok (m, t3))
            (ok (
              m,
              record s2 { parsed = record s2.parsed { advertised = map (stored_v4 h) u.routes } },
            )))
  unfolding clear
  three_parts h c enabled u m a b d s0 e v =
      let s = clear s0 in
      let s1 = record s { parsed = record s.parsed { withdrawn = map (stored_v4 h) u.gone } } in
      let s2 = apply_attrs h u.attrs s1 in
      let same : s2.info ≡ s0.info = apply_attrs-info h u.attrs s1 in
      let none : s2.parsed.advertised ≡ [] = apply_attrs-advertised h u.attrs s1 in
      rw
        (
          withdrawn_part-encode h enabled u.gone a s e v.are_gone,
          attributes_part-encode h c u.attrs b s1 v.are_attrs,
          nlri_part-encode h enabled u.routes d s2
              (ap (λ p. is_add_path_enabled afi_ipv4 safi_unicast p.add_path_capability) same ∙ e)
              v.are_routes v.routes_short,
          none,
        )
        refl

  -- An update message that is written with any withdrawn routes, known path attributes and advertised
  -- routes, within the sizes of its length fields, from a peer whose path ids and AS paths are written
  -- as its state says, is read back by parseUpdateMsg, whatever stands behind it: the message is
  -- consumed whole, the three lists replace those of the message before, and a message with no part,
  -- and no other, is taken as the End-of-RIB marker.
  pub parse_update_msg-encode_update :
      (h : Host) (c : Callees X) (enabled : Bool) (u : Update) (d : Bytes) (s : Session X)
      → is_add_path_enabled afi_ipv4 safi_unicast s.info.add_path_capability ≡ enabled
      → IsUpdate enabled s.info.using_2_octet_asn u
      → parse_update_msg h c
          (encode_update enabled s.info.using_2_octet_asn u d)
          (update_size enabled s.info.using_2_octet_asn u)
          s
        ≡ ok (update_size enabled s.info.using_2_octet_asn u, update_result h u s)
  unfolding parse_update_msg clear
  parse_update_msg-encode_update h c enabled u d s e v =
      let two = s.info.using_2_octet_asn in
      let gone = encode_all enabled u.gone in
      let attrs = encode_attrs two u.attrs in
      let routes = encode_all enabled u.routes in
      let w = length gone in
      let a = length attrs in
      let n = length routes in
      let size = 4 + w + a + n in
      let rest2 = network 2 a ++ (attrs ++ (routes ++ d)) in
      let long : ltb size 2 ≡ false = le→ltb size 2 (omega arith) in
      let fit1 : ltb (sub64 size 2) w ≡ false =
        le→ltb (sub64 size 2) w (omega (arith, v.gone_short, v.attrs_short, v.routes_short)) in
      let fit2 : ltb (sub64 size (2 + w + 2)) a ≡ false =
        le→ltb (sub64 size (2 + w + 2)) a
          (omega (arith, v.gone_short, v.attrs_short, v.routes_short)) in
      let left : sub64 size (2 + w + 2 + a) ≡ n =
        omega (arith, v.gone_short, v.attrs_short, v.routes_short) in
      let whole : (if ltb 0 n then size else 2 + w + 2 + a) ≡ size = ground arith in
      rw
        (
          long,
          parse_update_msg,
          read_uint-network 2 w (gone ++ rest2) v.gone_short,
          fit1,
          drop-append-length gone rest2,
          read_uint-network 2 a (attrs ++ (routes ++ d)) v.attrs_short,
          fit2,
          drop-append-length attrs (routes ++ d),
          left,
          encode_all-is_nil enabled u.gone,
          encode_all-is_nil enabled u.routes,
          encode_attrs-is_nil two u.attrs,
        )
        (elim (Bool-cases (is_nil u.gone && (is_nil u.routes && is_nil u.attrs))) [
          | inl empty ↦
              let all : 2 + w + 2 + a ≡ size =
                ground (arith, encode_all-is_nil enabled u.routes, empty) in
              rw (empty, all) refl
          | inr full ↦ rw (full, whole) (three_parts h c enabled u size rest2 (routes ++ d) d s e v)
        ])
