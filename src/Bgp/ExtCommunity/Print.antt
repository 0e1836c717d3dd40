-- ===== src/Bgp/ExtCommunity/Print.antt =====
-- The text of route targets, route origins and colors, as the operators write them.
use sonic_bmp.Common.{
  ℕ, suc, ◌*◌, ◌/◌, ◌%◌, ◌^◌, ◌<◌, ◌≡◌, refl, ap, ≢→==, List, [], ◌∷◌, ◌++◌, append-nil,
  append_assoc, ◌==◌, if◌then◌else◌, true, Text, codes, to_dec, Bytes, All, length, length-append,
  ok, read_u8, read_bytes-length, network, arith,
}
use sonic_bmp.Bgp.Attrs.{set_attr}
use sonic_bmp.Bgp.AttrType.{ext_community}
use sonic_bmp.Bgp.Types.{Host, ParsedData}
use sonic_bmp.Bgp.ExtCommunity.Numbers.{
  Number, two_octet, four_octet, address, IsNumber, type_of, value_of, number_text, uint_of-network,
  any_number-value_of, length-value_of,
}
use sonic_bmp.Bgp.ExtCommunity.{
  decode_common, decode_opaque, decode_type, communities_loop, parse_ext_communities,
}

-- A community: RFC 4360 and RFC 5512.
pub data Community : Type 0 where
  route_target : Number → Community
  route_origin : Number → Community
  color : (r0 r1 c : ℕ) → Community

abbrev pub IsCommunity : Community → Type 0
IsCommunity (route_target a) = IsNumber a
IsCommunity (route_origin a) = IsNumber a
IsCommunity (color r0 r1 c) = c < 2 ^ 32

abbrev pub encode_community : Community → Bytes
encode_community (route_target a) = type_of a ∷ 2 ∷ value_of a
encode_community (route_origin a) = type_of a ∷ 3 ∷ value_of a
encode_community (color r0 r1 c) = 3 ∷ 11 ∷ r0 ∷ r1 ∷ network 4 c

abbrev pub encode_communities : List Community → Bytes
encode_communities [] = []
encode_communities (c ∷ cs) = encode_community c ++ encode_communities cs

abbrev pub community_text : Host → Community → Text
community_text h (route_target a) = codes "rt=" ++ number_text h a
community_text h (route_origin a) = codes "soo=" ++ number_text h a
community_text h (color r0 r1 c) = codes "color=" ++ to_dec c

-- With a blank between two of them.
abbrev pub communities_text : Host → List Community → Text
communities_text h [] = []
communities_text h (c ∷ []) = community_text h c
communities_text h (c ∷ cs) = community_text h c ++ (codes " " ++ communities_text h cs)

module _ (float_text : ℕ → Text) (h : Host) where
  target-text :
      (a : Number)
      → IsNumber a
      → decode_type float_text h (type_of a) 2 (value_of a) ≡ codes "rt=" ++ number_text h a
  unfolding decode_type decode_common
  target-text (two_octet asn n) v =
      ap (λ t. codes "rt=" ++ t) (any_number-value_of h (two_octet asn n) v)
  target-text (four_octet asn n) v =
      ap (λ t. codes "rt=" ++ t) (any_number-value_of h (four_octet asn n) v)
  target-text (address addr n) v =
      ap (λ t. codes "rt=" ++ t) (any_number-value_of h (address addr n) v)

  origin-text :
      (a : Number)
      → IsNumber a
      → decode_type float_text h (type_of a) 3 (value_of a) ≡ codes "soo=" ++ number_text h a
  unfolding decode_type decode_common
  origin-text (two_octet asn n) v =
      ap (λ t. codes "soo=" ++ t) (any_number-value_of h (two_octet asn n) v)
  origin-text (four_octet asn n) v =
      ap (λ t. codes "soo=" ++ t) (any_number-value_of h (four_octet asn n) v)
  origin-text (address addr n) v =
      ap (λ t. codes "soo=" ++ t) (any_number-value_of h (address addr n) v)

  -- A community is its type, its subtype and six bytes, and these are printed as its text.
  record Shape (c : Community) : Type 0 where
    high : ℕ
    low : ℕ
    value : Bytes
    same : encode_community c ≡ high ∷ low ∷ value
    six : length value ≡ 6
    printed : decode_type float_text h high low value ≡ community_text h c

  shape : (c : Community) → IsCommunity c → Shape c
  unfolding decode_type decode_opaque
  shape (route_target a) v = record {
    high = type_of a;
    low = 2;
    value = value_of a;
    same = refl;
    six = length-value_of a v;
    printed = target-text a v;
  }
  shape (route_origin a) v = record {
    high = type_of a;
    low = 3;
    value = value_of a;
    same = refl;
    six = length-value_of a v;
    printed = origin-text a v;
  }
  shape (color r0 r1 c) v = record {
    high = 3;
    low = 11;
    value = r0 ∷ r1 ∷ network 4 c;
    same = refl;
    six = refl;
    printed = rw (uint_of-network 4 c (omega (arith, v))) refl;
  }

  one-community :
      (c : Community) (k : ℕ) (d : Bytes) (acc : Text)
      → IsCommunity c
      → communities_loop float_text h (suc k) (encode_community c ++ d) acc
        ≡ communities_loop float_text h k d
            (acc ++ (community_text h c ++ (if k == 0 then [] else codes " ")))
  unfolding communities_loop read_u8
  one-community c k d acc v =
      let s = shape c v in rw (s.same, read_bytes-length 6 s.value d s.six, s.printed) refl

  no-community : (d : Bytes) (acc : Text) → communities_loop float_text h 0 d acc ≡ ok acc
  unfolding communities_loop
  no-community d acc = refl

  communities_loop-encode :
      (cs : List Community) (d : Bytes) (acc : Text)
      → All IsCommunity cs
      → communities_loop float_text h (length cs) (encode_communities cs ++ d) acc
        ≡ ok (acc ++ communities_text h cs)
  communities_loop-encode [] d acc vs = rw (no-community d acc, append-nil acc) refl
  communities_loop-encode (c ∷ []) d acc (v, vs) =
      rw
        (
          append_assoc (encode_community c) [] d,
          one-community c 0 d acc v,
          append-nil (community_text h c),
          no-community d (acc ++ community_text h c),
        )
        refl
  communities_loop-encode (c ∷ b ∷ cs) d acc (v, vs) =
      let t = community_text h c in
      rw
        (
          append_assoc (encode_community c) (encode_communities (b ∷ cs)) d,
          one-community c (suc (length cs)) (encode_communities (b ∷ cs) ++ d) acc v,
          ≢→== (suc (length cs)) 0 (omega arith),
          communities_loop-encode (b ∷ cs) d (acc ++ (t ++ codes " ")) vs,
          append_assoc acc (t ++ codes " ") (communities_text h (b ∷ cs)),
          append_assoc t (codes " ") (communities_text h (b ∷ cs)),
        )
        refl

  length-encode_communities :
      (cs : List Community) → All IsCommunity cs → length (encode_communities cs) ≡ length cs * 8
  length-encode_communities [] vs = refl
  length-encode_communities (c ∷ cs) (v, vs) =
      let s = shape c v in
      let n : length (encode_community c) ≡ 8 = rw s.same (omega (arith, s.six)) in
      omega (
        arith,
        n,
        length-append (encode_community c) (encode_communities cs),
        length-encode_communities cs vs,
      )

-- Route targets, route origins and colors that are written one after another as their RFCs say are
-- printed by parseExtCommunities in their order, with a blank between two of them, each with its
-- administrator and its number, and become the path's attribute; what follows them changes nothing.
pub parse_ext_communities-encode :
    {X : Type 0} (float_text : ℕ → Text) (h : Host) (cs : List Community) (d : Bytes)
    (p : ParsedData X)
    → All IsCommunity cs
    → parse_ext_communities float_text h
        (length (encode_communities cs))
        (encode_communities cs ++ d)
        p
      ≡ ok (record p { attrs = set_attr ext_community (communities_text h cs) p.attrs })
unfolding parse_ext_communities
parse_ext_communities-encode float_text h cs d p vs =
    let n = length cs in
    let len = length-encode_communities float_text h cs vs in
    let even : (n * 8 % 8 == 0) ≡ true = ground arith in
    let count : n * 8 / 8 ≡ n = omega arith in
    rw (len, even, count, communities_loop-encode float_text h cs d [] vs) refl
